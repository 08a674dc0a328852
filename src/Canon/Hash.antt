-- ===== src/Canon/Hash.antt =====
-- crates/ancre-canon/src/hash.rs: digests, the incremental hasher and the tagged hashes.
-- The compression function (BLAKE3 or SHA-256, chosen by a build feature) is the parameter
-- `Digest`; bytes are numbers.
pub mod Separation
use ancre.Prelude.{
  ℕ, ◌≡◌, ◌≢◌, ◌↔◌, refl, ap, Bool, true, List, [], ◌∷◌, ◌++◌, ◌⊎◌, inl, inr, length, replicate, Eq,
  ℕ-Eq, List-Eq, list_eq, list_eq_iff, Eq-cases,
}

-- Hash32: the bytes of a digest. Their number, 32, is the predicate `IsHash32`.
pub record Hash32 : Type 0 where
  pub bytes : List ℕ

abbrev pub IsHash32 : Hash32 → Type 0
IsHash32 h = length h.bytes ≡ 32

unfoldable pub hash_eq : Hash32 → Hash32 → Bool
hash_eq a b = list_eq a.bytes b.bytes

pub hash_eq_iff : (a b : Hash32) → (hash_eq a b ≡ true) ↔ (a ≡ b)
unfolding hash_eq
hash_eq_iff a b = (
  λ h.
      ap (λ (bs : List ℕ). let r : Hash32 = record { bytes = bs } in r)
        ((list_eq_iff a.bytes b.bytes).0 h),
  λ p. (list_eq_iff a.bytes b.bytes).1 (ap (λ (r : Hash32). r.bytes) p),
)

instance abbrev pub Hash32-Eq : Eq Hash32
Hash32-Eq = record { same = hash_eq; same_iff = hash_eq_iff }

-- GENESIS: `prev_hash` of the first event of a chain.
abbrev pub genesis : Hash32
genesis = record { bytes = replicate 32 0 }

-- The hash function of the blake3 or sha2 crate. A digest has 32 bytes.
pub record Digest : Type 0 where
  pub digest : List ℕ → Hash32
  pub digest_width : (bs : List ℕ) → IsHash32 (digest bs)

-- Two different inputs with one digest.
pub Collision : Digest → Type 0
Collision d = (xs : List ℕ) × (ys : List ℕ) × (xs ≢ ys) × (d.digest xs ≡ d.digest ys)

-- What an incremental hasher has absorbed so far: `finalize` depends on the concatenation of the
-- updates alone.
pub record Hasher : Type 0 where
  pub absorbed : List ℕ

abbrev pub new_hasher : Hasher
new_hasher = record { absorbed = [] }

abbrev pub update : Hasher → List ℕ → Hasher
update h bs = record { absorbed = h.absorbed ++ bs }

module _ ⦃d : Digest⦄ where
  abbrev pub finalize : Hasher → Hash32
  finalize h = d.digest h.absorbed

  unfoldable pub hash_bytes : List ℕ → Hash32
  hash_bytes bs = finalize (update new_hasher bs)

abbrev leaf_tag : ℕ
leaf_tag = 0

abbrev node_tag : ℕ
node_tag = 1

-- b"ancre-tree/empty"
abbrev empty_tag : List ℕ
empty_tag =
    97 ∷ 110 ∷ 99 ∷ 114 ∷ 101 ∷ 45 ∷ 116 ∷ 114 ∷ 101 ∷ 101 ∷ 47 ∷ 101 ∷ 109 ∷ 112 ∷ 116 ∷ 121 ∷ []

module _ ⦃d : Digest⦄ where
  -- The root of a tree without leaves.
  unfoldable pub hash_empty : Hash32
  unfolding hash_bytes
  hash_empty = hash_bytes empty_tag

  unfoldable pub hash_leaf : Hash32 → Hash32
  hash_leaf leaf = finalize (update (update new_hasher (leaf_tag ∷ [])) leaf.bytes)

  unfoldable pub hash_node : Hash32 → Hash32 → Hash32
  hash_node left right =
      finalize (update (update (update new_hasher (node_tag ∷ [])) left.bytes) right.bytes)

module _ ⦃d : Digest⦄ where
  -- Equal digests come from equal inputs, or a collision is at hand.
  pub digest-injective : (xs ys : List ℕ) → d.digest xs ≡ d.digest ys → (xs ≡ ys) ⊎ Collision d
  unfolding Collision
  digest-injective xs ys h = elim (Eq-cases xs ys) [ inl e ↦ inl e | inr ne ↦ inr (xs, ys, ne, h) ]

  pub hash_leaf-IsHash32 : (leaf : Hash32) → IsHash32 (hash_leaf leaf)
  unfolding hash_leaf
  hash_leaf-IsHash32 leaf = d.digest_width _

  pub hash_node-IsHash32 : (l r : Hash32) → IsHash32 (hash_node l r)
  unfolding hash_node
  hash_node-IsHash32 l r = d.digest_width _

  pub hash_empty-IsHash32 : IsHash32 hash_empty
  unfolding hash_empty
  hash_empty-IsHash32 = d.digest_width _
