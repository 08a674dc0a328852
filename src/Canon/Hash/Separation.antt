-- ===== src/Canon/Hash/Separation.antt =====
-- crates/ancre-canon/src/hash.rs: the tags keep leaves, inner nodes and the empty tree apart, and
-- each tagged hash is injective, up to a collision of the hash function.
use ancre.Prelude.{◌≡◌, refl, ap, List, [], ◌∷◌, ◌++◌, ◌⊎◌, inl, inr, arith, length}
use mathlib.Core.List.{head?}
use ancre.Canon.Hash.{
  Hash32, IsHash32, Digest, Collision, hash_empty, hash_leaf, hash_node, digest-injective,
}

pub Hash32-ext : (a b : Hash32) → a.bytes ≡ b.bytes → a ≡ b
Hash32-ext a b h = ground arith

-- Two splits at one width agree.
pub append-injective {ℓ} :
    {A : Type ℓ} (xs ys us vs : List A)
    → length xs ≡ length ys
    → xs ++ us ≡ ys ++ vs
    → (xs ≡ ys) × (us ≡ vs)
append-injective [] [] us vs n h = (refl, h)
append-injective [] (y ∷ ys) us vs n h = absurd (omega arith)
append-injective (x ∷ xs) [] us vs n h = absurd (omega arith)
append-injective (x ∷ xs) (y ∷ ys) us vs n h =
    let rest = append-injective xs ys us vs (omega arith) (cc) in (cc rest.0, rest.1)

module _ ⦃d : Digest⦄ where
  pub hash_leaf-injective : (a b : Hash32) → hash_leaf a ≡ hash_leaf b → (a ≡ b) ⊎ Collision d
  unfolding hash_leaf
  hash_leaf-injective a b h = elim (digest-injective _ _ h) [
    | inl e ↦ inl (Hash32-ext a b (cc))
    | inr c ↦ inr c
  ]

  pub hash_node-injective :
      (l r l' r' : Hash32)
      → IsHash32 l
      → IsHash32 l'
      → hash_node l r ≡ hash_node l' r'
      → ((l ≡ l') × (r ≡ r')) ⊎ Collision d
  unfolding hash_node
  hash_node-injective l r l' r' w w' h = elim (digest-injective _ _ h) [
    | inl e ↦
        let parts = append-injective l.bytes l'.bytes r.bytes r'.bytes (omega arith) (cc) in
        inl (Hash32-ext l l' parts.0, Hash32-ext r r' parts.1)
    | inr c ↦ inr c
  ]

  pub hash_leaf-ne-node : (a l r : Hash32) → hash_leaf a ≡ hash_node l r → Collision d
  unfolding hash_leaf hash_node Collision
  hash_leaf-ne-node a l r h = (_, _, (λ e. ground (arith, ap head? e)), h)

  pub hash_empty-ne-leaf : (a : Hash32) → hash_empty ≡ hash_leaf a → Collision d
  unfolding hash_leaf hash_empty Collision
  hash_empty-ne-leaf a h = (_, _, (λ e. ground (arith, ap head? e)), h)

  pub hash_empty-ne-node : (l r : Hash32) → hash_empty ≡ hash_node l r → Collision d
  unfolding hash_node hash_empty Collision
  hash_empty-ne-node l r h = (_, _, (λ e. ground (arith, ap head? e)), h)
