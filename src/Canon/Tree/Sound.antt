-- ===== src/Canon/Tree/Sound.antt =====
-- crates/ancre-canon/src/hash.rs: a path that leads to the root of a range shows membership, and a
-- root is the root of one range only, up to a collision of the hash function.
use ancre.Prelude.{
  ℕ, zero, suc, ◌-◌, ◌≤◌, ◌<◌, ◌≡◌, refl, sym, ap, ap₂, ◌∙◌, ◌⊎◌, inl, inr, true, false, List, [],
  ◌∷◌, ◌++◌, some, arith, length, take, drop, ltb, Bool-cases, length-append, All, get_elem?,
  ltb→lt, ltb→le, take-append-drop,
}
use ancre.Canon.Hash.{Hash32, Digest, IsHash32, Collision, hash_node, hash_leaf, hash_leaf-IsHash32}
use ancre.Canon.Hash.Separation.{
  hash_leaf-injective, hash_node-injective, hash_leaf-ne-node, hash_empty-ne-leaf,
  hash_empty-ne-node,
}
use ancre.Canon.Tree.{tree_root, root_from_proof, climb, largest_pow2_below}
use ancre.Canon.Tree.Unfold.{
  split, left-lt, right-lt, length-left, length-right, tree_root-split, tree_root_single,
  tree_root_nil,
}
use ancre.Canon.Tree.Path.{
  sides_of, sides_one, sides_left, sides_right, climb-IsHash32, tree_root-IsHash32,
  root_from_proof_lem,
}
use ancre.Canon.Tree.Inclusion.{climb_of, climb_side, get_elem?-left, get_elem?-right}

-- A list that is not empty ends in an element.
snoc-cases {ℓ} :
    {A : Type ℓ} (xs : List A) → 0 < length xs → (ys : List A) × (y : A) × (xs ≡ ys ++ y ∷ [])
snoc-cases [] h = absurd (omega arith)
snoc-cases (x ∷ []) h = ([], x, refl)
snoc-cases (x ∷ x' ∷ r) h =
    let (ys, y, e) = snoc-cases (x' ∷ r) (omega arith) in (x ∷ ys, y, ap (◌∷◌ x) e)

All-snoc {ℓ κ} :
    {A : Type ℓ} (P : A → Type κ) (xs : List A) (a : A) → All P (xs ++ a ∷ []) → All P xs × P a
All-snoc P [] a h = (tt, h.0)
All-snoc P (x ∷ xs) a h = let (r, e) = All-snoc P xs a h.1 in ((h.0, r), e)

module _ ⦃d : Digest⦄ where
  -- `p` has the length that is asked for and leads from `leaf` to the root.
  abbrev Leads : List Hash32 → ℕ → Hash32 → List Hash32 → Type 0
  Leads leaves i leaf p =
      (climb_of leaf i (length leaves) p ≡ tree_root leaves)
      × (length (sides_of i (length leaves)) ≡ length p)

  climb_of-IsHash32 : (leaf : Hash32) (i n : ℕ) (p : List Hash32) → IsHash32 (climb_of leaf i n p)
  climb_of-IsHash32 leaf i n p = climb-IsHash32 (hash_leaf leaf) _ p (hash_leaf-IsHash32 leaf)

  Leads-left :
      (leaves : List Hash32) (i : ℕ) (leaf : Hash32) (p : List Hash32) (h : Hash32)
      → 2 ≤ length leaves
      → i < split leaves
      → Leads leaves i leaf (p ++ h ∷ [])
      → Leads (take (split leaves) leaves) i leaf p ⊎ Collision d
  Leads-left leaves i leaf p h two lt leads =
      let k = split leaves in
      let (climbs, same) = rw (sides_left i (length leaves) two lt) at leads in
      let same' : length (sides_of i k) ≡ length p =
        omega (arith, same, length-append p (h ∷ [])) in
      let node : hash_node (climb_of leaf i k p) h
          ≡ hash_node (tree_root (take k leaves)) (tree_root (drop k leaves)) =
        sym (climb_side leaf (sides_of i k) true p h same') ∙ climbs ∙ tree_root-split leaves two in
      elim (hash_node-injective _ h _ _ (climb_of-IsHash32 leaf i k p)
        (tree_root-IsHash32 (take k leaves)) node) [
          | inl e ↦ inl (rw (length-left leaves two) (e.0, same'))
          | inr c ↦ inr c
        ]

  Leads-right :
      (leaves : List Hash32) (i : ℕ) (leaf : Hash32) (p : List Hash32) (h : Hash32)
      → 2 ≤ length leaves
      → split leaves ≤ i
      → IsHash32 h
      → Leads leaves i leaf (p ++ h ∷ [])
      → Leads (drop (split leaves) leaves) (i - split leaves) leaf p ⊎ Collision d
  Leads-right leaves i leaf p h two le w leads =
      let k = split leaves in
      let n' = length leaves - k in
      let (climbs, same) = rw (sides_right i (length leaves) two le) at leads in
      let same' : length (sides_of (i - k) n') ≡ length p =
        omega (arith, same, length-append p (h ∷ [])) in
      let node : hash_node h (climb_of leaf (i - k) n' p)
          ≡ hash_node (tree_root (take k leaves)) (tree_root (drop k leaves)) =
        sym (climb_side leaf (sides_of (i - k) n') false p h same')
        ∙ climbs
        ∙ tree_root-split leaves two in
      elim (hash_node-injective h _ _ _ w (tree_root-IsHash32 (take k leaves)) node) [
        | inl e ↦ inl (rw (length-right leaves) (e.1, same'))
        | inr c ↦ inr c
      ]

  Leads-single :
      (a : Hash32) (i : ℕ) (leaf : Hash32) (p : List Hash32)
      → i < 1
      → Leads (a ∷ []) i leaf p
      → (get_elem? (a ∷ []) i ≡ some leaf) ⊎ Collision d
  unfolding climb
  Leads-single a (suc i) leaf p lt leads = absurd (omega arith)
  Leads-single a zero leaf (h ∷ p) lt leads = absurd (omega (arith, ap length (sides_one 0)))
  Leads-single a zero leaf [] lt (climbs, same) =
      let e : hash_leaf leaf ≡ hash_leaf a = (rw (sides_one 0) at climbs) ∙ tree_root_single a in
      elim (hash_leaf-injective leaf a e) [ inl same_leaf ↦ inl (cc) | inr c ↦ inr c ]

  -- The path of two leaves or more is not empty.
  path_pos : (i n : ℕ) → 2 ≤ n → 0 < length (sides_of i n)
  path_pos i n two = elim (Bool-cases (ltb i (largest_pow2_below n))) [
    | inl left ↦ rw (sides_left i n two (ltb→lt i (largest_pow2_below n) left)) (omega arith)
    | inr right ↦ rw (sides_right i n two (ltb→le i (largest_pow2_below n) right)) (omega arith)
  ]

  Leads-sound :
      (f : ℕ) (leaves : List Hash32) (i : ℕ) (leaf : Hash32) (p : List Hash32)
      → length leaves ≤ f
      → i < length leaves
      → All IsHash32 p
      → Leads leaves i leaf p
      → (get_elem? leaves i ≡ some leaf) ⊎ Collision d
  Leads-sound f [] i leaf p hf lt w leads = absurd (omega arith)
  Leads-sound f (a ∷ []) i leaf p hf lt w leads = Leads-single a i leaf p lt leads
  Leads-sound zero (a ∷ b ∷ r) i leaf p hf lt w leads = absurd (omega arith)
  Leads-sound (suc f) (a ∷ b ∷ r) i leaf p hf lt w leads =
      let leaves = a ∷ b ∷ r in
      let two : 2 ≤ length leaves = omega arith in
      let (q, h, e) = snoc-cases p (omega (arith, leads.1, path_pos i (length leaves) two)) in
      let (wq, wh) = All-snoc IsHash32 q h (rw e at w) in
      elim (Bool-cases (ltb i (split leaves))) [
        | inl left ↦
            let lt' = ltb→lt i (split leaves) left in
            elim (Leads-left leaves i leaf q h two lt' (rw e at leads)) [
              | inr c ↦ inr c
              | inl part ↦ rw (← get_elem?-left leaves i lt') (
                  Leads-sound f (take (split leaves) leaves) i leaf q
                    (omega (arith, left-lt leaves two)) (omega (arith, length-left leaves two)) wq
                    part)
            ]
        | inr right ↦
            let le = ltb→le i (split leaves) right in
            elim (Leads-right leaves i leaf q h two le wh (rw e at leads)) [
              | inr c ↦ inr c
              | inl part ↦ rw (← get_elem?-right leaves i le) (
                  Leads-sound f (drop (split leaves) leaves) (i - split leaves) leaf q
                    (omega (arith, right-lt leaves two)) (omega (arith, length-right leaves)) wq
                    part)
            ]
      ]

  -- A path that leads from a leaf to the root of a range, at a position of the range, is a proof
  -- that the leaf stands there, or it exhibits a collision of the hash function.
  pub root_from_proof_sound :
      (leaves : List Hash32) (i : ℕ) (leaf : Hash32) (p : List Hash32)
      → All IsHash32 p
      → root_from_proof leaf i (length leaves) p ≡ some (tree_root leaves)
      → (get_elem? leaves i ≡ some leaf) ⊎ Collision d
  root_from_proof_sound leaves i leaf p w h =
      let checked = rw (root_from_proof_lem leaf i (length leaves) p) at h in
      let lt : i < length leaves = ground arith in
      Leads-sound (length leaves) leaves i leaf p (omega arith) lt w (ground arith, ground arith)

  tree_root-injective_fuel :
      (f : ℕ) (xs ys : List Hash32)
      → length xs ≤ f
      → tree_root xs ≡ tree_root ys
      → (xs ≡ ys) ⊎ Collision d
  tree_root-injective_fuel f [] [] hf h = inl refl
  tree_root-injective_fuel f [] (b ∷ []) hf h =
      inr (hash_empty-ne-leaf b (sym tree_root_nil ∙ h ∙ tree_root_single b))
  tree_root-injective_fuel f [] (b ∷ b' ∷ s) hf h =
      inr (
        hash_empty-ne-node _ _ (sym tree_root_nil ∙ h ∙ tree_root-split (b ∷ b' ∷ s) (omega arith)))
  tree_root-injective_fuel f (a ∷ []) [] hf h =
      inr (hash_empty-ne-leaf a (sym tree_root_nil ∙ sym h ∙ tree_root_single a))
  tree_root-injective_fuel f (a ∷ []) (b ∷ []) hf h =
      elim (hash_leaf-injective a b (sym (tree_root_single a) ∙ h ∙ tree_root_single b)) [
        | inl e ↦ inl (cc)
        | inr c ↦ inr c
      ]
  tree_root-injective_fuel f (a ∷ []) (b ∷ b' ∷ s) hf h = inr (
      hash_leaf-ne-node a _ _
        (sym (tree_root_single a) ∙ h ∙ tree_root-split (b ∷ b' ∷ s) (omega arith)))
  tree_root-injective_fuel f (a ∷ a' ∷ r) [] hf h = inr (
      hash_empty-ne-node _ _
        (sym tree_root_nil ∙ sym h ∙ tree_root-split (a ∷ a' ∷ r) (omega arith)))
  tree_root-injective_fuel f (a ∷ a' ∷ r) (b ∷ []) hf h = inr (
      hash_leaf-ne-node b _ _
        (sym (tree_root_single b) ∙ sym h ∙ tree_root-split (a ∷ a' ∷ r) (omega arith)))
  tree_root-injective_fuel zero (a ∷ a' ∷ r) (b ∷ b' ∷ s) hf h = absurd (omega arith)
  tree_root-injective_fuel (suc f) (a ∷ a' ∷ r) (b ∷ b' ∷ s) hf h =
      let xs = a ∷ a' ∷ r in
      let ys = b ∷ b' ∷ s in
      let two : 2 ≤ length xs = omega arith in
      let node = sym (tree_root-split xs two) ∙ h ∙ tree_root-split ys (omega arith) in
      elim (hash_node-injective _ _ _ _ (tree_root-IsHash32 (take (split xs) xs))
        (tree_root-IsHash32 (take (split ys) ys)) node) [
          | inr c ↦ inr c
          | inl (lefts, rights) ↦
              join xs ys
                (tree_root-injective_fuel f (take (split xs) xs) (take (split ys) ys)
                  (omega (arith, left-lt xs two)) lefts)
                (tree_root-injective_fuel f (drop (split xs) xs) (drop (split ys) ys)
                  (omega (arith, right-lt xs two)) rights)
        ]
    where
      join :
          (xs ys : List Hash32)
          → (take (split xs) xs ≡ take (split ys) ys) ⊎ Collision d
          → (drop (split xs) xs ≡ drop (split ys) ys) ⊎ Collision d
          → (xs ≡ ys) ⊎ Collision d
      join xs ys (inr c) other = inr c
      join xs ys (inl l) (inr c) = inr c
      join xs ys (inl l) (inl r) =
          inl (sym (take-append-drop (split xs) xs) ∙ ap₂ ◌++◌ l r ∙ take-append-drop (split ys) ys)

  -- A root determines the range it was computed from, its length included, or two ranges with one
  -- root exhibit a collision of the hash function.
  pub tree_root-injective :
      (xs ys : List Hash32) → tree_root xs ≡ tree_root ys → (xs ≡ ys) ⊎ Collision d
  tree_root-injective xs ys h = tree_root-injective_fuel (length xs) xs ys (omega arith) h
