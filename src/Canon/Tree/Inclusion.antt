-- ===== src/Canon/Tree/Inclusion.antt =====
-- crates/ancre-canon/src/hash.rs: `tree_proof` and `root_from_proof` fit together.
use mathlib.Core.List.{reverse-cons}
use ancre.Prelude.{
  ℕ, zero, suc, ◌-◌, ◌≤◌, ◌<◌, ◌≡◌, refl, ap, ◌∙◌, inl, inr, Bool, true, false, List, [], ◌∷◌, ◌++◌,
  some, arith, length, take, drop, reverse, ltb, Bool-cases, length-append, get_elem?,
  get_elem?-take, get_elem?-drop, get_elem?-some-lt, ltb→lt, ltb→le,
}
use ancre.Canon.Hash.{Hash32, Digest, hash_node, hash_leaf}
use ancre.Canon.Tree.{tree_root, tree_proof, root_from_proof, climb, climb_step}
use ancre.Canon.Tree.Unfold.{
  split, left-lt, right-lt, length-left, length-right, tree_root-split, tree_root_single,
}
use ancre.Canon.Tree.Path.{
  sides_of, sides_one, sides_left, sides_right, path_of, path_single, tree_proof_lem,
  root_from_proof_lem, path_left, path_right, climb_snoc, length-reverse,
}

module _ ⦃d : Digest⦄ where
  -- What `root_from_proof` computes for leaf `i` of `n` once its checks have passed.
  abbrev pub climb_of : Hash32 → ℕ → ℕ → List Hash32 → Hash32
  climb_of leaf i n p = climb (hash_leaf leaf) (reverse (sides_of i n)) p

  -- One step of the climb, for a leaf on either side of the split.
  pub climb_side :
      (leaf : Hash32) (ss : List Bool) (s : Bool) (p : List Hash32) (h : Hash32)
      → length ss ≡ length p
      → climb (hash_leaf leaf) (reverse (s ∷ ss)) (p ++ h ∷ [])
        ≡ climb_step (climb (hash_leaf leaf) (reverse ss) p) s h
  climb_side leaf ss s p h e =
      rw (reverse-cons s ss)
        (climb_snoc (hash_leaf leaf) (reverse ss) p s h (omega (arith, length-reverse ss)))

  abbrev Fits : List Hash32 → ℕ → Hash32 → Type 0
  Fits leaves i leaf =
      (climb_of leaf i (length leaves) (path_of leaves i) ≡ tree_root leaves)
      × (length (sides_of i (length leaves)) ≡ length (path_of leaves i))

  Fits-left :
      (leaves : List Hash32) (i : ℕ) (leaf : Hash32)
      → 2 ≤ length leaves
      → i < split leaves
      → Fits (take (split leaves) leaves) i leaf
      → Fits leaves i leaf
  Fits-left leaves i leaf two h fits =
      let k = split leaves in
      let left = take k leaves in
      let sibling = tree_root (drop k leaves) in
      let (climbs, same) = rw (length-left leaves two) at fits in
      rw (sides_left i (length leaves) two h, path_left leaves i two h, tree_root-split leaves two)
        (
          climb_side leaf (sides_of i k) true (path_of left i) sibling same
              ∙ ap (λ (x : Hash32). hash_node x sibling) climbs,
          omega (arith, same, length-append (path_of left i) (sibling ∷ [])),
        )

  Fits-right :
      (leaves : List Hash32) (i : ℕ) (leaf : Hash32)
      → 2 ≤ length leaves
      → split leaves ≤ i
      → Fits (drop (split leaves) leaves) (i - split leaves) leaf
      → Fits leaves i leaf
  Fits-right leaves i leaf two h fits =
      let k = split leaves in
      let right = drop k leaves in
      let sibling = tree_root (take k leaves) in
      let (climbs, same) = rw (length-right leaves) at fits in
      rw
        (sides_right i (length leaves) two h, path_right leaves i two h, tree_root-split leaves two)
        (
          climb_side leaf (sides_of (i - k) (length leaves - k)) false (path_of right (i - k))
                sibling same
              ∙ ap (λ (x : Hash32). hash_node sibling x) climbs,
          omega (arith, same, length-append (path_of right (i - k)) (sibling ∷ [])),
        )

  -- Where a leaf stands in the part on its side.
  pub get_elem?-left :
      (leaves : List Hash32) (i : ℕ)
      → i < split leaves
      → get_elem? (take (split leaves) leaves) i ≡ get_elem? leaves i
  get_elem?-left leaves i h = get_elem?-take (split leaves) i leaves h

  pub get_elem?-right :
      (leaves : List Hash32) (i : ℕ)
      → split leaves ≤ i
      → get_elem? (drop (split leaves) leaves) (i - split leaves) ≡ get_elem? leaves i
  get_elem?-right leaves i h =
      get_elem?-drop (split leaves) (i - split leaves) leaves ∙ ap (get_elem? leaves) (omega arith)

  Fits-single :
      (a : Hash32) (i : ℕ) (leaf : Hash32) → get_elem? (a ∷ []) i ≡ some leaf → Fits (a ∷ []) i leaf
  unfolding climb
  Fits-single a zero leaf e =
      rw (sides_one 0, path_single a 0, tree_root_single a) (ap hash_leaf (cc), refl)
  Fits-single a (suc i) leaf e = cc

  path_of-Fits :
      (f : ℕ) (leaves : List Hash32) (i : ℕ) (leaf : Hash32)
      → length leaves ≤ f
      → get_elem? leaves i ≡ some leaf
      → Fits leaves i leaf
  path_of-Fits f [] i leaf hf e = cc
  path_of-Fits f (a ∷ []) i leaf hf e = Fits-single a i leaf e
  path_of-Fits zero (a ∷ b ∷ r) i leaf hf e = absurd (omega arith)
  path_of-Fits (suc f) (a ∷ b ∷ r) i leaf hf e =
      let leaves = a ∷ b ∷ r in
      let two : 2 ≤ length leaves = omega arith in
      elim (Bool-cases (ltb i (split leaves))) [
        | inl left ↦
            let h = ltb→lt i (split leaves) left in
            Fits-left leaves i leaf two h (
              path_of-Fits f (take (split leaves) leaves) i leaf (omega (arith, left-lt leaves two))
                (get_elem?-left leaves i h ∙ e))
        | inr right ↦
            let h = ltb→le i (split leaves) right in
            Fits-right leaves i leaf two h (
              path_of-Fits f (drop (split leaves) leaves) (i - split leaves) leaf
                (omega (arith, right-lt leaves two)) (get_elem?-right leaves i h ∙ e))
      ]

  -- Every leaf of a range has a path, and the path leads from the leaf to the root of the range.
  pub root_from_proof-tree_proof :
      (leaves : List Hash32) (i : ℕ) (leaf : Hash32)
      → get_elem? leaves i ≡ some leaf
      → (p : List Hash32) × (tree_proof leaves i ≡ some p)
        × (root_from_proof leaf i (length leaves) p ≡ some (tree_root leaves))
  root_from_proof-tree_proof leaves i leaf e =
      let (climbs, same) = path_of-Fits (length leaves) leaves i leaf (omega arith) e in
      let inside = get_elem?-some-lt leaves i e in
      (
        path_of leaves i,
        rw (tree_proof_lem leaves i) (ground arith),
        rw (root_from_proof_lem leaf i (length leaves) (path_of leaves i)) (ground arith),
      )
