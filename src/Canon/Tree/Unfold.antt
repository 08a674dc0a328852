-- ===== src/Canon/Tree/Unfold.antt =====
-- crates/ancre-canon/src/hash.rs: the recursions over a range of leaves have enough fuel, so the
-- root and the path of a range are those of its halves.
use ancre.Prelude.{
  ℕ, zero, suc, ◌-◌, ◌≤◌, ◌<◌, ◌≡◌, refl, ap₂, List, [], ◌∷◌, arith, length, take, drop,
  length-take_le, length-drop,
}
use ancre.Canon.Hash.{Hash32, Digest, hash_empty, hash_leaf, hash_node}
use ancre.Canon.Tree.{tree_root_fuel, tree_root, build_proof, largest_pow2_below}
use ancre.Canon.Tree.Split.{largest_pow2_below-lt, largest_pow2_below_pos}

-- The split point of a range.
abbrev pub split : List Hash32 → ℕ
split leaves = largest_pow2_below (length leaves)

pub length-left :
    (leaves : List Hash32) → 2 ≤ length leaves → length (take (split leaves) leaves) ≡ split leaves
length-left leaves h =
    length-take_le (split leaves) leaves (omega (arith, largest_pow2_below-lt (length leaves) h))

pub length-right :
    (leaves : List Hash32) → length (drop (split leaves) leaves) ≡ length leaves - split leaves
length-right leaves = length-drop (split leaves) leaves

module _ (leaves : List Hash32) (two : 2 ≤ length leaves) where
  pub left-lt : length (take (split leaves) leaves) < length leaves
  left-lt = omega (arith, length-left leaves two, largest_pow2_below-lt (length leaves) two)

  pub right-lt : length (drop (split leaves) leaves) < length leaves
  right-lt = omega (arith, length-right leaves, largest_pow2_below_pos (length leaves))

  pub left_pos : 0 < length (take (split leaves) leaves)
  left_pos = omega (arith, length-left leaves two, largest_pow2_below_pos (length leaves))

  pub right_pos : 0 < length (drop (split leaves) leaves)
  right_pos = omega (arith, length-right leaves, largest_pow2_below-lt (length leaves) two)

module _ ⦃d : Digest⦄ where
  -- More fuel than there are leaves changes nothing.
  pub tree_root_fuel_enough :
      (f g : ℕ) (leaves : List Hash32)
      → length leaves ≤ f
      → length leaves ≤ g
      → tree_root_fuel f leaves ≡ tree_root_fuel g leaves
  unfolding tree_root_fuel
  tree_root_fuel_enough zero zero leaves hf hg = refl
  tree_root_fuel_enough zero (suc g) [] hf hg = refl
  tree_root_fuel_enough zero (suc g) (a ∷ r) hf hg = absurd (omega arith)
  tree_root_fuel_enough (suc f) zero [] hf hg = refl
  tree_root_fuel_enough (suc f) zero (a ∷ r) hf hg = absurd (omega arith)
  tree_root_fuel_enough (suc f) (suc g) [] hf hg = refl
  tree_root_fuel_enough (suc f) (suc g) (a ∷ []) hf hg = refl
  tree_root_fuel_enough (suc f) (suc g) (a ∷ b ∷ r) hf hg =
      let leaves = a ∷ b ∷ r in
      let k = split leaves in
      let two : 2 ≤ length leaves = omega arith in
      ap₂ hash_node
        (tree_root_fuel_enough f g (take k leaves) (omega (arith, left-lt leaves two))
          (omega (arith, left-lt leaves two)))
        (tree_root_fuel_enough f g (drop k leaves) (omega (arith, right-lt leaves two))
          (omega (arith, right-lt leaves two)))

  pub tree_root_nil : tree_root [] ≡ hash_empty
  unfolding tree_root
  tree_root_nil = refl

  pub tree_root_single : (leaf : Hash32) → tree_root (leaf ∷ []) ≡ hash_leaf leaf
  unfolding tree_root
  tree_root_single leaf = refl

  tree_root_cons :
      (a b : Hash32) (r : List Hash32)
      → let leaves = a ∷ b ∷ r in
        tree_root leaves
        ≡ hash_node
            (tree_root (take (split leaves) leaves))
            (tree_root (drop (split leaves) leaves))
  unfolding tree_root
  tree_root_cons a b r =
      let leaves = a ∷ b ∷ r in
      let k = split leaves in
      let two : 2 ≤ length leaves = omega arith in
      ap₂ hash_node
        (tree_root_fuel_enough (suc (length r)) (length (take k leaves)) (take k leaves)
          (omega (arith, left-lt leaves two)) (omega arith))
        (tree_root_fuel_enough (suc (length r)) (length (drop k leaves)) (drop k leaves)
          (omega (arith, right-lt leaves two)) (omega arith))

  -- The root of two leaves or more is the node over the roots of the two parts.
  pub tree_root-split :
      (leaves : List Hash32)
      → 2 ≤ length leaves
      → tree_root leaves
        ≡ hash_node
            (tree_root (take (split leaves) leaves))
            (tree_root (drop (split leaves) leaves))
  tree_root-split [] h = absurd (omega arith)
  tree_root-split (a ∷ []) h = absurd (omega arith)
  tree_root-split (a ∷ b ∷ r) h = tree_root_cons a b r

  -- A path by an unbounded recursion: what `build_proof` pushes.
  pub build_proof_enough :
      (f g : ℕ) (leaves : List Hash32) (i : ℕ) (acc : List Hash32)
      → length leaves ≤ f
      → length leaves ≤ g
      → build_proof f leaves i acc ≡ build_proof g leaves i acc
  unfolding build_proof
  build_proof_enough zero zero leaves i acc hf hg = refl
  build_proof_enough zero (suc g) [] i acc hf hg = refl
  build_proof_enough zero (suc g) (a ∷ r) i acc hf hg = absurd (omega arith)
  build_proof_enough (suc f) zero [] i acc hf hg = refl
  build_proof_enough (suc f) zero (a ∷ r) i acc hf hg = absurd (omega arith)
  build_proof_enough (suc f) (suc g) [] i acc hf hg = refl
  build_proof_enough (suc f) (suc g) (a ∷ []) i acc hf hg = refl
  build_proof_enough (suc f) (suc g) (a ∷ b ∷ r) i acc hf hg =
      let leaves = a ∷ b ∷ r in
      let k = split leaves in
      let two : 2 ≤ length leaves = omega arith in
      simp (
        build_proof_enough f g (take k leaves) i acc (omega (arith, left-lt leaves two))
            (omega (arith, left-lt leaves two)),
        build_proof_enough f g (drop k leaves) (i - k) acc (omega (arith, right-lt leaves two))
            (omega (arith, right-lt leaves two)),
      )
