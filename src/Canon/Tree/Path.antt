-- ===== src/Canon/Tree/Path.antt =====
-- crates/ancre-canon/src/hash.rs: the path that `tree_proof` gives and the sides that
-- `root_from_proof` recomputes, as equations over the two parts of a range.
use mathlib.Core.List.{reverse-cons}
use ancre.Prelude.{
  none, some, leb, nat_eq, not, if◌then◌else◌, ℕ, zero, suc, ◌-◌, ◌≤◌, ◌<◌, ◌≡◌, refl, ap, ◌∙◌,
  List, [], ◌∷◌, ◌++◌, arith, length, take, drop, Bool, true, false, reverse, ltb, Bool-cases, inl,
  inr, lt→ltb, le→ltb, length-append,
}
use ancre.Canon.Hash.{
  Hash32, Digest, hash_leaf, IsHash32, hash_node, hash_node-IsHash32, hash_leaf-IsHash32,
  hash_empty-IsHash32,
}
use ancre.Canon.Tree.{
  tree_proof, root_from_proof, tree_root, build_proof, sides, climb, climb_step, largest_pow2_below,
}
use ancre.Canon.Tree.Split.{largest_pow2_below-lt, largest_pow2_below_pos}
use ancre.Canon.Tree.Unfold.{
  split, left-lt, right-lt, build_proof_enough, tree_root-split, tree_root_single, tree_root_nil,
}

-- The sides of leaf `i` among `n`.
pub sides_of : ℕ → ℕ → List Bool
sides_of i n = sides n i n

sides_enough : (f g i n : ℕ) → n ≤ f → n ≤ g → sides f i n ≡ sides g i n
unfolding sides
sides_enough zero zero i n hf hg = refl
sides_enough zero (suc g) i n hf hg = ground arith
sides_enough (suc f) zero i n hf hg = ground arith
sides_enough (suc f) (suc g) i n hf hg = elim (Bool-cases (ltb 1 n)) [
  | inr small ↦ rw small
  | inl two ↦
      let lt = largest_pow2_below-lt n (ground arith) in
      let pos = largest_pow2_below_pos n in
      rw (
        two,
        sides_enough f g i (largest_pow2_below n) (omega arith) (omega arith),
        sides_enough f g (i - largest_pow2_below n) (n - largest_pow2_below n) (omega arith)
            (omega arith),
      )
]

pub sides_one : (i : ℕ) → sides_of i 1 ≡ []
unfolding sides sides_of
sides_one i = refl

step_left :
    (f i n : ℕ)
    → 2 ≤ n
    → i < largest_pow2_below n
    → sides (suc f) i n ≡ true ∷ sides f i (largest_pow2_below n)
unfolding sides
step_left f i n two h = rw (lt→ltb 1 n two, lt→ltb i (largest_pow2_below n) h)

step_right :
    (f i n : ℕ)
    → 2 ≤ n
    → largest_pow2_below n ≤ i
    → sides (suc f) i n ≡ false ∷ sides f (i - largest_pow2_below n) (n - largest_pow2_below n)
unfolding sides
step_right f i n two h = rw (lt→ltb 1 n two, le→ltb i (largest_pow2_below n) h)

module _ (i n : ℕ) (two : 2 ≤ n) where
  pub sides_left :
      i < largest_pow2_below n → sides_of i n ≡ true ∷ sides_of i (largest_pow2_below n)
  unfolding sides_of
  sides_left h =
      let k = largest_pow2_below n in
      let lt = largest_pow2_below-lt n two in
      sides_enough n (suc n) i n (omega arith) (omega arith)
      ∙ step_left n i n two h
      ∙ ap (◌∷◌ true) (sides_enough n k i k (omega arith) (omega arith))

  pub sides_right :
      largest_pow2_below n ≤ i
      → sides_of i n ≡ false ∷ sides_of (i - largest_pow2_below n) (n - largest_pow2_below n)
  unfolding sides_of
  sides_right h =
      let k = largest_pow2_below n in
      let pos = largest_pow2_below_pos n in
      sides_enough n (suc n) i n (omega arith) (omega arith)
      ∙ step_right n i n two h
      ∙ ap (◌∷◌ false) (sides_enough n (n - k) (i - k) (n - k) (omega arith) (omega arith))

module _ ⦃d : Digest⦄ where
  -- The siblings of leaf `i`, leaf first.
  pub path_of : List Hash32 → ℕ → List Hash32
  path_of leaves i = build_proof (length leaves) leaves i []

  pub tree_proof_lem :
      (leaves : List Hash32) (i : ℕ)
      → tree_proof leaves i ≡ (if leb (length leaves) i then none else some (path_of leaves i))
  unfolding tree_proof path_of
  tree_proof_lem leaves i = refl

  pub root_from_proof_lem :
      (leaf : Hash32) (i n : ℕ) (p : List Hash32)
      → root_from_proof leaf i n p ≡ (
          if leb n i
          then none
          else if not (nat_eq (length (sides_of i n)) (length p))
          then none
          else some (climb (hash_leaf leaf) (reverse (sides_of i n)) p))
  unfolding root_from_proof sides_of
  root_from_proof_lem leaf i n p = refl

  pub path_single : (a : Hash32) (i : ℕ) → path_of (a ∷ []) i ≡ []
  unfolding build_proof path_of
  path_single a i = refl

  path_cons_left :
      (a b : Hash32) (r : List Hash32) (i : ℕ)
      → let leaves = a ∷ b ∷ r in
        i < split leaves
        → path_of leaves i
          ≡ path_of (take (split leaves) leaves) i ++ tree_root (drop (split leaves) leaves) ∷ []
  unfolding build_proof path_of
  path_cons_left a b r i h =
      let leaves = a ∷ b ∷ r in
      let left = take (split leaves) leaves in
      rw (lt→ltb i (split leaves) h) (
        ap (λ (p : List Hash32). p ++ tree_root (drop (split leaves) leaves) ∷ [])
          (build_proof_enough (suc (length r)) (length left) left i []
            (omega (arith, left-lt leaves (omega arith))) (omega arith)))

  path_cons_right :
      (a b : Hash32) (r : List Hash32) (i : ℕ)
      → let leaves = a ∷ b ∷ r in
        split leaves ≤ i
        → path_of leaves i
          ≡ path_of (drop (split leaves) leaves) (i - split leaves)
            ++ tree_root (take (split leaves) leaves) ∷ []
  unfolding build_proof path_of
  path_cons_right a b r i h =
      let leaves = a ∷ b ∷ r in
      let right = drop (split leaves) leaves in
      rw (le→ltb i (split leaves) h) (
        ap (λ (p : List Hash32). p ++ tree_root (take (split leaves) leaves) ∷ [])
          (build_proof_enough (suc (length r)) (length right) right (i - split leaves) []
            (omega (arith, right-lt leaves (omega arith))) (omega arith)))

  pub path_left :
      (leaves : List Hash32) (i : ℕ)
      → 2 ≤ length leaves
      → i < split leaves
      → path_of leaves i
        ≡ path_of (take (split leaves) leaves) i ++ tree_root (drop (split leaves) leaves) ∷ []
  path_left [] i two h = absurd (omega arith)
  path_left (a ∷ []) i two h = absurd (omega arith)
  path_left (a ∷ b ∷ r) i two h = path_cons_left a b r i h

  pub path_right :
      (leaves : List Hash32) (i : ℕ)
      → 2 ≤ length leaves
      → split leaves ≤ i
      → path_of leaves i
        ≡ path_of (drop (split leaves) leaves) (i - split leaves)
          ++ tree_root (take (split leaves) leaves) ∷ []
  path_right [] i two h = absurd (omega arith)
  path_right (a ∷ []) i two h = absurd (omega arith)
  path_right (a ∷ b ∷ r) i two h = path_cons_right a b r i h

  pub climb_snoc :
      (acc : Hash32) (ss : List Bool) (p : List Hash32) (s : Bool) (h : Hash32)
      → length ss ≡ length p
      → climb acc (ss ++ s ∷ []) (p ++ h ∷ []) ≡ climb_step (climb acc ss p) s h
  unfolding climb
  climb_snoc acc [] [] s h e = refl
  climb_snoc acc [] (x ∷ p) s h e = absurd (omega arith)
  climb_snoc acc (t ∷ ss) [] s h e = absurd (omega arith)
  climb_snoc acc (t ∷ ss) (x ∷ p) s h e = climb_snoc (climb_step acc t x) ss p s h (omega arith)

  pub climb-IsHash32 :
      (acc : Hash32) (ss : List Bool) (p : List Hash32) → IsHash32 acc → IsHash32 (climb acc ss p)
  unfolding climb
  climb-IsHash32 acc [] p w = w
  climb-IsHash32 acc (s ∷ ss) [] w = w
  climb-IsHash32 acc (true ∷ ss) (x ∷ p) w =
      climb-IsHash32 (hash_node acc x) ss p (hash_node-IsHash32 acc x)
  climb-IsHash32 acc (false ∷ ss) (x ∷ p) w =
      climb-IsHash32 (hash_node x acc) ss p (hash_node-IsHash32 x acc)

  pub tree_root-IsHash32 : (leaves : List Hash32) → IsHash32 (tree_root leaves)
  tree_root-IsHash32 [] = rw tree_root_nil hash_empty-IsHash32
  tree_root-IsHash32 (a ∷ []) = rw tree_root_single (hash_leaf-IsHash32 a)
  tree_root-IsHash32 (a ∷ b ∷ r) =
      rw (tree_root-split (a ∷ b ∷ r) (omega arith)) (hash_node-IsHash32 _ _)

pub length-reverse {ℓ} : {A : Type ℓ} (xs : List A) → length (reverse xs) ≡ length xs
length-reverse [] = refl
length-reverse (side ∷ rest) =
    let split : length (reverse (side ∷ rest)) ≡ length (reverse rest ++ side ∷ []) =
      ap length (reverse-cons side rest) in
    omega (arith, split, length-append (reverse rest) (side ∷ []), length-reverse rest)
