-- ===== src/Canon/Tree.antt =====
-- crates/ancre-canon/src/hash.rs: the RFC 6962 Merkle tree. A recursion on a half of the leaves
-- takes the number of leaves as its fuel (Tree/Unfold shows that this is enough).
pub mod Split
pub mod Unfold
pub mod Path
pub mod Inclusion
pub mod Sound
pub mod Bounds
use ancre.Prelude.{
  ℕ, zero, suc, ◌+◌, ◌-◌, ◌^◌, ◌/◌, Bool, true, false, not, List, [], ◌∷◌, ◌++◌, Option, none, some,
  reverse, length, take, drop, ltb, leb, nat_eq, if◌then◌else◌,
}
use ancre.Canon.Hash.{Hash32, Digest, hash_empty, hash_leaf, hash_node}

abbrev usize_bits : ℕ
usize_bits = 64

-- The number of binary digits, of `fuel` digits at most.
unfoldable pub bit_length : ℕ → ℕ → ℕ
bit_length zero n = 0
bit_length (suc fuel) n = let rest = bit_length fuel (n / 2) in if nat_eq n 0 then 0 else suc rest

-- usize::leading_zeros
abbrev leading_zeros : ℕ → ℕ
leading_zeros n = usize_bits - bit_length usize_bits n

-- 1 << (usize::BITS - 1 - (n - 1).leading_zeros())
unfoldable pub largest_pow2_below : ℕ → ℕ
largest_pow2_below n = 2 ^ (usize_bits - 1 - leading_zeros (n - 1))

module _ ⦃d : Digest⦄ where
  unfoldable pub tree_root_fuel : ℕ → List Hash32 → Hash32
  tree_root_fuel zero leaves = hash_empty
  tree_root_fuel (suc fuel) [] = hash_empty
  tree_root_fuel (suc fuel) (single ∷ []) = hash_leaf single
  tree_root_fuel (suc fuel) (a ∷ b ∷ rest) =
      let leaves = a ∷ b ∷ rest in
      let k = largest_pow2_below (length leaves) in
      hash_node (tree_root_fuel fuel (take k leaves)) (tree_root_fuel fuel (drop k leaves))

  unfoldable pub tree_root : List Hash32 → Hash32
  unfolding tree_root_fuel
  tree_root leaves = tree_root_fuel (length leaves) leaves

  -- `proof` is what the caller has pushed so far; siblings are pushed at the end, leaf first.
  pub build_proof : ℕ → List Hash32 → ℕ → List Hash32 → List Hash32
  build_proof zero leaves index proof = proof
  build_proof (suc fuel) [] index proof = proof
  build_proof (suc fuel) (single ∷ []) index proof = proof
  build_proof (suc fuel) (a ∷ b ∷ rest) index proof =
      let leaves = a ∷ b ∷ rest in
      let k = largest_pow2_below (length leaves) in
      let left = take k leaves in
      let right = drop k leaves in
      let in_left = build_proof fuel left index proof ++ tree_root right ∷ [] in
      let in_right = build_proof fuel right (index - k) proof ++ tree_root left ∷ [] in
      if ltb index k then in_left else in_right

  unfoldable pub tree_proof : List Hash32 → ℕ → Option (List Hash32)
  unfolding build_proof
  tree_proof leaves index =
      if leb (length leaves) index then none else some (build_proof (length leaves) leaves index [])

-- The `while size > 1` loop of `root_from_proof`: on which side the leaf falls, from the root down.
unfoldable pub sides : ℕ → ℕ → ℕ → List Bool
sides zero idx size = []
sides (suc fuel) idx size =
    let k = largest_pow2_below size in
    let left = true ∷ sides fuel idx k in
    let right = false ∷ sides fuel (idx - k) (size - k) in
    if ltb 1 size then (if ltb idx k then left else right) else []

module _ ⦃d : Digest⦄ where
  abbrev pub climb_step : Hash32 → Bool → Hash32 → Hash32
  climb_step acc is_left sibling = if is_left then hash_node acc sibling else hash_node sibling acc

  -- The loop over `side_is_left.iter().rev().zip(proof)`.
  unfoldable pub climb : Hash32 → List Bool → List Hash32 → Hash32
  climb acc (is_left ∷ ss) (sibling ∷ proof) = climb (climb_step acc is_left sibling) ss proof
  climb acc _ _ = acc

  unfoldable pub root_from_proof : Hash32 → ℕ → ℕ → List Hash32 → Option Hash32
  unfolding sides climb
  root_from_proof leaf index tree_size proof =
      let side_is_left = sides tree_size index tree_size in
      let root = climb (hash_leaf leaf) (reverse side_is_left) proof in
      if leb tree_size index
      then none
      else if not (nat_eq (length side_is_left) (length proof))
      then none
      else some root
