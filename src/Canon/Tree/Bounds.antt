-- ===== src/Canon/Tree/Bounds.antt =====
-- crates/ancre-canon/src/hash.rs: an inclusion proof is logarithmic in the number of leaves.
use native.Mathlib.Nat.{pow-le-pow_right, le_trans}
use ancre.Prelude.{
  ℕ, zero, suc, ◌-◌, ◌^◌, ◌≤◌, ◌<◌, ◌≡◌, refl, inl, inr, List, some, arith, length, ltb, Bool-cases,
  ltb→lt, ltb→le, get_elem?-lt,
}
use ancre.Canon.Hash.{Hash32, Digest}
use ancre.Canon.Tree.{tree_proof, largest_pow2_below}
use ancre.Canon.Tree.Split.{
  exponent, largest_pow2_below_lem, largest_pow2_below-lt, largest_pow2_below_half,
}
use ancre.Canon.Tree.Path.{sides_of, sides_one, sides_left, sides_right, root_from_proof_lem}
use ancre.Canon.Tree.Inclusion.{root_from_proof-tree_proof}

-- A power of two below another is at most its half.
pow_below : (e d : ℕ) → 2 ^ e < 2 ^ suc d → 2 ^ e ≤ 2 ^ d
pow_below e d h = elim (Bool-cases (ltb d e)) [
  | inr le ↦ pow-le-pow_right {n = 2} (omega arith) (ltb→le d e le)
  | inl lt ↦
      absurd
        (omega (arith, pow-le-pow_right {n = 2} (omega arith) {i = suc d} {j = e} (ltb→lt d e lt)))
]

split_fits : (n d : ℕ) → 2 ≤ n → n ≤ 2 ^ suc d → largest_pow2_below n ≤ 2 ^ d
split_fits n d two h = rw (largest_pow2_below_lem n) (
    pow_below (exponent n) d
      (rw (largest_pow2_below_lem n) at (bound (largest_pow2_below-lt n two))))
  where
    bound : largest_pow2_below n < n → largest_pow2_below n < 2 ^ suc d
    bound lt = omega arith

length-sides_le_one : (i n : ℕ) → i < n → n ≤ 1 → length (sides_of i n) ≡ 0
length-sides_le_one i n lt h = let e : n ≡ 1 = omega arith in rw (e, sides_one i) refl

-- A leaf among at most 2 ^ d has at most d sides.
sides_bound : (d i n : ℕ) → i < n → n ≤ 2 ^ d → d ≤ 64 → length (sides_of i n) ≤ d
sides_bound zero i n lt h w = omega (arith, length-sides_le_one i n lt h)
sides_bound (suc d) i n lt h w = elim (Bool-cases (ltb 1 n)) [
  | inr one ↦ omega (arith, length-sides_le_one i n lt (ltb→le 1 n one))
  | inl more ↦
      let two = ltb→lt 1 n more in
      let k = largest_pow2_below n in
      let half =
        largest_pow2_below_half n two
          (le_trans h (pow-le-pow_right {n = 2} (omega arith) {i = suc d} {j = 64} w)) in
      let fits = split_fits n d two h in
      elim (Bool-cases (ltb i k)) [
        | inl left ↦
            rw (sides_left i n two (ltb→lt i k left))
              (omega (arith, sides_bound d i k (ltb→lt i k left) fits (omega arith)))
        | inr right ↦
            let le = ltb→le i k right in
            rw (sides_right i n two le) (
              omega
                (arith, sides_bound d (i - k) (n - k) (omega arith) (omega arith) (omega arith)))
      ]
]

module _ ⦃d : Digest⦄ where
  -- The proof of one leaf among at most 2 ^ depth has at most `depth` hashes, and no longer one is
  -- accepted.
  pub length-tree_proof :
      (depth : ℕ) (leaves : List Hash32) (i : ℕ)
      → length leaves ≤ 2 ^ depth
      → depth ≤ 64
      → i < length leaves
      → (p : List Hash32) × (tree_proof leaves i ≡ some p) × (length p ≤ depth)
  length-tree_proof depth leaves i h w lt =
      let (leaf, e) = get_elem?-lt leaves i lt in
      let (p, found, accepted) = root_from_proof-tree_proof leaves i leaf e in
      let checked = rw (root_from_proof_lem leaf i (length leaves) p) at accepted in
      let bound = sides_bound depth i (length leaves) lt h w in (p, found, ground arith)
