-- ===== src/Canon/Tree/Split.antt =====
-- crates/ancre-canon/src/hash.rs, `largest_pow2_below`: the split point of a range of leaves.
use native.Mathlib.Nat.{pow-suc, one-le-pow}
use ancre.Prelude.{
  ℕ, zero, suc, ◌-◌, ◌*◌, ◌^◌, ◌/◌, ◌≤◌, ◌<◌, ◌≡◌, refl, arith, nat_eq, Bool-cases, ◌⊎◌, inl, inr,
}
use ancre.Canon.Tree.{bit_length, largest_pow2_below}

bit_length_upper : (f n : ℕ) → n < 2 ^ f → n < 2 ^ bit_length f n
unfolding bit_length
bit_length_upper zero n h = h
bit_length_upper (suc f) n h = elim (Bool-cases (nat_eq n 0)) [
  | inl z ↦ rw z (ground arith)
  | inr nz ↦
      rw (nz, pow-suc 2 (bit_length f (n / 2)))
        (omega (arith, bit_length_upper f (n / 2) (omega (arith, pow-suc 2 f))))
]

bit_length_lower : (f n : ℕ) → (2 ^ bit_length f n ≤ 2 * n) ⊎ (bit_length f n ≡ 0)
unfolding bit_length
bit_length_lower zero n = inr refl
bit_length_lower (suc f) n = elim (Bool-cases (nat_eq n 0)) [
  | inl z ↦ rw z (inr refl)
  | inr nz ↦ rw nz (elim (bit_length_lower f (n / 2)) [
    | inl le ↦ inl (rw (pow-suc 2 (bit_length f (n / 2))) (omega arith))
    | inr e ↦ inl (rw e (ground arith))
  ])
]

bit_length-le : (f n : ℕ) → bit_length f n ≤ f
unfolding bit_length
bit_length-le zero n = omega arith
bit_length-le (suc f) n = ground (arith, bit_length-le f (n / 2))

bit_length_pos : (f n : ℕ) → 0 < n → 1 ≤ bit_length (suc f) n
unfolding bit_length
bit_length_pos f n h = ground arith

-- The exponent is one less than the number of digits of n - 1.
pub exponent : ℕ → ℕ
exponent n = 63 - (64 - bit_length 64 (n - 1))

exponent_lem : (n : ℕ) → 2 ≤ n → suc (exponent n) ≡ bit_length 64 (n - 1)
unfolding exponent
exponent_lem n h = omega (arith, bit_length-le 64 (n - 1), bit_length_pos 63 (n - 1) (omega arith))

pub largest_pow2_below_lem : (n : ℕ) → largest_pow2_below n ≡ 2 ^ exponent n
unfolding largest_pow2_below exponent
largest_pow2_below_lem n = refl

double : (n : ℕ) → 2 ≤ n → 2 * largest_pow2_below n ≡ 2 ^ bit_length 64 (n - 1)
double n h = rw (largest_pow2_below_lem n, ← exponent_lem n h, pow-suc 2 (exponent n)) (omega arith)

pub largest_pow2_below-lt : (n : ℕ) → 2 ≤ n → largest_pow2_below n < n
largest_pow2_below-lt n h = elim (bit_length_lower 64 (n - 1)) [
  | inl le ↦ omega (arith, double n h)
  | inr e ↦ absurd (omega (arith, bit_length_pos 63 (n - 1) (omega arith)))
]

pub largest_pow2_below_pos : (n : ℕ) → 1 ≤ largest_pow2_below n
unfolding largest_pow2_below
largest_pow2_below_pos n = one-le-pow _ 2 (omega arith)

-- Half of the leaves at least are on the left, if their number is a `usize`.
pub largest_pow2_below_half : (n : ℕ) → 2 ≤ n → n ≤ 2 ^ 64 → n ≤ 2 * largest_pow2_below n
largest_pow2_below_half n h w = omega (arith, double n h, bit_length_upper 64 (n - 1) (omega arith))

-- The split of `n` leaves, for `n` from 2 to the size of the address space, is the power of two
-- below `n` that is at least half of it: the largest one.
pub largest_pow2_below_bounds :
    (n : ℕ)
    → 2 ≤ n
    → n ≤ 2 ^ 64
    → (e : ℕ) × (largest_pow2_below n ≡ 2 ^ e)
      × (largest_pow2_below n < n)
      × (n ≤ 2 * largest_pow2_below n)
largest_pow2_below_bounds n h w =
    (exponent n, largest_pow2_below_lem n, largest_pow2_below-lt n h, largest_pow2_below_half n h w)
