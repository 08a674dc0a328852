-- ===== src/Prelude/Results.antt =====
-- Rust's `Result`, with `?` as bind, and text as its UTF-8 bytes.
use Prim.Native.Nat.{ℕ}
use Prim.Native.Char.{code}
use Prim.Native.String.{String}
use mathlib.Core.Path.{◌≡◌, refl}
use mathlib.Core.Logic.{◌⊎◌, inl, inr}
use mathlib.Core.List.{List, [], ◌∷◌}
use mathlib.Core.Option.{Option, none, some}

pub data Result {ℓ κ} (E : Type ℓ) (A : Type κ) : Type (ℓ ⊔ κ) where
  ok : A → Result E A
  err : E → Result E A

module _ {ℓ κ μ} {E : Type ℓ} {A : Type κ} {B : Type μ} where
  abbrev and_then : (A → Result E B) → Result E A → Result E B
  and_then f (err e) = err e
  and_then f (ok a) = f a

  infixl 5 ◌>>=◌
  abbrev pub ◌>>=◌ : Result E A → (A → Result E B) → Result E B
  m >>= f = and_then f m

  -- A chain that succeeds succeeded at its first step, and its rest did from there.
  pub >>=-eq-ok :
      (first : Result E A) (rest : A → Result E B) {last : B}
      → (first >>= rest) ≡ ok last
      → (mid : A) × (first ≡ ok mid) × (rest mid ≡ ok last)
  >>=-eq-ok (err e) rest p = cc
  >>=-eq-ok (ok mid) rest p = (mid, refl, p)

module _ {ℓ κ} {E : Type ℓ} {A : Type κ} where
  abbrev pub ok_or : Option A → E → Result E A
  ok_or none e = err e
  ok_or (some a) e = ok a

  pub ok_inj : {a b : A} → ◌≡◌ {A = Result E A} (ok a) (ok b) → a ≡ b
  ok_inj h = cc

  pub err_inj : {a b : E} → ◌≡◌ {A = Result E A} (err a) (err b) → a ≡ b
  err_inj h = cc

module _ {ℓ κ} {E : Type ℓ} {A : Type κ} where
  pub Result-cases : (r : Result E A) → ((a : A) × (r ≡ ok a)) ⊎ ((e : E) × (r ≡ err e))
  Result-cases (ok a) = inl (a, refl)
  Result-cases (err e) = inr (e, refl)

-- A `str` or `String`: its bytes. Literals are ASCII.
abbrev pub Text : Type 0
Text = List ℕ

abbrev pub text : String → Text
text String.[] = []
text (String.◌∷◌ c s) = code c ∷ text s

-- One past the largest `u64`: sums of `u64` are taken modulo this.
abbrev pub u64_mod : ℕ
u64_mod = 18446744073709551616
