-- ===== src/Canon/Hex/RoundTrip.antt =====
-- crates/ancre-canon/src/hex.rs: hex text and bytes, both ways.
use ancre.Prelude.{
  ℕ, zero, suc, ◌+◌, ◌*◌, ◌/◌, ◌%◌, ◌<◌, ◌≡◌, refl, ap, ap₂, subst, List, [], ◌∷◌, Option, none,
  some, length, leb, nat_eq, ◌&&◌, if◌then◌else◌, All, arith, map, inl, inr, Bool-cases, some_inj,
}
use ancre.Canon.Hash.{Hash32, IsHash32}
use ancre.Canon.Hash.Separation.{Hash32-ext}
use ancre.Canon.Hex.{digit, encode, nibble, fill, decode_into, to_hex, from_hex, ◌>>=◌}

abbrev pub IsByte : ℕ → Type 0
IsByte b = b < 256

nibble-digit : (n : ℕ) → n < 16 → nibble (digit n) ≡ some n
unfolding nibble digit
nibble-digit n h = ground arith

pub length-encode : (bytes : List ℕ) → length (encode bytes) ≡ length bytes * 2
unfolding encode
length-encode [] = refl
length-encode (b ∷ bytes) = omega (arith, length-encode bytes)

fill-encode : (bytes : List ℕ) → All IsByte bytes → fill (length bytes) (encode bytes) ≡ some bytes
unfolding fill encode
fill-encode [] w = refl
fill-encode (b ∷ bytes) w =
    rw
      (
        nibble-digit (b / 16) (omega arith),
        nibble-digit (b % 16) (omega arith),
        fill-encode bytes w.1,
      )
      (ap some (ap₂ ◌∷◌ (omega arith) refl))

-- Decoding what was encoded gives the bytes back.
pub decode_into-encode :
    (bytes : List ℕ) → All IsByte bytes → decode_into (encode bytes) (length bytes) ≡ some bytes
unfolding decode_into
decode_into-encode bytes w = ground (arith, length-encode bytes, fill-encode bytes w)

-- The lower case of an ASCII letter.
abbrev pub to_ascii_lowercase : ℕ → ℕ
to_ascii_lowercase c = if leb b'A' c && leb c b'Z' then c + 32 else c

digit-nibble : (c n : ℕ) → nibble c ≡ some n → (digit n ≡ to_ascii_lowercase c) × (n < 16)
unfolding nibble digit
digit-nibble c n h = ground arith

-- A chain that succeeds succeeded at its first step.
>>=-eq-some {ℓ κ} :
    {A : Type ℓ} {B : Type κ} (m : Option A) (f : A → Option B) {b : B}
    → (m >>= f) ≡ some b
    → (a : A) × (m ≡ some a) × (f a ≡ some b)
>>=-eq-some none f h = cc
>>=-eq-some (some a) f h = (a, refl, h)

-- The bytes print as the text in lower case, and fill the slots.
abbrev Prints : ℕ → List ℕ → List ℕ → Type 0
Prints slots src bytes =
    (encode bytes ≡ map to_ascii_lowercase src) × (length bytes ≡ slots) × All IsByte bytes

Prints-cons :
    (hi lo h l slots : ℕ) (src rest : List ℕ)
    → nibble hi ≡ some h
    → nibble lo ≡ some l
    → Prints slots src rest
    → Prints (suc slots) (hi ∷ lo ∷ src) ((h * 16 + l) ∷ rest)
unfolding encode
Prints-cons hi lo h l slots src rest eh el (text, size, w) =
    let (dh, bh) = digit-nibble hi h eh in
    let (dl, bl) = digit-nibble lo l el in
    let high : (h * 16 + l) / 16 ≡ h = omega arith in
    let low : (h * 16 + l) % 16 ≡ l = omega arith in
    (rw (high, low, dh, dl, text) refl, ap suc size, (omega arith, w))

fill-Prints :
    (slots : ℕ) (src : List ℕ) {bytes : List ℕ}
    → length src ≡ slots * 2
    → fill slots src ≡ some bytes
    → Prints slots src bytes
unfolding fill encode
fill-Prints zero [] n e = subst (Prints zero []) (some_inj e) (refl, refl, tt)
fill-Prints zero (c ∷ src) n e = absurd (omega arith)
fill-Prints (suc slots) [] n e = absurd (omega arith)
fill-Prints (suc slots) (c ∷ []) n e = absurd (omega arith)
fill-Prints (suc slots) (hi ∷ lo ∷ src) n e =
    let (h, eh, e₁) = >>=-eq-some (nibble hi) _ e in
    let (l, el, e₂) = >>=-eq-some (nibble lo) _ e₁ in
    let (rest, er, e₃) = >>=-eq-some (fill slots src) _ e₂ in
    subst (Prints (suc slots) (hi ∷ lo ∷ src)) (some_inj e₃)
      (Prints-cons hi lo h l slots src rest eh el (fill-Prints slots src (omega arith) er))

decode_into-eq-some :
    (s bytes : List ℕ) → decode_into s 32 ≡ some bytes → (length s ≡ 64) × (fill 32 s ≡ some bytes)
unfolding decode_into
decode_into-eq-some s bytes e = elim (Bool-cases (nat_eq (length s) 64)) [
  | inl t ↦ (ground arith, ground arith)
  | inr f ↦ absurd (ground arith)
]

-- A digest of 32 bytes survives printing and reading.
pub from_hex-to_hex : (h : Hash32) → IsHash32 h → All IsByte h.bytes → from_hex (to_hex h) ≡ some h
unfolding from_hex to_hex
from_hex-to_hex h w bs =
    let e : decode_into (encode h.bytes) 32 ≡ some h.bytes =
      rw w at (decode_into-encode h.bytes bs) in
    rw e (ap some (Hash32-ext _ h refl))

-- A text that is read as a digest gives 32 bytes, and they print back as that text in lower case.
pub to_hex-from_hex :
    (s : List ℕ) (h : Hash32)
    → from_hex s ≡ some h
    → (to_hex h ≡ map to_ascii_lowercase s) × IsHash32 h × All IsByte h.bytes
unfolding from_hex to_hex
to_hex-from_hex s h e =
    let (bytes, filled, made) = >>=-eq-some (decode_into s 32) _ e in
    let (n, f) = decode_into-eq-some s bytes filled in
    subst (λ (r : Hash32). Prints 32 s r.bytes) (some_inj made) (fill-Prints 32 s n f)
