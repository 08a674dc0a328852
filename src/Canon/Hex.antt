-- ===== src/Canon/Hex.antt =====
-- crates/ancre-canon/src/hex.rs and the hex form of a digest in hash.rs. Text is its bytes.
-- The proofs are in Hex/RoundTrip.
pub mod RoundTrip
use ancre.Prelude.{
  ℕ, zero, suc, ◌+◌, ◌-◌, ◌*◌, ◌/◌, ◌%◌, List, [], ◌∷◌, Option, none, some, length, leb, nat_eq,
  not, ◌&&◌, if◌then◌else◌,
}
use ancre.Canon.Hash.{Hash32}

infixl 5 ◌>>=◌
abbrev pub ◌>>=◌ {ℓ κ} : {A : Type ℓ} {B : Type κ} → Option A → (A → Option B) → Option B
none >>= f = none
some a >>= f = f a

-- DIGITS[n], for n below 16.
unfoldable pub digit : ℕ → ℕ
digit n = if leb n 9 then b'0' + n else b'a' + (n - 10)

-- Two digits for each byte, high nibble first.
unfoldable pub encode : List ℕ → List ℕ
unfolding digit
encode [] = []
encode (b ∷ bytes) = digit (b / 16) ∷ digit (b % 16) ∷ encode bytes

unfoldable pub nibble : ℕ → Option ℕ
nibble c =
    if leb b'0' c && leb c b'9'
    then some (c - b'0')
    else if leb b'a' c && leb c b'f'
    then some (c - b'a' + 10)
    else if leb b'A' c && leb c b'F'
    then some (c - b'A' + 10)
    else none

-- The loop of `decode_into`, over the slots of `out` that are left.
unfoldable pub fill : ℕ → List ℕ → Option (List ℕ)
fill (suc slots) (hi ∷ lo ∷ src) = do
  h ← nibble hi
  l ← nibble lo
  rest ← fill slots src
  some ((h * 16 + l) ∷ rest)
fill _ _ = some []

-- `out` has `size` slots.
unfoldable pub decode_into : List ℕ → ℕ → Option (List ℕ)
decode_into src size = if not (nat_eq (length src) (size * 2)) then none else fill size src

unfoldable pub to_hex : Hash32 → List ℕ
to_hex h = encode h.bytes

unfoldable pub from_hex : List ℕ → Option Hash32
from_hex s = do bytes ← decode_into s 32; some (record { bytes = bytes })
