-- ===== src/Provider/Sse.antt =====
-- crates/ancre-provider/src/sse.rs: the scanner that picks the frames out of an event stream. The
-- calls of `on_frame` are the list of frames beside the result.
pub mod Separators
pub mod Scan
pub mod Chunks
use ancre.Prelude.{
  ℕ, zero, suc, ◌+◌, ◌-◌, ◌^◌, Bool, true, false, not, ◌&&◌, ◌||◌, List, [], ◌∷◌, ◌++◌, Option,
  none, some, Result, ok, err, Text, text, length, take, drop, ltb, leb, ◌==◌, ℕ-Eq, List-Eq,
  if◌then◌else◌,
}

pub record Frame : Type 0 where
  pub event : Option Text
  pub data_bytes : List ℕ

-- Frame::is_done
abbrev pub is_done : Frame → Bool
is_done f = f.data_bytes == text "[DONE]"

abbrev pub max_frame_bytes : ℕ
max_frame_bytes = 1048576

pub data SseError : Type 0 where
  frame_too_large : SseError

pub record FrameScanner : Type 0 where
  pub carry : List ℕ

-- FrameScanner::new
abbrev pub new_scanner : FrameScanner
new_scanner = record { carry = [] }

-- A separator of two or of four bytes that begins with `b`, before these bytes.
abbrev pub short_separator : ℕ → List ℕ → Bool
short_separator b rest = b == 10 && take 1 rest == 10 ∷ []

abbrev pub long_separator : ℕ → List ℕ → Bool
long_separator b rest = b == 13 && take 3 rest == 10 ∷ 13 ∷ 10 ∷ []

-- The loop of `find_separator`, from the index `i` on.
unfoldable pub find_from : ℕ → List ℕ → Option (ℕ × ℕ)
find_from i [] = none
find_from i (b ∷ rest) =
    let later = find_from (i + 1) rest in
    if short_separator b rest
    then some (i, 2)
    else if long_separator b rest
    then some (i, 4)
    else later

abbrev pub find_separator : List ℕ → Option (ℕ × ℕ)
find_separator buf = find_from 0 buf

-- `[u8]::split` at a byte.
abbrev pub onto_first : ℕ → List (List ℕ) → List (List ℕ)
onto_first x [] = (x ∷ []) ∷ []
onto_first x (l ∷ ls) = (x ∷ l) ∷ ls

unfoldable pub split_at_byte : ℕ → List ℕ → List (List ℕ)
split_at_byte b [] = [] ∷ []
split_at_byte b (x ∷ xs) =
    let rest = split_at_byte b xs in if x == b then [] ∷ rest else onto_first x rest

-- `strip_suffix(b"\r").unwrap_or(line)`
unfoldable pub strip_cr : List ℕ → List ℕ
strip_cr [] = []
strip_cr (x ∷ []) = if x == 13 then [] else x ∷ []
strip_cr (x ∷ y ∷ xs) = x ∷ strip_cr (y ∷ xs)

abbrev pub onto_field : ℕ → Option (List ℕ × List ℕ) → Option (List ℕ × List ℕ)
onto_field x none = none
onto_field x (some (field, value)) = some (x ∷ field, value)

-- A field and its value, at the first colon.
unfoldable pub split_field : List ℕ → Option (List ℕ × List ℕ)
split_field [] = none
split_field (x ∷ xs) =
    let later = split_field xs in if x == 58 then some ([], xs) else onto_field x later

-- One optional leading space.
abbrev pub strip_space : List ℕ → List ℕ
strip_space [] = []
strip_space (x ∷ xs) = if x == 32 then xs else x ∷ xs

-- str::from_utf8: `need` bytes are still to come, the next of them from `lo` to `hi`.
unfoldable pub utf8_from : ℕ → ℕ → ℕ → List ℕ → Bool
utf8_from need lo hi [] = need == 0
utf8_from zero lo hi (b ∷ bs) =
    let one = utf8_from zero 128 191 bs in
    let two = utf8_from 1 128 191 bs in
    let three = utf8_from 2 128 191 bs in
    let four = utf8_from 3 128 191 bs in
    if leb b 127
    then one
    else if leb 194 b && leb b 223
    then two
    else if b == 224
    then utf8_from 2 160 191 bs
    else if b == 237
    then utf8_from 2 128 159 bs
    else if leb 225 b && leb b 239
    then three
    else if b == 240
    then utf8_from 3 144 191 bs
    else if leb 241 b && leb b 243
    then four
    else if b == 244
    then utf8_from 3 128 143 bs
    else false
utf8_from (suc need) lo hi (b ∷ bs) =
    let more = utf8_from need 128 191 bs in if leb lo b && leb b hi then more else false

abbrev pub from_utf8 : List ℕ → Option Text
from_utf8 bs = if utf8_from 0 128 191 bs then some bs else none

-- The variables of `parse`.
pub record Fields : Type 0 where
  pub event : Option Text
  pub data_bytes : Option (List ℕ)

abbrev pub first_data : Option (List ℕ) → List ℕ → Option (List ℕ)
first_data none value = some value
first_data (some old) value = some old

-- The `match` on the field.
unfoldable pub note_field : Option (List ℕ × List ℕ) → Fields → Fields
note_field none f = f
note_field (some (field, value)) f =
    let v = strip_space value in
    if field == text "event"
    then record f { event = from_utf8 v }
    else if field == text "data"
    then record f { data_bytes = first_data f.data_bytes v }
    else f

-- The body of the loop of `parse`.
unfoldable pub note_line : List ℕ → Fields → Fields
note_line line f =
    let l = strip_cr line in
    if l == [] || take 1 l == 58 ∷ [] then f else note_field (split_field l) f

unfoldable pub note_lines : List (List ℕ) → Fields → Fields
note_lines [] f = f
note_lines (l ∷ ls) f = note_lines ls (note_line l f)

abbrev pub frame_of : Fields → Option Frame
frame_of f = elim f.data_bytes [
  | none ↦ none
  | some bytes ↦ some (record { event = f.event; data_bytes = bytes })
]

unfoldable pub parse : List ℕ → Option Frame
parse body =
    frame_of (note_lines (split_at_byte 10 body) (record { event = none; data_bytes = none }))

abbrev pub push_frame : Option Frame → List Frame → List Frame
push_frame none frames = frames
push_frame (some f) frames = f ∷ frames

-- One round of the loops of `feed`; `again` is the rest of the loop.
abbrev pub scan_step :
    List ℕ → (List ℕ → List Frame × List ℕ) → Option (ℕ × ℕ) → List Frame × List ℕ
scan_step rest again none = ([], rest)
scan_step rest again (some (at, sep_len)) =
    let (frames, left) = again (drop (at + sep_len) rest) in
    (push_frame (parse (take at rest)) frames, left)

-- The loops of `feed`: the frames, and what is left behind the last separator. Each round takes a
-- separator away, so the length of the buffer is fuel enough.
unfoldable pub scan_rounds : ℕ → List ℕ → List Frame × List ℕ
scan_rounds zero rest = ([], rest)
scan_rounds (suc n) rest = scan_step rest (scan_rounds n) (find_separator rest)

abbrev pub scan : List ℕ → List Frame × List ℕ
scan buf = scan_rounds (length buf) buf

-- FrameScanner::push_carry
unfoldable pub push_carry : List ℕ → FrameScanner → Result SseError (Unit {0}) × FrameScanner
push_carry bytes s =
    if ltb max_frame_bytes (length s.carry + length bytes)
    then (err frame_too_large, record { carry = [] })
    else (ok tt, record { carry = s.carry ++ bytes })

abbrev pub Fed : Type 0
Fed = Result SseError (Unit {0}) × List Frame × FrameScanner

-- The slow path of `feed`, on the joined buffer.
unfoldable pub feed_joined : List Frame × List ℕ → Fed
feed_joined (frames, left) =
    if ltb max_frame_bytes (length left)
    then (err frame_too_large, frames, record { carry = [] })
    else (ok tt, frames, record { carry = left })

-- The fast path of `feed`, on the chunk.
unfoldable pub feed_chunk : FrameScanner → List Frame × List ℕ → Fed
feed_chunk s (frames, left) = let (result, after) = push_carry left s in (result, frames, after)

-- FrameScanner::feed
unfoldable pub feed : List ℕ → FrameScanner → Fed
feed chunk s =
    if s.carry == [] then feed_chunk s (scan chunk) else feed_joined (scan (s.carry ++ chunk))

-- FrameScanner::finish
unfoldable pub finish_scan : FrameScanner → List Frame × FrameScanner
finish_scan s = (push_frame (parse s.carry) [], record { carry = [] })
