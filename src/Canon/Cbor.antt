-- ===== src/Canon/Cbor.antt =====
-- crates/ancre-canon/src/lib.rs: the canonical form of a CBOR value graph, and encoding and
-- decoding around it. `ciborium` (the order of keys, writing and reading bytes) and serde's
-- conversions of a type are parameters.
pub mod Canonical
pub mod Permuted
pub mod Codec
pub mod Keys
use ancre.Prelude.{
  ℕ, Bool, true, false, ◌&&◌, ◌||◌, not, List, [], ◌∷◌, Result, ok, err, ◌>>=◌, Text, ◌==◌, ℕ-Eq,
  List-Eq, if◌then◌else◌,
}
use ancre.Prelude.Int.{ℤ}
use ancre.Prelude.Sort.{IsOrder, sort_by}
use ancre.Canon.Hash.{Hash32, Digest, hash_bytes}

-- ciborium::Value. A float is its bit pattern.
mutual
  pub data Value : Type 0 where
    integer : ℤ → Value
    bytes : List ℕ → Value
    float : ℕ → Value
    text_string : Text → Value
    bool : Bool → Value
    null : Value
    tag : ℕ → Value → Value
    array : Items → Value
    map_of : Entries → Value

  pub data Items : Type 0 where
    nil : Items
    cons : Value → Items → Items

  pub data Entries : Type 0 where
    end : Entries
    entry : Value → Value → Entries → Entries

pub data CanonError : Type 0 where
  float_not_allowed duplicate_map_key not_canonical : CanonError
  encode_failed decode_failed unknown_canon_version : Text → CanonError

-- The order of `ciborium::value::CanonicalValue`: by the length of the encoding, then bytewise.
pub record KeyOrder : Type 0 where
  pub key_le : Value → Value → Bool
  pub key_order : IsOrder key_le

-- The entries of a map as a list.
abbrev pub Pairs : Type 0
Pairs = List (Value × Value)

unfoldable pub entries_of : Pairs → Entries
entries_of [] = end
entries_of ((k, v) ∷ rest) = entry k v (entries_of rest)

module _ ⦃o : KeyOrder⦄ where
  -- The comparison that `sort_by` is given.
  abbrev pub entry_le : Value × Value → Value × Value → Bool
  entry_le a b = o.key_le a.0 b.0

  -- windows(2).any(|w| w[0].0 == w[1].0)
  unfoldable pub has_tie : Pairs → Bool
  has_tie (a ∷ b ∷ rest) = entry_le a b && entry_le b a || has_tie (b ∷ rest)
  has_tie _ = false

  unfoldable pub close_map : Pairs → Result CanonError Value
  close_map out =
      let sorted = sort_by entry_le out in
      if has_tie sorted then err duplicate_map_key else ok (map_of (entries_of sorted))

  unfoldable mutual
    pub canonicalize : Value → Result CanonError Value
    canonicalize (float f) = err float_not_allowed
    canonicalize (map_of es) = do out ← canonicalize_entries es; close_map out
    canonicalize (array items) = do ys ← canonicalize_items items; ok (array ys)
    canonicalize (tag t inner) = do w ← canonicalize inner; ok (tag t w)
    canonicalize (integer n) = ok (integer n)
    canonicalize (bytes bs) = ok (bytes bs)
    canonicalize (text_string s) = ok (text_string s)
    canonicalize (bool b) = ok (bool b)
    canonicalize null = ok null

    pub canonicalize_items : Items → Result CanonError Items
    canonicalize_items nil = ok nil
    canonicalize_items (cons x xs) = do
      y ← canonicalize x
      ys ← canonicalize_items xs
      ok (cons y ys)

    -- The loop over the entries of a map.
    pub canonicalize_entries : Entries → Result CanonError Pairs
    canonicalize_entries end = ok []
    canonicalize_entries (entry k v rest) = do
      k' ← canonicalize k
      v' ← canonicalize v
      out ← canonicalize_entries rest
      ok ((k', v') ∷ out)

-- ciborium::into_writer to a vector and ciborium::from_reader from a slice.
pub record Ciborium : Type 0 where
  pub into_writer : Value → Result Text (List ℕ)
  pub from_reader : List ℕ → Result Text Value

abbrev pub encode_error {ℓ} : {A : Type ℓ} → Result Text A → Result CanonError A
encode_error (ok a) = ok a
encode_error (err e) = err (encode_failed e)

abbrev pub decode_error {ℓ} : {A : Type ℓ} → Result Text A → Result CanonError A
decode_error (ok a) = ok a
decode_error (err e) = err (decode_failed e)

module _ ⦃o : KeyOrder⦄ ⦃c : Ciborium⦄ where
  unfoldable pub write_canonical : Value → Result CanonError (List ℕ)
  write_canonical v = encode_error (c.into_writer v)

  -- `serialized` is `Value::serialized` of the type.
  unfoldable pub encode {ℓ} :
      {T : Type ℓ} → (T → Result Text Value) → T → Result CanonError (List ℕ)
  encode serialized value = do
    v ← encode_error (serialized value)
    w ← canonicalize v
    write_canonical w

  -- `deserialized` is `Value::deserialized` of the type.
  unfoldable pub decode {ℓ} : {T : Type ℓ} → (Value → Result Text T) → List ℕ → Result CanonError T
  decode deserialized bs = do
    v ← decode_error (c.from_reader bs)
    w ← canonicalize v
    written ← write_canonical w
    if not (written == bs) then err not_canonical else decode_error (deserialized w)

module _ ⦃o : KeyOrder⦄ ⦃c : Ciborium⦄ ⦃d : Digest⦄ where
  unfoldable pub content_hash {ℓ} :
      {T : Type ℓ} → (T → Result Text Value) → T → Result CanonError Hash32
  content_hash serialized value = do bs ← encode serialized value; ok (hash_bytes bs)
