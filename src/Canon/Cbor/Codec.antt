-- ===== src/Canon/Cbor/Codec.antt =====
-- crates/ancre-canon/src/lib.rs, `encode` and `decode`: decoding accepts the canonical bytes of a
-- value and no others.
use ancre.Prelude.{
  ◌≡◌, ap, ◌∙◌, not, List, ℕ, Result, ok, err, >>=-eq-ok, ok_inj, Bool-cases, inl, inr, Text, ◌==◌,
  ℕ-Eq, List-Eq, ==→eq, ==_refl, if◌then◌else◌,
}
use ancre.Canon.Cbor.{
  Value, KeyOrder, Ciborium, encode_error, decode_error, write_canonical, canonicalize, encode,
  decode, not_canonical,
}
use ancre.Canon.Cbor.Canonical.{IsCanonical, canonicalize_idem}

module _ {ℓ} {A : Type ℓ} where
  encode_error-eq-ok : (r : Result Text A) {a : A} → encode_error r ≡ ok a → r ≡ ok a
  encode_error-eq-ok (ok a) h = ap ok (ok_inj h)
  encode_error-eq-ok (err e) h = cc

  decode_error-eq-ok : (r : Result Text A) {a : A} → decode_error r ≡ ok a → r ≡ ok a
  decode_error-eq-ok (ok a) h = ap ok (ok_inj h)
  decode_error-eq-ok (err e) h = cc

-- Reading returns what was written.
abbrev pub ReadsBack : Ciborium → Type 0
ReadsBack c = (w : Value) (bs : List ℕ) → c.into_writer w ≡ ok bs → c.from_reader bs ≡ ok w

module _ ⦃o : KeyOrder⦄ ⦃c : Ciborium⦄ {T : Type 0} where
  checked :
      (w : Value) (d : Value → Result Text T) (written bs : List ℕ) {t : T}
      → (if not (written == bs) then err not_canonical else decode_error (d w)) ≡ ok t
      → (written ≡ bs) × (d w ≡ ok t)
  checked w d written bs h = elim (Bool-cases (written == bs)) [
    | inl same ↦ (==→eq written bs same, decode_error-eq-ok (d w) (rw same at h))
    | inr other ↦ cc (rw other at h)
  ]

  -- Bytes that decode are the canonical writing of a value in canonical form, the one whose
  -- conversion is the result.
  pub decode-eq-ok :
      (d : Value → Result Text T) (bs : List ℕ) (t : T)
      → decode d bs ≡ ok t
      → (w : Value) × IsCanonical w × (write_canonical w ≡ ok bs) × (d w ≡ ok t)
  unfolding decode
  decode-eq-ok d bs t h =
      let (v, ev, h₁) = >>=-eq-ok (decode_error (c.from_reader bs)) _ h in
      let (w, ew, h₂) = >>=-eq-ok (canonicalize v) _ h₁ in
      let (written, ewr, h₃) = >>=-eq-ok (write_canonical w) _ h₂ in
      let (same, converted) = checked w d written bs h₃ in
      (w, canonicalize_idem v w ew, ewr ∙ ap ok same, converted)

  -- What `encode` wrote decodes to the value that was encoded, if reading undoes writing and the
  -- conversion from a canonical value undoes the conversion to it.
  pub decode-encode :
      (s : T → Result Text Value) (d : Value → Result Text T) (t : T) (bs : List ℕ)
      → ReadsBack c
      → ((v w : Value) → s t ≡ ok v → canonicalize v ≡ ok w → d w ≡ ok t)
      → encode s t ≡ ok bs
      → decode d bs ≡ ok t
  unfolding encode decode write_canonical
  decode-encode s d t bs reads converts h =
      let (v, ev, h₁) = >>=-eq-ok (encode_error (s t)) _ h in
      let (w, ew, h₂) = >>=-eq-ok (canonicalize v) _ h₁ in
      let written = encode_error-eq-ok (c.into_writer w) h₂ in
      rw (
        reads w bs written,
        canonicalize_idem v w ew,
        written,
        ==_refl bs,
        converts v w (encode_error-eq-ok (s t) ev) ew,
      )

  -- What was encoded is the writing of the canonical form of the converted value.
  pub encode-eq-ok :
      (s : T → Result Text Value) (t : T) (bs : List ℕ)
      → encode s t ≡ ok bs
      → (v : Value) × (w : Value) × (s t ≡ ok v)
        × (canonicalize v ≡ ok w)
        × (c.into_writer w ≡ ok bs)
  unfolding encode write_canonical
  encode-eq-ok s t bs h =
      let (v, ev, h₁) = >>=-eq-ok (encode_error (s t)) _ h in
      let (w, ew, h₂) = >>=-eq-ok (canonicalize v) _ h₁ in
      (v, w, encode_error-eq-ok (s t) ev, ew, encode_error-eq-ok (c.into_writer w) h₂)
