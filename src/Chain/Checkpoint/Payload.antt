-- ===== src/Chain/Checkpoint/Payload.antt =====
-- crates/ancre-chain/src/checkpoint.rs, `signing_payload`: what a signature is about.
use ancre.Prelude.{
  ℕ, ◌≡◌, refl, sym, ap, ◌∙◌, ◌⊎◌, inl, inr, List, ◌++◌, ok, >>=-eq-ok, ok_inj, text, arith, All,
}
use ancre.Canon.Hash.{Hash32, Digest, Collision, new_hasher, digest-injective}
use ancre.Canon.Hash.Separation.{Hash32-ext}
use ancre.Canon.Cbor.{KeyOrder, Ciborium, entries_of, map_of, canonicalize, encode}
use ancre.Canon.Cbor.Canonical.{BothCanonical}
use ancre.Canon.Cbor.Codec.{ReadsBack, encode-eq-ok}
use ancre.Canon.Cbor.Keys.{SameKeys, canonicalize-SameKeys}
use ancre.Types.Event.{AuditEvent}
use ancre.Chain.{canon_error, event_hash, absorb}
use ancre.Chain.Framing.{
  frame, absorb_lem, frame-injective, frame_last, canon_error-eq-ok, event_frames, event_hash-eq-ok,
}
use ancre.Chain.Checkpoint.{CheckpointBody, checkpoint_entries, checkpoint_value, signing_payload}

checkpoint_entries-injective :
    (a b : CheckpointBody) → checkpoint_entries a ≡ checkpoint_entries b → a ≡ b
unfolding checkpoint_entries
checkpoint_entries-injective a b h = ground (arith, Hash32-ext a.root_hash b.root_hash)

checkpoint_entries_canonical :
    ⦃o : KeyOrder⦄ → (b : CheckpointBody) → All BothCanonical (checkpoint_entries b)
unfolding checkpoint_entries canonicalize
checkpoint_entries_canonical b = (
  (refl, refl),
  (
    (refl, refl),
    ((refl, refl), ((refl, refl), ((refl, refl), ((refl, refl), ((refl, refl), tt))))),
  ),
)

checkpoint_entries-SameKeys :
    (a b : CheckpointBody) → SameKeys (checkpoint_entries a) (checkpoint_entries b)
unfolding checkpoint_entries
checkpoint_entries-SameKeys a b = (refl, (refl, (refl, (refl, (refl, (refl, (refl, tt)))))))

module _ ⦃d : Digest⦄ ⦃o : KeyOrder⦄ ⦃c : Ciborium⦄ where
  encode-injective :
      (x y : CheckpointBody) (bs : List ℕ)
      → ReadsBack c
      → encode checkpoint_value x ≡ ok bs
      → encode checkpoint_value y ≡ ok bs
      → x ≡ y
  unfolding checkpoint_value
  encode-injective x y bs reads hx hy =
      let (v, w, sv, cv, wv) = encode-eq-ok checkpoint_value x bs hx in
      let (v', w', sv', cv', wv') = encode-eq-ok checkpoint_value y bs hy in
      let same : w ≡ w' = ok_inj (sym (reads w bs wv) ∙ reads w' bs wv') in
      let vx : map_of (entries_of (checkpoint_entries x)) ≡ v = ok_inj sv in
      let vy : map_of (entries_of (checkpoint_entries y)) ≡ v' = ok_inj sv' in
      checkpoint_entries-injective x y (
        canonicalize-SameKeys _ _ (checkpoint_entries_canonical x) (checkpoint_entries_canonical y)
          (checkpoint_entries-SameKeys x y) (ap canonicalize vx ∙ cv)
          (ap canonicalize vy ∙ cv' ∙ ap ok (sym same)))

  -- What is digested for a signature.
  payload_frames : List ℕ → List ℕ
  payload_frames encoded = frame (text "ancre-checkpoint/1") ++ frame encoded

  two_frames :
      (tag field : List ℕ)
      → (absorb (absorb new_hasher tag) field).absorbed ≡ frame tag ++ frame field
  two_frames tag field = simp (absorb_lem)

  signing_payload-eq-ok :
      (b : CheckpointBody) (payload : List ℕ)
      → signing_payload b ≡ ok payload
      → (encoded : List ℕ) × (encode checkpoint_value b ≡ ok encoded)
        × ((d.digest (payload_frames encoded)).bytes ≡ payload)
  unfolding signing_payload payload_frames
  signing_payload-eq-ok b payload h =
      let (encoded, he, made) = >>=-eq-ok (canon_error (encode checkpoint_value b)) _ h in
      (
        encoded,
        canon_error-eq-ok (encode checkpoint_value b) he,
        ap (λ bs. (d.digest bs).bytes) (sym (two_frames _ encoded)) ∙ ok_inj made,
      )

  -- Two checkpoints whose signed payloads agree have the same body, or a collision of the hash
  -- function is at hand: a signature vouches for one body. What the encoder writes can be read
  -- back.
  pub signing_payload-injective :
      (x y : CheckpointBody) (payload : List ℕ)
      → ReadsBack c
      → signing_payload x ≡ ok payload
      → signing_payload y ≡ ok payload
      → (x ≡ y) ⊎ Collision d
  unfolding payload_frames
  signing_payload-injective x y payload reads hx hy =
      let (ex, encoded, dx) = signing_payload-eq-ok x payload hx in
      let (ey, encoded', dy) = signing_payload-eq-ok y payload hy in
      elim (digest-injective _ _ (Hash32-ext _ _ (dx ∙ sym dy))) [
        | inr collision ↦ inr collision
        | inl same ↦
            let (_, rest) = frame-injective _ _ _ _ (omega arith) (omega arith) same in
            inl (
              encode-injective x y ex reads encoded
                (encoded' ∙ ap ok (sym (frame_last ex ey rest))))
      ]

  -- The signed payload of a checkpoint is not the hash of an event, or a collision of the hash
  -- function is at hand: the domain tags keep the two apart.
  pub signing_payload-ne-event_hash :
      (b : CheckpointBody) (e : AuditEvent) (h : Hash32)
      → signing_payload b ≡ ok h.bytes
      → event_hash e ≡ ok h
      → Collision d
  unfolding payload_frames event_frames
  signing_payload-ne-event_hash b e h hb he =
      let (encoded, _, db) = signing_payload-eq-ok b h.bytes hb in
      let (body, _, de) = event_hash-eq-ok e h he in
      elim (digest-injective _ _ (Hash32-ext _ _ db ∙ sym de)) [
        | inr collision ↦ collision
        | inl same ↦
            let (tags, _) = frame-injective _ _ _ _ (omega arith) (omega arith) same in absurd (cc)
      ]
