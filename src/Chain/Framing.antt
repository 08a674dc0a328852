-- ===== src/Chain/Framing.antt =====
-- crates/ancre-chain/src/lib.rs: length-prefixed fields cannot shift, so the hash of an event
-- determines the rule set, the previous hash and the body that went into it.
use ancre.Prelude.{
  ℕ, ◌<◌, ◌≡◌, refl, sym, ap, ◌∙◌, ◌⊎◌, inl, inr, List, ◌++◌, Result, ok, err, >>=-eq-ok, ok_inj,
  text, length, arith,
}
use mathlib.Core.List.{append_assoc}
use ancre.Canon.Hash.{Hash32, IsHash32, Digest, Collision, Hasher, new_hasher, digest-injective}
use ancre.Canon.Hash.Separation.{append-injective, Hash32-ext}
use ancre.Canon.Cbor.{KeyOrder, Ciborium, CanonError}
use ancre.Canon.Cbor.Codec.{ReadsBack}
use ancre.Types.Event.{AuditEvent}
use ancre.Types.Event.Body.{hashed_view, hashed_body}
use ancre.Types.Event.Body.Binding.{hashed_body-injective}
use ancre.Chain.{canon_error, event_hash, u32_le_bytes, saturating_u32, absorb}

-- The framed form of a field.
unfoldable pub frame : List ℕ → List ℕ
frame field = u32_le_bytes (saturating_u32 (length field)) ++ field

u32_le_bytes-injective :
    (m n : ℕ) → m < 4294967296 → n < 4294967296 → u32_le_bytes m ≡ u32_le_bytes n → m ≡ n
u32_le_bytes-injective m n hm hn h = ground arith

pub absorb_lem :
    (h : Hasher) (field : List ℕ) → (absorb h field).absorbed ≡ h.absorbed ++ frame field
unfolding absorb frame
absorb_lem h field = append_assoc h.absorbed _ _

pub frame-injective :
    (a b us vs : List ℕ)
    → length a < 4294967295
    → length b < 4294967295
    → frame a ++ us ≡ frame b ++ vs
    → (a ≡ b) × (us ≡ vs)
unfolding frame
frame-injective a b us vs ha hb h =
    let la = saturating_u32 (length a) in
    let lb = saturating_u32 (length b) in
    let regrouped : u32_le_bytes la ++ (a ++ us) ≡ u32_le_bytes lb ++ (b ++ vs) =
      sym (append_assoc (u32_le_bytes la) a us) ∙ h ∙ append_assoc (u32_le_bytes lb) b vs in
    let (heads, rest) =
      append-injective (u32_le_bytes la) (u32_le_bytes lb) (a ++ us) (b ++ vs) refl regrouped in
    let same : la ≡ lb = u32_le_bytes-injective la lb (ground arith) (ground arith) heads in
    append-injective a b us vs (ground arith) rest

-- The body needs no bound: it comes last.
pub frame_last : (a b : List ℕ) → frame a ≡ frame b → a ≡ b
unfolding frame
frame_last a b h =
    (append-injective (u32_le_bytes (saturating_u32 (length a)))
      (u32_le_bytes (saturating_u32 (length b))) a b refl h).1

pub canon_error-eq-ok {ℓ} :
    {A : Type ℓ} (r : Result CanonError A) {a : A} → canon_error r ≡ ok a → r ≡ ok a
canon_error-eq-ok (ok a) h = ap ok (ok_inj h)
canon_error-eq-ok (err e) h = cc

module _ ⦃d : Digest⦄ ⦃o : KeyOrder⦄ ⦃c : Ciborium⦄ where
  -- What the hasher has absorbed when the hash of an event is taken.
  unfoldable pub event_frames : AuditEvent → List ℕ → List ℕ
  event_frames e body =
      frame (text "ancre-event/1")
      ++ (frame e.canon_version ++ (frame e.prev_hash.bytes ++ frame body))

  absorbed_lem :
      (tag version prev body : List ℕ)
      → (absorb (absorb (absorb (absorb new_hasher tag) version) prev) body).absorbed
        ≡ frame tag ++ (frame version ++ (frame prev ++ frame body))
  absorbed_lem tag version prev body = simp (absorb_lem, append_assoc)

  pub event_hash-eq-ok :
      (e : AuditEvent) (h : Hash32)
      → event_hash e ≡ ok h
      → (body : List ℕ) × (hashed_body e ≡ ok body) × (d.digest (event_frames e body) ≡ h)
  unfolding event_hash event_frames
  event_hash-eq-ok e h eq =
      let (body, eb, made) = >>=-eq-ok (canon_error (hashed_body e)) _ eq in
      (
        body,
        canon_error-eq-ok (hashed_body e) eb,
        ap d.digest (sym (absorbed_lem _ e.canon_version e.prev_hash.bytes body)) ∙ ok_inj made,
      )

  -- Two events that hash alike have the same rule set, the same previous hash and the same hashed
  -- body, or a collision of the hash function is at hand. The rule set's name is shorter than
  -- 4 GiB and what the encoder writes can be read back.
  pub event_hash-injective :
      (x y : AuditEvent) (h : Hash32)
      → ReadsBack c
      → IsHash32 x.prev_hash
      → IsHash32 y.prev_hash
      → length x.canon_version < 4294967295
      → length y.canon_version < 4294967295
      → event_hash x ≡ ok h
      → event_hash y ≡ ok h
      → ((x.canon_version ≡ y.canon_version)
          × (x.prev_hash ≡ y.prev_hash)
          × (hashed_view x ≡ hashed_view y))
        ⊎ Collision d
  unfolding event_frames
  event_hash-injective x y h reads wx wy vx vy hx hy =
      let (bx, ex, dx) = event_hash-eq-ok x h hx in
      let (by, ey, dy) = event_hash-eq-ok y h hy in
      elim (digest-injective _ _ (dx ∙ sym dy)) [
        | inr collision ↦ inr collision
        | inl same ↦
            let (_, r₁) = frame-injective _ _ _ _ (omega arith) (omega arith) same in
            let (versions, r₂) = frame-injective _ _ _ _ vx vy r₁ in
            let (prevs, r₃) = frame-injective _ _ _ _ (omega arith) (omega arith) r₂ in
            inl (
              versions,
              Hash32-ext _ _ prevs,
              hashed_body-injective x y bx reads ex (ey ∙ ap ok (sym (frame_last bx by r₃))),
            )
      ]
