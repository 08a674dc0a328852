-- ===== src/Chain/Verify/Commitment.antt =====
-- crates/ancre-chain/src/verify.rs: what the head and the root of a clean range commit to.
use ancre.Prelude.{
  ℕ, ◌≡◌, sym, ap, ◌∙◌, ◌⊎◌, inl, inr, true, List, [], ◌∷◌, Option, none, some, ok, arith, All,
  length, >>=-eq-ok, ok_inj, subst,
}
use ancre.Canon.Hash.{Hash32, IsHash32, Digest, Collision}
use ancre.Canon.Tree.Sound.{tree_root-injective}
use ancre.Canon.Cbor.{KeyOrder, Ciborium}
use ancre.Canon.Cbor.Codec.{ReadsBack}
use ancre.Types.Event.{AuditEvent}
use ancre.Types.Event.Body.{hashed_view, hashed_body}
use ancre.Chain.{canon_error, event_hash}
use ancre.Chain.Framing.{event_hash-injective}
use ancre.Chain.Verify.{is_clean, verify_range}
use ancre.Chain.Verify.Findings.{hashes, head_after, verify_range_lem}
use ancre.Chain.Verify.Clean.{HasNext, IsSound, Chained, is_clean-verify_range}

-- Event by event, the same contents.
abbrev pub Alike : List AuditEvent → List AuditEvent → Type 0
Alike [] [] = Unit
Alike [] (y ∷ ys) = ⊥
Alike (x ∷ xs) [] = ⊥
Alike (x ∷ xs) (y ∷ ys) = (hashed_view x ≡ hashed_view y) × Alike xs ys

module _ ⦃d : Digest⦄ ⦃o : KeyOrder⦄ ⦃c : Ciborium⦄ where
  pub event_hash-IsHash32 : (e : AuditEvent) (h : Hash32) → event_hash e ≡ ok h → IsHash32 h
  unfolding event_hash
  event_hash-IsHash32 e h eq =
      let (body, _, made) = >>=-eq-ok (canon_error (hashed_body e)) _ eq in
      subst IsHash32 (ok_inj made) (d.digest_width _)

  -- Two events in their places with one hash.
  IsSound-Alike :
      {p q : Hash32} {l m : Option ℕ} {x y : AuditEvent}
      → ReadsBack c
      → IsHash32 p
      → IsHash32 q
      → IsSound p l x
      → IsSound q m y
      → x.event_hash ≡ y.event_hash
      → ((p ≡ q) × (hashed_view x ≡ hashed_view y)) ⊎ Collision d
  IsSound-Alike {x = x} {y = y} reads wp wq s t h =
      elim (event_hash-injective x y x.event_hash reads (subst IsHash32 (sym s.points_back) wp)
        (subst IsHash32 (sym t.points_back) wq) (omega (arith, ap length s.known))
        (omega (arith, ap length t.known)) s.sealed (t.sealed ∙ ap ok (sym h))) [
          | inl (_, prevs, views) ↦ inl (sym s.points_back ∙ prevs ∙ t.points_back, views)
          | inr collision ↦ inr collision
        ]

  Chained-Alike :
      (p q : Hash32) (l m : Option ℕ) (xs ys : List AuditEvent)
      → ReadsBack c
      → IsHash32 p
      → IsHash32 q
      → Chained p l xs
      → Chained q m ys
      → length xs ≡ length ys
      → head_after p xs ≡ head_after q ys
      → ((p ≡ q) × Alike xs ys) ⊎ Collision d
  Chained-Alike p q l m [] [] reads wp wq cx cy same h = inl (h, tt)
  Chained-Alike p q l m [] (y ∷ ys) reads wp wq cx cy same h = absurd (omega arith)
  Chained-Alike p q l m (x ∷ xs) [] reads wp wq cx cy same h = absurd (omega arith)
  Chained-Alike p q l m (x ∷ xs) (y ∷ ys) reads wp wq cx cy same h =
      elim (Chained-Alike x.event_hash y.event_hash (some x.seq) (some y.seq) xs ys reads
        (event_hash-IsHash32 x x.event_hash cx.0.sealed)
        (event_hash-IsHash32 y y.event_hash cy.0.sealed) cx.1 cy.1 (omega arith) h) [
          | inr collision ↦ inr collision
          | inl (hs, rest) ↦ elim (IsSound-Alike reads wp wq cx.0 cy.0 hs) [
            | inr collision ↦ inr collision
            | inl (pq, views) ↦ inl (pq, (views, rest))
          ]
        ]

  hashes-Alike :
      (p q : Hash32) (l m : Option ℕ) (xs ys : List AuditEvent)
      → ReadsBack c
      → IsHash32 p
      → IsHash32 q
      → Chained p l xs
      → Chained q m ys
      → hashes xs ≡ hashes ys
      → Alike xs ys ⊎ Collision d
  hashes-Alike p q l m [] [] reads wp wq cx cy h = inl tt
  hashes-Alike p q l m [] (y ∷ ys) reads wp wq cx cy h = absurd (cc)
  hashes-Alike p q l m (x ∷ xs) [] reads wp wq cx cy h = absurd (cc)
  hashes-Alike p q l m (x ∷ xs) (y ∷ ys) reads wp wq cx cy h =
      let hs : x.event_hash ≡ y.event_hash = cc in
      let rest : hashes xs ≡ hashes ys = cc in
      elim (IsSound-Alike reads wp wq cx.0 cy.0 hs) [
        | inr collision ↦ inr collision
        | inl (pq, views) ↦
            elim (hashes-Alike x.event_hash y.event_hash (some x.seq) (some y.seq) xs ys reads
              (event_hash-IsHash32 x x.event_hash cx.0.sealed)
              (event_hash-IsHash32 y y.event_hash cy.0.sealed) cx.1 cy.1 rest) [
                | inr collision ↦ inr collision
                | inl alike ↦ inl (views, alike)
              ]
      ]

  -- Two clean ranges of the same length whose reports name the same head hash start from the same
  -- previous hash and hold, event by event, the same contents, or a collision of the hash function
  -- is at hand. The previous hashes have 32 bytes, what the encoder writes can be read back, and
  -- no sequence number is the largest `u64`.
  pub same_head-Alike :
      (xs ys : List AuditEvent) (p q : Hash32)
      → ReadsBack c
      → All HasNext xs
      → All HasNext ys
      → IsHash32 p
      → IsHash32 q
      → is_clean (verify_range xs p) ≡ true
      → is_clean (verify_range ys q) ≡ true
      → length xs ≡ length ys
      → (verify_range xs p).head_hash ≡ (verify_range ys q).head_hash
      → ((p ≡ q) × Alike xs ys) ⊎ Collision d
  same_head-Alike xs ys p q reads wx wy wp wq cx cy same h =
      Chained-Alike p q none none xs ys reads wp wq ((is_clean-verify_range xs p wx).0 cx)
        ((is_clean-verify_range ys q wy).0 cy) same
        (sym (verify_range_lem xs p).2 ∙ h ∙ (verify_range_lem ys q).2)

  -- Two clean ranges whose reports name the same root hash hold, event by event, the same
  -- contents, or a collision of the hash function is at hand. The previous hashes have 32 bytes,
  -- what the encoder writes can be read back, and no sequence number is the largest `u64`.
  pub same_root-Alike :
      (xs ys : List AuditEvent) (p q : Hash32)
      → ReadsBack c
      → All HasNext xs
      → All HasNext ys
      → IsHash32 p
      → IsHash32 q
      → is_clean (verify_range xs p) ≡ true
      → is_clean (verify_range ys q) ≡ true
      → (verify_range xs p).root_hash ≡ (verify_range ys q).root_hash
      → Alike xs ys ⊎ Collision d
  same_root-Alike xs ys p q reads wx wy wp wq cx cy h =
      elim (tree_root-injective (hashes xs) (hashes ys)
        (sym (verify_range_lem xs p).3 ∙ h ∙ (verify_range_lem ys q).3)) [
          | inr collision ↦ inr collision
          | inl same ↦
              hashes-Alike p q none none xs ys reads wp wq ((is_clean-verify_range xs p wx).0 cx)
                ((is_clean-verify_range ys q wy).0 cy) same
        ]
