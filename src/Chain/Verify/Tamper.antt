-- ===== src/Chain/Verify/Tamper.antt =====
-- crates/ancre-chain/src/verify.rs: what a tampered range is reported as.
use mathlib.Core.List.{append-nil}
use ancre.Prelude.{
  ℕ, ◌+◌, ◌<◌, ◌≡◌, ◌≢◌, ap, ap₂, ◌∙◌, List, [], ◌∷◌, ◌++◌, Option, none, some, ok, arith, All,
  u64_mod, ℕ-Eq, List-Eq, eq→==, ne→==,
}
use ancre.Canon.Hash.{Hash32, Hash32-Eq, Digest}
use ancre.Canon.Cbor.{KeyOrder, Ciborium}
use ancre.Types.Event.{AuditEvent}
use ancre.Chain.{canon_version, event_hash}
use ancre.Chain.Verify.{hash_mismatch, gap, position, link, recomputed, contents, verify_range}
use ancre.Chain.Verify.Findings.{
  found_at, findings, findings-append, head_after, last_after, verify_range_lem,
}
use ancre.Chain.Verify.Clean.{
  HasNext, LastFits, Follows-position, linked, IsSound, Chained, IsSound-found_at, sealed_contents,
  Chained-findings,
}

LastFits-last_after :
    (last : Option ℕ) (es : List AuditEvent)
    → LastFits last
    → All HasNext es
    → LastFits (last_after last es)
LastFits-last_after last [] w ws = w
LastFits-last_after last (e ∷ es) w ws = LastFits-last_after (some e.seq) es ws.0 ws.1

All-split {ℓ κ} :
    {A : Type ℓ} (P : A → Type κ) (xs ys : List A) → All P (xs ++ ys) → All P xs × All P ys
All-split P [] ys h = (tt, h)
All-split P (x ∷ xs) ys h = let (l, r) = All-split P xs ys h.1 in ((h.0, l), r)

module _ ⦃d : Digest⦄ ⦃o : KeyOrder⦄ ⦃c : Ciborium⦄ where
  Chained-split :
      (prev : Hash32) (last : Option ℕ) (xs ys : List AuditEvent)
      → Chained prev last (xs ++ ys)
      → Chained prev last xs × Chained (head_after prev xs) (last_after last xs) ys
  Chained-split prev last [] ys h = (tt, h)
  Chained-split prev last (x ∷ xs) ys h =
      let (l, r) = Chained-split x.event_hash (some x.seq) xs ys h.1 in ((h.0, l), r)

  -- An event whose contents were changed and whose claims were not.
  pub record IsTampered (e e' : AuditEvent) (computed : Hash32) : Type 0 where
    pub same_seq : e'.seq ≡ e.seq
    pub same_prev : e'.prev_hash ≡ e.prev_hash
    pub same_version : e'.canon_version ≡ e.canon_version
    pub same_hash : e'.event_hash ≡ e.event_hash
    pub hashes_to : event_hash e' ≡ ok computed
    pub other_hash : computed ≢ e.event_hash

  tampered_contents :
      (e : AuditEvent) (computed : Hash32)
      → e.canon_version ≡ canon_version
      → event_hash e ≡ ok computed
      → computed ≢ e.event_hash
      → contents e ≡ hash_mismatch e.seq e.event_hash computed ∷ []
  unfolding contents recomputed
  tampered_contents e computed v h ne =
      rw (eq→== e.canon_version canon_version v, h, ne→== computed e.event_hash ne)

  tampered_found_at :
      (prev : Hash32) (last : Option ℕ) (e e' : AuditEvent) (computed : Hash32)
      → LastFits last
      → IsSound prev last e
      → IsTampered e e' computed
      → found_at prev last e' ≡ hash_mismatch e.seq e.event_hash computed ∷ []
  tampered_found_at prev last e e' computed w s t =
      let in_position : position last e'.seq ≡ [] =
        ap (position last) t.same_seq ∙ Follows-position last e.seq w s.follows in
      let on_link : link prev e' ≡ [] = linked prev e' (t.same_prev ∙ s.points_back) in
      let found =
        tampered_contents e' computed (t.same_version ∙ s.known) t.hashes_to
          (λ same. t.other_hash (same ∙ t.same_hash)) in
      ap₂ (λ p l. p ++ (l ++ contents e')) in_position on_link
      ∙ found
      ∙ ap₂ (λ s h. hash_mismatch s h computed ∷ []) t.same_seq t.same_hash

  -- In a range that is in order, changing the contents of one event and nothing that it claims
  -- gives one finding, at that event, with both hashes: the later events are not reported.
  pub verify_range_tampered :
      (prev : Hash32) (xs ys : List AuditEvent) (e e' : AuditEvent) (computed : Hash32)
      → All HasNext (xs ++ e ∷ ys)
      → Chained prev none (xs ++ e ∷ ys)
      → IsTampered e e' computed
      → (verify_range (xs ++ e' ∷ ys) prev).violations
        ≡ hash_mismatch e.seq e.event_hash computed ∷ []
  unfolding findings
  verify_range_tampered prev xs ys e e' computed ws ch t =
      let (wx, we) = All-split HasNext xs (e ∷ ys) ws in
      let (cx, ce) = Chained-split prev none xs (e ∷ ys) ch in
      let last = last_after none xs in
      let fits = LastFits-last_after none xs tt wx in
      let before = Chained-findings prev none xs tt wx cx in
      let here = tampered_found_at (head_after prev xs) last e e' computed fits ce.0 t in
      let after : findings e'.event_hash (some e'.seq) ys ≡ [] =
        ap₂ (λ h s. findings h (some s) ys) t.same_hash t.same_seq
        ∙ Chained-findings e.event_hash (some e.seq) ys we.0 we.1 ce.1 in
      (verify_range_lem (xs ++ e' ∷ ys) prev).0
      ∙ findings-append prev none xs (e' ∷ ys)
      ∙ ap₂ (◌++◌) before (ap₂ (◌++◌) here after)

  position_skipped :
      (a e b : ℕ) → b + 1 < u64_mod → e ≡ a + 1 → b ≡ e + 1 → position (some a) b ≡ gap a b ∷ []
  unfolding position
  position_skipped a e b w he hb = ground arith

  -- Taking one inner event out of a range that is in order, with consecutive numbers around it, is
  -- reported as the gap between its neighbours, then by what is found at the second of them, and
  -- by nothing else.
  pub verify_range_removed :
      (prev : Hash32) (xs ys : List AuditEvent) (a e b : AuditEvent)
      → All HasNext (xs ++ a ∷ e ∷ b ∷ ys)
      → Chained prev none (xs ++ a ∷ e ∷ b ∷ ys)
      → e.seq ≡ a.seq + 1
      → b.seq ≡ e.seq + 1
      → (verify_range (xs ++ a ∷ b ∷ ys) prev).violations ≡ gap a.seq b.seq ∷ link a.event_hash b
  unfolding findings
  verify_range_removed prev xs ys a e b ws ch he hb =
      let (wx, wa) = All-split HasNext xs (a ∷ e ∷ b ∷ ys) ws in
      let (cx, ca) = Chained-split prev none xs (a ∷ e ∷ b ∷ ys) ch in
      let fits = LastFits-last_after none xs tt wx in
      let skipped = position_skipped a.seq e.seq b.seq wa.1.1.0 he hb in
      let sound = ca.1.1.0 in
      let here = IsSound-found_at (head_after prev xs) (last_after none xs) a fits ca.0 in
      let after = Chained-findings b.event_hash (some b.seq) ys wa.1.1.0 wa.1.1.1 ca.1.1.1 in
      (verify_range_lem (xs ++ a ∷ b ∷ ys) prev).0
      ∙ findings-append prev none xs (a ∷ b ∷ ys)
      ∙ rw
          (
            Chained-findings prev none xs tt wx cx,
            here,
            skipped,
            sealed_contents b sound.known sound.sealed,
            after,
          )
          (ap (λ vs. gap a.seq b.seq ∷ vs)
            (append-nil (link a.event_hash b ++ []) ∙ append-nil (link a.event_hash b)))
