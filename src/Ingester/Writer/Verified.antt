-- ===== src/Ingester/Writer/Verified.antt =====
-- crates/ancre-ingester/src/chain_writer.rs against crates/ancre-chain/src/verify.rs: what a writer
-- writes is what the verifier accepts.
use ancre.Prelude.{
  ℕ, ◌+◌, ◌%◌, ◌<◌, ◌≡◌, refl, sym, ap, ◌∙◌, subst, inl, true, List, [], ◌∷◌, Option, none, some,
  length, arith, All, u64_mod,
}
use ancre.Prelude.Int.{ℤ}
use ancre.Canon.Hash.{Hash32, Digest}
use ancre.Canon.Cbor.{KeyOrder, Ciborium}
use ancre.Types.Event.{EmittedEvent, AuditEvent}
use ancre.Types.Event.Body.{hashed_body, hashed_view}
use ancre.Chain.{event_hash}
use ancre.Chain.Verify.{is_clean, verify_range}
use ancre.Chain.Verify.Findings.{head_after}
use ancre.Chain.Verify.Clean.{Follows, HasNext, IsSound, Chained, is_clean-verify_range}
use ancre.Ingester.Writer.{ChainWriter, remember}
use ancre.Ingester.Writer.History.{
  Written, done, appended, refused, day_begun, Appends, sealed_event, moved_on, append-eq-ok,
  append-eq-err,
}

-- The events have the numbers from `n` on, without a gap.
abbrev pub NumberedFrom : ℕ → List AuditEvent → Type 0
NumberedFrom n [] = Unit {0}
NumberedFrom n (ev ∷ evs) = (ev.seq ≡ n) × NumberedFrom (n + 1) evs

pub NumberedFrom-HasNext :
    (n : ℕ) (evs : List AuditEvent)
    → NumberedFrom n evs
    → n + length evs < u64_mod
    → All HasNext evs
NumberedFrom-HasNext n [] h w = tt
NumberedFrom-HasNext n (ev ∷ evs) h w =
    (omega (arith, h.0), NumberedFrom-HasNext (n + 1) evs h.1 (omega arith))

remember-cursor :
    (id : List ℕ) (seq : ℕ) (w : ChainWriter)
    → ((remember id seq w).head_hash ≡ w.head_hash) × ((remember id seq w).next_seq ≡ w.next_seq)
unfolding remember
remember-cursor id seq w = (refl, refl)

module _ ⦃d : Digest⦄ ⦃o : KeyOrder⦄ ⦃c : Ciborium⦄ where
  -- The stamp is not part of what is hashed.
  event_hash_stamped :
      (ev : AuditEvent) (h : Hash32) → event_hash (record ev { event_hash = h }) ≡ event_hash ev
  unfolding event_hash hashed_body hashed_view
  event_hash_stamped ev h = refl

  Appends-IsSound :
      {now : ℤ} {e : EmittedEvent} {w : ChainWriter} {h : Hash32}
      → (last : Option ℕ) → Follows last w.next_seq
      → Appends now e w h
      → IsSound w.head_hash last (sealed_event now e w h)
  Appends-IsSound {h = h} last f a = record {
    follows = f;
    points_back = refl;
    known = refl;
    sealed = event_hash_stamped _ h ∙ a.hashed;
  }

  pub record IsRun (w : ChainWriter) (last : Option ℕ) (evs : List AuditEvent) (w' : ChainWriter)
      : Type 0 where
    pub chained : Chained w.head_hash last evs
    pub numbered : NumberedFrom w.next_seq evs
    pub head : w'.head_hash ≡ head_after w.head_hash evs
    pub cursor : w'.next_seq ≡ w.next_seq + length evs

  IsRun-appended :
      {now : ℤ} {e : EmittedEvent} {w v : ChainWriter} {h : Hash32} {evs : List AuditEvent}
      → (last : Option ℕ) → Follows last w.next_seq
      → w.next_seq + 1 < u64_mod
      → Appends now e w h
      → IsRun (moved_on e w h) (some w.next_seq) evs v
      → IsRun w last (sealed_event now e w h ∷ evs) v
  IsRun-appended {e = e} {w = w} {v = v} {h = h} {evs = evs} last f fits a r =
      let (head, next) =
        remember-cursor e.event_id w.next_seq
          (record w { head_hash = h; next_seq = (w.next_seq + 1) % u64_mod }) in
      let step : (moved_on e w h).next_seq ≡ w.next_seq + 1 = next ∙ omega arith in
      record {
        chained = (
          Appends-IsSound last f a,
          subst (λ (p : Hash32). Chained p (some w.next_seq) evs) head r.chained,
        );
        numbered = (refl, subst (λ (n : ℕ). NumberedFrom n evs) step r.numbered);
        head = subst (λ (p : Hash32). v.head_hash ≡ head_after p evs) head r.head;
        cursor = r.cursor ∙ omega (arith, step);
      }

  pub Written-IsRun :
      {w w' : ChainWriter} {evs : List AuditEvent}
      → (last : Option ℕ) → Written w evs w'
      → Follows last w.next_seq
      → w.next_seq + length evs < u64_mod
      → IsRun w last evs w'
  Written-IsRun last (done w) f fits = record {
    chained = tt;
    numbered = tt;
    head = refl;
    cursor = omega arith;
  }
  Written-IsRun last (refused now e w w' w'' x evs q run) f fits =
      let same : w ≡ w' = sym (append-eq-err now e w w' x q) in
      let r =
        Written-IsRun last run (subst (λ (v : ChainWriter). Follows last v.next_seq) same f)
          (subst (λ (v : ChainWriter). v.next_seq + length evs < u64_mod) same fits) in
      subst (λ (v : ChainWriter). IsRun v last evs w'') (sym same) r
  Written-IsRun last (day_begun day w w'' evs run) f fits =
      let r = Written-IsRun last run f fits in
      record { chained = r.chained; numbered = r.numbered; head = r.head; cursor = r.cursor }
  Written-IsRun last (appended now e w w' w'' ev evs q run) f fits =
      let (h, a, made, moved) = append-eq-ok now e w w' ev q in
      let (head, next) =
        remember-cursor e.event_id w.next_seq
          (record w { head_hash = h; next_seq = (w.next_seq + 1) % u64_mod }) in
      let step : w'.next_seq ≡ w.next_seq + 1 =
        ap (λ (v : ChainWriter). v.next_seq) (sym moved) ∙ next ∙ omega arith in
      let r = Written-IsRun (some w.next_seq) run (inl step) (omega (arith, step)) in
      subst (λ (x : AuditEvent). IsRun w last (x ∷ evs) w'') made
        (IsRun-appended last f (omega arith) a
          (subst (λ (v : ChainWriter). IsRun v (some w.next_seq) evs w'') (sym moved) r))

  -- Whatever a writer writes, in any run of appends that succeed or fail and of days that begin,
  -- the verifier finds clean when it is anchored at the hash the writer started from; the numbers
  -- run without a gap from where the writer stood, and the writer ends at the last event. The
  -- numbers stay below the largest `u64`.
  pub Written-is_clean :
      (w w' : ChainWriter) (evs : List AuditEvent)
      → Written w evs w'
      → w.next_seq + length evs < u64_mod
      → (is_clean (verify_range evs w.head_hash) ≡ true)
        × NumberedFrom w.next_seq evs
        × (w'.head_hash ≡ head_after w.head_hash evs)
        × (w'.next_seq ≡ w.next_seq + length evs)
  Written-is_clean w w' evs run fits =
      let r = Written-IsRun none run tt fits in
      (
        (is_clean-verify_range evs w.head_hash
              (NumberedFrom-HasNext w.next_seq evs r.numbered fits)).1
            r.chained,
        r.numbered,
        r.head,
        r.cursor,
      )
