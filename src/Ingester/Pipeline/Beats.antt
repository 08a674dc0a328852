-- ===== src/Ingester/Pipeline/Beats.antt =====
-- crates/ancre-ingester/src/pipeline.rs: heartbeats that the store refuses.
use ancre.Prelude.{
  ℕ, ◌+◌, ◌<◌, ◌≡◌, refl, sym, subst, ap, ap₂, ◌∙◌, inl, inr, List, [], ◌∷◌, some, Result, ok, err,
  length, arith, u64_mod, some_inj, Bool-cases, ◌==◌, ==→eq,
}
use ancre.Prelude.Int.{ℤ}
use ancre.Prelude.Maps.{lookup}
use ancre.Canon.Hash.{Digest}
use ancre.Canon.Cbor.{KeyOrder, Ciborium}
use ancre.Types.Event.{AuditEvent}
use ancre.Chain.{ChainId}
use ancre.Ingester.Sink.{EventStore, Keeps, ChainId-Eq}
use ancre.Ingester.Writer.{
  ChainWriter, IngestError, heartbeat, append, heartbeat_event, is_today, day_of,
}
use ancre.Ingester.Writer.Window.{append-next_seq}
use ancre.Ingester.Pipeline.{Ingester, heartbeats, beat_all, count_written, store_written}
use ancre.Ingester.Pipeline.Rows.{AtHead}

module _ ⦃d : Digest⦄ ⦃o : KeyOrder⦄ ⦃c : Ciborium⦄ where
  heartbeat-next_seq :
      (clock now : ℤ) (w w' : ChainWriter) (ev : AuditEvent)
      → w.next_seq + 1 < u64_mod
      → heartbeat clock now w ≡ (some (ok ev), w')
      → w'.next_seq ≡ w.next_seq + 1
  unfolding heartbeat
  heartbeat-next_seq clock now w w' ev fits q =
      elim (Bool-cases (is_today w.last_heartbeat_day (day_of now))) [
        | inl t ↦ cc (ap (λ p. p.0) (rw t at q))
        | inr f ↦
            let day = record w { last_heartbeat_day = some (day_of now) } in
            let (result, after) : (append clock (heartbeat_event now w) day).0 ≡ ok ev
                × (append clock (heartbeat_event now w) day).1 ≡ w' =
              (some_inj (ap (λ p. p.0) (rw f at q)), ap (λ p. p.1) (rw f at q)) in
            append-next_seq clock (heartbeat_event now w) day w' ev fits
              (ap₂ (λ r v. (r, v)) result after)
      ]

  -- A writer after the heartbeats of all.
  lookup-beat_all :
      (clock : ChainId → ℤ) (now : ℤ) (k : ChainId) (w : ChainWriter)
      (writers : List (ChainId × ChainWriter))
      → lookup k writers ≡ some w
      → lookup k (beat_all clock now writers).1 ≡ some (heartbeat (clock k) now w).1
  unfolding beat_all
  lookup-beat_all clock now k w [] q = cc q
  lookup-beat_all clock now k w ((k', v) ∷ rest) q = elim (Bool-cases (k == k')) [
    | inl t ↦
        let same : v ≡ w = some_inj (rw t at q) in
        rw t (
          ap (λ x. some (heartbeat (clock x) now v).1) (sym (==→eq k k' t))
          ∙ ap (λ x. some (heartbeat (clock k) now x).1) same)
    | inr f ↦ rw f (lookup-beat_all clock now k w rest (rw f at q))
  ]

  module _ (st : EventStore) (keeps : Keeps st) (k : ChainId) where
    -- What an ingester is after an error: its writers, and the rows of the chain as they were.
    abbrev Unwritten : Ingester st.State → Result IngestError ℕ × Ingester st.State → Type 0
    Unwritten ig (ok n, after) = Unit {0}
    Unwritten ig (err e, after) =
        (after.writers ≡ ig.writers) × (keeps.rows k after.store ≡ keeps.rows k ig.store)

    count_written-Unwritten :
        (ig : Ingester st.State) (written : List AuditEvent)
        (answer : Result IngestError (Unit {0}) × st.State)
        → st.insert written ig.store ≡ answer
        → Unwritten ig (count_written st ig written answer)
    count_written-Unwritten ig written (ok u, after) q = tt
    count_written-Unwritten ig written (err e, after) q =
        (refl, keeps.refused k written ig.store after e q)

    store_written-Unwritten :
        (ig : Ingester st.State) (written : List AuditEvent)
        → Unwritten ig (store_written st ig written)
    unfolding store_written
    store_written-Unwritten ig [] = tt
    store_written-Unwritten ig (e ∷ es) =
        count_written-Unwritten ig (e ∷ es) (st.insert (e ∷ es) ig.store) refl

    -- If the heartbeats of an ingester, of any number of writers, end in an error, then every
    -- writer that was at the end of its chain and chained a heartbeat is kept as the heartbeat left
    -- it, though the store has the rows it had before: the next number of the writer is one too
    -- large. The store keeps its documented promises.
    pub heartbeats_astray :
        (clock : ChainId → ℤ) (now : ℤ) (w w' : ChainWriter) (ev : AuditEvent) (e : IngestError)
        (ig ig' : Ingester st.State)
        → lookup k ig.writers ≡ some w
        → AtHead (keeps.rows k ig.store) w
        → w.next_seq + 1 < u64_mod
        → heartbeat (clock k) now w ≡ (some (ok ev), w')
        → heartbeats st clock now ig ≡ (err e, ig')
        → (lookup k ig'.writers ≡ some w')
          × (keeps.rows k ig'.store ≡ keeps.rows k ig.store)
          × (w'.next_seq ≡ length (keeps.rows k ig'.store) + 2)
    unfolding heartbeats
    heartbeats_astray clock now w w' ev e ig ig' known a fits beat q =
        let all = beat_all clock now ig.writers in
        let (writers, rows) =
          subst (Unwritten (record ig { writers = all.1 })) q
            (store_written-Unwritten (record ig { writers = all.1 }) all.0) in
        (
          ap (lookup k) writers
              ∙ lookup-beat_all clock now k w ig.writers known
              ∙ ap (λ t. some t.1) beat,
          rows,
          heartbeat-next_seq (clock k) now w w' ev fits beat
              ∙ omega (arith, a.next, ap length rows),
        )
