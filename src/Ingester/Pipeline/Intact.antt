-- ===== src/Ingester/Pipeline/Intact.antt =====
-- crates/ancre-ingester/src/pipeline.rs: `ingest` keeps the writers and the store in step.
use ancre.Prelude.{
  ℕ, zero, suc, ◌+◌, ◌≤◌, ◌<◌, ◌≡◌, refl, sym, ap, ◌∙◌, subst, List, [], ◌∷◌, ◌++◌, Option, none,
  some, Result, ok, err, length, length-append, arith, u64_mod, true,
}
use mathlib.Core.List.{append-nil}
use ancre.Prelude.Int.{ℤ}
use ancre.Prelude.Maps.{lookup}
use ancre.Canon.Hash.{Hash32, Digest, genesis}
use ancre.Canon.Cbor.{KeyOrder, Ciborium}
use ancre.Types.Event.{EmittedEvent, AuditEvent}
use ancre.Chain.{ChainId}
use ancre.Chain.Verify.{is_clean, verify_range}
use ancre.Ingester.Sink.{EventStore, Keeps, ChainId-Eq, of_chain}
use ancre.Ingester.Writer.{ChainWriter, IngestError}
use ancre.Ingester.Writer.History.{done}
use ancre.Ingester.Pipeline.{
  Ingester, Batch, Outcome, continued, returned, IngestReport, rewind_all, start_batch, chain_all,
  insert_rounds, insert_with_retry, Tried, try_insert, stored, store_chained, finish_batch, ingest,
}
use ancre.Ingester.Pipeline.Rewound.{rewind_all-lookup}
use ancre.Ingester.Pipeline.Rows.{IsChain, Written-IsChain, Written-AtHead, IsChain-is_clean}
use ancre.Ingester.Pipeline.Tracked.{Progress, Place, Progress-Place}
use ancre.Ingester.Pipeline.Looped.{IsTracked, After, chain_all-After}

module _ ⦃d : Digest⦄ ⦃o : KeyOrder⦄ ⦃cb : Ciborium⦄ where
  -- A chain with the events of the batch.
  Progress-advanced :
      (rows mine : List AuditEvent) (at : Option (ℕ × Hash32)) (found : Option ChainWriter)
      → IsChain rows
      → length rows + length mine + 1 < u64_mod
      → Progress rows mine at found
      → IsChain (rows ++ mine) × Place (rows ++ mine) found
  Progress-advanced rows mine at none h fits (nothing, fresh) =
      (subst (λ m. IsChain (rows ++ m)) (sym nothing) (subst IsChain (sym (append-nil rows)) h), tt)
  Progress-advanced rows mine at (some w) h fits (w0, a, run, since) =
      (Written-IsChain rows run h a fits, Written-AtHead rows run h a fits)

  module _ (st : EventStore) (keeps : Keeps st) (c : ChainId) where
    -- Between batches: the rows of the chain are one unbroken chain, and its writer, if there is
    -- one, writes the next row.
    pub record InStep (ig : Ingester st.State) : Type 0 where
      pub sound : IsChain (keeps.rows c ig.store)
      pub place : Place (keeps.rows c ig.store) (lookup c ig.writers)

    -- A chain that has grown by some rows, or by none.
    abbrev Settled : ℕ → List AuditEvent → Ingester st.State → Type 0
    Settled m rows ig =
        (more : List AuditEvent) × (length more ≤ m)
        × (keeps.rows c ig.store ≡ rows ++ more)
        × IsChain (rows ++ more)
        × Place (rows ++ more) (lookup c ig.writers)

    abbrev Good : ℕ → List AuditEvent → Result IngestError IngestReport × Ingester st.State → Type 0
    Good m rows (ok report, ig) = Settled m rows ig
    Good m rows (err e, ig) = Unit {0}

    start-Progress :
        (rows : List AuditEvent) (found : Option ChainWriter)
        → Place rows found
        → Progress rows [] none found
    start-Progress rows none p = (refl, refl)
    start-Progress rows (some w) p = (w, p, done w, (refl, refl))

    -- What the rounds of insertion did to the rows.
    abbrev Inserted : List AuditEvent → List AuditEvent → Tried st → Type 0
    Inserted rows batch (ok u, report, s) = keeps.rows c s ≡ rows ++ of_chain c batch
    Inserted rows batch (err e, report, s) = keeps.rows c s ≡ rows

    try_insert-Inserted :
        (rows batch : List AuditEvent) (report : IngestReport)
        (again : IngestError → IngestReport → st.State → Tried st) (s s' : st.State)
        (r : Result IngestError (Unit {0}))
        → keeps.rows c s ≡ rows
        → st.insert batch s ≡ (r, s')
        → ((e : IngestError) (p : IngestReport)
            → keeps.rows c s' ≡ rows
            → Inserted rows batch (again e p s'))
        → Inserted rows batch (try_insert st report again (r, s'))
    try_insert-Inserted rows batch report again s s' (ok u) h q next =
        keeps.inserted c batch s s' u q ∙ ap (λ r. r ++ of_chain c batch) h
    try_insert-Inserted rows batch report again s s' (err e) h q next =
        next e _ (keeps.refused c batch s s' e q ∙ h)

    insert_rounds-Inserted :
        (n : ℕ) (last : Option IngestError) (rows batch : List AuditEvent) (report : IngestReport)
        (s : st.State)
        → keeps.rows c s ≡ rows
        → Inserted rows batch (insert_rounds st n last batch report s)
    unfolding insert_rounds
    insert_rounds-Inserted zero last rows batch report s h = h
    insert_rounds-Inserted (suc n) last rows batch report s h =
        let answer = st.insert batch s in
        try_insert-Inserted rows batch report (λ e. insert_rounds st n (some e) batch) s answer.1
          answer.0 h refl (λ e p k. insert_rounds-Inserted n (some e) rows batch p answer.1 k)

    module _ (rows : List AuditEvent) (sound : IsChain rows) (m : ℕ)
        (fits : length rows + m + 1 < u64_mod) where
      stored-Good :
          (b : Batch st.State) (t : Tried st)
          → IsTracked st keeps c rows m b
          → Inserted rows b.chained t
          → Good m rows (stored st b t)
      unfolding stored
      stored-Good b (ok u, report, s) h i =
          let (chain, place) =
            Progress-advanced rows (of_chain c b.chained) (lookup c b.rollback)
              (lookup c b.ingester.writers) sound (omega (arith, h.few)) h.progress in
          (of_chain c b.chained, h.few, i, chain, place)
      stored-Good b (err e, report, s) h i =
          let place =
            Progress-Place rows (of_chain c b.chained) (lookup c b.rollback)
              (lookup c b.ingester.writers) (omega (arith, h.few)) h.progress in
          let back =
            subst (Place rows) (sym (rewind_all-lookup c b.rollback b.ingester.writers h.once))
              place in
          (
            [],
            omega arith,
            i ∙ sym (append-nil rows),
            subst IsChain (sym (append-nil rows)) sound,
            subst (λ r. Place r (lookup c (rewind_all b.rollback b.ingester.writers)))
                (sym (append-nil rows)) back,
          )

      store_chained-Good :
          (b : Batch st.State) (es : List AuditEvent)
          → b.chained ≡ es
          → IsTracked st keeps c rows m b
          → Good m rows (store_chained st b es)
      unfolding store_chained insert_with_retry of_chain
      store_chained-Good b [] same h =
          let (chain, place) =
            Progress-advanced rows (of_chain c b.chained) (lookup c b.rollback)
              (lookup c b.ingester.writers) sound (omega (arith, h.few)) h.progress in
          (
            of_chain c b.chained,
            h.few,
            h.stored ∙ sym (append-nil rows) ∙ ap (λ es. rows ++ of_chain c es) (sym same),
            chain,
            place,
          )
      store_chained-Good b (e ∷ es) same h = stored-Good b _ h (
          subst
            (λ l.
              Inserted rows l
                (insert_with_retry st b.ingester.retry (e ∷ es) b.report b.ingester.store))
            (sym same)
            (insert_rounds-Inserted b.ingester.retry.attempts none rows (e ∷ es) b.report
              b.ingester.store h.stored))

      finish-Good :
          (out : Outcome st.State) → After st keeps c rows m out → Good m rows (finish_batch st out)
      unfolding finish_batch
      finish-Good (continued b) h = store_chained-Good b b.chained refl h
      finish-Good (returned (ok report) ig) (same, place) = (
        [],
        omega arith,
        same ∙ sym (append-nil rows),
        subst IsChain (sym (append-nil rows)) sound,
        subst (λ r. Place r (lookup c ig.writers)) (sym (append-nil rows)) place,
      )
      finish-Good (returned (err e) ig) h = tt

    -- Let one chain be as it should be before a batch: its rows in the store are sound from the
    -- first event of the chain on, and its writer, if there is one, writes the next row. Whatever
    -- the store answers, and however often it fails, a batch that is not refused with an error
    -- leaves the chain so: its rows are the ones before the batch and maybe more behind them, the
    -- verifier finds them clean from the first event on, and its writer, if there is one, writes
    -- the next row. The store keeps its documented promises, and no number reaches the largest
    -- `u64`.
    pub ingest-InStep :
        (batch : List (ℤ × EmittedEvent)) (ig ig' : Ingester st.State) (report : IngestReport)
        → InStep ig
        → length (keeps.rows c ig.store) + length batch + 1 < u64_mod
        → ingest st batch ig ≡ (ok report, ig')
        → InStep ig'
          × (is_clean (verify_range (keeps.rows c ig'.store) genesis) ≡ true)
          × (more : List AuditEvent) × (keeps.rows c ig'.store ≡ keeps.rows c ig.store ++ more)
    unfolding ingest of_chain
    ingest-InStep batch ig ig' report h fits q =
        let rows = keeps.rows c ig.store in
        let tracked : IsTracked st keeps c rows 0 (start_batch ig) = record {
          stored = refl;
          progress = start-Progress rows (lookup c ig.writers) h.place;
          few = omega arith;
          once = tt;
        } in
        let looped =
          chain_all-After st keeps c rows h.sound (length batch) fits 0 batch (start_batch ig)
            (omega arith) tracked in
        let good =
          finish-Good rows h.sound (length batch) fits (chain_all st batch (start_batch ig)) (
            subst (λ n. After st keeps c rows n (chain_all st batch (start_batch ig))) (omega arith)
              looped) in
        let (more, few, grown, chain, place) = subst (Good (length batch) rows) q good in
        (
          record {
            sound = subst IsChain (sym grown) chain;
            place = subst (λ r. Place r (lookup c ig'.writers)) (sym grown) place;
          },
          subst (λ r. is_clean (verify_range r genesis) ≡ true) (sym grown)
              (IsChain-is_clean (rows ++ more) chain (omega (arith, length-append rows more))),
          more,
          grown,
        )
