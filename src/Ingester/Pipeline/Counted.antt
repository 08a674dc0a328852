-- ===== src/Ingester/Pipeline/Counted.antt =====
-- crates/ancre-ingester/src/pipeline.rs: the report of `ingest` accounts for every event of the batch.
use ancre.Prelude.{
  ℕ, zero, suc, ◌+◌, ◌%◌, ◌<◌, ◌≡◌, refl, ap, ◌∙◌, subst, ◌⊎◌, inl, inr, List, [], ◌∷◌, Option,
  none, some, Result, ok, err, length, length-append, arith, u64_mod,
}
use ancre.Prelude.Int.{ℤ}
use ancre.Prelude.Maps.{lookup}
use ancre.Canon.Hash.{Hash32, Digest}
use ancre.Canon.Cbor.{KeyOrder, Ciborium}
use ancre.Types.Event.{EmittedEvent, AuditEvent}
use ancre.Chain.{ChainId}
use ancre.Ingester.Sink.{EventStore, ChainId-Eq, chain_of}
use ancre.Ingester.Writer.{ChainWriter, IngestError, store, chain, duplicate, append}
use ancre.Ingester.Pipeline.{
  Ingester, Batch, Outcome, continued, returned, IngestReport, start_batch, count_append,
  chain_with, resume, chain_found, chain_all, then_continue, or_insert, insert_rounds,
  insert_with_retry, Tried, try_insert, stored, store_chained, finish_batch, ingest,
}

-- A deferred batch stores nothing.
abbrev IsDeferred : IngestReport → Type 0
IsDeferred r = (r.deferred ≡ 1) × (r.inserted ≡ 0)

module _ {S : Type 0} where
  record IsCounted (m : ℕ) (b : Batch S) : Type 0 where
    chained : b.report.chained ≡ length b.chained
    all : length b.chained + b.report.duplicates ≡ m
    undeferred : b.report.deferred ≡ 0
    none_stored : b.report.inserted ≡ 0

  abbrev Counts : ℕ → Outcome S → Type 0
  Counts m (continued b) = IsCounted m b
  Counts m (returned (ok report) ig) = IsDeferred report
  Counts m (returned (err e) ig) = Unit {0}

  count_append-Counts :
      (m : ℕ) (k : ChainId) (b : Batch S) (r : Result IngestError AuditEvent × ChainWriter)
      → m + 1 < u64_mod
      → IsCounted m b
      → Counts (m + 1) (count_append k b r)
  count_append-Counts m k b (ok event, w) fits h = record {
    chained = omega (arith, h.chained, h.all, length-append b.chained (event ∷ []));
    all = omega (arith, h.all, length-append b.chained (event ∷ []));
    undeferred = h.undeferred;
    none_stored = h.none_stored;
  }
  count_append-Counts m k b (err (duplicate id seq), w) fits h = record {
    chained = h.chained;
    all = omega (arith, h.all);
    undeferred = h.undeferred;
    none_stored = h.none_stored;
  }
  count_append-Counts m k b (err (store e), w) fits h = tt
  count_append-Counts m k b (err (chain e), w) fits h = tt

module _ ⦃d : Digest⦄ ⦃o : KeyOrder⦄ ⦃cb : Ciborium⦄ where
  chain_with-Counts :
      {S : Type 0} (m : ℕ) (now : ℤ) (e : EmittedEvent) (b : Batch S) (w : ChainWriter)
      → m + 1 < u64_mod
      → IsCounted m b
      → Counts (m + 1) (chain_with now e (chain_of e) b w)
  unfolding chain_with
  chain_with-Counts m now e b w fits h =
      count_append-Counts m (chain_of e)
        (record b { rollback = or_insert (chain_of e) (w.next_seq, w.head_hash) b.rollback })
        (append now e w) fits
        (record {
          chained = h.chained;
          all = h.all;
          undeferred = h.undeferred;
          none_stored = h.none_stored;
        })

  resume-Counts :
      {S : Type 0} (m : ℕ) (now : ℤ) (e : EmittedEvent) (b : Batch S)
      (r : Result IngestError (Option (ℕ × Hash32)) × S)
      → m + 1 < u64_mod
      → IsCounted m b
      → Counts (m + 1) (resume now e (chain_of e) b r)
  unfolding resume
  resume-Counts m now e b (err x, s) fits h = (omega (arith, h.undeferred), h.none_stored)
  resume-Counts m now e b (ok last, s) fits h = chain_with-Counts m now e _ _ fits (record {
    chained = h.chained;
    all = h.all;
    undeferred = h.undeferred;
    none_stored = h.none_stored;
  })

  module _ (st : EventStore) where
    chain_found-Counts :
        (m : ℕ) (now : ℤ) (e : EmittedEvent) (b : Batch st.State) (found : Option ChainWriter)
        → m + 1 < u64_mod
        → IsCounted m b
        → Counts (m + 1) (chain_found st now e (chain_of e) b found)
    unfolding chain_found
    chain_found-Counts m now e b none fits h = resume-Counts m now e b _ fits h
    chain_found-Counts m now e b (some w) fits h = chain_with-Counts m now e b w fits h

    then_continue-Counts :
        (m n : ℕ) (rest : Batch st.State → Outcome st.State) (out : Outcome st.State)
        → ((b : Batch st.State) → IsCounted m b → Counts n (rest b))
        → Counts m out
        → Counts n (then_continue rest out)
    then_continue-Counts m n rest (continued b) next h = next b h
    then_continue-Counts m n rest (returned (ok report) ig) next h = h
    then_continue-Counts m n rest (returned (err e) ig) next h = tt

    chain_all-Counts :
        (m : ℕ) (batch : List (ℤ × EmittedEvent)) (b : Batch st.State)
        → m + length batch < u64_mod
        → IsCounted m b
        → Counts (m + length batch) (chain_all st batch b)
    unfolding chain_all
    chain_all-Counts m [] b fits h = subst (λ n. IsCounted n b) (omega arith) h
    chain_all-Counts m ((now, e) ∷ rest) b fits h =
        subst
          (λ n. Counts n (
            then_continue (chain_all st rest)
              (chain_found st now e (chain_of e) b (lookup (chain_of e) b.ingester.writers))))
          (omega arith)
          (then_continue-Counts (m + 1) (m + 1 + length rest) (chain_all st rest) _
            (λ b k. chain_all-Counts (m + 1) rest b (omega arith) k)
            (chain_found-Counts m now e b _ (omega arith) h))

    -- The rounds of insertion count retries only.
    abbrev SameCounts : IngestReport → Tried st → Type 0
    SameCounts p t =
        (t.1.chained ≡ p.chained)
        × (t.1.duplicates ≡ p.duplicates)
        × (t.1.deferred ≡ p.deferred)
        × (t.1.inserted ≡ p.inserted)

    try_insert-SameCounts :
        (report : IngestReport) (again : IngestError → IngestReport → st.State → Tried st)
        (r : Result IngestError (Unit {0}) × st.State)
        → ((e : IngestError) (n : ℕ) (s : st.State)
            → SameCounts report (again e (record report { retries = n }) s))
        → SameCounts report (try_insert st report again r)
    try_insert-SameCounts report again (ok u, s) next = (refl, refl, refl, refl)
    try_insert-SameCounts report again (err e, s) next = next e ((report.retries + 1) % u64_mod) s

    insert_rounds-SameCounts :
        (n : ℕ) (last : Option IngestError) (batch : List AuditEvent) (report : IngestReport)
        (s : st.State)
        → SameCounts report (insert_rounds st n last batch report s)
    unfolding insert_rounds
    insert_rounds-SameCounts zero last batch report s = (refl, refl, refl, refl)
    insert_rounds-SameCounts (suc n) last batch report s =
        try_insert-SameCounts report (λ e. insert_rounds st n (some e) batch) (st.insert batch s)
          (λ e k s'. insert_rounds-SameCounts n (some e) batch (record report { retries = k }) s')

    -- Every event was chained and stored or is a duplicate; or nothing was stored.
    abbrev pub Accounts : ℕ → IngestReport → Type 0
    Accounts n r =
        ((r.deferred ≡ 0) × (r.chained + r.duplicates ≡ n) × (r.inserted ≡ r.chained))
        ⊎ ((r.deferred ≡ 1) × (r.inserted ≡ 0))

    abbrev Reports : ℕ → Result IngestError IngestReport × Ingester st.State → Type 0
    Reports n (ok report, ig) = Accounts n report
    Reports n (err e, ig) = Unit {0}

    stored-Reports :
        (n : ℕ) (b : Batch st.State) (t : Tried st)
        → n < u64_mod
        → IsCounted n b
        → SameCounts b.report t
        → Reports n (stored st b t)
    unfolding stored
    stored-Reports n b (ok u, report, s) fits h (chained, dups, deferred, inserted) = inl (
      deferred ∙ h.undeferred,
      omega (arith, chained, dups, h.chained, h.all),
      omega (arith, chained, inserted, h.chained, h.all, h.none_stored),
    )
    stored-Reports n b (err e, report, s) fits h (chained, dups, deferred, inserted) =
        inr (omega (arith, deferred, h.undeferred), inserted ∙ h.none_stored)

    store_chained-Reports :
        (n : ℕ) (b : Batch st.State) (es : List AuditEvent)
        → b.chained ≡ es
        → n < u64_mod
        → IsCounted n b
        → Reports n (store_chained st b es)
    unfolding store_chained insert_with_retry
    store_chained-Reports n b [] same fits h = inl (
      h.undeferred,
      omega (arith, h.chained, h.all),
      omega (arith, h.chained, h.none_stored, ap length same),
    )
    store_chained-Reports n b (e ∷ es) same fits h =
        stored-Reports n b _ fits h (
          insert_rounds-SameCounts b.ingester.retry.attempts none (e ∷ es) b.report
            b.ingester.store)

    finish-Reports :
        (n : ℕ) (out : Outcome st.State)
        → n < u64_mod
        → Counts n out
        → Reports n (finish_batch st out)
    unfolding finish_batch
    finish-Reports n (continued b) fits h = store_chained-Reports n b b.chained refl fits h
    finish-Reports n (returned (ok report) ig) fits h = inr h
    finish-Reports n (returned (err e) ig) fits h = tt

    -- A report of `ingest` accounts for the whole batch: either nothing is deferred, each event was
    -- chained or is a duplicate, and all that were chained are inserted; or the batch is deferred
    -- and nothing is inserted. A batch has fewer than 2^64 events.
    pub ingest-Accounts :
        (batch : List (ℤ × EmittedEvent)) (ig ig' : Ingester st.State) (report : IngestReport)
        → length batch < u64_mod
        → ingest st batch ig ≡ (ok report, ig')
        → Accounts (length batch) report
    unfolding ingest
    ingest-Accounts batch ig ig' report fits q =
        let first : IsCounted 0 (start_batch ig) = record {
          chained = refl;
          all = refl;
          undeferred = refl;
          none_stored = refl;
        } in
        subst (Reports (length batch)) q (
          finish-Reports (length batch) (chain_all st batch (start_batch ig)) fits (
            subst (λ n. Counts n (chain_all st batch (start_batch ig))) (omega arith)
              (chain_all-Counts 0 batch (start_batch ig) (omega arith) first)))
