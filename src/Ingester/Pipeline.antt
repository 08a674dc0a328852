-- ===== src/Ingester/Pipeline.antt =====
-- crates/ancre-ingester/src/pipeline.rs: batches of emitted events are chained and stored. The store
-- is a parameter with its state, and each event comes with the time at which it is chained.
pub mod Rewound
pub mod Rows
pub mod Tracked
pub mod Resumed
pub mod Looped
pub mod Intact
pub mod Retry
pub mod Beats
pub mod Counted
use ancre.Prelude.{
  ℕ, zero, suc, ◌+◌, ◌%◌, Bool, true, false, List, [], ◌∷◌, ◌++◌, Option, none, some, Result, ok,
  err, Text, text, length, u64_mod, if◌then◌else◌,
}
use ancre.Prelude.Int.{ℤ}
use ancre.Prelude.Maps.{lookup, contains_key, insert}
use ancre.Canon.Hash.{Hash32, Digest}
use ancre.Canon.Cbor.{KeyOrder, Ciborium}
use ancre.Types.Event.{EmittedEvent, AuditEvent}
use ancre.Chain.{ChainId}
use ancre.Ingester.Sink.{EventStore, RetryPolicy, ChainId-Eq, chain_of}
use ancre.Ingester.Writer.{
  ChainWriter, IngestError, store, chain, duplicate, new, resume_from, append, rewind_to, heartbeat,
}

pub record IngestReport : Type 0 where
  pub chained : ℕ
  pub inserted : ℕ
  pub duplicates : ℕ
  pub deferred : ℕ
  pub retries : ℕ

abbrev pub no_report : IngestReport
no_report = record { chained = 0; inserted = 0; duplicates = 0; deferred = 0; retries = 0 }

-- `S` is the state of the store.
pub record Ingester (S : Type 0) : Type 0 where
  pub store : S
  pub node_id : Text
  pub writers : List (ChainId × ChainWriter)
  pub retry : RetryPolicy

-- The variable `rollback` of `ingest`: where a writer stood before the batch.
abbrev pub Rollback : Type 0
Rollback = List (ChainId × (ℕ × Hash32))

-- The body of the loop of `rewind`, on what the map of writers holds for the chain.
abbrev pub rewind_one :
    ChainId
    → ℕ × Hash32
    → Option ChainWriter
    → List (ChainId × ChainWriter)
    → List (ChainId × ChainWriter)
rewind_one c (seq, head) none writers = writers
rewind_one c (seq, head) (some w) writers = insert c (rewind_to seq head w) writers

unfoldable pub rewind_all : Rollback → List (ChainId × ChainWriter) → List (ChainId × ChainWriter)
rewind_all [] writers = writers
rewind_all ((c, at) ∷ rest) writers = rewind_all rest (rewind_one c at (lookup c writers) writers)

-- Ingester::rewind
abbrev pub rewind : {S : Type 0} → Rollback → Ingester S → Ingester S
rewind rollback ig = record ig { writers = rewind_all rollback ig.writers }

-- HashMap::entry(…).or_insert(…)
abbrev pub or_insert : ChainId → ℕ × Hash32 → Rollback → Rollback
or_insert c at rollback = if contains_key c rollback then rollback else insert c at rollback

-- The variables of the loop of `ingest`.
pub record Batch (S : Type 0) : Type 0 where
  pub ingester : Ingester S
  pub report : IngestReport
  pub chained : List AuditEvent
  pub rollback : Rollback

-- The loop goes on, or `ingest` returns.
pub data Outcome (S : Type 0) : Type 0 where
  continued : Batch S → Outcome S
  returned : Result IngestError IngestReport → Ingester S → Outcome S

abbrev pub count_deferred : IngestReport → IngestReport
count_deferred r = record r { deferred = (r.deferred + 1) % u64_mod }

abbrev pub put_writer : {S : Type 0} → ChainId → ChainWriter → Ingester S → Ingester S
put_writer c w ig = record ig { writers = insert c w ig.writers }

-- The writer of a chain that the store knows, or does not know.
abbrev pub writer_from : ChainId → Text → Option (ℕ × Hash32) → ChainWriter
writer_from c node_id none = new c node_id
writer_from c node_id (some (seq, head)) = resume_from c node_id seq head

-- The `match` on the result of `append`.
abbrev pub count_append :
    {S : Type 0} → ChainId → Batch S → Result IngestError AuditEvent × ChainWriter → Outcome S
count_append c b (ok event, w) = continued (record b {
  ingester = put_writer c w b.ingester;
  report = record b.report { chained = (b.report.chained + 1) % u64_mod };
  chained = b.chained ++ event ∷ [];
})
count_append c b (err (duplicate id seq), w) = continued (record b {
  ingester = put_writer c w b.ingester;
  report = record b.report { duplicates = (b.report.duplicates + 1) % u64_mod };
})
count_append c b (err (store e), w) = returned (err (store e)) (put_writer c w b.ingester)
count_append c b (err (chain e), w) = returned (err (chain e)) (put_writer c w b.ingester)

module _ ⦃d : Digest⦄ ⦃o : KeyOrder⦄ ⦃c : Ciborium⦄ where
  -- The body of the loop of `ingest` from the writer on.
  unfoldable pub chain_with :
      {S : Type 0} → ℤ → EmittedEvent → ChainId → Batch S → ChainWriter → Outcome S
  chain_with now emitted k b w =
      count_append k (record b { rollback = or_insert k (w.next_seq, w.head_hash) b.rollback })
        (append now emitted w)

  -- What `ingest` does with the answer of the store on a chain that has no writer yet.
  unfoldable pub resume :
      {S : Type 0}
      → ℤ
      → EmittedEvent
      → ChainId
      → Batch S
      → Result IngestError (Option (ℕ × Hash32)) × S
      → Outcome S
  resume now emitted k b (err e, s) =
      returned (ok (count_deferred b.report)) (rewind b.rollback (record b.ingester { store = s }))
  resume now emitted k b (ok last, s) =
      let w = writer_from k b.ingester.node_id last in
      chain_with now emitted k
        (record b { ingester = put_writer k w (record b.ingester { store = s }) }) w

  -- The result of the first loop is passed on only if the loop went on.
  abbrev pub then_continue : {S : Type 0} → (Batch S → Outcome S) → Outcome S → Outcome S
  then_continue f (continued b) = f b
  then_continue f (returned r ig) = returned r ig

  module _ (st : EventStore) where
    -- The body of the loop of `ingest`, on what the map of writers holds for the chain.
    unfoldable pub chain_found :
        ℤ → EmittedEvent → ChainId → Batch st.State → Option ChainWriter → Outcome st.State
    chain_found now emitted k b none = resume now emitted k b (st.head k b.ingester.store)
    chain_found now emitted k b (some w) = chain_with now emitted k b w

    -- The loop of `ingest`.
    unfoldable pub chain_all : List (ℤ × EmittedEvent) → Batch st.State → Outcome st.State
    chain_all [] b = continued b
    chain_all ((now, emitted) ∷ rest) b = then_continue (chain_all rest) (
        chain_found now emitted (chain_of emitted) b (lookup (chain_of emitted) b.ingester.writers))

module _ (st : EventStore) where
  abbrev pub Tried : Type 0
  Tried = Result IngestError (Unit {0}) × IngestReport × st.State

  -- One round of the loop of `insert_with_retry`; `again` is the rest of the loop.
  abbrev pub try_insert :
      IngestReport
      → (IngestError → IngestReport → st.State → Tried)
      → Result IngestError (Unit {0}) × st.State
      → Tried
  try_insert report again (ok u, s) = (ok u, report, s)
  try_insert report again (err e, s) =
      again e (record report { retries = (report.retries + 1) % u64_mod }) s

  abbrev pub last_error : Option IngestError → IngestError
  last_error none = store (text "no attempts configured")
  last_error (some e) = e

  -- The loop of `insert_with_retry`, with the rounds that are left. The waits between them change
  -- nothing.
  unfoldable pub insert_rounds :
      ℕ → Option IngestError → List AuditEvent → IngestReport → st.State → Tried
  insert_rounds zero last batch report s = (err (last_error last), report, s)
  insert_rounds (suc n) last batch report s =
      try_insert report (λ e. insert_rounds n (some e) batch) (st.insert batch s)

  -- Ingester::insert_with_retry
  unfoldable pub insert_with_retry : RetryPolicy → List AuditEvent → IngestReport → st.State → Tried
  insert_with_retry p batch report s = insert_rounds p.attempts none batch report s

  -- The end of `ingest`, on the result of `insert_with_retry`.
  unfoldable pub stored :
      Batch st.State → Tried → Result IngestError IngestReport × Ingester st.State
  stored b (ok u, report, s) = (
    ok (record report { inserted = (report.inserted + length b.chained) % u64_mod }),
    record b.ingester { store = s },
  )
  stored b (err e, report, s) =
      (ok (count_deferred report), rewind b.rollback (record b.ingester { store = s }))

  -- `ingest` after the loop, on the events that were chained.
  unfoldable pub store_chained :
      Batch st.State → List AuditEvent → Result IngestError IngestReport × Ingester st.State
  store_chained b [] = (ok b.report, b.ingester)
  store_chained b (e ∷ es) =
      stored b (insert_with_retry b.ingester.retry (e ∷ es) b.report b.ingester.store)

  unfoldable pub finish_batch :
      Outcome st.State → Result IngestError IngestReport × Ingester st.State
  finish_batch (continued b) = store_chained b b.chained
  finish_batch (returned r ig) = (r, ig)

abbrev pub start_batch : {S : Type 0} → Ingester S → Batch S
start_batch ig = record { ingester = ig; report = no_report; chained = []; rollback = [] }

module _ ⦃d : Digest⦄ ⦃o : KeyOrder⦄ ⦃c : Ciborium⦄ (st : EventStore) where
  -- Ingester::ingest
  unfoldable pub ingest :
      List (ℤ × EmittedEvent)
      → Ingester st.State
      → Result IngestError IngestReport × Ingester st.State
  ingest batch ig = finish_batch st (chain_all st batch (start_batch ig))

-- The events that the heartbeats of all writers wrote.
abbrev pub keep_written : Option (Result IngestError AuditEvent) → List AuditEvent → List AuditEvent
keep_written (some (ok event)) written = event ∷ written
keep_written _ written = written

module _ ⦃d : Digest⦄ ⦃o : KeyOrder⦄ ⦃c : Ciborium⦄ where
  -- The loop of `heartbeats`. `clock` is the time at which the event of a chain is chained.
  unfoldable pub beat_all :
      (ChainId → ℤ)
      → ℤ
      → List (ChainId × ChainWriter)
      → List AuditEvent × List (ChainId × ChainWriter)
  beat_all clock now [] = ([], [])
  beat_all clock now ((k, w) ∷ rest) =
      let (written, writers) = beat_all clock now rest in
      let (result, after) = heartbeat (clock k) now w in
      (keep_written result written, (k, after) ∷ writers)

  module _ (st : EventStore) where
    abbrev pub count_written :
        Ingester st.State
        → List AuditEvent
        → Result IngestError (Unit {0}) × st.State
        → Result IngestError ℕ × Ingester st.State
    count_written ig written (ok u, s) = (ok (length written), record ig { store = s })
    count_written ig written (err e, s) = (err e, record ig { store = s })

    unfoldable pub store_written :
        Ingester st.State → List AuditEvent → Result IngestError ℕ × Ingester st.State
    store_written ig [] = (ok 0, ig)
    store_written ig (e ∷ es) = count_written ig (e ∷ es) (st.insert (e ∷ es) ig.store)

    -- Ingester::heartbeats
    unfoldable pub heartbeats :
        (ChainId → ℤ) → ℤ → Ingester st.State → Result IngestError ℕ × Ingester st.State
    heartbeats clock now ig =
        let (written, writers) = beat_all clock now ig.writers in
        store_written (record ig { writers = writers }) written
