-- ===== src/Examples/Batches.antt =====
-- crates/ancre-ingester/src/pipeline.rs: the theorems on batches, at a store that refuses the first
-- two insertions.
use ancre.Prelude.{
  ◌+◌, ◌≡◌, refl, true, List, [], ◌∷◌, ◌++◌, Option, some, Result, ok, err, text, length, arith,
  list_eq,
}
use ancre.Prelude.Int.{ℤ, pos}
use ancre.Prelude.Maps.{lookup}
use ancre.Prelude.Sort.{sort_by}
use ancre.Prelude.TextOrder.{text_le}
use ancre.Canon.Hash.{genesis, hash_bytes}
use ancre.Canon.Cbor.{encode, canonicalize, close_map, has_tie, entries_of, write_canonical}
use ancre.Types.Risk.{risk_class_str}
use ancre.Types.Event.{AuditEvent, EmittedEvent, event_type_str, outcome_str}
use ancre.Types.Event.Body.{hashed_body, hashed_view, body_value, body_entries, text_items}
use ancre.Chain.{ChainId, event_hash, seal, absorb}
use ancre.Chain.Verify.{is_clean, verify_range}
use ancre.Ingester.Sink.{ChainId-Eq, of_chain, default_retry}
use ancre.Ingester.Writer.{
  ChainWriter, IngestError, store, append, chain_event, advance, remember, trim, heartbeat,
  heartbeat_id, decimal,
}
use ancre.Ingester.Pipeline.{
  Ingester, IngestReport, no_report, ingest, chain_all, chain_found, resume, chain_with,
  finish_batch, store_chained, stored, insert_with_retry, insert_rounds, heartbeats, beat_all,
  store_written,
}
use ancre.Ingester.Pipeline.Rows.{AtHead}
use ancre.Ingester.Pipeline.Intact.{InStep, ingest-InStep}
use ancre.Ingester.Pipeline.Retry.{up, down, insert_with_retry-Recovers}
use ancre.Ingester.Pipeline.Beats.{heartbeats_astray}
use ancre.Ingester.Pipeline.Counted.{Accounts, ingest-Accounts}
use ancre.Examples.Codec.{example_digest, example_order, example_ciborium, write_all}
use ancre.Examples.Chain.{heartbeat_event, event_at}
use ancre.Examples.Writer.{before, after, before-IsWriter}
use ancre.Examples.Pipeline.{Table, memory_store, memory-Keeps}

abbrev the_chain : ChainId
the_chain = record { tenant_id = text "t"; system_id = text "s" }

abbrev idle : Ingester Table
idle = record { store = (2, []); node_id = text "n"; writers = []; retry = default_retry }

abbrev busy : Ingester Table
busy = record {
  store = (0, event_at 1 genesis ∷ []);
  node_id = text "n";
  writers = (the_chain, after) ∷ [];
  retry = default_retry;
}

-- One event, delivered twice.
abbrev two_deliveries : List (ℤ × EmittedEvent)
two_deliveries = (pos 2000, heartbeat_event) ∷ (pos 3000, heartbeat_event) ∷ []

abbrev the_report : IngestReport
the_report = record { chained = 1; inserted = 1; duplicates = 1; deferred = 0; retries = 2 }

ingested : ingest memory_store two_deliveries idle ≡ (ok the_report, busy)
unfolding ingest chain_all chain_found resume chain_with finish_batch store_chained stored
    insert_with_retry insert_rounds of_chain append chain_event advance remember trim seal
    event_hash absorb hashed_body hashed_view body_value body_entries text_items encode canonicalize
    close_map has_tie entries_of write_canonical write_all sort_by text_le event_type_str
    outcome_str risk_class_str list_eq
ingested = refl

idle-InStep : InStep memory_store memory-Keeps the_chain idle
unfolding of_chain
idle-InStep = record { sound = record { chained = tt; numbered = tt }; place = tt }

ingest-InStep_example :
    InStep memory_store memory-Keeps the_chain busy
    × (is_clean (verify_range (of_chain the_chain (event_at 1 genesis ∷ [])) genesis) ≡ true)
    × (more : List AuditEvent) × (of_chain the_chain (event_at 1 genesis ∷ [])
        ≡ of_chain the_chain [] ++ more)
unfolding of_chain
ingest-InStep_example =
    ingest-InStep memory_store memory-Keeps the_chain two_deliveries idle busy the_report
      idle-InStep (omega arith) ingested

ingest-Accounts_example : Accounts memory_store 2 the_report
ingest-Accounts_example =
    ingest-Accounts memory_store two_deliveries idle busy the_report (omega arith) ingested

insert_with_retry-Recovers_example :
    insert_with_retry memory_store default_retry (event_at 1 genesis ∷ []) no_report (2, [])
    ≡ (ok tt, record no_report { retries = 2 }, (0, event_at 1 genesis ∷ []))
insert_with_retry-Recovers_example =
    insert_with_retry-Recovers memory_store default_retry (event_at 1 genesis ∷ []) no_report
      (2, []) (0, event_at 1 genesis ∷ []) 2
      (down (store (text "down")) refl (down (store (text "down")) refl (up tt refl))) (omega arith)
      (omega arith)

-- A heartbeat on the first day.
abbrev beaten : Option (Result IngestError AuditEvent) × ChainWriter
beaten = heartbeat (pos 5) (pos 5) before

abbrev event_in : Option (Result IngestError AuditEvent) → AuditEvent
event_in (some (ok ev)) = ev
event_in _ = event_at 1 genesis

abbrev beating : Ingester Table
beating = record {
  store = (1, []);
  node_id = text "n";
  writers = (the_chain, before) ∷ [];
  retry = default_retry;
}

beat_written : heartbeat (pos 5) (pos 5) before ≡ (some (ok (event_in beaten.0)), beaten.1)
unfolding heartbeat heartbeat_id decimal hash_bytes append chain_event advance remember trim seal
    event_hash absorb hashed_body hashed_view body_value body_entries text_items encode canonicalize
    close_map has_tie entries_of write_canonical write_all sort_by text_le event_type_str
    outcome_str risk_class_str list_eq
beat_written = refl

before-AtHead : AtHead (of_chain the_chain []) before
unfolding of_chain
before-AtHead = record { memory = before-IsWriter; next = omega arith; head = refl }

abbrev beating_after : Ingester Table
beating_after = record beating { store = (0, []); writers = (the_chain, beaten.1) ∷ [] }

beats_refused :
    heartbeats memory_store (λ c. pos 5) (pos 5) beating
    ≡ (err (store (text "down")), beating_after)
unfolding heartbeats beat_all store_written
beats_refused = rw beat_written refl

heartbeats_astray_example :
    (lookup the_chain beating_after.writers ≡ some beaten.1)
    × (of_chain the_chain [] ≡ of_chain the_chain [])
    × (beaten.1.next_seq ≡ length (of_chain the_chain []) + 2)
unfolding of_chain list_eq
heartbeats_astray_example =
    heartbeats_astray memory_store memory-Keeps the_chain (λ c. pos 5) (pos 5) before beaten.1
      (event_in beaten.0) (store (text "down")) beating beating_after refl before-AtHead
      (omega arith) beat_written beats_refused
