-- ===== src/Ingester/Writer.antt =====
-- crates/ancre-ingester/src/chain_writer.rs: the cursor of one chain. The clock is an argument, and
-- the writer that a method changes is returned beside its result.
pub mod History
pub mod Verified
pub mod Window
pub mod Rollback
pub mod Redelivered
pub mod Rewind
use ancre.Prelude.{
  ℕ, zero, suc, ◌+◌, ◌/◌, ◌%◌, Bool, false, List, [], ◌∷◌, ◌++◌, Option, none, some, Result, ok,
  err, Text, text, length, take, ltb, ◌==◌, ℕ-Eq, List-Eq, if◌then◌else◌, u64_mod,
}
use ancre.Prelude.Int.{ℤ, pos, negsuc}
use ancre.Prelude.Maps.{lookup, contains_key, remove, insert, retain, retain_list}
use ancre.Canon.Hash.{Hash32, Digest, genesis, hash_bytes}
use ancre.Canon.Cbor.{KeyOrder, Ciborium}
use ancre.Types.Event.{EmittedEvent, AuditEvent, Metrics, chain_heartbeat, success, null_baseline}
use ancre.Chain.{ChainId, ChainError, canon_version, seal}

abbrev pub dedupe_window : ℕ
dedupe_window = 100000

-- `seen` maps an event id to the number it was written at, `seen_order` is the order of insertion.
pub record ChainWriter : Type 0 where
  pub chain : ChainId
  pub next_seq : ℕ
  pub head_hash : Hash32
  pub node_id : Text
  pub seen : List (List ℕ × ℕ)
  pub seen_order : List (List ℕ)
  pub last_heartbeat_day : Option ℤ

pub data IngestError : Type 0 where
  store : Text → IngestError
  chain : ChainError → IngestError
  duplicate : List ℕ → ℕ → IngestError

-- ChainWriter::resume_from
abbrev pub resume_from : ChainId → Text → ℕ → Hash32 → ChainWriter
resume_from c node_id last_seq head_hash = record {
  chain = c;
  next_seq = (last_seq + 1) % u64_mod;
  head_hash = head_hash;
  node_id = node_id;
  seen = [];
  seen_order = [];
  last_heartbeat_day = none;
}

-- ChainWriter::new
abbrev pub new : ChainId → Text → ChainWriter
new c node_id = resume_from c node_id 0 genesis

-- The `while` loop of `remember`: the oldest ids are dropped until the window is kept.
unfoldable pub trim : List (List ℕ) → List (List ℕ × ℕ) → List (List ℕ) × List (List ℕ × ℕ)
trim [] seen = ([], seen)
trim (old ∷ rest) seen =
    let popped = trim rest (remove old seen) in
    if ltb dedupe_window (length (old ∷ rest)) then popped else (old ∷ rest, seen)

unfoldable pub remember : List ℕ → ℕ → ChainWriter → ChainWriter
remember event_id seq w =
    let (order, seen) = trim (w.seen_order ++ event_id ∷ []) (insert event_id seq w.seen) in
    record w { seen = seen; seen_order = order }

-- The event that `chain_event` is about to seal.
abbrev pub unsealed : ℤ → EmittedEvent → ChainWriter → AuditEvent
unsealed now emitted w = record {
  seq = w.next_seq;
  prev_hash = w.head_hash;
  event_hash = genesis;
  canon_version = canon_version;
  ingested_at = now;
  emitted = emitted;
  payload_ref = [];
  subject_key_id = [];
}

-- What `chain_event` does with the outcome of `seal`.
unfoldable pub advance :
    EmittedEvent
    → ChainWriter
    → Result ChainError AuditEvent
    → Result IngestError AuditEvent × ChainWriter
advance emitted w (err e) = (err (chain e), w)
advance emitted w (ok event) = (
  ok event,
  remember emitted.event_id w.next_seq
      (record w { head_hash = event.event_hash; next_seq = (w.next_seq + 1) % u64_mod }),
)

-- ChainWriter::forget_after
unfoldable pub forget_after : ℕ → ChainWriter → ChainWriter
forget_after seq w =
    let seen = retain (λ at. ltb at seq) w.seen in
    record w { seen = seen; seen_order = retain_list (λ id. contains_key id seen) w.seen_order }

-- ChainWriter::rewind_to
unfoldable pub rewind_to : ℕ → Hash32 → ChainWriter → ChainWriter
rewind_to next_seq head_hash w =
    forget_after next_seq (record w { next_seq = next_seq; head_hash = head_hash })

module _ ⦃d : Digest⦄ ⦃o : KeyOrder⦄ ⦃c : Ciborium⦄ where
  -- ChainWriter::chain_event
  unfoldable pub chain_event :
      ℤ → EmittedEvent → ChainWriter → Result IngestError AuditEvent × ChainWriter
  chain_event now emitted w = advance emitted w (seal (unsealed now emitted w))

  -- The test of `append`, on what `seen` holds for the event's id.
  abbrev pub append_seen :
      Option ℕ → ℤ → EmittedEvent → ChainWriter → Result IngestError AuditEvent × ChainWriter
  append_seen (some seq) now event w = (err (duplicate event.event_id seq), w)
  append_seen none now event w = chain_event now event w

  -- ChainWriter::append
  unfoldable pub append :
      ℤ → EmittedEvent → ChainWriter → Result IngestError AuditEvent × ChainWriter
  append now event w = append_seen (lookup event.event_id w.seen) now event w

-- i64::div_euclid by a positive number.
abbrev pub div_euclid : ℤ → ℕ → ℤ
div_euclid (pos n) k = pos (n / k)
div_euclid (negsuc n) k = negsuc (n / k)

abbrev pub int_eq : ℤ → ℤ → Bool
int_eq (pos m) (pos n) = m == n
int_eq (negsuc m) (negsuc n) = m == n
int_eq _ _ = false

-- The decimal digits of a number with at most `fuel` of them.
unfoldable pub decimal : ℕ → ℕ → Text
decimal zero n = []
decimal (suc fuel) n =
    let rest = decimal fuel (n / 10) in
    let digit : Text = (48 + n % 10) ∷ [] in if ltb n 10 then digit else rest ++ digit

-- The text of an `i64`: 20 digits are enough.
abbrev pub int_text : ℤ → Text
int_text (pos n) = decimal 20 n
int_text (negsuc n) = text "-" ++ decimal 20 (n + 1)

-- 86_400_000_000 microseconds.
abbrev pub day_of : ℤ → ℤ
day_of now = div_euclid now 86400000000

-- A UUID is the first 16 bytes of the hash.
unfoldable pub heartbeat_id : ⦃d : Digest⦄ → ChainId → ℤ → List ℕ
heartbeat_id c day =
    take 16
      (hash_bytes (
        text "ancre-heartbeat/1|"
        ++ (c.tenant_id ++ (text "|" ++ (c.system_id ++ (text "|" ++ int_text day)))))).bytes

abbrev pub no_metrics : Metrics
no_metrics = record {
  provider = [];
  http_status = 0;
  latency_ms = 0;
  ttft_ms = 0;
  tokens_in = 0;
  tokens_out = 0;
  error_code = [];
}

-- The event of a heartbeat.
abbrev pub heartbeat_event : ⦃d : Digest⦄ → ℤ → ChainWriter → EmittedEvent
heartbeat_event now w = record {
  tenant_id = w.chain.tenant_id;
  system_id = w.chain.system_id;
  event_id = heartbeat_id w.chain (day_of now);
  trace_id = [];
  attempt_seq = 0;
  occurred_at = now;
  node_id = w.node_id;
  event_type = chain_heartbeat;
  outcome = success;
  pins = null_baseline;
  request_digest = genesis;
  response_digest = genesis;
  metrics = no_metrics;
}

abbrev pub is_today : Option ℤ → ℤ → Bool
is_today none day = false
is_today (some last) day = int_eq last day

module _ ⦃d : Digest⦄ ⦃o : KeyOrder⦄ ⦃c : Ciborium⦄ where
  -- ChainWriter::heartbeat; `clock` is the time at which the event is chained.
  unfoldable pub heartbeat :
      ℤ → ℤ → ChainWriter → Option (Result IngestError AuditEvent) × ChainWriter
  heartbeat clock now w =
      let (result, after) =
        append clock (heartbeat_event now w)
          (record w { last_heartbeat_day = some (day_of now) }) in
      if is_today w.last_heartbeat_day (day_of now) then (none, w) else (some result, after)
