-- ===== src/Examples/Chain.antt =====
-- crates/ancre-chain and the body of an event: the theorems on events, ranges and checkpoints, at
-- concrete inputs.
use ancre.Prelude.{
  ℕ, ◌≡◌, ◌↔◌, ◌⊎◌, refl, inl, true, List, [], ◌∷◌, ◌++◌, none, ok, text, replicate, arith, All,
}
use ancre.Prelude.Int.{pos}
use ancre.Prelude.Sort.{sort_by}
use ancre.Prelude.TextOrder.{text_le}
use ancre.Canon.Hash.{Hash32, Collision, genesis}
use ancre.Canon.Cbor.{encode, canonicalize, close_map, has_tie, entries_of, write_canonical}
use ancre.Types.Event.{AuditEvent, EmittedEvent, Metrics, chain_heartbeat, success, null_baseline}
use ancre.Types.Event.Body.{hashed_body, hashed_view, body_value, body_entries, text_items}
use ancre.Chain.{canon_version, event_hash, absorb}
use ancre.Types.Risk.{risk_class_str}
use ancre.Types.Event.{event_type_str, outcome_str}
use ancre.Chain.Framing.{event_hash-injective}
use ancre.Chain.Verify.{is_clean, verify_range}
use ancre.Chain.Verify.Clean.{HasNext, IsSound, Chained, is_clean-verify_range}
use ancre.Chain.Verify.Commitment.{Alike, same_head-Alike, same_root-Alike}
use ancre.Examples.Codec.{
  example_digest, example_order, example_ciborium, example-ReadsBack, write_all,
}

abbrev pub no_metrics : Metrics
no_metrics = record {
  provider = [];
  http_status = 0;
  latency_ms = 0;
  ttft_ms = 0;
  tokens_in = 0;
  tokens_out = 0;
  error_code = [];
}

abbrev pub heartbeat_event : EmittedEvent
heartbeat_event = record {
  tenant_id = text "t";
  system_id = text "s";
  event_id = replicate 16 7;
  trace_id = [];
  attempt_seq = 0;
  occurred_at = pos 1000;
  node_id = text "n";
  event_type = chain_heartbeat;
  outcome = success;
  pins = null_baseline;
  request_digest = genesis;
  response_digest = genesis;
  metrics = no_metrics;
}

-- What the example's hash gives for the events here: the end of the body, backwards. `ttft` is the
-- last field of the body.
abbrev pub hash_with_ttft : ℕ → Hash32
hash_with_ttft ttft = record {
  bytes =
      0
      ∷ ttft
      ∷ 0
      ∷ (text "sm_tftt"
          ++ (7 ∷ 4 ∷ 1 ∷ 0 ∷ 4 ∷ (text "di_ecart" ++ (8 ∷ 4 ∷ 1 ∷ 0 ∷ 0 ∷ text "tuo_"))));
}

abbrev pub quiet_hash : Hash32
quiet_hash = hash_with_ttft 0

abbrev pub event_at : ℕ → Hash32 → AuditEvent
event_at seq prev = record {
  seq = seq;
  prev_hash = prev;
  event_hash = quiet_hash;
  canon_version = canon_version;
  ingested_at = pos 2000;
  emitted = heartbeat_event;
  payload_ref = [];
  subject_key_id = [];
}

pub first_sealed : event_hash (event_at 1 genesis) ≡ ok quiet_hash
unfolding event_hash absorb hashed_body hashed_view body_value body_entries text_items encode
    canonicalize close_map has_tie entries_of write_canonical write_all sort_by text_le
    event_type_str outcome_str risk_class_str
first_sealed = refl

pub second_sealed : event_hash (event_at 2 quiet_hash) ≡ ok quiet_hash
unfolding event_hash absorb hashed_body hashed_view body_value body_entries text_items encode
    canonicalize close_map has_tie entries_of write_canonical write_all sort_by text_le
    event_type_str outcome_str risk_class_str
second_sealed = refl

pub third_sealed : event_hash (event_at 3 quiet_hash) ≡ ok quiet_hash
unfolding event_hash absorb hashed_body hashed_view body_value body_entries text_items encode
    canonicalize close_map has_tie entries_of write_canonical write_all sort_by text_le
    event_type_str outcome_str risk_class_str
third_sealed = refl

abbrev pub two_events : List AuditEvent
two_events = event_at 1 genesis ∷ event_at 2 quiet_hash ∷ []

abbrev pub three_events : List AuditEvent
three_events = event_at 1 genesis ∷ event_at 2 quiet_hash ∷ event_at 3 quiet_hash ∷ []

first-IsSound : IsSound genesis none (event_at 1 genesis)
first-IsSound = record { follows = tt; points_back = refl; known = refl; sealed = first_sealed }

pub three_events-Chained : Chained genesis none three_events
three_events-Chained = (
  first-IsSound,
  (
    record { follows = inl refl; points_back = refl; known = refl; sealed = second_sealed },
    (record { follows = inl refl; points_back = refl; known = refl; sealed = third_sealed }, tt),
  ),
)

pub two_events-Chained : Chained genesis none two_events
two_events-Chained = (
  first-IsSound,
  (record { follows = inl refl; points_back = refl; known = refl; sealed = second_sealed }, tt),
)

pub two_events-HasNext : All HasNext two_events
two_events-HasNext = (omega arith, (omega arith, tt))

pub two_events_clean : is_clean (verify_range two_events genesis) ≡ true
two_events_clean =
    (is_clean-verify_range two_events genesis two_events-HasNext).1 two_events-Chained

is_clean-verify_range_example :
    (is_clean (verify_range two_events genesis) ≡ true) ↔ Chained genesis none two_events
is_clean-verify_range_example = is_clean-verify_range two_events genesis two_events-HasNext

same_head-Alike_example :
    ((genesis ≡ genesis) × Alike two_events two_events) ⊎ Collision example_digest
same_head-Alike_example =
    same_head-Alike two_events two_events genesis genesis example-ReadsBack two_events-HasNext
      two_events-HasNext refl refl two_events_clean two_events_clean refl refl

same_root-Alike_example : Alike two_events two_events ⊎ Collision example_digest
same_root-Alike_example =
    same_root-Alike two_events two_events genesis genesis example-ReadsBack two_events-HasNext
      two_events-HasNext refl refl two_events_clean two_events_clean refl

event_hash-injective_example :
    ((canon_version ≡ canon_version)
      × (genesis ≡ genesis)
      × (hashed_view (event_at 1 genesis) ≡ hashed_view (event_at 1 genesis)))
    ⊎ Collision example_digest
event_hash-injective_example =
    event_hash-injective (event_at 1 genesis) (event_at 1 genesis) quiet_hash example-ReadsBack refl
      refl (omega arith) (omega arith) first_sealed first_sealed
