-- ===== src/Types/Event.antt =====
-- crates/ancre-types/src/event.rs and pins.rs: the audit event, and the body of it that is hashed.
pub mod Body
use ancre.Prelude.{
  ℕ, Bool, true, false, ◌||◌, Option, none, some, List, [], ◌∷◌, map, Text, text, ◌==◌, ℕ-Eq,
  List-Eq, if◌then◌else◌,
}
use ancre.Prelude.Int.{ℤ}
use ancre.Prelude.Sort.{sort_by}
use ancre.Prelude.TextOrder.{text_le}
use ancre.Canon.Hash.{Hash32, genesis}
use ancre.Types.Risk.{RiskClass, RiskFlag, unclassified, risk_flag_str, risk_class_str}

pub data EventType : Type 0 where
  llm_request provider_failover config_generation_applied : EventType
  pin_overridden telemetry_dropped chain_heartbeat : EventType

pub data Outcome : Type 0 where
  success error denied interrupted : Outcome

-- EventType::as_str
unfoldable pub event_type_str : EventType → Text
event_type_str llm_request = text "llm.request"
event_type_str provider_failover = text "provider.failover"
event_type_str config_generation_applied = text "config.generation.applied"
event_type_str pin_overridden = text "pin.overridden"
event_type_str telemetry_dropped = text "telemetry.dropped"
event_type_str chain_heartbeat = text "chain.heartbeat"

-- EventType::from_wire
unfoldable pub event_type_from_wire : Text → Option EventType
event_type_from_wire s =
    if s == text "llm.request"
    then some llm_request
    else if s == text "provider.failover"
    then some provider_failover
    else if s == text "config.generation.applied"
    then some config_generation_applied
    else if s == text "pin.overridden"
    then some pin_overridden
    else if s == text "telemetry.dropped"
    then some telemetry_dropped
    else if s == text "chain.heartbeat"
    then some chain_heartbeat
    else none

-- Outcome::as_str; `success` is `Outcome::Ok`.
unfoldable pub outcome_str : Outcome → Text
outcome_str success = text "ok"
outcome_str error = text "error"
outcome_str denied = text "denied"
outcome_str interrupted = text "interrupted"

-- Outcome::from_wire
unfoldable pub outcome_from_wire : Text → Option Outcome
outcome_from_wire s =
    if s == text "ok"
    then some success
    else if s == text "error"
    then some error
    else if s == text "denied"
    then some denied
    else if s == text "interrupted"
    then some interrupted
    else none

pub record Pins : Type 0 where
  pub config_generation : ℕ
  pub config_hash : Hash32
  pub system_id : Text
  pub system_version : Text
  pub ifu_version : Text
  pub model_id : Text
  pub model_version : Text
  pub prompt_id : Text
  pub prompt_version : Text
  pub policy_id : Text
  pub policy_version : Text
  pub gateway_version : Text
  pub risk_class : RiskClass
  pub resolved_stale : Bool
  pub risk_flags : List RiskFlag

abbrev pub unknown : Text
unknown = text "unknown"

abbrev pub unresolved_prefix : Text
unresolved_prefix = text "unresolved:"

abbrev pub null_baseline : Pins
null_baseline = record {
  config_generation = 0;
  config_hash = genesis;
  system_id = unknown;
  system_version = unknown;
  ifu_version = unknown;
  model_id = unknown;
  model_version = unknown;
  prompt_id = unknown;
  prompt_version = unknown;
  policy_id = unknown;
  policy_version = unknown;
  gateway_version = unknown;
  risk_class = unclassified;
  resolved_stale = false;
  risk_flags = [];
}

-- Pins::gap
unfoldable pub gap_pins : Text → RiskFlag → Pins
gap_pins system_id flag = record null_baseline { system_id = system_id; risk_flags = flag ∷ [] }

-- str::starts_with
unfoldable pub starts_with : Text → Text → Bool
starts_with s [] = true
starts_with [] (p ∷ ps) = false
starts_with (c ∷ s) (p ∷ ps) = if c == p then starts_with s ps else false

unfoldable pub any_gap : List Text → Bool
any_gap [] = false
any_gap (v ∷ rest) = v == unknown || starts_with v unresolved_prefix || any_gap rest

unfoldable pub has_gap : Pins → Bool
unfolding any_gap
has_gap p = any_gap (
    p.system_version ∷ p.ifu_version ∷ p.model_id ∷ p.model_version ∷ p.prompt_id ∷ p.prompt_version
    ∷ p.policy_id ∷ p.policy_version ∷ p.gateway_version ∷ [])

pub record Metrics : Type 0 where
  pub provider : Text
  pub http_status : ℕ
  pub latency_ms : ℕ
  pub ttft_ms : ℕ
  pub tokens_in : ℕ
  pub tokens_out : ℕ
  pub error_code : Text

-- Uuids are their bytes, timestamps their microseconds.
pub record EmittedEvent : Type 0 where
  pub tenant_id : Text
  pub system_id : Text
  pub event_id : List ℕ
  pub trace_id : Text
  pub attempt_seq : ℕ
  pub occurred_at : ℤ
  pub node_id : Text
  pub event_type : EventType
  pub outcome : Outcome
  pub pins : Pins
  pub request_digest : Hash32
  pub response_digest : Hash32
  pub metrics : Metrics

pub record AuditEvent : Type 0 where
  pub seq : ℕ
  pub prev_hash : Hash32
  pub event_hash : Hash32
  pub canon_version : Text
  pub ingested_at : ℤ
  pub emitted : EmittedEvent
  pub payload_ref : Text
  pub subject_key_id : Text
