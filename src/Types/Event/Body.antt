-- ===== src/Types/Event/Body.antt =====
-- crates/ancre-types/src/event.rs: the body of an event that goes into its hash, and its bytes.
-- The conversion that `derive(Serialize)` gives is a map from the field names, in their order.
pub mod Binding
use ancre.Prelude.{ℕ, Bool, List, [], ◌∷◌, map, Result, ok, Text, text}
use ancre.Prelude.Int.{ℤ, pos}
use ancre.Prelude.Sort.{sort_by}
use ancre.Prelude.TextOrder.{text_le}
use ancre.Canon.Hash.{Hash32}
use ancre.Canon.Cbor.{
  Value, Items, integer, bytes, text_string, bool, array, map_of, nil, cons, CanonError, KeyOrder,
  Ciborium, Pairs, entries_of, encode,
}
use ancre.Types.Risk.{risk_flag_str, risk_class_str}
use ancre.Types.Event.{AuditEvent, event_type_str, outcome_str}

pub record HashedBody : Type 0 where
  pub tenant_id : Text
  pub system_id : Text
  pub seq : ℕ
  pub event_id : List ℕ
  pub trace_id : Text
  pub attempt_seq : ℕ
  pub prev_hash : Hash32
  pub canon_version : Text
  pub occurred_at : ℤ
  pub node_id : Text
  pub event_type : Text
  pub outcome : Text
  pub config_generation : ℕ
  pub config_hash : Hash32
  pub system_version : Text
  pub ifu_version : Text
  pub model_id : Text
  pub model_version : Text
  pub prompt_id : Text
  pub prompt_version : Text
  pub policy_id : Text
  pub policy_version : Text
  pub gateway_version : Text
  pub risk_class : Text
  pub resolved_stale : Bool
  pub risk_flags : List Text
  pub request_digest : Hash32
  pub response_digest : Hash32
  pub payload_ref : Text
  pub subject_key_id : Text
  pub provider : Text
  pub http_status : ℕ
  pub latency_ms : ℕ
  pub ttft_ms : ℕ
  pub tokens_in : ℕ
  pub tokens_out : ℕ
  pub error_code : Text

unfoldable pub hashed_view : AuditEvent → HashedBody
hashed_view ev =
    let e = ev.emitted in
    let p = e.pins in
    let m = e.metrics in
    record {
      tenant_id = e.tenant_id;
      system_id = e.system_id;
      seq = ev.seq;
      event_id = e.event_id;
      trace_id = e.trace_id;
      attempt_seq = e.attempt_seq;
      prev_hash = ev.prev_hash;
      canon_version = ev.canon_version;
      occurred_at = e.occurred_at;
      node_id = e.node_id;
      event_type = event_type_str e.event_type;
      outcome = outcome_str e.outcome;
      config_generation = p.config_generation;
      config_hash = p.config_hash;
      system_version = p.system_version;
      ifu_version = p.ifu_version;
      model_id = p.model_id;
      model_version = p.model_version;
      prompt_id = p.prompt_id;
      prompt_version = p.prompt_version;
      policy_id = p.policy_id;
      policy_version = p.policy_version;
      gateway_version = p.gateway_version;
      risk_class = risk_class_str p.risk_class;
      resolved_stale = p.resolved_stale;
      risk_flags = sort_by text_le (map risk_flag_str p.risk_flags);
      request_digest = e.request_digest;
      response_digest = e.response_digest;
      payload_ref = ev.payload_ref;
      subject_key_id = ev.subject_key_id;
      provider = m.provider;
      http_status = m.http_status;
      latency_ms = m.latency_ms;
      ttft_ms = m.ttft_ms;
      tokens_in = m.tokens_in;
      tokens_out = m.tokens_out;
      error_code = m.error_code;
    }

-- A sequence of texts.
unfoldable pub text_items : List Text → Items
text_items [] = nil
text_items (s ∷ rest) = cons (text_string s) (text_items rest)

-- The entries of the map, in the order of the fields.
unfoldable pub body_entries : HashedBody → Pairs
body_entries b =
    (text_string (text "tenant_id"), text_string b.tenant_id)
    ∷ (text_string (text "system_id"), text_string b.system_id)
    ∷ (text_string (text "seq"), integer (pos b.seq))
    ∷ (text_string (text "event_id"), bytes b.event_id)
    ∷ (text_string (text "trace_id"), text_string b.trace_id)
    ∷ (text_string (text "attempt_seq"), integer (pos b.attempt_seq))
    ∷ (text_string (text "prev_hash"), bytes b.prev_hash.bytes)
    ∷ (text_string (text "canon_version"), text_string b.canon_version)
    ∷ (text_string (text "occurred_at"), integer b.occurred_at)
    ∷ (text_string (text "node_id"), text_string b.node_id)
    ∷ (text_string (text "event_type"), text_string b.event_type)
    ∷ (text_string (text "outcome"), text_string b.outcome)
    ∷ (text_string (text "config_generation"), integer (pos b.config_generation))
    ∷ (text_string (text "config_hash"), bytes b.config_hash.bytes)
    ∷ (text_string (text "system_version"), text_string b.system_version)
    ∷ (text_string (text "ifu_version"), text_string b.ifu_version)
    ∷ (text_string (text "model_id"), text_string b.model_id)
    ∷ (text_string (text "model_version"), text_string b.model_version)
    ∷ (text_string (text "prompt_id"), text_string b.prompt_id)
    ∷ (text_string (text "prompt_version"), text_string b.prompt_version)
    ∷ (text_string (text "policy_id"), text_string b.policy_id)
    ∷ (text_string (text "policy_version"), text_string b.policy_version)
    ∷ (text_string (text "gateway_version"), text_string b.gateway_version)
    ∷ (text_string (text "risk_class"), text_string b.risk_class)
    ∷ (text_string (text "resolved_stale"), bool b.resolved_stale)
    ∷ (text_string (text "risk_flags"), array (text_items b.risk_flags))
    ∷ (text_string (text "request_digest"), bytes b.request_digest.bytes)
    ∷ (text_string (text "response_digest"), bytes b.response_digest.bytes)
    ∷ (text_string (text "payload_ref"), text_string b.payload_ref)
    ∷ (text_string (text "subject_key_id"), text_string b.subject_key_id)
    ∷ (text_string (text "provider"), text_string b.provider)
    ∷ (text_string (text "http_status"), integer (pos b.http_status))
    ∷ (text_string (text "latency_ms"), integer (pos b.latency_ms))
    ∷ (text_string (text "ttft_ms"), integer (pos b.ttft_ms))
    ∷ (text_string (text "tokens_in"), integer (pos b.tokens_in))
    ∷ (text_string (text "tokens_out"), integer (pos b.tokens_out))
    ∷ (text_string (text "error_code"), text_string b.error_code)
    ∷ []

unfoldable pub body_value : HashedBody → Result Text Value
body_value b = ok (map_of (entries_of (body_entries b)))

unfoldable pub hashed_body : ⦃o : KeyOrder⦄ ⦃c : Ciborium⦄ → AuditEvent → Result CanonError (List ℕ)
hashed_body ev = encode body_value (hashed_view ev)
