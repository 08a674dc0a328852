-- ===== src/Gateway/Telemetry/Drops.antt =====
-- crates/ancre-gateway/src/telemetry.rs: the counter of dropped events, by chain, and the events
-- about them.
use ancre.Prelude.{
  ℕ, ◌+◌, ◌-◌, ◌/◌, ◌%◌, Bool, true, false, not, ◌&&◌, List, [], ◌∷◌, Option, none, some, Text,
  length, map, u64_mod, leb, if◌then◌else◌,
}
use ancre.Prelude.Int.{ℤ, pos, negsuc}
use ancre.Prelude.Maps.{lookup, contains_key, insert}
use ancre.Canon.Hash.{genesis}
use ancre.Types.Risk.{RiskFlag, risk_flag_str}
use ancre.Types.Event.{EmittedEvent, telemetry_dropped, error, gap_pins, unknown}
use ancre.Chain.{ChainId}
use ancre.Ingester.Sink.{ChainId-Eq, min_of}

abbrev pub max_tracked_chains : ℕ
max_tracked_chains = 4096

pub record Span : Type 0 where
  pub count : ℕ
  pub first : ℤ
  pub last : ℤ

abbrev pub ChainSpans : Type 0
ChainSpans = List (ChainId × Span)

pub record DropCounter : Type 0 where
  pub total : ℕ
  pub windows : ChainSpans

abbrev pub no_drops : DropCounter
no_drops = record { total = 0; windows = [] }

abbrev pub unknown_chain : ChainId
unknown_chain = record { tenant_id = unknown; system_id = unknown }

-- The chain that a drop is recorded against.
unfoldable pub drop_key : ChainId → ChainSpans → ChainId
drop_key c windows =
    if leb max_tracked_chains (length windows) && not (contains_key c windows)
    then unknown_chain
    else c

abbrev pub touch_span : ℤ → Option Span → Span
touch_span now none = record { count = 1; first = now; last = now }
touch_span now (some s) = record s { count = (s.count + 1) % u64_mod; last = now }

-- `entry(key).and_modify(…).or_insert(…)` with one more drop.
unfoldable pub touch : ℤ → ChainId → ChainSpans → ChainSpans
touch now key windows = insert key (touch_span now (lookup key windows)) windows

-- DropCounter::record
unfoldable pub record_drop : ℤ → ChainId → DropCounter → DropCounter
record_drop now c drops = record {
  total = (drops.total + 1) % u64_mod;
  windows = touch now (drop_key c drops.windows) drops.windows;
}

pub record DropWindow : Type 0 where
  pub chain : ChainId
  pub count : ℕ
  pub starts : ℤ
  pub ends : ℤ

abbrev pub window_of : ChainId × Span → DropWindow
window_of (c, s) = record { chain = c; count = s.count; starts = s.first; ends = s.last }

-- DropCounter::take
unfoldable pub take_windows : DropCounter → List DropWindow × DropCounter
take_windows drops = (map window_of drops.windows, record drops { windows = [] })

abbrev pub int_le : ℤ → ℤ → Bool
int_le (pos a) (pos b) = leb a b
int_le (pos a) (negsuc b) = false
int_le (negsuc a) (pos b) = true
int_le (negsuc a) (negsuc b) = leb b a

abbrev pub merge_span : DropWindow → Option Span → Span
merge_span w none = record { count = w.count; first = w.starts; last = w.ends }
merge_span w (some s) = record {
  count = (s.count + w.count) % u64_mod;
  first = if int_le s.first w.starts then s.first else w.starts;
  last = if int_le s.last w.ends then w.ends else s.last;
}

-- The loop of DropCounter::restore
unfoldable pub restore_spans : List DropWindow → ChainSpans → ChainSpans
restore_spans [] windows = windows
restore_spans (w ∷ ws) windows =
    restore_spans ws (insert w.chain (merge_span w (lookup w.chain windows)) windows)

-- DropCounter::restore
unfoldable pub restore : List DropWindow → DropCounter → DropCounter
restore taken drops = record drops { windows = restore_spans taken drops.windows }

-- `u32::try_from(…).unwrap_or(u32::MAX)`
abbrev pub to_u32 : ℕ → ℕ
to_u32 n = min_of n 4294967295

-- The microseconds from one time to a later one, otherwise none.
abbrev pub micros_past : ℤ → ℤ → ℕ
micros_past (pos a) (pos b) = b - a
micros_past (pos a) (negsuc b) = 0
micros_past (negsuc a) (pos b) = a + b + 1
micros_past (negsuc a) (negsuc b) = a - b

-- DropWindow::into_event, with a fresh identifier
unfoldable pub into_event : List ℕ → Text → DropWindow → EmittedEvent
into_event id node_id w = record {
  tenant_id = w.chain.tenant_id;
  system_id = w.chain.system_id;
  event_id = id;
  trace_id = [];
  attempt_seq = 0;
  occurred_at = w.starts;
  node_id = node_id;
  event_type = telemetry_dropped;
  outcome = error;
  pins = gap_pins w.chain.system_id RiskFlag.telemetry_dropped;
  request_digest = genesis;
  response_digest = genesis;
  metrics = record {
    provider = [];
    http_status = 0;
    latency_ms = to_u32 (micros_past w.starts w.ends / 1000);
    ttft_ms = 0;
    tokens_in = 0;
    tokens_out = to_u32 w.count;
    error_code = risk_flag_str RiskFlag.telemetry_dropped;
  };
}
