-- ===== src/Gateway/Telemetry.antt =====
-- crates/ancre-gateway/src/telemetry.rs: the telemetry fork, the counter of what it drops and the
-- batcher. The channel (tokio) and the bus are interfaces over a state; the clock and fresh
-- identifiers are arguments.
pub mod Drops
pub mod Spans
pub mod Restored
pub mod Told
pub mod Runs
pub mod Counts
pub mod Counted
pub mod Turns
use ancre.Prelude.{
  ℕ, zero, suc, ◌+◌, ◌-◌, ◌*◌, ◌/◌, ◌%◌, ◌≡◌, Bool, true, false, not, ◌&&◌, List, [], ◌∷◌, ◌++◌,
  Option, none, some, Result, ok, err, Text, text, length, map, u64_mod, leb, ltb, if◌then◌else◌,
}
use ancre.Prelude.Int.{ℤ, pos, negsuc}
use ancre.Prelude.Maps.{lookup, contains_key, insert}
use ancre.Canon.Hash.{genesis}
use ancre.Types.Risk.{RiskFlag, risk_flag_str}
use ancre.Types.Event.{EmittedEvent, Metrics, telemetry_dropped, error, gap_pins, unknown}
use ancre.Chain.{ChainId}
use ancre.Gateway.Telemetry.Drops.{
  max_tracked_chains, Span, ChainSpans, DropCounter, no_drops, unknown_chain, drop_key, touch_span,
  touch, record_drop, DropWindow, window_of, take_windows, int_le, merge_span, restore_spans,
  restore, to_u32, micros_past, into_event,
}
use ancre.Ingester.Sink.{ChainId-Eq, chain_of, min_of}

pub data SinkError : Type 0 where
  unavailable : Text → SinkError

pub record EventSink : Type 1 where
  pub State : Type 0
  pub publish : List EmittedEvent → State → Result SinkError (Unit {0}) × State

-- What `recv` under a timeout gives.
pub data Got : Type 0 where
  got : EmittedEvent → Got
  closed idle : Got

-- A bounded channel of tokio: `try_send` tells whether it took the event.
pub record Channel : Type 1 where
  pub State : Type 0
  pub try_send : EmittedEvent → State → Bool × State
  pub recv : State → Got × State
  pub try_recv : State → Option EmittedEvent × State

pub record BatchConfig : Type 0 where
  pub max_events : ℕ
  pub max_wait : ℕ

abbrev pub default_config : BatchConfig
default_config = record { max_events = 512; max_wait = 200000000 }

pub record DrainReport : Type 0 where
  pub published : ℕ
  pub batches : ℕ
  pub failed : ℕ
  pub drop_events : ℕ

abbrev pub nothing_drained : DrainReport
nothing_drained = record { published = 0; batches = 0; failed = 0; drop_events = 0 }

-- The fork and the batcher over what they share, with the variables of `run`, and the windows that
-- `recover` holds while it waits for the bus.
pub record Node (C S : Type 0) : Type 0 where
  pub channel : C
  pub drops : DropCounter
  pub sink : S
  pub config : BatchConfig
  pub node_id : Text
  pub batch : List EmittedEvent
  pub report : DrainReport
  pub held : List DropWindow

-- The drops of a batch that is lost, each at its time.
unfoldable pub record_all : (ℕ → ℤ) → List EmittedEvent → DropCounter → DropCounter
record_all clock [] drops = drops
record_all clock (e ∷ es) drops =
    record_all (λ n. clock (suc n)) es (record_drop (clock 0) (chain_of e) drops)

module _ (ch : Channel) (sk : EventSink) where
  abbrev pub Forked : Type 0
  Forked = Node ch.State sk.State

  abbrev pub sent : ℤ → EmittedEvent → Forked → Bool × ch.State → Forked
  sent now e node (true, after) = record node { channel = after }
  sent now e node (false, after) = record node {
    channel = after;
    drops = record_drop now (chain_of e) node.drops;
  }

  -- TelemetryFork::emit
  unfoldable pub emit : ℤ → EmittedEvent → Forked → Forked
  emit now e node = sent now e node (ch.try_send e node.channel)

  abbrev pub published_batch : (ℕ → ℤ) → Forked → Result SinkError (Unit {0}) × sk.State → Forked
  published_batch clock node (ok u, after) = record node {
    sink = after;
    batch = [];
    report = record node.report {
      published = (node.report.published + length node.batch) % u64_mod;
      batches = (node.report.batches + 1) % u64_mod;
    };
  }
  published_batch clock node (err e, after) = record node {
    sink = after;
    batch = [];
    drops = record_all clock node.batch node.drops;
    report = record node.report { failed = (node.report.failed + length node.batch) % u64_mod };
  }

  abbrev pub flush_some : (ℕ → ℤ) → Forked → List EmittedEvent → Forked
  flush_some clock node [] = node
  flush_some clock node (e ∷ es) = published_batch clock node (sk.publish node.batch node.sink)

  -- Batcher::flush up to the call of `recover`
  unfoldable pub flush_batch : (ℕ → ℤ) → Forked → Forked
  flush_batch clock node = flush_some clock node node.batch

  -- Batcher::recover before the bus has answered
  unfoldable pub begin_recover : Forked → Forked
  begin_recover node =
      let (windows, drops) = take_windows node.drops in
      record node { drops = drops; held = windows }

  -- The events of the windows, with fresh identifiers.
  abbrev pub drop_events_of : (ℕ → List ℕ) → Text → List DropWindow → List EmittedEvent
  drop_events_of ids node_id [] = []
  drop_events_of ids node_id (w ∷ ws) =
      into_event (ids 0) node_id w ∷ drop_events_of (λ n. ids (suc n)) node_id ws

  abbrev pub recovered : Forked → Result SinkError (Unit {0}) × sk.State → Forked
  recovered node (ok u, after) = record node {
    sink = after;
    held = [];
    report = record node.report {
      drop_events = (node.report.drop_events + length node.held) % u64_mod;
    };
  }
  recovered node (err e, after) = record node {
    sink = after;
    held = [];
    drops = restore node.held node.drops;
  }

  abbrev pub recover_some : (ℕ → List ℕ) → Forked → List DropWindow → Forked
  recover_some ids node [] = node
  recover_some ids node (w ∷ ws) =
      recovered node (sk.publish (drop_events_of ids node.node_id node.held) node.sink)

  -- Batcher::recover from the answer of the bus on
  unfoldable pub end_recover : (ℕ → List ℕ) → Forked → Forked
  end_recover ids node = recover_some ids node node.held

  -- Batcher::flush
  abbrev pub flush : (ℕ → ℤ) → (ℕ → List ℕ) → Forked → Forked
  flush clock ids node = end_recover ids (begin_recover (flush_batch clock node))

  abbrev pub filled : (Forked → Forked) → Forked → Option EmittedEvent × ch.State → Forked
  filled again node (none, after) = record node { channel = after }
  filled again node (some e, after) =
      again (record node { channel = after; batch = node.batch ++ e ∷ [] })

  -- The inner loop of `run`, with the events that the batch has room for.
  unfoldable pub fill_batch : ℕ → Forked → Forked
  fill_batch zero node = node
  fill_batch (suc room) node = filled (fill_batch room) node (ch.try_recv node.channel)

  abbrev pub flush_full : (ℕ → ℤ) → (ℕ → List ℕ) → Forked → Forked
  flush_full clock ids node =
      if leb node.config.max_events (length node.batch) then flush clock ids node else node

  -- One round of the loop of `run`, and whether it goes on.
  abbrev pub on_got : (ℕ → ℤ) → (ℕ → List ℕ) → Forked → Got × ch.State → Bool × Forked
  on_got clock ids node (got e, after) =
      let begun : Forked = record node { channel = after; batch = node.batch ++ e ∷ [] } in
      (true, flush_full clock ids (fill_batch (node.config.max_events - length begun.batch) begun))
  on_got clock ids node (closed, after) = (false, flush clock ids (record node { channel = after }))
  on_got clock ids node (idle, after) = (true, flush clock ids (record node { channel = after }))

  unfoldable pub turn : (ℕ → ℤ) → (ℕ → List ℕ) → Forked → Bool × Forked
  turn clock ids node = on_got clock ids node (ch.recv node.channel)
