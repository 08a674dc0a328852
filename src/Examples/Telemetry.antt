-- ===== src/Examples/Telemetry.antt =====
-- crates/ancre-gateway/src/telemetry.rs: a node with a channel of one place and a bus that is up, and the
-- theorems on it.
use ancre.Prelude.{
  ℕ, ◌≡◌, refl, ap, ◌∙◌, List, [], ◌∷◌, ◌++◌, ok, Bool, true, false, Option, none, some, text,
  arith, sym, list_eq,
}
use ancre.Prelude.Int.{pos}
use ancre.Types.Event.{EmittedEvent}
use ancre.Chain.{ChainId}
use ancre.Ingester.Sink.{ChainId-Eq}
use ancre.Gateway.Telemetry.{
  Channel, EventSink, Got, got, closed, idle, nothing_drained, default_config, emit, begin_recover,
  end_recover, turn,
}
use ancre.Prelude.Maps.{lookup}
use ancre.Gateway.Telemetry.Drops.{DropCounter, no_drops, restore, take_windows}
use ancre.Gateway.Telemetry.Restored.{IsJoined, restore-take_windows}
use ancre.Gateway.Telemetry.Counted.{Run-IsAccounted}
use ancre.Gateway.Telemetry.Turns.{Leaves, turn-Run}
use ancre.Gateway.Telemetry.Runs.{
  Queues, recording, Watched, Run, started, emitted, recovering, answered, IsAccounted,
}
use ancre.Examples.Chain.{heartbeat_event}

abbrev pub put_one : EmittedEvent → Option EmittedEvent → Bool × Option EmittedEvent
put_one e none = (true, some e)
put_one e (some f) = (false, some f)

abbrev pub take_one : Option EmittedEvent → Got × Option EmittedEvent
take_one none = (idle, none)
take_one (some e) = (got e, none)

abbrev pub one_place : Channel
one_place = record {
  State = Option EmittedEvent;
  try_send = put_one;
  recv = take_one;
  try_recv = λ s. (s, none);
}

abbrev pub queued_in : Option EmittedEvent → List EmittedEvent
queued_in none = []
queued_in (some e) = e ∷ []

put_taken :
    (e : EmittedEvent) (x y : Option EmittedEvent)
    → put_one e x ≡ (true, y)
    → queued_in y ≡ queued_in x ++ e ∷ []
put_taken e none y p = ap (λ t. queued_in t.1) (sym p)
put_taken e (some f) y p = cc (ap (λ t. t.0) p)

put_back :
    (e : EmittedEvent) (x y : Option EmittedEvent)
    → put_one e x ≡ (false, y)
    → queued_in y ≡ queued_in x
put_back e none y p = cc (ap (λ t. t.0) p)
put_back e (some f) y p = ap (λ t. queued_in t.1) (sym p)

got_inj : (f e : EmittedEvent) → ◌≡◌ {A = Got} (got f) (got e) → f ∷ [] ≡ e ∷ []
got_inj f e p = cc p

take_got :
    (e : EmittedEvent) (x y : Option EmittedEvent)
    → take_one x ≡ (got e, y)
    → queued_in x ≡ e ∷ queued_in y
take_got e none y p = cc (ap (λ t. t.0) p)
take_got e (some f) y p = got_inj f e (ap (λ t. t.0) p) ∙ ap (λ t. e ∷ queued_in t.1) p

take_idle : (x y : Option EmittedEvent) → take_one x ≡ (idle, y) → queued_in y ≡ queued_in x
take_idle none y p = ap (λ t. queued_in t.1) (sym p)
take_idle (some f) y p = cc (ap (λ t. t.0) p)

take_closed : (x y : Option EmittedEvent) → take_one x ≡ (closed, y) → queued_in y ≡ queued_in x
take_closed none y p = cc (ap (λ t. t.0) p)
take_closed (some f) y p = cc (ap (λ t. t.0) p)

take_now :
    (e : EmittedEvent) (x y : Option EmittedEvent)
    → ◌≡◌ {A = Option EmittedEvent × Option EmittedEvent} (x, none) (some e, y)
    → queued_in x ≡ e ∷ queued_in y
take_now e x y p = cc (ap (λ t. t.0) p)

take_none :
    (x y : Option EmittedEvent)
    → ◌≡◌ {A = Option EmittedEvent × Option EmittedEvent} (x, none) (none, y)
    → queued_in y ≡ queued_in x
take_none x y p = ap (λ t. queued_in t.1) (sym p) ∙ ap (λ t. queued_in t.0) (sym p)

abbrev one_place_queues : Queues one_place
one_place_queues = record {
  queued = queued_in;
  taken = put_taken;
  handed_back = put_back;
  received = take_got;
  waited = take_idle;
  ended = take_closed;
  received_now = take_now;
  nothing_now = take_none;
}

abbrev pub live_bus : EventSink
live_bus = record { State = Unit {0}; publish = λ es s. (ok tt, tt) }

abbrev pub fresh_node : Watched one_place live_bus
fresh_node = record {
  channel = none;
  drops = no_drops;
  sink = record { bus = tt; log = [] };
  config = default_config;
  node_id = text "n";
  batch = [];
  report = nothing_drained;
  held = [];
}

abbrev pub no_ids : ℕ → List ℕ
no_ids n = []

-- Two events, the second of which finds the channel full, and the event that tells of it.
abbrev pub told_of_one : Watched one_place live_bus
told_of_one = end_recover one_place (recording live_bus) no_ids (
    begin_recover one_place (recording live_bus) (
      emit one_place (recording live_bus) (pos 2) heartbeat_event
        (emit one_place (recording live_bus) (pos 1) heartbeat_event fresh_node)))

first_two : Run one_place live_bus one_place_queues (heartbeat_event ∷ heartbeat_event ∷ []) (
    emit one_place
      (recording live_bus)
      (pos 2)
      heartbeat_event
      (emit one_place (recording live_bus) (pos 1) heartbeat_event fresh_node))
first_two =
    emitted (pos 2) heartbeat_event refl
      (emitted (pos 1) heartbeat_event refl (started none tt default_config (text "n") refl))

nothing_held :
    (emit one_place
      (recording live_bus)
      (pos 2)
      heartbeat_event
      (emit one_place (recording live_bus) (pos 1) heartbeat_event fresh_node)).held
    ≡ []
unfolding emit
nothing_held = refl

Run-IsAccounted_example :
    IsAccounted one_place live_bus one_place_queues
      (heartbeat_event ∷ heartbeat_event ∷ [])
      told_of_one
Run-IsAccounted_example =
    Run-IsAccounted one_place live_bus one_place_queues
      (answered no_ids (recovering nothing_held first_two)) (omega arith)

-- One event in the channel.
abbrev pub one_queued : Watched one_place live_bus
one_queued = record fresh_node { channel = some heartbeat_event }

one_emitted : Run one_place live_bus one_place_queues (heartbeat_event ∷ []) one_queued
unfolding emit
one_emitted = emitted (pos 1) heartbeat_event refl (started none tt default_config (text "n") refl)

turn-Run_example :
    Run one_place live_bus one_place_queues
      (heartbeat_event ∷ [])
      (turn one_place (recording live_bus) (λ n. pos 2) no_ids one_queued).1
    × ((turn one_place (recording live_bus) (λ n. pos 2) no_ids one_queued).1.held ≡ [])
    × Leaves one_place live_bus one_place_queues
        (turn one_place (recording live_bus) (λ n. pos 2) no_ids one_queued)
turn-Run_example =
    turn-Run one_place live_bus one_place_queues (heartbeat_event ∷ []) (λ n. pos 2) no_ids
      one_queued one_emitted refl

abbrev pub other_chain : ChainId
other_chain = record { tenant_id = text "t"; system_id = text "u" }

abbrev pub this_chain : ChainId
this_chain = record { tenant_id = text "t"; system_id = text "s" }

abbrev taken_of_both : DropCounter
taken_of_both = record {
  total = 4;
  windows =
      (other_chain, record { count = 3; first = pos 1; last = pos 4 })
      ∷ (this_chain, record { count = 1; first = pos 2; last = pos 2 })
      ∷ [];
}

abbrev recorded_since : DropCounter
recorded_since = record {
  total = 6;
  windows = (other_chain, record { count = 2; first = pos 5; last = pos 6 }) ∷ [];
}

restore-take_windows_example :
    IsJoined
      (lookup other_chain taken_of_both.windows)
      (lookup other_chain recorded_since.windows)
      (lookup other_chain (restore (take_windows taken_of_both).0 recorded_since).windows)
unfolding list_eq
restore-take_windows_example =
    restore-take_windows other_chain taken_of_both recorded_since (refl, (refl, tt)) (omega arith)
