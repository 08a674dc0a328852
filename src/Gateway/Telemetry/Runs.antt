-- ===== src/Gateway/Telemetry/Runs.antt =====
-- crates/ancre-gateway/src/telemetry.rs: the runs of a node as a step relation, over any bus with a
-- log of what it acknowledged, and what it means that every event is accounted for.
use ancre.Prelude.{
  ℕ, ◌+◌, ◌≡◌, true, false, List, [], ◌∷◌, ◌++◌, none, some, Result, ok, err, Text, length, All,
}
use ancre.Prelude.Int.{ℤ}
use ancre.Prelude.Subsequence.{IsSubsequence}
use ancre.Types.Event.{EmittedEvent}
use ancre.Gateway.Telemetry.{
  Channel, EventSink, got, closed, idle, Forked, SinkError, nothing_drained, BatchConfig, emit,
  flush_batch, begin_recover, end_recover,
}
use ancre.Gateway.Telemetry.Drops.{no_drops}
use ancre.Gateway.Telemetry.Spans.{IsMap, spans_sum, windows_sum}
use ancre.Gateway.Telemetry.Told.{IsOrdinary, ordinary, told}

-- A channel gives the events that it took, in their order: `queued` are those not received yet.
pub record Queues (ch : Channel) : Type 0 where
  pub queued : ch.State → List EmittedEvent
  pub taken :
      (e : EmittedEvent) (x y : ch.State)
      → ch.try_send e x ≡ (true, y)
      → queued y ≡ queued x ++ e ∷ []
  pub handed_back :
      (e : EmittedEvent) (x y : ch.State) → ch.try_send e x ≡ (false, y) → queued y ≡ queued x
  pub received :
      (e : EmittedEvent) (x y : ch.State) → ch.recv x ≡ (got e, y) → queued x ≡ e ∷ queued y
  pub waited : (x y : ch.State) → ch.recv x ≡ (idle, y) → queued y ≡ queued x
  pub ended : (x y : ch.State) → ch.recv x ≡ (closed, y) → queued y ≡ queued x
  pub received_now :
      (e : EmittedEvent) (x y : ch.State) → ch.try_recv x ≡ (some e, y) → queued x ≡ e ∷ queued y
  pub nothing_now : (x y : ch.State) → ch.try_recv x ≡ (none, y) → queued y ≡ queued x

-- A bus with the events of the batches that it acknowledged.
pub record Logging (S : Type 0) : Type 0 where
  pub bus : S
  pub log : List EmittedEvent

abbrev pub logged :
    {S : Type 0}
    → List EmittedEvent
    → List EmittedEvent
    → Result SinkError (Unit {0}) × S
    → Result SinkError (Unit {0}) × Logging S
logged es log (ok u, after) = (ok u, record { bus = after; log = log ++ es })
logged es log (err e, after) = (err e, record { bus = after; log = log })

-- Any bus, with a log of what it acknowledged.
abbrev pub recording : EventSink → EventSink
recording sk = record {
  State = Logging sk.State;
  publish = λ es x. logged es x.log (sk.publish es x.bus);
}

module _ (ch : Channel) (sk : EventSink) where
  abbrev pub Watched : Type 0
  Watched = Forked ch (recording sk)

  -- A node that has run from its start, and the events emitted so far. Other tasks emit at any point, also
  -- while `recover` waits for the bus; none of them emits events about drops.
  pub data Run (q : Queues ch) : List EmittedEvent → Watched → Type 0 where
    started :
        (c : ch.State) (s : sk.State) (config : BatchConfig) (id : Text)
        → q.queued c ≡ []
        → Run q [] (record {
          channel = c;
          drops = no_drops;
          sink = record { bus = s; log = [] };
          config = config;
          node_id = id;
          batch = [];
          report = nothing_drained;
          held = [];
        })
    emitted :
        {es : List EmittedEvent} {node : Watched} (now : ℤ) (e : EmittedEvent)
        → IsOrdinary e
        → Run q es node
        → Run q (es ++ e ∷ []) (emit ch (recording sk) now e node)
    received :
        {es : List EmittedEvent} {node : Watched} (e : EmittedEvent) (after : ch.State)
        → q.queued node.channel ≡ e ∷ q.queued after
        → Run q es node
        → Run q es (record node { channel = after; batch = node.batch ++ e ∷ [] })
    passed :
        {es : List EmittedEvent} {node : Watched} (after : ch.State)
        → q.queued after ≡ q.queued node.channel
        → Run q es node
        → Run q es (record node { channel = after })
    flushed :
        {es : List EmittedEvent} {node : Watched} (clock : ℕ → ℤ)
        → Run q es node
        → Run q es (flush_batch ch (recording sk) clock node)
    recovering :
        {es : List EmittedEvent} {node : Watched}
        → node.held ≡ []
        → Run q es node
        → Run q es (begin_recover ch (recording sk) node)
    answered :
        {es : List EmittedEvent} {node : Watched} (ids : ℕ → List ℕ)
        → Run q es node
        → Run q es (end_recover ch (recording sk) ids node)

  -- The events on their way: acknowledged, in the batch, in the channel.
  abbrev pub carried : Queues ch → Watched → List EmittedEvent
  carried q node = ordinary node.sink.log ++ (node.batch ++ q.queued node.channel)

  -- What is on its way is what was emitted, in its order, without the drops, and every drop is in a window,
  -- held, or told by an event that the bus acknowledged.
  pub record IsAccounted (q : Queues ch) (es : List EmittedEvent) (node : Watched) : Type 0 where
    pub order : IsSubsequence (carried q node) es
    pub number : length es ≡ length (carried q node) + node.drops.total
    pub drops_are :
        node.drops.total ≡ spans_sum node.drops.windows + windows_sum node.held + told node.sink.log
    pub keys : IsMap node.drops.windows
    pub kinds : All IsOrdinary (node.batch ++ q.queued node.channel)
