-- ===== src/Gateway/Telemetry/Counted.antt =====
-- crates/ancre-gateway/src/telemetry.rs: however emitting and draining are interleaved, and
-- whatever the channel and the bus answer, every event is accounted for.
use ancre.Prelude.{
  ℕ, ◌+◌, ◌<◌, ◌≡◌, refl, sym, ap, ◌∙◌, subst, Bool, true, false, List, [], ◌∷◌, ◌++◌, Result, ok,
  err, length, length-append, arith, All, All-append,
}
use mathlib.Core.List.{append-nil, append_assoc}
use ancre.Prelude.Int.{ℤ}
use ancre.Prelude.Subsequence.{
  IsSubsequence, IsSubsequence-both, IsSubsequence-longer, IsSubsequence-middle,
}
use ancre.Types.Event.{EmittedEvent}
use ancre.Gateway.Telemetry.{
  Channel, EventSink, SinkError, sent, emit, published_batch, flush_batch, flush_some, recover_some,
  begin_recover, end_recover, recovered, drop_events_of,
}
use ancre.Gateway.Telemetry.Drops.{DropWindow, take_windows, restore}
use ancre.Gateway.Telemetry.Counts.{record_drop-Counts, record_all-Counts}
use ancre.Gateway.Telemetry.Spans.{IsMap, spans_sum, windows_sum, window_of-sum, restore_spans-sum}
use ancre.Gateway.Telemetry.Runs.{
  Queues, logged, recording, Watched, Run, started, emitted, received, passed, flushed, recovering,
  answered, carried, IsAccounted,
}
use ancre.Gateway.Telemetry.Told.{
  IsOrdinary, ordinary, told, ordinary-append, told-append, ordinary_all, told_none,
  ordinary-drop_events_of, told-drop_events_of,
}

module _ (ch : Channel) (sk : EventSink) where
  module _ (q : Queues ch) where
    abbrev Fine : List EmittedEvent → Watched ch sk → Type 0
    Fine es node = IsAccounted ch sk q es node

    All-left : (xs ys : List EmittedEvent) → All IsOrdinary (xs ++ ys) → All IsOrdinary xs
    All-left [] ys h = tt
    All-left (x ∷ xs) ys h = (h.0, All-left xs ys h.1)

    All-right : (xs ys : List EmittedEvent) → All IsOrdinary (xs ++ ys) → All IsOrdinary ys
    All-right [] ys h = h
    All-right (x ∷ xs) ys h = All-right xs ys h.1

    -- A node whose events on their way and whose windows are the same.
    Fine-same :
        (es : List EmittedEvent) (node node' : Watched ch sk)
        → node.batch ++ q.queued node.channel ≡ node'.batch ++ q.queued node'.channel
        → node.sink.log ≡ node'.sink.log
        → node.drops ≡ node'.drops
        → node.held ≡ node'.held
        → Fine es node
        → Fine es node'
    Fine-same es node node' way log drops held h =
        let on : carried ch sk q node ≡ carried ch sk q node' =
          ap (λ l. ordinary l ++ (node.batch ++ q.queued node.channel)) log
          ∙ ap (λ l. ordinary node'.sink.log ++ l) way in
        record {
          order = subst (λ l. IsSubsequence l es) on h.order;
          number = omega (arith, h.number, ap length on, ap (λ d. d.total) drops);
          drops_are = omega (
            arith,
            h.drops_are,
            ap (λ d. d.total) drops,
            ap (λ d. spans_sum d.windows) drops,
            ap windows_sum held,
            ap told log,
          );
          keys = subst (λ d. IsMap d.windows) drops h.keys;
          kinds = subst (All IsOrdinary) way h.kinds;
        }

    carried-snoc :
        (log batch queue : List EmittedEvent) (e : EmittedEvent)
        → log ++ (batch ++ (queue ++ e ∷ [])) ≡ (log ++ (batch ++ queue)) ++ e ∷ []
    carried-snoc log batch queue e =
        ap (λ l. log ++ l) (sym (append_assoc batch queue (e ∷ [])))
        ∙ sym (append_assoc log (batch ++ queue) (e ∷ []))

    emit-IsAccounted :
        (now : ℤ) (e : EmittedEvent) (node : Watched ch sk) (es : List EmittedEvent)
        (sending : Bool × ch.State)
        → IsOrdinary e
        → length es + 1 < 4294967296
        → ch.try_send e node.channel ≡ sending
        → Fine es node
        → Fine (es ++ e ∷ []) (sent ch (recording sk) now e node sending)
    emit-IsAccounted now e node es (true, after) plain lt p h =
        let queue = q.taken e node.channel after p in
        let on : ordinary node.sink.log ++ (node.batch ++ q.queued after)
            ≡ carried ch sk q node ++ e ∷ [] =
          ap (λ l. ordinary node.sink.log ++ (node.batch ++ l)) queue
          ∙ carried-snoc (ordinary node.sink.log) node.batch (q.queued node.channel) e in
        record {
          order =
              subst (λ l. IsSubsequence l (es ++ e ∷ [])) (sym on)
                (IsSubsequence-both (carried ch sk q node) es e h.order);
          number = omega (
            arith,
            h.number,
            ap length on,
            length-append es (e ∷ []),
            length-append (carried ch sk q node) (e ∷ []),
          );
          drops_are = h.drops_are;
          keys = h.keys;
          kinds =
              subst (All IsOrdinary)
                (append_assoc node.batch (q.queued node.channel) (e ∷ [])
                  ∙ ap (λ l. node.batch ++ l) (sym queue))
                (All-append IsOrdinary (node.batch ++ q.queued node.channel) (e ∷ []) h.kinds
                  (plain, tt));
        }
    emit-IsAccounted now e node es (false, after) plain lt p h =
        let queue = q.handed_back e node.channel after p in
        let on : ordinary node.sink.log ++ (node.batch ++ q.queued after) ≡ carried ch sk q node =
          ap (λ l. ordinary node.sink.log ++ (node.batch ++ l)) queue in
        let c =
          record_drop-Counts now e node.drops node.drops.total (spans_sum node.drops.windows)
            (omega (arith, h.number)) (omega (arith, h.number, h.drops_are))
            (record { keys = h.keys; total_is = refl; windows_are = refl }) in
        record {
          order =
              subst (λ l. IsSubsequence l (es ++ e ∷ [])) (sym on)
                (IsSubsequence-longer (carried ch sk q node) es e h.order);
          number = omega (arith, h.number, ap length on, length-append es (e ∷ []), c.total_is);
          drops_are = omega (arith, h.drops_are, c.total_is, c.windows_are);
          keys = c.keys;
          kinds = subst (All IsOrdinary) (ap (λ l. node.batch ++ l) (sym queue)) h.kinds;
        }

    published-IsAccounted :
        (clock : ℕ → ℤ) (node : Watched ch sk) (es : List EmittedEvent)
        (answer : Result SinkError (Unit {0}) × sk.State)
        → length es < 4294967296
        → Fine es node
        → Fine es
            (published_batch ch (recording sk) clock node (logged node.batch node.sink.log answer))
    published-IsAccounted clock node es (ok u, after) lt h =
        let plain = All-left node.batch (q.queued node.channel) h.kinds in
        let on : carried ch sk q node
            ≡ ordinary (node.sink.log ++ node.batch) ++ q.queued node.channel =
          sym (append_assoc (ordinary node.sink.log) node.batch (q.queued node.channel))
          ∙ ap (λ l. ordinary node.sink.log ++ l ++ q.queued node.channel)
              (sym (ordinary_all node.batch plain))
          ∙ ap (λ l. l ++ q.queued node.channel) (sym (ordinary-append node.sink.log node.batch)) in
        record {
          order = subst (λ l. IsSubsequence l es) on h.order;
          number = omega (arith, h.number, ap length on);
          drops_are = omega (
            arith,
            h.drops_are,
            told-append node.sink.log node.batch,
            told_none node.batch plain,
          );
          keys = h.keys;
          kinds = All-right node.batch (q.queued node.channel) h.kinds;
        }
    published-IsAccounted clock node es (err e, after) lt h =
        let before = length-append (ordinary node.sink.log) (node.batch ++ q.queued node.channel) in
        let lost = length-append node.batch (q.queued node.channel) in
        let left = length-append (ordinary node.sink.log) (q.queued node.channel) in
        let c =
          record_all-Counts clock node.batch node.drops node.drops.total
            (spans_sum node.drops.windows) (omega (arith, h.number, before, lost))
            (omega (arith, h.number, h.drops_are, before, lost))
            (record { keys = h.keys; total_is = refl; windows_are = refl }) in
        record {
          order =
              IsSubsequence-middle (ordinary node.sink.log) node.batch (q.queued node.channel) es
                h.order;
          number = omega (arith, h.number, c.total_is, before, lost, left);
          drops_are = omega (arith, h.drops_are, c.total_is, c.windows_are);
          keys = c.keys;
          kinds = All-right node.batch (q.queued node.channel) h.kinds;
        }

    recovered-IsAccounted :
        (ids : ℕ → List ℕ) (node : Watched ch sk) (es : List EmittedEvent)
        (answer : Result SinkError (Unit {0}) × sk.State)
        → length es < 4294967296
        → Fine es node
        → Fine es (
            recovered ch (recording sk) node (
              logged
                (drop_events_of ch (recording sk) ids node.node_id node.held)
                node.sink.log
                answer))
    unfolding restore
    recovered-IsAccounted ids node es (ok u, after) lt h =
        let news = drop_events_of ch (recording sk) ids node.node_id node.held in
        let none_more : ordinary (node.sink.log ++ news) ≡ ordinary node.sink.log =
          ordinary-append node.sink.log news
          ∙ ap (λ l. ordinary node.sink.log ++ l)
              (ordinary-drop_events_of ch (recording sk) ids node.node_id node.held)
          ∙ append-nil (ordinary node.sink.log) in
        let on : carried ch sk q node
            ≡ ordinary (node.sink.log ++ news) ++ (node.batch ++ q.queued node.channel) =
          ap (λ l. l ++ (node.batch ++ q.queued node.channel)) (sym none_more) in
        record {
          order = subst (λ l. IsSubsequence l es) on h.order;
          number = omega (arith, h.number, ap length on);
          drops_are = omega (
            arith,
            h.drops_are,
            told-append node.sink.log news,
            told-drop_events_of ch (recording sk) ids node.node_id node.held
                (omega (arith, lt, h.number, h.drops_are)),
          );
          keys = h.keys;
          kinds = h.kinds;
        }
    recovered-IsAccounted ids node es (err e, after) lt h =
        let (map_too, sums) =
          restore_spans-sum node.held node.drops.windows h.keys
            (omega (arith, h.number, h.drops_are)) in
        record {
          order = h.order;
          number = h.number;
          drops_are = omega (arith, h.drops_are, sums);
          keys = map_too;
          kinds = h.kinds;
        }

    flush_some-IsAccounted :
        (clock : ℕ → ℤ) (node : Watched ch sk) (es batch : List EmittedEvent)
        → length es < 4294967296
        → Fine es node
        → Fine es (flush_some ch (recording sk) clock node batch)
    flush_some-IsAccounted clock node es [] lt h = h
    flush_some-IsAccounted clock node es (e ∷ rest) lt h =
        published-IsAccounted clock node es (sk.publish node.batch node.sink.bus) lt h

    recover_some-IsAccounted :
        (ids : ℕ → List ℕ) (node : Watched ch sk) (es : List EmittedEvent) (held : List DropWindow)
        → length es < 4294967296
        → Fine es node
        → Fine es (recover_some ch (recording sk) ids node held)
    recover_some-IsAccounted ids node es [] lt h = h
    recover_some-IsAccounted ids node es (w ∷ ws) lt h =
        recovered-IsAccounted ids node es
          (sk.publish (drop_events_of ch (recording sk) ids node.node_id node.held) node.sink.bus)
          lt h

    begin_recover-IsAccounted :
        (node : Watched ch sk) (es : List EmittedEvent)
        → node.held ≡ []
        → Fine es node
        → Fine es (begin_recover ch (recording sk) node)
    unfolding begin_recover take_windows
    begin_recover-IsAccounted node es none_held h = record {
      order = h.order;
      number = h.number;
      drops_are =
          omega (arith, h.drops_are, window_of-sum node.drops.windows, ap windows_sum none_held);
      keys = tt;
      kinds = h.kinds;
    }

    -- After every interleaving of emitting and draining, with fewer than 2^32 events emitted and
    -- none of them about drops: the events in the batches that the bus acknowledged, those in the
    -- batch and those in the channel are, in this order, the events emitted without some of them.
    -- As many as are missing are counted as dropped, and each drop is counted in a window, in one
    -- held by a recovery that waits for the bus, or in the tokens_out of an event about drops that
    -- the bus acknowledged. The channel gives what it took in its order; the bus may answer
    -- anything.
    pub Run-IsAccounted :
        {es : List EmittedEvent} {node : Watched ch sk}
        → Run ch sk q es node
        → length es < 4294967296
        → Fine es node
    unfolding emit flush_batch end_recover ordinary told
    Run-IsAccounted (started c s config id empty) lt = record {
      order = subst (λ l. IsSubsequence l []) (sym empty) tt;
      number = omega (arith, ap length empty);
      drops_are = refl;
      keys = tt;
      kinds = subst (All IsOrdinary) (sym empty) tt;
    }
    Run-IsAccounted (emitted {es = es} {node = node} now e plain r) lt =
        let fits : length es + 1 < 4294967296 = omega (arith, lt, length-append es (e ∷ [])) in
        emit-IsAccounted now e node es (ch.try_send e node.channel) plain fits refl
          (Run-IsAccounted r (omega (arith, fits)))
    Run-IsAccounted (received {es = es} {node = node} e after p r) lt =
        Fine-same es node (record node { channel = after; batch = node.batch ++ e ∷ [] })
          (ap (λ l. node.batch ++ l) p ∙ sym (append_assoc node.batch (e ∷ []) (q.queued after)))
          refl refl refl (Run-IsAccounted r lt)
    Run-IsAccounted (passed {es = es} {node = node} after p r) lt =
        Fine-same es node (record node { channel = after }) (ap (λ l. node.batch ++ l) (sym p)) refl
          refl refl (Run-IsAccounted r lt)
    Run-IsAccounted (flushed {es = es} {node = node} clock r) lt =
        flush_some-IsAccounted clock node es node.batch lt (Run-IsAccounted r lt)
    Run-IsAccounted (recovering {es = es} {node = node} p r) lt =
        begin_recover-IsAccounted node es p (Run-IsAccounted r lt)
    Run-IsAccounted (answered {es = es} {node = node} ids r) lt =
        recover_some-IsAccounted ids node es node.held lt (Run-IsAccounted r lt)
