-- ===== src/Gateway/Telemetry/Turns.antt =====
-- crates/ancre-gateway/src/telemetry.rs: the rounds of `Batcher::run` are made of the steps of a node.
use ancre.Prelude.{
  ℕ, zero, suc, Bool-cases, leb, ◌-◌, ◌++◌, ◌<◌, ◌≡◌, ◌⊎◌, arith, Bool, true, false, refl, ◌∙◌, inl,
  inr, List, [], ◌∷◌, Option, none, some, Result, ok, err, length,
}
use ancre.Prelude.Int.{ℤ}
use ancre.Types.Event.{EmittedEvent}
use ancre.Gateway.Telemetry.{
  Channel, EventSink, Got, got, closed, idle, SinkError, published_batch, flush_batch, flush_some,
  recover_some, begin_recover, end_recover, recovered, drop_events_of, filled, fill_batch, flush,
  flush_full, on_got, turn,
}
use ancre.Gateway.Telemetry.Drops.{DropWindow}
use ancre.Gateway.Telemetry.Runs.{
  Queues, Run, Logging, recording, Watched, received, passed, flushed, recovering, answered,
}

module _ (ch : Channel) (sk : EventSink) where
  module _ (q : Queues ch) where
    -- A node that has run, and holds no windows.
    abbrev Ran : List EmittedEvent → Watched ch sk → Type 0
    Ran es node = Run ch sk q es node × (node.held ≡ [])

    filled-Ran :
        (n : List EmittedEvent) (again : Watched ch sk → Watched ch sk) (node : Watched ch sk)
        (answer : Option EmittedEvent × ch.State)
        → ((next : Watched ch sk) → Ran n next → Ran n (again next))
        → ch.try_recv node.channel ≡ answer
        → Ran n node
        → Ran n (filled ch (recording sk) again node answer)
    filled-Ran n again node (none, after) next p (r, h) =
        (passed after (q.nothing_now node.channel after p) r, h)
    filled-Ran n again node (some e, after) next p (r, h) =
        next _ (received e after (q.received_now e node.channel after p) r, h)

    fill_batch-Ran :
        (n : List EmittedEvent) (room : ℕ) (node : Watched ch sk)
        → Ran n node
        → Ran n (fill_batch ch (recording sk) room node)
    unfolding fill_batch
    fill_batch-Ran n zero node r = r
    fill_batch-Ran n (suc room) node r =
        filled-Ran n (fill_batch ch (recording sk) room) node (ch.try_recv node.channel)
          (λ x y. fill_batch-Ran n room x y) refl r

    published-held :
        (clock : ℕ → ℤ) (node : Watched ch sk)
        (answer : Result SinkError (Unit {0}) × Logging sk.State)
        → (published_batch ch (recording sk) clock node answer).held ≡ node.held
    published-held clock node (ok u, after) = refl
    published-held clock node (err e, after) = refl

    flush_batch-held :
        (clock : ℕ → ℤ) (node : Watched ch sk) (es : List EmittedEvent)
        → (flush_some ch (recording sk) clock node es).held ≡ node.held
    flush_batch-held clock node [] = refl
    flush_batch-held clock node (e ∷ es) =
        published-held clock node ((recording sk).publish node.batch node.sink)

    recovered-held :
        (node : Watched ch sk) (answer : Result SinkError (Unit {0}) × Logging sk.State)
        → (recovered ch (recording sk) node answer).held ≡ []
    recovered-held node (ok u, after) = refl
    recovered-held node (err e, after) = refl

    recover_some-held :
        (ids : ℕ → List ℕ) (node : Watched ch sk) (held : List DropWindow)
        → node.held ≡ held
        → (recover_some ch (recording sk) ids node held).held ≡ []
    recover_some-held ids node [] p = p
    recover_some-held ids node (w ∷ ws) p = recovered-held node (
        (recording sk).publish (drop_events_of ch (recording sk) ids node.node_id node.held)
          node.sink)

    flush-Ran :
        (n : List EmittedEvent) (clock : ℕ → ℤ) (ids : ℕ → List ℕ) (node : Watched ch sk)
        → Ran n node
        → Ran n (flush ch (recording sk) clock ids node)
    unfolding flush_batch end_recover
    flush-Ran n clock ids node (r, h) = (
      answered ids (recovering (flush_batch-held clock node node.batch ∙ h) (flushed clock r)),
      recover_some-held ids
          (begin_recover ch (recording sk) (flush_batch ch (recording sk) clock node))
          (begin_recover ch (recording sk) (flush_batch ch (recording sk) clock node)).held refl,
    )

    flush_full-Ran :
        (n : List EmittedEvent) (clock : ℕ → ℤ) (ids : ℕ → List ℕ) (node : Watched ch sk)
        → Ran n node
        → Ran n (flush_full ch (recording sk) clock ids node)
    flush_full-Ran n clock ids node r =
        elim (Bool-cases (leb node.config.max_events (length node.batch))) [
          | inl t ↦ rw t (flush-Ran n clock ids node r)
          | inr f ↦ rw f r
        ]

    on_got-Ran :
        (n : List EmittedEvent) (clock : ℕ → ℤ) (ids : ℕ → List ℕ) (node : Watched ch sk)
        (answer : Got × ch.State)
        → ch.recv node.channel ≡ answer
        → Ran n node
        → Ran n (on_got ch (recording sk) clock ids node answer).1
    on_got-Ran n clock ids node (got e, after) p (r, h) =
        flush_full-Ran n clock ids _
          (fill_batch-Ran n _ _ (received e after (q.received e node.channel after p) r, h))
    on_got-Ran n clock ids node (closed, after) p (r, h) =
        flush-Ran n clock ids _ (passed after (q.ended node.channel after p) r, h)
    on_got-Ran n clock ids node (idle, after) p (r, h) =
        flush-Ran n clock ids _ (passed after (q.waited node.channel after p) r, h)

    published-batch :
        (clock : ℕ → ℤ) (node : Watched ch sk)
        (answer : Result SinkError (Unit {0}) × Logging sk.State)
        → (published_batch ch (recording sk) clock node answer).batch ≡ []
    published-batch clock node (ok u, after) = refl
    published-batch clock node (err e, after) = refl

    flush_some-batch :
        (clock : ℕ → ℤ) (node : Watched ch sk) (es : List EmittedEvent)
        → node.batch ≡ es
        → (flush_some ch (recording sk) clock node es).batch ≡ []
    flush_some-batch clock node [] p = p
    flush_some-batch clock node (e ∷ es) p =
        published-batch clock node ((recording sk).publish node.batch node.sink)

    recovered-batch :
        (node : Watched ch sk) (answer : Result SinkError (Unit {0}) × Logging sk.State)
        → (recovered ch (recording sk) node answer).batch ≡ node.batch
    recovered-batch node (ok u, after) = refl
    recovered-batch node (err e, after) = refl

    recover_some-batch :
        (ids : ℕ → List ℕ) (node : Watched ch sk) (held : List DropWindow)
        → (recover_some ch (recording sk) ids node held).batch ≡ node.batch
    recover_some-batch ids node [] = refl
    recover_some-batch ids node (w ∷ ws) = recovered-batch node (
        (recording sk).publish (drop_events_of ch (recording sk) ids node.node_id node.held)
          node.sink)

    flush-batch :
        (clock : ℕ → ℤ) (ids : ℕ → List ℕ) (node : Watched ch sk)
        → (flush ch (recording sk) clock ids node).batch ≡ []
    unfolding flush_batch begin_recover end_recover
    flush-batch clock ids node =
        let flushed_node = flush_batch ch (recording sk) clock node in
        let begun = begin_recover ch (recording sk) flushed_node in
        recover_some-batch ids begun begun.held ∙ flush_some-batch clock node node.batch refl

    -- A batch that may wait for another round: none, or one that is not full. Nothing waits after the last.
    abbrev pub Leaves : Bool × Watched ch sk → Type 0
    Leaves (true, node) = (node.batch ≡ []) ⊎ (length node.batch < node.config.max_events)
    Leaves (false, node) = node.batch ≡ []

    flush_full-Leaves :
        (clock : ℕ → ℤ) (ids : ℕ → List ℕ) (node : Watched ch sk)
        → Leaves (true, flush_full ch (recording sk) clock ids node)
    flush_full-Leaves clock ids node =
        elim (Bool-cases (leb node.config.max_events (length node.batch))) [
          | inl t ↦ rw t (inl (flush-batch clock ids node))
          | inr f ↦ rw f (inr (not_full node.config.max_events (length node.batch) f))
        ]
      where
        not_full : (m n : ℕ) → leb m n ≡ false → n < m
        not_full m n f = ground arith

    on_got-Leaves :
        (clock : ℕ → ℤ) (ids : ℕ → List ℕ) (node : Watched ch sk) (answer : Got × ch.State)
        → Leaves (on_got ch (recording sk) clock ids node answer)
    on_got-Leaves clock ids node (got e, after) =
        let begun : Watched ch sk = record node { channel = after; batch = node.batch ++ e ∷ [] } in
        flush_full-Leaves clock ids
          (fill_batch ch (recording sk) (node.config.max_events - length begun.batch) begun)
    on_got-Leaves clock ids node (closed, after) =
        flush-batch clock ids (record node { channel = after })
    on_got-Leaves clock ids node (idle, after) =
        inl (flush-batch clock ids (record node { channel = after }))

    -- After a round of the loop of `run`, a node that has run and holds no windows has run in the
    -- same way, with the same events emitted, and holds no windows: so the steps of a run cover the
    -- loop. If the loop goes on, the batch is empty or has fewer than `max_events` events, and if
    -- it ends, the batch is empty. The channel gives what it took in its order.
    pub turn-Run :
        (es : List EmittedEvent) (clock : ℕ → ℤ) (ids : ℕ → List ℕ) (node : Watched ch sk)
        → Run ch sk q es node
        → node.held ≡ []
        → Run ch sk q es (turn ch (recording sk) clock ids node).1
          × ((turn ch (recording sk) clock ids node).1.held ≡ [])
          × Leaves (turn ch (recording sk) clock ids node)
    unfolding turn
    turn-Run es clock ids node r h =
        let (run, held) = on_got-Ran es clock ids node (ch.recv node.channel) refl (r, h) in
        (run, held, on_got-Leaves clock ids node (ch.recv node.channel))
