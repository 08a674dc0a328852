-- ===== src/Gateway/ConfigFeed/Sound.antt =====
-- crates/ancre-gateway/src/config_feed.rs: a poll does not panic, keeps the snapshot of the node
-- well formed, and installs what is news to the node and nothing else.
use ancre.Prelude.{
  ℕ, suc, arith, ◌≡◌, ◌≢◌, ◌⊎◌, ◌&&◌, not, ◌==◌, Bool, true, false, if◌then◌else◌, refl, sym, ap,
  ◌∙◌, subst, inl, inr, List, [], ◌∷◌, ◌++◌, Option, none, some, Result, ok, err, Text, length,
  get_elem?-lt, Bool-cases, ℕ-Eq, List-Eq,
}
use ancre.Prelude.Int.{ℤ}
use ancre.Prelude.Maps.{lookup, All-lookup}
use ancre.Canon.Hash.{Digest}
use ancre.Canon.Cbor.{Value, KeyOrder, Ciborium}
use ancre.Types.Risk.{ChangeClass}
use ancre.Types.Event.{EmittedEvent, Pins}
use ancre.Chain.{ChainId}
use ancre.Config.{
  ConfigSnapshot, SystemConfig, SnapshotContent, SnapshotEnvelope, SnapshotError, install,
}
use ancre.Config.Built.{HasDefault, IsSnapshot, install-eq-ok}
use ancre.Resolver.{PinResolver, reload, confirm_fresh}
use ancre.Resolver.Diff.{ReloadOutcome}
use ancre.Gateway.ConfigFeed.{
  FeedError, refused, SnapshotSource, Applied, ConfigFeed, Clocks, Answer, is_quiet, class_of,
  or_else, with_route, with_pins, pins_of_change, applied_event, affected_chains, events_of,
  record_outcome, with_events, apply_installed, apply, is_current, on_fetched, poll_once,
}

-- The node has a snapshot of generation `n` from the control plane.
abbrev pub Has : ConfigFeed → ℕ → Type 0
Has feed n = (n ≡ feed.resolver.current.snap.generation) × (feed.resolver.current.cold ≡ false)

-- The generation `n` is not that of the node, or the node is cold.
abbrev pub Lacks : ConfigFeed → ℕ → Type 0
Lacks feed n = (n ≢ feed.resolver.current.snap.generation) ⊎ (feed.resolver.current.cold ≡ true)

module _ ⦃o : KeyOrder⦄ ⦃c : Ciborium⦄ ⦃d : Digest⦄
    (serialized : SnapshotContent → Result Text Value) where
  -- What a poll of `feed` leaves that `fetched` the first result and gives the second.
  pub data Polled (at : Clocks) (feed : ConfigFeed)
      : Result FeedError SnapshotEnvelope
        → Result FeedError (Option Applied)
        → ConfigFeed
        → Type 0 where
    failed : (e : FeedError) → Polled at feed (err e) (err e) feed
    confirmed :
        (e : SnapshotEnvelope) (after : ConfigFeed)
        → Has feed e.generation
        → after.sent ≡ feed.sent
        → after.resolver.current.snap ≡ feed.resolver.current.snap
        → after.resolver.current.loaded_at ≡ at.local
        → Polled at feed (ok e) (ok none) after
    rejected :
        (e : SnapshotEnvelope) (x : SnapshotError)
        → Lacks feed e.generation
        → install serialized at.wall e ≡ err x
        → Polled at feed (ok e) (err (refused x)) feed
    installed :
        (e : SnapshotEnvelope) (next : ConfigSnapshot) (a : Applied) (events : List EmittedEvent)
        (after : ConfigFeed)
        → Lacks feed e.generation
        → install serialized at.wall e ≡ ok next
        → after.resolver.current.snap ≡ next
        → after.resolver.current.loaded_at ≡ at.local
        → after.resolver.current.cold ≡ false
        → next.generation ≡ e.generation
        → a.generation ≡ e.generation
        → after.sent ≡ feed.sent ++ events
        → length events ≡ a.events
        → Polled at feed (ok e) (ok (some a)) after

  abbrev pub IsSound : Clocks → ConfigFeed → Result FeedError SnapshotEnvelope → Answer → Type 0
  IsSound at feed fetched answer =
      (r : Result FeedError (Option Applied)) × (after : ConfigFeed) × (answer ≡ some (r, after))
      × IsSnapshot after.resolver.current.snap
      × Polled at feed fetched r after

-- A system that has its default route, if there is one.
abbrev Routed : Option SystemConfig → Type 0
Routed none = Unit {0}
Routed (some s) = HasDefault s

Routed-lookup :
    (id : Text) (s : ConfigSnapshot) (o : Option SystemConfig)
    → IsSnapshot s
    → lookup id s.systems ≡ o
    → Routed o
Routed-lookup id s none h q = tt
Routed-lookup id s (some x) h q = All-lookup HasDefault id s.systems h.0 q

Routed-or_else : (a b : Option SystemConfig) → Routed a → Routed b → Routed (or_else a b)
Routed-or_else none b ha hb = hb
Routed-or_else (some a) b ha hb = ha

pins_of_change_total :
    (current : ConfigSnapshot) (class : Option ChangeClass) (o : Option SystemConfig)
    → Routed o
    → (pins : Pins) × (pins_of_change current class o ≡ some pins)
unfolding pins_of_change
pins_of_change_total current class none h = (_, refl)
pins_of_change_total current class (some s) h =
    let (route, found) = get_elem?-lt s.routes s.default_route h in
    (_, ap (with_route current class s) found)

events_of_total :
    (previous current : ConfigSnapshot) (outcome : ReloadOutcome) (wall : ℤ) (node_id : Text)
    (ids : ℕ → List ℕ) (cs : List ChainId)
    → IsSnapshot previous
    → IsSnapshot current
    → (events : List EmittedEvent) × (events_of previous current outcome wall node_id ids cs
        ≡ some events)
unfolding events_of
events_of_total previous current outcome wall node_id ids [] hp hc = ([], refl)
events_of_total previous current outcome wall node_id ids (c ∷ cs) hp hc =
    let (rest, all) =
      events_of_total previous current outcome wall node_id (λ n. ids (suc n)) cs hp hc in
    let class = class_of c.system_id outcome.changes in
    let system =
      or_else (lookup c.system_id current.systems) (lookup c.system_id previous.systems) in
    let (pins, found) = pins_of_change_total current class system (
      Routed-or_else (lookup c.system_id current.systems) (lookup c.system_id previous.systems)
        (Routed-lookup c.system_id current _ hc refl)
        (Routed-lookup c.system_id previous _ hp refl)) in
    let event = applied_event previous current outcome wall node_id (ids 0) c in
    (
      event pins ∷ rest,
      ap
            (λ o.
              with_pins event o
                (events_of previous current outcome wall node_id (λ n. ids (suc n)) cs))
            found
          ∙ ap (λ o. with_pins event (some pins) o) all,
    )

record_outcome_total :
    (wall : ℤ) (node_id : Text) (ids : ℕ → List ℕ) (previous current : ConfigSnapshot)
    (outcome : ReloadOutcome)
    → IsSnapshot previous
    → IsSnapshot current
    → (events : List EmittedEvent) × (record_outcome wall node_id ids previous current outcome
        ≡ some events)
unfolding record_outcome
record_outcome_total wall node_id ids previous current outcome hp hc =
    elim (Bool-cases (is_quiet outcome)) [
      | inl t ↦ ([], rw t refl)
      | inr f ↦ rw f (
          events_of_total previous current outcome wall node_id ids
            (affected_chains previous current outcome) hp hc)
    ]

-- `confirm_fresh` of a resolver that is cold or not.
abbrev restarted : Bool → ℕ → PinResolver → PinResolver
restarted b now r = if b then r else record {
  current = record { snap = r.current.snap; loaded_at = now; cold = false };
  policy = r.policy;
}

known_generation : (a b : ℕ) (cold : Bool) → (a == b && not cold) ≡ true → (a ≡ b) × (cold ≡ false)
known_generation a b true t = ground arith
known_generation a b false t = (ground arith, refl)

new_generation : (a b : ℕ) (cold : Bool) → (a == b && not cold) ≡ false → (a ≢ b) ⊎ (cold ≡ true)
new_generation a b true f = inr refl
new_generation a b false f = inl (ground arith)

module _ ⦃o : KeyOrder⦄ ⦃c : Ciborium⦄ ⦃d : Digest⦄
    (serialized : SnapshotContent → Result Text Value) where
  apply_installed-IsSound :
      (at : Clocks) (ids : ℕ → List ℕ) (e : SnapshotEnvelope) (feed : ConfigFeed)
      (made : Result SnapshotError ConfigSnapshot)
      → IsSnapshot feed.resolver.current.snap
      → Lacks feed e.generation
      → install serialized at.wall e ≡ made
      → IsSound serialized at feed (ok e) (apply_installed at ids e.generation feed made)
  unfolding apply_installed reload
  apply_installed-IsSound at ids e feed (err x) h news q = (_, feed, refl, h, rejected e x news q)
  apply_installed-IsSound at ids e feed (ok next) h news q =
      let (stamp, hash, valid) = install-eq-ok serialized at.wall e q in
      let moved = reload at.local at.elapsed next feed.resolver in
      let (events, all) =
        record_outcome_total at.wall feed.node_id ids feed.resolver.current.snap next moved.1 h
          valid in
      (
        _,
        record feed { resolver = moved.0; sent = feed.sent ++ events },
        ap (with_events e.generation moved.0 moved.1 feed) all,
        valid,
        installed e next _ events _ news q refl refl refl stamp refl refl refl,
      )

  confirmed-IsSound :
      (at : Clocks) (e : SnapshotEnvelope) (feed : ConfigFeed)
      → IsSnapshot feed.resolver.current.snap
      → Has feed e.generation
      → IsSound serialized at feed
          (ok e)
          (some (ok none, record feed { resolver = confirm_fresh at.local feed.resolver }))
  unfolding confirm_fresh
  confirmed-IsSound at e feed h has = (
    _,
    record feed { resolver = confirm_fresh at.local feed.resolver },
    refl,
    subst (λ b. IsSnapshot (restarted b at.local feed.resolver).current.snap) (sym has.1) h,
    confirmed e _ has refl (ap (λ b. (restarted b at.local feed.resolver).current.snap) has.1)
        (ap (λ b. (restarted b at.local feed.resolver).current.loaded_at) has.1),
  )

  on_fetched-IsSound :
      (at : Clocks) (ids : ℕ → List ℕ) (answer : Result FeedError SnapshotEnvelope)
      (feed : ConfigFeed)
      → IsSnapshot feed.resolver.current.snap
      → IsSound serialized at feed answer (on_fetched serialized at ids answer feed)
  unfolding on_fetched apply
  on_fetched-IsSound at ids (err e) feed h = (_, feed, refl, h, failed e)
  on_fetched-IsSound at ids (ok e) feed h =
      elim (Bool-cases (is_current serialized e feed.resolver)) [
        | inl t ↦ rw t (
            confirmed-IsSound at e feed h (
              known_generation e.generation feed.resolver.current.snap.generation
                feed.resolver.current.cold t))
        | inr f ↦ rw f (
            apply_installed-IsSound at ids e feed (install serialized at.wall e) h
              (new_generation e.generation feed.resolver.current.snap.generation
                feed.resolver.current.cold f)
              refl)
      ]

  -- A poll of a node whose snapshot is well formed does not panic, and the snapshot after it is
  -- well formed. If the fetch fails, the poll gives its error and leaves the node as it was. If the
  -- envelope fetched has the generation of the node, and the node is not cold, the poll installs
  -- nothing, emits nothing, keeps the snapshot and restarts its clock. Otherwise the poll installs
  -- the snapshot of the envelope, tells its generation and the number of events that it emits, and
  -- restarts the clock; or it gives the error with which the envelope is refused, and leaves the
  -- node as it was.
  pub poll_once-IsSound :
      (src : SnapshotSource) (at : Clocks) (ids : ℕ → List ℕ) (s : src.State) (feed : ConfigFeed)
      → IsSnapshot feed.resolver.current.snap
      → IsSound serialized at feed (src.fetch s).0 (poll_once serialized src at ids s feed).0
  poll_once-IsSound src at ids s feed h = on_fetched-IsSound at ids (src.fetch s).0 feed h
