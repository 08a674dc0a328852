-- ===== src/Gateway/ConfigFeed.antt =====
-- crates/ancre-gateway/src/config_feed.rs: snapshots are fetched, verified, installed and recorded.
-- The control plane is an interface over a state, the clocks and fresh identifiers are arguments,
-- `none` is a panic, and the events handed to the telemetry fork are a list in the feed.

pub mod Sound
pub mod Affected
use ancre.Prelude.{
  ℕ, suc, ◌+◌, Bool, true, false, not, ◌&&◌, ◌||◌, List, [], ◌∷◌, ◌++◌, Option, none, some, Result,
  ok, err, Text, text, length, map, get_elem?, ◌==◌, ℕ-Eq, List-Eq, if◌then◌else◌,
}
use ancre.Prelude.Int.{ℤ}
use ancre.Prelude.Sort.{sort_by}
use ancre.Prelude.Maps.{lookup}
use ancre.Canon.Hash.{Digest}
use ancre.Canon.Cbor.{Value, KeyOrder, Ciborium}
use ancre.Types.Risk.{ChangeClass, minor, material, substantial, RiskFlag, substantial_candidate}
use ancre.Types.Event.{EmittedEvent, Pins, null_baseline, success, config_generation_applied}
use ancre.Chain.{ChainId}
use ancre.Config.{
  ConfigSnapshot, SystemConfig, Route, KeyBinding, SnapshotContent, SnapshotEnvelope, SnapshotError,
  install,
}
use ancre.Resolver.{PinResolver, reload, confirm_fresh}
use ancre.Resolver.Diff.{ReloadOutcome, SystemChange, is_empty}
use ancre.Ingester.Sink.{ChainId-Eq, chain_id_le}

pub data FeedError : Type 0 where
  unreachable : Text → FeedError
  refused : SnapshotError → FeedError

pub record SnapshotSource : Type 1 where
  pub State : Type 0
  pub fetch : State → Result FeedError SnapshotEnvelope × State

pub record Applied : Type 0 where
  pub generation : ℕ
  pub outcome : ReloadOutcome
  pub events : ℕ

-- `sent` are the events handed to the telemetry fork.
pub record ConfigFeed : Type 0 where
  pub resolver : PinResolver
  pub node_id : Text
  pub sent : List EmittedEvent

-- The clocks: the wall, the local one, and the time since the snapshot was built.
pub record Clocks : Type 0 where
  pub wall : ℤ
  pub local : ℕ
  pub elapsed : Option ℕ

-- ChangeClass::as_str
unfoldable pub change_class_str : ChangeClass → Text
change_class_str minor = text "minor"
change_class_str material = text "material"
change_class_str substantial = text "substantial"

-- ReloadOutcome::is_empty
abbrev pub is_quiet : ReloadOutcome → Bool
is_quiet o = is_empty o.changes && is_empty o.systems_added && is_empty o.systems_removed

-- The chain of a system of a binding.
abbrev pub chain_of_binding : KeyBinding → ChainId
chain_of_binding b = record { tenant_id = b.tenant_id; system_id = b.system_id }

abbrev pub has_chain : ChainId → List ChainId → Bool
has_chain c [] = false
has_chain c (x ∷ xs) = c == x || has_chain c xs

-- The inner loop of `affected_chains`, over the bindings.
unfoldable pub push_chains : Text → List KeyBinding → List ChainId → List ChainId
push_chains id [] out = out
push_chains id (b ∷ bs) out = push_chains id bs (
    if b.system_id == id && not (has_chain (chain_of_binding b) out)
    then out ++ chain_of_binding b ∷ []
    else out)

-- The outer loop of `affected_chains`, over the systems.
unfoldable pub chains_of_systems : List Text → List KeyBinding → List ChainId → List ChainId
chains_of_systems [] bs out = out
chains_of_systems (id ∷ ids) bs out = chains_of_systems ids bs (push_chains id bs out)

-- `bindings()`
abbrev pub bindings_of : ConfigSnapshot → List KeyBinding
bindings_of s = map (λ e. e.1) s.keys

-- The systems of an outcome.
abbrev pub systems_of : ReloadOutcome → List Text
systems_of o =
    map (λ (c : SystemChange). c.system_id) o.changes ++ (o.systems_added ++ o.systems_removed)

unfoldable pub affected_chains : ConfigSnapshot → ConfigSnapshot → ReloadOutcome → List ChainId
affected_chains previous current outcome =
    sort_by chain_id_le
      (chains_of_systems (systems_of outcome) (bindings_of current ++ bindings_of previous) [])

-- The class of the first change of a system.
abbrev pub class_of : Text → List SystemChange → Option ChangeClass
class_of id [] = none
class_of id (c ∷ cs) =
    let later = class_of id cs in if c.system_id == id then some c.class else later

abbrev pub class_flags : Option ChangeClass → List RiskFlag
class_flags none = []
class_flags (some minor) = []
class_flags (some material) = []
class_flags (some substantial) = substantial_candidate ∷ []

abbrev pub class_text : Option ChangeClass → Text
class_text none = text "none"
class_text (some c) = change_class_str c

abbrev pub or_else {ℓ} : {A : Type ℓ} → Option A → Option A → Option A
or_else none b = b
or_else (some a) b = some a

abbrev pub pins_of_system : ConfigSnapshot → Option ChangeClass → SystemConfig → Route → Pins
pins_of_system current class system route = record {
  config_generation = current.generation;
  config_hash = current.content_hash;
  system_id = system.system_id;
  system_version = system.system_version;
  ifu_version = system.ifu_version;
  model_id = route.model_id;
  model_version = route.model_version;
  prompt_id = route.prompt_id;
  prompt_version = route.prompt_version;
  policy_id = system.policy_id;
  policy_version = system.policy_version;
  gateway_version = current.gateway_version;
  risk_class = system.risk_class;
  resolved_stale = false;
  risk_flags = class_flags class;
}

abbrev pub with_route :
    ConfigSnapshot → Option ChangeClass → SystemConfig → Option Route → Option Pins
with_route current class system none = none
with_route current class system (some route) = some (pins_of_system current class system route)

-- The pins of a change: those of the default route of the system, which is indexed.
unfoldable pub pins_of_change :
    ConfigSnapshot → Option ChangeClass → Option SystemConfig → Option Pins
pins_of_change current class none = some null_baseline
pins_of_change current class (some system) =
    with_route current class system (get_elem? system.routes system.default_route)

unfoldable pub applied_event :
    ConfigSnapshot
    → ConfigSnapshot
    → ReloadOutcome
    → ℤ
    → Text
    → List ℕ
    → ChainId
    → Pins
    → EmittedEvent
applied_event previous current outcome wall node_id id c pins = record {
  tenant_id = c.tenant_id;
  system_id = c.system_id;
  event_id = id;
  trace_id = [];
  attempt_seq = 0;
  occurred_at = wall;
  node_id = node_id;
  event_type = config_generation_applied;
  outcome = success;
  pins = pins;
  request_digest = previous.content_hash;
  response_digest = current.content_hash;
  metrics = record {
    provider = [];
    http_status = 0;
    latency_ms = outcome.propagation_ms;
    ttft_ms = 0;
    tokens_in = 0;
    tokens_out = 0;
    error_code = class_text (class_of c.system_id outcome.changes);
  };
}

abbrev pub with_pins :
    (Pins → EmittedEvent) → Option Pins → Option (List EmittedEvent) → Option (List EmittedEvent)
with_pins event (some pins) (some rest) = some (event pins ∷ rest)
with_pins event _ _ = none

-- The loop of `record`
unfoldable pub events_of :
    ConfigSnapshot
    → ConfigSnapshot
    → ReloadOutcome
    → ℤ
    → Text
    → (ℕ → List ℕ)
    → List ChainId
    → Option (List EmittedEvent)
events_of previous current outcome wall node_id ids [] = some []
events_of previous current outcome wall node_id ids (c ∷ cs) =
    with_pins (applied_event previous current outcome wall node_id (ids 0) c)
      (pins_of_change current (class_of c.system_id outcome.changes)
        (or_else (lookup c.system_id current.systems) (lookup c.system_id previous.systems)))
      (events_of previous current outcome wall node_id (λ n. ids (suc n)) cs)

-- ConfigFeed::record, on the snapshot that is installed now
unfoldable pub record_outcome :
    ℤ
    → Text
    → (ℕ → List ℕ)
    → ConfigSnapshot
    → ConfigSnapshot
    → ReloadOutcome
    → Option (List EmittedEvent)
record_outcome wall node_id ids previous current outcome =
    if is_quiet outcome
    then some []
    else events_of previous current outcome wall node_id ids
        (affected_chains previous current outcome)

abbrev pub Answer : Type 0
Answer = Option (Result FeedError (Option Applied) × ConfigFeed)

abbrev pub with_events :
    ℕ → PinResolver → ReloadOutcome → ConfigFeed → Option (List EmittedEvent) → Answer
with_events generation r outcome feed none = none
with_events generation r outcome feed (some events) = some (
  ok (some (record { generation = generation; outcome = outcome; events = length events })),
  record feed { resolver = r; sent = feed.sent ++ events },
)

-- `apply` once the envelope is installed or refused.
unfoldable pub apply_installed :
    Clocks → (ℕ → List ℕ) → ℕ → ConfigFeed → Result SnapshotError ConfigSnapshot → Answer
apply_installed at ids generation feed (err e) = some (err (refused e), feed)
apply_installed at ids generation feed (ok next) =
    let (r, outcome) = reload at.local at.elapsed next feed.resolver in
    with_events generation r outcome feed
      (record_outcome at.wall feed.node_id ids feed.resolver.current.snap r.current.snap outcome)

module _ ⦃o : KeyOrder⦄ ⦃c : Ciborium⦄ ⦃d : Digest⦄
    (serialized : SnapshotContent → Result Text Value) where
  -- ConfigFeed::apply; what it gives is under `some`, as `poll_once` has it.
  unfoldable pub apply : Clocks → (ℕ → List ℕ) → SnapshotEnvelope → ConfigFeed → Answer
  apply at ids e feed = apply_installed at ids e.generation feed (install serialized at.wall e)

  abbrev pub is_current : SnapshotEnvelope → PinResolver → Bool
  is_current e r = e.generation == r.current.snap.generation && not r.current.cold

  -- `poll_once` on what was fetched.
  unfoldable pub on_fetched :
      Clocks → (ℕ → List ℕ) → Result FeedError SnapshotEnvelope → ConfigFeed → Answer
  on_fetched at ids (err e) feed = some (err e, feed)
  on_fetched at ids (ok e) feed =
      let applied = apply at ids e feed in
      if is_current e feed.resolver
      then some (ok none, record feed { resolver = confirm_fresh at.local feed.resolver })
      else applied

  -- ConfigFeed::poll_once
  abbrev pub poll_once :
      (src : SnapshotSource) → Clocks → (ℕ → List ℕ) → src.State → ConfigFeed → Answer × src.State
  poll_once src at ids s feed =
      let (answer, after) = src.fetch s in (on_fetched at ids answer feed, after)
