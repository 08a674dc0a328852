-- ===== src/Resolver.antt =====
-- crates/ancre-resolver/src/lib.rs and staleness.rs: the resolver of a request to its pins. The
-- snapshot that is read is part of the state, the local monotonic clock is an argument in
-- nanoseconds. The prompt cache is left out.
pub mod Served
pub mod Diff
pub mod Reported
use ancre.Prelude.{
  ℕ, ◌-◌, Bool, true, false, not, ◌&&◌, List, [], ◌∷◌, ◌++◌, Option, none, some, Result, ok, err,
  ◌>>=◌, ok_or, Text, ltb, get_elem?, if◌then◌else◌, ℕ-Eq, List-Eq,
}
use ancre.Prelude.Int.{ℤ}
use ancre.Prelude.Maps.{lookup}
use ancre.Canon.Hash.{Hash32-Eq}
use ancre.Types.Risk.{RiskClass, RiskFlag, stale_config, pin_overridden, fails_closed_by_default}
use ancre.Types.Event.{Pins}
use ancre.Resolver.Diff.{ReloadOutcome, first_snapshot, diff}
use ancre.Config.{
  ConfigSnapshot, SystemConfig, Route, KeyBinding, IngressMeta, matches, no_overrides, empty,
}

pub data Freshness : Type 0 where
  fresh stale cold_start : Freshness

-- The budget is in nanoseconds.
pub record StalenessPolicy : Type 0 where
  pub budget : ℕ
  pub fail_closed_on_stale : Bool

-- DEFAULT_STALENESS_BUDGET
abbrev pub default_staleness_budget : ℕ
default_staleness_budget = 30000000000

-- StalenessPolicy::default
abbrev pub default_policy : StalenessPolicy
default_policy = record { budget = default_staleness_budget; fail_closed_on_stale = true }

-- StalenessPolicy::freshness. `Instant::elapsed` is zero for an instant that is still to come.
unfoldable pub freshness : StalenessPolicy → ℕ → ℕ → Freshness
freshness p now loaded_at = if ltb p.budget (now - loaded_at) then stale else fresh

-- StalenessPolicy::admits
unfoldable pub admits : StalenessPolicy → Freshness → RiskClass → Bool
admits p fresh risk = true
admits p cold_start risk = false
admits p stale risk = not (p.fail_closed_on_stale && fails_closed_by_default risk)

abbrev pub is_stale : Freshness → Bool
is_stale stale = true
is_stale _ = false

pub record Loaded : Type 0 where
  pub snap : ConfigSnapshot
  pub loaded_at : ℕ
  pub cold : Bool

pub record PinResolver : Type 0 where
  pub current : Loaded
  pub policy : StalenessPolicy

pub data ResolveError : Type 0 where
  unknown_key : ResolveError
  unknown_system : Text → ResolveError
  stale_config_fail_closed : ℕ → ResolveError
  not_loaded : ResolveError

-- ResolveError::http_status
unfoldable pub http_status : ResolveError → ℕ
http_status unknown_key = 401
http_status (unknown_system id) = 500
http_status (stale_config_fail_closed generation) = 503
http_status not_loaded = 503

-- PinResolver::cold. The first argument is the wall clock, the second the local one.
abbrev pub cold_resolver : ℤ → ℕ → StalenessPolicy → PinResolver
cold_resolver wall now policy = record {
  current = record { snap = empty wall; loaded_at = now; cold = true };
  policy = policy;
}

-- PinResolver::reload. `elapsed` is the time since the next snapshot was built.
unfoldable pub reload : ℕ → Option ℕ → ConfigSnapshot → PinResolver → PinResolver × ReloadOutcome
reload now elapsed next r = (
  record { current = record { snap = next; loaded_at = now; cold = false }; policy = r.policy },
  if r.current.cold then first_snapshot elapsed next else diff elapsed r.current.snap next,
)

-- PinResolver::confirm_fresh
unfoldable pub confirm_fresh : ℕ → PinResolver → PinResolver
confirm_fresh now r = if r.current.cold then r else record {
  current = record { snap = r.current.snap; loaded_at = now; cold = false };
  policy = r.policy;
}

-- PinResolver::freshness
unfoldable pub resolver_freshness : ℕ → PinResolver → Freshness
resolver_freshness now r =
    if r.current.cold then cold_start else freshness r.policy now r.current.loaded_at

-- The part of `resolve` up to the check of staleness: the system and the freshness.
unfoldable pub admitted :
    PinResolver → ℕ → IngressMeta → Result ResolveError (SystemConfig × Freshness)
admitted r now req = if r.current.cold then err not_loaded else do
  binding ← ok_or (lookup req.api_key_hash r.current.snap.keys) unknown_key
  system ←
      ok_or (lookup binding.system_id r.current.snap.systems) (unknown_system binding.system_id)
  let f = freshness r.policy now r.current.loaded_at
  if not (admits r.policy f system.risk_class)
      then err (stale_config_fail_closed r.current.snap.generation)
      else ok (system, f)

-- `routes.iter().find(…).unwrap_or(default)`
unfoldable pub first_match : List Route → IngressMeta → Route → Route
first_match [] req default = default
first_match (route ∷ rest) req default =
    let later = first_match rest req default in if matches route.matcher req then route else later

unfoldable pub risk_flags_of : Bool → Bool → List RiskFlag
risk_flags_of late overridden =
    (if late then stale_config ∷ [] else []) ++ (if overridden then pin_overridden ∷ [] else [])

abbrev pub override_or {ℓ} : {A : Type ℓ} → Option A → A → A
override_or none a = a
override_or (some b) a = b

-- The pins at the end of `resolve`.
unfoldable pub pins_of : ConfigSnapshot → SystemConfig → Route → Bool → IngressMeta → Pins
pins_of snap system route late req = record {
  config_generation = snap.generation;
  config_hash = snap.content_hash;
  system_id = system.system_id;
  system_version = system.system_version;
  ifu_version = system.ifu_version;
  model_id = route.model_id;
  model_version = override_or req.overrides.model_version route.model_version;
  prompt_id = route.prompt_id;
  prompt_version = override_or req.overrides.prompt_version route.prompt_version;
  policy_id = system.policy_id;
  policy_version = system.policy_version;
  gateway_version = snap.gateway_version;
  risk_class = system.risk_class;
  resolved_stale = late;
  risk_flags = risk_flags_of late (not (no_overrides req.overrides));
}

-- From the route on. `none` is the panic of `routes[default_route]`, an argument that is evaluated
-- whether or not a route matches.
unfoldable pub routed :
    ConfigSnapshot → IngressMeta → SystemConfig × Freshness → Option (Result ResolveError Pins)
routed snap req (system, f) = elim (get_elem? system.routes system.default_route) [
  | none ↦ none
  | some default ↦
      some (ok (pins_of snap system (first_match system.routes req default) (is_stale f) req))
]

-- PinResolver::resolve
unfoldable pub resolve : PinResolver → ℕ → IngressMeta → Option (Result ResolveError Pins)
resolve r now req = elim (admitted r now req) [
  | err e ↦ some (err e)
  | ok a ↦ routed r.current.snap req a
]
