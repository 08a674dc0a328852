-- ===== src/Examples/Config.antt =====
-- crates/ancre-types/src/config.rs and crates/ancre-resolver: the theorems on snapshots and on the
-- resolver, at a configuration of one system with one route and one key.
use ancre.Prelude.{
  ◌-◌, ◌≤◌, ◌≡◌, ◌≢◌, refl, true, false, [], ◌∷◌, none, some, Result, ok, err, Text, text, arith,
  list_eq,
}
use ancre.Prelude.Int.{pos}
use ancre.Canon.Hash.{Hash32, genesis, hash_bytes, hash_eq}
use ancre.Canon.Cbor.{Value, text_string, content_hash, encode, canonicalize, write_canonical}
use ancre.Types.Risk.{high, fails_closed_by_default}
use ancre.Types.Event.{Pins}
use ancre.Config.{
  Matcher, RouteSpec, SystemConfigSpec, KeyBindingSpec, SnapshotSpec, SnapshotContent,
  SnapshotEnvelope, ConfigSnapshot, IngressMeta, route_of, system_of, binding_of, seal_envelope,
  build, build_systems, build_keys, verify_envelope, install, matches, no_overrides,
}
use ancre.Config.Built.{IsSnapshot, install-eq-ok}
use ancre.Resolver.{
  PinResolver, cold_resolver, reload, default_policy, ResolveError, unknown_system, resolve,
  admitted, routed, freshness, admits, pins_of, first_match, risk_flags_of,
}
use ancre.Resolver.Served.{resolve_within_budget, resolve_total}
use ancre.Prelude.{ℕ-Eq, List-Eq}
use ancre.Prelude.Maps.{lookup}
use mathlib.Core.List.{Memᴰ}
use mathlib.Core.List.Memᴰ.{head}
use ancre.Types.Risk.{minor}
use ancre.Config.{SystemConfig}
use ancre.Resolver.Diff.{
  classify_change, changed_fields, change_of, diff, routes_differ_on, any_differs,
}
use ancre.Resolver.Reported.{diff-reported, redirected, changed_fields-redirected}
use ancre.Examples.Codec.{example_digest, example_order, example_ciborium, write_all}

abbrev pub key_hash : Hash32
key_hash = record { bytes = 7 ∷ [] }

abbrev pub one_route : RouteSpec
one_route = record {
  matcher = Matcher.any;
  model_id = text "gpt";
  model_version = text "1";
  prompt_id = text "p";
  prompt_version = text "2";
  prompt_hash = genesis;
}

abbrev pub one_system : SystemConfigSpec
one_system = record {
  system_id = text "hr";
  system_version = text "1";
  ifu_version = text "1";
  risk_class = high;
  policy_id = text "none";
  policy_version = text "none";
  routes = one_route ∷ [];
  default_route = 0;
}

abbrev pub one_key : KeyBindingSpec
one_key = record { key_hash = key_hash; tenant_id = text "acme"; system_id = text "hr" }

abbrev pub small_spec : SnapshotSpec
small_spec = record {
  generation = 41;
  gateway_version = text "g";
  systems = one_system ∷ [];
  keys = one_key ∷ [];
}

abbrev pub name_only : SnapshotContent → Result Text Value
name_only c = ok (text_string c.gateway_version)

abbrev pub small_hash : Hash32
small_hash = hash_bytes (write_all (text_string (text "g")))

abbrev pub small_envelope : SnapshotEnvelope
small_envelope = seal_envelope small_spec small_hash

abbrev pub small_snapshot : ConfigSnapshot
small_snapshot = record {
  generation = 41;
  content_hash = small_hash;
  built_at = pos 5;
  gateway_version = text "g";
  systems = (text "hr", system_of one_system) ∷ [];
  keys = (key_hash, binding_of one_key) ∷ [];
}

abbrev small_request : IngressMeta
small_request = record {
  path = text "/";
  model_alias = none;
  api_key_hash = key_hash;
  headers = [];
  overrides = record { model_version = none; prompt_version = none };
}

abbrev small_resolver : PinResolver
small_resolver = (reload 100 none small_snapshot (cold_resolver (pos 0) 50 default_policy)).0

abbrev small_pins : Pins
small_pins = pins_of small_snapshot (system_of one_system) (route_of one_route) false small_request

pub small_snapshot-IsSnapshot : IsSnapshot small_snapshot
unfolding list_eq
small_snapshot-IsSnapshot = ((omega arith, tt), (refl, tt))

small_install : install name_only (pos 5) small_envelope ≡ ok small_snapshot
unfolding install verify_envelope build content_hash encode canonicalize write_canonical hash_bytes
    hash_eq list_eq build_systems build_keys write_all
small_install = refl

small_resolve : resolve small_resolver 200 small_request ≡ some (ok small_pins)
unfolding resolve admitted routed freshness admits reload first_match matches pins_of no_overrides
    hash_eq list_eq risk_flags_of
small_resolve = refl

small_high : fails_closed_by_default small_pins.risk_class ≡ true
unfolding fails_closed_by_default pins_of
small_high = refl

install-eq-ok_example :
    (small_snapshot.generation ≡ small_envelope.generation)
    × (small_snapshot.content_hash ≡ small_envelope.content_hash)
    × IsSnapshot small_snapshot
install-eq-ok_example = install-eq-ok name_only (pos 5) small_envelope small_install

resolve_within_budget_example :
    200 - small_resolver.current.loaded_at ≤ small_resolver.policy.budget
unfolding reload
resolve_within_budget_example =
    resolve_within_budget small_resolver 200 small_request refl small_resolve small_high

resolve_total_example :
    (answer : Result ResolveError Pins) × (resolve small_resolver 200 small_request ≡ some answer)
    × (answer ≢ err (unknown_system (text "hr")))
unfolding reload
resolve_total_example =
    resolve_total small_resolver 200 small_request (text "hr") small_snapshot-IsSnapshot

abbrev pub swapped_system : SystemConfig
swapped_system = system_of (record {
  system_id = text "hr";
  system_version = text "1";
  ifu_version = text "1";
  risk_class = high;
  policy_id = text "none";
  policy_version = text "none";
  routes =
      record {
        matcher = Matcher.any;
        model_id = text "claude";
        model_version = text "1";
        prompt_id = text "p";
        prompt_version = text "2";
        prompt_hash = genesis;
      }
      ∷ [];
  default_route = 0;
})

abbrev pub next_snapshot : ConfigSnapshot
next_snapshot = record {
  generation = 42;
  content_hash = small_hash;
  built_at = pos 6;
  gateway_version = text "g";
  systems = (text "hr", swapped_system) ∷ [];
  keys = (key_hash, binding_of one_key) ∷ [];
}

found_before : lookup (text "hr") small_snapshot.systems ≡ some (system_of one_system)
unfolding list_eq
found_before = refl

swap-ne-minor : classify_change (system_of one_system) swapped_system ≢ minor
unfolding classify_change routes_differ_on any_differs list_eq
swap-ne-minor h = cc

diff-reported_example :
    Memᴰ
      (change_of (text "hr") (system_of one_system) swapped_system)
      (diff none small_snapshot next_snapshot).changes
diff-reported_example =
    diff-reported none small_snapshot next_snapshot (text "hr") (system_of one_system)
      swapped_system found_before (head refl) swap-ne-minor

changed_fields-redirected_example :
    (changed_fields (system_of one_system) (redirected (system_of one_system) 7) ≡ [])
    × (classify_change (system_of one_system) (redirected (system_of one_system) 7) ≡ minor)
changed_fields-redirected_example = changed_fields-redirected (system_of one_system) 7
