-- ===== src/Config.antt =====
-- crates/ancre-types/src/config.rs: configuration snapshots, their building, their envelope and the
-- matching of routes. The serde conversion of the hashed contents is a parameter.
pub mod Built
use ancre.Prelude.{
  ℕ, zero, suc, ◌+◌, Bool, true, false, not, ◌&&◌, ◌||◌, List, [], ◌∷◌, map, Option, none, some,
  Result, ok, err, ◌>>=◌, Text, length, leb, ltb, ◌==◌, ℕ-Eq, List-Eq, Option-Eq, if◌then◌else◌,
}
use ancre.Prelude.Int.{ℤ}
use ancre.Prelude.Sort.{sort_by}
use ancre.Prelude.TextOrder.{text_le}
use ancre.Prelude.Maps.{lookup, contains_key, insert}
use ancre.Canon.Hash.{Hash32, Hash32-Eq, Digest, genesis}
use ancre.Canon.Cbor.{Value, CanonError, KeyOrder, Ciborium, content_hash}
use ancre.Types.Risk.{RiskClass}

mutual
  pub data Matcher : Type 0 where
    any : Matcher
    path : Text → Matcher
    model_alias : Text → Matcher
    header : Text → Text → Matcher
    all : Matchers → Matcher

  pub data Matchers : Type 0 where
    no_more : Matchers
    and_also : Matcher → Matchers → Matchers

pub record PinOverrides : Type 0 where
  pub model_version : Option Text
  pub prompt_version : Option Text

abbrev pub is_none {ℓ} : {A : Type ℓ} → Option A → Bool
is_none none = true
is_none (some a) = false

-- PinOverrides::is_empty
unfoldable pub no_overrides : PinOverrides → Bool
no_overrides o = is_none o.model_version && is_none o.prompt_version

pub record IngressMeta : Type 0 where
  pub path : Text
  pub model_alias : Option Text
  pub api_key_hash : Hash32
  pub headers : List (Text × Text)
  pub overrides : PinOverrides

abbrev lowercase : ℕ → ℕ
lowercase c = if leb 65 c && leb c 90 then c + 32 else c

-- str::eq_ignore_ascii_case
abbrev pub eq_ignore_ascii_case : Text → Text → Bool
eq_ignore_ascii_case a b = map lowercase a == map lowercase b

unfoldable pub any_header : List (Text × Text) → Text → Text → Bool
any_header [] name value = false
any_header ((n, v) ∷ rest) name value =
    eq_ignore_ascii_case n name && v == value || any_header rest name value

-- Matcher::matches
unfoldable mutual
  pub matches : Matcher → IngressMeta → Bool
  matches any req = true
  matches (path p) req = req.path == p
  matches (model_alias m) req = req.model_alias == some m
  matches (header name value) req = any_header req.headers name value
  matches (all ms) req = all_match ms req

  pub all_match : Matchers → IngressMeta → Bool
  all_match no_more req = true
  all_match (and_also m ms) req = matches m req && all_match ms req

pub record RouteSpec : Type 0 where
  pub matcher : Matcher
  pub model_id : Text
  pub model_version : Text
  pub prompt_id : Text
  pub prompt_version : Text
  pub prompt_hash : Hash32

pub record SystemConfigSpec : Type 0 where
  pub system_id : Text
  pub system_version : Text
  pub ifu_version : Text
  pub risk_class : RiskClass
  pub policy_id : Text
  pub policy_version : Text
  pub routes : List RouteSpec
  pub default_route : ℕ

pub record KeyBindingSpec : Type 0 where
  pub key_hash : Hash32
  pub tenant_id : Text
  pub system_id : Text

pub record SnapshotSpec : Type 0 where
  pub generation : ℕ
  pub gateway_version : Text
  pub systems : List SystemConfigSpec
  pub keys : List KeyBindingSpec

pub record SnapshotContent : Type 0 where
  pub gateway_version : Text
  pub systems : List SystemConfigSpec
  pub keys : List KeyBindingSpec

-- SnapshotSpec::content_view
abbrev pub content_view : SnapshotSpec → SnapshotContent
content_view s = record { gateway_version = s.gateway_version; systems = s.systems; keys = s.keys }

pub data PromptRef : Type 0 where
  inline : Text → PromptRef
  lazy : Hash32 → PromptRef

-- PromptRef::hash
unfoldable pub prompt_hash : PromptRef → Option Hash32
prompt_hash (lazy h) = some h
prompt_hash (inline body) = none

pub record Route : Type 0 where
  pub matcher : Matcher
  pub model_id : Text
  pub model_version : Text
  pub prompt_id : Text
  pub prompt_version : Text
  pub prompt_body : PromptRef

pub record SystemConfig : Type 0 where
  pub system_id : Text
  pub system_version : Text
  pub ifu_version : Text
  pub risk_class : RiskClass
  pub policy_id : Text
  pub policy_version : Text
  pub routes : List Route
  pub default_route : ℕ

pub record KeyBinding : Type 0 where
  pub tenant_id : Text
  pub system_id : Text

-- `built_at` is the time of the control plane.
pub record ConfigSnapshot : Type 0 where
  pub generation : ℕ
  pub content_hash : Hash32
  pub built_at : ℤ
  pub gateway_version : Text
  pub systems : List (Text × SystemConfig)
  pub keys : List (Hash32 × KeyBinding)

-- ConfigSnapshot::empty
abbrev pub empty : ℤ → ConfigSnapshot
empty now = record {
  generation = 0;
  content_hash = genesis;
  built_at = now;
  gateway_version = [];
  systems = [];
  keys = [];
}

-- What the text of an envelope error says.
pub data Mismatch : Type 0 where
  generations : ℕ → ℕ → Mismatch
  content_hashes : Hash32 → Hash32 → Mismatch

pub data SnapshotError : Type 0 where
  bad_default_route no_routes duplicate_system key_binds_unknown_system : Text → SnapshotError
  duplicate_key : Hash32 → SnapshotError
  canon : CanonError → SnapshotError
  envelope_mismatch : Mismatch → SnapshotError

abbrev pub route_of : RouteSpec → Route
route_of r = record {
  matcher = r.matcher;
  model_id = r.model_id;
  model_version = r.model_version;
  prompt_id = r.prompt_id;
  prompt_version = r.prompt_version;
  prompt_body = lazy r.prompt_hash;
}

abbrev pub system_of : SystemConfigSpec → SystemConfig
system_of s = record {
  system_id = s.system_id;
  system_version = s.system_version;
  ifu_version = s.ifu_version;
  risk_class = s.risk_class;
  policy_id = s.policy_id;
  policy_version = s.policy_version;
  routes = map route_of s.routes;
  default_route = s.default_route;
}

-- The loop over the systems in `build`.
unfoldable pub build_systems :
    List SystemConfigSpec
    → List (Text × SystemConfig)
    → Result SnapshotError (List (Text × SystemConfig))
build_systems [] systems = ok systems
build_systems (s ∷ rest) systems =
    let others = build_systems rest (insert s.system_id (system_of s) systems) in
    if leb (length s.routes) 0
    then err (no_routes s.system_id)
    else if leb (length s.routes) s.default_route
    then err (bad_default_route s.system_id)
    else if contains_key s.system_id systems
    then err (duplicate_system s.system_id)
    else others

abbrev pub binding_of : KeyBindingSpec → KeyBinding
binding_of k = record { tenant_id = k.tenant_id; system_id = k.system_id }

-- The loop over the keys in `build`.
unfoldable pub build_keys :
    List (Text × SystemConfig)
    → List KeyBindingSpec
    → List (Hash32 × KeyBinding)
    → Result SnapshotError (List (Hash32 × KeyBinding))
build_keys systems [] keys = ok keys
build_keys systems (k ∷ rest) keys =
    let others = build_keys systems rest (insert k.key_hash (binding_of k) keys) in
    if not (contains_key k.system_id systems)
    then err (key_binds_unknown_system k.system_id)
    else if contains_key k.key_hash keys
    then err (duplicate_key k.key_hash)
    else others

abbrev pub snapshot_error {ℓ} : {A : Type ℓ} → Result CanonError A → Result SnapshotError A
snapshot_error (ok a) = ok a
snapshot_error (err e) = err (canon e)

pub record SnapshotEnvelope : Type 0 where
  pub generation : ℕ
  pub content_hash : Hash32
  pub spec : SnapshotSpec

-- SnapshotEnvelope::seal
abbrev pub seal_envelope : SnapshotSpec → Hash32 → SnapshotEnvelope
seal_envelope spec hash = record { generation = spec.generation; content_hash = hash; spec = spec }

module _ ⦃o : KeyOrder⦄ ⦃c : Ciborium⦄ ⦃d : Digest⦄
    (serialized : SnapshotContent → Result Text Value) where
  -- ConfigSnapshot::build
  unfoldable pub build : ℤ → SnapshotSpec → Result SnapshotError ConfigSnapshot
  build now spec = do
    hash ← snapshot_error (content_hash serialized (content_view spec))
    systems ← build_systems spec.systems []
    keys ← build_keys systems spec.keys []
    ok (record {
      generation = spec.generation;
      content_hash = hash;
      built_at = now;
      gateway_version = spec.gateway_version;
      systems = systems;
      keys = keys;
    })

  -- SnapshotEnvelope::seal_now
  unfoldable pub seal_now : SnapshotSpec → Result SnapshotError SnapshotEnvelope
  seal_now spec = do
    hash ← snapshot_error (content_hash serialized (content_view spec))
    ok (seal_envelope spec hash)

  -- SnapshotEnvelope::verify
  unfoldable pub verify_envelope : SnapshotEnvelope → Result SnapshotError (Unit {0})
  verify_envelope e =
      if not (e.spec.generation == e.generation)
      then err (envelope_mismatch (generations e.generation e.spec.generation))
      else do
        recomputed ← snapshot_error (content_hash serialized (content_view e.spec))
        if not (recomputed == e.content_hash)
            then err (envelope_mismatch (content_hashes e.content_hash recomputed))
            else ok tt

  -- SnapshotEnvelope::install
  unfoldable pub install : ℤ → SnapshotEnvelope → Result SnapshotError ConfigSnapshot
  install now e = do checked ← verify_envelope e; build now e.spec
