-- ===== src/Config/Built.antt =====
-- crates/ancre-types/src/config.rs: what a snapshot that was built, or installed from an envelope,
-- satisfies.
use ancre.Prelude.{
  ℕ, ◌<◌, ◌≡◌, sym, ap, subst, ◌∙◌, inl, inr, Bool-cases, true, false, List, [], ◌∷◌, Result, ok,
  >>=-eq-ok, ok_inj, Result-cases, Text, All, length, length-map, arith, leb, ==→eq, ◌==◌, ℕ-Eq,
  List-Eq,
}
use ancre.Prelude.Int.{ℤ}
use ancre.Prelude.Maps.{contains_key, insert, All-remove}
use ancre.Canon.Hash.{Hash32, Hash32-Eq, Digest}
use ancre.Canon.Cbor.{Value, KeyOrder, Ciborium, content_hash}
use ancre.Config.{
  SystemConfigSpec, SystemConfig, KeyBindingSpec, KeyBinding, ConfigSnapshot, SnapshotSpec,
  SnapshotContent, SnapshotEnvelope, content_view, snapshot_error, route_of, system_of, binding_of,
  build_systems, build_keys, build, verify_envelope, install,
}

-- The default route of a system is one of its routes.
abbrev pub HasDefault : SystemConfig → Type 0
HasDefault s = s.default_route < length s.routes

-- The system of a key binding is in the map.
abbrev pub IsBound : List (Text × SystemConfig) → KeyBinding → Type 0
IsBound systems k = contains_key k.system_id systems ≡ true

-- What the resolver relies on.
abbrev pub IsSnapshot : ConfigSnapshot → Type 0
IsSnapshot s = All (λ e. HasDefault e.1) s.systems × All (λ e. IsBound s.systems e.1) s.keys

leb→lt : (a b : ℕ) → leb a b ≡ false → b < a
leb→lt a b h = ground arith

system_of-HasDefault :
    (s : SystemConfigSpec)
    → leb (length s.routes) s.default_route ≡ false
    → HasDefault (system_of s)
system_of-HasDefault s h =
    subst (λ n. s.default_route < n) (sym (length-map s.routes route_of))
      (leb→lt (length s.routes) s.default_route h)

build_systems-HasDefault :
    (specs : List SystemConfigSpec) (systems : List (Text × SystemConfig))
    {out : List (Text × SystemConfig)}
    → All (λ e. HasDefault e.1) systems
    → build_systems specs systems ≡ ok out
    → All (λ e. HasDefault e.1) out
unfolding build_systems
build_systems-HasDefault [] systems a h = subst (All (λ e. HasDefault e.1)) (ok_inj h) a
build_systems-HasDefault (s ∷ rest) systems a h = elim (Bool-cases (leb (length s.routes) 0)) [
  | inl t ↦ cc (rw t at h)
  | inr n ↦ elim (Bool-cases (leb (length s.routes) s.default_route)) [
    | inl t ↦ cc (rw (n, t) at h)
    | inr d ↦ elim (Bool-cases (contains_key s.system_id systems)) [
      | inl t ↦ cc (rw (n, d, t) at h)
      | inr f ↦
          build_systems-HasDefault rest (insert s.system_id (system_of s) systems)
            (system_of-HasDefault s d, All-remove HasDefault s.system_id systems a)
            (rw (n, d, f) at h)
    ]
  ]
]

build_keys-IsBound :
    (systems : List (Text × SystemConfig)) (specs : List KeyBindingSpec)
    (keys : List (Hash32 × KeyBinding)) {out : List (Hash32 × KeyBinding)}
    → All (λ e. IsBound systems e.1) keys
    → build_keys systems specs keys ≡ ok out
    → All (λ e. IsBound systems e.1) out
unfolding build_keys
build_keys-IsBound systems [] keys a h = subst (All (λ e. IsBound systems e.1)) (ok_inj h) a
build_keys-IsBound systems (k ∷ rest) keys a h =
    elim (Bool-cases (contains_key k.system_id systems)) [
      | inr f ↦ cc (rw f at h)
      | inl b ↦ elim (Bool-cases (contains_key k.key_hash keys)) [
        | inl t ↦ cc (rw (b, t) at h)
        | inr f ↦
            build_keys-IsBound systems rest (insert k.key_hash (binding_of k) keys)
              (b, All-remove (IsBound systems) k.key_hash keys a) (rw (b, f) at h)
      ]
    ]

module _ ⦃o : KeyOrder⦄ ⦃c : Ciborium⦄ ⦃d : Digest⦄
    (serialized : SnapshotContent → Result Text Value) where
  -- A snapshot that `build` returns has, for each of its systems, a default route among the routes
  -- of the system, and for each of its key bindings the system that the key is bound to.
  pub build-IsSnapshot :
      (now : ℤ) (spec : SnapshotSpec) {snap : ConfigSnapshot}
      → build serialized now spec ≡ ok snap
      → IsSnapshot snap
  unfolding build
  build-IsSnapshot now spec h =
      elim (Result-cases (snapshot_error (content_hash serialized (content_view spec)))) [
        | inr (e, q) ↦ cc (rw q at h)
        | inl (hash, q) ↦ elim (Result-cases (build_systems spec.systems [])) [
          | inr (e, qs) ↦ cc (rw (q, qs) at h)
          | inl (systems, qs) ↦ elim (Result-cases (build_keys systems spec.keys [])) [
            | inr (e, qk) ↦ cc (rw (q, qs, qk) at h)
            | inl (keys, qk) ↦ subst IsSnapshot (ok_inj (rw (q, qs, qk) at h)) (
              build_systems-HasDefault spec.systems [] tt qs,
              build_keys-IsBound systems spec.keys [] tt qk,
            )
          ]
        ]
      ]

  build_stamps :
      (now : ℤ) (spec : SnapshotSpec) {snap : ConfigSnapshot}
      → build serialized now spec ≡ ok snap
      → (snap.generation ≡ spec.generation)
        × (snapshot_error (content_hash serialized (content_view spec)) ≡ ok snap.content_hash)
  unfolding build
  build_stamps now spec h =
      elim (Result-cases (snapshot_error (content_hash serialized (content_view spec)))) [
        | inr (e, q) ↦ cc (rw q at h)
        | inl (hash, q) ↦ elim (Result-cases (build_systems spec.systems [])) [
          | inr (e, qs) ↦ cc (rw (q, qs) at h)
          | inl (systems, qs) ↦ elim (Result-cases (build_keys systems spec.keys [])) [
            | inr (e, qk) ↦ cc (rw (q, qs, qk) at h)
            | inl (keys, qk) ↦
                let built = ok_inj (rw (q, qs, qk) at h) in
                (sym (ap (λ s. s.generation) built), q ∙ ap (λ s. ok s.content_hash) built)
          ]
        ]
      ]

  verify_envelope-eq-ok :
      (e : SnapshotEnvelope) {u : Unit {0}}
      → verify_envelope serialized e ≡ ok u
      → (e.spec.generation ≡ e.generation)
        × (snapshot_error (content_hash serialized (content_view e.spec)) ≡ ok e.content_hash)
  unfolding verify_envelope
  verify_envelope-eq-ok e h = elim (Bool-cases (e.spec.generation == e.generation)) [
    | inr f ↦ cc (rw f at h)
    | inl t ↦ elim (Result-cases (snapshot_error (content_hash serialized (content_view e.spec)))) [
      | inr (x, q) ↦ cc (rw (t, q) at h)
      | inl (hash, q) ↦ elim (Bool-cases (hash == e.content_hash)) [
        | inr f ↦ cc (rw (t, q, f) at h)
        | inl s ↦ (
          ==→eq e.spec.generation e.generation t,
          q ∙ ap (λ x. ok x) (==→eq hash e.content_hash s),
        )
      ]
    ]
  ]

  -- A snapshot that is installed from an envelope carries the generation and the content hash that
  -- the envelope states, and each of its systems has a default route among its routes, each of its
  -- keys a system.
  pub install-eq-ok :
      (now : ℤ) (e : SnapshotEnvelope) {snap : ConfigSnapshot}
      → install serialized now e ≡ ok snap
      → (snap.generation ≡ e.generation) × (snap.content_hash ≡ e.content_hash) × IsSnapshot snap
  unfolding install
  install-eq-ok now e h =
      let (u, checked, built) =
        >>=-eq-ok (verify_envelope serialized e) (λ u. build serialized now e.spec) h in
      let stated = verify_envelope-eq-ok e checked in
      let stamps = build_stamps now e.spec built in
      (stamps.0 ∙ stated.0, ok_inj (sym stamps.1 ∙ stated.1), build-IsSnapshot now e.spec built)
