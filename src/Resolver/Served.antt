-- ===== src/Resolver/Served.antt =====
-- crates/ancre-resolver/src/lib.rs: when `resolve` serves a request, and with what pins.
use ancre.Prelude.{
  ℕ, ◌-◌, ◌≤◌, ◌≡◌, ◌≢◌, refl, subst, inl, inr, Bool-cases, Option-cases, true, false, some, Result,
  ok, err, ◌∙◌, ok_inj, err_inj, some_inj, Result-cases, Text, ltb, ltb→le, get_elem?, get_elem?-lt,
  ℕ-Eq, List-Eq, ap,
}
use ancre.Prelude.Maps.{lookup, lookup-contains_key, All-lookup}
use ancre.Canon.Hash.{Hash32-Eq}
use ancre.Types.Risk.{fails_closed_by_default}
use ancre.Types.Event.{Pins}
use ancre.Config.{SystemConfig, IngressMeta}
use ancre.Config.Built.{HasDefault, IsBound, IsSnapshot}
use ancre.Resolver.{
  Freshness, PinResolver, ResolveError, unknown_system, freshness, admits, is_stale, admitted,
  routed, resolve, pins_of, first_match,
}

-- The freshness of what a resolver has loaded.
abbrev loaded_freshness : PinResolver → ℕ → Freshness
loaded_freshness r now = freshness r.policy now r.current.loaded_at

-- What the checks of `resolve` have established about the system and the freshness.
abbrev Admitted : PinResolver → ℕ → SystemConfig × Freshness → Type 0
Admitted r now a =
    (r.current.cold ≡ false)
    × (a.1 ≡ loaded_freshness r now)
    × (admits r.policy a.1 a.0.risk_class ≡ true)
    × (id : Text) × (lookup id r.current.snap.systems ≡ some a.0)

admitted-eq-ok :
    (r : PinResolver) (now : ℕ) (req : IngressMeta) {a : SystemConfig × Freshness}
    → admitted r now req ≡ ok a
    → Admitted r now a
unfolding admitted
admitted-eq-ok r now req h = elim (Bool-cases r.current.cold) [
  | inl t ↦ cc (rw t at h)
  | inr c ↦ elim (Option-cases (lookup req.api_key_hash r.current.snap.keys)) [
    | inl n ↦ cc (rw (c, n) at h)
    | inr (b, qb) ↦ elim (Option-cases (lookup b.system_id r.current.snap.systems)) [
      | inl n ↦ cc (rw (c, qb, n) at h)
      | inr (s, qs) ↦ elim (Bool-cases (admits r.policy (loaded_freshness r now) s.risk_class)) [
        | inr f ↦ cc (rw (c, qb, qs, f) at h)
        | inl g ↦
            subst (Admitted r now) (ok_inj (rw (c, qb, qs, g) at h)) (c, refl, g, b.system_id, qs)
      ]
    ]
  ]
]

admitted-ne-unknown_system :
    (r : PinResolver) (now : ℕ) (req : IngressMeta) (id : Text)
    → IsSnapshot r.current.snap
    → admitted r now req ≢ err (unknown_system id)
unfolding admitted
admitted-ne-unknown_system r now req id valid h = elim (Bool-cases r.current.cold) [
  | inl t ↦ cc (rw t at h)
  | inr c ↦ elim (Option-cases (lookup req.api_key_hash r.current.snap.keys)) [
    | inl n ↦ cc (rw (c, n) at h)
    | inr (b, qb) ↦
        let bound =
          All-lookup (IsBound r.current.snap.systems) req.api_key_hash r.current.snap.keys valid.1
            qb in
        let (s, qs) = lookup-contains_key b.system_id r.current.snap.systems bound in
        elim (Bool-cases (admits r.policy (loaded_freshness r now) s.risk_class)) [
          | inr f ↦ cc (rw (c, qb, qs, f) at h)
          | inl g ↦ cc (rw (c, qb, qs, g) at h)
        ]
  ]
]

-- What the pins of a served request say of the resolver and the time.
abbrev pub ServedFrom : PinResolver → ℕ → Pins → Type 0
ServedFrom r now pins =
    (r.current.cold ≡ false)
    × (pins.config_generation ≡ r.current.snap.generation)
    × (pins.config_hash ≡ r.current.snap.content_hash)
    × (pins.resolved_stale ≡ is_stale (loaded_freshness r now))
    × (admits r.policy (loaded_freshness r now) pins.risk_class ≡ true)

-- A request that is served is served from a snapshot that was loaded. Its pins carry the generation
-- and the content hash of that snapshot, say whether the budget was exceeded, and the policy
-- admits their risk class in that state.
pub resolve-eq-ok :
    (r : PinResolver) (now : ℕ) (req : IngressMeta) {pins : Pins}
    → resolve r now req ≡ some (ok pins)
    → ServedFrom r now pins
unfolding resolve routed pins_of
resolve-eq-ok r now req h = elim (Result-cases (admitted r now req)) [
  | inr (e, q) ↦ cc (rw (resolve, q) at h)
  | inl ((s, f), q) ↦ elim (Option-cases (get_elem? s.routes s.default_route)) [
    | inl n ↦ cc (rw (resolve, q, routed, n) at h)
    | inr (d, qd) ↦
        let (c, on_time, served, id, found) = admitted-eq-ok r now req q in
        subst (ServedFrom r now) (ok_inj (some_inj (rw (resolve, q, routed, qd) at h))) (
          c,
          refl,
          refl,
          ap is_stale on_time,
          subst (λ x. admits r.policy x s.risk_class ≡ true) on_time served,
        )
  ]
]

-- With `fail_closed_on_stale` on, a request whose system fails closed is served only while the age
-- of what the node has loaded is within the budget.
pub resolve_within_budget :
    (r : PinResolver) (now : ℕ) (req : IngressMeta) {pins : Pins}
    → r.policy.fail_closed_on_stale ≡ true
    → resolve r now req ≡ some (ok pins)
    → fails_closed_by_default pins.risk_class ≡ true
    → now - r.current.loaded_at ≤ r.policy.budget
unfolding freshness admits
resolve_within_budget r now req {pins = pins} closed h high =
    let (c, g, hash, late, served) = resolve-eq-ok r now req h in
    elim (Bool-cases (ltb r.policy.budget (now - r.current.loaded_at))) [
      | inr f ↦ ltb→le r.policy.budget (now - r.current.loaded_at) f
      | inl t ↦ cc (rw (t, closed, high) at served)
    ]

-- On a snapshot whose systems have their default route and whose keys have their system, `resolve`
-- does not panic and does not answer that the system of a key is unknown.
pub resolve_total :
    (r : PinResolver) (now : ℕ) (req : IngressMeta) (id : Text)
    → IsSnapshot r.current.snap
    → (answer : Result ResolveError Pins) × (resolve r now req ≡ some answer)
      × (answer ≢ err (unknown_system id))
unfolding resolve routed
resolve_total r now req id valid = elim (Result-cases (admitted r now req)) [
  | inr (e, q) ↦ (
    err e,
    rw (resolve, q),
    λ same. admitted-ne-unknown_system r now req id valid (q ∙ ap (λ x. err x) (err_inj same)),
  )
  | inl ((s, f), q) ↦
      let (c, on_time, served, name, found) = admitted-eq-ok r now req q in
      let inside = All-lookup HasDefault name r.current.snap.systems valid.0 found in
      let (d, qd) = get_elem?-lt s.routes s.default_route inside in
      (
        ok (pins_of r.current.snap s (first_match s.routes req d) (is_stale f) req),
        rw (resolve, q, routed, qd),
        λ same. cc,
      )
]
