-- ===== src/Gateway/ConfigFeed/Affected.antt =====
-- crates/ancre-gateway/src/config_feed.rs: which chains a change of the configuration is recorded in.
use ancre.Prelude.{
  ◌≡◌, refl, sym, ap, ◌∙◌, subst, ◌⊎◌, ◌↔◌, inl, inr, true, not, ◌&&◌, List, [], ◌∷◌, ◌++◌, Text,
  Bool-cases, ◌==◌, ==→eq, ==_refl, ℕ-Eq, List-Eq, if◌then◌else◌,
}
use mathlib.Core.List.{Memᴰ}
use mathlib.Core.List.Memᴰ.{head, tail}
use ancre.Prelude.Sorted.{sort_by-perm}
use ancre.Prelude.Sort.{mem-perm}
use ancre.Chain.{ChainId}
use ancre.Config.{ConfigSnapshot, KeyBinding}
use ancre.Resolver.Diff.{ReloadOutcome}
use ancre.Resolver.Reported.{perm-mem}
use ancre.Ingester.Sink.{ChainId-Eq, chain_id_le}
use ancre.Gateway.ConfigFeed.{
  chain_of_binding, has_chain, push_chains, chains_of_systems, bindings_of, systems_of,
  affected_chains,
}

module _ {A : Type 0} where
  mem-append : (x : A) (xs ys : List A) → Memᴰ x (xs ++ ys) → Memᴰ x xs ⊎ Memᴰ x ys
  mem-append x [] ys m = inr m
  mem-append x (y ∷ xs) ys (head e) = inl (head e)
  mem-append x (y ∷ xs) ys (tail m) = elim (mem-append x xs ys m) [
    | inl a ↦ inl (tail a)
    | inr b ↦ inr b
  ]

  append-mem : (x : A) (xs ys : List A) → Memᴰ x xs → Memᴰ x (xs ++ ys)
  append-mem x [] ys m = elim m [ ]
  append-mem x (y ∷ xs) ys (head e) = head e
  append-mem x (y ∷ xs) ys (tail m) = tail (append-mem x xs ys m)

  mem_last : (x : A) (xs : List A) → Memᴰ x (xs ++ x ∷ [])
  mem_last x [] = head refl
  mem_last x (y ∷ xs) = tail (mem_last x xs)

has_chain-mem : (c : ChainId) (out : List ChainId) → has_chain c out ≡ true → Memᴰ c out
has_chain-mem c [] h = cc
has_chain-mem c (x ∷ xs) h = elim (Bool-cases (c == x)) [
  | inl t ↦ head (==→eq c x t)
  | inr f ↦ tail (has_chain-mem c xs (rw f at h))
]

-- A binding of a system gives a chain.
abbrev pub Gives : List KeyBinding → Text → ChainId → Type 0
Gives bs id c = (b : KeyBinding) × Memᴰ b bs × (b.system_id ≡ id) × (c ≡ chain_of_binding b)

-- One round of the inner loop.
abbrev pushed : Text → KeyBinding → List ChainId → List ChainId
pushed id b out =
    if b.system_id == id && not (has_chain (chain_of_binding b) out)
    then out ++ chain_of_binding b ∷ []
    else out

pushed-keeps :
    (id : Text) (b : KeyBinding) (out : List ChainId) (c : ChainId)
    → Memᴰ c out
    → Memᴰ c (pushed id b out)
pushed-keeps id b out c m =
    elim (Bool-cases (b.system_id == id && not (has_chain (chain_of_binding b) out))) [
      | inl t ↦ rw t (append-mem c out (chain_of_binding b ∷ []) m)
      | inr f ↦ rw f m
    ]

pushed-adds :
    (id : Text) (b : KeyBinding) (out : List ChainId)
    → b.system_id ≡ id
    → Memᴰ (chain_of_binding b) (pushed id b out)
pushed-adds id b out q =
    let same : (b.system_id == id) ≡ true =
      subst (λ x. (b.system_id == x) ≡ true) q (==_refl b.system_id) in
    elim (Bool-cases (has_chain (chain_of_binding b) out)) [
      | inl t ↦ rw (same, t) (has_chain-mem (chain_of_binding b) out t)
      | inr f ↦ rw (same, f) (mem_last (chain_of_binding b) out)
    ]

pushed-only :
    (id : Text) (b : KeyBinding) (out : List ChainId) (c : ChainId)
    → Memᴰ c (pushed id b out)
    → Memᴰ c out ⊎ ((b.system_id ≡ id) × (c ≡ chain_of_binding b))
pushed-only id b out c m = elim (Bool-cases (b.system_id == id)) [
  | inr f ↦ inl (rw f at m)
  | inl s ↦ elim (Bool-cases (has_chain (chain_of_binding b) out)) [
    | inl t ↦ inl (rw (s, t) at m)
    | inr f ↦ elim (mem-append c out (chain_of_binding b ∷ []) (rw (s, f) at m)) [
      | inl a ↦ inl a
      | inr (head e) ↦ inr (==→eq b.system_id id s, e)
      | inr (tail none_left) ↦ elim none_left [ ]
    ]
  ]
]

push_chains-keeps :
    (id : Text) (bs : List KeyBinding) (out : List ChainId) (c : ChainId)
    → Memᴰ c out
    → Memᴰ c (push_chains id bs out)
unfolding push_chains
push_chains-keeps id [] out c m = m
push_chains-keeps id (b ∷ bs) out c m =
    push_chains-keeps id bs (pushed id b out) c (pushed-keeps id b out c m)

push_chains-adds :
    (id : Text) (bs : List KeyBinding) (out : List ChainId) (b : KeyBinding)
    → Memᴰ b bs
    → b.system_id ≡ id
    → Memᴰ (chain_of_binding b) (push_chains id bs out)
unfolding push_chains
push_chains-adds id [] out b m q = elim m [ ]
push_chains-adds id (x ∷ bs) out b (head e) q = push_chains-keeps id bs (pushed id x out) _ (
    subst (λ y. Memᴰ (chain_of_binding y) (pushed id x out)) (sym e)
      (pushed-adds id x out (ap (λ y. y.system_id) (sym e) ∙ q)))
push_chains-adds id (x ∷ bs) out b (tail m) q = push_chains-adds id bs (pushed id x out) b m q

push_chains-only :
    (id : Text) (bs : List KeyBinding) (out : List ChainId) (c : ChainId)
    → Memᴰ c (push_chains id bs out)
    → Memᴰ c out ⊎ Gives bs id c
unfolding push_chains
push_chains-only id [] out c m = inl m
push_chains-only id (b ∷ bs) out c m = elim (push_chains-only id bs (pushed id b out) c m) [
  | inr (x, mx, q, e) ↦ inr (x, tail mx, q, e)
  | inl before ↦ elim (pushed-only id b out c before) [
    | inl old ↦ inl old
    | inr (q, e) ↦ inr (b, head refl, q, e)
  ]
]

module _ (bs : List KeyBinding) where
  chains_of_systems-keeps :
      (ids : List Text) (out : List ChainId) (c : ChainId)
      → Memᴰ c out
      → Memᴰ c (chains_of_systems ids bs out)
  unfolding chains_of_systems
  chains_of_systems-keeps [] out c m = m
  chains_of_systems-keeps (id ∷ ids) out c m =
      chains_of_systems-keeps ids (push_chains id bs out) c (push_chains-keeps id bs out c m)

  chains_of_systems-adds :
      (ids : List Text) (out : List ChainId) (b : KeyBinding)
      → Memᴰ b bs
      → Memᴰ b.system_id ids
      → Memᴰ (chain_of_binding b) (chains_of_systems ids bs out)
  unfolding chains_of_systems
  chains_of_systems-adds [] out b m mi = elim mi [ ]
  chains_of_systems-adds (id ∷ ids) out b m (head e) =
      chains_of_systems-keeps ids (push_chains id bs out) _ (push_chains-adds id bs out b m e)
  chains_of_systems-adds (id ∷ ids) out b m (tail mi) =
      chains_of_systems-adds ids (push_chains id bs out) b m mi

  chains_of_systems-only :
      (ids : List Text) (out : List ChainId) (c : ChainId)
      → Memᴰ c (chains_of_systems ids bs out)
      → Memᴰ c out ⊎ ((id : Text) × Memᴰ id ids × Gives bs id c)
  unfolding chains_of_systems
  chains_of_systems-only [] out c m = inl m
  chains_of_systems-only (id ∷ ids) out c m =
      elim (chains_of_systems-only ids (push_chains id bs out) c m) [
        | inr (i, mi, g) ↦ inr (i, tail mi, g)
        | inl before ↦ elim (push_chains-only id bs out c before) [
          | inl old ↦ inl old
          | inr g ↦ inr (id, head refl, g)
        ]
      ]

-- The chains in which a reload is recorded are those of the keys that are bound, before or after it, to a
-- system that was changed, added or removed, and no others.
pub affected_chains_iff :
    (previous current : ConfigSnapshot) (outcome : ReloadOutcome) (c : ChainId)
    → Memᴰ c (affected_chains previous current outcome) ↔ (
        (id : Text) × Memᴰ id (systems_of outcome)
        × Gives (bindings_of current ++ bindings_of previous) id c)
unfolding affected_chains
affected_chains_iff previous current outcome c =
    let bs = bindings_of current ++ bindings_of previous in
    let unsorted = chains_of_systems (systems_of outcome) bs [] in
    (
      λ m.
          elim (chains_of_systems-only bs (systems_of outcome) [] c
            (mem-perm chain_id_le (sort_by-perm chain_id_le unsorted) m)) [
              | inl nothing ↦ elim nothing [ ]
              | inr found ↦ found
            ],
      λ g.
          let (id, mi, given) = g in
          let (b, mb, q, e) = given in
          subst (λ x. Memᴰ x (affected_chains previous current outcome)) (sym e)
            (perm-mem (sort_by-perm chain_id_le unsorted) (
              chains_of_systems-adds bs (systems_of outcome) [] b mb
                (subst (λ i. Memᴰ i (systems_of outcome)) (sym q) mi))),
    )
