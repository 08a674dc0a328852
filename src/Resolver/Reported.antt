-- ===== src/Resolver/Reported.antt =====
-- crates/ancre-resolver/src/diff.rs: which changes a reload reports, and which it does not.
use ancre.Prelude.{
  ℕ, ◌≡◌, ◌≢◌, refl, sym, ap, subst, ◌∙◌, inl, inr, false, not, List, [], ◌∷◌, Option, none, some,
  Text, length, List-cases, ==_refl, ℕ-Eq, List-Eq,
}
use mathlib.Core.List.{Memᴰ, Permᴰ}
use mathlib.Core.List.Memᴰ.{head, tail}
use mathlib.Core.List.Permᴰ.{nil, cons, swap, trans}
use ancre.Prelude.Sorted.{sort_by-perm}
use ancre.Prelude.TextOrder.{text_le}
use ancre.Prelude.Maps.{lookup}
use ancre.Types.Risk.{minor, risk_class_discriminant}
use ancre.Config.{ConfigSnapshot, SystemConfig, Route}
use ancre.Resolver.Diff.{
  SystemChange, any_differs, routes_differ_on, classify_change, changed_fields, change_of,
  push_change, changes_from, diff, push_moved_none, compared_fields, classify_change-changed_fields,
}

pub perm-mem {ℓ} : {A : Type ℓ} {a : A} {xs ys : List A} → Permᴰ xs ys → Memᴰ a xs → Memᴰ a ys
perm-mem nil m = m
perm-mem (cons e p) (head h) = head (h ∙ e)
perm-mem (cons e p) (tail m) = tail (perm-mem p m)
perm-mem (swap e f) (head h) = tail (head (h ∙ e))
perm-mem (swap e f) (tail (head h)) = head (h ∙ f)
perm-mem (swap e f) (tail (tail m)) = tail (tail m)
perm-mem (trans p q) m = perm-mem q (perm-mem p m)

push_change-mem :
    (id : Text) (next : SystemConfig) (prev : Option SystemConfig) (rest : List SystemChange)
    {c : SystemChange}
    → Memᴰ c rest
    → Memᴰ c (push_change id next prev rest)
unfolding push_change
push_change-mem id next none rest m = m
push_change-mem id next (some prev) rest m = elim (List-cases (changed_fields prev next)) [
  | inl e ↦ rw e m
  | inr (x, r, e) ↦ rw e (tail m)
]

push_change_new :
    (id : Text) (prev next : SystemConfig) (rest : List SystemChange)
    → classify_change prev next ≢ minor
    → Memᴰ (change_of id prev next) (push_change id next (some prev) rest)
unfolding push_change
push_change_new id prev next rest moved = elim (List-cases (changed_fields prev next)) [
  | inl e ↦ elim (moved (classify_change-changed_fields prev next e)) [ ]
  | inr (x, r, e) ↦ rw e (head refl)
]

changes_from-mem :
    (before after : List (Text × SystemConfig)) (id : Text) (prev next : SystemConfig)
    → lookup id before ≡ some prev
    → classify_change prev next ≢ minor
    → Memᴰ (id, next) after
    → Memᴰ (change_of id prev next) (changes_from before after)
unfolding changes_from
changes_from-mem before [] id prev next found moved m = elim m [ ]
changes_from-mem before ((k, s) ∷ rest) id prev next found moved (head h) =
    subst
      (λ e.
        Memᴰ (change_of id prev next)
          (push_change e.0 e.1 (lookup e.0 before) (changes_from before rest)))
      h
      (subst (λ o. Memᴰ (change_of id prev next) (push_change id next o (changes_from before rest)))
        (sym found) (push_change_new id prev next (changes_from before rest) moved))
changes_from-mem before ((k, s) ∷ rest) id prev next found moved (tail m) =
    push_change-mem k s (lookup k before) (changes_from before rest)
      (changes_from-mem before rest id prev next found moved m)

-- A system that both snapshots have and whose change is not minor is among the changes that the
-- reload reports, with that class and the fields that moved.
pub diff-reported :
    (elapsed : Option ℕ) (before after : ConfigSnapshot) (id : Text) (prev next : SystemConfig)
    → lookup id before.systems ≡ some prev
    → Memᴰ (id, next) after.systems
    → classify_change prev next ≢ minor
    → Memᴰ (change_of id prev next) (diff elapsed before after).changes
unfolding diff
diff-reported elapsed before after id prev next found there moved =
    perm-mem
      (sort_by-perm (λ (a b : SystemChange). text_le a.system_id b.system_id)
        (changes_from before.systems after.systems))
      (changes_from-mem before.systems after.systems id prev next found moved there)

-- The same system with another default route.
abbrev pub redirected : SystemConfig → ℕ → SystemConfig
redirected s d = record {
  system_id = s.system_id;
  system_version = s.system_version;
  ifu_version = s.ifu_version;
  risk_class = s.risk_class;
  policy_id = s.policy_id;
  policy_version = s.policy_version;
  routes = s.routes;
  default_route = d;
}

any_differs_same : (field : Route → Text) (rs : List Route) → any_differs field rs rs ≡ false
unfolding any_differs
any_differs_same field [] = refl
any_differs_same field (r ∷ rs) = rw (==_refl (field r), any_differs_same field rs) refl

routes_differ_on_same :
    (s : SystemConfig) (d : ℕ) (field : Route → Text)
    → routes_differ_on s (redirected s d) field ≡ false
unfolding routes_differ_on
routes_differ_on_same s d field =
    rw (==_refl (length s.routes), any_differs_same field s.routes) refl

-- Another default route alone is never reported: no field counts as moved, and the class of the
-- change is minor.
pub changed_fields-redirected :
    (s : SystemConfig) (d : ℕ)
    → (changed_fields s (redirected s d) ≡ []) × (classify_change s (redirected s d) ≡ minor)
unfolding changed_fields
changed_fields-redirected s d =
    let none_moved : changed_fields s (redirected s d) ≡ [] =
      push_moved_none (compared_fields s (redirected s d)) (
        routes_differ_on_same s d (λ r. r.model_id),
        (
          routes_differ_on_same s d (λ r. r.model_version),
          (
            routes_differ_on_same s d (λ r. r.prompt_version),
            (
              ap not (==_refl s.system_version),
              (
                ap not (==_refl s.policy_version),
                (
                  ap not (==_refl s.ifu_version),
                  (
                    ap not (==_refl (risk_class_discriminant s.risk_class)),
                    (ap not (==_refl (length s.routes)), tt),
                  ),
                ),
              ),
            ),
          ),
        ),
      ) in
    (none_moved, classify_change-changed_fields s (redirected s d) none_moved)
