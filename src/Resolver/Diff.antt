-- ===== src/Resolver/Diff.antt =====
-- crates/ancre-resolver/src/diff.rs: what changed between two snapshots, and how much of a change it
-- is. `elapsed` is what the standard library says of the time since the snapshot was built, in
-- nanoseconds, and `none` where the clock is behind.
use ancre.Prelude.{
  ℕ, ◌/◌, ◌≡◌, refl, sym, ap, ◌∙◌, inl, inr, Bool-cases, Bool, true, false, not, ◌||◌, List, [],
  ◌∷◌, Option, none, some, Text, text, length, All, leb, if◌then◌else◌, ◌==◌, ==→eq, ==_refl, ℕ-Eq,
  List-Eq,
}
use ancre.Prelude.Sort.{sort_by}
use ancre.Prelude.TextOrder.{text_le}
use ancre.Prelude.Maps.{lookup}
use ancre.Types.Risk.{ChangeClass, minor, material, substantial, risk_class_discriminant}
use ancre.Config.{ConfigSnapshot, SystemConfig, Route}

-- `split('.').next()`
unfoldable pub major : Text → Text
major [] = []
major (c ∷ v) = let rest = major v in if c == 46 then [] else c ∷ rest

unfoldable pub any_differs : (Route → Text) → List Route → List Route → Bool
any_differs field [] bs = false
any_differs field (a ∷ rest) [] = false
any_differs field (a ∷ rest) (b ∷ bs) = not (field a == field b) || any_differs field rest bs

unfoldable pub routes_differ_on : SystemConfig → SystemConfig → (Route → Text) → Bool
routes_differ_on prev next field =
    not (length prev.routes == length next.routes) || any_differs field prev.routes next.routes

unfoldable pub classify_change : SystemConfig → SystemConfig → ChangeClass
classify_change prev next =
    if routes_differ_on prev next (λ r. r.model_id)
      || not (major prev.system_version == major next.system_version)
    then substantial
    else if not (prev.policy_version == next.policy_version)
        || routes_differ_on prev next (λ r. r.prompt_version)
    then material
    else minor

-- The fields that `changed_fields` compares, in its order: whether each moved, and its name.
abbrev pub compared_fields : SystemConfig → SystemConfig → List (Bool × Text)
compared_fields prev next =
    (routes_differ_on prev next (λ r. r.model_id), text "model_id")
    ∷ (routes_differ_on prev next (λ r. r.model_version), text "model_version")
    ∷ (routes_differ_on prev next (λ r. r.prompt_version), text "prompt_version")
    ∷ (not (prev.system_version == next.system_version), text "system_version")
    ∷ (not (prev.policy_version == next.policy_version), text "policy_version")
    ∷ (not (prev.ifu_version == next.ifu_version), text "ifu_version")
    ∷ (
      not (risk_class_discriminant prev.risk_class == risk_class_discriminant next.risk_class),
      text "risk_class",
    )
    ∷ (not (length prev.routes == length next.routes), text "routes")
    ∷ []

-- `push` under `if`, for each field.
unfoldable pub push_moved : List (Bool × Text) → List Text
push_moved [] = []
push_moved ((moved, name) ∷ rest) =
    let later = push_moved rest in if moved then name ∷ later else later

unfoldable pub changed_fields : SystemConfig → SystemConfig → List Text
changed_fields prev next = push_moved (compared_fields prev next)

pub record SystemChange : Type 0 where
  pub system_id : Text
  pub class : ChangeClass
  pub fields : List Text

pub record ReloadOutcome : Type 0 where
  pub from_generation : ℕ
  pub to_generation : ℕ
  pub propagation_ms : ℕ
  pub changes : List SystemChange
  pub systems_added : List Text
  pub systems_removed : List Text

-- ReloadOutcome's `propagation_ms`: a count that does not fit a `u32` is zero.
abbrev pub propagation_of : Option ℕ → ℕ
propagation_of none = 0
propagation_of (some elapsed) = if leb (elapsed / 1000000) 4294967295 then elapsed / 1000000 else 0

-- ReloadOutcome::first_snapshot
abbrev pub first_snapshot : Option ℕ → ConfigSnapshot → ReloadOutcome
first_snapshot elapsed next = record {
  from_generation = 0;
  to_generation = next.generation;
  propagation_ms = propagation_of elapsed;
  changes = [];
  systems_added = [];
  systems_removed = [];
}

abbrev pub change_of : Text → SystemConfig → SystemConfig → SystemChange
change_of id prev next = record {
  system_id = id;
  class = classify_change prev next;
  fields = changed_fields prev next;
}

abbrev pub is_empty {ℓ} : {A : Type ℓ} → List A → Bool
is_empty [] = true
is_empty (x ∷ xs) = false

-- The change that the loop of `diff` pushes for a system that both snapshots have.
unfoldable pub push_change :
    Text → SystemConfig → Option SystemConfig → List SystemChange → List SystemChange
push_change id next none rest = rest
push_change id next (some prev) rest =
    if is_empty (changed_fields prev next) then rest else change_of id prev next ∷ rest

-- The loop of `diff` over the systems of the next snapshot: the changes.
unfoldable pub changes_from :
    List (Text × SystemConfig) → List (Text × SystemConfig) → List SystemChange
changes_from prev [] = []
changes_from prev ((id, next) ∷ rest) =
    push_change id next (lookup id prev) (changes_from prev rest)

abbrev pub push_missing : Text → Option SystemConfig → List Text → List Text
push_missing id none rest = id ∷ rest
push_missing id (some s) rest = rest

-- The names of the systems of one map that another does not have.
unfoldable pub missing_from : List (Text × SystemConfig) → List (Text × SystemConfig) → List Text
missing_from there [] = []
missing_from there ((id, s) ∷ rest) = push_missing id (lookup id there) (missing_from there rest)

unfoldable pub diff : Option ℕ → ConfigSnapshot → ConfigSnapshot → ReloadOutcome
diff elapsed prev next = record {
  from_generation = prev.generation;
  to_generation = next.generation;
  propagation_ms = propagation_of elapsed;
  changes =
      sort_by (λ a b. text_le a.system_id b.system_id) (changes_from prev.systems next.systems);
  systems_added = sort_by text_le (missing_from prev.systems next.systems);
  systems_removed = sort_by text_le (missing_from next.systems prev.systems);
}

pub push_moved_none :
    (fields : List (Bool × Text)) → All (λ f. f.0 ≡ false) fields → push_moved fields ≡ []
unfolding push_moved
push_moved_none [] h = refl
push_moved_none ((moved, name) ∷ rest) (same, h) = rw (same) (push_moved_none rest h)

push_moved-nil :
    (fields : List (Bool × Text)) → push_moved fields ≡ [] → All (λ f. f.0 ≡ false) fields
unfolding push_moved
push_moved-nil [] h = tt
push_moved-nil ((true, name) ∷ rest) h = cc
push_moved-nil ((false, name) ∷ rest) h = (refl, push_moved-nil rest h)

major_same : (v w : Text) → not (v == w) ≡ false → not (major v == major w) ≡ false
major_same v w h = elim (Bool-cases (v == w)) [
  | inr f ↦ cc (rw f at h)
  | inl t ↦ ap not (ap (λ x. major v == major x) (sym (==→eq v w t)) ∙ ==_refl (major v))
]

-- A change of a system that the diff passes over, because none of the fields it compares moved, is
-- of the class minor: a substantial or a material change is always reported.
pub classify_change-changed_fields :
    (prev next : SystemConfig) → changed_fields prev next ≡ [] → classify_change prev next ≡ minor
unfolding changed_fields classify_change
classify_change-changed_fields prev next h =
    let (model, (m, (prompt, (system, (policy, r))))) =
      push_moved-nil (compared_fields prev next) h in
    rw (model, major_same prev.system_version next.system_version system, policy, prompt) refl
