-- ===== src/Ingester/Pipeline/Rewound.antt =====
-- crates/ancre-ingester/src/pipeline.rs: what `rewind` does to the writer of one chain.
use ancre.Prelude.{
  ℕ, ◌<◌, ◌≡◌, ◌≢◌, refl, ap, eq→==, sym, ◌∙◌, inl, inr, Bool-cases, List, [], ◌∷◌, Option, none,
  some, Bool, true, arith, ltb, ltb→lt, Eq-cases, ne→==, ℕ-Eq, List-Eq, subst,
}
use ancre.Prelude.Maps.{
  lookup, contains_key, remove_absent, lookup_new, lookup_other, contains_key_absent,
  lookup-contains_key, contains_key-lookup, contains_key-lookup-none, retain, retain_list,
  retain_list-All, All-retain_list, length-retain_list,
}
use ancre.Canon.Hash.{Hash32}
use ancre.Chain.{ChainId}
use ancre.Ingester.Sink.{ChainId-Eq}
use ancre.Ingester.Writer.{ChainWriter, rewind_to, forget_after}
use ancre.Ingester.Writer.Window.{IsWriter, Known, Distinct, All-map}
use ancre.Ingester.Pipeline.{Rollback, rewind_one, rewind_all, or_insert}

Distinct-retain_list :
    (keep : List ℕ → Bool) (xs : List (List ℕ)) → Distinct xs → Distinct (retain_list keep xs)
Distinct-retain_list keep [] h = tt
Distinct-retain_list keep (x ∷ xs) h = elim (Bool-cases (keep x)) [
  | inl t ↦ rw t (All-retain_list keep (λ y. x ≢ y) xs h.0, Distinct-retain_list keep xs h.1)
  | inr f ↦ rw f (Distinct-retain_list keep xs h.1)
]

-- A rewind keeps the memory of a writer in order, wherever it goes.
pub rewind_to-IsWriter :
    (n : ℕ) (head : Hash32) (w : ChainWriter) → IsWriter w → IsWriter (rewind_to n head w)
unfolding rewind_to forget_after
rewind_to-IsWriter n head w m =
    let early : List ℕ × ℕ → Bool = λ e. ltb e.1 n in
    let seen = retain (λ at. ltb at n) w.seen in
    let keep : List ℕ → Bool = λ id. contains_key id seen in
    record {
      bounded = omega (arith, m.bounded, length-retain_list keep w.seen_order);
      distinct = Distinct-retain_list keep w.seen_order m.distinct;
      known =
          All-map (λ id. keep id ≡ true) (Known seen) (retain_list keep w.seen_order)
            (λ id h. lookup-contains_key id seen h) (retain_list-All keep w.seen_order);
      behind =
          All-map (λ e. early e ≡ true) (λ (e : List ℕ × ℕ). e.1 < n) seen (λ e h. ltb→lt e.1 n h)
            (retain_list-All early w.seen);
    }

pub rewind_to-cursor :
    (n : ℕ) (head : Hash32) (w : ChainWriter)
    → ((rewind_to n head w).next_seq ≡ n) × ((rewind_to n head w).head_hash ≡ head)
unfolding rewind_to forget_after
rewind_to-cursor n head w = (refl, refl)

-- Each chain is noted once.
abbrev pub NotedOnce : Rollback → Type 0
NotedOnce [] = Unit {0}
NotedOnce ((k, at) ∷ rest) = (lookup k rest ≡ none) × NotedOnce rest

-- A writer after `rewind`, from what was noted for its chain.
abbrev pub rewound : Option (ℕ × Hash32) → Option ChainWriter → Option ChainWriter
rewound none w = w
rewound (some (n, head)) none = none
rewound (some (n, head)) (some w) = some (rewind_to n head w)

rewind_one-lookup :
    (c : ChainId) (at : ℕ × Hash32) (found : Option ChainWriter)
    (writers : List (ChainId × ChainWriter))
    → lookup c writers ≡ found
    → lookup c (rewind_one c at found writers) ≡ rewound (some at) found
rewind_one-lookup c (n, head) none writers h = h
rewind_one-lookup c (n, head) (some w) writers h = lookup_new c (rewind_to n head w) writers

rewind_one-other :
    (c k : ChainId) (at : ℕ × Hash32) (found : Option ChainWriter)
    (writers : List (ChainId × ChainWriter))
    → c ≢ k
    → lookup c (rewind_one k at found writers) ≡ lookup c writers
rewind_one-other c k (n, head) none writers ne = refl
rewind_one-other c k (n, head) (some w) writers ne =
    lookup_other c k (rewind_to n head w) writers ne

pub rewind_all-lookup :
    (c : ChainId) (noted : Rollback) (writers : List (ChainId × ChainWriter))
    → NotedOnce noted
    → lookup c (rewind_all noted writers) ≡ rewound (lookup c noted) (lookup c writers)
unfolding rewind_all
rewind_all-lookup c [] writers once = refl
rewind_all-lookup c ((k, at) ∷ rest) writers once =
    let later = rewind_all-lookup c rest (rewind_one k at (lookup k writers) writers) once.1 in
    elim (Eq-cases c k) [
      | inl same ↦
          let absent : lookup c rest ≡ none = subst (λ x. lookup x rest ≡ none) (sym same) once.0 in
          let one = rewind_one-lookup c at (lookup c writers) writers refl in
          rw (eq→== c k same) (
            later
            ∙ rw absent (
                subst
                  (λ x.
                    lookup c (rewind_one x at (lookup x writers) writers)
                    ≡ rewound (some at) (lookup c writers))
                  same one))
      | inr ne ↦ rw (ne→== c k ne) (
          later
          ∙ ap (rewound (lookup c rest)) (rewind_one-other c k at (lookup k writers) writers ne))
    ]

pub or_insert-NotedOnce :
    (k : ChainId) (at : ℕ × Hash32) (noted : Rollback)
    → NotedOnce noted
    → NotedOnce (or_insert k at noted)
or_insert-NotedOnce k at noted once = elim (Bool-cases (contains_key k noted)) [
  | inl t ↦ rw t once
  | inr f ↦
      let absent = contains_key-lookup-none k noted f in
      rw (f, remove_absent k noted absent) (absent, once)
]

pub or_insert-lookup-none :
    (k : ChainId) (at : ℕ × Hash32) (noted : Rollback)
    → lookup k noted ≡ none
    → lookup k (or_insert k at noted) ≡ some at
or_insert-lookup-none k at noted h = rw (contains_key_absent k noted h) (lookup_new k at noted)

pub or_insert-lookup-some :
    (k : ChainId) (at p : ℕ × Hash32) (noted : Rollback)
    → lookup k noted ≡ some p
    → lookup k (or_insert k at noted) ≡ some p
or_insert-lookup-some k at p noted h = rw (contains_key-lookup k noted h) h

pub or_insert-other :
    (c k : ChainId) (at : ℕ × Hash32) (noted : Rollback)
    → c ≢ k
    → lookup c (or_insert k at noted) ≡ lookup c noted
or_insert-other c k at noted ne = elim (Bool-cases (contains_key k noted)) [
  | inl t ↦ rw t refl
  | inr f ↦ rw f (lookup_other c k at noted ne)
]
