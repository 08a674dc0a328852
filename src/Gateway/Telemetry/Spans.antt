-- ===== src/Gateway/Telemetry/Spans.antt =====
-- crates/ancre-gateway/src/telemetry.rs: the counts of the drop windows, through recording, taking
-- and restoring.
use ancre.Prelude.{
  ℕ, ◌+◌, ◌≤◌, ◌<◌, ◌≡◌, ◌≢◌, refl, sym, ap, ◌∙◌, subst, inl, inr, true, false, List, [], ◌∷◌,
  Option, none, some, map, u64_mod, Bool-cases, ◌==◌, ==→eq, ==_refl, arith,
}
use ancre.Prelude.Int.{ℤ}
use ancre.Prelude.Maps.{lookup, remove, insert, remove_absent, lookup-remove}
use ancre.Chain.{ChainId}
use ancre.Ingester.Sink.{ChainId-Eq}
use ancre.Gateway.Telemetry.Drops.{
  Span, ChainSpans, DropWindow, window_of, touch, touch_span, merge_span, restore_spans,
}

-- A hash map has a key once.
abbrev pub IsMap : ChainSpans → Type 0
IsMap [] = Unit {0}
IsMap ((k, s) ∷ m) = (lookup k m ≡ none) × IsMap m

abbrev pub spans_sum : ChainSpans → ℕ
spans_sum [] = 0
spans_sum ((k, s) ∷ m) = s.count + spans_sum m

abbrev pub windows_sum : List DropWindow → ℕ
windows_sum [] = 0
windows_sum (w ∷ ws) = w.count + windows_sum ws

abbrev pub count_of : Option Span → ℕ
count_of none = 0
count_of (some s) = s.count

lookup_removed : (k : ChainId) (m : ChainSpans) → lookup k (remove k m) ≡ none
lookup_removed k [] = refl
lookup_removed k ((k', s) ∷ m) = elim (Bool-cases (k == k')) [
  | inl t ↦ rw t (lookup_removed k m)
  | inr f ↦ rw (f, f) (lookup_removed k m)
]

differs : (a b : ChainId) → (a == b) ≡ false → b ≢ a
differs a b f q = cc (sym f ∙ subst (λ x. (x == b) ≡ true) q (==_refl b))

remove-IsMap : (k : ChainId) (m : ChainSpans) → IsMap m → IsMap (remove k m)
remove-IsMap k [] h = tt
remove-IsMap k ((k', s) ∷ m) h = elim (Bool-cases (k == k')) [
  | inl t ↦ rw t (remove-IsMap k m h.1)
  | inr f ↦ rw f (lookup-remove k' k m (differs k k' f) ∙ h.0, remove-IsMap k m h.1)
]

insert-IsMap : (k : ChainId) (s : Span) (m : ChainSpans) → IsMap m → IsMap (insert k s m)
insert-IsMap k s m h = (lookup_removed k m, remove-IsMap k m h)

remove-sum :
    (k : ChainId) (m : ChainSpans)
    → IsMap m
    → spans_sum (remove k m) + count_of (lookup k m) ≡ spans_sum m
remove-sum k [] h = refl
remove-sum k ((k', s) ∷ m) h = elim (Bool-cases (k == k')) [
  | inr f ↦ rw f (omega (arith, remove-sum k m h.1))
  | inl t ↦
      let gone : remove k m ≡ m = remove_absent k m (ap (λ x. lookup x m) (==→eq k k' t) ∙ h.0) in
      rw t (omega (arith, ap spans_sum gone))
]

insert-sum :
    (k : ChainId) (s : Span) (m : ChainSpans)
    → IsMap m
    → spans_sum (insert k s m) + count_of (lookup k m) ≡ s.count + spans_sum m
insert-sum k s m h = omega (arith, remove-sum k m h)

touch_span-count :
    (now : ℤ) (o : Option Span)
    → count_of o + 1 < u64_mod
    → (touch_span now o).count ≡ count_of o + 1
touch_span-count now none lt = omega arith
touch_span-count now (some s) lt = omega arith

merge_span-count :
    (w : DropWindow) (o : Option Span)
    → count_of o + w.count < u64_mod
    → (merge_span w o).count ≡ count_of o + w.count
merge_span-count w none lt = omega arith
merge_span-count w (some s) lt = omega arith

lookup-sum : (k : ChainId) (m : ChainSpans) → IsMap m → count_of (lookup k m) ≤ spans_sum m
lookup-sum k m h = omega (arith, remove-sum k m h)

pub touch-sum :
    (now : ℤ) (k : ChainId) (m : ChainSpans)
    → IsMap m
    → spans_sum m + 1 < u64_mod
    → IsMap (touch now k m) × (spans_sum (touch now k m) ≡ spans_sum m + 1)
unfolding touch
touch-sum now k m h lt = (
  insert-IsMap k (touch_span now (lookup k m)) m h,
  omega (
    arith,
    insert-sum k (touch_span now (lookup k m)) m h,
    touch_span-count now (lookup k m) (omega (arith, lookup-sum k m h)),
  ),
)

pub window_of-sum : (m : ChainSpans) → windows_sum (map window_of m) ≡ spans_sum m
window_of-sum [] = refl
window_of-sum ((k, s) ∷ m) = ap (λ n. s.count + n) (window_of-sum m)

pub restore_spans-sum :
    (ws : List DropWindow) (m : ChainSpans)
    → IsMap m
    → windows_sum ws + spans_sum m < u64_mod
    → IsMap (restore_spans ws m) × (spans_sum (restore_spans ws m) ≡ windows_sum ws + spans_sum m)
unfolding restore_spans
restore_spans-sum [] m h lt = (h, omega arith)
restore_spans-sum (w ∷ ws) m h lt =
    let merged = merge_span w (lookup w.chain m) in
    let one : spans_sum (insert w.chain merged m) ≡ w.count + spans_sum m = omega (
      arith,
      insert-sum w.chain merged m h,
      merge_span-count w (lookup w.chain m) (omega (arith, lookup-sum w.chain m h)),
    ) in
    let (map_too, sums) =
      restore_spans-sum ws (insert w.chain merged m) (insert-IsMap w.chain merged m h)
        (omega (arith, one)) in
    (map_too, omega (arith, one, sums))
