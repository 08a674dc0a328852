-- ===== src/Gateway/Telemetry/Restored.antt =====
-- crates/ancre-gateway/src/telemetry.rs: windows that the bus did not take are put back beside
-- those recorded meanwhile.
use ancre.Prelude.{
  ◌+◌, ◌<◌, ◌≡◌, ◌⊎◌, refl, sym, ap, ◌∙◌, subst, inl, inr, true, false, [], ◌∷◌, Option, none, some,
  map, u64_mod, Bool-cases, ◌==◌, ==→eq, ==_refl, arith, if◌then◌else◌,
}
use ancre.Prelude.Int.{ℤ, pos, negsuc}
use ancre.Prelude.Maps.{lookup, insert, lookup_new, lookup_other}
use ancre.Chain.{ChainId}
use ancre.Ingester.Sink.{ChainId-Eq}
use ancre.Gateway.Telemetry.Drops.{
  Span, ChainSpans, DropCounter, window_of, take_windows, merge_span, restore_spans, restore,
  int_le,
}
use ancre.Gateway.Telemetry.Spans.{IsMap, count_of}

-- The drops of both spans, over the time of both.
pub record Joins (s t u : Span) : Type 0 where
  pub counted : u.count ≡ s.count + t.count
  pub begins_first : (int_le u.first s.first ≡ true) × (int_le u.first t.first ≡ true)
  pub begins_so : (u.first ≡ s.first) ⊎ (u.first ≡ t.first)
  pub ends_last : (int_le s.last u.last ≡ true) × (int_le t.last u.last ≡ true)
  pub ends_so : (u.last ≡ s.last) ⊎ (u.last ≡ t.last)

-- What a chain has after it had the first span, taken away, and then the second.
abbrev pub IsJoined : Option Span → Option Span → Option Span → Type 0
IsJoined none later now = now ≡ later
IsJoined (some s) none now = now ≡ some s
IsJoined (some s) (some t) now = (u : Span) × (now ≡ some u) × Joins s t u

int_le_refl : (a : ℤ) → int_le a a ≡ true
int_le_refl (pos n) = ground arith
int_le_refl (negsuc n) = ground arith

int_le_total : (a b : ℤ) → int_le a b ≡ false → int_le b a ≡ true
int_le_total (pos a) (pos b) f = ground arith
int_le_total (pos a) (negsuc b) f = refl
int_le_total (negsuc a) (pos b) f = cc f
int_le_total (negsuc a) (negsuc b) f = ground arith

-- The earlier of two times, and the later one.
earlier-Begins :
    (a b : ℤ)
    → let u = if int_le a b then a else b in
      (int_le u b ≡ true) × (int_le u a ≡ true) × ((u ≡ b) ⊎ (u ≡ a))
earlier-Begins a b = elim (Bool-cases (int_le a b)) [
  | inl t ↦ rw t (t, int_le_refl a, inr refl)
  | inr f ↦ rw f (int_le_refl b, int_le_total a b f, inl refl)
]

later-Ends :
    (a b : ℤ)
    → let u = if int_le a b then b else a in
      (int_le b u ≡ true) × (int_le a u ≡ true) × ((u ≡ b) ⊎ (u ≡ a))
later-Ends a b = elim (Bool-cases (int_le a b)) [
  | inl t ↦ rw t (int_le_refl b, t, inl refl)
  | inr f ↦ rw f (int_le_total a b f, int_le_refl a, inr refl)
]

merge_span-IsJoined :
    (c : ChainId) (s : Span) (later : Option Span)
    → s.count + count_of later < u64_mod
    → IsJoined (some s) later (some (merge_span (window_of (c, s)) later))
merge_span-IsJoined c s none lt = refl
merge_span-IsJoined c s (some t) lt =
    let begins = earlier-Begins t.first s.first in
    let ends = later-Ends t.last s.last in
    (
      _,
      refl,
      record {
        counted = omega (arith, lt);
        begins_first = (begins.0, begins.1);
        begins_so = begins.2;
        ends_last = (ends.0, ends.1);
        ends_so = ends.2;
      },
    )

restore_spans-IsJoined :
    (c : ChainId) (old m : ChainSpans)
    → IsMap old
    → count_of (lookup c old) + count_of (lookup c m) < u64_mod
    → IsJoined (lookup c old) (lookup c m) (lookup c (restore_spans (map window_of old) m))
unfolding restore_spans
restore_spans-IsJoined c [] m h lt = refl
restore_spans-IsJoined c ((k, s) ∷ old) m h lt =
    let merged = merge_span (window_of (k, s)) (lookup k m) in
    let next = insert k merged m in
    elim (Bool-cases (c == k)) [
      | inr f ↦
          let same : lookup c next ≡ lookup c m =
            lookup_other c k merged m
              (λ q. cc (sym f ∙ subst (λ x. (c == x) ≡ true) q (==_refl c))) in
          rw f (
            subst
              (λ o. IsJoined (lookup c old) o (lookup c (restore_spans (map window_of old) next)))
              same
              (restore_spans-IsJoined c old next h.1 (
                subst (λ o. count_of (lookup c old) + count_of o < u64_mod) (sym same)
                  (rw f at lt))))
      | inl t ↦
          let here : c ≡ k = ==→eq c k t in
          let gone : lookup c old ≡ none = ap (λ x. lookup x old) here ∙ h.0 in
          let found : lookup c next ≡ some merged =
            ap (λ x. lookup x next) here ∙ lookup_new k merged m in
          let small : s.count + count_of (lookup k m) < u64_mod =
            subst (λ x. s.count + count_of (lookup x m) < u64_mod) here (rw t at lt) in
          let rest : IsJoined (lookup c old) (lookup c next)
              (lookup c (restore_spans (map window_of old) next)) =
            restore_spans-IsJoined c old next h.1 (
              subst (λ n. count_of n + count_of (lookup c next) < u64_mod) (sym gone)
                (subst (λ n. 0 + count_of n < u64_mod) (sym found)
                  (omega (arith, merged-count k s (lookup k m) small)))) in
          let now : lookup c (restore_spans (map window_of old) next) ≡ some merged =
            subst
              (λ o. IsJoined o (lookup c next) (lookup c (restore_spans (map window_of old) next)))
              gone rest
            ∙ found in
          rw t (
            subst (λ o. IsJoined (some s) (lookup c m) o) (sym now)
              (subst (λ x. IsJoined (some s) (lookup x m) (some merged)) (sym here)
                (merge_span-IsJoined k s (lookup k m) small)))
    ]
  where
    merged-count :
        (k : ChainId) (s : Span) (o : Option Span)
        → s.count + count_of o < u64_mod
        → (merge_span (window_of (k, s)) o).count < u64_mod
    merged-count k s none lt = omega (arith, lt)
    merged-count k s (some t) lt = omega (arith, lt)

-- For every chain, taking the windows away and restoring them into the counter as it is then joins
-- its window with the one recorded meanwhile: the counts are added, below 2^64, and the window
-- reaches from the earlier beginning to the later end. A chain that has one of the two keeps it
-- unchanged, whatever number of chains there are. The windows taken are those of a hash map, each
-- chain once.
pub restore-take_windows :
    (c : ChainId) (drops later : DropCounter)
    → IsMap drops.windows
    → count_of (lookup c drops.windows) + count_of (lookup c later.windows) < u64_mod
    → IsJoined
        (lookup c drops.windows)
        (lookup c later.windows)
        (lookup c (restore (take_windows drops).0 later).windows)
unfolding restore take_windows
restore-take_windows c drops later h lt = restore_spans-IsJoined c drops.windows later.windows h lt
