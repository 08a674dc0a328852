-- ===== src/Chain/Verify/Findings.antt =====
-- crates/ancre-chain/src/verify.rs: the report as a function of the range. The walk is anchored
-- anew on each event, so what it finds at an event depends on that event and the one before it.
use mathlib.Core.List.{append_assoc, append-nil}
use ancre.Prelude.{
  ℕ, ◌+◌, ◌%◌, ◌≡◌, refl, sym, ap, ◌∙◌, List, [], ◌∷◌, ◌++◌, map, Option, none, some, arith, length,
  u64_mod, ℕ-Eq,
}
use ancre.Canon.Hash.{Hash32, Digest}
use ancre.Canon.Tree.{tree_root}
use ancre.Canon.Cbor.{KeyOrder, Ciborium}
use ancre.Types.Event.{AuditEvent}
use ancre.Chain.Verify.{
  Violation, Walk, position, link, contents, check_event, check_all, start, verify_range,
}

abbrev pub hashes : List AuditEvent → List Hash32
hashes = map (λ e. e.event_hash)

-- The hash that the next event has to point back to.
abbrev pub head_after : Hash32 → List AuditEvent → Hash32
head_after prev [] = prev
head_after prev (e ∷ es) = head_after e.event_hash es

-- The sequence number that the next event has to follow.
abbrev pub last_after : Option ℕ → List AuditEvent → Option ℕ
last_after last [] = last
last_after last (e ∷ es) = last_after (some e.seq) es

module _ ⦃d : Digest⦄ ⦃o : KeyOrder⦄ ⦃c : Ciborium⦄ where
  abbrev pub found_at : Hash32 → Option ℕ → AuditEvent → List Violation
  found_at prev last e = position last e.seq ++ (link prev e ++ contents e)

  -- What the walk finds in a range.
  unfoldable pub findings : Hash32 → Option ℕ → List AuditEvent → List Violation
  findings prev last [] = []
  findings prev last (e ∷ es) = found_at prev last e ++ findings e.event_hash (some e.seq) es

  check_all-violations :
      (w : Walk) (es : List AuditEvent)
      → (check_all w es).report.violations
        ≡ w.report.violations ++ findings w.expected w.last_seq es
  unfolding check_all findings
  check_all-violations w [] = sym (append-nil w.report.violations)
  check_all-violations w (e ∷ es) =
      check_all-violations (check_event w e) es
      ∙ unfold check_event in append_assoc w.report.violations _ _

  check_all-leaves :
      (w : Walk) (es : List AuditEvent) → (check_all w es).leaves ≡ w.leaves ++ hashes es
  unfolding check_all
  check_all-leaves w [] = sym (append-nil w.leaves)
  check_all-leaves w (e ∷ es) =
      check_all-leaves (check_event w e) es ∙ unfold check_event in append_assoc w.leaves _ _

  check_all-head :
      (w : Walk) (es : List AuditEvent)
      → w.report.head_hash ≡ w.expected
      → (check_all w es).report.head_hash ≡ head_after w.expected es
  unfolding check_all check_event
  check_all-head w [] h = h
  check_all-head w (e ∷ es) h = check_all-head (check_event w e) es refl

  check_all-count :
      (w : Walk) (es : List AuditEvent)
      → w.report.events_checked % u64_mod ≡ w.report.events_checked
      → (check_all w es).report.events_checked ≡ (w.report.events_checked + length es) % u64_mod
  unfolding check_all check_event
  check_all-count w [] h = ground arith
  check_all-count w (e ∷ es) h = omega (arith, check_all-count (check_event w e) es (omega arith))

  -- The report of a range: every finding at every event, in order; the number of events, as a
  -- `u64`; the last event's hash; and the root of the tree over the hashes that the events carry.
  pub verify_range_lem :
      (es : List AuditEvent) (prev : Hash32)
      → let r = verify_range es prev in
        (r.violations ≡ findings prev none es)
        × (r.events_checked ≡ length es % u64_mod)
        × (r.head_hash ≡ head_after prev es)
        × (r.root_hash ≡ tree_root (hashes es))
  unfolding verify_range
  verify_range_lem es prev = (
    check_all-violations (start prev) es,
    check_all-count (start prev) es refl ∙ ap (λ (n : ℕ). n % u64_mod) (omega arith),
    check_all-head (start prev) es refl,
    ap tree_root (check_all-leaves (start prev) es),
  )

  -- The findings in two ranges, one after the other.
  pub findings-append :
      (prev : Hash32) (last : Option ℕ) (xs ys : List AuditEvent)
      → findings prev last (xs ++ ys)
        ≡ findings prev last xs ++ findings (head_after prev xs) (last_after last xs) ys
  unfolding findings
  findings-append prev last [] ys = refl
  findings-append prev last (x ∷ xs) ys =
      ap (◌++◌ (found_at prev last x)) (findings-append x.event_hash (some x.seq) xs ys)
      ∙ sym (append_assoc (found_at prev last x) _ _)
