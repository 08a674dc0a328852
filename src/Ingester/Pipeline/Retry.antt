-- ===== src/Ingester/Pipeline/Retry.antt =====
-- crates/ancre-ingester/src/sink.rs and pipeline.rs: the waits between the tries of an insertion, and
-- that a store which comes back in time is written to.
use ancre.Prelude.{
  ℕ, zero, suc, ◌+◌, ◌*◌, ◌%◌, ◌≤◌, ◌<◌, ◌≡◌, ap, ◌∙◌, List, Option, none, some, ok, err, arith,
  u64_mod,
}
use native.Mathlib.Nat.{pow-le-pow_right}
use ancre.Types.Event.{AuditEvent}
use ancre.Ingester.Sink.{EventStore, RetryPolicy, min_of, duration_max, delay_for}
use ancre.Ingester.Writer.{IngestError}
use ancre.Ingester.Pipeline.{IngestReport, insert_rounds, insert_with_retry, try_insert, Tried}

min_of_mono : (a b m : ℕ) → a ≤ b → min_of a m ≤ min_of b m
min_of_mono a b m h = ground arith

mul_mono : (n a b : ℕ) → a ≤ b → n * a ≤ n * b
mul_mono n a b h = grind arith

-- The waits never get shorter and never pass the longest one, however often an insertion has
-- failed.
pub delay_for_bounds :
    (p : RetryPolicy) (a b : ℕ)
    → a ≤ b
    → (delay_for p a ≤ delay_for p b) × (delay_for p b ≤ p.longest)
unfolding delay_for
delay_for_bounds p a b h = (
  min_of_mono _ _ p.longest (
      min_of_mono _ _ duration_max
        (mul_mono p.initial _ _ (pow-le-pow_right {n = 2} (omega arith) (min_of_mono a b 20 h)))),
  ground arith,
)

module _ (st : EventStore) where
  -- A store that refuses a batch a number of times and then takes it.
  pub data Recovers (batch : List AuditEvent) : ℕ → st.State → st.State → Type 0 where
    up :
        {s s' : st.State} (u : Unit {0}) → st.insert batch s ≡ (ok u, s') → Recovers batch zero s s'
    down :
        {k : ℕ} {s s' s'' : st.State} (e : IngestError)
        → st.insert batch s ≡ (err e, s')
        → Recovers batch k s' s''
        → Recovers batch (suc k) s s''

  insert_rounds-Recovers :
      (n : ℕ) (batch : List AuditEvent) (last : Option IngestError) (report : IngestReport) {k : ℕ}
      {s s' : st.State}
      → Recovers batch k s s'
      → k < n
      → report.retries + k < u64_mod
      → insert_rounds st n last batch report s
        ≡ (ok tt, record report { retries = report.retries + k }, s')
  unfolding insert_rounds
  insert_rounds-Recovers zero batch last report r lt fits = absurd (omega arith)
  insert_rounds-Recovers (suc n) batch last report {s' = s'} (up u q) lt fits =
      ap (try_insert st report (λ e. insert_rounds st n (some e) batch)) q
      ∙ ap (λ k. let t : Tried st = (ok tt, record report { retries = k }, s') in t) (omega arith)
  insert_rounds-Recovers (suc n) batch last report {k = suc k} {s' = s'} (down e q r) lt fits =
      let once : (report.retries + 1) % u64_mod ≡ report.retries + 1 = omega arith in
      ap (try_insert st report (λ e. insert_rounds st n (some e) batch)) q
      ∙ insert_rounds-Recovers n batch (some e)
          (record report { retries = (report.retries + 1) % u64_mod }) r (omega arith)
          (omega (arith, once))
      ∙ ap (λ k. let t : Tried st = (ok tt, record report { retries = k }, s') in t)
          (omega (arith, once))

  -- A store that comes back before the attempts are used up is written to: the insertion succeeds,
  -- and the report counts each refusal as one retry.
  pub insert_with_retry-Recovers :
      (p : RetryPolicy) (batch : List AuditEvent) (report : IngestReport) (s s' : st.State) (k : ℕ)
      → Recovers batch k s s'
      → k < p.attempts
      → report.retries + k < u64_mod
      → insert_with_retry st p batch report s
        ≡ (ok tt, record report { retries = report.retries + k }, s')
  unfolding insert_with_retry
  insert_with_retry-Recovers p batch report s s' k r lt fits =
      insert_rounds-Recovers p.attempts batch none report r lt fits
