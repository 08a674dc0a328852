-- ===== src/Ingester/Pipeline/Looped.antt =====
-- crates/ancre-ingester/src/pipeline.rs: the loop of `ingest` keeps track of one chain, whatever the
-- store answers and whatever the events of the other chains are.
use ancre.Prelude.{
  ℕ, ◌+◌, ◌≤◌, ◌<◌, ◌≡◌, refl, sym, ap, ◌∙◌, subst, inl, inr, List, [], ◌∷◌, ◌++◌, Option, none,
  some, Result, ok, err, length, length-append, arith, u64_mod, Eq-cases,
}
use ancre.Prelude.Int.{ℤ}
use ancre.Prelude.Maps.{lookup, insert, lookup_new, lookup_other}
use ancre.Canon.Hash.{Hash32, Digest}
use ancre.Canon.Cbor.{KeyOrder, Ciborium}
use ancre.Types.Event.{EmittedEvent, AuditEvent}
use ancre.Chain.{ChainId}
use ancre.Ingester.Sink.{EventStore, Keeps, ChainId-Eq, chain_of, of_chain}
use ancre.Ingester.Writer.{ChainWriter, IngestError, store, chain, duplicate}
use ancre.Ingester.Writer.History.{Written, Appends, append-cases, sealed_event, moved_on}
use ancre.Ingester.Pipeline.{
  Batch, Outcome, continued, returned, or_insert, count_append, chain_with, resume, chain_found,
  chain_all, then_continue, writer_from, put_writer, IngestReport,
}
use ancre.Ingester.Pipeline.Rewound.{
  NotedOnce, rewind_all-lookup, or_insert-NotedOnce, or_insert-other,
}
use ancre.Ingester.Pipeline.Rows.{IsChain, AtHead}
use ancre.Ingester.Pipeline.Resumed.{Progress-moved, resumed-Progress}
use ancre.Ingester.Pipeline.Tracked.{
  Progress, Place, Progress-noted, Progress-Place, Written-snoc, of_chain_own, of_chain_other,
}

module _ ⦃d : Digest⦄ ⦃o : KeyOrder⦄ ⦃cb : Ciborium⦄ where
  module _ (st : EventStore) (keeps : Keeps st) (c : ChainId) (rows : List AuditEvent) where
    -- The chain after `m` events of the batch.
    pub record IsTracked (m : ℕ) (b : Batch st.State) : Type 0 where
      pub stored : keeps.rows c b.ingester.store ≡ rows
      pub progress :
          Progress rows (of_chain c b.chained) (lookup c b.rollback) (lookup c b.ingester.writers)
      pub few : length (of_chain c b.chained) ≤ m
      pub once : NotedOnce b.rollback

    -- What is known when the loop is left.
    abbrev pub After : ℕ → Outcome st.State → Type 0
    After m (continued b) = IsTracked m b
    After m (returned (ok report) ig) =
        (keeps.rows c ig.store ≡ rows) × Place rows (lookup c ig.writers)
    After m (returned (err e) ig) = Unit {0}

    abbrev noted : ChainId → ChainWriter → Batch st.State → Batch st.State
    noted k w b = record b { rollback = or_insert k (w.next_seq, w.head_hash) b.rollback }

    -- Of the chain's own writer, what is noted once it is touched.
    own_writer :
        (b : Batch st.State) (w : ChainWriter) (k : ChainId)
        → c ≡ k
        → Progress rows (of_chain c b.chained) (lookup c b.rollback) (lookup c b.ingester.writers)
        → lookup k b.ingester.writers ≡ some w
        → (w0 : ChainWriter) × AtHead rows w0
          × Written w0 (of_chain c b.chained) w
          × (lookup c (or_insert k (w.next_seq, w.head_hash) b.rollback)
              ≡ some (w0.next_seq, w0.head_hash))
    own_writer b w k own p found =
        let here = ap (λ k. lookup k b.ingester.writers) own ∙ found in
        let (w0, a0, run, at) =
          Progress-noted rows (of_chain c b.chained) w c b.rollback
            (Progress-moved rows refl refl (sym here) p) in
        (
          w0,
          a0,
          run,
          subst
              (λ k.
                lookup c (or_insert k (w.next_seq, w.head_hash) b.rollback)
                ≡ some (w0.next_seq, w0.head_hash))
              own at,
        )

    appended-IsTracked :
        (m : ℕ) (now : ℤ) (e : EmittedEvent) (b : Batch st.State) (w : ChainWriter) (h : Hash32)
        (report : IngestReport)
        → IsTracked m b
        → lookup (chain_of e) b.ingester.writers ≡ some w
        → Appends now e w h
        → IsTracked (m + 1) (record (noted (chain_of e) w b) {
          ingester = put_writer (chain_of e) (moved_on e w h) b.ingester;
          report = report;
          chained = b.chained ++ sealed_event now e w h ∷ [];
        })
    appended-IsTracked m now e b w h report t found a = elim (Eq-cases c (chain_of e)) [
      | inl own ↦
          let mine = of_chain_own c b.chained (sealed_event now e w h) own in
          let (w0, a0, run, here) = own_writer b w (chain_of e) own t.progress found in
          record {
            stored = t.stored;
            progress =
                Progress-moved rows mine here
                  (subst
                    (λ k.
                      lookup c (insert k (moved_on e w h) b.ingester.writers)
                      ≡ some (moved_on e w h))
                    own (lookup_new c (moved_on e w h) b.ingester.writers))
                  (w0, a0, Written-snoc now e (sealed_event now e w h) run a.result, refl);
            few = omega (
              arith,
              t.few,
              ap length mine,
              length-append (of_chain c b.chained) (sealed_event now e w h ∷ []),
            );
            once = or_insert-NotedOnce (chain_of e) (w.next_seq, w.head_hash) b.rollback t.once;
          }
      | inr ne ↦
          let mine = of_chain_other c b.chained (sealed_event now e w h) ne in
          record {
            stored = t.stored;
            progress =
                Progress-moved rows mine
                  (or_insert-other c (chain_of e) (w.next_seq, w.head_hash) b.rollback ne)
                  (lookup_other c (chain_of e) (moved_on e w h) b.ingester.writers ne) t.progress;
            few = omega (arith, t.few, ap length mine);
            once = or_insert-NotedOnce (chain_of e) (w.next_seq, w.head_hash) b.rollback t.once;
          }
    ]

    -- An append that fails changes neither the writer nor the events.
    refused-IsTracked :
        (m : ℕ) (e : EmittedEvent) (b : Batch st.State) (w : ChainWriter) (report : IngestReport)
        → IsTracked m b
        → lookup (chain_of e) b.ingester.writers ≡ some w
        → IsTracked (m + 1) (record (noted (chain_of e) w b) {
          ingester = put_writer (chain_of e) w b.ingester;
          report = report;
        })
    refused-IsTracked m e b w report t found = elim (Eq-cases c (chain_of e)) [
      | inl own ↦
          let (w0, a0, run, here) = own_writer b w (chain_of e) own t.progress found in
          record {
            stored = t.stored;
            progress =
                Progress-moved rows refl here
                  (subst (λ k. lookup c (insert k w b.ingester.writers) ≡ some w) own
                    (lookup_new c w b.ingester.writers))
                  (w0, a0, run, refl);
            few = omega (arith, t.few);
            once = or_insert-NotedOnce (chain_of e) (w.next_seq, w.head_hash) b.rollback t.once;
          }
      | inr ne ↦ record {
        stored = t.stored;
        progress =
            Progress-moved rows refl
              (or_insert-other c (chain_of e) (w.next_seq, w.head_hash) b.rollback ne)
              (lookup_other c (chain_of e) w b.ingester.writers ne) t.progress;
        few = omega (arith, t.few);
        once = or_insert-NotedOnce (chain_of e) (w.next_seq, w.head_hash) b.rollback t.once;
      }
    ]

    count_refused-After :
        (m : ℕ) (e : EmittedEvent) (b : Batch st.State) (w : ChainWriter) (x : IngestError)
        → IsTracked m b
        → lookup (chain_of e) b.ingester.writers ≡ some w
        → After (m + 1) (count_append (chain_of e) (noted (chain_of e) w b) (err x, w))
    count_refused-After m e b w (store x) t found = tt
    count_refused-After m e b w (chain x) t found = tt
    count_refused-After m e b w (duplicate id seq) t found = refused-IsTracked m e b w _ t found

    chain_with-After :
        (m : ℕ) (now : ℤ) (e : EmittedEvent) (b : Batch st.State) (w : ChainWriter)
        → IsTracked m b
        → lookup (chain_of e) b.ingester.writers ≡ some w
        → After (m + 1) (chain_with now e (chain_of e) b w)
    unfolding chain_with
    chain_with-After m now e b w t found =
        let counted = λ (r : Result IngestError AuditEvent × ChainWriter).
          After (m + 1) (count_append (chain_of e) (noted (chain_of e) w b) r) in
        elim (append-cases now e w) [
          | inl (h, a) ↦ subst counted (sym a.result) (appended-IsTracked m now e b w h _ t found a)
          | inr (x, r) ↦ subst counted (sym r) (count_refused-After m e b w x t found)
        ]

    module _ (sound : IsChain rows) (total : ℕ) (fits : length rows + total + 1 < u64_mod) where
      -- The store was asked about a chain that has no writer yet.
      resume-After :
          (m : ℕ) (now : ℤ) (e : EmittedEvent) (b : Batch st.State)
          (r : Result IngestError (Option (ℕ × Hash32))) (s : st.State)
          → m ≤ total
          → IsTracked m b
          → lookup (chain_of e) b.ingester.writers ≡ none
          → st.head (chain_of e) b.ingester.store ≡ (r, s)
          → After (m + 1) (resume now e (chain_of e) b (r, s))
      unfolding resume
      resume-After m now e b (err x) s le t absent q = (
        keeps.untouched c (chain_of e) b.ingester.store s (err x) q ∙ t.stored,
        subst (Place rows) (sym (rewind_all-lookup c b.rollback b.ingester.writers t.once)) (
            Progress-Place rows (of_chain c b.chained) (lookup c b.rollback)
              (lookup c b.ingester.writers) (omega (arith, t.few)) t.progress),
      )
      resume-After m now e b (ok last) s le t absent q =
          let w = writer_from (chain_of e) b.ingester.node_id last in
          chain_with-After m now e
            (record b { ingester = put_writer (chain_of e) w (record b.ingester { store = s }) }) w
            (record {
              stored = keeps.untouched c (chain_of e) b.ingester.store s (ok last) q ∙ t.stored;
              progress =
                  resumed-Progress st keeps c rows sound total fits b (chain_of e) last s t.stored
                    t.progress absent q;
              few = t.few;
              once = t.once;
            })
            (lookup_new (chain_of e) w b.ingester.writers)

      chain_found-After :
          (m : ℕ) (now : ℤ) (e : EmittedEvent) (b : Batch st.State) (found : Option ChainWriter)
          → m ≤ total
          → IsTracked m b
          → lookup (chain_of e) b.ingester.writers ≡ found
          → After (m + 1) (chain_found st now e (chain_of e) b found)
      unfolding chain_found
      chain_found-After m now e b none le t q =
          let answer = st.head (chain_of e) b.ingester.store in
          resume-After m now e b answer.0 answer.1 le t q refl
      chain_found-After m now e b (some w) le t q = chain_with-After m now e b w t q

      chain_rest-After :
          (m n : ℕ) (rest : Batch st.State → Outcome st.State) (out : Outcome st.State)
          → ((b : Batch st.State) → IsTracked m b → After n (rest b))
          → After m out
          → After n (then_continue rest out)
      chain_rest-After m n rest (continued b) next h = next b h
      chain_rest-After m n rest (returned (ok report) ig) next h = h
      chain_rest-After m n rest (returned (err e) ig) next h = tt

      -- Whatever way the loop is left, the chain is tracked.
      pub chain_all-After :
          (m : ℕ) (batch : List (ℤ × EmittedEvent)) (b : Batch st.State)
          → m + length batch ≤ total
          → IsTracked m b
          → After (m + length batch) (chain_all st batch b)
      unfolding chain_all
      chain_all-After m [] b le t = subst (λ n. IsTracked n b) (omega arith) t
      chain_all-After m ((now, e) ∷ rest) b le t =
          subst
            (λ n. After n (
              then_continue (chain_all st rest)
                (chain_found st now e (chain_of e) b (lookup (chain_of e) b.ingester.writers))))
            (omega arith)
            (chain_rest-After (m + 1) (m + 1 + length rest) (chain_all st rest) _
              (λ b h. chain_all-After (m + 1) rest b (omega arith) h)
              (chain_found-After m now e b (lookup (chain_of e) b.ingester.writers) (omega arith) t
                refl))
