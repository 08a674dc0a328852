-- ===== src/Control/Checkpointer/Rounds.antt =====
-- crates/ancre-control/src/checkpointer.rs: what a checkpoint store does for one writer, and the
-- ways in which a round of the loop of `tick` ends.
use ancre.Prelude.{
  ℕ, ◌+◌, ◌-◌, ◌%◌, ◌≤◌, ◌<◌, ◌≡◌, ◌⊎◌, refl, sym, ap, ◌∙◌, subst, inl, inr, Bool, false, ◌||◌,
  List, [], ◌∷◌, ◌++◌, Option, none, some, Result, ok, err, length, u64_mod, ltb, leb, nat_eq,
  nat_eq_iff, Bool-cases, ◌==◌, arith,
}
use ancre.Prelude.Int.{ℤ}
use ancre.Canon.Hash.{Hash32, Digest}
use ancre.Canon.Cbor.{KeyOrder, Ciborium}
use ancre.Chain.{ChainId, ChainError}
use ancre.Chain.Checkpoint.{Checkpoint, Ed25519, seal_range}
use ancre.Ingester.Sink.{ChainId-Eq}
use ancre.Control.Checkpointer.{
  ControlError, ChainSource, CheckpointStore, SealReport, Plane, Ticked, seq_from_of, count_lag,
  count_sealed, count_chain, timer_fired, put_done, put_sealed, with_leaves, seal_pending,
  with_last, with_head, seal_chain,
}

-- The chain of a checkpoint.
abbrev pub sealed_chain : Checkpoint → ChainId
sealed_chain cp = record { tenant_id = cp.body.tenant_id; system_id = cp.body.system_id }

-- How far a chain is sealed, and when it was.
abbrev pub last_row_of : List Checkpoint → Option (ℕ × ℤ)
last_row_of [] = none
last_row_of (cp ∷ []) = some (cp.body.seq_to, cp.body.built_at)
last_row_of (cp ∷ cq ∷ cps) = last_row_of (cq ∷ cps)

-- Beyond it, the numbers of the table of checkpoints end.
abbrev pub i64_mod : ℕ
i64_mod = 9223372036854775808

-- What a store does whose only writer calls it. `last_sealed` reads the end of the last row of the
-- chain. A `put` that succeeds appends its checkpoint if that ends after the last row and its
-- numbers are those of an `i64`; what it does otherwise is left open, since the table of Postgres
-- is keyed by the last number and passes over a conflict. A `put` that fails may have appended the
-- checkpoint all the same. The trait documents `last_sealed` and says nothing of `put`: this is
-- read from its two stores.
pub record Attests (st : CheckpointStore) : Type 0 where
  pub rows : ChainId → st.State → List Checkpoint
  pub put_own :
      (cp : Checkpoint) (s s' : st.State) (u : Unit {0})
      → seq_from_of (last_row_of (rows (sealed_chain cp) s)) ≤ cp.body.seq_to
      → cp.body.seq_to < i64_mod
      → st.put cp s ≡ (ok u, s')
      → rows (sealed_chain cp) s' ≡ rows (sealed_chain cp) s ++ cp ∷ []
  pub refused :
      (cp : Checkpoint) (s s' : st.State) (e : ControlError)
      → seq_from_of (last_row_of (rows (sealed_chain cp) s)) ≤ cp.body.seq_to
      → cp.body.seq_to < i64_mod
      → st.put cp s ≡ (err e, s')
      → (rows (sealed_chain cp) s' ≡ rows (sealed_chain cp) s)
        ⊎ (rows (sealed_chain cp) s' ≡ rows (sealed_chain cp) s ++ cp ∷ [])
  pub put_other :
      (c : ChainId) (cp : Checkpoint) (s s' : st.State) (r : Result ControlError (Unit {0}))
      → (c == sealed_chain cp) ≡ false
      → st.put cp s ≡ (r, s')
      → rows c s' ≡ rows c s
  pub read :
      (c : ChainId) (s s' : st.State) (last : Option (ℕ × ℤ))
      → st.last_sealed c s ≡ (ok last, s')
      → last ≡ last_row_of (rows c s)
  pub untouched :
      (c k : ChainId) (s s' : st.State) (r : Result ControlError (Option (ℕ × ℤ)))
      → st.last_sealed k s ≡ (r, s')
      → rows c s' ≡ rows c s

module _ (src : ChainSource) (st : CheckpointStore) (keeps : Attests st) where
  -- The second plane has the rows, the signer and the threshold of the first.
  pub record Kept (cp cp' : Plane src st) : Type 0 where
    pub rows_kept : (c : ChainId) → keeps.rows c cp'.store ≡ keeps.rows c cp.store
    pub signer_kept : cp'.signer ≡ cp.signer
    pub n_kept : cp'.every_n ≡ cp.every_n

module _ ⦃d : Digest⦄ ⦃o : KeyOrder⦄ ⦃cb : Ciborium⦄ (s : Ed25519) (src : ChainSource)
    (st : CheckpointStore) (keeps : Attests st) where
  -- The first number that is not sealed yet.
  abbrev pub first_unsealed : ChainId → Plane src st → ℕ
  first_unsealed k cp = seq_from_of (last_row_of (keeps.rows k cp.store))

  abbrev pub unsealed_to : ℕ → ChainId → Plane src st → ℕ
  unsealed_to head k cp = (head - first_unsealed k cp + 1) % u64_mod

  abbrev pub Heads : ChainId → Plane src st → Option ℕ → Type 0
  Heads k cp head = (after : src.State) × (src.head_seq k cp.source ≡ (ok head, after))

  -- The ways in which a round of chain `k` ends.
  pub data Round (clock : ℤ) (k : ChainId) (report : SealReport) (cp : Plane src st)
      : Ticked src st → Type 0 where
    failed :
        (e : ControlError) (cp' : Plane src st)
        → Kept src st keeps cp cp'
        → Round clock k report cp (err e, cp')
    empty :
        (cp' : Plane src st)
        → Heads k cp none
        → Kept src st keeps cp cp'
        → Round clock k report cp (ok (count_chain report), cp')
    behind :
        (cp' : Plane src st) (head : ℕ)
        → Heads k cp (some head)
        → head < first_unsealed k cp
        → Kept src st keeps cp cp'
        → Round clock k report cp (ok (count_chain report), cp')
    waiting :
        (cp' : Plane src st) (head : ℕ)
        → Heads k cp (some head)
        → first_unsealed k cp ≤ head
        → unsealed_to head k cp < cp.every_n
        → Kept src st keeps cp cp'
        → Round clock k report cp (ok (count_lag (unsealed_to head k cp) (count_chain report)), cp')
    written :
        (cp' mid : Plane src st) (head : ℕ) (leaves : List Hash32) (sealed : Checkpoint)
        (u : Unit {0})
        → Heads k cp (some head)
        → first_unsealed k cp ≤ head
        → length leaves ≡ unsealed_to head k cp
        → seal_range s cp.signer clock k.tenant_id k.system_id (first_unsealed k cp) leaves
          ≡ ok sealed
        → Kept src st keeps cp mid
        → st.put sealed mid.store ≡ (ok u, cp'.store)
        → cp'.signer ≡ cp.signer
        → cp'.every_n ≡ cp.every_n
        → Round clock k report cp
            (ok (count_sealed (unsealed_to head k cp) (count_chain report)), cp')
    doubted :
        (cp' mid : Plane src st) (head : ℕ) (leaves : List Hash32) (sealed : Checkpoint)
        (e : ControlError)
        → Heads k cp (some head)
        → first_unsealed k cp ≤ head
        → length leaves ≡ unsealed_to head k cp
        → seal_range s cp.signer clock k.tenant_id k.system_id (first_unsealed k cp) leaves
          ≡ ok sealed
        → Kept src st keeps cp mid
        → st.put sealed mid.store ≡ (err e, cp'.store)
        → cp'.signer ≡ cp.signer
        → Round clock k report cp (err e, cp')

  module _ (clock now : ℤ) (k : ChainId) (report : SealReport) (cp : Plane src st) where
    abbrev Ends : Ticked src st → Type 0
    Ends t = Round clock k report cp t

    put_done-Round :
        (mid : Plane src st) (head : ℕ) (leaves : List Hash32) (sealed : Checkpoint)
        (answer : Result ControlError (Unit {0}) × st.State)
        → Heads k cp (some head)
        → first_unsealed k cp ≤ head
        → length leaves ≡ unsealed_to head k cp
        → seal_range s cp.signer clock k.tenant_id k.system_id (first_unsealed k cp) leaves
          ≡ ok sealed
        → Kept src st keeps cp mid
        → st.put sealed mid.store ≡ answer
        → Ends (put_done src st (unsealed_to head k cp) (count_chain report) mid answer)
    unfolding put_done
    put_done-Round mid head leaves sealed (ok u, after) h le n made kept q =
        written (record mid { store = after }) mid head leaves sealed u h le n made kept q
          kept.signer_kept kept.n_kept
    put_done-Round mid head leaves sealed (err e, after) h le n made kept q =
        doubted (record mid { store = after }) mid head leaves sealed e h le n made kept q
          kept.signer_kept

    put_sealed-Round :
        (mid : Plane src st) (head : ℕ) (leaves : List Hash32) (made : Result ChainError Checkpoint)
        → Heads k cp (some head)
        → first_unsealed k cp ≤ head
        → length leaves ≡ unsealed_to head k cp
        → seal_range s cp.signer clock k.tenant_id k.system_id (first_unsealed k cp) leaves ≡ made
        → Kept src st keeps cp mid
        → Ends (put_sealed src st (unsealed_to head k cp) (count_chain report) mid made)
    unfolding put_sealed
    put_sealed-Round mid head leaves (err e) h le n q kept = failed _ mid kept
    put_sealed-Round mid head leaves (ok sealed) h le n q kept =
        put_done-Round mid head leaves sealed (st.put sealed mid.store) h le n q kept refl

    with_leaves-Round :
        (mid : Plane src st) (head : ℕ) (answer : Result ControlError (List Hash32) × src.State)
        → Heads k cp (some head)
        → first_unsealed k cp ≤ head
        → Kept src st keeps cp mid
        → Ends (
            with_leaves s src st clock k
              (first_unsealed k cp)
              head
              (unsealed_to head k cp)
              (count_chain report)
              mid
              answer)
    unfolding with_leaves
    with_leaves-Round mid head (err e, after) h le kept = failed e _ (record {
      rows_kept = kept.rows_kept;
      signer_kept = kept.signer_kept;
      n_kept = kept.n_kept;
    })
    with_leaves-Round mid head (ok leaves, after) h le kept =
        let here : Kept src st keeps cp (record mid { source = after }) = record {
          rows_kept = kept.rows_kept;
          signer_kept = kept.signer_kept;
          n_kept = kept.n_kept;
        } in
        elim (Bool-cases (nat_eq (length leaves) (unsealed_to head k cp))) [
          | inl t ↦ rw t (
              put_sealed-Round (record mid { source = after }) head leaves _ h le
                ((nat_eq_iff _ _).0 t)
                (ap (λ x. seal_range s x clock k.tenant_id k.system_id (first_unsealed k cp) leaves)
                  (sym kept.signer_kept))
                here)
          | inr f ↦ rw f (failed _ _ here)
        ]

    seal_pending-Round :
        (mid : Plane src st) (head : ℕ) (last : Option (ℕ × ℤ))
        → Heads k cp (some head)
        → first_unsealed k cp ≤ head
        → Kept src st keeps cp mid
        → Ends (
            seal_pending s src st clock now k head
              (first_unsealed k cp)
              (unsealed_to head k cp)
              last
              (count_chain report)
              mid)
    unfolding seal_pending
    seal_pending-Round mid head last h le kept =
        let pending = unsealed_to head k cp in
        elim (Bool-cases (leb mid.every_n pending || timer_fired mid.every_t now last)) [
          | inl t ↦ rw t (
              with_leaves-Round mid head (src.leaves k (first_unsealed k cp) head mid.source) h le
                kept)
          | inr f ↦ rw f (
              waiting mid head h le
                (subst (λ n. pending < n) kept.n_kept (too_few mid.every_n pending _ f)) kept)
        ]
      where
        too_few : (n pending : ℕ) (b : Bool) → (leb n pending || b) ≡ false → pending < n
        too_few n pending b f = ground arith

    with_last-Round :
        (mid : Plane src st) (head : ℕ) (answer : Result ControlError (Option (ℕ × ℤ)) × st.State)
        → Heads k cp (some head)
        → Kept src st keeps cp mid
        → st.last_sealed k mid.store ≡ answer
        → Ends (with_last s src st clock now k head (count_chain report) mid answer)
    unfolding with_last
    with_last-Round mid head (err e, after) h kept q = failed e _ (record {
      rows_kept = λ c. keeps.untouched c k mid.store after (err e) q ∙ kept.rows_kept c;
      signer_kept = kept.signer_kept;
      n_kept = kept.n_kept;
    })
    with_last-Round mid head (ok last, after) h kept q =
        let here : Kept src st keeps cp (record mid { store = after }) = record {
          rows_kept = λ c. keeps.untouched c k mid.store after (ok last) q ∙ kept.rows_kept c;
          signer_kept = kept.signer_kept;
          n_kept = kept.n_kept;
        } in
        let said : last ≡ last_row_of (keeps.rows k cp.store) =
          keeps.read k mid.store after last q ∙ ap last_row_of (kept.rows_kept k) in
        subst
          (λ l. Ends (with_last s src st clock now k head (count_chain report) mid (ok l, after)))
          (sym said)
          (elim (Bool-cases (ltb head (first_unsealed k cp))) [
            | inl t ↦ rw t (behind _ head h (ground arith) here)
            | inr f ↦ rw f (
                seal_pending-Round _ head (last_row_of (keeps.rows k cp.store)) h (ground arith)
                  here)
          ])

    with_head-Round :
        (answer : Result ControlError (Option ℕ) × src.State)
        → src.head_seq k cp.source ≡ answer
        → Ends (with_head s src st clock now k (count_chain report) cp answer)
    unfolding with_head
    with_head-Round (err e, after) q =
        failed e _ (record { rows_kept = λ c. refl; signer_kept = refl; n_kept = refl })
    with_head-Round (ok none, after) q =
        empty _ (after, q) (record { rows_kept = λ c. refl; signer_kept = refl; n_kept = refl })
    with_head-Round (ok (some head), after) q =
        with_last-Round (record cp { source = after }) head (st.last_sealed k cp.store) (after, q)
          (record { rows_kept = λ c. refl; signer_kept = refl; n_kept = refl }) refl

    pub seal_chain-Round : Ends (seal_chain s src st clock now k report cp)
    unfolding seal_chain
    seal_chain-Round = with_head-Round (src.head_seq k cp.source) refl
