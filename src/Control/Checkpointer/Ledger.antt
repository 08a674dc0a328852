-- ===== src/Control/Checkpointer/Ledger.antt =====
-- crates/ancre-control/src/checkpointer.rs: the checkpoints of a chain abut, and each of them verifies,
-- after any tick over a store with one writer.
use ancre.Prelude.{
  ℕ, suc, ◌+◌, ◌≤◌, ◌<◌, ◌≡◌, ◌⊎◌, refl, sym, ap, ◌∙◌, subst, inl, inr, List, [], ◌∷◌, ◌++◌, some,
  Result, ok, err, u64_mod, Bool-cases, ◌==◌, ==→eq, arith, All, All-append,
}
use ancre.Prelude.Int.{ℤ}
use ancre.Canon.Hash.{Hash32, Digest}
use ancre.Canon.Cbor.{KeyOrder, Ciborium}
use ancre.Chain.{ChainId}
use ancre.Chain.Checkpoint.{Checkpoint, Ed25519, AcceptsOwn, verify_checkpoint}
use ancre.Ingester.Sink.{ChainId-Eq}
use ancre.Control.Checkpointer.{
  ControlError, ChainSource, CheckpointStore, SealReport, Plane, Ticked, seq_from_of, seal_chains,
  then_seal, with_chains, tick, no_seals,
}
use ancre.Control.Checkpointer.Puts.{Seals, seal_range-Seals, put-appended, put-doubted}
use ancre.Control.Checkpointer.Rounds.{
  Attests, Kept, Round, failed, empty, behind, waiting, written, doubted, seal_chain-Round,
  sealed_chain, last_row_of, first_unsealed, i64_mod,
}

-- The numbers that a source gives are those of an `i64`.
abbrev pub Numbers : ChainSource → Type 0
Numbers src =
    (c : ChainId) (x y : src.State) (n : ℕ) → src.head_seq c x ≡ (ok (some n), y) → n < i64_mod

-- A checkpoint whose range begins at `start`.
pub record Begins (start : ℕ) (cp : Checkpoint) : Type 0 where
  pub begins : cp.body.seq_from ≡ start
  pub ends : start ≤ cp.body.seq_to
  pub below : cp.body.seq_to + 1 < u64_mod

-- The ranges of the checkpoints follow each other without a gap or an overlap, from `start` on.
abbrev pub Abuts : ℕ → List Checkpoint → Type 0
Abuts start [] = Unit {0}
Abuts start (cp ∷ cps) = Begins start cp × Abuts (cp.body.seq_to + 1) cps

abbrev pub next_of : ℕ → List Checkpoint → ℕ
next_of start [] = start
next_of start (cp ∷ cps) = next_of (cp.body.seq_to + 1) cps

Abuts-append :
    (start : ℕ) (cps : List Checkpoint) (cp : Checkpoint)
    → Abuts start cps
    → Begins (next_of start cps) cp
    → Abuts start (cps ++ cp ∷ [])
Abuts-append start [] cp h b = (b, tt)
Abuts-append start (c ∷ cps) cp h b = (h.0, Abuts-append (c.body.seq_to + 1) cps cp h.1 b)

last_row-next :
    (start : ℕ) (cp : Checkpoint) (cps : List Checkpoint)
    → Abuts start (cp ∷ cps)
    → seq_from_of (last_row_of (cp ∷ cps)) ≡ next_of start (cp ∷ cps)
last_row-next start cp [] h = omega (arith, h.0.below)
last_row-next start cp (c ∷ cps) h = last_row-next (cp.body.seq_to + 1) c cps h.1

first_number-next :
    (cps : List Checkpoint) → Abuts 1 cps → seq_from_of (last_row_of cps) ≡ next_of 1 cps
first_number-next [] h = refl
first_number-next (cp ∷ cps) h = last_row-next 1 cp cps h

module _ ⦃d : Digest⦄ ⦃o : KeyOrder⦄ ⦃cb : Ciborium⦄ (s : Ed25519) where
  -- Checkpoints that abut from number 1 on and verify under the key.
  abbrev pub IsLedger : List ℕ → List Checkpoint → Type 0
  IsLedger key cps = Abuts 1 cps × All (λ cp. verify_checkpoint s cp key ≡ ok tt) cps

  module _ (src : ChainSource) (st : CheckpointStore) (keeps : Attests st) (accepts : AcceptsOwn s)
      (numbers : Numbers src) (c : ChainId) (key : List ℕ) where
    -- The chain's ledger, and that the key is the signer's.
    abbrev Good : Ticked src st → Type 0
    Good t = IsLedger key (keeps.rows c t.1.store) × (s.verifying_key t.1.signer.key ≡ key)

    Kept-Good :
        (cp cp' : Plane src st) (r r' : Result ControlError SealReport)
        → Kept src st keeps cp cp'
        → Good (r, cp)
        → Good (r', cp')
    Kept-Good cp cp' r r' kept good = (
      subst (IsLedger key) (sym (kept.rows_kept c)) good.0,
      ap (λ x. s.verifying_key x.key) kept.signer_kept ∙ good.1,
    )

    IsLedger-append :
        (k : ChainId) (cps : List Checkpoint) (head : ℕ) (leaves : List Hash32)
        (sealed : Checkpoint)
        → IsLedger key cps
        → seq_from_of (last_row_of cps) ≤ head
        → head + 1 < u64_mod
        → Seals s key k (seq_from_of (last_row_of cps)) head leaves sealed
        → IsLedger key (cps ++ sealed ∷ [])
    IsLedger-append k cps head leaves sealed good le lt f = (
      Abuts-append 1 cps sealed good.0 (record {
        begins = f.starts ∙ first_number-next cps good.0;
        ends = omega (arith, le, f.stops, first_number-next cps good.0);
        below = omega (arith, lt, f.stops);
      }),
      All-append (λ cp. verify_checkpoint s cp key ≡ ok tt) cps (sealed ∷ []) good.1
          (f.verified, tt),
    )

    -- The rows after a checkpoint of chain `k` was put, and appended or not.
    put-IsLedger :
        (k : ChainId) (cp mid : Plane src st) (after : st.State) (head : ℕ) (leaves : List Hash32)
        (sealed : Checkpoint) (answer : Result ControlError (Unit {0}))
        → Kept src st keeps cp mid
        → first_unsealed s src st keeps k cp ≤ head
        → head < i64_mod
        → Seals s key k (first_unsealed s src st keeps k cp) head leaves sealed
        → st.put sealed mid.store ≡ (answer, after)
        → (keeps.rows (sealed_chain sealed) after ≡ keeps.rows (sealed_chain sealed) cp.store)
          ⊎ (keeps.rows (sealed_chain sealed) after
              ≡ keeps.rows (sealed_chain sealed) cp.store ++ sealed ∷ [])
        → IsLedger key (keeps.rows c cp.store)
        → IsLedger key (keeps.rows c after)
    put-IsLedger k cp mid after head leaves sealed answer kept le lt f put moved good =
        elim (Bool-cases (c == sealed_chain sealed)) [
          | inr other ↦
              subst (IsLedger key)
                (sym (keeps.put_other c sealed mid.store after answer other put ∙ kept.rows_kept c))
                good
          | inl own ↦
              let same : sealed_chain sealed ≡ c = sym (==→eq c (sealed_chain sealed) own) in
              let here : k ≡ c = sym f.owner ∙ same in
              elim moved [
                | inl p ↦
                    subst (IsLedger key)
                      (sym (subst (λ x. keeps.rows x after ≡ keeps.rows x cp.store) same p)) good
                | inr p ↦
                    subst (IsLedger key)
                      (sym (
                        subst (λ x. keeps.rows x after ≡ keeps.rows x cp.store ++ sealed ∷ []) same
                          p))
                      (IsLedger-append k (keeps.rows c cp.store) head leaves sealed good
                        (subst (λ x. first_unsealed s src st keeps x cp ≤ head) here le)
                        (omega (arith, lt))
                        (subst
                          (λ x.
                            Seals s key k (first_unsealed s src st keeps x cp) head leaves sealed)
                          here f))
              ]
        ]

    Round-Good :
        (clock : ℤ) (k : ChainId) (report : SealReport) (cp : Plane src st) (t : Ticked src st)
        → Round s src st keeps clock k report cp t
        → Good (ok report, cp)
        → Good t
    Round-Good clock k report cp t (failed e cp' kept) good =
        Kept-Good cp cp' (ok report) (err e) kept good
    Round-Good clock k report cp t (empty cp' h kept) good =
        Kept-Good cp cp' (ok report) (ok report) kept good
    Round-Good clock k report cp t (behind cp' head h lt kept) good =
        Kept-Good cp cp' (ok report) (ok report) kept good
    Round-Good clock k report cp t (waiting cp' head h le lt kept) good =
        Kept-Good cp cp' (ok report) (ok report) kept good
    Round-Good clock k report cp t
          (written cp' mid head leaves sealed u h le n made kept put signer same_n) good =
        let lt = numbers k cp.source h.0 head h.1 in
        let f =
          subst (λ x. Seals s x k (first_unsealed s src st keeps k cp) head leaves sealed) good.1
            (seal_range-Seals s cp.signer clock k _ head leaves sealed accepts le
              (omega (arith, lt)) n made) in
        (
          put-IsLedger k cp mid cp'.store head leaves sealed (ok u) kept le lt f put
              (inr (
                put-appended s src st keeps k cp mid cp'.store key head leaves sealed kept le lt f u
                  put))
              good.0,
          ap (λ x. s.verifying_key x.key) signer ∙ good.1,
        )
    Round-Good clock k report cp t
          (doubted cp' mid head leaves sealed e h le n made kept put signer) good =
        let lt = numbers k cp.source h.0 head h.1 in
        let f =
          subst (λ x. Seals s x k (first_unsealed s src st keeps k cp) head leaves sealed) good.1
            (seal_range-Seals s cp.signer clock k _ head leaves sealed accepts le
              (omega (arith, lt)) n made) in
        (
          put-IsLedger k cp mid cp'.store head leaves sealed (err e) kept le lt f put
              (put-doubted s src st keeps k cp mid cp'.store key head leaves sealed kept le lt f e
                put)
              good.0,
          ap (λ x. s.verifying_key x.key) signer ∙ good.1,
        )

    then_seal-Good :
        (rest : SealReport → Plane src st → Ticked src st) (t : Ticked src st)
        → ((report : SealReport) (cp : Plane src st) → Good (ok report, cp) → Good (rest report cp))
        → Good t
        → Good (then_seal s src st rest t)
    then_seal-Good rest (err e, cp) next good = good
    then_seal-Good rest (ok report, cp) next good = next report cp good

    seal_chains-Good :
        (cs : List ChainId) (clock : ℕ → ℤ) (now : ℤ) (report : SealReport) (cp : Plane src st)
        → Good (ok report, cp)
        → Good (seal_chains s src st cs clock now report cp)
    unfolding seal_chains
    seal_chains-Good [] clock now report cp good = good
    seal_chains-Good (k ∷ cs) clock now report cp good =
        then_seal-Good _ _ (λ r p g. seal_chains-Good cs (λ n. clock (suc n)) now r p g)
          (Round-Good (clock 0) k report cp _
            (seal_chain-Round s src st keeps (clock 0) now k report cp) good)

    with_chains-Good :
        (clock : ℕ → ℤ) (now : ℤ) (cp : Plane src st)
        (answer : Result ControlError (List ChainId) × src.State)
        → Good (ok no_seals, cp)
        → Good (with_chains s src st clock now cp answer)
    with_chains-Good clock now cp (err e, after) good = good
    with_chains-Good clock now cp (ok cs, after) good =
        seal_chains-Good cs clock now no_seals _ good

  -- If the checkpoints of a chain abut from number 1 on and verify under the key of the signer,
  -- then they do so after a tick, whether it succeeds or fails at any call. The store does what
  -- `Attests` says: no other writer puts checkpoints meanwhile, `last_sealed` reads the last row of
  -- the chain, a `put` that succeeds appends a checkpoint that ends after the last row, and one
  -- that fails appends it or changes nothing. The signer's key accepts what it signs, and the
  -- numbers of the source are below 2^63.
  pub tick-IsLedger :
      (src : ChainSource) (st : CheckpointStore) (keeps : Attests st) (c : ChainId) (clock : ℕ → ℤ)
      (now : ℤ) (cp : Plane src st)
      → AcceptsOwn s
      → Numbers src
      → IsLedger (s.verifying_key cp.signer.key) (keeps.rows c cp.store)
      → IsLedger (s.verifying_key cp.signer.key) (keeps.rows c (tick s src st clock now cp).1.store)
  unfolding tick
  tick-IsLedger src st keeps c clock now cp accepts numbers ledger =
      (with_chains-Good src st keeps accepts numbers c (s.verifying_key cp.signer.key) clock now cp
        (src.chains cp.source) (ledger, refl)).0
