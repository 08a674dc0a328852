-- ===== src/Control/Checkpointer.antt =====
-- crates/ancre-control/src/checkpointer.rs: when a chain is sealed, and what is read and written
-- for it. The two stores are interfaces over a state, whose calls may fail at any time; a duration
-- is in nanoseconds.
pub mod Rounds
pub mod Puts
pub mod Ledger
pub mod Settled
pub mod Memory
use ancre.Prelude.{
  ℕ, suc, ◌+◌, ◌-◌, ◌*◌, ◌%◌, ◌≤◌, ◌<◌, ◌≡◌, Bool, true, false, not, ◌||◌, List, [], ◌∷◌, ◌++◌,
  Option, none, some, Result, ok, err, Text, length, u64_mod, ltb, leb, nat_eq, if◌then◌else◌,
}
use ancre.Prelude.Int.{ℤ, pos, negsuc}
use ancre.Canon.Hash.{Hash32, Digest}
use ancre.Canon.Cbor.{KeyOrder, Ciborium}
use ancre.Chain.{ChainId, ChainError}
use ancre.Chain.Checkpoint.{Checkpoint, CheckpointSigner, Ed25519, seal_range}

-- The text of `invalid_range` is the data that it prints: the chain, the leaves expected, the range
-- and the leaves read.
pub data ControlError : Type 0 where
  db bus canon invalid : Text → ControlError
  invalid_range : ChainId → ℕ → ℕ → ℕ → ℕ → ControlError
  chain : ChainError → ControlError

abbrev pub checkpoint_every_n : ℕ
checkpoint_every_n = 10000

abbrev pub checkpoint_every_t : ℕ
checkpoint_every_t = 300000000000

pub record ChainSource : Type 1 where
  pub State : Type 0
  pub chains : State → Result ControlError (List ChainId) × State
  pub head_seq : ChainId → State → Result ControlError (Option ℕ) × State
  pub leaves : ChainId → ℕ → ℕ → State → Result ControlError (List Hash32) × State

-- `list` is not called by the checkpointer.
pub record CheckpointStore : Type 1 where
  pub State : Type 0
  pub last_sealed : ChainId → State → Result ControlError (Option (ℕ × ℤ)) × State
  pub put : Checkpoint → State → Result ControlError (Unit {0}) × State

pub record SealReport : Type 0 where
  pub chains_examined : ℕ
  pub checkpoints_written : ℕ
  pub events_sealed : ℕ
  pub max_lag : ℕ

abbrev pub no_seals : SealReport
no_seals = record { chains_examined = 0; checkpoints_written = 0; events_sealed = 0; max_lag = 0 }

-- `S` and `C` are the states of the stores.
pub record Checkpointer (S C : Type 0) : Type 0 where
  pub source : S
  pub store : C
  pub signer : CheckpointSigner
  pub every_n : ℕ
  pub every_t : ℕ

abbrev pub capped : ℕ → ℕ
capped n = if ltb n 9223372036854775808 then n else 9223372036854775807

-- The microseconds from one time to another, none if the second is earlier.
abbrev pub micros_after : ℤ → ℤ → ℕ
micros_after (pos a) (pos b) = capped (b - a)
micros_after (pos a) (negsuc b) = 0
micros_after (negsuc a) (pos b) = capped (a + b + 1)
micros_after (negsuc a) (negsuc b) = capped (a - b)

unfoldable pub micros_between : ℤ → ℤ → ℕ
micros_between earlier later = micros_after earlier later * 1000

abbrev pub seq_from_of : Option (ℕ × ℤ) → ℕ
seq_from_of none = 1
seq_from_of (some (seq, at)) = (seq + 1) % u64_mod

-- `elapsed.is_none_or(…)`
abbrev pub timer_fired : ℕ → ℤ → Option (ℕ × ℤ) → Bool
timer_fired every_t now none = true
timer_fired every_t now (some (seq, at)) = leb every_t (micros_between at now)

abbrev pub larger : ℕ → ℕ → ℕ
larger a b = if leb a b then b else a

abbrev pub count_lag : ℕ → SealReport → SealReport
count_lag pending report = record report { max_lag = larger report.max_lag pending }

abbrev pub count_sealed : ℕ → SealReport → SealReport
count_sealed pending report = record report {
  checkpoints_written = (report.checkpoints_written + 1) % u64_mod;
  events_sealed = (report.events_sealed + pending) % u64_mod;
}

abbrev pub count_chain : SealReport → SealReport
count_chain report = record report { chains_examined = (report.chains_examined + 1) % u64_mod }

module _ (src : ChainSource) (st : CheckpointStore) where
  abbrev pub Plane : Type 0
  Plane = Checkpointer src.State st.State

  -- The report so far, and what the plane is after.
  abbrev pub Ticked : Type 0
  Ticked = Result ControlError SealReport × Plane

  -- What is counted once `put` has answered.
  unfoldable pub put_done :
      ℕ → SealReport → Plane → Result ControlError (Unit {0}) × st.State → Ticked
  put_done pending report cp (ok u, s) = (ok (count_sealed pending report), record cp { store = s })
  put_done pending report cp (err e, s) = (err e, record cp { store = s })

  unfoldable pub put_sealed : ℕ → SealReport → Plane → Result ChainError Checkpoint → Ticked
  put_sealed pending report cp (err e) = (err (chain e), cp)
  put_sealed pending report cp (ok sealed) = put_done pending report cp (st.put sealed cp.store)

module _ ⦃d : Digest⦄ ⦃o : KeyOrder⦄ ⦃cb : Ciborium⦄ (s : Ed25519) (src : ChainSource)
    (st : CheckpointStore) where
  -- `tick` once the leaves are read; `clock` is the signer's.
  unfoldable pub with_leaves :
      ℤ
      → ChainId
      → ℕ
      → ℕ
      → ℕ
      → SealReport
      → Plane src st
      → Result ControlError (List Hash32) × src.State
      → Ticked src st
  with_leaves clock c seq_from head pending report cp (err e, after) =
      (err e, record cp { source = after })
  with_leaves clock c seq_from head pending report cp (ok leaves, after) =
      if nat_eq (length leaves) pending
      then put_sealed src st pending report (record cp { source = after })
          (seal_range s cp.signer clock c.tenant_id c.system_id seq_from leaves)
      else (
        err (invalid_range c pending seq_from head (length leaves)),
        record cp { source = after },
      )

  abbrev pub is_due : ℕ → ℤ → Option (ℕ × ℤ) → Plane src st → Bool
  is_due pending now last cp = leb cp.every_n pending || timer_fired cp.every_t now last

  -- `tick` once it is known how far a chain is sealed.
  unfoldable pub seal_pending :
      ℤ → ℤ → ChainId → ℕ → ℕ → ℕ → Option (ℕ × ℤ) → SealReport → Plane src st → Ticked src st
  seal_pending clock now c head seq_from pending last report cp =
      if is_due pending now last cp
      then with_leaves clock c seq_from head pending report cp
          (src.leaves c seq_from head cp.source)
      else (ok (count_lag pending report), cp)

  unfoldable pub with_last :
      ℤ
      → ℤ
      → ChainId
      → ℕ
      → SealReport
      → Plane src st
      → Result ControlError (Option (ℕ × ℤ)) × st.State
      → Ticked src st
  with_last clock now c head report cp (err e, after) = (err e, record cp { store = after })
  with_last clock now c head report cp (ok last, after) =
      let seq_from = seq_from_of last in
      if ltb head seq_from
      then (ok report, record cp { store = after })
      else seal_pending clock now c head seq_from ((head - seq_from + 1) % u64_mod) last report
          (record cp { store = after })

  unfoldable pub with_head :
      ℤ
      → ℤ
      → ChainId
      → SealReport
      → Plane src st
      → Result ControlError (Option ℕ) × src.State
      → Ticked src st
  with_head clock now c report cp (err e, after) = (err e, record cp { source = after })
  with_head clock now c report cp (ok none, after) = (ok report, record cp { source = after })
  with_head clock now c report cp (ok (some head), after) =
      with_last clock now c head report (record cp { source = after }) (st.last_sealed c cp.store)

  -- The body of the loop of `tick`.
  unfoldable pub seal_chain : ℤ → ℤ → ChainId → SealReport → Plane src st → Ticked src st
  seal_chain clock now c report cp =
      with_head clock now c (count_chain report) cp (src.head_seq c cp.source)

  abbrev pub then_seal : (SealReport → Plane src st → Ticked src st) → Ticked src st → Ticked src st
  then_seal rest (err e, cp) = (err e, cp)
  then_seal rest (ok report, cp) = rest report cp

  -- The loop of `tick`. `clock` is the time of the signer at each round.
  unfoldable pub seal_chains :
      List ChainId → (ℕ → ℤ) → ℤ → SealReport → Plane src st → Ticked src st
  seal_chains [] clock now report cp = (ok report, cp)
  seal_chains (c ∷ cs) clock now report cp =
      then_seal (seal_chains cs (λ n. clock (suc n)) now) (seal_chain (clock 0) now c report cp)

  abbrev pub with_chains :
      (ℕ → ℤ) → ℤ → Plane src st → Result ControlError (List ChainId) × src.State → Ticked src st
  with_chains clock now cp (err e, after) = (err e, record cp { source = after })
  with_chains clock now cp (ok cs, after) =
      seal_chains cs clock now no_seals (record cp { source = after })

  -- Checkpointer::tick
  unfoldable pub tick : (ℕ → ℤ) → ℤ → Plane src st → Ticked src st
  tick clock now cp = with_chains clock now cp (src.chains cp.source)

module _ (src : ChainSource) (st : CheckpointStore) where
  abbrev pub Lags : Type 0
  Lags = Result ControlError (List (ChainId × ℕ)) × Plane src st

  abbrev pub sealed_to : Option (ℕ × ℤ) → ℕ
  sealed_to none = 0
  sealed_to (some (seq, at)) = seq

  abbrev pub head_or_zero : Option ℕ → ℕ
  head_or_zero none = 0
  head_or_zero (some n) = n

  abbrev pub put_lag : ChainId → ℕ → Lags → Lags
  put_lag c n (err e, cp) = (err e, cp)
  put_lag c n (ok lags, cp) = (ok ((c, n) ∷ lags), cp)

  abbrev pub push_lag :
      ChainId
      → ℕ
      → (Plane src st → Lags)
      → Plane src st
      → Result ControlError (Option (ℕ × ℤ)) × st.State
      → Lags
  push_lag c head rest cp (err e, after) = (err e, record cp { store = after })
  push_lag c head rest cp (ok last, after) =
      put_lag c (head - sealed_to last) (rest (record cp { store = after }))

  abbrev pub lag_of :
      ChainId
      → (Plane src st → Lags)
      → Plane src st
      → Result ControlError (Option ℕ) × src.State
      → Lags
  lag_of c rest cp (err e, after) = (err e, record cp { source = after })
  lag_of c rest cp (ok head, after) =
      push_lag c (head_or_zero head) rest (record cp { source = after }) (st.last_sealed c cp.store)

  unfoldable pub lags : List ChainId → Plane src st → Lags
  lags [] cp = (ok [], cp)
  lags (c ∷ cs) cp = lag_of c (lags cs) cp (src.head_seq c cp.source)

  abbrev pub lag_chains : Plane src st → Result ControlError (List ChainId) × src.State → Lags
  lag_chains cp (err e, after) = (err e, record cp { source = after })
  lag_chains cp (ok cs, after) = lags cs (record cp { source = after })

  -- Checkpointer::lag
  unfoldable pub lag : Plane src st → Lags
  lag cp = lag_chains cp (src.chains cp.source)
