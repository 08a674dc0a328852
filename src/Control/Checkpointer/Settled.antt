-- ===== src/Control/Checkpointer/Settled.antt =====
-- crates/ancre-control/src/checkpointer.rs: a tick that succeeds leaves no chain with more unsealed events
-- than the policy allows, and none with more than the report says.
use ancre.Prelude.{
  ℕ, suc, ◌+◌, ◌-◌, ◌%◌, ◌≤◌, ◌<◌, ◌≡◌, ◌⊎◌, refl, sym, ap, ◌∙◌, subst, inl, inr, List, [], ◌∷◌,
  ◌++◌, Option, none, some, some_inj, Result, ok, err, length, u64_mod, Bool-cases, ◌==◌, ==→eq,
  arith,
}
use mathlib.Core.List.{Memᴰ}
use mathlib.Core.List.Memᴰ.{head, tail}
use ancre.Prelude.Int.{ℤ}
use ancre.Canon.Hash.{Hash32, Digest}
use ancre.Canon.Cbor.{KeyOrder, Ciborium}
use ancre.Chain.{ChainId}
use ancre.Chain.Checkpoint.{Checkpoint, Ed25519, AcceptsOwn, seal_range}
use ancre.Ingester.Sink.{ChainId-Eq}
use ancre.Control.Checkpointer.{
  ControlError, ChainSource, CheckpointStore, SealReport, Plane, Ticked, seq_from_of, seal_chain,
  seal_chains, then_seal, with_chains, tick, no_seals, larger, count_chain, count_lag, count_sealed,
}
use ancre.Control.Checkpointer.Rounds.{
  Attests, Kept, Round, failed, empty, behind, waiting, written, doubted, seal_chain-Round,
  sealed_chain, last_row_of, first_unsealed, unsealed_to, Heads, i64_mod,
}
use ancre.Control.Checkpointer.Puts.{seal_range-Seals, put-appended}

-- A source that is not written to while it is read, and whose numbers are those of an `i64`.
pub record Steady (src : ChainSource) (known : List ChainId) (heads : ChainId → Option ℕ)
    : Type 0 where
  pub listed : (x y : src.State) (cs : List ChainId) → src.chains x ≡ (ok cs, y) → cs ≡ known
  pub answered :
      (c : ChainId) (x y : src.State) (h : Option ℕ) → src.head_seq c x ≡ (ok h, y) → h ≡ heads c
  pub numbered : (c : ChainId) (n : ℕ) → heads c ≡ some n → n < i64_mod

larger-left : (a b : ℕ) → a ≤ larger a b
larger-left a b = ground arith

larger-right : (a b : ℕ) → b ≤ larger a b
larger-right a b = ground arith

last_row-append :
    (cps : List Checkpoint) (cp : Checkpoint)
    → last_row_of (cps ++ cp ∷ []) ≡ some (cp.body.seq_to, cp.body.built_at)
last_row-append [] cp = refl
last_row-append (c ∷ []) cp = refl
last_row-append (c ∷ e ∷ cps) cp = last_row-append (e ∷ cps) cp

module _ ⦃d : Digest⦄ ⦃o : KeyOrder⦄ ⦃cb : Ciborium⦄ (s : Ed25519) (src : ChainSource)
    (st : CheckpointStore) (keeps : Attests st) where
  -- Of the events of a chain up to `top`, those without a checkpoint are no more than the report says, and
  -- fewer than `every_n` if there are any.
  pub record IsSettled (c : ChainId) (top : ℕ) (report : SealReport) (cp : Plane src st)
      : Type 0 where
    pub reported : top + 1 - first_unsealed s src st keeps c cp ≤ report.max_lag
    pub few :
        (top < first_unsealed s src st keeps c cp)
        ⊎ (top + 1 - first_unsealed s src st keeps c cp < cp.every_n)

  module _ (accepts : AcceptsOwn s) (known : List ChainId) (heads : ChainId → Option ℕ)
      (steady : Steady src known heads) (c : ChainId) (top : ℕ) (here : heads c ≡ some top) where
    abbrev Fine : SealReport → Plane src st → Type 0
    Fine report cp = IsSettled c top report cp

    abbrev next_unsealed : Plane src st → ℕ
    next_unsealed cp = first_unsealed s src st keeps c cp

    -- A plane with the same rows and a report that says no less.
    Fine-mono :
        (report report' : SealReport) (cp cp' : Plane src st)
        → report.max_lag ≤ report'.max_lag
        → keeps.rows c cp'.store ≡ keeps.rows c cp.store
        → cp'.every_n ≡ cp.every_n
        → Fine report cp
        → Fine report' cp'
    Fine-mono report report' cp cp' le rows n fine =
        let same : next_unsealed cp' ≡ next_unsealed cp =
          ap (λ r. seq_from_of (last_row_of r)) rows in
        record {
          reported = omega (arith, le, same, fine.reported);
          few = elim fine.few [
            | inl a ↦ inl (omega (arith, a, same))
            | inr b ↦ inr (omega (arith, b, same, n))
          ];
        }

    known_head :
        (k : ChainId) (cp : Plane src st) (h : Option ℕ) → Heads s src st keeps k cp h → h ≡ heads k
    known_head k cp h x = steady.answered k cp.source x.0 h x.1

    -- A checkpoint that was written for this chain seals it up to its head.
    written-Fine :
        (clock : ℤ) (k : ChainId) (report : SealReport) (cp x mid : Plane src st) (n : ℕ)
        (leaves : List Hash32) (sealed : Checkpoint) (u : Unit {0})
        → c ≡ sealed_chain sealed
        → Heads s src st keeps k cp (some n)
        → first_unsealed s src st keeps k cp ≤ n
        → length leaves ≡ unsealed_to s src st keeps n k cp
        → seal_range s cp.signer clock k.tenant_id k.system_id
            (first_unsealed s src st keeps k cp)
            leaves
          ≡ ok sealed
        → Kept src st keeps cp mid
        → st.put sealed mid.store ≡ (ok u, x.store)
        → Fine report x
    written-Fine clock k report cp x mid n leaves sealed u own h le many made kept put =
        let answer = known_head k cp (some n) h in
        let bound = steady.numbered k n (sym answer) in
        let f =
          seal_range-Seals s cp.signer clock k (first_unsealed s src st keeps k cp) n leaves sealed
            accepts le (omega (arith, bound)) many made in
        let top_is : n ≡ top = some_inj (answer ∙ ap heads (sym (own ∙ f.owner)) ∙ here) in
        let rows : keeps.rows c x.store ≡ keeps.rows c cp.store ++ sealed ∷ [] =
          subst (λ k. keeps.rows k x.store ≡ keeps.rows k cp.store ++ sealed ∷ []) (sym own)
            (put-appended s src st keeps k cp mid x.store _ n leaves sealed kept le bound f u
              put) in
        let next : next_unsealed x ≡ (sealed.body.seq_to + 1) % u64_mod =
          ap (λ r. seq_from_of (last_row_of r)) rows
          ∙ ap seq_from_of (last_row-append (keeps.rows c cp.store) sealed) in
        record {
          reported = omega (arith, next, f.stops, top_is, bound);
          few = inl (omega (arith, next, f.stops, top_is, bound));
        }

    same_chain :
        (clock : ℤ) (cp : Plane src st) (n : ℕ) (leaves : List Hash32) (sealed : Checkpoint)
        → Heads s src st keeps c cp (some n)
        → next_unsealed cp ≤ n
        → length leaves ≡ unsealed_to s src st keeps n c cp
        → seal_range s cp.signer clock c.tenant_id c.system_id (next_unsealed cp) leaves ≡ ok sealed
        → c ≡ sealed_chain sealed
    same_chain clock cp n leaves sealed h le many made =
        let bound = steady.numbered c n (sym (known_head c cp (some n) h)) in
        sym
          (seal_range-Seals s cp.signer clock c (next_unsealed cp) n leaves sealed accepts le
            (omega (arith, bound)) many made).owner

    abbrev AllFine : Ticked src st → Type 0
    AllFine (err e, cp) = Unit {0}
    AllFine (ok report, cp) = Fine report cp

    -- A round of any chain keeps what is known of this chain.
    Round-kept :
        (clock : ℤ) (k : ChainId) (report : SealReport) (cp : Plane src st) (t : Ticked src st)
        → Round s src st keeps clock k report cp t
        → Fine report cp
        → AllFine t
    Round-kept clock k report cp t (failed e x kept) fine = tt
    Round-kept clock k report cp t (empty x h kept) fine =
        Fine-mono report (count_chain report) cp x (omega arith) (kept.rows_kept c) kept.n_kept fine
    Round-kept clock k report cp t (behind x n h lt kept) fine =
        Fine-mono report (count_chain report) cp x (omega arith) (kept.rows_kept c) kept.n_kept fine
    Round-kept clock k report cp t (waiting x n h le lt kept) fine =
        Fine-mono report (count_lag (unsealed_to s src st keeps n k cp) (count_chain report)) cp x
          (larger-left report.max_lag (unsealed_to s src st keeps n k cp)) (kept.rows_kept c)
          kept.n_kept fine
    Round-kept clock k report cp t
          (written x mid n leaves sealed u h le many made kept put signer same_n) fine =
        elim (Bool-cases (c == sealed_chain sealed)) [
          | inr other ↦
              Fine-mono report
                (count_sealed (unsealed_to s src st keeps n k cp) (count_chain report)) cp x
                (omega arith)
                (keeps.put_other c sealed mid.store x.store (ok u) other put ∙ kept.rows_kept c)
                same_n fine
          | inl same ↦
              written-Fine clock k _ cp x mid n leaves sealed u (==→eq c (sealed_chain sealed) same)
                h le many made kept put
        ]
    Round-kept clock k report cp t (doubted x mid n leaves sealed e h le many made kept put signer)
          fine =
        tt

    -- A round of this chain settles it.
    Round-settled :
        (clock : ℤ) (report : SealReport) (cp : Plane src st) (t : Ticked src st)
        → Round s src st keeps clock c report cp t
        → AllFine t
    Round-settled clock report cp t (failed e x kept) = tt
    Round-settled clock report cp t (empty x h kept) = cc (known_head c cp none h ∙ here)
    Round-settled clock report cp t (behind x n h lt kept) =
        let top_is : n ≡ top = some_inj (known_head c cp (some n) h ∙ here) in
        let same : next_unsealed x ≡ next_unsealed cp =
          ap (λ r. seq_from_of (last_row_of r)) (kept.rows_kept c) in
        record {
          reported = omega (arith, lt, same, top_is);
          few = inl (omega (arith, lt, same, top_is));
        }
    Round-settled clock report cp t (waiting x n h le lt kept) =
        let top_is : n ≡ top = some_inj (known_head c cp (some n) h ∙ here) in
        let same : next_unsealed x ≡ next_unsealed cp =
          ap (λ r. seq_from_of (last_row_of r)) (kept.rows_kept c) in
        let bound = steady.numbered c top here in
        record {
          reported = omega (
            arith,
            le,
            same,
            top_is,
            bound,
            larger-right report.max_lag (unsealed_to s src st keeps n c cp),
          );
          few = inr (omega (arith, lt, le, same, top_is, bound, kept.n_kept));
        }
    Round-settled clock report cp t
          (written x mid n leaves sealed u h le many made kept put signer same_n) =
        written-Fine clock c _ cp x mid n leaves sealed u
          (same_chain clock cp n leaves sealed h le many made) h le many made kept put
    Round-settled clock report cp t
          (doubted x mid n leaves sealed e h le many made kept put signer) =
        tt

    AllFine-then :
        (rest : SealReport → Plane src st → Ticked src st) (t : Ticked src st)
        → ((report : SealReport) (cp : Plane src st) → Fine report cp → AllFine (rest report cp))
        → AllFine t
        → AllFine (then_seal s src st rest t)
    AllFine-then rest (err e, cp) next fine = tt
    AllFine-then rest (ok report, cp) next fine = next report cp fine

    AllFine-last :
        (rest : SealReport → Plane src st → Ticked src st) (t : Ticked src st)
        → ((report : SealReport) (cp : Plane src st) → AllFine (rest report cp))
        → AllFine (then_seal s src st rest t)
    AllFine-last rest (err e, cp) next = tt
    AllFine-last rest (ok report, cp) next = next report cp

    seal_chains-kept :
        (cs : List ChainId) (clock : ℕ → ℤ) (now : ℤ) (report : SealReport) (cp : Plane src st)
        → Fine report cp
        → AllFine (seal_chains s src st cs clock now report cp)
    unfolding seal_chains
    seal_chains-kept [] clock now report cp fine = fine
    seal_chains-kept (k ∷ cs) clock now report cp fine =
        AllFine-then _ _ (λ r p f. seal_chains-kept cs (λ n. clock (suc n)) now r p f)
          (Round-kept (clock 0) k report cp _
            (seal_chain-Round s src st keeps (clock 0) now k report cp) fine)

    seal_chains-settled :
        (cs : List ChainId) (clock : ℕ → ℤ) (now : ℤ) (report : SealReport) (cp : Plane src st)
        → Memᴰ c cs
        → AllFine (seal_chains s src st cs clock now report cp)
    unfolding seal_chains
    seal_chains-settled [] clock now report cp m = elim m [ ]
    seal_chains-settled (k ∷ cs) clock now report cp (tail m) =
        AllFine-last _ _ (λ r p. seal_chains-settled cs (λ n. clock (suc n)) now r p m)
    seal_chains-settled (k ∷ cs) clock now report cp (head e) =
        AllFine-then _ _ (λ r p f. seal_chains-kept cs (λ n. clock (suc n)) now r p f)
          (subst (λ x. AllFine (seal_chain s src st (clock 0) now x report cp)) e
            (Round-settled (clock 0) report cp _
              (seal_chain-Round s src st keeps (clock 0) now c report cp)))

    with_chains-settled :
        (clock : ℕ → ℤ) (now : ℤ) (cp : Plane src st)
        (answer : Result ControlError (List ChainId) × src.State)
        → Memᴰ c known
        → src.chains cp.source ≡ answer
        → AllFine (with_chains s src st clock now cp answer)
    with_chains-settled clock now cp (err e, after) m q = tt
    with_chains-settled clock now cp (ok cs, after) m q =
        seal_chains-settled cs clock now no_seals _
          (subst (Memᴰ c) (sym (steady.listed cp.source after cs q)) m)

  -- After a tick that succeeds over a source that is not written to meanwhile, each chain that it
  -- lists, with events, is settled: the events without a checkpoint are no more than the report's
  -- `max_lag`, and fewer than `every_n` if there are any. The store does what `Attests` says: no
  -- other writer puts checkpoints meanwhile, `last_sealed` reads the last row of the chain, a `put`
  -- that succeeds appends a checkpoint that ends after the last row, and one that fails appends it
  -- or changes nothing. The signer's key accepts what it signs, and the numbers of the heads are
  -- below 2^63.
  pub tick-IsSettled :
      (known : List ChainId) (heads : ChainId → Option ℕ) (c : ChainId) (top : ℕ) (clock : ℕ → ℤ)
      (now : ℤ) (cp cp' : Plane src st) (report : SealReport)
      → AcceptsOwn s
      → Steady src known heads
      → Memᴰ c known
      → heads c ≡ some top
      → tick s src st clock now cp ≡ (ok report, cp')
      → IsSettled c top report cp'
  unfolding tick
  tick-IsSettled known heads c top clock now cp cp' report accepts steady m here q =
      subst (AllFine accepts known heads steady c top here) q (
        with_chains-settled accepts known heads steady c top here clock now cp
          (src.chains cp.source) m refl)
