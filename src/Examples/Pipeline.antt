-- ===== src/Examples/Pipeline.antt =====
-- crates/ancre-ingester/src/pipeline.rs: a store in memory that refuses a given number of insertions,
-- and the theorems on batches at concrete inputs.
use ancre.Prelude.{
  ℕ, zero, suc, ◌≡◌, refl, ap, inl, List, [], ◌∷◌, ◌++◌, Result, ok, err, ok_inj, text, Bool-cases,
  inr, ◌==◌, sym, ◌∙◌,
}
use ancre.Types.Event.{AuditEvent}
use ancre.Chain.{ChainId}
use ancre.Ingester.Sink.{EventStore, Keeps, ChainId-Eq, chain_of, of_chain, last_row}
use ancre.Ingester.Writer.{IngestError, store}

of_chain-append :
    (c : ChainId) (xs ys : List AuditEvent) → of_chain c (xs ++ ys) ≡ of_chain c xs ++ of_chain c ys
unfolding of_chain
of_chain-append c [] ys = refl
of_chain-append c (x ∷ xs) ys = elim (Bool-cases (c == chain_of x.emitted)) [
  | inl t ↦ rw t (ap (λ r. x ∷ r) (of_chain-append c xs ys))
  | inr f ↦ rw f (of_chain-append c xs ys)
]

-- The insertions that are still refused, and the table.
abbrev pub Table : Type 0
Table = ℕ × List AuditEvent

abbrev pub insert_row : List AuditEvent → Table → Result IngestError (Unit {0}) × Table
insert_row batch (zero, table) = (ok tt, (zero, table ++ batch))
insert_row batch (suc n, table) = (err (store (text "down")), (n, table))

abbrev pub memory_store : EventStore
memory_store = record {
  State = Table;
  insert = insert_row;
  head = λ c st. (ok (last_row (of_chain c st.1)), st);
}

pub memory_inserted :
    (c : ChainId) (batch : List AuditEvent) (st st' : Table) (u : Unit {0})
    → insert_row batch st ≡ (ok u, st')
    → of_chain c st'.1 ≡ of_chain c st.1 ++ of_chain c batch
memory_inserted c batch (zero, table) st' u q =
    ap (λ p. of_chain c p.1.1) (sym q) ∙ of_chain-append c table batch
memory_inserted c batch (suc n, table) st' u q = cc (ap (λ p. p.0) q)

pub memory_refused :
    (c : ChainId) (batch : List AuditEvent) (st st' : Table) (e : IngestError)
    → insert_row batch st ≡ (err e, st')
    → of_chain c st'.1 ≡ of_chain c st.1
memory_refused c batch (zero, table) st' e q = cc (ap (λ p. p.0) q)
memory_refused c batch (suc n, table) st' e q = ap (λ p. of_chain c p.1.1) (sym q)

abbrev pub memory-Keeps : Keeps memory_store
memory-Keeps = record {
  rows = λ c st. of_chain c st.1;
  inserted = memory_inserted;
  refused = memory_refused;
  read = λ c st st' last q. ok_inj (ap (λ p. p.0) (sym q)) ∙ refl;
  untouched = λ c k st st' r q. ap (λ p. of_chain c p.1.1) (sym q);
}
