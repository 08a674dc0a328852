-- ===== src/Ingester/Pipeline/Resumed.antt =====
-- crates/ancre-ingester/src/pipeline.rs: a chain without a writer is resumed at the last of its rows.
use ancre.Prelude.{
  ℕ, ◌+◌, ◌<◌, ◌≡◌, refl, sym, ap, ◌∙◌, subst, inl, inr, List, Option, none, some, ok, length,
  arith, u64_mod, Eq-cases,
}
use ancre.Prelude.Maps.{lookup, insert, lookup_new, lookup_other}
use ancre.Canon.Hash.{Hash32, Digest}
use ancre.Canon.Cbor.{KeyOrder, Ciborium}
use ancre.Types.Event.{AuditEvent}
use ancre.Chain.{ChainId}
use ancre.Ingester.Sink.{EventStore, Keeps, ChainId-Eq, of_chain, last_row}
use ancre.Ingester.Writer.{ChainWriter}
use ancre.Ingester.Writer.History.{done}
use ancre.Ingester.Pipeline.{Batch, writer_from}
use ancre.Ingester.Pipeline.Rows.{IsChain, AtHead, writer_from-AtHead}
use ancre.Ingester.Pipeline.Tracked.{Progress}

module _ ⦃d : Digest⦄ ⦃o : KeyOrder⦄ ⦃cb : Ciborium⦄ where
  pub Progress-moved :
      (rows : List AuditEvent) {mine mine' : List AuditEvent} {at at' : Option (ℕ × Hash32)}
      {f f' : Option ChainWriter}
      → mine' ≡ mine
      → at' ≡ at
      → f' ≡ f
      → Progress rows mine at f
      → Progress rows mine' at' f'
  Progress-moved rows {mine} {mine'} {at} {at'} {f} {f'} p q r x =
      subst (λ g. Progress rows mine' at' g) (sym r)
        (subst (λ a. Progress rows mine' a f) (sym q) (subst (λ m. Progress rows m at f) (sym p) x))

  module _ (st : EventStore) (keeps : Keeps st) (c : ChainId) (rows : List AuditEvent)
      (sound : IsChain rows) (total : ℕ) (fits : length rows + total + 1 < u64_mod) where
    resumed-AtHead :
        (b : Batch st.State) (k : ChainId) (last : Option (ℕ × Hash32)) (s : st.State)
        → c ≡ k
        → keeps.rows c b.ingester.store ≡ rows
        → st.head k b.ingester.store ≡ (ok last, s)
        → AtHead rows (writer_from k b.ingester.node_id last)
    resumed-AtHead b k last s own stored q =
        let same : last_row rows ≡ last = sym (
          keeps.read k b.ingester.store s last q
          ∙ ap last_row (ap (λ j. keeps.rows j b.ingester.store) (sym own) ∙ stored)) in
        subst (λ l. AtHead rows (writer_from k b.ingester.node_id l)) same
          (writer_from-AtHead k b.ingester.node_id rows sound (omega arith))

    pub resumed-Progress :
        (b : Batch st.State) (k : ChainId) (last : Option (ℕ × Hash32)) (s : st.State)
        → keeps.rows c b.ingester.store ≡ rows
        → Progress rows (of_chain c b.chained) (lookup c b.rollback) (lookup c b.ingester.writers)
        → lookup k b.ingester.writers ≡ none
        → st.head k b.ingester.store ≡ (ok last, s)
        → let w = writer_from k b.ingester.node_id last in
          Progress rows
            (of_chain c b.chained)
            (lookup c b.rollback)
            (lookup c (insert k w b.ingester.writers))
    resumed-Progress b k last s stored p absent q =
        let w = writer_from k b.ingester.node_id last in
        elim (Eq-cases c k) [
          | inr ne ↦ Progress-moved rows refl refl (lookup_other c k w b.ingester.writers ne) p
          | inl own ↦
              let gone = ap (λ j. lookup j b.ingester.writers) own ∙ absent in
              let (nothing, fresh) = Progress-moved rows refl refl (sym gone) p in
              let new_one =
                subst (λ j. lookup c (insert j w b.ingester.writers) ≡ some w) own
                  (lookup_new c w b.ingester.writers) in
              Progress-moved rows nothing fresh new_one
                (w, resumed-AtHead b k last s own stored q, done w, (refl, refl))
        ]
