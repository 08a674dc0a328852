-- ===== src/Ingester/Writer/Rollback.antt =====
-- crates/ancre-ingester/src/chain_writer.rs: what an append adds to the memory while the window has room.
use ancre.Prelude.{
  ℕ, ◌+◌, ◌%◌, ◌≤◌, ◌≡◌, sym, ap, ◌∙◌, List, [], ◌∷◌, ◌++◌, none, ok, length, length-append, arith,
  u64_mod, ℕ-Eq, List-Eq,
}
use ancre.Prelude.Int.{ℤ}
use ancre.Prelude.Maps.{lookup, insert}
use ancre.Canon.Hash.{Digest}
use ancre.Canon.Cbor.{KeyOrder, Ciborium}
use ancre.Types.Event.{EmittedEvent, AuditEvent}
use ancre.Ingester.Writer.{ChainWriter, dedupe_window, remember, append}
use ancre.Ingester.Writer.History.{append-eq-ok}
use ancre.Ingester.Writer.Window.{trim_kept}

-- With room in the window, remembering an id adds it and drops none.
remember_kept :
    (id : List ℕ) (seq : ℕ) (w : ChainWriter)
    → length w.seen_order + 1 ≤ dedupe_window
    → ((remember id seq w).seen ≡ insert id seq w.seen)
      × ((remember id seq w).seen_order ≡ w.seen_order ++ id ∷ [])
unfolding remember
remember_kept id seq w fits =
    let kept =
      trim_kept (w.seen_order ++ id ∷ []) (insert id seq w.seen)
        (omega (arith, length-append w.seen_order (id ∷ []))) in
    (ap (λ t. t.1) kept, ap (λ t. t.0) kept)

module _ ⦃d : Digest⦄ ⦃o : KeyOrder⦄ ⦃c : Ciborium⦄ where
  pub append_kept :
      (now : ℤ) (e : EmittedEvent) (w w' : ChainWriter) (ev : AuditEvent)
      → length w.seen_order + 1 ≤ dedupe_window
      → append now e w ≡ (ok ev, w')
      → (lookup e.event_id w.seen ≡ none)
        × (w'.seen ≡ insert e.event_id w.next_seq w.seen)
        × (w'.seen_order ≡ w.seen_order ++ e.event_id ∷ [])
  append_kept now e w w' ev fits q =
      let (h, a, made, moved) = append-eq-ok now e w w' ev q in
      let (seen, order) =
        remember_kept e.event_id w.next_seq
          (record w { head_hash = h; next_seq = (w.next_seq + 1) % u64_mod }) fits in
      (
        a.fresh,
        ap (λ (v : ChainWriter). v.seen) (sym moved) ∙ seen,
        ap (λ (v : ChainWriter). v.seen_order) (sym moved) ∙ order,
      )

  pub append_kept-length :
      (now : ℤ) (e : EmittedEvent) (w w' : ChainWriter) (ev : AuditEvent)
      → length w.seen_order + 1 ≤ dedupe_window
      → append now e w ≡ (ok ev, w')
      → length w'.seen_order ≡ length w.seen_order + 1
  append_kept-length now e w w' ev fits q =
      let (fresh, seen, order) = append_kept now e w w' ev fits q in
      ap length order ∙ length-append w.seen_order (e.event_id ∷ [])
