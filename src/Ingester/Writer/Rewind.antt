-- ===== src/Ingester/Writer/Rewind.antt =====
-- crates/ancre-ingester/src/chain_writer.rs: a rewind gives back the writer as it was before a run.
use ancre.Prelude.{
  ℕ, ◌+◌, ◌%◌, ◌≤◌, ◌<◌, ◌≡◌, refl, sym, ap, ◌∙◌, subst, List, [], ◌∷◌, ◌++◌, Option, none, ok,
  length, arith, All, All-append, u64_mod, ℕ-Eq, List-Eq, ltb, lt→ltb, le→ltb, Bool, true, false,
}
use ancre.Prelude.Int.{ℤ}
use ancre.Prelude.Maps.{lookup, remove_absent}
use ancre.Canon.Hash.{Hash32, Digest}
use ancre.Canon.Cbor.{KeyOrder, Ciborium}
use ancre.Types.Event.{EmittedEvent, AuditEvent}
use ancre.Ingester.Writer.{ChainWriter, dedupe_window, remember, append}
use ancre.Ingester.Writer.History.{
  Written, done, appended, refused, day_begun, append-eq-ok, append-eq-err,
}
use mathlib.Core.List.{append-nil, append_assoc}
use ancre.Prelude.Maps.{
  contains_key, contains_key-lookup, contains_key_absent, lookup_absent-append, retain, retain_list,
  retain_list_keeps, retain_list_none, retain_list-append,
}
use ancre.Prelude.{ap₂, Text}
use ancre.Chain.{ChainId}
use ancre.Ingester.Writer.{rewind_to, forget_after}
use ancre.Ingester.Writer.Window.{IsWriter, Known, All-map, append-next_seq}
use ancre.Ingester.Writer.Rollback.{append_kept, append_kept-length}

-- A writer that went on from `b`: it remembers more, and what is new has numbers from the cursor of
-- `b` on.
record Extends (b w : ChainWriter) : Type 0 where
  news : List (List ℕ × ℕ)
  ids : List (List ℕ)
  seen_grew : w.seen ≡ news ++ b.seen
  order_grew : w.seen_order ≡ b.seen_order ++ ids
  late : All (λ (e : List ℕ × ℕ). ltb e.1 b.next_seq ≡ false) news
  unseen : All (λ id. lookup id b.seen ≡ none) ids
  same_chain : w.chain ≡ b.chain
  same_node : w.node_id ≡ b.node_id
  further : b.next_seq ≤ w.next_seq

Extends-refl : (b : ChainWriter) → Extends b b
Extends-refl b = record {
  news = [];
  ids = [];
  seen_grew = refl;
  order_grew = sym (append-nil b.seen_order);
  late = tt;
  unseen = tt;
  same_chain = refl;
  same_node = refl;
  further = omega arith;
}

remember-names :
    (id : List ℕ) (seq : ℕ) (w : ChainWriter)
    → ((remember id seq w).chain ≡ w.chain) × ((remember id seq w).node_id ≡ w.node_id)
unfolding remember
remember-names id seq w = (refl, refl)

module _ ⦃d : Digest⦄ ⦃o : KeyOrder⦄ ⦃c : Ciborium⦄ where
  append-Extends :
      (b : ChainWriter) (now : ℤ) (e : EmittedEvent) (w w' : ChainWriter) (ev : AuditEvent)
      → Extends b w
      → length w.seen_order + 1 ≤ dedupe_window
      → w.next_seq + 1 < u64_mod
      → append now e w ≡ (ok ev, w')
      → Extends b w'
  append-Extends b now e w w' ev x room fits q =
      let (fresh, seen, order) = append_kept now e w w' ev room q in
      let (h, a, made, moved) = append-eq-ok now e w w' ev q in
      let (chained, noded) =
        remember-names e.event_id w.next_seq
          (record w { head_hash = h; next_seq = (w.next_seq + 1) % u64_mod }) in
      let absent : lookup e.event_id (x.news ++ b.seen) ≡ none =
        ap (lookup e.event_id) (sym x.seen_grew) ∙ fresh in
      record {
        news = (e.event_id, w.next_seq) ∷ x.news;
        ids = x.ids ++ e.event_id ∷ [];
        seen_grew =
            seen
            ∙ ap (λ m. (e.event_id, w.next_seq) ∷ m)
                (remove_absent e.event_id w.seen fresh ∙ x.seen_grew);
        order_grew =
            order
            ∙ ap (λ l. l ++ e.event_id ∷ []) x.order_grew
            ∙ append_assoc b.seen_order x.ids (e.event_id ∷ []);
        late = (le→ltb w.next_seq b.next_seq x.further, x.late);
        unseen =
            All-append (λ id. lookup id b.seen ≡ none) x.ids (e.event_id ∷ []) x.unseen
              (lookup_absent-append e.event_id x.news b.seen absent, tt);
        same_chain = ap (λ (v : ChainWriter). v.chain) (sym moved) ∙ chained ∙ x.same_chain;
        same_node = ap (λ (v : ChainWriter). v.node_id) (sym moved) ∙ noded ∙ x.same_node;
        further = omega (arith, x.further, append-next_seq now e w w' ev fits q);
      }

  Written-Extends :
      {w w' : ChainWriter} {evs : List AuditEvent}
      → (b : ChainWriter) → Written w evs w'
      → Extends b w
      → length w.seen_order + length evs ≤ dedupe_window
      → w.next_seq + length evs < u64_mod
      → Extends b w'
  Written-Extends b (done w) x room fits = x
  Written-Extends b (refused now e w w' w'' y evs q run) x room fits =
      let same : w ≡ w' = sym (append-eq-err now e w w' y q) in
      Written-Extends b run (subst (Extends b) same x)
        (subst (λ (v : ChainWriter). length v.seen_order + length evs ≤ dedupe_window) same room)
        (subst (λ (v : ChainWriter). v.next_seq + length evs < u64_mod) same fits)
  Written-Extends b (day_begun day w w'' evs run) x room fits =
      Written-Extends b run
        (record {
          news = x.news;
          ids = x.ids;
          seen_grew = x.seen_grew;
          order_grew = x.order_grew;
          late = x.late;
          unseen = x.unseen;
          same_chain = x.same_chain;
          same_node = x.same_node;
          further = x.further;
        })
        room fits
  Written-Extends b (appended now e w w' w'' ev evs q run) x room fits =
      let one : length w.seen_order + 1 ≤ dedupe_window = omega arith in
      let next : w.next_seq + 1 < u64_mod = omega arith in
      Written-Extends b run (append-Extends b now e w w' ev x one next q)
        (omega (arith, append_kept-length now e w w' ev one q))
        (omega (arith, append-next_seq now e w w' ev next q))

retained_seen :
    (b w : ChainWriter)
    → IsWriter b
    → Extends b w
    → retain (λ at. ltb at b.next_seq) w.seen ≡ b.seen
retained_seen b w m x =
    let keep : List ℕ × ℕ → Bool = λ e. ltb e.1 b.next_seq in
    let old =
      All-map (λ (e : List ℕ × ℕ). e.1 < b.next_seq) (λ (e : List ℕ × ℕ). keep e ≡ true) b.seen
        (λ e lt. lt→ltb e.1 b.next_seq lt) m.behind in
    ap (retain_list keep) x.seen_grew
    ∙ retain_list-append keep x.news b.seen
    ∙ ap₂ ◌++◌ (retain_list_none keep x.news x.late) (retain_list_keeps keep b.seen old)

retained_order :
    (b w : ChainWriter)
    → IsWriter b
    → Extends b w
    → retain_list (λ id. contains_key id b.seen) w.seen_order ≡ b.seen_order
retained_order b w m x =
    let keep : List ℕ → Bool = λ id. contains_key id b.seen in
    let old =
      All-map (Known b.seen) (λ id. keep id ≡ true) b.seen_order
        (λ id k. contains_key-lookup id b.seen k.1) m.known in
    let new =
      All-map (λ id. lookup id b.seen ≡ none) (λ id. keep id ≡ false) x.ids
        (λ id h. contains_key_absent id b.seen h) x.unseen in
    ap (retain_list keep) x.order_grew
    ∙ retain_list-append keep b.seen_order x.ids
    ∙ ap₂ ◌++◌ (retain_list_keeps keep b.seen_order old) (retain_list_none keep x.ids new)
    ∙ append-nil b.seen_order

-- The writer from what a rewind sets and what it keeps.
abbrev rebuilt :
    ℕ → Hash32 → Option ℤ → ChainId → Text → List (List ℕ × ℕ) → List (List ℕ) → ChainWriter
rebuilt next head day chain node seen order = record {
  chain = chain;
  next_seq = next;
  head_hash = head;
  node_id = node;
  seen = seen;
  seen_order = order;
  last_heartbeat_day = day;
}

rewind_to-Extends :
    (b w : ChainWriter)
    → IsWriter b
    → Extends b w
    → rewind_to b.next_seq b.head_hash w ≡ record b { last_heartbeat_day = w.last_heartbeat_day }
unfolding rewind_to forget_after
rewind_to-Extends b w m x =
    let build = rebuilt b.next_seq b.head_hash w.last_heartbeat_day in
    let kept = retain (λ at. ltb at b.next_seq) w.seen in
    let seen = retained_seen b w m x in
    ap (λ s. build w.chain w.node_id s (retain_list (λ id. contains_key id s) w.seen_order)) seen
    ∙ ap (build w.chain w.node_id b.seen) (retained_order b w m x)
    ∙ ap₂ (λ n g. build n g b.seen b.seen_order) x.same_chain x.same_node

module _ ⦃d : Digest⦄ ⦃o : KeyOrder⦄ ⦃c : Ciborium⦄ where
  -- A rewind after a run of appends gives back the writer as it was before the run, its memory
  -- included, so that what is delivered again is chained again, with the same numbers; only the day
  -- of the last heartbeat stays. The memory of the writer before the run is in order: at most a
  -- window of ids, each once, each with a number below the cursor. The ids that it remembers, all
  -- of them, and those of the run fit into the window together, so that none is dropped, and no
  -- number passes the largest `u64`.
  pub rewind_to-Written :
      (w w' : ChainWriter) (evs : List AuditEvent)
      → IsWriter w
      → Written w evs w'
      → length w.seen_order + length evs ≤ dedupe_window
      → w.next_seq + length evs < u64_mod
      → rewind_to w.next_seq w.head_hash w'
        ≡ record w { last_heartbeat_day = w'.last_heartbeat_day }
  rewind_to-Written w w' evs m run room fits =
      rewind_to-Extends w w' m (Written-Extends w run (Extends-refl w) room fits)
