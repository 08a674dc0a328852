-- ===== src/Ingester/Writer/Redelivered.antt =====
-- crates/ancre-ingester/src/chain_writer.rs: redelivery inside the window is refused.
use ancre.Prelude.{
  ℕ, ◌+◌, ◌≤◌, ◌<◌, ◌≡◌, ◌≢◌, sym, ap, ◌∙◌, subst, inl, inr, List, [], ◌∷◌, ◌++◌, none, some, ok,
  err, length, length-append, arith, u64_mod, ℕ-Eq, List-Eq, All, ltb, ltb→lt, ltb→le, Bool-cases,
}
use mathlib.Core.List.{append_assoc}
use ancre.Prelude.Int.{ℤ}
use ancre.Prelude.Maps.{lookup, insert, lookup-remove, lookup_other}
use ancre.Canon.Hash.{Digest}
use ancre.Canon.Cbor.{KeyOrder, Ciborium}
use ancre.Types.Event.{EmittedEvent, AuditEvent}
use ancre.Ingester.Writer.{ChainWriter, duplicate, dedupe_window, trim, remember, append}
use ancre.Ingester.Writer.History.{
  Written, done, appended, refused, day_begun, append-eq-ok, append-eq-err, append_known,
}
use ancre.Ingester.Writer.Window.{
  IsMemory, IsWriter, Known-ne, trim_kept, trim_popped, append-next_seq, append-IsWriter,
}

-- An id in the memory with its number, behind which there are at most `n` more recent ones.
record Holds (id : List ℕ) (n seq : ℕ) (order : List (List ℕ)) (seen : List (List ℕ × ℕ))
    : Type 0 where
  older : List (List ℕ)
  newer : List (List ℕ)
  split : order ≡ older ++ id ∷ newer
  few : length newer ≤ n
  found : lookup id seen ≡ some seq

All-middle {ℓ κ} :
    {A : Type ℓ} (P : A → Type κ) (xs : List A) (a : A) (ys : List A) → All P (xs ++ a ∷ ys) → P a
All-middle P [] a ys h = h.0
All-middle P (x ∷ xs) a ys h = All-middle P xs a ys h.1

split-snoc {ℓ} :
    {A : Type ℓ} (xs : List A) (a : A) (ys : List A) (b : A)
    → (xs ++ a ∷ ys) ++ b ∷ [] ≡ xs ++ a ∷ (ys ++ b ∷ [])
split-snoc xs a ys b = append_assoc xs (a ∷ ys) (b ∷ [])

-- While the window has room, another id is put behind the others.
kept-Holds :
    (id e : List ℕ) (n seq m : ℕ) (older newer : List (List ℕ)) (seen : List (List ℕ × ℕ))
    → length ((older ++ id ∷ newer) ++ e ∷ []) ≤ dedupe_window
    → length newer ≤ n
    → lookup id (insert e m seen) ≡ some seq
    → let t = trim ((older ++ id ∷ newer) ++ e ∷ []) (insert e m seen) in
      Holds id (n + 1) seq t.0 t.1
kept-Holds id e n seq m older newer seen room few found =
    let kept = trim_kept ((older ++ id ∷ newer) ++ e ∷ []) (insert e m seen) room in
    record {
      older = older;
      newer = newer ++ e ∷ [];
      split = ap (λ t. t.0) kept ∙ split-snoc older id newer e;
      few = omega (arith, few, length-append newer (e ∷ []));
      found = ap (λ t. lookup id t.1) kept ∙ found;
    }

-- The oldest id goes when the window is full, and it is not this one.
trim-Holds :
    (id e : List ℕ) (n seq m : ℕ) (older newer : List (List ℕ)) (seen : List (List ℕ × ℕ))
    → IsMemory m (older ++ id ∷ newer) seen
    → lookup e seen ≡ none
    → n + 1 < dedupe_window
    → length newer ≤ n
    → lookup id seen ≡ some seq
    → let t = trim ((older ++ id ∷ newer) ++ e ∷ []) (insert e m seen) in
      Holds id (n + 1) seq t.0 t.1
trim-Holds id e n seq m [] newer seen memory fresh room few found =
    kept-Holds id e n seq m [] newer seen
      (omega (arith, room, few, length-append (id ∷ newer) (e ∷ []))) few
      (lookup_other id e m seen (Known-ne seen id e (seq, found) fresh) ∙ found)
trim-Holds id e n seq m (old ∷ older) newer seen memory fresh room few found =
    let order = older ++ id ∷ newer in
    let still : lookup id (insert e m seen) ≡ some seq =
      lookup_other id e m seen (Known-ne seen id e (seq, found) fresh) ∙ found in
    elim (Bool-cases (ltb dedupe_window (length (old ∷ order) + 1))) [
      | inr small ↦
          let le = ltb→le dedupe_window (length (old ∷ order) + 1) small in
          kept-Holds id e n seq m (old ∷ older) newer seen
            (omega (arith, le, length-append (old ∷ order) (e ∷ []))) few still
      | inl full ↦
          let lt = ltb→lt dedupe_window (length (old ∷ order) + 1) full in
          let count : length (order ++ e ∷ []) ≡ dedupe_window =
            omega (arith, lt, memory.bounded, length-append order (e ∷ [])) in
          let popped = trim_popped old (order ++ e ∷ []) (insert e m seen) count in
          let other : old ≢ id = All-middle (λ x. old ≢ x) older id newer memory.distinct.0 in
          record {
            older = older;
            newer = newer ++ e ∷ [];
            split = ap (λ t. t.0) popped ∙ split-snoc older id newer e;
            few = omega (arith, few, length-append newer (e ∷ []));
            found =
                ap (λ t. lookup id t.1) popped
                ∙ lookup-remove id old (insert e m seen) (λ q. other (sym q))
                ∙ still;
          }
    ]

-- The id that is remembered last is held.
last-Holds :
    (id : List ℕ) (seq m : ℕ) (order : List (List ℕ)) (seen : List (List ℕ × ℕ))
    → length order ≤ dedupe_window
    → let t = trim (order ++ id ∷ []) (insert id m seen) in
      lookup id t.1 ≡ some seq → Holds id 0 seq t.0 t.1
last-Holds id seq m [] seen le found = record {
  older = [];
  newer = [];
  split = ap (λ t. t.0) (trim_kept (id ∷ []) (insert id m seen) (omega arith));
  few = omega arith;
  found = found;
}
last-Holds id seq m (old ∷ order) seen le found =
    elim (Bool-cases (ltb dedupe_window (length (old ∷ order) + 1))) [
      | inr small ↦
          let fits = ltb→le dedupe_window (length (old ∷ order) + 1) small in
          record {
            older = old ∷ order;
            newer = [];
            split =
                ap (λ t. t.0)
                  (trim_kept (old ∷ order ++ id ∷ []) (insert id m seen)
                    (omega (arith, fits, length-append (old ∷ order) (id ∷ []))));
            few = omega arith;
            found = found;
          }
      | inl full ↦
          let lt = ltb→lt dedupe_window (length (old ∷ order) + 1) full in
          record {
            older = order;
            newer = [];
            split =
                ap (λ t. t.0)
                  (trim_popped old (order ++ id ∷ []) (insert id m seen)
                    (omega (arith, lt, le, length-append order (id ∷ []))));
            few = omega arith;
            found = found;
          }
    ]

module _ ⦃d : Digest⦄ ⦃o : KeyOrder⦄ ⦃c : Ciborium⦄ where
  abbrev Keeps : List ℕ → ℕ → ℕ → ChainWriter → Type 0
  Keeps id n seq w = Holds id n seq w.seen_order w.seen

  append-Keeps :
      (id : List ℕ) (n seq : ℕ) (now : ℤ) (e : EmittedEvent) (w w' : ChainWriter) (ev : AuditEvent)
      → IsWriter w
      → n + 1 < dedupe_window
      → append now e w ≡ (ok ev, w')
      → Keeps id n seq w
      → Keeps id (n + 1) seq w'
  unfolding remember
  append-Keeps id n seq now e w w' ev m room q k =
      let (h, a, made, moved) = append-eq-ok now e w w' ev q in
      subst (Keeps id (n + 1) seq) moved (
        subst
          (λ l.
            let t = trim (l ++ e.event_id ∷ []) (insert e.event_id w.next_seq w.seen) in
            Holds id (n + 1) seq t.0 t.1)
          (sym k.split)
          (trim-Holds id e.event_id n seq w.next_seq k.older k.newer w.seen
            (subst (λ l. IsMemory w.next_seq l w.seen) k.split m) a.fresh room k.few k.found))

  Written-found :
      {w w' : ChainWriter} {evs : List AuditEvent}
      → (id : List ℕ) (n seq : ℕ) → Written w evs w'
      → IsWriter w
      → w.next_seq + length evs < u64_mod
      → n + length evs < dedupe_window
      → Keeps id n seq w
      → lookup id w'.seen ≡ some seq
  Written-found id n seq (done w) m fits room k = k.found
  Written-found id n seq (refused now e w w' w'' x evs q run) m fits room k =
      let same : w ≡ w' = sym (append-eq-err now e w w' x q) in
      Written-found id n seq run (subst IsWriter same m)
        (subst (λ (v : ChainWriter). v.next_seq + length evs < u64_mod) same fits) room
        (subst (Keeps id n seq) same k)
  Written-found id n seq (day_begun day w w'' evs run) m fits room k =
      Written-found id n seq run m fits room
        (record { older = k.older; newer = k.newer; split = k.split; few = k.few; found = k.found })
  Written-found id n seq (appended now e w w' w'' ev evs q run) m fits room k =
      let next : w.next_seq + 1 < u64_mod = omega arith in
      let (memory, found) = append-IsWriter now e w w' ev m next q in
      Written-found id (n + 1) seq run memory
        (omega (arith, fits, append-next_seq now e w w' ev next q)) (omega (arith, room))
        (append-Keeps id n seq now e w w' ev m (omega arith) q k)

  appended-Keeps :
      (now : ℤ) (e : EmittedEvent) (w v : ChainWriter) (ev : AuditEvent)
      → IsWriter w
      → append now e w ≡ (ok ev, v)
      → lookup e.event_id v.seen ≡ some ev.seq
      → Keeps e.event_id 0 ev.seq v
  unfolding remember
  appended-Keeps now e w v ev m q found =
      let (h, a, made, moved) = append-eq-ok now e w v ev q in
      subst (Keeps e.event_id 0 ev.seq) moved (
        last-Holds e.event_id ev.seq w.next_seq w.seen_order w.seen m.bounded
          (subst (λ (x : ChainWriter). lookup e.event_id x.seen ≡ some ev.seq) (sym moved) found))

  -- After an event was appended, an event with its id is refused as a duplicate of that number and
  -- changes nothing, as long as fewer events than the window holds were appended since, however
  -- many ids were remembered before. The memory of the writer before is in order: at most a window
  -- of ids, each once, each with a number below the cursor. No number passes the largest `u64`.
  pub append_redelivered :
      (now now' : ℤ) (e e' : EmittedEvent) (w v w' : ChainWriter) (ev : AuditEvent)
      (evs : List AuditEvent)
      → IsWriter w
      → w.next_seq + length evs + 1 < u64_mod
      → append now e w ≡ (ok ev, v)
      → Written v evs w'
      → length evs < dedupe_window
      → e'.event_id ≡ e.event_id
      → append now' e' w' ≡ (err (duplicate e'.event_id ev.seq), w')
  append_redelivered now now' e e' w v w' ev evs m fits q run room same =
      let next : w.next_seq + 1 < u64_mod = omega arith in
      let (memory, found) = append-IsWriter now e w v ev m next q in
      append_known now' e' w' ev.seq (
        ap (λ id. lookup id w'.seen) same
        ∙ Written-found e.event_id 0 ev.seq run memory
            (omega (arith, fits, append-next_seq now e w v ev next q)) (omega (arith, room))
            (appended-Keeps now e w v ev m q found))
