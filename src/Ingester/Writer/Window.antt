-- ===== src/Ingester/Writer/Window.antt =====
-- crates/ancre-ingester/src/chain_writer.rs: the memory of recent event ids, and redelivery.
use ancre.Prelude.{
  ℕ, ◌+◌, ◌%◌, ◌≤◌, ◌<◌, ◌≡◌, ◌≢◌, refl, sym, ap, ◌∙◌, inl, inr, subst, List, [], ◌∷◌, ◌++◌, none,
  some, ok, length, length-append, arith, All, All-append, u64_mod, ℕ-Eq, List-Eq, ltb, lt→ltb,
  le→ltb, ltb→lt, ltb→le, Bool-cases, ◌==◌,
}
use ancre.Prelude.Int.{ℤ}
use ancre.Prelude.Maps.{lookup, remove, insert, lookup-remove, lookup_new, lookup_other}
use ancre.Canon.Hash.{Hash32, Digest}
use ancre.Canon.Cbor.{KeyOrder, Ciborium}
use ancre.Types.Event.{EmittedEvent, AuditEvent}
use ancre.Ingester.Writer.{ChainWriter, dedupe_window, trim, remember, append}
use ancre.Ingester.Writer.History.{
  Written, done, appended, refused, day_begun, append-eq-ok, append-eq-err,
}

abbrev pub Distinct : List (List ℕ) → Type 0
Distinct [] = Unit {0}
Distinct (x ∷ xs) = All (λ y. x ≢ y) xs × Distinct xs

abbrev pub Known : List (List ℕ × ℕ) → List ℕ → Type 0
Known seen id = (seq : ℕ) × (lookup id seen ≡ some seq)

-- A memory of ids with their numbers, at a cursor: at most a window of ids, each once and each with
-- its number, and no number at the cursor or past it.
pub record IsMemory (n : ℕ) (order : List (List ℕ)) (seen : List (List ℕ × ℕ)) : Type 0 where
  pub bounded : length order ≤ dedupe_window
  pub distinct : Distinct order
  pub known : All (Known seen) order
  pub behind : All (λ (e : List ℕ × ℕ). e.1 < n) seen

abbrev pub IsWriter : ChainWriter → Type 0
IsWriter w = IsMemory w.next_seq w.seen_order w.seen

Distinct-append :
    (xs : List (List ℕ)) (y : List ℕ) → Distinct xs → All (λ x. x ≢ y) xs → Distinct (xs ++ y ∷ [])
Distinct-append [] y h ne = (tt, tt)
Distinct-append (x ∷ xs) y h ne =
    (All-append (λ z. x ≢ z) xs (y ∷ []) h.0 (ne.0, tt), Distinct-append xs y h.1 ne.1)

pub All-map {ℓ κ μ} :
    {A : Type ℓ} (P : A → Type κ) (Q : A → Type μ) (xs : List A)
    → ((x : A) → P x → Q x)
    → All P xs
    → All Q xs
All-map P Q [] f h = tt
All-map P Q (x ∷ xs) f h = (f x h.0, All-map P Q xs f h.1)

All-remove {κ} :
    (P : List ℕ × ℕ → Type κ) (k : List ℕ) (m : List (List ℕ × ℕ)) → All P m → All P (remove k m)
All-remove P k [] h = tt
All-remove P k ((k', v) ∷ m) h = elim (Bool-cases (k == k')) [
  | inl t ↦ rw t (All-remove P k m h.1)
  | inr f ↦ rw f (h.0, All-remove P k m h.1)
]

pub Known-ne :
    (seen : List (List ℕ × ℕ)) (x y : List ℕ) → Known seen x → lookup y seen ≡ none → x ≢ y
Known-ne seen x y h n q = cc (ap (λ k. lookup k seen) q, h.1)

pub trim_kept :
    (order : List (List ℕ)) (seen : List (List ℕ × ℕ))
    → length order ≤ dedupe_window
    → trim order seen ≡ (order, seen)
unfolding trim
trim_kept [] seen h = refl
trim_kept (old ∷ rest) seen h = rw (le→ltb dedupe_window (length (old ∷ rest)) h)

pub trim_popped :
    (old : List ℕ) (rest : List (List ℕ)) (seen : List (List ℕ × ℕ))
    → length rest ≡ dedupe_window
    → trim (old ∷ rest) seen ≡ (rest, remove old seen)
unfolding trim
trim_popped old rest seen h =
    rw (lt→ltb dedupe_window (length (old ∷ rest)) (omega arith))
      (trim_kept rest (remove old seen) (omega arith))

-- The memory with one more id, before the window is kept.
pushed :
    (n : ℕ) (id : List ℕ) (order : List (List ℕ)) (seen : List (List ℕ × ℕ))
    → IsMemory n order seen
    → lookup id seen ≡ none
    → Distinct (order ++ id ∷ [])
      × All (Known (insert id n seen)) (order ++ id ∷ [])
      × All (λ (e : List ℕ × ℕ). e.1 < n + 1) (insert id n seen)
pushed n id order seen m fresh =
    let others =
      All-map (Known seen) (λ x. x ≢ id) order (λ x k. Known-ne seen x id k fresh) m.known in
    let still =
      All-map (Known seen) (Known (insert id n seen)) order
        (λ x k. (k.0, lookup_other x id n seen (Known-ne seen x id k fresh) ∙ k.1)) m.known in
    let older =
      All-map (λ (e : List ℕ × ℕ). e.1 < n) (λ (e : List ℕ × ℕ). e.1 < n + 1) (remove id seen)
        (λ e lt. omega arith) (All-remove (λ (e : List ℕ × ℕ). e.1 < n) id seen m.behind) in
    (
      Distinct-append order id m.distinct others,
      All-append (Known (insert id n seen)) order (id ∷ []) still ((n, lookup_new id n seen), tt),
      (omega arith, older),
    )

-- The state of the memory after `remember`.
Remembered : ℕ → List ℕ → List (List ℕ) × List (List ℕ × ℕ) → Type 0
Remembered n id t = IsMemory (n + 1) t.0 t.1 × (lookup id t.1 ≡ some n)

without_old :
    (seen : List (List ℕ × ℕ)) (old : List ℕ) (xs : List (List ℕ))
    → All (λ x. old ≢ x) xs
    → All (Known seen) xs
    → All (Known (remove old seen)) xs
without_old seen old [] ne k = tt
without_old seen old (x ∷ xs) ne k = (
  (k.0.0, lookup-remove x old seen (λ q. ne.0 (sym q)) ∙ k.0.1),
  without_old seen old xs ne.1 k.1,
)

trim-Remembered :
    (n : ℕ) (id : List ℕ) (order : List (List ℕ)) (seen : List (List ℕ × ℕ))
    → IsMemory n order seen
    → lookup id seen ≡ none
    → Remembered n id (trim (order ++ id ∷ []) (insert id n seen))
unfolding Remembered
trim-Remembered n id [] seen m fresh =
    let (distinct, known, behind) = pushed n id [] seen m fresh in
    subst (Remembered n id) (sym (trim_kept (id ∷ []) (insert id n seen) (omega arith))) (
      record { bounded = omega arith; distinct = distinct; known = known; behind = behind },
      lookup_new id n seen,
    )
trim-Remembered n id (old ∷ rest) seen m fresh =
    let (distinct, known, behind) = pushed n id (old ∷ rest) seen m fresh in
    elim (Bool-cases (ltb dedupe_window (length (old ∷ rest) + 1))) [
      | inr small ↦
          let le = ltb→le dedupe_window (length (old ∷ rest) + 1) small in
          let fits : length (old ∷ rest ++ id ∷ []) ≤ dedupe_window =
            omega (arith, length-append (old ∷ rest) (id ∷ [])) in
          subst (Remembered n id) (sym (trim_kept (old ∷ rest ++ id ∷ []) (insert id n seen) fits))
            (
              record { bounded = fits; distinct = distinct; known = known; behind = behind },
              lookup_new id n seen,
            )
      | inl full ↦
          let lt = ltb→lt dedupe_window (length (old ∷ rest) + 1) full in
          let count : length (rest ++ id ∷ []) ≡ dedupe_window =
            omega (arith, m.bounded, length-append rest (id ∷ [])) in
          subst (Remembered n id) (sym (trim_popped old (rest ++ id ∷ []) (insert id n seen) count))
            (
              record {
                bounded = omega arith;
                distinct = distinct.1;
                known = without_old (insert id n seen) old (rest ++ id ∷ []) distinct.0 known.1;
                behind = All-remove (λ (e : List ℕ × ℕ). e.1 < n + 1) old (insert id n seen) behind;
              },
              lookup-remove id old (insert id n seen)
                    (λ q. Known-ne seen old id m.known.0 fresh (sym q))
                  ∙ lookup_new id n seen,
            )
    ]

remember-IsWriter :
    (id : List ℕ) (w : ChainWriter) (head : Hash32)
    → IsWriter w
    → w.next_seq + 1 < u64_mod
    → lookup id w.seen ≡ none
    → let v =
        remember id w.next_seq
          (record w { head_hash = head; next_seq = (w.next_seq + 1) % u64_mod }) in
      IsWriter v × (lookup id v.seen ≡ some w.next_seq)
unfolding remember Remembered
remember-IsWriter id w head m fits fresh =
    let (memory, found) = trim-Remembered w.next_seq id w.seen_order w.seen m fresh in
    let step : w.next_seq + 1 ≡ (w.next_seq + 1) % u64_mod = omega arith in
    let t = trim (w.seen_order ++ id ∷ []) (insert id w.next_seq w.seen) in
    (subst (λ (n : ℕ). IsMemory n t.0 t.1) step memory, found)

module _ ⦃d : Digest⦄ ⦃o : KeyOrder⦄ ⦃c : Ciborium⦄ where
  pub append-next_seq :
      (now : ℤ) (e : EmittedEvent) (w w' : ChainWriter) (ev : AuditEvent)
      → w.next_seq + 1 < u64_mod
      → append now e w ≡ (ok ev, w')
      → w'.next_seq ≡ w.next_seq + 1
  unfolding remember
  append-next_seq now e w w' ev fits q =
      let (h, a, made, moved) = append-eq-ok now e w w' ev q in
      ap (λ (v : ChainWriter). v.next_seq) (sym moved) ∙ omega arith

  pub append-IsWriter :
      (now : ℤ) (e : EmittedEvent) (w w' : ChainWriter) (ev : AuditEvent)
      → IsWriter w
      → w.next_seq + 1 < u64_mod
      → append now e w ≡ (ok ev, w')
      → IsWriter w' × (lookup e.event_id w'.seen ≡ some ev.seq)
  append-IsWriter now e w w' ev m fits q =
      let (h, a, made, moved) = append-eq-ok now e w w' ev q in
      let (memory, found) = remember-IsWriter e.event_id w h m fits a.fresh in
      subst (λ (v : ChainWriter). IsWriter v × (lookup e.event_id v.seen ≡ some ev.seq)) moved
        (memory, found ∙ ap (λ (x : AuditEvent). some x.seq) made)

  -- Every append keeps the memory of a writer in order, whether it succeeds or not: at most
  -- a window of ids, each once, each with a number below the cursor. No number passes the largest
  -- `u64`.
  pub Written-IsWriter :
      {w w' : ChainWriter} {evs : List AuditEvent}
      → Written w evs w'
      → IsWriter w
      → w.next_seq + length evs < u64_mod
      → IsWriter w'
  Written-IsWriter (done w) m fits = m
  Written-IsWriter (refused now e w w' w'' x evs q run) m fits =
      let same : w ≡ w' = sym (append-eq-err now e w w' x q) in
      Written-IsWriter run (subst IsWriter same m)
        (subst (λ (v : ChainWriter). v.next_seq + length evs < u64_mod) same fits)
  Written-IsWriter (day_begun day w w'' evs run) m fits = Written-IsWriter run m fits
  Written-IsWriter (appended now e w w' w'' ev evs q run) m fits =
      let (memory, found) = append-IsWriter now e w w' ev m (omega arith) q in
      Written-IsWriter run memory (omega (arith, append-next_seq now e w w' ev (omega arith) q))
