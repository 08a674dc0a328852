-- ===== src/Ingester/Pipeline/Rows.antt =====
-- crates/ancre-ingester/src/pipeline.rs: the rows of one chain in the store, and a writer that stands
-- at their end.
use ancre.Prelude.{
  ℕ, ◌+◌, ◌<◌, ◌≡◌, refl, sym, ap, ◌∙◌, subst, inl, List, [], ◌∷◌, ◌++◌, Option, none, some, length,
  length-append, arith, u64_mod, true,
}
use ancre.Canon.Hash.{Hash32, Digest, genesis}
use ancre.Canon.Cbor.{KeyOrder, Ciborium}
use ancre.Types.Event.{AuditEvent}
use ancre.Chain.{ChainId}
use ancre.Chain.Verify.{is_clean, verify_range}
use ancre.Chain.Verify.Findings.{head_after, last_after}
use ancre.Chain.Verify.Clean.{Follows, Chained, is_clean-verify_range}
use ancre.Ingester.Sink.{last_row}
use ancre.Ingester.Writer.{ChainWriter, new}
use ancre.Ingester.Writer.History.{Written}
use ancre.Ingester.Writer.Verified.{NumberedFrom, NumberedFrom-HasNext, IsRun, Written-IsRun}
use ancre.Ingester.Writer.Window.{IsWriter, Written-IsWriter}
use ancre.Ingester.Pipeline.{writer_from}

NumberedFrom-append :
    (n : ℕ) (xs ys : List AuditEvent)
    → NumberedFrom n xs
    → NumberedFrom (n + length xs) ys
    → NumberedFrom n (xs ++ ys)
NumberedFrom-append n [] ys h k = subst (λ m. NumberedFrom m ys) (omega arith) k
NumberedFrom-append n (x ∷ xs) ys h k =
    (h.0, NumberedFrom-append (n + 1) xs ys h.1 (subst (λ m. NumberedFrom m ys) (omega arith) k))

head_after-append :
    (prev : Hash32) (xs ys : List AuditEvent)
    → head_after prev (xs ++ ys) ≡ head_after (head_after prev xs) ys
head_after-append prev [] ys = refl
head_after-append prev (x ∷ xs) ys = head_after-append x.event_hash xs ys

-- The number that may follow the rows.
NumberedFrom-Follows :
    (n : ℕ) (last : Option ℕ) (xs : List AuditEvent)
    → NumberedFrom n xs
    → Follows last n
    → Follows (last_after last xs) (n + length xs)
NumberedFrom-Follows n last [] h f = subst (Follows last) (omega arith) f
NumberedFrom-Follows n last (x ∷ xs) h f =
    subst (Follows (last_after (some x.seq) xs)) (omega arith)
      (NumberedFrom-Follows (n + 1) (some x.seq) xs h.1 (inl (omega (arith, h.0))))

-- The last row of a chain from its numbers.
last_row_at :
    (n : ℕ) (x : AuditEvent) (xs : List AuditEvent)
    → NumberedFrom n (x ∷ xs)
    → last_row (x ∷ xs) ≡ some (n + length xs, head_after x.event_hash xs)
last_row_at n x [] h = ap (λ m. some (m, x.event_hash)) (omega (arith, h.0))
last_row_at n x (y ∷ ys) h =
    last_row_at (n + 1) y ys h.1 ∙ ap (λ m. some (m, head_after y.event_hash ys)) (omega arith)

module _ ⦃d : Digest⦄ ⦃o : KeyOrder⦄ ⦃c : Ciborium⦄ where
  Chained-append :
      (prev : Hash32) (last : Option ℕ) (xs ys : List AuditEvent)
      → Chained prev last xs
      → Chained (head_after prev xs) (last_after last xs) ys
      → Chained prev last (xs ++ ys)
  Chained-append prev last [] ys h k = k
  Chained-append prev last (x ∷ xs) ys h k =
      (h.0, Chained-append x.event_hash (some x.seq) xs ys h.1 k)

  -- Rows that are one unbroken chain from its first event.
  pub record IsChain (rows : List AuditEvent) : Type 0 where
    pub chained : Chained genesis none rows
    pub numbered : NumberedFrom 1 rows

  -- The verifier finds such rows clean.
  pub IsChain-is_clean :
      (rows : List AuditEvent)
      → IsChain rows
      → length rows + 1 < u64_mod
      → is_clean (verify_range rows genesis) ≡ true
  IsChain-is_clean rows h fits =
      (is_clean-verify_range rows genesis (NumberedFrom-HasNext 1 rows h.numbered (omega arith))).1
        h.chained

  -- A writer that writes the next row.
  pub record AtHead (rows : List AuditEvent) (w : ChainWriter) : Type 0 where
    pub memory : IsWriter w
    pub next : w.next_seq ≡ length rows + 1
    pub head : w.head_hash ≡ head_after genesis rows

  pub new-AtHead : (k : ChainId) (node : List ℕ) → AtHead [] (new k node)
  new-AtHead k node = record {
    memory = record { bounded = omega arith; distinct = tt; known = tt; behind = tt };
    next = omega arith;
    head = refl;
  }

  -- The writer that the last row gives.
  pub writer_from-AtHead :
      (k : ChainId) (node : List ℕ) (rows : List AuditEvent)
      → IsChain rows
      → length rows + 1 < u64_mod
      → AtHead rows (writer_from k node (last_row rows))
  writer_from-AtHead k node [] h fits = new-AtHead k node
  writer_from-AtHead k node (x ∷ xs) h fits =
      subst (λ r. AtHead (x ∷ xs) (writer_from k node r)) (sym (last_row_at 1 x xs h.numbered))
        (record {
          memory = record { bounded = omega arith; distinct = tt; known = tt; behind = tt };
          next = omega arith;
          head = refl;
        })

  -- A run of a writer from the end of the rows, as the verifier sees it.
  IsRun-on :
      {w w' : ChainWriter} {evs : List AuditEvent}
      → (rows : List AuditEvent) → Written w evs w'
      → IsChain rows
      → AtHead rows w
      → length rows + length evs + 1 < u64_mod
      → IsRun w (last_after none rows) evs w'
  IsRun-on {w = w} rows run h a fits =
      let follows : Follows (last_after none rows) w.next_seq =
        subst (Follows (last_after none rows)) (omega (arith, a.next))
          (NumberedFrom-Follows 1 none rows h.numbered tt) in
      Written-IsRun (last_after none rows) run follows (omega (arith, a.next))

  -- What a writer wrote goes on where the rows end.
  pub Written-IsChain :
      {w w' : ChainWriter} {evs : List AuditEvent}
      → (rows : List AuditEvent) → Written w evs w'
      → IsChain rows
      → AtHead rows w
      → length rows + length evs + 1 < u64_mod
      → IsChain (rows ++ evs)
  Written-IsChain {evs = evs} rows run h a fits =
      let r = IsRun-on rows run h a fits in
      record {
        chained =
            Chained-append genesis none rows evs h.chained
              (subst (λ p. Chained p (last_after none rows) evs) a.head r.chained);
        numbered =
            NumberedFrom-append 1 rows evs h.numbered
              (subst (λ n. NumberedFrom n evs) (omega (arith, a.next)) r.numbered);
      }

  pub Written-AtHead :
      {w w' : ChainWriter} {evs : List AuditEvent}
      → (rows : List AuditEvent) → Written w evs w'
      → IsChain rows
      → AtHead rows w
      → length rows + length evs + 1 < u64_mod
      → AtHead (rows ++ evs) w'
  Written-AtHead {w = w} {w' = w'} {evs = evs} rows run h a fits =
      let r = IsRun-on rows run h a fits in
      record {
        memory = Written-IsWriter run a.memory (omega (arith, a.next));
        next = r.cursor ∙ omega (arith, a.next, length-append rows evs);
        head =
            r.head ∙ ap (λ p. head_after p evs) a.head ∙ sym (head_after-append genesis rows evs);
      }
