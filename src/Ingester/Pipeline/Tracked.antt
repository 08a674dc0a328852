-- ===== src/Ingester/Pipeline/Tracked.antt =====
-- crates/ancre-ingester/src/pipeline.rs: what holds of one chain after each round of the loop of
-- `ingest`.
use ancre.Prelude.{
  ℕ, ◌+◌, ◌<◌, ◌≡◌, ◌≢◌, refl, sym, ap, ◌∙◌, subst, inl, inr, List, [], ◌∷◌, ◌++◌, Option, none,
  some, ok, length, arith, u64_mod, ◌==◌, ne→==, eq→==, Option-cases, Bool-cases,
}
use ancre.Prelude.Int.{ℤ}
use ancre.Prelude.Maps.{lookup}
use ancre.Canon.Hash.{Hash32, Digest}
use ancre.Canon.Cbor.{KeyOrder, Ciborium}
use ancre.Types.Event.{EmittedEvent, AuditEvent}
use ancre.Chain.{ChainId}
use ancre.Ingester.Sink.{ChainId-Eq, chain_of, of_chain}
use ancre.Ingester.Writer.{ChainWriter, append}
use ancre.Ingester.Writer.History.{Written, done, appended, refused, day_begun}
use ancre.Ingester.Writer.Window.{Written-IsWriter}
use ancre.Ingester.Pipeline.{Rollback, or_insert}
use ancre.Ingester.Pipeline.Rewound.{
  rewound, rewind_to-IsWriter, rewind_to-cursor, or_insert-lookup-none, or_insert-lookup-some,
}
use ancre.Ingester.Pipeline.Rows.{AtHead}

-- A sealed event goes to its chain.
pub of_chain_own :
    (c : ChainId) (es : List AuditEvent) (e : AuditEvent)
    → c ≡ chain_of e.emitted
    → of_chain c (es ++ e ∷ []) ≡ of_chain c es ++ e ∷ []
unfolding of_chain
of_chain_own c [] e h = rw (eq→== c (chain_of e.emitted) h) refl
of_chain_own c (x ∷ es) e h = elim (Bool-cases (c == chain_of x.emitted)) [
  | inl t ↦ rw t (ap (λ r. x ∷ r) (of_chain_own c es e h))
  | inr f ↦ rw f (of_chain_own c es e h)
]

pub of_chain_other :
    (c : ChainId) (es : List AuditEvent) (e : AuditEvent)
    → c ≢ chain_of e.emitted
    → of_chain c (es ++ e ∷ []) ≡ of_chain c es
unfolding of_chain
of_chain_other c [] e h = rw (ne→== c (chain_of e.emitted) h) refl
of_chain_other c (x ∷ es) e h = elim (Bool-cases (c == chain_of x.emitted)) [
  | inl t ↦ rw t (ap (λ r. x ∷ r) (of_chain_other c es e h))
  | inr f ↦ rw f (of_chain_other c es e h)
]

module _ ⦃d : Digest⦄ ⦃o : KeyOrder⦄ ⦃c : Ciborium⦄ where
  pub Written-snoc :
      {w w' w'' : ChainWriter} {evs : List AuditEvent} (now : ℤ) (e : EmittedEvent)
      (ev : AuditEvent)
      → Written w evs w'
      → append now e w' ≡ (ok ev, w'')
      → Written w (evs ++ ev ∷ []) w''
  Written-snoc {w'' = w''} now e ev (done w) q = appended now e w w'' w'' ev [] q (done w'')
  Written-snoc {w'' = w''} now e ev (appended t f a b l x xs p run) q =
      appended t f a b w'' x (xs ++ ev ∷ []) p (Written-snoc now e ev run q)
  Written-snoc {w'' = w''} now e ev (refused t f a b l x xs p run) q =
      refused t f a b w'' x (xs ++ ev ∷ []) p (Written-snoc now e ev run q)
  Written-snoc {w'' = w''} now e ev (day_begun day a l xs run) q =
      day_begun day a w'' (xs ++ ev ∷ []) (Written-snoc now e ev run q)

  -- A writer in the batch against where it stood before.
  abbrev pub Since : ChainWriter → List AuditEvent → ChainWriter → Option (ℕ × Hash32) → Type 0
  Since w0 mine w none = (mine ≡ []) × (w0 ≡ w)
  Since w0 mine w (some at) = at ≡ (w0.next_seq, w0.head_hash)

  -- The writer of a chain that has these rows, after it chained these events, with what the batch
  -- noted for it.
  abbrev pub Progress :
      List AuditEvent → List AuditEvent → Option (ℕ × Hash32) → Option ChainWriter → Type 0
  Progress rows mine at none = (mine ≡ []) × (at ≡ none)
  Progress rows mine at (some w) =
      (w0 : ChainWriter) × AtHead rows w0 × Written w0 mine w × Since w0 mine w at

  -- Where the writer of a chain stands between batches.
  abbrev pub Place : List AuditEvent → Option ChainWriter → Type 0
  Place rows none = Unit {0}
  Place rows (some w) = AtHead rows w

  pub Progress-noted :
      (rows mine : List AuditEvent) (w : ChainWriter) (k : ChainId) (noted : Rollback)
      → Progress rows mine (lookup k noted) (some w)
      → (w0 : ChainWriter) × AtHead rows w0
        × Written w0 mine w
        × (lookup k (or_insert k (w.next_seq, w.head_hash) noted)
            ≡ some (w0.next_seq, w0.head_hash))
  Progress-noted rows mine w k noted (w0, a, run, since) = elim (Option-cases (lookup k noted)) [
    | inr (at, q) ↦ (
      w0,
      a,
      run,
      or_insert-lookup-some k (w.next_seq, w.head_hash) at noted q
          ∙ ap (λ x. some x) (subst (Since w0 mine w) q since),
    )
    | inl q ↦
        let (nothing, same) = subst (Since w0 mine w) q since in
        (
          w0,
          a,
          run,
          or_insert-lookup-none k (w.next_seq, w.head_hash) noted q
              ∙ ap (λ (v : ChainWriter). some (v.next_seq, v.head_hash)) (sym same),
        )
  ]

  -- A rewind puts the writer back to the end of the rows.
  pub Progress-Place :
      (rows mine : List AuditEvent) (at : Option (ℕ × Hash32)) (found : Option ChainWriter)
      → length rows + length mine + 1 < u64_mod
      → Progress rows mine at found
      → Place rows (rewound at found)
  Progress-Place rows mine none none fits p = tt
  Progress-Place rows mine (some at) none fits p = tt
  Progress-Place rows mine none (some w) fits (w0, a, run, (nothing, same)) =
      subst (AtHead rows) same a
  Progress-Place rows mine (some (n, head)) (some w) fits (w0, a, run, noted) =
      let (next, at) = rewind_to-cursor n head w in
      record {
        memory =
            rewind_to-IsWriter n head w (Written-IsWriter run a.memory (omega (arith, a.next)));
        next = next ∙ ap (λ p. p.0) noted ∙ a.next;
        head = at ∙ ap (λ p. p.1) noted ∙ a.head;
      }
