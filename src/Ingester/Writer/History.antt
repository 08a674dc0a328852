-- ===== src/Ingester/Writer/History.antt =====
-- crates/ancre-ingester/src/chain_writer.rs: what a writer has written, over any run of appends.
use ancre.Prelude.{
  ℕ, ◌>>=◌, some, ◌+◌, ◌%◌, ◌≡◌, refl, sym, ap, ◌∙◌, ◌⊎◌, inl, inr, List, [], ◌∷◌, Option, none,
  Result, ok, err, ok_inj, u64_mod, ℕ-Eq, List-Eq, Option-cases,
}
use ancre.Prelude.Int.{ℤ}
use ancre.Prelude.Maps.{lookup}
use ancre.Canon.Hash.{Hash32, Digest}
use ancre.Canon.Cbor.{KeyOrder, Ciborium}
use ancre.Types.Event.{EmittedEvent, AuditEvent}
use ancre.Chain.{ChainError, event_hash, seal}
use ancre.Ingester.Writer.{
  ChainWriter, IngestError, chain, duplicate, unsealed, advance, remember, chain_event, append,
  append_seen,
}

module _ ⦃d : Digest⦄ ⦃o : KeyOrder⦄ ⦃c : Ciborium⦄ where
  -- A run of a writer: the events that it returned, in order, and the writer at the end. A day
  -- begins when a heartbeat notes it.
  pub data Written : ChainWriter → List AuditEvent → ChainWriter → Type 0 where
    done : (w : ChainWriter) → Written w [] w
    appended :
        (now : ℤ) (e : EmittedEvent) (w w' w'' : ChainWriter) (ev : AuditEvent)
        (evs : List AuditEvent)
        → append now e w ≡ (ok ev, w')
        → Written w' evs w''
        → Written w (ev ∷ evs) w''
    refused :
        (now : ℤ) (e : EmittedEvent) (w w' w'' : ChainWriter) (x : IngestError)
        (evs : List AuditEvent)
        → append now e w ≡ (err x, w')
        → Written w' evs w''
        → Written w evs w''
    day_begun :
        (day : Option ℤ) (w w'' : ChainWriter) (evs : List AuditEvent)
        → Written (record w { last_heartbeat_day = day }) evs w''
        → Written w evs w''

  abbrev pub sealed_event : ℤ → EmittedEvent → ChainWriter → Hash32 → AuditEvent
  sealed_event now e w h = record (unsealed now e w) { event_hash = h }

  abbrev pub moved_on : EmittedEvent → ChainWriter → Hash32 → ChainWriter
  moved_on e w h =
      remember e.event_id w.next_seq
        (record w { head_hash = h; next_seq = (w.next_seq + 1) % u64_mod })

  -- An append that sealed an event at the cursor.
  pub record Appends (now : ℤ) (e : EmittedEvent) (w : ChainWriter) (h : Hash32) : Type 0 where
    pub fresh : lookup e.event_id w.seen ≡ none
    pub hashed : event_hash (unsealed now e w) ≡ ok h
    pub result : append now e w ≡ (ok (sealed_event now e w h), moved_on e w h)

  abbrev pub Refuses : ℤ → EmittedEvent → ChainWriter → Type 0
  Refuses now e w = (x : IngestError) × (append now e w ≡ (err x, w))

  seen_as :
      (now : ℤ) (e : EmittedEvent) (w : ChainWriter) (at : Option ℕ)
      → lookup e.event_id w.seen ≡ at
      → append now e w ≡ append_seen at now e w
  unfolding append
  seen_as now e w at q = ap (λ r. append_seen r now e w) q

  chain_event_as :
      (now : ℤ) (e : EmittedEvent) (w : ChainWriter) (r : Result ChainError Hash32)
      → event_hash (unsealed now e w) ≡ r
      → chain_event now e w ≡ advance e w (r >>= λ h. ok (sealed_event now e w h))
  unfolding chain_event seal
  chain_event_as now e w r q = ap (λ r. advance e w (r >>= λ h. ok (sealed_event now e w h))) q

  append_fresh :
      (now : ℤ) (e : EmittedEvent) (w : ChainWriter) (r : Result ChainError Hash32)
      → lookup e.event_id w.seen ≡ none
      → event_hash (unsealed now e w) ≡ r
      → ((h : Hash32) × Appends now e w h) ⊎ Refuses now e w
  unfolding advance
  append_fresh now e w (ok h) fresh q = inl (
    h,
    record {
      fresh = fresh;
      hashed = q;
      result = seen_as now e w none fresh ∙ chain_event_as now e w (ok h) q;
    },
  )
  append_fresh now e w (err x) fresh q =
      inr (chain x, seen_as now e w none fresh ∙ chain_event_as now e w (err x) q)

  -- The two ways an append can go: it seals an event at the cursor and moves on, or it refuses and
  -- the writer stays as it was.
  pub append-cases :
      (now : ℤ) (e : EmittedEvent) (w : ChainWriter)
      → ((h : Hash32) × Appends now e w h) ⊎ Refuses now e w
  append-cases now e w = elim (Option-cases (lookup e.event_id w.seen)) [
    | inr (seq, known) ↦ inr (duplicate e.event_id seq, seen_as now e w (some seq) known)
    | inl fresh ↦ append_fresh now e w (event_hash (unsealed now e w)) fresh refl
  ]

  -- An append that returned an event.
  pub append-eq-ok :
      (now : ℤ) (e : EmittedEvent) (w w' : ChainWriter) (ev : AuditEvent)
      → append now e w ≡ (ok ev, w')
      → (h : Hash32) × Appends now e w h × (sealed_event now e w h ≡ ev) × (moved_on e w h ≡ w')
  append-eq-ok now e w w' ev q = elim (append-cases now e w) [
    | inl (h, a) ↦
        let same = sym a.result ∙ q in (h, a, ok_inj (ap (λ p. p.0) same), ap (λ p. p.1) same)
    | inr (x, r) ↦ absurd (not_both (ap (λ p. p.0) (sym r ∙ q)))
  ]
    where
      not_both : {x : IngestError} → ◌≡◌ {A = Result IngestError AuditEvent} (err x) (ok ev) → ⊥
      not_both h = cc

  -- An append that fails, as a duplicate or because the event cannot be encoded, leaves the writer
  -- as it was: no number is used up and the head stays.
  pub append-eq-err :
      (now : ℤ) (e : EmittedEvent) (w w' : ChainWriter) (x : IngestError)
      → append now e w ≡ (err x, w')
      → w' ≡ w
  append-eq-err now e w w' x q = elim (append-cases now e w) [
    | inl (h, a) ↦ absurd (not_both (ap (λ p. p.0) (sym a.result ∙ q)))
    | inr (y, r) ↦ ap (λ p. p.1) (sym q ∙ r)
  ]
    where
      not_both : {ev : AuditEvent} → ◌≡◌ {A = Result IngestError AuditEvent} (ok ev) (err x) → ⊥
      not_both h = cc

  -- An event whose id is remembered is refused.
  pub append_known :
      (now : ℤ) (e : EmittedEvent) (w : ChainWriter) (seq : ℕ)
      → lookup e.event_id w.seen ≡ some seq
      → append now e w ≡ (err (duplicate e.event_id seq), w)
  append_known now e w seq known = seen_as now e w (some seq) known
