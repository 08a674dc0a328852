-- ===== src/Ingester/Sink.antt =====
-- crates/ancre-ingester/src/sink.rs: the event store as an interface, what its documentation
-- promises, and the retry policy. Durations are in nanoseconds.
use ancre.Prelude.{
  ℕ, ◌*◌, ◌^◌, ◌≡◌, ◌↔◌, ap₂, subst, inl, inr, Bool-cases, Text, Bool, true, ◌&&◌, List, [], ◌∷◌,
  ◌++◌, Option, none, some, Result, ok, err, leb, ◌==◌, Eq, ℕ-Eq, List-Eq, if◌then◌else◌, ==→eq,
  ==_refl,
}
use ancre.Prelude.TextOrder.{text_le}
use ancre.Canon.Hash.{Hash32}
use ancre.Types.Event.{EmittedEvent, AuditEvent}
use ancre.Chain.{ChainId}
use ancre.Ingester.Writer.{IngestError}

-- PartialEq of ChainId
abbrev pub chain_id_eq : ChainId → ChainId → Bool
chain_id_eq a b = a.tenant_id == b.tenant_id && a.system_id == b.system_id

pub chain_id_eq_iff : (a b : ChainId) → (chain_id_eq a b ≡ true) ↔ (a ≡ b)
chain_id_eq_iff a b = (
  λ h. elim (Bool-cases (a.tenant_id == b.tenant_id)) [
    | inr f ↦ cc (rw f at h)
    | inl t ↦
        ap₂ (λ (t s : Text). let r : ChainId = record { tenant_id = t; system_id = s } in r)
          (==→eq a.tenant_id b.tenant_id t) (==→eq a.system_id b.system_id (rw t at h))
  ],
  λ p.
      subst (λ (x : ChainId). chain_id_eq a x ≡ true) p
        (rw (==_refl a.tenant_id) (==_refl a.system_id)),
)

instance abbrev pub ChainId-Eq : Eq ChainId
ChainId-Eq = record { same = chain_id_eq; same_iff = chain_id_eq_iff }

-- The derived order of ChainId.
abbrev pub chain_id_le : ChainId → ChainId → Bool
chain_id_le a b =
    if a.tenant_id == b.tenant_id
    then text_le a.system_id b.system_id
    else text_le a.tenant_id b.tenant_id

-- The chain that an event belongs to.
abbrev pub chain_of : EmittedEvent → ChainId
chain_of e = record { tenant_id = e.tenant_id; system_id = e.system_id }

-- The events of one chain among a batch, in order.
unfoldable pub of_chain : ChainId → List AuditEvent → List AuditEvent
of_chain c [] = []
of_chain c (e ∷ es) = let rest = of_chain c es in if c == chain_of e.emitted then e ∷ rest else rest

-- The trait EventStore over a state of the store: a call returns its result and the state after.
pub record EventStore : Type 1 where
  pub State : Type 0
  pub insert : List AuditEvent → State → Result IngestError (Unit {0}) × State
  pub head : ChainId → State → Result IngestError (Option (ℕ × Hash32)) × State

-- The sequence number and the hash of the last row.
abbrev pub last_row : List AuditEvent → Option (ℕ × Hash32)
last_row [] = none
last_row (e ∷ []) = some (e.seq, e.event_hash)
last_row (e ∷ f ∷ es) = last_row (f ∷ es)

-- What the documentation of the trait promises: an insertion is all or nothing, and `head` reads
-- the last row of a chain. Both calls may fail at any time.
pub record Keeps (store : EventStore) : Type 0 where
  pub rows : ChainId → store.State → List AuditEvent
  pub inserted :
      (c : ChainId) (batch : List AuditEvent) (st st' : store.State) (u : Unit {0})
      → store.insert batch st ≡ (ok u, st')
      → rows c st' ≡ rows c st ++ of_chain c batch
  pub refused :
      (c : ChainId) (batch : List AuditEvent) (st st' : store.State) (e : IngestError)
      → store.insert batch st ≡ (err e, st')
      → rows c st' ≡ rows c st
  pub read :
      (c : ChainId) (st st' : store.State) (last : Option (ℕ × Hash32))
      → store.head c st ≡ (ok last, st')
      → last ≡ last_row (rows c st)
  pub untouched :
      (c k : ChainId) (st st' : store.State) (r : Result IngestError (Option (ℕ × Hash32)))
      → store.head k st ≡ (r, st')
      → rows c st' ≡ rows c st

pub record RetryPolicy : Type 0 where
  pub initial : ℕ
  pub longest : ℕ
  pub attempts : ℕ

-- RetryPolicy::default
abbrev pub default_retry : RetryPolicy
default_retry = record { initial = 100000000; longest = 10000000000; attempts = 8 }

abbrev pub min_of : ℕ → ℕ → ℕ
min_of a b = if leb a b then a else b

-- Duration::MAX
abbrev pub duration_max : ℕ
duration_max = 18446744073709551615999999999

-- RetryPolicy::delay_for
unfoldable pub delay_for : RetryPolicy → ℕ → ℕ
delay_for p attempt = min_of (min_of (p.initial * 2 ^ min_of attempt 20) duration_max) p.longest
