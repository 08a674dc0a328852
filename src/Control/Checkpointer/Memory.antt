-- ===== src/Control/Checkpointer/Memory.antt =====
-- crates/ancre-control/src/checkpointer.rs, module `testing`: the stores in memory. They do what
-- the interfaces promise.
use ancre.Prelude.{
  ℕ, ◌-◌, ◌≡◌, refl, sym, ap, ◌∙◌, subst, true, false, List, [], ◌∷◌, ◌++◌, Option, none, some,
  Result, ok, err, ok_inj, text, length, take, drop, map, leb, if◌then◌else◌, ◌==◌, ==_refl, ℕ-Eq,
  List-Eq,
}
use ancre.Prelude.Int.{ℤ}
use ancre.Prelude.Maps.{lookup, insert, lookup_new, lookup_other}
use ancre.Prelude.Sort.{sort_by}
use ancre.Canon.Hash.{Hash32}
use ancre.Types.Event.{AuditEvent}
use ancre.Chain.{ChainId}
use ancre.Chain.Checkpoint.{Checkpoint}
use ancre.Ingester.Sink.{ChainId-Eq, min_of, chain_id_le}
use ancre.Control.Checkpointer.{ControlError, db, ChainSource, CheckpointStore}
use ancre.Control.Checkpointer.Rounds.{Attests, sealed_chain, last_row_of}

-- MemoryChain: the events of each chain.
abbrev pub MemoryChain : Type 0
MemoryChain = List (ChainId × List AuditEvent)

-- `[T]::get` of a range, with nothing out of range.
abbrev pub get_range {ℓ} : {A : Type ℓ} → ℕ → ℕ → List A → List A
get_range start stop xs =
    if leb start stop
    then (if leb stop (length xs) then take (stop - start) (drop start xs) else [])
    else []

abbrev pub chain_keys : MemoryChain → List ChainId
chain_keys m = map (λ e. e.0) m

-- MemoryChain::leaves. A `usize` has 64 bits.
abbrev pub hashes_of :
    ChainId → ℕ → ℕ → Option (List AuditEvent) → Result ControlError (List Hash32)
hashes_of c seq_from seq_to none =
    err (db (text "no such chain: " ++ (c.tenant_id ++ (47 ∷ c.system_id))))
hashes_of c seq_from seq_to (some all) = ok (
    map (λ (e : AuditEvent). e.event_hash)
      (get_range (seq_from - 1) (min_of seq_to (length all)) all))

abbrev pub head_of : Option (List AuditEvent) → Option ℕ
head_of none = none
head_of (some events) = some (length events)

abbrev pub memory_source : ChainSource
memory_source = record {
  State = MemoryChain;
  chains = λ m. (ok (sort_by chain_id_le (chain_keys m)), m);
  head_seq = λ c m. (ok (head_of (lookup c m)), m);
  leaves = λ c seq_from seq_to m. (hashes_of c seq_from seq_to (lookup c m), m);
}

-- MemoryCheckpoints
abbrev pub MemoryCheckpoints : Type 0
MemoryCheckpoints = List (ChainId × List Checkpoint)

abbrev pub or_empty : Option (List Checkpoint) → List Checkpoint
or_empty none = []
or_empty (some cps) = cps

-- MemoryCheckpoints::list
unfoldable pub list_checkpoints : ChainId → MemoryCheckpoints → List Checkpoint
list_checkpoints c m = or_empty (lookup c m)

unfoldable pub put_checkpoint : Checkpoint → MemoryCheckpoints → MemoryCheckpoints
unfolding list_checkpoints
put_checkpoint cp m = insert (sealed_chain cp) (list_checkpoints (sealed_chain cp) m ++ cp ∷ []) m

-- `get(chain).and_then(|cps| cps.last())`
abbrev pub last_of : Option (List Checkpoint) → Option (ℕ × ℤ)
last_of none = none
last_of (some cps) = last_row_of cps

abbrev pub memory_checkpoints : CheckpointStore
memory_checkpoints = record {
  State = MemoryCheckpoints;
  last_sealed = λ c m. (ok (last_of (lookup c m)), m);
  put = λ cp m. (ok tt, put_checkpoint cp m);
}

pub put_checkpoint-own :
    (cp : Checkpoint) (m : MemoryCheckpoints)
    → list_checkpoints (sealed_chain cp) (put_checkpoint cp m)
      ≡ list_checkpoints (sealed_chain cp) m ++ cp ∷ []
unfolding put_checkpoint list_checkpoints
put_checkpoint-own cp m = ap or_empty (lookup_new (sealed_chain cp) _ m)

pub put_checkpoint-other :
    (c : ChainId) (cp : Checkpoint) (m : MemoryCheckpoints)
    → (c == sealed_chain cp) ≡ false
    → list_checkpoints c (put_checkpoint cp m) ≡ list_checkpoints c m
unfolding put_checkpoint list_checkpoints
put_checkpoint-other c cp m ne = ap or_empty (
    lookup_other c (sealed_chain cp) _ m
      (λ q. cc (sym ne ∙ subst (λ x. (c == x) ≡ true) q (==_refl c))))

pub last_of-list : (o : Option (List Checkpoint)) → last_of o ≡ last_row_of (or_empty o)
last_of-list none = refl
last_of-list (some cps) = refl

-- The store in memory appends whatever it is given.
unfoldable pub memory_attests : Attests memory_checkpoints
unfolding list_checkpoints
memory_attests = record {
  rows = list_checkpoints;
  put_own = λ cp s s' u le lt q.
      ap (λ t. list_checkpoints (sealed_chain cp) t.1) (sym q) ∙ put_checkpoint-own cp s;
  put_other =
      λ c cp s s' r ne q. ap (λ t. list_checkpoints c t.1) (sym q) ∙ put_checkpoint-other c cp s ne;
  refused = λ cp s s' e le lt q. cc (ap (λ t. t.0) q);
  read = λ c s s' last q. ok_inj (sym (ap (λ t. t.0) q)) ∙ last_of-list (lookup c s);
  untouched = λ c k s s' r q. ap (λ t. list_checkpoints c t.1) (sym q);
}
