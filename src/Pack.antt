-- ===== src/Pack.antt =====
-- crates/ancre-verify: what an evidence pack attests, and the exit code of the verifier.
pub mod Sound
pub mod Runs
use ancre.Prelude.{
  ℕ, zero, suc, ◌+◌, ◌-◌, ◌≤◌, Bool, true, false, not, ◌||◌, List, [], ◌∷◌, ◌++◌, map, Option, none,
  some, Result, ok, err, Text, length, ltb, leb, nat_eq, ◌==◌, ℕ-Eq, List-Eq, if◌then◌else◌,
  u64_mod,
}
use ancre.Prelude.Sort.{sort_by}
use ancre.Prelude.Maps.{lookup, insert}
use ancre.Canon.Hash.{Hash32, Hash32-Eq, Digest, genesis}
use ancre.Canon.Tree.{tree_root}
use ancre.Canon.Cbor.{KeyOrder, Ciborium}
use ancre.Types.Event.{AuditEvent}
use ancre.Chain.{ChainError, event_hash}
use ancre.Chain.Verify.{ChainReport, is_clean, is_inconclusive, verify_range}
use ancre.Chain.Checkpoint.{Checkpoint, Ed25519, tree_size, verify_checkpoint}

-- What the text of a violation says.
pub data Reason : Type 0 where
  untrusted_key : ℕ → ℕ → Text → Reason
  signature_does_not_verify : ℕ → ℕ → Text → ChainError → Reason
  other_root : ℕ → ℕ → Hash32 → Hash32 → Reason

pub data Attestation : Type 0 where
  verified : Text → Attestation
  not_covered_by_pack : Attestation
  violation : Reason → Attestation

pub record CheckpointVerdict : Type 0 where
  pub seq_from : ℕ
  pub seq_to : ℕ
  pub root_hash : Hash32
  pub attestation : Attestation

-- CheckpointVerdict::is_violation
unfoldable pub is_violation : CheckpointVerdict → Bool
is_violation v = elim v.attestation [
  | violation r ↦ true
  | verified id ↦ false
  | not_covered_by_pack ↦ false
]

-- The `collect` over the numbers from `from` on, `count` of them: all of them are there or nothing is.
unfoldable pub range_leaves : List (ℕ × Hash32) → ℕ → ℕ → Option (List Hash32)
range_leaves by_seq from zero = some []
range_leaves by_seq from (suc count) = elim (lookup from by_seq) [
  | none ↦ none
  | some h ↦ elim (range_leaves by_seq (from + 1) count) [
    | none ↦ none
    | some rest ↦ some (h ∷ rest)
  ]
]

abbrev pub or_default : Option (List Hash32) → List Hash32
or_default none = []
or_default (some hs) = hs

-- Option::or_else
abbrev pub or_else {ℓ} : {A : Type ℓ} → Option A → Option A → Option A
or_else (some a) other = some a
or_else none other = other

-- trusted.get(&cp.key_id).or_else(|| trusted.get(""))
abbrev pub key_for : List (Text × List ℕ) → Text → Option (List ℕ)
key_for trusted id = let unnamed : Text = [] in or_else (lookup id trusted) (lookup unnamed trusted)

-- The numbers of a range, both ends included.
abbrev pub range_count : Checkpoint → ℕ
range_count cp = cp.body.seq_to + 1 - cp.body.seq_from

abbrev pub leaves_of : List (ℕ × Hash32) → Checkpoint → List Hash32
leaves_of by_seq cp = or_default (range_leaves by_seq cp.body.seq_from (range_count cp))

module _ ⦃d : Digest⦄ where
  -- The end of `attest_one`, after the signature was checked.
  unfoldable pub attest_root : Checkpoint → List Hash32 → Attestation
  attest_root cp leaves =
      if not (nat_eq (length leaves) (tree_size cp.body))
      then not_covered_by_pack
      else if not (tree_root leaves == cp.body.root_hash)
      then violation
          (other_root cp.body.seq_from cp.body.seq_to cp.body.root_hash (tree_root leaves))
      else verified cp.key_id

module _ ⦃d : Digest⦄ ⦃o : KeyOrder⦄ ⦃c : Ciborium⦄ where
  unfoldable pub attest_one :
      Ed25519 → Checkpoint → List (ℕ × Hash32) → List (Text × List ℕ) → Attestation
  attest_one s cp by_seq trusted = elim (key_for trusted cp.key_id) [
    | none ↦ violation (untrusted_key cp.body.seq_from cp.body.seq_to cp.key_id)
    | some key ↦ elim (verify_checkpoint s cp key) [
      | err e ↦ violation (signature_does_not_verify cp.body.seq_from cp.body.seq_to cp.key_id e)
      | ok _ ↦ attest_root cp (leaves_of by_seq cp)
    ]
  ]

  -- One event on its way into the map; an event that cannot be hashed has no leaf.
  abbrev pub add_leaf :
      AuditEvent → Result ChainError Hash32 → List (ℕ × Hash32) → List (ℕ × Hash32)
  add_leaf e (ok h) m = insert e.seq h m
  add_leaf e (err x) m = m

  unfoldable pub by_seq_onto : List AuditEvent → List (ℕ × Hash32) → List (ℕ × Hash32)
  by_seq_onto [] m = m
  by_seq_onto (e ∷ es) m = by_seq_onto es (add_leaf e (event_hash e) m)

  -- The map that `attest` builds.
  unfoldable pub by_seq : List AuditEvent → List (ℕ × Hash32)
  by_seq events = by_seq_onto events []

  abbrev pub verdict_on :
      Ed25519 → List (ℕ × Hash32) → List (Text × List ℕ) → Checkpoint → CheckpointVerdict
  verdict_on s m trusted cp = record {
    seq_from = cp.body.seq_from;
    seq_to = cp.body.seq_to;
    root_hash = cp.body.root_hash;
    attestation = attest_one s cp m trusted;
  }

  unfoldable pub attest :
      Ed25519 → List AuditEvent → List Checkpoint → List (Text × List ℕ) → List CheckpointVerdict
  attest s events checkpoints trusted = map (verdict_on s (by_seq events) trusted) checkpoints

-- The verdicts that are `Verified`, as ranges.
unfoldable pub verified_ranges : List CheckpointVerdict → List (ℕ × ℕ)
verified_ranges [] = []
verified_ranges (v ∷ vs) =
    let rest = verified_ranges vs in
    elim v.attestation [
      | verified id ↦ (v.seq_from, v.seq_to) ∷ rest
      | not_covered_by_pack ↦ rest
      | violation r ↦ rest
    ]

-- The order of pairs that `sort_unstable` uses.
abbrev pub pair_le : ℕ × ℕ → ℕ × ℕ → Bool
pair_le a b = if ltb a.0 b.0 then true else if ltb b.0 a.0 then false else leb a.1 b.1

-- u64::saturating_add(1)
abbrev pub saturating_next : ℕ → ℕ
saturating_next n = if ltb (n + 1) u64_mod then n + 1 else n

abbrev pub max_of : ℕ → ℕ → ℕ
max_of a b = if leb a b then b else a

-- The body of the loop of `attested_runs`: the last run is extended, or a new one begins.
unfoldable pub push_run : List (ℕ × ℕ) → ℕ × ℕ → List (ℕ × ℕ)
push_run [] r = r ∷ []
push_run (last ∷ []) r =
    if leb r.0 (saturating_next last.1) then (last.0, max_of last.1 r.1) ∷ [] else last ∷ r ∷ []
push_run (x ∷ y ∷ runs) r = x ∷ push_run (y ∷ runs) r

unfoldable pub push_runs : List (ℕ × ℕ) → List (ℕ × ℕ) → List (ℕ × ℕ)
push_runs runs [] = runs
push_runs runs (r ∷ rs) = push_runs (push_run runs r) rs

unfoldable pub attested_runs : List CheckpointVerdict → List (ℕ × ℕ)
attested_runs verdicts = push_runs [] (sort_by pair_le (verified_ranges verdicts))

-- The exit codes of the program.
abbrev pub exit_clean : ℕ
exit_clean = 0

abbrev pub exit_violations : ℕ
exit_violations = 1

abbrev pub exit_cannot_verify : ℕ
exit_cannot_verify = 2

unfoldable pub any_violation : List CheckpointVerdict → Bool
any_violation [] = false
any_violation (v ∷ vs) = is_violation v || any_violation vs

-- The code that `run_pack` returns.
unfoldable pub pack_exit : ChainReport → List CheckpointVerdict → ℕ
pack_exit report verdicts =
    if is_inconclusive report
    then exit_cannot_verify
    else if not (is_clean report) || any_violation verdicts
    then exit_violations
    else exit_clean

-- The code that `run_chain` returns.
unfoldable pub chain_exit : ChainReport → ℕ
chain_exit report =
    if is_clean report
    then exit_clean
    else if is_inconclusive report
    then exit_cannot_verify
    else exit_violations

-- Which anchor and which keys `run_pack` uses. `declared` is the anchor that the manifest names.
abbrev pub anchor : Hash32 → Option Hash32 → Hash32
anchor from none = from
anchor from (some declared) = if from == genesis then declared else from

abbrev pub trust_set {ℓ} : {A : Type ℓ} → List A → List A → List A
trust_set [] pack_keys = pack_keys
trust_set (k ∷ pinned) pack_keys = k ∷ pinned
