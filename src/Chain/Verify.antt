-- ===== src/Chain/Verify.antt =====
-- crates/ancre-chain/src/verify.rs: the walk over a range of events and its report.
pub mod Findings
pub mod Clean
pub mod Tamper
pub mod Commitment
use ancre.Prelude.{
  ℕ, zero, ◌+◌, ◌%◌, Bool, true, false, not, ◌&&◌, List, [], ◌∷◌, ◌++◌, Option, none, some, Result,
  ok, err, Text, ltb, ◌==◌, ℕ-Eq, List-Eq, if◌then◌else◌, u64_mod,
}
use ancre.Canon.Hash.{Hash32, Hash32-Eq, Digest, genesis}
use ancre.Canon.Tree.{tree_root}
use ancre.Canon.Cbor.{KeyOrder, Ciborium}
use ancre.Types.Event.{AuditEvent}
use ancre.Chain.{ChainError, canon_version, event_hash}

-- The reason of `unencodable` is the error whose text the source keeps.
pub data Violation : Type 0 where
  hash_mismatch : ℕ → Hash32 → Hash32 → Violation
  broken_link : ℕ → Hash32 → Hash32 → Violation
  gap : ℕ → ℕ → Violation
  fork : ℕ → Violation
  unknown_canon_version : ℕ → Text → Violation
  unencodable : ℕ → ChainError → Violation

-- Violation::seq
unfoldable pub violation_seq : Violation → ℕ
violation_seq (hash_mismatch seq stored computed) = seq
violation_seq (broken_link seq expected found) = seq
violation_seq (gap after before) = after
violation_seq (fork seq) = seq
violation_seq (unknown_canon_version seq version) = seq
violation_seq (unencodable seq reason) = seq

unfoldable pub is_verifier_limit : Violation → Bool
is_verifier_limit (unknown_canon_version seq version) = true
is_verifier_limit _ = false

pub record ChainReport : Type 0 where
  pub events_checked : ℕ
  pub seq_from : ℕ
  pub seq_to : ℕ
  pub violations : List Violation
  pub head_hash : Hash32
  pub root_hash : Hash32
  pub checkpoints_verified : ℕ

abbrev pub is_empty {ℓ} : {A : Type ℓ} → List A → Bool
is_empty [] = true
is_empty (x ∷ xs) = false

unfoldable pub is_clean : ChainReport → Bool
is_clean r = is_empty r.violations

unfoldable pub all_verifier_limits : List Violation → Bool
all_verifier_limits [] = true
all_verifier_limits (v ∷ vs) = is_verifier_limit v && all_verifier_limits vs

unfoldable pub is_inconclusive : ChainReport → Bool
is_inconclusive r = not (is_empty r.violations) && all_verifier_limits r.violations

-- The variables of the loop.
pub record Walk : Type 0 where
  pub report : ChainReport
  pub expected : Hash32
  pub last_seq : Option ℕ
  pub leaves : List Hash32

-- The position of an event, against the one before it. `last + 1` is a `u64`.
unfoldable pub position : Option ℕ → ℕ → List Violation
position none seq = []
position (some last) seq =
    if seq == last
    then fork seq ∷ []
    else if ltb ((last + 1) % u64_mod) seq
    then gap last seq ∷ []
    else []

unfoldable pub link : Hash32 → AuditEvent → List Violation
link expected event =
    if not (event.prev_hash == expected)
    then broken_link event.seq expected event.prev_hash ∷ []
    else []

unfoldable pub recomputed : AuditEvent → Result ChainError Hash32 → List Violation
recomputed event (ok computed) =
    if not (computed == event.event_hash)
    then hash_mismatch event.seq event.event_hash computed ∷ []
    else []
recomputed event (err e) = unencodable event.seq e ∷ []

module _ ⦃d : Digest⦄ ⦃o : KeyOrder⦄ ⦃c : Ciborium⦄ where
  unfoldable pub contents : AuditEvent → List Violation
  contents event =
      if event.canon_version == canon_version
      then recomputed event (event_hash event)
      else unknown_canon_version event.seq event.canon_version ∷ []

  -- The body of the loop.
  unfoldable pub check_event : Walk → AuditEvent → Walk
  check_event w event =
      let r = w.report in
      record {
        report = record r {
          seq_from = if r.events_checked == 0 then event.seq else r.seq_from;
          seq_to = event.seq;
          events_checked = (r.events_checked + 1) % u64_mod;
          violations =
              r.violations
              ++ (position w.last_seq event.seq ++ (link w.expected event ++ contents event));
          head_hash = event.event_hash;
        };
        expected = event.event_hash;
        last_seq = some event.seq;
        leaves = w.leaves ++ event.event_hash ∷ [];
      }

  unfoldable pub check_all : Walk → List AuditEvent → Walk
  check_all w [] = w
  check_all w (event ∷ events) = check_all (check_event w event) events

  abbrev pub start : Hash32 → Walk
  start expected_prev = record {
    report = record {
      events_checked = 0;
      seq_from = 0;
      seq_to = 0;
      violations = [];
      head_hash = expected_prev;
      root_hash = genesis;
      checkpoints_verified = 0;
    };
    expected = expected_prev;
    last_seq = none;
    leaves = [];
  }

  unfoldable pub verify_range : List AuditEvent → Hash32 → ChainReport
  verify_range events expected_prev =
      let w = check_all (start expected_prev) events in
      record w.report { root_hash = tree_root w.leaves }
