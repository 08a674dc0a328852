-- ===== src/Examples/Pack.antt =====
-- crates/ancre-verify: the theorems on packs, at concrete inputs.
use ancre.Prelude.{
  ℕ, ◌+◌, ◌-◌, ◌≡◌, ◌↔◌, ◌⊎◌, refl, true, List, [], ◌∷◌, some, ok, Text, text, length, arith, All,
  list_eq,
}
use ancre.Prelude.Int.{pos}
use ancre.Prelude.Sort.{sort_by}
use ancre.Canon.Hash.{Hash32, Collision, genesis, hash_leaf, hash_eq, hash_node}
use ancre.Canon.Tree.{tree_root, tree_root_fuel}
use ancre.Types.Event.{AuditEvent}
use ancre.Types.Event.Body.{hashed_view}
use mathlib.Core.List.{Memᴰ}
use ancre.Prelude.{ap, ap₂, ◌∙◌}
use ancre.Prelude.TextOrder.{text_le}
use ancre.Canon.Cbor.{encode, canonicalize, close_map, has_tie, entries_of, write_canonical}
use ancre.Chain.{absorb}
use ancre.Examples.Codec.{write_all}
use ancre.Pack.{add_leaf}
use ancre.Canon.Tree.{largest_pow2_below, bit_length}
use ancre.Chain.Checkpoint.{checkpoint_value, checkpoint_entries}
use ancre.Chain.Verify.{verify_range, ChainReport}
use ancre.Chain.Checkpoint.{
  Checkpoint, CheckpointBody, Ed25519, tree_size, verify_checkpoint, signing_payload,
}
use ancre.Pack.{
  CheckpointVerdict, verified, attest_one, attest_root, range_leaves, by_seq, by_seq_onto, key_for,
  attested_runs, verified_ranges,
}
use ancre.Pack.Sound.{LeavesOf, IsTyped, attest_one_sound, attested_same}
use ancre.Pack.Runs.{Separate, Covers, IsRange, attested_runs-Covers}
use ancre.Examples.Codec.{example_digest, example_order, example_ciborium, example-ReadsBack}
use ancre.Examples.Chain.{event_at, quiet_hash, two_events, first_sealed, second_sealed}

-- A signature that everything passes.
abbrev lenient : Ed25519
lenient = record {
  VerifyingKey = List ℕ;
  sign = λ secret payload. [];
  verifying_key = λ secret. secret;
  from_bytes = λ key. ok key;
  verify = λ vk payload signature. true;
}

abbrev verdict_of : ℕ → ℕ → CheckpointVerdict
verdict_of from to = record {
  seq_from = from;
  seq_to = to;
  root_hash = genesis;
  attestation = verified [];
}

abbrev three_verdicts : List CheckpointVerdict
three_verdicts = verdict_of 8 9 ∷ verdict_of 1 3 ∷ verdict_of 4 5 ∷ []

three_ranges : All IsRange (verified_ranges three_verdicts)
unfolding verified_ranges
three_ranges =
    ((omega arith, omega arith), ((omega arith, omega arith), ((omega arith, omega arith), tt)))

attested_runs-Covers_example :
    Separate (attested_runs three_verdicts)
    × ((n : ℕ)
        → Covers (attested_runs three_verdicts) n ↔ Covers (verified_ranges three_verdicts) n)
attested_runs-Covers_example = attested_runs-Covers three_verdicts three_ranges

abbrev report : ChainReport
report = verify_range two_events genesis

abbrev both : CheckpointBody
both = record {
  tenant_id = text "t";
  system_id = text "s";
  seq_from = 1;
  seq_to = 2;
  root_hash = tree_root (quiet_hash ∷ quiet_hash ∷ []);
  built_at = pos 5;
  canon_version = text "ancre-canon/1";
}

abbrev over_both : Checkpoint
over_both = record { body = both; signature = []; key_id = text "k" }

abbrev keys : List (Text × List ℕ)
keys = (text "k", 1 ∷ []) ∷ []

abbrev both_leaves : List (ℕ × Hash32)
both_leaves = (2, quiet_hash) ∷ (1, quiet_hash) ∷ []

both_found : by_seq two_events ≡ both_leaves
unfolding by_seq by_seq_onto
both_found =
    ap₂ (λ r q. add_leaf (event_at 2 quiet_hash) q (add_leaf (event_at 1 genesis) r []))
      first_sealed second_sealed

attested_leaves : attest_one lenient over_both both_leaves keys ≡ verified (text "k")
unfolding attest_one attest_root range_leaves tree_size verify_checkpoint signing_payload absorb
    checkpoint_value checkpoint_entries encode canonicalize close_map has_tie entries_of
    write_canonical write_all sort_by text_le tree_root tree_root_fuel largest_pow2_below bit_length
    hash_leaf hash_node hash_eq list_eq
attested_leaves = refl

attested : attest_one lenient over_both (by_seq two_events) keys ≡ verified (text "k")
attested = ap (λ m. attest_one lenient over_both m keys) both_found ∙ attested_leaves

attest_one_sound_example :
    (key : List ℕ) × (key_for keys (text "k") ≡ some key)
    × (verify_checkpoint lenient over_both key ≡ ok tt)
    × (leaves : List Hash32) × (tree_root leaves ≡ both.root_hash)
    × (length leaves ≡ 2 - 1 + 1)
    × LeavesOf two_events 1 leaves
attest_one_sound_example =
    attest_one_sound lenient over_both two_events keys (text "k") (omega arith) attested

two_events-IsTyped : All IsTyped two_events
two_events-IsTyped = ((refl, omega arith), ((refl, omega arith), tt))

attested_same_example :
    ((x : AuditEvent) × (y : AuditEvent) × Memᴰ x two_events
      × Memᴰ y two_events
      × (x.seq ≡ 2)
      × (y.seq ≡ 2)
      × (hashed_view x ≡ hashed_view y))
    ⊎ Collision example_digest
attested_same_example =
    attested_same lenient over_both two_events two_events keys (text "k") (text "k") 1
      example-ReadsBack (omega arith) two_events-IsTyped two_events-IsTyped attested attested
      (omega arith)
