-- ===== src/Examples/Checkpoint.antt =====
-- crates/ancre-chain/src/checkpoint.rs: the theorems on checkpoints, at concrete inputs. A
-- signature here is the key before the payload.
use ancre.Prelude.{
  ℕ, reverse, drop, list_eq, ◌≡◌, ◌⊎◌, refl, List, [], ◌∷◌, ◌++◌, some, Result, ok, err, text,
  length, replicate, arith, get_elem?, ◌==◌, ==_refl, ℕ-Eq, List-Eq,
}
use ancre.Prelude.Int.{pos}
use ancre.Prelude.Sort.{sort_by}
use ancre.Prelude.TextOrder.{text_le}
use ancre.Canon.Hash.{Hash32, hash_eq, Collision, hash_leaf, hash_node}
use ancre.Canon.Tree.{tree_root, tree_proof, largest_pow2_below, bit_length, tree_root_fuel}
use ancre.Canon.Cbor.{encode, canonicalize, close_map, has_tie, entries_of, write_canonical}
use ancre.Chain.{ChainError, absorb}
use ancre.Chain.Checkpoint.{
  CheckpointBody, Checkpoint, CheckpointSigner, InclusionProof, Ed25519, AcceptsOwn, tree_size,
  index_of, range_body, seal_range, sign, signing_payload, verify_checkpoint, prove_inclusion,
  verify_inclusion, checkpoint_value, checkpoint_entries,
}
use ancre.Chain.Checkpoint.Inclusion.{
  seal_range-verify_checkpoint, verify_inclusion-prove_inclusion, verify_inclusion_sound,
}
use ancre.Examples.Chain.{quiet_hash}
use ancre.Examples.Codec.{example_digest, example_order, example_ciborium, write_all}

abbrev pub keyed : Ed25519
keyed = record {
  VerifyingKey = List ℕ;
  sign = λ secret payload. secret ++ payload;
  verifying_key = λ secret. secret;
  from_bytes = λ key. ok key;
  verify = λ vk payload signature. signature == (vk ++ payload);
}

pub keyed-AcceptsOwn : AcceptsOwn keyed
keyed-AcceptsOwn secret payload = (secret, refl, ==_refl (secret ++ payload))

abbrev pub signer : CheckpointSigner
signer = record { key = 1 ∷ []; key_id = text "k" }

abbrev leaves : List Hash32
leaves = record { bytes = replicate 32 1 } ∷ record { bytes = replicate 32 2 } ∷ []

abbrev body : CheckpointBody
body = range_body (pos 5) (text "t") (text "s") 7 leaves

abbrev pub payload_of : Result ChainError (List ℕ) → List ℕ
payload_of (ok bs) = bs
payload_of (err e) = []

payload_made : signing_payload body ≡ ok (payload_of (signing_payload body))
unfolding signing_payload absorb checkpoint_value checkpoint_entries encode canonicalize close_map
    has_tie entries_of write_canonical write_all sort_by text_le tree_root hash_node
    largest_pow2_below bit_length hash_leaf
payload_made = refl

abbrev sealed : Checkpoint
sealed = record {
  body = body;
  signature = 1 ∷ payload_of (signing_payload body);
  key_id = text "k";
}

range_sealed : seal_range keyed signer (pos 5) (text "t") (text "s") 7 leaves ≡ ok sealed
unfolding seal_range sign
range_sealed = rw (payload_made)

abbrev Covered : Checkpoint → Type 0
Covered cp =
    (verify_checkpoint keyed cp (1 ∷ []) ≡ ok tt)
    × (tree_size cp.body ≡ 2)
    × (cp.body.root_hash ≡ tree_root leaves)
    × (cp.body.seq_from ≡ 7)
    × (index_of cp.body 8 ≡ some 1)

seal_range-verify_checkpoint_example : Covered sealed
seal_range-verify_checkpoint_example =
    seal_range-verify_checkpoint keyed signer (pos 5) (text "t") (text "s") 7 leaves sealed 1
      keyed-AcceptsOwn (omega arith) (omega arith) (omega arith) range_sealed

two_leaves : length leaves ≡ tree_size body
unfolding tree_size
two_leaves = refl

second_inside : index_of body 8 ≡ some 1
unfolding index_of
second_inside = refl

abbrev second_proof : InclusionProof
second_proof = record {
  seq = 8;
  event_hash = record { bytes = replicate 32 2 };
  path = record { bytes = replicate 32 1 } ∷ [];
}

second_proved : prove_inclusion sealed leaves 8 ≡ ok second_proof
unfolding prove_inclusion index_of tree_size tree_root tree_proof largest_pow2_below hash_leaf
    hash_node bit_length tree_root_fuel hash_eq list_eq
second_proved = refl

sealed_verifies : verify_checkpoint keyed sealed (1 ∷ []) ≡ ok tt
sealed_verifies =
    (seal_range-verify_checkpoint keyed signer (pos 5) (text "t") (text "s") 7 leaves sealed 1
      keyed-AcceptsOwn (omega arith) (omega arith) (omega arith) range_sealed).0

verify_inclusion-prove_inclusion_example :
    verify_inclusion keyed sealed second_proof (1 ∷ []) ≡ ok tt
verify_inclusion-prove_inclusion_example =
    verify_inclusion-prove_inclusion keyed sealed leaves 8 second_proof (1 ∷ []) second_proved
      sealed_verifies

verify_inclusion_sound_example :
    (verify_checkpoint keyed sealed (1 ∷ []) ≡ ok tt)
    × (index : ℕ) × (index_of body 8 ≡ some index)
    × ((get_elem? leaves index ≡ some (record { bytes = replicate 32 2 }))
        ⊎ Collision example_digest)
verify_inclusion_sound_example =
    verify_inclusion_sound keyed sealed leaves second_proof (1 ∷ []) two_leaves refl (refl, tt)
      (verify_inclusion-prove_inclusion keyed sealed leaves 8 second_proof (1 ∷ []) second_proved
        sealed_verifies)

-- A body that ends like that of an event, for the example's hash.
abbrev lookalike : CheckpointBody
lookalike = record body { tenant_id = reverse (drop 1 quiet_hash.bytes) }

lookalike_payload : signing_payload lookalike ≡ ok quiet_hash.bytes
unfolding signing_payload absorb checkpoint_value checkpoint_entries encode canonicalize close_map
    has_tie entries_of write_canonical write_all sort_by text_le tree_root hash_node
    largest_pow2_below bit_length hash_leaf
lookalike_payload = refl
