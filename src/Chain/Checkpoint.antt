-- ===== src/Chain/Checkpoint.antt =====
-- crates/ancre-chain/src/checkpoint.rs: signed checkpoints over a range of events, and proofs that
-- one event is in the range. Signing with ed25519 (`ed25519_dalek`) is a parameter.
pub mod Payload
pub mod Inclusion
use ancre.Prelude.{
  ℕ, ◌+◌, ◌-◌, ◌%◌, ◌≡◌, Bool, true, false, not, ◌&&◌, ◌||◌, List, [], ◌∷◌, Option, none, some,
  Result, ok, err, ◌>>=◌, ok_or, Text, text, length, get_elem?, leb, nat_eq, ◌==◌, if◌then◌else◌,
  u64_mod,
}
use ancre.Prelude.Int.{ℤ, pos}
use ancre.Canon.Hash.{Hash32, Hash32-Eq, Digest, new_hasher, finalize}
use ancre.Canon.Tree.{tree_root, tree_proof, root_from_proof}
use ancre.Canon.Cbor.{
  Value, integer, bytes, text_string, map_of, KeyOrder, Ciborium, Pairs, entries_of, encode,
}
use ancre.Chain.{
  ChainError, bad_signature, bad_inclusion_proof, leaves_do_not_match_checkpoint, empty_range,
  bad_key, seq_out_of_range, canon_version, absorb, canon_error,
}

-- `built_at` is a timestamp in microseconds.
pub record CheckpointBody : Type 0 where
  pub tenant_id : Text
  pub system_id : Text
  pub seq_from : ℕ
  pub seq_to : ℕ
  pub root_hash : Hash32
  pub built_at : ℤ
  pub canon_version : Text

-- The sum is a `u64`; a `usize` has 64 bits.
unfoldable pub tree_size : CheckpointBody → ℕ
tree_size b = (b.seq_to - b.seq_from + 1) % u64_mod

unfoldable pub index_of : CheckpointBody → ℕ → Option ℕ
index_of b seq = if leb b.seq_from seq && leb seq b.seq_to then some (seq - b.seq_from) else none

pub record Checkpoint : Type 0 where
  pub body : CheckpointBody
  pub signature : List ℕ
  pub key_id : Text

abbrev checkpoint_tag : Text
checkpoint_tag = text "ancre-checkpoint/1"

-- What `derive(Serialize)` gives for the body.
unfoldable pub checkpoint_entries : CheckpointBody → Pairs
checkpoint_entries b =
    (text_string (text "tenant_id"), text_string b.tenant_id)
    ∷ (text_string (text "system_id"), text_string b.system_id)
    ∷ (text_string (text "seq_from"), integer (pos b.seq_from))
    ∷ (text_string (text "seq_to"), integer (pos b.seq_to))
    ∷ (text_string (text "root_hash"), bytes b.root_hash.bytes)
    ∷ (text_string (text "built_at"), integer b.built_at)
    ∷ (text_string (text "canon_version"), text_string b.canon_version)
    ∷ []

unfoldable pub checkpoint_value : CheckpointBody → Result Text Value
checkpoint_value b = ok (map_of (entries_of (checkpoint_entries b)))

-- SigningKey and VerifyingKey of `ed25519_dalek`. `from_bytes` is that of the verifying key.
pub record Ed25519 : Type 1 where
  pub VerifyingKey : Type 0
  pub sign : List ℕ → List ℕ → List ℕ
  pub verifying_key : List ℕ → List ℕ
  pub from_bytes : List ℕ → Result Text VerifyingKey
  pub verify : VerifyingKey → List ℕ → List ℕ → Bool

-- The key of a signer reads back, and accepts what the signer signs.
abbrev pub AcceptsOwn : Ed25519 → Type 0
AcceptsOwn s =
    (secret payload : List ℕ)
    → (vk : s.VerifyingKey) × (s.from_bytes (s.verifying_key secret) ≡ ok vk)
      × (s.verify vk payload (s.sign secret payload) ≡ true)

pub record CheckpointSigner : Type 0 where
  pub key : List ℕ
  pub key_id : Text

abbrev pub bad_key_error {ℓ} : {A : Type ℓ} → Result Text A → Result ChainError A
bad_key_error (ok a) = ok a
bad_key_error (err e) = err (bad_key e)

module _ ⦃d : Digest⦄ where
  -- The body that `seal_range` signs; `now` is the clock.
  abbrev pub range_body : ℤ → Text → Text → ℕ → List Hash32 → CheckpointBody
  range_body now tenant_id system_id seq_from leaves = record {
    tenant_id = tenant_id;
    system_id = system_id;
    seq_from = seq_from;
    seq_to = (seq_from + length leaves - 1) % u64_mod;
    root_hash = tree_root leaves;
    built_at = now;
    canon_version = canon_version;
  }

module _ ⦃d : Digest⦄ ⦃o : KeyOrder⦄ ⦃c : Ciborium⦄ where
  unfoldable pub signing_payload : CheckpointBody → Result ChainError (List ℕ)
  signing_payload body = do
    encoded ← canon_error (encode checkpoint_value body)
    ok (finalize (absorb (absorb new_hasher checkpoint_tag) encoded)).bytes

  -- CheckpointSigner::sign
  unfoldable pub sign : Ed25519 → CheckpointSigner → CheckpointBody → Result ChainError Checkpoint
  sign s signer body = do
    payload ← signing_payload body
    ok (record { body = body; signature = s.sign signer.key payload; key_id = signer.key_id })

  -- CheckpointSigner::seal_range
  unfoldable pub seal_range :
      Ed25519 → CheckpointSigner → ℤ → Text → Text → ℕ → List Hash32 → Result ChainError Checkpoint
  seal_range s signer now tenant_id system_id seq_from [] = err empty_range
  seal_range s signer now tenant_id system_id seq_from (leaf ∷ leaves) =
      sign s signer (range_body now tenant_id system_id seq_from (leaf ∷ leaves))

  unfoldable pub verify_checkpoint : Ed25519 → Checkpoint → List ℕ → Result ChainError (Unit {0})
  verify_checkpoint s cp key = do
    vk ← bad_key_error (s.from_bytes key)
    payload ← signing_payload cp.body
    if s.verify vk payload cp.signature then ok tt else err bad_signature

pub record InclusionProof : Type 0 where
  pub seq : ℕ
  pub event_hash : Hash32
  pub path : List Hash32

abbrev pub out_of_range : CheckpointBody → ℕ → ChainError
out_of_range b seq = seq_out_of_range seq b.seq_from b.seq_to

module _ ⦃d : Digest⦄ where
  -- `leaves[index]` is read after the path was found, so it is inside the range.
  unfoldable pub prove_inclusion : Checkpoint → List Hash32 → ℕ → Result ChainError InclusionProof
  prove_inclusion cp leaves seq = do
    index ← ok_or (index_of cp.body seq) (out_of_range cp.body seq)
    if not (nat_eq (length leaves) (tree_size cp.body))
          || not (tree_root leaves == cp.body.root_hash)
        then err leaves_do_not_match_checkpoint
        else do
          path ← ok_or (tree_proof leaves index) leaves_do_not_match_checkpoint
          leaf ← ok_or (get_elem? leaves index) leaves_do_not_match_checkpoint
          ok (record { seq = seq; event_hash = leaf; path = path })

module _ ⦃d : Digest⦄ ⦃o : KeyOrder⦄ ⦃c : Ciborium⦄ where
  unfoldable pub verify_inclusion :
      Ed25519 → Checkpoint → InclusionProof → List ℕ → Result ChainError (Unit {0})
  verify_inclusion s cp proof key = do
    checked ← verify_checkpoint s cp key
    index ← ok_or (index_of cp.body proof.seq) (out_of_range cp.body proof.seq)
    computed ←
        ok_or (root_from_proof proof.event_hash index (tree_size cp.body) proof.path)
          bad_inclusion_proof
    if computed == cp.body.root_hash then ok tt else err bad_inclusion_proof
