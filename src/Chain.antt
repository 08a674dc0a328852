-- ===== src/Chain.antt =====
-- crates/ancre-chain/src/lib.rs: the hash of an event and its sealing.
pub mod Framing
pub mod Verify
pub mod Checkpoint
use ancre.Prelude.{
  ℕ, ◌/◌, ◌%◌, List, [], ◌∷◌, ◌++◌, Result, ok, err, ◌>>=◌, Text, text, length, leb, if◌then◌else◌,
}
use ancre.Canon.Hash.{Hash32, Digest, Hasher, new_hasher, update, finalize}
use ancre.Canon.Cbor.{
  KeyOrder, Ciborium, CanonError, float_not_allowed, duplicate_map_key, not_canonical,
  encode_failed, decode_failed,
}
use ancre.Types.Event.{AuditEvent}
use ancre.Types.Event.Body.{hashed_body}

pub record ChainId : Type 0 where
  pub tenant_id : Text
  pub system_id : Text

pub data ChainError : Type 0 where
  canon : CanonError → ChainError
  bad_signature bad_inclusion_proof leaves_do_not_match_checkpoint empty_range : ChainError
  bad_key : Text → ChainError
  seq_out_of_range : ℕ → ℕ → ℕ → ChainError

-- CANON_VERSION, of the default build.
abbrev pub canon_version : Text
canon_version = text "ancre-canon/1"

abbrev event_tag : Text
event_tag = text "ancre-event/1"

abbrev u32_max : ℕ
u32_max = 4294967295

-- u32::try_from(n).unwrap_or(u32::MAX)
abbrev pub saturating_u32 : ℕ → ℕ
saturating_u32 n = if leb n u32_max then n else u32_max

-- u32::to_le_bytes
abbrev pub u32_le_bytes : ℕ → List ℕ
u32_le_bytes n = n % 256 ∷ n / 256 % 256 ∷ n / 65536 % 256 ∷ n / 16777216 % 256 ∷ []

-- A field behind its length.
unfoldable pub absorb : Hasher → List ℕ → Hasher
absorb h field = update (update h (u32_le_bytes (saturating_u32 (length field)))) field

-- The `map_err` that turns an encoding error into a chain error.
abbrev pub canon_error {ℓ} : {A : Type ℓ} → Result CanonError A → Result ChainError A
canon_error (ok a) = ok a
canon_error (err e) = err (canon e)

module _ ⦃d : Digest⦄ ⦃o : KeyOrder⦄ ⦃c : Ciborium⦄ where
  unfoldable pub event_hash : AuditEvent → Result ChainError Hash32
  event_hash event = do
    body ← canon_error (hashed_body event)
    ok (
        finalize (
          absorb
            (absorb (absorb (absorb new_hasher event_tag) event.canon_version)
              event.prev_hash.bytes)
            body))

  -- The event with its hash stamped; the source also returns the hash, which is that field.
  unfoldable pub seal : AuditEvent → Result ChainError AuditEvent
  seal event = do h ← event_hash event; ok (record event { event_hash = h })
