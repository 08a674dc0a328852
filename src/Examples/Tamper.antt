-- ===== src/Examples/Tamper.antt =====
-- crates/ancre-chain/src/verify.rs and the hashed body: tampering, at concrete inputs.
use ancre.Prelude.{ℕ, ◌≡◌, refl, ap, List, [], ◌∷◌, Result, ok, err, arith, All}
use ancre.Prelude.Sort.{sort_by}
use ancre.Prelude.TextOrder.{text_le}
use ancre.Canon.Hash.{Hash32, genesis}
use ancre.Canon.Cbor.{
  CanonError, encode, canonicalize, close_map, has_tie, entries_of, write_canonical,
}
use ancre.Types.Risk.{risk_class_str}
use ancre.Types.Event.{AuditEvent, event_type_str, outcome_str}
use ancre.Types.Event.Body.{hashed_body, hashed_view, body_value, body_entries, text_items}
use ancre.Chain.{event_hash, absorb}
use ancre.Chain.Verify.{hash_mismatch, gap, link, verify_range}
use ancre.Chain.Verify.Clean.{HasNext}
use ancre.Chain.Verify.Tamper.{IsTampered, verify_range_tampered, verify_range_removed}
use ancre.Examples.Codec.{example_digest, example_order, example_ciborium, write_all}
use ancre.Examples.Chain.{
  no_metrics, heartbeat_event, event_at, hash_with_ttft, quiet_hash, three_events,
  two_events-Chained, two_events-HasNext, three_events-Chained,
}

-- The second event, with another time to the first token.
abbrev slower : AuditEvent
slower = record (event_at 2 quiet_hash) {
  emitted = record heartbeat_event { metrics = record no_metrics { ttft_ms = 9 } };
}

slower_hash : event_hash slower ≡ ok (hash_with_ttft 9)
unfolding event_hash absorb hashed_body hashed_view body_value body_entries text_items encode
    canonicalize close_map has_tie entries_of write_canonical write_all sort_by text_le
    event_type_str outcome_str risk_class_str
slower_hash = refl

abbrev second_byte : List ℕ → ℕ
second_byte (a ∷ b ∷ r) = b
second_byte _ = 0

slower-IsTampered : IsTampered (event_at 2 quiet_hash) slower (hash_with_ttft 9)
slower-IsTampered = record {
  same_seq = refl;
  same_prev = refl;
  same_version = refl;
  same_hash = refl;
  hashes_to = slower_hash;
  other_hash = λ h. absurd (nine (ap (λ (x : Hash32). second_byte x.bytes) h));
}
  where
    nine : ◌≡◌ {A = ℕ} 9 0 → ⊥
    nine h = omega arith

verify_range_tampered_example :
    (verify_range (event_at 1 genesis ∷ slower ∷ []) genesis).violations
    ≡ hash_mismatch 2 quiet_hash (hash_with_ttft 9) ∷ []
verify_range_tampered_example =
    verify_range_tampered genesis (event_at 1 genesis ∷ []) [] (event_at 2 quiet_hash) slower
      (hash_with_ttft 9) two_events-HasNext two_events-Chained slower-IsTampered

three_events-HasNext : All HasNext three_events
three_events-HasNext = (omega arith, (omega arith, (omega arith, tt)))

verify_range_removed_example :
    (verify_range (event_at 1 genesis ∷ event_at 3 quiet_hash ∷ []) genesis).violations
    ≡ gap 1 3 ∷ link quiet_hash (event_at 3 quiet_hash)
verify_range_removed_example =
    verify_range_removed genesis [] [] (event_at 1 genesis) (event_at 2 quiet_hash)
      (event_at 3 quiet_hash) three_events-HasNext three_events-Chained refl refl

abbrev bytes_of : Result CanonError (List ℕ) → List ℕ
bytes_of (ok bs) = bs
bytes_of (err e) = []

slower_body : hashed_body slower ≡ ok (bytes_of (hashed_body slower))
unfolding hashed_body hashed_view body_value body_entries text_items encode canonicalize close_map
    has_tie entries_of write_canonical write_all sort_by text_le event_type_str outcome_str
    risk_class_str
slower_body = refl
