-- ===== src/Examples/Writer.antt =====
-- crates/ancre-ingester/src/chain_writer.rs: the theorems on the writer, at concrete inputs.
use ancre.Prelude.{list_eq, ◌+◌, ◌≡◌, refl, true, [], ◌∷◌, ok, err, text, length, replicate, arith}
use ancre.Prelude.Int.{pos}
use ancre.Prelude.Sort.{sort_by}
use ancre.Prelude.TextOrder.{text_le}
use ancre.Canon.Hash.{genesis}
use ancre.Canon.Cbor.{encode, canonicalize, close_map, has_tie, entries_of, write_canonical}
use ancre.Types.Risk.{risk_class_str}
use ancre.Types.Event.{event_type_str, outcome_str}
use ancre.Types.Event.Body.{hashed_body, hashed_view, body_value, body_entries, text_items}
use ancre.Chain.{event_hash, seal, absorb}
use ancre.Chain.Verify.{is_clean, verify_range}
use ancre.Chain.Verify.Findings.{head_after}
use ancre.Ingester.Writer.{
  ChainWriter, duplicate, new, append, chain_event, advance, remember, trim, rewind_to,
}
use ancre.Ingester.Writer.History.{Written, done, appended, refused}
use ancre.Ingester.Writer.Verified.{NumberedFrom, Written-is_clean}
use ancre.Ingester.Writer.Window.{IsWriter}
use ancre.Ingester.Writer.Redelivered.{append_redelivered}
use ancre.Ingester.Writer.Rewind.{rewind_to-Written}
use ancre.Examples.Codec.{example_digest, example_order, example_ciborium, write_all}
use ancre.Examples.Chain.{heartbeat_event, event_at, quiet_hash}

abbrev pub before : ChainWriter
before = new (record { tenant_id = text "t"; system_id = text "s" }) (text "n")

abbrev pub after : ChainWriter
after = record before {
  next_seq = 2;
  head_hash = quiet_hash;
  seen = (replicate 16 7, 1) ∷ [];
  seen_order = replicate 16 7 ∷ [];
}

first_appended : append (pos 2000) heartbeat_event before ≡ (ok (event_at 1 genesis), after)
unfolding append chain_event advance remember trim seal event_hash absorb hashed_body hashed_view
    body_value body_entries text_items encode canonicalize close_map has_tie entries_of
    write_canonical write_all sort_by text_le event_type_str outcome_str risk_class_str
first_appended = refl

-- The redelivery of the same event.
second_refused :
    append (pos 3000) heartbeat_event after ≡ (err (duplicate (replicate 16 7) 1), after)
unfolding append list_eq
second_refused = refl

run : Written before (event_at 1 genesis ∷ []) after
run =
    appended (pos 2000) heartbeat_event before after after (event_at 1 genesis) [] first_appended (
      refused (pos 3000) heartbeat_event after after after (duplicate (replicate 16 7) 1) []
        second_refused (done after))

pub before-IsWriter : IsWriter before
before-IsWriter = record { bounded = omega arith; distinct = tt; known = tt; behind = tt }

abbrev Verified : Type 0
Verified =
    (is_clean (verify_range (event_at 1 genesis ∷ []) genesis) ≡ true)
    × NumberedFrom 1 (event_at 1 genesis ∷ [])
    × (after.head_hash ≡ head_after genesis (event_at 1 genesis ∷ []))
    × (after.next_seq ≡ before.next_seq + length (event_at 1 genesis ∷ []))

Written-is_clean_example : Verified
Written-is_clean_example = Written-is_clean before after (event_at 1 genesis ∷ []) run (omega arith)

append_redelivered_example :
    append (pos 3000) heartbeat_event after ≡ (err (duplicate (replicate 16 7) 1), after)
append_redelivered_example =
    append_redelivered (pos 2000) (pos 3000) heartbeat_event heartbeat_event before after after
      (event_at 1 genesis) [] before-IsWriter (omega arith) first_appended (done after)
      (omega arith) refl

rewind_to-Written_example : rewind_to 1 genesis after ≡ before
rewind_to-Written_example =
    rewind_to-Written before after (event_at 1 genesis ∷ []) before-IsWriter run (omega arith)
      (omega arith)
