-- ===== src/Examples/Provider.antt =====
-- crates/ancre-provider/src/sse.rs and lib.rs: a stream that is cut in two ways, and the pins of
-- its frames.
use ancre.Prelude.{
  ℕ, ◌≡◌, refl, true, List, [], ◌∷◌, ◌++◌, none, some, ok, Text, text, list_eq, option_eq, arith,
}
use ancre.Provider.{
  open_ai, anthropic, pinned, usage_only, is_pinned, looks_pinned, no_pins, finish_pins,
  served_frame, ends_with_iso_date, matches_shape, all_in_shape,
}
use ancre.Provider.Pinned.{absorb_all_served, usage_only-Pinned}
use ancre.Provider.Sse.{
  Frame, FrameScanner, new_scanner, find_separator, find_from, scan, scan_rounds, push_carry,
  feed_joined, feed_chunk, feed, parse, note_lines, note_line, note_field, split_at_byte,
  split_field, strip_cr, utf8_from,
}
use ancre.Provider.Sse.Scan.{scan_rounds-left}
use ancre.Provider.Sse.Chunks.{feed_all, feed_all-chunks}

-- Two frames, with CRLF lines in the first, and the beginning of a third.
abbrev pub first_part : List ℕ
first_part = text "data: one" ++ 13 ∷ 10 ∷ 13 ∷ []

abbrev pub second_part : List ℕ
second_part = 10 ∷ text "data: two" ++ 10 ∷ 10 ∷ text "da"

abbrev pub frame_one : Frame
frame_one = record { event = none; data_bytes = text "one" }

abbrev pub frame_two : Frame
frame_two = record { event = none; data_bytes = text "two" }

abbrev pub left_part : FrameScanner
left_part = record { carry = text "da" }

pub split_run :
    feed_all (first_part ∷ second_part ∷ []) new_scanner
    ≡ (ok tt, frame_one ∷ frame_two ∷ [], left_part)
unfolding feed_all feed feed_joined feed_chunk push_carry scan scan_rounds find_from parse
    note_lines note_line note_field split_at_byte split_field strip_cr utf8_from list_eq
split_run = refl

pub whole_run :
    feed_all ((first_part ++ second_part) ∷ []) new_scanner
    ≡ (ok tt, frame_one ∷ frame_two ∷ [], left_part)
unfolding feed_all feed feed_joined feed_chunk push_carry scan scan_rounds find_from parse
    note_lines note_line note_field split_at_byte split_field strip_cr utf8_from list_eq
whole_run = refl

feed_all-chunks_example :
    ((frame_one ∷ frame_two ∷ []) ≡ (frame_one ∷ frame_two ∷ [])) × (left_part ≡ left_part)
feed_all-chunks_example =
    feed_all-chunks (first_part ∷ second_part ∷ []) ((first_part ++ second_part) ∷ []) left_part
      left_part (frame_one ∷ frame_two ∷ []) (frame_one ∷ frame_two ∷ []) tt tt refl split_run
      whole_run

scan_rounds-left_example : find_separator (scan_rounds 26 (first_part ++ second_part)).1 ≡ none
scan_rounds-left_example = scan_rounds-left 26 (first_part ++ second_part) (omega arith)

abbrev pub dated : Text
dated = text "gpt-4o-2024-08-06"

dated_frame : served_frame open_ai (some dated) (3, 0) ≡ some (pinned dated 3 0)
unfolding served_frame looks_pinned ends_with_iso_date matches_shape all_in_shape list_eq option_eq
dated_frame = refl

counts_frame : served_frame anthropic none (0, 7) ≡ some (usage_only (0, 7))
unfolding served_frame
counts_frame = refl

usage_only-Pinned_example :
    ((finish_pins
        (absorb_all_served (usage_only (0, 7) ∷ pinned dated 3 0 ∷ []) no_pins)).model_version
      ≡ [])
    × (is_pinned
          (finish_pins (absorb_all_served (usage_only (0, 7) ∷ pinned dated 3 0 ∷ []) no_pins))
        ≡ true)
usage_only-Pinned_example =
    usage_only-Pinned anthropic (0, 7) (usage_only (0, 7)) (pinned dated 3 0 ∷ []) counts_frame
