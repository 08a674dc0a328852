-- ===== src/Examples/Bodies.antt =====
-- crates/ancre-gateway/src/tap.rs: the theorems on a streamed body, whose provider names the model
-- by the data of a frame.
use ancre.Prelude.{
  ℕ, ◌≡◌, refl, true, false, List, [], ◌∷◌, ◌++◌, none, some, Result, ok, Text, text, length, map,
}
use ancre.Prelude.Int.{pos}
use ancre.Canon.Hash.{genesis}
use ancre.Types.Event.{null_baseline}
use ancre.Provider.{open_ai, Response, served_by, openai_frame}
use ancre.Gateway.Tap.{Provider, Tap, Moment, framed, failed, pending, new_body, finish_body, serve}
use ancre.Gateway.Tap.Once.{length-serve}
use ancre.Gateway.Tap.Cut.{observe_all, without_ttft, observe_all-told}
use ancre.Examples.Provider.{
  first_part, second_part, frame_one, frame_two, left_part, split_run, whole_run,
}
use ancre.Examples.Codec.{example_digest}

-- The data of a body or a frame is the name of the model.
abbrev pub read_name : List ℕ → Result Text Response
read_name bytes = ok (record { model = some bytes; usage = none })

abbrev pub naming : Provider
naming = record {
  kind = open_ai;
  served_by = served_by read_name open_ai;
  served_by_streaming = openai_frame read_name;
}

abbrev pub a_tap : Tap
a_tap = record {
  ctx = record { trace_id = text "r"; attempt_seq = 0; pins = null_baseline; started = 0 };
  tenant_id = text "t";
  node_id = text "n";
  provider = naming;
  http_status = 200;
  request_digest = genesis;
  streaming = true;
}

abbrev pub at_end : Moment
at_end = record { instant = 9000000; wall = pos 5; id = [] }

length-serve_example :
    length (
      serve
        ((at_end, framed (some first_part) false) ∷ (at_end, pending) ∷ (at_end, failed) ∷ [])
        at_end
        (new_body a_tap))
    ≡ 1
length-serve_example =
    length-serve a_tap
      ((at_end, framed (some first_part) false) ∷ (at_end, pending) ∷ (at_end, failed) ∷ []) at_end

observe_all-told_example :
    map without_ttft
      (finish_body at_end
        (observe_all ((1, first_part) ∷ (2, second_part) ∷ []) (new_body a_tap))).0
    ≡ map without_ttft
        (finish_body at_end (observe_all ((3, first_part ++ second_part) ∷ []) (new_body a_tap))).0
observe_all-told_example =
    observe_all-told at_end a_tap ((1, first_part) ∷ (2, second_part) ∷ [])
      ((3, first_part ++ second_part) ∷ []) tt tt (frame_one ∷ frame_two ∷ [])
      (frame_one ∷ frame_two ∷ []) left_part left_part refl split_run whole_run
