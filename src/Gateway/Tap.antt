-- ===== src/Gateway/Tap.antt =====
-- crates/ancre-gateway/src/tap.rs: the body of a response, which is observed on its way to the
-- client and gives one audit event. The calls of `emit` are the list of events beside the body
-- after; an instant is in nanoseconds.
pub mod Once
pub mod Cut
use ancre.Prelude.{
  ℕ, suc, ◌-◌, ◌/◌, Bool, true, false, not, ◌||◌, List, [], ◌∷◌, ◌++◌, Option, none, some, Result,
  ok, err, Text, text, leb, ◌==◌, ℕ-Eq, List-Eq, if◌then◌else◌,
}
use ancre.Prelude.Int.{ℤ}
use ancre.Canon.Hash.{Hash32, Digest, Hasher, new_hasher, update, finalize}
use ancre.Types.Risk.{RiskFlag, risk_flag_str}
use ancre.Types.Event.{
  EmittedEvent, Pins, Metrics, Outcome, success, error, interrupted, llm_request,
}
use ancre.Ingester.Writer.{decimal}
use ancre.Provider.{
  ProviderKind, kind_str, ServedBy, served_unknown, StreamPins, no_pins, absorb_served, finish_pins,
  ProviderError,
}
use ancre.Provider.Sse.{Frame, FrameScanner, new_scanner, feed, finish_scan}
use ancre.Gateway.Telemetry.Drops.{to_u32}

pub record RequestCtx : Type 0 where
  pub trace_id : Text
  pub attempt_seq : ℕ
  pub pins : Pins
  pub started : ℕ

-- What the tap asks of a provider.
pub record Provider : Type 0 where
  pub kind : ProviderKind
  pub served_by : List ℕ → Result ProviderError ServedBy
  pub served_by_streaming : Frame → Option ServedBy

pub record Tap : Type 0 where
  pub ctx : RequestCtx
  pub tenant_id : Text
  pub node_id : Text
  pub provider : Provider
  pub http_status : ℕ
  pub request_digest : Hash32
  pub streaming : Bool

pub record TappedBody : Type 0 where
  pub tap : Option Tap
  pub scanner : FrameScanner
  pub pins : StreamPins
  pub buffered : List ℕ
  pub response_hasher : Hasher
  pub started : ℕ
  pub ttft : Option ℕ
  pub outcome : Outcome

-- TappedBody::new
abbrev pub new_body : Tap → TappedBody
new_body tap = record {
  tap = some tap;
  scanner = new_scanner;
  pins = no_pins;
  buffered = [];
  response_hasher = new_hasher;
  started = tap.ctx.started;
  ttft = none;
  outcome = success;
}

abbrev pub or_now : ℕ → Option ℕ → Option ℕ
or_now now none = some now
or_now now (some t) = some t

abbrev pub absorb_some : Option ServedBy → StreamPins → StreamPins
absorb_some none pins = pins
absorb_some (some s) pins = absorb_served s pins

-- The closure over the frames.
abbrev pub absorb_frames : Provider → List Frame → StreamPins → StreamPins
absorb_frames p [] pins = pins
absorb_frames p (f ∷ fs) pins = absorb_frames p fs (absorb_some (p.served_by_streaming f) pins)

abbrev pub scan_chunk : List ℕ → Provider → TappedBody → TappedBody
scan_chunk chunk p b =
    let (result, frames, scanner) = feed chunk b.scanner in
    record b { scanner = scanner; pins = absorb_frames p frames b.pins }

abbrev pub buffer_chunk : List ℕ → TappedBody → TappedBody
buffer_chunk chunk b = record b { buffered = b.buffered ++ chunk }

-- The end of `observe`, on the tap if it is there.
unfoldable pub observe_tap : List ℕ → Option Tap → TappedBody → TappedBody
observe_tap chunk none b = b
observe_tap chunk (some tap) b =
    if tap.streaming then scan_chunk chunk tap.provider b else buffer_chunk chunk b

-- TappedBody::observe
unfoldable pub observe : ℕ → List ℕ → TappedBody → TappedBody
observe now chunk b =
    observe_tap chunk b.tap
      (record b { ttft = or_now now b.ttft; response_hasher = update b.response_hasher chunk })

abbrev pub or_unknown : Result ProviderError ServedBy → ServedBy
or_unknown (ok s) = s
or_unknown (err e) = served_unknown

-- What `finish` says of the model.
unfoldable pub served_at_end : Tap → TappedBody → ServedBy
served_at_end tap b =
    if tap.streaming
    then finish_pins (absorb_frames tap.provider (finish_scan b.scanner).0 b.pins)
    else or_unknown (tap.provider.served_by b.buffered)

-- `contains`: two flags have two spellings.
abbrev pub has_flag : RiskFlag → List RiskFlag → Bool
has_flag f [] = false
has_flag f (g ∷ gs) = risk_flag_str f == risk_flag_str g || has_flag f gs

abbrev pub add_flag : Option RiskFlag → List RiskFlag → List RiskFlag
add_flag none flags = flags
add_flag (some f) flags = if not (has_flag f flags) then flags ++ f ∷ [] else flags

abbrev pub millis_since : ℕ → ℕ → ℕ
millis_since earlier later = to_u32 ((later - earlier) / 1000000)

abbrev pub ttft_of : ℕ → Option ℕ → ℕ
ttft_of started none = 0
ttft_of started (some t) = millis_since started t

-- The two clocks and the fresh identifier of the event.
pub record Moment : Type 0 where
  pub instant : ℕ
  pub wall : ℤ
  pub id : List ℕ

-- What the inner body answers to a poll: a frame with its data if it has any, and whether the stream is at
-- its end with it.
pub data Polled : Type 0 where
  framed : Option (List ℕ) → Bool → Polled
  failed ended pending : Polled

abbrev pub observe_data : ℕ → Option (List ℕ) → TappedBody → TappedBody
observe_data now none b = b
observe_data now (some chunk) b = observe now chunk b

module _ ⦃d : Digest⦄ where
  unfoldable pub event_of : Moment → Tap → ServedBy → TappedBody → EmittedEvent
  event_of at tap served b = record {
    tenant_id = tap.tenant_id;
    system_id = tap.ctx.pins.system_id;
    event_id = at.id;
    trace_id = tap.ctx.trace_id;
    attempt_seq = tap.ctx.attempt_seq;
    occurred_at = at.wall;
    node_id = tap.node_id;
    event_type = llm_request;
    outcome = b.outcome;
    pins = record tap.ctx.pins {
      model_version = served.model_version;
      risk_flags = add_flag served.flag tap.ctx.pins.risk_flags;
    };
    request_digest = tap.request_digest;
    response_digest = finalize b.response_hasher;
    metrics = record {
      provider = kind_str tap.provider.kind;
      http_status = tap.http_status;
      latency_ms = millis_since b.started at.instant;
      ttft_ms = ttft_of b.started b.ttft;
      tokens_in = served.tokens_in;
      tokens_out = served.tokens_out;
      error_code =
          if leb 400 tap.http_status then text "http_" ++ decimal 20 tap.http_status else [];
    };
  }

  -- What `finish` changes: the tap is taken, and so are the pins and the carry of a stream.
  abbrev pub spent : Tap → TappedBody → TappedBody
  spent tap b =
      if tap.streaming
      then record b { tap = none; pins = no_pins; scanner = (finish_scan b.scanner).1 }
      else record b { tap = none }

  abbrev pub finish_tap : Moment → Option Tap → TappedBody → List EmittedEvent × TappedBody
  finish_tap at none b = ([], b)
  finish_tap at (some tap) b = (event_of at tap (served_at_end tap b) b ∷ [], spent tap b)

  -- TappedBody::finish
  unfoldable pub finish_body : Moment → TappedBody → List EmittedEvent × TappedBody
  finish_body at b = finish_tap at b.tap b

  -- TappedBody::poll_frame
  unfoldable pub poll_frame : Moment → Polled → TappedBody → List EmittedEvent × TappedBody
  poll_frame at (framed bytes end) b =
      let seen = observe_data at.instant bytes b in if end then finish_body at seen else ([], seen)
  poll_frame at failed b = finish_body at (record b { outcome = error })
  poll_frame at ended b = finish_body at b
  poll_frame at pending b = ([], b)

  abbrev pub drop_tap : Moment → Option Tap → TappedBody → List EmittedEvent
  drop_tap at none b = []
  drop_tap at (some tap) b = (finish_body at (record b { outcome = interrupted })).0

  -- Drop of TappedBody
  unfoldable pub drop_body : Moment → TappedBody → List EmittedEvent
  drop_body at b = drop_tap at b.tap b

  -- The life of a body: it is polled any number of times and dropped.
  unfoldable pub serve : List (Moment × Polled) → Moment → TappedBody → List EmittedEvent
  serve [] last b = drop_body last b
  serve ((at, p) ∷ ps) last b =
      let (events, after) = poll_frame at p b in events ++ serve ps last after
