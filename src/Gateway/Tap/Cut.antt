-- ===== src/Gateway/Tap/Cut.antt =====
-- crates/ancre-gateway/src/tap.rs: the event of a body depends on its bytes, and not on how they were cut.
use ancre.Prelude.{
  ℕ, ◌≡◌, refl, sym, ap, ap₂, ◌∙◌, inl, inr, true, false, List, [], ◌∷◌, ◌++◌, Option, none, some,
  ok, Bool-cases, if◌then◌else◌, map,
}
use mathlib.Core.List.{append_assoc, append-nil}
use ancre.Canon.Hash.{Digest}
use ancre.Types.Event.{EmittedEvent, success}
use ancre.Provider.{StreamPins, no_pins}
use ancre.Provider.Sse.{Frame, FrameScanner, new_scanner, feed, Fed}
use ancre.Provider.Sse.Chunks.{feed_all, joined, then_feed-eq-ok, feed_all-chunks}
use ancre.Gateway.Tap.{
  Tap, TappedBody, Provider, Moment, new_body, observe, observe_tap, scan_chunk, buffer_chunk,
  or_now, absorb_frames, absorb_some, served_at_end, event_of, finish_body,
}

-- The chunks of a body with the instants at which they pass.
abbrev pub Chunks : Type 0
Chunks = List (ℕ × List ℕ)

abbrev pub chunks_of : Chunks → List (List ℕ)
chunks_of cs = map (λ c. c.1) cs

unfoldable pub observe_all : Chunks → TappedBody → TappedBody
observe_all [] b = b
observe_all ((now, chunk) ∷ cs) b = observe_all cs (observe now chunk b)

abbrev first_instant : Chunks → Option ℕ → Option ℕ
first_instant [] t = t
first_instant ((now, chunk) ∷ cs) t = first_instant cs (or_now now t)

-- An event but for the time to the first token.
abbrev pub without_ttft : EmittedEvent → EmittedEvent
without_ttft e = record e { metrics = record e.metrics { ttft_ms = 0 } }

-- A body with its tap.
abbrev body : Tap → FrameScanner → StreamPins → List ℕ → List ℕ → Option ℕ → TappedBody
body tap scanner pins buffered absorbed ttft = record {
  tap = some tap;
  scanner = scanner;
  pins = pins;
  buffered = buffered;
  response_hasher = record { absorbed = absorbed };
  started = tap.ctx.started;
  ttft = ttft;
  outcome = success;
}

absorb_frames-append :
    (p : Provider) (fs gs : List Frame) (pins : StreamPins)
    → absorb_frames p (fs ++ gs) pins ≡ absorb_frames p gs (absorb_frames p fs pins)
absorb_frames-append p [] gs pins = refl
absorb_frames-append p (f ∷ fs) gs pins =
    absorb_frames-append p fs gs (absorb_some (p.served_by_streaming f) pins)

observe_all-streaming :
    (tap : Tap) (cs : Chunks) (scanner : FrameScanner) (pins : StreamPins)
    (buffered absorbed : List ℕ) (ttft : Option ℕ) (u : Unit {0}) (fs : List Frame)
    (s : FrameScanner)
    → tap.streaming ≡ true
    → feed_all (chunks_of cs) scanner ≡ (ok u, fs, s)
    → observe_all cs (body tap scanner pins buffered absorbed ttft)
      ≡ body tap s
          (absorb_frames tap.provider fs pins)
          buffered
          (absorbed ++ joined (chunks_of cs))
          (first_instant cs ttft)
unfolding observe_all observe observe_tap feed_all
observe_all-streaming tap [] scanner pins buffered absorbed ttft u fs s streams h =
    ap₂ (λ x gs. body tap x (absorb_frames tap.provider gs pins) buffered absorbed ttft)
      (ap (λ t. t.2) h) (ap (λ t. t.1) h)
    ∙ ap (λ a. body tap s (absorb_frames tap.provider fs pins) buffered a ttft)
        (sym (append-nil absorbed))
observe_all-streaming tap ((now, chunk) ∷ cs) scanner pins buffered absorbed ttft u fs s streams h =
    let (mid, gs, hs, first, rest, both) =
      then_feed-eq-ok (feed chunk scanner) (feed_all (chunks_of cs)) h in
    let one : observe now chunk (body tap scanner pins buffered absorbed ttft)
        ≡ body tap mid (absorb_frames tap.provider gs pins) buffered (absorbed ++ chunk)
            (or_now now ttft) =
      let seen = body tap scanner pins buffered (absorbed ++ chunk) (or_now now ttft) in
      ap (λ x. if x then scan_chunk chunk tap.provider seen else buffer_chunk chunk seen) streams
      ∙ (ap
          (λ (r : Fed).
            body tap r.2 (absorb_frames tap.provider r.1 pins) buffered (absorbed ++ chunk)
              (or_now now ttft))
          first) in
    ap (observe_all cs) one
    ∙ observe_all-streaming tap cs mid (absorb_frames tap.provider gs pins) buffered
        (absorbed ++ chunk) (or_now now ttft) u hs s streams rest
    ∙ ap₂ (λ p a. body tap s p buffered a (first_instant cs (or_now now ttft)))
        (sym (
          ap (λ l. absorb_frames tap.provider l pins) both
          ∙ absorb_frames-append tap.provider gs hs pins))
        (append_assoc absorbed chunk (joined (chunks_of cs)))

observe_all-buffered :
    (tap : Tap) (cs : Chunks) (scanner : FrameScanner) (pins : StreamPins)
    (buffered absorbed : List ℕ) (ttft : Option ℕ)
    → tap.streaming ≡ false
    → observe_all cs (body tap scanner pins buffered absorbed ttft)
      ≡ body tap scanner pins
          (buffered ++ joined (chunks_of cs))
          (absorbed ++ joined (chunks_of cs))
          (first_instant cs ttft)
unfolding observe_all observe observe_tap
observe_all-buffered tap [] scanner pins buffered absorbed ttft whole =
    ap₂ (λ b a. body tap scanner pins b a ttft) (sym (append-nil buffered))
      (sym (append-nil absorbed))
observe_all-buffered tap ((now, chunk) ∷ cs) scanner pins buffered absorbed ttft whole =
    let one : observe now chunk (body tap scanner pins buffered absorbed ttft)
        ≡ body tap scanner pins (buffered ++ chunk) (absorbed ++ chunk) (or_now now ttft) =
      let seen = body tap scanner pins buffered (absorbed ++ chunk) (or_now now ttft) in
      ap (λ x. if x then scan_chunk chunk tap.provider seen else buffer_chunk chunk seen) whole in
    ap (observe_all cs) one
    ∙ observe_all-buffered tap cs scanner pins (buffered ++ chunk) (absorbed ++ chunk)
        (or_now now ttft) whole
    ∙ ap₂ (λ b a. body tap scanner pins b a (first_instant cs (or_now now ttft)))
        (append_assoc buffered chunk (joined (chunks_of cs)))
        (append_assoc absorbed chunk (joined (chunks_of cs)))

module _ ⦃d : Digest⦄ where
  -- What is told of a body at its end, but for the time to the first token.
  abbrev told_at_end : Moment → TappedBody → List EmittedEvent
  told_at_end at b = map without_ttft (finish_body at b).0

  same_told :
      (at : Moment) (tap : Tap) (scanner : FrameScanner) (pins : StreamPins)
      (buffered absorbed : List ℕ) (t t' : Option ℕ)
      → told_at_end at (body tap scanner pins buffered absorbed t)
        ≡ told_at_end at (body tap scanner pins buffered absorbed t')
  unfolding finish_body event_of served_at_end
  same_told at tap scanner pins buffered absorbed t t' = refl

  -- Two ways to cut the bytes of a response give the same event at its end, but for the time to the first
  -- token: the same model, flags, counts and digest. No frame is too large in either cut, where the bytes
  -- of a body that is not a stream are scanned for frames too.
  pub observe_all-told :
      (at : Moment) (tap : Tap) (cs ds : Chunks) (u v : Unit {0}) (fs gs : List Frame)
      (s t : FrameScanner)
      → joined (chunks_of cs) ≡ joined (chunks_of ds)
      → feed_all (chunks_of cs) new_scanner ≡ (ok u, fs, s)
      → feed_all (chunks_of ds) new_scanner ≡ (ok v, gs, t)
      → map without_ttft (finish_body at (observe_all cs (new_body tap))).0
        ≡ map without_ttft (finish_body at (observe_all ds (new_body tap))).0
  observe_all-told at tap cs ds u v fs gs s t same p q = elim (Bool-cases tap.streaming) [
    | inl streams ↦
        let (frames, scanners) =
          feed_all-chunks (chunks_of cs) (chunks_of ds) s t fs gs u v same p q in
        ap (told_at_end at)
          (observe_all-streaming tap cs new_scanner no_pins [] [] none u fs s streams p)
        ∙ ap₂
            (λ x l. told_at_end at (
              body tap x (absorb_frames tap.provider l no_pins) [] (joined (chunks_of cs))
                (first_instant cs none)))
            scanners frames
        ∙ ap
            (λ a.
              told_at_end at
                (body tap t (absorb_frames tap.provider gs no_pins) [] a (first_instant cs none)))
            same
        ∙ same_told at tap t (absorb_frames tap.provider gs no_pins) [] (joined (chunks_of ds))
            (first_instant cs none) (first_instant ds none)
        ∙ ap (told_at_end at)
            (sym (observe_all-streaming tap ds new_scanner no_pins [] [] none v gs t streams q))
    | inr whole ↦
        ap (told_at_end at) (observe_all-buffered tap cs new_scanner no_pins [] [] none whole)
        ∙ ap (λ a. told_at_end at (body tap new_scanner no_pins a a (first_instant cs none))) same
        ∙ same_told at tap new_scanner no_pins (joined (chunks_of ds)) (joined (chunks_of ds))
            (first_instant cs none) (first_instant ds none)
        ∙ ap (told_at_end at)
            (sym (observe_all-buffered tap ds new_scanner no_pins [] [] none whole))
  ]
