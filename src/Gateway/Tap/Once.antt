-- ===== src/Gateway/Tap/Once.antt =====
-- crates/ancre-gateway/src/tap.rs: a body gives one event, however it is polled and whenever it is dropped.
use ancre.Prelude.{
  ℕ, ◌+◌, ◌≡◌, refl, ap, ◌∙◌, inl, inr, List, [], ◌∷◌, Option, none, some, length, Bool-cases,
  length-append, arith,
}
use ancre.Canon.Hash.{Digest}
use ancre.Types.Event.{EmittedEvent, error, interrupted}
use ancre.Gateway.Tap.{
  Tap, TappedBody, Moment, Polled, framed, failed, ended, pending, new_body, observe, observe_tap,
  observe_data, finish_body, finish_tap, spent, poll_frame, drop_body, drop_tap, serve,
}

-- The events that a body is still to give.
abbrev due : Option Tap → ℕ
due none = 0
due (some tap) = 1

observe_tap-tap :
    (chunk : List ℕ) (t : Option Tap) (b : TappedBody) → (observe_tap chunk t b).tap ≡ b.tap
unfolding observe_tap
observe_tap-tap chunk none b = refl
observe_tap-tap chunk (some tap) b = elim (Bool-cases tap.streaming) [
  | inl t ↦ rw t refl
  | inr f ↦ rw f refl
]

observe_data-tap :
    (now : ℕ) (bytes : Option (List ℕ)) (b : TappedBody) → (observe_data now bytes b).tap ≡ b.tap
unfolding observe
observe_data-tap now none b = refl
observe_data-tap now (some chunk) b = observe_tap-tap chunk b.tap _

module _ ⦃d : Digest⦄ where
  -- What a call gives, and what is still due after it, is what was due before it.
  abbrev Pays : ℕ → List EmittedEvent × TappedBody → Type 0
  Pays n r = length r.0 + due r.1.tap ≡ n

  spent-tap : (tap : Tap) (b : TappedBody) → (spent tap b).tap ≡ none
  spent-tap tap b = elim (Bool-cases tap.streaming) [ inl t ↦ rw t refl | inr f ↦ rw f refl ]

  finish_tap-Pays :
      (at : Moment) (t : Option Tap) (b : TappedBody) → b.tap ≡ t → Pays (due t) (finish_tap at t b)
  finish_tap-Pays at none b q = omega (arith, ap due q)
  finish_tap-Pays at (some tap) b q = ap (λ t. 1 + due t) (spent-tap tap b)

  finish_body-Pays : (at : Moment) (b : TappedBody) → Pays (due b.tap) (finish_body at b)
  unfolding finish_body
  finish_body-Pays at b = finish_tap-Pays at b.tap b refl

  poll_frame-Pays :
      (at : Moment) (p : Polled) (b : TappedBody) → Pays (due b.tap) (poll_frame at p b)
  unfolding poll_frame
  poll_frame-Pays at (framed bytes end) b =
      let seen = observe_data at.instant bytes b in
      let same = ap due (observe_data-tap at.instant bytes b) in
      elim (Bool-cases end) [
        | inl t ↦ rw t (finish_body-Pays at seen ∙ same)
        | inr f ↦ rw f (omega (arith, same))
      ]
  poll_frame-Pays at failed b = finish_body-Pays at (record b { outcome = error })
  poll_frame-Pays at ended b = finish_body-Pays at b
  poll_frame-Pays at pending b = omega arith

  drop_tap-due :
      (at : Moment) (t : Option Tap) (b : TappedBody) → b.tap ≡ t → length (drop_tap at t b) ≡ due t
  unfolding finish_body
  drop_tap-due at none b q = refl
  drop_tap-due at (some tap) b q =
      ap (λ t. length (finish_tap at t (record b { outcome = interrupted })).0) q

  serve-due :
      (ps : List (Moment × Polled)) (last : Moment) (b : TappedBody)
      → length (serve ps last b) ≡ due b.tap
  unfolding serve drop_body
  serve-due [] last b = drop_tap-due last b.tap b refl
  serve-due ((at, p) ∷ ps) last b =
      let step = poll_frame at p b in
      omega (
        arith,
        length-append step.0 (serve ps last step.1),
        serve-due ps last step.1,
        poll_frame-Pays at p b,
      )

  -- However the body of a response is polled, whatever the polls give, and whenever it is dropped, it gives
  -- one audit event.
  pub length-serve :
      (tap : Tap) (ps : List (Moment × Polled)) (last : Moment)
      → length (serve ps last (new_body tap)) ≡ 1
  length-serve tap ps last = serve-due ps last (new_body tap)
