-- ===== src/Gateway/Telemetry/Told.antt =====
-- crates/ancre-gateway/src/telemetry.rs: what the published events say: those that were emitted,
-- and the drops that the events about drops tell.
use ancre.Prelude.{
  ℕ, suc, ◌+◌, ◌<◌, ◌≡◌, refl, ap, inl, inr, Bool, true, false, List, [], ◌∷◌, ◌++◌, Text,
  Bool-cases, if◌then◌else◌, arith, All,
}
use ancre.Types.Event.{EmittedEvent, EventType, telemetry_dropped}
use ancre.Gateway.Telemetry.{Channel, EventSink, drop_events_of}
use ancre.Gateway.Telemetry.Drops.{DropWindow, into_event}
use ancre.Gateway.Telemetry.Spans.{windows_sum}

abbrev pub is_drop : EventType → Bool
is_drop telemetry_dropped = true
is_drop _ = false

-- An event that is not about drops.
abbrev pub IsOrdinary : EmittedEvent → Type 0
IsOrdinary e = is_drop e.event_type ≡ false

-- The events of a list that are not about drops.
unfoldable pub ordinary : List EmittedEvent → List EmittedEvent
ordinary [] = []
ordinary (e ∷ es) = let rest = ordinary es in if is_drop e.event_type then rest else e ∷ rest

-- The number of drops that the events about drops tell.
unfoldable pub told : List EmittedEvent → ℕ
told [] = 0
told (e ∷ es) =
    let rest = told es in if is_drop e.event_type then e.metrics.tokens_out + rest else rest

pub ordinary-append : (es fs : List EmittedEvent) → ordinary (es ++ fs) ≡ ordinary es ++ ordinary fs
unfolding ordinary
ordinary-append [] fs = refl
ordinary-append (e ∷ es) fs = elim (Bool-cases (is_drop e.event_type)) [
  | inl t ↦ rw t (ordinary-append es fs)
  | inr f ↦ rw f (ap (λ l. e ∷ l) (ordinary-append es fs))
]

pub told-append : (es fs : List EmittedEvent) → told (es ++ fs) ≡ told es + told fs
unfolding told
told-append [] fs = omega arith
told-append (e ∷ es) fs = elim (Bool-cases (is_drop e.event_type)) [
  | inl t ↦ rw t (omega (arith, told-append es fs))
  | inr f ↦ rw f (told-append es fs)
]

pub ordinary_all : (es : List EmittedEvent) → All IsOrdinary es → ordinary es ≡ es
unfolding ordinary
ordinary_all [] h = refl
ordinary_all (e ∷ es) h = rw (h.0) (ap (λ l. e ∷ l) (ordinary_all es h.1))

pub told_none : (es : List EmittedEvent) → All IsOrdinary es → told es ≡ 0
unfolding told
told_none [] h = refl
told_none (e ∷ es) h = rw (h.0) (told_none es h.1)

module _ (ch : Channel) (sk : EventSink) where
  pub ordinary-drop_events_of :
      (ids : ℕ → List ℕ) (id : Text) (ws : List DropWindow)
      → ordinary (drop_events_of ch sk ids id ws) ≡ []
  unfolding ordinary into_event
  ordinary-drop_events_of ids id [] = refl
  ordinary-drop_events_of ids id (w ∷ ws) = ordinary-drop_events_of (λ n. ids (suc n)) id ws

  -- The events of the windows tell all their drops, below 2^32.
  pub told-drop_events_of :
      (ids : ℕ → List ℕ) (id : Text) (ws : List DropWindow)
      → windows_sum ws < 4294967296
      → told (drop_events_of ch sk ids id ws) ≡ windows_sum ws
  unfolding told into_event
  told-drop_events_of ids id [] lt = refl
  told-drop_events_of ids id (w ∷ ws) lt =
      ground (arith, told-drop_events_of (λ n. ids (suc n)) id ws)
