-- ===== src/Provider/Sse/Chunks.antt =====
-- crates/ancre-provider/src/sse.rs: the frames depend on the bytes of the stream and not on how they
-- were cut into chunks.
use ancre.Prelude.{
  ℕ, ◌+◌, ◌≤◌, ◌≡◌, refl, sym, ap, ap₂, ◌∙◌, subst, inl, inr, Bool-cases, List, [], ◌∷◌, ◌++◌, none,
  ok, err, length, arith, ltb, ltb→le, ◌==◌, ==→eq, ℕ-Eq, List-Eq, list_eq,
}
use mathlib.Core.List.{append_assoc, append-nil}
use ancre.Provider.Sse.{
  Frame, FrameScanner, new_scanner, max_frame_bytes, find_from, find_separator, scan, push_carry,
  Fed, feed_joined, feed_chunk, feed,
}
use ancre.Provider.Sse.Scan.{before_frames, scan_rounds-left, scan-append, scan_none}

feed_fast : (t : List Frame × List ℕ) → feed_chunk (record { carry = [] }) t ≡ feed_joined t
unfolding feed_chunk feed_joined push_carry
feed_fast (frames, left) =
    let nothing : 0 + length left ≡ length left = omega arith in
    elim (Bool-cases (ltb max_frame_bytes (length left))) [
      | inl t ↦ rw (nothing, t) refl
      | inr f ↦ rw (nothing, f) refl
    ]

-- The fast path of `feed` does what the slow path does: with nothing carried, the frames borrowed from
-- the chunk and what is carried afterwards are those of the joined buffer.
pub feed-feed_joined :
    (chunk : List ℕ) (s : FrameScanner) → feed chunk s ≡ feed_joined (scan (s.carry ++ chunk))
unfolding feed list_eq
feed-feed_joined chunk s = elim (Bool-cases (s.carry == [])) [
  | inr f ↦ rw f refl
  | inl t ↦
      subst (λ c. feed chunk (record { carry = c }) ≡ feed_joined (scan (c ++ chunk)))
        (sym (==→eq s.carry [] t)) (feed_fast (scan chunk))
]

-- A run of `feed` over chunks, up to the first error.
abbrev pub then_feed : Fed → (FrameScanner → Fed) → Fed
then_feed (err e, frames, s) rest = (err e, frames, s)
then_feed (ok u, frames, s) rest = let (r, more, after) = rest s in (r, frames ++ more, after)

unfoldable pub feed_all : List (List ℕ) → FrameScanner → Fed
feed_all [] s = (ok tt, [], s)
feed_all (chunk ∷ chunks) s = then_feed (feed chunk s) (feed_all chunks)

-- The bytes of the chunks.
abbrev pub joined : List (List ℕ) → List ℕ
joined [] = []
joined (chunk ∷ chunks) = chunk ++ joined chunks

pub then_feed-eq-ok :
    (r : Fed) (rest : FrameScanner → Fed) {u : Unit {0}} {frames : List Frame} {s' : FrameScanner}
    → then_feed r rest ≡ (ok u, frames, s')
    → (s : FrameScanner) × (fs : List Frame) × (gs : List Frame) × (r ≡ (ok tt, fs, s))
      × (rest s ≡ (ok u, gs, s'))
      × (frames ≡ fs ++ gs)
then_feed-eq-ok (err e, fs, s) rest h = cc (ap (λ t. t.0) h)
then_feed-eq-ok (ok u, fs, s) rest h = (
  s,
  fs,
  (rest s).1,
  refl,
  ap₂ (λ r t. let out : Fed = (r, (rest s).1, t) in out) (ap (λ t. t.0) h) (ap (λ t. t.2) h),
  sym (ap (λ t. t.1) h),
)

feed_joined-eq-ok :
    (t : List Frame × List ℕ) {u : Unit {0}} {frames : List Frame} {s : FrameScanner}
    → feed_joined t ≡ (ok u, frames, s)
    → t ≡ (frames, s.carry)
unfolding feed_joined
feed_joined-eq-ok (fs, left) h = elim (Bool-cases (ltb max_frame_bytes (length left))) [
  | inl t ↦ cc (ap (λ t. t.0) (rw t at h))
  | inr f ↦ ap (λ t. (t.1, t.2.carry)) (rw f at h)
]

feed_all-scan :
    (chunks : List (List ℕ)) (s s' : FrameScanner) (frames : List Frame) (u : Unit {0})
    → find_separator s.carry ≡ none
    → feed_all chunks s ≡ (ok u, frames, s')
    → scan (s.carry ++ joined chunks) ≡ (frames, s'.carry)
unfolding feed_all
feed_all-scan [] s s' frames u none_left h =
    ap scan (append-nil s.carry)
    ∙ scan_none (length s.carry) s.carry none_left
    ∙ ap (λ t. (t.1, t.2.carry)) h
feed_all-scan (chunk ∷ chunks) s s' frames u none_left h =
    let (mid, fs, gs, first, rest, both) = then_feed-eq-ok (feed chunk s) (feed_all chunks) h in
    let one =
      feed_joined-eq-ok (scan (s.carry ++ chunk)) (sym (feed-feed_joined chunk s) ∙ first) in
    let left =
      subst (λ t. find_separator t.1 ≡ none) one
        (scan_rounds-left (length (s.carry ++ chunk)) (s.carry ++ chunk) (omega arith)) in
    ap scan (sym (append_assoc s.carry chunk (joined chunks)))
    ∙ scan-append (s.carry ++ chunk) (joined chunks)
    ∙ ap (λ t. before_frames t.0 (scan (t.1 ++ joined chunks))) one
    ∙ ap (before_frames fs) (feed_all-scan chunks mid s' gs u left rest)
    ∙ ap (λ l. (l, s'.carry)) (sym both)

-- Two ways to cut one stream into chunks give the same frames and leave the same bytes for `finish`,
-- as long as no frame is too large in either.
pub feed_all-chunks :
    (cs ds : List (List ℕ)) (s t : FrameScanner) (fs gs : List Frame) (u v : Unit {0})
    → joined cs ≡ joined ds
    → feed_all cs new_scanner ≡ (ok u, fs, s)
    → feed_all ds new_scanner ≡ (ok v, gs, t)
    → (fs ≡ gs) × (s ≡ t)
unfolding find_from
feed_all-chunks cs ds s t fs gs u v same p q =
    let one = feed_all-scan cs new_scanner s fs u refl p in
    let two = feed_all-scan ds new_scanner t gs v refl q in
    let both = sym one ∙ ap scan same ∙ two in
    (ap (λ r. r.0) both, ap (λ r. let c : FrameScanner = record { carry = r.1 } in c) both)

feed_joined-left :
    (t : List Frame × List ℕ)
    → find_separator t.1 ≡ none
    → find_separator (feed_joined t).2.carry ≡ none
unfolding find_from feed_joined
feed_joined-left (fs, left) h = elim (Bool-cases (ltb max_frame_bytes (length left))) [
  | inl t ↦ rw t refl
  | inr f ↦ rw f h
]

feed_joined-carry : (t : List Frame × List ℕ) → length (feed_joined t).2.carry ≤ max_frame_bytes
unfolding feed_joined
feed_joined-carry (fs, left) = elim (Bool-cases (ltb max_frame_bytes (length left))) [
  | inl t ↦ rw t (omega arith)
  | inr f ↦ rw f (ltb→le max_frame_bytes (length left) f)
]

-- Whatever is fed, with or without an error, the scanner never holds more than a frame's bytes, and no
-- whole frame stays behind.
pub feed_bounds :
    (chunk : List ℕ) (s : FrameScanner)
    → (length (feed chunk s).2.carry ≤ max_frame_bytes)
      × (find_separator (feed chunk s).2.carry ≡ none)
feed_bounds chunk s =
    let path = feed-feed_joined chunk s in
    (
      subst (λ (r : Fed). length r.2.carry ≤ max_frame_bytes) (sym path)
          (feed_joined-carry (scan (s.carry ++ chunk))),
      subst (λ (r : Fed). find_separator r.2.carry ≡ none) (sym path)
          (feed_joined-left (scan (s.carry ++ chunk))
            (scan_rounds-left (length (s.carry ++ chunk)) (s.carry ++ chunk) (omega arith))),
    )
