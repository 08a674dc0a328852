-- ===== src/Pack/Runs.antt =====
-- crates/ancre-verify/src/pack.rs, `attested_runs`: the runs cover what the verified checkpoints
-- cover, and no two of them touch.
use mathlib.Core.List.{Permᴰ}
use mathlib.Core.List.Permᴰ.{nil, cons, swap, trans, symm}
use ancre.Prelude.{
  ℕ, ◌+◌, ◌≤◌, ◌<◌, ◌≡◌, ◌↔◌, refl, ◌⊎◌, inl, inr, subst, true, List, [], ◌∷◌, arith, All, leb,
  u64_mod, Bool-cases,
}
use ancre.Prelude.Sort.{IsOrder, sort_by}
use ancre.Prelude.Sorted.{IsSorted, sort_by-perm, sort_by-All, sort_by-IsSorted}
use ancre.Pack.{
  CheckpointVerdict, pair_le, saturating_next, max_of, push_run, push_runs, attested_runs,
  verified_ranges,
}

abbrev pub Within : ℕ × ℕ → ℕ → Type 0
Within r n = (r.0 ≤ n) × (n ≤ r.1)

-- Some range of the list holds the number.
abbrev pub Covers : List (ℕ × ℕ) → ℕ → Type 0
Covers [] n = ⊥
Covers (r ∷ rs) n = Within r n ⊎ Covers rs n

-- A range of `u64`.
abbrev pub IsRange : ℕ × ℕ → Type 0
IsRange r = (r.0 ≤ r.1) × (r.1 < u64_mod)

-- The next range, if there is one, starts past the number after the end of this one.
abbrev pub Before : ℕ × ℕ → List (ℕ × ℕ) → Type 0
Before x [] = Unit {0}
Before x (y ∷ rs) = x.1 + 1 < y.0

-- Ranges in ascending order, with a number between each two of them that is in neither.
abbrev pub Separate : List (ℕ × ℕ) → Type 0
Separate [] = Unit {0}
Separate (x ∷ rs) = IsRange x × Before x rs × Separate rs

abbrev StartBy : ℕ → List (ℕ × ℕ) → Type 0
StartBy n = All (λ x. x.0 ≤ n)

pair_le-IsOrder : IsOrder pair_le
pair_le-IsOrder = record { total = λ a b. ground arith; trans = λ a b c h k. ground arith }

push_run-Before :
    (x y : ℕ × ℕ) (rs : List (ℕ × ℕ)) (r : ℕ × ℕ) → x.1 + 1 < y.0 → Before x (push_run (y ∷ rs) r)
unfolding push_run
push_run-Before x y [] r h = elim (Bool-cases (leb r.0 (saturating_next y.1))) [
  | inl t ↦ rw t h
  | inr f ↦ rw f h
]
push_run-Before x y (z ∷ rs) r h = h

Adds : List (ℕ × ℕ) → List (ℕ × ℕ) → ℕ × ℕ → Type 0
Adds after before r = (n : ℕ) → Covers after n ↔ (Covers before n ⊎ Within r n)

new_run : (rs : List (ℕ × ℕ)) (r : ℕ × ℕ) → rs ≡ [] → Adds (r ∷ []) rs r
unfolding Adds
new_run [] r e n = (
  λ h. elim h [ inl a ↦ inr a | inr b ↦ absurd b ],
  λ h. elim h [ inl a ↦ absurd a | inr b ↦ inl b ],
)
new_run (x ∷ rs) r e n = cc

-- Two ranges that touch are one.
merged-Within :
    (x r : ℕ × ℕ) (n : ℕ)
    → IsRange x
    → IsRange r
    → x.0 ≤ r.0
    → leb r.0 (saturating_next x.1) ≡ true
    → Within (x.0, max_of x.1 r.1) n ↔ (Within x n ⊎ Within r n)
merged-Within x r n wx wr le t = (
  λ h. elim (Bool-cases (leb n x.1)) [
    | inl inside ↦ inl (h.0, ground arith)
    | inr outside ↦ inr (ground arith, ground arith)
  ],
  λ h. elim h [ inl a ↦ (a.0, ground arith) | inr b ↦ (omega (arith, le, b.0), ground arith) ],
)

merged_run :
    (x r : ℕ × ℕ)
    → IsRange x
    → IsRange r
    → x.0 ≤ r.0
    → leb r.0 (saturating_next x.1) ≡ true
    → Adds ((x.0, max_of x.1 r.1) ∷ []) (x ∷ []) r
unfolding Adds
merged_run x r wx wr le t n =
    let both = merged-Within x r n wx wr le t in
    (
      λ h. elim h [
        | inr b ↦ absurd b
        | inl a ↦ elim (both.0 a) [ inl u ↦ inl (inl u) | inr v ↦ inr v ]
      ],
      λ h. elim h [
        | inr v ↦ inl (both.1 (inr v))
        | inl a ↦ elim a [ inl u ↦ inl (both.1 (inl u)) | inr b ↦ absurd b ]
      ],
    )

next_run : (x r : ℕ × ℕ) → Adds (x ∷ r ∷ []) (x ∷ []) r
unfolding Adds
next_run x r n = (
  λ h. elim h [ inl a ↦ inl (inl a) | inr b ↦ elim b [ inl u ↦ inr u | inr v ↦ absurd v ] ],
  λ h. elim h [ inr v ↦ inr (inl v) | inl a ↦ elim a [ inl u ↦ inl u | inr b ↦ absurd b ] ],
)

Adds-cons :
    (x : ℕ × ℕ) (after before : List (ℕ × ℕ)) (r : ℕ × ℕ)
    → Adds after before r
    → Adds (x ∷ after) (x ∷ before) r
unfolding Adds
Adds-cons x after before r f n = (
  λ h. elim h [
    | inl a ↦ inl (inl a)
    | inr b ↦ elim ((f n).0 b) [ inl u ↦ inl (inr u) | inr v ↦ inr v ]
  ],
  λ h. elim h [
    | inr v ↦ inr ((f n).1 (inr v))
    | inl a ↦ elim a [ inl u ↦ inl u | inr b ↦ inr ((f n).1 (inl b)) ]
  ],
)

-- One range more: the runs stay apart, and they cover what they covered and the range.
push_run-Separate :
    (rs : List (ℕ × ℕ)) (r : ℕ × ℕ)
    → Separate rs
    → StartBy r.0 rs
    → IsRange r
    → Separate (push_run rs r) × StartBy r.0 (push_run rs r) × Adds (push_run rs r) rs r
unfolding push_run
push_run-Separate [] r s l w = ((w, tt, tt), (omega arith, tt), new_run [] r refl)
push_run-Separate (x ∷ []) r s l w = elim (Bool-cases (leb r.0 (saturating_next x.1))) [
  | inl t ↦
      let joined : IsRange (x.0, max_of x.1 r.1) =
        (ground (arith, s.0, w), ground (arith, s.0, w)) in
      rw t ((joined, tt, tt), l, merged_run x r s.0 w l.0 t)
  | inr f ↦
      let gap : x.1 + 1 < r.0 = ground (arith, s.0, w) in
      rw f ((s.0, gap, (w, tt, tt)), (l.0, (omega arith, tt)), next_run x r)
]
push_run-Separate (x ∷ y ∷ rs) r s l w =
    let (apart, start, adds) = push_run-Separate (y ∷ rs) r s.2 l.1 w in
    ((s.0, push_run-Before x y rs r s.1, apart), (l.0, start), Adds-cons x _ _ r adds)

-- Each start of a sorted list is at most the starts after it.
sorted-starts :
    (r : ℕ × ℕ) (rs : List (ℕ × ℕ)) → All (λ y. pair_le r y ≡ true) rs → All (λ y. r.0 ≤ y.0) rs
sorted-starts r [] h = tt
sorted-starts r (y ∷ rs) h = (ground arith, sorted-starts r rs h.1)

StartBy-later : (m n : ℕ) (rs : List (ℕ × ℕ)) → m ≤ n → StartBy m rs → StartBy n rs
StartBy-later m n [] le h = tt
StartBy-later m n (x ∷ rs) le h = (omega (arith, h.0), StartBy-later m n rs le h.1)

-- The runs so far start before all the ranges to come.
abbrev Precedes : List (ℕ × ℕ) → List (ℕ × ℕ) → Type 0
Precedes runs [] = Unit {0}
Precedes runs (r ∷ rs) = StartBy r.0 runs

Precedes-next :
    (runs : List (ℕ × ℕ)) (r : ℕ × ℕ) (rs : List (ℕ × ℕ))
    → StartBy r.0 runs
    → All (λ y. r.0 ≤ y.0) rs
    → Precedes runs rs
Precedes-next runs r [] h k = tt
Precedes-next runs r (y ∷ rs) h k = StartBy-later r.0 y.0 runs k.0 h

Gains : List (ℕ × ℕ) → List (ℕ × ℕ) → List (ℕ × ℕ) → Type 0
Gains after before rs = (n : ℕ) → Covers after n ↔ (Covers before n ⊎ Covers rs n)

Gains-step :
    (after mid before : List (ℕ × ℕ)) (r : ℕ × ℕ) (rs : List (ℕ × ℕ))
    → Gains after mid rs
    → Adds mid before r
    → Gains after before (r ∷ rs)
unfolding Gains Adds
Gains-step after mid before r rs g a n = (
  λ h. elim ((g n).0 h) [
    | inr later ↦ inr (inr later)
    | inl m ↦ elim ((a n).0 m) [ inl u ↦ inl u | inr v ↦ inr (inl v) ]
  ],
  λ h. (g n).1 (elim h [
    | inl u ↦ inl ((a n).1 (inl u))
    | inr v ↦ elim v [ inl here ↦ inl ((a n).1 (inr here)) | inr later ↦ inr later ]
  ]),
)

push_runs-Separate :
    (runs rs : List (ℕ × ℕ))
    → Separate runs
    → Precedes runs rs
    → IsSorted pair_le rs
    → All IsRange rs
    → Separate (push_runs runs rs) × Gains (push_runs runs rs) runs rs
unfolding push_runs Gains
push_runs-Separate runs [] s p o w =
    (s, λ n. (λ h. inl h, λ h. elim h [ inl u ↦ u | inr v ↦ absurd v ]))
push_runs-Separate runs (r ∷ rs) s p o w =
    let (apart, start, adds) = push_run-Separate runs r s p w.0 in
    let next = Precedes-next (push_run runs r) r rs start (sorted-starts r rs o.0) in
    let (all_apart, gains) = push_runs-Separate (push_run runs r) rs apart next o.1 w.1 in
    (all_apart, Gains-step (push_runs (push_run runs r) rs) (push_run runs r) runs r rs gains adds)

Covers-perm : {xs ys : List (ℕ × ℕ)} → (n : ℕ) → Permᴰ xs ys → Covers xs n → Covers ys n
Covers-perm n nil h = h
Covers-perm n (cons e p) h = elim h [
  | inl a ↦ inl (subst (λ r. Within r n) e a)
  | inr b ↦ inr (Covers-perm n p b)
]
Covers-perm n (swap e f) h = elim h [
  | inl a ↦ inr (inl (subst (λ r. Within r n) e a))
  | inr b ↦ elim b [ inl a ↦ inl (subst (λ r. Within r n) f a) | inr c ↦ inr (inr c) ]
]
Covers-perm n (trans p q) h = Covers-perm n q (Covers-perm n p h)

-- The runs of a report cover a sequence number exactly if a verified checkpoint covers it, and
-- between two runs there is a number that no verified checkpoint covers. Each verified checkpoint
-- has a range of `u64` that is not empty.
pub attested_runs-Covers :
    (verdicts : List CheckpointVerdict)
    → All IsRange (verified_ranges verdicts)
    → Separate (attested_runs verdicts)
      × ((n : ℕ) → Covers (attested_runs verdicts) n ↔ Covers (verified_ranges verdicts) n)
unfolding attested_runs Gains
attested_runs-Covers verdicts w =
    let ranges = verified_ranges verdicts in
    let sorted = sort_by pair_le ranges in
    let perm = sort_by-perm pair_le ranges in
    let (apart, gains) =
      push_runs-Separate [] sorted tt (starts sorted)
        (sort_by-IsSorted pair_le pair_le-IsOrder ranges) (sort_by-All pair_le IsRange ranges w) in
    (
      apart,
      λ n. (
        λ h. elim ((gains n).0 h) [
          | inl none_yet ↦ absurd none_yet
          | inr c ↦ Covers-perm n (symm perm) c
        ],
        λ h. (gains n).1 (inr (Covers-perm n perm h)),
      ),
    )
  where
    starts : (rs : List (ℕ × ℕ)) → Precedes [] rs
    starts [] = tt
    starts (r ∷ rs) = tt
