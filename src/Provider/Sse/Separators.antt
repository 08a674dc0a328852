-- ===== src/Provider/Sse/Separators.antt =====
-- crates/ancre-provider/src/sse.rs: where `find_separator` finds, and that more bytes change nothing.
use ancre.Prelude.{
  ℕ, suc, ◌+◌, ◌≤◌, ◌≡◌, refl, ap, subst, inl, inr, Bool-cases, Bool, true, false, ◌&&◌, List, [],
  ◌∷◌, ◌++◌, some, some_inj, length, take, arith, ◌==◌, ==→eq, ℕ-Eq, List-Eq, list_eq, length-take,
}
use ancre.Provider.Sse.{find_from, short_separator, long_separator}

both : (a b : Bool) → (a && b) ≡ true → (a ≡ true) × (b ≡ true)
both true b h = (refl, h)
both false b h = cc

short_parts :
    (b : ℕ) (rest : List ℕ) → short_separator b rest ≡ true → (b ≡ 10) × (take 1 rest ≡ 10 ∷ [])
short_parts b rest h =
    let (first, second) = both (b == 10) (take 1 rest == 10 ∷ []) h in
    (==→eq b 10 first, ==→eq (take 1 rest) (10 ∷ []) second)

long_parts :
    (b : ℕ) (rest : List ℕ)
    → long_separator b rest ≡ true
    → (b ≡ 13) × (take 3 rest ≡ 10 ∷ 13 ∷ 10 ∷ [])
long_parts b rest h =
    let (first, second) = both (b == 13) (take 3 rest == 10 ∷ 13 ∷ 10 ∷ []) h in
    (==→eq b 13 first, ==→eq (take 3 rest) (10 ∷ 13 ∷ 10 ∷ []) second)

-- A separator lies inside the bytes, and has two bytes at least.
pub record IsFound (i len : ℕ) (f : ℕ × ℕ) : Type 0 where
  pub from : i ≤ f.0
  pub inside : f.0 + f.1 ≤ i + len
  pub wide : 2 ≤ f.1

pub find_from-IsFound :
    (i : ℕ) (xs : List ℕ) {f : ℕ × ℕ} → find_from i xs ≡ some f → IsFound i (length xs) f
unfolding find_from
find_from-IsFound i [] h = cc
find_from-IsFound i (b ∷ rest) h = elim (Bool-cases (short_separator b rest)) [
  | inl t ↦
      let (first, second) = short_parts b rest t in
      subst (IsFound i (suc (length rest))) (some_inj (rw t at h)) (record {
        from = omega arith;
        inside = omega (arith, length-take 1 rest, ap length second);
        wide = omega arith;
      })
  | inr s ↦ elim (Bool-cases (long_separator b rest)) [
    | inl t ↦
        let (first, second) = long_parts b rest t in
        subst (IsFound i (suc (length rest))) (some_inj (rw (s, t) at h)) (record {
          from = omega arith;
          inside = omega (arith, length-take 3 rest, ap length second);
          wide = omega arith;
        })
    | inr l ↦
        let f = find_from-IsFound (i + 1) rest (rw (s, l) at h) in
        record { from = omega (arith, f.from); inside = omega (arith, f.inside); wide = f.wide }
  ]
]

short-append :
    (b : ℕ) (rest ys : List ℕ)
    → 1 ≤ length rest
    → short_separator b (rest ++ ys) ≡ short_separator b rest
short-append b [] ys h = absurd (omega arith)
short-append b (x ∷ rest) ys h = refl

long-append :
    (b : ℕ) (rest ys : List ℕ)
    → 3 ≤ length rest
    → long_separator b (rest ++ ys) ≡ long_separator b rest
long-append b [] ys h = absurd (omega arith)
long-append b (x ∷ []) ys h = absurd (omega arith)
long-append b (x ∷ y ∷ []) ys h = absurd (omega arith)
long-append b (x ∷ y ∷ z ∷ rest) ys h = refl

-- No separator straddles the end of bytes that have one further on.
long_straddle :
    (b j : ℕ) (rest ys : List ℕ) {f : ℕ × ℕ}
    → long_separator b rest ≡ false
    → find_from j rest ≡ some f
    → long_separator b (rest ++ ys) ≡ false
unfolding find_from list_eq
long_straddle b j [] ys l h = cc
long_straddle b j (x ∷ []) ys l h =
    let f = find_from-IsFound j (x ∷ []) h in absurd (omega (arith, f.from, f.inside, f.wide))
long_straddle b j (x ∷ y ∷ []) ys {f} l h = elim (Bool-cases (long_separator b (x ∷ y ∷ ys))) [
  | inr no_sep ↦ no_sep
  | inl t ↦
      let (first, second) = long_parts b (x ∷ y ∷ ys) t in
      let x10 : x ≡ 10 = cc second in
      let y13 : y ≡ 13 = cc second in
      let found : find_from j (10 ∷ 13 ∷ []) ≡ some f =
        subst (λ v. find_from j (10 ∷ v ∷ []) ≡ some f) y13
          (subst (λ u. find_from j (u ∷ y ∷ []) ≡ some f) x10 h) in
      cc found
]
long_straddle b j (x ∷ y ∷ z ∷ rest) ys l h = l

-- What is found is found with more bytes behind, too.
pub find_from-append :
    (i : ℕ) (xs ys : List ℕ) {f : ℕ × ℕ} → find_from i xs ≡ some f → find_from i (xs ++ ys) ≡ some f
unfolding find_from
find_from-append i [] ys h = cc
find_from-append i (b ∷ rest) ys h = elim (Bool-cases (short_separator b rest)) [
  | inl t ↦
      let (first, second) = short_parts b rest t in
      let same = short-append b rest ys (omega (arith, length-take 1 rest, ap length second)) in
      rw (same, t) (rw t at h)
  | inr s ↦ elim (Bool-cases (long_separator b rest)) [
    | inl t ↦
        let (first, second) = long_parts b rest t in
        let many : 3 ≤ length rest = omega (arith, length-take 3 rest, ap length second) in
        rw (short-append b rest ys (omega arith), long-append b rest ys many, s, t) (rw (s, t) at h)
    | inr l ↦
        let later = rw (s, l) at h in
        let f = find_from-IsFound (i + 1) rest later in
        rw
          (
            short-append b rest ys (omega (arith, f.from, f.inside, f.wide)),
            s,
            long_straddle b (i + 1) rest ys l later,
          )
          (find_from-append (i + 1) rest ys later)
  ]
]
