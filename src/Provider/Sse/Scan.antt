-- ===== src/Provider/Sse/Scan.antt =====
-- crates/ancre-provider/src/sse.rs: the loop of `feed`, on a buffer and on a buffer with more bytes.
use ancre.Prelude.{
  ℕ, zero, suc, ◌+◌, ◌≤◌, ◌≡◌, refl, sym, ap, ap₂, ◌∙◌, subst, inl, inr, Option-cases, List, [],
  ◌∷◌, ◌++◌, Option, none, some, length, length-append, length-drop, take, drop, arith, ℕ-Eq,
  List-Eq,
}
use ancre.Provider.Sse.{
  Frame, find_from, find_separator, parse, push_frame, scan_step, scan_rounds, scan,
}
use ancre.Provider.Sse.Separators.{find_from-IsFound, find_from-append}

emit-append :
    (f : Option Frame) (xs ys : List Frame) → push_frame f xs ++ ys ≡ push_frame f (xs ++ ys)
emit-append none xs ys = refl
emit-append (some f) xs ys = refl

take-append_le {ℓ} :
    {A : Type ℓ} (n : ℕ) (xs ys : List A) → n ≤ length xs → take n (xs ++ ys) ≡ take n xs
take-append_le zero xs ys h = refl
take-append_le (suc n) [] ys h = absurd (omega arith)
take-append_le (suc n) (x ∷ xs) ys h = ap (λ r. x ∷ r) (take-append_le n xs ys (omega arith))

drop-append_le {ℓ} :
    {A : Type ℓ} (n : ℕ) (xs ys : List A) → n ≤ length xs → drop n (xs ++ ys) ≡ drop n xs ++ ys
drop-append_le zero xs ys h = refl
drop-append_le (suc n) [] ys h = absurd (omega arith)
drop-append_le (suc n) (x ∷ xs) ys h = drop-append_le n xs ys (omega arith)

abbrev after_frame : Option Frame → List Frame × List ℕ → List Frame × List ℕ
after_frame f t = (push_frame f t.0, t.1)

-- A round with a separator leaves fewer bytes.
shorter :
    (buf : List ℕ) (f : ℕ × ℕ) (n : ℕ)
    → find_separator buf ≡ some f
    → length buf ≤ suc n
    → length (drop (f.0 + f.1) buf) ≤ n
shorter buf f n h le =
    let found = find_from-IsFound 0 buf h in
    omega (arith, length-drop (f.0 + f.1) buf, found.inside, found.wide)

-- More fuel than bytes changes nothing.
pub scan_rounds_fuel :
    (n m : ℕ) (buf : List ℕ)
    → length buf ≤ n
    → length buf ≤ m
    → scan_rounds n buf ≡ scan_rounds m buf
unfolding scan_rounds find_from
scan_rounds_fuel zero zero buf h k = refl
scan_rounds_fuel zero (suc m) [] h k = refl
scan_rounds_fuel zero (suc m) (x ∷ buf) h k = absurd (omega arith)
scan_rounds_fuel (suc n) zero [] h k = refl
scan_rounds_fuel (suc n) zero (x ∷ buf) h k = absurd (omega arith)
scan_rounds_fuel (suc n) (suc m) buf h k = elim (Option-cases (find_separator buf)) [
  | inl q ↦ ap (scan_step buf (scan_rounds n)) q ∙ sym (ap (scan_step buf (scan_rounds m)) q)
  | inr (f, q) ↦
      ap (scan_step buf (scan_rounds n)) q
      ∙ ap (after_frame (parse (take f.0 buf)))
          (scan_rounds_fuel n m (drop (f.0 + f.1) buf) (shorter buf f n q h) (shorter buf f m q k))
      ∙ sym (ap (scan_step buf (scan_rounds m)) q)
]

abbrev pub before_frames : List Frame → List Frame × List ℕ → List Frame × List ℕ
before_frames frames t = (frames ++ t.0, t.1)

-- Scanning more bytes goes on from what was left.
pub scan_rounds-append :
    (n m k : ℕ) (xs ys : List ℕ)
    → length xs ≤ n
    → length xs + length ys ≤ m
    → length xs + length ys ≤ k
    → scan_rounds m (xs ++ ys)
      ≡ before_frames (scan_rounds n xs).0 (scan_rounds k ((scan_rounds n xs).1 ++ ys))
unfolding scan_rounds find_from
scan_rounds-append zero m k xs ys h i j =
    scan_rounds_fuel m k (xs ++ ys) (omega (arith, length-append xs ys))
      (omega (arith, length-append xs ys))
scan_rounds-append (suc n) zero k [] ys h i j =
    scan_rounds_fuel zero k ys (omega arith) (omega arith)
scan_rounds-append (suc n) zero k (x ∷ xs) ys h i j = absurd (omega arith)
scan_rounds-append (suc n) (suc m) k xs ys h i j =
    let whole = λ (o : Option (ℕ × ℕ)).
      before_frames (scan_step xs (scan_rounds n) o).0
        (scan_rounds k ((scan_step xs (scan_rounds n) o).1 ++ ys)) in
    elim (Option-cases (find_separator xs)) [
      | inl q ↦
          scan_rounds_fuel (suc m) k (xs ++ ys) (omega (arith, length-append xs ys))
            (omega (arith, length-append xs ys))
          ∙ sym (ap whole q)
      | inr (f, q) ↦
          let found = find_from-IsFound 0 xs q in
          let at : f.0 ≤ length xs = omega (arith, found.inside, found.wide) in
          let end : f.0 + f.1 ≤ length xs = omega (arith, found.inside, found.wide) in
          let fewer = shorter xs f n q h in
          let later = drop (f.0 + f.1) xs in
          let rest = scan_rounds k ((scan_rounds n later).1 ++ ys) in
          ap (scan_step (xs ++ ys) (scan_rounds m)) (find_from-append 0 xs ys q)
          ∙ ap₂ (λ t e. after_frame (parse t) (scan_rounds m e)) (take-append_le f.0 xs ys at)
              (drop-append_le (f.0 + f.1) xs ys end)
          ∙ ap (after_frame (parse (take f.0 xs))) (
              scan_rounds-append n m k later ys fewer
                (omega (arith, length-drop (f.0 + f.1) xs, found.wide, found.inside))
                (omega (arith, length-drop (f.0 + f.1) xs, found.wide, found.inside)))
          ∙ ap (λ z. (z, rest.1))
              (sym (emit-append (parse (take f.0 xs)) (scan_rounds n later).0 rest.0))
          ∙ sym (ap whole q)
    ]

-- With as many rounds as the buffer has bytes, the loop over the frames ends by its own test: what is left
-- holds no separator.
pub scan_rounds-left :
    (n : ℕ) (buf : List ℕ) → length buf ≤ n → find_separator (scan_rounds n buf).1 ≡ none
unfolding scan_rounds find_from
scan_rounds-left zero [] h = refl
scan_rounds-left zero (x ∷ buf) h = absurd (omega arith)
scan_rounds-left (suc n) buf h = elim (Option-cases (find_separator buf)) [
  | inl q ↦ subst (λ o. find_separator (scan_step buf (scan_rounds n) o).1 ≡ none) (sym q) q
  | inr (f, q) ↦
      subst (λ o. find_separator (scan_step buf (scan_rounds n) o).1 ≡ none) (sym q)
        (scan_rounds-left n (drop (f.0 + f.1) buf) (shorter buf f n q h))
]

scan_rounds-length : (n : ℕ) (buf : List ℕ) → length (scan_rounds n buf).1 ≤ length buf
unfolding scan_rounds
scan_rounds-length zero buf = omega arith
scan_rounds-length (suc n) buf = elim (Option-cases (find_separator buf)) [
  | inl q ↦
      subst (λ o. length (scan_step buf (scan_rounds n) o).1 ≤ length buf) (sym q) (omega arith)
  | inr (f, q) ↦
      subst (λ o. length (scan_step buf (scan_rounds n) o).1 ≤ length buf) (sym q)
        (omega (arith, scan_rounds-length n (drop (f.0 + f.1) buf), length-drop (f.0 + f.1) buf))
]

pub scan-append :
    (xs ys : List ℕ) → scan (xs ++ ys) ≡ before_frames (scan xs).0 (scan ((scan xs).1 ++ ys))
scan-append xs ys =
    let n = length xs + length ys in
    let left = (scan xs).1 ++ ys in
    let short : length left ≤ n =
      omega (arith, length-append (scan xs).1 ys, scan_rounds-length (length xs) xs) in
    scan_rounds-append (length xs) (length (xs ++ ys)) n xs ys (omega arith)
      (omega (arith, length-append xs ys)) (omega arith)
    ∙ ap (before_frames (scan xs).0) (scan_rounds_fuel n (length left) left short (omega arith))

pub scan_none : (n : ℕ) (buf : List ℕ) → find_separator buf ≡ none → scan_rounds n buf ≡ ([], buf)
unfolding scan_rounds
scan_none zero buf h = refl
scan_none (suc n) buf h = ap (scan_step buf (scan_rounds n)) h
