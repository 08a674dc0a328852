-- ===== src/Prelude/Sorted.antt =====
-- What a sort returns: an ordered permutation of its input, which sorting again leaves alone.
use mathlib.Core.Path.{◌≡◌, refl}
use mathlib.Core.Logic.{inl, inr}
use mathlib.Core.Bool.{Bool, true, false}
use mathlib.Core.List.{List, [], ◌∷◌, Permᴰ}
use mathlib.Core.List.Permᴰ
use mathlib.Core.List.Permᴰ.{nil, cons, swap, trans}
use native.Mathlib.Omega.{arith}
use ancre.Prelude.Tests.{Bool-cases}
use ancre.Prelude.Lists.{All}
use ancre.Prelude.Sort.{IsOrder, insert_by, sort_by}

module _ {ℓ} {A : Type ℓ} (le : A → A → Bool) where
  abbrev pub IsSorted : List A → Type ℓ
  IsSorted [] = Unit
  IsSorted (x ∷ xs) = All (λ y. le x y ≡ true) xs × IsSorted xs

  insert_by-perm : (a : A) (l : List A) → Permᴰ (a ∷ l) (insert_by le a l)
  unfolding insert_by
  insert_by-perm a [] = cons refl nil
  insert_by-perm a (x ∷ xs) = elim (Bool-cases (le a x)) [
    | inl t ↦ rw t (Permᴰ.refl (a ∷ x ∷ xs))
    | inr f ↦ rw f (trans (swap refl refl) (cons refl (insert_by-perm a xs)))
  ]

  -- Sorting keeps the members, as often.
  pub sort_by-perm : (l : List A) → Permᴰ l (sort_by le l)
  unfolding sort_by
  sort_by-perm [] = nil
  sort_by-perm (x ∷ xs) = trans (cons refl (sort_by-perm xs)) (insert_by-perm x (sort_by le xs))

  module _ {κ} (P : A → Type κ) where
    insert_by-All : (a : A) (l : List A) → P a → All P l → All P (insert_by le a l)
    unfolding insert_by
    insert_by-All a [] h hs = (h, hs)
    insert_by-All a (x ∷ xs) h hs = elim (Bool-cases (le a x)) [
      | inl t ↦ rw t (h, hs)
      | inr f ↦ rw f (hs.0, insert_by-All a xs h hs.1)
    ]

    pub sort_by-All : (l : List A) → All P l → All P (sort_by le l)
    unfolding sort_by
    sort_by-All [] hs = hs
    sort_by-All (x ∷ xs) hs = insert_by-All x (sort_by le xs) hs.0 (sort_by-All xs hs.1)

  module _ (order : IsOrder le) where
    All-le_trans :
        (a x : A) (xs : List A)
        → le a x ≡ true
        → All (λ y. le x y ≡ true) xs
        → All (λ y. le a y ≡ true) xs
    All-le_trans a x [] h hs = tt
    All-le_trans a x (y ∷ ys) h hs = (order.trans a x y h hs.0, All-le_trans a x ys h hs.1)

    insert_by-IsSorted : (a : A) (l : List A) → IsSorted l → IsSorted (insert_by le a l)
    unfolding insert_by
    insert_by-IsSorted a [] s = (tt, s)
    insert_by-IsSorted a (x ∷ xs) s = elim (Bool-cases (le a x)) [
      | inl t ↦ rw t ((t, All-le_trans a x xs t s.0), s)
      | inr f ↦
          rw f (
            insert_by-All (λ y. le x y ≡ true) a xs (flipped a x f) s.0,
            insert_by-IsSorted a xs s.1,
          )
    ]
      where
        flipped : (a x : A) → le a x ≡ false → le x a ≡ true
        flipped a x f = ground (arith, order.total a x)

    pub sort_by-IsSorted : (l : List A) → IsSorted (sort_by le l)
    unfolding sort_by
    sort_by-IsSorted [] = tt
    sort_by-IsSorted (x ∷ xs) = insert_by-IsSorted x (sort_by le xs) (sort_by-IsSorted xs)

  insert_by-least : (a : A) (l : List A) → All (λ y. le a y ≡ true) l → insert_by le a l ≡ a ∷ l
  unfolding insert_by
  insert_by-least a [] h = refl
  insert_by-least a (x ∷ xs) h = rw h.0

  -- An ordered list is its own sort.
  pub sort_by-sorted : (l : List A) → IsSorted l → sort_by le l ≡ l
  unfolding sort_by
  sort_by-sorted [] s = refl
  sort_by-sorted (x ∷ xs) s = rw (sort_by-sorted xs s.1) (insert_by-least x xs s.0)
