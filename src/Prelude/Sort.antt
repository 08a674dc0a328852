-- ===== src/Prelude/Sort.antt =====
-- `slice::sort_by` and its kin: a stable insertion sort by a Boolean order, and what it does not
-- depend on. (The standard library promises a stable sort, not an algorithm.)
use mathlib.Core.Path.{◌≡◌, refl, sym, ap₂, ◌∙◌}
use mathlib.Core.Logic.{◌⊎◌}
use mathlib.Core.Bool.{Bool, true}
use mathlib.Core.List.{List, [], ◌∷◌, Permᴰ, Memᴰ}
use mathlib.Core.List.Permᴰ.{nil, cons, swap, trans}
use mathlib.Core.List.Memᴰ.{head, tail}
use native.Mathlib.Omega.{arith}
use ancre.Prelude.Tests.{if◌then◌else◌}

-- A total preorder.
pub record IsOrder {ℓ} {A : Type ℓ} (le : A → A → Bool) : Type ℓ where
  pub total : (a b : A) → (le a b ≡ true) ⊎ (le b a ≡ true)
  pub trans : (a b c : A) → le a b ≡ true → le b c ≡ true → le a c ≡ true

module _ {ℓ} {A : Type ℓ} (le : A → A → Bool) where
  unfoldable pub insert_by : A → List A → List A
  insert_by a [] = a ∷ []
  insert_by a (x ∷ xs) = if le a x then a ∷ x ∷ xs else x ∷ insert_by a xs

  unfoldable pub sort_by : List A → List A
  unfolding insert_by
  sort_by [] = []
  sort_by (x ∷ xs) = insert_by x (sort_by xs)

  -- Members stay members.
  pub mem-perm : {a : A} {xs ys : List A} → Permᴰ xs ys → Memᴰ a ys → Memᴰ a xs
  mem-perm nil m = m
  mem-perm (cons e p) (head h) = head (h ∙ sym e)
  mem-perm (cons e p) (tail m) = tail (mem-perm p m)
  mem-perm (swap e f) (head h) = tail (head (h ∙ sym f))
  mem-perm (swap e f) (tail (head h)) = head (h ∙ sym e)
  mem-perm (swap e f) (tail (tail m)) = tail (tail m)
  mem-perm (trans p q) m = mem-perm p (mem-perm q m)

  -- Ties between members are equalities.
  abbrev pub AntisymOn : List A → Type ℓ
  AntisymOn l = (x y : A) → Memᴰ x l → Memᴰ y l → le x y ≡ true → le y x ≡ true → x ≡ y

  pub AntisymOn-perm : {xs ys : List A} → Permᴰ xs ys → AntisymOn xs → AntisymOn ys
  AntisymOn-perm p h x y mx my = h x y (mem-perm p mx) (mem-perm p my)

  module _ (order : IsOrder le) where
    -- The order of two insertions does not matter, unless the two are tied and differ.
    pub insert_by_comm :
        (x y : A) (l : List A)
        → (le x y ≡ true → le y x ≡ true → x ≡ y)
        → insert_by x (insert_by y l) ≡ insert_by y (insert_by x l)
    unfolding insert_by
    insert_by_comm x y [] same = ground (arith, order.total x y, same)
    insert_by_comm x y (h ∷ t) same = ground (
      arith,
      same,
      order.total x y,
      order.total x h,
      order.total y h,
      order.trans x y h,
      order.trans y x h,
      insert_by_comm x y t same,
    )

    -- Sorting forgets the order of its input.
    pub sort_by_perm : {xs ys : List A} → Permᴰ xs ys → AntisymOn xs → sort_by xs ≡ sort_by ys
    unfolding sort_by
    sort_by_perm nil same = refl
    sort_by_perm (cons e p) same =
        ap₂ insert_by e (sort_by_perm p (λ x y mx my. same x y (tail mx) (tail my)))
    sort_by_perm (swap {a = a} {b = b} {l = l} e f) same =
        insert_by_comm a b (sort_by l) (same a b (head refl) (tail (head refl)))
        ∙ ap₂ (λ (u v : A). insert_by u (insert_by v (sort_by l))) f e
    sort_by_perm (trans p q) same = sort_by_perm p same ∙ sort_by_perm q (AntisymOn-perm p same)
