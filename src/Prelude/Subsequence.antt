-- ===== src/Prelude/Subsequence.antt =====
-- Lists that are left of others when elements are taken out.
use mathlib.Core.Path.{◌≡◌, refl}
use mathlib.Core.Logic.{◌⊎◌, inl, inr}
use mathlib.Core.List.{List, [], ◌∷◌, ◌++◌}

module _ {ℓ} {A : Type ℓ} where
  -- The first list is the second without some of its elements, in the same order.
  abbrev pub IsSubsequence : List A → List A → Type ℓ
  IsSubsequence [] ys = Unit
  IsSubsequence (x ∷ xs) [] = (x ∷ xs) ≡ []
  IsSubsequence (x ∷ xs) (y ∷ ys) = ((x ≡ y) × IsSubsequence xs ys) ⊎ IsSubsequence (x ∷ xs) ys

  pub IsSubsequence-both :
      (xs ys : List A) (a : A) → IsSubsequence xs ys → IsSubsequence (xs ++ a ∷ []) (ys ++ a ∷ [])
  IsSubsequence-both [] [] a h = inl (refl, tt)
  IsSubsequence-both [] (y ∷ ys) a h = inr (IsSubsequence-both [] ys a tt)
  IsSubsequence-both (x ∷ xs) [] a h = cc
  IsSubsequence-both (x ∷ xs) (y ∷ ys) a (inl (q, s)) = inl (q, IsSubsequence-both xs ys a s)
  IsSubsequence-both (x ∷ xs) (y ∷ ys) a (inr s) = inr (IsSubsequence-both (x ∷ xs) ys a s)

  pub IsSubsequence-longer :
      (xs ys : List A) (a : A) → IsSubsequence xs ys → IsSubsequence xs (ys ++ a ∷ [])
  IsSubsequence-longer [] ys a h = tt
  IsSubsequence-longer (x ∷ xs) [] a h = cc
  IsSubsequence-longer (x ∷ xs) (y ∷ ys) a (inl (q, s)) = inl (q, IsSubsequence-longer xs ys a s)
  IsSubsequence-longer (x ∷ xs) (y ∷ ys) a (inr s) = inr (IsSubsequence-longer (x ∷ xs) ys a s)

  IsSubsequence-cons : (xs ys : List A) (y : A) → IsSubsequence xs ys → IsSubsequence xs (y ∷ ys)
  IsSubsequence-cons [] ys y h = tt
  IsSubsequence-cons (x ∷ xs) ys y h = inr h

  IsSubsequence-tail : (x : A) (xs ys : List A) → IsSubsequence (x ∷ xs) ys → IsSubsequence xs ys
  IsSubsequence-tail x xs [] h = cc
  IsSubsequence-tail x xs (y ∷ ys) (inl (q, s)) = IsSubsequence-cons xs ys y s
  IsSubsequence-tail x xs (y ∷ ys) (inr s) =
      IsSubsequence-cons xs ys y (IsSubsequence-tail x xs ys s)

  IsSubsequence-drop : (bs cs ys : List A) → IsSubsequence (bs ++ cs) ys → IsSubsequence cs ys
  IsSubsequence-drop [] cs ys h = h
  IsSubsequence-drop (b ∷ bs) cs ys h =
      IsSubsequence-drop bs cs ys (IsSubsequence-tail b (bs ++ cs) ys h)

  -- What is in the middle can be taken out.
  pub IsSubsequence-middle :
      (front bs cs ys : List A)
      → IsSubsequence (front ++ (bs ++ cs)) ys
      → IsSubsequence (front ++ cs) ys
  IsSubsequence-middle [] bs cs ys h = IsSubsequence-drop bs cs ys h
  IsSubsequence-middle (a ∷ front) bs cs [] h = cc
  IsSubsequence-middle (a ∷ front) bs cs (y ∷ ys) (inl (q, s)) =
      inl (q, IsSubsequence-middle front bs cs ys s)
  IsSubsequence-middle (a ∷ front) bs cs (y ∷ ys) (inr s) =
      inr (IsSubsequence-middle (a ∷ front) bs cs ys s)
