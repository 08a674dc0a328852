-- ===== src/Prelude/Maps.antt =====
-- `HashMap` as an association list without repeated keys: lookup, insertion, removal and `retain`.
use mathlib.Core.Path.{◌≡◌, refl, sym, ap, subst, ◌∙◌}
use mathlib.Core.Logic.{◌≢◌, inl, inr}
use mathlib.Core.Bool.{Bool, true, false}
use mathlib.Core.List.{List, [], ◌∷◌, ◌++◌}
use mathlib.Core.Option.{Option, none, some}
use ancre.Prelude.Tests.{if◌then◌else◌, Bool-cases, some_inj}
use ancre.Prelude.Lists.{All, length}
use Prim.Native.Nat.{◌≤◌}
use native.Mathlib.Omega.{arith}
use ancre.Prelude.Equality.{Eq, ◌==◌, ==_refl, ne→==, ==→eq}

-- Vec::retain
abbrev pub retain_list {ℓ} : {A : Type ℓ} → (A → Bool) → List A → List A
retain_list keep [] = []
retain_list keep (x ∷ xs) = let rest = retain_list keep xs in if keep x then x ∷ rest else rest

module _ {ℓ κ} {K : Type ℓ} {V : Type κ} where
  -- HashMap::retain, of a test of the values.
  abbrev pub retain : (V → Bool) → List (K × V) → List (K × V)
  retain keep = retain_list (λ e. keep e.1)

module _ {ℓ κ} {K : Type ℓ} {V : Type κ} ⦃e : Eq K⦄ where
  abbrev pub lookup : K → List (K × V) → Option V
  lookup k [] = none
  lookup k ((k', v) ∷ rest) = let found = lookup k rest in if k == k' then some v else found

  abbrev pub contains_key : K → List (K × V) → Bool
  contains_key k [] = false
  contains_key k ((k', v) ∷ rest) =
      let found = contains_key k rest in if k == k' then true else found

  abbrev pub remove : K → List (K × V) → List (K × V)
  remove k [] = []
  remove k ((k', v) ∷ rest) =
      let others = remove k rest in if k == k' then others else (k', v) ∷ others

  abbrev pub insert : K → V → List (K × V) → List (K × V)
  insert k v m = (k, v) ∷ remove k m

  pub remove_absent : (k : K) (m : List (K × V)) → lookup k m ≡ none → remove k m ≡ m
  remove_absent k [] h = refl
  remove_absent k ((k', v) ∷ rest) h = elim (Bool-cases (k == k')) [
    | inl t ↦ cc (rw t at h)
    | inr f ↦ rw f (ap (λ m. (k', v) ∷ m) (remove_absent k rest (rw f at h)))
  ]

  pub lookup-remove : (k k' : K) (m : List (K × V)) → k ≢ k' → lookup k (remove k' m) ≡ lookup k m
  lookup-remove k k' [] ne = refl
  lookup-remove k k' ((k'', v) ∷ rest) ne = elim (Bool-cases (k' == k'')) [
    | inl t ↦
        let other : (k == k'') ≡ false = ne→== k k'' (λ q. ne (q ∙ sym (==→eq k' k'' t))) in
        rw (t, other) (lookup-remove k k' rest ne)
    | inr f ↦ rw (f) (ap (λ r. if k == k'' then some v else r) (lookup-remove k k' rest ne))
  ]

  pub lookup_new : (k : K) (v : V) (m : List (K × V)) → lookup k (insert k v m) ≡ some v
  lookup_new k v m = rw (==_refl k)

  pub lookup_other :
      (k k' : K) (v : V) (m : List (K × V)) → k ≢ k' → lookup k (insert k' v m) ≡ lookup k m
  lookup_other k k' v m ne = rw (ne→== k k' ne) (lookup-remove k k' m ne)

  pub contains_key-lookup :
      (k : K) (m : List (K × V)) {v : V} → lookup k m ≡ some v → contains_key k m ≡ true
  contains_key-lookup k [] h = cc
  contains_key-lookup k ((k', v) ∷ rest) h = elim (Bool-cases (k == k')) [
    | inl t ↦ rw t
    | inr f ↦ rw f (contains_key-lookup k rest (rw f at h))
  ]

  pub contains_key_absent :
      (k : K) (m : List (K × V)) → lookup k m ≡ none → contains_key k m ≡ false
  contains_key_absent k [] h = refl
  contains_key_absent k ((k', v) ∷ rest) h = elim (Bool-cases (k == k')) [
    | inl t ↦ cc (rw t at h)
    | inr f ↦ rw f (contains_key_absent k rest (rw f at h))
  ]

  pub lookup_absent-append :
      (k : K) (m n : List (K × V)) → lookup k (m ++ n) ≡ none → lookup k n ≡ none
  lookup_absent-append k [] n h = h
  lookup_absent-append k ((k', v) ∷ rest) n h = elim (Bool-cases (k == k')) [
    | inl t ↦ cc (rw t at h)
    | inr f ↦ lookup_absent-append k rest n (rw f at h)
  ]

module _ {ℓ} {A : Type ℓ} (keep : A → Bool) where
  pub retain_list_keeps : (xs : List A) → All (λ x. keep x ≡ true) xs → retain_list keep xs ≡ xs
  retain_list_keeps [] h = refl
  retain_list_keeps (x ∷ xs) h = rw (h.0) (ap (λ r. x ∷ r) (retain_list_keeps xs h.1))

  pub retain_list_none : (xs : List A) → All (λ x. keep x ≡ false) xs → retain_list keep xs ≡ []
  retain_list_none [] h = refl
  retain_list_none (x ∷ xs) h = rw (h.0) (retain_list_none xs h.1)

  pub retain_list-append :
      (xs ys : List A) → retain_list keep (xs ++ ys) ≡ retain_list keep xs ++ retain_list keep ys
  retain_list-append [] ys = refl
  retain_list-append (x ∷ xs) ys = elim (Bool-cases (keep x)) [
    | inl t ↦ rw t (ap (λ r. x ∷ r) (retain_list-append xs ys))
    | inr f ↦ rw f (retain_list-append xs ys)
  ]

module _ {ℓ κ μ} {K : Type ℓ} {V : Type κ} ⦃e : Eq K⦄ (Q : V → Type μ) where
  pub All-remove : (k : K) (m : List (K × V)) → All (λ x. Q x.1) m → All (λ x. Q x.1) (remove k m)
  All-remove k [] h = h
  All-remove k ((k', v) ∷ rest) h = elim (Bool-cases (k == k')) [
    | inl t ↦ rw t (All-remove k rest h.1)
    | inr f ↦ rw f (h.0, All-remove k rest h.1)
  ]

  pub All-lookup :
      (k : K) (m : List (K × V)) {v : V} → All (λ x. Q x.1) m → lookup k m ≡ some v → Q v
  All-lookup k [] h q = cc
  All-lookup k ((k', w) ∷ rest) h q = elim (Bool-cases (k == k')) [
    | inl t ↦ subst Q (some_inj (rw t at q)) h.0
    | inr f ↦ All-lookup k rest h.1 (rw f at q)
  ]

module _ {ℓ κ} {K : Type ℓ} {V : Type κ} ⦃e : Eq K⦄ where
  pub lookup-contains_key :
      (k : K) (m : List (K × V)) → contains_key k m ≡ true → (v : V) × (lookup k m ≡ some v)
  lookup-contains_key k [] h = cc
  lookup-contains_key k ((k', v) ∷ rest) h = elim (Bool-cases (k == k')) [
    | inl t ↦ (v, rw t)
    | inr f ↦ rw f (lookup-contains_key k rest (rw f at h))
  ]

module _ {ℓ κ} {K : Type ℓ} {V : Type κ} ⦃e : Eq K⦄ where
  pub contains_key-lookup-none :
      (k : K) (m : List (K × V)) → contains_key k m ≡ false → lookup k m ≡ none
  contains_key-lookup-none k [] h = refl
  contains_key-lookup-none k ((k', v) ∷ rest) h = elim (Bool-cases (k == k')) [
    | inl t ↦ cc (rw t at h)
    | inr f ↦ rw f (contains_key-lookup-none k rest (rw f at h))
  ]

module _ {ℓ} {A : Type ℓ} (keep : A → Bool) where
  pub retain_list-All : (xs : List A) → All (λ x. keep x ≡ true) (retain_list keep xs)
  retain_list-All [] = tt
  retain_list-All (x ∷ xs) = elim (Bool-cases (keep x)) [
    | inl t ↦ rw t (t, retain_list-All xs)
    | inr f ↦ rw f (retain_list-All xs)
  ]

  pub All-retain_list {κ} : (P : A → Type κ) (xs : List A) → All P xs → All P (retain_list keep xs)
  All-retain_list P [] h = tt
  All-retain_list P (x ∷ xs) h = elim (Bool-cases (keep x)) [
    | inl t ↦ rw t (h.0, All-retain_list P xs h.1)
    | inr f ↦ rw f (All-retain_list P xs h.1)
  ]

  pub length-retain_list : (xs : List A) → length (retain_list keep xs) ≤ length xs
  length-retain_list [] = omega arith
  length-retain_list (x ∷ xs) = elim (Bool-cases (keep x)) [
    | inl t ↦ rw t (omega (arith, length-retain_list xs))
    | inr f ↦ rw f (omega (arith, length-retain_list xs))
  ]
