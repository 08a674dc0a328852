-- ===== src/Canon/Cbor/Keys.antt =====
-- crates/ancre-canon/src/lib.rs: sorting the entries of two maps with the same keys in the same
-- order moves them alike, so the sorted entries determine the entries.
use ancre.Prelude.{◌≡◌, refl, sym, ap₂, ◌∙◌, [], ◌∷◌, Bool-cases, inl, inr, All, ok}
use ancre.Prelude.Sort.{insert_by, sort_by}
use ancre.Canon.Cbor.{Value, Entries, map_of, KeyOrder, Pairs, entries_of, entry_le, canonicalize}
use ancre.Canon.Cbor.Canonical.{BothCanonical, canonicalize_entries-All, close_map-eq-ok}

abbrev pub SameKeys : Pairs → Pairs → Type 0
SameKeys [] [] = Unit
SameKeys (a ∷ l) (b ∷ l') = (a.0 ≡ b.0) × SameKeys l l'
SameKeys _ _ = ⊥

cons-eq-cons :
    (a b : Value × Value) (l l' : Pairs) → ◌≡◌ {A = Pairs} (a ∷ l) (b ∷ l') → (a ≡ b) × (l ≡ l')
cons-eq-cons a b l l' h = (cc, cc)

module _ ⦃o : KeyOrder⦄ where
  alike : (a b x y : Value × Value) → a.0 ≡ b.0 → x.0 ≡ y.0 → entry_le a x ≡ entry_le b y
  alike a b x y e f = ap₂ o.key_le e f

  insert_by-SameKeys :
      (a b : Value × Value) (l l' : Pairs)
      → a.0 ≡ b.0
      → SameKeys l l'
      → SameKeys (insert_by entry_le a l) (insert_by entry_le b l')
  unfolding insert_by
  insert_by-SameKeys a b [] [] e s = (e, tt)
  insert_by-SameKeys a b [] (y ∷ l') e s = absurd s
  insert_by-SameKeys a b (x ∷ l) [] e s = absurd s
  insert_by-SameKeys a b (x ∷ l) (y ∷ l') e s = elim (Bool-cases (entry_le b y)) [
    | inl t ↦ rw (alike a b x y e s.0 ∙ t, t) (e, s)
    | inr f ↦ rw (alike a b x y e s.0 ∙ f, f) (s.0, insert_by-SameKeys a b l l' e s.1)
  ]

  insert_by_cancel :
      (a b : Value × Value) (l l' : Pairs)
      → a.0 ≡ b.0
      → SameKeys l l'
      → insert_by entry_le a l ≡ insert_by entry_le b l'
      → (a ≡ b) × (l ≡ l')
  unfolding insert_by
  insert_by_cancel a b [] [] e s h = cons-eq-cons a b [] [] h
  insert_by_cancel a b [] (y ∷ l') e s h = absurd s
  insert_by_cancel a b (x ∷ l) [] e s h = absurd s
  insert_by_cancel a b (x ∷ l) (y ∷ l') e s h = elim (Bool-cases (entry_le b y)) [
    | inl t ↦ cons-eq-cons a b (x ∷ l) (y ∷ l') (rw (alike a b x y e s.0 ∙ t, t) at h)
    | inr f ↦
        let (exy, rest) = cons-eq-cons x y _ _ (rw (alike a b x y e s.0 ∙ f, f) at h) in
        let (eab, ell) = insert_by_cancel a b l l' e s.1 rest in (eab, ap₂ ◌∷◌ exy ell)
  ]

  sort_by-SameKeys :
      (l l' : Pairs) → SameKeys l l' → SameKeys (sort_by entry_le l) (sort_by entry_le l')
  unfolding sort_by
  sort_by-SameKeys [] [] s = tt
  sort_by-SameKeys [] (y ∷ l') s = absurd s
  sort_by-SameKeys (x ∷ l) [] s = absurd s
  sort_by-SameKeys (x ∷ l) (y ∷ l') s = insert_by-SameKeys x y _ _ s.0 (sort_by-SameKeys l l' s.1)

  sort_by_cancel :
      (l l' : Pairs) → SameKeys l l' → sort_by entry_le l ≡ sort_by entry_le l' → l ≡ l'
  unfolding sort_by
  sort_by_cancel [] [] s h = refl
  sort_by_cancel [] (y ∷ l') s h = absurd s
  sort_by_cancel (x ∷ l) [] s h = absurd s
  sort_by_cancel (x ∷ l) (y ∷ l') s h =
      let (e, rest) = insert_by_cancel x y _ _ s.0 (sort_by-SameKeys l l' s.1) h in
      ap₂ ◌∷◌ e (sort_by_cancel l l' s.1 rest)

  entries_of-injective : (l l' : Pairs) → entries_of l ≡ entries_of l' → l ≡ l'
  unfolding entries_of
  entries_of-injective [] [] h = refl
  entries_of-injective [] (b ∷ l') h = cc
  entries_of-injective (a ∷ l) [] h = cc
  entries_of-injective ((k, v) ∷ l) ((k', v') ∷ l') h =
      let rest = entries_of-injective l l' (cc) in cc

  -- Maps with the same keys in the same order, over canonical entries, have one canonical form only
  -- if they are equal.
  pub canonicalize-SameKeys :
      (l l' : Pairs) {w : Value}
      → All BothCanonical l
      → All BothCanonical l'
      → SameKeys l l'
      → canonicalize (map_of (entries_of l)) ≡ ok w
      → canonicalize (map_of (entries_of l')) ≡ ok w
      → l ≡ l'
  unfolding canonicalize
  canonicalize-SameKeys l l' c c' s h h' =
      let (f, m) = close_map-eq-ok l (rw (canonicalize_entries-All l c) at h) in
      let (f', m') = close_map-eq-ok l' (rw (canonicalize_entries-All l' c') at h') in
      sort_by_cancel l l' s (entries_of-injective _ _ (map_of-injective (m ∙ sym m')))
    where
      map_of-injective : {x y : Entries} → map_of x ≡ map_of y → x ≡ y
      map_of-injective e = cc
