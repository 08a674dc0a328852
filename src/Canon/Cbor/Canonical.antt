-- ===== src/Canon/Cbor/Canonical.antt =====
-- crates/ancre-canon/src/lib.rs, `canonicalize`: what it returns is its own canonical form, and a
-- float at any depth is refused.
use ancre.Prelude.{
  ◌≡◌, refl, Bool, true, false, ◌||◌, [], ◌∷◌, All, Result, ok, err, >>=-eq-ok, ok_inj, subst,
  Bool-cases, inl, inr,
}
use ancre.Prelude.Sort.{IsOrder, sort_by}
use ancre.Prelude.Sorted.{IsSorted, sort_by-IsSorted, sort_by-sorted, sort_by-All}
use ancre.Canon.Cbor.{
  Value, Items, Entries, integer, bytes, float, text_string, bool, null, tag, array, map_of, nil,
  cons, end, entry, CanonError, KeyOrder, Pairs, entries_of, entry_le, has_tie, close_map,
  canonicalize, canonicalize_items, canonicalize_entries,
}

module _ ⦃o : KeyOrder⦄ where
  -- A value that is its own canonical form.
  abbrev pub IsCanonical : Value → Type 0
  IsCanonical v = canonicalize v ≡ ok v

  abbrev AreCanonical : Items → Type 0
  AreCanonical xs = canonicalize_items xs ≡ ok xs

  abbrev pub BothCanonical : Value × Value → Type 0
  BothCanonical e = IsCanonical e.0 × IsCanonical e.1

  -- Entries in their canonical form stay as they are.
  pub canonicalize_entries-All :
      (l : Pairs) → All BothCanonical l → canonicalize_entries (entries_of l) ≡ ok l
  unfolding canonicalize entries_of
  canonicalize_entries-All [] h = refl
  canonicalize_entries-All ((k, v) ∷ rest) h = rw (h.0.0, h.0.1, canonicalize_entries-All rest h.1)

  pub close_map_no_tie :
      (out : Pairs)
      → has_tie (sort_by entry_le out) ≡ false
      → close_map out ≡ ok (map_of (entries_of (sort_by entry_le out)))
  unfolding close_map
  close_map_no_tie out h = rw h

  -- A map closes if no two keys are tied, and to its sorted entries.
  pub close_map-eq-ok :
      (out : Pairs) {w : Value}
      → close_map out ≡ ok w
      → (has_tie (sort_by entry_le out) ≡ false) × (map_of (entries_of (sort_by entry_le out)) ≡ w)
  unfolding close_map
  close_map-eq-ok out h = elim (Bool-cases (has_tie (sort_by entry_le out))) [
    | inl t ↦ cc (rw t at h)
    | inr f ↦ (f, ok_inj (rw f at h))
  ]

  pub entry-IsOrder : IsOrder entry_le
  entry-IsOrder = record {
    total = λ a b. o.key_order.total a.0 b.0;
    trans = λ a b c. o.key_order.trans a.0 b.0 c.0;
  }

  canonicalize_sorted :
      (l : Pairs)
      → All BothCanonical l
      → IsSorted entry_le l
      → has_tie l ≡ false
      → IsCanonical (map_of (entries_of l))
  unfolding canonicalize
  canonicalize_sorted l h s f =
      let e = sort_by-sorted entry_le l s in
      rw (canonicalize_entries-All l h) (rw e at (close_map_no_tie l (rw e f)))

  close_map-IsCanonical :
      (out : Pairs) {w : Value} → All BothCanonical out → close_map out ≡ ok w → IsCanonical w
  close_map-IsCanonical out h e =
      let (f, made) = close_map-eq-ok out e in
      subst IsCanonical made (
        canonicalize_sorted (sort_by entry_le out) (sort_by-All entry_le BothCanonical out h)
          (sort_by-IsSorted entry_le entry-IsOrder out) f)

  mutual
    unfolding canonicalize

    canonicalize_self : (v : Value) {w : Value} → canonicalize v ≡ ok w → IsCanonical w
    canonicalize_self (float f) h = cc
    canonicalize_self (map_of es) h =
        let (out, entries, closed) = >>=-eq-ok (canonicalize_entries es) _ h in
        close_map-IsCanonical out (entries_self es entries) closed
    canonicalize_self (array items) h =
        let (ys, e, made) = >>=-eq-ok (canonicalize_items items) _ h in
        subst IsCanonical (ok_inj made) (rw (items_self items e))
    canonicalize_self (tag t inner) h =
        let (w, e, made) = >>=-eq-ok (canonicalize inner) _ h in
        subst IsCanonical (ok_inj made) (rw (canonicalize_self inner e))
    canonicalize_self (integer n) h = subst IsCanonical (ok_inj h) refl
    canonicalize_self (bytes bs) h = subst IsCanonical (ok_inj h) refl
    canonicalize_self (text_string s) h = subst IsCanonical (ok_inj h) refl
    canonicalize_self (bool b) h = subst IsCanonical (ok_inj h) refl
    canonicalize_self null h = subst IsCanonical (ok_inj h) refl

    items_self : (xs : Items) {ys : Items} → canonicalize_items xs ≡ ok ys → AreCanonical ys
    items_self nil h = subst AreCanonical (ok_inj h) refl
    items_self (cons x xs) h =
        let (y, e, more) = >>=-eq-ok (canonicalize x) _ h in
        let (ys, es, made) = >>=-eq-ok (canonicalize_items xs) _ more in
        subst AreCanonical (ok_inj made) (rw (canonicalize_self x e, items_self xs es))

    entries_self :
        (es : Entries) {out : Pairs} → canonicalize_entries es ≡ ok out → All BothCanonical out
    entries_self end h = subst (All BothCanonical) (ok_inj h) tt
    entries_self (entry k v rest) h =
        let (k', ek, h₁) = >>=-eq-ok (canonicalize k) _ h in
        let (v', ev, h₂) = >>=-eq-ok (canonicalize v) _ h₁ in
        let (out, eo, made) = >>=-eq-ok (canonicalize_entries rest) _ h₂ in
        subst (All BothCanonical) (ok_inj made)
          ((canonicalize_self k ek, canonicalize_self v ev), entries_self rest eo)

  -- What `canonicalize` returns is its own canonical form.
  pub canonicalize_idem : (v w : Value) → canonicalize v ≡ ok w → canonicalize w ≡ ok w
  canonicalize_idem v w h = canonicalize_self v h

-- Whether a float stands anywhere in a value graph.
unfoldable mutual
  pub has_float : Value → Bool
  has_float (float f) = true
  has_float (map_of es) = entries_have_float es
  has_float (array items) = items_have_float items
  has_float (tag t inner) = has_float inner
  has_float (integer n) = false
  has_float (bytes bs) = false
  has_float (text_string s) = false
  has_float (bool b) = false
  has_float null = false

  items_have_float : Items → Bool
  items_have_float nil = false
  items_have_float (cons x xs) = has_float x || items_have_float xs

  entries_have_float : Entries → Bool
  entries_have_float end = false
  entries_have_float (entry k v rest) = has_float k || (has_float v || entries_have_float rest)

module _ ⦃o : KeyOrder⦄ where
  mutual
    unfolding canonicalize has_float

    float_free : (v : Value) {w : Value} → canonicalize v ≡ ok w → has_float v ≡ false
    float_free (float f) h = cc
    float_free (map_of es) h =
        let (out, e, closed) = >>=-eq-ok (canonicalize_entries es) _ h in entries_float_free es e
    float_free (array items) h =
        let (ys, e, made) = >>=-eq-ok (canonicalize_items items) _ h in items_float_free items e
    float_free (tag t inner) h =
        let (w, e, made) = >>=-eq-ok (canonicalize inner) _ h in float_free inner e
    float_free (integer n) h = refl
    float_free (bytes bs) h = refl
    float_free (text_string s) h = refl
    float_free (bool b) h = refl
    float_free null h = refl

    items_float_free :
        (xs : Items) {ys : Items} → canonicalize_items xs ≡ ok ys → items_have_float xs ≡ false
    items_float_free nil h = refl
    items_float_free (cons x xs) h =
        let (y, e, more) = >>=-eq-ok (canonicalize x) _ h in
        let (ys, es, made) = >>=-eq-ok (canonicalize_items xs) _ more in
        rw (float_free x e, items_float_free xs es)

    entries_float_free :
        (es : Entries) {out : Pairs}
        → canonicalize_entries es ≡ ok out
        → entries_have_float es ≡ false
    entries_float_free end h = refl
    entries_float_free (entry k v rest) h =
        let (k', ek, h₁) = >>=-eq-ok (canonicalize k) _ h in
        let (v', ev, h₂) = >>=-eq-ok (canonicalize v) _ h₁ in
        let (out, eo, made) = >>=-eq-ok (canonicalize_entries rest) _ h₂ in
        rw (float_free k ek, float_free v ev, entries_float_free rest eo)

  -- A value graph with a float at any depth is refused.
  pub canonicalize-has_float :
      (v : Value) → has_float v ≡ true → (e : CanonError) × (canonicalize v ≡ err e)
  canonicalize-has_float v h = split (canonicalize v) refl
    where
      split :
          (r : Result CanonError Value)
          → canonicalize v ≡ r
          → (e : CanonError) × (canonicalize v ≡ err e)
      split (ok w) q = cc (float_free v q)
      split (err e) q = (e, q)
