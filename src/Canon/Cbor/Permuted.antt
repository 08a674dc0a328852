-- ===== src/Canon/Cbor/Permuted.antt =====
-- crates/ancre-canon/src/lib.rs, `canonicalize`: the order in which a map's entries were inserted
-- does not show in its canonical form.
use mathlib.Core.List.{Permᴰ, Memᴰ}
use mathlib.Core.List.Permᴰ
use mathlib.Core.List.Permᴰ.{nil, cons, swap, trans}
use mathlib.Core.List.Memᴰ.{head, tail}
use ancre.Prelude.{◌≡◌, refl, sym, ap, ◌∙◌, true, false, [], ◌∷◌, All, ok, >>=-eq-ok, ok_inj, arith}
use ancre.Prelude.Sort.{sort_by, sort_by_perm, AntisymOn, mem-perm}
use ancre.Prelude.Sorted.{IsSorted, sort_by-IsSorted, sort_by-perm}
use ancre.Canon.Cbor.{
  Value, map_of, KeyOrder, Pairs, entries_of, entry_le, has_tie, canonicalize, canonicalize_entries,
}
use ancre.Canon.Cbor.Canonical.{close_map-eq-ok, close_map_no_tie, entry-IsOrder}

module _ ⦃o : KeyOrder⦄ where
  member_le :
      (b : Value × Value) (l : Pairs) (m : Value × Value)
      → All (λ y. entry_le b y ≡ true) l
      → Memᴰ m l
      → entry_le b m ≡ true
  member_le b [] m h t = elim t [ ]
  member_le b (x ∷ l) m h (head e) = rw e h.0
  member_le b (x ∷ l) m h (tail t) = member_le b l m h.1 t

  tie_tail : (a : Value × Value) (l : Pairs) → has_tie (a ∷ l) ≡ false → has_tie l ≡ false
  unfolding has_tie
  tie_tail a [] f = refl
  tie_tail a (b ∷ rest) f = ground arith

  -- In an ordered list without ties each member is strictly below the later ones.
  below_rest :
      (a : Value × Value) (l : Pairs) {m : Value × Value}
      → IsSorted entry_le (a ∷ l)
      → has_tie (a ∷ l) ≡ false
      → Memᴰ m l
      → entry_le m a ≡ false
  unfolding has_tie
  below_rest a [] s f m = elim m [ ]
  below_rest a (b ∷ rest) s f (head e) = rw e (ground (arith, s.0.0))
  below_rest a (b ∷ rest) {m = m} s f (tail t) =
      let above : entry_le b m ≡ true = member_le b rest m s.1.0 t in
      ground (arith, s.0.0, above, o.key_order.trans b.0 m.0 a.0)

  sorted-AntisymOn : (l : Pairs) → IsSorted entry_le l → has_tie l ≡ false → AntisymOn entry_le l
  sorted-AntisymOn [] s f x y mx my h k = elim mx [ ]
  sorted-AntisymOn (a ∷ l) s f x y (head ex) (head ey) h k = ex ∙ sym ey
  sorted-AntisymOn (a ∷ l) s f x y (head ex) (tail ty) h k = cc (below_rest a l s f ty, rw ex at k)
  sorted-AntisymOn (a ∷ l) s f x y (tail tx) (head ey) h k = cc (below_rest a l s f tx, rw ey at h)
  sorted-AntisymOn (a ∷ l) s f x y (tail tx) (tail ty) h k =
      sorted-AntisymOn l s.1 (tie_tail a l f) x y tx ty h k

  entries-AntisymOn :
      (out : Pairs) → has_tie (sort_by entry_le out) ≡ false → AntisymOn entry_le out
  entries-AntisymOn out f x y mx my =
      sorted-AntisymOn (sort_by entry_le out) (sort_by-IsSorted entry_le entry-IsOrder out) f x y
        (mem-perm entry_le (Permᴰ.symm (sort_by-perm entry_le out)) mx)
        (mem-perm entry_le (Permᴰ.symm (sort_by-perm entry_le out)) my)

  -- One entry in its canonical form.
  abbrev Becomes : Value × Value → Value × Value → Type 0
  Becomes a b = (canonicalize a.0 ≡ ok b.0) × (canonicalize a.1 ≡ ok b.1)

  abbrev EntriesBecome : Pairs → Pairs → Type 0
  EntriesBecome es out = canonicalize_entries (entries_of es) ≡ ok out

  EntriesBecome-uncons :
      (a : Value × Value) (l : Pairs) {out : Pairs}
      → EntriesBecome (a ∷ l) out
      → (b : Value × Value) × (rest : Pairs) × Becomes a b × EntriesBecome l rest × (b ∷ rest ≡ out)
  unfolding canonicalize entries_of
  EntriesBecome-uncons (k, v) l h =
      let (k', ek, h₁) = >>=-eq-ok (canonicalize k) _ h in
      let (v', ev, h₂) = >>=-eq-ok (canonicalize v) _ h₁ in
      let (rest, er, made) = >>=-eq-ok (canonicalize_entries (entries_of l)) _ h₂ in
      ((k', v'), rest, (ek, ev), er, ok_inj made)

  EntriesBecome-cons :
      (a b : Value × Value) (l rest : Pairs)
      → Becomes a b
      → EntriesBecome l rest
      → EntriesBecome (a ∷ l) (b ∷ rest)
  unfolding canonicalize entries_of
  EntriesBecome-cons (k, v) b l rest (ek, ev) e = rw (ek, ev, e)

  -- Entries in another order become the same entries in another order.
  EntriesBecome-perm :
      {es es' : Pairs} {out : Pairs}
      → Permᴰ es es'
      → EntriesBecome es out
      → (out' : Pairs) × EntriesBecome es' out' × Permᴰ out out'
  EntriesBecome-perm nil h = (_, h, Permᴰ.refl _)
  EntriesBecome-perm (cons {a = a} {b = b} {l₁ = l₁} {l₂ = l₂} e p) h =
      let (x, rest, ex, er, made) = EntriesBecome-uncons a l₁ h in
      let (rest', er', q) = EntriesBecome-perm p er in
      (x ∷ rest', EntriesBecome-cons b x l₂ rest' (rw e at ex) er', rw (← made) (cons refl q))
  EntriesBecome-perm (swap {a = a} {b = b} {a' = a'} {b' = b'} {l = l} e f) h =
      let (x, more, ex, em, made) = EntriesBecome-uncons a (b ∷ l) h in
      let (y, rest, ey, er, made') = EntriesBecome-uncons b l em in
      (
        y ∷ x ∷ rest,
        EntriesBecome-cons a' y (b' ∷ l) (x ∷ rest) (rw f at ey)
            (EntriesBecome-cons b' x l rest (rw e at ex) er),
        rw (← made, ← made') (swap refl refl),
      )
  EntriesBecome-perm (trans p q) h =
      let (mid, em, r) = EntriesBecome-perm p h in
      let (out', eo, t) = EntriesBecome-perm q em in (out', eo, trans r t)

  -- The canonical form of a map does not depend on the order of its entries.
  pub canonicalize_perm :
      (es es' : Pairs) (w : Value)
      → Permᴰ es es'
      → canonicalize (map_of (entries_of es)) ≡ ok w
      → canonicalize (map_of (entries_of es')) ≡ ok w
  unfolding canonicalize
  canonicalize_perm es es' w p h =
      let (out, e, closed) = >>=-eq-ok (canonicalize_entries (entries_of es)) _ h in
      let (out', e', q) = EntriesBecome-perm p e in
      let (f, made) = close_map-eq-ok out closed in
      let same = sort_by_perm entry_le entry-IsOrder q (entries-AntisymOn out f) in
      rw e' (
        close_map_no_tie out' (rw (← same) f)
        ∙ ap (λ (l : Pairs). ok (map_of (entries_of l))) (sym same)
        ∙ ap ok made)
