-- ===== src/Types/Event/Body/Binding.antt =====
-- crates/ancre-types/src/event.rs: the hashed bytes determine the hashed body, field by field, and
-- do not depend on the order of the risk flags.
use mathlib.Core.List.{Permᴰ}
use mathlib.Core.List.Permᴰ.{nil as perm_nil, cons as perm_cons, swap, trans}
use ancre.Prelude.{ℕ, ◌≡◌, refl, sym, ap, ◌∙◌, List, [], ◌∷◌, map, All, ok, ok_inj, arith, Text}
use ancre.Prelude.Sort.{sort_by_perm}
use ancre.Prelude.TextOrder.{text_le, text_le_antisymm, text_le-IsOrder}
use ancre.Canon.Hash.Separation.{Hash32-ext}
use ancre.Canon.Cbor.{KeyOrder, Ciborium, entries_of, map_of, canonicalize, canonicalize_items}
use ancre.Canon.Cbor.Canonical.{BothCanonical}
use ancre.Canon.Cbor.Codec.{ReadsBack, encode-eq-ok}
use ancre.Canon.Cbor.Keys.{SameKeys, canonicalize-SameKeys}
use ancre.Types.Risk.{RiskFlag, risk_flag_str}
use ancre.Types.Event.{AuditEvent}
use ancre.Types.Event.Body.{
  HashedBody, hashed_view, text_items, body_entries, body_value, hashed_body,
}

-- The event with its risk flags in another order.
abbrev pub with_flags : AuditEvent → List RiskFlag → AuditEvent
with_flags ev flags = record ev {
  emitted = record ev.emitted { pins = record ev.emitted.pins { risk_flags = flags } };
}

map-perm :
    {xs ys : List RiskFlag} → Permᴰ xs ys → Permᴰ (map risk_flag_str xs) (map risk_flag_str ys)
map-perm perm_nil = perm_nil
map-perm (perm_cons e p) = perm_cons (ap risk_flag_str e) (map-perm p)
map-perm (swap e f) = swap (ap risk_flag_str e) (ap risk_flag_str f)
map-perm (trans p q) = trans (map-perm p) (map-perm q)

-- The order of the risk flags does not show in the hashed body.
pub hashed_view-with_flags :
    (ev : AuditEvent) (flags : List RiskFlag)
    → Permᴰ ev.emitted.pins.risk_flags flags
    → hashed_view (with_flags ev flags) ≡ hashed_view ev
unfolding hashed_view
hashed_view-with_flags ev flags p =
    ap (λ (fs : List Text). record (hashed_view ev) { risk_flags = fs })
      (sym (
        sort_by_perm text_le text_le-IsOrder (map-perm p)
          (λ x y _ _ h k. text_le_antisymm x y h k)))

text_items-injective : (xs ys : List Text) → text_items xs ≡ text_items ys → xs ≡ ys
unfolding text_items
text_items-injective [] [] h = refl
text_items-injective [] (y ∷ ys) h = cc
text_items-injective (x ∷ xs) [] h = cc
text_items-injective (x ∷ xs) (y ∷ ys) h = let rest = text_items-injective xs ys (cc) in cc

body_entries-injective : (a b : HashedBody) → body_entries a ≡ body_entries b → a ≡ b
unfolding body_entries
body_entries-injective a b h = ground (
  arith,
  Hash32-ext a.prev_hash b.prev_hash,
  Hash32-ext a.config_hash b.config_hash,
  Hash32-ext a.request_digest b.request_digest,
  Hash32-ext a.response_digest b.response_digest,
  text_items-injective a.risk_flags b.risk_flags,
)

module _ ⦃o : KeyOrder⦄ where
  text_items_canonical : (xs : List Text) → canonicalize_items (text_items xs) ≡ ok (text_items xs)
  unfolding text_items canonicalize
  text_items_canonical [] = refl
  text_items_canonical (x ∷ xs) = rw (text_items_canonical xs)

  body_entries_canonical : (b : HashedBody) → All BothCanonical (body_entries b)
  unfolding body_entries canonicalize
  body_entries_canonical b = (
    (refl, refl),
    (
      (refl, refl),
      (
        (refl, refl),
        (
          (refl, refl),
          (
            (refl, refl),
            (
              (refl, refl),
              (
                (refl, refl),
                (
                  (refl, refl),
                  (
                    (refl, refl),
                    (
                      (refl, refl),
                      (
                        (refl, refl),
                        (
                          (refl, refl),
                          (
                            (refl, refl),
                            (
                              (refl, refl),
                              (
                                (refl, refl),
                                (
                                  (refl, refl),
                                  (
                                    (refl, refl),
                                    (
                                      (refl, refl),
                                      (
                                        (refl, refl),
                                        (
                                          (refl, refl),
                                          (
                                            (refl, refl),
                                            (
                                              (refl, refl),
                                              (
                                                (refl, refl),
                                                (
                                                  (refl, refl),
                                                  (
                                                    (refl, refl),
                                                    (
                                                      (
                                                        refl,
                                                        rw (text_items_canonical b.risk_flags),
                                                      ),
                                                      (
                                                        (refl, refl),
                                                        (
                                                          (refl, refl),
                                                          (
                                                            (refl, refl),
                                                            (
                                                            (refl, refl),
                                                            (
                                                            (refl, refl),
                                                            (
                                                            (refl, refl),
                                                            (
                                                            (refl, refl),
                                                            (
                                                            (refl, refl),
                                                            (
                                                            (refl, refl),
                                                            ((refl, refl), ((refl, refl), tt)),
                                                            ),
                                                            ),
                                                            ),
                                                            ),
                                                            ),
                                                            ),
                                                          ),
                                                        ),
                                                      ),
                                                    ),
                                                  ),
                                                ),
                                              ),
                                            ),
                                          ),
                                        ),
                                      ),
                                    ),
                                  ),
                                ),
                              ),
                            ),
                          ),
                        ),
                      ),
                    ),
                  ),
                ),
              ),
            ),
          ),
        ),
      ),
    ),
  )

body_entries-SameKeys : (a b : HashedBody) → SameKeys (body_entries a) (body_entries b)
unfolding body_entries
body_entries-SameKeys a b = (
  refl,
  (
    refl,
    (
      refl,
      (
        refl,
        (
          refl,
          (
            refl,
            (
              refl,
              (
                refl,
                (
                  refl,
                  (
                    refl,
                    (
                      refl,
                      (
                        refl,
                        (
                          refl,
                          (
                            refl,
                            (
                              refl,
                              (
                                refl,
                                (
                                  refl,
                                  (
                                    refl,
                                    (
                                      refl,
                                      (
                                        refl,
                                        (
                                          refl,
                                          (
                                            refl,
                                            (
                                              refl,
                                              (
                                                refl,
                                                (
                                                  refl,
                                                  (
                                                    refl,
                                                    (
                                                      refl,
                                                      (
                                                        refl,
                                                        (
                                                          refl,
                                                          (
                                                            refl,
                                                            (
                                                            refl,
                                                            (
                                                            refl,
                                                            (
                                                            refl,
                                                            (refl, (refl, (refl, (refl, tt)))),
                                                            ),
                                                            ),
                                                            ),
                                                          ),
                                                        ),
                                                      ),
                                                    ),
                                                  ),
                                                ),
                                              ),
                                            ),
                                          ),
                                        ),
                                      ),
                                    ),
                                  ),
                                ),
                              ),
                            ),
                          ),
                        ),
                      ),
                    ),
                  ),
                ),
              ),
            ),
          ),
        ),
      ),
    ),
  ),
)

module _ ⦃o : KeyOrder⦄ ⦃c : Ciborium⦄ where
  -- The hashed bytes of an event determine each field of its hashed body, if what is written can
  -- be read back.
  pub hashed_body-injective :
      (x y : AuditEvent) (bs : List ℕ)
      → ReadsBack c
      → hashed_body x ≡ ok bs
      → hashed_body y ≡ ok bs
      → hashed_view x ≡ hashed_view y
  unfolding hashed_body body_value
  hashed_body-injective x y bs reads hx hy =
      let (v, w, sv, cv, wv) = encode-eq-ok body_value (hashed_view x) bs hx in
      let (v', w', sv', cv', wv') = encode-eq-ok body_value (hashed_view y) bs hy in
      let same : w ≡ w' = ok_inj (sym (reads w bs wv) ∙ reads w' bs wv') in
      let vx : map_of (entries_of (body_entries (hashed_view x))) ≡ v = ok_inj sv in
      let vy : map_of (entries_of (body_entries (hashed_view y))) ≡ v' = ok_inj sv' in
      body_entries-injective _ _ (
        canonicalize-SameKeys _ _ (body_entries_canonical (hashed_view x))
          (body_entries_canonical (hashed_view y)) (body_entries-SameKeys _ _)
          (ap canonicalize vx ∙ cv) (ap canonicalize vy ∙ cv' ∙ ap ok (sym same)))
