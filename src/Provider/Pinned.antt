-- ===== src/Provider/Pinned.antt =====
-- crates/ancre-provider/src/lib.rs: what the pins of a stream are, and when they are called pinned.
use ancre.Prelude.{
  ℕ, ◌≡◌, refl, sym, ap, ap₂, ◌∙◌, subst, inl, inr, Bool-cases, true, List, [], ◌∷◌, Option, none,
  some, some_inj, Text, map, ltb, if◌then◌else◌, ◌||◌, arith,
}
use ancre.Types.Risk.{RiskFlag}
use ancre.Provider.{
  ProviderKind, ServedBy, StreamPins, no_pins, or_keep, absorb_served, finish_pins, is_pinned,
  looks_pinned, served_model, served_frame, usage_only,
}

-- The pins of the frames of a stream, in order.
abbrev pub absorb_all_served : List ServedBy → StreamPins → StreamPins
absorb_all_served [] p = p
absorb_all_served (s ∷ ss) p = absorb_all_served ss (absorb_served s p)

-- The last number that is not zero.
abbrev pub last_positive : List ℕ → ℕ
last_positive [] = 0
last_positive (n ∷ ns) = let later = last_positive ns in if ltb 0 later then later else n

abbrev ins : List ServedBy → List ℕ
ins ss = map (λ (s : ServedBy). s.tokens_in) ss

abbrev outs : List ServedBy → List ℕ
outs ss = map (λ (s : ServedBy). s.tokens_out) ss

-- Absorbing on top of a model that is known.
absorb_all_served-known :
    (ss : List ServedBy) (m : Text) (f : Option RiskFlag) (i o : ℕ)
    → finish_pins (
        absorb_all_served ss
          (record { model_version = some m; flag = f; tokens_in = i; tokens_out = o }))
      ≡ record {
        model_version = m;
        flag = f;
        tokens_in = last_positive (i ∷ ins ss);
        tokens_out = last_positive (o ∷ outs ss);
      }
unfolding finish_pins absorb_served
absorb_all_served-known [] m f i o = refl
absorb_all_served-known (s ∷ ss) m f i o =
    absorb_all_served-known ss m f (or_keep s.tokens_in i) (or_keep s.tokens_out o)
    ∙ ap₂
        (λ a b.
          let r : ServedBy = record {
            model_version = m;
            flag = f;
            tokens_in = a;
            tokens_out = b;
          } in
          r)
        (kept s.tokens_in i (last_positive (ins ss)))
        (kept s.tokens_out o (last_positive (outs ss)))
  where
    kept :
        (n i later : ℕ)
        → (if ltb 0 later then later else or_keep n i) ≡ (
            if ltb 0 (if ltb 0 later then later else n)
            then (if ltb 0 later then later else n)
            else i)
    kept n i later = ground arith

-- The record of a stream has the model and the flag of the first frame that said anything, and the last
-- counts that are not zero.
pub finish_pins-absorb_all_served :
    (s : ServedBy) (ss : List ServedBy)
    → finish_pins (absorb_all_served (s ∷ ss) no_pins) ≡ record {
      model_version = s.model_version;
      flag = s.flag;
      tokens_in = last_positive (ins (s ∷ ss));
      tokens_out = last_positive (outs (s ∷ ss));
    }
unfolding absorb_served
finish_pins-absorb_all_served s ss =
    absorb_all_served-known ss s.model_version s.flag (or_keep s.tokens_in 0)
      (or_keep s.tokens_out 0)
    ∙ ap₂
        (λ a b.
          let r : ServedBy = record {
            model_version = s.model_version;
            flag = s.flag;
            tokens_in = a;
            tokens_out = b;
          } in
          r)
        (started s.tokens_in (last_positive (ins ss)))
        (started s.tokens_out (last_positive (outs ss)))
  where
    started :
        (n later : ℕ)
        → (if ltb 0 later then later else or_keep n 0) ≡ (if ltb 0 later then later else n)
    started n later = ground arith

model-Pinned :
    (kind : ProviderKind) (m : Text) (n : ℕ × ℕ)
    → is_pinned (served_model kind m n) ≡ looks_pinned m kind
model-Pinned kind m (tin, tout) = ground arith

counts-only :
    (kind : ProviderKind) (n : ℕ × ℕ) (s : ServedBy)
    → served_frame kind none n ≡ some s
    → usage_only n ≡ s
unfolding served_frame
counts-only kind (tin, tout) s q = elim (Bool-cases (ltb 0 tin || ltb 0 tout)) [
  | inl y ↦ some_inj (subst (λ b. (if b then some (usage_only (tin, tout)) else none) ≡ some s) y q)
  | inr w ↦ cc (subst (λ b. (if b then some (usage_only (tin, tout)) else none) ≡ some s) w q)
]

-- When the model that the first frame names is called pinned, the record of the whole stream is
-- called pinned only for an identifier of weights: that the later frames name another model changes
-- nothing.
pub stream-Pinned :
    (kind : ProviderKind) (m : Text) (n : ℕ × ℕ) (s : ServedBy) (ss : List ServedBy)
    → served_frame kind (some m) n ≡ some s
    → is_pinned (finish_pins (absorb_all_served (s ∷ ss) no_pins)) ≡ looks_pinned m kind
unfolding served_frame
stream-Pinned kind m n s ss q =
    ap is_pinned (finish_pins-absorb_all_served s ss)
    ∙ ap is_pinned (sym (some_inj q))
    ∙ model-Pinned kind m n

-- A first frame with counts only makes the record of the stream pinned with an empty model.
pub usage_only-Pinned :
    (kind : ProviderKind) (n : ℕ × ℕ) (s : ServedBy) (ss : List ServedBy)
    → served_frame kind none n ≡ some s
    → (finish_pins (absorb_all_served (s ∷ ss) no_pins)).model_version ≡ []
      × is_pinned (finish_pins (absorb_all_served (s ∷ ss) no_pins)) ≡ true
usage_only-Pinned kind n s ss q =
    let only = counts-only kind n s q in
    (
      ap (λ r. r.model_version) (finish_pins-absorb_all_served s ss)
          ∙ ap (λ r. r.model_version) (sym only),
      ap is_pinned (finish_pins-absorb_all_served s ss) ∙ ap is_pinned (sym only),
    )
