-- ===== src/Chain/Verify/Clean.antt =====
-- crates/ancre-chain/src/verify.rs: what a clean report says of a range.
use ancre.Prelude.{
  ℕ, ◌+◌, ◌<◌, ◌≡◌, ◌↔◌, refl, sym, ap, ◌∙◌, ◌⊎◌, inl, inr, true, List, [], ◌∷◌, ◌++◌, Option, none,
  some, Result, ok, err, arith, All, u64_mod, ◌==◌, ℕ-Eq, List-Eq, ==→eq, eq→==, Bool-cases,
}
use ancre.Canon.Hash.{Hash32, Hash32-Eq, Digest}
use ancre.Canon.Cbor.{KeyOrder, Ciborium}
use ancre.Types.Event.{AuditEvent}
use ancre.Chain.{ChainError, canon_version, event_hash}
use ancre.Chain.Verify.{
  Violation, position, link, recomputed, contents, is_clean, is_empty, verify_range,
}
use ancre.Chain.Verify.Findings.{found_at, findings, verify_range_lem}

-- What the position check lets pass: the next number, or one that is smaller.
abbrev pub Follows : Option ℕ → ℕ → Type 0
Follows none seq = Unit {0}
Follows (some last) seq = (seq ≡ last + 1) ⊎ (seq < last)

abbrev pub HasNext : AuditEvent → Type 0
HasNext e = e.seq + 1 < u64_mod

abbrev pub LastFits : Option ℕ → Type 0
LastFits none = Unit {0}
LastFits (some last) = last + 1 < u64_mod

position-nil :
    (last : Option ℕ) (seq : ℕ) → LastFits last → position last seq ≡ [] → Follows last seq
unfolding position
position-nil none seq w h = tt
position-nil (some last) seq w h = ground arith

pub Follows-position :
    (last : Option ℕ) (seq : ℕ) → LastFits last → Follows last seq → position last seq ≡ []
unfolding position
Follows-position none seq w f = refl
Follows-position (some last) seq w f = ground arith

link-nil : (prev : Hash32) (e : AuditEvent) → link prev e ≡ [] → e.prev_hash ≡ prev
unfolding link
link-nil prev e h = ground (arith, ==→eq e.prev_hash prev)

pub linked : (prev : Hash32) (e : AuditEvent) → e.prev_hash ≡ prev → link prev e ≡ []
unfolding link
linked prev e h = rw (eq→== e.prev_hash prev h)

recomputed-nil :
    (e : AuditEvent) (r : Result ChainError Hash32) → recomputed e r ≡ [] → r ≡ ok e.event_hash
unfolding recomputed
recomputed-nil e (ok h) n = ground (arith, ==→eq h e.event_hash)
recomputed-nil e (err x) n = cc

append-nil_parts {ℓ} : {A : Type ℓ} (xs ys : List A) → xs ++ ys ≡ [] → (xs ≡ []) × (ys ≡ [])
append-nil_parts [] ys h = (refl, h)
append-nil_parts (x ∷ xs) ys h = cc

module _ ⦃d : Digest⦄ ⦃o : KeyOrder⦄ ⦃c : Ciborium⦄ where
  contents-nil :
      (e : AuditEvent)
      → contents e ≡ []
      → (e.canon_version ≡ canon_version) × (event_hash e ≡ ok e.event_hash)
  unfolding contents
  contents-nil e h = elim (Bool-cases (e.canon_version == canon_version)) [
    | inl known ↦
        (==→eq e.canon_version canon_version known, recomputed-nil e (event_hash e) (rw known at h))
    | inr other ↦ cc (rw other at h)
  ]

  pub sealed_contents :
      (e : AuditEvent)
      → e.canon_version ≡ canon_version
      → event_hash e ≡ ok e.event_hash
      → contents e ≡ []
  unfolding contents recomputed
  sealed_contents e v h =
      rw (eq→== e.canon_version canon_version v, h, eq→== e.event_hash e.event_hash refl)

  -- An event in its place: it follows the one before, points back to its hash, names the rule set
  -- of this build and carries the hash of its own contents.
  pub record IsSound (prev : Hash32) (last : Option ℕ) (e : AuditEvent) : Type 0 where
    pub follows : Follows last e.seq
    pub points_back : e.prev_hash ≡ prev
    pub known : e.canon_version ≡ canon_version
    pub sealed : event_hash e ≡ ok e.event_hash

  abbrev pub Chained : Hash32 → Option ℕ → List AuditEvent → Type 0
  Chained prev last [] = Unit
  Chained prev last (e ∷ es) = IsSound prev last e × Chained e.event_hash (some e.seq) es

  found_at-nil :
      (prev : Hash32) (last : Option ℕ) (e : AuditEvent)
      → LastFits last
      → found_at prev last e ≡ []
      → IsSound prev last e
  found_at-nil prev last e w h =
      let (p, rest) = append-nil_parts (position last e.seq) _ h in
      let (l, n) = append-nil_parts (link prev e) _ rest in
      let (v, s) = contents-nil e n in
      record {
        follows = position-nil last e.seq w p;
        points_back = link-nil prev e l;
        known = v;
        sealed = s;
      }

  pub IsSound-found_at :
      (prev : Hash32) (last : Option ℕ) (e : AuditEvent)
      → LastFits last
      → IsSound prev last e
      → found_at prev last e ≡ []
  IsSound-found_at prev last e w s = rw (
    Follows-position last e.seq w s.follows,
    linked prev e s.points_back,
    sealed_contents e s.known s.sealed,
  )

  findings-nil :
      (prev : Hash32) (last : Option ℕ) (es : List AuditEvent)
      → LastFits last
      → All HasNext es
      → findings prev last es ≡ []
      → Chained prev last es
  unfolding findings
  findings-nil prev last [] w ws h = tt
  findings-nil prev last (e ∷ es) w ws h =
      let (here, rest) = append-nil_parts (found_at prev last e) _ h in
      (found_at-nil prev last e w here, findings-nil e.event_hash (some e.seq) es ws.0 ws.1 rest)

  pub Chained-findings :
      (prev : Hash32) (last : Option ℕ) (es : List AuditEvent)
      → LastFits last
      → All HasNext es
      → Chained prev last es
      → findings prev last es ≡ []
  unfolding findings
  Chained-findings prev last [] w ws h = refl
  Chained-findings prev last (e ∷ es) w ws h = rw (
    IsSound-found_at prev last e w h.0,
    Chained-findings e.event_hash (some e.seq) es ws.0 ws.1 h.1,
  )

  -- A report is clean exactly if every event of the range is in its place, the first one anchored
  -- at the hash that the caller gave. A sequence number that is smaller than the one before passes
  -- too. No sequence number is the largest `u64`.
  pub is_clean-verify_range :
      (es : List AuditEvent) (prev : Hash32)
      → All HasNext es
      → (is_clean (verify_range es prev) ≡ true) ↔ Chained prev none es
  unfolding is_clean
  is_clean-verify_range es prev ws = (
    λ h. findings-nil prev none es tt ws (sym (verify_range_lem es prev).0 ∙ empty-nil _ h),
    λ ch. ap is_empty ((verify_range_lem es prev).0 ∙ Chained-findings prev none es tt ws ch),
  )
    where
      empty-nil : (vs : List Violation) → is_empty vs ≡ true → vs ≡ []
      empty-nil [] h = refl
      empty-nil (v ∷ vs) h = cc
