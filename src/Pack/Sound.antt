-- ===== src/Pack/Sound.antt =====
-- crates/ancre-verify/src/pack.rs: what a verified checkpoint of a pack shows.
use mathlib.Core.List.{Memᴰ}
use mathlib.Core.List.Memᴰ.{head, tail}
use ancre.Prelude.{
  ℕ, zero, suc, ◌+◌, ◌-◌, ◌%◌, ◌≤◌, ◌<◌, ◌≡◌, refl, sym, ap, ◌∙◌, ◌⊎◌, inl, inr, subst, List, [],
  ◌∷◌, some, Result, ok, err, Text, arith, All, length, get_elem?, nat_eq, nat_eq_iff, u64_mod,
  ◌==◌, ==→eq, ℕ-Eq, List-Eq, Bool-cases, Option-cases, Result-cases, Eq-cases, some_inj,
}
use ancre.Prelude.Maps.{lookup, insert, lookup_new, lookup_other}
use ancre.Canon.Hash.{Hash32, Hash32-Eq, IsHash32, Digest, Collision}
use ancre.Canon.Tree.{tree_root}
use ancre.Canon.Tree.Sound.{tree_root-injective}
use ancre.Canon.Cbor.{KeyOrder, Ciborium}
use ancre.Canon.Cbor.Codec.{ReadsBack}
use ancre.Types.Event.{AuditEvent}
use ancre.Types.Event.Body.{hashed_view}
use ancre.Chain.{ChainError, event_hash}
use ancre.Chain.Framing.{event_hash-injective}
use ancre.Chain.Checkpoint.{Checkpoint, Ed25519, tree_size, verify_checkpoint}
use ancre.Pack.{
  verified, range_leaves, or_default, key_for, range_count, leaves_of, attest_root, attest_one,
  add_leaf, by_seq_onto, by_seq,
}

length-range_leaves :
    (m : List (ℕ × Hash32)) (from count : ℕ) (hs : List Hash32)
    → range_leaves m from count ≡ some hs
    → length hs ≡ count
unfolding range_leaves
length-range_leaves m from zero hs q = ap length (sym (some_inj q))
length-range_leaves m from (suc count) hs q = elim (Option-cases (lookup from m)) [
  | inl gone ↦ cc (rw (gone, range_leaves) at q)
  | inr (h, found) ↦ elim (Option-cases (range_leaves m (from + 1) count)) [
    | inl gone ↦ cc (rw (found, gone, range_leaves) at q)
    | inr (rest, there) ↦
        let same : h ∷ rest ≡ hs = some_inj (rw (found, there, range_leaves) at q) in
        ap length (sym same) ∙ ap suc (length-range_leaves m (from + 1) count rest there)
  ]
]

module _ ⦃d : Digest⦄ where
  attest_root-eq-verified :
      (cp : Checkpoint) (leaves : List Hash32) (id : Text)
      → attest_root cp leaves ≡ verified id
      → (length leaves ≡ tree_size cp.body) × (tree_root leaves ≡ cp.body.root_hash)
  unfolding attest_root
  attest_root-eq-verified cp leaves id q =
      elim (Bool-cases (nat_eq (length leaves) (tree_size cp.body))) [
        | inr differ ↦ cc (rw differ at q)
        | inl count ↦ elim (Bool-cases (tree_root leaves == cp.body.root_hash)) [
          | inr differ ↦ cc (rw (count, differ) at q)
          | inl same ↦ ((nat_eq_iff _ _).0 count, ==→eq _ _ same)
        ]
      ]

module _ ⦃d : Digest⦄ ⦃o : KeyOrder⦄ ⦃c : Ciborium⦄ where
  attest_one-eq-verified :
      (s : Ed25519) (cp : Checkpoint) (m : List (ℕ × Hash32)) (trusted : List (Text × List ℕ))
      (id : Text)
      → attest_one s cp m trusted ≡ verified id
      → (key : List ℕ) × (key_for trusted cp.key_id ≡ some key)
        × (verify_checkpoint s cp key ≡ ok tt)
        × (attest_root cp (leaves_of m cp) ≡ verified id)
  unfolding attest_one
  attest_one-eq-verified s cp m trusted id q = elim (Option-cases (key_for trusted cp.key_id)) [
    | inl gone ↦ cc (rw (gone, attest_one) at q)
    | inr (key, found) ↦ elim (Result-cases (verify_checkpoint s cp key)) [
      | inr (e, bad) ↦ cc (rw (found, bad, attest_one) at q)
      | inl (u, good) ↦ (key, found, good, rw (found, good, attest_one) at q)
    ]
  ]

  -- An event of the pack with this number whose contents hash to this.
  pub record HashesTo (events : List AuditEvent) (seq : ℕ) (h : Hash32) : Type 0 where
    pub event : AuditEvent
    pub member : Memᴰ event events
    pub numbered : event.seq ≡ seq
    pub hashed : event_hash event ≡ ok h

  -- The leaves are the hashes of events of the pack with the numbers from `from` on.
  abbrev pub LeavesOf : List AuditEvent → ℕ → List Hash32 → Type 0
  LeavesOf events from [] = Unit
  LeavesOf events from (h ∷ hs) = HashesTo events from h × LeavesOf events (from + 1) hs

  later :
      {e : AuditEvent} {es : List AuditEvent} {n : ℕ} {h : Hash32}
      → HashesTo es n h
      → HashesTo (e ∷ es) n h
  later w = record {
    event = w.event;
    member = tail w.member;
    numbered = w.numbered;
    hashed = w.hashed;
  }

  add_leaf-lookup :
      (e : AuditEvent) (es : List AuditEvent) (r : Result ChainError Hash32) (m : List (ℕ × Hash32))
      (n : ℕ) (h : Hash32)
      → event_hash e ≡ r
      → lookup n (add_leaf e r m) ≡ some h
      → HashesTo (e ∷ es) n h ⊎ (lookup n m ≡ some h)
  add_leaf-lookup e es (err x) m n h q found = inr found
  add_leaf-lookup e es (ok k) m n h q found = elim (Eq-cases n e.seq) [
    | inr ne ↦ inr (sym (lookup_other n e.seq k m ne) ∙ found)
    | inl at ↦
        let here : k ≡ h =
          some_inj
            (sym (lookup_new e.seq k m) ∙ ap (λ i. lookup i (insert e.seq k m)) (sym at) ∙ found) in
        inl (record { event = e; member = head refl; numbered = sym at; hashed = q ∙ ap ok here })
  ]

  by_seq_onto_sound :
      (es : List AuditEvent) (m : List (ℕ × Hash32)) (n : ℕ) (h : Hash32)
      → lookup n (by_seq_onto es m) ≡ some h
      → HashesTo es n h ⊎ (lookup n m ≡ some h)
  unfolding by_seq_onto
  by_seq_onto_sound [] m n h found = inr found
  by_seq_onto_sound (e ∷ es) m n h found =
      elim (by_seq_onto_sound es (add_leaf e (event_hash e) m) n h found) [
        | inl w ↦ inl (later w)
        | inr there ↦ add_leaf-lookup e es (event_hash e) m n h refl there
      ]

  by_seq_sound :
      (es : List AuditEvent) (n : ℕ) (h : Hash32) → lookup n (by_seq es) ≡ some h → HashesTo es n h
  unfolding by_seq
  by_seq_sound es n h found = elim (by_seq_onto_sound es [] n h found) [
    | inl w ↦ w
    | inr none_there ↦ cc
  ]

  range_leaves-LeavesOf :
      (es : List AuditEvent) (from count : ℕ) (hs : List Hash32)
      → range_leaves (by_seq es) from count ≡ some hs
      → LeavesOf es from hs
  unfolding range_leaves
  range_leaves-LeavesOf es from zero hs q = subst (LeavesOf es from) (some_inj q) tt
  range_leaves-LeavesOf es from (suc count) hs q = elim (Option-cases (lookup from (by_seq es))) [
    | inl gone ↦ cc (rw (gone, range_leaves) at q)
    | inr (h, found) ↦ elim (Option-cases (range_leaves (by_seq es) (from + 1) count)) [
      | inl gone ↦ cc (rw (found, gone, range_leaves) at q)
      | inr (rest, there) ↦
          let same : h ∷ rest ≡ hs = some_inj (rw (found, there, range_leaves) at q) in
          subst (LeavesOf es from) same
            (by_seq_sound es from h found, range_leaves-LeavesOf es (from + 1) count rest there)
    ]
  ]

  LeavesOf-get_elem? :
      (es : List AuditEvent) (from : ℕ) (hs : List Hash32) (i : ℕ)
      → LeavesOf es from hs
      → i < length hs
      → (h : Hash32) × (get_elem? hs i ≡ some h) × HashesTo es (from + i) h
  LeavesOf-get_elem? es from [] i l lt = absurd (omega arith)
  LeavesOf-get_elem? es from (h ∷ hs) zero l lt =
      (h, refl, subst (λ n. HashesTo es n h) (omega arith) l.0)
  LeavesOf-get_elem? es from (h ∷ hs) (suc i) l lt =
      let (k, elem, w) = LeavesOf-get_elem? es (from + 1) hs i l.1 (omega arith) in
      (k, elem, subst (λ n. HashesTo es n k) (omega arith) w)

  -- The leaves of a checkpoint whose attestation succeeded.
  attested_leaves :
      (m : List (ℕ × Hash32)) (cp : Checkpoint)
      → cp.body.seq_to - cp.body.seq_from + 1 < u64_mod
      → length (leaves_of m cp) ≡ tree_size cp.body
      → (cp.body.seq_from ≤ cp.body.seq_to)
        × (range_leaves m cp.body.seq_from (range_count cp) ≡ some (leaves_of m cp))
  unfolding tree_size
  attested_leaves m cp fits q =
      elim (Option-cases (range_leaves m cp.body.seq_from (range_count cp))) [
        | inl gone ↦ absurd (impossible (ap (λ r. length (or_default r)) (sym gone) ∙ q))
        | inr (hs, found) ↦
            let count = length-range_leaves m cp.body.seq_from (range_count cp) hs found in
            let len : length hs ≡ length (leaves_of m cp) =
              ap (λ r. length (or_default r)) (sym found) in
            (omega arith, found ∙ ap (λ r. some (or_default r)) (sym found))
      ]
    where
      impossible : 0 ≡ (cp.body.seq_to - cp.body.seq_from + 1) % u64_mod → ⊥
      impossible h = omega arith

  -- A checkpoint that a pack attests: a trusted key signed it, its root is the root of the leaves
  -- of its range, and each leaf is the hash, computed anew, of the contents of an event of the pack
  -- with that number. The range does not span all of `u64`.
  pub attest_one_sound :
      (s : Ed25519) (cp : Checkpoint) (events : List AuditEvent) (trusted : List (Text × List ℕ))
      (id : Text)
      → cp.body.seq_to - cp.body.seq_from + 1 < u64_mod
      → attest_one s cp (by_seq events) trusted ≡ verified id
      → (key : List ℕ) × (key_for trusted cp.key_id ≡ some key)
        × (verify_checkpoint s cp key ≡ ok tt)
        × (leaves : List Hash32) × (tree_root leaves ≡ cp.body.root_hash)
        × (length leaves ≡ cp.body.seq_to - cp.body.seq_from + 1)
        × LeavesOf events cp.body.seq_from leaves
  unfolding tree_size
  attest_one_sound s cp events trusted id fits q =
      let m = by_seq events in
      let (key, found, good, root) = attest_one-eq-verified s cp m trusted id q in
      let (count, same) = attest_root-eq-verified cp (leaves_of m cp) id root in
      let (ordered, there) = attested_leaves m cp fits count in
      let len = length-range_leaves m cp.body.seq_from (range_count cp) (leaves_of m cp) there in
      (
        key,
        found,
        good,
        leaves_of m cp,
        same,
        omega arith,
        range_leaves-LeavesOf events cp.body.seq_from (range_count cp) (leaves_of m cp) there,
      )

  -- The fields of the events of a pack have their types' sizes.
  abbrev pub IsTyped : AuditEvent → Type 0
  IsTyped e = IsHash32 e.prev_hash × (length e.canon_version < 4294967295)

  All-member : {e : AuditEvent} {es : List AuditEvent} → All IsTyped es → Memᴰ e es → IsTyped e
  All-member {es = []} h m = elim m [ ]
  All-member {es = x ∷ es} h (head q) = subst IsTyped (sym q) h.0
  All-member {es = x ∷ es} h (tail m) = All-member h.1 m

  HashesTo-same :
      {es fs : List AuditEvent} {seq : ℕ} {h k : Hash32}
      → ReadsBack c
      → All IsTyped es
      → All IsTyped fs
      → (x : HashesTo es seq h) → (y : HashesTo fs seq k) → h ≡ k
      → (hashed_view x.event ≡ hashed_view y.event) ⊎ Collision d
  HashesTo-same {h = h} reads we wf x y q =
      let tx = All-member we x.member in
      let ty = All-member wf y.member in
      elim (event_hash-injective x.event y.event h reads tx.0 ty.0 tx.1 ty.1 x.hashed
        (y.hashed ∙ ap ok (sym q))) [
          | inl (versions, prevs, views) ↦ inl views
          | inr collision ↦ inr collision
        ]

  -- Two packs that attest one checkpoint hold the same contents at each number of its range, the
  -- `i`-th here, or a collision of the hash function is at hand: what a signature attests cannot
  -- be exchanged. What the encoder writes can be read back, and the range does not span all of
  -- `u64`.
  pub attested_same :
      (s : Ed25519) (cp : Checkpoint) (es fs : List AuditEvent) (trusted : List (Text × List ℕ))
      (id id' : Text) (i : ℕ)
      → ReadsBack c
      → cp.body.seq_to - cp.body.seq_from + 1 < u64_mod
      → All IsTyped es
      → All IsTyped fs
      → attest_one s cp (by_seq es) trusted ≡ verified id
      → attest_one s cp (by_seq fs) trusted ≡ verified id'
      → i < cp.body.seq_to - cp.body.seq_from + 1
      → ((x : AuditEvent) × (y : AuditEvent) × Memᴰ x es
          × Memᴰ y fs
          × (x.seq ≡ cp.body.seq_from + i)
          × (y.seq ≡ cp.body.seq_from + i)
          × (hashed_view x ≡ hashed_view y))
        ⊎ Collision d
  attested_same s cp es fs trusted id id' i reads fits we wf qe qf lt =
      let (ke, fe, ge, ls, re, ne, ee) = attest_one_sound s cp es trusted id fits qe in
      let (kf, ff, gf, ms, rf, nf, ef) = attest_one_sound s cp fs trusted id' fits qf in
      elim (tree_root-injective ls ms (re ∙ sym rf)) [
        | inr collision ↦ inr collision
        | inl same ↦
            let (h, hl, x) = LeavesOf-get_elem? es cp.body.seq_from ls i ee (omega arith) in
            let (k, kl, y) = LeavesOf-get_elem? fs cp.body.seq_from ms i ef (omega arith) in
            let leaf : h ≡ k = some_inj (sym hl ∙ ap (λ l. get_elem? l i) same ∙ kl) in
            elim (HashesTo-same reads we wf x y leaf) [
              | inr collision ↦ inr collision
              | inl views ↦
                  inl (x.event, y.event, x.member, y.member, x.numbered, y.numbered, views)
            ]
      ]
