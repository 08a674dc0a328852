-- ===== src/Chain/Checkpoint/Inclusion.antt =====
-- crates/ancre-chain/src/checkpoint.rs: what is sealed verifies, every event of a sealed range has
-- a proof that verifies, and a proof that verifies shows that the event is in the range.
use ancre.Prelude.{
  ℕ, ◌+◌, ◌≤◌, ◌<◌, ◌≡◌, refl, sym, ap, ap₂, ◌∙◌, ◌⊎◌, inl, inr, Bool, true, false, not, ◌||◌, List,
  [], ◌∷◌, Option, none, some, Result, ok, err, >>=-eq-ok, ok_or, ok_inj, some_inj, subst, Text,
  arith, length, All, get_elem?, nat_eq, nat_eq_iff, ◌==◌, ==→eq, eq→==, if◌then◌else◌, u64_mod,
  Bool-cases,
}
use ancre.Prelude.Int.{ℤ}
use ancre.Canon.Hash.{Hash32, Hash32-Eq, IsHash32, Digest, Collision}
use ancre.Canon.Tree.Inclusion.{root_from_proof-tree_proof}
use ancre.Canon.Tree.Sound.{root_from_proof_sound}
use ancre.Canon.Tree.{tree_root, tree_proof, root_from_proof}
use ancre.Canon.Cbor.{KeyOrder, Ciborium}
use ancre.Chain.{bad_inclusion_proof, leaves_do_not_match_checkpoint}
use ancre.Chain.Checkpoint.{
  CheckpointBody, Checkpoint, CheckpointSigner, InclusionProof, Ed25519, AcceptsOwn, tree_size,
  index_of, sign, range_body, seal_range, signing_payload, verify_checkpoint, prove_inclusion,
  verify_inclusion, out_of_range,
}

module _ {ℓ κ} {E : Type ℓ} {A : Type κ} where
  ok_or-eq-ok : (o : Option A) (e : E) {a : A} → ok_or o e ≡ ok a → o ≡ some a
  ok_or-eq-ok none e h = cc
  ok_or-eq-ok (some a) e h = ap some (ok_inj h)

  -- A test that guards an error was passed.
  unless-eq-ok :
      (b : Bool) (e : E) (r : Result E A) {a : A}
      → (if b then err e else r) ≡ ok a
      → (b ≡ false) × (r ≡ ok a)
  unless-eq-ok true e r h = cc
  unless-eq-ok false e r h = (refl, h)

index_of_range :
    ⦃d : Digest⦄
    → (now : ℤ) (tenant system : Text) (seq_from : ℕ) (leaves : List Hash32) (i : ℕ)
    → seq_from + length leaves ≤ u64_mod
    → i < length leaves
    → index_of (range_body now tenant system seq_from leaves) (seq_from + i) ≡ some i
unfolding index_of
index_of_range now tenant system seq_from leaves i w lt = ground arith

module _ ⦃d : Digest⦄ ⦃o : KeyOrder⦄ ⦃c : Ciborium⦄ (s : Ed25519) where
  pub sign-verify_checkpoint :
      (signer : CheckpointSigner) (body : CheckpointBody) (cp : Checkpoint)
      → AcceptsOwn s
      → sign s signer body ≡ ok cp
      → (cp.body ≡ body) × (verify_checkpoint s cp (s.verifying_key signer.key) ≡ ok tt)
  unfolding sign verify_checkpoint
  sign-verify_checkpoint signer body cp accepts h =
      let (payload, hp, made) = >>=-eq-ok (signing_payload body) _ h in
      let (vk, read, good) = accepts signer.key payload in
      subst
        (λ (k : Checkpoint).
          (k.body ≡ body) × (verify_checkpoint s k (s.verifying_key signer.key) ≡ ok tt))
        (ok_inj made) (refl, rw (read, hp, good))

  -- A sealed checkpoint verifies under the signer's key, names the root and the number of the leaves
  -- that it was made of, and has the `i`-th of them at the `i`-th number of its range. The signer's
  -- own signatures are accepted, and the range is one of `u64`.
  pub seal_range-verify_checkpoint :
      (signer : CheckpointSigner) (now : ℤ) (tenant system : Text) (seq_from : ℕ)
      (leaves : List Hash32) (cp : Checkpoint) (i : ℕ)
      → AcceptsOwn s
      → seq_from + length leaves ≤ u64_mod
      → length leaves < u64_mod
      → i < length leaves
      → seal_range s signer now tenant system seq_from leaves ≡ ok cp
      → (verify_checkpoint s cp (s.verifying_key signer.key) ≡ ok tt)
        × (tree_size cp.body ≡ length leaves)
        × (cp.body.root_hash ≡ tree_root leaves)
        × (cp.body.seq_from ≡ seq_from)
        × (index_of cp.body (seq_from + i) ≡ some i)
  unfolding seal_range tree_size
  seal_range-verify_checkpoint signer now tenant system seq_from [] cp i accepts w fits lt h = cc
  seal_range-verify_checkpoint signer now tenant system seq_from (a ∷ r) cp i accepts w fits lt h =
      let leaves = a ∷ r in
      let body = range_body now tenant system seq_from leaves in
      let (same, good) = sign-verify_checkpoint signer body cp accepts h in
      (
        good,
        ap tree_size same ∙ omega arith,
        ap (λ (b : CheckpointBody). b.root_hash) same,
        ap (λ (b : CheckpointBody). b.seq_from) same,
        ap (λ (b : CheckpointBody). index_of b (seq_from + i)) same
            ∙ index_of_range now tenant system seq_from leaves i w lt,
      )

module _ ⦃d : Digest⦄ where
  guard-passed :
      (m n : ℕ) (x y : Hash32) → (not (nat_eq m n) || not (x == y)) ≡ false → (m ≡ n) × (x ≡ y)
  guard-passed m n x y h = elim (Bool-cases (nat_eq m n)) [
    | inr differ ↦ cc (rw differ at h)
    | inl count ↦ elim (Bool-cases (x == y)) [
      | inr differ ↦ cc (rw (count, differ) at h)
      | inl same ↦ ((nat_eq_iff m n).0 count, ==→eq x y same)
    ]
  ]

  -- What a proof that was handed out consists of.
  prove_inclusion-eq-ok :
      (cp : Checkpoint) (leaves : List Hash32) (seq : ℕ) (proof : InclusionProof)
      → prove_inclusion cp leaves seq ≡ ok proof
      → (index : ℕ) × (index_of cp.body seq ≡ some index)
        × (length leaves ≡ tree_size cp.body)
        × (tree_root leaves ≡ cp.body.root_hash)
        × (tree_proof leaves index ≡ some proof.path)
        × (get_elem? leaves index ≡ some proof.event_hash)
        × (proof.seq ≡ seq)
  unfolding prove_inclusion
  prove_inclusion-eq-ok cp leaves seq proof h =
      let (index, hi, h₁) =
        >>=-eq-ok (ok_or (index_of cp.body seq) (out_of_range cp.body seq)) _ h in
      let (passed, h₂) = unless-eq-ok _ leaves_do_not_match_checkpoint _ h₁ in
      let (sizes, roots) = guard-passed (length leaves) _ _ _ passed in
      let (path, hp, h₃) =
        >>=-eq-ok (ok_or (tree_proof leaves index) leaves_do_not_match_checkpoint) _ h₂ in
      let (leaf, hl, made) =
        >>=-eq-ok (ok_or (get_elem? leaves index) leaves_do_not_match_checkpoint) _ h₃ in
      let same = ok_inj made in
      (
        index,
        ok_or-eq-ok _ _ hi,
        sizes,
        roots,
        ok_or-eq-ok _ _ hp ∙ ap (λ (p : InclusionProof). some p.path) same,
        ok_or-eq-ok _ _ hl ∙ ap (λ (p : InclusionProof). some p.event_hash) same,
        ap (λ (p : InclusionProof). p.seq) (sym same),
      )

  -- For a range that a checkpoint covers, every event of the range has a proof of inclusion, and
  -- the proof names that event. `index` is the event's place in the range.
  pub prove_inclusion_total :
      (cp : Checkpoint) (leaves : List Hash32) (seq index : ℕ) (leaf : Hash32)
      → length leaves ≡ tree_size cp.body
      → tree_root leaves ≡ cp.body.root_hash
      → index_of cp.body seq ≡ some index
      → get_elem? leaves index ≡ some leaf
      → (proof : InclusionProof) × (prove_inclusion cp leaves seq ≡ ok proof)
        × (proof.seq ≡ seq)
        × (proof.event_hash ≡ leaf)
  unfolding prove_inclusion
  prove_inclusion_total cp leaves seq index leaf sizes roots hi hl =
      let (path, hp, _) = root_from_proof-tree_proof leaves index leaf hl in
      (
        record { seq = seq; event_hash = leaf; path = path },
        rw (hi, (nat_eq_iff _ _).1 sizes, eq→== _ _ roots, hp, hl),
        refl,
        refl,
      )

module _ ⦃d : Digest⦄ ⦃o : KeyOrder⦄ ⦃c : Ciborium⦄ (s : Ed25519) where
  -- A proof of inclusion that was handed out verifies against the checkpoint, under each key that
  -- verifies the checkpoint.
  pub verify_inclusion-prove_inclusion :
      (cp : Checkpoint) (leaves : List Hash32) (seq : ℕ) (proof : InclusionProof) (key : List ℕ)
      → prove_inclusion cp leaves seq ≡ ok proof
      → verify_checkpoint s cp key ≡ ok tt
      → verify_inclusion s cp proof key ≡ ok tt
  unfolding verify_inclusion
  verify_inclusion-prove_inclusion cp leaves seq proof key h hv =
      let (index, hi, sizes, roots, hp, hl, hs) = prove_inclusion-eq-ok cp leaves seq proof h in
      let (path, hp', climbs) = root_from_proof-tree_proof leaves index proof.event_hash hl in
      let same : path ≡ proof.path = some_inj (sym hp' ∙ hp) in
      let here : index_of cp.body proof.seq ≡ some index = ap (index_of cp.body) hs ∙ hi in
      let reached : root_from_proof proof.event_hash index (tree_size cp.body) proof.path
          ≡ some (tree_root leaves) =
        ap₂ (λ n p. root_from_proof proof.event_hash index n p) (sym sizes) (sym same) ∙ climbs in
      rw (hv, here, reached, eq→== _ _ roots)

  verify_inclusion-eq-ok :
      (cp : Checkpoint) (proof : InclusionProof) (key : List ℕ)
      → verify_inclusion s cp proof key ≡ ok tt
      → (index : ℕ) × (index_of cp.body proof.seq ≡ some index)
        × (root_from_proof proof.event_hash index (tree_size cp.body) proof.path
            ≡ some cp.body.root_hash)
        × (verify_checkpoint s cp key ≡ ok tt)
  unfolding verify_inclusion
  verify_inclusion-eq-ok cp proof key h =
      let (_, hv, h₁) = >>=-eq-ok (verify_checkpoint s cp key) _ h in
      let (index, hi, h₂) = >>=-eq-ok (ok_or (index_of cp.body proof.seq) _) _ h₁ in
      let (root, hr, h₃) =
        >>=-eq-ok
          (ok_or (root_from_proof proof.event_hash index (tree_size cp.body) proof.path)
            bad_inclusion_proof)
          _ h₂ in
      elim (Bool-cases (root == cp.body.root_hash)) [
        | inl same ↦ (index, ok_or-eq-ok _ _ hi, ok_or-eq-ok _ _ hr ∙ ap some (==→eq _ _ same), hv)
        | inr other ↦ cc (rw other at h₃)
      ]

  -- A proof that verifies against the checkpoint of a range shows that the checkpoint verifies too
  -- and that the proof's event stands in the range at the place of its sequence number, or a
  -- collision of the hash function is at hand. The hashes of the path have 32 bytes.
  pub verify_inclusion_sound :
      (cp : Checkpoint) (leaves : List Hash32) (proof : InclusionProof) (key : List ℕ)
      → length leaves ≡ tree_size cp.body
      → tree_root leaves ≡ cp.body.root_hash
      → All IsHash32 proof.path
      → verify_inclusion s cp proof key ≡ ok tt
      → (verify_checkpoint s cp key ≡ ok tt)
        × (index : ℕ) × (index_of cp.body proof.seq ≡ some index)
        × ((get_elem? leaves index ≡ some proof.event_hash) ⊎ Collision d)
  verify_inclusion_sound cp leaves proof key sizes roots wide h =
      let (index, hi, hr, hv) = verify_inclusion-eq-ok cp proof key h in
      let reached : root_from_proof proof.event_hash index (length leaves) proof.path
          ≡ some (tree_root leaves) =
        ap (λ n. root_from_proof proof.event_hash index n proof.path) sizes
        ∙ hr
        ∙ ap some (sym roots) in
      (hv, index, hi, root_from_proof_sound leaves index proof.event_hash proof.path wide reached)
