-- ===== src/Control/Checkpointer/Puts.antt =====
-- crates/ancre-control/src/checkpointer.rs: what the checkpoint of a tick says, and what the store
-- has after it is put.
use ancre.Prelude.{
  ℕ, ◌+◌, ◌-◌, ◌%◌, ◌≤◌, ◌<◌, ◌≡◌, ◌⊎◌, ap, ◌∙◌, inl, inr, List, [], ◌∷◌, ◌++◌, ok, err, length,
  u64_mod, arith,
}
use ancre.Prelude.Int.{ℤ}
use ancre.Canon.Hash.{Hash32, Digest}
use ancre.Canon.Tree.{tree_root}
use ancre.Canon.Cbor.{KeyOrder, Ciborium}
use ancre.Chain.{ChainId}
use ancre.Chain.Checkpoint.{
  Checkpoint, CheckpointSigner, CheckpointBody, Ed25519, AcceptsOwn, range_body, seal_range,
  verify_checkpoint,
}
use ancre.Chain.Checkpoint.Inclusion.{sign-verify_checkpoint}
use ancre.Ingester.Sink.{ChainId-Eq}
use ancre.Control.Checkpointer.{ControlError, ChainSource, CheckpointStore, Plane, seq_from_of}
use ancre.Control.Checkpointer.Rounds.{
  Attests, Kept, sealed_chain, last_row_of, first_unsealed, i64_mod,
}

module _ ⦃d : Digest⦄ ⦃o : KeyOrder⦄ ⦃cb : Ciborium⦄ (s : Ed25519) where
  -- What a checkpoint says that is made of all the leaves from `start` to `head`.
  pub record Seals (key : List ℕ) (k : ChainId) (start head : ℕ) (leaves : List Hash32)
      (sealed : Checkpoint) : Type 0 where
    pub starts : sealed.body.seq_from ≡ start
    pub stops : sealed.body.seq_to ≡ head
    pub owner : sealed_chain sealed ≡ k
    pub root : sealed.body.root_hash ≡ tree_root leaves
    pub verified : verify_checkpoint s sealed key ≡ ok tt

  pub seal_range-Seals :
      (signer : CheckpointSigner) (clock : ℤ) (k : ChainId) (start head : ℕ) (leaves : List Hash32)
      (sealed : Checkpoint)
      → AcceptsOwn s
      → start ≤ head
      → head + 1 < u64_mod
      → length leaves ≡ (head - start + 1) % u64_mod
      → seal_range s signer clock k.tenant_id k.system_id start leaves ≡ ok sealed
      → Seals (s.verifying_key signer.key) k start head leaves sealed
  unfolding seal_range
  seal_range-Seals signer clock k start head [] sealed accepts le lt n q = cc
  seal_range-Seals signer clock k start head (a ∷ r) sealed accepts le lt n q =
      let body = range_body clock k.tenant_id k.system_id start (a ∷ r) in
      let (same, good) = sign-verify_checkpoint s signer body sealed accepts q in
      record {
        starts = ap (λ (b : CheckpointBody). b.seq_from) same;
        stops = ap (λ (b : CheckpointBody). b.seq_to) same ∙ omega (arith, n);
        owner =
            ap
              (λ (b : CheckpointBody).
                let c : ChainId = record { tenant_id = b.tenant_id; system_id = b.system_id } in c)
              same;
        root = ap (λ (b : CheckpointBody). b.root_hash) same;
        verified = good;
      }

  -- The checkpoint that a tick puts ends after the last row, so it is appended if the store answers so.
  module _ (src : ChainSource) (st : CheckpointStore) (keeps : Attests st) (k : ChainId)
      (cp mid : Plane src st) (after : st.State) (key : List ℕ) (head : ℕ) (leaves : List Hash32)
      (sealed : Checkpoint) (kept : Kept src st keeps cp mid)
      (le : first_unsealed s src st keeps k cp ≤ head) (lt : head < i64_mod)
      (f : Seals key k (first_unsealed s src st keeps k cp) head leaves sealed) where
    beyond :
        seq_from_of (last_row_of (keeps.rows (sealed_chain sealed) mid.store)) ≤ sealed.body.seq_to
    beyond =
        let first : seq_from_of (last_row_of (keeps.rows (sealed_chain sealed) mid.store))
            ≡ first_unsealed s src st keeps k cp =
          ap (λ r. seq_from_of (last_row_of r))
            (kept.rows_kept (sealed_chain sealed) ∙ ap (λ x. keeps.rows x cp.store) f.owner) in
        omega (arith, first, le, f.stops)

    pub put-appended :
        (u : Unit {0})
        → st.put sealed mid.store ≡ (ok u, after)
        → keeps.rows (sealed_chain sealed) after
          ≡ keeps.rows (sealed_chain sealed) cp.store ++ sealed ∷ []
    put-appended u put =
        keeps.put_own sealed mid.store after u beyond (omega (arith, lt, f.stops)) put
        ∙ ap (λ r. r ++ sealed ∷ []) (kept.rows_kept (sealed_chain sealed))

    pub put-doubted :
        (e : ControlError)
        → st.put sealed mid.store ≡ (err e, after)
        → (keeps.rows (sealed_chain sealed) after ≡ keeps.rows (sealed_chain sealed) cp.store)
          ⊎ (keeps.rows (sealed_chain sealed) after
              ≡ keeps.rows (sealed_chain sealed) cp.store ++ sealed ∷ [])
    put-doubted e put =
        let same = kept.rows_kept (sealed_chain sealed) in
        elim (keeps.refused sealed mid.store after e beyond (omega (arith, lt, f.stops)) put) [
          | inl p ↦ inl (p ∙ same)
          | inr p ↦ inr (p ∙ ap (λ r. r ++ sealed ∷ []) same)
        ]
