-- ===== src/Examples/Planes.antt =====
-- crates/ancre-control/src/checkpointer.rs: the theorems on ticks over a store in memory.
use ancre.Prelude.{◌≡◌, refl, sym, ap, [], ◌∷◌, some, some_inj, ok, ok_inj, text, arith}
use mathlib.Core.List.Memᴰ.{head}
use ancre.Prelude.Int.{pos}
use ancre.Prelude.Sort.{sort_by}
use ancre.Prelude.TextOrder.{text_le}
use ancre.Canon.Hash.{hash_leaf, hash_node}
use ancre.Canon.Tree.{tree_root, largest_pow2_below, bit_length}
use ancre.Canon.Cbor.{encode, canonicalize, close_map, has_tie, entries_of, write_canonical}
use ancre.Chain.{ChainId, absorb}
use ancre.Chain.Checkpoint.{
  Checkpoint, CheckpointBody, range_body, seal_range, sign, signing_payload, checkpoint_value,
  checkpoint_entries,
}
use ancre.Control.Checkpointer.{
  ChainSource, Plane, SealReport, tick, seal_chains, seal_chain, with_head, with_last, seal_pending,
  with_leaves, put_sealed, put_done, checkpoint_every_t,
}
use ancre.Control.Checkpointer.Ledger.{Numbers, IsLedger, tick-IsLedger}
use ancre.Control.Checkpointer.Settled.{Steady, IsSettled, tick-IsSettled}
use ancre.Control.Checkpointer.Memory.{
  memory_checkpoints, memory_attests, put_checkpoint, list_checkpoints, hashes_of,
}
use ancre.Examples.Chain.{quiet_hash, two_events}
use ancre.Examples.Checkpoint.{keyed, keyed-AcceptsOwn, signer, payload_of}
use ancre.Examples.Codec.{example_digest, example_order, example_ciborium, write_all}

abbrev pub the_chain : ChainId
the_chain = record { tenant_id = text "t"; system_id = text "s" }

-- A source that always has the same two events of one chain.
abbrev pub two_rows : ChainSource
two_rows = record {
  State = Unit {0};
  chains = λ s. (ok (the_chain ∷ []), tt);
  head_seq = λ c s. (ok (some 2), tt);
  leaves = λ c seq_from seq_to s. (hashes_of c seq_from seq_to (some two_events), tt);
}

two_rows-Numbers : Numbers two_rows
two_rows-Numbers c x y n q =
    let same : 2 ≡ n = some_inj (ok_inj (ap (λ t. t.0) q)) in omega (arith, same)

two_rows-Steady : Steady two_rows (the_chain ∷ []) (λ c. some 2)
two_rows-Steady = record {
  listed = λ x y cs q. sym (ok_inj (ap (λ t. t.0) q));
  answered = λ c x y h q. sym (ok_inj (ap (λ t. t.0) q));
  numbered = λ c n q. let same : 2 ≡ n = some_inj q in omega (arith, same);
}

abbrev pub fresh_plane : Plane two_rows memory_checkpoints
fresh_plane = record {
  source = tt;
  store = [];
  signer = signer;
  every_n = 10;
  every_t = checkpoint_every_t;
}

abbrev both_body : CheckpointBody
both_body = range_body (pos 5) (text "t") (text "s") 1 (quiet_hash ∷ quiet_hash ∷ [])

both_payload : signing_payload both_body ≡ ok (payload_of (signing_payload both_body))
unfolding signing_payload absorb checkpoint_value checkpoint_entries encode canonicalize close_map
    has_tie entries_of write_canonical write_all sort_by text_le tree_root hash_node
    largest_pow2_below bit_length hash_leaf
both_payload = refl

abbrev both_sealed : Checkpoint
both_sealed = record {
  body = both_body;
  signature = 1 ∷ payload_of (signing_payload both_body);
  key_id = text "k";
}

both_made :
    seal_range keyed signer (pos 5) (text "t") (text "s") 1 (quiet_hash ∷ quiet_hash ∷ [])
    ≡ ok both_sealed
unfolding seal_range sign
both_made = rw both_payload refl

abbrev one_written : SealReport
one_written = record {
  chains_examined = 1;
  checkpoints_written = 1;
  events_sealed = 2;
  max_lag = 0;
}

abbrev after_tick : Plane two_rows memory_checkpoints
after_tick = record fresh_plane { store = put_checkpoint both_sealed [] }

one_tick :
    tick keyed two_rows memory_checkpoints (λ n. pos 5) (pos 9) fresh_plane
    ≡ (ok one_written, after_tick)
unfolding tick seal_chains seal_chain with_head with_last seal_pending with_leaves put_sealed
    put_done
one_tick = rw both_made refl

tick-IsLedger_example : IsLedger keyed (1 ∷ []) (
    list_checkpoints the_chain
      (tick keyed two_rows memory_checkpoints (λ n. pos 5) (pos 9) fresh_plane).1.store)
unfolding list_checkpoints memory_attests
tick-IsLedger_example =
    tick-IsLedger keyed two_rows memory_checkpoints memory_attests the_chain (λ n. pos 5) (pos 9)
      fresh_plane keyed-AcceptsOwn two_rows-Numbers (tt, tt)

tick-IsSettled_example :
    IsSettled keyed two_rows memory_checkpoints memory_attests the_chain 2 one_written after_tick
tick-IsSettled_example =
    tick-IsSettled keyed two_rows memory_checkpoints memory_attests (the_chain ∷ []) (λ c. some 2)
      the_chain 2 (λ n. pos 5) (pos 9) fresh_plane after_tick one_written keyed-AcceptsOwn
      two_rows-Steady (head refl) refl one_tick
