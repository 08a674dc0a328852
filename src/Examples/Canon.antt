-- ===== src/Examples/Canon.antt =====
-- crates/ancre-canon: the theorems on hashes, trees and the canonical form, at concrete inputs.
use mathlib.Core.List.Permᴰ.{swap}
use ancre.Prelude.{
  ℕ, zero, suc, ◌≡◌, refl, sym, ap, ◌∙◌, ok_inj, ◌⊎◌, List, [], ◌∷◌, some, Result, ok, err, Text,
  text, replicate, arith, All, get_elem?,
}
use ancre.Prelude.Int.{pos}
use ancre.Prelude.Sort.{sort_by}
use ancre.Prelude.TextOrder.{text_le}
use ancre.Canon.Hash.{Hash32, Collision, hash_leaf, hash_node}
use ancre.Canon.Tree.{
  bit_length, tree_root_fuel, sides, climb, tree_root, tree_proof, root_from_proof,
  largest_pow2_below,
}
use ancre.Canon.Tree.Inclusion.{root_from_proof-tree_proof}
use ancre.Canon.Tree.Sound.{root_from_proof_sound}
use ancre.Canon.Hex.RoundTrip.{IsByte}
use ancre.Canon.Cbor.{
  Value, integer, float, text_string, array, map_of, cons, nil, Pairs, entries_of, canonicalize,
  encode, decode, write_canonical, close_map, has_tie,
}
use ancre.Canon.Cbor.Permuted.{canonicalize_perm}
use ancre.Canon.Cbor.Codec.{decode-encode}
use ancre.Examples.Codec.{
  example_digest, example_order, example_ciborium, example-ReadsBack, write_all,
}

abbrev leaf_of : ℕ → Hash32
leaf_of n = record { bytes = replicate 32 n }

abbrev three_leaves : List Hash32
three_leaves = leaf_of 1 ∷ leaf_of 2 ∷ leaf_of 3 ∷ []

root_from_proof-tree_proof_example :
    (p : List Hash32) × (tree_proof three_leaves 1 ≡ some p)
    × (root_from_proof (leaf_of 2) 1 3 p ≡ some (tree_root three_leaves))
root_from_proof-tree_proof_example = root_from_proof-tree_proof three_leaves 1 (leaf_of 2) refl

abbrev one_leaf : List Hash32
one_leaf = leaf_of 1 ∷ []

root_from_proof_sound_example :
    (get_elem? (leaf_of 1 ∷ leaf_of 2 ∷ []) 1 ≡ some (leaf_of 2)) ⊎ Collision example_digest
unfolding root_from_proof tree_root largest_pow2_below hash_leaf hash_node bit_length tree_root_fuel
    sides climb
root_from_proof_sound_example =
    root_from_proof_sound (leaf_of 1 ∷ leaf_of 2 ∷ []) 1 (leaf_of 2) (hash_leaf (leaf_of 1) ∷ [])
      (refl, tt) refl

zeros : (n : ℕ) → All IsByte (replicate n 0)
zeros zero = tt
zeros (suc n) = (omega arith, zeros n)

abbrev two_keys : Pairs
two_keys =
    (text_string (text "b"), integer (pos 1)) ∷ (text_string (text "a"), integer (pos 2)) ∷ []

abbrev two_keys_swapped : Pairs
two_keys_swapped =
    (text_string (text "a"), integer (pos 2)) ∷ (text_string (text "b"), integer (pos 1)) ∷ []

canonicalize_perm_example :
    canonicalize (map_of (entries_of two_keys_swapped)) ≡ ok (map_of (entries_of two_keys_swapped))
unfolding canonicalize close_map has_tie entries_of sort_by text_le
canonicalize_perm_example =
    canonicalize_perm two_keys two_keys_swapped (map_of (entries_of two_keys_swapped))
      (swap refl refl) refl

abbrev with_float : Value
with_float = array (cons (integer (pos 1)) (cons (float 0) nil))

abbrev value_itself : Value → Result Text Value
value_itself v = ok v

abbrev five : ℕ → Result Text Value
five n = ok (integer (pos n))

abbrev back : Value → Result Text ℕ
back (integer (pos n)) = ok n
back _ = err []

back-five : (n : ℕ) (v w : Value) → five n ≡ ok v → canonicalize v ≡ ok w → back w ≡ ok n
unfolding canonicalize
back-five n v w h k =
    let same : canonicalize (integer (pos n)) ≡ canonicalize v = ap canonicalize (ok_inj h) in
    ap back (ok_inj (sym k ∙ sym same))

decode-encode_example : decode back (write_all (integer (pos 5))) ≡ ok 5
unfolding encode canonicalize write_canonical write_all
decode-encode_example =
    decode-encode five back 5 (write_all (integer (pos 5))) example-ReadsBack (back-five 5) refl
