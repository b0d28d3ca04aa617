-- ===== src/Merkle/Tests.antt =====
-- Runs of the tree and its proofs with a toy hash, and the theorems at concrete inputs.
use melete.Base.{ℕ, ◌≡◌, arith, ◌⊎◌, refl, List, [], ◌∷◌, none, some, get_elem?, replicate}
use melete.Base.Int.{pos}
use melete.Base.Bytes.{Bytes, bytes_equal}
use melete.Merkle.{
  split_point, leaf_hash, inner_hash, Collision, hash_from_byte_slices, Proof, verify,
  proofs_from_byte_slices,
}
use melete.Merkle.Complete.{proofs_complete, IsProven}
use melete.Merkle.Bounds.{IsBounded, proofs_bounds}
use melete.Merkle.Toy.{toy_hash}
use melete.Merkle.Sound.{verify_sound}
use melete.Merkle.Rooted.{hash_from_byte_slices_iterative}
use melete.Merkle.Iterative.{hash_from_byte_slices_iterative-hash_from_byte_slices}
use melete.Merkle.Bind.{hash_from_byte_slices_binds}

abbrev items : List Bytes
items = (7 ∷ []) ∷ (8 ∷ []) ∷ (9 ∷ []) ∷ []

proofs_complete_example : IsProven toy_hash items 2 (9 ∷ [])
proofs_complete_example = proofs_complete toy_hash items 2 (9 ∷ []) refl

abbrev second_proof : Proof
second_proof = record {
  total = pos 3;
  index = pos 1;
  leaf_hash = toy_hash.sum (0 ∷ 8 ∷ []);
  aunts = toy_hash.sum (0 ∷ 7 ∷ []) ∷ toy_hash.sum (0 ∷ 9 ∷ []) ∷ [];
}

proofs_run : get_elem? (proofs_from_byte_slices toy_hash items).1 1 ≡ some second_proof
unfolding proofs_from_byte_slices split_point leaf_hash inner_hash
proofs_run = refl

proofs_bounds_example : IsBounded 2 second_proof
proofs_bounds_example = proofs_bounds toy_hash items 2 1 second_proof (omega arith) proofs_run

verify_runs : verify toy_hash second_proof (hash_from_byte_slices toy_hash items) (8 ∷ []) ≡ none
unfolding verify hash_from_byte_slices split_point bytes_equal leaf_hash inner_hash
verify_runs = refl

-- With an empty root a malformed proof is accepted: its nil result equals the empty root.
verify_empty_root : verify toy_hash (record second_proof { aunts = [] }) [] (8 ∷ []) ≡ none
unfolding verify split_point bytes_equal leaf_hash inner_hash
verify_empty_root = refl

verify_sound_example :
    (i : ℕ) × (second_proof.index ≡ pos i)
    × ((get_elem? items i ≡ some (8 ∷ [])) ⊎ Collision toy_hash)
verify_sound_example = verify_sound toy_hash items second_proof (8 ∷ []) refl verify_runs

abbrev long_item : List Bytes
long_item = replicate 40 1 ∷ []

abbrev longer_item : List Bytes
longer_item = replicate 41 1 ∷ []

-- The toy hash does not see the byte in which the two differ, so this is a collision.
same_roots : hash_from_byte_slices toy_hash long_item ≡ hash_from_byte_slices toy_hash longer_item
unfolding hash_from_byte_slices leaf_hash
same_roots = refl

hash_from_byte_slices_binds_example : (long_item ≡ longer_item) ⊎ Collision toy_hash
hash_from_byte_slices_binds_example =
    hash_from_byte_slices_binds toy_hash long_item longer_item same_roots

hash_from_byte_slices_iterative-hash_from_byte_slices_example :
    hash_from_byte_slices_iterative toy_hash items ≡ hash_from_byte_slices toy_hash items
hash_from_byte_slices_iterative-hash_from_byte_slices_example =
    hash_from_byte_slices_iterative-hash_from_byte_slices toy_hash items
