-- ===== src/Tx/Tests.antt =====
-- Runs of the transactions' operations, and their theorems at concrete inputs.
use melete.Base.{ℕ, ◌≡◌, ◌⊎◌, refl, [], ◌∷◌, none, some, get_elem?}
use melete.Base.Int.{pos}
use melete.Base.Bytes.{bytes_equal}
use melete.Merkle.{Collision, split_point, leaf_hash, inner_hash, hash_from_byte_slices, verify}
use melete.Merkle.Toy.{toy_hash}
use melete.Tx.{Txs, TxProof, index, index_by_hash, tx_hash, txs_hash, validate_tx_proof}
use melete.Tx.Laws.{validate_tx_proof_sound}

abbrev transfers : Txs
transfers = (1 ∷ 2 ∷ []) ∷ (3 ∷ []) ∷ (1 ∷ 2 ∷ []) ∷ []

index_runs : index transfers (3 ∷ []) ≡ pos 1
unfolding index bytes_equal
index_runs = refl

index_by_hash_runs : index_by_hash toy_hash transfers (toy_hash.sum (1 ∷ 2 ∷ [])) ≡ pos 0
unfolding index_by_hash bytes_equal
index_by_hash_runs = refl

abbrev third_proof : TxProof
third_proof = record {
  root_hash = txs_hash toy_hash transfers;
  tx = 1 ∷ 2 ∷ [];
  proof = record {
    total = pos 3;
    index = pos 2;
    leaf_hash = leaf_hash toy_hash (tx_hash toy_hash (1 ∷ 2 ∷ []));
    aunts =
        inner_hash toy_hash (leaf_hash toy_hash (tx_hash toy_hash (1 ∷ 2 ∷ [])))
          (leaf_hash toy_hash (tx_hash toy_hash (3 ∷ [])))
        ∷ [];
  };
}

third_proof_validates : validate_tx_proof toy_hash third_proof (txs_hash toy_hash transfers) ≡ none
unfolding validate_tx_proof txs_hash split_point leaf_hash inner_hash bytes_equal
    hash_from_byte_slices verify
third_proof_validates = refl

validate_tx_proof_sound_example :
    (i : ℕ) × (third_proof.proof.index ≡ pos i)
    × ((get_elem? transfers i ≡ some third_proof.tx) ⊎ Collision toy_hash)
validate_tx_proof_sound_example =
    validate_tx_proof_sound toy_hash transfers third_proof refl third_proof_validates
