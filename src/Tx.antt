-- ===== src/Tx.antt =====
-- types/tx.go of melete, pyramid and rapid: transactions, their hash and their inclusion proofs.
pub mod Laws
mod Tests
use mathlib.Core.Option
use melete.Base.{
  ℕ, zero, suc, List, [], ◌∷◌, map, Option, none, some, Bool, true, false, not, if◌then◌else◌,
  length, get_elem?,
}
use melete.Base.Bytes.{Bytes, bytes_equal}
use melete.Base.Int.{ℤ, pos, negsuc, ltb_ℤ, leb_ℤ}
use melete.Merkle.{HashFunction, hash_from_byte_slices, Proof, verify, proofs_from_byte_slices}

abbrev pub Tx : Type 0
Tx = Bytes

abbrev pub Txs : Type 0
Txs = List Tx

pub record TxProof : Type 0 where
  pub root_hash : Bytes
  pub tx : Tx
  pub proof : Proof

pub data TxError : Type 0 where
  different_root negative_index total_not_positive inconsistent : TxError

-- `Index`: the first position of the transaction, or -1. `i` is the position reached.
unfoldable pub index_from : ℕ → Txs → Tx → ℤ
index_from i [] tx = negsuc 0
index_from i (t ∷ txs) tx =
    let rest = index_from (suc i) txs tx in if bytes_equal t tx then pos i else rest

unfoldable pub index : Txs → Tx → ℤ
unfolding index_from
index txs tx = index_from 0 txs tx

-- The loops of `Txs.ToProto` and `NewTxsFromProto` over the transactions, whose bytes they keep.
unfoldable pub txs_to_proto : Txs → List Bytes
txs_to_proto [] = []
txs_to_proto (tx ∷ txs) = tx ∷ txs_to_proto txs

unfoldable pub txs_from_proto : List Bytes → Txs
txs_from_proto [] = []
txs_from_proto (bz ∷ p) = bz ∷ txs_from_proto p

module _ (h : HashFunction) where
  -- `Tx.Hash`
  unfoldable pub tx_hash : Tx → Bytes
  tx_hash tx = h.sum tx

  -- `Txs.Hash`
  unfoldable pub txs_hash : Txs → Bytes
  unfolding tx_hash
  txs_hash txs = hash_from_byte_slices h (map tx_hash txs)

  -- The loop of `IndexByHash`, and the method.
  unfoldable pub index_by_hash_from : ℕ → Txs → Bytes → ℤ
  unfolding tx_hash
  index_by_hash_from i [] hash = negsuc 0
  index_by_hash_from i (t ∷ txs) hash =
      let rest = index_by_hash_from (suc i) txs hash in
      if bytes_equal (tx_hash t) hash then pos i else rest

  unfoldable pub index_by_hash : Txs → Bytes → ℤ
  unfolding index_by_hash_from
  index_by_hash txs hash = index_by_hash_from 0 txs hash

  -- `Txs.Proof`; `none` is the panic on an index that is out of range.
  unfoldable pub tx_proof : Txs → ℕ → Option TxProof
  unfolding tx_hash Option.bind
  tx_proof txs i =
      let (root, proofs) = proofs_from_byte_slices h (map tx_hash txs) in
      Option.bind (get_elem? txs i) (λ tx.
        Option.map (λ p. record { root_hash = root; tx = tx; proof = p }) (get_elem? proofs i))

  -- `TxProof.Validate`; `none` is success.
  unfoldable pub validate_tx_proof : TxProof → Bytes → Option TxError
  unfolding tx_hash
  validate_tx_proof tp data_hash =
      if not (bytes_equal data_hash tp.root_hash)
      then some different_root
      else if ltb_ℤ tp.proof.index (pos 0)
      then some negative_index
      else if leb_ℤ tp.proof.total (pos 0)
      then some total_not_positive
      else elim (verify h tp.proof tp.root_hash (tx_hash tp.tx)) [
        | some e ↦ some inconsistent
        | none ↦ none
      ]
