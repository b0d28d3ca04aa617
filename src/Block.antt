-- ===== src/Block.antt =====
-- melete/types/block.go (the same text in pyramid and rapid): blocks, their roots and their hash.
pub mod Copies
pub mod Commit
pub mod Laws
pub mod Sample
mod Tests
use melete.Base.{
  ℕ, List, [], ◌∷◌, map, Option, none, some, Bool, true, false, not, if◌then◌else◌, length, ◌==◌,
  ◌≡◌,
}
use melete.Base.Bytes.{Bytes, Text}
use melete.Base.Int.{ℤ, pos, negsuc}
use melete.Convert.{IntType, int_to_bytes}
use melete.Merkle.{HashFunction, hash_size, hash_from_byte_slices}
use melete.Tx.{Txs, txs_hash}

-- `time` is the instant in nanoseconds.
pub record Header : Type 0 where
  pub block_type : ℤ
  pub hash_pointer : Bytes
  pub chain_id : Text
  pub height : ℤ
  pub time : ℤ
  pub body_root : Bytes
  pub cross_shard_body_root : Bytes
  pub state_root : Bytes
  pub receipt_root : Bytes
  pub relation_root : Bytes

pub record Relation : Type 0 where
  pub related_commit_status : List Bytes
  pub related_hash : List Bytes
  pub my_commit_status : Bytes

pub record CrossShardBody : Type 0 where
  pub cross_shard_txs : Txs
  pub cross_shard_datas : List Bytes

pub record Body : Type 0 where
  pub body_txs : Txs

-- `blockhash` is the cached hash.
pub record Block : Type 0 where
  pub header : Header
  pub body : Body
  pub cross_shard_body : CrossShardBody
  pub relation : Relation
  pub blockhash : Bytes

-- `Timestamp`: seconds and nanoseconds since 1970.
pub record Timestamp : Type 0 where
  pub seconds : ℤ
  pub nanos : ℤ

-- The protobuf messages for a block. One that is missing is nil; a `Relation` has the fields of its
-- message.
pub record HeaderProto : Type 0 where
  pub block_type : ℤ
  pub hash_pointer : Bytes
  pub chain_id : Text
  pub height : ℤ
  pub time : Option Timestamp
  pub body_root : Bytes
  pub cross_shard_body_root : Bytes
  pub state_root : Bytes
  pub receipt_root : Bytes
  pub relation_root : Bytes

pub record BodyProto : Type 0 where
  pub txs : List Bytes

pub record CrossShardBodyProto : Type 0 where
  pub txs : List Bytes
  pub cross_shard_datas : List Bytes

pub record BlockProto : Type 0 where
  pub header : Option HeaderProto
  pub body : Option BodyProto
  pub cross_shard_body : Option CrossShardBodyProto
  pub relation : Option Relation

-- The external encoders: gogo's `StdTimeMarshal`, and the protobuf encoding of a block's message.
pub record Codec : Type 0 where
  pub marshal_time : ℤ → Option Bytes
  pub marshal : BlockProto → Bytes
  pub unmarshal : Bytes → Option BlockProto

module _ (h : HashFunction) (c : Codec) where
  -- The list that `Header.Hash` hashes.
  unfoldable pub header_fields : Header → Bytes → List Bytes
  header_fields r time_bytes =
      int_to_bytes IntType.int8 r.block_type
      ∷ r.hash_pointer
      ∷ r.chain_id
      ∷ int_to_bytes IntType.int64 r.height
      ∷ time_bytes
      ∷ r.body_root
      ∷ r.cross_shard_body_root
      ∷ r.state_root
      ∷ r.receipt_root
      ∷ r.relation_root
      ∷ []

  -- `Header.Hash`: nil when the time cannot be encoded.
  unfoldable pub header_hash : Header → Bytes
  unfolding header_fields
  header_hash r = elim (c.marshal_time r.time) [
    | none ↦ []
    | some t ↦ hash_from_byte_slices h (header_fields r t)
  ]

  -- `Relation.Hash`
  unfoldable pub relation_hash : Relation → Bytes
  relation_hash r = hash_from_byte_slices h (
      hash_from_byte_slices h r.related_commit_status
      ∷ hash_from_byte_slices h r.related_hash
      ∷ r.my_commit_status
      ∷ [])

  -- `CrossShardBody.Hash`
  unfoldable pub cross_shard_body_hash : CrossShardBody → Bytes
  cross_shard_body_hash b =
      hash_from_byte_slices h
        (txs_hash h b.cross_shard_txs ∷ hash_from_byte_slices h b.cross_shard_datas ∷ [])

  -- `Body.Hash`
  unfoldable pub body_hash : Body → Bytes
  body_hash b = txs_hash h b.body_txs

  -- A root is filled in unless it has the size of a digest already.
  abbrev pub root_or : Bytes → Bytes → Bytes
  root_or old new = if length old == hash_size then old else new

  -- `fillHeader`
  unfoldable pub fill_header : Block → Block
  unfolding relation_hash cross_shard_body_hash body_hash
  fill_header b =
      let r = b.header in
      record b {
        header = record r {
          body_root = root_or r.body_root (body_hash b.body);
          relation_root = root_or r.relation_root (relation_hash b.relation);
          cross_shard_body_root =
              root_or r.cross_shard_body_root (cross_shard_body_hash b.cross_shard_body);
        };
      }

  -- The block after `Block.Hash`, which fills the header and caches the hash.
  unfoldable pub hashed : Block → Block
  unfolding fill_header header_hash
  hashed b =
      let f = fill_header b in record f { blockhash = root_or f.blockhash (header_hash f.header) }

  -- `Block.Hash`
  unfoldable pub block_hash : Block → Bytes
  unfolding hashed
  block_hash b = (hashed b).blockhash
