-- ===== src/Block/Copies.antt =====
-- melete/types/block.go with utils/time.go: a block's copies in protobuf, `ProtoBytes` and
-- `NewBlockFromBytes`.
use melete.Base.{ℕ, ◌+◌, ◌-◌, ◌*◌, ◌/◌, ◌%◌, ◌^◌, ◌≡◌, refl, ap₂, [], Option, none, some, arith}
use melete.Base.Bytes.{Bytes}
use melete.Base.Int.{ℤ, pos, negsuc, ◌+ℤ◌}
use melete.Base.Encoding.{Encoding, read_message}
use melete.Base.Outcome.{Outcome, done, or_panic, ◌>>=◌}
use melete.Convert.{narrow}
use melete.Convert.Laws.{InSigned, narrow_fits}
use melete.Tx.{txs_to_proto, txs_from_proto}
use melete.Tx.Laws.{txs_from_proto-txs_to_proto}
use melete.Block.{
  Header, Relation, CrossShardBody, Body, Block, Timestamp, HeaderProto, BodyProto,
  CrossShardBodyProto, BlockProto, Codec,
}

abbrev second : ℕ
second = 10 ^ 9

-- `ThirdPartyProtoTime`: the seconds are rounded down.
unfoldable pub proto_time : ℤ → Timestamp
proto_time (pos n) = record { seconds = pos (n / second); nanos = pos (n % second) }
proto_time (negsuc n) = record {
  seconds = negsuc (n / second);
  nanos = pos (second - 1 - n % second);
}

abbrev in_nanos : ℤ → ℤ
in_nanos (pos s) = pos (s * second)
in_nanos (negsuc s) = negsuc (s * second + (second - 1))

-- `ThirdPartyUnmarshalTime`, which reads a nil timestamp as 1970.
unfoldable pub time_from_proto : Option Timestamp → ℤ
time_from_proto none = pos 0
time_from_proto (some t) = in_nanos t.seconds +ℤ t.nanos

unfoldable pub block_header_to_proto : Header → HeaderProto
unfolding proto_time
block_header_to_proto h = record {
  block_type = h.block_type;
  hash_pointer = h.hash_pointer;
  chain_id = h.chain_id;
  height = h.height;
  time = some (proto_time h.time);
  body_root = h.body_root;
  cross_shard_body_root = h.cross_shard_body_root;
  state_root = h.state_root;
  receipt_root = h.receipt_root;
  relation_root = h.relation_root;
}

-- `NewHeaderFromProto`: the type of the block is cut to an `int8`.
unfoldable pub block_header_from_proto : HeaderProto → Header
unfolding time_from_proto
block_header_from_proto p = record {
  block_type = narrow 8 p.block_type;
  hash_pointer = p.hash_pointer;
  chain_id = p.chain_id;
  height = p.height;
  time = time_from_proto p.time;
  body_root = p.body_root;
  cross_shard_body_root = p.cross_shard_body_root;
  state_root = p.state_root;
  receipt_root = p.receipt_root;
  relation_root = p.relation_root;
}

-- `Relation.ToProto` and `NewRelationFromProto`
unfoldable pub relation_to_proto : Relation → Relation
relation_to_proto r = record {
  related_commit_status = r.related_commit_status;
  related_hash = r.related_hash;
  my_commit_status = r.my_commit_status;
}

unfoldable pub relation_from_proto : Relation → Relation
relation_from_proto p = record {
  related_commit_status = p.related_commit_status;
  related_hash = p.related_hash;
  my_commit_status = p.my_commit_status;
}

unfoldable pub cross_shard_body_to_proto : CrossShardBody → CrossShardBodyProto
unfolding txs_to_proto
cross_shard_body_to_proto b = record {
  txs = txs_to_proto b.cross_shard_txs;
  cross_shard_datas = b.cross_shard_datas;
}

unfoldable pub cross_shard_body_from_proto : CrossShardBodyProto → CrossShardBody
unfolding txs_from_proto
cross_shard_body_from_proto p = record {
  cross_shard_txs = txs_from_proto p.txs;
  cross_shard_datas = p.cross_shard_datas;
}

unfoldable pub body_to_proto : Body → BodyProto
unfolding txs_to_proto
body_to_proto b = record { txs = txs_to_proto b.body_txs }

unfoldable pub body_from_proto : BodyProto → Body
unfolding txs_from_proto
body_from_proto p = record { body_txs = txs_from_proto p.txs }

-- `NewHeaderFromBytes` and `NewRelationFromBytes`
unfoldable pub new_header_from_bytes : Encoding HeaderProto → Bytes → Outcome (Option Header)
unfolding block_header_from_proto
new_header_from_bytes e bz = read_message e (λ p. done (block_header_from_proto p)) bz

unfoldable pub new_relation_from_bytes : Encoding Relation → Bytes → Outcome (Option Relation)
unfolding relation_from_proto
new_relation_from_bytes e bz = read_message e (λ p. done (relation_from_proto p)) bz

-- `Block.ToProto`, without the cached hash.
unfoldable pub block_to_proto : Block → BlockProto
unfolding block_header_to_proto body_to_proto cross_shard_body_to_proto relation_to_proto
block_to_proto b = record {
  header = some (block_header_to_proto b.header);
  body = some (body_to_proto b.body);
  cross_shard_body = some (cross_shard_body_to_proto b.cross_shard_body);
  relation = some (relation_to_proto b.relation);
}

-- `NewBlockFromProto` reads its four messages without a test for nil.
unfoldable pub block_from_proto : BlockProto → Outcome Block
unfolding block_header_from_proto body_from_proto cross_shard_body_from_proto relation_from_proto
block_from_proto p = do
  header ← or_panic p.header
  body ← or_panic p.body
  cross_shard_body ← or_panic p.cross_shard_body
  relation ← or_panic p.relation
  done (record {
    header = block_header_from_proto header;
    body = body_from_proto body;
    cross_shard_body = cross_shard_body_from_proto cross_shard_body;
    relation = relation_from_proto relation;
    blockhash = [];
  })

-- `Block.ProtoBytes`
unfoldable pub block_bytes : Codec → Block → Bytes
unfolding block_to_proto
block_bytes c b = c.marshal (block_to_proto b)

-- `NewBlockFromBytes`; nil is `none`.
unfoldable pub block_from_bytes : Codec → Bytes → Outcome (Option Block)
unfolding block_from_proto
block_from_bytes c bz = elim (c.unmarshal bz) [
  | none ↦ done none
  | some p ↦ block_from_proto p >>= λ b. done (some b)
]

-- What the code relies on for a block: protobuf reads the block's message back.
abbrev pub Decodes : Codec → Block → Type 0
Decodes c b = c.unmarshal (c.marshal (block_to_proto b)) ≡ some (block_to_proto b)

time_from_proto-proto_time : (t : ℤ) → time_from_proto (some (proto_time t)) ≡ t
unfolding time_from_proto proto_time ◌+ℤ◌
time_from_proto-proto_time (pos n) = ground arith
time_from_proto-proto_time (negsuc n) = ground arith

block_header_from_proto-block_header_to_proto :
    (h : Header) → InSigned 7 h.block_type → block_header_from_proto (block_header_to_proto h) ≡ h
unfolding block_header_from_proto block_header_to_proto
block_header_from_proto-block_header_to_proto h r =
    ap₂ (λ n t. record h { block_type = n; time = t }) (narrow_fits 7 h.block_type r)
      (time_from_proto-proto_time h.time)

-- `NewBlockFromBytes` gives a block back from its `ProtoBytes`, without the cached hash, when its
-- type is an `int8` and protobuf reads back the message that it wrote.
pub block_from_bytes-block_bytes :
    (c : Codec) (b : Block)
    → Decodes c b
    → InSigned 7 b.header.block_type
    → block_from_bytes c (block_bytes c b) ≡ done (some (record b { blockhash = [] }))
unfolding block_from_bytes block_bytes block_from_proto block_to_proto body_from_proto body_to_proto
    cross_shard_body_from_proto cross_shard_body_to_proto relation_from_proto relation_to_proto
block_from_bytes-block_bytes c b d r =
    rw (d, block_from_bytes)
      (rw (block_header_from_proto-block_header_to_proto b.header r) (
        rw (txs_from_proto-txs_to_proto b.body.body_txs)
          (rw (txs_from_proto-txs_to_proto b.cross_shard_body.cross_shard_txs) refl)))
