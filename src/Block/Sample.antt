-- ===== src/Block/Sample.antt =====
-- A block and a codec that runs in tests.
use melete.Base.{[], ◌∷◌, none, some, if◌then◌else◌}
use melete.Base.Bytes.{Bytes, bytes_equal}
use melete.Base.Int.{pos}
use melete.Block.{Header, Block, BlockProto, Codec}

abbrev pub sample_header : Header
sample_header = record {
  block_type = pos 1;
  hash_pointer = 5 ∷ [];
  chain_id = 97 ∷ [];
  height = pos 3;
  time = pos 77;
  body_root = [];
  cross_shard_body_root = [];
  state_root = [];
  receipt_root = [];
  relation_root = [];
}

abbrev pub sample_block : Block
sample_block = record {
  header = sample_header;
  body = record { body_txs = (1 ∷ 2 ∷ []) ∷ (3 ∷ []) ∷ [] };
  cross_shard_body = record { cross_shard_txs = []; cross_shard_datas = [] };
  relation = record { related_commit_status = []; related_hash = []; my_commit_status = [] };
  blockhash = [];
}

-- The message of the block.
abbrev sample_message : BlockProto
sample_message = record {
  header = some (record {
    block_type = pos 1;
    hash_pointer = 5 ∷ [];
    chain_id = 97 ∷ [];
    height = pos 3;
    time = some (record { seconds = pos 0; nanos = pos 77 });
    body_root = [];
    cross_shard_body_root = [];
    state_root = [];
    receipt_root = [];
    relation_root = [];
  });
  body = some (record { txs = (1 ∷ 2 ∷ []) ∷ (3 ∷ []) ∷ [] });
  cross_shard_body = some (record { txs = []; cross_shard_datas = [] });
  relation = some sample_block.relation;
}

abbrev sample_bytes : Bytes
sample_bytes = 10 ∷ 20 ∷ 30 ∷ []

-- An encoding of the one block above.
abbrev pub sample_codec : Codec
sample_codec = record {
  marshal_time = λ t. some (1 ∷ 2 ∷ []);
  marshal = λ b. sample_bytes;
  unmarshal = λ bz. if bytes_equal bz sample_bytes then some sample_message else none;
}
