-- ===== src/Block/Tests.antt =====
-- A block, a codec for it, and the blocks' theorems at it.
use melete.Base.{◌≡◌, ◌⊎◌, refl, [], ◌∷◌, arith, replicate}
use melete.Merkle.{Collision}
use melete.Merkle.Toy.{toy_hash}
use melete.Block.{Body, Block, block_hash}
use melete.Block.Laws.{IsSized, SameFields, header_hash_binds, block_hash_ignores_body}
use melete.Block.Sample.{sample_header, sample_block, sample_codec}

sample_header-IsSized : IsSized toy_hash sample_codec sample_header
sample_header-IsSized = record {
  int8_type = omega arith;
  int64_height = omega arith;
  encodable = (1 ∷ 2 ∷ [], refl);
}

header_hash_binds_example :
    SameFields toy_hash sample_codec sample_header sample_header ⊎ Collision toy_hash
header_hash_binds_example =
    header_hash_binds toy_hash sample_codec sample_header sample_header sample_header-IsSized
      sample_header-IsSized refl

abbrev rooted_block : Block
rooted_block = record sample_block { header = record sample_header { body_root = replicate 32 7 } }

abbrev other_body : Body
other_body = record { body_txs = (9 ∷ 9 ∷ []) ∷ [] }

block_hash_ignores_body_example :
    block_hash toy_hash sample_codec (record rooted_block { body = other_body })
    ≡ block_hash toy_hash sample_codec rooted_block
block_hash_ignores_body_example =
    block_hash_ignores_body toy_hash sample_codec rooted_block other_body refl
