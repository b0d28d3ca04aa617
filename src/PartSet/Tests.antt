-- ===== src/PartSet/Tests.antt =====
-- A block sent in parts and collected again, and the part sets' theorems at it.
use melete.Base.{◌≡◌, ◌⊎◌, refl, List, [], ◌∷◌, none, some, arith}
use melete.Base.Bytes.{Bytes, bytes_equal}
use melete.Base.Int.{pos, eq_ℤ, ◌+ℤ◌}
use melete.Base.Outcome.{done, ◌>>=◌}
use melete.Merkle.{Collision, split_point, leaf_hash, inner_hash, hash_from_byte_slices, verify}
use melete.Merkle.Toy.{toy_hash}
use melete.Block.{block_hash, hashed}
use melete.Convert.{int_to_bytes, narrow}
use melete.Block.Sample.{sample_block, sample_codec}
use melete.PartSet.{PartSet, split_byte_array, gen_block, generated, add_part, new_part_set}
use melete.PartSet.Split.{IsSplitOf, split_byte_array_lem}
use melete.PartSet.Collect.{Kept, Tracks, add_part_lem}
use melete.PartSet.Arrive.{Arrives, part_set-Arrives}
use melete.PartSet.Receive.{receive, collect}
use melete.PartSet.Sample.{
  slices, second_part, delivery, delivery-AllValid, sample-Decodes, sent_set,
  part_set_from_block_runs,
}

part_set-Arrives_example :
    Arrives toy_hash sample_codec sample_block sent_set delivery ⊎ Collision toy_hash
part_set-Arrives_example =
    part_set-Arrives toy_hash sample_codec sample_block 2 (pos 0) sent_set delivery (omega arith)
      refl sample-Decodes (omega arith) part_set_from_block_runs delivery-AllValid
      ((2, refl), ((0, refl), tt))

split_byte_array_runs : split_byte_array 3 (10 ∷ 20 ∷ 30 ∷ []) 2 ≡ some slices
unfolding split_byte_array
split_byte_array_runs = refl

split_byte_array_lem_example :
    (items : List Bytes) × (split_byte_array 3 (10 ∷ 20 ∷ 30 ∷ []) 2 ≡ some items)
    × IsSplitOf (10 ∷ 20 ∷ 30 ∷ []) 2 items
split_byte_array_lem_example =
    split_byte_array_lem 3 (10 ∷ 20 ∷ 30 ∷ []) 2 (omega arith) (omega arith)

abbrev waiting : PartSet
waiting = record {
  header = record {
    height = pos 3;
    round = pos 0;
    total = pos 2;
    root = hash_from_byte_slices toy_hash slices;
    chain_id = 97 ∷ [];
  };
  parts = none ∷ none ∷ [];
  count = 0;
  block_header_hash = [];
}

waiting-Tracks : Tracks toy_hash slices waiting
waiting-Tracks = record { of_root = refl; of_total = refl; matching = tt; counted = refl }

add_part_runs :
    add_part toy_hash waiting second_part
    ≡ done (record waiting { parts = none ∷ some second_part ∷ []; count = 1 }, none)
unfolding add_part verify hash_from_byte_slices split_point leaf_hash inner_hash bytes_equal eq_ℤ
add_part_runs = refl

add_part_lem_example :
    Kept toy_hash slices waiting (add_part toy_hash waiting second_part) ⊎ Collision toy_hash
add_part_lem_example = add_part_lem toy_hash slices waiting second_part 1 waiting-Tracks refl

-- The delivery completes the set, and the block comes out.
delivery_runs :
    (receive toy_hash waiting.header (block_hash toy_hash sample_codec sample_block) delivery
      >>= gen_block toy_hash sample_codec)
    ≡ done (generated (hashed toy_hash sample_codec sample_block))
unfolding receive gen_block collect block_hash new_part_set add_part verify hash_from_byte_slices
    split_point leaf_hash inner_hash bytes_equal eq_ℤ int_to_bytes narrow ◌+ℤ◌
delivery_runs = refl
