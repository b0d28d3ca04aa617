-- ===== src/PartSet/Sample.antt =====
-- The parts of the sample block, in tests.
use melete.Base.{ℕ, ◌≡◌, refl, List, [], ◌∷◌, none, some}
use melete.Base.Bytes.{Bytes, bytes_equal}
use melete.Base.Int.{pos}
use melete.Base.Outcome.{done}
use melete.Merkle.{
  Proof, split_point, leaf_hash, inner_hash, hash_from_byte_slices, validate_proof,
  proofs_from_byte_slices,
}
use melete.Merkle.Toy.{toy_hash}
use melete.Block.{block_hash}
use melete.Block.Copies.{Decodes, block_to_proto, proto_time}
use melete.Block.Sample.{sample_block, sample_codec}
use melete.PartSet.{Part, PartSet, part_set_from_block, new_part_set, validate_part}
use melete.PartSet.Receive.{AllValid}

-- The encoding's three bytes in slices of two.
abbrev pub slices : List Bytes
slices = (10 ∷ 20 ∷ []) ∷ (30 ∷ []) ∷ []

abbrev pub proof_of : ℕ → Bytes → Bytes → Proof
proof_of i piece other = record {
  total = pos 2;
  index = pos i;
  leaf_hash = leaf_hash toy_hash piece;
  aunts = leaf_hash toy_hash other ∷ [];
}

abbrev pub part_of : Bytes → Proof → Part
part_of piece sp = record {
  chain_id = 97 ∷ [];
  height = pos 3;
  round = pos 0;
  bytes = piece;
  proof = sp;
}

abbrev pub first_part : Part
first_part = part_of (10 ∷ 20 ∷ []) (proof_of 0 (10 ∷ 20 ∷ []) (30 ∷ []))

abbrev pub second_part : Part
second_part = part_of (30 ∷ []) (proof_of 1 (30 ∷ []) (10 ∷ 20 ∷ []))

-- Out of order, with a repetition.
abbrev pub delivery : List Part
delivery = second_part ∷ second_part ∷ first_part ∷ []

pub delivery-AllValid : AllValid delivery
unfolding validate_part validate_proof leaf_hash
delivery-AllValid = (refl, (refl, (refl, tt)))

pub sample-Decodes : Decodes sample_codec sample_block
unfolding bytes_equal block_to_proto proto_time
sample-Decodes = refl

abbrev pub sent_set : PartSet
sent_set = record {
  header = record {
    height = pos 3;
    round = pos 0;
    total = pos 2;
    root = hash_from_byte_slices toy_hash slices;
    chain_id = 97 ∷ [];
  };
  parts = some first_part ∷ some second_part ∷ [];
  count = 2;
  block_header_hash = block_hash toy_hash sample_codec sample_block;
}

pub part_set_from_block_runs :
    part_set_from_block toy_hash sample_codec sample_block 2 (pos 0) ≡ some sent_set
unfolding part_set_from_block hash_from_byte_slices leaf_hash inner_hash proofs_from_byte_slices
    split_point
part_set_from_block_runs = refl

-- What a receiver of the set's header starts from.
abbrev pub fresh_set : PartSet
fresh_set = record {
  header = sent_set.header;
  parts = none ∷ none ∷ [];
  count = 0;
  block_header_hash = sent_set.block_header_hash;
}

pub new_part_set_runs : new_part_set sent_set.header sent_set.block_header_hash ≡ done fresh_set
unfolding new_part_set
new_part_set_runs = refl
