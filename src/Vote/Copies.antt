-- ===== src/Vote/Copies.antt =====
-- melete/consensus/constypes/vote.go: the protobuf copies of a cross-shard proposal and of an accept.
use melete.Base.{ℕ, ◌≡◌, refl, ap, Option, some}
use melete.Base.Bytes.{Bytes}
use melete.Base.Encoding.{Encoding, read_message}
use melete.Base.Outcome.{Outcome, done, or_panic, ◌>>=◌}
use melete.BitVector.{BitVector}
use melete.BitVector.Valid.{IsValid}
use melete.Convert.Laws.{InSigned, narrow_fits}
use melete.Accepts.{CrossShardAccept}
use melete.PartSet.{PartSetHeader}
use melete.Vote.{PartSetHeaderProto, header_from_proto}
use melete.Vote.Cross.{
  PrecommitAggregated, PrecommitAggregatedProto, precommit_aggregated_to_proto,
  precommit_aggregated_from_proto, CrossShardProposal, accept_to_proto,
}
use melete.Vote.Laws.{precommit_aggregated_from_proto-precommit_aggregated_to_proto}

-- `NewPartSetHeaderFromBytes` and `NewPrecommitAggregatedFromBytes`
unfoldable pub new_part_set_header_from_bytes :
    Encoding PartSetHeaderProto → Bytes → Outcome (Option PartSetHeader)
unfolding header_from_proto
new_part_set_header_from_bytes e bz = read_message e (λ p. done (header_from_proto p)) bz

unfoldable pub new_precommit_aggregated_from_bytes :
    Encoding PrecommitAggregatedProto → Bytes → Outcome (Option PrecommitAggregated)
unfolding precommit_aggregated_from_proto
new_precommit_aggregated_from_bytes e bz = read_message e precommit_aggregated_from_proto bz

-- An aggregated vote that is missing is nil.
pub record CrossShardProposalProto : Type 0 where
  pub vote_type : ℕ
  pub aggregated_signatures : Option PrecommitAggregatedProto
  pub shard_type : ℕ

unfoldable pub cross_shard_proposal_to_proto : CrossShardProposal → CrossShardProposalProto
unfolding precommit_aggregated_to_proto
cross_shard_proposal_to_proto c = record {
  vote_type = c.vote_type;
  aggregated_signatures = some (precommit_aggregated_to_proto c.aggregated_signatures);
  shard_type = c.shard_type;
}

-- `NewCrossShardProposalFromProto`: a missing vote is read through nil.
unfoldable pub cross_shard_proposal_from_proto :
    CrossShardProposalProto → Outcome CrossShardProposal
unfolding precommit_aggregated_from_proto
cross_shard_proposal_from_proto p = or_panic p.aggregated_signatures >>= λ q.
    precommit_aggregated_from_proto q >>= λ agg.
    done
      (record { vote_type = p.vote_type; shard_type = p.shard_type; aggregated_signatures = agg })

-- `NewCrossShardAcceptFromProto`, whose message has the fields of an accept.
unfoldable pub accept_from_proto : CrossShardAccept → CrossShardAccept
accept_from_proto p = record {
  vote_type = p.vote_type;
  upper_chain_id = p.upper_chain_id;
  accept_chain_id = p.accept_chain_id;
  height = p.height;
  block_header_hash = p.block_header_hash;
  commit_status = p.commit_status;
  signature = p.signature;
  validator_index = p.validator_index;
}

-- `NewCrossShardProposalFromProto` gives a proposal back from its copy, when the bit vector of its
-- aggregated vote is well formed, the code an `int8` and the round an `int32`.
pub cross_shard_proposal_from_proto-cross_shard_proposal_to_proto :
    (c : CrossShardProposal) (bv : BitVector)
    → c.aggregated_signatures.validator_bit_vector ≡ some bv
    → IsValid bv
    → InSigned 7 c.aggregated_signatures.code
    → InSigned 31 c.aggregated_signatures.header.round
    → cross_shard_proposal_from_proto (cross_shard_proposal_to_proto c) ≡ done c
unfolding cross_shard_proposal_from_proto cross_shard_proposal_to_proto
cross_shard_proposal_from_proto-cross_shard_proposal_to_proto c bv e v code round =
    rw
      (precommit_aggregated_from_proto-precommit_aggregated_to_proto c.aggregated_signatures bv e v
        code round)
      refl

-- `NewCrossShardAcceptFromProto` gives an accept back from its copy, when its validator's index is
-- an `int32`.
pub accept_from_proto-accept_to_proto :
    (c : CrossShardAccept)
    → InSigned 31 c.validator_index
    → accept_from_proto (accept_to_proto c) ≡ c
unfolding accept_from_proto accept_to_proto
accept_from_proto-accept_to_proto c i =
    ap (λ n. record c { validator_index = n }) (narrow_fits 31 c.validator_index i)
