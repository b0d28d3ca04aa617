-- ===== src/Vote/Laws.antt =====
-- The protobuf copies of the messages.
use melete.Base.{◌≡◌, refl, ap, ap₂, ◌∙◌, List, [], ◌∷◌, map, Option, none, some}
use melete.Base.Outcome.{done}
use melete.BitVector.{BitVector, to_bytes, from_bytes}
use melete.BitVector.Valid.{IsValid}
use melete.BitVector.Coding.{from_bytes-to_bytes}
use melete.Convert.{narrow}
use melete.Convert.Laws.{InSigned, narrow_fits}
use melete.PartSet.{PartSetHeader}
use melete.Vote.{
  Proposal, Ballot, header_to_proto, header_from_proto, proposal_to_proto, proposal_from_proto,
  prevote_to_proto, prevote_from_proto, precommit_to_proto, precommit_from_proto,
}
use melete.Vote.Cross.{
  PrecommitAggregated, precommit_aggregated_to_proto, precommit_aggregated_from_proto,
  CrossShardCommit, commit_to_proto, commit_from_proto, read_bit_vectors,
}

header_round : (p : PartSetHeader) → InSigned 31 p.round → header_from_proto (header_to_proto p) ≡ p
unfolding header_from_proto header_to_proto
header_round p r = ap (λ n. record p { round = n }) (narrow_fits 31 p.round r)

-- `NewProposalFromProto` gives a proposal back from its copy, when its round and its proposer's
-- index are `int32`s.
pub proposal_from_proto-proposal_to_proto :
    (p : Proposal)
    → InSigned 31 p.header.round
    → InSigned 31 p.proposer_index
    → proposal_from_proto (proposal_to_proto p) ≡ done p
unfolding proposal_from_proto proposal_to_proto
proposal_from_proto-proposal_to_proto p r i =
    ap₂ (λ header n. done (record p { header = header; proposer_index = n }))
      (header_round p.header r) (narrow_fits 31 p.proposer_index i)

-- The fields of a vote that fit the protobuf copy.
pub record Fits (p : Ballot) : Type 0 where
  pub int8_code : InSigned 7 p.code
  pub int32_round : InSigned 31 p.round
  pub int32_index : InSigned 31 p.validator_index

ballot_round :
    (p : Ballot)
    → Fits p
    → record p {
      code = narrow 8 p.code;
      round = narrow 32 p.round;
      validator_index = narrow 32 p.validator_index;
    }
      ≡ p
ballot_round p f =
    ap₂ (λ c r. record p { code = c; round = r; validator_index = narrow 32 p.validator_index })
      (narrow_fits 7 p.code f.int8_code) (narrow_fits 31 p.round f.int32_round)
    ∙ ap (λ n. record p { validator_index = n }) (narrow_fits 31 p.validator_index f.int32_index)

-- `NewPrevoteFromProto` and `NewPrecommitFromProto` give votes back from their copies, when the
-- fields fit.
pub ballot_from_proto-ballot_to_proto :
    (p : Ballot)
    → Fits p
    → (prevote_from_proto (prevote_to_proto p) ≡ p)
      × (precommit_from_proto (precommit_to_proto p) ≡ p)
unfolding prevote_from_proto prevote_to_proto precommit_from_proto precommit_to_proto
ballot_from_proto-ballot_to_proto p f = (ballot_round p f, ballot_round p f)

-- `NewPrecommitAggregatedFromProto` gives an aggregated vote back from its copy, when its bit vector
-- is well formed, its code an `int8` and its round an `int32`.
pub precommit_aggregated_from_proto-precommit_aggregated_to_proto :
    (p : PrecommitAggregated) (bv : BitVector)
    → p.validator_bit_vector ≡ some bv
    → IsValid bv
    → InSigned 7 p.code
    → InSigned 31 p.header.round
    → precommit_aggregated_from_proto (precommit_aggregated_to_proto p) ≡ done p
unfolding precommit_aggregated_from_proto precommit_aggregated_to_proto
precommit_aggregated_from_proto-precommit_aggregated_to_proto p bv e v c r =
    let read : from_bytes (to_bytes p.validator_bit_vector) ≡ done p.validator_bit_vector =
      rw e (from_bytes-to_bytes bv v) in
    rw read (
      ap₂ (λ code header. done (record p { code = code; header = header })) (narrow_fits 7 p.code c)
        (header_round p.header r))

abbrev pub AllValid : List (Option BitVector) → Type 0
AllValid [] = Unit {0}
AllValid (none ∷ bvs) = ⊥
AllValid (some bv ∷ bvs) = IsValid bv × AllValid bvs

read_bit_vectors-map :
    (bvs : List (Option BitVector)) → AllValid bvs → read_bit_vectors (map to_bytes bvs) ≡ done bvs
unfolding read_bit_vectors
read_bit_vectors-map [] v = refl
read_bit_vectors-map (none ∷ bvs) v = absurd v
read_bit_vectors-map (some bv ∷ bvs) v =
    rw (from_bytes-to_bytes bv v.0) (rw (read_bit_vectors-map bvs v.1) refl)

-- `NewCrossShardCommitFromProto` gives a commit back from its copy, when its bit vectors are well
-- formed.
pub commit_from_proto-commit_to_proto :
    (c : CrossShardCommit)
    → AllValid c.validator_bit_vector_list
    → commit_from_proto (commit_to_proto c) ≡ done c
unfolding commit_from_proto commit_to_proto
commit_from_proto-commit_to_proto c v = rw (read_bit_vectors-map c.validator_bit_vector_list v) refl
