-- ===== src/Vote.antt =====
-- melete/consensus/constypes/vote.go: proposals, votes and aggregated votes of a shard, with their
-- protobuf copies.
pub mod Cross
pub mod Laws
pub mod Commit
pub mod Copies
mod Tests
use melete.Base.{
  ℕ, List, [], ◌∷◌, Option, none, some, Bool, true, false, not, if◌then◌else◌, length, ◌==◌,
}
use melete.Base.Bytes.{Bytes, Text}
use melete.Base.Int.{ℤ, pos, negsuc, ltb_ℤ, eq_ℤ}
use melete.Base.Outcome.{Outcome, done, panic, or_panic, ◌>>=◌}
use melete.BitVector.{BitVector, to_bytes, from_bytes}
use melete.Convert.{narrow}
use melete.Merkle.{hash_size}
use melete.PartSet.{PartSetHeader, PartError, validate_header}
use melete.Signer.{Bls, Verifier, verify_aggregate}

-- The `VoteType` constants, by `iota`.
abbrev pub vote_type_proposal : ℕ
vote_type_proposal = 1

abbrev pub vote_type_prevote : ℕ
vote_type_prevote = 2

abbrev pub vote_type_precommit : ℕ
vote_type_precommit = 3

abbrev pub vote_type_precommit_aggregated : ℕ
vote_type_precommit_aggregated = 4

-- `CodeTypeOK` and `CodeTypeAbort` of melete/types/abci-resp.go.
abbrev pub code_type_ok : ℤ
code_type_ok = pos 1

abbrev pub code_type_abort : ℤ
code_type_abort = pos 3

pub data VoteError : Type 0 where
  wrong_vote_type negative_index not_a_hash no_bit_vector wrong_shard_type : VoteError
  bad_header : PartError → VoteError

-- The protobuf copy of a part set's header: the round is an `int32`.
pub record PartSetHeaderProto : Type 0 where
  pub total : ℤ
  pub root : Bytes
  pub height : ℤ
  pub round : ℤ
  pub chain_id : Text

-- `PartSetHeader.ToProto` and `NewPartSetHeaderFromProto`
unfoldable pub header_to_proto : PartSetHeader → PartSetHeaderProto
header_to_proto p = record {
  total = p.total;
  root = p.root;
  height = p.height;
  round = narrow 32 p.round;
  chain_id = p.chain_id;
}

unfoldable pub header_from_proto : PartSetHeaderProto → PartSetHeader
header_from_proto p = record {
  height = p.height;
  round = p.round;
  total = p.total;
  root = p.root;
  chain_id = p.chain_id;
}

pub record Proposal : Type 0 where
  pub vote_type : ℕ
  pub header : PartSetHeader
  pub proposer_index : ℤ
  pub block_header_hash : Bytes
  pub signature : Text

-- A message that is missing in protobuf is nil.
pub record ProposalProto : Type 0 where
  pub vote_type : ℕ
  pub header : Option PartSetHeaderProto
  pub proposer_index : ℤ
  pub block_header_hash : Bytes
  pub signature : Text

unfoldable pub new_proposal : PartSetHeader → ℤ → Bytes → Proposal
new_proposal header proposer_index block_header_hash = record {
  vote_type = vote_type_proposal;
  header = header;
  proposer_index = proposer_index;
  block_header_hash = block_header_hash;
  signature = [];
}

unfoldable pub proposal_to_proto : Proposal → ProposalProto
unfolding header_to_proto
proposal_to_proto p = record {
  vote_type = p.vote_type;
  header = some (header_to_proto p.header);
  proposer_index = narrow 32 p.proposer_index;
  block_header_hash = p.block_header_hash;
  signature = p.signature;
}

-- What `Proposal.SignBytes` encodes.
unfoldable pub proposal_sign_proto : Proposal → ProposalProto
unfolding proposal_to_proto
proposal_sign_proto p = record (proposal_to_proto p) { signature = [] }

-- `NewProposalFromProto`: a missing header is read through nil.
unfoldable pub proposal_from_proto : ProposalProto → Outcome Proposal
unfolding header_from_proto
proposal_from_proto p = or_panic p.header >>= λ header. done (record {
  vote_type = p.vote_type;
  header = header_from_proto header;
  proposer_index = p.proposer_index;
  block_header_hash = p.block_header_hash;
  signature = p.signature;
})

abbrev header_error : Option PartError → Option VoteError
header_error none = none
header_error (some e) = some (bad_header e)

-- `Proposal.ValidateBasic`
unfoldable pub validate_proposal : Proposal → Option VoteError
validate_proposal p =
    if not (p.vote_type == vote_type_proposal)
    then some wrong_vote_type
    else if ltb_ℤ p.proposer_index (pos 0)
    then some negative_index
    else if not (length p.block_header_hash == hash_size)
    then some not_a_hash
    else header_error (validate_header p.header)

-- `Prevote` and `Precommit` are two Go types with the same fields.
pub record Ballot : Type 0 where
  pub vote_type : ℕ
  pub code : ℤ
  pub height : ℤ
  pub round : ℤ
  pub block_header_hash : Bytes
  pub signature : Text
  pub validator_index : ℤ

abbrev pub Prevote : Type 0
Prevote = Ballot

abbrev pub Precommit : Type 0
Precommit = Ballot

abbrev pub is_ok : Ballot → Bool
is_ok p = eq_ℤ p.code code_type_ok

abbrev pub set_ok : Ballot → Bool → Ballot
set_ok p ok = record p { code = if ok then code_type_ok else code_type_abort }

-- `ValidateBasic` of the two types.
abbrev validate_ballot : ℕ → Ballot → Option VoteError
validate_ballot t p =
    if not (p.vote_type == t)
    then some wrong_vote_type
    else if not (length p.block_header_hash == hash_size)
    then some not_a_hash
    else none

unfoldable pub validate_prevote : Prevote → Option VoteError
validate_prevote p = validate_ballot vote_type_prevote p

unfoldable pub validate_precommit : Precommit → Option VoteError
validate_precommit p = validate_ballot vote_type_precommit p

abbrev new_ballot : ℕ → ℤ → ℤ → Bytes → ℤ → Ballot
new_ballot t height round block_header_hash validator_index = record {
  vote_type = t;
  code = code_type_ok;
  height = height;
  round = round;
  block_header_hash = block_header_hash;
  signature = [];
  validator_index = validator_index;
}

unfoldable pub new_prevote : ℤ → ℤ → Bytes → ℤ → Prevote
new_prevote height round hash index = new_ballot vote_type_prevote height round hash index

unfoldable pub new_precommit : ℤ → ℤ → Bytes → ℤ → Precommit
new_precommit height round hash index = new_ballot vote_type_precommit height round hash index

-- The protobuf copies: code, round and index are `int32`. They have the fields of a `Ballot`.
unfoldable pub prevote_to_proto : Prevote → Ballot
prevote_to_proto p = record p {
  round = narrow 32 p.round;
  validator_index = narrow 32 p.validator_index;
}

unfoldable pub precommit_to_proto : Precommit → Ballot
precommit_to_proto p = record p {
  round = narrow 32 p.round;
  validator_index = narrow 32 p.validator_index;
}

-- What `SignBytes` encodes: not the signature, and -1 for the validator.
unfoldable pub prevote_sign_proto : Prevote → Ballot
prevote_sign_proto p = record p {
  round = narrow 32 p.round;
  signature = [];
  validator_index = negsuc 0;
}

unfoldable pub precommit_sign_proto : Precommit → Ballot
precommit_sign_proto p = record p {
  round = narrow 32 p.round;
  signature = [];
  validator_index = negsuc 0;
}

unfoldable pub prevote_from_proto : Ballot → Prevote
prevote_from_proto p = record p { code = narrow 8 p.code }

unfoldable pub precommit_from_proto : Ballot → Precommit
precommit_from_proto p = record p { code = narrow 8 p.code }
