-- ===== src/Consensus/Decode.antt =====
-- main.go with melete/definition/message.go: messages as bytes, which `Receive` decodes by their
-- type.
use melete.Base.{ℕ, Option, none, some, if◌then◌else◌, ◌==◌}
use melete.Base.Bytes.{Bytes}
use melete.Base.Encoding.{Encoding, read_message}
use melete.Base.Outcome.{Outcome, done, panic}
use melete.Merkle.{HashFunction}
use melete.Block.{Codec}
use melete.PartSet.{Part}
use melete.PartSet.Copies.{PartProto, part_to_proto, part_from_proto}
use melete.Signer.{Bls}
use melete.Accepts.{CrossShardAccept}
use melete.Vote.{
  Proposal, ProposalProto, proposal_to_proto, proposal_from_proto, Ballot, Prevote, Precommit,
  prevote_to_proto, prevote_from_proto, precommit_to_proto, precommit_from_proto,
}
use melete.Vote.Cross.{
  CrossShardProposal, CrossShardCommit, CrossShardCommitProto, accept_to_proto, commit_to_proto,
  commit_from_proto,
}
use melete.Vote.Copies.{
  CrossShardProposalProto, cross_shard_proposal_to_proto, cross_shard_proposal_from_proto,
  accept_from_proto,
}
use melete.Height.{Wire}
use melete.Consensus.{
  Node, ConsensusState, Message, part_message, proposal_message, prevote_message, precommit_message,
  cross_shard_proposal_message, cross_shard_accept_message, cross_shard_commit_message, is_i_shard,
}
use melete.Consensus.Run.{ReceiveError, accept_at_i_shard, unmarshal_error, unknown_type, receive}

-- An encoding for each kind of message.
pub record Protobuf : Type 0 where
  pub part : Encoding PartProto
  pub proposal : Encoding ProposalProto
  pub prevote : Encoding Ballot
  pub precommit : Encoding Ballot
  pub cross_shard_proposal : Encoding CrossShardProposalProto
  pub cross_shard_accept : Encoding CrossShardAccept
  pub cross_shard_commit : Encoding CrossShardCommitProto

-- The constants of message.go.
abbrev pub type_part : ℕ
type_part = 1

abbrev pub type_proposal : ℕ
type_proposal = 4

abbrev pub type_prevote : ℕ
type_prevote = 5

abbrev pub type_precommit : ℕ
type_precommit = 6

abbrev pub type_cross_shard_proposal : ℕ
type_cross_shard_proposal = 7

abbrev pub type_cross_shard_accept : ℕ
type_cross_shard_accept = 8

abbrev pub type_cross_shard_commit : ℕ
type_cross_shard_commit = 9

-- The type that a message is sent with.
unfoldable pub message_type : Message → ℕ
message_type (part_message m) = type_part
message_type (proposal_message m) = type_proposal
message_type (prevote_message m) = type_prevote
message_type (precommit_message m) = type_precommit
message_type (cross_shard_proposal_message m) = type_cross_shard_proposal
message_type (cross_shard_accept_message m) = type_cross_shard_accept
message_type (cross_shard_commit_message m) = type_cross_shard_commit

-- `ProtoBytes` of each kind of message.
unfoldable pub proto_bytes : Protobuf → Message → Bytes
unfolding part_to_proto proposal_to_proto prevote_to_proto precommit_to_proto
    cross_shard_proposal_to_proto accept_to_proto commit_to_proto
proto_bytes p (part_message m) = p.part.marshal (part_to_proto m)
proto_bytes p (proposal_message m) = p.proposal.marshal (proposal_to_proto m)
proto_bytes p (prevote_message m) = p.prevote.marshal (prevote_to_proto m)
proto_bytes p (precommit_message m) = p.precommit.marshal (precommit_to_proto m)
proto_bytes p (cross_shard_proposal_message m) =
    p.cross_shard_proposal.marshal (cross_shard_proposal_to_proto m)
proto_bytes p (cross_shard_accept_message m) = p.cross_shard_accept.marshal (accept_to_proto m)
proto_bytes p (cross_shard_commit_message m) = p.cross_shard_commit.marshal (commit_to_proto m)

module _ (p : Protobuf) where
  unfoldable pub new_part_from_bytes : Bytes → Outcome (Option Part)
  unfolding part_from_proto
  new_part_from_bytes bz = read_message p.part part_from_proto bz

  unfoldable pub new_proposal_from_bytes : Bytes → Outcome (Option Proposal)
  unfolding proposal_from_proto
  new_proposal_from_bytes bz = read_message p.proposal proposal_from_proto bz

  unfoldable pub new_prevote_from_bytes : Bytes → Outcome (Option Prevote)
  unfolding prevote_from_proto
  new_prevote_from_bytes bz = read_message p.prevote (λ q. done (prevote_from_proto q)) bz

  unfoldable pub new_precommit_from_bytes : Bytes → Outcome (Option Precommit)
  unfolding precommit_from_proto
  new_precommit_from_bytes bz = read_message p.precommit (λ q. done (precommit_from_proto q)) bz

  unfoldable pub new_cross_shard_proposal_from_bytes : Bytes → Outcome (Option CrossShardProposal)
  unfolding cross_shard_proposal_from_proto
  new_cross_shard_proposal_from_bytes bz =
      read_message p.cross_shard_proposal cross_shard_proposal_from_proto bz

  unfoldable pub new_cross_shard_accept_from_bytes : Bytes → Outcome (Option CrossShardAccept)
  unfolding accept_from_proto
  new_cross_shard_accept_from_bytes bz =
      read_message p.cross_shard_accept (λ q. done (accept_from_proto q)) bz

  unfoldable pub new_cross_shard_commit_from_bytes : Bytes → Outcome (Option CrossShardCommit)
  unfolding commit_from_proto
  new_cross_shard_commit_from_bytes bz = read_message p.cross_shard_commit commit_from_proto bz

module _ (b : Bls) (f : HashFunction) (c : Codec) (w : Wire) (n : Node) where
  abbrev pub Answer : Type 0
  Answer = Option (Outcome (ConsensusState b n × Option (ReceiveError b f c w n)))

  -- A branch of `Receive`, from the message that was decoded on.
  abbrev pub on_decoded :
      {M : Type 0} → ℕ → ConsensusState b n → Outcome (Option M) → (M → Message) → Answer
  on_decoded fuel s panic wrap = some panic
  on_decoded fuel s (done none) wrap = some (done (s, some unmarshal_error))
  on_decoded fuel s (done (some m)) wrap = receive b f c w n fuel s (wrap m)

  -- `Receive`
  unfoldable pub receive_bytes : Protobuf → ℕ → ConsensusState b n → Bytes → ℕ → Answer
  unfolding receive new_part_from_bytes new_proposal_from_bytes new_prevote_from_bytes
      new_precommit_from_bytes new_cross_shard_proposal_from_bytes new_cross_shard_accept_from_bytes
      new_cross_shard_commit_from_bytes
  receive_bytes p fuel s bz type =
      if type == type_part
      then on_decoded fuel s (new_part_from_bytes p bz) part_message
      else if type == type_proposal
      then on_decoded fuel s (new_proposal_from_bytes p bz) proposal_message
      else if type == type_prevote
      then on_decoded fuel s (new_prevote_from_bytes p bz) prevote_message
      else if type == type_precommit
      then on_decoded fuel s (new_precommit_from_bytes p bz) precommit_message
      else if type == type_cross_shard_proposal
      then on_decoded fuel s (new_cross_shard_proposal_from_bytes p bz) cross_shard_proposal_message
      else if type == type_cross_shard_accept
      then (if is_i_shard b n s
          then some (done (s, some accept_at_i_shard))
          else on_decoded fuel s (new_cross_shard_accept_from_bytes p bz)
              cross_shard_accept_message)
      else if type == type_cross_shard_commit
      then on_decoded fuel s (new_cross_shard_commit_from_bytes p bz) cross_shard_commit_message
      else some (done (s, some unknown_type))
