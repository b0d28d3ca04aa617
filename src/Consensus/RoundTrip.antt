-- ===== src/Consensus/RoundTrip.antt =====
-- main.go: what a peer does with a message that a node sends as bytes.
use melete.Base.{ℕ, ◌≡◌, refl, ap, ◌∙◌, if◌then◌else◌, some, true, Bool-cases, inl, inr}
use melete.Base.Encoding.{Reads, read_message-marshal}
use melete.Base.Outcome.{done}
use melete.BitVector.{BitVector}
use melete.BitVector.Valid.{IsValid}
use melete.Convert.Laws.{InSigned}
use melete.Merkle.{HashFunction}
use melete.Block.{Codec}
use melete.PartSet.Copies.{part_to_proto, part_from_proto-part_to_proto}
use melete.Signer.{Bls}
use melete.Accepts.{CrossShardAccept}
use melete.Vote.{
  proposal_to_proto, prevote_to_proto, prevote_from_proto, precommit_to_proto, precommit_from_proto,
}
use melete.Vote.Laws.{
  Fits, AllValid, proposal_from_proto-proposal_to_proto, ballot_from_proto-ballot_to_proto,
  commit_from_proto-commit_to_proto,
}
use melete.Vote.Cross.{CrossShardProposal, accept_to_proto, commit_to_proto}
use melete.Vote.Copies.{
  cross_shard_proposal_to_proto, cross_shard_proposal_from_proto-cross_shard_proposal_to_proto,
  accept_from_proto, accept_from_proto-accept_to_proto,
}
use melete.Height.{Wire}
use melete.Consensus.{
  Node, ConsensusState, Message, part_message, proposal_message, prevote_message, precommit_message,
  cross_shard_proposal_message, cross_shard_accept_message, cross_shard_commit_message, is_i_shard,
}
use melete.Consensus.Run.{receive, accept_at_i_shard}
use melete.Consensus.Decode.{
  Protobuf, message_type, proto_bytes, on_decoded, receive_bytes, new_cross_shard_accept_from_bytes,
}

-- What the code relies on for a message: protobuf reads its copy back.
abbrev pub IsReadable : Protobuf → Message → Type 0
IsReadable p (part_message m) = Reads p.part (part_to_proto m)
IsReadable p (proposal_message m) = Reads p.proposal (proposal_to_proto m)
IsReadable p (prevote_message m) = Reads p.prevote (prevote_to_proto m)
IsReadable p (precommit_message m) = Reads p.precommit (precommit_to_proto m)
IsReadable p (cross_shard_proposal_message m) =
    Reads p.cross_shard_proposal (cross_shard_proposal_to_proto m)
IsReadable p (cross_shard_accept_message m) = Reads p.cross_shard_accept (accept_to_proto m)
IsReadable p (cross_shard_commit_message m) = Reads p.cross_shard_commit (commit_to_proto m)

pub record FitsProposal (m : CrossShardProposal) : Type 0 where
  pub bits : BitVector
  pub has_bits : m.aggregated_signatures.validator_bit_vector ≡ some bits
  pub valid : IsValid bits
  pub int8_code : InSigned 7 m.aggregated_signatures.code
  pub int32_round : InSigned 31 m.aggregated_signatures.header.round

-- The rounds, indices and codes fit the types that protobuf has for them, and the bit vectors are
-- well formed.
abbrev pub FitsProto : Message → Type 0
FitsProto (part_message m) = InSigned 31 m.round
FitsProto (proposal_message m) = InSigned 31 m.header.round × InSigned 31 m.proposer_index
FitsProto (prevote_message m) = Fits m
FitsProto (precommit_message m) = Fits m
FitsProto (cross_shard_proposal_message m) = FitsProposal m
FitsProto (cross_shard_accept_message m) = InSigned 31 m.validator_index
FitsProto (cross_shard_commit_message m) = AllValid m.validator_bit_vector_list

module _ (b : Bls) (f : HashFunction) (c : Codec) (w : Wire) (n : Node) where
  accept_at_i :
      (fuel : ℕ) (s : ConsensusState b n) (m : CrossShardAccept)
      → is_i_shard b n s ≡ true
      → receive b f c w n fuel s (cross_shard_accept_message m)
        ≡ some (done (s, some accept_at_i_shard))
  unfolding receive
  accept_at_i fuel s m at_i = rw at_i refl

  accept_read :
      (p : Protobuf) (m : CrossShardAccept)
      → IsReadable p (cross_shard_accept_message m)
      → InSigned 31 m.validator_index
      → new_cross_shard_accept_from_bytes p (p.cross_shard_accept.marshal (accept_to_proto m))
        ≡ done (some m)
  unfolding new_cross_shard_accept_from_bytes
  accept_read p m r i =
      read_message-marshal p.cross_shard_accept (λ q. done (accept_from_proto q)) _ m r
        (ap done (accept_from_proto-accept_to_proto m i))

  receive_bytes-accept :
      (p : Protobuf) (fuel : ℕ) (s : ConsensusState b n) (m : CrossShardAccept)
      → IsReadable p (cross_shard_accept_message m)
      → FitsProto (cross_shard_accept_message m)
      → receive_bytes b f c w n p fuel s
          (proto_bytes p (cross_shard_accept_message m))
          (message_type (cross_shard_accept_message m))
        ≡ receive b f c w n fuel s (cross_shard_accept_message m)
  unfolding receive_bytes proto_bytes message_type
  receive_bytes-accept p fuel s m r i = elim (Bool-cases (is_i_shard b n s)) [
    | inl at_i ↦ rw (accept_at_i fuel s m at_i) (rw at_i refl)
    | inr other ↦
        ap
          (λ at_i.
            if at_i
            then some (done (s, some accept_at_i_shard))
            else on_decoded b f c w n fuel s
                (new_cross_shard_accept_from_bytes p
                  (p.cross_shard_accept.marshal (accept_to_proto m)))
                cross_shard_accept_message)
          other
        ∙ ap (λ o. on_decoded b f c w n fuel s o cross_shard_accept_message) (accept_read p m r i)
  ]

  -- `Receive` on the bytes and the type of a message that a peer sends does what it does with the
  -- message itself, whatever its kind and the node's state. Protobuf reads the message's copy
  -- back, its rounds, indices and codes fit their types there, and its bit vectors are well formed.
  pub receive_bytes-proto_bytes :
      (p : Protobuf) (fuel : ℕ) (s : ConsensusState b n) (m : Message)
      → IsReadable p m
      → FitsProto m
      → receive_bytes b f c w n p fuel s (proto_bytes p m) (message_type m)
        ≡ receive b f c w n fuel s m
  unfolding receive_bytes proto_bytes message_type
  receive_bytes-proto_bytes p fuel s (part_message m) r i =
      ap (λ o. on_decoded b f c w n fuel s o part_message)
        (read_message-marshal p.part _ _ m r (part_from_proto-part_to_proto m i))
  receive_bytes-proto_bytes p fuel s (proposal_message m) r i =
      ap (λ o. on_decoded b f c w n fuel s o proposal_message)
        (read_message-marshal p.proposal _ _ m r (proposal_from_proto-proposal_to_proto m i.0 i.1))
  receive_bytes-proto_bytes p fuel s (prevote_message m) r i =
      ap (λ o. on_decoded b f c w n fuel s o prevote_message)
        (read_message-marshal p.prevote (λ q. done (prevote_from_proto q)) _ m r
          (ap done (ballot_from_proto-ballot_to_proto m i).0))
  receive_bytes-proto_bytes p fuel s (precommit_message m) r i =
      ap (λ o. on_decoded b f c w n fuel s o precommit_message)
        (read_message-marshal p.precommit (λ q. done (precommit_from_proto q)) _ m r
          (ap done (ballot_from_proto-ballot_to_proto m i).1))
  receive_bytes-proto_bytes p fuel s (cross_shard_proposal_message m) r i =
      ap (λ o. on_decoded b f c w n fuel s o cross_shard_proposal_message)
        (read_message-marshal p.cross_shard_proposal _ _ m r (
          cross_shard_proposal_from_proto-cross_shard_proposal_to_proto m i.bits i.has_bits i.valid
            i.int8_code i.int32_round))
  receive_bytes-proto_bytes p fuel s (cross_shard_accept_message m) r i =
      receive_bytes-accept p fuel s m r i
  receive_bytes-proto_bytes p fuel s (cross_shard_commit_message m) r i =
      ap (λ o. on_decoded b f c w n fuel s o cross_shard_commit_message)
        (read_message-marshal p.cross_shard_commit _ _ m r (commit_from_proto-commit_to_proto m i))
