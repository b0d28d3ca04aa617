-- ===== src/Height.antt =====
-- melete/consensus/height_datas.go: what a node keeps for one height, and the messages it takes.
pub mod Step
pub mod Receive
pub mod Cross
pub mod Next
pub mod Keeps
pub mod Still
pub mod Tallied
pub mod Cast
pub mod Recount
pub mod Advance
pub mod Reached
pub mod Frame
pub mod Collecting
pub mod Gathered
pub mod Blocks
pub mod Proposed
pub mod Finished
pub mod Sample
mod Tests
use melete.Base.{
  ℕ, zero, suc, ◌++◌, List, [], ◌∷◌, map, replicate, set, Option, none, some, Bool, true, false,
  not, ◌&&◌, ◌||◌, if◌then◌else◌, length, get_elem?, ltb, leb, ◌==◌,
}
use mathlib.Core.Option
use melete.Base.Bytes.{Bytes, Text, bytes_equal}
use melete.Base.Int.{ℤ, pos, negsuc, ltb_ℤ, leb_ℤ, eq_ℤ, ◌+ℤ◌, div_ℤ}
use melete.Base.Outcome.{Outcome, done, panic, or_panic, ◌>>=◌}
use melete.Base.Table.{Table, lookup, insert, bytes_eq}
use melete.BitVector.{BitVector, new_bit_vector, get_index, set_index}
use melete.Block.{Block}
use melete.PartSet.{Part, PartSet, PartError, GenError}
use melete.Signer.{Bls, Verifier, verifier_size, verify_signature}
use melete.Accepts.{Peer, CrossShardAccept, CsaShardSet, CsaError, vote_at}
use melete.Vote.{Proposal, Ballot, ProposalProto}
use melete.Vote.Cross.{CrossShardProposal, CrossShardCommit, CommitError}

-- `ShardInfo` of melete/shardinfo/shardinfo.go, but for the key ranges.
pub record ShardInfo : Type 0 where
  pub peer_list : Table Text (List Peer)
  pub related_shards : Table Text Bool
  pub related_2_level_shards : Table Text Bool
  pub peer_related_map : Table Text (List Text)
  pub shard_identity : ℤ

-- The protobuf encodings, which are not in the repository.
pub record Wire : Type 0 where
  pub encode_proposal : ProposalProto → Bytes
  pub encode_prevote : Ballot → Bytes
  pub encode_precommit : Ballot → Bytes
  pub encode_accept : CrossShardAccept → Bytes

pub data HeightError : Type 0 where
  do_nothing wrong_proposer wrong_chain bad_signature index_out_of_range : HeightError
  too_few_votes wrong_upper not_related not_lower wrong_chain_list : HeightError
  part_error : PartError → HeightError
  gen_error : GenError → HeightError
  csa_error : CsaError → HeightError
  commit_error : CommitError → HeightError

-- The three fields of the prevotes (`Prevotes`, `PrevotesBitVector`, `PrevotesTotal`), and those of
-- the precommits.
pub record Tally : Type 0 where
  pub ballots : List (Option Ballot)
  pub bits : Option BitVector
  pub total : ℤ

module _ (b : Bls) where
  pub record HeightData : Type 0 where
    pub height : ℤ
    pub round : ℤ
    pub my_chain_id : Text
    pub pass_step : ℕ
    pub shard_info : ShardInfo
    pub shard_votes : Table Text ℤ
    pub all_validator_set : Table Text (Verifier b)
    pub proposal : Option Proposal
    pub prevotes : Tally
    pub precommits : Tally
    pub cross_shard_proposals : Table Text CrossShardProposal
    pub cross_shard_accepts : Table Text (CsaShardSet b)
    pub cross_shard_accept_finish_counter : ℕ
    pub cross_shard_commits : Table Text CrossShardCommit
    pub cross_shard_part_sets : Table Text PartSet
    pub cross_shard_blocks : Table Text Block
    pub random_header_buffer : Table Text (List Part)

-- `clearPrevote` and `clearPrecommit`
unfoldable pub new_tally : ℕ → Tally
new_tally size = record {
  ballots = replicate size none;
  bits = new_bit_vector (pos size);
  total = pos 0;
}

-- The peers of a shard; a missing shard has none.
abbrev pub peers_of : ShardInfo → Text → List Peer
peers_of s chain_id = Option.get_or (lookup chain_id s.peer_list) []

-- Writing a slot of a slice, which panics out of range.
unfoldable pub put_ballot : List (Option Ballot) → ℤ → Ballot → Outcome (List (Option Ballot))
put_ballot bs (negsuc n) p = panic
put_ballot bs (pos i) p = if ltb i (length bs) then done (set bs i (some p)) else panic

-- A vote for the proposal: its bit is set and its power added.
unfoldable pub count_ballot : List Peer → Tally → ℤ → Outcome Tally
count_ballot peers t index = set_index t.bits index true >>= λ r.
    vote_at peers index >>= λ vote. done (record t { bits = r.0; total = t.total +ℤ vote })

-- Whether a vote is for the proposal's block.
unfoldable pub is_for : Option Proposal → Ballot → Bool
is_for none p = false
is_for (some q) p = bytes_equal q.block_header_hash p.block_header_hash

module _ (b : Bls) (encode : Ballot → Bytes) where
  -- The end of `AddPrevote` and `AddPrecommit`: the vote is stored, and counted when it is for the
  -- proposal.
  unfoldable pub store_ballot : HeightData b → Tally → Ballot → Outcome (Tally × Option HeightError)
  unfolding count_ballot is_for put_ballot
  store_ballot h t p = put_ballot t.ballots p.validator_index p >>= λ bs.
      (if is_for h.proposal p
        then count_ballot (peers_of h.shard_info h.my_chain_id) (record t { ballots = bs })
            p.validator_index
        else done (record t { ballots = bs }))
      >>= λ counted. done (counted, none)

  -- `AddPrevote` and `AddPrecommit`, which have one text over their own fields. `encode` gives the
  -- bytes that are signed.
  unfoldable pub add_ballot : HeightData b → Tally → Ballot → Outcome (Tally × Option HeightError)
  unfolding store_ballot
  add_ballot h t p = get_index t.bits p.validator_index >>= λ seen.
      if seen
      then done (t, some do_nothing)
      else if not (eq_ℤ h.height p.height) || not (eq_ℤ h.round p.round)
      then done (t, some do_nothing)
      else or_panic (lookup h.my_chain_id h.all_validator_set) >>= λ v.
          if ltb_ℤ p.validator_index (pos 0) || leb_ℤ (pos (verifier_size b v)) p.validator_index
          then done (t, some index_out_of_range)
          else verify_signature b v p.signature (encode p) p.validator_index >>= λ ok.
              if not ok then done (t, some bad_signature) else store_ballot h t p

-- `reCalculatePrevotes` and `reCalculatePrecommits` for a proposal: the loop over the stored votes
-- from index `i` on.
unfoldable pub recount : List Peer → Proposal → ℕ → List (Option Ballot) → Tally → Outcome Tally
unfolding count_ballot is_for
recount peers q i [] t = done t
recount peers q i (none ∷ bs) t = recount peers q (suc i) bs t
recount peers q i (some p ∷ bs) t =
    (if is_for (some q) p then count_ballot peers t (pos i) else done t) >>= λ u.
    recount peers q (suc i) bs u
