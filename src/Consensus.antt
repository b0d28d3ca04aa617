-- ===== src/Consensus.antt =====
-- melete/consensus/main.go: a node's consensus on one height after the other.
pub mod Create
pub mod Ballots
pub mod Cross
pub mod Run
pub mod Life
pub mod Decode
pub mod RoundTrip
pub mod Turn
pub mod Relay
pub mod Moment
pub mod Begin
pub mod Acts
pub mod Ends
pub mod Invariant
pub mod Crash
pub mod Quorum
mod Tests
pub mod Statuses
use melete.Base.{
  ℕ, zero, suc, ◌+◌, ◌%◌, ◌++◌, List, [], ◌∷◌, map, Option, none, some, Bool, true, false, not,
  ◌&&◌, ◌||◌, if◌then◌else◌, ◌==◌,
}
use mathlib.Core.Option
use melete.Base.Bytes.{Bytes, Text}
use melete.Base.Int.{ℤ, pos, negsuc, ◌+ℤ◌, ltb_ℤ, eq_ℤ, sub_ℕ}
use melete.Base.Outcome.{Outcome, done, panic, or_panic, ◌>>=◌}
use melete.Base.Table.{Table, lookup, insert, delete, bytes_eq, int_eq}
use melete.BitVector.{BitVector}
use melete.Tx.{Txs}
use melete.Block.{Block}
use melete.PartSet.{Part}
use melete.Signer.{Bls, verifier_size}
use melete.Accepts.{CrossShardAccept}
use melete.Vote.{Proposal, Ballot}
use melete.Vote.Cross.{CrossShardProposal, CrossShardCommit}
use melete.Height.{HeightData}
use melete.Height.Step.{round_step_new_height, round_step_cross_shard_commit}

pub data Message : Type 0 where
  part_message : Part → Message
  proposal_message : Proposal → Message
  prevote_message precommit_message : Ballot → Message
  cross_shard_proposal_message : CrossShardProposal → Message
  cross_shard_accept_message : CrossShardAccept → Message
  cross_shard_commit_message : CrossShardCommit → Message

-- The answer of `Execution`: the receipts of each shard's transactions, encoded.
pub record Receipts : Type 0 where
  pub cross_shard_resps : Table Text (List Bytes)
  pub inner_shard_resps : Table Text (List Bytes)

-- What a node runs on: the application (`ABCIConn`), the mempools (`MempoolConn`), the signer, the
-- options, and the clock as it stands during a call. `pre_execution_c` answers the block as it
-- leaves it, and whether the code of its response is OK.
pub record Node : Type 1 where
  pub App : Type 0
  pub pre_execution_c : App → Block → Outcome (App × Block × Bool × List Bytes)
  pub pre_execution_i : App → List Block → Outcome (App × List Bytes)
  pub execution : App → List Block → List (Option BitVector) → List Block → Outcome (App × Receipts)
  pub commit : App → App × Bytes
  pub Mempool : Type 0
  pub reap_tx : Mempool → ℤ → Option (Txs × ℕ)
  pub update : Mempool → Txs → Bytes → Outcome Mempool
  pub sign : Bytes → Text
  pub signer_index : ℤ
  pub min_block_interval : ℤ
  pub max_part_size : ℕ
  pub max_block_tx_num : ℕ
  pub now : ℤ

-- A message for the peers of a shard.
pub record Sent : Type 0 where
  pub shard : Text
  pub message : Message

module _ (b : Bls) (n : Node) where
  -- What is sent, and what is stored by height and shard, is kept as a list; messages that the code
  -- sends at once stand in one of their orders.
  pub record ConsensusState : Type 0 where
    pub height : ℤ
    pub round : ℤ
    pub step : ℕ
    pub mempool : n.Mempool
    pub cross_shard_mempool : n.Mempool
    pub app : n.App
    pub height_datas : HeightData b
    pub relay_message_channel : Table ℤ (Table ℤ (List Message))
    pub last_block_time : ℤ
    pub last_block_hash : Bytes
    pub last_chained_hash : List Bytes
    pub last_related_commit_status : List Bytes
    pub last_commit_status : Bytes
    pub last_receipt_root : Bytes
    pub last_state_root : Bytes
    pub block_hash : Bytes
    pub chained_hash : List Bytes
    pub related_commit_status : List Bytes
    pub commit_status : Bytes
    pub sent : List Sent
    pub stored : List (ℤ × Text × Block)

  abbrev pub chain_of : ConsensusState → Text
  chain_of s = s.height_datas.my_chain_id

  -- `BLOCKTYPE_I` and `BLOCKTYPE_C`
  abbrev pub is_i_shard : ConsensusState → Bool
  is_i_shard s = eq_ℤ s.height_datas.shard_info.shard_identity (pos 1)

  abbrev pub is_c_shard : ConsensusState → Bool
  is_c_shard s = eq_ℤ s.height_datas.shard_info.shard_identity (pos 2)

  -- The messages that wait for a round of a height.
  abbrev pub relayed : ConsensusState → ℤ → ℤ → List Message
  relayed s height round =
      Option.get_or (lookup round (Option.get_or (lookup height s.relay_message_channel) [])) []

  abbrev pub is_over_time : ConsensusState → ℤ → ℤ → Bool
  is_over_time s height round =
      ltb_ℤ s.height height || (eq_ℤ s.height height && ltb_ℤ s.round round)

  abbrev pub with_relay : ConsensusState → ℤ → Table ℤ (List Message) → ConsensusState
  with_relay s height u = record s {
    relay_message_channel = insert height u s.relay_message_channel;
  }

  -- `addRelayMessageIfOverTime`: the first message of a height is stored with the answer false.
  unfoldable pub add_relay_message_if_over_time :
      ConsensusState → ℤ → ℤ → Message → ConsensusState × Bool
  add_relay_message_if_over_time s height round msg =
      if not (is_over_time s height round)
      then (s, false)
      else elim (lookup height s.relay_message_channel) [
        | some u ↦ (
          with_relay s height (insert round (Option.get_or (lookup round u) [] ++ (msg ∷ [])) u),
          true,
        )
        | none ↦ (with_relay s height ((round, msg ∷ []) ∷ []), false)
      ]

  -- `Next`
  unfoldable pub next : ConsensusState → ConsensusState
  next s =
      if s.step == round_step_cross_shard_commit
      then record s {
        relay_message_channel = delete s.height s.relay_message_channel;
        round = pos 0;
        height = s.height +ℤ pos 1;
        step = round_step_new_height;
      }
      else record s { step = s.step + 1 }

  -- Go's `%`: the sign is the dividend's, and 0 panics.
  abbrev pub mod_ℤ : ℤ → ℕ → Outcome ℤ
  mod_ℤ a zero = panic
  mod_ℤ (pos a) (suc d) = done (pos (a % suc d))
  mod_ℤ (negsuc a) (suc d) = done (sub_ℕ 0 (suc a % suc d))

  -- `calculateProposer`; a shard without validators panics.
  unfoldable pub calculate_proposer : ConsensusState → Outcome ℤ
  calculate_proposer s = or_panic (lookup (chain_of s) s.height_datas.all_validator_set) >>= λ v.
      mod_ℤ (s.height +ℤ s.round) (verifier_size b v)

  -- `isProposer`
  abbrev pub is_proposer : ConsensusState → Outcome Bool
  is_proposer s = calculate_proposer s >>= λ i. done (eq_ℤ i n.signer_index)

  -- `SendTo` and `SendInternal`
  abbrev pub send_to : ConsensusState → Text → Message → ConsensusState
  send_to s shard msg = record s { sent = s.sent ++ (record { shard = shard; message = msg } ∷ []) }

  abbrev pub send_internal : ConsensusState → Message → ConsensusState
  send_internal s msg = send_to s (chain_of s) msg

  -- `SendToRelatedShards` and `SendTo2LevelRelatedShards`: the loop over the shards.
  unfoldable pub send_to_shards : Table Text Bool → ConsensusState → Message → ConsensusState
  send_to_shards [] s msg = s
  send_to_shards ((shard, related) ∷ rest) s msg = send_to_shards rest (send_to s shard msg) msg

  abbrev pub with_datas : ConsensusState → HeightData b → ConsensusState
  with_datas s h = record s { height_datas = h }

  -- A block that a method has changed, which the map shares.
  abbrev pub put_block : ConsensusState → Text → Block → ConsensusState
  put_block s shard block = with_datas s (record s.height_datas {
    cross_shard_blocks = insert shard block s.height_datas.cross_shard_blocks;
  })

  abbrev pub block_of : ConsensusState → Text → Outcome Block
  block_of s shard = or_panic (lookup shard s.height_datas.cross_shard_blocks)
