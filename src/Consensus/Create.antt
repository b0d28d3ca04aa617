-- ===== src/Consensus/Create.antt =====
-- main.go: entering a height and a round, and the block that the proposer makes
-- (`createBlockAndBroadcast`).
use melete.Base.{◌/◌, List, [], ◌∷◌, Option, none, some, if◌then◌else◌}
use melete.Base.Int.{ℤ, pos, ◌+ℤ◌, ltb_ℤ, sub_ℕ}
use melete.Base.Outcome.{Outcome, done, or_panic, ◌>>=◌}
use melete.Base.Table.{insert, bytes_eq, int_eq}
use melete.Merkle.{HashFunction}
use melete.Tx.{Txs}
use melete.Block.{Block, Header, Codec, hashed}
use melete.PartSet.{Part, PartSet, part_set_from_block}
use melete.Signer.{Bls}
use melete.Vote.{Proposal, new_proposal, proposal_sign_proto}
use melete.Height.{Wire}
use melete.Height.Next.{next_height}
use melete.Height.Step.{round_step_propose, round_step_cross_shard_commit}
use melete.Consensus.{
  Node, ConsensusState, Message, part_message, proposal_message, is_c_shard, chain_of, relayed,
  next, is_proposer, send_internal, with_datas,
}

module _ (b : Bls) (f : HashFunction) (c : Codec) (w : Wire) (n : Node) where
  -- The header, with the last block's results; the body's roots are not filled yet.
  abbrev pub new_header : ConsensusState b n → ℤ → Header
  new_header s time = record {
    block_type = if is_c_shard b n s then pos 2 else pos 1;
    hash_pointer = s.last_block_hash;
    chain_id = chain_of b n s;
    height = s.height;
    time = time;
    body_root = [];
    cross_shard_body_root = [];
    state_root = s.last_state_root;
    receipt_root = s.last_receipt_root;
    relation_root = [];
  }

  abbrev pub new_block : ConsensusState b n → ℤ → Txs → Txs → Block
  new_block s time txs cross_txs = record {
    header = new_header s time;
    body = record { body_txs = txs };
    cross_shard_body = record { cross_shard_txs = cross_txs; cross_shard_datas = [] };
    relation = record {
      related_commit_status = s.last_related_commit_status;
      related_hash = s.last_chained_hash;
      my_commit_status = s.last_commit_status;
    };
    blockhash = [];
  }

  -- A block is not older than the interval after the last one.
  abbrev pub block_time : ConsensusState b n → ℤ
  block_time s =
      let earliest = s.last_block_time +ℤ n.min_block_interval in
      if ltb_ℤ n.now earliest then earliest else n.now

  -- The transactions of a block: a C-shard shares the number between its own and the cross-shard
  -- ones.
  abbrev pub reap : ConsensusState b n → Outcome (Txs × Txs)
  reap s =
      if is_c_shard b n s
      then (or_panic (n.reap_tx s.mempool (pos (n.max_block_tx_num / 2))) >>= λ own.
          or_panic (n.reap_tx s.cross_shard_mempool (sub_ℕ n.max_block_tx_num own.1)) >>= λ cross.
          done (own.0, cross.0))
      else (or_panic (n.reap_tx s.mempool (pos n.max_block_tx_num)) >>= λ own. done (own.0, []))

  -- A C-shard runs its cross-shard transactions before it proposes them.
  abbrev pub pre_execute : ConsensusState b n → Block → Outcome (ConsensusState b n × Block)
  pre_execute s block =
      if is_c_shard b n s
      then (n.pre_execution_c s.app block >>= λ r.
          let ran = r.1 in
          done (
            record s { app = r.0 },
            record ran {
              cross_shard_body = record ran.cross_shard_body { cross_shard_datas = r.3 };
            },
          ))
      else done (s, block)

  abbrev pub signed_proposal : PartSet → Proposal
  signed_proposal parts =
      let unsigned = new_proposal parts.header n.signer_index parts.block_header_hash in
      record unsigned { signature = n.sign (w.encode_proposal (proposal_sign_proto unsigned)) }

  -- The proposal of the block, kept as the height's own.
  abbrev pub keep_proposal : ConsensusState b n → Block → PartSet → Proposal → ConsensusState b n
  keep_proposal s block parts p =
      let h = s.height_datas in
      with_datas b n s (record h {
        cross_shard_blocks = insert h.my_chain_id (hashed f c block) h.cross_shard_blocks;
        cross_shard_part_sets = insert h.my_chain_id parts h.cross_shard_part_sets;
        proposal = some p;
      })

  -- The loops that send the parts of a set; a nil part panics.
  unfoldable pub part_messages : List (Option Part) → Outcome (List Message)
  part_messages [] = done []
  part_messages (none ∷ ps) = Outcome.panic
  part_messages (some p ∷ ps) = part_messages ps >>= λ ms. done (part_message p ∷ ms)

  unfoldable pub send_all : List Message → ConsensusState b n → ConsensusState b n
  send_all [] s = s
  send_all (m ∷ ms) s = send_all ms (send_internal b n s m)

  -- `createBlockAndBroadcast`, whose messages go out at the block's time. A part size of 0, at which
  -- `PartSetFromBlock` does not end, panics here.
  unfoldable pub create_block_and_broadcast : ConsensusState b n → Outcome (ConsensusState b n)
  unfolding part_messages send_all part_set_from_block
  create_block_and_broadcast s = reap s >>= λ txs.
      pre_execute s (new_block s (block_time s) txs.0 txs.1) >>= λ made.
      or_panic (part_set_from_block f c made.1 n.max_part_size s.round) >>= λ parts.
      part_messages parts.parts >>= λ ms.
      let p = signed_proposal parts in
      done (send_all (proposal_message p ∷ ms) (keep_proposal made.0 made.1 parts p))

  -- `enterNewRound`: the messages that waited for the round are taken next.
  unfoldable pub enter_new_round : ConsensusState b n → Outcome (ConsensusState b n × List Message)
  unfolding create_block_and_broadcast
  enter_new_round s =
      let proposing = record s { step = round_step_propose } in
      is_proposer b n proposing >>= λ mine.
      (if mine then create_block_and_broadcast proposing else done proposing) >>= λ s'.
      done (s', relayed b n s' s'.height s'.round)

  -- `enterNewHeight`
  unfoldable pub enter_new_height : ConsensusState b n → Outcome (ConsensusState b n × List Message)
  unfolding next next_height enter_new_round
  enter_new_height s =
      let s' = next b n (record s { step = round_step_cross_shard_commit }) in
      next_height b s'.height_datas >>= λ h. enter_new_round (record s' {
        last_block_hash = s'.block_hash;
        last_chained_hash = s'.chained_hash;
        last_commit_status = s'.commit_status;
        last_related_commit_status = s'.related_commit_status;
        height_datas = h;
      })
