-- ===== src/Consensus/Ballots.antt =====
-- main.go: what a node does when a step within its shard is finished (`doPropose`, `doPrevote`,
-- `doPrecommit`).
use melete.Base.{ℕ, List, [], ◌∷◌, none, some, Bool, true, false, not, ◌&&◌, ◌||◌, if◌then◌else◌}
use melete.Base.Bytes.{Bytes, Text, bytes_equal}
use melete.Base.Outcome.{Outcome, done, panic, or_panic, ◌>>=◌}
use melete.Base.Table.{Table, lookup, insert, bytes_eq}
use melete.Merkle.{HashFunction}
use melete.Block.{Block, Codec, block_hash, hashed}
use melete.PartSet.{PartSet, part_set_from_block}
use melete.Signer.{Bls}
use melete.Vote.{Ballot, new_prevote, new_precommit, prevote_sign_proto, precommit_sign_proto}
use melete.Vote.Cross.{
  PrecommitAggregated, CrossShardProposal, vote_type_cross_shard_proposal, shard_type_i,
  shard_type_c,
}
use melete.Height.{Wire}
use melete.Height.Receive.{add_prevote, add_precommit}
use melete.Height.Next.{generate_aggregate_precommit_signature}
use melete.Consensus.{
  Node, ConsensusState, Message, prevote_message, precommit_message, cross_shard_proposal_message,
  chain_of, is_i_shard, is_c_shard, next, is_proposer, send_internal, send_to_shards, with_datas,
  put_block, block_of,
}
use melete.Consensus.Create.{part_messages}

-- `CompareBytesList`
unfoldable pub compare_bytes_list : List Bytes → List Bytes → Bool
compare_bytes_list [] [] = true
compare_bytes_list [] (y ∷ ys) = false
compare_bytes_list (x ∷ xs) [] = false
compare_bytes_list (x ∷ xs) (y ∷ ys) = bytes_equal x y && compare_bytes_list xs ys

module _ (b : Bls) (f : HashFunction) (c : Codec) (w : Wire) (n : Node) where
  -- A validator of a C-shard runs the cross-shard transactions of the proposal, and panics when
  -- they read other values than the proposer says.
  abbrev pub check_datas : ConsensusState b n → Block → Outcome (ConsensusState b n × Block)
  check_datas s block =
      (if is_c_shard b n s then (is_proposer b n s >>= λ mine. done (not mine)) else done false)
      >>= λ runs.
          if runs
          then (n.pre_execution_c s.app block >>= λ r.
              if not r.2 || not (compare_bytes_list r.3 block.cross_shard_body.cross_shard_datas)
              then panic
              else done (record s { app = r.0 }, r.1))
          else done (s, block)

  -- The roots of the last height must be the node's own.
  abbrev pub roots_match : ConsensusState b n → Block → Bool
  roots_match s block =
      bytes_equal s.last_receipt_root block.header.receipt_root
      && bytes_equal s.last_state_root block.header.state_root

  abbrev pub signed_prevote : ConsensusState b n → Ballot
  signed_prevote s =
      let unsigned = new_prevote s.height s.round s.block_hash n.signer_index in
      record unsigned { signature = n.sign (w.encode_prevote (prevote_sign_proto unsigned)) }

  abbrev pub signed_precommit : ConsensusState b n → Ballot
  signed_precommit s =
      let unsigned = new_precommit s.height s.round s.block_hash n.signer_index in
      record unsigned { signature = n.sign (w.encode_precommit (precommit_sign_proto unsigned)) }

  -- The end of `doPropose`: the prevote for the block.
  unfoldable pub cast_prevote : ConsensusState b n → Outcome (ConsensusState b n)
  unfolding add_prevote next
  cast_prevote s =
      let vote = signed_prevote s in
      add_prevote b f c w s.height_datas vote >>= λ r.
      done (next b n (send_internal b n (with_datas b n s r.0) (prevote_message vote)))

  -- `doPropose`
  unfoldable pub do_propose : ConsensusState b n → Outcome (ConsensusState b n)
  unfolding cast_prevote compare_bytes_list
  do_propose s = block_of b n s (chain_of b n s) >>= λ block. check_datas s block >>= λ checked.
      let s' = checked.0 in
      if not (roots_match s' checked.1)
      then panic
      else cast_prevote (record (put_block b n s' (chain_of b n s') (hashed f c checked.1)) {
        block_hash = block_hash f c checked.1;
      })

  -- `doPrevote`
  unfoldable pub do_prevote : ConsensusState b n → Outcome (ConsensusState b n)
  unfolding add_precommit next
  do_prevote s =
      let vote = signed_precommit s in
      add_precommit b f c w s.height_datas vote >>= λ r.
      done (next b n (send_internal b n (with_datas b n s r.0) (precommit_message vote)))

  abbrev pub new_cross_shard_proposal : PrecommitAggregated → ℕ → CrossShardProposal
  new_cross_shard_proposal a shard_type = record {
    vote_type = vote_type_cross_shard_proposal;
    shard_type = shard_type;
    aggregated_signatures = a;
  }

  abbrev pub keep_cross_shard_proposal :
      ConsensusState b n → CrossShardProposal → ConsensusState b n
  keep_cross_shard_proposal s p =
      let h = s.height_datas in
      with_datas b n s
        (record h { cross_shard_proposals = insert h.my_chain_id p h.cross_shard_proposals })

  unfoldable pub send_each :
      Table Text Bool → List Message → ConsensusState b n → ConsensusState b n
  unfolding send_to_shards
  send_each shards [] s = s
  send_each shards (m ∷ ms) s = send_each shards ms (send_to_shards b n shards s m)

  -- The part set of the shard's own block, made again when it was not kept.
  abbrev pub own_part_set : ConsensusState b n → Outcome PartSet
  own_part_set s = elim (lookup (chain_of b n s) s.height_datas.cross_shard_part_sets) [
    | some parts ↦ done parts
    | none ↦ block_of b n s (chain_of b n s) >>= λ block.
        or_panic (part_set_from_block f c block n.max_part_size s.round)
  ]

  -- An I-shard's proposal goes to its related shards with the block.
  abbrev pub propose_i : ConsensusState b n → PrecommitAggregated → Outcome (ConsensusState b n)
  propose_i s a =
      let p = new_cross_shard_proposal a shard_type_i in
      let kept = keep_cross_shard_proposal s p in
      is_proposer b n kept >>= λ mine.
      if mine
      then (own_part_set kept >>= λ parts. part_messages b f c w n parts.parts >>= λ ms. done (
          send_each kept.height_datas.shard_info.related_shards
            (cross_shard_proposal_message p ∷ ms) kept))
      else done kept

  -- A C-shard's proposal goes to two levels of shards with the block but for its own transactions,
  -- and the aggregate is passed off with the header of this smaller part set.
  abbrev pub propose_c :
      ConsensusState b n → Block → PrecommitAggregated → Outcome (ConsensusState b n)
  propose_c s block a =
      let bare = record block { body = record { body_txs = [] }; blockhash = [] } in
      or_panic (part_set_from_block f c bare n.max_part_size s.round) >>= λ parts.
      let p = new_cross_shard_proposal (record a { header = parts.header }) shard_type_c in
      let kept = keep_cross_shard_proposal s p in
      is_proposer b n kept >>= λ mine.
      if mine
      then (part_messages b f c w n parts.parts >>= λ ms.
          let all_messages = cross_shard_proposal_message p ∷ ms in
          let info = kept.height_datas.shard_info in
          done (
            send_each info.related_2_level_shards all_messages
              (send_each info.related_shards all_messages kept)))
      else done kept

  -- `doPrecommit`
  unfoldable pub do_precommit : ConsensusState b n → Outcome (ConsensusState b n)
  unfolding part_set_from_block generate_aggregate_precommit_signature send_each next
  do_precommit s =
      (if is_i_shard b n s
        then (generate_aggregate_precommit_signature b s.height_datas >>= propose_i s)
        else (block_of b n s (chain_of b n s) >>= λ block.
            generate_aggregate_precommit_signature b s.height_datas >>= propose_c s block))
      >>= λ s'. done (next b n s')
