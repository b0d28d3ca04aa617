-- ===== src/Consensus/Acts.antt =====
-- The actions at the end of a step leave a node in a step of its height or at the next height.
use melete.Base.{List, [], ◌∷◌, Bool, true, false, not, ◌||◌, if◌then◌else◌}
use melete.Base.Bytes.{Bytes, Text}
use melete.Base.Outcome.{
  done, or_panic, ◌>>=◌, Holds, returns, stops, Holds-bind, Holds-any, Holds-if,
}
use melete.Base.Table.{Table, insert, bytes_eq}
use melete.Merkle.{HashFunction}
use melete.Block.{Block, Codec, block_hash, hashed}
use melete.PartSet.{part_set_from_block}
use melete.Signer.{Bls}
use melete.Vote.Cross.{PrecommitAggregated, CrossShardCommit, shard_type_i, shard_type_c}
use melete.Height.{HeightData, Wire}
use melete.Height.Next.{generate_aggregate_precommit_signature, generate_cross_shard_commit}
use melete.Height.Keeps.{add_prevote-Kept, add_precommit-Kept}
use melete.Consensus.{
  Node, ConsensusState, Message, cross_shard_proposal_message, cross_shard_commit_message,
  send_to_shards, send_to, with_datas, put_block, chain_of, block_of, is_c_shard, is_i_shard,
  is_proposer,
}
use melete.Consensus.Create.{part_messages}
use melete.Consensus.Ballots.{
  check_datas, roots_match, compare_bytes_list, signed_prevote, signed_precommit, cast_prevote,
  do_propose, do_prevote, send_each, own_part_set, keep_cross_shard_proposal, propose_i, propose_c,
  new_cross_shard_proposal, do_precommit,
}
use melete.Consensus.Cross.{
  blocks_of, send_accepts, signed_accept, do_csa, do_csp, sort_shards, keys_of,
}
use melete.Consensus.Moment.{
  IsRunning, IsEarly, with_datas-IsEarly, next-IsRunning, send_to_shards-IsEarly,
}

module _ (b : Bls) (f : HashFunction) (c : Codec) (w : Wire) (n : Node) where
  check_datas-IsEarly :
      (s : ConsensusState b n) (block : Block)
      → IsEarly b n s
      → Holds (λ r. IsEarly b n r.0) (check_datas b f c w n s block)
  check_datas-IsEarly s block k =
      Holds-any
        (if is_c_shard b n s then (is_proposer b n s >>= λ mine. done (not mine)) else done false)
        (λ runs.
          Holds-if runs
            (Holds-any (n.pre_execution_c s.app block) (λ r.
              Holds-if
                (not r.2 || not (compare_bytes_list r.3 block.cross_shard_body.cross_shard_datas))
                stops (returns k)))
            (returns k))

  cast_prevote-IsRunning :
      (s : ConsensusState b n) → IsEarly b n s → Holds (IsRunning b n) (cast_prevote b f c w n s)
  unfolding cast_prevote
  cast_prevote-IsRunning s k =
      Holds-bind (add_prevote-Kept b f c w s.height_datas (signed_prevote b f c w n s))
        (λ r l. returns (next-IsRunning b n _ (with_datas-IsEarly b n s r.0 k l)))

  pub do_propose-IsRunning :
      (s : ConsensusState b n) → IsEarly b n s → Holds (IsRunning b n) (do_propose b f c w n s)
  unfolding do_propose
  do_propose-IsRunning s k = Holds-any (block_of b n s (chain_of b n s)) (λ block.
      Holds-bind (check_datas-IsEarly s block k) (λ checked l.
        Holds-if (not (roots_match b f c w n checked.0 checked.1)) stops (
          cast_prevote-IsRunning
            (record (put_block b n checked.0 (chain_of b n checked.0) (hashed f c checked.1)) {
              block_hash = block_hash f c checked.1;
            })
            l)))

  pub do_prevote-IsRunning :
      (s : ConsensusState b n) → IsEarly b n s → Holds (IsRunning b n) (do_prevote b f c w n s)
  unfolding do_prevote
  do_prevote-IsRunning s k =
      Holds-bind (add_precommit-Kept b f c w s.height_datas (signed_precommit b f c w n s))
        (λ r l. returns (next-IsRunning b n _ (with_datas-IsEarly b n s r.0 k l)))

  send_each-IsEarly :
      (shards : Table Text Bool) (ms : List Message) (s : ConsensusState b n)
      → IsEarly b n s
      → IsEarly b n (send_each b f c w n shards ms s)
  unfolding send_each
  send_each-IsEarly shards [] s k = k
  send_each-IsEarly shards (m ∷ ms) s k =
      send_each-IsEarly shards ms (send_to_shards b n shards s m)
        (send_to_shards-IsEarly b n shards s m k)

  propose_i-IsEarly :
      (s : ConsensusState b n) (a : PrecommitAggregated)
      → IsEarly b n s
      → Holds (IsEarly b n) (propose_i b f c w n s a)
  propose_i-IsEarly s a k =
      let p = new_cross_shard_proposal b f c w n a shard_type_i in
      let kept = keep_cross_shard_proposal b f c w n s p in
      Holds-any (is_proposer b n kept) (λ mine.
        Holds-if mine
          (Holds-any (own_part_set b f c w n kept) (λ parts.
            Holds-any (part_messages b f c w n parts.parts) (λ ms. returns (
              send_each-IsEarly kept.height_datas.shard_info.related_shards
                (cross_shard_proposal_message p ∷ ms) kept k))))
          (returns k))

  propose_c-IsEarly :
      (s : ConsensusState b n) (block : Block) (a : PrecommitAggregated)
      → IsEarly b n s
      → Holds (IsEarly b n) (propose_c b f c w n s block a)
  propose_c-IsEarly s block a k =
      let bare = record block { body = record { body_txs = [] }; blockhash = [] } in
      Holds-any (or_panic (part_set_from_block f c bare n.max_part_size s.round)) (λ parts.
        let p =
          new_cross_shard_proposal b f c w n (record a { header = parts.header }) shard_type_c in
        let kept = keep_cross_shard_proposal b f c w n s p in
        let info = kept.height_datas.shard_info in
        Holds-any (is_proposer b n kept) (λ mine.
          Holds-if mine
            (Holds-any (part_messages b f c w n parts.parts) (λ ms.
              let all_messages = cross_shard_proposal_message p ∷ ms in
              returns (
                send_each-IsEarly info.related_2_level_shards all_messages
                  (send_each b f c w n info.related_shards all_messages kept)
                  (send_each-IsEarly info.related_shards all_messages kept k))))
            (returns k)))

  pub do_precommit-IsRunning :
      (s : ConsensusState b n) → IsEarly b n s → Holds (IsRunning b n) (do_precommit b f c w n s)
  unfolding do_precommit
  do_precommit-IsRunning s k =
      Holds-bind
        (Holds-if (is_i_shard b n s)
          (Holds-any (generate_aggregate_precommit_signature b s.height_datas)
            (λ a. propose_i-IsEarly s a k))
          (Holds-any (block_of b n s (chain_of b n s)) (λ block.
            Holds-any (generate_aggregate_precommit_signature b s.height_datas)
              (λ a. propose_c-IsEarly s block a k))))
        (λ s' l. returns (next-IsRunning b n s' l))

  send_accepts-IsEarly :
      (shards : List Text) (blocks : List Block) (statuses : List Bytes) (s : ConsensusState b n)
      → IsEarly b n s
      → Holds (IsEarly b n) (send_accepts b f c w n shards blocks statuses s)
  unfolding send_accepts
  send_accepts-IsEarly (shard ∷ shards) (block ∷ blocks) (status ∷ statuses) s k =
      send_accepts-IsEarly shards blocks statuses
        (send_to b n s shard (signed_accept b f c w n s shard block status)) k
  send_accepts-IsEarly (shard ∷ shards) (block ∷ blocks) [] s k = stops
  send_accepts-IsEarly (shard ∷ shards) [] statuses s k = stops
  send_accepts-IsEarly [] blocks statuses s k = returns k

  pub do_csa-IsRunning :
      (s : ConsensusState b n) → IsEarly b n s → Holds (IsRunning b n) (do_csa b f c w n s)
  unfolding do_csa
  do_csa-IsRunning s k =
      let shards = sort_shards (keys_of s.height_datas.shard_info.related_shards) in
      Holds-any (blocks_of b f c w n s shards) (λ blocks.
        Holds-any (n.pre_execution_i s.app blocks) (λ r.
          Holds-bind (send_accepts-IsEarly shards blocks r.1 (record s { app = r.0 }) k)
            (λ s' l. returns (next-IsRunning b n s' l))))

  pub do_csp-IsRunning :
      (s : ConsensusState b n) → IsEarly b n s → Holds (IsRunning b n) (do_csp b f c w n s)
  unfolding do_csp
  do_csp-IsRunning s k = Holds-any (generate_cross_shard_commit b s.height_datas) (λ csc.
      let h = s.height_datas in
      let kept =
        with_datas b n s
          (record h { cross_shard_commits = insert h.my_chain_id csc h.cross_shard_commits }) in
      Holds-any (is_proposer b n kept)
        (λ mine. returns (next-IsRunning b n _ (either mine kept h csc k))))
    where
      either :
          (mine : Bool) (kept : ConsensusState b n) (h : HeightData b) (csc : CrossShardCommit)
          → IsEarly b n kept
          → IsEarly b n (
              if mine
              then send_to_shards b n h.shard_info.related_shards kept
                  (cross_shard_commit_message csc)
              else kept)
      either true kept h csc l =
          send_to_shards-IsEarly b n h.shard_info.related_shards kept
            (cross_shard_commit_message csc) l
      either false kept h csc l = l
