-- ===== src/Consensus/Begin.antt =====
-- A height that a node enters: the block that it makes when it is the proposer.
use melete.Base.{◌≡◌, refl, ◌∙◌, ap, sym, List, [], ◌∷◌, arith}
use melete.Base.Int.{pos, ◌+ℤ◌}
use melete.Base.Outcome.{or_panic, Holds, returns, Holds-bind, Holds-any, Holds-if}
use melete.Merkle.{HashFunction}
use melete.Block.{Block, Codec}
use melete.PartSet.{part_set_from_block}
use melete.Signer.{Bls}
use melete.Height.{Wire}
use melete.Consensus.{
  Node, ConsensusState, Message, proposal_message, is_c_shard, is_proposer, send_internal, next,
}
use melete.Consensus.Create.{
  reap, pre_execute, new_block, block_time, signed_proposal, part_messages, send_all, keep_proposal,
  create_block_and_broadcast, enter_new_round, enter_new_height,
}
use melete.Consensus.Moment.{IsRunning, next_height-Holds}

module _ (b : Bls) (f : HashFunction) (c : Codec) (w : Wire) (n : Node) where
  send_all-IsRunning :
      (ms : List Message) (s : ConsensusState b n)
      → IsRunning b n s
      → IsRunning b n (send_all b f c w n ms s)
  unfolding send_all
  send_all-IsRunning [] s k = k
  send_all-IsRunning (m ∷ ms) s k = send_all-IsRunning ms (send_internal b n s m) k

  pre_execute-IsRunning :
      (s : ConsensusState b n) (block : Block)
      → IsRunning b n s
      → Holds (λ r. IsRunning b n r.0) (pre_execute b f c w n s block)
  pre_execute-IsRunning s block k =
      Holds-if (is_c_shard b n s) (Holds-any (n.pre_execution_c s.app block) (λ r. returns k))
        (returns k)

  create_block-IsRunning :
      (s : ConsensusState b n)
      → IsRunning b n s
      → Holds (IsRunning b n) (create_block_and_broadcast b f c w n s)
  unfolding create_block_and_broadcast
  create_block-IsRunning s k = Holds-any (reap b f c w n s) (λ txs.
      Holds-bind
        (pre_execute-IsRunning s (new_block b f c w n s (block_time b f c w n s) txs.0 txs.1) k)
        (λ made l.
          Holds-any (or_panic (part_set_from_block f c made.1 n.max_part_size s.round)) (λ parts.
            Holds-any (part_messages b f c w n parts.parts) (λ ms.
              let p = signed_proposal b f c w n parts in
              returns (
                send_all-IsRunning (proposal_message p ∷ ms)
                  (keep_proposal b f c w n made.0 made.1 parts p) l)))))

  enter_new_round-IsRunning :
      (s : ConsensusState b n)
      → s.height_datas.height ≡ s.height
      → s.height_datas.round ≡ pos 0
      → s.round ≡ pos 0
      → Holds (λ r. IsRunning b n r.0) (enter_new_round b f c w n s)
  unfolding enter_new_round
  enter_new_round-IsRunning s a r z =
      let k : IsRunning b n (record s { step = 3 }) = (a, r ∙ sym z, z, omega arith, omega arith) in
      Holds-any (is_proposer b n (record s { step = 3 })) (λ mine.
        Holds-bind (Holds-if mine (create_block-IsRunning (record s { step = 3 }) k) (returns k))
          (λ s' l. returns l))

  pub enter_new_height-IsRunning :
      (s : ConsensusState b n)
      → s.height_datas.height ≡ s.height
      → Holds (λ r. IsRunning b n r.0) (enter_new_height b f c w n s)
  unfolding enter_new_height next
  enter_new_height-IsRunning s a = Holds-bind (next_height-Holds b n s.height_datas) (λ h k.
      enter_new_round-IsRunning
        (record (next b n (record s { step = 7 })) {
          last_block_hash = s.block_hash;
          last_chained_hash = s.chained_hash;
          last_commit_status = s.commit_status;
          last_related_commit_status = s.related_commit_status;
          height_datas = h;
        })
        (k.0 ∙ ap (λ x. x +ℤ pos 1) a) k.1 refl)
