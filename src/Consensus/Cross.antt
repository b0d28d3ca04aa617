-- ===== src/Consensus/Cross.antt =====
-- main.go: what a node does when a step between shards is finished (`doCSA`, `doCSP`,
-- `executionAllBlocks`, `doCSC_I` and `doCSC_C`).
use melete.Base.{List, [], ◌∷◌, ◌++◌, map, Option, none, some, Bool, if◌then◌else◌}
use mathlib.Core.Option
use melete.Base.Bytes.{Bytes, Text, bytes_equal}
use melete.Base.Outcome.{Outcome, done, panic, or_panic, ◌>>=◌}
use melete.Base.Table.{Table, lookup, insert, bytes_eq}
use melete.BitVector.{BitVector, from_bytes, to_bytes, and_vectors}
use melete.Merkle.{HashFunction, proofs_from_byte_slices}
use melete.Block.{Block, Codec, block_hash}
use melete.Signer.{Bls}
use melete.Accepts.{unsigned}
use melete.Vote.Cross.{CrossShardCommit, new_cross_shard_accept}
use melete.Height.{Wire}
use melete.Height.Next.{generate_cross_shard_commit}
use melete.Bank.Run.{sort_texts}
use melete.Consensus.{
  Node, ConsensusState, Message, Receipts, cross_shard_accept_message, cross_shard_commit_message,
  chain_of, next, is_proposer, send_to, send_to_shards, with_datas, block_of,
}
use melete.Consensus.Create.{enter_new_height}

-- `sortShards`: the shards in the order of `ShardIDLess`.
unfoldable pub sort_shards : List Text → List Text
unfolding sort_texts
sort_shards shards = sort_texts shards

abbrev pub keys_of : Table Text Bool → List Text
keys_of m = map (λ p. p.0) m

-- The loop of `executionAllBlocks` over a commit's statuses, from a vector that is nil at first.
unfoldable pub and_statuses : Option BitVector → List Bytes → Outcome (Option BitVector)
unfolding and_vectors from_bytes
and_statuses total [] = done total
and_statuses none (bz ∷ rest) = from_bytes bz >>= λ bv. and_statuses bv rest
and_statuses (some t) (bz ∷ rest) =
    from_bytes bz >>= λ bv. and_vectors (some t) bv >>= λ t'. and_statuses t' rest

module _ (b : Bls) (f : HashFunction) (c : Codec) (w : Wire) (n : Node) where
  -- The blocks of shards; a missing block panics.
  unfoldable pub blocks_of : ConsensusState b n → List Text → Outcome (List Block)
  blocks_of s [] = done []
  blocks_of s (shard ∷ shards) =
      block_of b n s shard >>= λ block. blocks_of s shards >>= λ blocks. done (block ∷ blocks)

  abbrev pub signed_accept : ConsensusState b n → Text → Block → Bytes → Message
  signed_accept s shard block status =
      let csa =
        new_cross_shard_accept shard (chain_of b n s) s.height (block_hash f c block) status
          n.signer_index in
      cross_shard_accept_message
        (record csa { signature = n.sign (w.encode_accept (unsigned csa)) })

  -- The loop of `doCSA`: an accept to each C-shard, with the statuses that pre-execution gave.
  unfoldable pub send_accepts :
      List Text → List Block → List Bytes → ConsensusState b n → Outcome (ConsensusState b n)
  send_accepts (shard ∷ shards) (block ∷ blocks) (status ∷ statuses) s =
      send_accepts shards blocks statuses (send_to b n s shard (signed_accept s shard block status))
  send_accepts (shard ∷ shards) (block ∷ blocks) [] s = panic
  send_accepts (shard ∷ shards) [] statuses s = panic
  send_accepts [] blocks statuses s = done s

  -- `doCSA`
  unfoldable pub do_csa : ConsensusState b n → Outcome (ConsensusState b n)
  unfolding sort_shards blocks_of send_accepts next
  do_csa s =
      let shards = sort_shards (keys_of s.height_datas.shard_info.related_shards) in
      blocks_of s shards >>= λ blocks. n.pre_execution_i s.app blocks >>= λ r.
      send_accepts shards blocks r.1 (record s { app = r.0 }) >>= λ s'. done (next b n s')

  -- `doCSP`
  unfoldable pub do_csp : ConsensusState b n → Outcome (ConsensusState b n)
  unfolding generate_cross_shard_commit send_to_shards next
  do_csp s = generate_cross_shard_commit b s.height_datas >>= λ csc.
      let h = s.height_datas in
      let kept =
        with_datas b n s
          (record h { cross_shard_commits = insert h.my_chain_id csc h.cross_shard_commits }) in
      is_proposer b n kept >>= λ mine. done (
        next b n (
          if mine
          then send_to_shards b n h.shard_info.related_shards kept (cross_shard_commit_message csc)
          else kept))

  -- The vectors of the C-shards: the statuses of all of a commit's shards at once.
  unfoldable pub commit_vectors : ConsensusState b n → List Text → Outcome (List (Option BitVector))
  unfolding and_statuses
  commit_vectors s [] = done []
  commit_vectors s (shard ∷ shards) =
      or_panic (lookup shard s.height_datas.cross_shard_commits) >>= λ (csc : CrossShardCommit).
      and_statuses none csc.commit_status_list >>= λ total.
      commit_vectors s shards >>= λ totals. done (total ∷ totals)

  -- `executionAllBlocks`: the state, the receipts and the commit statuses.
  unfoldable pub execution_all_blocks :
      ConsensusState b n
      → List Text
      → List Text
      → Outcome (ConsensusState b n × Receipts × List Bytes)
  unfolding blocks_of commit_vectors
  execution_all_blocks s c_neighbours i_neighbours = commit_vectors s c_neighbours >>= λ totals.
      blocks_of s c_neighbours >>= λ c_blocks. blocks_of s i_neighbours >>= λ i_blocks.
      n.execution s.app c_blocks totals i_blocks >>= λ r.
      done (record s { app = r.0 }, r.1, map to_bytes totals)

  -- The hashes of the shards' blocks, but for the shard's own.
  unfoldable pub related_hashes : ConsensusState b n → List Text → Outcome (List Bytes)
  related_hashes s [] = done []
  related_hashes s (shard ∷ shards) = block_of b n s shard >>= λ block.
      related_hashes s shards >>= λ hashes.
      done (if bytes_equal shard (chain_of b n s) then hashes else block_hash f c block ∷ hashes)

  -- The commit statuses of the other C-shards, and the shard's own one.
  unfoldable pub split_statuses : Text → List Text → List Bytes → List Bytes × Option Bytes
  split_statuses me (shard ∷ shards) (status ∷ statuses) =
      let rest = split_statuses me shards statuses in
      if bytes_equal shard me
      then (rest.0, some (Option.get_or rest.1 status))
      else (status ∷ rest.0, rest.1)
  split_statuses me [] statuses = ([], none)
  split_statuses me (shard ∷ shards) [] = ([], none)

  abbrev pub receipts_of : Table Text (List Bytes) → Text → List Bytes
  receipts_of m shard = Option.get_or (lookup shard m) []

  -- The blocks of shards go to the store.
  unfoldable pub store_blocks : List Text → ConsensusState b n → Outcome (ConsensusState b n)
  store_blocks [] s = done s
  store_blocks (shard ∷ shards) s = block_of b n s shard >>= λ block.
      store_blocks shards (record s {
        stored = s.stored ++ ((block.header.height, block.header.chain_id, block) ∷ []);
      })

  -- The receipts' root and the application's state after a height, and the block that it ends with.
  abbrev pub settle : ConsensusState b n → Block → List Bytes → ConsensusState b n
  settle s block receipts =
      let committed = n.commit s.app in
      record s {
        block_hash = block_hash f c block;
        last_block_time = block.header.time;
        last_receipt_root = (proofs_from_byte_slices f receipts).0;
        last_state_root = committed.1;
        app = committed.0;
      }

  -- The state of an I-shard after it has run the blocks; its own block is stored first.
  abbrev pub settled_i :
      ConsensusState b n
      → ConsensusState b n
      → Receipts
      → List Bytes
      → List Block
      → Block
      → ConsensusState b n
  settled_i old s r statuses c_blocks block =
      let me = chain_of b n old in
      let ended =
        settle
          (record s {
            chained_hash = map (block_hash f c) c_blocks;
            related_commit_status = statuses;
            commit_status = [];
          })
          block (receipts_of r.inner_shard_resps me) in
      record ended { stored = ended.stored ++ ((ended.height, me, block) ∷ []) }

  -- `doCSC_I`
  unfoldable pub do_csc_i : ConsensusState b n → Outcome (ConsensusState b n × List Message)
  unfolding sort_shards execution_all_blocks store_blocks enter_new_height
  do_csc_i s =
      let me = chain_of b n s in
      let c_neighbours = sort_shards (keys_of s.height_datas.shard_info.related_shards) in
      execution_all_blocks s c_neighbours (me ∷ []) >>= λ r.
      blocks_of r.0 c_neighbours >>= λ c_blocks. block_of b n r.0 me >>= λ block.
      store_blocks c_neighbours (settled_i s r.0 r.1 r.2 c_blocks block) >>= λ kept.
      n.update kept.mempool block.body.body_txs [] >>= λ pool.
      enter_new_height b f c w n (record kept { mempool = pool })

  -- The state of a C-shard after it has run the blocks.
  abbrev pub settled_c :
      ConsensusState b n
      → ConsensusState b n
      → Receipts
      → List Bytes
      → List Text
      → List Bytes
      → Block
      → ConsensusState b n
  settled_c old s r bzs c_neighbours hashes block =
      let me = chain_of b n old in
      let statuses = split_statuses me c_neighbours bzs in
      settle
        (record s {
          chained_hash = hashes;
          related_commit_status = statuses.0;
          commit_status = Option.get_or statuses.1 old.commit_status;
        })
        block (receipts_of r.cross_shard_resps me ++ receipts_of r.inner_shard_resps me)

  -- `doCSC_C`
  unfoldable pub do_csc_c : ConsensusState b n → Outcome (ConsensusState b n × List Message)
  unfolding sort_shards execution_all_blocks related_hashes split_statuses store_blocks
      enter_new_height
  do_csc_c s =
      let me = chain_of b n s in
      let info = s.height_datas.shard_info in
      let c_neighbours = sort_shards (me ∷ keys_of info.related_2_level_shards) in
      let i_neighbours = me ∷ keys_of info.related_shards in
      execution_all_blocks s c_neighbours i_neighbours >>= λ r.
      related_hashes r.0 c_neighbours >>= λ c_hashes.
      related_hashes r.0 i_neighbours >>= λ i_hashes. block_of b n r.0 me >>= λ block.
      store_blocks c_neighbours (settled_c s r.0 r.1 r.2 c_neighbours (c_hashes ++ i_hashes) block)
      >>= store_blocks i_neighbours
      >>= λ kept. n.update kept.mempool block.body.body_txs [] >>= λ pool.
          n.update kept.cross_shard_mempool block.cross_shard_body.cross_shard_txs
            kept.commit_status
          >>= λ cross_pool.
              enter_new_height b f c w n
                (record kept { mempool = pool; cross_shard_mempool = cross_pool })
