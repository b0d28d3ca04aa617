-- ===== src/Consensus/Ends.antt =====
-- The end of a height: what `doCSC_I` and `doCSC_C` leave is the next height.
use melete.Base.{◌≡◌, List, [], ◌∷◌, ◌++◌}
use melete.Base.Bytes.{Text}
use melete.Base.Outcome.{Holds, returns, Holds-bind, Holds-any}
use melete.Merkle.{HashFunction}
use melete.Block.{Codec}
use melete.Signer.{Bls}
use melete.Height.{Wire}
use melete.Consensus.{Node, ConsensusState, chain_of, block_of}
use melete.Consensus.Cross.{
  sort_shards, keys_of, blocks_of, commit_vectors, execution_all_blocks, related_hashes,
  store_blocks, settled_i, settled_c, do_csc_i, do_csc_c,
}
use melete.Consensus.Moment.{IsRunning}
use melete.Consensus.Begin.{enter_new_height-IsRunning}

module _ (b : Bls) (f : HashFunction) (c : Codec) (w : Wire) (n : Node) where
  -- The data are of the node's height.
  abbrev At : ConsensusState b n → Type 0
  At s = s.height_datas.height ≡ s.height

  execution-At :
      (s : ConsensusState b n) (cs is : List Text)
      → At s
      → Holds (λ r. At r.0) (execution_all_blocks b f c w n s cs is)
  unfolding execution_all_blocks
  execution-At s cs is a = Holds-any (commit_vectors b f c w n s cs) (λ totals.
      Holds-any (blocks_of b f c w n s cs) (λ c_blocks.
        Holds-any (blocks_of b f c w n s is)
          (λ i_blocks. Holds-any (n.execution s.app c_blocks totals i_blocks) (λ r. returns a))))

  store_blocks-At :
      (shards : List Text) (s : ConsensusState b n)
      → At s
      → Holds At (store_blocks b f c w n shards s)
  unfolding store_blocks
  store_blocks-At [] s a = returns a
  store_blocks-At (shard ∷ shards) s a = Holds-any (block_of b n s shard) (λ block.
      store_blocks-At shards
        (record s {
          stored = s.stored ++ ((block.header.height, block.header.chain_id, block) ∷ []);
        })
        a)

  pub do_csc_i-IsRunning :
      (s : ConsensusState b n)
      → s.height_datas.height ≡ s.height
      → Holds (λ r. IsRunning b n r.0) (do_csc_i b f c w n s)
  unfolding do_csc_i
  do_csc_i-IsRunning s a =
      let me = chain_of b n s in
      let cs = sort_shards (keys_of s.height_datas.shard_info.related_shards) in
      Holds-bind (execution-At s cs (me ∷ []) a) (λ r k.
        Holds-any (blocks_of b f c w n r.0 cs) (λ c_blocks.
          Holds-any (block_of b n r.0 me) (λ block.
            Holds-bind (store_blocks-At cs (settled_i b f c w n s r.0 r.1 r.2 c_blocks block) k)
              (λ kept l. Holds-any (n.update kept.mempool block.body.body_txs []) (λ pool.
                enter_new_height-IsRunning b f c w n (record kept { mempool = pool }) l)))))

  pub do_csc_c-IsRunning :
      (s : ConsensusState b n)
      → s.height_datas.height ≡ s.height
      → Holds (λ r. IsRunning b n r.0) (do_csc_c b f c w n s)
  unfolding do_csc_c
  do_csc_c-IsRunning s a =
      let me = chain_of b n s in
      let info = s.height_datas.shard_info in
      let cs = sort_shards (me ∷ keys_of info.related_2_level_shards) in
      let is = me ∷ keys_of info.related_shards in
      Holds-bind (execution-At s cs is a) (λ r k.
        Holds-any (related_hashes b f c w n r.0 cs) (λ c_hashes.
          Holds-any (related_hashes b f c w n r.0 is) (λ i_hashes.
            Holds-any (block_of b n r.0 me) (λ block.
              Holds-bind
                (Holds-bind
                  (store_blocks-At cs
                    (settled_c b f c w n s r.0 r.1 r.2 cs (c_hashes ++ i_hashes) block) k)
                  (λ t l. store_blocks-At is t l))
                (λ kept l. Holds-any (n.update kept.mempool block.body.body_txs []) (λ pool.
                  Holds-any
                    (n.update kept.cross_shard_mempool block.cross_shard_body.cross_shard_txs
                      kept.commit_status)
                    (λ cross_pool.
                      enter_new_height-IsRunning b f c w n
                        (record kept { mempool = pool; cross_shard_mempool = cross_pool }) l)))))))
