-- ===== src/Height/Next.antt =====
-- A height's beginning (`NewHeightData`, `SetShardInfo`, `NextHeight` and the `clear...` methods),
-- and the messages that it ends with: the aggregate of the precommits and the commit.
use melete.Base.{
  ℕ, zero, suc, ◌++◌, List, [], ◌∷◌, map, Option, none, Bool, true, if◌then◌else◌, length,
  get_elem?,
}
use mathlib.Core.Option
use melete.Base.Bytes.{Bytes, Text}
use melete.Base.Int.{ℤ, pos, ◌+ℤ◌}
use melete.Base.Outcome.{Outcome, done, or_panic, ◌>>=◌}
use melete.Base.Table.{Table, lookup, insert, delete, bytes_eq}
use melete.BitVector.{BitVector, new_bit_vector, get_index, set_index, size, to_bytes}
use melete.Signer.{Bls, new_verifier, verifier_size, aggregate_signatures}
use melete.Accepts.{Peer, CrossShardAccept, CsaShardSet, new_csa_shard_set, get_maj23}
use melete.Vote.{Ballot}
use melete.Vote.Cross.{
  PrecommitAggregated, new_precommit_aggregated, CrossShardCommit, read_bit_vectors,
  vote_type_cross_shard_commit,
}
use melete.Height.{HeightData, ShardInfo, new_tally, peers_of}
use melete.Height.Step.{round_step_new_height}

-- The sum of a shard's voting power, on `int`.
unfoldable pub sum_votes : ℤ → List Peer → ℤ
sum_votes total [] = total
sum_votes total (p ∷ ps) = sum_votes (total +ℤ p.vote) ps

-- The signatures of the precommits whose bits are set: `n` bits are left from index `i` on.
unfoldable pub cast_signatures :
    Option BitVector → List (Option Ballot) → ℕ → ℕ → Outcome (List Text)
cast_signatures bv ballots zero i = done []
cast_signatures bv ballots (suc n) i = get_index bv (pos i) >>= λ bit.
    (if bit
      then (or_panic (get_elem? ballots i) >>= λ slot.
          or_panic slot >>= λ (p : Ballot). done (p.signature ∷ []))
      else done [])
    >>= λ found. cast_signatures bv ballots n (suc i) >>= λ rest. done (found ++ rest)

-- The bits of the validators that have voted.
unfoldable pub set_voters : Option BitVector → List CrossShardAccept → Outcome (Option BitVector)
set_voters bv [] = done bv
set_voters bv (v ∷ vs) = set_index bv v.validator_index true >>= λ r. set_voters r.0 vs

module _ (b : Bls) where
  -- The loop of `SetShardInfo`; `setKeys` makes each shard's verifier.
  unfoldable pub set_peers : List (Text × List Peer) → HeightData b → HeightData b
  unfolding sum_votes new_verifier
  set_peers [] h = h
  set_peers ((chain_id, peers) ∷ rest) h = set_peers rest (record h {
    all_validator_set =
        insert chain_id (new_verifier b (map (λ (p : Peer). p.pubkey) peers)) h.all_validator_set;
    shard_votes = insert chain_id (sum_votes (pos 0) peers) h.shard_votes;
  })

  -- `SetShardInfo`
  unfoldable pub set_shard_info : HeightData b → ShardInfo → HeightData b
  unfolding set_peers
  set_shard_info h s =
      set_peers s.peer_list (record h { shard_info = s; all_validator_set = []; shard_votes = [] })

  -- `clearProposal`
  abbrev pub clear_proposal : HeightData b → HeightData b
  clear_proposal h = record h {
    proposal = none;
    cross_shard_part_sets = delete h.my_chain_id h.cross_shard_part_sets;
    cross_shard_blocks = delete h.my_chain_id h.cross_shard_blocks;
  }

  -- `clearPrevote` and `clearPrecommit`: a shard without validators panics.
  abbrev pub clear_votes : HeightData b → Outcome (HeightData b)
  clear_votes h = or_panic (lookup h.my_chain_id h.all_validator_set) >>= λ v. done (record h {
    prevotes = new_tally (verifier_size b v);
    precommits = new_tally (verifier_size b v);
  })

  -- The sets of accepts, one for each related shard. One that has no validators panics here, where
  -- the code keeps a nil set that panics at the first vote.
  unfoldable pub new_accepts : HeightData b → Table Text Bool → Outcome (Table Text (CsaShardSet b))
  new_accepts h [] = done []
  new_accepts h ((cid, related) ∷ rest) = or_panic (lookup cid h.all_validator_set) >>= λ v.
      new_accepts h rest >>= λ sets.
      done (insert cid (new_csa_shard_set b h.height cid (peers_of h.shard_info cid) v) sets)

  -- `clearCrossShardData`
  abbrev pub clear_cross_shard_data : HeightData b → Outcome (HeightData b)
  clear_cross_shard_data h = new_accepts h h.shard_info.related_shards >>= λ sets. done (record h {
    cross_shard_proposals = [];
    cross_shard_accepts = sets;
    cross_shard_accept_finish_counter = 0;
    cross_shard_blocks = [];
    cross_shard_commits = [];
    cross_shard_part_sets = [];
    random_header_buffer = [];
  })

  -- `clearAll`
  abbrev pub clear_all : HeightData b → Outcome (HeightData b)
  clear_all h = clear_votes (clear_proposal h) >>= clear_cross_shard_data

  -- `NextHeight`
  unfoldable pub next_height : HeightData b → Outcome (HeightData b)
  unfolding new_accepts
  next_height h =
      clear_all
        (record h { height = h.height +ℤ pos 1; round = pos 0; pass_step = round_step_new_height })

  -- `NewHeightData`
  unfoldable pub new_height_data : Text → ℤ → ShardInfo → Outcome (HeightData b)
  unfolding set_shard_info new_accepts
  new_height_data chain_id height s = clear_all (
      set_shard_info
        (record {
          height = height;
          round = pos 0;
          my_chain_id = chain_id;
          pass_step = round_step_new_height;
          shard_info = s;
          shard_votes = [];
          all_validator_set = [];
          proposal = none;
          prevotes = new_tally 0;
          precommits = new_tally 0;
          cross_shard_proposals = [];
          cross_shard_accepts = [];
          cross_shard_accept_finish_counter = 0;
          cross_shard_commits = [];
          cross_shard_part_sets = [];
          cross_shard_blocks = [];
          random_header_buffer = [];
        })
        s)

  -- `GenerateAggregatePrecommitSignature`
  unfoldable pub generate_aggregate_precommit_signature : HeightData b → Outcome PrecommitAggregated
  unfolding cast_signatures aggregate_signatures new_precommit_aggregated
  generate_aggregate_precommit_signature h =
      cast_signatures h.precommits.bits h.precommits.ballots (size h.precommits.bits) 0 >>= λ sigs.
      or_panic (aggregate_signatures b sigs) >>= λ agg. or_panic h.proposal >>= λ p.
      new_precommit_aggregated (to_bytes h.precommits.bits) p.header p.block_header_hash agg

  -- `GetMaj23`, whose two results are nil without a majority.
  abbrev maj_votes : CsaShardSet b → Bytes × List CrossShardAccept
  maj_votes s = Option.get_or (get_maj23 b s) ([], [])

  -- The round for one shard in the loop of `GenerateCrossShardCommit`: the aggregate, the bits and
  -- the commit status.
  unfoldable pub commit_entry : HeightData b → Text → Outcome (Text × Bytes × Bytes)
  unfolding set_voters aggregate_signatures get_maj23
  commit_entry h key = or_panic (lookup key h.cross_shard_accepts) >>= λ s.
      set_voters (new_bit_vector (pos (length (peers_of h.shard_info key)))) (maj_votes s).1
      >>= λ bv.
          or_panic
            (aggregate_signatures b (map (λ (v : CrossShardAccept). v.signature) (maj_votes s).1))
          >>= λ agg. done (agg, to_bytes bv, (maj_votes s).0)

  unfoldable pub commit_entries : HeightData b → List Text → Outcome (List (Text × Bytes × Bytes))
  unfolding commit_entry
  commit_entries h [] = done []
  commit_entries h (key ∷ keys) =
      commit_entry h key >>= λ x. commit_entries h keys >>= λ xs. done (x ∷ xs)

  -- `GenerateCrossShardCommit` with `NewCrossShardCommit`
  unfoldable pub generate_cross_shard_commit : HeightData b → Outcome CrossShardCommit
  unfolding commit_entries read_bit_vectors
  generate_cross_shard_commit h =
      let keys = Option.get_or (lookup h.my_chain_id h.shard_info.peer_related_map) [] in
      commit_entries h keys >>= λ xs. or_panic h.proposal >>= λ p.
      read_bit_vectors (map (λ x. x.1) xs) >>= λ bvs. done (record {
        vote_type = vote_type_cross_shard_commit;
        upper_chain_id = h.my_chain_id;
        height = h.height;
        block_header_hash = p.block_header_hash;
        chain_list = keys;
        aggregated_signature_list = map (λ x. x.0) xs;
        validator_bit_vector_list = bvs;
        commit_status_list = map (λ x. x.2) xs;
      })
