-- ===== src/Height/Cross.antt =====
-- The messages of other shards: `AddCrossShardProposal`, `AddCrossShardAccept` and
-- `AddCrossShardCommit`.
use melete.Base.{
  ℕ, zero, suc, ◌+◌, List, [], ◌∷◌, Option, none, some, Bool, false, not, ◌&&◌, if◌then◌else◌,
  length, get_elem?, ◌==◌,
}
use mathlib.Core.Option
use melete.Base.Bytes.{Text, bytes_equal}
use melete.Base.Int.{ℤ, pos, ltb_ℤ, eq_ℤ, ◌+ℤ◌, div_ℤ, wrap_int32}
use melete.Base.Outcome.{Outcome, done, panic, or_panic, ◌>>=◌}
use melete.Base.Table.{Table, lookup, insert, bytes_eq}
use melete.BitVector.{BitVector, get_index, size, to_bytes}
use melete.Merkle.{HashFunction}
use melete.Block.{Codec}
use melete.PartSet.{new_part_set}
use melete.Signer.{Bls, Verifier}
use melete.Accepts.{Peer, CrossShardAccept, vote_at, add_csa}
use melete.Vote.{precommit_sign_proto}
use melete.Vote.Cross.{
  CrossShardProposal, CrossShardCommit, CommitError, nil_peer_list, verify_signatures,
  validate_vote,
}
use melete.Height.{
  HeightData, HeightError, Wire, do_nothing, bad_signature, too_few_votes, wrong_upper, not_related,
  not_lower, wrong_chain_list, csa_error, commit_error, peers_of,
}
use melete.Height.Receive.{Received, add_parts, waiting_parts}

module _ (b : Bls) (f : HashFunction) (c : Codec) (w : Wire) where
  -- The loop of `AddCrossShardProposal` over the bits: `n` bits are left from index `i` on.
  unfoldable pub signed_power : Option BitVector → List Peer → ℕ → ℕ → ℤ → Outcome ℤ
  signed_power bv peers zero i total = done total
  signed_power bv peers (suc n) i total = get_index bv (pos i) >>= λ bit.
      (if bit then (vote_at peers (pos i) >>= λ v. done (wrap_int32 (total +ℤ v))) else done total)
      >>= λ t. signed_power bv peers n (suc i) t

  -- `AddCrossShardProposal` when the votes suffice.
  unfoldable pub accept_cross_shard_proposal : HeightData b → CrossShardProposal → Received b
  unfolding new_part_set add_parts
  accept_cross_shard_proposal h csp =
      let a = csp.aggregated_signatures in
      let chain_id = a.header.chain_id in
      new_part_set a.header a.block_header_hash >>= λ ps.
      add_parts b f c w
        (record h {
          cross_shard_proposals = insert chain_id csp h.cross_shard_proposals;
          cross_shard_part_sets = insert chain_id ps h.cross_shard_part_sets;
        })
        (waiting_parts b f c w h chain_id)
      >>= λ g. done (g, none)

  -- `AddCrossShardProposal`
  unfoldable pub add_cross_shard_proposal : HeightData b → CrossShardProposal → Received b
  unfolding accept_cross_shard_proposal signed_power verify_signatures precommit_sign_proto
  add_cross_shard_proposal h csp =
      let a = csp.aggregated_signatures in
      let chain_id = a.header.chain_id in
      let bv = a.validator_bit_vector in
      let votes = Option.get_or (lookup chain_id h.shard_votes) (pos 0) in
      if not (eq_ℤ a.header.height h.height)
      then done (h, some do_nothing)
      else elim (lookup chain_id h.cross_shard_proposals) [
        | some old ↦ done (h, some do_nothing)
        | none ↦
            verify_signatures b w.encode_precommit a (lookup chain_id h.all_validator_set)
              (to_bytes bv)
            >>= λ ok.
                if not ok
                then done (h, some bad_signature)
                else signed_power bv (peers_of h.shard_info chain_id) (size bv) 0 (pos 0)
                  >>= λ total.
                      if not (ltb_ℤ (wrap_int32 (div_ℤ (votes +ℤ votes) 3)) total)
                      then done (h, some too_few_votes)
                      else accept_cross_shard_proposal h csp
      ]

  abbrev pub is_set : Text → Table Text Bool → Bool
  is_set k m = Option.get_or (lookup k m) false

  -- `AddCrossShardAccept`: the counter moves when the shard's votes have their majority.
  unfoldable pub add_cross_shard_accept : HeightData b → CrossShardAccept → Received b
  unfolding add_csa
  add_cross_shard_accept h csa =
      if not (eq_ℤ csa.height h.height)
      then done (h, some do_nothing)
      else if not (bytes_equal csa.upper_chain_id h.my_chain_id)
      then done (h, some wrong_upper)
      else if not (is_set csa.accept_chain_id h.shard_info.related_shards)
      then done (h, some not_related)
      else elim (lookup csa.accept_chain_id h.cross_shard_accepts) [
        | none ↦ done (h, some not_lower)
        | some s ↦ add_csa b w.encode_accept s csa >>= λ r.
            let kept = record h {
              cross_shard_accepts = insert csa.accept_chain_id r.0 h.cross_shard_accepts;
            } in
            elim r.1 [
              | some e ↦ done (kept, some (csa_error e))
              | none ↦ done (
                (if not s.has_maj23_flag && (r.0).has_maj23_flag
                    then record kept {
                      cross_shard_accept_finish_counter =
                          kept.cross_shard_accept_finish_counter + 1;
                    }
                    else kept),
                none,
              )
            ]
      ]

  -- `ValidateVote` for a shard; without validators it reads a nil set, but after it has read the bit
  -- vector and seen that there are peers.
  abbrev pub validate_vote_of :
      HeightData b
      → CrossShardCommit
      → ℕ
      → Text
      → Option (Verifier b)
      → Outcome (Option CommitError)
  validate_vote_of h csc i chain_id none =
      or_panic (get_elem? csc.validator_bit_vector_list i) >>= λ bv.
      if length (peers_of h.shard_info chain_id) == 0 then done (some nil_peer_list) else panic
  validate_vote_of h csc i chain_id (some v) =
      validate_vote b w.encode_accept csc (peers_of h.shard_info chain_id) v i
        (wrap_int32 (Option.get_or (lookup chain_id h.shard_votes) (pos 0)))

  -- The loop of `AddCrossShardCommit` over the shards that are related to the sender's.
  unfoldable pub check_commit :
      HeightData b → CrossShardCommit → ℕ → List Text → Outcome (Option HeightError)
  unfolding validate_vote
  check_commit h csc i [] = done none
  check_commit h csc i (chain_id ∷ rest) = or_panic (get_elem? csc.chain_list i) >>= λ named.
      if not (bytes_equal chain_id named)
      then done (some wrong_chain_list)
      else validate_vote_of h csc i chain_id (lookup chain_id h.all_validator_set) >>= λ e. elim e [
        | some x ↦ done (some (commit_error x))
        | none ↦ check_commit h csc (suc i) rest
      ]

  -- `AddCrossShardCommit`; passing the commit on is left out.
  unfoldable pub add_cross_shard_commit : HeightData b → CrossShardCommit → Received b
  unfolding check_commit
  add_cross_shard_commit h csc =
      let s = h.shard_info in
      let related = Option.get_or (lookup csc.upper_chain_id s.peer_related_map) [] in
      if not (eq_ℤ csc.height h.height)
      then done (h, some do_nothing)
      else elim (lookup csc.upper_chain_id h.cross_shard_commits) [
        | some old ↦ done (h, some do_nothing)
        | none ↦
            if not (is_set csc.upper_chain_id s.related_shards)
              && not (is_set csc.upper_chain_id s.related_2_level_shards)
            then done (h, some not_related)
            else if not (length csc.chain_list == length related)
            then done (h, some wrong_chain_list)
            else check_commit h csc 0 related >>= λ e. elim e [
              | some x ↦ done (h, some x)
              | none ↦ done (
                record h {
                  cross_shard_commits = insert csc.upper_chain_id csc h.cross_shard_commits;
                },
                none,
              )
            ]
      ]
