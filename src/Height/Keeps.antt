-- ===== src/Height/Keeps.antt =====
-- No message moves the height or the round of the data that it is added to.
use melete.Base.{
  ◌≡◌, refl, ◌∙◌, List, [], ◌∷◌, Option, none, some, Bool, true, false, not, ◌||◌, ◌&&◌, ◌==◌,
  if◌then◌else◌, length,
}
use mathlib.Core.Option
use melete.Base.Int.{ℤ, pos, eq_ℤ, ltb_ℤ, ◌+ℤ◌, wrap_int32, div_ℤ}
use melete.Base.Bytes.{bytes_equal}
use melete.Base.Outcome.{
  or_panic, Holds, returns, Holds-bind, Holds-any, Holds-if, Holds-option, Holds-weaken,
}
use melete.Base.Table.{lookup, insert, bytes_eq}
use melete.Merkle.{HashFunction}
use melete.Block.{Codec}
use melete.PartSet.{
  Part, PartSet, PartError, duplicated_part, Generated, generated, failed, add_part, is_complete,
  new_part_set,
}
use melete.Signer.{Bls, verify_signature}
use melete.BitVector.{size, to_bytes}
use melete.Accepts.{CrossShardAccept, add_csa}
use melete.Vote.{Proposal, Ballot, proposal_sign_proto}
use melete.Vote.Cross.{CrossShardProposal, CrossShardCommit, verify_signatures}
use melete.Height.{HeightData, HeightError, Wire, peers_of, recount}
use melete.Height.Receive.{
  add_prevote, add_precommit, add_inner_part, after_part, keep_block, add_parts, recalculate,
  accept_proposal, add_proposal, waiting_parts,
}
use melete.Height.Cross.{
  accept_cross_shard_proposal, add_cross_shard_proposal, add_cross_shard_accept,
  add_cross_shard_commit, signed_power, is_set, check_commit,
}

module _ (b : Bls) where
  abbrev pub Keeps : HeightData b → HeightData b → Type 0
  Keeps h g = (g.height ≡ h.height) × (g.round ≡ h.round)

  -- The same of what a call returns.
  abbrev pub Kept : HeightData b → (HeightData b × Option HeightError) → Type 0
  Kept h r = Keeps h r.0

  module _ (f : HashFunction) (c : Codec) (w : Wire) where
    pub add_prevote-Kept :
        (h : HeightData b) (p : Ballot) → Holds (Kept h) (add_prevote b f c w h p)
    unfolding add_prevote
    add_prevote-Kept h p = Holds-any _ (λ r. (returns (refl, refl)))

    pub add_precommit-Kept :
        (h : HeightData b) (p : Ballot) → Holds (Kept h) (add_precommit b f c w h p)
    unfolding add_precommit
    add_precommit-Kept h p = Holds-any _ (λ r. (returns (refl, refl)))

    keep_block-Kept :
        (h : HeightData b) (p : Part) (g : Generated) → Kept h (keep_block b f c w h p.chain_id g)
    keep_block-Kept h p (generated block) = (refl, refl)
    keep_block-Kept h p (failed e) = (refl, refl)

    after_part-Kept :
        (h : HeightData b) (p : Part) (ps : PartSet) (e : Option PartError)
        → Holds (Kept h) (after_part b f c w h p ps e)
    after_part-Kept h p ps none =
        Holds-if (is_complete ps) (Holds-any _ (λ g. returns (keep_block-Kept h p g)))
          (returns (refl, refl))
    after_part-Kept h p ps (some duplicated_part) = returns (refl, refl)
    after_part-Kept h p ps (some e) = returns (refl, refl)

    pub add_inner_part-Kept :
        (h : HeightData b) (p : Part) → Holds (Kept h) (add_inner_part b f c w h p)
    unfolding add_inner_part
    add_inner_part-Kept h p = Holds-if _ (returns (refl, refl)) (
        Holds-option (lookup p.chain_id h.cross_shard_part_sets) (returns (refl, refl)) (λ ps.
          Holds-any (add_part f ps p) (λ r.
            after_part-Kept
              (record h { cross_shard_part_sets = insert p.chain_id r.0 h.cross_shard_part_sets }) p
              r.0 r.1)))

    add_parts-Keeps : (h : HeightData b) (ps : List Part) → Holds (Keeps h) (add_parts b f c w h ps)
    unfolding add_parts
    add_parts-Keeps h [] = returns (refl, refl)
    add_parts-Keeps h (p ∷ ps) =
        Holds-bind (add_inner_part-Kept h p)
          (λ r k. Holds-weaken (add_parts-Keeps r.0 ps) (λ g l. (l.0 ∙ k.0, l.1 ∙ k.1)))

    recalculate-Keeps :
        (h : HeightData b) (p : Proposal) → Holds (Keeps h) (recalculate b f c w h p)
    unfolding recalculate
    recalculate-Keeps h p =
        let peers = peers_of h.shard_info h.my_chain_id in
        Holds-any (recount peers p 0 h.prevotes.ballots h.prevotes) (λ v.
          Holds-any (recount peers p 0 h.precommits.ballots h.precommits)
            (λ u. returns (refl, refl)))

    accept_proposal-Kept :
        (h : HeightData b) (p : Proposal) → Holds (Kept h) (accept_proposal b f c w h p)
    unfolding accept_proposal
    accept_proposal-Kept h p = Holds-any (new_part_set p.header p.block_header_hash) (λ ps.
        Holds-bind
          (add_parts-Keeps
            (record h {
              proposal = some p;
              cross_shard_part_sets = insert h.my_chain_id ps h.cross_shard_part_sets;
            })
            (waiting_parts b f c w h p.header.chain_id))
          (λ g k. Holds-bind (recalculate-Keeps g p) (λ j l. returns (l.0 ∙ k.0, l.1 ∙ k.1))))

    pub add_proposal-Kept :
        (h : HeightData b) (p : Proposal) (i : ℤ) → Holds (Kept h) (add_proposal b f c w h p i)
    unfolding add_proposal
    add_proposal-Kept h p i =
        Holds-option h.proposal
          (Holds-if (not (eq_ℤ h.height p.header.height) || not (eq_ℤ h.round p.header.round))
            (returns (refl, refl))
            (Holds-if (not (eq_ℤ p.proposer_index i)) (returns (refl, refl)) (
              Holds-if (not (bytes_equal p.header.chain_id h.my_chain_id)) (returns (refl, refl)) (
                Holds-any (or_panic (lookup h.my_chain_id h.all_validator_set)) (λ v.
                  Holds-any
                    (verify_signature b v p.signature (w.encode_proposal (proposal_sign_proto p)) i)
                    (λ ok. Holds-if (not ok) (returns (refl, refl)) (accept_proposal-Kept h p)))))))
          (λ q. returns (refl, refl))

    accept_csp-Kept :
        (h : HeightData b) (p : CrossShardProposal)
        → Holds (Kept h) (accept_cross_shard_proposal b f c w h p)
    unfolding accept_cross_shard_proposal
    accept_csp-Kept h p =
        let a = p.aggregated_signatures in
        Holds-any (new_part_set a.header a.block_header_hash) (λ ps.
          Holds-bind
            (add_parts-Keeps
              (record h {
                cross_shard_proposals = insert a.header.chain_id p h.cross_shard_proposals;
                cross_shard_part_sets = insert a.header.chain_id ps h.cross_shard_part_sets;
              })
              (waiting_parts b f c w h a.header.chain_id))
            (λ g k. returns k))

    pub add_cross_shard_proposal-Kept :
        (h : HeightData b) (p : CrossShardProposal)
        → Holds (Kept h) (add_cross_shard_proposal b f c w h p)
    unfolding add_cross_shard_proposal
    add_cross_shard_proposal-Kept h p =
        let a = p.aggregated_signatures in
        let chain_id = a.header.chain_id in
        let bv = a.validator_bit_vector in
        let votes = Option.get_or (lookup chain_id h.shard_votes) (pos 0) in
        Holds-if (not (eq_ℤ a.header.height h.height)) (returns (refl, refl)) (
          Holds-option (lookup chain_id h.cross_shard_proposals)
            (Holds-any
              (verify_signatures b w.encode_precommit a (lookup chain_id h.all_validator_set)
                (to_bytes bv))
              (λ ok. Holds-if (not ok) (returns (refl, refl)) (
                Holds-any
                  (signed_power b f c w bv (peers_of h.shard_info chain_id) (size bv) 0 (pos 0))
                  (λ total.
                    Holds-if (not (ltb_ℤ (wrap_int32 (div_ℤ (votes +ℤ votes) 3)) total))
                      (returns (refl, refl)) (accept_csp-Kept h p)))))
            (λ old. returns (refl, refl)))

    Keeps-if :
        (h : HeightData b) (x : Bool) (g j : HeightData b)
        → Keeps h g
        → Keeps h j
        → Keeps h (if x then g else j)
    Keeps-if h true g j k l = k
    Keeps-if h false g j k l = l

    pub add_cross_shard_accept-Kept :
        (h : HeightData b) (p : CrossShardAccept)
        → Holds (Kept h) (add_cross_shard_accept b f c w h p)
    unfolding add_cross_shard_accept
    add_cross_shard_accept-Kept h p =
        Holds-if (not (eq_ℤ p.height h.height)) (returns (refl, refl)) (
          Holds-if (not (bytes_equal p.upper_chain_id h.my_chain_id)) (returns (refl, refl)) (
            Holds-if (not (is_set b f c w p.accept_chain_id h.shard_info.related_shards))
              (returns (refl, refl))
              (Holds-option (lookup p.accept_chain_id h.cross_shard_accepts) (returns (refl, refl))
                (λ s. Holds-any (add_csa b w.encode_accept s p) (λ r.
                  Holds-option r.1
                    (returns (
                      Keeps-if h (not s.has_maj23_flag && (r.0).has_maj23_flag) _ _ (refl, refl)
                        (refl, refl)))
                    (λ e. returns (refl, refl)))))))

    pub add_cross_shard_commit-Kept :
        (h : HeightData b) (p : CrossShardCommit)
        → Holds (Kept h) (add_cross_shard_commit b f c w h p)
    unfolding add_cross_shard_commit
    add_cross_shard_commit-Kept h p =
        let s = h.shard_info in
        let related = Option.get_or (lookup p.upper_chain_id s.peer_related_map) [] in
        Holds-if (not (eq_ℤ p.height h.height)) (returns (refl, refl)) (
          Holds-option (lookup p.upper_chain_id h.cross_shard_commits)
            (Holds-if
              (not (is_set b f c w p.upper_chain_id s.related_shards)
                && not (is_set b f c w p.upper_chain_id s.related_2_level_shards))
              (returns (refl, refl))
              (Holds-if (not (length p.chain_list == length related)) (returns (refl, refl)) (
                Holds-any (check_commit b f c w h p 0 related)
                  (λ e. Holds-option e (returns (refl, refl)) (λ x. returns (refl, refl))))))
            (λ old. returns (refl, refl)))
