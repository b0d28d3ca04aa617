-- ===== src/Height/Still.antt =====
-- The `Finish...` methods keep the height and the round.
use melete.Base.{
  ℕ, ◌+◌, refl, Option, none, some, Bool, true, false, not, ◌&&◌, if◌then◌else◌, length, ltb, leb,
}
use melete.Base.Table.{bytes_eq}
use melete.Signer.{Bls}
use melete.Vote.{Proposal}
use melete.Height.{HeightData}
use melete.Height.Step.{
  round_step_propose, is_present, advance, finish_proposal, finish_prevote, finish_precommit,
  finish_cross_shard_accept, finish_cross_shard_proposal, finish_cross_shard_commit_i,
  finish_cross_shard_commit_b, has_all_commits, round_step_cross_shard_commit, round_step_prevote,
  round_step_precommit, round_step_cross_shard_accept, round_step_cross_shard_propose,
  has_two_thirds, my_votes, all_present,
}
use melete.Height.Keeps.{Keeps}

module _ (b : Bls) where
  abbrev pub Still : HeightData b → (HeightData b × Bool) → Type 0
  Still h r = Keeps b h r.0

  Still-if :
      (h : HeightData b) (x : Bool) (r s : HeightData b × Bool)
      → Still h r
      → Still h s
      → Still h (if x then r else s)
  Still-if h true r s k l = k
  Still-if h false r s k l = l

  Still-advance :
      (step : ℕ) (h : HeightData b) (before : HeightData b × Bool) (ok : Bool)
      → Still h before
      → Still h (advance b step h before ok)
  Still-advance step h before ok k =
      let passed =
        if not ok then (before.0, false) else (record before.0 { pass_step = step }, true) in
      Still-if h (leb step h.pass_step) (h, true)
        (if not before.1 then (before.0, false) else passed) (refl, refl)
        (Still-if h (not before.1) (before.0, false) passed k
          (Still-if h (not ok) (before.0, false) (record before.0 { pass_step = step }, true) k k))

  pub finish_proposal-Still : (h : HeightData b) → Still h (finish_proposal b h)
  unfolding finish_proposal
  finish_proposal-Still h =
      Still-if h (leb round_step_propose h.pass_step) _ _ (refl, refl) (proposed h.proposal)
    where
      proposed :
          (p : Option Proposal)
          → Still h (elim p [
            | none ↦ (h, false)
            | some q ↦
                if not (is_present h.cross_shard_blocks h.my_chain_id)
                then (h, false)
                else (record h { pass_step = round_step_propose }, true)
          ])
      proposed none = (refl, refl)
      proposed (some q) =
          Still-if h (not (is_present h.cross_shard_blocks h.my_chain_id)) _ _ (refl, refl)
            (refl, refl)

  pub finish_prevote-Still : (h : HeightData b) → Still h (finish_prevote b h)
  unfolding finish_prevote
  finish_prevote-Still h =
      Still-advance round_step_prevote h (finish_proposal b h)
        (has_two_thirds (my_votes b h) h.prevotes.total) (finish_proposal-Still h)

  pub finish_precommit-Still : (h : HeightData b) → Still h (finish_precommit b h)
  unfolding finish_precommit
  finish_precommit-Still h =
      Still-advance round_step_precommit h (finish_prevote b h)
        (has_two_thirds (my_votes b h) h.precommits.total) (finish_prevote-Still h)

  pub finish_accept-Still : (h : HeightData b) → Still h (finish_cross_shard_accept b h)
  unfolding finish_cross_shard_accept
  finish_accept-Still h =
      let related = h.shard_info.related_shards in
      Still-advance round_step_cross_shard_accept h (finish_precommit b h)
        (not (ltb (length h.cross_shard_proposals) (length related + 1))
          && (not (ltb (length h.cross_shard_blocks) (length related + 1))
              && (all_present related h.cross_shard_proposals
                  && all_present related h.cross_shard_blocks)))
        (finish_precommit-Still h)

  pub finish_csp-Still : (h : HeightData b) → Still h (finish_cross_shard_proposal b h)
  unfolding finish_cross_shard_proposal
  finish_csp-Still h =
      Still-advance round_step_cross_shard_propose h (finish_precommit b h)
        (not (ltb h.cross_shard_accept_finish_counter (length h.shard_info.related_shards)))
        (finish_precommit-Still h)

  pub finish_commit_i-Still : (h : HeightData b) → Still h (finish_cross_shard_commit_i b h)
  unfolding finish_cross_shard_commit_i
  finish_commit_i-Still h =
      let related = h.shard_info.related_shards in
      Still-advance round_step_cross_shard_commit h (finish_cross_shard_accept b h)
        (not (ltb (length h.cross_shard_commits) (length related))
          && all_present related h.cross_shard_commits)
        (finish_accept-Still h)

  pub finish_commit_b-Still : (h : HeightData b) → Still h (finish_cross_shard_commit_b b h)
  unfolding finish_cross_shard_commit_b
  finish_commit_b-Still h =
      let before = finish_cross_shard_proposal b h in
      Still-if h (leb round_step_cross_shard_commit h.pass_step) (h, true)
        (if not before.1 then (before.0, false) else (before.0, has_all_commits b h)) (refl, refl)
        (Still-if h (not before.1) (before.0, false) (before.0, has_all_commits b h)
          (finish_csp-Still h) (finish_csp-Still h))
