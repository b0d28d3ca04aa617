-- ===== src/Height/Step.antt =====
-- The `Finish...` methods: the round step that the messages of a height have reached.
use melete.Base.{
  ℕ, ◌+◌, [], ◌∷◌, none, some, Bool, true, false, not, ◌&&◌, if◌then◌else◌, length, ltb, leb,
}
use mathlib.Core.Option
use melete.Base.Bytes.{Text}
use melete.Base.Int.{ℤ, pos, ltb_ℤ, ◌+ℤ◌, div_ℤ}
use melete.Base.Table.{Table, lookup, bytes_eq}
use melete.Signer.{Bls}
use melete.Height.{HeightData}

-- The constants of round-step.go, by `iota`; the step of a bridge's cross-shard proposal is the one
-- of an accept.
abbrev pub round_step_new_height : ℕ
round_step_new_height = 1

abbrev pub round_step_propose : ℕ
round_step_propose = 3

abbrev pub round_step_prevote : ℕ
round_step_prevote = 4

abbrev pub round_step_precommit : ℕ
round_step_precommit = 5

abbrev pub round_step_cross_shard_accept : ℕ
round_step_cross_shard_accept = 6

abbrev pub round_step_cross_shard_propose : ℕ
round_step_cross_shard_propose = 6

abbrev pub round_step_cross_shard_commit : ℕ
round_step_cross_shard_commit = 7

abbrev pub is_present : {A : Type 0} → Table Text A → Text → Bool
is_present m k = elim (lookup k m) [ none ↦ false | some a ↦ true ]

-- Every key of the first map is in the second one.
unfoldable pub all_present : {A B : Type 0} → Table Text A → Table Text B → Bool
all_present [] m = true
all_present ((k, a) ∷ rest) m = is_present m k && all_present rest m

-- `total > votes[me]*2/3`, on 64 bits.
abbrev pub has_two_thirds : ℤ → ℤ → Bool
has_two_thirds votes total = ltb_ℤ (div_ℤ (votes +ℤ votes) 3) total

module _ (b : Bls) where
  abbrev pub my_votes : HeightData b → ℤ
  my_votes h = Option.get_or (lookup h.my_chain_id h.shard_votes) (pos 0)

  -- A step that is reached already, or else when `before` answers true and the test holds.
  abbrev pub advance : ℕ → HeightData b → (HeightData b × Bool) → Bool → HeightData b × Bool
  advance step h before test =
      if leb step h.pass_step
      then (h, true)
      else if not before.1
      then (before.0, false)
      else if not test
      then (before.0, false)
      else (record before.0 { pass_step = step }, true)

  -- `FinishProposal`
  unfoldable pub finish_proposal : HeightData b → HeightData b × Bool
  finish_proposal h = if leb round_step_propose h.pass_step then (h, true) else elim h.proposal [
    | none ↦ (h, false)
    | some p ↦
        if not (is_present h.cross_shard_blocks h.my_chain_id)
        then (h, false)
        else (record h { pass_step = round_step_propose }, true)
  ]

  -- `FinishPrevote`
  unfoldable pub finish_prevote : HeightData b → HeightData b × Bool
  unfolding finish_proposal
  finish_prevote h =
      advance round_step_prevote h (finish_proposal h)
        (has_two_thirds (my_votes h) h.prevotes.total)

  -- `FinishPrecommit`
  unfoldable pub finish_precommit : HeightData b → HeightData b × Bool
  unfolding finish_prevote
  finish_precommit h =
      advance round_step_precommit h (finish_prevote h)
        (has_two_thirds (my_votes h) h.precommits.total)

  -- `FinishCrossShardAccept`
  unfoldable pub finish_cross_shard_accept : HeightData b → HeightData b × Bool
  unfolding finish_precommit all_present
  finish_cross_shard_accept h =
      let related = h.shard_info.related_shards in
      advance round_step_cross_shard_accept h (finish_precommit h) (
        not (ltb (length h.cross_shard_proposals) (length related + 1))
        && (not (ltb (length h.cross_shard_blocks) (length related + 1))
            && (all_present related h.cross_shard_proposals
                && all_present related h.cross_shard_blocks)))

  -- `FinishCrossShardProposal`
  unfoldable pub finish_cross_shard_proposal : HeightData b → HeightData b × Bool
  unfolding finish_precommit
  finish_cross_shard_proposal h =
      advance round_step_cross_shard_propose h (finish_precommit h)
        (not (ltb h.cross_shard_accept_finish_counter (length h.shard_info.related_shards)))

  -- `FinishCrossShardCommit_I`
  unfoldable pub finish_cross_shard_commit_i : HeightData b → HeightData b × Bool
  unfolding finish_cross_shard_accept all_present
  finish_cross_shard_commit_i h =
      let related = h.shard_info.related_shards in
      advance round_step_cross_shard_commit h (finish_cross_shard_accept h) (
        not (ltb (length h.cross_shard_commits) (length related))
        && all_present related h.cross_shard_commits)

  -- The tests of `FinishCrossShardCommit_B` on the maps.
  unfoldable pub has_all_commits : HeightData b → Bool
  unfolding all_present
  has_all_commits h =
      let related = h.shard_info.related_shards in
      let second = h.shard_info.related_2_level_shards in
      let shards = length related + length second + 1 in
      not (ltb (length h.cross_shard_commits) (length second + 1))
      && (not (ltb (length h.cross_shard_proposals) shards)
          && (not (ltb (length h.cross_shard_blocks) shards)
              && (all_present related h.cross_shard_blocks
                  && (all_present related h.cross_shard_proposals
                      && (all_present second h.cross_shard_blocks
                          && (all_present second h.cross_shard_proposals
                              && all_present second h.cross_shard_commits))))))

  -- `FinishCrossShardCommit_B`, which does not move the step.
  unfoldable pub finish_cross_shard_commit_b : HeightData b → HeightData b × Bool
  unfolding finish_cross_shard_proposal has_all_commits
  finish_cross_shard_commit_b h =
      if leb round_step_cross_shard_commit h.pass_step
      then (h, true)
      else let before = finish_cross_shard_proposal h in
        if not before.1 then (before.0, false) else (before.0, has_all_commits h)
