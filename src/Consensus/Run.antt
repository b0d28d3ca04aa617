-- ===== src/Consensus/Run.antt =====
-- main.go: the messages that a node takes (`doMessage`, `Receive`) and the steps that it makes
-- (`handleStateTransition`, `Start`).
use melete.Base.{
  ℕ, zero, suc, List, [], ◌∷◌, ◌++◌, map, Option, none, some, Bool, true, false, not, ◌&&◌,
  if◌then◌else◌, ◌==◌,
}
use mathlib.Core.Option
use melete.Base.Int.{ℤ, pos, eq_ℤ}
use melete.Base.Outcome.{Outcome, done, panic, ◌>>=◌}
use melete.Merkle.{HashFunction}
use melete.Block.{Codec}
use melete.PartSet.{validate_part}
use melete.Signer.{Bls}
use melete.Vote.{validate_proposal, validate_prevote, validate_precommit}
use melete.Vote.Cross.{validate_cross_shard_proposal}
use melete.Height.{HeightData, HeightError, Wire, do_nothing}
use melete.Height.Receive.{Received, add_inner_part, add_proposal, add_prevote, add_precommit}
use melete.Height.Cross.{add_cross_shard_proposal, add_cross_shard_accept, add_cross_shard_commit}
use melete.Height.Step.{
  finish_proposal, finish_prevote, finish_precommit, finish_cross_shard_accept,
  finish_cross_shard_proposal, finish_cross_shard_commit_i, finish_cross_shard_commit_b,
  round_step_propose, round_step_prevote, round_step_precommit, round_step_cross_shard_accept,
  round_step_cross_shard_commit,
}
use melete.Consensus.{
  Node, ConsensusState, Message, part_message, proposal_message, prevote_message, precommit_message,
  cross_shard_proposal_message, cross_shard_accept_message, cross_shard_commit_message, is_i_shard,
  is_c_shard, add_relay_message_if_over_time, calculate_proposer, with_datas,
}
use melete.Consensus.Create.{enter_new_height}
use melete.Consensus.Ballots.{do_propose, do_prevote, do_precommit}
use melete.Consensus.Cross.{do_csa, do_csp, do_csc_i, do_csc_c}

-- The calls of the two methods that call each other.
pub data Call : Type 0 where
  transition : Call
  do_message : Message → Call

abbrev is_none : {A : Type 0} → Option A → Bool
is_none none = true
is_none (some a) = false

-- The height and round that a message is for; a message of another shard is for round 0.
unfoldable pub moment_of : Message → ℤ × ℤ
moment_of (part_message m) = (m.height, m.round)
moment_of (proposal_message m) = (m.header.height, m.header.round)
moment_of (prevote_message m) = (m.height, m.round)
moment_of (precommit_message m) = (m.height, m.round)
moment_of (cross_shard_proposal_message m) = (m.aggregated_signatures.header.height, pos 0)
moment_of (cross_shard_accept_message m) = (m.height, pos 0)
moment_of (cross_shard_commit_message m) = (m.height, pos 0)

module _ (b : Bls) (f : HashFunction) (c : Codec) (w : Wire) (n : Node) where
  -- What a call does: the state, its error, and the calls that it goes on with.
  abbrev pub Ran : Type 0
  Ran = Outcome (ConsensusState b n × Option HeightError × List Call)

  -- The branch of `doMessage` for each kind of message, on the data of the height.
  unfoldable pub take_message : ConsensusState b n → Message → Received b
  unfolding add_inner_part add_proposal add_prevote add_precommit add_cross_shard_proposal
      add_cross_shard_accept add_cross_shard_commit calculate_proposer
  take_message s (part_message m) = add_inner_part b f c w s.height_datas m
  take_message s (proposal_message m) =
      calculate_proposer b n s >>= add_proposal b f c w s.height_datas m
  take_message s (prevote_message m) = add_prevote b f c w s.height_datas m
  take_message s (precommit_message m) = add_precommit b f c w s.height_datas m
  take_message s (cross_shard_proposal_message m) =
      add_cross_shard_proposal b f c w s.height_datas m
  take_message s (cross_shard_accept_message m) = add_cross_shard_accept b f c w s.height_datas m
  take_message s (cross_shard_commit_message m) = add_cross_shard_commit b f c w s.height_datas m

  -- After the message was taken: `DoNothing` is no error, and without an error the steps go on.
  abbrev pub taken : ConsensusState b n → HeightData b × Option HeightError → Ran
  taken s (h, some do_nothing) = done (with_datas b n s h, none, [])
  taken s (h, some e) = done (with_datas b n s h, some e, [])
  taken s (h, none) = done (with_datas b n s h, none, transition ∷ [])

  -- `doMessage`
  unfoldable pub run_message : ConsensusState b n → Message → Ran
  unfolding add_relay_message_if_over_time take_message moment_of
  run_message s m =
      let r = add_relay_message_if_over_time b n s (moment_of m).0 (moment_of m).1 m in
      if r.1 then done (r.0, none, []) else take_message r.0 m >>= taken r.0

  -- A step that is finished goes on with its action, and one that is not ends the call.
  abbrev pub on_finished :
      ConsensusState b n
      → HeightData b × Bool
      → (ConsensusState b n → Outcome (ConsensusState b n × List Message))
      → Ran
  on_finished s (h, false) act = done (with_datas b n s h, none, [])
  on_finished s (h, true) act =
      act (with_datas b n s h) >>= λ r. done (r.0, none, map do_message r.1 ++ (transition ∷ []))

  -- An action that enters no new height.
  abbrev pub in_height :
      (ConsensusState b n → Outcome (ConsensusState b n))
      → ConsensusState b n
      → Outcome (ConsensusState b n × List Message)
  in_height act s = act s >>= λ s'. done (s', [])

  -- `handleStateTransition`: in a step that it does not name it calls itself.
  unfoldable pub run_transition : ConsensusState b n → Ran
  unfolding finish_proposal finish_prevote finish_precommit finish_cross_shard_accept
      finish_cross_shard_proposal finish_cross_shard_commit_i finish_cross_shard_commit_b do_propose
      do_prevote do_precommit do_csa do_csp do_csc_i do_csc_c
  run_transition s =
      let h = s.height_datas in
      if s.step == round_step_propose
      then on_finished s (finish_proposal b h) (in_height (do_propose b f c w n))
      else if s.step == round_step_prevote
      then on_finished s (finish_prevote b h) (in_height (do_prevote b f c w n))
      else if s.step == round_step_precommit
      then on_finished s (finish_precommit b h) (in_height (do_precommit b f c w n))
      else if s.step == round_step_cross_shard_accept
      then (if is_i_shard b n s
          then on_finished s (finish_cross_shard_accept b h) (in_height (do_csa b f c w n))
          else if is_c_shard b n s
          then on_finished s (finish_cross_shard_proposal b h) (in_height (do_csp b f c w n))
          else done (s, none, []))
      else if s.step == round_step_cross_shard_commit
      then (if is_i_shard b n s
          then on_finished s (finish_cross_shard_commit_i b h) (do_csc_i b f c w n)
          else if is_c_shard b n s
          then on_finished s (finish_cross_shard_commit_b b h) (do_csc_c b f c w n)
          else done (s, none, []))
      else done (s, none, transition ∷ [])

  unfoldable pub run_call : ConsensusState b n → Call → Ran
  unfolding run_message run_transition
  run_call s transition = run_transition s
  run_call s (do_message m) = run_message s m

  -- The calls that wait, one after the other, with fuel: `none` is not at the end yet. The errors of
  -- inner calls are dropped, as the code drops them.
  unfoldable pub run_calls :
      ℕ → List Call → ConsensusState b n → Option (Outcome (ConsensusState b n))
  unfolding run_call
  run_calls fuel [] s = some (done s)
  run_calls zero (x ∷ xs) s = none
  run_calls (suc fuel) (x ∷ xs) s = elim (run_call s x) [
    | panic ↦ some panic
    | done r ↦ run_calls fuel (r.2 ++ xs) r.0
  ]

  -- `Start`
  unfoldable pub start : ℕ → ConsensusState b n → Option (Outcome (ConsensusState b n))
  unfolding enter_new_height run_calls
  start fuel s =
      if eq_ℤ s.height (pos 0)
      then elim (enter_new_height b f c w n s) [
        | panic ↦ some panic
        | done r ↦ run_calls fuel (map do_message r.1) r.0
      ]
      else run_calls fuel (transition ∷ []) s

  -- `Receive` on a message that was decoded: its `ValidateBasic`, which accepts and commits pass, and
  -- `doMessage`.
  pub data ReceiveError : Type 0 where
    unmarshal_error invalid_message accept_at_i_shard unknown_type : ReceiveError
    refused : HeightError → ReceiveError

  unfoldable pub is_valid : Message → Bool
  unfolding validate_part validate_proposal validate_prevote validate_precommit
      validate_cross_shard_proposal
  is_valid (part_message m) = is_none (validate_part m)
  is_valid (proposal_message m) = is_none (validate_proposal m)
  is_valid (prevote_message m) = is_none (validate_prevote m)
  is_valid (precommit_message m) = is_none (validate_precommit m)
  is_valid (cross_shard_proposal_message m) = is_none (validate_cross_shard_proposal m)
  is_valid (cross_shard_accept_message m) = true
  is_valid (cross_shard_commit_message m) = true

  abbrev pub is_accept : Message → Bool
  is_accept (cross_shard_accept_message m) = true
  is_accept (part_message m) = false
  is_accept (proposal_message m) = false
  is_accept (prevote_message m) = false
  is_accept (precommit_message m) = false
  is_accept (cross_shard_proposal_message m) = false
  is_accept (cross_shard_commit_message m) = false

  -- The end of `Receive`: the calls that the message leads to, and its own error.
  abbrev received : ℕ → Ran → Option (Outcome (ConsensusState b n × Option ReceiveError))
  received fuel panic = some panic
  received fuel (done (s, e, calls)) =
      Option.map (λ o. o >>= λ s'. done (s', Option.map refused e)) (run_calls fuel calls s)

  unfoldable pub receive :
      ℕ → ConsensusState b n → Message → Option (Outcome (ConsensusState b n × Option ReceiveError))
  unfolding is_valid run_message run_calls
  receive fuel s m =
      if is_accept m && is_i_shard b n s
      then some (done (s, some accept_at_i_shard))
      else if not (is_valid m)
      then some (done (s, some invalid_message))
      else received fuel (run_message s m)
