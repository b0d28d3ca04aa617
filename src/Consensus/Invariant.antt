-- ===== src/Consensus/Invariant.antt =====
-- Whatever messages a node takes, it stays at the height of its data and in one of the five steps.
use melete.Base.{
  ℕ, ◌<◌, ◌≡◌, ◌∙◌, List, [], ◌∷◌, Option, none, some, Bool, true, false, if◌then◌else◌, ◌==◌,
  arith, ==_iff,
}
use melete.Base.Outcome.{
  Outcome, done, ◌>>=◌, Holds, returns, Holds-bind, Holds-any, Holds-if, Holds-split, Holds-done,
}
use melete.Merkle.{HashFunction}
use melete.Block.{Codec}
use melete.Signer.{Bls}
use melete.Height.{HeightData, HeightError, Wire, do_nothing}
use melete.Height.Step.{
  finish_proposal, finish_prevote, finish_precommit, finish_cross_shard_accept,
  finish_cross_shard_proposal, finish_cross_shard_commit_i, finish_cross_shard_commit_b,
}
use melete.Height.Keeps.{
  Keeps, Kept, add_prevote-Kept, add_precommit-Kept, add_inner_part-Kept, add_proposal-Kept,
  add_cross_shard_proposal-Kept, add_cross_shard_accept-Kept, add_cross_shard_commit-Kept,
}
use melete.Height.Still.{
  finish_proposal-Still, finish_prevote-Still, finish_precommit-Still, finish_accept-Still,
  finish_csp-Still, finish_commit_i-Still, finish_commit_b-Still,
}
use melete.Consensus.{
  Node, ConsensusState, Message, part_message, proposal_message, prevote_message, precommit_message,
  cross_shard_proposal_message, cross_shard_accept_message, cross_shard_commit_message, with_datas,
  is_i_shard, is_c_shard, calculate_proposer, add_relay_message_if_over_time,
}
use melete.Consensus.Ballots.{do_propose, do_prevote, do_precommit}
use melete.Consensus.Cross.{do_csa, do_csp, do_csc_i, do_csc_c}
use melete.Consensus.Run.{
  Call, transition, do_message, moment_of, take_message, taken, run_message, on_finished, in_height,
  run_transition, run_call,
}
use melete.Consensus.Relay.{add_relay_message-kept}
use melete.Consensus.Life.{Reach, entered, woken, comes, called}
use melete.Consensus.Begin.{enter_new_height-IsRunning}
use melete.Consensus.Moment.{IsRunning, IsEarly, with_datas-IsEarly}
use melete.Consensus.Acts.{
  do_propose-IsRunning, do_prevote-IsRunning, do_precommit-IsRunning, do_csa-IsRunning,
  do_csp-IsRunning,
}
use melete.Consensus.Ends.{do_csc_i-IsRunning, do_csc_c-IsRunning}

module _ (b : Bls) (f : HashFunction) (c : Codec) (w : Wire) (n : Node) where
  take_message-Kept :
      (s : ConsensusState b n) (m : Message)
      → Holds (Kept b s.height_datas) (take_message b f c w n s m)
  unfolding take_message
  take_message-Kept s (part_message m) = add_inner_part-Kept b f c w s.height_datas m
  take_message-Kept s (proposal_message m) =
      Holds-any (calculate_proposer b n s) (λ i. add_proposal-Kept b f c w s.height_datas m i)
  take_message-Kept s (prevote_message m) = add_prevote-Kept b f c w s.height_datas m
  take_message-Kept s (precommit_message m) = add_precommit-Kept b f c w s.height_datas m
  take_message-Kept s (cross_shard_proposal_message m) =
      add_cross_shard_proposal-Kept b f c w s.height_datas m
  take_message-Kept s (cross_shard_accept_message m) =
      add_cross_shard_accept-Kept b f c w s.height_datas m
  take_message-Kept s (cross_shard_commit_message m) =
      add_cross_shard_commit-Kept b f c w s.height_datas m

  -- The state that a call returns.
  abbrev Runs : ConsensusState b n × Option HeightError × List Call → Type 0
  Runs r = IsRunning b n r.0

  with_datas-IsRunning :
      (s : ConsensusState b n) (h : HeightData b)
      → IsRunning b n s
      → Keeps b s.height_datas h
      → IsRunning b n (with_datas b n s h)
  with_datas-IsRunning s h (a, r, z, l, u) k = (k.0 ∙ a, k.1 ∙ r, z, l, u)

  taken-IsRunning :
      (s : ConsensusState b n) (h : HeightData b) (e : Option HeightError)
      → IsRunning b n (with_datas b n s h)
      → Holds Runs (taken b f c w n s (h, e))
  taken-IsRunning s h none k = returns k
  taken-IsRunning s h (some do_nothing) k = returns k
  taken-IsRunning s h (some e) k = returns k

  run_message-IsRunning :
      (s : ConsensusState b n) (m : Message)
      → IsRunning b n s
      → Holds Runs (run_message b f c w n s m)
  unfolding run_message
  run_message-IsRunning s m k =
      after (add_relay_message_if_over_time b n s (moment_of m).0 (moment_of m).1 m)
        (let (u, e) = add_relay_message-kept b n s (moment_of m).0 (moment_of m).1 m in rw e k)
    where
      after :
          (p : ConsensusState b n × Bool)
          → IsRunning b n p.0
          → Holds Runs (
              if p.1
              then done (p.0, none, [])
              else take_message b f c w n p.0 m >>= taken b f c w n p.0)
      after p l = Holds-if p.1 (returns l) (
          Holds-bind (take_message-Kept p.0 m)
            (λ r kept. taken-IsRunning p.0 r.0 r.1 (with_datas-IsRunning p.0 r.0 l kept)))

  on_finished-IsRunning :
      (s : ConsensusState b n) (r : HeightData b × Bool)
      (act : ConsensusState b n → Outcome (ConsensusState b n × List Message))
      → IsRunning b n (with_datas b n s r.0)
      → Holds (λ x. IsRunning b n x.0) (act (with_datas b n s r.0))
      → Holds Runs (on_finished b f c w n s r act)
  on_finished-IsRunning s (h, false) act k g = returns k
  on_finished-IsRunning s (h, true) act k g = Holds-bind g (λ x l. returns l)

  in_height-IsRunning :
      (act : ConsensusState b n → Outcome (ConsensusState b n)) (s : ConsensusState b n)
      → Holds (IsRunning b n) (act s)
      → Holds (λ x. IsRunning b n x.0) (in_height b f c w n act s)
  in_height-IsRunning act s g = Holds-bind g (λ x l. returns l)

  early :
      (s : ConsensusState b n) (j : ℕ)
      → IsRunning b n s
      → j < 7
      → (s.step == j) ≡ true
      → IsEarly b n s
  early s j k lt e = (k, omega (arith, lt, (==_iff s.step j).0 e))

  -- A step within a height.
  step-IsRunning :
      (s : ConsensusState b n) (r : HeightData b × Bool)
      (act : ConsensusState b n → Outcome (ConsensusState b n))
      → IsEarly b n s
      → Keeps b s.height_datas r.0
      → ((t : ConsensusState b n) → IsEarly b n t → Holds (IsRunning b n) (act t))
      → Holds Runs (on_finished b f c w n s r (in_height b f c w n act))
  step-IsRunning s r act k still g =
      let l = with_datas-IsEarly b n s r.0 k still in
      on_finished-IsRunning s r (in_height b f c w n act) l.0
        (in_height-IsRunning act (with_datas b n s r.0) (g (with_datas b n s r.0) l))

  -- The last step.
  end-IsRunning :
      (s : ConsensusState b n) (r : HeightData b × Bool)
      (act : ConsensusState b n → Outcome (ConsensusState b n × List Message))
      → IsRunning b n s
      → Keeps b s.height_datas r.0
      → ((t : ConsensusState b n)
          → t.height_datas.height ≡ t.height
          → Holds (λ x. IsRunning b n x.0) (act t))
      → Holds Runs (on_finished b f c w n s r act)
  end-IsRunning s r act k still g =
      let l = with_datas-IsRunning s r.0 k still in
      on_finished-IsRunning s r act l (g (with_datas b n s r.0) l.0)

  run_transition-IsRunning :
      (s : ConsensusState b n) → IsRunning b n s → Holds Runs (run_transition b f c w n s)
  unfolding run_transition
  run_transition-IsRunning s k =
      let h = s.height_datas in
      Holds-split (s.step == 3)
        (λ e.
          step-IsRunning s (finish_proposal b h) (do_propose b f c w n)
            (early s 3 k (omega arith) e) (finish_proposal-Still b h)
            (do_propose-IsRunning b f c w n))
        (Holds-split (s.step == 4)
          (λ e.
            step-IsRunning s (finish_prevote b h) (do_prevote b f c w n)
              (early s 4 k (omega arith) e) (finish_prevote-Still b h)
              (do_prevote-IsRunning b f c w n))
          (Holds-split (s.step == 5)
            (λ e.
              step-IsRunning s (finish_precommit b h) (do_precommit b f c w n)
                (early s 5 k (omega arith) e) (finish_precommit-Still b h)
                (do_precommit-IsRunning b f c w n))
            (Holds-split (s.step == 6)
              (λ e.
                Holds-if (is_i_shard b n s)
                  (step-IsRunning s (finish_cross_shard_accept b h) (do_csa b f c w n)
                    (early s 6 k (omega arith) e) (finish_accept-Still b h)
                    (do_csa-IsRunning b f c w n))
                  (Holds-if (is_c_shard b n s)
                    (step-IsRunning s (finish_cross_shard_proposal b h) (do_csp b f c w n)
                      (early s 6 k (omega arith) e) (finish_csp-Still b h)
                      (do_csp-IsRunning b f c w n))
                    (returns k)))
              (Holds-split (s.step == 7)
                (λ e.
                  Holds-if (is_i_shard b n s)
                    (end-IsRunning s (finish_cross_shard_commit_i b h) (do_csc_i b f c w n) k
                      (finish_commit_i-Still b h) (do_csc_i-IsRunning b f c w n))
                    (Holds-if (is_c_shard b n s)
                      (end-IsRunning s (finish_cross_shard_commit_b b h) (do_csc_c b f c w n) k
                        (finish_commit_b-Still b h) (do_csc_c-IsRunning b f c w n))
                      (returns k)))
                (returns k)))))

  run_call-IsRunning :
      (s : ConsensusState b n) (x : Call) → IsRunning b n s → Holds Runs (run_call b f c w n s x)
  unfolding run_call
  run_call-IsRunning s transition k = run_transition-IsRunning s k
  run_call-IsRunning s (do_message m) k = run_message-IsRunning s m k

  -- From its `Start` at height 0 on, a node is at the height of its data, at round 0 and in a step
  -- from the proposal to the commit, after each call that `Start`, `Receive` and the calls that they
  -- lead to make, whether or not these calls come to an end; a call that panics is the last. Before
  -- its `Start` the node is at the height of its data.
  pub Reach-IsRunning :
      (s t : ConsensusState b n) (xs : List Call)
      → s.height_datas.height ≡ s.height
      → Reach b f c w n s t xs
      → IsRunning b n t
  Reach-IsRunning s t xs at (entered zero_height ran) =
      Holds-done ran (enter_new_height-IsRunning b f c w n s at)
  Reach-IsRunning s t xs at (woken r) = Reach-IsRunning s t [] at r
  Reach-IsRunning s t xs at (comes m admitted r) = Reach-IsRunning s t [] at r
  Reach-IsRunning s t xs at (called {s = u} {x = x} {rest = rest} r ran) =
      Holds-done ran (run_call-IsRunning u x (Reach-IsRunning s u (x ∷ rest) at r))
