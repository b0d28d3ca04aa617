-- ===== src/Consensus/Quorum.antt =====
-- A node leaves the step of the precommits with the votes of two thirds only.
use melete.Base.{
  ℕ, ◌*◌, ◌/◌, ◌<◌, ◌≡◌, ◌≢◌, refl, ap, sym, ◌∙◌, List, [], none, Option, Bool, true, false,
  Bool-cases, inl, inr,
}
use melete.Base.Int.{pos}
use melete.Base.Outcome.{Outcome, done, done-injective}
use melete.Merkle.{HashFunction}
use melete.Block.{Codec}
use melete.Signer.{Bls}
use melete.Accepts.Count.{sum}
use melete.Vote.Commit.{bit_power}
use melete.Height.{HeightData, HeightError, Wire}
use melete.Height.Step.{finish_precommit, my_votes}
use melete.Height.Tallied.{IsTallied}
use melete.Height.Advance.{IsStepped}
use melete.Height.Reached.{finish_precommit_quorum}
use melete.Consensus.{Node, ConsensusState, Message, with_datas}
use melete.Consensus.Ballots.{do_precommit}
use melete.Consensus.Run.{Call, on_finished, in_height, run_transition}

module _ (b : Bls) (f : HashFunction) (c : Codec) (w : Wire) (n : Node) where
  at_precommit :
      (s : ConsensusState b n)
      → s.step ≡ 5
      → run_transition b f c w n s
        ≡ on_finished b f c w n s
            (finish_precommit b s.height_datas)
            (in_height b f c w n (do_precommit b f c w n))
  unfolding run_transition
  at_precommit s e = rw e refl

  not_finished :
      (s : ConsensusState b n) (p : HeightData b × Bool)
      (act : ConsensusState b n → Outcome (ConsensusState b n × List Message))
      → p.1 ≡ false
      → on_finished b f c w n s p act ≡ done (with_datas b n s p.0, none, [])
  not_finished s (h, false) act e = refl
  not_finished s (h, true) act e = absurd (cc)

  -- When a transition leaves the step of the precommits, validators with more than two thirds of the
  -- shard's power have their prevote stored for the proposal's block, and as many their precommit;
  -- the step of the height stood for what it says, and the votes are tallied.
  pub run_transition_quorum :
      (vs : List ℕ) (s : ConsensusState b n)
      (r : ConsensusState b n × Option HeightError × List Call)
      → IsStepped b s.height_datas
      → (v : IsTallied vs s.height_datas.proposal s.height_datas.prevotes)
      → (p : IsTallied vs s.height_datas.proposal s.height_datas.precommits)
      → my_votes b s.height_datas ≡ pos (sum vs)
      → s.step ≡ 5
      → run_transition b f c w n s ≡ done r
      → (r.0).step ≢ 5
      → (s.height_datas.proposal ≢ none)
        × (2 * sum vs / 3 < bit_power v.vector 0 vs)
        × (2 * sum vs / 3 < bit_power p.vector 0 vs)
  run_transition_quorum vs s r stepped v p votes at ran left =
      let h = s.height_datas in
      elim (Bool-cases (finish_precommit b h).1) [
        | inl finished ↦ finish_precommit_quorum b vs h stepped v p votes finished
        | inr waits ↦
            let still =
              sym (not_finished s (finish_precommit b h) _ waits) ∙ sym (at_precommit s at) ∙ ran in
            absurd (left (sym (ap (λ x. (x.0).step) (done-injective still)) ∙ at))
      ]
