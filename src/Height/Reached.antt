-- ===== src/Height/Reached.antt =====
-- The `Finish...` methods, and what each round step stands for.
use melete.Base.{
  ℕ, ◌+◌, ◌*◌, ◌/◌, ◌≤◌, ◌<◌, ◌≡◌, ◌≢◌, ◌⊎◌, refl, ap, ap₂, ◌∙◌, sym, List, Option, none, some,
  Option-cases, Bool, true, false, not, arith, if◌then◌else◌, leb, leb→le, leb-false, Bool-cases,
  inl, inr,
}
use mathlib.Core.Path.{subst}
use melete.Base.Int.{ℤ, pos, ltb_ℤ, ◌+ℤ◌, pos-+ℤ, div_ℤ}
use melete.Base.Table.{bytes_eq}
use melete.Signer.{Bls}
use melete.Accepts.Count.{sum}
use melete.Vote.Commit.{bit_power}
use melete.Vote.{Proposal}
use melete.Height.{HeightData}
use melete.Height.Tallied.{IsTallied}
use melete.Height.Step.{
  is_present, has_two_thirds, my_votes, finish_proposal, finish_prevote, finish_precommit,
  finish_cross_shard_accept, finish_cross_shard_proposal, finish_cross_shard_commit_i,
}
use melete.Height.Advance.{IsStepped, Advanced, stays, advance-Advanced}

module _ (b : Bls) where
  -- From step 5 on the quorums are there whatever the step.
  at_step :
      (h : HeightData b) (s t : ℕ)
      → 5 ≤ s
      → IsStepped b (record h { pass_step = s })
      → IsStepped b (record h { pass_step = t })
  at_step h s t five k = record {
    proposed = λ e. k.proposed (omega arith);
    prevoted = λ e. k.prevoted (omega arith);
    precommitted = λ e. k.precommitted (omega arith);
  }

  finish_proposal-Advanced :
      (h : HeightData b) → IsStepped b h → Advanced b 3 h (finish_proposal b h)
  unfolding finish_proposal
  finish_proposal-Advanced h s = past (Bool-cases (leb 3 h.pass_step))
    where
      reached : HeightData b × Bool
      reached = (record h { pass_step = 3 }, true)

      shown :
          (h.proposal ≢ none)
          → h.pass_step < 3
          → is_present h.cross_shard_blocks h.my_chain_id ≡ true
          → Advanced b 3 h reached
      shown there lt e = record {
        step = 3;
        same = refl;
        forward = omega arith;
        reached = λ t. omega arith;
        stepped = record {
          proposed = λ t. (there, e);
          prevoted = λ t. absurd (omega arith);
          precommitted = λ t. absurd (omega arith);
        };
      }

      not_yet : Advanced b 3 h (h, false)
      not_yet = stays b 3 h false s (λ t. absurd (cc))

      blocked :
          (h.proposal ≢ none)
          → h.pass_step < 3
          → ((is_present h.cross_shard_blocks h.my_chain_id ≡ true)
              ⊎ (is_present h.cross_shard_blocks h.my_chain_id ≡ false))
          → Advanced b 3 h
              (if not (is_present h.cross_shard_blocks h.my_chain_id) then (h, false) else reached)
      blocked there lt (inl e) = subst (Advanced b 3 h) (sym (rw e refl)) (shown there lt e)
      blocked there lt (inr e) = subst (Advanced b 3 h) (sym (rw e refl)) not_yet

      picked : Option Proposal → HeightData b × Bool
      picked o = elim o [
        | none ↦ (h, false)
        | some p ↦
            if not (is_present h.cross_shard_blocks h.my_chain_id) then (h, false) else reached
      ]

      opened : leb 3 h.pass_step ≡ false → finish_proposal b h ≡ picked h.proposal
      opened e = rw e refl

      past :
          ((leb 3 h.pass_step ≡ true) ⊎ (leb 3 h.pass_step ≡ false))
          → Advanced b 3 h (finish_proposal b h)
      past (inl e) =
          subst (Advanced b 3 h) (sym (rw e refl))
            (stays b 3 h true s (λ t. leb→le 3 h.pass_step e))
      past (inr e) = elim (Option-cases h.proposal) [
        | inl missing ↦ subst (Advanced b 3 h) (sym (opened e ∙ ap picked missing)) not_yet
        | inr (p, there) ↦ subst (Advanced b 3 h) (sym (opened e ∙ ap picked there)) (
            blocked (λ x. some_none (sym there ∙ x)) (leb-false 3 h.pass_step e)
              (Bool-cases (is_present h.cross_shard_blocks h.my_chain_id)))
      ]
        where
          some_none : {A : Type 0} {a : A} → Option.some a ≢ none
          some_none x = cc

  finish_prevote-Advanced : (h : HeightData b) → IsStepped b h → Advanced b 4 h (finish_prevote b h)
  unfolding finish_prevote
  finish_prevote-Advanced h s =
      advance-Advanced b 3 4 h (finish_proposal b h) _ s (finish_proposal-Advanced h s)
        (λ t le k ok. record {
          proposed = λ e. k.proposed le;
          prevoted = λ e. ok;
          precommitted = λ e. absurd (omega arith);
        })

  finish_precommit-Advanced :
      (h : HeightData b) → IsStepped b h → Advanced b 5 h (finish_precommit b h)
  unfolding finish_precommit
  finish_precommit-Advanced h s =
      advance-Advanced b 4 5 h (finish_prevote b h) _ s (finish_prevote-Advanced h s) (λ t le k ok.
        record {
          proposed = λ e. k.proposed (omega arith);
          prevoted = λ e. k.prevoted le;
          precommitted = λ e. ok;
        })

  -- The methods for messages between shards, each of which asks for the precommits first.
  pub finish_cross_shard-Advanced :
      (h : HeightData b)
      → IsStepped b h
      → Advanced b 6 h (finish_cross_shard_accept b h)
        × Advanced b 6 h (finish_cross_shard_proposal b h)
        × Advanced b 7 h (finish_cross_shard_commit_i b h)
  unfolding finish_cross_shard_accept finish_cross_shard_proposal finish_cross_shard_commit_i
  finish_cross_shard-Advanced h s =
      let p = finish_precommit-Advanced h s in
      let a =
        advance-Advanced b 5 6 h (finish_precommit b h) _ s p (λ t le k ok. at_step h t 6 le k) in
      (
        a,
        advance-Advanced b 5 6 h (finish_precommit b h) _ s p (λ t le k ok. at_step h t 6 le k),
        advance-Advanced b 6 7 h (finish_cross_shard_accept b h) _ s a
            (λ t le k ok. at_step h t 7 (omega arith) k),
      )

  two_thirds_of :
      (vs : List ℕ) (votes total : ℤ) (n : ℕ)
      → votes ≡ pos (sum vs)
      → total ≡ pos n
      → has_two_thirds votes total ≡ true
      → 2 * sum vs / 3 < n
  unfolding div_ℤ
  two_thirds_of vs votes total n e f h =
      let twice : sum vs + sum vs ≡ 2 * sum vs = omega arith in
      let third : div_ℤ (votes +ℤ votes) 3 ≡ pos (2 * sum vs / 3) =
        ap (λ v. div_ℤ (v +ℤ v) 3) e
        ∙ ap (λ v. div_ℤ v 3) (pos-+ℤ (sum vs) (sum vs) ∙ ap pos twice) in
      let t : ltb_ℤ (pos (2 * sum vs / 3)) (pos n) ≡ true = sym (ap₂ ltb_ℤ third f) ∙ h in
      ground arith

  -- When `FinishPrecommit` answers true, validators with more than two thirds of the shard's power
  -- have their prevote stored for the proposal's block, and as many their precommit. The step stood
  -- for what it says before, and the votes are tallied.
  pub finish_precommit_quorum :
      (vs : List ℕ) (h : HeightData b)
      → IsStepped b h
      → (v : IsTallied vs h.proposal h.prevotes) → (c : IsTallied vs h.proposal h.precommits)
      → my_votes b h ≡ pos (sum vs)
      → (finish_precommit b h).1 ≡ true
      → (h.proposal ≢ none)
        × (2 * sum vs / 3 < bit_power v.vector 0 vs)
        × (2 * sum vs / 3 < bit_power c.vector 0 vs)
  finish_precommit_quorum vs h s v c votes e =
      let a = finish_precommit-Advanced h s in
      let five = a.reached e in
      let k = a.stepped in
      (
        (k.proposed (omega arith)).0,
        two_thirds_of vs (my_votes b h) h.prevotes.total _ votes v.totals
            (k.prevoted (omega arith)),
        two_thirds_of vs (my_votes b h) h.precommits.total _ votes c.totals (k.precommitted five),
      )
