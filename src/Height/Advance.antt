-- ===== src/Height/Advance.antt =====
-- How one step of a height goes on from the one before.
use melete.Base.{
  ℕ, ◌≤◌, ◌<◌, ◌≡◌, ◌≢◌, ◌⊎◌, refl, ap, sym, none, Bool, true, false, not, arith, if◌then◌else◌,
  leb, leb→le, leb-false, Bool-cases, inl, inr,
}
use mathlib.Core.Path.{subst}
use melete.Base.Table.{bytes_eq}
use melete.Signer.{Bls}
use melete.Height.{HeightData}
use melete.Height.Step.{is_present, has_two_thirds, my_votes, advance}

module _ (b : Bls) where
  -- What the step of a height stands for: the proposal and its block are there, the prevotes for
  -- it have two thirds, and so have the precommits.
  pub record IsStepped (h : HeightData b) : Type 0 where
    pub proposed :
        3 ≤ h.pass_step
        → (h.proposal ≢ none) × (is_present h.cross_shard_blocks h.my_chain_id ≡ true)
    pub prevoted : 4 ≤ h.pass_step → has_two_thirds (my_votes b h) h.prevotes.total ≡ true
    pub precommitted : 5 ≤ h.pass_step → has_two_thirds (my_votes b h) h.precommits.total ≡ true

  -- A call that changed the step alone, never back, and answered true from step `n` on only.
  pub record Advanced (n : ℕ) (h : HeightData b) (r : HeightData b × Bool) : Type 0 where
    pub step : ℕ
    pub same : r.0 ≡ record h { pass_step = step }
    pub forward : h.pass_step ≤ step
    pub reached : r.1 ≡ true → n ≤ step
    pub stepped : IsStepped (record h { pass_step = step })

  pub stays :
      (n : ℕ) (h : HeightData b) (t : Bool)
      → IsStepped h
      → (t ≡ true → n ≤ h.pass_step)
      → Advanced n h (h, t)
  stays n h t s r = record {
    step = h.pass_step;
    same = refl;
    forward = omega arith;
    reached = r;
    stepped = s;
  }

  pub advance-Advanced :
      (n step : ℕ) (h : HeightData b) (before : HeightData b × Bool) (ok : Bool)
      → IsStepped h
      → Advanced n h before
      → ((s : ℕ)
          → n ≤ s
          → IsStepped (record h { pass_step = s })
          → ok ≡ true
          → IsStepped (record h { pass_step = step }))
      → Advanced step h (advance b step h before ok)
  advance-Advanced n step h before ok s a next = past (Bool-cases (leb step h.pass_step))
    where
      falls : Advanced step h (before.0, false)
      falls = record {
        step = a.step;
        same = a.same;
        forward = a.forward;
        reached = λ e. absurd (cc);
        stepped = a.stepped;
      }

      rises :
          before.1 ≡ true
          → ok ≡ true
          → h.pass_step < step
          → Advanced step h (record before.0 { pass_step = step }, true)
      rises e f lt = record {
        step = step;
        same = ap (λ (g : HeightData b). record g { pass_step = step }) a.same;
        forward = omega arith;
        reached = λ t. omega arith;
        stepped = next a.step (a.reached e) a.stepped f;
      }

      tested :
          before.1 ≡ true
          → h.pass_step < step
          → ((ok ≡ true) ⊎ (ok ≡ false))
          → Advanced step h
              (if not ok then (before.0, false) else (record before.0 { pass_step = step }, true))
      tested e lt (inl f) = subst (Advanced step h) (sym (rw f refl)) (rises e f lt)
      tested e lt (inr f) = subst (Advanced step h) (sym (rw f refl)) falls

      came :
          h.pass_step < step
          → ((before.1 ≡ true) ⊎ (before.1 ≡ false))
          → Advanced step h (
              if not before.1
              then (before.0, false)
              else if not ok
              then (before.0, false)
              else (record before.0 { pass_step = step }, true))
      came lt (inl e) = subst (Advanced step h) (sym (rw e refl)) (tested e lt (Bool-cases ok))
      came lt (inr e) = subst (Advanced step h) (sym (rw e refl)) falls

      past :
          ((leb step h.pass_step ≡ true) ⊎ (leb step h.pass_step ≡ false))
          → Advanced step h (advance b step h before ok)
      past (inl e) =
          subst (Advanced step h) (sym (rw e refl))
            (stays step h true s (λ t. leb→le step h.pass_step e))
      past (inr e) =
          subst (Advanced step h) (sym (rw e refl))
            (came (leb-false step h.pass_step e) (Bool-cases before.1))
