-- ===== src/Accepts/Decide.antt =====
-- The end of `AddCSA`: the majority after a new vote.
use mathlib.Core.Path.{subst}
use melete.Base.{
  ℕ, ◌*◌, ◌/◌, ◌≤◌, ◌≡◌, ◌≢◌, ◌⊎◌, refl, ap, sym, List, Option, none, some, true, false, not, ◌&&◌,
  arith, if◌then◌else◌, ltb, ltb-false, ltb→lt, lt→ltb, Bool-cases, inl, inr,
}
use melete.Base.Bytes.{Bytes, bytes_equal, bytes_equal_refl, bytes_equal→eq}
use melete.Base.Int.{ltb_ℤ}
use melete.Base.Outcome.{Outcome, done}
use melete.Base.Table.{bytes_eq, int_eq}
use melete.Signer.{Bls}
use melete.Accepts.{
  CrossShardAccept, CsaError, CsaShardSet, number_at, two_thirds, record_vote, decide, ambiguity,
}
use melete.Accepts.Count.{sum, Choice, weigh}
use melete.Accepts.Valid.{IsCounted, IsQuorum, IsValid}
use melete.Accepts.Quorum.{
  two_thirds_small, one_quorum, unequal, IsNew, marked, recorded, recorded-IsCounted, weigh_old,
  weigh_new,
}

module _ (b : Bls) (sign_bytes : CrossShardAccept → Bytes) (vs : List ℕ) where
  -- What a call keeps: it returns, the set stays well formed for the same shard, there is no
  -- ambiguity, and a decision stays.
  pub record Kept (s : CsaShardSet b) (r : Outcome (CsaShardSet b × Option CsaError)) : Type 0 where
    pub after : CsaShardSet b
    pub error : Option CsaError
    pub returned : r ≡ done (after, error)
    pub valid : IsValid b sign_bytes vs after
    pub unambiguous : error ≢ some ambiguity
    pub same_height : after.height ≡ s.height
    pub same_val_set : after.val_set ≡ s.val_set
    pub final :
        s.has_maj23_flag ≡ true → (after.has_maj23_flag ≡ true) × (after.maj23_key ≡ s.maj23_key)

  pub unchanged :
      (s : CsaShardSet b) (e : Option CsaError) (r : Outcome (CsaShardSet b × Option CsaError))
      → IsValid b sign_bytes vs s
      → e ≢ some ambiguity
      → r ≡ done (s, e)
      → Kept s r
  unchanged s e r v ne eq = record {
    after = s;
    error = e;
    returned = eq;
    valid = v;
    unambiguous = ne;
    same_height = refl;
    same_val_set = refl;
    final = λ h. (h, refl);
  }

  module _ (s : CsaShardSet b) (csa : CrossShardAccept) (v : IsValid b sign_bytes vs s)
      (w : IsNew b sign_bytes vs s v.choice csa) where
    unfoldable pub next : CsaShardSet b
    next = recorded b sign_bytes vs s v.choice csa v.counted w

    after_choice : Choice
    after_choice = marked b sign_bytes vs s v.choice csa v.counted w

    next-IsCounted : IsCounted b sign_bytes vs after_choice next
    unfolding next after_choice
    next-IsCounted = recorded-IsCounted b sign_bytes vs s v.choice csa v.counted w

    -- A quorum stays one when a vote is added.
    IsQuorum-grows : (k : Bytes) → IsQuorum vs v.choice k → IsQuorum vs after_choice k
    unfolding after_choice
    IsQuorum-grows k q = elim (Bool-cases (bytes_equal csa.commit_status k)) [
      | inl e ↦
          let same = bytes_equal→eq csa.commit_status k e in
          subst (IsQuorum vs after_choice) same (
            omega (
              arith,
              weigh_new b sign_bytes vs s v.choice csa v.counted w,
              subst (IsQuorum vs v.choice) (sym same) q,
            ))
      | inr e ↦ omega (
        arith,
        q,
        weigh_old b sign_bytes vs s v.choice csa v.counted w k (unequal csa.commit_status k e),
      )
    ]

    -- A key that has a quorum now had it before, or is the one voted for.
    IsQuorum-was :
        (k : Bytes) → IsQuorum vs after_choice k → (csa.commit_status ≡ k) ⊎ IsQuorum vs v.choice k
    unfolding after_choice
    IsQuorum-was k q = elim (Bool-cases (bytes_equal csa.commit_status k)) [
      | inl e ↦ inl (bytes_equal→eq csa.commit_status k e)
      | inr e ↦ inr (
          omega (
            arith,
            q,
            weigh_old b sign_bytes vs s v.choice csa v.counted w k (unequal csa.commit_status k e),
          ))
    ]

    threshold :
        ltb_ℤ (two_thirds next.total_voting_power) (number_at csa.commit_status next.key_vote_power)
        ≡ ltb (2 * sum vs / 3) (weigh csa.commit_status after_choice 0 vs)
    threshold = rw next-IsCounted.total (
        rw (two_thirds_small (sum vs) next-IsCounted.small)
          (rw (next-IsCounted.powers csa.commit_status) (ground arith)))

    -- The set when `csa`'s status has a quorum.
    settled : CsaShardSet b
    unfolding next
    settled = record next {
      has_maj23_flag = true;
      maj23_key = csa.commit_status;
      maj23_commit_status = csa.commit_status;
    }

    settled-IsValid : IsQuorum vs after_choice csa.commit_status → IsValid b sign_bytes vs settled
    unfolding settled next
    settled-IsValid q = record {
      choice = after_choice;
      counted = record {
        staked = next-IsCounted.staked;
        covered = next-IsCounted.covered;
        total = next-IsCounted.total;
        small = next-IsCounted.small;
        unseen = next-IsCounted.unseen;
        powers = next-IsCounted.powers;
        weights = next-IsCounted.weights;
        held = next-IsCounted.held;
      };
      decided = record {
        quorum = λ h. q;
        status = λ h. refl;
        complete = λ k r. (refl, one_quorum vs after_choice csa.commit_status k q r);
      };
    }

    next-IsValid :
        weigh csa.commit_status after_choice 0 vs ≤ 2 * sum vs / 3 → IsValid b sign_bytes vs next
    unfolding next recorded record_vote
    next-IsValid few = record {
      choice = after_choice;
      counted = next-IsCounted;
      decided = record {
        quorum = λ h. IsQuorum-grows s.maj23_key (v.decided.quorum h);
        status = v.decided.status;
        complete = λ k q. elim (IsQuorum-was k q) [
          | inl same ↦ absurd (omega (arith, few, subst (IsQuorum vs after_choice) (sym same) q))
          | inr old ↦ v.decided.complete k old
        ];
      };
    }

    -- A decision that was there is the status that has a quorum.
    decision_same :
        s.has_maj23_flag ≡ true
        → IsQuorum vs after_choice csa.commit_status
        → csa.commit_status ≡ s.maj23_key
    decision_same h q =
        one_quorum vs after_choice csa.commit_status s.maj23_key q
          (IsQuorum-grows s.maj23_key (v.decided.quorum h))

    settles : IsQuorum vs after_choice csa.commit_status → decide b next csa ≡ (settled, none)
    unfolding decide settled next recorded record_vote
    settles q = rw threshold (rw (lt→ltb _ _ q) (kept (Bool-cases s.has_maj23_flag)))
      where
        ambiguous : CsaShardSet b × Option CsaError
        ambiguous = (next, some ambiguity)

        settled_well : CsaShardSet b × Option CsaError
        settled_well = (settled, none)

        kept :
            (s.has_maj23_flag ≡ true) ⊎ (s.has_maj23_flag ≡ false)
            → (if s.has_maj23_flag && not (bytes_equal s.maj23_key csa.commit_status)
                then ambiguous
                else settled_well)
              ≡ settled_well
        kept (inr not_yet) = rw not_yet refl
        kept (inl already) =
            rw already
              (rw (sym (decision_same already q)) (rw (bytes_equal_refl csa.commit_status) refl))

    pub decide-Kept : Kept s (done (decide b next csa))
    unfolding settled next recorded record_vote decide
    decide-Kept =
        elim (Bool-cases (ltb (2 * sum vs / 3) (weigh csa.commit_status after_choice 0 vs))) [
          | inl e ↦ many (ltb→lt _ _ e)
          | inr e ↦ few e
        ]
      where
        many : IsQuorum vs after_choice csa.commit_status → Kept s (done (decide b next csa))
        many q = record {
          after = settled;
          error = none;
          returned = ap done (settles q);
          valid = settled-IsValid q;
          unambiguous = λ x. absurd (cc);
          same_height = refl;
          same_val_set = refl;
          final = λ h. (refl, decision_same h q);
        }

        few :
            ltb (2 * sum vs / 3) (weigh csa.commit_status after_choice 0 vs) ≡ false
            → Kept s (done (decide b next csa))
        few e = record {
          after = next;
          error = none;
          returned = ap done (rw threshold (rw e refl));
          valid = next-IsValid (ltb-false _ _ e);
          unambiguous = λ x. absurd (cc);
          same_height = refl;
          same_val_set = refl;
          final = λ h. (h, refl);
        }
