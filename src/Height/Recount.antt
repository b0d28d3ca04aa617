-- ===== src/Height/Recount.antt =====
-- `reCalculatePrevotes` and `reCalculatePrecommits`: the votes that came before the proposal.
use melete.Base.{
  ℕ, suc, ◌+◌, ◌≤◌, ◌≡◌, ◌⊎◌, refl, ap, ◌∙◌, sym, List, [], ◌∷◌, map, Option, none, some, true,
  false, arith, length, get_elem?, Bool-cases, inl, inr,
}
use melete.Base.Int.{pos}
use melete.Base.Outcome.{Outcome, done}
use melete.Base.Table.{bytes_eq}
use melete.BitVector.Valid.{test}
use melete.Accepts.{Peer}
use melete.Vote.{Proposal, Ballot}
use melete.Height.{Tally, is_for}
use melete.Height.Tallied.{IsTallied, count_ballot-IsTallied}
use melete.Height.{recount}

tallied_for :
    (vs : List ℕ) (q : Proposal) (t : Tally)
    → (k : IsTallied vs none t)
    → (r : IsTallied vs (some q) t) × ((j : ℕ) → test r.vector j ≡ false)
unfolding is_for
tallied_for vs q t k = (
  record {
    vector = k.vector;
    has_vector = k.has_vector;
    valid = k.valid;
    sized = k.sized;
    slots = k.slots;
    totals = k.totals;
    matched = λ i is_set. absurd (no_bit i is_set);
  },
  λ j. unset j (Bool-cases (test k.vector j)),
)
  where
    no_bit : (i : ℕ) → test k.vector i ≡ true → ⊥
    no_bit i is_set = let (p, e, m) = k.matched i is_set in never m
      where
        never : false ≡ true → ⊥
        never e = cc

    unset :
        (j : ℕ) → ((test k.vector j ≡ true) ⊎ (test k.vector j ≡ false)) → test k.vector j ≡ false
    unset j (inl e) = absurd (no_bit j e)
    unset j (inr e) = e

module _ (peers : List Peer) (vs : List ℕ) (q : Proposal)
    (staked : map (λ (r : Peer). r.vote) peers ≡ map pos vs) where
  Recounted : Outcome Tally → Type 0
  Recounted r = (u : Tally) × (r ≡ done u) × IsTallied vs (some q) u

  recount_from :
      (i : ℕ) (bs : List (Option Ballot)) (t : Tally) (k : IsTallied vs (some q) t)
      → ((j : ℕ) → get_elem? bs j ≡ get_elem? t.ballots (i + j))
      → i + length bs ≡ length vs
      → ((j : ℕ) → i ≤ j → test k.vector j ≡ false)
      → Recounted (recount peers q i bs t)
  unfolding recount Recounted
  recount_from i [] t k suffix size unset = (t, refl, k)
  recount_from i (none ∷ bs) t k suffix size unset =
      recount_from (suc i) bs t k (λ j. suffix (suc j) ∙ ap (get_elem? t.ballots) (omega arith))
        (omega (arith, size)) (λ j le. unset j (omega arith))
  recount_from i (some p ∷ bs) t k suffix size unset = elim (Bool-cases (is_for (some q) p)) [
    | inr other ↦ rw other (
        recount_from (suc i) bs t k (λ j. suffix (suc j) ∙ ap (get_elem? t.ballots) (omega arith))
          (omega (arith, size)) (λ j le. unset j (omega arith)))
    | inl same ↦
        let at : get_elem? t.ballots i ≡ some (some p) =
          ap (get_elem? t.ballots) (omega arith) ∙ sym (suffix 0) in
        let (u, ran, r, kept, later) =
          count_ballot-IsTallied peers vs (some q) t i p k staked (omega (arith, size))
            (unset i (omega arith)) at same in
        let (w, e, z) =
          recount_from (suc i) bs u r
            (λ j.
              suffix (suc j)
              ∙ ap (get_elem? t.ballots) (omega arith)
              ∙ ap (λ l. get_elem? l (suc i + j)) (sym kept))
            (omega (arith, size)) (λ j le. later j (omega arith) ∙ unset j (omega arith)) in
        (w, rw same (rw ran e), z)
  ]

  -- The recalculation for a proposal of the votes that were stored while there was none returns
  -- without a panic and tallies them: the total is the power of the validators whose bits are set,
  -- and each of them has its vote for the proposal's block stored. The peers' powers are not negative.
  pub recount-IsTallied :
      (t : Tally)
      → IsTallied vs none t
      → (u : Tally) × (recount peers q 0 t.ballots t ≡ done u) × IsTallied vs (some q) u
  unfolding Recounted
  recount-IsTallied t k =
      let (r, unset) = tallied_for vs q t k in
      recount_from 0 t.ballots t r (λ j. ap (get_elem? t.ballots) (omega arith))
        (omega (arith, k.slots)) (λ j le. unset j)
