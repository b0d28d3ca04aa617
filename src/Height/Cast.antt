-- ===== src/Height/Cast.antt =====
-- `AddPrevote` and `AddPrecommit` of melete/consensus/height_datas.go.
use melete.Base.{
  ℕ, ◌≤◌, ◌<◌, ◌≡◌, ◌⊎◌, refl, ap, ap₂, ◌∙◌, sym, List, map, set, Option, none, some, Bool, true,
  false, not, ◌||◌, arith, if◌then◌else◌, lt→ltb, length, get_elem?-set_self, Bool-cases, inl, inr,
}
use mathlib.Core.Path.{subst}
use melete.Base.Bytes.{Bytes}
use melete.Base.Int.{pos, ltb_ℤ, leb_ℤ, eq_ℤ}
use melete.Base.Outcome.{Outcome, done, or_panic, ◌>>=◌}
use melete.Base.Table.{lookup, bytes_eq}
use melete.BitVector.{get_index}
use melete.BitVector.Valid.{test}
use melete.BitVector.Access.{get_index_lem}
use melete.Signer.{Bls, Verifier, verifier_size, verify_signature}
use melete.Accepts.{Peer}
use melete.Vote.{Ballot}
use melete.Height.{
  HeightData, HeightError, Tally, do_nothing, bad_signature, index_out_of_range, put_ballot,
  count_ballot, is_for, store_ballot, add_ballot, peers_of,
}
use melete.Signer.Laws.{verify_signature_returns}
use melete.Height.Tallied.{IsTallied, stored-IsTallied, count_ballot-IsTallied}

module _ (b : Bls) (encode : Ballot → Bytes) where
  -- What a node knows of its own shard: the peers' powers `vs` are not negative, and each of the
  -- validators' keys has a peer.
  pub record IsStaked (vs : List ℕ) (h : HeightData b) : Type 0 where
    pub powers : map (λ (p : Peer). p.vote) (peers_of h.shard_info h.my_chain_id) ≡ map pos vs
    pub val_set : Verifier b
    pub known : lookup h.my_chain_id h.all_validator_set ≡ some val_set
    pub covered : verifier_size b val_set ≤ length vs

  -- A call that returned, with the votes tallied after it.
  pub record Counted (vs : List ℕ) (h : HeightData b) (r : Outcome (Tally × Option HeightError))
      : Type 0 where
    pub after : Tally
    pub error : Option HeightError
    pub returned : r ≡ done (after, error)
    pub tallied : IsTallied vs h.proposal after

  module _ (vs : List ℕ) (h : HeightData b) (t : Tally) (p : Ballot) (i : ℕ) (s : IsStaked vs h)
      (k : IsTallied vs h.proposal t) (at : p.validator_index ≡ pos i) where
    refused : (e : HeightError) → Counted vs h (done (t, some e))
    refused e = record { after = t; error = some e; returned = refl; tallied = k }

    stored : Tally
    stored = record t { ballots = set t.ballots i (some p) }

    store_ballot-Counted :
        i < length vs → test k.vector i ≡ false → Counted vs h (store_ballot b encode h t p)
    unfolding store_ballot stored put_ballot
    store_ballot-Counted lt unset = counted (Bool-cases (is_for h.proposal p))
      where
        peers : List Peer
        peers = peers_of h.shard_info h.my_chain_id

        placed : put_ballot t.ballots p.validator_index p ≡ done (set t.ballots i (some p))
        placed =
            ap (λ j. put_ballot t.ballots j p) at
            ∙ rw (lt→ltb i (length t.ballots) (omega (arith, k.slots))) refl

        kept : (r : IsTallied vs h.proposal stored) × (r.vector ≡ k.vector)
        kept = stored-IsTallied vs h.proposal t i p k unset

        finish : List (Option Ballot) → Outcome Tally
        finish bs =
            if is_for h.proposal p
            then count_ballot peers (record t { ballots = bs }) p.validator_index
            else done (record t { ballots = bs })

        runs :
            (u : Tally)
            → finish (set t.ballots i (some p)) ≡ done u
            → store_ballot b encode h t p ≡ done (u, none)
        runs u e =
            ap (λ o. o >>= λ bs. finish bs >>= λ w. done (w, none)) placed
            ∙ ap (λ o. o >>= λ w. done (w, none)) e

        counted :
            ((is_for h.proposal p ≡ true) ⊎ (is_for h.proposal p ≡ false))
            → Counted vs h (store_ballot b encode h t p)
        counted (inr other) = record {
          after = stored;
          error = none;
          returned = runs stored (rw other refl);
          tallied = kept.0;
        }
        counted (inl same) =
            let (u, e, tallied, same_ballots, later) =
              count_ballot-IsTallied peers vs h.proposal stored i p kept.0 s.powers lt
                (ap (λ w. test w i) kept.1 ∙ unset)
                (get_elem?-set_self t.ballots i (some p) (omega (arith, k.slots))) same in
            record {
              after = u;
              error = none;
              returned = runs u (rw same (ap (count_ballot peers stored) at ∙ e));
              tallied = tallied;
            }

    -- Past the first test.
    unseen : Outcome (Tally × Option HeightError)
    unseen =
        if not (eq_ℤ h.height p.height) || not (eq_ℤ h.round p.round)
        then done (t, some do_nothing)
        else or_panic (lookup h.my_chain_id h.all_validator_set) >>= λ v.
            if ltb_ℤ p.validator_index (pos 0) || leb_ℤ (pos (verifier_size b v)) p.validator_index
            then done (t, some index_out_of_range)
            else verify_signature b v p.signature (encode p) p.validator_index >>= λ ok.
                if not ok then done (t, some bad_signature) else store_ballot b encode h t p

    checked-Counted :
        test k.vector i ≡ false
        → Counted vs h (
            if ltb_ℤ p.validator_index (pos 0)
              || leb_ℤ (pos (verifier_size b s.val_set)) p.validator_index
            then done (t, some index_out_of_range)
            else verify_signature b s.val_set p.signature (encode p) p.validator_index >>= λ ok.
                if not ok then done (t, some bad_signature) else store_ballot b encode h t p)
    checked-Counted unset =
        elim (Bool-cases (leb_ℤ (pos (verifier_size b s.val_set)) p.validator_index)) [
          | inl past ↦
              subst (Counted vs h) (sym (rw inside (rw past refl))) (refused index_out_of_range)
          | inr within ↦ signed within
        ]
      where
        inside : ltb_ℤ p.validator_index (pos 0) ≡ false
        inside = ground (arith, at)

        signed :
            leb_ℤ (pos (verifier_size b s.val_set)) p.validator_index ≡ false
            → Counted vs h (
                if ltb_ℤ p.validator_index (pos 0)
                  || leb_ℤ (pos (verifier_size b s.val_set)) p.validator_index
                then done (t, some index_out_of_range)
                else verify_signature b s.val_set p.signature (encode p) p.validator_index >>= λ ok.
                    if not ok then done (t, some bad_signature) else store_ballot b encode h t p)
        signed within =
            let (ok, ran) =
              verify_signature_returns b s.val_set p.signature (encode p) p.validator_index i at in
            let lt : i < length vs = ground (arith, at, s.covered) in
            elim (Bool-cases ok) [
              | inl good ↦
                  subst (Counted vs h) (sym (rw inside (rw within (rw ran (rw good refl)))))
                    (store_ballot-Counted lt unset)
              | inr bad ↦
                  subst (Counted vs h) (sym (rw inside (rw within (rw ran (rw bad refl)))))
                    (refused bad_signature)
            ]

    unseen-Counted : test k.vector i ≡ false → Counted vs h unseen
    unfolding unseen
    unseen-Counted unset =
        elim (Bool-cases (not (eq_ℤ h.height p.height) || not (eq_ℤ h.round p.round))) [
          | inl other ↦ subst (Counted vs h) (sym (rw other refl)) (refused do_nothing)
          | inr same ↦
              subst (Counted vs h) (sym (rw same (rw s.known refl))) (checked-Counted unset)
        ]

  -- `AddPrevote` and `AddPrecommit` with a vote whose index is not negative return without a panic,
  -- and the votes stay tallied: the total is the power of the validators whose bits are set, and
  -- each of them has its vote for the proposal's block stored. The node's own shard is staked.
  pub add_ballot-Counted :
      (vs : List ℕ) (h : HeightData b) (t : Tally) (p : Ballot) (i : ℕ)
      → IsStaked vs h
      → IsTallied vs h.proposal t
      → p.validator_index ≡ pos i
      → Counted vs h (add_ballot b encode h t p)
  unfolding add_ballot unseen
  add_ballot-Counted vs h t p i s k at = elim (Bool-cases (test k.vector i)) [
    | inl seen ↦ subst (Counted vs h) (sym (runs true seen)) (refused vs h t p i s k at do_nothing)
    | inr new ↦ subst (Counted vs h) (sym (runs false new)) (unseen-Counted vs h t p i s k at new)
  ]
    where
      runs :
          (x : Bool)
          → test k.vector i ≡ x
          → add_ballot b encode h t p
            ≡ (if x then done (t, some do_nothing) else unseen vs h t p i s k at)
      runs x e =
          ap
            (λ o.
              o >>= λ seen. if seen then done (t, some do_nothing) else unseen vs h t p i s k at)
            (ap₂ get_index k.has_vector at ∙ get_index_lem k.vector i k.valid ∙ ap done e)
