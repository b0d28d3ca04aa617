-- ===== src/Accepts/History.antt =====
-- Any sequence of `AddCSA` calls, and what `GetMaj23` returns after it.
use mathlib.Core.Path.{subst}
use melete.Base.{
  ℕ, ◌*◌, ◌/◌, ◌≤◌, ◌<◌, ◌≡◌, ◌⊎◌, refl, ap, ◌∙◌, sym, List, [], ◌∷◌, map, Option, none, some, true,
  false, not, arith, if◌then◌else◌, length, Bool-cases, inl, inr,
}
use melete.Base.Bytes.{Bytes}
use melete.Base.Int.{ℤ, pos}
use melete.Base.Outcome.{Outcome, done, ◌>>=◌}
use melete.Base.Table.{bytes_eq, int_eq}
use melete.Signer.{Bls, Verifier, verifier_size}
use melete.Accepts.{
  Peer, CrossShardAccept, CsaShardSet, slice_at, new_csa_shard_set, add_csa, get_maj23,
}
use melete.Accepts.Count.{sum, Choice}
use melete.Accepts.Valid.{list_weight, AreVotes, IsValid}
use melete.Accepts.Quorum.{new_csa_shard_set-IsValid}
use melete.Accepts.Add.{add_csa-Kept}

module _ (b : Bls) (sign_bytes : CrossShardAccept → Bytes) where
  -- `AddCSA` on the votes of a list in turn, whatever each call answers.
  unfoldable pub add_all : CsaShardSet b → List CrossShardAccept → Outcome (CsaShardSet b)
  add_all s [] = done s
  add_all s (csa ∷ rest) = add_csa b sign_bytes s csa >>= λ r. add_all r.0 rest

  -- What `GetMaj23` returned: nothing, or votes for its status by different validators, each with
  -- that validator's signature, which together have more than two thirds of the power.
  pub data Certified (vs : List ℕ) (val_set : Verifier b)
      : Option (Bytes × List CrossShardAccept) → Type 0 where
    undecided : Certified vs val_set none
    certified :
        (status : Bytes) (votes : List CrossShardAccept) (f : Choice)
        → AreVotes b sign_bytes val_set status f votes
        → 2 * sum vs / 3 < list_weight vs votes
        → Certified vs val_set (some (status, votes))

  module _ (vs : List ℕ) where
    get_maj23-Certified :
        (s : CsaShardSet b) → IsValid b sign_bytes vs s → Certified vs s.val_set (get_maj23 b s)
    unfolding get_maj23
    get_maj23-Certified s v = decided (Bool-cases s.has_maj23_flag)
      where
        votes : List CrossShardAccept
        votes = slice_at s.maj23_key s.sig_map

        quorum : s.has_maj23_flag ≡ true → 2 * sum vs / 3 < list_weight vs votes
        quorum h = omega (arith, v.decided.quorum h, v.counted.weights s.maj23_key)

        decided :
            ((s.has_maj23_flag ≡ true) ⊎ (s.has_maj23_flag ≡ false))
            → Certified vs s.val_set
                (if not s.has_maj23_flag then none else some (s.maj23_commit_status, votes))
        decided (inr e) = rw e undecided
        decided (inl e) = rw e (
            rw (v.decided.status e)
              (certified s.maj23_key votes v.choice (v.counted.held s.maj23_key) (quorum e)))

    -- What a run keeps.
    pub record Ran (s : CsaShardSet b) (r : Outcome (CsaShardSet b)) : Type 0 where
      pub after : CsaShardSet b
      pub returned : r ≡ done after
      pub valid : IsValid b sign_bytes vs after
      pub same_val_set : after.val_set ≡ s.val_set
      pub final :
          s.has_maj23_flag ≡ true → (after.has_maj23_flag ≡ true) × (after.maj23_key ≡ s.maj23_key)

    pub add_all-Ran :
        (s : CsaShardSet b) (csas : List CrossShardAccept)
        → IsValid b sign_bytes vs s
        → Ran s (add_all s csas)
    unfolding add_all
    add_all-Ran s [] v = record {
      after = s;
      returned = refl;
      valid = v;
      same_val_set = refl;
      final = λ h. (h, refl);
    }
    add_all-Ran s (csa ∷ rest) v =
        let k = add_csa-Kept b sign_bytes vs s csa v in
        let r = add_all-Ran k.after rest k.valid in
        record {
          after = r.after;
          returned = ap (λ o. o >>= λ p. add_all p.0 rest) k.returned ∙ r.returned;
          valid = r.valid;
          same_val_set = r.same_val_set ∙ k.same_val_set;
          final = λ h. let (h', e) = k.final h in let (h'', e') = r.final h' in (h'', e' ∙ e);
        }

    -- A new set takes any sequence of votes without a panic, and `GetMaj23` then returns nothing or
    -- a certificate: votes for one status by different validators with valid signatures and more
    -- than two thirds of the power. The peers' powers are not negative, twice their sum is an
    -- `int32`, and each key has a peer.
    pub get_maj23_certifies :
        (height : ℤ) (chain_id : Bytes) (peers : List Peer) (val_set : Verifier b)
        (csas : List CrossShardAccept)
        → map (λ (p : Peer). p.vote) peers ≡ map pos vs
        → verifier_size b val_set ≤ length peers
        → 2 * sum vs < 2147483648
        → (s : CsaShardSet b) × (add_all (new_csa_shard_set b height chain_id peers val_set) csas
            ≡ done s)
          × Certified vs val_set (get_maj23 b s)
    unfolding new_csa_shard_set
    get_maj23_certifies height chain_id peers val_set csas staked covered small =
        let start = new_csa_shard_set b height chain_id peers val_set in
        let r = add_all-Ran start csas (
          new_csa_shard_set-IsValid b sign_bytes vs height chain_id peers val_set staked covered
            small) in
        (
          r.after,
          r.returned,
          subst (λ k. Certified vs k (get_maj23 b r.after)) r.same_val_set
              (get_maj23-Certified r.after r.valid),
        )

    -- Once `GetMaj23` returns a status it returns that status after any further votes.
    pub get_maj23_final :
        (s : CsaShardSet b) (status : Bytes) (votes csas : List CrossShardAccept)
        → IsValid b sign_bytes vs s
        → get_maj23 b s ≡ some (status, votes)
        → (t : CsaShardSet b) × (add_all s csas ≡ done t)
          × ((more : List CrossShardAccept) × (get_maj23 b t ≡ some (status, more)))
    unfolding get_maj23
    get_maj23_final s status votes csas v e =
        let r = add_all-Ran s csas v in
        (r.after, r.returned, decided (Bool-cases s.has_maj23_flag) r)
      where
        decided :
            ((s.has_maj23_flag ≡ true) ⊎ (s.has_maj23_flag ≡ false))
            → (r : Ran s (add_all s csas))
            → (more : List CrossShardAccept) × (get_maj23 b r.after ≡ some (status, more))
        decided (inr h) r = absurd (ground arith)
        decided (inl h) r =
            let (h', same) = r.final h in
            let here : s.maj23_commit_status ≡ status = ground arith in
            let there : r.after.maj23_commit_status ≡ status =
              r.valid.decided.status h' ∙ same ∙ sym (v.decided.status h) ∙ here in
            (slice_at r.after.maj23_key r.after.sig_map, rw h' (rw there refl))
