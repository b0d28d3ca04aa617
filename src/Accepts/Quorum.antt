-- ===== src/Accepts/Quorum.antt =====
-- The entries that `AddCSA` writes for a new vote, and the powers that they add up to.
use mathlib.Core.Path.{subst}
use melete.Base.{
  ℕ, ◌+◌, ◌*◌, ◌/◌, ◌≤◌, ◌<◌, ◌≡◌, ◌≢◌, refl, ap, ◌∙◌, sym, List, [], ◌∷◌, ◌++◌, map, none, some,
  Bool, true, false, arith, length, get_elem?, Bool-cases, inl, inr,
}
use melete.Base.Bytes.{Bytes, bytes_equal, bytes_equal_refl, bytes_equal→eq}
use melete.Base.Int.{ℤ, pos, ◌+ℤ◌, pos-+ℤ, wrap_int32, wrap_int32_small, div_ℤ, eq_ℤ_iff}
use melete.Base.Outcome.{done}
use melete.Base.Table.{lookup, bytes_eq, int_eq, lookup-insert}
use melete.Signer.{Bls, Verifier, verifier_size, verify_signature}
use melete.Accepts.{
  Peer, CrossShardAccept, CsaShardSet, unsigned, number_at, slice_at, two_thirds, total_votes,
  record_vote, new_csa_shard_set,
}
use melete.Accepts.Count.{
  sum, Choice, weigh, mark, weigh-mark, weigh-mark_other, weigh_le, weigh-none, weigh_disjoint,
}
use melete.Accepts.Valid.{
  power_at, list_weight, list_weight_end, AreVotes, IsCounted, IsQuorum, IsValid, AreVotes-mark,
  AreVotes-end, number_at-insert, slice_at-insert,
}

pub two_thirds_small : (t : ℕ) → 2 * t < 2147483648 → two_thirds (pos t) ≡ pos (2 * t / 3)
unfolding two_thirds div_ℤ
two_thirds_small t h =
    let twice : t + t ≡ 2 * t = omega arith in
    rw (pos-+ℤ t t) (rw twice (rw (wrap_int32_small (2 * t) h) refl))

total_votes_small :
    (acc : ℕ) (peers : List Peer) (vs : List ℕ)
    → map (λ (p : Peer). p.vote) peers ≡ map pos vs
    → acc + sum vs < 2147483648
    → total_votes (pos acc) peers ≡ pos (acc + sum vs)
unfolding total_votes
total_votes_small acc [] [] e h = ap pos (omega arith)
total_votes_small acc [] (v ∷ vs) e h = absurd (cc)
total_votes_small acc (p ∷ ps) [] e h = absurd (cc)
total_votes_small acc (p ∷ ps) (v ∷ vs) e h =
    let here : p.vote ≡ pos v = cc in
    let step : wrap_int32 (pos acc +ℤ p.vote) ≡ pos (acc + v) =
      rw here (rw (pos-+ℤ acc v) (wrap_int32_small (acc + v) (omega arith))) in
    rw step (total_votes_small (acc + v) ps vs (cc) (omega arith) ∙ ap pos (omega arith))

pub unequal : (j k : Bytes) → bytes_equal j k ≡ false → j ≢ k
unequal j k e same = differ e (ap (bytes_equal j) (sym same) ∙ bytes_equal_refl j)
  where
    differ : {t : Bool} → t ≡ false → t ≢ true
    differ x y = cc

-- Two keys cannot both have a quorum.
pub one_quorum :
    (vs : List ℕ) (f : Choice) (k l : Bytes) → IsQuorum vs f k → IsQuorum vs f l → k ≡ l
one_quorum vs f k l p q = elim (Bool-cases (bytes_equal k l)) [
  | inl e ↦ bytes_equal→eq k l e
  | inr e ↦ absurd (omega (arith, weigh_disjoint k l f 0 vs (unequal k l e)))
]

module _ (b : Bls) (sign_bytes : CrossShardAccept → Bytes) (vs : List ℕ) where
  new_csa_shard_set-IsCounted :
      (height : ℤ) (chain_id : Bytes) (peers : List Peer) (val_set : Verifier b)
      → map (λ (p : Peer). p.vote) peers ≡ map pos vs
      → verifier_size b val_set ≤ length peers
      → 2 * sum vs < 2147483648
      → IsCounted b sign_bytes vs (λ i. none) (new_csa_shard_set b height chain_id peers val_set)
  unfolding new_csa_shard_set lookup
  new_csa_shard_set-IsCounted height chain_id peers val_set staked covered small = record {
    staked = staked;
    covered = covered;
    total = total_votes_small 0 peers vs staked (omega arith) ∙ ap pos (omega arith);
    small = small;
    unseen = λ i e. refl;
    powers = λ k. ap pos (sym (weigh-none k 0 vs));
    weights = λ k. sym (weigh-none k 0 vs);
    held = λ k. tt;
  }

  pub new_csa_shard_set-IsValid :
      (height : ℤ) (chain_id : Bytes) (peers : List Peer) (val_set : Verifier b)
      → map (λ (p : Peer). p.vote) peers ≡ map pos vs
      → verifier_size b val_set ≤ length peers
      → 2 * sum vs < 2147483648
      → IsValid b sign_bytes vs (new_csa_shard_set b height chain_id peers val_set)
  unfolding new_csa_shard_set
  new_csa_shard_set-IsValid height chain_id peers val_set staked covered small = record {
    choice = λ i. none;
    counted = new_csa_shard_set-IsCounted height chain_id peers val_set staked covered small;
    decided = record {
      quorum = λ e. absurd (cc);
      status = λ e. absurd (cc);
      complete = λ k q. absurd (omega (arith, weigh-none k 0 vs, q));
    };
  }

  -- A vote that is there to be counted.
  pub record IsNew (s : CsaShardSet b) (f : Choice) (csa : CrossShardAccept) : Type 0 where
    pub index : ℕ
    pub power : ℕ
    pub by : csa.validator_index ≡ pos index
    pub free : f index ≡ none
    pub power_at : get_elem? vs index ≡ some power
    pub signed :
        verify_signature b s.val_set csa.signature (sign_bytes (unsigned csa)) csa.validator_index
        ≡ done true

  module _ (s : CsaShardSet b) (f : Choice) (csa : CrossShardAccept)
      (c : IsCounted b sign_bytes vs f s) (w : IsNew s f csa) where
    unfoldable pub marked : Choice
    marked = mark f w.index csa.commit_status

    pub weigh_new : weigh csa.commit_status marked 0 vs ≡ weigh csa.commit_status f 0 vs + w.power
    unfolding marked
    weigh_new =
        let zero_add : 0 + w.index ≡ w.index = omega arith in
        ap (λ n. weigh csa.commit_status (mark f n csa.commit_status) 0 vs) (sym zero_add)
        ∙ weigh-mark csa.commit_status f 0 w.index w.power vs (ap f zero_add ∙ w.free) w.power_at

    pub weigh_old : (k : Bytes) → csa.commit_status ≢ k → weigh k marked 0 vs ≡ weigh k f 0 vs
    unfolding marked
    weigh_old k ne = weigh-mark_other csa.commit_status k f w.index 0 vs ne w.free

    new_power :
        wrap_int32 (number_at csa.commit_status s.key_vote_power +ℤ pos w.power)
        ≡ pos (weigh csa.commit_status marked 0 vs)
    new_power = rw (c.powers csa.commit_status) (
        rw (pos-+ℤ (weigh csa.commit_status f 0 vs) w.power) (
          rw (sym weigh_new)
            (wrap_int32_small _ (omega (arith, weigh_le csa.commit_status marked 0 vs, c.small)))))

    unfoldable pub recorded : CsaShardSet b
    recorded = record_vote b s csa (pos w.power)

    pub recorded_powers :
        (k : Bytes) → number_at k recorded.key_vote_power ≡ pos (weigh k marked 0 vs)
    unfolding recorded record_vote
    recorded_powers k =
        number_at-insert b sign_bytes csa.commit_status k _ s.key_vote_power
        ∙ elim (Bool-cases (bytes_equal csa.commit_status k)) [
          | inl e ↦ rw e (new_power ∙ ap (λ j. pos (weigh j marked 0 vs)) (bytes_equal→eq _ k e))
          | inr e ↦ rw e (c.powers k ∙ ap pos (sym (weigh_old k (unequal csa.commit_status k e))))
        ]

    new_weight :
        list_weight vs (slice_at csa.commit_status s.sig_map ++ (csa ∷ []))
        ≡ weigh csa.commit_status marked 0 vs
    new_weight =
        let at : power_at vs csa.validator_index ≡ w.power = rw w.by (rw w.power_at refl) in
        omega (
          arith,
          list_weight_end vs (slice_at csa.commit_status s.sig_map) csa,
          c.weights csa.commit_status,
          weigh_new,
        )

    recorded_weights :
        (k : Bytes) → list_weight vs (slice_at k recorded.sig_map) ≡ weigh k marked 0 vs
    unfolding recorded record_vote
    recorded_weights k =
        ap (list_weight vs) (slice_at-insert b sign_bytes csa.commit_status k _ s.sig_map)
        ∙ elim (Bool-cases (bytes_equal csa.commit_status k)) [
          | inl e ↦ rw e (new_weight ∙ ap (λ j. weigh j marked 0 vs) (bytes_equal→eq _ k e))
          | inr e ↦ rw e (c.weights k ∙ sym (weigh_old k (unequal csa.commit_status k e)))
        ]

    recorded_held :
        (k : Bytes) → AreVotes b sign_bytes s.val_set k marked (slice_at k recorded.sig_map)
    unfolding recorded record_vote marked
    recorded_held k =
        rw (slice_at-insert b sign_bytes csa.commit_status k _ s.sig_map)
          (elim (Bool-cases (bytes_equal csa.commit_status k)) [
            | inl e ↦ rw e (
                subst
                  (λ j.
                    AreVotes b sign_bytes s.val_set j marked
                      (slice_at csa.commit_status s.sig_map ++ (csa ∷ [])))
                  (bytes_equal→eq _ k e) appended)
            | inr e ↦ rw e (
                AreVotes-mark b sign_bytes s.val_set k csa.commit_status f w.index _ w.free
                  (c.held k))
          ])
      where
        appended :
            AreVotes b sign_bytes s.val_set csa.commit_status marked
              (slice_at csa.commit_status s.sig_map ++ (csa ∷ []))
        appended =
            AreVotes-end b sign_bytes s.val_set csa.commit_status f w.index
              (slice_at csa.commit_status s.sig_map) csa w.free w.by (c.held csa.commit_status)
              (record {
                commits = refl;
                signed = w.signed;
                index = w.index;
                by = w.by;
                chosen = ground arith;
              })

    pub recorded-IsCounted : IsCounted b sign_bytes vs marked recorded
    unfolding recorded record_vote marked
    recorded-IsCounted = record {
      staked = c.staked;
      covered = c.covered;
      total = c.total;
      small = c.small;
      unseen = λ i e. ground (
        arith,
        w.by,
        c.unseen i,
        eq_ℤ_iff csa.validator_index (pos i),
        lookup-insert csa.validator_index (pos i) csa.block_header_hash s.index_seen,
        e,
      );
      powers = recorded_powers;
      weights = recorded_weights;
      held = recorded_held;
    }
