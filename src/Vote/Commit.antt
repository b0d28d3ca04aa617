-- ===== src/Vote/Commit.antt =====
-- `ValidateVote` of a commit, for one shard.
use melete.Base.{
  ℕ, suc, ◌+◌, ◌*◌, ◌/◌, ◌<◌, ◌≡◌, ◌≢◌, refl, ap, ap₂, ◌∙◌, sym, List, [], ◌∷◌, map, Option, none,
  some, Bool, true, false, not, arith, if◌then◌else◌, ◌==◌, length, get_elem?, Bool-cases, inl, inr,
}
use melete.Base.Bytes.{Bytes, Text}
use melete.Base.Int.{ℤ, pos, ltb_ℤ, ◌+ℤ◌, pos-+ℤ, wrap_int32, wrap_int32_small}
use melete.Base.Outcome.{Outcome, done, or_panic, ◌>>=◌, bind_inv, or_panic_inv, done-injective}
use melete.BitVector.{BitVector, to_bytes, size}
use melete.BitVector.Valid.{IsValid, test}
use melete.BitVector.Access.{get_index_lem}
use melete.Signer.{Bls, Verifier, verifier_size, verify_aggregate}
use melete.Accepts.{Peer, CrossShardAccept, unsigned, two_thirds}
use melete.Accepts.Count.{sum}
use melete.Accepts.Quorum.{two_thirds_small}
use melete.Vote.Cross.{
  CrossShardCommit, CommitError, voted_power, validate_vote, validate_aggregate,
  get_cross_shard_accept, new_cross_shard_accept, bad_aggregate, less_than_two_thirds,
  nil_peer_list, wrong_validator_set, wrong_bit_vector,
}

-- The powers `vs` of the validators from `i` on whose bits are set.
abbrev pub bit_power : BitVector → ℕ → List ℕ → ℕ
bit_power bv i [] = 0
bit_power bv i (v ∷ vs) = (if test bv i then v else 0) + bit_power bv (suc i) vs

voted_power_lem :
    (bv : BitVector) (i acc : ℕ) (peers : List Peer) (vs : List ℕ)
    → IsValid bv
    → map (λ (p : Peer). p.vote) peers ≡ map pos vs
    → acc + sum vs < 2147483648
    → voted_power (some bv) i peers (pos acc) ≡ done (pos (acc + bit_power bv i vs))
unfolding voted_power
voted_power_lem bv i acc [] [] v e h = ap (λ n. done (pos n)) (omega arith)
voted_power_lem bv i acc [] (w ∷ vs) v e h = absurd (cc)
voted_power_lem bv i acc (p ∷ ps) [] v e h = absurd (cc)
voted_power_lem bv i acc (p ∷ ps) (w ∷ vs) v e h =
    let here : p.vote ≡ pos w = cc in
    let step : wrap_int32 (pos acc +ℤ p.vote) ≡ pos (acc + w) =
      rw here (rw (pos-+ℤ acc w) (wrap_int32_small (acc + w) (omega arith))) in
    let counted = voted_power_lem bv (suc i) (acc + w) ps vs v (cc) (omega arith) in
    let skipped = voted_power_lem bv (suc i) acc ps vs v (cc) (omega arith) in
    elim (Bool-cases (test bv i)) [
      | inl set ↦
          rw (get_index_lem bv i v)
            (rw set (rw step (counted ∙ ap (λ n. done (pos n)) (omega arith))))
      | inr unset ↦
          rw (get_index_lem bv i v) (rw unset (skipped ∙ ap (λ n. done (pos n)) (omega arith)))
    ]

module _ (b : Bls) (encode : CrossShardAccept → Bytes) where
  -- The aggregated signature on the `index`-th shard's accept is valid.
  pub record IsAggregated (c : CrossShardCommit) (val_set : Verifier b) (index : ℕ) (bv : BitVector)
      : Type 0 where
    pub chain : Text
    pub status : Bytes
    pub aggregate : Text
    pub chain_at : get_elem? c.chain_list index ≡ some chain
    pub status_at : get_elem? c.commit_status_list index ≡ some status
    pub aggregate_at : get_elem? c.aggregated_signature_list index ≡ some aggregate
    pub verified :
        verify_aggregate b val_set aggregate
          (encode (
            unsigned (
              new_cross_shard_accept c.upper_chain_id chain c.height c.block_header_hash status
                (pos 0))))
          (to_bytes (some bv))
        ≡ done true

  validate_aggregate_inv :
      (c : CrossShardCommit) (val_set : Verifier b) (index : ℕ) (bv : BitVector)
      → validate_aggregate b encode c val_set index (some bv) ≡ done none
      → IsAggregated c val_set index bv
  unfolding validate_aggregate get_cross_shard_accept
  validate_aggregate_inv c val_set index bv e =
      let (msg, made, e1) = bind_inv (get_cross_shard_accept c index (pos 0)) _ none e in
      let (agg, read, e2) =
        bind_inv (or_panic (get_elem? c.aggregated_signature_list index)) _ none e1 in
      let (t, ran, e3) =
        bind_inv (verify_aggregate b val_set agg (encode (unsigned msg)) (to_bytes (some bv))) _
          none e2 in
      let (chain, found, m1) = bind_inv (or_panic (get_elem? c.chain_list index)) _ msg made in
      let (status, found', m2) =
        bind_inv (or_panic (get_elem? c.commit_status_list index)) _ msg m1 in
      record {
        chain = chain;
        status = status;
        aggregate = agg;
        chain_at = or_panic_inv _ chain found;
        status_at = or_panic_inv _ status found';
        aggregate_at = or_panic_inv _ agg read;
        verified =
            ap (λ m. verify_aggregate b val_set agg (encode (unsigned m)) (to_bytes (some bv)))
              (done-injective m2)
            ∙ ran
            ∙ ap done (accepted t e3);
      }
    where
      accepted :
          (t : Bool) → Outcome.done (if t then none else some bad_aggregate) ≡ done none → t ≡ true
      accepted true p = refl
      accepted false p = absurd (cc)

  refuse_inv :
      (t : Bool) (err : CommitError) (o : Outcome (Option CommitError))
      → (if t then done (some err) else o) ≡ done none
      → (t ≡ false) × (o ≡ done none)
  refuse_inv true err o p = absurd (cc)
  refuse_inv false err o p = (refl, p)

  -- The result for too few votes; it reads the shard's name.
  abbrev few_votes : CrossShardCommit → ℕ → Outcome (Option CommitError)
  few_votes c index =
      or_panic (get_elem? c.chain_list index) >>= λ chain. done (some less_than_two_thirds)

  few_votes_refused :
      (o : Option Text)
      → (or_panic o >>= λ chain. done (some less_than_two_thirds)) ≢ Outcome.done none
  few_votes_refused none q = cc
  few_votes_refused (some x) q = cc

  enough :
      (c : CrossShardCommit) (index : ℕ) (t : Bool) (o : Outcome (Option CommitError))
      → (if not t then few_votes c index else o) ≡ done none
      → (t ≡ true) × (o ≡ done none)
  enough c index true o q = (refl, q)
  enough c index false o q = absurd (few_votes_refused (get_elem? c.chain_list index) q)

  above :
      (total : ℤ) (vs : List ℕ) (n : ℕ)
      → total ≡ pos (0 + n)
      → 2 * sum vs < 2147483648
      → ltb_ℤ (two_thirds (pos (sum vs))) total ≡ true
      → 2 * sum vs / 3 < n
  above total vs n p small r =
      let t : ltb_ℤ (pos (2 * sum vs / 3)) (pos (0 + n)) ≡ true =
        sym (ap₂ ltb_ℤ (two_thirds_small (sum vs) small) p) ∙ r in
      ground arith

  -- A commit that `ValidateVote` accepts for its `index`-th shard has a bit vector with one bit for
  -- each peer, the validators whose bits are set have more than two thirds of the shard's power, and
  -- the aggregated signature on the shard's accept verifies under their keys. The vector is well
  -- formed, the powers are not negative and twice their sum is an `int32`.
  pub validate_vote_sound :
      (c : CrossShardCommit) (peers : List Peer) (val_set : Verifier b) (index : ℕ) (vs : List ℕ)
      (bv : BitVector)
      → get_elem? c.validator_bit_vector_list index ≡ some (some bv)
      → IsValid bv
      → map (λ (p : Peer). p.vote) peers ≡ map pos vs
      → 2 * sum vs < 2147483648
      → validate_vote b encode c peers val_set index (pos (sum vs)) ≡ done none
      → (length peers ≡ bv.bits)
        × (2 * sum vs / 3 < bit_power bv 0 vs)
        × IsAggregated c val_set index bv
  unfolding validate_vote size
  validate_vote_sound c peers val_set index vs bv at v staked small e =
      let rest = sym (ap (λ o. or_panic o >>= λ w. tests w) at) ∙ e in
      let (e1, e2) = refuse_inv (length peers == 0) nil_peer_list _ rest in
      let (e3, e4) =
        refuse_inv (not (length peers == verifier_size b val_set)) wrong_validator_set _ e2 in
      let (e5, e6) = refuse_inv (not (length peers == bv.bits)) wrong_bit_vector _ e4 in
      let (total, ran, e7) = bind_inv (voted_power (some bv) 0 peers (pos 0)) _ none e6 in
      let power = voted_power_lem bv 0 0 peers vs v staked (omega arith) in
      let (many, e8) = enough c index _ _ e7 in
      let total_is : total ≡ pos (0 + bit_power bv 0 vs) = done-injective (sym ran ∙ power) in
      (
        ground arith,
        above total vs _ total_is small many,
        validate_aggregate_inv c val_set index bv e8,
      )
    where
      tests : Option BitVector → Outcome (Option CommitError)
      tests w =
          if length peers == 0
          then done (some nil_peer_list)
          else if not (length peers == verifier_size b val_set)
          then done (some wrong_validator_set)
          else if not (length peers == size w)
          then done (some wrong_bit_vector)
          else voted_power w 0 peers (pos 0) >>= λ total.
              if not (ltb_ℤ (two_thirds (pos (sum vs))) total)
              then few_votes c index
              else validate_aggregate b encode c val_set index w
