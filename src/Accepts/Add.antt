-- ===== src/Accepts/Add.antt =====
-- `AddCSA` on every branch.
use mathlib.Core.Option
use mathlib.Core.Path.{subst}
use melete.Base.{
  ℕ, ◌<◌, ◌≡◌, ◌≢◌, ◌⊎◌, refl, ap, ◌∙◌, sym, List, map, Option, none, some, Option-cases, Bool,
  true, false, not, ◌||◌, arith, if◌then◌else◌, length, length-map, get_elem?, get_elem?_lt,
  get_elem?-map, Bool-cases, inl, inr,
}
use melete.Base.Bytes.{Bytes, bytes_equal}
use melete.Base.Int.{ℤ, pos, negsuc, ltb_ℤ, leb_ℤ, eq_ℤ}
use melete.Base.Outcome.{Outcome, done, ◌>>=◌}
use melete.Base.Table.{lookup, bytes_eq, int_eq}
use melete.Signer.{Bls, verifier_size, verify_signature}
use melete.Accepts.{
  Peer, CrossShardAccept, CsaError, CsaShardSet, unsigned, record_vote, vote_at, decide,
  add_new_csa, add_csa, repeated, invalid_height, invalid_chain_id, invalid_index, signature_error,
  ambiguity,
}
use melete.Accepts.Valid.{IsValid}
use melete.Accepts.Quorum.{IsNew, recorded}
use melete.Signer.Laws.{verify_signature_returns}
use melete.Accepts.Decide.{Kept, unchanged, next, decide-Kept}

module _ (b : Bls) (sign_bytes : CrossShardAccept → Bytes) (vs : List ℕ) where
  -- The power of a validator that the set covers.
  power_of :
      (s : CsaShardSet b) (i : ℕ)
      → IsValid b sign_bytes vs s
      → i < verifier_size b s.val_set
      → (p : ℕ) × (get_elem? vs i ≡ some p) × (vote_at s.peer_list (pos i) ≡ done (pos p))
  unfolding vote_at Option.bind
  power_of s i v lt =
      let c = v.counted in
      let votes = map (λ (p : Peer). p.vote) s.peer_list in
      let same_length : length s.peer_list ≡ length vs =
        sym (length-map (λ (p : Peer). p.vote) s.peer_list)
        ∙ ap length c.staked
        ∙ length-map pos vs in
      let (p, e) = get_elem?_lt vs i (omega (arith, c.covered)) in
      let (q, f) = get_elem?_lt s.peer_list i (omega (arith, c.covered)) in
      let here = get_elem?-map (λ (r : Peer). r.vote) s.peer_list i q f in
      let there = get_elem?-map pos vs i p e in
      let of_list : some q.vote ≡ some (pos p) =
        sym here ∙ ap (λ l. get_elem? l i) c.staked ∙ there in
      (p, e, rw f (ap done (cc)))

  is_new :
      (s : CsaShardSet b) (csa : CrossShardAccept) (i p : ℕ) (v : IsValid b sign_bytes vs s)
      → csa.validator_index ≡ pos i
      → lookup csa.validator_index s.index_seen ≡ none
      → get_elem? vs i ≡ some p
      → verify_signature b s.val_set csa.signature (sign_bytes (unsigned csa)) csa.validator_index
        ≡ done true
      → IsNew b sign_bytes vs s v.choice csa
  is_new s csa i p v at none_seen power signed = record {
    index = i;
    power = p;
    by = at;
    free = v.counted.unseen i (ap (λ j. lookup j s.index_seen) (sym at) ∙ none_seen);
    power_at = power;
    signed = signed;
  }

  -- Past the tests on the header: the signature, and the vote.
  checked : (s : CsaShardSet b) (csa : CrossShardAccept) → Outcome (CsaShardSet b × Option CsaError)
  checked s csa =
      verify_signature b s.val_set csa.signature (sign_bytes (unsigned csa)) csa.validator_index
      >>= λ ok.
          if not ok
          then done (s, some signature_error)
          else vote_at s.peer_list csa.validator_index >>= λ vote.
              done (decide b (record_vote b s csa vote) csa)

  checked-Kept :
      (s : CsaShardSet b) (csa : CrossShardAccept) (i : ℕ)
      → IsValid b sign_bytes vs s
      → lookup csa.validator_index s.index_seen ≡ none
      → csa.validator_index ≡ pos i
      → i < verifier_size b s.val_set
      → Kept b sign_bytes vs s (checked s csa)
  unfolding checked verify_signature next recorded is_new
  checked-Kept s csa i v none_seen at lt =
      let (t, ran) =
        verify_signature_returns b s.val_set csa.signature (sign_bytes (unsigned csa))
          csa.validator_index i at in
      elim (Bool-cases t) [
        | inr bad ↦
            unchanged b sign_bytes vs s (some signature_error) _ v (λ x. absurd (cc))
              (rw ran (rw bad refl))
        | inl good ↦ counted (ran ∙ ap done good)
      ]
    where
      counted :
          verify_signature b s.val_set csa.signature (sign_bytes (unsigned csa)) csa.validator_index
            ≡ done true
          → Kept b sign_bytes vs s (checked s csa)
      counted signed =
          let (p, power, vote) = power_of s i v lt in
          let w = is_new s csa i p v at none_seen power signed in
          let runs : checked s csa ≡ done (decide b (record_vote b s csa (pos p)) csa) =
            ap
              (λ o. o >>= λ ok.
                if not ok
                then done (s, some signature_error)
                else vote_at s.peer_list csa.validator_index >>= λ x.
                    done (decide b (record_vote b s csa x) csa))
              signed
            ∙ ap (λ o. o >>= λ x. done (decide b (record_vote b s csa x) csa))
                (ap (vote_at s.peer_list) at ∙ vote) in
          subst (Kept b sign_bytes vs s) (sym runs) (decide-Kept b sign_bytes vs s csa v w)

  in_range :
      (j : ℤ) (n : ℕ)
      → (ltb_ℤ j (pos 0) || leb_ℤ (pos n) j) ≡ false
      → (i : ℕ) × (j ≡ pos i) × (i < n)
  in_range (pos i) n e = (i, refl, ground arith)
  in_range (negsuc i) n e = absurd (ground arith)

  add_new_csa-Kept :
      (s : CsaShardSet b) (csa : CrossShardAccept)
      → IsValid b sign_bytes vs s
      → lookup csa.validator_index s.index_seen ≡ none
      → Kept b sign_bytes vs s (add_new_csa b sign_bytes s csa)
  unfolding add_new_csa checked verify_signature
  add_new_csa-Kept s csa v none_seen = elim (Bool-cases (eq_ℤ csa.height s.height)) [
    | inr e ↦ unchanged b sign_bytes vs s (some invalid_height) _ v (λ x. absurd (cc)) (rw e refl)
    | inl e ↦ elim (Bool-cases (bytes_equal csa.accept_chain_id s.chain_id)) [
      | inr f ↦
          unchanged b sign_bytes vs s (some invalid_chain_id) _ v (λ x. absurd (cc))
            (rw e (rw f refl))
      | inl f ↦ ranged e f (Bool-cases outside)
    ]
  ]
    where
      outside : Bool
      outside =
          ltb_ℤ csa.validator_index (pos 0)
          || leb_ℤ (pos (verifier_size b s.val_set)) csa.validator_index

      ranged :
          eq_ℤ csa.height s.height ≡ true
          → bytes_equal csa.accept_chain_id s.chain_id ≡ true
          → ((outside ≡ true) ⊎ (outside ≡ false))
          → Kept b sign_bytes vs s (add_new_csa b sign_bytes s csa)
      ranged e f (inl out) =
          unchanged b sign_bytes vs s (some invalid_index) _ v (λ x. absurd (cc))
            (rw e (rw f (rw out refl)))
      ranged e f (inr within) =
          let (i, at, lt) = in_range csa.validator_index (verifier_size b s.val_set) within in
          let past : add_new_csa b sign_bytes s csa ≡ checked s csa =
            rw e (rw f (rw within refl)) in
          subst (Kept b sign_bytes vs s) (sym past) (checked-Kept s csa i v none_seen at lt)

  -- `AddCSA` on a well-formed set returns without a panic, whatever the vote, and keeps the set well
  -- formed: each validator's vote is counted at most once, and the decided status is the one that
  -- has more than two thirds of the power. The error of two majorities never comes, and a status
  -- that is decided stays.
  pub add_csa-Kept :
      (s : CsaShardSet b) (csa : CrossShardAccept)
      → IsValid b sign_bytes vs s
      → Kept b sign_bytes vs s (add_csa b sign_bytes s csa)
  unfolding add_csa
  add_csa-Kept s csa v = elim (Option-cases (lookup csa.validator_index s.index_seen)) [
    | inl e ↦
        subst (Kept b sign_bytes vs s) (sym (rw (e, add_csa) refl)) (add_new_csa-Kept s csa v e)
    | inr (u, e) ↦
        unchanged b sign_bytes vs s
          (if bytes_equal u csa.block_header_hash then none else some repeated) _ v
          (λ x. not_ambiguous (bytes_equal u csa.block_header_hash) x) (rw (e, add_csa) refl)
  ]
    where
      not_ambiguous : (t : Bool) → (if t then none else some repeated) ≢ some ambiguity
      not_ambiguous true x = cc
      not_ambiguous false x = cc
