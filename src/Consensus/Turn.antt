-- ===== src/Consensus/Turn.antt =====
-- Every validator's turn to propose comes.
use melete.Base.{
  ℕ, zero, suc, ◌+◌, ◌-◌, ◌%◌, ◌<◌, ◌≡◌, ◌⊎◌, ap, sym, ◌∙◌, some, arith, Bool-cases, inl, inr, ltb,
}
use native.Mathlib.Nat.{mod-add-mod, mod-eq_of_lt, add-zero, add-mod_right}
use melete.Base.Int.{pos, ◌+ℤ◌, pos-+ℤ}
use melete.Base.Outcome.{done}
use melete.Base.Table.{lookup, bytes_eq}
use melete.Signer.{Bls, Verifier, verifier_size}
use melete.Consensus.{Node, ConsensusState, chain_of, calculate_proposer, mod_ℤ}

remainder_of :
    (d a i k : ℕ)
    → i < suc d
    → (a % suc d + k ≡ i) ⊎ (a % suc d + k ≡ i + suc d)
    → (a + k) % suc d ≡ i
remainder_of d a i k lt (inl e) =
    sym (mod-add-mod a (suc d) k) ∙ ap (λ x. x % suc d) e ∙ mod-eq_of_lt lt
remainder_of d a i k lt (inr e) =
    sym (mod-add-mod a (suc d) k)
    ∙ ap (λ x. x % suc d) e
    ∙ add-mod_right i (suc d)
    ∙ mod-eq_of_lt lt

-- Among `d` numbers in a row one has the remainder `i`.
remainder_comes : (d a i : ℕ) → i < suc d → (k : ℕ) × (k < suc d) × ((a + k) % suc d ≡ i)
remainder_comes d a i lt = elim (Bool-cases (ltb i (a % suc d))) [
  | inl below ↦ (
    suc d + i - a % suc d,
    ground arith,
    remainder_of d a i (suc d + i - a % suc d) lt (inr (ground arith)),
  )
  | inr above ↦
      (i - a % suc d, omega arith, remainder_of d a i (i - a % suc d) lt (inl (ground arith)))
]

module _ (b : Bls) (n : Node) where
  turn_at :
      (m a i : ℕ) → i < m → (k : ℕ) × (k < m) × (mod_ℤ b n (pos (a + k) +ℤ pos 0) m ≡ done (pos i))
  turn_at zero a i lt = absurd (omega (arith, lt))
  turn_at (suc d) a i lt =
      let (k, below, same) = remainder_comes d a i lt in
      (
        k,
        below,
        ap (λ x. mod_ℤ b n x (suc d)) (pos-+ℤ (a + k) 0)
            ∙ ap (λ x. done (pos (x % suc d))) (add-zero (a + k))
            ∙ ap (λ x. done (pos x)) same,
      )

  -- Within as many heights as a shard has validators, each of them is the proposer; the height is
  -- not negative, the round is 0, and the shard's validators are known.
  pub calculate_proposer_comes :
      (s : ConsensusState b n) (v : Verifier b) (height i : ℕ)
      → lookup (chain_of b n s) s.height_datas.all_validator_set ≡ some v
      → s.round ≡ pos 0
      → i < verifier_size b v
      → (k : ℕ) × (k < verifier_size b v)
        × (calculate_proposer b n (record s { height = pos (height + k) }) ≡ done (pos i))
  unfolding calculate_proposer
  calculate_proposer_comes s v height i known at_zero lt =
      rw known (rw at_zero (turn_at (verifier_size b v) height i lt))
