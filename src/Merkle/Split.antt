-- ===== src/Merkle/Split.antt =====
-- `getSplitPoint` of crypto/merkle/tree.go, with `bits.Len`.
use native.Mathlib.Nat.{pow-suc}
use melete.Base.{
  ℕ, zero, suc, ◌+◌, sym, ◌-◌, ◌*◌, ◌/◌, ◌^◌, ◌≤◌, ◌<◌, ◌≡◌, refl, ap, ◌∙◌, arith, ltb, ◌==◌,
  if◌then◌else◌, Option, none, some, Bool-cases, inl, inr, max,
}

-- `bits.Len`: the number of binary digits, with fuel; a number has no more digits than its value.
bits_len_fuel : ℕ → ℕ → ℕ
bits_len_fuel zero n = 0
bits_len_fuel (suc f) zero = 0
bits_len_fuel (suc f) (suc n) = suc (bits_len_fuel f (suc n / 2))

unfoldable pub bits_len : ℕ → ℕ
unfolding bits_len_fuel
bits_len n = bits_len_fuel n n

-- The body of `getSplitPoint` behind its guard.
unfoldable pub split_point : ℕ → ℕ
unfolding bits_len
split_point length = let k = 2 ^ (bits_len length - 1) in if k == length then k / 2 else k

-- `getSplitPoint`: it panics below 1, which is `none`. Its callers pass at least 2.
pub get_split_point : ℕ → Option ℕ
get_split_point length = if ltb length 1 then none else some (split_point length)

pub two-pow-suc : (k : ℕ) → 2 ^ suc k ≡ 2 * 2 ^ k
two-pow-suc k = omega (arith, pow-suc 2 k)

bits_len_fuel_bounds :
    (f n : ℕ) → n ≤ f → (n < 2 ^ bits_len_fuel f n) × (2 ^ bits_len_fuel f n ≤ max 1 (2 * n))
unfolding bits_len_fuel
bits_len_fuel_bounds zero zero h = (omega arith, omega arith)
bits_len_fuel_bounds zero (suc n) h = absurd (omega arith)
bits_len_fuel_bounds (suc f) zero h = (omega arith, omega arith)
bits_len_fuel_bounds (suc f) (suc n) h =
    let ih = bits_len_fuel_bounds f (suc n / 2) (omega arith) in
    let e = two-pow-suc (bits_len_fuel f (suc n / 2)) in (omega arith, omega arith)

-- What the tree needs of a split of `n` leaves: a power of two, below `n` and at least half of it.
pub record IsSplit (n k : ℕ) : Type 0 where
  pub exponent : ℕ
  pub is_power : k ≡ 2 ^ exponent
  pub below : k < n
  pub at_least_half : n ≤ 2 * k

power_point :
    (n j : ℕ)
    → 2 ≤ n
    → n < 2 * (2 * 2 ^ j)
    → 2 * (2 * 2 ^ j) ≤ 2 * n
    → IsSplit n (if 2 * 2 ^ j == n then 2 * 2 ^ j / 2 else 2 * 2 ^ j)
power_point n j p lt le = elim (Bool-cases (2 * 2 ^ j == n)) [
  | inl e ↦ rw e (record {
    exponent = j;
    is_power = omega arith;
    below = ground arith;
    at_least_half = ground arith;
  })
  | inr e ↦ rw e (record {
    exponent = suc j;
    is_power = omega (arith, two-pow-suc j);
    below = ground arith;
    at_least_half = omega arith;
  })
]

len_point :
    (n l : ℕ)
    → 2 ≤ n
    → n < 2 ^ l
    → 2 ^ l ≤ max 1 (2 * n)
    → IsSplit n (if 2 ^ (l - 1) == n then 2 ^ (l - 1) / 2 else 2 ^ (l - 1))
len_point n zero p lt le = absurd (omega arith)
len_point n (suc zero) p lt le = absurd (omega arith)
len_point n (suc (suc j)) p lt le =
    let e : 2 ^ (suc (suc j) - 1) ≡ 2 * 2 ^ j = ap (◌^◌ 2) (omega arith) ∙ two-pow-suc j in
    let e' = two-pow-suc j in
    let e'' = two-pow-suc (suc j) in rw e (power_point n j p (omega arith) (omega arith))

-- `getSplitPoint` returns the largest power of two that is below the length, from two leaves on.
pub split_point-IsSplit : (n : ℕ) → 2 ≤ n → IsSplit n (split_point n)
unfolding split_point
split_point-IsSplit n p =
    let b = bits_len_fuel_bounds n n (omega arith) in len_point n (bits_len_fuel n n) p b.0 b.1

split_point_runs : split_point 11 ≡ 8
unfolding split_point
split_point_runs = refl

split_point_power_runs : split_point 8 ≡ 4
unfolding split_point
split_point_power_runs = refl

pow_grows : (e d : ℕ) → 2 * 2 ^ e ≤ 2 ^ (suc e + d)
pow_grows e zero =
    let same : suc e + 0 ≡ suc e = omega arith in omega (arith, two-pow-suc e, ap (◌^◌ 2) same)
pow_grows e (suc d) =
    let same : suc e + suc d ≡ suc (suc e + d) = omega arith in
    omega (arith, pow_grows e d, two-pow-suc (suc e + d), ap (◌^◌ 2) same)

split_below : (n e d : ℕ) → 2 ^ (suc e + d) < n → n ≤ 2 * 2 ^ e → ⊥
split_below n e d below half = absurd (omega (arith, pow_grows e d))

-- There is one such power.
pub IsSplit-unique : (n k l : ℕ) → IsSplit n k → IsSplit n l → k ≡ l
IsSplit-unique n k l p q = compare_exponents p.exponent q.exponent p.is_power q.is_power
  where
    compare_exponents : (e f : ℕ) → k ≡ 2 ^ e → l ≡ 2 ^ f → k ≡ l
    compare_exponents e f a c = elim (Bool-cases (e == f)) [
      | inl same ↦ a ∙ ap (◌^◌ 2) (ground arith) ∙ sym c
      | inr other ↦ elim (Bool-cases (ltb e f)) [
        | inl lt ↦
            let gap : suc e + (f - suc e) ≡ f = ground arith in
            absurd (
              split_below n e (f - suc e) (omega (arith, ap (◌^◌ 2) gap, q.below, c))
                (omega (arith, p.at_least_half, a)))
        | inr ge ↦
            let gap : suc f + (e - suc f) ≡ e = ground arith in
            absurd (
              split_below n f (e - suc f) (omega (arith, ap (◌^◌ 2) gap, p.below, a))
                (omega (arith, q.at_least_half, c)))
      ]
    ]
