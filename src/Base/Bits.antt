-- ===== src/Base/Bits.antt =====
-- The binary digits of a number, and what the bitwise operations do to each.
use Prim.Native.Nat.{bit_and, bit_or, digits, bit_and-bitwise, bit_or-bitwise}
use native.Mathlib.Nat.{pow-suc}
use melete.Base.{
  ℕ, zero, suc, ◌+◌, ◌-◌, ◌*◌, ◌/◌, ◌%◌, ◌^◌, ◌≤◌, ◌<◌, min, max, ◌≡◌, ◌≢◌, refl, ap, ◌∙◌, Bool,
  false, arith, ltb, ◌==◌, if◌then◌else◌, ==_iff, Bool-cases, inl, inr, lt→ltb,
}

-- The digit of weight 2^j.
unfoldable pub bit : ℕ → ℕ → ℕ
bit a zero = a % 2
bit a (suc j) = bit (a / 2) j

pub bit-le_one : (a j : ℕ) → bit a j ≤ 1
unfolding bit
bit-le_one a zero = omega arith
bit-le_one a (suc j) = bit-le_one (a / 2) j

pub bit_of_zero : (j : ℕ) → bit 0 j ≡ 0
unfolding bit
bit_of_zero zero = refl
bit_of_zero (suc j) = bit_of_zero j

bit_of_step : (a d j : ℕ) → d ≤ 1 → bit (a * 2 + d) (suc j) ≡ bit a j
unfolding bit
bit_of_step a d j p = ap (λ x. bit x j) (omega arith)

-- `digits` works digit by digit.
or_digits-bit : (n a b j : ℕ) → a ≤ n → bit (digits (λ y. y) max n a b) j ≡ max (bit a j) (bit b j)
unfolding bit
or_digits-bit zero zero b j p = omega (arith, bit_of_zero j)
or_digits-bit zero (suc a) b j p = absurd (omega arith)
or_digits-bit (suc n) zero b j p = omega (arith, bit_of_zero j)
or_digits-bit (suc n) (suc a) b zero p = omega arith
or_digits-bit (suc n) (suc a) b (suc j) p =
    bit_of_step (digits (λ y. y) max n (suc a / 2) (b / 2)) (max (suc a % 2) (b % 2)) j
      (omega arith)
    ∙ or_digits-bit n (suc a / 2) (b / 2) j (omega arith)

and_digits-bit : (n a b j : ℕ) → a ≤ n → bit (digits (λ y. 0) min n a b) j ≡ min (bit a j) (bit b j)
unfolding bit
and_digits-bit zero zero b j p = omega (arith, bit_of_zero j)
and_digits-bit zero (suc a) b j p = absurd (omega arith)
and_digits-bit (suc n) zero b j p = omega (arith, bit_of_zero j)
and_digits-bit (suc n) (suc a) b zero p = omega arith
and_digits-bit (suc n) (suc a) b (suc j) p =
    bit_of_step (digits (λ y. 0) min n (suc a / 2) (b / 2)) (min (suc a % 2) (b % 2)) j
      (omega arith)
    ∙ and_digits-bit n (suc a / 2) (b / 2) j (omega arith)

pub bit-bit_or : (a b j : ℕ) → bit (bit_or a b) j ≡ max (bit a j) (bit b j)
bit-bit_or a b j =
    ap (λ x. bit x j) (λ i. bit_or-bitwise a b i) ∙ or_digits-bit a a b j (omega arith)

pub bit-bit_and : (a b j : ℕ) → bit (bit_and a b) j ≡ min (bit a j) (bit b j)
bit-bit_and a b j =
    ap (λ x. bit x j) (λ i. bit_and-bitwise a b i) ∙ and_digits-bit a a b j (omega arith)

two-pow-half : (j : ℕ) → 2 ^ suc j / 2 ≡ 2 ^ j
two-pow-half j = omega (arith, pow-suc 2 j)

pub bit-pow : (k j : ℕ) → bit (2 ^ k) j ≡ (if k == j then 1 else 0)
unfolding bit
bit-pow zero zero = refl
bit-pow zero (suc j) = bit_of_zero j ∙ ground arith
bit-pow (suc k) zero = ground (arith, pow-suc 2 k)
bit-pow (suc k) (suc j) = ap (λ x. bit x j) (two-pow-half k) ∙ bit-pow k j ∙ ground arith

zero_of_bits_below : (n x : ℕ) → x ≤ n → ((j : ℕ) → bit x j ≡ 0) → x ≡ 0
unfolding bit
zero_of_bits_below n zero p h = refl
zero_of_bits_below zero (suc x) p h = absurd (omega arith)
zero_of_bits_below (suc n) (suc x) p h =
    let low = h 0 in
    let high = zero_of_bits_below n (suc x / 2) (omega arith) (λ j. h (suc j)) in omega arith

pub zero_of_bits : (x : ℕ) → ((j : ℕ) → bit x j ≡ 0) → x ≡ 0
zero_of_bits x h = zero_of_bits_below x x (omega arith) h

pub lt_of_bits : (n x : ℕ) → ((j : ℕ) → n ≤ j → bit x j ≡ 0) → x < 2 ^ n
unfolding bit
lt_of_bits zero x h = omega (arith, zero_of_bits x (λ j. h j (omega arith)))
lt_of_bits (suc n) x h =
    omega (arith, pow-suc 2 n, lt_of_bits n (x / 2) (λ j p. h (suc j) (omega arith)))

pub bits_of_lt : (n x j : ℕ) → x < 2 ^ n → n ≤ j → bit x j ≡ 0
unfolding bit
bits_of_lt zero x j p q = ap (λ y. bit y j) (omega arith) ∙ bit_of_zero j
bits_of_lt (suc n) x zero p q = absurd (omega arith)
bits_of_lt (suc n) x (suc j) p q = bits_of_lt n (x / 2) j (omega (arith, pow-suc 2 n)) (omega arith)

-- The complement within `n` digits.
pub bit-complement : (n x j : ℕ) → x < 2 ^ n → j < n → bit (2 ^ n - 1 - x) j ≡ 1 - bit x j
unfolding bit
bit-complement zero x j p q = elim q [ ]
bit-complement (suc n) x zero p q = omega (arith, pow-suc 2 n)
bit-complement (suc n) x (suc j) p q =
    ap (λ y. bit y j) (omega (arith, pow-suc 2 n))
    ∙ bit-complement n (x / 2) j (omega (arith, pow-suc 2 n)) (omega arith)

-- `x & (1 << j) > 0`
unfoldable pub test_bit : ℕ → ℕ → Bool
test_bit x j = ltb 0 (bit_and x (2 ^ j))

bit_and-pow_bit : (x j i : ℕ) → bit (bit_and x (2 ^ j)) i ≡ (if j == i then bit x i else 0)
bit_and-pow_bit x j i = bit-bit_and x (2 ^ j) i ∙ ground (arith, bit-pow j i, bit-le_one x i)

pub test_bit_lem : (x j : ℕ) → test_bit x j ≡ (bit x j == 1)
unfolding test_bit
test_bit_lem x j = elim (Bool-cases (bit x j == 1)) [
  | inl one ↦
      let nonzero : bit_and x (2 ^ j) ≢ 0 = λ e.
        absurd (omega (arith, (==_iff _ _).0 one, ap (λ y. bit y j) e, bit_of_zero j, itself)) in
      rw one (lt→ltb 0 _ (omega arith))
  | inr other ↦
      let z : bit_and x (2 ^ j) ≡ 0 = zero_of_bits _ (λ i. none_at i other) in rw other (rw z)
]
  where
    itself : bit (bit_and x (2 ^ j)) j ≡ bit x j
    itself = bit_and-pow_bit x j j ∙ ground arith

    none_at : (i : ℕ) → (bit x j == 1) ≡ false → bit (bit_and x (2 ^ j)) i ≡ 0
    none_at i h = ground (arith, bit_and-pow_bit x j i, bit-le_one x i, bit-le_one x j)
