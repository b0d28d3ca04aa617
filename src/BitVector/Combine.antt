-- ===== src/BitVector/Combine.antt =====
-- `Or`, `And`, `Not` and `Sub`, bit by bit.
use Prim.Native.Nat.{bit_and, bit_or}
use melete.Base.{
  ℕ, ◌-◌, ◌/◌, ◌%◌, ◌≤◌, min, max, ◌≡◌, refl, ◌∙◌, Bool, true, false, ◌&&◌, ◌||◌, not, some, arith,
  ltb, ◌==◌, length, get_or, lt→ltb,
}
use melete.Base.Outcome.{done}
use melete.BitVector.{BitVector, byte_count, resize, or_vectors, and_vectors, sub_vectors, and_not}
use melete.BitVector.Valid.{IsValid, raw_bit, test, get_or-lt}
use melete.BitVector.Bytewise.{
  length-resize, bit_or-lt, bit_and-lt, result, result-IsValid, result_runs, result-test, or_bits,
  and_bits, sub_bits,
}

module _ (a o : BitVector) (va : IsValid a) (vo : IsValid o) where
  -- `Or` always succeeds on well-formed vectors, and the size is the larger one. A bit of the
  -- right operand counts only within the bytes that both operands have.
  pub or_vectors_lem :
      (c : BitVector) × (or_vectors (some a) (some o) ≡ done (some c))
      × IsValid c
      × (c.bits ≡ max a.bits o.bits)
      × ((i : ℕ)
          → test c i ≡ (
              ltb i (max a.bits o.bits)
              && ((raw_bit a.elems i == 1)
                  || (ltb (i / 8) (min (length a.elems) (length o.elems))
                      && (raw_bit o.elems i == 1)))))
  unfolding or_vectors
  or_vectors_lem = (
    result bit_or (max a.bits o.bits) n a o,
    result_runs bit_or (max a.bits o.bits) n a o small (omega arith),
    result-IsValid bit_or _ n a o bit_or-lt va vo,
    refl,
    λ i. result-test bit_or (max a.bits o.bits) n a o i _ small (omega arith) (λ lt.
        or_bits (ltb (i / 8) n) (get_or a.elems (i / 8) 0) (get_or o.elems (i / 8) 0) (i % 8)),
  )
    where
      n : ℕ
      n = min (length a.elems) (length o.elems)

      small : n ≤ byte_count (max a.bits o.bits)
      small = omega (arith, va.enough, vo.enough)

  -- `And` always succeeds on well-formed vectors: the size is the smaller one, and a bit is set
  -- exactly when both operands have it set.
  pub and_vectors_lem :
      (c : BitVector) × (and_vectors (some a) (some o) ≡ done (some c))
      × IsValid c
      × (c.bits ≡ min a.bits o.bits)
      × ((i : ℕ) → test c i ≡ (test a i && test o i))
  unfolding and_vectors
  and_vectors_lem = (
    result bit_and bits n a o,
    result_runs bit_and bits n a o (omega (arith, len)) small,
    result-IsValid bit_and bits n a o (λ x y p _. bit_and-lt x y p) va vo,
    refl,
    λ i.
        result-test bit_and bits n a o i _ (omega (arith, len)) small (λ lt.
          and_bits (ltb (i / 8) n) (get_or a.elems (i / 8) 0) (get_or o.elems (i / 8) 0) (i % 8)
            (lt→ltb _ _ (omega (arith, len))))
        ∙ both i (raw_bit a.elems i == 1) (raw_bit o.elems i == 1),
  )
    where
      bits : ℕ
      bits = min a.bits o.bits

      n : ℕ
      n = length (resize (byte_count bits) a.elems)

      len : n ≡ byte_count bits
      len = length-resize (byte_count bits) a.elems

      small : n ≤ length o.elems
      small = omega (arith, len, vo.enough)

      both :
          (i : ℕ) (x y : Bool)
          → (ltb i bits && (x && y)) ≡ ((ltb i a.bits && x) && (ltb i o.bits && y))
      both i x y = ground arith

  -- `Sub` always succeeds on well-formed vectors: the size is the left one's, and a bit is set
  -- exactly when the left operand has it set and the right one's bytes do not store it.
  pub sub_vectors_lem :
      (c : BitVector) × (sub_vectors (some a) (some o) ≡ done (some c))
      × IsValid c
      × (c.bits ≡ a.bits)
      × ((i : ℕ)
          → test c i ≡ (
              test a i
              && not (
                  ltb (i / 8) (min (length a.elems) (length o.elems)) && (raw_bit o.elems i == 1))))
  unfolding sub_vectors
  sub_vectors_lem = (
    result and_not a.bits n a o,
    result_runs and_not a.bits n a o small (omega arith),
    result-IsValid and_not a.bits n a o (λ x y p _. bit_and-lt x (255 - y) p) va vo,
    refl,
    λ i.
        result-test and_not a.bits n a o i _ small (omega arith) (λ lt.
          sub_bits (ltb (i / 8) n) (get_or a.elems (i / 8) 0) (get_or o.elems (i / 8) 0) (i % 8)
            (get_or-lt o.elems (i / 8) vo.all_bytes) (omega arith))
        ∙ regroup (ltb i a.bits) (raw_bit a.elems i == 1)
            (ltb (i / 8) n && (raw_bit o.elems i == 1)),
  )
    where
      n : ℕ
      n = min (length a.elems) (length o.elems)

      small : n ≤ byte_count a.bits
      small = omega (arith, va.enough)

      regroup : (w x y : Bool) → (w && (x && not y)) ≡ ((w && x) && not y)
      regroup true x y = refl
      regroup false x y = refl
