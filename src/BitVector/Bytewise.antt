-- ===== src/BitVector/Bytewise.antt =====
-- The operation of two bit vectors on their bytes, and its bits.
use Prim.Native.Nat.{bit_and, bit_or}
use melete.Base.{
  ℕ, zero, suc, ◌-◌, ◌/◌, ◌%◌, ◌≤◌, ◌<◌, ◌≡◌, refl, ap, ◌∙◌, Bool, true, false, ◌&&◌, ◌||◌, not,
  some, List, [], ◌∷◌, arith, ltb, ◌==◌, if◌then◌else◌, length, get_or, Bool-cases, inl, inr,
  ltb→lt,
}
use melete.Base.Bits.{
  bit, bit-bit_or, bit-bit_and, bit-complement, bit-le_one, lt_of_bits, bits_of_lt,
}
use melete.Base.Outcome.{done}
use melete.BitVector.{BitVector, byte_count, resize, copy_bits, combine, with_elems, and_not}
use melete.BitVector.Valid.{IsValid, AllBytes, raw_bit, test}

pub length-resize : (n : ℕ) (xs : List ℕ) → length (resize n xs) ≡ n
unfolding resize
length-resize zero xs = refl
length-resize (suc n) [] = ap suc (length-resize n [])
length-resize (suc n) (x ∷ xs) = ap suc (length-resize n xs)

pub get_or-resize : (n : ℕ) (xs : List ℕ) (k : ℕ) → k < n → get_or (resize n xs) k 0 ≡ get_or xs k 0
unfolding resize
get_or-resize zero xs k h = elim h [ ]
get_or-resize (suc n) [] zero h = refl
get_or-resize (suc n) [] (suc k) h = get_or-resize n [] k (omega arith)
get_or-resize (suc n) (x ∷ xs) zero h = refl
get_or-resize (suc n) (x ∷ xs) (suc k) h = get_or-resize n xs k (omega arith)

pub resize-AllBytes : (n : ℕ) (xs : List ℕ) → AllBytes xs → AllBytes (resize n xs)
unfolding resize
resize-AllBytes zero xs h = tt
resize-AllBytes (suc n) [] h = (omega arith, resize-AllBytes n [] tt)
resize-AllBytes (suc n) (x ∷ xs) h = (h.0, resize-AllBytes n xs h.1)

module _ (op : ℕ → ℕ → ℕ) where
  -- The list that the loop leaves.
  pub combined : ℕ → List ℕ → List ℕ → List ℕ
  combined zero c o = c
  combined (suc n) [] o = []
  combined (suc n) (x ∷ c) [] = x ∷ c
  combined (suc n) (x ∷ c) (y ∷ o) = op x y ∷ combined n c o

  pub combine_lem :
      (n : ℕ) (c o : List ℕ)
      → n ≤ length c
      → n ≤ length o
      → combine op n c o ≡ done (combined n c o)
  unfolding combine combined
  combine_lem zero c o p q = refl
  combine_lem (suc n) [] o p q = absurd (omega arith)
  combine_lem (suc n) (x ∷ c) [] p q = absurd (omega arith)
  combine_lem (suc n) (x ∷ c) (y ∷ o) p q = rw (combine_lem n c o (omega arith) (omega arith))

  pub length-combined : (n : ℕ) (c o : List ℕ) → length (combined n c o) ≡ length c
  unfolding combined
  length-combined zero c o = refl
  length-combined (suc n) [] o = refl
  length-combined (suc n) (x ∷ c) [] = refl
  length-combined (suc n) (x ∷ c) (y ∷ o) = ap suc (length-combined n c o)

  pub get_or-combined :
      (n : ℕ) (c o : List ℕ) (k : ℕ)
      → n ≤ length c
      → n ≤ length o
      → get_or (combined n c o) k 0
        ≡ (if ltb k n then op (get_or c k 0) (get_or o k 0) else get_or c k 0)
  unfolding combined
  get_or-combined zero c o k p q = ground arith
  get_or-combined (suc n) [] o k p q = absurd (omega arith)
  get_or-combined (suc n) (x ∷ c) [] k p q = absurd (omega arith)
  get_or-combined (suc n) (x ∷ c) (y ∷ o) zero p q = ground arith
  get_or-combined (suc n) (x ∷ c) (y ∷ o) (suc k) p q =
      get_or-combined n c o k (omega arith) (omega arith) ∙ ground arith

  pub combined-AllBytes :
      ((x y : ℕ) → x < 256 → y < 256 → op x y < 256)
      → (n : ℕ) (c o : List ℕ) → AllBytes c
      → AllBytes o
      → AllBytes (combined n c o)
  unfolding combined
  combined-AllBytes small zero c o hc ho = hc
  combined-AllBytes small (suc n) [] o hc ho = tt
  combined-AllBytes small (suc n) (x ∷ c) [] hc ho = hc
  combined-AllBytes small (suc n) (x ∷ c) (y ∷ o) hc ho =
      (small x y hc.0 ho.0, combined-AllBytes small n c o hc.1 ho.1)

pub bit_or-lt : (x y : ℕ) → x < 256 → y < 256 → bit_or x y < 256
bit_or-lt x y p q =
    lt_of_bits 8 _
      (λ j h. bit-bit_or x y j ∙ omega (arith, bits_of_lt 8 x j p h, bits_of_lt 8 y j q h))

pub bit_and-lt : (x y : ℕ) → x < 256 → bit_and x y < 256
bit_and-lt x y p = lt_of_bits 8 _ (λ j h. bit-bit_and x y j ∙ omega (arith, bits_of_lt 8 x j p h))

-- A result of the loop over `a`, resized to `bits`, and the elements of `o`.
abbrev pub result : (ℕ → ℕ → ℕ) → ℕ → ℕ → BitVector → BitVector → BitVector
result op bits n a o = record {
  bits = bits;
  elems = combined op n (resize (byte_count bits) a.elems) o.elems;
}

pub result-IsValid :
    (op : ℕ → ℕ → ℕ) (bits n : ℕ) (a o : BitVector)
    → ((x y : ℕ) → x < 256 → y < 256 → op x y < 256)
    → IsValid a
    → IsValid o
    → IsValid (result op bits n a o)
result-IsValid op bits n a o small va vo = record {
  enough =
      length-combined op n (resize (byte_count bits) a.elems) o.elems ∙ length-resize _ a.elems;
  all_bytes =
      combined-AllBytes op small n (resize (byte_count bits) a.elems) o.elems
        (resize-AllBytes _ a.elems va.all_bytes) vo.all_bytes;
}

pub result_runs :
    (op : ℕ → ℕ → ℕ) (bits n : ℕ) (a o : BitVector)
    → n ≤ byte_count bits
    → n ≤ length o.elems
    → with_elems (copy_bits a bits) (combine op n (copy_bits a bits).elems o.elems)
      ≡ done (some (result op bits n a o))
unfolding copy_bits
result_runs op bits n a o p q =
    rw
      (combine_lem op n (resize (byte_count bits) a.elems) o.elems
        (omega (arith, length-resize (byte_count bits) a.elems)) q)
      refl

pub result-raw_bit :
    (op : ℕ → ℕ → ℕ) (bits n : ℕ) (a o : BitVector) (i : ℕ)
    → n ≤ byte_count bits
    → n ≤ length o.elems
    → i < bits
    → raw_bit (result op bits n a o).elems i
      ≡ bit
          (if ltb (i / 8) n
            then op (get_or a.elems (i / 8) 0) (get_or o.elems (i / 8) 0)
            else get_or a.elems (i / 8) 0)
          (i % 8)
result-raw_bit op bits n a o i p q lt =
    ap (λ e. bit e (i % 8))
      (get_or-combined op n (resize (byte_count bits) a.elems) o.elems (i / 8)
          (omega (arith, length-resize (byte_count bits) a.elems)) q
        ∙ ap (λ x. if ltb (i / 8) n then op x (get_or o.elems (i / 8) 0) else x)
            (get_or-resize (byte_count bits) a.elems (i / 8) (omega arith)))

-- A bit of the result, from the equation of its raw bit and what the operation does to a bit.
pub result-test :
    (op : ℕ → ℕ → ℕ) (bits n : ℕ) (a o : BitVector) (i : ℕ) (want : Bool)
    → n ≤ byte_count bits
    → n ≤ length o.elems
    → (i < bits
        → (bit
              (if ltb (i / 8) n
                then op (get_or a.elems (i / 8) 0) (get_or o.elems (i / 8) 0)
                else get_or a.elems (i / 8) 0)
              (i % 8)
            == 1)
          ≡ want)
    → test (result op bits n a o) i ≡ (ltb i bits && want)
result-test op bits n a o i want p q h = elim (Bool-cases (ltb i bits)) [
  | inl within ↦ rw within (
      ap (λ r. r == 1) (result-raw_bit op bits n a o i p q (ltb→lt _ _ within))
      ∙ h (ltb→lt _ _ within))
  | inr past ↦ rw past refl
]

pub or_bits :
    (t : Bool) (x y j : ℕ)
    → (bit (if t then bit_or x y else x) j == 1) ≡ ((bit x j == 1) || (t && (bit y j == 1)))
or_bits true x y j = rw (bit-bit_or x y j) (ground (arith, bit-le_one x j, bit-le_one y j))
or_bits false x y j = ground arith

pub and_bits :
    (t : Bool) (x y j : ℕ)
    → t ≡ true
    → (bit (if t then bit_and x y else x) j == 1) ≡ ((bit x j == 1) && (bit y j == 1))
and_bits true x y j e = rw (bit-bit_and x y j) (ground (arith, bit-le_one x j, bit-le_one y j))
and_bits false x y j e = cc

pub sub_bits :
    (t : Bool) (x y j : ℕ)
    → y < 256
    → j < 8
    → (bit (if t then and_not x y else x) j == 1) ≡ ((bit x j == 1) && not (t && (bit y j == 1)))
sub_bits true x y j p q =
    rw (bit-bit_and x (255 - y) j)
      (ground (arith, bit-complement 8 y j p q, bit-le_one x j, bit-le_one y j))
sub_bits false x y j p q = ground arith
