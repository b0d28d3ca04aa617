-- ===== src/BitVector/Valid.antt =====
-- The well-formed bit vectors, and the bits that one stands for.
use melete.Base.{
  ℕ, zero, suc, ◌/◌, ◌%◌, ◌<◌, ◌≡◌, refl, ◌∙◌, Bool, false, ◌&&◌, some, List, [], ◌∷◌, arith, ltb,
  ◌==◌, if◌then◌else◌, length, get_elem?, get_or, set, replicate, length-replicate,
}
use melete.Base.Bits.{bit, bit_of_zero}
use melete.Base.Int.{pos}
use melete.BitVector.{BitVector, byte_count, new_bit_vector}

-- Every element fits a byte.
abbrev pub AllBytes : List ℕ → Type 0
AllBytes [] = Unit {0}
AllBytes (x ∷ xs) = (x < 256) × AllBytes xs

-- There are as many bytes as the size needs.
pub record IsValid (b : BitVector) : Type 0 where
  pub enough : length b.elems ≡ byte_count b.bits
  pub all_bytes : AllBytes b.elems

-- The bit that is stored at an index, within the size or past it; past the bytes it is 0.
abbrev pub raw_bit : List ℕ → ℕ → ℕ
raw_bit elems i = bit (get_or elems (i / 8) 0) (i % 8)

-- The bit that the vector has at an index.
abbrev pub test : BitVector → ℕ → Bool
test b i = ltb i b.bits && (raw_bit b.elems i == 1)

pub get_or-lt : (xs : List ℕ) (i : ℕ) → AllBytes xs → get_or xs i 0 < 256
get_or-lt [] i h = omega arith
get_or-lt (x ∷ xs) zero h = h.0
get_or-lt (x ∷ xs) (suc i) h = get_or-lt xs i h.1

pub get_elem?-get_or : (xs : List ℕ) (i : ℕ) → i < length xs → get_elem? xs i ≡ some (get_or xs i 0)
get_elem?-get_or [] i h = elim h [ ]
get_elem?-get_or (x ∷ xs) zero h = refl
get_elem?-get_or (x ∷ xs) (suc i) h = get_elem?-get_or xs i (omega arith)

pub set-AllBytes : (xs : List ℕ) (i v : ℕ) → AllBytes xs → v < 256 → AllBytes (set xs i v)
set-AllBytes [] i v h p = tt
set-AllBytes (x ∷ xs) zero v h p = (p, h.1)
set-AllBytes (x ∷ xs) (suc i) v h p = (h.0, set-AllBytes xs i v h.1 p)

pub get_or-set :
    (xs : List ℕ) (i j v : ℕ)
    → i < length xs
    → get_or (set xs i v) j 0 ≡ (if i == j then v else get_or xs j 0)
get_or-set [] i j v h = elim h [ ]
get_or-set (x ∷ xs) zero zero v h = refl
get_or-set (x ∷ xs) zero (suc j) v h = ground arith
get_or-set (x ∷ xs) (suc i) zero v h = ground arith
get_or-set (x ∷ xs) (suc i) (suc j) v h = get_or-set xs i j v (omega arith) ∙ ground arith

replicate-AllBytes : (n : ℕ) → AllBytes (replicate n 0)
replicate-AllBytes zero = tt
replicate-AllBytes (suc n) = (omega arith, replicate-AllBytes n)

get_or-replicate : (n i : ℕ) → get_or (replicate {A = ℕ} n 0) i 0 ≡ 0
get_or-replicate zero i = refl
get_or-replicate (suc n) zero = refl
get_or-replicate (suc n) (suc i) = get_or-replicate n i

-- `NewBitVector` of a size gives a well-formed vector with no bit set.
pub new_bit_vector_lem :
    (n : ℕ)
    → (b : BitVector) × (new_bit_vector (pos n) ≡ some b)
      × (b.bits ≡ n)
      × IsValid b
      × ((i : ℕ) → test b i ≡ false)
unfolding new_bit_vector
new_bit_vector_lem n = (
  record { bits = n; elems = replicate (byte_count n) 0 },
  refl,
  refl,
  record {
    enough = length-replicate (byte_count n) 0;
    all_bytes = replicate-AllBytes (byte_count n);
  },
  λ i. no_bit i,
)
  where
    no_bit : (i : ℕ) → (ltb i n && (raw_bit (replicate (byte_count n) 0) i == 1)) ≡ false
    no_bit i =
        rw (get_or-replicate (byte_count n) (i / 8)) (rw (bit_of_zero (i % 8)) (ground arith))
