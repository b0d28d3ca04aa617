-- ===== src/BitVector/Tests.antt =====
-- Runs of the bit vectors, and the theorems at concrete inputs.
use melete.Base.{◌≡◌, refl, true, some, [], ◌∷◌, arith}
use melete.Base.Bits.{test_bit}
use melete.Base.Int.{pos}
use melete.Base.Outcome.{done}
use melete.BitVector.{BitVector, get_index, count_none_zero, to_bytes, from_bytes, or_vectors}
use melete.BitVector.Valid.{IsValid}
use melete.BitVector.Coding.{from_bytes-to_bytes}

-- Ten bits, with 0, 2 and 9 set.
abbrev ten : BitVector
ten = record { bits = 10; elems = 5 ∷ 2 ∷ [] }

abbrev three : BitVector
three = record { bits = 3; elems = 7 ∷ [] }

ten-IsValid : IsValid ten
ten-IsValid = record { enough = refl; all_bytes = omega arith }

three-IsValid : IsValid three
three-IsValid = record { enough = refl; all_bytes = omega arith }

get_runs : get_index (some ten) (pos 9) ≡ done true
unfolding get_index test_bit
get_runs = refl

count_runs : count_none_zero (some ten) ≡ done 3
unfolding count_none_zero test_bit
count_runs = refl

encode_runs : to_bytes (some ten) ≡ 6 ∷ 5 ∷ 2 ∷ []
unfolding to_bytes
encode_runs = refl

-- The right operand's second byte is lost: bit 9 of `ten` is not in the result.
or_loses_bit :
    or_vectors (some three) (some ten) ≡ done (some (record { bits = 10; elems = 7 ∷ 0 ∷ [] }))
unfolding or_vectors
or_loses_bit = refl

from_bytes-to_bytes_example : from_bytes (to_bytes (some ten)) ≡ done (some ten)
from_bytes-to_bytes_example = from_bytes-to_bytes ten ten-IsValid
