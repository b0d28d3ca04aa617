-- ===== src/Convert/Tests.antt =====
-- Runs of the conversions, and the round trip at a negative number.
use melete.Base.{◌≡◌, refl, [], ◌∷◌, ◌++◌, some, arith}
use melete.Base.Int.{negsuc}
use melete.Convert.{IntType, int_to_bytes, bytes_to_int}
use melete.Convert.Laws.{bytes_to_int-int_to_bytes}

int_to_bytes_runs : int_to_bytes IntType.int16 (negsuc 1) ≡ (254 ∷ 255 ∷ [])
unfolding int_to_bytes
int_to_bytes_runs = refl

bytes_to_int-int_to_bytes_example :
    bytes_to_int IntType.int32 (int_to_bytes IntType.int32 (negsuc 5) ++ (9 ∷ [])) ≡ some (negsuc 5)
bytes_to_int-int_to_bytes_example =
    bytes_to_int-int_to_bytes IntType.int32 (negsuc 5) (9 ∷ []) (omega arith)
