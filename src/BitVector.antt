-- ===== src/BitVector.antt =====
-- utils/bit-vector.go: the bit vectors of votes and of commit states. A `*BitVector` that is nil is
-- `none`. `Bits` is never negative, since `NewBitVector` gives nil for a negative size.
pub mod Bytewise
pub mod Valid
pub mod Access
pub mod Combine
pub mod Coding
mod Tests
use Prim.Native.Nat.{bit_and, bit_or}
use melete.Base.{
  ℕ, zero, suc, ◌+◌, ◌-◌, ◌*◌, ◌/◌, ◌%◌, ◌^◌, ◌≡◌, refl, Bool, true, false, Option, none, some,
  List, [], ◌∷◌, map, ltb, leb, ◌==◌, if◌then◌else◌, length, get_elem?, set, replicate, min, max,
}
use melete.Base.Bits.{test_bit}
use melete.Base.Bytes.{Bytes}
use melete.Base.Int.{ℤ, pos, negsuc, sub_ℕ}
use melete.Base.Outcome.{Outcome, done, panic, or_panic, ◌>>=◌}

pub record BitVector : Type 0 where
  pub bits : ℕ
  pub elems : List ℕ

abbrev pub byte_count : ℕ → ℕ
byte_count bits = (bits + 7) / 8

-- `NewBitVector`
unfoldable pub new_bit_vector : ℤ → Option BitVector
new_bit_vector (negsuc n) = none
new_bit_vector (pos n) = some (record { bits = n; elems = replicate (byte_count n) 0 })

-- `Byte`: the first byte is the `int8` of the number of unused bits, 8 * len - Bits, modulo 256.
unfoldable pub to_bytes : Option BitVector → Bytes
to_bytes none = 0 ∷ []
to_bytes (some b) = ((8 * length b.elems + 255 * b.bits) % 256) ∷ b.elems

-- The loop of `NewBitArrayFromByte`: a write out of range panics.
unfoldable pub fill : List ℕ → ℕ → Bytes → Outcome (List ℕ)
fill elems i [] = done elems
fill elems i (b ∷ r) =
    let rest = fill (set elems i b) (suc i) r in if ltb i (length elems) then rest else panic

-- The `int8` of the first byte is subtracted from the number of bits that follow.
abbrev pub bits_left : ℕ → ℕ → ℤ
bits_left unused size =
    if ltb unused 128 then sub_ℕ (size * 8) unused else pos (size * 8 + (256 - unused))

-- A write through a nil vector panics too.
unfoldable pub read_elems : Option BitVector → Bytes → Outcome (Option BitVector)
read_elems none [] = done none
read_elems none (b ∷ r) = panic
read_elems (some v) r = do elems ← fill v.elems 0 r; done (some (record v { elems = elems }))

-- `NewBitArrayFromByte`
unfoldable pub from_bytes : Bytes → Outcome (Option BitVector)
unfolding read_elems new_bit_vector fill
from_bytes [] = done (new_bit_vector (pos 0))
from_bytes (unused ∷ r) = read_elems (new_bit_vector (bits_left unused (length r))) r

-- `Size`
unfoldable pub size : Option BitVector → ℕ
size none = 0
size (some b) = b.bits

-- `GetIndex`. For a negative index Go divides towards zero, so the byte is number 0 down to -7,
-- where the shift by a huge amount leaves nothing, and below that the slice index is negative.
unfoldable pub get_index : Option BitVector → ℤ → Outcome Bool
get_index none i = done false
get_index (some b) (pos i) =
    if leb b.bits i
    then done false
    else (do e ← or_panic (get_elem? b.elems (i / 8)); done (test_bit e (i % 8)))
get_index (some b) (negsuc n) =
    if ltb n 7 then (do e ← or_panic (get_elem? b.elems 0); done false) else panic

-- `elems[i/8] |= 1 << (i%8)` and `elems[i/8] &= ^(1 << (i%8))`
abbrev pub set_bit : ℕ → ℕ → Bool → ℕ
set_bit e j v = if v then bit_or e (2 ^ j) else bit_and e (255 - 2 ^ j)

-- `SetIndex`
unfoldable pub set_index : Option BitVector → ℤ → Bool → Outcome (Option BitVector × Bool)
set_index none i v = done (none, false)
set_index (some b) (pos i) v = if leb b.bits i then done (some b, false) else (do
  e ← or_panic (get_elem? b.elems (i / 8))
  done (some (record b { elems = set b.elems (i / 8) (set_bit e (i % 8) v) }), true))
set_index (some b) (negsuc n) v =
    if ltb n 7 then (do e ← or_panic (get_elem? b.elems 0); done (some b, true)) else panic

-- The loop of `CountNoneZero`, with the rounds that are left and the index.
unfoldable pub count_from : Option BitVector → ℕ → ℕ → ℕ → Outcome ℕ
count_from b zero i count = done count
count_from b (suc rounds) i count = do
  v ← get_index b (pos i)
  count_from b rounds (suc i) (if v then count + 1 else count)

unfoldable pub count_none_zero : Option BitVector → Outcome ℕ
unfolding count_from get_index size
count_none_zero b = count_from b (size b) 0 0

-- `Copy`
unfoldable pub copy : Option BitVector → Option BitVector
copy none = new_bit_vector (pos 0)
copy (some b) = some b

-- A new slice of `n` bytes with as much of the old one as fits.
unfoldable pub resize : ℕ → List ℕ → List ℕ
resize zero xs = []
resize (suc n) [] = 0 ∷ resize n []
resize (suc n) (x ∷ xs) = x ∷ resize n xs

-- `copyBits`
unfoldable pub copy_bits : BitVector → ℕ → BitVector
unfolding resize
copy_bits b bits = record { bits = bits; elems = resize (byte_count bits) b.elems }

-- `for i := 0; i < n; i++ { c[i] = op(c[i], o[i]) }`
unfoldable pub combine : (ℕ → ℕ → ℕ) → ℕ → List ℕ → List ℕ → Outcome (List ℕ)
combine op zero c o = done c
combine op (suc n) [] o = panic
combine op (suc n) (x ∷ c) [] = panic
combine op (suc n) (x ∷ c) (y ∷ o) = do r ← combine op n c o; done (op x y ∷ r)

abbrev pub with_elems : BitVector → Outcome (List ℕ) → Outcome (Option BitVector)
with_elems c r = do elems ← r; done (some (record c { elems = elems }))

-- `Or`
unfoldable pub or_vectors : Option BitVector → Option BitVector → Outcome (Option BitVector)
unfolding copy copy_bits combine
or_vectors none none = done none
or_vectors none (some o) = done (copy (some o))
or_vectors (some a) none = done (copy (some a))
or_vectors (some a) (some o) =
    let c = copy_bits a (max a.bits o.bits) in
    with_elems c (combine bit_or (min (length a.elems) (length o.elems)) c.elems o.elems)

-- `And`
unfoldable pub and_vectors : Option BitVector → Option BitVector → Outcome (Option BitVector)
unfolding copy_bits combine
and_vectors none o = done none
and_vectors (some a) none = done none
and_vectors (some a) (some o) =
    let c = copy_bits a (min a.bits o.bits) in
    with_elems c (combine bit_and (length c.elems) c.elems o.elems)

-- `Not`
unfoldable pub not_vector : Option BitVector → Option BitVector
not_vector none = none
not_vector (some a) = some (record a { elems = map (λ e. 255 - e) a.elems })

abbrev pub and_not : ℕ → ℕ → ℕ
and_not x y = bit_and x (255 - y)

-- `Sub`
unfoldable pub sub_vectors : Option BitVector → Option BitVector → Outcome (Option BitVector)
unfolding copy_bits combine
sub_vectors none o = done none
sub_vectors (some a) none = done none
sub_vectors (some a) (some o) =
    let c = copy_bits a a.bits in
    with_elems c (combine and_not (min (length a.elems) (length o.elems)) c.elems o.elems)
