-- ===== src/Convert.antt =====
-- utils/convert.go: fixed-width integers to little-endian bytes and back.
pub mod Laws
mod Tests
use melete.Base.{
  ℕ, zero, suc, ◌+◌, ◌-◌, ◌*◌, ◌/◌, ◌%◌, ◌^◌, List, [], ◌∷◌, ltb, if◌then◌else◌, Bool, true, false,
  Option, none, some, map,
}
use mathlib.Core.Option
use melete.Base.Bytes.{Bytes}
use melete.Base.Int.{ℤ, pos, negsuc}

-- The conversion to an unsigned integer of `w` bits, which keeps the low bits.
unfoldable pub to_unsigned : ℕ → ℤ → ℕ
to_unsigned w (pos n) = n % 2 ^ w
to_unsigned w (negsuc n) = 2 ^ w - 1 - n % 2 ^ w

-- The conversion of `w` bits to a signed integer.
unfoldable pub to_signed : ℕ → ℕ → ℤ
to_signed w n = if ltb (2 * n) (2 ^ w) then pos n else negsuc (2 ^ w - 1 - n)

-- `binary.LittleEndian`: the low byte first.
unfoldable pub put_le : ℕ → ℕ → Bytes
put_le zero n = []
put_le (suc k) n = n % 256 ∷ put_le k (n / 256)

-- Reading `k` bytes; a shorter slice panics.
unfoldable pub get_le : ℕ → Bytes → Option ℕ
get_le zero bs = some 0
get_le (suc k) [] = none
get_le (suc k) (b ∷ bs) = Option.map (λ n. b + 256 * n) (get_le k bs)

-- The types that `IntToBytes` and `BytesToInt` tell apart; any other is not supported.
pub data IntType : Type 0 where
  int8 uint8 int16 uint16 int32 uint32 int64 uint64 : IntType

abbrev pub byte_size : IntType → ℕ
byte_size IntType.int8 = 1
byte_size IntType.uint8 = 1
byte_size IntType.int16 = 2
byte_size IntType.uint16 = 2
byte_size IntType.int32 = 4
byte_size IntType.uint32 = 4
byte_size IntType.int64 = 8
byte_size IntType.uint64 = 8

abbrev pub is_signed : IntType → Bool
is_signed IntType.int8 = true
is_signed IntType.int16 = true
is_signed IntType.int32 = true
is_signed IntType.int64 = true
is_signed _ = false

-- `IntToBytes` of a value of the type.
unfoldable pub int_to_bytes : IntType → ℤ → Bytes
unfolding to_unsigned put_le
int_to_bytes t v = put_le (byte_size t) (to_unsigned (8 * byte_size t) v)

-- `BytesToInt` at the type of its second argument.
unfoldable pub bytes_to_int : IntType → Bytes → Option ℤ
unfolding to_signed get_le
bytes_to_int t bs =
    Option.map (λ n. if is_signed t then to_signed (8 * byte_size t) n else pos n)
      (get_le (byte_size t) bs)

-- `Uint32ToBytes` and `BytesToUint32`
unfoldable pub uint32_to_bytes : ℕ → Bytes
unfolding put_le
uint32_to_bytes n = put_le 4 n

unfoldable pub bytes_to_uint32 : Bytes → Option ℕ
unfolding get_le
bytes_to_uint32 bs = get_le 4 bs

-- A conversion between signed integers, to `w` bits.
unfoldable pub narrow : ℕ → ℤ → ℤ
unfolding to_signed to_unsigned
narrow w v = to_signed w (to_unsigned w v)
