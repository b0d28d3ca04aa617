-- ===== src/Convert/Laws.antt =====
-- The two directions of the conversion.
use mathlib.Core.Option
use native.Mathlib.Nat.{pow-suc, one-le-pow, mod-eq_of_lt, mod-lt}
use melete.Base.{
  ℕ, zero, suc, ◌+◌, ◌-◌, ◌*◌, ◌/◌, ◌%◌, ◌^◌, ◌<◌, ◌≡◌, refl, ap, ◌∙◌, ◌++◌, some, arith,
  if◌then◌else◌, length,
}
use melete.Base.Bytes.{Bytes}
use melete.Base.Int.{ℤ, pos, negsuc}
use melete.Convert.{
  narrow, to_unsigned, to_signed, put_le, get_le, IntType, byte_size, is_signed, int_to_bytes,
  bytes_to_int,
}

length-put_le : (k n : ℕ) → length (put_le k n) ≡ k
unfolding put_le
length-put_le zero n = refl
length-put_le (suc k) n = ap suc (length-put_le k (n / 256))

pub get_le-put_le : (k n : ℕ) (rest : Bytes) → n < 256 ^ k → get_le k (put_le k n ++ rest) ≡ some n
unfolding put_le get_le
get_le-put_le zero n rest h = ap some (omega arith)
get_le-put_le (suc k) n rest h =
    ap (Option.map (λ m. n % 256 + 256 * m))
      (get_le-put_le k (n / 256) rest (omega (arith, pow-suc 256 k)))
    ∙ ap some (omega arith)

-- The values of a signed type of `w + 1` bits.
abbrev pub InSigned : ℕ → ℤ → Type 0
InSigned w (pos n) = n < 2 ^ w
InSigned w (negsuc n) = n < 2 ^ w

abbrev pub InUnsigned : ℕ → ℤ → Type 0
InUnsigned w (pos n) = n < 2 ^ w
InUnsigned w (negsuc n) = ⊥

-- The values of each type.
abbrev pub InRange : IntType → ℤ → Type 0
InRange t v =
    if is_signed t then InSigned (8 * byte_size t - 1) v else InUnsigned (8 * byte_size t) v

to_unsigned-lt : (w : ℕ) (v : ℤ) → to_unsigned w v < 2 ^ w
unfolding to_unsigned
to_unsigned-lt w (pos n) = mod-lt n (one-le-pow w 2 (omega arith))
to_unsigned-lt w (negsuc n) = omega (arith, one-le-pow w 2 (omega arith))

signed_pos : (w n : ℕ) → n < 2 ^ w → to_signed (suc w) (to_unsigned (suc w) (pos n)) ≡ pos n
unfolding to_signed to_unsigned
signed_pos w n h =
    let double = pow-suc 2 w in
    let small : n % 2 ^ suc w ≡ n = mod-eq_of_lt (omega arith) in rw small (ground arith)

signed_neg : (w n : ℕ) → n < 2 ^ w → to_signed (suc w) (to_unsigned (suc w) (negsuc n)) ≡ negsuc n
unfolding to_signed to_unsigned
signed_neg w n h =
    let double = pow-suc 2 w in
    let small : n % 2 ^ suc w ≡ n = mod-eq_of_lt (omega arith) in rw small (ground arith)

unsigned_pos : (w n : ℕ) → n < 2 ^ w → to_unsigned w (pos n) ≡ n
unfolding to_unsigned
unsigned_pos w n h = mod-eq_of_lt h

signed_back : (w : ℕ) (v : ℤ) → InSigned w v → to_signed (suc w) (to_unsigned (suc w) v) ≡ v
signed_back w (pos n) h = signed_pos w n h
signed_back w (negsuc n) h = signed_neg w n h

read_back :
    (t : IntType) (v : ℤ) (n : ℕ) (rest : Bytes)
    → n < 256 ^ byte_size t
    → (if is_signed t then to_signed (8 * byte_size t) n else pos n) ≡ v
    → bytes_to_int t (put_le (byte_size t) n ++ rest) ≡ some v
unfolding bytes_to_int
read_back t v n rest h e =
    ap (Option.map (λ m. if is_signed t then to_signed (8 * byte_size t) m else pos m))
      (get_le-put_le (byte_size t) n rest h)
    ∙ ap some e

-- Reading back what was written gives the value, for each type and every value of it, whatever
-- bytes follow.
pub bytes_to_int-int_to_bytes :
    (t : IntType) (v : ℤ) (rest : Bytes)
    → InRange t v
    → bytes_to_int t (int_to_bytes t v ++ rest) ≡ some v
unfolding int_to_bytes
bytes_to_int-int_to_bytes IntType.int8 v rest h =
    read_back IntType.int8 v _ rest (to_unsigned-lt 8 v) (signed_back 7 v h)
bytes_to_int-int_to_bytes IntType.int16 v rest h =
    read_back IntType.int16 v _ rest (to_unsigned-lt 16 v) (signed_back 15 v h)
bytes_to_int-int_to_bytes IntType.int32 v rest h =
    read_back IntType.int32 v _ rest (to_unsigned-lt 32 v) (signed_back 31 v h)
bytes_to_int-int_to_bytes IntType.int64 v rest h =
    read_back IntType.int64 v _ rest (to_unsigned-lt 64 v) (signed_back 63 v h)
bytes_to_int-int_to_bytes IntType.uint8 (pos n) rest h =
    read_back IntType.uint8 (pos n) _ rest (to_unsigned-lt 8 (pos n)) (ap pos (unsigned_pos 8 n h))
bytes_to_int-int_to_bytes IntType.uint8 (negsuc n) rest h = absurd h
bytes_to_int-int_to_bytes IntType.uint16 (pos n) rest h =
    read_back IntType.uint16 (pos n) _ rest (to_unsigned-lt 16 (pos n))
      (ap pos (unsigned_pos 16 n h))
bytes_to_int-int_to_bytes IntType.uint16 (negsuc n) rest h = absurd h
bytes_to_int-int_to_bytes IntType.uint32 (pos n) rest h =
    read_back IntType.uint32 (pos n) _ rest (to_unsigned-lt 32 (pos n))
      (ap pos (unsigned_pos 32 n h))
bytes_to_int-int_to_bytes IntType.uint32 (negsuc n) rest h = absurd h
bytes_to_int-int_to_bytes IntType.uint64 (pos n) rest h =
    read_back IntType.uint64 (pos n) _ rest (to_unsigned-lt 64 (pos n))
      (ap pos (unsigned_pos 64 n h))
bytes_to_int-int_to_bytes IntType.uint64 (negsuc n) rest h = absurd h

-- A value that fits is not changed.
pub narrow_fits : (w : ℕ) (v : ℤ) → InSigned w v → narrow (suc w) v ≡ v
unfolding narrow
narrow_fits w v h = signed_back w v h
