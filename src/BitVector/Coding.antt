-- ===== src/BitVector/Coding.antt =====
-- `Byte`, `NewBitArrayFromByte` and `Not` of the bit vectors.
use mathlib.Core.List.{append-nil, append_assoc}
use melete.Base.{
  ℕ, zero, suc, ◌+◌, ◌-◌, ◌*◌, ◌/◌, ◌%◌, ◌≤◌, ◌<◌, ◌≡◌, ◌⊎◌, refl, ap, ◌∙◌, Bool, true, false, ◌&&◌,
  some, List, [], ◌∷◌, ◌++◌, map, arith, ltb, leb, ◌==◌, if◌then◌else◌, length, get_or, set, drop,
  replicate, length-replicate, length-set, length-append, length-drop, length-map, Bool-cases, inl,
  inr, leb→le, le→ltb_false, lt→ltb,
}
use melete.Base.Bits.{bit, bit-complement, bit-le_one}
use melete.Base.Bytes.{Bytes}
use melete.Base.Int.{pos, negsuc}
use melete.Base.Outcome.{done, panic}
use melete.BitVector.{
  BitVector, byte_count, bits_left, new_bit_vector, to_bytes, from_bytes, read_elems, fill,
  not_vector,
}
use melete.BitVector.Valid.{IsValid, AllBytes, raw_bit, test, get_or-lt}

set-append :
    (pre xs : List ℕ) (x b : ℕ) → set (pre ++ x ∷ xs) (length pre) b ≡ (pre ++ b ∷ []) ++ xs
set-append [] xs x b = refl
set-append (p ∷ pre) xs x b = ap (◌∷◌ p) (set-append pre xs x b)

length-snoc : (pre : List ℕ) (b : ℕ) → length (pre ++ b ∷ []) ≡ suc (length pre)
length-snoc pre b = omega (arith, length-append pre (b ∷ []))

fill-append :
    (pre xs : List ℕ) (i : ℕ) (r : Bytes)
    → i ≡ length pre
    → length r ≤ length xs
    → fill (pre ++ xs) i r ≡ done (pre ++ (r ++ drop (length r) xs))
unfolding fill
fill-append pre xs i [] e p = refl
fill-append pre [] i (b ∷ r) e p = absurd (omega arith)
fill-append pre (x ∷ xs) i (b ∷ r) e p =
    rw (lt→ltb i (length (pre ++ x ∷ xs)) (omega (arith, length-append pre (x ∷ xs)))) (
      ap (λ ys. fill ys (suc i) r) (ap (λ k. set (pre ++ x ∷ xs) k b) e ∙ set-append pre xs x b)
      ∙ fill-append (pre ++ b ∷ []) xs (suc i) r (omega (arith, length-snoc pre b)) (omega arith)
      ∙ ap done (append_assoc pre (b ∷ []) (r ++ drop (length r) xs)))

fill-panics :
    (xs : List ℕ) (i : ℕ) (r : Bytes)
    → length xs < i + length r
    → 0 < length r
    → fill xs i r ≡ panic
unfolding fill
fill-panics xs i [] p q = elim q [ ]
fill-panics xs i (b ∷ []) p q = rw (le→ltb_false i (length xs) (omega arith)) refl
fill-panics xs i (b ∷ c ∷ r) p q = elim (Bool-cases (ltb i (length xs))) [
  | inl within ↦
      rw within
        (fill-panics (set xs i b) (suc i) (c ∷ r) (omega (arith, length-set xs i b)) (omega arith))
  | inr past ↦ rw past refl
]

-- The bytes that are read, followed by the zeros that are left.
abbrev read : ℕ → Bytes → BitVector
read bits r = record { bits = bits; elems = r ++ drop (length r) (replicate (byte_count bits) 0) }

read_elems_done :
    (bits : ℕ) (r : Bytes)
    → length r ≤ byte_count bits
    → read_elems (new_bit_vector (pos bits)) r ≡ done (some (read bits r))
unfolding read_elems new_bit_vector
read_elems_done bits r p =
    rw
      (fill-append [] (replicate (byte_count bits) 0) 0 r refl
        (omega (arith, length-replicate {0} {A = ℕ} (byte_count bits) 0)))
      refl

drop_exact : (xs : List ℕ) (n : ℕ) → length xs ≤ n → drop n xs ≡ []
drop_exact [] zero h = refl
drop_exact [] (suc n) h = refl
drop_exact (x ∷ xs) zero h = absurd (omega arith)
drop_exact (x ∷ xs) (suc n) h = drop_exact xs n (omega arith)

-- Decoding the encoding of a well-formed vector gives the vector back.
pub from_bytes-to_bytes :
    (b : BitVector) → IsValid b → from_bytes (to_bytes (some b)) ≡ done (some b)
unfolding from_bytes to_bytes
from_bytes-to_bytes b v =
    ap (λ z. read_elems (new_bit_vector z) b.elems) all_bits
    ∙ read_elems_done b.bits b.elems (omega (arith, v.enough))
    ∙ ap (λ es. done (some (record b { elems = es })))
        (ap (λ t. b.elems ++ t)
            (drop_exact (replicate (byte_count b.bits) 0) (length b.elems)
              (omega (arith, v.enough, length-replicate {0} {A = ℕ} (byte_count b.bits) 0)))
          ∙ append-nil b.elems)
  where
    all_bits : bits_left ((8 * length b.elems + 255 * b.bits) % 256) (length b.elems) ≡ pos b.bits
    all_bits = ground (arith, v.enough)

-- A first byte from 8 to 127 with any byte after it makes `NewBitArrayFromByte` panic.
pub from_bytes_panics :
    (unused : ℕ) (r : Bytes)
    → 8 ≤ unused
    → unused < 128
    → 0 < length r
    → from_bytes (unused ∷ r) ≡ panic
unfolding from_bytes
from_bytes_panics unused [] p q s = elim s [ ]
from_bytes_panics unused (x ∷ r) p q s =
    rw (lt→ltb unused 128 q) (panics (leb unused (length (x ∷ r) * 8)) refl)
  where
    panics :
        (t : Bool)
        → leb unused (length (x ∷ r) * 8) ≡ t
        → read_elems
            (new_bit_vector (
              if t
              then pos (length (x ∷ r) * 8 - unused)
              else negsuc (unused - length (x ∷ r) * 8 - 1)))
            (x ∷ r)
          ≡ panic
    panics true e =
        rw
          (fill-panics (replicate (byte_count (length (x ∷ r) * 8 - unused)) 0) 0 (x ∷ r)
            (omega (
              arith,
              leb→le _ _ e,
              length-replicate {0} {A = ℕ} (byte_count (length (x ∷ r) * 8 - unused)) 0,
            ))
            (omega arith))
          refl
    panics false e = refl

AllBytes-append : (xs ys : List ℕ) → AllBytes xs → AllBytes ys → AllBytes (xs ++ ys)
AllBytes-append [] ys h k = k
AllBytes-append (x ∷ xs) ys h k = (h.0, AllBytes-append xs ys h.1 k)

zeros_left : (n k : ℕ) → AllBytes (drop k (replicate n 0))
zeros_left zero zero = tt
zeros_left zero (suc k) = tt
zeros_left (suc n) zero = (omega arith, zeros_left n zero)
zeros_left (suc n) (suc k) = zeros_left n k

read-IsValid :
    (bits : ℕ) (r : Bytes) → length r ≤ byte_count bits → AllBytes r → IsValid (read bits r)
read-IsValid bits r p h = record {
  enough = omega (
    arith,
    length-append r (drop (length r) (replicate (byte_count bits) 0)),
    length-drop (length r) (replicate {A = ℕ} (byte_count bits) 0),
    length-replicate {0} {A = ℕ} (byte_count bits) 0,
  );
  all_bytes = AllBytes-append r _ h (zeros_left (byte_count bits) (length r));
}

get_or-append : (xs ys : List ℕ) (k : ℕ) → k < length xs → get_or (xs ++ ys) k 0 ≡ get_or xs k 0
get_or-append [] ys k h = elim h [ ]
get_or-append (x ∷ xs) ys zero h = refl
get_or-append (x ∷ xs) ys (suc k) h = get_or-append xs ys k (omega arith)

-- Any other first byte before at least one byte is decoded to a well-formed vector that has the
-- bits of those bytes. The first byte is signed: it leaves bits out, or adds up to 128 of them.
pub from_bytes_decodes :
    (unused : ℕ) (r : Bytes)
    → (unused < 8) ⊎ (128 ≤ unused)
    → 0 < length r
    → AllBytes r
    → unused < 256
    → (b : BitVector) × (from_bytes (unused ∷ r) ≡ done (some b))
      × IsValid b
      × (b.bits ≡ (if ltb unused 8 then 8 * length r - unused else 8 * length r + (256 - unused)))
      × ((i : ℕ) → i < 8 * length r → raw_bit b.elems i ≡ raw_bit r i)
unfolding from_bytes
from_bytes_decodes unused r cases s h small = (
  read bits r,
  ap (λ z. read_elems (new_bit_vector z) r) all_bits ∙ read_elems_done bits r room,
  read-IsValid bits r room h,
  refl,
  λ i lt. ap (λ e. bit e (i % 8)) (get_or-append r _ (i / 8) (omega arith)),
)
  where
    bits : ℕ
    bits = if ltb unused 8 then 8 * length r - unused else 8 * length r + (256 - unused)

    all_bits : bits_left unused (length r) ≡ pos bits
    all_bits = ground arith

    room : length r ≤ byte_count bits
    room = ground arith

get_or-map :
    (f : ℕ → ℕ) (xs : List ℕ) (k : ℕ) → k < length xs → get_or (map f xs) k 0 ≡ f (get_or xs k 0)
get_or-map f [] k h = elim h [ ]
get_or-map f (x ∷ xs) zero h = refl
get_or-map f (x ∷ xs) (suc k) h = get_or-map f xs k (omega arith)

complement-AllBytes : (xs : List ℕ) → AllBytes (map (λ e. 255 - e) xs)
complement-AllBytes [] = tt
complement-AllBytes (x ∷ xs) = (omega arith, complement-AllBytes xs)

-- `Not` keeps the size and flips every bit below it.
pub not_vector_lem :
    (a : BitVector)
    → IsValid a
    → (c : BitVector) × (not_vector (some a) ≡ some c)
      × IsValid c
      × (c.bits ≡ a.bits)
      × ((i : ℕ) → i < a.bits → test c i ≡ (if test a i then false else true))
unfolding not_vector
not_vector_lem a v = (
  record a { elems = map (λ e. 255 - e) a.elems },
  refl,
  record {
    enough = length-map (λ e. 255 - e) a.elems ∙ v.enough;
    all_bytes = complement-AllBytes a.elems;
  },
  refl,
  λ i lt. flipped i lt (
      ap (λ e. bit e (i % 8)) (get_or-map (λ e. 255 - e) a.elems (i / 8) (omega (arith, v.enough)))
      ∙ bit-complement 8 (get_or a.elems (i / 8) 0) (i % 8) (get_or-lt a.elems (i / 8) v.all_bytes)
          (omega arith)),
)
  where
    flipped :
        (i : ℕ)
        → i < a.bits
        → raw_bit (map (λ e. 255 - e) a.elems) i ≡ 1 - raw_bit a.elems i
        → (ltb i a.bits && (raw_bit (map (λ e. 255 - e) a.elems) i == 1))
          ≡ (if ltb i a.bits && (raw_bit a.elems i == 1) then false else true)
    flipped i lt e =
        rw e (rw (lt→ltb _ _ lt) (ground (arith, bit-le_one (get_or a.elems (i / 8) 0) (i % 8))))
