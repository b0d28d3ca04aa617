-- ===== src/BitVector/Access.antt =====
-- Reading, writing and counting bits: `GetIndex`, `SetIndex` and `CountNoneZero`.
use melete.Base.{
  ℕ, zero, suc, ◌+◌, ◌-◌, ◌/◌, ◌%◌, ◌^◌, ◌≤◌, ◌<◌, ◌≡◌, refl, ap, ap₂, ◌∙◌, Bool, true, false, ◌&&◌,
  some, arith, ltb, leb, ◌==◌, if◌then◌else◌, get_or, set, length-set, Bool-cases, inl, inr,
  leb-false, leb→le, le→ltb_false, lt→leb_false, lt→ltb, ==_iff,
}
use melete.Base.Bits.{
  bit, test_bit_lem, bit-bit_or, bit-bit_and, bit-pow, bit-complement, bit-le_one, lt_of_bits,
  bits_of_lt,
}
use melete.Base.Int.{pos, negsuc}
use melete.Base.Outcome.{done, panic}
use melete.BitVector.{BitVector, get_index, set_index, set_bit, count_from, count_none_zero, size}
use melete.BitVector.Valid.{
  IsValid, raw_bit, test, get_or-lt, get_elem?-get_or, set-AllBytes, get_or-set,
}

-- `GetIndex` of an index that is not negative reads the bit, and false past the size.
pub get_index_lem :
    (b : BitVector) (i : ℕ) → IsValid b → get_index (some b) (pos i) ≡ done (test b i)
unfolding get_index
get_index_lem b i v = elim (Bool-cases (leb b.bits i)) [
  | inl past ↦ rw (past, le→ltb_false _ _ (leb→le _ _ past)) refl
  | inr within ↦
      let lt = leb-false _ _ within in
      let enough = v.enough in
      rw within (
        rw (get_elem?-get_or b.elems (i / 8) (omega arith))
          (rw (lt→ltb _ _ lt) (ap done (test_bit_lem (get_or b.elems (i / 8) 0) (i % 8)))))
]

-- A negative index down to -7 reads false, when there is a byte; one below panics.
pub get_index_negative :
    (b : BitVector) (n : ℕ)
    → IsValid b
    → 0 < b.bits
    → get_index (some b) (negsuc n) ≡ (if ltb n 7 then done false else panic)
unfolding get_index
get_index_negative b n v p =
    let enough = v.enough in rw (get_elem?-get_or b.elems 0 (omega arith)) refl

pow-lt_byte : (k : ℕ) → k < 8 → 2 ^ k < 256
pow-lt_byte k h = lt_of_bits 8 (2 ^ k) (λ j p. bit-pow k j ∙ ground arith)

-- Writing a bit of a byte changes that bit alone.
pub set_bit-bit :
    (e j : ℕ) (v : Bool) (i : ℕ)
    → j < 8
    → i < 8
    → bit (set_bit e j v) i ≡ (if j == i then (if v then 1 else 0) else bit e i)
set_bit-bit e j true i q r = bit-bit_or e (2 ^ j) i ∙ ground (arith, bit-pow j i, bit-le_one e i)
set_bit-bit e j false i q r =
    bit-bit_and e (255 - 2 ^ j) i
    ∙ ground (arith, bit-complement 8 (2 ^ j) i (pow-lt_byte j q) r, bit-pow j i, bit-le_one e i)

set_bit-lt : (e j : ℕ) (v : Bool) → e < 256 → j < 8 → set_bit e j v < 256
set_bit-lt e j true p q = lt_of_bits 8 _ (λ i h.
    bit-bit_or e (2 ^ j) i
    ∙ omega (arith, bits_of_lt 8 e i p h, bits_of_lt 8 (2 ^ j) i (pow-lt_byte j q) h))
set_bit-lt e j false p q =
    lt_of_bits 8 _ (λ i h. bit-bit_and e (255 - 2 ^ j) i ∙ omega (arith, bits_of_lt 8 e i p h))

-- The vector after a write within the size.
abbrev pub written : BitVector → ℕ → Bool → BitVector
written b i v = record b {
  elems = set b.elems (i / 8) (set_bit (get_or b.elems (i / 8) 0) (i % 8) v);
}

pub written-IsValid : (b : BitVector) (i : ℕ) (v : Bool) → IsValid b → IsValid (written b i v)
written-IsValid b i v h = record {
  enough = length-set b.elems (i / 8) _ ∙ h.enough;
  all_bytes =
      set-AllBytes b.elems (i / 8) _ h.all_bytes
        (set_bit-lt _ (i % 8) v (get_or-lt b.elems (i / 8) h.all_bytes) (omega arith));
}

written-raw_bit :
    (b : BitVector) (i : ℕ) (v : Bool) (j : ℕ)
    → IsValid b
    → i < b.bits
    → raw_bit (written b i v).elems j ≡ (if i == j then (if v then 1 else 0) else raw_bit b.elems j)
written-raw_bit b i v j h p =
    ap (λ e. bit e (j % 8)) (get_or-set b.elems (i / 8) (j / 8) _ (omega (arith, h.enough)))
    ∙ elim (Bool-cases (i / 8 == j / 8)) [
      | inl same ↦ rw same (
          set_bit-bit (get_or b.elems (i / 8) 0) (i % 8) v (j % 8) (omega arith) (omega arith)
          ∙ ap₂ (λ t e. if t then (if v then 1 else 0) else bit e (j % 8)) (same_bit same)
              (ap (λ k. get_or b.elems k 0) ((==_iff _ _).0 same)))
      | inr other ↦
          rw other
            (ap (λ t. if t then (if v then 1 else 0) else raw_bit b.elems j) (other_byte other))
    ]
  where
    same_bit : (i / 8 == j / 8) ≡ true → (i % 8 == j % 8) ≡ (i == j)
    same_bit e = ground arith

    other_byte : (i / 8 == j / 8) ≡ false → false ≡ (i == j)
    other_byte e = ground arith

bits_agree :
    (v : Bool) (i j n w r : ℕ)
    → i < n
    → w ≡ (if i == j then (if v then 1 else 0) else r)
    → (ltb j n && (w == 1)) ≡ (if i == j then v else (ltb j n && (r == 1)))
bits_agree true i j n w r p e = rw e (ground arith)
bits_agree false i j n w r p e = rw e (ground arith)

-- `SetIndex` within the size succeeds, keeps the vector well formed and its size, and changes the
-- bit at the index alone.
pub set_index_lem :
    (b : BitVector) (i : ℕ) (v : Bool)
    → IsValid b
    → i < b.bits
    → (c : BitVector) × (set_index (some b) (pos i) v ≡ done (some c, true))
      × IsValid c
      × (c.bits ≡ b.bits)
      × ((j : ℕ) → test c j ≡ (if i == j then v else test b j))
unfolding set_index
set_index_lem b i v h p = (
  written b i v,
  rw (lt→leb_false _ _ p) (rw (get_elem?-get_or b.elems (i / 8) (omega (arith, h.enough))) refl),
  written-IsValid b i v h,
  refl,
  λ j. bits_agree v i j b.bits _ _ p (written-raw_bit b i v j h p),
)

-- Past the size `SetIndex` changes nothing and says so.
pub set_index_past :
    (b : BitVector) (i : ℕ) (v : Bool)
    → b.bits ≤ i
    → set_index (some b) (pos i) v ≡ done (some b, false)
unfolding set_index
set_index_past b i v h = ground arith

-- The number of bits that are set from index `i` on, over `n` indices.
abbrev pub set_bits : BitVector → ℕ → ℕ → ℕ
set_bits b zero i = 0
set_bits b (suc n) i = (if test b i then 1 else 0) + set_bits b n (suc i)

count_from_lem :
    (b : BitVector) (n i count : ℕ)
    → IsValid b
    → count_from (some b) n i count ≡ done (count + set_bits b n i)
unfolding count_from
count_from_lem b zero i count h = ap done (omega arith)
count_from_lem b (suc n) i count h =
    rw (get_index_lem b i h) (
      count_from_lem b n (suc i) (if test b i then count + 1 else count) h ∙ ap done (ground arith))

-- `CountNoneZero` counts the bits that are set below the size, each once.
pub count_none_zero_lem :
    (b : BitVector) → IsValid b → count_none_zero (some b) ≡ done (set_bits b b.bits 0)
unfolding count_none_zero size
count_none_zero_lem b h = count_from_lem b b.bits 0 0 h ∙ ap done (omega arith)
