-- ===== src/Merkle/Bounds.antt =====
-- The proofs of `ProofsFromByteSlices` under `ValidateBasic`: how many aunts there are, and the sizes.
use native.Mathlib.Nat.{pow-le-pow_right}
use mathlib.Core.Option
use mathlib.Core.Path.{subst}
use melete.Base.{
  ℕ, zero, suc, leb, ◌⊎◌, ◌<◌, ◌-◌, ◌^◌, ◌≤◌, ◌≡◌, refl, ap, ◌∙◌, List, [], ◌∷◌, ◌++◌, map, none,
  some, arith, length, take, drop, get_elem?, length-take, length-drop, length-append, Bool-cases,
  inl, inr, ltb, ltb→lt, ltb-false,
}
use melete.Base.Bytes.{Bytes}
use melete.Base.Int.{pos}
use melete.Merkle.{
  HashFunction, hash_size, empty_hash, leaf_hash, leaf_hash_size, inner_hash, inner_hash_size,
  split_point, IsSplit, split_point-IsSplit, Proof, max_aunts, aunt_sizes, validate_proof,
  ProofNode, Trail, fresh_node, grow, with_left, with_right, flatten_aunts, trail_hash, trails_fuel,
  trails_from_byte_slices, proofs_of_trails, proofs_from_byte_slices,
}
use melete.Merkle.Grow.{
  IsOpen, grow-IsOpen, flatten_aunts-grow_right, flatten_aunts-grow_left, trail_hash-grow_right,
  trail_hash-grow_left,
}

abbrev AreDigests : List Bytes → Type 0
AreDigests [] = Unit {0}
AreDigests (a ∷ aunts) = (length a ≡ hash_size) × AreDigests aunts

AreDigests-snoc :
    (aunts : List Bytes) (s : Bytes)
    → AreDigests aunts
    → length s ≡ hash_size
    → AreDigests (aunts ++ s ∷ [])
AreDigests-snoc [] s d e = (e, tt)
AreDigests-snoc (a ∷ aunts) s d e = (d.0, AreDigests-snoc aunts s d.1 e)

aunt_sizes-none : (aunts : List Bytes) → AreDigests aunts → aunt_sizes aunts ≡ none
unfolding aunt_sizes
aunt_sizes-none [] d = refl
aunt_sizes-none (a ∷ aunts) d = ground (arith, aunt_sizes-none aunts)

-- At most `d` aunts, and digests for them and for the leaf.
record IsShort (d : ℕ) (t : Trail) : Type 0 where
  open_end : IsOpen t
  few : length (flatten_aunts t) ≤ d
  digests : AreDigests (flatten_aunts t)
  leaf_size : length (trail_hash t) ≡ hash_size

abbrev AllShort : ℕ → List Trail → Type 0
AllShort d [] = Unit {0}
AllShort d (t ∷ ts) = IsShort d t × AllShort d ts

AllShort-append :
    (d : ℕ) (ts us : List Trail) → AllShort d ts → AllShort d us → AllShort d (ts ++ us)
AllShort-append d [] us s u = u
AllShort-append d (t ∷ ts) us s u = (s.0, AllShort-append d ts us s.1 u)

-- Trails that grow by a sibling `s`, on either side.
AllShort-grow :
    (side : ProofNode → ProofNode) (d : ℕ) (s b : Bytes) (ts : List Trail)
    → ((t : Trail)
        → IsOpen t
        → flatten_aunts (grow side (fresh_node b) t) ≡ flatten_aunts t ++ s ∷ [])
    → ((t : Trail) → trail_hash (grow side (fresh_node b) t) ≡ trail_hash t)
    → length s ≡ hash_size
    → AllShort d ts
    → AllShort (suc d) (map (grow side (fresh_node b)) ts)
AllShort-grow side d s b [] aunts leaf e a = tt
AllShort-grow side d s b (t ∷ ts) aunts leaf e a =
    let grown = aunts t a.0.open_end in
    (
      record {
        open_end = grow-IsOpen side b t a.0.open_end;
        few = rw grown (omega (arith, a.0.few, length-append (flatten_aunts t) (s ∷ [])));
        digests = rw grown (AreDigests-snoc (flatten_aunts t) s a.0.digests e);
        leaf_size = ap length (leaf t) ∙ a.0.leaf_size;
      },
      AllShort-grow side d s b ts aunts leaf e a.1,
    )

-- Both sides of a split of `2 ^ (d + 1)` leaves at most have `2 ^ d` at most.
split_halves : (n k d : ℕ) → IsSplit n k → n ≤ 2 ^ suc d → (k ≤ 2 ^ d) × (n - k ≤ 2 ^ d)
split_halves n k d s le = (small, omega (arith, small, s.at_least_half))
  where
    small : k ≤ 2 ^ d
    small = elim (Bool-cases (ltb d s.exponent)) [
      | inl lt ↦
          let bigger : 2 ^ suc d ≤ 2 ^ s.exponent =
            pow-le-pow_right (omega arith) (omega (arith, ltb→lt _ _ lt)) in
          absurd (omega (arith, bigger, s.is_power, s.below, le))
      | inr ge ↦
          let smaller : 2 ^ s.exponent ≤ 2 ^ d =
            pow-le-pow_right (omega arith) (ltb-false _ _ ge) in
          omega (arith, smaller, s.is_power)
    ]

module _ (h : HashFunction) where
  single-IsShort : (d : ℕ) (x : Bytes) → IsShort d (fresh_node (leaf_hash h x) ∷ [])
  unfolding flatten_aunts
  single-IsShort d x = record {
    open_end = (refl, refl);
    few = omega arith;
    digests = tt;
    leaf_size = leaf_hash_size h x;
  }

  trails_root_size :
      (f : ℕ) (items : List Bytes) → length items ≤ f → length (trails_fuel h f items).1 ≡ hash_size
  unfolding trails_fuel empty_hash
  trails_root_size f [] p = h.sum_size []
  trails_root_size f (x ∷ []) p = leaf_hash_size h x
  trails_root_size zero (x ∷ y ∷ r) p = absurd (omega arith)
  trails_root_size (suc f) (x ∷ y ∷ r) p = inner_hash_size h _ _

  -- The trails of `2 ^ d` leaves at most have `d` aunts at most.
  trails_fuel-AllShort :
      (d f : ℕ) (items : List Bytes)
      → length items ≤ f
      → length items ≤ 2 ^ d
      → AllShort d (trails_fuel h f items).0
  unfolding trails_fuel
  trails_fuel-AllShort d f [] p le = tt
  trails_fuel-AllShort d f (x ∷ []) p le = (single-IsShort d x, tt)
  trails_fuel-AllShort d zero (x ∷ y ∷ r) p le = absurd (omega arith)
  trails_fuel-AllShort zero (suc f) (x ∷ y ∷ r) p le = absurd (omega arith)
  trails_fuel-AllShort (suc d) (suc f) (x ∷ y ∷ r) p le =
      let items = x ∷ y ∷ r in
      let k = split_point (length items) in
      let s = split_point-IsSplit (length items) (omega arith) in
      let (small_left, small_right) = split_halves (length items) k d s le in
      let taken : length (take k items) ≡ k = omega (arith, length-take k items, s.below) in
      let dropped = length-drop k items in
      let fits_left : length (take k items) ≤ f = omega (arith, taken, s.below) in
      let fits_right : length (drop k items) ≤ f =
        omega (arith, dropped, s.at_least_half, s.below) in
      let lefts = trails_fuel h f (take k items) in
      let rights = trails_fuel h f (drop k items) in
      let root = inner_hash h lefts.1 rights.1 in
      AllShort-append (suc d) (map (grow (with_right rights.1) (fresh_node root)) lefts.0)
        (map (grow (with_left lefts.1) (fresh_node root)) rights.0)
        (AllShort-grow (with_right rights.1) d rights.1 root lefts.0
          (flatten_aunts-grow_right rights.1 root) (trail_hash-grow_right rights.1 root)
          (trails_root_size f (drop k items) fits_right)
          (trails_fuel-AllShort d f (take k items) fits_left (omega (arith, taken, small_left))))
        (AllShort-grow (with_left lefts.1) d lefts.1 root rights.0
          (flatten_aunts-grow_left lefts.1 root) (trail_hash-grow_left lefts.1 root)
          (trails_root_size f (take k items) fits_left)
          (trails_fuel-AllShort d f (drop k items) fits_right
            (omega (arith, dropped, small_right))))

trail_validates :
    (total j d : ℕ) (t : Trail)
    → IsShort d t
    → d ≤ max_aunts
    → validate_proof (record {
      total = pos total;
      index = pos j;
      leaf_hash = trail_hash t;
      aunts = flatten_aunts t;
    })
      ≡ none
unfolding validate_proof
trail_validates total j d t s le =
    ground (arith, s.few, s.leaf_size, aunt_sizes-none (flatten_aunts t) s.digests)

-- The bound on a proof's aunts, and `ValidateBasic` up to `MaxAunts` of them.
unfoldable pub IsBounded : ℕ → Proof → Type 0
IsBounded d sp = (length sp.aunts ≤ d) × ((validate_proof sp ≡ none) ⊎ (max_aunts < d))

proofs_of_trails-IsBounded :
    (total j d i : ℕ) (ts : List Trail) (sp : Proof)
    → AllShort d ts
    → get_elem? (proofs_of_trails total j ts) i ≡ some sp
    → IsBounded d sp
unfolding proofs_of_trails IsBounded
proofs_of_trails-IsBounded total j d i [] sp a e = absurd (cc)
proofs_of_trails-IsBounded total j d zero (t ∷ ts) sp a e =
    subst (IsBounded d) (Option.some-injective _ _ e) (
      a.0.few,
      elim (Bool-cases (leb d max_aunts)) [
        | inl le ↦ inl (trail_validates total j d t a.0 (ground arith))
        | inr gt ↦ inr (ground arith)
      ],
    )
proofs_of_trails-IsBounded total j d (suc i) (t ∷ ts) sp a e =
    proofs_of_trails-IsBounded total (suc j) d i ts sp a.1 e

-- Each proof that `ProofsFromByteSlices` makes for `2 ^ d` leaves at most has `d` aunts at most, and
-- it passes `ValidateBasic` unless `d` is more than `MaxAunts`.
pub proofs_bounds :
    (h : HashFunction) (items : List Bytes) (d i : ℕ) (sp : Proof)
    → length items ≤ 2 ^ d
    → get_elem? (proofs_from_byte_slices h items).1 i ≡ some sp
    → IsBounded d sp
unfolding proofs_from_byte_slices trails_from_byte_slices
proofs_bounds h items d i sp few e =
    proofs_of_trails-IsBounded (length items) 0 d i _ sp
      (trails_fuel-AllShort h d (length items) items (omega arith) few) e
