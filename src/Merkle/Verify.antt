-- ===== src/Merkle/Verify.antt =====
-- Inclusion proofs and their verification: crypto/merkle/proof.go.
use mathlib.Core.Option
use melete.Base.{
  ℕ, ◌-◌, List, [], ◌∷◌, reverse, Option, none, some, not, ltb, leb, ◌==◌, if◌then◌else◌, length,
}
use melete.Base.Int.{ℤ, pos, negsuc, ltb_ℤ}
use melete.Base.Bytes.{Bytes, bytes_equal}
use melete.Merkle.Split.{split_point}
use melete.Merkle.Hash.{HashFunction, leaf_hash, inner_hash, hash_size}

-- `total` and `index` are Go's `int64`; nothing is computed of them that could overflow.
pub record Proof : Type 0 where
  pub total : ℤ
  pub index : ℤ
  pub leaf_hash : Bytes
  pub aunts : List Bytes

pub data ProofError : Type 0 where
  negative_total negative_index invalid_leaf_hash invalid_root_hash : ProofError
  bad_leaf_size too_many_aunts bad_aunt_size : ProofError

-- The slice of no bytes is nil, which `computeHashFromAunts` takes for a failure.
abbrev pub non_nil : Bytes → Option Bytes
non_nil [] = none
non_nil (x ∷ xs) = some (x ∷ xs)

module _ (h : HashFunction) where
  -- `computeHashFromAunts` for numbers that are not negative. The source takes the aunts from the
  -- end of the slice; here they come in that order, the root's child first. `none` is nil, and an
  -- empty leaf hash counts as nil: `Verify` lets only digests come here.
  unfoldable pub compute_from_last : ℕ → ℕ → Bytes → List Bytes → Option Bytes
  compute_from_last index total leaf [] =
      if leb total index then none else if total == 1 then non_nil leaf else none
  compute_from_last index total leaf (aunt ∷ aunts) =
      let num_left = split_point total in
      let left =
        Option.map (λ l. inner_hash h l aunt) (compute_from_last index num_left leaf aunts) in
      let right =
        Option.map (inner_hash h aunt)
          (compute_from_last (index - num_left) (total - num_left) leaf aunts) in
      if leb total index
      then none
      else if total == 1
      then none
      else if ltb index num_left
      then left
      else right

  -- `computeHashFromAunts`: a negative index or total gives nil at once.
  unfoldable pub compute_hash_from_aunts : ℤ → ℤ → Bytes → List Bytes → Option Bytes
  compute_hash_from_aunts (negsuc i) total leaf aunts = none
  compute_hash_from_aunts (pos i) (negsuc t) leaf aunts = none
  compute_hash_from_aunts (pos i) (pos t) leaf aunts = compute_from_last i t leaf (reverse aunts)

  unfoldable pub compute_root_hash : Proof → Option Bytes
  compute_root_hash sp = compute_hash_from_aunts sp.index sp.total sp.leaf_hash sp.aunts

  -- `Verify`: `none` is success. A nil root hash that was computed equals an empty one.
  unfoldable pub verify : Proof → Bytes → Bytes → Option ProofError
  unfolding compute_root_hash compute_hash_from_aunts compute_from_last
  verify sp root_hash leaf =
      if ltb_ℤ sp.total (pos 0)
      then some negative_total
      else if ltb_ℤ sp.index (pos 0)
      then some negative_index
      else if not (bytes_equal sp.leaf_hash (leaf_hash h leaf))
      then some invalid_leaf_hash
      else if not (bytes_equal (Option.get_or (compute_root_hash sp) []) root_hash)
      then some invalid_root_hash
      else none

-- The bound of `MaxAunts`.
abbrev pub max_aunts : ℕ
max_aunts = 100

-- The loop of `ValidateBasic` over the aunts.
unfoldable pub aunt_sizes : List Bytes → Option ProofError
aunt_sizes [] = none
aunt_sizes (a ∷ rest_aunts) =
    let rest = aunt_sizes rest_aunts in
    if not (length a == hash_size) then some bad_aunt_size else rest

-- `ValidateBasic` of a proof.
unfoldable pub validate_proof : Proof → Option ProofError
unfolding aunt_sizes
validate_proof sp =
    if ltb_ℤ sp.total (pos 0)
    then some negative_total
    else if ltb_ℤ sp.index (pos 0)
    then some negative_index
    else if not (length sp.leaf_hash == hash_size)
    then some bad_leaf_size
    else if ltb max_aunts (length sp.aunts)
    then some too_many_aunts
    else aunt_sizes sp.aunts
