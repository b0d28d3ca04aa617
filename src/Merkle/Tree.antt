-- ===== src/Merkle/Tree.antt =====
-- `HashFromByteSlices` of crypto/merkle/tree.go.
use melete.Base.{
  ℕ, zero, suc, ◌≤◌, ◌≡◌, refl, ap₂, List, [], ◌∷◌, arith, length, take, drop, length-take,
  length-drop,
}
use melete.Base.Bytes.{Bytes}
use melete.Merkle.Split.{split_point, split_point-IsSplit}
use melete.Merkle.Hash.{HashFunction, empty_hash, leaf_hash, inner_hash}

module _ (h : HashFunction) where
  -- The recursion of `HashFromByteSlices`, with the number of leaves as its fuel.
  unfoldable pub hash_fuel : ℕ → List Bytes → Bytes
  hash_fuel f [] = empty_hash h
  hash_fuel f (x ∷ []) = leaf_hash h x
  hash_fuel zero (x ∷ y ∷ r) = []
  hash_fuel (suc f) (x ∷ y ∷ r) =
      let k = split_point (length (x ∷ y ∷ r)) in
      inner_hash h (hash_fuel f (take k (x ∷ y ∷ r))) (hash_fuel f (drop k (x ∷ y ∷ r)))

  unfoldable pub hash_from_byte_slices : List Bytes → Bytes
  unfolding hash_fuel
  hash_from_byte_slices items = hash_fuel (length items) items

  pub hash_fuel_enough :
      (f g : ℕ) (items : List Bytes)
      → length items ≤ f
      → length items ≤ g
      → hash_fuel f items ≡ hash_fuel g items
  unfolding hash_fuel
  hash_fuel_enough f g [] p q = refl
  hash_fuel_enough f g (x ∷ []) p q = refl
  hash_fuel_enough zero g (x ∷ y ∷ r) p q = absurd (omega arith)
  hash_fuel_enough (suc f) zero (x ∷ y ∷ r) p q = absurd (omega arith)
  hash_fuel_enough (suc f) (suc g) (x ∷ y ∷ r) p q =
      let items = x ∷ y ∷ r in
      let k = split_point (length items) in
      let s = split_point-IsSplit (length items) (omega arith) in
      let t = length-take k items in
      let d = length-drop k items in
      let below = s.below in
      let half = s.at_least_half in
      ap₂ (inner_hash h) (hash_fuel_enough f g (take k items) (omega arith) (omega arith))
        (hash_fuel_enough f g (drop k items) (omega arith) (omega arith))

  -- From two leaves on, the root is the inner hash of the two halves' roots.
  pub hash_from_byte_slices_split :
      (items : List Bytes)
      → 2 ≤ length items
      → let k = split_point (length items) in
        hash_from_byte_slices items
        ≡ inner_hash h (hash_from_byte_slices (take k items)) (hash_from_byte_slices (drop k items))
  unfolding hash_from_byte_slices hash_fuel
  hash_from_byte_slices_split [] p = absurd (omega arith)
  hash_from_byte_slices_split (x ∷ []) p = absurd (omega arith)
  hash_from_byte_slices_split (x ∷ y ∷ r) p =
      let items = x ∷ y ∷ r in
      let k = split_point (length items) in
      let s = split_point-IsSplit (length items) p in
      let t = length-take k items in
      let d = length-drop k items in
      let below = s.below in
      let half = s.at_least_half in
      ap₂ (inner_hash h)
        (hash_fuel_enough (suc (length r)) (length (take k items)) (take k items) (omega arith)
          (omega arith))
        (hash_fuel_enough (suc (length r)) (length (drop k items)) (drop k items) (omega arith)
          (omega arith))
