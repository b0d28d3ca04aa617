-- ===== src/Merkle/Rooted.antt =====
-- `HashFromByteSlicesIterative` of crypto/merkle/tree.go, and the root of hashes that stand for leaves.
use melete.Base.{
  ℕ, zero, suc, ◌≤◌, ◌≡◌, refl, ap, ap₂, ◌∙◌, sym, List, [], ◌∷◌, map, arith, length, take, drop,
  length-take, length-drop, length-map,
}
use melete.Base.Bytes.{Bytes}
use melete.Merkle.{
  split_point, split_point-IsSplit, HashFunction, empty_hash, leaf_hash, inner_hash, hash_fuel,
}

abbrev pub no_hashes : List Bytes
no_hashes = []

module _ (h : HashFunction) where
  -- The inner loop: neighbours are joined, and an odd one is kept.
  unfoldable pub join_pairs : List Bytes → List Bytes
  join_pairs [] = []
  join_pairs (x ∷ []) = x ∷ []
  join_pairs (x ∷ y ∷ r) = inner_hash h x y ∷ join_pairs r

  -- The outer loop, with fuel.
  unfoldable pub join_all : ℕ → List Bytes → Bytes
  unfolding join_pairs
  join_all f [] = empty_hash h
  join_all f (x ∷ []) = x
  join_all zero (x ∷ y ∷ r) = []
  join_all (suc f) (x ∷ y ∷ r) = join_all f (join_pairs (x ∷ y ∷ r))

  -- `HashFromByteSlicesIterative`, with the number of leaves for fuel.
  unfoldable pub hash_from_byte_slices_iterative : List Bytes → Bytes
  unfolding join_all
  hash_from_byte_slices_iterative items = join_all (length items) (map (leaf_hash h) items)

  -- The tree over nodes that are hashed already.
  unfoldable pub root_of : ℕ → List Bytes → Bytes
  root_of f [] = empty_hash h
  root_of f (x ∷ []) = x
  root_of zero (x ∷ y ∷ r) = []
  root_of (suc f) (x ∷ y ∷ r) =
      let k = split_point (length (x ∷ y ∷ r)) in
      inner_hash h (root_of f (take k (x ∷ y ∷ r))) (root_of f (drop k (x ∷ y ∷ r)))

  take-map :
      (k : ℕ) (xs : List Bytes) → take k (map (leaf_hash h) xs) ≡ map (leaf_hash h) (take k xs)
  take-map zero xs = refl
  take-map (suc k) [] = refl
  take-map (suc k) (x ∷ xs) = ap (◌∷◌ (leaf_hash h x)) (take-map k xs)

  drop-map :
      (k : ℕ) (xs : List Bytes) → drop k (map (leaf_hash h) xs) ≡ map (leaf_hash h) (drop k xs)
  drop-map zero xs = refl
  drop-map (suc k) [] = refl
  drop-map (suc k) (x ∷ xs) = drop-map k xs

  pub hash_fuel-root_of :
      (f : ℕ) (items : List Bytes) → hash_fuel h f items ≡ root_of f (map (leaf_hash h) items)
  unfolding hash_fuel root_of
  hash_fuel-root_of f [] = refl
  hash_fuel-root_of f (x ∷ []) = refl
  hash_fuel-root_of zero (x ∷ y ∷ r) = refl
  hash_fuel-root_of (suc f) (x ∷ y ∷ r) =
      let items = x ∷ y ∷ r in
      let hashes = map (leaf_hash h) items in
      let k = split_point (length items) in
      let same : split_point (length items) ≡ split_point (length hashes) =
        ap split_point (sym (length-map (leaf_hash h) items)) in
      ap₂ (inner_hash h)
        (hash_fuel-root_of f (take k items)
          ∙ ap (root_of f) (sym (take-map k items))
          ∙ ap (λ n. root_of f (take n hashes)) same)
        (hash_fuel-root_of f (drop k items)
          ∙ ap (root_of f) (sym (drop-map k items))
          ∙ ap (λ n. root_of f (drop n hashes)) same)

  pub root_of_split :
      (f : ℕ) (xs : List Bytes)
      → 2 ≤ length xs
      → root_of (suc f) xs
        ≡ inner_hash h
            (root_of f (take (split_point (length xs)) xs))
            (root_of f (drop (split_point (length xs)) xs))
  unfolding root_of
  root_of_split f [] p = absurd (omega arith)
  root_of_split f (x ∷ []) p = absurd (omega arith)
  root_of_split f (x ∷ y ∷ r) p = refl

  pub root_of_enough :
      (f g : ℕ) (xs : List Bytes) → length xs ≤ f → length xs ≤ g → root_of f xs ≡ root_of g xs
  unfolding root_of
  root_of_enough f g [] p q = refl
  root_of_enough f g (x ∷ []) p q = refl
  root_of_enough zero g (x ∷ y ∷ r) p q = absurd (omega arith)
  root_of_enough (suc f) zero (x ∷ y ∷ r) p q = absurd (omega arith)
  root_of_enough (suc f) (suc g) (x ∷ y ∷ r) p q =
      let xs = x ∷ y ∷ r in
      let k = split_point (length xs) in
      let s = split_point-IsSplit (length xs) (omega arith) in
      let t = length-take k xs in
      let d = length-drop k xs in
      let below = s.below in
      let half = s.at_least_half in
      ap₂ (inner_hash h) (root_of_enough f g (take k xs) (omega arith) (omega arith))
        (root_of_enough f g (drop k xs) (omega arith) (omega arith))
