-- ===== src/Merkle/Iterative.antt =====
-- `HashFromByteSlicesIterative` of crypto/merkle/tree.go against the recursive function.
use native.Mathlib.Nat.{one-le-pow}
use mathlib.Core.Path.{subst}
use melete.Base.{
  ℕ, zero, suc, ◌+◌, ◌*◌, ◌/◌, ◌^◌, ◌≤◌, ◌<◌, ◌≡◌, refl, ap, ap₂, ◌∙◌, sym, List, [], ◌∷◌, map,
  arith, length, take, drop, length-take, length-drop, length-map,
}
use melete.Base.Bytes.{Bytes}
use melete.Merkle.{
  split_point, split_point-IsSplit, IsSplit, IsSplit-unique, two-pow-suc, HashFunction, leaf_hash,
  inner_hash, hash_from_byte_slices,
}
use melete.Merkle.Rooted.{
  no_hashes, join_pairs, join_all, hash_from_byte_slices_iterative, root_of, hash_fuel-root_of,
  root_of_split, root_of_enough,
}

module _ (h : HashFunction) where
  length-join_pairs : (xs : List Bytes) → length (join_pairs h xs) ≡ (length xs + 1) / 2
  unfolding join_pairs
  length-join_pairs [] = refl
  length-join_pairs (x ∷ []) = refl
  length-join_pairs (x ∷ y ∷ r) = let ih = length-join_pairs r in omega arith

  -- Joining pairs commutes with cutting at an even place.
  join_pairs-take :
      (m : ℕ) (xs : List Bytes) → join_pairs h (take (2 * m) xs) ≡ take m (join_pairs h xs)
  unfolding join_pairs
  join_pairs-take zero xs = refl
  join_pairs-take (suc m) xs =
      ap (λ n. join_pairs h (take n xs)) even ∙ cut (λ r. join_pairs-take m r) xs
    where
      even : 2 * suc m ≡ suc (suc (2 * m))
      even = omega arith

      cut :
          ((r : List Bytes) → join_pairs h (take (2 * m) r) ≡ take m (join_pairs h r))
          → (ys : List Bytes)
          → join_pairs h (take (suc (suc (2 * m))) ys) ≡ take (suc m) (join_pairs h ys)
      cut rec [] = refl
      cut rec (x ∷ []) = ap (◌∷◌ x) (sym (take_nil m))
        where
          take_nil : (n : ℕ) → take n no_hashes ≡ []
          take_nil zero = refl
          take_nil (suc n) = refl
      cut rec (x ∷ y ∷ r) = ap (◌∷◌ (inner_hash h x y)) (rec r)

  join_pairs-drop :
      (m : ℕ) (xs : List Bytes) → join_pairs h (drop (2 * m) xs) ≡ drop m (join_pairs h xs)
  unfolding join_pairs
  join_pairs-drop zero xs = refl
  join_pairs-drop (suc m) xs =
      ap (λ n. join_pairs h (drop n xs)) even ∙ cut (λ r. join_pairs-drop m r) xs
    where
      even : 2 * suc m ≡ suc (suc (2 * m))
      even = omega arith

      drop_nil : (n : ℕ) → drop n no_hashes ≡ []
      drop_nil zero = refl
      drop_nil (suc n) = refl

      cut :
          ((r : List Bytes) → join_pairs h (drop (2 * m) r) ≡ drop m (join_pairs h r))
          → (ys : List Bytes)
          → join_pairs h (drop (suc (suc (2 * m))) ys) ≡ drop (suc m) (join_pairs h ys)
      cut rec [] = refl
      cut rec (x ∷ []) = sym (drop_nil m)
      cut rec (x ∷ y ∷ r) = rec r

  join_pairs-split_point :
      (n m j : ℕ) → IsSplit n (2 * m) → m ≡ 2 ^ j → split_point ((n + 1) / 2) ≡ m
  join_pairs-split_point n m j s e =
      let below = s.below in
      let half = s.at_least_half in
      IsSplit-unique ((n + 1) / 2) (split_point ((n + 1) / 2)) m
        (split_point-IsSplit ((n + 1) / 2) (omega (arith, positive)))
        (record { exponent = j; is_power = e; below = omega arith; at_least_half = omega arith })
    where
      positive : 0 < m
      positive = omega (arith, e, one-le-pow j 2 (omega arith))

  -- One round of the loop keeps the root.
  root_of-join_pairs :
      (f : ℕ) (xs : List Bytes) → length xs ≤ f → root_of h f (join_pairs h xs) ≡ root_of h f xs
  unfolding join_pairs root_of
  root_of-join_pairs f [] p = refl
  root_of-join_pairs f (x ∷ []) p = refl
  root_of-join_pairs zero (x ∷ y ∷ r) p = absurd (omega arith)
  root_of-join_pairs (suc f) (x ∷ y ∷ r) p =
      by_exponent (λ ys q. root_of-join_pairs f ys q) s.exponent s.is_power
    where
      xs : List Bytes
      xs = x ∷ y ∷ r

      k : ℕ
      k = split_point (length xs)

      s : IsSplit (length xs) k
      s = split_point-IsSplit (length xs) (omega arith)

      halves :
          ((ys : List Bytes) → length ys ≤ f → root_of h f (join_pairs h ys) ≡ root_of h f ys)
          → (m j : ℕ) → k ≡ 2 * m
          → m ≡ 2 ^ j
          → root_of h (suc f) (join_pairs h xs) ≡ root_of h (suc f) xs
      halves rec m j e g =
          let t = length-take k xs in
          let d = length-drop k xs in
          let below = s.below in
          let len = length-join_pairs xs in
          let positive : 0 < m = omega (arith, g, one-le-pow j 2 (omega arith)) in
          let at : split_point (length (join_pairs h xs)) ≡ m =
            ap split_point len
            ∙ join_pairs-split_point (length xs) m j (subst (IsSplit (length xs)) e s) g in
          root_of_split h f (join_pairs h xs) (omega arith)
          ∙ ap
              (λ n.
                inner_hash h (root_of h f (take n (join_pairs h xs)))
                  (root_of h f (drop n (join_pairs h xs))))
              at
          ∙ ap₂ (inner_hash h)
              (ap (root_of h f)
                  (sym (join_pairs-take m xs) ∙ ap (λ n. join_pairs h (take n xs)) (sym e))
                ∙ rec (take k xs) (omega arith))
              (ap (root_of h f)
                  (sym (join_pairs-drop m xs) ∙ ap (λ n. join_pairs h (drop n xs)) (sym e))
                ∙ rec (drop k xs) (omega arith))

      pair :
          k ≡ 1
          → (ys : List Bytes) → r ≡ ys
          → length ys ≡ 0
          → root_of h (suc f) (join_pairs h xs) ≡ root_of h (suc f) xs
      pair e [] g len =
          ap (λ ys. root_of h (suc f) (inner_hash h x y ∷ join_pairs h ys)) g
          ∙ sym (
              root_of_split h f xs (omega arith)
              ∙ ap (λ n. inner_hash h (root_of h f (take n xs)) (root_of h f (drop n xs))) e
              ∙ ap (λ ys. inner_hash h x (root_of h f (y ∷ ys))) g)
      pair e (z ∷ ys) g len = absurd (omega arith)

      by_exponent :
          ((ys : List Bytes) → length ys ≤ f → root_of h f (join_pairs h ys) ≡ root_of h f ys)
          → (e : ℕ) → k ≡ 2 ^ e
          → root_of h (suc f) (join_pairs h xs) ≡ root_of h (suc f) xs
      by_exponent rec zero g = let half = s.at_least_half in pair g r refl (omega arith)
      by_exponent rec (suc j) g = halves rec (2 ^ j) j (g ∙ two-pow-suc j) refl

  join_all-root_of : (f : ℕ) (xs : List Bytes) → length xs ≤ f → join_all h f xs ≡ root_of h f xs
  unfolding join_all root_of join_pairs
  join_all-root_of f [] p = refl
  join_all-root_of f (x ∷ []) p = refl
  join_all-root_of zero (x ∷ y ∷ r) p = absurd (omega arith)
  join_all-root_of (suc f) (x ∷ y ∷ r) p =
      let xs = x ∷ y ∷ r in
      let len = length-join_pairs xs in
      join_all-root_of f (join_pairs h xs) (omega arith)
      ∙ root_of_enough h f (suc f) (join_pairs h xs) (omega arith) (omega arith)
      ∙ root_of-join_pairs (suc f) xs p

  -- `HashFromByteSlicesIterative` computes the hash of `HashFromByteSlices`, on every list of leaves.
  pub hash_from_byte_slices_iterative-hash_from_byte_slices :
      (items : List Bytes) → hash_from_byte_slices_iterative h items ≡ hash_from_byte_slices h items
  unfolding hash_from_byte_slices_iterative hash_from_byte_slices
  hash_from_byte_slices_iterative-hash_from_byte_slices items =
      join_all-root_of (length items) (map (leaf_hash h) items)
        (omega (arith, length-map (leaf_hash h) items))
      ∙ sym (hash_fuel-root_of h (length items) items)
