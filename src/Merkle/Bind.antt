-- ===== src/Merkle/Bind.antt =====
-- Two lists of leaves under one root of `HashFromByteSlices`.
use melete.Base.{
  ℕ, zero, suc, ◌≤◌, ◌≡◌, ◌⊎◌, refl, ap, ap₂, ◌∙◌, sym, List, [], ◌∷◌, ◌++◌, arith, length, take,
  drop, length-take, length-drop, take-append-drop, inl, inr,
}
use melete.Base.Bytes.{Bytes, append_injective}
use melete.Merkle.{
  HashFunction, Collision, empty_hash, leaf_hash, inner_hash, leaf_hash_cases, inner_hash_cases,
  hash_from_byte_slices, hash_fuel, split_point, IsSplit, split_point-IsSplit, sum_cases,
}
use melete.Merkle.Shown.{hash_fuel_size}

module _ (h : HashFunction) where
  -- The three shapes of a node never share a digest without a collision.
  empty_or_leaf : (x : Bytes) → empty_hash h ≡ leaf_hash h x → Collision h
  unfolding empty_hash leaf_hash
  empty_or_leaf x e = elim (sum_cases h [] (0 ∷ x) e) [ inl p ↦ absurd (cc) | inr c ↦ c ]

  empty_or_inner : (a b : Bytes) → empty_hash h ≡ inner_hash h a b → Collision h
  unfolding empty_hash inner_hash
  empty_or_inner a b e = elim (sum_cases h [] (1 ∷ a ++ b) e) [ inl p ↦ absurd (cc) | inr c ↦ c ]

  leaf_or_inner : (x a b : Bytes) → leaf_hash h x ≡ inner_hash h a b → Collision h
  unfolding leaf_hash inner_hash
  leaf_or_inner x a b e = elim (sum_cases h (0 ∷ x) (1 ∷ a ++ b) e) [
    | inl p ↦ absurd (omega (arith, ap head_or p))
    | inr c ↦ c
  ]
    where
      head_or : Bytes → ℕ
      head_or [] = 0
      head_or (y ∷ ys) = y

  -- The two halves of a node with at least two leaves.
  halves :
      (a b c d : Bytes)
      → length a ≡ length c
      → inner_hash h a b ≡ inner_hash h c d
      → ((a ≡ c) × (b ≡ d)) ⊎ Collision h
  halves a b c d s e = elim (inner_hash_cases h a b c d e) [
    | inl same ↦ inl (append_injective a b c d s same)
    | inr k ↦ inr k
  ]

  rejoin :
      (xs ys : List Bytes) (k l : ℕ)
      → (take k xs ≡ take l ys) ⊎ Collision h
      → (drop k xs ≡ drop l ys) ⊎ Collision h
      → (xs ≡ ys) ⊎ Collision h
  rejoin xs ys k l (inl p) (inl q) =
      inl (sym (take-append-drop k xs) ∙ ap₂ ◌++◌ p q ∙ take-append-drop l ys)
  rejoin xs ys k l (inr c) q = inr c
  rejoin xs ys k l (inl p) (inr c) = inr c

  hash_fuel_binds :
      (f g : ℕ) (xs ys : List Bytes)
      → length xs ≤ f
      → length ys ≤ g
      → hash_fuel h f xs ≡ hash_fuel h g ys
      → (xs ≡ ys) ⊎ Collision h
  unfolding hash_fuel
  hash_fuel_binds f g [] [] p q e = inl refl
  hash_fuel_binds f g [] (y ∷ []) p q e = inr (empty_or_leaf y e)
  hash_fuel_binds f zero [] (y ∷ y' ∷ ys) p q e = absurd (omega arith)
  hash_fuel_binds f (suc g) [] (y ∷ y' ∷ ys) p q e = inr (empty_or_inner _ _ e)
  hash_fuel_binds f g (x ∷ []) [] p q e = inr (empty_or_leaf x (sym e))
  hash_fuel_binds f g (x ∷ []) (y ∷ []) p q e = elim (leaf_hash_cases h x y e) [
    | inl same ↦ inl (ap (λ z. z ∷ []) same)
    | inr c ↦ inr c
  ]
  hash_fuel_binds f zero (x ∷ []) (y ∷ y' ∷ ys) p q e = absurd (omega arith)
  hash_fuel_binds f (suc g) (x ∷ []) (y ∷ y' ∷ ys) p q e = inr (leaf_or_inner x _ _ e)
  hash_fuel_binds zero g (x ∷ x' ∷ xs) ys p q e = absurd (omega arith)
  hash_fuel_binds (suc f) g (x ∷ x' ∷ xs) [] p q e = inr (empty_or_inner _ _ (sym e))
  hash_fuel_binds (suc f) g (x ∷ x' ∷ xs) (y ∷ []) p q e = inr (leaf_or_inner y _ _ (sym e))
  hash_fuel_binds (suc f) zero (x ∷ x' ∷ xs) (y ∷ y' ∷ ys) p q e = absurd (omega arith)
  hash_fuel_binds (suc f) (suc g) (x ∷ x' ∷ xs) (y ∷ y' ∷ ys) p q e =
      elim (halves _ _ _ _
        (hash_fuel_size h f (take k us) us_left ∙ sym (hash_fuel_size h g (take l vs) vs_left)) e) [
          | inl same ↦
              rejoin us vs k l (hash_fuel_binds f g (take k us) (take l vs) us_left vs_left same.0)
                (hash_fuel_binds f g (drop k us) (drop l vs) us_right vs_right same.1)
          | inr c ↦ inr c
        ]
    where
      us : List Bytes
      us = x ∷ x' ∷ xs

      vs : List Bytes
      vs = y ∷ y' ∷ ys

      k : ℕ
      k = split_point (length us)

      l : ℕ
      l = split_point (length vs)

      us_split : IsSplit (length us) k
      us_split = split_point-IsSplit (length us) (omega arith)

      vs_split : IsSplit (length vs) l
      vs_split = split_point-IsSplit (length vs) (omega arith)

      us_left : length (take k us) ≤ f
      us_left = omega (arith, length-take k us, us_split.below)

      vs_left : length (take l vs) ≤ g
      vs_left = omega (arith, length-take l vs, vs_split.below)

      us_right : length (drop k us) ≤ f
      us_right = omega (arith, length-drop k us, us_split.at_least_half)

      vs_right : length (drop l vs) ≤ g
      vs_right = omega (arith, length-drop l vs, vs_split.at_least_half)

  -- Two lists of items with one root, of whatever lengths, are equal, or two different messages
  -- with one digest are at hand.
  pub hash_from_byte_slices_binds :
      (xs ys : List Bytes)
      → hash_from_byte_slices h xs ≡ hash_from_byte_slices h ys
      → (xs ≡ ys) ⊎ Collision h
  unfolding hash_from_byte_slices
  hash_from_byte_slices_binds xs ys e =
      hash_fuel_binds (length xs) (length ys) xs ys (omega arith) (omega arith) e
