-- ===== src/Merkle/Shown.antt =====
-- What a climb from a leaf to the root shows of the leaf.
use melete.Base.{
  ℕ, zero, suc, ◌-◌, ◌≤◌, ◌<◌, ◌≡◌, ◌⊎◌, ap, ◌∙◌, sym, List, [], ◌∷◌, some, arith, length, take,
  drop, get_elem?, length-take, length-drop, length-append, get_elem?-take, get_elem?-drop,
  Bool-cases, Option-cases, inl, inr, ltb, ltb→lt, ltb-false,
}
use melete.Base.Bytes.{Bytes, append_injective}
use melete.Merkle.{
  HashFunction, hash_size, Collision, leaf_hash, inner_hash, leaf_hash_size, inner_hash_size,
  inner_hash_cases, empty_hash, hash_fuel, split_point, IsSplit, split_point-IsSplit,
  compute_from_last,
}

module _ (h : HashFunction) where
  -- How a proof with an aunt can lead to a root: through the left half or through the right one.
  pub data Step (i n : ℕ) (leaf aunt : Bytes) (aunts : List Bytes) (root : Bytes) : Type 0 where
    into_left :
        (l : Bytes)
        → 2 ≤ n
        → i < split_point n
        → compute_from_last h i (split_point n) leaf aunts ≡ some l
        → root ≡ inner_hash h l aunt
        → Step i n leaf aunt aunts root
    into_right :
        (r : Bytes)
        → 2 ≤ n
        → i < n
        → split_point n ≤ i
        → compute_from_last h (i - split_point n) (n - split_point n) leaf aunts ≡ some r
        → root ≡ inner_hash h aunt r
        → Step i n leaf aunt aunts root

  pub compute-Step :
      (i n : ℕ) (leaf aunt : Bytes) (aunts : List Bytes) (root : Bytes)
      → compute_from_last h i n leaf (aunt ∷ aunts) ≡ some root
      → Step i n leaf aunt aunts root
  unfolding compute_from_last
  compute-Step i n leaf aunt aunts root e = elim (Bool-cases (ltb i (split_point n))) [
    | inl below ↦ elim (Option-cases (compute_from_last h i (split_point n) leaf aunts)) [
      | inl failed ↦ absurd (ground arith)
      | inr (l, found) ↦ into_left l (ground arith) (ltb→lt _ _ below) found (ground arith)
    ]
    | inr above ↦
        elim (Option-cases
          (compute_from_last h (i - split_point n) (n - split_point n) leaf aunts)) [
            | inl failed ↦ absurd (ground arith)
            | inr (r, found) ↦
                into_right r (ground arith) (ground arith) (ltb-false _ _ above) found
                  (ground arith)
          ]
  ]

  pub compute_leaf :
      (i n : ℕ) (leaf root : Bytes)
      → compute_from_last h i n leaf [] ≡ some root
      → (i ≡ 0) × (n ≡ 1) × (root ≡ leaf)
  unfolding compute_from_last
  compute_leaf i n [] root e = absurd (ground arith)
  compute_leaf i n (b ∷ leaf) root e = ground arith

  compute_from_last_size :
      (i n : ℕ) (leaf : Bytes) (aunts : List Bytes) (r : Bytes)
      → length leaf ≡ hash_size
      → compute_from_last h i n leaf aunts ≡ some r
      → length r ≡ hash_size
  compute_from_last_size i n leaf [] r s e = ap length (compute_leaf i n leaf r e).2 ∙ s
  compute_from_last_size i n leaf (a ∷ aunts) r s e = elim (compute-Step i n leaf a aunts r e) [
    | into_left l _ _ _ root ↦ ap length root ∙ inner_hash_size h l a
    | into_right r' _ _ _ _ root ↦ ap length root ∙ inner_hash_size h a r'
  ]

  pub hash_fuel_size :
      (f : ℕ) (items : List Bytes) → length items ≤ f → length (hash_fuel h f items) ≡ hash_size
  unfolding hash_fuel empty_hash
  hash_fuel_size f [] p = h.sum_size []
  hash_fuel_size f (x ∷ []) p = leaf_hash_size h x
  hash_fuel_size zero (x ∷ y ∷ r) p = absurd (omega arith)
  hash_fuel_size (suc f) (x ∷ y ∷ r) p = inner_hash_size h _ _

  unfoldable pub Shown : List Bytes → ℕ → Bytes → Type 0
  Shown items i leaf =
      ((x : Bytes) × (get_elem? items i ≡ some x) × (leaf ≡ leaf_hash h x)) ⊎ Collision h

  -- Equal inner digests with 32 bytes on one known side have equal halves.
  halves_left :
      (a b l aunt : Bytes)
      → length a ≡ length l
      → inner_hash h a b ≡ inner_hash h l aunt
      → (a ≡ l) ⊎ Collision h
  halves_left a b l aunt s e = elim (inner_hash_cases h a b l aunt e) [
    | inl same ↦ inl (append_injective a b l aunt s same).0
    | inr c ↦ inr c
  ]

  halves_right :
      (a b aunt r : Bytes)
      → length b ≡ length r
      → inner_hash h a b ≡ inner_hash h aunt r
      → (b ≡ r) ⊎ Collision h
  halves_right a b aunt r s e = elim (inner_hash_cases h a b aunt r e) [
    | inl same ↦
        inl
          (append_injective a b aunt r
            (omega (arith, ap length same, length-append a b, length-append aunt r)) same).1
    | inr c ↦ inr c
  ]

  Shown-take :
      (k : ℕ) (items : List Bytes) (i : ℕ) (leaf : Bytes)
      → i < k
      → Shown (take k items) i leaf
      → Shown items i leaf
  unfolding Shown
  Shown-take k items i leaf p (inl (x, found, e)) =
      inl (x, sym (get_elem?-take k i items p) ∙ found, e)
  Shown-take k items i leaf p (inr c) = inr c

  Shown-drop :
      (k : ℕ) (items : List Bytes) (i : ℕ) (leaf : Bytes)
      → k ≤ i
      → Shown (drop k items) (i - k) leaf
      → Shown items i leaf
  unfolding Shown
  Shown-drop k items i leaf p (inl (x, found, e)) =
      inl (x, sym (get_elem?-drop k i items p) ∙ found, e)
  Shown-drop k items i leaf p (inr c) = inr c

  pub hash_fuel-Shown :
      (f : ℕ) (items : List Bytes) (i : ℕ) (leaf : Bytes) (aunts : List Bytes)
      → length items ≤ f
      → length leaf ≡ hash_size
      → compute_from_last h i (length items) leaf aunts ≡ some (hash_fuel h f items)
      → Shown items i leaf
  unfolding Shown hash_fuel
  hash_fuel-Shown f [] i leaf [] p s e = absurd (omega (arith, (compute_leaf i 0 leaf _ e).1))
  hash_fuel-Shown f [] i leaf (a ∷ aunts) p s e = elim (compute-Step i 0 leaf a aunts _ e) [
    | into_left _ two _ _ _ ↦ absurd (omega arith)
    | into_right _ two _ _ _ _ ↦ absurd (omega arith)
  ]
  hash_fuel-Shown f (x ∷ []) i leaf [] p s e =
      let (first, _, same) = compute_leaf i 1 leaf _ e in
      inl (x, ap (get_elem? (x ∷ [])) first, sym same)
  hash_fuel-Shown f (x ∷ []) i leaf (a ∷ aunts) p s e = elim (compute-Step i 1 leaf a aunts _ e) [
    | into_left _ two _ _ _ ↦ absurd (omega arith)
    | into_right _ two _ _ _ _ ↦ absurd (omega arith)
  ]
  hash_fuel-Shown zero (x ∷ y ∷ r) i leaf aunts p s e = absurd (omega arith)
  hash_fuel-Shown (suc f) (x ∷ y ∷ r) i leaf [] p s e =
      absurd (omega (arith, (compute_leaf i _ leaf _ e).1))
  hash_fuel-Shown (suc f) (x ∷ y ∷ r) i leaf (a ∷ aunts) p s e =
      elim (compute-Step i (length items) leaf a aunts _ e) [
        | into_left l two lt found root ↦
            elim (halves_left _ _ l a
              (hash_fuel_size f (take k items) small_left
                ∙ sym (compute_from_last_size i k leaf aunts l s found))
              root) [
                | inl same ↦ Shown-take k items i leaf lt (
                    hash_fuel-Shown f (take k items) i leaf aunts small_left s (
                      ap (λ m. compute_from_last h i m leaf aunts) taken
                      ∙ found
                      ∙ ap some (sym same)))
                | inr c ↦ inr c
              ]
        | into_right r' two lt le found root ↦
            elim (halves_right _ _ a r'
              (hash_fuel_size f (drop k items) small_right
                ∙ sym (compute_from_last_size (i - k) (length items - k) leaf aunts r' s found))
              root) [
                | inl same ↦ Shown-drop k items i leaf le (
                    hash_fuel-Shown f (drop k items) (i - k) leaf aunts small_right s (
                      ap (λ m. compute_from_last h (i - k) m leaf aunts) dropped
                      ∙ found
                      ∙ ap some (sym same)))
                | inr c ↦ inr c
              ]
      ]
    where
      items : List Bytes
      items = x ∷ y ∷ r

      k : ℕ
      k = split_point (length items)

      split : IsSplit (length items) k
      split = split_point-IsSplit (length items) (omega arith)

      taken : length (take k items) ≡ k
      taken = omega (arith, length-take k items, split.below)

      dropped : length (drop k items) ≡ length items - k
      dropped = length-drop k items

      small_left : length (take k items) ≤ f
      small_left = omega (arith, taken, split.below)

      small_right : length (drop k items) ≤ f
      small_right = omega (arith, dropped, split.at_least_half)
