-- ===== src/Merkle/Climb.antt =====
-- Trails that climb from a leaf to the root, one step after the other.
use mathlib.Core.List.{reverse-append}
use melete.Base.{
  ℕ, zero, suc, ◌-◌, ◌≤◌, ◌<◌, ◌≡◌, refl, ap₂, ◌∙◌, List, [], ◌∷◌, map, reverse, some, arith,
  length, take, drop, length-take, length-drop, length-append, length-map,
}
use melete.Base.Bytes.{Bytes}
use melete.Merkle.{
  HashFunction, leaf_hash, inner_hash, hash_fuel, split_point, split_point-IsSplit,
  compute_from_last, Trail, fresh_node, grow, with_left, with_right, flatten_aunts, trail_hash,
  trails_fuel,
}
use melete.Merkle.Grow.{
  IsOpen, grow-IsOpen, flatten_aunts-grow_right, flatten_aunts-grow_left, trail_hash-grow_right,
  trail_hash-grow_left,
}

module _ (h : HashFunction) where
  -- One step up a proof, into the left half and into the right half.
  compute_left :
      (i n : ℕ) (leaf aunt l : Bytes) (aunts : List Bytes)
      → 2 ≤ n
      → i < split_point n
      → compute_from_last h i (split_point n) leaf aunts ≡ some l
      → compute_from_last h i n leaf (aunt ∷ aunts) ≡ some (inner_hash h l aunt)
  unfolding compute_from_last
  compute_left i n leaf aunt l aunts p lt e =
      let s = split_point-IsSplit n p in let below = s.below in ground arith

  compute_right :
      (i n : ℕ) (leaf aunt r : Bytes) (aunts : List Bytes)
      → 2 ≤ n
      → i < n
      → split_point n ≤ i
      → compute_from_last h (i - split_point n) (n - split_point n) leaf aunts ≡ some r
      → compute_from_last h i n leaf (aunt ∷ aunts) ≡ some (inner_hash h aunt r)
  unfolding compute_from_last
  compute_right i n leaf aunt r aunts p lt le e = ground arith

  pub trails_fuel_root :
      (f : ℕ) (items : List Bytes)
      → length items ≤ f
      → (trails_fuel h f items).1 ≡ hash_fuel h f items
  unfolding trails_fuel hash_fuel
  trails_fuel_root f [] p = refl
  trails_fuel_root f (x ∷ []) p = refl
  trails_fuel_root zero (x ∷ y ∷ r) p = absurd (omega arith)
  trails_fuel_root (suc f) (x ∷ y ∷ r) p =
      let items = x ∷ y ∷ r in
      let k = split_point (length items) in
      let s = split_point-IsSplit (length items) (omega arith) in
      let t = length-take k items in
      let d = length-drop k items in
      let below = s.below in
      let half = s.at_least_half in
      ap₂ (inner_hash h) (trails_fuel_root f (take k items) (omega arith))
        (trails_fuel_root f (drop k items) (omega arith))

  pub length-trails_fuel :
      (f : ℕ) (items : List Bytes)
      → length items ≤ f
      → length (trails_fuel h f items).0 ≡ length items
  unfolding trails_fuel
  length-trails_fuel f [] p = refl
  length-trails_fuel f (x ∷ []) p = refl
  length-trails_fuel zero (x ∷ y ∷ r) p = absurd (omega arith)
  length-trails_fuel (suc f) (x ∷ y ∷ r) p =
      let items = x ∷ y ∷ r in
      let k = split_point (length items) in
      let s = split_point-IsSplit (length items) (omega arith) in
      let t = length-take k items in
      let d = length-drop k items in
      let below = s.below in
      let half = s.at_least_half in
      let lefts = (trails_fuel h f (take k items)).0 in
      let rights = (trails_fuel h f (drop k items)).0 in
      let left_root = (trails_fuel h f (take k items)).1 in
      let right_root = (trails_fuel h f (drop k items)).1 in
      let root = fresh_node (inner_hash h left_root right_root) in
      let a =
        length-append (map (grow (with_right right_root) root) lefts)
          (map (grow (with_left left_root) root) rights) in
      let b = length-map (grow (with_right right_root) root) lefts in
      let c = length-map (grow (with_left left_root) root) rights in
      let l = length-trails_fuel f (take k items) (omega arith) in
      let r' = length-trails_fuel f (drop k items) (omega arith) in omega arith

  -- A trail whose flattened aunts lead from the leaf `x` at index `i` of `n` to `root`.
  pub record Proves (x : Bytes) (i n : ℕ) (root : Bytes) (t : Trail) : Type 0 where
    pub open_end : IsOpen t
    pub starts : trail_hash t ≡ leaf_hash h x
    pub climbs : compute_from_last h i n (leaf_hash h x) (reverse (flatten_aunts t)) ≡ some root

  pub grow_right-Proves :
      (x : Bytes) (i n : ℕ) (l r b : Bytes) (t : Trail)
      → 2 ≤ n
      → i < split_point n
      → Proves x i (split_point n) l t
      → Proves x i n (inner_hash h l r) (grow (with_right r) (fresh_node b) t)
  grow_right-Proves x i n l r b t p lt v = record {
    open_end = grow-IsOpen (with_right r) b t v.open_end;
    starts = trail_hash-grow_right r b t ∙ v.starts;
    climbs = rw (flatten_aunts-grow_right r b t v.open_end) (
        rw (reverse-append (flatten_aunts t) (r ∷ []))
          (compute_left i n (leaf_hash h x) r l (reverse (flatten_aunts t)) p lt v.climbs));
  }

  pub grow_left-Proves :
      (x : Bytes) (i n : ℕ) (l r b : Bytes) (t : Trail)
      → 2 ≤ n
      → i < n
      → split_point n ≤ i
      → Proves x (i - split_point n) (n - split_point n) r t
      → Proves x i n (inner_hash h l r) (grow (with_left l) (fresh_node b) t)
  grow_left-Proves x i n l r b t p lt le v = record {
    open_end = grow-IsOpen (with_left l) b t v.open_end;
    starts = trail_hash-grow_left l b t ∙ v.starts;
    climbs = rw (flatten_aunts-grow_left l b t v.open_end) (
        rw (reverse-append (flatten_aunts t) (l ∷ []))
          (compute_right i n (leaf_hash h x) l r (reverse (flatten_aunts t)) p lt le v.climbs));
  }
