-- ===== src/Merkle/Complete.antt =====
-- The proofs of `ProofsFromByteSlices` under `Verify`.
use mathlib.Core.Path.{subst}
use melete.Base.{
  ℕ, zero, suc, ◌+◌, ◌-◌, ◌≤◌, ◌<◌, ◌≡◌, refl, ap, ap₂, ◌∙◌, List, [], ◌∷◌, ◌++◌, map, reverse,
  none, some, arith, length, take, drop, get_elem?, length-take, length-drop, length-map,
  get_elem?-take, get_elem?-drop, get_elem?-append_left, get_elem?-append_right, Bool-cases, inl,
  inr, ltb, ltb→lt, ltb-false, get_elem?-some-lt, get_elem?-map,
}
use melete.Base.Int.{pos}
use melete.Base.Bytes.{Bytes, bytes_equal_refl}
use melete.Merkle.{
  HashFunction, leaf_hash, leaf_hash_size, inner_hash, hash_from_byte_slices, hash_fuel,
  split_point, IsSplit, split_point-IsSplit, Proof, compute_from_last, compute_hash_from_aunts,
  compute_root_hash, verify, non_nil, ProofNode, Trail, fresh_node, grow, with_left, with_right,
  flatten_aunts, trail_hash, trails_fuel, trails_from_byte_slices, proofs_of_trails,
  proofs_from_byte_slices,
}
use melete.Merkle.Climb.{
  trails_fuel_root, length-trails_fuel, Proves, grow_right-Proves, grow_left-Proves,
}

module _ (h : HashFunction) where
  -- Every leaf has a trail, and the trail proves it.
  Proven : (x : Bytes) (i n : ℕ) (root : Bytes) → List Trail → Type 0
  Proven x i n root ts = (t : Trail) × (get_elem? ts i ≡ some t) × Proves h x i n root t

  grown-Proven :
      (x : Bytes) (i n : ℕ) (l r : Bytes) (lefts rights : List Trail)
      → 2 ≤ n
      → i < n
      → length lefts ≡ split_point n
      → (i < split_point n → Proven x i (split_point n) l lefts)
      → (split_point n ≤ i → Proven x (i - split_point n) (n - split_point n) r rights)
      → Proven x i n (inner_hash h l r) (
          map (grow (with_right r) (fresh_node (inner_hash h l r))) lefts
          ++ map (grow (with_left l) (fresh_node (inner_hash h l r))) rights)
  unfolding Proven
  grown-Proven x i n l r lefts rights p lt e hl hr = elim (Bool-cases (ltb i (split_point n))) [
    | inl below ↦
        let (t, found, v) = hl (ltb→lt _ _ below) in
        (
          grow (with_right r) root t,
          get_elem?-append_left ls rs i (omega (arith, ltb→lt _ _ below, len))
              ∙ get_elem?-map (grow (with_right r) root) lefts i t found,
          grow_right-Proves h x i n l r (inner_hash h l r) t p (ltb→lt _ _ below) v,
        )
    | inr above ↦
        let le = ltb-false _ _ above in
        let (t, found, v) = hr le in
        (
          grow (with_left l) root t,
          get_elem?-append_right ls rs i (omega (arith, len))
              ∙ ap (get_elem? rs) (omega (arith, len))
              ∙ get_elem?-map (grow (with_left l) root) rights (i - split_point n) t found,
          grow_left-Proves h x i n l r (inner_hash h l r) t p lt le v,
        )
  ]
    where
      root : ProofNode
      root = fresh_node (inner_hash h l r)

      ls : List Trail
      ls = map (grow (with_right r) root) lefts

      rs : List Trail
      rs = map (grow (with_left l) root) rights

      len : length ls ≡ split_point n
      len = length-map (grow (with_right r) root) lefts ∙ e

  non_nil_of_size : (b : Bytes) → 0 < length b → non_nil b ≡ some b
  non_nil_of_size [] p = elim p [ ]
  non_nil_of_size (x ∷ b) p = refl

  single-Proves : (x : Bytes) → Proves h x 0 1 (leaf_hash h x) (fresh_node (leaf_hash h x) ∷ [])
  unfolding flatten_aunts compute_from_last
  single-Proves x = record {
    open_end = (refl, refl);
    starts = refl;
    climbs = non_nil_of_size (leaf_hash h x) (omega (arith, leaf_hash_size h x));
  }

  trails_fuel-Proven :
      (f : ℕ) (items : List Bytes) (i : ℕ) (x : Bytes)
      → length items ≤ f
      → get_elem? items i ≡ some x
      → Proven x i (length items) (trails_fuel h f items).1 (trails_fuel h f items).0
  unfolding trails_fuel Proven
  trails_fuel-Proven f [] i x p e = cc
  trails_fuel-Proven f (y ∷ []) zero x p e =
      let same : y ≡ x = cc in rw same (fresh_node (leaf_hash h x) ∷ [], refl, single-Proves x)
  trails_fuel-Proven f (y ∷ []) (suc i) x p e = cc
  trails_fuel-Proven zero (y ∷ z ∷ r) i x p e = absurd (omega arith)
  trails_fuel-Proven (suc f) (y ∷ z ∷ r) i x p e =
      grown-Proven x i (length items) (trails_fuel h f (take k items)).1
        (trails_fuel h f (drop k items)).1 (trails_fuel h f (take k items)).0
        (trails_fuel h f (drop k items)).0 (omega arith) (get_elem?-some-lt items i x e)
        (length-trails_fuel h f (take k items) (omega (arith, taken, s.below)) ∙ taken)
        (λ lt.
          subst
            (λ m.
              Proven x i m (trails_fuel h f (take k items)).1 (trails_fuel h f (take k items)).0)
            taken
            (trails_fuel-Proven f (take k items) i x (omega (arith, taken, s.below))
              (get_elem?-take k i items lt ∙ e)))
        (λ le.
          subst
            (λ m.
              Proven x (i - k) m (trails_fuel h f (drop k items)).1
                (trails_fuel h f (drop k items)).0)
            dropped
            (trails_fuel-Proven f (drop k items) (i - k) x (omega (arith, dropped, s.at_least_half))
              (get_elem?-drop k i items le ∙ e)))
    where
      items : List Bytes
      items = y ∷ z ∷ r

      k : ℕ
      k = split_point (length items)

      s : IsSplit (length items) k
      s = split_point-IsSplit (length items) (omega arith)

      taken : length (take k items) ≡ k
      taken = omega (arith, length-take k items, s.below)

      dropped : length (drop k items) ≡ length items - k
      dropped = length-drop k items

  get_elem?-proofs_of_trails :
      (n j i : ℕ) (ts : List Trail) (t : Trail)
      → get_elem? ts i ≡ some t
      → get_elem? (proofs_of_trails n j ts) i
        ≡ some (record {
          total = pos n;
          index = pos (j + i);
          leaf_hash = trail_hash t;
          aunts = flatten_aunts t;
        })
  unfolding proofs_of_trails
  get_elem?-proofs_of_trails n j i [] t e = cc
  get_elem?-proofs_of_trails n j zero (u ∷ ts) t e = ground arith
  get_elem?-proofs_of_trails n j (suc i) (u ∷ ts) t e =
      ground (arith, get_elem?-proofs_of_trails n (suc j) i ts t e)

  verify_of_root :
      (sp : Proof) (i n : ℕ) (x root : Bytes)
      → sp.index ≡ pos i
      → sp.total ≡ pos n
      → sp.leaf_hash ≡ leaf_hash h x
      → compute_root_hash h sp ≡ some root
      → verify h sp root x ≡ none
  unfolding verify
  verify_of_root sp i n x root ei en el er =
      ground (arith, bytes_equal_refl (leaf_hash h x), bytes_equal_refl root)

  pub proofs_root :
      (items : List Bytes) → (proofs_from_byte_slices h items).0 ≡ hash_from_byte_slices h items
  unfolding proofs_from_byte_slices trails_from_byte_slices hash_from_byte_slices
  proofs_root items = trails_fuel_root h (length items) items (omega arith)

  -- What `ProofsFromByteSlices` promises of an item.
  pub record IsProven (items : List Bytes) (i : ℕ) (x : Bytes) : Type 0 where
    pub proof : Proof
    pub stored : get_elem? (proofs_from_byte_slices h items).1 i ≡ some proof
    pub for_index : proof.index ≡ pos i
    pub for_total : proof.total ≡ pos (length items)
    pub accepted : verify h proof (hash_from_byte_slices h items) x ≡ none

  -- For each item that is given, `ProofsFromByteSlices` makes a proof at the item's index, with the
  -- number of items for total, and `Verify` accepts it against the root of `HashFromByteSlices`.
  pub proofs_complete :
      (items : List Bytes) (i : ℕ) (x : Bytes) → get_elem? items i ≡ some x → IsProven items i x
  unfolding proofs_from_byte_slices trails_from_byte_slices hash_from_byte_slices Proven
      compute_root_hash compute_hash_from_aunts
  proofs_complete items i x e =
      let n = length items in
      let (t, found, v) = trails_fuel-Proven n items i x (omega arith) e in
      let sp : Proof = record {
        total = pos n;
        index = pos (0 + i);
        leaf_hash = trail_hash t;
        aunts = flatten_aunts t;
      } in
      let zero_add : 0 + i ≡ i = omega arith in
      let root = trails_fuel_root h n items (omega arith) in
      record {
        proof = sp;
        stored = get_elem?-proofs_of_trails n 0 i (trails_fuel h n items).0 t found;
        for_index = ap pos zero_add;
        for_total = refl;
        accepted = verify_of_root sp i n x (hash_fuel h n items) (ap pos zero_add) refl v.starts (
            ap₂ (λ j l. compute_from_last h j n l (reverse (flatten_aunts t))) zero_add v.starts
            ∙ v.climbs
            ∙ ap some root);
      }
