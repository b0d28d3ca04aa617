-- ===== src/Merkle/Sound.antt =====
-- The proofs that `Verify` accepts.
use mathlib.Core.Option
use melete.Base.{
  ℕ, ◌<◌, ◌≡◌, ◌⊎◌, ap, ◌∙◌, sym, List, [], ◌∷◌, reverse, Option, none, some, arith, length,
  get_elem?, inl, inr,
}
use melete.Base.Int.{pos, pos_part}
use melete.Base.Bytes.{Bytes, bytes_equal→eq}
use melete.Merkle.{
  HashFunction, hash_size, Collision, leaf_hash, leaf_hash_size, leaf_hash_cases,
  hash_from_byte_slices, split_point-IsSplit, Proof, compute_from_last, compute_hash_from_aunts,
  compute_root_hash, verify,
}
use melete.Merkle.Shown.{
  into_left, into_right, compute-Step, compute_leaf, hash_fuel_size, Shown, hash_fuel-Shown,
}

module _ (h : HashFunction) where
  -- What an accepted proof has been checked for.
  record Accepted (sp : Proof) (root leaf : Bytes) : Type 0 where
    at_index : ℕ
    of_total : ℕ
    index_eq : sp.index ≡ pos at_index
    total_eq : sp.total ≡ pos of_total
    leaf_eq : sp.leaf_hash ≡ leaf_hash h leaf
    root_eq : Option.get_or (compute_root_hash h sp) [] ≡ root

  verify-Accepted :
      (sp : Proof) (root leaf : Bytes) → verify h sp root leaf ≡ none → Accepted sp root leaf
  unfolding verify
  verify-Accepted sp root leaf e = record {
    at_index = pos_part sp.index;
    of_total = pos_part sp.total;
    index_eq = ground arith;
    total_eq = ground arith;
    leaf_eq = bytes_equal→eq _ _ (ground arith);
    root_eq = bytes_equal→eq _ _ (ground arith);
  }

  get_or-some :
      (o : Option Bytes) (root : Bytes)
      → 0 < length root
      → Option.get_or o [] ≡ root
      → o ≡ some root
  get_or-some none [] p e = elim p [ ]
  get_or-some none (b ∷ root) p e = cc
  get_or-some (some r) root p e = ap some e

  pub root_size : (items : List Bytes) → length (hash_from_byte_slices h items) ≡ hash_size
  unfolding hash_from_byte_slices
  root_size items = hash_fuel_size h (length items) items (omega arith)

  compute_root_hash_at :
      (sp : Proof) (i n : ℕ)
      → sp.index ≡ pos i
      → sp.total ≡ pos n
      → compute_root_hash h sp ≡ compute_from_last h i n sp.leaf_hash (reverse sp.aunts)
  unfolding compute_root_hash compute_hash_from_aunts
  compute_root_hash_at sp i n ei en = rw ei (rw en)

  -- `Verify` binds positions: if it accepts a proof of a leaf for the root of a list of items, and
  -- the proof's total is the number of items, then the leaf is the item at the proof's index, or
  -- two different messages with one digest are at hand.
  pub verify_sound :
      (items : List Bytes) (sp : Proof) (leaf : Bytes)
      → sp.total ≡ pos (length items)
      → verify h sp (hash_from_byte_slices h items) leaf ≡ none
      → (i : ℕ) × (sp.index ≡ pos i) × ((get_elem? items i ≡ some leaf) ⊎ Collision h)
  unfolding hash_from_byte_slices Shown
  verify_sound items sp leaf total e =
      let a = verify-Accepted sp (hash_from_byte_slices h items) leaf e in
      (a.at_index, a.index_eq, finish a)
    where
      finish :
          (a : Accepted sp (hash_from_byte_slices h items) leaf)
          → (get_elem? items a.at_index ≡ some leaf) ⊎ Collision h
      finish a =
          elim (hash_fuel-Shown h (length items) items a.at_index sp.leaf_hash (reverse sp.aunts)
            (omega arith) (ap length a.leaf_eq ∙ leaf_hash_size h leaf)
            (sym (compute_root_hash_at sp a.at_index (length items) a.index_eq total)
              ∙ get_or-some (compute_root_hash h sp) _ (omega (arith, root_size items))
                  a.root_eq)) [
                    | inl (x, found, same) ↦
                        elim (leaf_hash_cases h leaf x (sym a.leaf_eq ∙ same)) [
                          | inl eq ↦ inl (found ∙ ap some (sym eq))
                          | inr c ↦ inr c
                        ]
                    | inr c ↦ inr c
                  ]

  compute_in_range :
      (i n : ℕ) (leaf : Bytes) (aunts : List Bytes) (root : Bytes)
      → compute_from_last h i n leaf aunts ≡ some root
      → i < n
  compute_in_range i n leaf [] root e =
      let (first, single, _) = compute_leaf h i n leaf root e in omega arith
  compute_in_range i n leaf (a ∷ aunts) root e = elim (compute-Step h i n leaf a aunts root e) [
    | into_left _ two lt _ _ ↦
        let s = split_point-IsSplit n two in let below = s.below in omega arith
    | into_right _ _ lt _ _ _ ↦ lt
  ]

  -- An accepted proof has an index that is not negative and below its total, when the root is not
  -- empty.
  pub verify_in_range :
      (sp : Proof) (root leaf : Bytes)
      → 0 < length root
      → verify h sp root leaf ≡ none
      → (i n : ℕ) × (sp.index ≡ pos i) × (sp.total ≡ pos n) × (i < n)
  verify_in_range sp root leaf p e =
      let a = verify-Accepted sp root leaf e in
      (
        a.at_index,
        a.of_total,
        a.index_eq,
        a.total_eq,
        compute_in_range a.at_index a.of_total sp.leaf_hash (reverse sp.aunts) root (
            sym (compute_root_hash_at sp a.at_index a.of_total a.index_eq a.total_eq)
            ∙ get_or-some (compute_root_hash h sp) root p a.root_eq),
      )
