-- ===== src/Merkle/Trails.antt =====
-- `ProofsFromByteSlices`, `trailsFromByteSlices` and `FlattenAunts` of crypto/merkle/proof.go.
use melete.Base.{ℕ, zero, suc, List, [], ◌∷◌, ◌++◌, map, Option, none, some, length, take, drop}
use melete.Base.Int.{pos}
use melete.Base.Bytes.{Bytes}
use melete.Merkle.Split.{split_point}
use melete.Merkle.Hash.{HashFunction, empty_hash, leaf_hash, inner_hash}
use melete.Merkle.Verify.{Proof}

-- A node and its siblings. Of a sibling only the hash is read, and it is final when it is set.
pub record ProofNode : Type 0 where
  pub hash : Bytes
  pub left : Option Bytes
  pub right : Option Bytes

abbrev pub fresh_node : Bytes → ProofNode
fresh_node b = record { hash = b; left = none; right = none }

-- A leaf with its chain of parents, up to the root that it has so far.
abbrev pub Trail : Type 0
Trail = List ProofNode

-- Sets a sibling of the root of a trail and makes `parent` the new root. In Go the root is shared
-- by the trails below it; here each trail has a copy, and all copies are updated alike.
unfoldable pub grow : (ProofNode → ProofNode) → ProofNode → Trail → Trail
grow set_sibling parent [] = []
grow set_sibling parent (n ∷ []) = set_sibling n ∷ parent ∷ []
grow set_sibling parent (n ∷ m ∷ up) = n ∷ grow set_sibling parent (m ∷ up)

abbrev pub with_right : Bytes → ProofNode → ProofNode
with_right b n = record n { right = some b }

abbrev pub with_left : Bytes → ProofNode → ProofNode
with_left b n = record n { left = some b }

-- `FlattenAunts`: the siblings' hashes from the leaf up.
unfoldable pub flatten_aunts : Trail → List Bytes
flatten_aunts [] = []
flatten_aunts (n ∷ up) = elim n.left [
  | some b ↦ b ∷ flatten_aunts up
  | none ↦ elim n.right [ some b ↦ b ∷ flatten_aunts up | none ↦ flatten_aunts up ]
]

abbrev pub trail_hash : Trail → Bytes
trail_hash [] = []
trail_hash (n ∷ up) = n.hash

module _ (h : HashFunction) where
  -- `trailsFromByteSlices`, with the length for fuel: the trails and the hash of their root.
  unfoldable pub trails_fuel : ℕ → List Bytes → List Trail × Bytes
  trails_fuel f [] = ([], empty_hash h)
  trails_fuel f (x ∷ []) = ((fresh_node (leaf_hash h x) ∷ []) ∷ [], leaf_hash h x)
  trails_fuel zero (x ∷ y ∷ r) = ([], [])
  trails_fuel (suc f) (x ∷ y ∷ r) =
      let k = split_point (length (x ∷ y ∷ r)) in
      let (lefts, left_root) = trails_fuel f (take k (x ∷ y ∷ r)) in
      let (rights, right_root) = trails_fuel f (drop k (x ∷ y ∷ r)) in
      let root_hash = inner_hash h left_root right_root in
      (
        map (grow (with_right right_root) (fresh_node root_hash)) lefts
            ++ map (grow (with_left left_root) (fresh_node root_hash)) rights,
        root_hash,
      )

  unfoldable pub trails_from_byte_slices : List Bytes → List Trail × Bytes
  unfolding trails_fuel grow
  trails_from_byte_slices items = trails_fuel (length items) items

-- The loop of `ProofsFromByteSlices` over the trails, from index `i` on.
unfoldable pub proofs_of_trails : ℕ → ℕ → List Trail → List Proof
proofs_of_trails total i [] = []
proofs_of_trails total i (t ∷ ts) =
    record { total = pos total; index = pos i; leaf_hash = trail_hash t; aunts = flatten_aunts t }
    ∷ proofs_of_trails total (suc i) ts

module _ (h : HashFunction) where
  unfoldable pub proofs_from_byte_slices : List Bytes → Bytes × List Proof
  unfolding trails_from_byte_slices proofs_of_trails flatten_aunts
  proofs_from_byte_slices items =
      let (trails, root_hash) = trails_from_byte_slices h items in
      (root_hash, proofs_of_trails (length items) 0 trails)
