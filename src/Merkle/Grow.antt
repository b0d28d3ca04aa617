-- ===== src/Merkle/Grow.antt =====
-- Trails that grow by a parent: their hash and their aunts.
use melete.Base.{◌≡◌, refl, [], ◌∷◌, ◌++◌, none, arith}
use melete.Base.Bytes.{Bytes}
use melete.Merkle.{
  ProofNode, Trail, fresh_node, grow, with_left, with_right, flatten_aunts, trail_hash,
}

-- The last node of a trail has no sibling yet.
abbrev pub IsOpen : Trail → Type 0
IsOpen [] = ⊥
IsOpen (n ∷ []) = (n.left ≡ none) × (n.right ≡ none)
IsOpen (n ∷ m ∷ up) = IsOpen (m ∷ up)

pub grow-IsOpen :
    (f : ProofNode → ProofNode) (b : Bytes) (t : Trail)
    → IsOpen t
    → IsOpen (grow f (fresh_node b) t)
unfolding grow
grow-IsOpen f b [] o = o
grow-IsOpen f b (n ∷ []) o = (refl, refl)
grow-IsOpen f b (n ∷ m ∷ []) o = (refl, refl)
grow-IsOpen f b (n ∷ m ∷ k ∷ up) o = grow-IsOpen f b (m ∷ k ∷ up) o

pub flatten_aunts-grow_right :
    (s b : Bytes) (t : Trail)
    → IsOpen t
    → flatten_aunts (grow (with_right s) (fresh_node b) t) ≡ flatten_aunts t ++ s ∷ []
unfolding grow flatten_aunts
flatten_aunts-grow_right s b [] o = absurd o
flatten_aunts-grow_right s b (n ∷ []) o = ground arith
flatten_aunts-grow_right s b (n ∷ m ∷ up) o =
    ground (arith, flatten_aunts-grow_right s b (m ∷ up) o)

pub flatten_aunts-grow_left :
    (s b : Bytes) (t : Trail)
    → IsOpen t
    → flatten_aunts (grow (with_left s) (fresh_node b) t) ≡ flatten_aunts t ++ s ∷ []
unfolding grow flatten_aunts
flatten_aunts-grow_left s b [] o = absurd o
flatten_aunts-grow_left s b (n ∷ []) o = ground arith
flatten_aunts-grow_left s b (n ∷ m ∷ up) o = ground (arith, flatten_aunts-grow_left s b (m ∷ up) o)

pub trail_hash-grow_right :
    (s b : Bytes) (t : Trail) → trail_hash (grow (with_right s) (fresh_node b) t) ≡ trail_hash t
unfolding grow
trail_hash-grow_right s b [] = refl
trail_hash-grow_right s b (n ∷ []) = refl
trail_hash-grow_right s b (n ∷ m ∷ up) = refl

pub trail_hash-grow_left :
    (s b : Bytes) (t : Trail) → trail_hash (grow (with_left s) (fresh_node b) t) ≡ trail_hash t
unfolding grow
trail_hash-grow_left s b [] = refl
trail_hash-grow_left s b (n ∷ []) = refl
trail_hash-grow_left s b (n ∷ m ∷ up) = refl
