-- ===== src/RangeTree/Ordered.antt =====
-- Search in a tree whose keys stand in order.
use melete.Base.{ℕ, ◌≡◌, true, false, ◌||◌, arith}
use melete.Base.Bytes.{Text}
use melete.Base.TextOrder.{lt_text, le_text, lt_text-le_text, le_text_trans}
use melete.RangeTree.{RangeTreeNode, leaf, node, ukey, search_node}

-- The bounds of a node are its parent's and the keys of its children, in order.
abbrev pub Ordered : Text → Text → RangeTreeNode → Type 0
Ordered low high (leaf u) = le_text low high ≡ true
Ordered low high (node u l r d) =
    Ordered low (ukey l) l × (le_text (ukey l) (ukey r) ≡ true) × Ordered (ukey r) high r

pub Ordered-le :
    (low high : Text) (t : RangeTreeNode) → Ordered low high t → le_text low high ≡ true
Ordered-le low high (leaf u) o = o
Ordered-le low high (node u l r d) o =
    le_text_trans low (ukey l) high (Ordered-le low (ukey l) l o.0)
      (le_text_trans (ukey l) (ukey r) high o.1 (Ordered-le (ukey r) high r o.2))

-- What is found lies within the bounds.
pub search_node-within :
    (p low high : Text) (t : RangeTreeNode)
    → Ordered low high t
    → search_node p low high t ≡ true
    → (lt_text p low ≡ false) × (lt_text p high ≡ true)
unfolding search_node
search_node-within p low high (leaf u) o h = ground arith
search_node-within p low high (node u l r d) o h = ground (
  arith,
  search_node-within p low (ukey l) l o.0,
  search_node-within p (ukey r) high r o.2,
  lt_text-le_text p (ukey l) (ukey r) o.1,
  lt_text-le_text p (ukey r) high (Ordered-le (ukey r) high r o.2),
  lt_text-le_text p low (ukey l) (Ordered-le low (ukey l) l o.0),
)

-- Search in a node is search in its children.
pub search_node-node :
    (p low high u : Text) (l r : RangeTreeNode) (d : ℕ)
    → Ordered low high (node u l r d)
    → search_node p low high (node u l r d)
      ≡ (search_node p low (ukey l) l || search_node p (ukey r) high r)
search_node-node p low high u l r d o =
    unfold search_node in
    ground (
      arith,
      search_node-within p low (ukey l) l o.0,
      search_node-within p (ukey r) high r o.2,
      lt_text-le_text p (ukey l) (ukey r) o.1,
    )
