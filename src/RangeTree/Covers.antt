-- ===== src/RangeTree/Covers.antt =====
-- The keys of the ranges that `Range` lists.
use melete.Base.{◌≡◌, refl, ◌∙◌, Bool, false, ◌||◌, ◌++◌, List, [], ◌∷◌, Option, none, some, arith}
use melete.Base.Bytes.{Text}
use melete.RangeTree.{
  RangeTree, RangeTreeNode, leaf, node, ukey, search_node, search_tree, range_node, range_tree,
}
use melete.RangeTree.Ordered.{Ordered, search_node-node}
use melete.RangeTree.Finds.{In}

-- A key in one of the ranges of a list.
unfoldable pub covers : Text → List (Text × Text) → Bool
covers p [] = false
covers p ((low, high) ∷ pairs) = In p low high || covers p pairs

-- The keys of a tree stand in order, and its root's key is its end.
abbrev pub IsOrdered : RangeTree → Type 0
IsOrdered t = elim t.root [ none ↦ Unit {0} | some n ↦ Ordered t.start t.end n × (ukey n ≡ t.end) ]

covers-append :
    (p : Text) (xs ys : List (Text × Text)) → covers p (xs ++ ys) ≡ (covers p xs || covers p ys)
unfolding covers
covers-append p [] ys = refl
covers-append p ((a, b) ∷ xs) ys = ground (arith, covers-append p xs ys)

covers-range_node :
    (p : Text) (out : List (Text × Text)) (low high : Text) (t : RangeTreeNode)
    → Ordered low high t
    → covers p (range_node out low high t) ≡ (covers p out || search_node p low high t)
unfolding range_node
covers-range_node p out low high (leaf u) o =
    covers-append p out ((low, high) ∷ []) ∙ unfold covers search_node in ground arith
covers-range_node p out low high (node u l r d) o = ground (
  arith,
  covers-range_node p out low (ukey l) l o.0,
  covers-range_node p (range_node out low (ukey l) l) (ukey r) high r o.2,
  search_node-node p low high u l r d o,
)

-- In an ordered tree `Search` finds the keys of the ranges that `Range` lists.
pub covers-range_tree :
    (t : RangeTree) (p : Text) → IsOrdered t → covers p (range_tree t) ≡ search_tree t p
covers-range_tree t p o = listed t.start t.end t.root o
  where
    listed :
        (low high : Text) (root : Option RangeTreeNode)
        → IsOrdered (record { start = low; end = high; root = root })
        → covers p (range_tree (record { start = low; end = high; root = root }))
          ≡ search_tree (record { start = low; end = high; root = root }) p
    listed low high none o = unfold covers range_tree search_tree in refl
    listed low high (some n) o =
        unfold range_tree search_tree in
        (covers-range_node p [] low high n o.0 ∙ unfold covers in refl)
