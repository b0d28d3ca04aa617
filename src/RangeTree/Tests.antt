-- ===== src/RangeTree/Tests.antt =====
-- Range trees on the ranges of the repository's test, with witnesses.
use melete.Base.{◌≡◌, refl, ◌||◌, List, [], ◌∷◌, some}
use melete.Base.Bytes.{Text, bytes_equal}
use melete.Base.TextOrder.{lt_text}
use melete.Base.Outcome.{done}
use melete.RangeTree.{
  RangeTree, new_range_tree, search_tree, range_tree, add_ranges, add_tree, range_node, leaf, node,
}
use melete.RangeTree.Delete.{delete_range, new_range_tree_from_string}
use melete.RangeTree.Covers.{IsOrdered, covers}
use melete.RangeTree.Laws.{add_ranges-covers, add_tree-union}

abbrev b1 : Text
b1 = b'b' ∷ b'1' ∷ []

abbrev b2 : Text
b2 = b'b' ∷ b'2' ∷ []

abbrev i1 : Text
i1 = b'i' ∷ b'1' ∷ []

abbrev i2 : Text
i2 = b'i' ∷ b'2' ∷ []

abbrev i3 : Text
i3 = b'i' ∷ b'3' ∷ []

abbrev i4 : Text
i4 = b'i' ∷ b'4' ∷ []

abbrev pairs : List (Text × Text)
pairs = (b1, b2) ∷ (i1, i2) ∷ (i3, i4) ∷ (i2, i3) ∷ []

-- The tree of the repository's test.
abbrev joined : RangeTree
joined = record {
  start = b1;
  end = i4;
  root = some (node i4 (node i2 (leaf b2) (leaf i1) 1) (leaf i2) 2);
}

ranges_join : add_ranges new_range_tree pairs ≡ done joined
unfolding add_ranges lt_text bytes_equal
ranges_join = refl

abbrev two_ranges : RangeTree
two_ranges = record { start = b1; end = i4; root = some (node i4 (leaf b2) (leaf i1) 1) }

-- The last two ranges meet, and are listed apart.
ranges_listed : range_tree joined ≡ (b1, b2) ∷ (i1, i2) ∷ (i2, i4) ∷ []
unfolding range_tree range_node
ranges_listed = refl

range_deleted :
    delete_range two_ranges i2 i3
    ≡ done (record {
      start = b1;
      end = i4;
      root = some (node i4 (leaf b2) (node i1 (leaf i2) (leaf i3) 1) 2);
    })
unfolding delete_range lt_text bytes_equal
range_deleted = refl

read_from_text :
    new_range_tree_from_string (b'[' ∷ b'b' ∷ b',' ∷ b'i' ∷ b']' ∷ [])
    ≡ done (record { start = b'b' ∷ []; end = b'i' ∷ []; root = some (leaf (b'i' ∷ [])) })
unfolding new_range_tree_from_string lt_text
read_from_text = refl

two_ranges-IsOrdered : IsOrdered two_ranges
unfolding lt_text
two_ranges-IsOrdered = ((refl, refl, refl), refl)

joined-IsOrdered : IsOrdered joined
unfolding lt_text
joined-IsOrdered = (((refl, refl, refl), refl, refl), refl)

add_ranges-covers_example :
    (t' : RangeTree) × (add_ranges two_ranges pairs ≡ done t')
    × IsOrdered t'
    × ((p : Text) → search_tree t' p ≡ (search_tree two_ranges p || covers p pairs))
add_ranges-covers_example = add_ranges-covers two_ranges pairs two_ranges-IsOrdered

add_tree-union_example :
    (t' : RangeTree) × (add_tree two_ranges joined ≡ done t')
    × IsOrdered t'
    × ((p : Text) → search_tree t' p ≡ (search_tree two_ranges p || search_tree joined p))
add_tree-union_example = add_tree-union two_ranges joined two_ranges-IsOrdered joined-IsOrdered
