-- ===== src/RangeTree/Laws.antt =====
-- A range tree is the set of the keys in its ranges.
use melete.Base.{◌≡◌, refl, ap, ◌∙◌, ◌||◌, List, [], ◌∷◌, arith}
use melete.Base.Bytes.{Text}
use melete.Base.Outcome.{done}
use melete.RangeTree.{RangeTree, search_tree, range_tree, add_ranges, add_tree}
use melete.RangeTree.Covers.{covers, IsOrdered, covers-range_tree}
use melete.RangeTree.Insert.{add_range_lem}

-- A tree built by `AddRange` of ranges one by one, as `Add` and `NewRangeTreeFromString` do it,
-- finds a key exactly when it found it before or one of the ranges covers it.
pub add_ranges-covers :
    (t : RangeTree) (pairs : List (Text × Text))
    → IsOrdered t
    → (t' : RangeTree) × (add_ranges t pairs ≡ done t')
      × IsOrdered t'
      × ((p : Text) → search_tree t' p ≡ (search_tree t p || covers p pairs))
unfolding add_ranges covers
add_ranges-covers t [] o = (t, refl, o, λ p. ground arith)
add_ranges-covers t ((low, high) ∷ pairs) o =
    let (u, e, o', f) = add_range_lem t low high o in
    let (v, e', o'', g) = add_ranges-covers u pairs o' in
    (v, rw (e, e'), o'', λ p. ground (arith, f p, g p))

-- `Add` of one ordered tree to another gives an ordered tree that finds the keys of both.
pub add_tree-union :
    (t other : RangeTree)
    → IsOrdered t
    → IsOrdered other
    → (t' : RangeTree) × (add_tree t other ≡ done t')
      × IsOrdered t'
      × ((p : Text) → search_tree t' p ≡ (search_tree t p || search_tree other p))
unfolding add_tree
add_tree-union t other o q =
    let (t', e, o', f) = add_ranges-covers t (range_tree other) o in
    (t', e, o', λ p. f p ∙ ap (λ b. search_tree t p || b) (covers-range_tree other p q))
