-- ===== src/RangeTree/Delete.antt =====
-- utils/RangeTree.go: `DeleteRange`, and a tree read from a text.
use melete.Base.{
  ℕ, ◌+◌, List, [], ◌∷◌, ◌++◌, Option, none, some, ◌&&◌, if◌then◌else◌, ltb, ◌==◌, ◌||◌, take,
  length,
}
use melete.Base.Bytes.{Text, bytes_equal}
use melete.Base.Outcome.{Outcome, done, panic, ◌>>=◌}
use melete.Base.TextOrder.{lt_text}
use melete.RangeTree.{
  RangeTreeNode, leaf, node, ukey, depth, with_ukey, RangeTree, str_in_range, new_range_tree,
  add_ranges,
}

-- The end of `RangeTreeNode.DeleteRange`, on the children that are left and the bounds.
unfoldable pub regroup :
    Text
    → Text
    → Text
    → Option RangeTreeNode
    → Option RangeTreeNode
    → Text
    → Text
    → Outcome (Option RangeTreeNode × Text × Text)
regroup u low high none none left_range right_range = done (none, left_range, right_range)
regroup u low high (some l) (some r) left_range right_range =
    let d = (if ltb (depth r) (depth l) then depth l else depth r) + 1 in
    if bytes_equal u high
    then done (some (node right_range l r d), left_range, right_range)
    else if bytes_equal u low
    then done (some (node left_range l r d), left_range, right_range)
    else panic
regroup u low high (some l) none left_range right_range =
    if bytes_equal u high
    then done (some l, left_range, ukey l)
    else if bytes_equal u low
    then done (some (with_ukey left_range l), left_range, ukey l)
    else panic
regroup u low high none (some r) left_range right_range =
    if bytes_equal u high
    then done (some (with_ukey right_range r), ukey r, right_range)
    else if bytes_equal u low
    then done (some r, ukey r, right_range)
    else panic

-- `RangeTreeNode.DeleteRange`
unfoldable pub delete_node :
    Text → Text → Text → Text → RangeTreeNode → Outcome (Option RangeTreeNode × Text × Text)
unfolding regroup
delete_node low range_low range_high high (leaf u) =
    if bytes_equal range_low low && bytes_equal range_high high
    then done (none, low, high)
    else if bytes_equal range_low range_high
    then done (some (leaf u), low, high)
    else if bytes_equal range_high high
    then done (some (leaf (if bytes_equal u high then range_low else u)), low, range_low)
    else if bytes_equal range_low low
    then done (some (leaf (if bytes_equal u low then range_high else u)), range_high, high)
    else done (some (node u (leaf range_low) (leaf range_high) 1), low, high)
delete_node low range_low range_high high (node u l r d) =
    let case_1 = delete_node low range_low (ukey l) (ukey l) l >>= λ left.
    delete_node (ukey r) (ukey r) range_high high r >>= λ right.
    regroup u low high left.0 right.0 left.1 right.2 in
    let case_2 = delete_node low range_low range_high (ukey l) l >>= λ left.
    regroup u low high left.0 (some r) left.1 high in
    let case_3 = delete_node (ukey r) range_low range_high high r >>= λ right.
    regroup u low high (some l) right.0 low right.2 in
    let case_4 = delete_node (ukey r) (ukey r) range_high high r >>= λ right.
    regroup u low high (some l) right.0 low right.2 in
    let case_5 = delete_node low range_low (ukey l) (ukey l) l >>= λ left.
    regroup u low high left.0 (some r) left.1 high in
    let low_in_left = str_in_range range_low low (ukey l) in
    let low_in_gap = str_in_range range_low (ukey l) (ukey r) in
    let high_in_right = str_in_range range_high (ukey r) high in
    let high_in_gap = str_in_range range_high (ukey l) (ukey r) in
    if bytes_equal range_low low && bytes_equal range_high high
    then done (none, low, high)
    else if bytes_equal range_low range_high
    then done (some (node u l r d), low, high)
    else if low_in_left && high_in_right
    then case_1
    else if low_in_left && str_in_range range_high low (ukey l)
    then case_2
    else if str_in_range range_low (ukey r) high && high_in_right
    then case_3
    else if low_in_gap && high_in_right
    then case_4
    else if low_in_left && high_in_gap
    then case_5
    else regroup u low high (some l) (some r) low high

-- `RangeTree.DeleteRange`, which returns no error.
unfoldable pub delete_range : RangeTree → Text → Text → Outcome RangeTree
unfolding delete_node
delete_range t range_low range_high = elim t.root [
  | none ↦ done t
  | some n ↦
      if lt_text range_high range_low
      then done t
      else if lt_text range_high t.start || lt_text t.end range_low
      then done t
      else delete_node t.start (if lt_text range_low t.start then t.start else range_low)
          (if lt_text t.end range_high then t.end else range_high) t.end n
        >>= λ r. done (record { root = r.0; start = r.1; end = r.2 })
]

-- `strings.Split` at one byte: the piece that is being read, then those behind it.
unfoldable pub split_at : ℕ → Text → Text → List Text
split_at sep piece [] = piece ∷ []
split_at sep piece (c ∷ cs) =
    let cut = piece ∷ split_at sep [] cs in
    let go_on = split_at sep (piece ++ c ∷ []) cs in if c == sep then cut else go_on

-- `values` of one piece: the brackets are cut off, and two keys stand around a comma.
unfoldable pub read_pair : Text → Outcome (Text × Text)
unfolding split_at
read_pair [] = panic
read_pair (c ∷ []) = panic
read_pair (c ∷ d ∷ cs) = elim (split_at b',' [] (take (length cs) (d ∷ cs))) [
  | a ∷ b ∷ rest ↦ done (a, b)
  | _ ↦ panic
]

-- `NewRangeTreeFromString`: the pieces are read before the first range is added.
unfoldable pub read_pairs : List Text → Outcome (List (Text × Text))
unfolding read_pair
read_pairs [] = done []
read_pairs (s ∷ ss) = read_pair s >>= λ p. read_pairs ss >>= λ ps. done (p ∷ ps)

unfoldable pub new_range_tree_from_string : Text → Outcome RangeTree
unfolding read_pairs add_ranges split_at
new_range_tree_from_string s = read_pairs (split_at b'+' [] s) >>= add_ranges new_range_tree
