-- ===== src/RangeTree.antt =====
-- utils/RangeTree.go: the ranges of keys that a shard is in charge of, as a binary tree whose nodes
-- hold the key at which their range meets the gap beside it.
pub mod Delete
pub mod Ordered
pub mod Finds
pub mod Grow
pub mod Covers
pub mod Insert
pub mod Laws
mod Tests
use melete.Base.{
  ℕ, ◌+◌, List, [], ◌∷◌, ◌++◌, Option, none, some, Bool, true, false, not, ◌&&◌, if◌then◌else◌, ltb,
  ◌==◌, ◌||◌, take, length,
}
use melete.Base.Bytes.{Text, bytes_equal}
use melete.Base.Outcome.{Outcome, done, panic, ◌>>=◌}
use melete.Base.TextOrder.{lt_text, le_text}

-- A node with no left child is a leaf; the code gives a node two children or none, and a leaf the
-- depth 0.
pub data RangeTreeNode : Type 0 where
  leaf : Text → RangeTreeNode
  node : Text → RangeTreeNode → RangeTreeNode → ℕ → RangeTreeNode

-- The fields `Ukey` and `depth`.
abbrev pub ukey : RangeTreeNode → Text
ukey (leaf u) = u
ukey (node u l r d) = u

abbrev pub depth : RangeTreeNode → ℕ
depth (leaf u) = 0
depth (node u l r d) = d

abbrev pub with_ukey : Text → RangeTreeNode → RangeTreeNode
with_ukey v (leaf u) = leaf v
with_ukey v (node u l r d) = node v l r d

pub record RangeTree : Type 0 where
  pub start : Text
  pub end : Text
  pub root : Option RangeTreeNode

-- `strInRange` and `strInRangeRightOpen`
abbrev pub str_in_range : Text → Text → Text → Bool
str_in_range s u v = le_text u s && le_text s v

abbrev pub str_in_range_right_open : Text → Text → Text → Bool
str_in_range_right_open s u v = le_text u s && lt_text s v

abbrev pub new_range_tree : RangeTree
new_range_tree = record { start = []; end = []; root = none }

-- `RangeTreeNode.Search`
unfoldable pub search_node : Text → Text → Text → RangeTreeNode → Bool
search_node p low high (leaf u) = str_in_range_right_open p low high
search_node p low high (node u l r d) =
    let in_left = search_node p low (ukey l) l in
    let in_right = search_node p (ukey r) high r in
    if lt_text p (ukey l) then in_left else if le_text (ukey r) p then in_right else false

-- `RangeTree.Search`
unfoldable pub search_tree : RangeTree → Text → Bool
search_tree t p = elim t.root [ none ↦ false | some n ↦ search_node p t.start t.end n ]

-- `RangeTreeNode.Range`, the output list first.
unfoldable pub range_node : List (Text × Text) → Text → Text → RangeTreeNode → List (Text × Text)
range_node out start end (leaf u) = out ++ (start, end) ∷ []
range_node out start end (node u l r d) =
    range_node (range_node out start (ukey l) l) (ukey r) end r

-- `RangeTree.Range`
unfoldable pub range_tree : RangeTree → List (Text × Text)
range_tree t = elim t.root [ none ↦ [] | some n ↦ range_node [] t.start t.end n ]

-- The deferred function of `RangeTreeNode.AddRange`, on a node with children.
unfoldable pub settle : Text → RangeTreeNode → RangeTreeNode → RangeTreeNode
settle u (leaf a) (leaf b) = if bytes_equal a b then leaf u else node u (leaf a) (leaf b) 1
settle u l r = node u l r ((if ltb (depth r) (depth l) then depth l else depth r) + 1)

-- The children after case 1, in which the gap is filled from the deeper child.
unfoldable pub join_children : Text → RangeTreeNode → RangeTreeNode → RangeTreeNode
unfolding settle
join_children u l r =
    if ltb (depth l) (depth r)
    then settle u (with_ukey (ukey r) l) r
    else settle u l (with_ukey (ukey l) r)

-- The children after case 6, in which the new range goes to the child that is not deeper.
unfoldable pub hang_leaf : Text → RangeTreeNode → RangeTreeNode → Text → Text → RangeTreeNode
unfolding settle
hang_leaf u l r range_low range_high =
    if ltb (depth l) (depth r)
    then settle u (node range_high l (leaf range_low) (depth l + 1)) r
    else settle u l (node range_low (leaf range_high) r (depth r + 1))

-- `RangeTreeNode.AddRange`. It neither reads nor writes the node's own key, so the cases 4 and 5
-- set a child's key after the call.
unfoldable pub add_node : Text → Text → Text → Text → RangeTreeNode → Outcome RangeTreeNode
unfolding join_children hang_leaf settle
add_node low range_low range_high high (leaf u) = done (leaf u)
add_node low range_low range_high high (node u l r d) =
    let case_1 = add_node low range_low (ukey l) (ukey l) l >>= λ l'.
    add_node (ukey r) (ukey r) range_high high r >>= λ r'. done (join_children u l' r') in
    let case_2 = add_node low range_low range_high (ukey l) l >>= λ l'. done (settle u l' r) in
    let case_3 = add_node (ukey r) range_low range_high high r >>= λ r'. done (settle u l r') in
    let case_4 = add_node range_low range_low range_high high r >>= λ r'.
    done (settle u l (with_ukey range_low r')) in
    let case_5 = add_node low range_low range_high range_high l >>= λ l'.
    done (settle u (with_ukey range_high l') r) in
    let low_in_left = str_in_range range_low low (ukey l) in
    let low_in_gap = str_in_range range_low (ukey l) (ukey r) in
    let high_in_right = str_in_range range_high (ukey r) high in
    let high_in_gap = str_in_range range_high (ukey l) (ukey r) in
    if low_in_left && high_in_right
    then case_1
    else if low_in_left && str_in_range range_high low (ukey l)
    then case_2
    else if str_in_range range_low (ukey r) high && high_in_right
    then case_3
    else if low_in_gap && high_in_right
    then case_4
    else if low_in_left && high_in_gap
    then case_5
    else if low_in_gap && high_in_gap
    then done (hang_leaf u l r range_low range_high)
    else panic

-- `RangeTree.AddRange`, which returns no error.
unfoldable pub add_range : RangeTree → Text → Text → Outcome RangeTree
unfolding add_node
add_range t range_low range_high = if lt_text range_high range_low then done t else elim t.root [
  | none ↦ done (record { start = range_low; end = range_high; root = some (leaf range_high) })
  | some n ↦
      if lt_text range_high t.start
      then done (record t {
        start = range_low;
        root = some (node t.end (leaf range_high) (with_ukey t.start n) (depth n + 1));
      })
      else if lt_text t.end range_low
      then done (record t {
        end = range_high;
        root = some (node range_high n (leaf range_low) (depth n + 1));
      })
      else let end = if lt_text t.end range_high then range_high else t.end in
        let start = if lt_text range_low t.start then range_low else t.start in
        let root = if lt_text t.end range_high then with_ukey range_high n else n in
        add_node start range_low range_high end root >>= λ n'.
        done (record { start = start; end = end; root = some n' })
]

-- The loop of `Add` and of `NewRangeTreeFromString`.
unfoldable pub add_ranges : RangeTree → List (Text × Text) → Outcome RangeTree
unfolding add_range
add_ranges t [] = done t
add_ranges t ((low, high) ∷ pairs) = add_range t low high >>= λ t'. add_ranges t' pairs

-- `Add`
unfoldable pub add_tree : RangeTree → RangeTree → Outcome RangeTree
unfolding add_ranges range_tree
add_tree t other = add_ranges t (range_tree other)
