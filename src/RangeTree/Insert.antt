-- ===== src/RangeTree/Insert.antt =====
-- `RangeTree.AddRange` on whole trees.
use melete.Base.{
  ◌+◌, ◌≡◌, refl, ap, sym, ◌∙◌, true, false, ◌||◌, Option, none, some, arith, Bool-cases, inl, inr,
  ◌⊎◌,
}
use melete.Base.Bytes.{Text}
use melete.Base.Outcome.{done}
use melete.Base.TextOrder.{
  lt_text, le_text, le_text_refl, lt_text-le_text, lt_text_trans, lt_text_irrefl,
}
use melete.RangeTree.{
  RangeTree, RangeTreeNode, leaf, node, ukey, depth, with_ukey, search_node, search_tree, add_range,
  add_node,
}
use melete.RangeTree.Ordered.{Ordered}
use melete.RangeTree.Grow.{add_node_lem}
use melete.RangeTree.Finds.{
  In, Finds, raise_high, lower_low, node_Finds, keyed, high_at, low_at, finds_also, ukey-with_ukey,
}
use melete.RangeTree.Covers.{IsOrdered}

-- What `AddRange` gives on a tree: a tree in order that finds what was found and the range.
abbrev pub Grown : RangeTree → Text → Text → Type 0
Grown t low high =
    (t' : RangeTree) × (add_range t low high ≡ done t')
    × IsOrdered t'
    × ((p : Text) → search_tree t' p ≡ (search_tree t p || In p low high))

empty_In : (p low high : Text) → lt_text high low ≡ true → In p low high ≡ false
empty_In p low high h = ground (arith, lt_text_trans p high low, lt_text_trans high low p)

-- A new root between `start` and `end`.
rooted :
    (t : RangeTree) (low high start end : Text) (n : RangeTreeNode)
    → add_range t low high ≡ done (record { start = start; end = end; root = some n })
    → ukey n ≡ end
    → Finds start end n (λ p. search_tree t p || In p low high)
    → Grown t low high
rooted t low high start end n e k s = (
  record { start = start; end = end; root = some n },
  e,
  (s.ordered, k),
  λ p. unfold search_tree in s.finds p,
)

lt→le : (a b : Text) → lt_text a b ≡ true → le_text a b ≡ true
lt→le a b h = ground (arith, lt_text_trans a b a, lt_text_irrefl a)

module _ (low high start end : Text) (n : RangeTreeNode) (o : Ordered start end n) where
  abbrev t : RangeTree
  t = record { start = start; end = end; root = some n }

  found : (p : Text) → search_node p start end n ≡ search_tree t p
  unfolding search_tree
  found p = refl

  before :
      le_text low high ≡ true
      → lt_text high start ≡ true
      → Finds low end
          (node end (leaf high) (with_ukey start n) (depth n + 1))
          (λ p. search_tree t p || In p low high)
  before h e =
      let n' = with_ukey start n in
      let k = ukey-with_ukey start n in
      let first : Finds low high (leaf high) (λ p. In p low high) = record {
        ordered = h;
        finds = λ p. unfold search_node in refl;
      } in
      finds_also _
        (node_Finds low end end (leaf high) n' (depth n + 1) first (rw k (lt→le high start e))
          (low_at (ukey n') (keyed start (record { ordered = o; finds = found })) (sym k)))
        (λ p. ground arith)

  behind :
      le_text low high ≡ true
      → ukey n ≡ end
      → lt_text end low ≡ true
      → Finds start high
          (node high n (leaf low) (depth n + 1))
          (λ p. search_tree t p || In p low high)
  behind h k e =
      node_Finds start high high n (leaf low) (depth n + 1)
        (high_at (ukey n) (record { ordered = o; finds = found }) (sym k)) (rw k (lt→le end low e))
        (record { ordered = h; finds = λ p. unfold search_node in refl })

  -- The bounds moved outwards, by keys that lie in the new range.
  stretched :
      (start' end' : Text)
      → le_text start' start ≡ true
      → le_text end end' ≡ true
      → Finds start' end' n (λ p. (In p start' start || search_tree t p) || In p end end')
  stretched start' end' h k =
      let low_first = lower_low start' start end n o h in
      let both = raise_high start' end end' n low_first.ordered k in
      finds_also _ both (λ p.
        ap (λ b. b || In p end end')
          (low_first.finds p ∙ ap (λ b. In p start' start || b) (found p)))

  -- A range that meets the others: the root takes it.
  meeting :
      (start' end' : Text) (n' : RangeTreeNode)
      → le_text start' start ≡ true
      → le_text end end' ≡ true
      → ((p : Text) → In p start' start ≡ true → In p low high ≡ true)
      → ((p : Text) → In p end end' ≡ true → In p low high ≡ true)
      → (v : Text) → (n' ≡ n) ⊎ (n' ≡ with_ukey v n)
      → le_text start' low ≡ true
      → le_text low high ≡ true
      → le_text high end' ≡ true
      → (r : RangeTreeNode) × (add_node start' low high end' n' ≡ done r)
        × (ukey r ≡ ukey n')
        × Finds start' end' r (λ p. search_tree t p || In p low high)
  meeting start' end' n' h k f g v m a b c =
      let s = stretched start' end' h k in
      let w : Finds start' end' n' (λ p. (In p start' start || search_tree t p) || In p end end') =
        same m s in
      let (r, e, added) = add_node_lem start' low high end' n' w.ordered a b c in
      (r, e, added.key, finds_also _ added.found_in (λ p. ground (arith, w.finds p, f p, g p)))
    where
      same :
          (n' ≡ n) ⊎ (n' ≡ with_ukey v n)
          → Finds start' end' n (λ p. (In p start' start || search_tree t p) || In p end end')
          → Finds start' end' n' (λ p. (In p start' start || search_tree t p) || In p end end')
      same (inl e) s = rw e s
      same (inr e) s = rw e (keyed v s)

-- A range that meets the others, by whether it reaches below or above them.
overlaps :
    (low high start end : Text) (n : RangeTreeNode)
    → Ordered start end n × (ukey n ≡ end)
    → lt_text high low ≡ false
    → lt_text high start ≡ false
    → lt_text end low ≡ false
    → Grown (record { start = start; end = end; root = some n }) low high
overlaps low high start end n (o, k) h e1 e2 = elim (Bool-cases (lt_text end high)) [
  | inl longer ↦ elim (Bool-cases (lt_text low start)) [
    | inl lower ↦
        let (r, e, key, s) =
          reach low high (with_ukey high n) (lt→le low start lower) (lt→le end high longer) below
            above (inr refl) (le_text_refl low) (rw h) (le_text_refl high) in
        rooted _ low high low high r (unfold add_range in rw (h, e1, e2, longer, lower, e))
          (key ∙ ukey-with_ukey high n) s
    | inr higher ↦
        let (r, e, key, s) =
          reach start high (with_ukey high n) (le_text_refl start) (lt→le end high longer)
            (nothing start) above (inr refl) (rw higher) (rw h) (le_text_refl high) in
        rooted _ low high start high r (unfold add_range in rw (h, e1, e2, longer, higher, e))
          (key ∙ ukey-with_ukey high n) s
  ]
  | inr shorter ↦ elim (Bool-cases (lt_text low start)) [
    | inl lower ↦
        let (r, e, key, s) =
          reach low end n (lt→le low start lower) (le_text_refl end) below (nothing end) (inl refl)
            (le_text_refl low) (rw h) (rw shorter) in
        rooted _ low high low end r (unfold add_range in rw (h, e1, e2, shorter, lower, e))
          (key ∙ k) s
    | inr higher ↦
        let (r, e, key, s) =
          reach start end n (le_text_refl start) (le_text_refl end) (nothing start) (nothing end)
            (inl refl) (rw higher) (rw h) (rw shorter) in
        rooted _ low high start end r (unfold add_range in rw (h, e1, e2, shorter, higher, e))
          (key ∙ k) s
  ]
]
  where
    below : (p : Text) → In p low start ≡ true → In p low high ≡ true
    below p = ground (arith, lt_text-le_text p start high)

    above : (p : Text) → In p end high ≡ true → In p low high ≡ true
    above p = ground (arith, lt_text-le_text p low end)

    nothing : (a p : Text) → In p a a ≡ true → In p low high ≡ true
    nothing a p = ground arith

    reach :
        (start' end' : Text) (n' : RangeTreeNode)
        → le_text start' start ≡ true
        → le_text end end' ≡ true
        → ((p : Text) → In p start' start ≡ true → In p low high ≡ true)
        → ((p : Text) → In p end end' ≡ true → In p low high ≡ true)
        → (n' ≡ n) ⊎ (n' ≡ with_ukey high n)
        → le_text start' low ≡ true
        → le_text low high ≡ true
        → le_text high end' ≡ true
        → (r : RangeTreeNode) × (add_node start' low high end' n' ≡ done r)
          × (ukey r ≡ ukey n')
          × Finds start' end' r (λ p.
            search_tree (record { start = start; end = end; root = some n }) p || In p low high)
    reach start' end' n' a b f g m = meeting low high start end n o start' end' n' a b f g high m

proper :
    (low high start end : Text) (root : Option RangeTreeNode)
    → IsOrdered (record { start = start; end = end; root = root })
    → lt_text high low ≡ false
    → Grown (record { start = start; end = end; root = root }) low high
proper low high start end none o h =
    rooted _ low high low high (leaf high) (unfold add_range in rw h) refl
      (record { ordered = rw h; finds = λ p. unfold search_node search_tree in refl })
proper low high start end (some n) o h = elim (Bool-cases (lt_text high start)) [
  | inl e ↦
      rooted _ low high low end (node end (leaf high) (with_ukey start n) (depth n + 1))
        (unfold add_range in rw (h, e)) refl (before low high start end n o.0 (rw h) e)
  | inr e1 ↦ elim (Bool-cases (lt_text end low)) [
    | inl e2 ↦
        rooted _ low high start high (node high n (leaf low) (depth n + 1))
          (unfold add_range in rw (h, e1, e2)) refl (behind low high start end n o.0 (rw h) o.1 e2)
    | inr e2 ↦ overlaps low high start end n o h e1 e2
  ]
]

-- `AddRange` on an ordered tree returns without a panic an ordered tree, in which `Search` finds the
-- keys that it found before and those from the range's low end on and below its high end.
pub add_range_lem : (t : RangeTree) (low high : Text) → IsOrdered t → Grown t low high
add_range_lem t low high o = elim (Bool-cases (lt_text high low)) [
  | inl empty ↦
      (t, unfold add_range in rw empty, o, λ p. rw (empty_In p low high empty) (ground arith))
  | inr h ↦ proper low high t.start t.end t.root o h
]
