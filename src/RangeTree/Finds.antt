-- ===== src/RangeTree/Finds.antt =====
-- Trees between bounds, by the keys that `Search` finds in them.
use mathlib.Core.Path.{subst}
use melete.Base.{
  ℕ, ◌+◌, ◌≡◌, refl, sym, ap, ap₂, ◌∙◌, Bool, true, ◌||◌, arith, Bool-cases, inl, inr, ltb,
}
use melete.Base.Bytes.{Text, bytes_equal, bytes_equal→eq}
use melete.Base.TextOrder.{le_text, le_text_refl, lt_text-le_text, le_text_trans}
use melete.RangeTree.{
  RangeTreeNode, leaf, node, ukey, depth, with_ukey, str_in_range_right_open, search_node, settle,
  join_children, hang_leaf,
}
use melete.RangeTree.Ordered.{Ordered, search_node-node}

abbrev pub In : Text → Text → Text → Bool
In p low high = str_in_range_right_open p low high

-- Two neighbouring ranges make one.
pub In-join :
    (p a b c : Text) → le_text a b ≡ true → le_text b c ≡ true → (In p a b || In p b c) ≡ In p a c
In-join p a b c h k = ground (arith, lt_text-le_text p a b h, lt_text-le_text p b c k)

-- A tree `t` between bounds, that finds what `found` finds.
pub record Finds (low high : Text) (t : RangeTreeNode) (found : Text → Bool) : Type 0 where
  pub ordered : Ordered low high t
  pub finds : (p : Text) → search_node p low high t ≡ found p

pub with_ukey-Ordered :
    (low high v : Text) (t : RangeTreeNode) → Ordered low high t → Ordered low high (with_ukey v t)
with_ukey-Ordered low high v (leaf u) o = o
with_ukey-Ordered low high v (node u l r d) o = o

pub search_node-with_ukey :
    (p low high v : Text) (t : RangeTreeNode)
    → search_node p low high (with_ukey v t) ≡ search_node p low high t
unfolding search_node
search_node-with_ukey p low high v (leaf u) = refl
search_node-with_ukey p low high v (node u l r d) = refl

pub ukey-with_ukey : (v : Text) (t : RangeTreeNode) → ukey (with_ukey v t) ≡ v
ukey-with_ukey v (leaf u) = refl
ukey-with_ukey v (node u l r d) = refl

-- A higher upper bound lengthens the last range, a lower lower bound the first one.
pub raise_high :
    (low high high' : Text) (t : RangeTreeNode)
    → Ordered low high t
    → le_text high high' ≡ true
    → Finds low high' t (λ p. search_node p low high t || In p high high')
unfolding search_node
raise_high low high high' (leaf u) o h = record {
  ordered = le_text_trans low high high' o h;
  finds = λ p. ground (arith, In-join p low high high' o h);
}
raise_high low high high' (node u l r d) o h =
    let rest = raise_high (ukey r) high high' r o.2 h in
    let o' : Ordered low high' (node u l r d) = (o.0, o.1, rest.ordered) in
    record {
      ordered = o';
      finds = λ p. ground (
        arith,
        search_node-node p low high u l r d o,
        search_node-node p low high' u l r d o',
        rest.finds p,
      );
    }

pub lower_low :
    (low' low high : Text) (t : RangeTreeNode)
    → Ordered low high t
    → le_text low' low ≡ true
    → Finds low' high t (λ p. In p low' low || search_node p low high t)
unfolding search_node
lower_low low' low high (leaf u) o h = record {
  ordered = le_text_trans low' low high h o;
  finds = λ p. ground (arith, In-join p low' low high h o);
}
lower_low low' low high (node u l r d) o h =
    let rest = lower_low low' low (ukey l) l o.0 h in
    let o' : Ordered low' high (node u l r d) = (rest.ordered, o.1, o.2) in
    record {
      ordered = o';
      finds = λ p. ground (
        arith,
        search_node-node p low high u l r d o,
        search_node-node p low' high u l r d o',
        rest.finds p,
      );
    }

-- The same tree under another description of what it finds.
pub finds_also :
    {low high : Text} {t : RangeTreeNode} {f : Text → Bool} (g : Text → Bool)
    → Finds low high t f
    → ((p : Text) → f p ≡ g p)
    → Finds low high t g
finds_also g s e = record { ordered = s.ordered; finds = λ p. s.finds p ∙ e p }

pub keyed :
    {low high : Text} {t : RangeTreeNode} {f : Text → Bool} (v : Text)
    → Finds low high t f
    → Finds low high (with_ukey v t) f
keyed {low} {high} {t} v s = record {
  ordered = with_ukey-Ordered low high v t s.ordered;
  finds = λ p. search_node-with_ukey p low high v t ∙ s.finds p;
}

pub high_at :
    {low high : Text} {t : RangeTreeNode} {f : Text → Bool} (k : Text)
    → Finds low high t f
    → high ≡ k
    → Finds low k t f
high_at {low} {high} {t} {f} k s e = subst (λ h. Finds low h t f) e s

pub low_at :
    {low high : Text} {t : RangeTreeNode} {f : Text → Bool} (k : Text)
    → Finds low high t f
    → low ≡ k
    → Finds k high t f
low_at {low} {high} {t} {f} k s e = subst (λ h. Finds h high t f) e s

-- A node over children that find what `f` and `g` find.
pub node_Finds :
    (low high u : Text) (l r : RangeTreeNode) (d : ℕ) {f g : Text → Bool}
    → Finds low (ukey l) l f
    → le_text (ukey l) (ukey r) ≡ true
    → Finds (ukey r) high r g
    → Finds low high (node u l r d) (λ p. f p || g p)
node_Finds low high u l r d s h t =
    let o : Ordered low high (node u l r d) = (s.ordered, h, t.ordered) in
    record {
      ordered = o;
      finds = λ p. search_node-node p low high u l r d o ∙ ap₂ ◌||◌ (s.finds p) (t.finds p);
    }

pub settle_Finds :
    (low high u : Text) (l r : RangeTreeNode) {f g : Text → Bool}
    → Finds low (ukey l) l f
    → le_text (ukey l) (ukey r) ≡ true
    → Finds (ukey r) high r g
    → Finds low high (settle u l r) (λ p. f p || g p)
unfolding settle search_node
settle_Finds low high u (leaf a) (leaf b) s h t = elim (Bool-cases (bytes_equal a b)) [
  | inl e ↦
      let same = bytes_equal→eq a b e in
      let from_a : le_text a high ≡ true =
        subst (λ k. le_text k high ≡ true) (sym same) t.ordered in
      rw e (record {
        ordered = le_text_trans low a high s.ordered from_a;
        finds = λ p.
            sym (In-join p low a high s.ordered from_a)
            ∙ ap₂ ◌||◌ (s.finds p) (ap (λ k. In p k high) same ∙ t.finds p);
      })
  | inr e ↦ rw e (node_Finds low high u (leaf a) (leaf b) 1 s h t)
]
settle_Finds low high u (leaf a) (node b rl rr d) s h t = node_Finds low high u _ _ _ s h t
settle_Finds low high u (node a ll lr d) r s h t = node_Finds low high u _ r _ s h t

pub ukey-settle : (u : Text) (l r : RangeTreeNode) → ukey (settle u l r) ≡ u
unfolding settle
ukey-settle u (leaf a) (leaf b) = ground arith
ukey-settle u (leaf a) (node b rl rr d) = refl
ukey-settle u (node a ll lr d) r = refl

-- The gap between the children is filled.
pub join_children_Finds :
    (low high u : Text) (l r : RangeTreeNode) {f g : Text → Bool}
    → Finds low (ukey l) l f
    → le_text (ukey l) (ukey r) ≡ true
    → Finds (ukey r) high r g
    → Finds low high (join_children u l r) (λ p. (f p || In p (ukey l) (ukey r)) || g p)
unfolding join_children
join_children_Finds low high u l r {f} {g} s h t = elim (Bool-cases (ltb (depth l) (depth r))) [
  | inl e ↦
      let wide = raise_high low (ukey l) (ukey r) l s.ordered h in
      let l' = with_ukey (ukey r) l in
      let e' = sym (ukey-with_ukey (ukey r) l) in
      rw e (
        settle_Finds low high u l' r
          (high_at (ukey l')
            (finds_also (λ p. f p || In p (ukey l) (ukey r)) (keyed (ukey r) wide)
              (λ p. ap (λ b. b || In p (ukey l) (ukey r)) (s.finds p)))
            e')
          (rw (← e') (le_text_refl (ukey r))) t)
  | inr e ↦
      let wide = lower_low (ukey l) (ukey r) high r t.ordered h in
      let r' = with_ukey (ukey l) r in
      let e' = sym (ukey-with_ukey (ukey l) r) in
      rw e (
        finds_also (λ p. (f p || In p (ukey l) (ukey r)) || g p)
          (settle_Finds low high u l r' s (rw (← e') (le_text_refl (ukey l)))
            (low_at (ukey r') (keyed (ukey l) wide) e'))
          (λ p. ground (arith, t.finds p)))
]

pub hang_leaf_Finds :
    (low high u : Text) (l r : RangeTreeNode) (range_low range_high : Text) {f g : Text → Bool}
    → Finds low (ukey l) l f
    → le_text (ukey l) range_low ≡ true
    → le_text range_low range_high ≡ true
    → le_text range_high (ukey r) ≡ true
    → Finds (ukey r) high r g
    → Finds low high
        (hang_leaf u l r range_low range_high)
        (λ p. (f p || In p range_low range_high) || g p)
unfolding hang_leaf search_node
hang_leaf_Finds low high u l r range_low range_high {f} {g} s h j k t =
    elim (Bool-cases (ltb (depth l) (depth r))) [
      | inl e ↦ rw e (
          settle_Finds low high u (node range_high l (leaf range_low) _) r
            (node_Finds low range_high range_high l (leaf range_low) _ s h
              (record { ordered = j; finds = λ p. refl }))
            k t)
      | inr e ↦ rw e (
          finds_also (λ p. (f p || In p range_low range_high) || g p)
            (settle_Finds low high u l (node range_low (leaf range_high) r _) s h (
              node_Finds range_low high range_low (leaf range_high) r _
                (record { ordered = j; finds = λ p. refl }) k t))
            (λ p. ground arith))
    ]

pub ukey-join_children : (u : Text) (l r : RangeTreeNode) → ukey (join_children u l r) ≡ u
unfolding join_children
ukey-join_children u l r = elim (Bool-cases (ltb (depth l) (depth r))) [
  | inl e ↦ rw e (ukey-settle u _ r)
  | inr e ↦ rw e (ukey-settle u l _)
]

pub ukey-hang_leaf :
    (u : Text) (l r : RangeTreeNode) (range_low range_high : Text)
    → ukey (hang_leaf u l r range_low range_high) ≡ u
unfolding hang_leaf
ukey-hang_leaf u l r range_low range_high = elim (Bool-cases (ltb (depth l) (depth r))) [
  | inl e ↦ rw e (ukey-settle u (node range_high l (leaf range_low) (depth l + 1)) r)
  | inr e ↦ rw e (ukey-settle u l (node range_low (leaf range_high) r (depth r + 1)))
]
