-- ===== src/RangeTree/Grow.antt =====
-- `RangeTreeNode.AddRange`: it returns, keeps the keys in order, and finds what was found before and
-- the new range.
use melete.Base.{ℕ, ◌≡◌, refl, sym, Bool, true, false, ◌&&◌, ◌||◌, arith, Bool-cases, inl, inr}
use melete.Base.Bytes.{Text}
use melete.Base.Outcome.{done}
use melete.Base.TextOrder.{le_text, le_text_refl, lt_text-le_text, le_text_trans, le_text_total}
use melete.RangeTree.{
  RangeTreeNode, leaf, node, ukey, with_ukey, str_in_range, search_node, settle, join_children,
  hang_leaf, add_node,
}
use melete.RangeTree.Ordered.{Ordered, search_node-node}
use melete.RangeTree.Finds.{
  In, Finds, In-join, ukey-with_ukey, raise_high, lower_low, finds_also, keyed, high_at, low_at,
  settle_Finds, ukey-settle, join_children_Finds, hang_leaf_Finds, ukey-join_children,
  ukey-hang_leaf,
}

-- A tree with the key `u` that finds what `found` finds.
pub record Keyed (u low high : Text) (t : RangeTreeNode) (found : Text → Bool) : Type 0 where
  pub key : ukey t ≡ u
  pub found_in : Finds low high t found

-- What `AddRange` gives: a node with the same key, that finds what was found and the range.
abbrev pub Added : Text → Text → Text → Text → RangeTreeNode → Type 0
Added low range_low range_high high t =
    (t' : RangeTreeNode) × (add_node low range_low range_high high t ≡ done t')
    × Keyed (ukey t) low high t' (λ p. search_node p low high t || In p range_low range_high)

module _ (u low range_low range_high high : Text) (l r : RangeTreeNode) (d : ℕ)
    (o : Ordered low high (node u l r d)) (k : le_text range_low range_high ≡ true) where
  abbrev Within : RangeTreeNode → Type 0
  Within t =
      Keyed u low high t (λ p. search_node p low high (node u l r d) || In p range_low range_high)

  -- Case 1: a range that begins in the left child and ends in the right one.
  across :
      le_text range_low (ukey l) ≡ true
      → le_text (ukey r) range_high ≡ true
      → (a : Added low range_low (ukey l) (ukey l) l)
      → (b : Added (ukey r) (ukey r) range_high high r) → Within (join_children u a.0 b.0)
  across h j (l', el, kl) (r', er, kr) = record {
    key = ukey-join_children u l' r';
    found_in =
        finds_also _
          (join_children_Finds low high u l' r' (high_at (ukey l') kl.found_in (sym kl.key))
            (rw (kl.key, kr.key) o.1) (low_at (ukey r') kr.found_in (sym kr.key)))
          (λ p.
            rw (kl.key, kr.key)
              (ground (
                arith,
                search_node-node p low high u l r d o,
                In-join p range_low (ukey l) (ukey r) h o.1,
                In-join p range_low (ukey r) range_high (le_text_trans _ _ _ h o.1) j,
              )));
  }

  -- Cases 2 and 5: a range that begins in the left child and ends at `top` at most.
  in_left :
      (top : Text) (l' : RangeTreeNode) {f : Text → Bool}
      → Keyed top low top l' f
      → le_text top (ukey r) ≡ true
      → ((p : Text) → f p ≡ (search_node p low (ukey l) l || In p range_low range_high))
      → Within (settle u l' r)
  in_left top l' s h same = record {
    key = ukey-settle u l' r;
    found_in =
        finds_also _
          (settle_Finds low high u l' r (high_at (ukey l') s.found_in (sym s.key)) (rw s.key h)
            (record { ordered = o.2; finds = λ p. refl }))
          (λ p. ground (arith, search_node-node p low high u l r d o, same p));
  }

  -- Cases 3 and 4: a range that begins at `bottom` or above and ends in the right child.
  in_right :
      (bottom : Text) (r' : RangeTreeNode) {f : Text → Bool}
      → Keyed bottom bottom high r' f
      → le_text (ukey l) bottom ≡ true
      → ((p : Text) → f p ≡ (search_node p (ukey r) high r || In p range_low range_high))
      → Within (settle u l r')
  in_right bottom r' s h same = record {
    key = ukey-settle u l r';
    found_in =
        finds_also _
          (settle_Finds low high u l r' (record { ordered = o.0; finds = λ p. refl }) (rw s.key h)
            (low_at (ukey r') s.found_in (sym s.key)))
          (λ p. ground (arith, search_node-node p low high u l r d o, same p));
  }

  -- Case 4, where the right child is lengthened to begin at the range.
  over_low :
      le_text (ukey l) range_low ≡ true
      → le_text range_low (ukey r) ≡ true
      → le_text (ukey r) range_high ≡ true
      → (Ordered range_low high r → Added range_low range_low range_high high r)
      → (r' : RangeTreeNode) × (add_node range_low range_low range_high high r ≡ done r')
        × Within (settle u l (with_ukey range_low r'))
  over_low g h j add =
      let wide = lower_low range_low (ukey r) high r o.2 h in
      let (r', e, s) = add wide.ordered in
      (
        r',
        e,
        in_right range_low (with_ukey range_low r')
            (record { key = ukey-with_ukey range_low r'; found_in = keyed range_low s.found_in }) g
            (λ p. ground (arith, wide.finds p, In-join p range_low (ukey r) range_high h j)),
      )

  -- Case 5, where the left child is lengthened to end at the range.
  over_high :
      le_text range_low (ukey l) ≡ true
      → le_text (ukey l) range_high ≡ true
      → le_text range_high (ukey r) ≡ true
      → (Ordered low range_high l → Added low range_low range_high range_high l)
      → (l' : RangeTreeNode) × (add_node low range_low range_high range_high l ≡ done l')
        × Within (settle u (with_ukey range_high l') r)
  over_high g h j add =
      let wide = raise_high low (ukey l) range_high l o.0 h in
      let (l', e, s) = add wide.ordered in
      (
        l',
        e,
        in_left range_high (with_ukey range_high l')
            (record { key = ukey-with_ukey range_high l'; found_in = keyed range_high s.found_in })
            j (λ p. ground (arith, wide.finds p, In-join p range_low (ukey l) range_high g h)),
      )

  -- Case 6: a range in the gap.
  in_gap :
      le_text (ukey l) range_low ≡ true
      → le_text range_high (ukey r) ≡ true
      → Within (hang_leaf u l r range_low range_high)
  in_gap h j = record {
    key = ukey-hang_leaf u l r range_low range_high;
    found_in =
        finds_also _
          (hang_leaf_Finds low high u l r range_low range_high
            (record { ordered = o.0; finds = λ p. refl }) h k j
            (record { ordered = o.2; finds = λ p. refl }))
          (λ p. ground (arith, search_node-node p low high u l r d o));
  }

-- What a test on two ends says.
ends :
    (s t low mid top high : Text)
    → (str_in_range s low mid && str_in_range t top high) ≡ true
    → (le_text low s ≡ true)
      × (le_text s mid ≡ true)
      × (le_text top t ≡ true)
      × (le_text t high ≡ true)
ends s t low mid top high h = ground arith

-- Where none of the first five cases applies, both ends lie in the gap.
outside_cases :
    (rl rh low high ul ur : Text)
    → le_text low rl ≡ true
    → le_text rl rh ≡ true
    → le_text rh high ≡ true
    → (str_in_range rl low ul && str_in_range rh ur high) ≡ false
    → (str_in_range rl low ul && str_in_range rh low ul) ≡ false
    → (str_in_range rl ur high && str_in_range rh ur high) ≡ false
    → (str_in_range rl ul ur && str_in_range rh ur high) ≡ false
    → (str_in_range rl low ul && str_in_range rh ul ur) ≡ false
    → (str_in_range rl ul ur && str_in_range rh ul ur) ≡ true
outside_cases rl rh low high ul ur a b c n1 n2 n3 n4 n5 = ground (
  arith,
  le_text_total rl ul,
  le_text_total rl ur,
  le_text_total rh ul,
  le_text_total rh ur,
  le_text_trans rl rh ul b,
  le_text_trans rl rh ur b,
  le_text_trans low rl rh a b,
  le_text_trans rl rh high b c,
)

-- `AddRange` with a range between the bounds returns a node with the same key, in order, that finds
-- what was found and what lies in the range.
pub add_node_lem :
    (low range_low range_high high : Text) (t : RangeTreeNode)
    → Ordered low high t
    → le_text low range_low ≡ true
    → le_text range_low range_high ≡ true
    → le_text range_high high ≡ true
    → Added low range_low range_high high t
unfolding add_node
add_node_lem low rl rh high (leaf u) o a b c = (
  leaf u,
  refl,
  record {
    key = refl;
    found_in = record {
      ordered = o;
      finds = λ p.
          unfold search_node in
          ground (arith, lt_text-le_text p low rl a, lt_text-le_text p rh high c);
    };
  },
)
add_node_lem low rl rh high (node u l r d) o a b c =
    elim (Bool-cases (str_in_range rl low (ukey l) && str_in_range rh (ukey r) high)) [
      | inl c1 ↦
          let e = ends rl rh low (ukey l) (ukey r) high c1 in
          let left = add_node_lem low rl (ukey l) (ukey l) l o.0 a e.1 (le_text_refl (ukey l)) in
          let right = add_node_lem (ukey r) (ukey r) rh high r o.2 (le_text_refl (ukey r)) e.2 c in
          (
            join_children u left.0 right.0,
            rw (c1, left.1, right.1),
            across u low rl rh high l r d o b e.1 e.2 left right,
          )
      | inr n1 ↦ elim (Bool-cases (str_in_range rl low (ukey l) && str_in_range rh low (ukey l))) [
        | inl c2 ↦
            let left =
              add_node_lem low rl rh (ukey l) l o.0 a b
                (ends rl rh low (ukey l) low (ukey l) c2).3 in
            (
              settle u left.0 r,
              rw (n1, c2, left.1),
              in_left u low rl rh high l r d o b (ukey l) left.0 left.2 o.1 (λ p. refl),
            )
        | inr n2 ↦
            elim (Bool-cases (str_in_range rl (ukey r) high && str_in_range rh (ukey r) high)) [
              | inl c3 ↦
                  let right =
                    add_node_lem (ukey r) rl rh high r o.2
                      (ends rl rh (ukey r) high (ukey r) high c3).0 b c in
                  (
                    settle u l right.0,
                    rw (n1, n2, c3, right.1),
                    in_right u low rl rh high l r d o b (ukey r) right.0 right.2 o.1 (λ p. refl),
                  )
              | inr n3 ↦
                  elim (Bool-cases
                    (str_in_range rl (ukey l) (ukey r) && str_in_range rh (ukey r) high)) [
                      | inl c4 ↦
                          let e = ends rl rh (ukey l) (ukey r) (ukey r) high c4 in
                          let right =
                            over_low u low rl rh high l r d o b e.0 e.1 e.2
                              (λ w. add_node_lem rl rl rh high r w (le_text_refl rl) b c) in
                          (settle u l (with_ukey rl right.0), rw (n1, n2, n3, c4, right.1), right.2)
                      | inr n4 ↦
                          elim (Bool-cases
                            (str_in_range rl low (ukey l) && str_in_range rh (ukey l) (ukey r))) [
                              | inl c5 ↦
                                  let e = ends rl rh low (ukey l) (ukey l) (ukey r) c5 in
                                  let left =
                                    over_high u low rl rh high l r d o b e.1 e.2 e.3
                                      (λ w. add_node_lem low rl rh rh l w a b (le_text_refl rh)) in
                                  (
                                    settle u (with_ukey rh left.0) r,
                                    rw (n1, n2, n3, n4, c5, left.1),
                                    left.2,
                                  )
                              | inr n5 ↦
                                  let c6 =
                                    outside_cases rl rh low high (ukey l) (ukey r) a b c n1 n2 n3 n4
                                      n5 in
                                  let e = ends rl rh (ukey l) (ukey r) (ukey l) (ukey r) c6 in
                                  (
                                    hang_leaf u l r rl rh,
                                    rw (n1, n2, n3, n4, n5, c6),
                                    in_gap u low rl rh high l r d o b e.0 e.3,
                                  )
                            ]
                    ]
            ]
      ]
    ]
