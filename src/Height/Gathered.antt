-- ===== src/Height/Gathered.antt =====
-- The parts of a block one after the other, in the data of a height.
use melete.Base.{
  ℕ, zero, suc, ◌<◌, ◌≡◌, ◌⊎◌, refl, ap, ◌∙◌, sym, List, [], ◌∷◌, some, length, get_elem?, inl, inr,
}
use mathlib.Core.Path.{subst}
use melete.Base.Bytes.{Bytes, Text}
use melete.Base.Outcome.{done, ◌>>=◌}
use melete.Base.Table.{bytes_eq}
use melete.Merkle.{HashFunction, Collision}
use melete.Block.{Block, Codec}
use melete.Signer.{Bls}
use melete.PartSet.{Part, PartSetHeader, PartSet}
use melete.PartSet.Slots.{IsThere}
use melete.PartSet.Receive.{AllValid, validate_part_index}
use melete.PartSet.Places.{Genuine}
use melete.Height.{HeightData, Wire}
use melete.Height.Receive.{add_inner_part, add_parts}
use melete.Height.Frame.{SameFrame, SameFrame-refl, SameFrame-trans}
use melete.Height.Collecting.{InPieces, Collecting, Moved, add_inner_part-Moved}

-- Parts of one shard.
abbrev pub AllOf : Text → List Part → Type 0
AllOf chain [] = Unit {0}
AllOf chain (p ∷ ps) = (p.chain_id ≡ chain) × AllOf chain ps

module _ (b : Bls) (f : HashFunction) (c : Codec) (w : Wire) where
  module _ (block : Block) (items : List Bytes) (chain : Text)
      (pieces : InPieces b f c w block items) where
    -- The data after some parts: the set that collects them, and for each part for a slot that came,
    -- the slot is filled.
    pub record Gathered (h : HeightData b) (ps : PartSet) (parts : List Part) : Type 0 where
      pub after : HeightData b
      pub returned : add_parts b f c w h parts ≡ done after
      pub parts_set : PartSet
      pub same_header : parts_set.header ≡ ps.header
      pub same_frame : SameFrame b h after
      pub collecting : Collecting b f c w block items chain after parts_set
      pub keeps : (j : ℕ) → IsThere ps.parts j → IsThere parts_set.parts j
      pub fills :
          (k : ℕ) (p : Part) (j : ℕ)
          → get_elem? parts k ≡ some p
          → j < length items
          → Genuine f ps.header p j
          → h.height ≡ ps.header.height
          → h.round ≡ ps.header.round
          → IsThere parts_set.parts j

    gather :
        (h : HeightData b) (ps : PartSet) (p : Part) (parts : List Part)
        → (m : Moved b f c w block items chain h ps p (add_inner_part b f c w h p))
        → Gathered m.after m.parts_set parts
        → Gathered h ps (p ∷ parts)
    unfolding add_parts
    gather h ps p parts m rest = record {
      after = rest.after;
      returned = ap (λ o. o >>= λ r. add_parts b f c w r.0 parts) m.returned ∙ rest.returned;
      parts_set = rest.parts_set;
      same_header = rest.same_header ∙ m.same_header;
      same_frame = SameFrame-trans b h m.after rest.after m.same_frame rest.same_frame;
      collecting = rest.collecting;
      keeps = λ j there. rest.keeps j (m.keeps j there);
      fills = filled;
    }
      where
        filled :
            (k : ℕ) (q : Part) (j : ℕ)
            → get_elem? (p ∷ parts) k ≡ some q
            → j < length items
            → Genuine f ps.header q j
            → h.height ≡ ps.header.height
            → h.round ≡ ps.header.round
            → IsThere rest.parts_set.parts j
        filled zero q j e lt g height round =
            rest.keeps j (m.fills j lt (subst (λ x. Genuine f ps.header x j) (cc) g) height round)
        filled (suc k) q j e lt g height round =
            rest.fills k q j e lt (subst (λ r. Genuine f r q j) (sym m.same_header) g)
              (m.same_frame.height
                ∙ height
                ∙ sym (ap (λ (r : PartSetHeader). r.height) m.same_header))
              (m.same_frame.round ∙ round ∙ sym (ap (λ (r : PartSetHeader). r.round) m.same_header))

    pub add_parts-Gathered :
        (h : HeightData b) (ps : PartSet) (parts : List Part)
        → Collecting b f c w block items chain h ps
        → AllValid parts
        → AllOf chain parts
        → Gathered h ps parts ⊎ Collision f
    unfolding add_parts
    add_parts-Gathered h ps [] g v a = inl (record {
      after = h;
      returned = refl;
      parts_set = ps;
      same_header = refl;
      same_frame = SameFrame-refl b h;
      collecting = g;
      keeps = λ j there. there;
      fills = λ k p j e lt part height round. absurd (cc);
    })
    add_parts-Gathered h ps (p ∷ parts) g v a =
        let (i, at) = validate_part_index p v.0 in
        elim (add_inner_part-Moved b f c w block items chain pieces h ps p i g at a.0) [
          | inr k ↦ inr k
          | inl m ↦ elim (add_parts-Gathered m.after m.parts_set parts m.collecting v.1 a.1) [
            | inr k ↦ inr k
            | inl rest ↦ inl (gather h ps p parts m rest)
          ]
        ]
