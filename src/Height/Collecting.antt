-- ===== src/Height/Collecting.antt =====
-- The parts of a shard's block that the data of a height collects.
use melete.Base.{
  ℕ, ◌<◌, ◌≡◌, ◌⊎◌, refl, ap, ◌∙◌, sym, List, [], Option, none, some, Bool, true, not, ◌||◌, arith,
  length, inl, inr, Bool-cases,
}
use melete.Base.Bytes.{Bytes, Text}
use melete.Base.Int.{pos, eq_ℤ, eq_ℤ_iff}
use melete.Base.Outcome.{done}
use melete.Base.Table.{Table, lookup, insert, lookup-insert_self, bytes_eq}
use melete.Convert.Laws.{InSigned}
use melete.Merkle.{HashFunction, Collision}
use melete.Block.{Block, Codec, block_hash, hashed}
use melete.Block.Copies.{Decodes, block_bytes}
use melete.Signer.{Bls}
use melete.PartSet.{
  Part, PartSetHeader, PartSet, PartError, duplicated_part, generated, add_part, is_complete,
  gen_block,
}
use melete.PartSet.Split.{concat}
use melete.PartSet.Slots.{IsThere}
use melete.PartSet.Collect.{Tracks, Kept, add_part_lem}
use melete.PartSet.Deliver.{gen_block_lem}
use melete.PartSet.Places.{Genuine, add_part_places}
use melete.Height.{HeightData, HeightError, Wire, do_nothing, part_error}
use melete.Height.Frame.{SameFrame, SameFrame-refl}
use melete.Height.Receive.{Received, after_part, add_inner_part}

module _ (b : Bls) (f : HashFunction) (c : Codec) (w : Wire) where
  -- A block that comes in the pieces `items`.
  pub record InPieces (block : Block) (items : List Bytes) : Type 0 where
    pub unhashed : block.blockhash ≡ []
    pub decodes : Decodes c block
    pub int8_type : InSigned 7 block.header.block_type
    pub joined : concat items ≡ block_bytes c block

  -- The shard's part set collects the pieces, and the block is stored once they are complete.
  pub record Collecting (block : Block) (items : List Bytes) (chain : Text) (h : HeightData b)
      (ps : PartSet) : Type 0 where
    pub known : lookup chain h.cross_shard_part_sets ≡ some ps
    pub tracks : Tracks f items ps
    pub of_chain : ps.header.chain_id ≡ block.header.chain_id
    pub of_height : ps.header.height ≡ block.header.height
    pub of_hash : ps.block_header_hash ≡ block_hash f c block
    pub stored : is_complete ps ≡ true → lookup chain h.cross_shard_blocks ≡ some (hashed f c block)

  after_part_refused :
      (h : HeightData b) (p : Part) (ps : PartSet) (e : PartError)
      → (x : HeightError) × (after_part b f c w h p ps (some e) ≡ done (h, some x))
  after_part_refused h p ps duplicated_part = (do_nothing, refl)
  after_part_refused h p ps e = (part_error e, refl)

  -- What a part does to the data: the set collects on, no part is lost, and a part for a slot is
  -- there when the data stands at its height and round.
  pub record Moved (block : Block) (items : List Bytes) (chain : Text) (h : HeightData b)
      (ps : PartSet) (p : Part) (r : Received b) : Type 0 where
    pub after : HeightData b
    pub error : Option HeightError
    pub returned : r ≡ done (after, error)
    pub parts_set : PartSet
    pub collecting : Collecting block items chain after parts_set
    pub same_header : parts_set.header ≡ ps.header
    pub same_frame : SameFrame b h after
    pub keeps : (j : ℕ) → IsThere ps.parts j → IsThere parts_set.parts j
    pub fills :
        (j : ℕ)
        → j < length items
        → Genuine f ps.header p j
        → h.height ≡ ps.header.height
        → h.round ≡ ps.header.round
        → IsThere parts_set.parts j

  module _ (block : Block) (items : List Bytes) (chain : Text) (pieces : InPieces block items) where
    with_set : HeightData b → Part → PartSet → HeightData b
    with_set h p ps = record h {
      cross_shard_part_sets = insert p.chain_id ps h.cross_shard_part_sets;
    }

    known_after :
        (h : HeightData b) (p : Part) (ps : PartSet)
        → p.chain_id ≡ chain
        → lookup chain (insert p.chain_id ps h.cross_shard_part_sets) ≡ some ps
    known_after h p ps e =
        ap (λ x. lookup x (insert p.chain_id ps h.cross_shard_part_sets)) (sym e)
        ∙ lookup-insert_self p.chain_id ps h.cross_shard_part_sets

    of_kept :
        (h after : HeightData b) (ps : PartSet) (p : Part)
        → Collecting block items chain h ps
        → (k : Kept f items ps (add_part f ps p))
        → lookup chain after.cross_shard_part_sets ≡ some k.after
        → (is_complete k.after ≡ true
            → lookup chain after.cross_shard_blocks ≡ some (hashed f c block))
        → Collecting block items chain after k.after
    of_kept h after ps p g k known stored = record {
      known = known;
      tracks = k.tracks;
      of_chain = ap (λ (r : PartSetHeader). r.chain_id) k.same_header ∙ g.of_chain;
      of_height = ap (λ (r : PartSetHeader). r.height) k.same_header ∙ g.of_height;
      of_hash = k.same_hash ∙ g.of_hash;
      stored = stored;
    }

    moved :
        (h after : HeightData b) (ps : PartSet) (p : Part) (error : Option HeightError)
        → Collecting block items chain h ps
        → (k : Kept f items ps (add_part f ps p)) → add_inner_part b f c w h p ≡ done (after, error)
        → Collecting block items chain after k.after
        → SameFrame b h after
        → Moved block items chain h ps p (add_inner_part b f c w h p)
    moved h after ps p error g k run collecting same = record {
      after = after;
      error = error;
      returned = run;
      parts_set = k.after;
      collecting = collecting;
      same_header = k.same_header;
      same_frame = same;
      keeps = k.keeps;
      fills = λ j lt part _ _. add_part_places f items ps p j g.tracks lt part k;
    }

    frame :
        (h : HeightData b) (sets : Table Text PartSet) (blocks : Table Text Block)
        → SameFrame b h (record h { cross_shard_part_sets = sets; cross_shard_blocks = blocks })
    frame h sets blocks = record {
      height = refl;
      round = refl;
      my_chain_id = refl;
      shard_info = refl;
      proposal = refl;
      prevotes = refl;
      precommits = refl;
    }

    -- The end of `addInnerPart`, behind `AddPart`.
    after_part-Moved :
        (h : HeightData b) (ps : PartSet) (p : Part)
        → Collecting block items chain h ps
        → p.chain_id ≡ chain
        → (k : Kept f items ps (add_part f ps p)) → (e : Option PartError)
        → (e ≡ none) ⊎ (k.after ≡ ps)
        → add_inner_part b f c w h p ≡ after_part b f c w (with_set h p k.after) p k.after e
        → Moved block items chain h ps p (add_inner_part b f c w h p)
    unfolding with_set
    after_part-Moved h ps p g at k (some e) (inl none_at) run = absurd (cc)
    after_part-Moved h ps p g at k (some e) (inr same) run =
        let (x, refused) = after_part_refused (with_set h p k.after) p k.after e in
        moved h (with_set h p k.after) ps p (some x) g k (run ∙ refused)
          (of_kept h _ ps p g k (known_after h p k.after at)
            (λ complete. g.stored (ap is_complete (sym same) ∙ complete)))
          (frame h _ _)
    after_part-Moved h ps p g at k none answer run = elim (Bool-cases (is_complete k.after)) [
      | inr waits ↦
          moved h (with_set h p k.after) ps p none g k (run ∙ rw waits refl)
            (of_kept h _ ps p g k (known_after h p k.after at) (λ complete. absurd (cc)))
            (frame h _ _)
      | inl complete ↦
          let made : gen_block f c k.after ≡ done (generated (hashed f c block)) =
            gen_block_lem f c block items k.after pieces.unhashed pieces.decodes pieces.int8_type
              pieces.joined k.tracks
              (ap (λ (r : PartSetHeader). r.chain_id) k.same_header ∙ g.of_chain)
              (ap (λ (r : PartSetHeader). r.height) k.same_header ∙ g.of_height)
              (k.same_hash ∙ g.of_hash) complete in
          moved h
            (record (with_set h p k.after) {
              cross_shard_blocks = insert p.chain_id (hashed f c block) h.cross_shard_blocks;
            })
            ps p none g k (run ∙ rw complete (rw made refl))
            (of_kept h _ ps p g k (known_after h p k.after at) (λ _.
              ap (λ x. lookup x (insert p.chain_id (hashed f c block) h.cross_shard_blocks))
                (sym at)
              ∙ lookup-insert_self p.chain_id (hashed f c block) h.cross_shard_blocks))
            (frame h _ _)
    ]

    skips : HeightData b → Part → Bool
    skips h p = not (eq_ℤ h.height p.height) || not (eq_ℤ h.round p.round)

    skipped-Moved :
        (h : HeightData b) (ps : PartSet) (p : Part)
        → Collecting block items chain h ps
        → skips h p ≡ true
        → Moved block items chain h ps p (add_inner_part b f c w h p)
    unfolding add_inner_part skips
    skipped-Moved h ps p g skip = record {
      after = h;
      error = some do_nothing;
      returned = rw skip refl;
      parts_set = ps;
      collecting = g;
      same_header = refl;
      same_frame = SameFrame-refl b h;
      keeps = λ j there. there;
      fills = λ j lt part height round.
          let same_height = (eq_ℤ_iff h.height p.height).1 (height ∙ part.height) in
          let same_round = (eq_ℤ_iff h.round p.round).1 (round ∙ part.round) in
          absurd (ground arith);
    }

    -- `addInnerPart` on a part of the shard with an index that is not negative returns, or a collision
    -- is at hand.
    pub add_inner_part-Moved :
        (h : HeightData b) (ps : PartSet) (p : Part) (i : ℕ)
        → Collecting block items chain h ps
        → p.proof.index ≡ pos i
        → p.chain_id ≡ chain
        → Moved block items chain h ps p (add_inner_part b f c w h p) ⊎ Collision f
    unfolding add_inner_part with_set skips
    add_inner_part-Moved h ps p i g index at = elim (Bool-cases (skips h p)) [
      | inl skip ↦ inl (skipped-Moved h ps p g skip)
      | inr go ↦ elim (add_part_lem f items ps p i g.tracks index) [
        | inr k ↦ inr k
        | inl k ↦
            let known : lookup p.chain_id h.cross_shard_part_sets ≡ some ps =
              ap (λ x. lookup x h.cross_shard_part_sets) at ∙ g.known in
            inl (
              after_part-Moved h ps p g at k k.error k.answer
                (rw go (rw known (rw k.returned refl))))
      ]
    ]
