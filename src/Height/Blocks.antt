-- ===== src/Height/Blocks.antt =====
-- The block of a shard that the data of a height gets from its parts.
use melete.Base.{
  ℕ, ◌<◌, ◌≡◌, ◌⊎◌, refl, ap, ◌∙◌, sym, List, [], ◌∷◌, none, some, arith, length, false, replicate,
  inl, inr,
}
use mathlib.Core.Option
use mathlib.Core.Path.{subst}
use melete.Base.Bytes.{Bytes}
use melete.Base.Int.{ℤ, pos, eq_ℤ}
use melete.Base.Outcome.{done, done-injective}
use melete.Base.Table.{lookup, bytes_eq}
use melete.Convert.Laws.{InSigned}
use melete.Merkle.{HashFunction, Collision}
use melete.Merkle.Complete.{proofs_root}
use melete.Block.{Block, Codec, hashed}
use melete.Block.Copies.{Decodes, block_bytes}
use melete.Signer.{Bls}
use melete.PartSet.{
  Part, PartSetHeader, PartSet, new_part_set, is_complete, part_set_of_slices, part_set_from_block,
}
use melete.PartSet.Split.{concat, split_byte_array_lem}
use melete.PartSet.Slots.{IsThere}
use melete.PartSet.Receive.{AllValid, new_part_set-Tracks}
use melete.PartSet.Places.{Genuine}
use melete.PartSet.Arrive.{HasAll, HasAll-at, sent_part, complete_of_full}
use melete.Height.{HeightData, Wire}
use melete.Height.Receive.{add_parts}
use melete.Height.Collecting.{InPieces, Collecting}
use melete.Height.Gathered.{AllOf, add_parts-Gathered}

module _ (b : Bls) (f : HashFunction) (c : Codec) (w : Wire) where
  -- The data holds the block after the parts were added.
  pub Stores : HeightData b → Block → List Part → Type 0
  Stores h block parts =
      (after : HeightData b) × (add_parts b f c w h parts ≡ done after)
      × (lookup block.header.chain_id after.cross_shard_blocks ≡ some (hashed f c block))

  -- A new set for pieces that are not empty in all is not complete.
  pub fresh_waits :
      (items : List Bytes) (r : PartSetHeader) (header_hash : Bytes) (ps : PartSet)
      → 0 < length (concat items)
      → r.total ≡ pos (length items)
      → new_part_set r header_hash ≡ done ps
      → is_complete ps ≡ false
  unfolding new_part_set is_complete eq_ℤ
  fresh_waits [] r header_hash ps some_bytes total made = elim some_bytes [ ]
  fresh_waits (x ∷ items) r header_hash ps some_bytes total made =
      let fresh : PartSet = record {
        header = r;
        parts = replicate (length (x ∷ items)) none;
        count = 0;
        block_header_hash = header_hash;
      } in
      let built : new_part_set r header_hash ≡ done fresh = rw total refl in
      let same = done-injective (sym built ∙ made) in
      ap is_complete (sym same) ∙ rw total (ground arith)

  slices-Stores :
      (h : HeightData b) (block : Block) (items : List Bytes) (round : ℤ) (fresh : PartSet)
      (parts : List Part)
      → InPieces b f c w block items
      → 0 < length (concat items)
      → new_part_set
          (part_set_of_slices f c block items round).header
          (part_set_of_slices f c block items round).block_header_hash
        ≡ done fresh
      → lookup block.header.chain_id h.cross_shard_part_sets ≡ some fresh
      → h.height ≡ block.header.height
      → h.round ≡ round
      → AllValid parts
      → AllOf block.header.chain_id parts
      → HasAll (part_set_of_slices f c block items round).parts parts
      → Stores h block parts ⊎ Collision f
  unfolding Stores part_set_of_slices
  slices-Stores h block items round fresh parts pieces some_bytes new known height same_round v
        of_chain a =
      let sent = part_set_of_slices f c block items round in
      let (ps, made, t, same, same') =
        new_part_set-Tracks f items sent.header sent.block_header_hash (proofs_root f items) refl in
      let is_fresh = done-injective (sym new ∙ made) in
      let collecting : Collecting b f c w block items block.header.chain_id h ps = record {
        known = known ∙ ap some is_fresh;
        tracks = t;
        of_chain = ap (λ (r : PartSetHeader). r.chain_id) same;
        of_height = ap (λ (r : PartSetHeader). r.height) same;
        of_hash = same';
        stored = λ complete.
            let waits =
              fresh_waits items sent.header sent.block_header_hash ps some_bytes refl made in
            absurd (cc);
      } in
      elim (add_parts-Gathered b f c w block items block.header.chain_id pieces h ps parts
        collecting v of_chain) [
          | inr k ↦ inr k
          | inl d ↦
              let there : (i : ℕ) → i < length items → IsThere d.parts_set.parts i = λ i lt.
                let (p, at, g) = sent_part f c block items round i lt in
                let (k, comes) = HasAll-at _ parts i p a at in
                d.fills k p i comes lt (subst (λ r. Genuine f r p i) (sym same) g)
                  (height ∙ sym (ap (λ (r : PartSetHeader). r.height) same))
                  (same_round ∙ sym (ap (λ (r : PartSetHeader). r.round) same)) in
              inl (
                d.after,
                d.returned,
                d.collecting.stored
                    (complete_of_full f c items d.parts_set d.collecting.tracks there),
              )
        ]

  -- The data of a height has a new part set for the header and block hash of the part set that
  -- `PartSetFromBlock` makes of a block. After `addInnerPart` of parts of the block's shard that pass
  -- `Part.ValidateBasic`, each part of the set among them in any order and between any others, which
  -- returns without a panic, the block is in `CrossShardBlocks` as `Block.Hash` leaves it. Otherwise
  -- two messages with one digest are at hand. The block is not hashed before, its type is an `int8`,
  -- its encoding is not empty, protobuf reads its message back, and the data stands at the height of
  -- the block and the round of the set.
  pub add_parts-Stores :
      (h : HeightData b) (block : Block) (max_part_size : ℕ) (round : ℤ) (sent fresh : PartSet)
      (parts : List Part)
      → 0 < max_part_size
      → block.blockhash ≡ []
      → Decodes c block
      → InSigned 7 block.header.block_type
      → 0 < length (block_bytes c block)
      → part_set_from_block f c block max_part_size round ≡ some sent
      → new_part_set sent.header sent.block_header_hash ≡ done fresh
      → lookup block.header.chain_id h.cross_shard_part_sets ≡ some fresh
      → h.height ≡ block.header.height
      → h.round ≡ round
      → AllValid parts
      → AllOf block.header.chain_id parts
      → HasAll sent.parts parts
      → Stores h block parts ⊎ Collision f
  unfolding part_set_from_block
  add_parts-Stores h block max_part_size round sent fresh parts p unhashed decodes type some_bytes
        cut new known height same_round v of_chain a =
      let bz = block_bytes c block in
      let (items, e, split) = split_byte_array_lem (length bz) bz max_part_size p (omega arith) in
      let same : part_set_of_slices f c block items round ≡ sent =
        Option.some-injective _ _
          (sym (ap (Option.map (λ xs. part_set_of_slices f c block xs round)) e) ∙ cut) in
      slices-Stores h block items round fresh parts
        (record { unhashed = unhashed; decodes = decodes; int8_type = type; joined = split.joined })
        (subst (λ x. 0 < length x) (sym split.joined) some_bytes)
        (ap (λ (s : PartSet). new_part_set s.header s.block_header_hash) same ∙ new) known height
        same_round v of_chain (subst (λ (s : PartSet). HasAll s.parts parts) (sym same) a)
