-- ===== src/Height/Finished.antt =====
-- The proposal of a height and the parts of its block: the node finishes the step of the proposal.
use melete.Base.{
  ℕ, ◌<◌, ◌≡◌, ◌⊎◌, refl, ap, ◌∙◌, sym, List, [], ◌++◌, ◌-◌, leb, none, some, true, arith, length,
  get_elem?, inl, inr, Bool-cases, ltb, ltb→lt, ltb-false, get_elem?-append_left,
  get_elem?-append_right,
}
use mathlib.Core.Option
use mathlib.Core.Path.{subst}
use melete.Base.Bytes.{Bytes}
use melete.Base.Int.{ℤ}
use melete.Base.Outcome.{done}
use melete.Base.Table.{lookup, bytes_eq}
use melete.Convert.Laws.{InSigned}
use melete.Merkle.{HashFunction, Collision}
use melete.Block.{Block, Codec, hashed}
use melete.Block.Copies.{Decodes, block_bytes}
use melete.Signer.{Bls}
use melete.PartSet.{Part, PartSetHeader, PartSet, part_set_of_slices, part_set_from_block}
use melete.PartSet.Split.{concat, split_byte_array_lem}
use melete.PartSet.Slots.{IsThere}
use melete.PartSet.Receive.{AllValid}
use melete.PartSet.Places.{Genuine}
use melete.PartSet.Arrive.{HasAll, HasAll-at, sent_part, complete_of_full}
use melete.Vote.{Proposal}
use melete.Height.{HeightData, Wire}
use melete.Height.Step.{finish_proposal, round_step_propose, is_present}
use melete.Height.Receive.{add_parts, waiting_parts, add_proposal}
use melete.Height.Collecting.{InPieces}
use melete.Height.Gathered.{AllOf, Gathered, add_parts-Gathered}
use melete.Height.Proposed.{
  Joined, IsDue, add_proposal-accept_proposal, sent_chain, accept_proposal-Joined,
}

module _ (b : Bls) (f : HashFunction) (c : Codec) (w : Wire) where
  -- `AddProposal` takes the proposal, and after the parts that come then the block is there and
  -- `FinishProposal` answers true.
  pub Finishes : HeightData b → Proposal → ℤ → Block → List Part → Type 0
  Finishes h q index block late =
      (r : HeightData b) × (add_proposal b f c w h q index ≡ done (r, none))
      × (after : HeightData b) × (add_parts b f c w r late ≡ done after)
      × (lookup block.header.chain_id after.cross_shard_blocks ≡ some (hashed f c block))
      × ((finish_proposal b after).1 ≡ true)

  finish_proposal_answers :
      (h : HeightData b) (q : Proposal) (block : Block)
      → h.proposal ≡ some q
      → lookup h.my_chain_id h.cross_shard_blocks ≡ some block
      → (finish_proposal b h).1 ≡ true
  unfolding finish_proposal
  finish_proposal_answers h q block proposed there =
      elim (Bool-cases (leb round_step_propose h.pass_step)) [
        | inl past ↦ rw past refl
        | inr before ↦ rw before (rw proposed (rw present refl))
      ]
    where
      present : is_present h.cross_shard_blocks h.my_chain_id ≡ true
      present = rw (there, is_present) refl

  -- A part that is among the first or the second parts.
  among :
      (early late : List Part) (k : ℕ) (p : Part)
      → get_elem? (early ++ late) k ≡ some p
      → (get_elem? early k ≡ some p) ⊎ (get_elem? late (k - length early) ≡ some p)
  among early late k p e = elim (Bool-cases (ltb k (length early))) [
    | inl lt ↦ inl (sym (get_elem?-append_left early late k (ltb→lt _ _ lt)) ∙ e)
    | inr ge ↦ inr (sym (get_elem?-append_right early late k (ltb-false _ _ ge)) ∙ e)
  ]

  -- All slots are filled when each part of the set is among the first or the second parts.
  all_filled :
      (block : Block) (items : List Bytes) (round : ℤ) (h : HeightData b) (q : Proposal) (index : ℤ)
      (pieces : InPieces b f c w block items) (some_bytes : 0 < length (concat items))
      (early late : List Part) (i : ℕ)
      → IsDue b f c w h q index (part_set_of_slices f c block items round)
      → HasAll (part_set_of_slices f c block items round).parts (early ++ late)
      → (j : Joined b f c w block items round pieces some_bytes h q early)
      → (g : Gathered b f c w block items block.header.chain_id pieces j.after j.parts_set late)
      → i < length items
      → IsThere g.parts_set.parts i
  all_filled block items round h q index pieces some_bytes early late i d all j g lt =
      let (p, at, part) = sent_part f c block items round i lt in
      let (k, comes) = HasAll-at _ (early ++ late) i p all at in
      let header = d.of_header ∙ sym j.same_header in
      elim (among early late k p comes) [
        | inl first ↦ g.keeps i (j.fills k p i first lt part)
        | inr second ↦
            g.fills (k - length early) p i second lt
              (subst (λ r. Genuine f r p i) (sym j.same_header) part)
              (j.same_height ∙ d.at_height ∙ ap (λ (r : PartSetHeader). r.height) header)
              (j.same_round ∙ d.at_round ∙ ap (λ (r : PartSetHeader). r.round) header)
      ]

  slices-Finishes :
      (block : Block) (items : List Bytes) (round : ℤ) (h : HeightData b) (q : Proposal) (index : ℤ)
      (late : List Part)
      → InPieces b f c w block items
      → 0 < length (concat items)
      → IsDue b f c w h q index (part_set_of_slices f c block items round)
      → AllValid (waiting_parts b f c w h q.header.chain_id)
      → AllOf block.header.chain_id (waiting_parts b f c w h q.header.chain_id)
      → AllValid late
      → AllOf block.header.chain_id late
      → HasAll
          (part_set_of_slices f c block items round).parts
          (waiting_parts b f c w h q.header.chain_id ++ late)
      → Finishes h q index block late ⊎ Collision f
  unfolding Finishes
  slices-Finishes block items round h q index late pieces some_bytes d v a v' a' all =
      let early = waiting_parts b f c w h q.header.chain_id in
      elim (accept_proposal-Joined b f c w block items round pieces some_bytes h q index d v a) [
        | inr k ↦ inr k
        | inl j ↦
            elim (add_parts-Gathered b f c w block items block.header.chain_id pieces j.after
              j.parts_set late j.collecting v' a') [
                | inr k ↦ inr k
                | inl g ↦
                    let there : (i : ℕ) → i < length items → IsThere g.parts_set.parts i = λ i lt.
                      all_filled block items round h q index pieces some_bytes early late i d all j
                        g lt in
                    let stored =
                      g.collecting.stored
                        (complete_of_full f c items g.parts_set g.collecting.tracks there) in
                    let chain : g.after.my_chain_id ≡ block.header.chain_id =
                      g.same_frame.my_chain_id
                      ∙ j.same_chain
                      ∙ sym d.of_shard
                      ∙ ap (λ (r : PartSetHeader). r.chain_id) d.of_header
                      ∙ sent_chain b f c w block items round pieces some_bytes in
                    inl (
                      j.after,
                      add_proposal-accept_proposal b f c w h q index _ d ∙ j.returned,
                      g.after,
                      g.returned,
                      stored,
                      finish_proposal_answers g.after q (hashed f c block)
                          (g.same_frame.proposal ∙ j.proposed)
                          (ap (λ x. lookup x g.after.cross_shard_blocks) chain ∙ stored),
                    )
              ]
      ]

  -- A node that waits for the proposal of a block takes it in `AddProposal`, and when all parts of the
  -- block came, those that waited in `RandomHeaderBuffer` and those that `addInnerPart` takes after it,
  -- the block is in `CrossShardBlocks` as `Block.Hash` leaves it and `FinishProposal` answers true.
  -- The parts are in any order and between others, nothing panics and `AddProposal` returns no error.
  -- Otherwise two messages with one digest are at hand. The proposal has the header and block hash
  -- that `PartSetFromBlock` makes of the block, the proposer that is due signed it, and it is for the
  -- height, round and shard of the node. The votes that came before are stored and not counted, and no
  -- power is negative. The parts are of the block's shard and pass `Part.ValidateBasic`. The block is
  -- not hashed before, its type is an `int8`, its encoding is not empty, and protobuf reads its message
  -- back.
  pub add_proposal-Finishes :
      (h : HeightData b) (q : Proposal) (index : ℤ) (block : Block) (max_part_size : ℕ) (round : ℤ)
      (sent : PartSet) (late : List Part)
      → 0 < max_part_size
      → block.blockhash ≡ []
      → Decodes c block
      → InSigned 7 block.header.block_type
      → 0 < length (block_bytes c block)
      → part_set_from_block f c block max_part_size round ≡ some sent
      → IsDue b f c w h q index sent
      → AllValid (waiting_parts b f c w h q.header.chain_id)
      → AllOf block.header.chain_id (waiting_parts b f c w h q.header.chain_id)
      → AllValid late
      → AllOf block.header.chain_id late
      → HasAll sent.parts (waiting_parts b f c w h q.header.chain_id ++ late)
      → Finishes h q index block late ⊎ Collision f
  unfolding part_set_from_block
  add_proposal-Finishes h q index block max_part_size round sent late p unhashed decodes type
        some_bytes cut due v a v' a' all =
      let bz = block_bytes c block in
      let (items, e, split) = split_byte_array_lem (length bz) bz max_part_size p (omega arith) in
      let same : part_set_of_slices f c block items round ≡ sent =
        Option.some-injective _ _
          (sym (ap (Option.map (λ xs. part_set_of_slices f c block xs round)) e) ∙ cut) in
      slices-Finishes block items round h q index late
        (record { unhashed = unhashed; decodes = decodes; int8_type = type; joined = split.joined })
        (subst (λ x. 0 < length x) (sym split.joined) some_bytes)
        (subst (λ (s : PartSet). IsDue b f c w h q index s) (sym same) due) v a v' a'
        (subst (λ (s : PartSet). HasAll s.parts (waiting_parts b f c w h q.header.chain_id ++ late))
          (sym same) all)
