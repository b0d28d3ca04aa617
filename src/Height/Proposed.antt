-- ===== src/Height/Proposed.antt =====
-- `AddProposal` with the parts that came before it and those that come after it.
use melete.Base.{
  ℕ, ◌<◌, ◌≡◌, ◌⊎◌, refl, ap, ap₂, ◌∙◌, sym, List, map, none, some, true, false, length, get_elem?,
  inl, inr,
}
use mathlib.Core.Path.{subst}
use melete.Base.Bytes.{Bytes, bytes_equal, bytes_equal_refl}
use melete.Base.Int.{ℤ, pos, eq_ℤ_iff}
use melete.Base.Outcome.{done}
use melete.Base.Table.{lookup, insert, bytes_eq, lookup-insert_self}
use melete.Merkle.{HashFunction, Collision, hash_from_byte_slices}
use melete.Merkle.Complete.{proofs_root}
use melete.Block.{Block, Codec}
use melete.Signer.{Bls, Verifier, verify_signature}
use melete.Accepts.{Peer}
use melete.PartSet.{new_part_set, Part, PartSetHeader, PartSet, is_complete, part_set_of_slices}
use melete.PartSet.Split.{concat}
use melete.PartSet.Slots.{IsThere}
use melete.PartSet.Collect.{Tracks}
use melete.PartSet.Receive.{AllValid, new_part_set-Tracks}
use melete.PartSet.Places.{Genuine}
use melete.Vote.{Proposal, proposal_sign_proto}
use melete.Height.{HeightData, Wire, Tally, peers_of, recount}
use melete.Height.Tallied.{IsTallied}
use melete.Height.Recount.{recount-IsTallied}
use melete.Height.Receive.{waiting_parts, recalculate, accept_proposal, add_proposal}
use melete.Height.Frame.{SameFrame}
use melete.Height.Collecting.{InPieces, Collecting}
use melete.Height.Gathered.{AllOf, Gathered, add_parts-Gathered}
use melete.Height.Blocks.{fresh_waits}

module _ (b : Bls) (f : HashFunction) (c : Codec) (w : Wire) where
  -- The proposal that a node waits for: the header and block hash of the part set `sent`, signed by
  -- the proposer that is due. The votes that the node has are stored and not counted, and no power is
  -- negative.
  pub record IsDue (h : HeightData b) (q : Proposal) (index : ℤ) (sent : PartSet) : Type 0 where
    pub none_yet : h.proposal ≡ none
    pub of_header : q.header ≡ sent.header
    pub of_hash : q.block_header_hash ≡ sent.block_header_hash
    pub at_height : h.height ≡ q.header.height
    pub at_round : h.round ≡ q.header.round
    pub by_proposer : q.proposer_index ≡ index
    pub of_shard : q.header.chain_id ≡ h.my_chain_id
    pub keys : Verifier b
    pub has_keys : lookup h.my_chain_id h.all_validator_set ≡ some keys
    pub signed :
        verify_signature b keys q.signature (w.encode_proposal (proposal_sign_proto q)) index
        ≡ done true
    pub powers : List ℕ
    pub staked : map (λ (p : Peer). p.vote) (peers_of h.shard_info h.my_chain_id) ≡ map pos powers
    pub prevotes : IsTallied powers none h.prevotes
    pub precommits : IsTallied powers none h.precommits

  pub add_proposal-accept_proposal :
      (h : HeightData b) (q : Proposal) (index : ℤ) (sent : PartSet)
      → IsDue h q index sent
      → add_proposal b f c w h q index ≡ accept_proposal b f c w h q
  unfolding add_proposal
  add_proposal-accept_proposal h q index sent d = rw d.none_yet (
      rw ((eq_ℤ_iff h.height q.header.height).1 d.at_height) (
        rw ((eq_ℤ_iff h.round q.header.round).1 d.at_round) (
          rw ((eq_ℤ_iff q.proposer_index index).1 d.by_proposer)
            (rw same_shard (rw d.has_keys (rw d.signed refl))))))
    where
      same_shard : bytes_equal q.header.chain_id h.my_chain_id ≡ true
      same_shard =
          ap (λ x. bytes_equal q.header.chain_id x) (sym d.of_shard)
          ∙ bytes_equal_refl q.header.chain_id

  -- The recalculation changes the votes alone.
  recalculate_votes :
      (h g : HeightData b) (q : Proposal) (powers : List ℕ)
      → SameFrame b h g
      → map (λ (p : Peer). p.vote) (peers_of h.shard_info h.my_chain_id) ≡ map pos powers
      → IsTallied powers none h.prevotes
      → IsTallied powers none h.precommits
      → (v u : Tally) × (recalculate b f c w g q ≡ done (record g { prevotes = v; precommits = u }))
  unfolding recalculate
  recalculate_votes h g q powers same staked prevotes precommits =
      let peers = peers_of h.shard_info h.my_chain_id in
      let peers_eq : peers_of g.shard_info g.my_chain_id ≡ peers =
        ap₂ peers_of same.shard_info same.my_chain_id in
      let (v, ran, _) = recount-IsTallied peers powers q staked h.prevotes prevotes in
      let (u, ran', _) = recount-IsTallied peers powers q staked h.precommits precommits in
      let first : recount (peers_of g.shard_info g.my_chain_id) q 0 g.prevotes.ballots g.prevotes
          ≡ done v =
        ap₂ (λ ps (t : Tally). recount ps q 0 t.ballots t) peers_eq same.prevotes ∙ ran in
      let second : recount (peers_of g.shard_info g.my_chain_id) q 0 g.precommits.ballots
            g.precommits
          ≡ done u =
        ap₂ (λ ps (t : Tally). recount ps q 0 t.ballots t) peers_eq same.precommits ∙ ran' in
      (v, u, rw first (rw second refl))

  module _ (block : Block) (items : List Bytes) (round : ℤ) (pieces : InPieces b f c w block items)
      (some_bytes : 0 < length (concat items)) where
    abbrev pub sent_set : PartSet
    sent_set = part_set_of_slices f c block items round

    -- The data after the proposal and the parts that waited for it.
    pub record Joined (h : HeightData b) (q : Proposal) (early : List Part) : Type 0 where
      pub after : HeightData b
      pub returned : accept_proposal b f c w h q ≡ done (after, none)
      pub parts_set : PartSet
      pub collecting : Collecting b f c w block items block.header.chain_id after parts_set
      pub same_header : parts_set.header ≡ sent_set.header
      pub same_height : after.height ≡ h.height
      pub same_round : after.round ≡ h.round
      pub same_chain : after.my_chain_id ≡ h.my_chain_id
      pub proposed : after.proposal ≡ some q
      pub fills :
          (k : ℕ) (p : Part) (j : ℕ)
          → get_elem? early k ≡ some p
          → j < length items
          → Genuine f sent_set.header p j
          → IsThere parts_set.parts j

    pub sent_chain : sent_set.header.chain_id ≡ block.header.chain_id
    unfolding part_set_of_slices
    sent_chain = refl

    fresh-Collecting :
        (h : HeightData b) (ps : PartSet)
        → lookup block.header.chain_id h.cross_shard_part_sets ≡ some ps
        → Tracks f items ps
        → ps.header ≡ sent_set.header
        → ps.block_header_hash ≡ sent_set.block_header_hash
        → is_complete ps ≡ false
        → Collecting b f c w block items block.header.chain_id h ps
    unfolding part_set_of_slices
    fresh-Collecting h ps known t same same' waits = record {
      known = known;
      tracks = t;
      of_chain = ap (λ (r : PartSetHeader). r.chain_id) same;
      of_height = ap (λ (r : PartSetHeader). r.height) same;
      of_hash = same';
      stored = λ complete. absurd (cc);
    }

    sent_root : sent_set.header.root ≡ hash_from_byte_slices f items
    unfolding part_set_of_slices
    sent_root = proofs_root f items

    sent_total : sent_set.header.total ≡ pos (length items)
    unfolding part_set_of_slices
    sent_total = refl

    -- The data with the proposal and its empty part set.
    abbrev with_set : HeightData b → Proposal → PartSet → HeightData b
    with_set h q ps = record h {
      proposal = some q;
      cross_shard_part_sets = insert h.my_chain_id ps h.cross_shard_part_sets;
    }

    with_set-known :
        (h : HeightData b) (q : Proposal) (index : ℤ) (ps : PartSet)
        → IsDue h q index sent_set
        → lookup block.header.chain_id (with_set h q ps).cross_shard_part_sets ≡ some ps
    with_set-known h q index ps d =
        let chain : h.my_chain_id ≡ block.header.chain_id =
          sym d.of_shard ∙ ap (λ (r : PartSetHeader). r.chain_id) d.of_header ∙ sent_chain in
        ap (λ x. lookup x (with_set h q ps).cross_shard_part_sets) (sym chain)
        ∙ lookup-insert_self h.my_chain_id ps h.cross_shard_part_sets

    -- The recalculation ends the call after the parts that waited.
    join :
        (h : HeightData b) (q : Proposal) (index : ℤ) (ps : PartSet)
        → IsDue h q index sent_set
        → new_part_set q.header q.block_header_hash ≡ done ps
        → ps.header ≡ q.header
        → Gathered b f c w block items block.header.chain_id pieces
            (with_set h q ps)
            ps
            (waiting_parts b f c w h q.header.chain_id)
        → Joined h q (waiting_parts b f c w h q.header.chain_id)
    unfolding accept_proposal
    join h q index ps d made same g =
        let (v, u, recounted) =
          recalculate_votes (with_set h q ps) g.after q d.powers g.same_frame d.staked d.prevotes
            d.precommits in
        record {
          after = record g.after { prevotes = v; precommits = u };
          returned = rw made (rw g.returned (rw recounted refl));
          parts_set = g.parts_set;
          collecting = record {
            known = g.collecting.known;
            tracks = g.collecting.tracks;
            of_chain = g.collecting.of_chain;
            of_height = g.collecting.of_height;
            of_hash = g.collecting.of_hash;
            stored = g.collecting.stored;
          };
          same_header = g.same_header ∙ same ∙ d.of_header;
          same_height = g.same_frame.height;
          same_round = g.same_frame.round;
          same_chain = g.same_frame.my_chain_id;
          proposed = g.same_frame.proposal;
          fills = λ k p j e lt part.
              g.fills k p j e lt (subst (λ r. Genuine f r p j) (sym (same ∙ d.of_header)) part)
                (d.at_height ∙ ap (λ (r : PartSetHeader). r.height) (sym same))
                (d.at_round ∙ ap (λ (r : PartSetHeader). r.round) (sym same));
        }

    pub accept_proposal-Joined :
        (h : HeightData b) (q : Proposal) (index : ℤ)
        → IsDue h q index sent_set
        → AllValid (waiting_parts b f c w h q.header.chain_id)
        → AllOf block.header.chain_id (waiting_parts b f c w h q.header.chain_id)
        → Joined h q (waiting_parts b f c w h q.header.chain_id) ⊎ Collision f
    accept_proposal-Joined h q index d v a =
        let total = ap (λ (r : PartSetHeader). r.total) d.of_header ∙ sent_total in
        let (ps, made, t, same, same') =
          new_part_set-Tracks f items q.header q.block_header_hash
            (ap (λ (r : PartSetHeader). r.root) d.of_header ∙ sent_root) total in
        let collecting =
          fresh-Collecting (with_set h q ps) ps (with_set-known h q index ps d) t
            (same ∙ d.of_header) (same' ∙ d.of_hash)
            (fresh_waits b f c w items q.header q.block_header_hash ps some_bytes total made) in
        elim (add_parts-Gathered b f c w block items block.header.chain_id pieces (with_set h q ps)
          ps (waiting_parts b f c w h q.header.chain_id) collecting v a) [
            | inr k ↦ inr k
            | inl g ↦ inl (join h q index ps d made same g)
          ]
