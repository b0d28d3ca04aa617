-- ===== src/Height/Receive.antt =====
-- The messages of a node's own shard: `AddProposal`, `AddPart`, `AddPrevote` and `AddPrecommit`.
use melete.Base.{◌++◌, List, [], ◌∷◌, Option, none, some, not, ◌||◌, if◌then◌else◌}
use mathlib.Core.Option
use melete.Base.Bytes.{Text, bytes_equal}
use melete.Base.Int.{ℤ, eq_ℤ}
use melete.Base.Outcome.{Outcome, done, or_panic, ◌>>=◌}
use melete.Base.Table.{lookup, insert, bytes_eq}
use melete.Merkle.{HashFunction}
use melete.Block.{Codec}
use melete.PartSet.{
  Part, PartSet, PartError, Generated, generated, failed, duplicated_part, new_part_set, add_part,
  is_complete, gen_block,
}
use melete.Signer.{Bls, verify_signature}
use melete.Vote.{Proposal, Ballot, proposal_sign_proto, prevote_sign_proto, precommit_sign_proto}
use melete.Height.{
  HeightData, HeightError, Wire, do_nothing, wrong_proposer, wrong_chain, bad_signature, part_error,
  gen_error, peers_of, recount, add_ballot,
}

-- A call on the data of a height: the state after it, and its error.
abbrev pub Received : Bls → Type 0
Received b = Outcome (HeightData b × Option HeightError)

module _ (b : Bls) (f : HashFunction) (c : Codec) (w : Wire) where
  -- `AddPrevote` and `AddPrecommit`
  unfoldable pub add_prevote : HeightData b → Ballot → Received b
  unfolding add_ballot prevote_sign_proto
  add_prevote h p =
      add_ballot b (λ q. w.encode_prevote (prevote_sign_proto q)) h h.prevotes p >>= λ r.
      done (record h { prevotes = r.0 }, r.1)

  unfoldable pub add_precommit : HeightData b → Ballot → Received b
  unfolding add_ballot precommit_sign_proto
  add_precommit h p =
      add_ballot b (λ q. w.encode_precommit (precommit_sign_proto q)) h h.precommits p >>= λ r.
      done (record h { precommits = r.0 }, r.1)

  -- The block of a part set that is complete.
  abbrev pub keep_block : HeightData b → Text → Generated → HeightData b × Option HeightError
  keep_block h chain_id (generated block) =
      (record h { cross_shard_blocks = insert chain_id block h.cross_shard_blocks }, none)
  keep_block h chain_id (failed e) = (h, some (gen_error e))

  -- `addInnerPart` after `AddPart` on the shard's part set.
  abbrev pub after_part : HeightData b → Part → PartSet → Option PartError → Received b
  after_part h p ps (some duplicated_part) = done (h, some do_nothing)
  after_part h p ps (some e) = done (h, some (part_error e))
  after_part h p ps none =
      if is_complete ps
      then (gen_block f c ps >>= λ g. done (keep_block h p.chain_id g))
      else done (h, none)

  -- `addInnerPart`: a part of a set that is not known yet waits.
  unfoldable pub add_inner_part : HeightData b → Part → Received b
  unfolding add_part is_complete gen_block
  add_inner_part h p =
      if not (eq_ℤ h.height p.height) || not (eq_ℤ h.round p.round)
      then done (h, some do_nothing)
      else elim (lookup p.chain_id h.cross_shard_part_sets) [
        | none ↦
            let waiting = Option.get_or (lookup p.chain_id h.random_header_buffer) [] in
            done (
              record h {
                random_header_buffer =
                    insert p.chain_id (waiting ++ (p ∷ [])) h.random_header_buffer;
              },
              some do_nothing,
            )
        | some ps ↦ add_part f ps p >>= λ r.
            after_part
              (record h { cross_shard_part_sets = insert p.chain_id r.0 h.cross_shard_part_sets }) p
              r.0 r.1
      ]

  -- The loops over the parts that wait; their errors are dropped.
  unfoldable pub add_parts : HeightData b → List Part → Outcome (HeightData b)
  unfolding add_inner_part
  add_parts h [] = done h
  add_parts h (p ∷ ps) = add_inner_part h p >>= λ r. add_parts r.0 ps

  abbrev pub waiting_parts : HeightData b → Text → List Part
  waiting_parts h chain_id = Option.get_or (lookup chain_id h.random_header_buffer) []

  -- `reCalculatePrevotes` and `reCalculatePrecommits`
  unfoldable pub recalculate : HeightData b → Proposal → Outcome (HeightData b)
  unfolding recount
  recalculate h p =
      let peers = peers_of h.shard_info h.my_chain_id in
      recount peers p 0 h.prevotes.ballots h.prevotes >>= λ v.
      recount peers p 0 h.precommits.ballots h.precommits >>= λ u.
      done (record h { prevotes = v; precommits = u })

  -- `AddProposal` behind its tests.
  unfoldable pub accept_proposal : HeightData b → Proposal → Received b
  unfolding new_part_set add_parts recalculate
  accept_proposal h p = new_part_set p.header p.block_header_hash >>= λ ps.
      add_parts
        (record h {
          proposal = some p;
          cross_shard_part_sets = insert h.my_chain_id ps h.cross_shard_part_sets;
        })
        (waiting_parts h p.header.chain_id)
      >>= λ g. recalculate g p >>= λ k. done (k, none)

  -- `AddProposal`; `index` is the proposer that is due.
  unfoldable pub add_proposal : HeightData b → Proposal → ℤ → Received b
  unfolding accept_proposal proposal_sign_proto
  add_proposal h p index = elim h.proposal [
    | some q ↦ done (h, some do_nothing)
    | none ↦
        if not (eq_ℤ h.height p.header.height) || not (eq_ℤ h.round p.header.round)
        then done (h, some do_nothing)
        else if not (eq_ℤ p.proposer_index index)
        then done (h, some wrong_proposer)
        else if not (bytes_equal p.header.chain_id h.my_chain_id)
        then done (h, some wrong_chain)
        else or_panic (lookup h.my_chain_id h.all_validator_set) >>= λ v.
            verify_signature b v p.signature (w.encode_proposal (proposal_sign_proto p)) index
            >>= λ ok. if not ok then done (h, some bad_signature) else accept_proposal h p
  ]
