-- ===== src/Height/Tests.antt =====
-- A height with three validators: votes, their recount, and the steps that they finish.
use melete.Base.{
  ℕ, zero, suc, ◌≡◌, ◌≢◌, ◌<◌, ◌/◌, ◌*◌, refl, [], ◌∷◌, Option, none, some, true, arith, get_elem?,
}
use melete.Base.Bits.{bit}
use melete.Base.Bytes.{bytes_equal}
use melete.Base.Int.{◌+ℤ◌, div_ℤ}
use melete.Base.Outcome.{done}
use melete.Base.Table.{lookup, bytes_eq}
use melete.BitVector.{new_bit_vector}
use melete.BitVector.Valid.{test}
use melete.Signer.{verifier_size}
use melete.Signer.Toy.{toy_bls}
use melete.Vote.{Proposal, Ballot}
use melete.Vote.Commit.{bit_power}
use melete.Height.{Tally, add_ballot, recount, new_tally, is_for}
use melete.Height.Step.{
  finish_precommit, finish_cross_shard_accept, finish_cross_shard_proposal,
  finish_cross_shard_commit_i,
}
use melete.Height.Tallied.{IsTallied, new_tally-IsTallied}
use melete.Height.Cast.{IsStaked, Counted, add_ballot-Counted}
use melete.Height.Recount.{recount-IsTallied}
use melete.Height.Advance.{Advanced}
use melete.Height.Reached.{finish_cross_shard-Advanced, finish_precommit_quorum}
use melete.Base.Int.{pos}
use melete.Base.{◌⊎◌, length}
use melete.Merkle.{Collision}
use melete.Merkle.Toy.{toy_hash}
use melete.Block.Sample.{sample_block, sample_codec}
use melete.Block.Copies.{block_bytes}
use melete.PartSet.Sample.{
  sent_set, fresh_set, delivery, delivery-AllValid, sample-Decodes, part_set_from_block_runs,
  new_part_set_runs,
}
use melete.Height.{HeightData, Wire}
use melete.Height.Blocks.{Stores, add_parts-Stores}
use melete.Height.Receive.{waiting_parts}
use melete.Height.Proposed.{IsDue}
use melete.Height.Finished.{Finishes, add_proposal-Finishes}
use melete.Signer.{verify_signature}
use melete.PartSet.Receive.{AllValid}
use melete.PartSet.Arrive.{HasAll}
use melete.PartSet.{Part, validate_part}
use melete.PartSet.Sample.{first_part, second_part}
use melete.Height.Gathered.{AllOf}
use melete.Merkle.{leaf_hash, validate_proof}
use melete.Base.{◌++◌, List}
use melete.Height.Sample.{
  at_start-IsStepped, all_votes-IsTallied, my_votes_are, peers, powers, keys, proposal, vote,
  encode, no_votes, all_votes, with_votes,
}

no_votes-IsTallied : (q : Option Proposal) → IsTallied powers q no_votes
unfolding new_tally new_bit_vector
no_votes-IsTallied q = new_tally-IsTallied powers q

with_votes-IsStaked : IsStaked toy_bls encode powers (with_votes no_votes)
unfolding lookup bytes_equal verifier_size
with_votes-IsStaked = record { powers = refl; val_set = keys; known = refl; covered = omega arith }

add_ballot-Counted_example :
    Counted toy_bls encode powers
      (with_votes no_votes)
      (add_ballot toy_bls encode (with_votes no_votes) no_votes (vote 1 6))
add_ballot-Counted_example =
    add_ballot-Counted toy_bls encode powers (with_votes no_votes) no_votes (vote 1 6) 1
      with_votes-IsStaked (no_votes-IsTallied (some proposal)) refl

abbrev early_vote : Tally
early_vote = record no_votes { ballots = none ∷ some (vote 1 6) ∷ none ∷ [] }

early_vote-IsTallied : IsTallied powers none early_vote
unfolding bit is_for
early_vote-IsTallied = record {
  vector = record { bits = 3; elems = 0 ∷ [] };
  has_vector = refl;
  valid = record { enough = refl; all_bytes = omega arith };
  sized = refl;
  slots = refl;
  totals = refl;
  matched = unset;
}
  where
    unset :
        (i : ℕ)
        → test (record { bits = 3; elems = 0 ∷ [] }) i ≡ true
        → (p : Ballot) × (get_elem? early_vote.ballots i ≡ some (some p)) × (is_for none p ≡ true)
    unset zero e = absurd (cc)
    unset (suc zero) e = absurd (cc)
    unset (suc (suc zero)) e = absurd (cc)
    unset (suc (suc (suc i))) e = absurd (ground arith)

recount-IsTallied_example :
    (u : Tally) × (recount peers proposal 0 early_vote.ballots early_vote ≡ done u)
    × IsTallied powers (some proposal) u
recount-IsTallied_example =
    recount-IsTallied peers powers proposal refl early_vote early_vote-IsTallied

finish_cross_shard-Advanced_example :
    Advanced toy_bls 6
      (with_votes all_votes)
      (finish_cross_shard_accept toy_bls (with_votes all_votes))
    × Advanced toy_bls 6
        (with_votes all_votes)
        (finish_cross_shard_proposal toy_bls (with_votes all_votes))
    × Advanced toy_bls 7
        (with_votes all_votes)
        (finish_cross_shard_commit_i toy_bls (with_votes all_votes))
finish_cross_shard-Advanced_example =
    finish_cross_shard-Advanced toy_bls (with_votes all_votes) (at_start-IsStepped all_votes)

precommit_finished : (finish_precommit toy_bls (with_votes all_votes)).1 ≡ true
unfolding finish_precommit lookup bytes_equal ◌+ℤ◌ div_ℤ
precommit_finished = refl

finish_precommit_quorum_example :
    ((some proposal) ≢ none)
    × (2 * 3 / 3 < bit_power all_votes-IsTallied.vector 0 powers)
    × (2 * 3 / 3 < bit_power all_votes-IsTallied.vector 0 powers)
finish_precommit_quorum_example =
    finish_precommit_quorum toy_bls powers (with_votes all_votes) (at_start-IsStepped all_votes)
      all_votes-IsTallied all_votes-IsTallied my_votes_are precommit_finished

abbrev wire : Wire
wire = record {
  encode_proposal = λ p. [];
  encode_prevote = λ p. [];
  encode_precommit = λ p. [];
  encode_accept = λ p. [];
}

-- The data before a part of the sample block came.
abbrev before_parts : HeightData toy_bls
before_parts = record (with_votes no_votes) {
  pass_step = 0;
  cross_shard_part_sets = (97 ∷ [], fresh_set) ∷ [];
  cross_shard_blocks = [];
}

sample_known :
    lookup sample_block.header.chain_id before_parts.cross_shard_part_sets ≡ some fresh_set
unfolding bytes_equal lookup
sample_known = refl

sample_some_bytes : 0 < length (block_bytes sample_codec sample_block)
unfolding block_bytes
sample_some_bytes = omega arith

add_parts-Stores_example :
    Stores toy_bls toy_hash sample_codec wire before_parts sample_block delivery
    ⊎ Collision toy_hash
add_parts-Stores_example =
    add_parts-Stores toy_bls toy_hash sample_codec wire before_parts sample_block 2 (pos 0) sent_set
      fresh_set delivery (omega arith) refl sample-Decodes (omega arith) sample_some_bytes
      part_set_from_block_runs new_part_set_runs sample_known refl refl delivery-AllValid
      (refl, (refl, (refl, tt))) ((2, refl), ((0, refl), tt))

-- The data of a node that waits for the proposal of the sample block and has one of its parts.
abbrev before_proposal : HeightData toy_bls
before_proposal = record (with_votes no_votes) {
  pass_step = 0;
  proposal = none;
  cross_shard_blocks = [];
  random_header_buffer = (97 ∷ [], second_part ∷ []) ∷ [];
}

-- The bytes to sign are none, so the signature is the key.
abbrev due_proposal : Proposal
due_proposal = record {
  vote_type = 1;
  header = sent_set.header;
  proposer_index = pos 2;
  block_header_hash = sent_set.block_header_hash;
  signature = 7 ∷ [];
}

abbrev late : List Part
late = first_part ∷ []

before_proposal-IsDue :
    IsDue toy_bls toy_hash sample_codec wire before_proposal due_proposal (pos 2) sent_set
unfolding lookup bytes_equal verify_signature
before_proposal-IsDue = record {
  none_yet = refl;
  of_header = refl;
  of_hash = refl;
  at_height = refl;
  at_round = refl;
  by_proposer = refl;
  of_shard = refl;
  keys = keys;
  has_keys = refl;
  signed = refl;
  powers = powers;
  staked = refl;
  prevotes = no_votes-IsTallied none;
  precommits = no_votes-IsTallied none;
}

abbrev early : List Part
early =
    waiting_parts toy_bls toy_hash sample_codec wire before_proposal due_proposal.header.chain_id

early-AllValid : AllValid early
unfolding lookup bytes_equal validate_part validate_proof leaf_hash
early-AllValid = (refl, tt)

early-AllOf : AllOf sample_block.header.chain_id early
unfolding lookup bytes_equal
early-AllOf = (refl, tt)

all-HasAll : HasAll sent_set.parts (early ++ late)
unfolding lookup bytes_equal
all-HasAll = ((1, refl), ((0, refl), tt))

late-AllValid : AllValid late
unfolding validate_part validate_proof leaf_hash
late-AllValid = (refl, tt)

add_proposal-Finishes_example :
    Finishes toy_bls toy_hash sample_codec wire before_proposal due_proposal
      (pos 2)
      sample_block
      late
    ⊎ Collision toy_hash
add_proposal-Finishes_example =
    add_proposal-Finishes toy_bls toy_hash sample_codec wire before_proposal due_proposal (pos 2)
      sample_block 2 (pos 0) sent_set late (omega arith) refl sample-Decodes (omega arith)
      sample_some_bytes part_set_from_block_runs before_proposal-IsDue early-AllValid early-AllOf
      late-AllValid (refl, tt) all-HasAll
