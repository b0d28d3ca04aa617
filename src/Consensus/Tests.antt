-- ===== src/Consensus/Tests.antt =====
-- A node of the sample height over an application that does nothing, and the theorems at it.
use melete.Base.{
  ℕ, ◌≡◌, ◌≢◌, ◌<◌, ◌*◌, ◌/◌, ◌+◌, ◌++◌, refl, [], ◌∷◌, Option, none, some, true, arith, replicate,
}
use melete.Base.Bits.{test_bit}
use melete.Base.Bytes.{bytes_equal}
use melete.Base.Int.{pos, negsuc, eq_ℤ, ◌+ℤ◌, div_ℤ}
use melete.Base.Encoding.{Encoding}
use melete.Base.Outcome.{done, panic}
use melete.Base.Table.{lookup, insert}
use melete.BitVector.{new_bit_vector, BitVector, get_index, set_index, size, to_bytes}
use melete.BitVector.Valid.{IsValid, test}
use melete.Merkle.Toy.{toy_hash}
use melete.Block.Sample.{sample_codec}
use melete.Signer.{verifier_size, verify_signature}
use melete.Accepts.{vote_at}
use melete.Signer.Toy.{toy_bls}
use melete.Vote.{Ballot, validate_prevote, precommit_to_proto}
use melete.Vote.Cross.{CrossShardProposal}
use melete.Height.{Wire, new_tally}
use melete.Height.Sample.{
  at_start-IsStepped, all_votes-IsTallied, my_votes_are, proposal, vote, keys, no_votes, all_votes,
  with_votes,
}
use melete.Consensus.{
  Node, ConsensusState, prevote_message, precommit_message, relayed, calculate_proposer,
}
use melete.Consensus.Cross.{and_statuses}
use melete.Consensus.Run.{
  run_call, do_message, is_valid, run_transition, transition, moment_of, run_message, run_calls,
  receive,
}
use melete.Consensus.Relay.{run_message-early, IsAligned}
use melete.Consensus.Turn.{calculate_proposer_comes}
use melete.Consensus.Statuses.{and_statuses_lem, statuses_of, all_set, least_size}
use melete.Consensus.Moment.{IsRunning}
use melete.Consensus.Invariant.{Reach-IsRunning}
use melete.Consensus.Life.{IsAdmitted, entered, comes, called}
use melete.Consensus.Create.{enter_new_height}
use melete.Base.Table.{Table, delete}
use melete.Base.{List}
use melete.Base.Int.{ℤ}
use melete.Consensus.{Message}
use melete.Vote.Commit.{bit_power}
use melete.Height.Sample.{powers}
use melete.Consensus.Quorum.{run_transition_quorum}
use melete.Consensus.Crash.{receive_panics}
use melete.Consensus.Decode.{Protobuf, message_type, proto_bytes, receive_bytes}
use melete.Consensus.RoundTrip.{IsReadable, receive_bytes-proto_bytes}
use melete.Convert.{narrow}

abbrev idle : Node
idle = record {
  App = Unit {0};
  pre_execution_c = λ a block. done (a, block, true, []);
  pre_execution_i = λ a blocks. done (a, []);
  execution = λ a cs vs is. done (a, record { cross_shard_resps = []; inner_shard_resps = [] });
  commit = λ a. (a, []);
  Mempool = Unit {0};
  reap_tx = λ m k. some ([], 0);
  update = λ m txs bz. done m;
  sign = λ bz. 10 ∷ [];
  signer_index = pos 0;
  min_block_interval = pos 5;
  max_part_size = 2;
  max_block_tx_num = 4;
  now = pos 100;
}

abbrev wire : Wire
wire = record {
  encode_proposal = λ p. 1 ∷ [];
  encode_prevote = λ p. 2 ∷ [];
  encode_precommit = λ p. 3 ∷ [];
  encode_accept = λ p. 4 ∷ [];
}

-- In the step of the prevotes, with every prevote and no precommit.
abbrev node : ConsensusState toy_bls idle
node = record {
  height = pos 3;
  round = pos 0;
  step = 4;
  mempool = tt;
  cross_shard_mempool = tt;
  app = tt;
  height_datas = record (with_votes all_votes) { precommits = no_votes };
  relay_message_channel = [];
  last_block_time = pos 90;
  last_block_hash = [];
  last_chained_hash = [];
  last_related_commit_status = [];
  last_commit_status = [];
  last_receipt_root = [];
  last_state_root = [];
  block_hash = 4 ∷ [];
  chained_hash = [];
  related_commit_status = [];
  commit_status = [];
  sent = [];
  stored = [];
}

node-IsAligned : IsAligned toy_bls toy_hash sample_codec wire idle node
node-IsAligned = (refl, refl, refl)

-- A prevote for two heights later.
abbrev early_vote : Ballot
early_vote = record (vote 1 6) { height = pos 5 }

run_message-early_example :
    (u : Table ℤ (Table ℤ (List Message))) × (run_message toy_bls toy_hash sample_codec wire idle
        node
        (prevote_message early_vote)
      ≡ done (record node { relay_message_channel = u }, none, []))
    × (relayed toy_bls idle (record node { relay_message_channel = u }) (pos 5) (pos 0)
        ≡ relayed toy_bls idle node (pos 5) (pos 0) ++ (prevote_message early_vote ∷ []))
unfolding get_index moment_of test_bit eq_ℤ
run_message-early_example =
    run_message-early toy_bls toy_hash sample_codec wire idle node (prevote_message early_vote)
      (pos 5) (pos 0) node-IsAligned (true, refl) refl

calculate_proposer_comes_example :
    (k : ℕ) × (k < 3)
    × (calculate_proposer toy_bls idle (record node { height = pos (3 + k) }) ≡ done (pos 2))
unfolding verifier_size lookup bytes_equal
calculate_proposer_comes_example =
    calculate_proposer_comes toy_bls idle node keys 3 2 refl refl (omega arith)

abbrev five : BitVector
five = record { bits = 3; elems = 5 ∷ [] }

abbrev three : BitVector
three = record { bits = 2; elems = 3 ∷ [] }

five-IsValid : IsValid five
five-IsValid = record { enough = refl; all_bytes = omega arith }

three-IsValid : IsValid three
three-IsValid = record { enough = refl; all_bytes = omega arith }

and_statuses_lem_example :
    (u : BitVector) × (and_statuses none (statuses_of (five ∷ three ∷ [])) ≡ done (some u))
    × IsValid u
    × (u.bits ≡ least_size 3 (three ∷ []))
    × ((i : ℕ) → test u i ≡ all_set (test five i) i (three ∷ []))
and_statuses_lem_example = and_statuses_lem five (three ∷ []) five-IsValid (three-IsValid, tt)

-- A prevote with the index -8.
abbrev negative_vote : Ballot
negative_vote = record (vote 1 6) { validator_index = negsuc 7; block_header_hash = replicate 32 4 }

receive_panics_example :
    (validate_prevote negative_vote ≡ none)
    × (receive toy_bls toy_hash sample_codec wire idle 3 node (prevote_message negative_vote)
        ≡ some panic)
unfolding eq_ℤ
receive_panics_example =
    receive_panics toy_bls toy_hash sample_codec wire idle 3 node negative_vote
      (record { bits = 3; elems = 7 ∷ [] }) 7 refl
      (record { enough = refl; all_bytes = omega arith }) (omega arith) refl (omega arith) refl refl
      refl

-- The node's own precommit, and the node after it is cast.
abbrev own_precommit : Ballot
own_precommit = record {
  vote_type = 3;
  code = pos 1;
  height = pos 3;
  round = pos 0;
  block_header_hash = 4 ∷ [];
  signature = 10 ∷ [];
  validator_index = pos 0;
}

-- An encoding of one message, or of none.
abbrev encoding_of : {P : Type 0} → Option P → Encoding P
encoding_of q = record { marshal = λ m. 1 ∷ []; unmarshal = λ bz. q }

abbrev precommits_only : Protobuf
precommits_only = record {
  part = encoding_of none;
  proposal = encoding_of none;
  prevote = encoding_of none;
  precommit = encoding_of (some own_precommit);
  cross_shard_proposal = encoding_of none;
  cross_shard_accept = encoding_of none;
  cross_shard_commit = encoding_of none;
}

own_precommit-IsReadable : IsReadable precommits_only (precommit_message own_precommit)
unfolding precommit_to_proto narrow
own_precommit-IsReadable = refl

receive_bytes-proto_bytes_example :
    receive_bytes toy_bls toy_hash sample_codec wire idle precommits_only 3 node
      (proto_bytes precommits_only (precommit_message own_precommit))
      (message_type (precommit_message own_precommit))
    ≡ receive toy_bls toy_hash sample_codec wire idle 3 node (precommit_message own_precommit)
receive_bytes-proto_bytes_example =
    receive_bytes-proto_bytes toy_bls toy_hash sample_codec wire idle precommits_only 3 node
      (precommit_message own_precommit) own_precommit-IsReadable
      (record { int8_code = omega arith; int32_round = omega arith; int32_index = omega arith })

abbrev precommitted : ConsensusState toy_bls idle
precommitted = record node {
  step = 5;
  height_datas = record (with_votes all_votes) {
    pass_step = 4;
    precommits = record {
      ballots = some own_precommit ∷ none ∷ none ∷ [];
      bits = some (record { bits = 3; elems = 1 ∷ [] });
      total = pos 1;
    };
  };
  sent = record { shard = 97 ∷ []; message = precommit_message own_precommit } ∷ [];
}

calls_run :
    run_calls toy_bls toy_hash sample_codec wire idle 5 (transition ∷ []) node
    ≡ some (done precommitted)
unfolding run_calls lookup bytes_equal div_ℤ ◌+ℤ◌ get_index test_bit eq_ℤ verifier_size
    verify_signature set_index vote_at
calls_run = refl

-- A node before its `Start`.
abbrev fresh : ConsensusState toy_bls idle
fresh = record node {
  height = pos 0;
  step = 1;
  height_datas = record (with_votes no_votes) {
    height = pos 0;
    pass_step = 1;
    proposal = none;
    cross_shard_blocks = [];
  };
}

-- The node at its first height, and after a prevote.
abbrev started : ConsensusState toy_bls idle
started = record fresh {
  height = pos 1;
  step = 3;
  last_block_hash = 4 ∷ [];
  height_datas = record fresh.height_datas { height = pos 1 };
}

abbrev first_vote : Ballot
first_vote = record (vote 1 6) { height = pos 1; block_header_hash = replicate 32 4 }

abbrev with_vote : ConsensusState toy_bls idle
with_vote = record started {
  height_datas = record started.height_datas {
    prevotes = record no_votes { ballots = none ∷ some first_vote ∷ none ∷ [] };
  };
}

start_runs : enter_new_height toy_bls toy_hash sample_codec wire idle fresh ≡ done (started, [])
unfolding enter_new_height lookup bytes_equal verifier_size eq_ℤ ◌+ℤ◌ delete new_tally
    new_bit_vector calculate_proposer
start_runs = refl

vote_runs :
    run_call toy_bls toy_hash sample_codec wire idle started
      (do_message (prevote_message first_vote))
    ≡ done (with_vote, none, transition ∷ [])
unfolding run_call lookup bytes_equal verifier_size eq_ℤ ◌+ℤ◌ get_index test_bit verify_signature
    moment_of
vote_runs = refl

wait_runs :
    run_call toy_bls toy_hash sample_codec wire idle with_vote transition
    ≡ done (with_vote, none, [])
unfolding run_call lookup bytes_equal
wait_runs = refl

first_vote-IsAdmitted :
    IsAdmitted toy_bls toy_hash sample_codec wire idle started (prevote_message first_vote)
unfolding is_valid lookup bytes_equal
first_vote-IsAdmitted = (refl, refl)

Reach-IsRunning_example : IsRunning toy_bls idle with_vote
Reach-IsRunning_example =
    Reach-IsRunning toy_bls toy_hash sample_codec wire idle fresh with_vote [] refl (
      called
        (called (comes (prevote_message first_vote) first_vote-IsAdmitted (entered refl start_runs))
          vote_runs)
        wait_runs)

-- With every vote, in the step of the precommits and not the proposer: the validator's aggregate of
-- the three precommits.
abbrev voted : ConsensusState toy_bls idle
voted = record node { height = pos 4; step = 5; height_datas = with_votes all_votes }

abbrev aggregated : CrossShardProposal
aggregated = record {
  vote_type = 5;
  shard_type = 8;
  aggregated_signatures = record {
    vote_type = 4;
    code = pos 1;
    validator_bit_vector = some (record { bits = 3; elems = 7 ∷ [] });
    header = proposal.header;
    block_header_hash = 4 ∷ [];
    aggregated_signatures = 36 ∷ [];
  };
}

abbrev proposed : ConsensusState toy_bls idle
proposed = record voted {
  step = 6;
  height_datas = record (with_votes all_votes) {
    pass_step = 5;
    cross_shard_proposals = (97 ∷ [], aggregated) ∷ [];
  };
}

transition_runs :
    run_transition toy_bls toy_hash sample_codec wire idle voted
    ≡ done (proposed, none, transition ∷ [])
unfolding run_transition lookup bytes_equal div_ℤ ◌+ℤ◌ eq_ℤ size get_index test_bit to_bytes
    calculate_proposer verifier_size insert
transition_runs = refl

left_step : proposed.step ≢ 5
left_step e = omega (arith, e)

run_transition_quorum_example :
    ((some proposal) ≢ none)
    × (2 * 3 / 3 < bit_power all_votes-IsTallied.vector 0 powers)
    × (2 * 3 / 3 < bit_power all_votes-IsTallied.vector 0 powers)
run_transition_quorum_example =
    run_transition_quorum toy_bls toy_hash sample_codec wire idle powers voted
      (proposed, none, transition ∷ []) (at_start-IsStepped all_votes) all_votes-IsTallied
      all_votes-IsTallied my_votes_are refl transition_runs left_step
