-- ===== src/Height/Sample.antt =====
-- A height with three validators for runs: their keys, a proposal, votes and the data with them.
use melete.Base.{
  ℕ, ◌*◌, List, [], ◌∷◌, replicate, none, some, zero, suc, ◌≡◌, refl, true, arith, get_elem?,
}
use melete.Base.Bytes.{Bytes, bytes_equal}
use melete.Base.Int.{pos}
use melete.BitVector.{BitVector}
use melete.Block.Sample.{sample_block}
use melete.Signer.{Verifier}
use melete.Signer.Toy.{toy_bls}
use melete.Accepts.{Peer}
use melete.Vote.{Proposal, Ballot}
use melete.Height.{HeightData, Tally, ShardInfo, is_for}
use melete.Base.Bits.{bit}
use melete.Base.Table.{lookup}
use melete.BitVector.Valid.{test}
use melete.Height.Step.{my_votes}
use melete.Height.Tallied.{IsTallied}
use melete.Height.Advance.{IsStepped}

abbrev pub peer : ℕ → Peer
peer key = record { ip = []; chain = []; pubkey = key ∷ []; vote = pos 1 }

abbrev pub peers : List Peer
peers = peer 5 ∷ peer 6 ∷ peer 7 ∷ []

abbrev pub powers : List ℕ
powers = 1 ∷ 1 ∷ 1 ∷ []

abbrev pub keys : Verifier toy_bls
keys = record { public_keys = some 5 ∷ some 6 ∷ some 7 ∷ [] }

abbrev pub proposal : Proposal
proposal = record {
  vote_type = 1;
  header = record {
    height = pos 3;
    round = pos 0;
    total = pos 2;
    root = replicate 32 9;
    chain_id = 97 ∷ [];
  };
  proposer_index = pos 2;
  block_header_hash = 4 ∷ [];
  signature = 8 ∷ [];
}

-- A vote for the proposal; the bytes to sign are one byte, so the signature is twice the key.
abbrev pub vote : ℕ → ℕ → Ballot
vote i key = record {
  vote_type = 2;
  code = pos 1;
  height = pos 3;
  round = pos 0;
  block_header_hash = 4 ∷ [];
  signature = (2 * key) ∷ [];
  validator_index = pos i;
}

abbrev pub encode : Ballot → Bytes
encode p = p.vote_type ∷ []

abbrev pub shard : ShardInfo
shard = record {
  peer_list = (97 ∷ [], peers) ∷ [];
  related_shards = [];
  related_2_level_shards = [];
  peer_related_map = [];
  shard_identity = pos 1;
}

abbrev pub no_votes : Tally
no_votes = record {
  ballots = none ∷ none ∷ none ∷ [];
  bits = some (record { bits = 3; elems = 0 ∷ [] });
  total = pos 0;
}

abbrev pub all_bits : BitVector
all_bits = record { bits = 3; elems = 7 ∷ [] }

abbrev pub all_votes : Tally
all_votes = record {
  ballots = some (vote 0 5) ∷ some (vote 1 6) ∷ some (vote 2 7) ∷ [];
  bits = some all_bits;
  total = pos 3;
}

abbrev pub with_votes : Tally → HeightData toy_bls
with_votes t = record {
  height = pos 3;
  round = pos 0;
  my_chain_id = 97 ∷ [];
  pass_step = 1;
  shard_info = shard;
  shard_votes = (97 ∷ [], pos 3) ∷ [];
  all_validator_set = (97 ∷ [], keys) ∷ [];
  proposal = some proposal;
  prevotes = t;
  precommits = t;
  cross_shard_proposals = [];
  cross_shard_accepts = [];
  cross_shard_accept_finish_counter = 0;
  cross_shard_commits = [];
  cross_shard_part_sets = [];
  cross_shard_blocks = (97 ∷ [], sample_block) ∷ [];
  random_header_buffer = [];
}

pub at_start-IsStepped : (t : Tally) → IsStepped toy_bls (with_votes t)
at_start-IsStepped t = record {
  proposed = λ e. absurd (omega arith);
  prevoted = λ e. absurd (omega arith);
  precommitted = λ e. absurd (omega arith);
}

all_votes-matched :
    (i : ℕ)
    → test all_bits i ≡ true
    → (p : Ballot) × (get_elem? all_votes.ballots i ≡ some (some p))
      × (is_for (some proposal) p ≡ true)
unfolding is_for bytes_equal
all_votes-matched zero e = (vote 0 5, refl, refl)
all_votes-matched (suc zero) e = (vote 1 6, refl, refl)
all_votes-matched (suc (suc zero)) e = (vote 2 7, refl, refl)
all_votes-matched (suc (suc (suc i))) e = absurd (ground arith)

pub all_votes-IsTallied : IsTallied powers (some proposal) all_votes
unfolding bit
all_votes-IsTallied = record {
  vector = all_bits;
  has_vector = refl;
  valid = record { enough = refl; all_bytes = omega arith };
  sized = refl;
  slots = refl;
  totals = refl;
  matched = all_votes-matched;
}

pub my_votes_are : my_votes toy_bls (with_votes all_votes) ≡ pos 3
unfolding lookup bytes_equal
my_votes_are = refl
