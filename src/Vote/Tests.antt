-- ===== src/Vote/Tests.antt =====
-- Messages that are copied to protobuf and back, and a commit that is accepted.
use melete.Base.{ℕ, ◌≡◌, ◌<◌, ◌*◌, ◌/◌, refl, List, [], ◌∷◌, none, some, arith, replicate, length}
use melete.Base.Bits.{bit, test_bit}
use melete.Base.Bytes.{Bytes}
use melete.Base.Int.{pos, ◌+ℤ◌, wrap_int32, div_ℤ}
use melete.Base.Outcome.{done}
use melete.BitVector.{BitVector, to_bytes, from_bytes, get_index, size}
use melete.BitVector.Valid.{IsValid}
use melete.Convert.{narrow}
use melete.PartSet.{PartSetHeader}
use melete.Signer.{Verifier, verify_aggregate, verifier_size}
use melete.Signer.Toy.{toy_bls}
use melete.Accepts.{Peer, CrossShardAccept, two_thirds}
use melete.Vote.{Proposal}
use melete.Vote.Cross.{CrossShardCommit, validate_vote}
use melete.Vote.Commit.{bit_power, IsAggregated, validate_vote_sound}

abbrev header : PartSetHeader
header = record {
  height = pos 3;
  round = pos 1;
  total = pos 2;
  root = replicate 32 9;
  chain_id = 97 ∷ [];
}

abbrev proposal : Proposal
proposal = record {
  vote_type = 1;
  header = header;
  proposer_index = pos 2;
  block_header_hash = replicate 32 4;
  signature = 8 ∷ [];
}

-- A round that does not fit is changed.
round_wraps : narrow 32 (pos 4294967297) ≡ pos 1
unfolding narrow
round_wraps = refl

abbrev keys : Verifier toy_bls
keys = record { public_keys = some 5 ∷ some 6 ∷ some 7 ∷ [] }

abbrev all_signers : BitVector
all_signers = record { bits = 3; elems = 7 ∷ [] }

all_signers-IsValid : IsValid all_signers
all_signers-IsValid = record { enough = refl; all_bytes = omega arith }

-- All three validators of shard `a` accepted with status 1.
abbrev commit : CrossShardCommit
commit = record {
  vote_type = 7;
  upper_chain_id = 98 ∷ [];
  height = pos 3;
  block_header_hash = replicate 32 4;
  chain_list = (97 ∷ []) ∷ [];
  aggregated_signature_list = (36 ∷ []) ∷ [];
  validator_bit_vector_list = some all_signers ∷ [];
  commit_status_list = (1 ∷ []) ∷ [];
}

abbrev encode_accept : CrossShardAccept → Bytes
encode_accept c = c.commit_status

abbrev peer : ℕ → Peer
peer key = record { ip = []; chain = []; pubkey = key ∷ []; vote = pos 1 }

abbrev peers : List Peer
peers = peer 5 ∷ peer 6 ∷ peer 7 ∷ []

validate_vote_runs : validate_vote toy_bls encode_accept commit peers keys 0 (pos 3) ≡ done none
unfolding validate_vote two_thirds get_index test_bit bit size verifier_size verify_aggregate
    from_bytes to_bytes ◌+ℤ◌ wrap_int32 div_ℤ
validate_vote_runs = refl

validate_vote_sound_example :
    (length peers ≡ 3)
    × (2 * 3 / 3 < bit_power all_signers 0 (1 ∷ 1 ∷ 1 ∷ []))
    × IsAggregated toy_bls encode_accept commit keys 0 all_signers
validate_vote_sound_example =
    validate_vote_sound toy_bls encode_accept commit peers keys 0 (1 ∷ 1 ∷ 1 ∷ []) all_signers refl
      all_signers-IsValid refl (omega arith) validate_vote_runs
