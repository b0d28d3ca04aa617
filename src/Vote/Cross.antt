-- ===== src/Vote/Cross.antt =====
-- melete/consensus/constypes/vote.go: aggregated votes, and the messages between shards.
use melete.Base.{
  ℕ, suc, List, [], ◌∷◌, map, Option, none, some, Bool, false, not, ◌&&◌, if◌then◌else◌, length,
  get_elem?, ◌==◌,
}
use melete.Base.Bytes.{Bytes, Text}
use melete.Base.Int.{ℤ, pos, negsuc, ltb_ℤ, ◌+ℤ◌, wrap_int32}
use melete.Base.Outcome.{Outcome, done, or_panic, ◌>>=◌}
use melete.BitVector.{BitVector, to_bytes, from_bytes, get_index, size}
use melete.Convert.{narrow}
use melete.Merkle.{hash_size}
use melete.PartSet.{PartSetHeader, validate_header}
use melete.Signer.{Bls, Verifier, verifier_size, verify_aggregate}
use melete.Accepts.{Peer, CrossShardAccept, unsigned, two_thirds}
use melete.Vote.{
  VoteError, wrong_vote_type, not_a_hash, no_bit_vector, wrong_shard_type, bad_header,
  vote_type_precommit_aggregated, code_type_ok, PartSetHeaderProto, header_to_proto,
  header_from_proto, Ballot, Precommit, new_precommit, precommit_sign_proto,
}

abbrev pub vote_type_cross_shard_proposal : ℕ
vote_type_cross_shard_proposal = 5

abbrev pub vote_type_cross_shard_accept : ℕ
vote_type_cross_shard_accept = 6

abbrev pub vote_type_cross_shard_commit : ℕ
vote_type_cross_shard_commit = 7

abbrev pub shard_type_i : ℕ
shard_type_i = 8

abbrev pub shard_type_c : ℕ
shard_type_c = 9

-- A vector that is nil in Go is `none`.
pub record PrecommitAggregated : Type 0 where
  pub vote_type : ℕ
  pub code : ℤ
  pub validator_bit_vector : Option BitVector
  pub header : PartSetHeader
  pub block_header_hash : Bytes
  pub aggregated_signatures : Text

pub record PrecommitAggregatedProto : Type 0 where
  pub vote_type : ℕ
  pub code : ℤ
  pub validator_bit_vector : Bytes
  pub header : Option PartSetHeaderProto
  pub block_header_hash : Bytes
  pub aggregated_signatures : Text

-- `PrecommitAggregated.ValidateBasic`
unfoldable pub validate_precommit_aggregated : PrecommitAggregated → Option VoteError
validate_precommit_aggregated p =
    if not (p.vote_type == vote_type_precommit_aggregated)
    then some wrong_vote_type
    else elim p.validator_bit_vector [
      | none ↦ some no_bit_vector
      | some bv ↦ elim (validate_header p.header) [
        | some e ↦ some (bad_header e)
        | none ↦ if not (length p.block_header_hash == hash_size) then some not_a_hash else none
      ]
    ]

unfoldable pub new_precommit_aggregated :
    Bytes → PartSetHeader → Bytes → Text → Outcome PrecommitAggregated
new_precommit_aggregated bits header block_header_hash signatures = from_bytes bits >>= λ bv.
    done (record {
      vote_type = vote_type_precommit_aggregated;
      code = code_type_ok;
      validator_bit_vector = bv;
      header = header;
      block_header_hash = block_header_hash;
      aggregated_signatures = signatures;
    })

unfoldable pub precommit_aggregated_to_proto : PrecommitAggregated → PrecommitAggregatedProto
unfolding header_to_proto
precommit_aggregated_to_proto p = record {
  vote_type = p.vote_type;
  code = p.code;
  validator_bit_vector = to_bytes p.validator_bit_vector;
  header = some (header_to_proto p.header);
  block_header_hash = p.block_header_hash;
  aggregated_signatures = p.aggregated_signatures;
}

unfoldable pub precommit_aggregated_from_proto :
    PrecommitAggregatedProto → Outcome PrecommitAggregated
unfolding header_from_proto
precommit_aggregated_from_proto p = from_bytes p.validator_bit_vector >>= λ bv.
    or_panic p.header >>= λ header. done (record {
      vote_type = p.vote_type;
      code = narrow 8 p.code;
      validator_bit_vector = bv;
      header = header_from_proto header;
      block_header_hash = p.block_header_hash;
      aggregated_signatures = p.aggregated_signatures;
    })

-- `PrecommitAggregated.Precommit`: the vote that all of its validators signed.
unfoldable pub aggregated_precommit : PrecommitAggregated → Precommit
unfolding new_precommit
aggregated_precommit p =
    record (new_precommit p.header.height p.header.round p.block_header_hash (negsuc 0)) {
      code = p.code;
    }

-- `VerifySignatures`; a nil verifier refuses. `encode` is the protobuf encoding.
unfoldable pub verify_signatures :
    (b : Bls) → (Ballot → Bytes) → PrecommitAggregated → Option (Verifier b) → Bytes → Outcome Bool
unfolding aggregated_precommit precommit_sign_proto
verify_signatures b encode p none bits = done false
verify_signatures b encode p (some v) bits =
    verify_aggregate b v p.aggregated_signatures
      (encode (precommit_sign_proto (aggregated_precommit p))) bits

pub record CrossShardProposal : Type 0 where
  pub vote_type : ℕ
  pub shard_type : ℕ
  pub aggregated_signatures : PrecommitAggregated

-- `CrossShardProposal.ValidateBasic`
unfoldable pub validate_cross_shard_proposal : CrossShardProposal → Option VoteError
unfolding validate_precommit_aggregated
validate_cross_shard_proposal c =
    if not (c.vote_type == vote_type_cross_shard_proposal)
    then some wrong_vote_type
    else if not (c.shard_type == shard_type_c) && not (c.shard_type == shard_type_i)
    then some wrong_shard_type
    else validate_precommit_aggregated c.aggregated_signatures

unfoldable pub new_cross_shard_accept : Text → Text → ℤ → Bytes → Bytes → ℤ → CrossShardAccept
new_cross_shard_accept upper accept height hash status index = record {
  vote_type = vote_type_cross_shard_accept;
  upper_chain_id = upper;
  accept_chain_id = accept;
  height = height;
  block_header_hash = hash;
  commit_status = status;
  signature = [];
  validator_index = index;
}

-- `CrossShardAccept.ToProto`, whose copy has the same fields.
unfoldable pub accept_to_proto : CrossShardAccept → CrossShardAccept
accept_to_proto c = record c { validator_index = narrow 32 c.validator_index }

pub record CrossShardCommit : Type 0 where
  pub vote_type : ℕ
  pub upper_chain_id : Text
  pub height : ℤ
  pub block_header_hash : Bytes
  pub chain_list : List Text
  pub aggregated_signature_list : List Text
  pub validator_bit_vector_list : List (Option BitVector)
  pub commit_status_list : List Bytes

pub record CrossShardCommitProto : Type 0 where
  pub vote_type : ℕ
  pub upper_chain_id : Text
  pub height : ℤ
  pub block_header_hash : Bytes
  pub chain_list : List Text
  pub aggregated_signature_list : List Text
  pub validator_bit_vector_list : List Bytes
  pub commit_status_list : List Bytes

-- The loop that reads the bit vectors.
unfoldable pub read_bit_vectors : List Bytes → Outcome (List (Option BitVector))
read_bit_vectors [] = done []
read_bit_vectors (bz ∷ rest) =
    from_bytes bz >>= λ bv. read_bit_vectors rest >>= λ bvs. done (bv ∷ bvs)

unfoldable pub commit_to_proto : CrossShardCommit → CrossShardCommitProto
commit_to_proto c = record {
  vote_type = c.vote_type;
  upper_chain_id = c.upper_chain_id;
  height = c.height;
  block_header_hash = c.block_header_hash;
  chain_list = c.chain_list;
  aggregated_signature_list = c.aggregated_signature_list;
  validator_bit_vector_list = map to_bytes c.validator_bit_vector_list;
  commit_status_list = c.commit_status_list;
}

unfoldable pub commit_from_proto : CrossShardCommitProto → Outcome CrossShardCommit
unfolding read_bit_vectors
commit_from_proto p = read_bit_vectors p.validator_bit_vector_list >>= λ bvs. done (record {
  vote_type = p.vote_type;
  upper_chain_id = p.upper_chain_id;
  height = p.height;
  block_header_hash = p.block_header_hash;
  chain_list = p.chain_list;
  aggregated_signature_list = p.aggregated_signature_list;
  validator_bit_vector_list = bvs;
  commit_status_list = p.commit_status_list;
})

pub data CommitError : Type 0 where
  nil_peer_list wrong_validator_set wrong_bit_vector less_than_two_thirds bad_aggregate :
      CommitError

-- `getCrossShardAccept`: lists that are too short panic.
unfoldable pub get_cross_shard_accept : CrossShardCommit → ℕ → ℤ → Outcome CrossShardAccept
unfolding new_cross_shard_accept
get_cross_shard_accept c i index = or_panic (get_elem? c.chain_list i) >>= λ chain.
    or_panic (get_elem? c.commit_status_list i) >>= λ status.
    done (new_cross_shard_accept c.upper_chain_id chain c.height c.block_header_hash status index)

-- The loop of `ValidateVote` over the peers from index `i` on.
unfoldable pub voted_power : Option BitVector → ℕ → List Peer → ℤ → Outcome ℤ
voted_power bv i [] total = done total
voted_power bv i (p ∷ ps) total =
    let counted = voted_power bv (suc i) ps (wrap_int32 (total +ℤ p.vote)) in
    let skipped = voted_power bv (suc i) ps total in
    get_index bv (pos i) >>= λ bit. if bit then counted else skipped

module _ (b : Bls) (encode : CrossShardAccept → Bytes) where
  -- The end of `ValidateVote`: the aggregate of the votes.
  unfoldable pub validate_aggregate :
      CrossShardCommit → Verifier b → ℕ → Option BitVector → Outcome (Option CommitError)
  unfolding get_cross_shard_accept
  validate_aggregate c verifier index bv = get_cross_shard_accept c index (pos 0) >>= λ msg.
      or_panic (get_elem? c.aggregated_signature_list index) >>= λ agg.
      verify_aggregate b verifier agg (encode (unsigned msg)) (to_bytes bv) >>= λ ok.
      done (if ok then none else some bad_aggregate)

  -- `ValidateVote`; the message of the error for too few votes reads the chain list.
  unfoldable pub validate_vote :
      CrossShardCommit → List Peer → Verifier b → ℕ → ℤ → Outcome (Option CommitError)
  unfolding voted_power validate_aggregate
  validate_vote c peers verifier index shard_vote =
      or_panic (get_elem? c.validator_bit_vector_list index) >>= λ bv.
      if length peers == 0
      then done (some nil_peer_list)
      else if not (length peers == verifier_size b verifier)
      then done (some wrong_validator_set)
      else if not (length peers == size bv)
      then done (some wrong_bit_vector)
      else voted_power bv 0 peers (pos 0) >>= λ total.
          if not (ltb_ℤ (two_thirds shard_vote) total)
          then (or_panic (get_elem? c.chain_list index) >>= λ chain.
              done (some less_than_two_thirds))
          else validate_aggregate c verifier index bv
