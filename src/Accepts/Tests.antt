-- ===== src/Accepts/Tests.antt =====
-- Three validators vote, and the theorems on the set that collects their votes.
use mathlib.Core.Path.{subst}
use melete.Base.{ℕ, ◌∙◌, sym, ◌≡◌, refl, List, [], ◌∷◌, some, true, arith, ◌*◌}
use melete.Base.Bytes.{Bytes, bytes_equal}
use melete.Base.Int.{pos, eq_ℤ, ◌+ℤ◌, wrap_int32, div_ℤ}
use melete.Base.Outcome.{Outcome, done}
use melete.Base.Table.{lookup, insert}
use melete.Signer.{Verifier, verify_signature, verifier_size}
use melete.Signer.Toy.{toy_bls}
use melete.Accepts.{
  Peer, CrossShardAccept, CsaShardSet, new_csa_shard_set, add_csa, get_maj23, vote_at,
}
use melete.Accepts.Valid.{IsValid}
use melete.Accepts.Decide.{Kept}
use melete.Accepts.Quorum.{new_csa_shard_set-IsValid}
use melete.Accepts.Add.{add_csa-Kept}
use melete.Accepts.History.{add_all, Certified, get_maj23_certifies, get_maj23_final, add_all-Ran}

abbrev peer : ℕ → Peer
peer key = record { ip = []; chain = []; pubkey = key ∷ []; vote = pos 1 }

abbrev peers : List Peer
peers = peer 5 ∷ peer 6 ∷ peer 7 ∷ []

abbrev powers : List ℕ
powers = 1 ∷ 1 ∷ 1 ∷ []

abbrev keys : Verifier toy_bls
keys = record { public_keys = some 5 ∷ some 6 ∷ some 7 ∷ [] }

-- The encoding to sign is the commit status here.
abbrev status_bytes : CrossShardAccept → Bytes
status_bytes c = c.commit_status

-- The validator's vote for a status of one byte: its signature is twice its key.
abbrev accept : ℕ → ℕ → ℕ → CrossShardAccept
accept i key status = record {
  vote_type = 7;
  upper_chain_id = 98 ∷ [];
  accept_chain_id = 97 ∷ [];
  height = pos 3;
  block_header_hash = 1 ∷ [];
  commit_status = status ∷ [];
  signature = (2 * key) ∷ [];
  validator_index = pos i;
}

abbrev fresh : CsaShardSet toy_bls
fresh = new_csa_shard_set toy_bls (pos 3) (97 ∷ []) peers keys

abbrev ballot : List CrossShardAccept
ballot = accept 0 5 1 ∷ accept 1 6 1 ∷ accept 1 6 1 ∷ accept 2 7 1 ∷ []

abbrev all_votes : List CrossShardAccept
all_votes = accept 0 5 1 ∷ accept 1 6 1 ∷ accept 2 7 1 ∷ []

abbrev decided_set : CsaShardSet toy_bls
decided_set = record {
  val_set = keys;
  peer_list = peers;
  total_voting_power = pos 3;
  height = pos 3;
  chain_id = 97 ∷ [];
  sig_map = (1 ∷ [], all_votes) ∷ [];
  key_vote_power = (1 ∷ [], pos 3) ∷ [];
  index_seen = (pos 0, 1 ∷ []) ∷ (pos 1, 1 ∷ []) ∷ (pos 2, 1 ∷ []) ∷ [];
  has_maj23_flag = true;
  maj23_key = 1 ∷ [];
  maj23_commit_status = 1 ∷ [];
}

-- Two of three are not more than two thirds; the repeated vote is not counted.
ballot_runs : add_all toy_bls status_bytes fresh ballot ≡ done decided_set
unfolding add_all add_csa new_csa_shard_set lookup insert verify_signature bytes_equal eq_ℤ ◌+ℤ◌
    wrap_int32 div_ℤ verifier_size vote_at
ballot_runs = refl

fresh-IsValid : IsValid toy_bls status_bytes powers fresh
unfolding verifier_size
fresh-IsValid =
    new_csa_shard_set-IsValid toy_bls status_bytes powers (pos 3) (97 ∷ []) peers keys refl
      (omega arith) (omega arith)

add_csa-Kept_example :
    Kept toy_bls status_bytes powers fresh (add_csa toy_bls status_bytes fresh (accept 1 6 1))
add_csa-Kept_example = add_csa-Kept toy_bls status_bytes powers fresh (accept 1 6 1) fresh-IsValid

get_maj23_certifies_example :
    (s : CsaShardSet toy_bls) × (add_all toy_bls status_bytes fresh ballot ≡ done s)
    × Certified toy_bls status_bytes powers keys (get_maj23 toy_bls s)
unfolding verifier_size
get_maj23_certifies_example =
    get_maj23_certifies toy_bls status_bytes powers (pos 3) (97 ∷ []) peers keys ballot refl
      (omega arith) (omega arith)

decided_set_answers : get_maj23 toy_bls decided_set ≡ some (1 ∷ [], all_votes)
unfolding get_maj23 lookup bytes_equal
decided_set_answers = refl

decided_set-IsValid : IsValid toy_bls status_bytes powers decided_set
decided_set-IsValid =
    let r = add_all-Ran toy_bls status_bytes powers fresh ballot fresh-IsValid in
    valid_at r.after (sym r.returned ∙ ballot_runs) r.valid
  where
    of_done : {s t : CsaShardSet toy_bls} → Outcome.done s ≡ done t → s ≡ t
    of_done e = cc

    valid_at :
        (s : CsaShardSet toy_bls)
        → done s ≡ done decided_set
        → IsValid toy_bls status_bytes powers s
        → IsValid toy_bls status_bytes powers decided_set
    valid_at s e v = subst (IsValid toy_bls status_bytes powers) (of_done e) v

get_maj23_final_example :
    (t : CsaShardSet toy_bls) × (add_all toy_bls status_bytes decided_set (accept 0 5 2 ∷ [])
      ≡ done t)
    × ((more : List CrossShardAccept) × (get_maj23 toy_bls t ≡ some (1 ∷ [], more)))
get_maj23_final_example =
    get_maj23_final toy_bls status_bytes powers decided_set (1 ∷ []) all_votes (accept 0 5 2 ∷ [])
      decided_set-IsValid decided_set_answers
