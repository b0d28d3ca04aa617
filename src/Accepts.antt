-- ===== src/Accepts.antt =====
-- melete/consensus/constypes/cas_set.go with CrossShardAccept of vote.go: the votes of a related
-- shard's validators on a block, collected per commit status.
pub mod Valid
pub mod Count
pub mod Quorum
pub mod Decide
pub mod Add
pub mod History
mod Tests
use melete.Base.{
  ℕ, zero, suc, ◌++◌, List, [], ◌∷◌, Option, none, some, Bool, true, false, not, ◌&&◌, ◌||◌,
  if◌then◌else◌, length, get_elem?, ltb, leb, ◌==◌,
}
use mathlib.Core.Option
use melete.Base.Bytes.{Bytes, Text, bytes_equal}
use melete.Base.Int.{ℤ, pos, negsuc, ltb_ℤ, leb_ℤ, eq_ℤ, ◌+ℤ◌, wrap_int32, div_ℤ}
use melete.Base.Outcome.{Outcome, done, panic, or_panic, ◌>>=◌}
use melete.Base.Table.{Table, lookup, insert, bytes_eq, int_eq}
use melete.Signer.{Bls, Verifier, verifier_size, verify_signature}

-- `Peer` of utils/p2p/peer.go, the voting power in particular.
pub record Peer : Type 0 where
  pub ip : Text
  pub chain : Table Text Bool
  pub pubkey : Text
  pub vote : ℤ

pub record CrossShardAccept : Type 0 where
  pub vote_type : ℕ
  pub upper_chain_id : Text
  pub accept_chain_id : Text
  pub height : ℤ
  pub block_header_hash : Bytes
  pub commit_status : Bytes
  pub signature : Text
  pub validator_index : ℤ

-- What is encoded for the signature: neither the signature nor the validator.
abbrev pub unsigned : CrossShardAccept → CrossShardAccept
unsigned c = record c { signature = []; validator_index = negsuc 0 }

pub data CsaError : Type 0 where
  repeated invalid_height invalid_chain_id invalid_index signature_error ambiguity : CsaError

-- `TotalVotingPower*2/3` on `int32`.
unfoldable pub two_thirds : ℤ → ℤ
two_thirds total = div_ℤ (wrap_int32 (total +ℤ total)) 3

-- The loop over the peers' voting power.
unfoldable pub total_votes : ℤ → List Peer → ℤ
total_votes acc [] = acc
total_votes acc (p ∷ ps) = total_votes (wrap_int32 (acc +ℤ p.vote)) ps

-- The number in a map of numbers, 0 for a missing key.
abbrev pub number_at : Bytes → Table Bytes ℤ → ℤ
number_at k m = Option.get_or (lookup k m) (pos 0)

-- The slice in a map of slices, nil for a missing key.
abbrev pub slice_at : Bytes → Table Bytes (List CrossShardAccept) → List CrossShardAccept
slice_at k m = Option.get_or (lookup k m) []

-- `peers[i].Vote`, which panics out of range.
unfoldable pub vote_at : List Peer → ℤ → Outcome ℤ
vote_at peers (negsuc n) = panic
vote_at peers (pos i) = or_panic (get_elem? peers i) >>= λ (p : Peer). done p.vote

module _ (b : Bls) where
  pub record CsaShardSet : Type 0 where
    pub val_set : Verifier b
    pub peer_list : List Peer
    pub total_voting_power : ℤ
    pub height : ℤ
    pub chain_id : Text
    pub sig_map : Table Bytes (List CrossShardAccept)
    pub key_vote_power : Table Bytes ℤ
    pub index_seen : Table ℤ Bytes
    pub has_maj23_flag : Bool
    pub maj23_key : Bytes
    pub maj23_commit_status : Bytes

  -- `NewCSAShardSet`
  unfoldable pub new_csa_shard_set : ℤ → Text → List Peer → Verifier b → CsaShardSet
  unfolding total_votes
  new_csa_shard_set height chain_id peers val_set = record {
    val_set = val_set;
    peer_list = peers;
    total_voting_power = total_votes (pos 0) peers;
    height = height;
    chain_id = chain_id;
    sig_map = [];
    key_vote_power = [];
    index_seen = [];
    has_maj23_flag = false;
    maj23_key = [];
    maj23_commit_status = [];
  }

  -- The entries that `AddCSA` writes for a vote of the given power.
  unfoldable pub record_vote : CsaShardSet → CrossShardAccept → ℤ → CsaShardSet
  record_vote s csa vote =
      let key = csa.commit_status in
      record s {
        sig_map = insert key (slice_at key s.sig_map ++ (csa ∷ [])) s.sig_map;
        index_seen = insert csa.validator_index csa.block_header_hash s.index_seen;
        key_vote_power =
            insert key (wrap_int32 (number_at key s.key_vote_power +ℤ vote)) s.key_vote_power;
      }

  -- The end of `AddCSA`: the majority, after the entries are written.
  unfoldable pub decide : CsaShardSet → CrossShardAccept → CsaShardSet × Option CsaError
  unfolding two_thirds
  decide s csa =
      let key = csa.commit_status in
      if not (ltb_ℤ (two_thirds s.total_voting_power) (number_at key s.key_vote_power))
      then (s, none)
      else if s.has_maj23_flag && not (bytes_equal s.maj23_key key)
      then (s, some ambiguity)
      else (
        record s {
          has_maj23_flag = true;
          maj23_key = key;
          maj23_commit_status = csa.commit_status;
        },
        none,
      )

  module _ (sign_bytes : CrossShardAccept → Bytes) where
    -- `AddCSA` for a validator that was not seen yet; `sign_bytes` is the protobuf encoding.
    unfoldable pub add_new_csa :
        CsaShardSet → CrossShardAccept → Outcome (CsaShardSet × Option CsaError)
    unfolding decide record_vote
    add_new_csa s csa =
        if not (eq_ℤ csa.height s.height)
        then done (s, some invalid_height)
        else if not (bytes_equal csa.accept_chain_id s.chain_id)
        then done (s, some invalid_chain_id)
        else if ltb_ℤ csa.validator_index (pos 0)
            || leb_ℤ (pos (verifier_size b s.val_set)) csa.validator_index
        then done (s, some invalid_index)
        else verify_signature b s.val_set csa.signature (sign_bytes (unsigned csa))
            csa.validator_index
          >>= λ ok.
              if not ok
              then done (s, some signature_error)
              else vote_at s.peer_list csa.validator_index >>= λ vote.
                  done (decide (record_vote s csa vote) csa)

    -- `AddCSA`
    unfoldable pub add_csa :
        CsaShardSet → CrossShardAccept → Outcome (CsaShardSet × Option CsaError)
    unfolding add_new_csa
    add_csa s csa = elim (lookup csa.validator_index s.index_seen) [
      | some u ↦ done (s, if bytes_equal u csa.block_header_hash then none else some repeated)
      | none ↦ add_new_csa s csa
    ]

  -- `GetMaj23`
  unfoldable pub get_maj23 : CsaShardSet → Option (Bytes × List CrossShardAccept)
  get_maj23 s =
      if not s.has_maj23_flag
      then none
      else some (s.maj23_commit_status, slice_at s.maj23_key s.sig_map)
