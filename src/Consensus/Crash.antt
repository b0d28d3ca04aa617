-- ===== src/Consensus/Crash.antt =====
-- A vote from the network that stops a node.
use melete.Base.{ℕ, ◌≤◌, ◌<◌, ◌≡◌, refl, ◌∙◌, some, none, false, arith, ltb, length}
use melete.Base.Int.{negsuc}
use melete.Base.Outcome.{panic}
use melete.BitVector.{BitVector, get_index}
use melete.BitVector.Valid.{IsValid}
use melete.BitVector.Access.{get_index_negative}
use melete.Merkle.{HashFunction, hash_size}
use melete.Block.{Codec}
use melete.Signer.{Bls}
use melete.Vote.{Ballot, validate_prevote, vote_type_prevote}
use melete.Height.{Wire, add_ballot}
use melete.Height.Receive.{add_prevote}
use melete.Consensus.{
  Node, ConsensusState, prevote_message, is_over_time, add_relay_message_if_over_time,
}
use melete.Consensus.Run.{moment_of, take_message, run_message, is_valid, receive}

module _ (b : Bls) (f : HashFunction) (c : Codec) (w : Wire) (n : Node) where
  -- A prevote for a hash, with a validator index of -8 or less, passes `ValidateBasic`, and `Receive`
  -- panics on it, signed or not; the node has a bit vector of prevotes with a bit at least, and the
  -- vote is not for later.
  pub receive_panics :
      (fuel : ℕ) (s : ConsensusState b n) (m : Ballot) (v : BitVector) (k : ℕ)
      → s.height_datas.prevotes.bits ≡ some v
      → IsValid v
      → 0 < v.bits
      → m.validator_index ≡ negsuc k
      → 7 ≤ k
      → m.vote_type ≡ vote_type_prevote
      → length m.block_header_hash ≡ hash_size
      → is_over_time b n s m.height m.round ≡ false
      → (validate_prevote m ≡ none) × (receive b f c w n fuel s (prevote_message m) ≡ some panic)
  unfolding receive is_valid run_message moment_of add_relay_message_if_over_time take_message
      add_prevote add_ballot validate_prevote
  receive_panics fuel s m v k bits valid some_bits index low typed hashed now =
      let out : get_index (some v) (negsuc k) ≡ panic =
        get_index_negative v k valid some_bits ∙ rw (past k low) refl in
      (basic, rw basic (rw now (rw bits (rw index (rw out refl)))))
    where
      basic : validate_prevote m ≡ none
      basic = rw typed (rw hashed refl)

      past : (j : ℕ) → 7 ≤ j → ltb j 7 ≡ false
      past j h = ground arith
