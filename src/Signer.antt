-- ===== src/Signer.antt =====
-- utils/signer/bls.go: signatures of single validators and aggregated ones, over an external BLS
-- library.
mod Tests
pub mod Laws
pub mod Aggregate
pub mod Toy
use melete.Base.{
  ℕ, zero, suc, List, [], ◌∷◌, map, Option, none, some, Bool, true, false, not, if◌then◌else◌,
  length, get_elem?, ltb, leb, ◌==◌, ◌≡◌,
}
use mathlib.Core.Option
use melete.Base.Bytes.{Bytes, Text}
use melete.Base.Int.{ℤ, pos, negsuc}
use melete.Base.Outcome.{Outcome, done, panic, ◌>>=◌}
use melete.BitVector.{BitVector, from_bytes, size, get_index}

-- The BLS library: keys and signatures are read from hexadecimal strings and can be added up.
pub record Bls : Type 1 where
  pub Key : Type 0
  pub Sig : Type 0
  pub zero_key : Key
  pub add_key : Key → Key → Key
  pub zero_sig : Sig
  pub add_sig : Sig → Sig → Sig
  pub read_key : Text → Option Key
  pub read_sig : Text → Option Sig
  pub write_sig : Sig → Text
  pub verify_byte : Sig → Key → Bytes → Bool

module _ (b : Bls) where
  -- A key that cannot be read is nil.
  pub record Verifier : Type 0 where
    pub public_keys : List (Option b.Key)

  -- `NewVerifier`
  unfoldable pub new_verifier : List Text → Verifier
  new_verifier keys = record { public_keys = map b.read_key keys }

  unfoldable pub verifier_size : Verifier → ℕ
  verifier_size v = length v.public_keys

  -- The end of `Verify`: a nil key or a signature that cannot be read is refused.
  abbrev pub verify_with : Option b.Key → Text → Bytes → Bool
  verify_with none sig msg = false
  verify_with (some k) sig msg = elim (b.read_sig sig) [
    | none ↦ false
    | some s ↦ b.verify_byte s k msg
  ]

  -- `Verify`: an index past the keys is refused, and a negative one panics.
  unfoldable pub verify_signature : Verifier → Text → Bytes → ℤ → Outcome Bool
  verify_signature v sig msg (negsuc n) = panic
  verify_signature v sig msg (pos i) = elim (get_elem? v.public_keys i) [
    | none ↦ done false
    | some k ↦ done (verify_with k sig msg)
  ]

  -- The loop of `VerifyAggregateSignature` from index `i` on: the sum of the keys whose bits are
  -- set, or `none` when one of them is nil.
  unfoldable pub add_keys : BitVector → ℕ → List (Option b.Key) → b.Key → Outcome (Option b.Key)
  add_keys bv i [] acc = done (some acc)
  add_keys bv i (none ∷ ks) acc =
      let skip = add_keys bv (suc i) ks acc in
      get_index (some bv) (pos i) >>= λ bit. if bit then done none else skip
  add_keys bv i (some k ∷ ks) acc =
      let skip = add_keys bv (suc i) ks acc in
      let take = add_keys bv (suc i) ks (b.add_key acc k) in
      get_index (some bv) (pos i) >>= λ bit. if bit then take else skip

  -- The end of `VerifyAggregateSignature`.
  abbrev pub verify_sum : b.Sig → Bytes → Option b.Key → Bool
  verify_sum s msg none = false
  verify_sum s msg (some k) = b.verify_byte s k msg

  -- `VerifyAggregateSignature` on a bit vector that was read; a nil vector has size 0.
  unfoldable pub verify_bits : Verifier → Text → Bytes → Option BitVector → Outcome Bool
  unfolding add_keys
  verify_bits v sig msg none =
      if not (length v.public_keys == 0) then done false else elim (b.read_sig sig) [
        | none ↦ done false
        | some s ↦ done (b.verify_byte s b.zero_key msg)
      ]
  verify_bits v sig msg (some bv) =
      if not (length v.public_keys == bv.bits) then done false else elim (b.read_sig sig) [
        | none ↦ done false
        | some s ↦ add_keys bv 0 v.public_keys b.zero_key >>= λ k. done (verify_sum s msg k)
      ]

  -- `VerifyAggregateSignature`
  unfoldable pub verify_aggregate : Verifier → Text → Bytes → Bytes → Outcome Bool
  unfolding verify_bits
  verify_aggregate v sig msg bit_map = from_bytes bit_map >>= λ bv. verify_bits v sig msg bv

  -- The loop of `AggregateSignatures`: `none` is a signature that cannot be read.
  unfoldable pub add_sigs : List Text → b.Sig → Option b.Sig
  unfolding Option.bind
  add_sigs [] acc = some acc
  add_sigs (t ∷ sigs) acc = Option.bind (b.read_sig t) (λ s. add_sigs sigs (b.add_sig acc s))

  -- `AggregateSignatures`
  unfoldable pub aggregate_signatures : List Text → Option Text
  unfolding add_sigs
  aggregate_signatures sigs = Option.map b.write_sig (add_sigs sigs b.zero_sig)
