-- ===== src/Signer/Tests.antt =====
-- Signatures that run, and the aggregate's theorem at them.
use melete.Base.{◌≡◌, ◌≢◌, refl, [], ◌∷◌, some, true, arith, inl, inr}
use melete.Base.Bytes.{Bytes, Text}
use melete.Base.Int.{pos, negsuc}
use melete.Base.Outcome.{done, panic}
use melete.BitVector.{BitVector, to_bytes}
use melete.BitVector.Valid.{IsValid}
use melete.Base.Bits.{bit}
use melete.Signer.{Verifier, verify_signature, verify_aggregate, aggregate_signatures}
use melete.Signer.Toy.{toy_bls, toy_bls-IsBilinear}
use melete.Signer.Aggregate.{SignedBy, total_key, verify_aggregate-aggregate}

abbrev three_keys : Verifier toy_bls
three_keys = record { public_keys = some 5 ∷ some 6 ∷ some 7 ∷ [] }

-- A message of three bytes: a signature is four times the key.
abbrev message : Bytes
message = 1 ∷ 2 ∷ 3 ∷ []

verify_runs : verify_signature toy_bls three_keys (24 ∷ []) message (pos 1) ≡ done true
unfolding verify_signature
verify_runs = refl

verify_negative : verify_signature toy_bls three_keys (24 ∷ []) message (negsuc 0) ≡ panic
unfolding verify_signature
verify_negative = refl

-- The first and the third validator.
abbrev two_of_three : BitVector
two_of_three = record { bits = 3; elems = 5 ∷ [] }

two_of_three-IsValid : IsValid two_of_three
two_of_three-IsValid = record { enough = refl; all_bytes = omega arith }

aggregate_runs : aggregate_signatures toy_bls ((20 ∷ []) ∷ (28 ∷ []) ∷ []) ≡ some (48 ∷ [])
unfolding aggregate_signatures
aggregate_runs = refl

two_signatures-SignedBy :
    SignedBy toy_bls message two_of_three 0 three_keys.public_keys ((20 ∷ []) ∷ (28 ∷ []) ∷ [])
unfolding SignedBy bit
two_signatures-SignedBy = inr (
  20 ∷ [],
  (28 ∷ []) ∷ [],
  refl,
  refl,
  refl,
  inl (refl, inr (28 ∷ [], [], refl, refl, refl, refl)),
)

two_keys : total_key toy_bls message two_of_three 0 three_keys.public_keys 0 ≢ 0
unfolding total_key bit
two_keys e = omega (arith, e)

verify_aggregate-aggregate_example :
    (agg : Text) × (aggregate_signatures toy_bls ((20 ∷ []) ∷ (28 ∷ []) ∷ []) ≡ some agg)
    × (verify_aggregate toy_bls three_keys agg message (to_bytes (some two_of_three)) ≡ done true)
verify_aggregate-aggregate_example =
    verify_aggregate-aggregate toy_bls message two_of_three toy_bls-IsBilinear two_of_three-IsValid
      three_keys ((20 ∷ []) ∷ (28 ∷ []) ∷ []) refl two_signatures-SignedBy two_keys
