-- ===== src/Signer/Laws.antt =====
-- `Verify` of utils/signer/bls.go.
use melete.Base.{
  ℕ, ◌≡◌, ◌⊎◌, refl, Option, none, some, Option-cases, Bool, false, inl, inr, get_elem?,
}
use melete.Base.Bytes.{Bytes, Text}
use melete.Base.Int.{ℤ, pos}
use melete.Base.Outcome.{done}
use melete.Signer.{Bls, Verifier, verify_signature, verify_with}

-- `Verify` at an index that is not negative answers.
pub verify_signature_returns :
    (b : Bls) (v : Verifier b) (sig : Text) (msg : Bytes) (j : ℤ) (i : ℕ)
    → j ≡ pos i
    → (t : Bool) × (verify_signature b v sig msg j ≡ done t)
unfolding verify_signature
verify_signature_returns b v sig msg j i e =
    rw e (of_key (Option-cases (get_elem? v.public_keys i)))
  where
    of_key :
        ((get_elem? v.public_keys i ≡ none)
          ⊎ ((k : Option b.Key) × (get_elem? v.public_keys i ≡ some k)))
        → (t : Bool) × (verify_signature b v sig msg (pos i) ≡ done t)
    of_key (inl f) = (false, rw (f, verify_signature) refl)
    of_key (inr (k, f)) = (verify_with b k sig msg, rw (f, verify_signature) refl)
