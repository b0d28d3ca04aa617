-- ===== src/Signer/Aggregate.antt =====
-- `AggregateSignatures` and `VerifyAggregateSignature` of utils/signer/bls.go together.
use mathlib.Core.Option
use melete.Base.{
  ℕ, suc, ◌≡◌, ◌⊎◌, refl, ap, sym, ◌∙◌, List, [], ◌∷◌, Option, none, some, true, false, length,
  ==_iff, inl, inr, Bool, ◌≢◌, if◌then◌else◌,
}
use melete.Base.Bytes.{Bytes, Text}
use melete.Base.Outcome.{done}
use melete.BitVector.{BitVector, to_bytes}
use melete.BitVector.Valid.{IsValid, test}
use melete.BitVector.Access.{get_index_lem}
use melete.BitVector.Coding.{from_bytes-to_bytes}
use melete.Signer.{
  Bls, Verifier, verify_with, add_keys, verify_bits, verify_aggregate, add_sigs,
  aggregate_signatures,
}

-- What BLS promises: a signature pairs with a key on a message when the pairing equation holds, which
-- sums keep. `VerifyByte` accepts a signature only when it pairs, and accepts it then for every key
-- but the identity. A signature that was written is read back.
pub record IsBilinear (b : Bls) : Type 0 where
  pub pairs : b.Sig → b.Key → Bytes → Bool
  pub zero_pairs : (msg : Bytes) → pairs b.zero_sig b.zero_key msg ≡ true
  pub sum_pairs :
      (s t : b.Sig) (k l : b.Key) (msg : Bytes)
      → pairs s k msg ≡ true
      → pairs t l msg ≡ true
      → pairs (b.add_sig s t) (b.add_key k l) msg ≡ true
  pub verified_pairs :
      (s : b.Sig) (k : b.Key) (msg : Bytes) → b.verify_byte s k msg ≡ true → pairs s k msg ≡ true
  pub verifies :
      (s : b.Sig) (k : b.Key) (msg : Bytes)
      → pairs s k msg ≡ true
      → k ≢ b.zero_key
      → b.verify_byte s k msg ≡ true
  pub read_sig-write_sig : (s : b.Sig) → b.read_sig (b.write_sig s) ≡ some s

module _ (b : Bls) (msg : Bytes) (bv : BitVector) where
  -- The signatures of the validators from `i` on whose bits are set, in their order.
  unfoldable pub SignedBy : ℕ → List (Option b.Key) → List Text → Type 0
  SignedBy i [] sigs = sigs ≡ []
  SignedBy i (k ∷ ks) sigs =
      ((test bv i ≡ false) × SignedBy (suc i) ks sigs)
      ⊎ ((sig : Text) × (rest : List Text) × (sigs ≡ sig ∷ rest)
          × (test bv i ≡ true)
          × (verify_with b k sig msg ≡ true)
          × SignedBy (suc i) ks rest)

  readable :
      (k : b.Key) (sig : Text)
      → verify_with b (some k) sig msg ≡ true
      → (s : b.Sig) × (b.read_sig sig ≡ some s) × (b.verify_byte s k msg ≡ true)
  readable k sig e = of_sig (b.read_sig sig) e
    where
      of_sig :
          (o : Option b.Sig)
          → elim o [ none ↦ false | some s ↦ b.verify_byte s k msg ] ≡ true
          → (s : b.Sig) × (o ≡ some s) × (b.verify_byte s k msg ≡ true)
      of_sig none f = absurd (cc)
      of_sig (some s) f = (s, refl, f)

  -- The sum of the keys of the validators from `i` on whose bits are set, and of one more.
  unfoldable pub total_key : ℕ → List (Option b.Key) → b.Key → b.Key
  total_key i [] acc = acc
  total_key i (none ∷ ks) acc = total_key (suc i) ks acc
  total_key i (some k ∷ ks) acc = total_key (suc i) ks (if test bv i then b.add_key acc k else acc)

  total_key_skips :
      (i : ℕ) (k : Option b.Key) (ks : List (Option b.Key)) (acc : b.Key)
      → test bv i ≡ false
      → total_key i (k ∷ ks) acc ≡ total_key (suc i) ks acc
  unfolding total_key
  total_key_skips i none ks acc e = refl
  total_key_skips i (some k) ks acc e = rw e refl

  module _ (h : IsBilinear b) (v : IsValid bv) where
    -- What the two loops give from sums that pair.
    AddsUp : ℕ → List (Option b.Key) → List Text → b.Key → b.Sig → Type 0
    AddsUp i ks sigs k s =
        (t : b.Sig) × (add_keys b bv i ks k ≡ done (some (total_key i ks k)))
        × (add_sigs b sigs s ≡ some t)
        × (h.pairs t (total_key i ks k) msg ≡ true)

    skips :
        (i : ℕ) (k : Option b.Key) (ks : List (Option b.Key)) (acc : b.Key)
        → test bv i ≡ false
        → add_keys b bv i (k ∷ ks) acc ≡ add_keys b bv (suc i) ks acc
    unfolding add_keys
    skips i none ks acc e = rw (get_index_lem bv i v) (rw e refl)
    skips i (some k) ks acc e = rw (get_index_lem bv i v) (rw e refl)

    takes :
        (i : ℕ) (k : b.Key) (ks : List (Option b.Key)) (acc : b.Key)
        → test bv i ≡ true
        → add_keys b bv i (some k ∷ ks) acc ≡ add_keys b bv (suc i) ks (b.add_key acc k)
    unfolding add_keys
    takes i k ks acc e = rw (get_index_lem bv i v) (rw e refl)

    sums_pair :
        (i : ℕ) (ks : List (Option b.Key)) (sigs : List Text) (k : b.Key) (s : b.Sig)
        → SignedBy i ks sigs
        → h.pairs s k msg ≡ true
        → AddsUp i ks sigs k s
    unfolding SignedBy AddsUp add_keys add_sigs Option.bind total_key
    sums_pair i [] sigs k s none_left ok = (s, refl, rw none_left refl, ok)
    sums_pair i (key ∷ ks) sigs k s (inl (unset, rest)) ok =
        let (t, e, f, g) = sums_pair (suc i) ks sigs k s rest ok in
        let same = total_key_skips i key ks k unset in
        (
          t,
          skips i key ks k unset ∙ e ∙ ap (λ x. done (some x)) (sym same),
          f,
          ap (λ x. h.pairs t x msg) same ∙ g,
        )
    sums_pair i (none ∷ ks) sigs k s (inr (sig, more, split, is_set, signed, rest)) ok = absurd (cc)
    sums_pair i (some l ∷ ks) sigs k s (inr (sig, more, split, is_set, signed, rest)) ok =
        let (t, read, good) = readable l sig signed in
        let (t', e, f, g) =
          sums_pair (suc i) ks more (b.add_key k l) (b.add_sig s t) rest
            (h.sum_pairs s t k l msg ok (h.verified_pairs t l msg good)) in
        (
          t',
          takes i l ks k is_set ∙ e ∙ rw is_set refl,
          ap (λ x. add_sigs b x s) split
              ∙ ap (λ o. Option.bind o (λ x. add_sigs b more (b.add_sig s x))) read
              ∙ f,
          rw is_set g,
        )

    -- `AggregateSignatures` of the signatures of those validators whose bits are set, each of them
    -- valid, succeeds, and `VerifyAggregateSignature` accepts the result with the encoded vector.
    -- The vector is well formed and has one bit for each validator, the sum of the keys whose bits
    -- are set is not the identity, and the library's signatures add up and are read back.
    pub verify_aggregate-aggregate :
        (val_set : Verifier b) (sigs : List Text)
        → length val_set.public_keys ≡ bv.bits
        → SignedBy 0 val_set.public_keys sigs
        → total_key 0 val_set.public_keys b.zero_key ≢ b.zero_key
        → (agg : Text) × (aggregate_signatures b sigs ≡ some agg)
          × (verify_aggregate b val_set agg msg (to_bytes (some bv)) ≡ done true)
    unfolding AddsUp aggregate_signatures verify_aggregate verify_bits
    verify_aggregate-aggregate val_set sigs same_size signed some_key =
        let (t, e, f, g) =
          sums_pair 0 val_set.public_keys sigs b.zero_key b.zero_sig signed (h.zero_pairs msg) in
        (
          b.write_sig t,
          ap (Option.map b.write_sig) f,
          rw (from_bytes-to_bytes bv v) (
              rw ((==_iff (length val_set.public_keys) bv.bits).1 same_size)
                (rw (h.read_sig-write_sig t) (rw e (ap done (h.verifies t _ msg g some_key))))),
        )
