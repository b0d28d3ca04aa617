-- ===== src/Signer/Toy.antt =====
-- Signatures that run in tests: products, which add up as BLS signatures do.
use melete.Base.{
  ℕ, suc, ◌+◌, ◌*◌, ◌≡◌, refl, [], ◌∷◌, Option, none, some, arith, length, ◌==◌, ==_iff, Bool, true,
  not, ◌&&◌, ◌≢◌,
}
use melete.Base.Bytes.{Text}
use melete.Signer.{Bls}
use melete.Signer.Aggregate.{IsBilinear}

abbrev read_number : Text → Option ℕ
read_number [] = none
read_number (x ∷ t) = some x

-- A signature of a message is the key times a number that stands for the message; the key 0 is
-- refused.
abbrev pub toy_bls : Bls
toy_bls = record {
  Key = ℕ;
  Sig = ℕ;
  zero_key = 0;
  add_key = ◌+◌;
  zero_sig = 0;
  add_sig = ◌+◌;
  read_key = read_number;
  read_sig = read_number;
  write_sig = λ s. s ∷ [];
  verify_byte = λ s k msg. not (k == 0) && s == k * suc (length msg);
}

add_verifies : (s t k l n : ℕ) → s ≡ k * n → t ≡ l * n → s + t ≡ (k + l) * n
add_verifies s t k l n e f = grind arith

pub toy_bls-IsBilinear : IsBilinear toy_bls
toy_bls-IsBilinear = record {
  pairs = λ s k msg. s == k * suc (length msg);
  zero_pairs = λ msg. (==_iff 0 (0 * suc (length msg))).1 (omega arith);
  sum_pairs = λ s t k l msg e f.
      (==_iff _ _).1
        (add_verifies s t k l (suc (length msg)) ((==_iff _ _).0 e) ((==_iff _ _).0 f));
  verified_pairs = λ s k msg e. verified k (s == k * suc (length msg)) e;
  verifies = λ s k msg e some_key. accepted k (s == k * suc (length msg)) e some_key;
  read_sig-write_sig = λ s. refl;
}
  where
    verified : (k : ℕ) (ok : Bool) → (not (k == 0) && ok) ≡ true → ok ≡ true
    verified k ok e = ground arith

    accepted : (k : ℕ) (ok : Bool) → ok ≡ true → k ≢ 0 → (not (k == 0) && ok) ≡ true
    accepted k ok e ne = ground arith
