-- ===== src/Merkle/Toy.antt =====
-- A hash function that runs in tests.
use melete.Base.{ℕ, zero, suc, ◌≡◌, refl, [], ◌∷◌, arith, length}
use melete.Base.Bytes.{Bytes}
use melete.Merkle.{HashFunction, hash_size}

-- The first 32 bytes of the message, filled up with zeros: far from SHA-256, but it runs.
abbrev pub pad : ℕ → Bytes → Bytes
pad zero b = []
pad (suc n) [] = 0 ∷ pad n []
pad (suc n) (x ∷ b) = x ∷ pad n b

pub length-pad : (n : ℕ) (b : Bytes) → length (pad n b) ≡ n
length-pad zero b = refl
length-pad (suc n) [] = omega (arith, length-pad n [])
length-pad (suc n) (x ∷ b) = omega (arith, length-pad n b)

abbrev pub toy_hash : HashFunction
toy_hash = record { sum = pad hash_size; sum_size = length-pad hash_size }
