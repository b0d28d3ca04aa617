-- ===== src/Merkle/Hash.antt =====
-- crypto/merkle/hash.go over an arbitrary hash function, and what a collision of it is.
use melete.Base.{ℕ, ◌≡◌, ◌≢◌, Bool, [], ◌∷◌, ◌++◌, length, Bool-cases, inl, inr, ◌⊎◌}
use melete.Base.Bytes.{Bytes, bytes_equal, bytes_equal_iff}

-- `tmhash.Sum` of crypto/hash/hash.go, which is SHA-256: its digests have `HashSize` bytes.
abbrev pub hash_size : ℕ
hash_size = 32

pub record HashFunction : Type 0 where
  pub sum : Bytes → Bytes
  pub sum_size : (b : Bytes) → length (sum b) ≡ hash_size

module _ (h : HashFunction) where
  unfoldable pub empty_hash : Bytes
  empty_hash = h.sum []

  unfoldable pub leaf_hash : Bytes → Bytes
  leaf_hash leaf = h.sum (0 ∷ leaf)

  unfoldable pub inner_hash : Bytes → Bytes → Bytes
  inner_hash left right = h.sum (1 ∷ left ++ right)

  -- Two different messages with one digest.
  pub record Collision : Type 0 where
    pub first : Bytes
    pub second : Bytes
    pub differ : first ≢ second
    pub same_digest : h.sum first ≡ h.sum second

  pub sum_cases : (x y : Bytes) → h.sum x ≡ h.sum y → (x ≡ y) ⊎ Collision
  sum_cases x y e = elim (Bool-cases (bytes_equal x y)) [
    | inl same ↦ inl ((bytes_equal_iff x y).0 same)
    | inr other ↦ inr (record {
      first = x;
      second = y;
      differ = λ p. false_true x y other ((bytes_equal_iff x y).1 p);
      same_digest = e;
    })
  ]
    where
      false_true : (a b : Bytes) → bytes_equal a b ≡ Bool.false → bytes_equal a b ≡ Bool.true → ⊥
      false_true a b p q = cc

  pub leaf_hash_size : (leaf : Bytes) → length (leaf_hash leaf) ≡ hash_size
  unfolding leaf_hash
  leaf_hash_size leaf = h.sum_size (0 ∷ leaf)

  pub inner_hash_size : (left right : Bytes) → length (inner_hash left right) ≡ hash_size
  unfolding inner_hash
  inner_hash_size left right = h.sum_size (1 ∷ left ++ right)

  -- Equal leaf digests come from equal leaves, or from a collision.
  pub leaf_hash_cases : (x y : Bytes) → leaf_hash x ≡ leaf_hash y → (x ≡ y) ⊎ Collision
  unfolding leaf_hash
  leaf_hash_cases x y e = elim (sum_cases (0 ∷ x) (0 ∷ y) e) [ inl same ↦ inl (cc) | inr c ↦ inr c ]

  pub inner_hash_cases :
      (a b c d : Bytes) → inner_hash a b ≡ inner_hash c d → (a ++ b ≡ c ++ d) ⊎ Collision
  unfolding inner_hash
  inner_hash_cases a b c d e = elim (sum_cases (1 ∷ a ++ b) (1 ∷ c ++ d) e) [
    | inl same ↦ inl (cc)
    | inr k ↦ inr k
  ]
