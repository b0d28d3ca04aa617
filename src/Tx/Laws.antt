-- ===== src/Tx/Laws.antt =====
-- The hash of a list of transactions, and the proofs against it.
use melete.Base.{
  ℕ, zero, suc, ◌+◌, ◌<◌, ◌≡◌, ◌≢◌, ◌⊎◌, refl, ap, ap₂, ◌∙◌, sym, List, [], ◌∷◌, map, none, some,
  Option-cases, true, false, arith, length, length-map, get_elem?, get_elem?-some-lt, get_elem?-map,
  inl, inr, Bool-cases,
}
use melete.Base.Bytes.{Bytes, bytes_equal, bytes_equal_refl, bytes_equal→eq}
use melete.Base.Int.{ℤ, pos, negsuc}
use melete.Merkle.{
  HashFunction, Collision, sum_cases, hash_from_byte_slices, verify, proofs_from_byte_slices,
}
use melete.Merkle.Complete.{IsProven, proofs_complete, proofs_root}
use melete.Merkle.Sound.{verify_sound}
use melete.Merkle.Bind.{hash_from_byte_slices_binds}
use melete.Tx.{
  Tx, Txs, TxProof, index, index_from, tx_hash, txs_hash, tx_proof, validate_tx_proof, txs_to_proto,
  txs_from_proto,
}

-- The first position of a transaction, counted from `i`, or -1 when there is none.
pub data FirstAt (tx : Tx) (i : ℕ) (txs : Txs) (r : ℤ) : Type 0 where
  missing : r ≡ negsuc 0 → ((j : ℕ) → get_elem? txs j ≢ some tx) → FirstAt tx i txs r
  found :
      (k : ℕ)
      → r ≡ pos (i + k)
      → get_elem? txs k ≡ some tx
      → ((j : ℕ) → j < k → get_elem? txs j ≢ some tx)
      → FirstAt tx i txs r

not_here :
    (t tx : Tx) (txs : Txs)
    → bytes_equal t tx ≡ false
    → (j : ℕ) → (get_elem? (t ∷ txs) j ≡ some tx)
    → (k : ℕ) × (j ≡ suc k) × (get_elem? txs k ≡ some tx)
not_here t tx txs ne zero e =
    let same : t ≡ tx = cc in
    absurd (true_false (sym (bytes_equal_refl tx) ∙ ap (λ x. bytes_equal x tx) (sym same) ∙ ne))
  where
    true_false : true ≡ false → ⊥
    true_false p = cc
not_here t tx txs ne (suc k) e = (k, refl, e)

index_from-FirstAt : (i : ℕ) (txs : Txs) (tx : Tx) → FirstAt tx i txs (index_from i txs tx)
unfolding index_from
index_from-FirstAt i [] tx = missing refl (λ j e. cc)
index_from-FirstAt i (t ∷ txs) tx = elim (Bool-cases (bytes_equal t tx)) [
  | inl same ↦
      rw same (
        found 0 (ap pos (omega arith)) (ap some (bytes_equal→eq t tx same)) (λ j lt e. elim lt [ ]))
  | inr other ↦ rw other (shift other (index_from-FirstAt (suc i) txs tx))
]
  where
    shift : {r : ℤ} → bytes_equal t tx ≡ false → FirstAt tx (suc i) txs r → FirstAt tx i (t ∷ txs) r
    shift ne (missing e none_at) =
        missing e (λ j at. let (k, _, p) = not_here t tx txs ne j at in none_at k p)
    shift ne (found k e at before) =
        found (suc k) (e ∙ ap pos (omega arith)) at
          (λ j lt at_j. let (m, same, p) = not_here t tx txs ne j at_j in before m (omega arith) p)

-- `Index` gives the first position at which the list holds the transaction, and -1 exactly when
-- the list does not hold it.
pub index-FirstAt : (txs : Txs) (tx : Tx) → FirstAt tx 0 txs (index txs tx)
unfolding index
index-FirstAt txs tx = index_from-FirstAt 0 txs tx

pub txs_from_proto-txs_to_proto : (txs : Txs) → txs_from_proto (txs_to_proto txs) ≡ txs
unfolding txs_from_proto txs_to_proto
txs_from_proto-txs_to_proto [] = refl
txs_from_proto-txs_to_proto (tx ∷ txs) = ap (λ p. tx ∷ p) (txs_from_proto-txs_to_proto txs)

module _ (h : HashFunction) where
  map_binds : (xs ys : Txs) → map (tx_hash h) xs ≡ map (tx_hash h) ys → (xs ≡ ys) ⊎ Collision h
  unfolding tx_hash
  map_binds [] [] e = inl refl
  map_binds [] (y ∷ ys) e = absurd (cc)
  map_binds (x ∷ xs) [] e = absurd (cc)
  map_binds (x ∷ xs) (y ∷ ys) e = elim (sum_cases h x y (cc)) [
    | inr c ↦ inr c
    | inl same ↦ both same (map_binds xs ys (cc))
  ]
    where
      both : x ≡ y → (xs ≡ ys) ⊎ Collision h → (x ∷ xs ≡ y ∷ ys) ⊎ Collision h
      both p (inl q) = inl (ap₂ ◌∷◌ p q)
      both p (inr c) = inr c

  -- Two lists of transactions with one hash are equal, or a collision is at hand.
  pub txs_hash_binds : (xs ys : Txs) → txs_hash h xs ≡ txs_hash h ys → (xs ≡ ys) ⊎ Collision h
  unfolding txs_hash
  txs_hash_binds xs ys e =
      elim (hash_from_byte_slices_binds h (map (tx_hash h) xs) (map (tx_hash h) ys) e) [
        | inl same ↦ map_binds xs ys same
        | inr c ↦ inr c
      ]

  validates_of :
      (tp : TxProof) (root : Bytes) (i n : ℕ)
      → root ≡ tp.root_hash
      → tp.proof.index ≡ pos i
      → tp.proof.total ≡ pos n
      → 0 < n
      → verify h tp.proof tp.root_hash (tx_hash h tp.tx) ≡ none
      → validate_tx_proof h tp root ≡ none
  unfolding validate_tx_proof
  validates_of tp root i n er ei en p ev = ground (arith, bytes_equal_refl tp.root_hash)

  -- For each transaction of a list there is a proof, which holds the transaction, and `Validate`
  -- accepts it against the list's hash.
  pub tx_proof_validates :
      (txs : Txs) (i : ℕ) (tx : Tx)
      → get_elem? txs i ≡ some tx
      → (tp : TxProof) × (tx_proof h txs i ≡ some tp)
        × (tp.tx ≡ tx)
        × (validate_tx_proof h tp (txs_hash h txs) ≡ none)
  unfolding tx_proof txs_hash
  tx_proof_validates txs i tx e = (
    tp,
    rw e (rw p.stored refl),
    refl,
    validates_of tp (hash_from_byte_slices h leaves) i (length leaves) (sym (proofs_root h leaves))
        p.for_index p.for_total (omega (arith, get_elem?-some-lt leaves i _ leaf))
        (ap (λ r. verify h p.proof r (tx_hash h tx)) (proofs_root h leaves) ∙ p.accepted),
  )
    where
      leaves : List Bytes
      leaves = map (tx_hash h) txs

      leaf : get_elem? leaves i ≡ some (tx_hash h tx)
      leaf = get_elem?-map (tx_hash h) txs i tx e

      p : IsProven h leaves i (tx_hash h tx)
      p = proofs_complete h leaves i (tx_hash h tx) leaf

      tp : TxProof
      tp = record { root_hash = (proofs_from_byte_slices h leaves).0; tx = tx; proof = p.proof }

  get_elem?-map_inv :
      (txs : Txs) (i : ℕ) (d : Bytes)
      → get_elem? (map (tx_hash h) txs) i ≡ some d
      → (t : Tx) × (get_elem? txs i ≡ some t) × (tx_hash h t ≡ d)
  get_elem?-map_inv [] i d e = absurd (cc)
  get_elem?-map_inv (x ∷ txs) zero d e = (x, refl, cc)
  get_elem?-map_inv (x ∷ txs) (suc i) d e = get_elem?-map_inv txs i d e

  validate_inv :
      (tp : TxProof) (root : Bytes)
      → validate_tx_proof h tp root ≡ none
      → (root ≡ tp.root_hash) × (verify h tp.proof root (tx_hash h tp.tx) ≡ none)
  unfolding validate_tx_proof
  validate_inv tp root e = elim (Bool-cases (bytes_equal root tp.root_hash)) [
    | inr other ↦ absurd (ground arith)
    | inl same ↦
        let eq = bytes_equal→eq root tp.root_hash same in
        elim (Option-cases (verify h tp.proof tp.root_hash (tx_hash h tp.tx))) [
          | inl ok ↦ (eq, ap (λ r. verify h tp.proof r (tx_hash h tp.tx)) eq ∙ ok)
          | inr (err, bad) ↦ absurd (ground arith)
        ]
  ]

  -- A proof that `Validate` accepts against a list's hash, with the list's length for its total,
  -- holds the transaction at its index, or a collision is at hand.
  pub validate_tx_proof_sound :
      (txs : Txs) (tp : TxProof)
      → tp.proof.total ≡ pos (length txs)
      → validate_tx_proof h tp (txs_hash h txs) ≡ none
      → (i : ℕ) × (tp.proof.index ≡ pos i) × ((get_elem? txs i ≡ some tp.tx) ⊎ Collision h)
  unfolding txs_hash tx_hash
  validate_tx_proof_sound txs tp total e =
      let leaves = map (tx_hash h) txs in
      let v = validate_inv tp (hash_from_byte_slices h leaves) e in
      let (i, at, shown) =
        verify_sound h leaves tp.proof (tx_hash h tp.tx)
          (total ∙ ap pos (sym (length-map (tx_hash h) txs))) v.1 in
      (i, at, finish i shown)
    where
      finish :
          (i : ℕ)
          → (get_elem? (map (tx_hash h) txs) i ≡ some (tx_hash h tp.tx)) ⊎ Collision h
          → (get_elem? txs i ≡ some tp.tx) ⊎ Collision h
      finish i (inr c) = inr c
      finish i (inl leaf) =
          let (t, at, same) = get_elem?-map_inv txs i _ leaf in
          elim (sum_cases h t tp.tx same) [ inl eq ↦ inl (at ∙ ap some eq) | inr c ↦ inr c ]
