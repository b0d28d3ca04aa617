-- ===== src/PartSet/Receive.antt =====
-- A receiver of parts, which adds them one after the other.
use melete.Base.{
  ℕ, zero, suc, ◌≡◌, ◌⊎◌, refl, ap, ◌∙◌, sym, List, [], ◌∷◌, none, Option-cases, arith, length,
  replicate, inl, inr,
}
use melete.Base.Bytes.{Bytes}
use melete.Base.Int.{pos, pos_part}
use melete.Base.Outcome.{Outcome, done, ◌>>=◌}
use melete.Merkle.{HashFunction, Collision, Proof, validate_proof, hash_from_byte_slices}
use melete.PartSet.{Part, PartSetHeader, PartSet, validate_part, new_part_set, add_part}
use melete.PartSet.Slots.{Matches, filled, IsThere}
use melete.PartSet.Collect.{Tracks, Kept, add_part_lem}

-- A part that passed `ValidateBasic` has an index that is not negative.
pub validate_part_index : (p : Part) → validate_part p ≡ none → (i : ℕ) × (p.proof.index ≡ pos i)
unfolding validate_part validate_proof
validate_part_index p e = elim (Option-cases (validate_proof p.proof)) [
  | inr (err, bad) ↦ absurd (ground arith)
  | inl ok ↦ from_proof p.proof ok
]
  where
    from_proof : (sp : Proof) → validate_proof sp ≡ none → (i : ℕ) × (sp.index ≡ pos i)
    from_proof sp ok = (pos_part sp.index, ground arith)

abbrev pub AllValid : List Part → Type 0
AllValid [] = Unit {0}
AllValid (p ∷ ps) = (validate_part p ≡ none) × AllValid ps

module _ (h : HashFunction) where
  -- Adding parts in order, whatever each call answers.
  unfoldable pub collect : PartSet → List Part → Outcome PartSet
  collect ps [] = done ps
  collect ps (p ∷ rest) = add_part h ps p >>= λ r. collect r.0 rest

  pub record Collected (items : List Bytes) (ps : PartSet) (r : Outcome PartSet) : Type 0 where
    pub after : PartSet
    pub returned : r ≡ done after
    pub tracks : Tracks h items after
    pub same_header : after.header ≡ ps.header
    pub same_hash : after.block_header_hash ≡ ps.block_header_hash
    pub keeps : (j : ℕ) → IsThere ps.parts j → IsThere after.parts j

  pub collect-Collected :
      (items : List Bytes) (ps : PartSet) (parts : List Part)
      → Tracks h items ps
      → AllValid parts
      → Collected items ps (collect ps parts) ⊎ Collision h
  unfolding collect
  collect-Collected items ps [] t v = inl (record {
    after = ps;
    returned = refl;
    tracks = t;
    same_header = refl;
    same_hash = refl;
    keeps = λ j there. there;
  })
  collect-Collected items ps (p ∷ rest) t v =
      let (i, at) = validate_part_index p v.0 in
      elim (add_part_lem h items ps p i t at) [
        | inr c ↦ inr c
        | inl k ↦ next k (collect-Collected items k.after rest k.tracks v.1)
      ]
    where
      next :
          (k : Kept h items ps (add_part h ps p))
          → Collected items k.after (collect k.after rest) ⊎ Collision h
          → Collected items ps (collect ps (p ∷ rest)) ⊎ Collision h
      next k (inr c) = inr c
      next k (inl d) = inl (record {
        after = d.after;
        returned = ap (λ r. r >>= λ q. collect q.0 rest) k.returned ∙ d.returned;
        tracks = d.tracks;
        same_header = d.same_header ∙ k.same_header;
        same_hash = d.same_hash ∙ k.same_hash;
        keeps = λ j there. d.keeps j (k.keeps j there);
      })

  empty-Matches : (items : List Bytes) → Matches (replicate (length items) none) items
  empty-Matches [] = tt
  empty-Matches (x ∷ items) = empty-Matches items

  empty-filled : (n : ℕ) → filled (replicate n none) ≡ 0
  empty-filled zero = refl
  empty-filled (suc n) = empty-filled n

  pub new_part_set-Tracks :
      (items : List Bytes) (r : PartSetHeader) (header_hash : Bytes)
      → r.root ≡ hash_from_byte_slices h items
      → r.total ≡ pos (length items)
      → (ps : PartSet) × (new_part_set r header_hash ≡ done ps)
        × Tracks h items ps
        × (ps.header ≡ r)
        × (ps.block_header_hash ≡ header_hash)
  unfolding new_part_set
  new_part_set-Tracks items r header_hash root total = (
    record {
      header = r;
      parts = replicate (length items) none;
      count = 0;
      block_header_hash = header_hash;
    },
    rw total refl,
    record {
      of_root = root;
      of_total = total;
      matching = empty-Matches items;
      counted = sym (empty-filled (length items));
    },
    refl,
    refl,
  )

  -- `NewPartSet` for the header and block hash of a proposal, and then parts as they come.
  unfoldable pub receive : PartSetHeader → Bytes → List Part → Outcome PartSet
  receive r header_hash parts = new_part_set r header_hash >>= λ ps. collect ps parts

  pub receive-Tracks :
      (items : List Bytes) (r : PartSetHeader) (header_hash : Bytes) (parts : List Part)
      → r.root ≡ hash_from_byte_slices h items
      → r.total ≡ pos (length items)
      → AllValid parts
      → ((got : PartSet) × (receive r header_hash parts ≡ done got)
          × Tracks h items got
          × (got.header ≡ r)
          × (got.block_header_hash ≡ header_hash))
        ⊎ Collision h
  unfolding receive
  receive-Tracks items r header_hash parts root total v =
      let (ps, made, t, same, same') = new_part_set-Tracks items r header_hash root total in
      elim (collect-Collected items ps parts t v) [
        | inr c ↦ inr c
        | inl d ↦ inl (
          d.after,
          ap (λ o. o >>= λ q. collect q parts) made ∙ d.returned,
          d.tracks,
          d.same_header ∙ same,
          d.same_hash ∙ same',
        )
      ]
