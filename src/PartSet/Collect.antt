-- ===== src/PartSet/Collect.antt =====
-- `AddPart` against the pieces that the set collects.
use mathlib.Core.Path.{subst}
use melete.Base.{
  ℕ, ◌+◌, ◌<◌, ◌≡◌, ◌⊎◌, refl, ap, ap₂, ◌∙◌, sym, List, Option, none, some, Option-cases, true,
  arith, length, get_elem?, set, get_elem?_lt, inl, inr, Bool-cases,
}
use melete.Base.Bytes.{Bytes}
use melete.Base.Int.{ℤ, pos, ltb_ℤ, eq_ℤ, eq_ℤ_iff}
use melete.Base.Outcome.{Outcome, done, ◌>>=◌}
use melete.Merkle.{HashFunction, Collision, hash_from_byte_slices, verify}
use melete.Merkle.Sound.{verify_sound, verify_in_range, root_size}
use melete.PartSet.{Part, PartSet, PartError, put, verify_part, add_new_part, add_part}
use melete.PartSet.Slots.{
  Matches, filled, Matches-length, set-Matches, filled-set, IsThere, IsThere-set, put_done,
}

module _ (h : HashFunction) (items : List Bytes) where
  -- The set collects the pieces `items`: its header states their root and number, its parts match
  -- them, and the counter is the number of parts that are there.
  pub record Tracks (ps : PartSet) : Type 0 where
    pub of_root : ps.header.root ≡ hash_from_byte_slices h items
    pub of_total : ps.header.total ≡ pos (length items)
    pub matching : Matches ps.parts items
    pub counted : ps.count ≡ filled ps.parts

  verify_part_inv :
      (p : Part) (root : Bytes) (total : ℤ) (chain : Bytes)
      → verify_part h p root total chain ≡ none
      → (verify h p.proof root p.bytes ≡ none) × (total ≡ p.proof.total)
  unfolding verify_part
  verify_part_inv p root total chain e = elim (Option-cases (verify h p.proof root p.bytes)) [
    | inr (err, bad) ↦ absurd (ground arith)
    | inl ok ↦ (ok, (eq_ℤ_iff total p.proof.total).0 (ground arith))
  ]

  -- A part that passes `Verify` for the pieces' root and number is the piece at its index, and the
  -- index is in range.
  verified_piece :
      (p : Part) (chain : Bytes)
      → verify_part h p (hash_from_byte_slices h items) (pos (length items)) chain ≡ none
      → (i : ℕ) × (p.proof.index ≡ pos i)
        × (i < length items)
        × ((get_elem? items i ≡ some p.bytes) ⊎ Collision h)
  verified_piece p chain e =
      let v = verify_part_inv p _ _ chain e in
      let (i, at, shown) = verify_sound h items p.proof p.bytes (sym v.1) v.0 in
      let (j, n, at', total, lt) =
        verify_in_range h p.proof _ p.bytes (omega (arith, root_size h items)) v.0 in
      (i, at, in_range i j n (sym at ∙ at') (v.1 ∙ total) lt, shown)
    where
      in_range : (i j n : ℕ) → pos i ≡ pos j → pos (length items) ≡ pos n → j < n → i < length items
      in_range i j n p q lt = ground arith

  -- What a call did: it returned, the set still collects the pieces, the header and the block hash
  -- are the same, no part that was there is lost, and an error leaves the set as it was.
  pub record Kept (ps : PartSet) (r : Outcome (PartSet × Option PartError)) : Type 0 where
    pub after : PartSet
    pub error : Option PartError
    pub returned : r ≡ done (after, error)
    pub tracks : Tracks after
    pub same_header : after.header ≡ ps.header
    pub same_hash : after.block_header_hash ≡ ps.block_header_hash
    pub answer : (error ≡ none) ⊎ (after ≡ ps)
    pub keeps : (j : ℕ) → IsThere ps.parts j → IsThere after.parts j

  unchanged :
      (ps : PartSet) (e : PartError) (r : Outcome (PartSet × Option PartError))
      → Tracks ps
      → r ≡ done (ps, some e)
      → Kept ps r
  unchanged ps e r t eq = record {
    after = ps;
    error = some e;
    returned = eq;
    tracks = t;
    same_header = refl;
    same_hash = refl;
    answer = inr refl;
    keeps = λ j there. there;
  }

  stored :
      (ps : PartSet) (p : Part) (i : ℕ) (r : Outcome (PartSet × Option PartError))
      → Tracks ps
      → i < length items
      → get_elem? ps.parts i ≡ some none
      → get_elem? items i ≡ some p.bytes
      → r ≡ done (record ps { parts = set ps.parts i (some p); count = ps.count + 1 }, none)
      → Kept ps r
  stored ps p i r t lt free piece eq = record {
    after = record ps { parts = set ps.parts i (some p); count = ps.count + 1 };
    error = none;
    returned = eq;
    tracks = record {
      of_root = t.of_root;
      of_total = t.of_total;
      matching = set-Matches ps.parts items i p t.matching piece;
      counted = omega (arith, t.counted, filled-set ps.parts i p free);
    };
    same_header = refl;
    same_hash = refl;
    answer = inl refl;
    keeps = λ j. IsThere-set ps.parts i j p free;
  }

  add_new_part_lem :
      (ps : PartSet) (p : Part) (i : ℕ)
      → Tracks ps
      → p.proof.index ≡ pos i
      → (i < length items → get_elem? ps.parts i ≡ some none)
      → Kept ps (add_new_part h ps p) ⊎ Collision h
  unfolding add_new_part
  add_new_part_lem ps p i t at free = elim (Bool-cases (eq_ℤ ps.header.height p.height)) [
    | inr other ↦ inl (unchanged ps PartError.height_mismatch _ t (rw other refl))
    | inl same ↦ elim (Bool-cases (eq_ℤ ps.header.round p.round)) [
      | inr other ↦ inl (unchanged ps PartError.round_mismatch _ t (rw same (rw other refl)))
      | inl round ↦
          elim (Option-cases (verify_part h p ps.header.root ps.header.total ps.header.chain_id)) [
            | inr (e, bad) ↦
                inl (unchanged ps PartError.merkle_failed _ t (rw same (rw round (rw bad refl))))
            | inl ok ↦
                let (j, at', lt, shown) = verified_piece p ps.header.chain_id (
                  ap₂ (λ r n. verify_part h p r n ps.header.chain_id) (sym t.of_root)
                    (sym t.of_total)
                  ∙ ok) in
                accept j at' lt shown (rw same (rw round (rw ok refl)))
          ]
    ]
  ]
    where
      run : Outcome (PartSet × Option PartError)
      run = put ps.parts p.proof.index p >>= λ parts.
          done (record ps { parts = parts; count = ps.count + 1 }, none)

      accept :
          (j : ℕ)
          → p.proof.index ≡ pos j
          → j < length items
          → (get_elem? items j ≡ some p.bytes) ⊎ Collision h
          → add_new_part h ps p ≡ run
          → Kept ps (add_new_part h ps p) ⊎ Collision h
      accept j at' lt (inr c) eq = inr c
      accept j at' lt (inl piece) eq =
          let i_eq : i ≡ j = ground arith in
          inl (
            stored ps p j _ t lt
              (subst (λ k. get_elem? ps.parts k ≡ some none) i_eq (free (omega arith))) piece
              (eq
                ∙ ap
                    (λ r.
                      r >>= λ parts. done (record ps { parts = parts; count = ps.count + 1 }, none))
                    (put_done ps.parts p.proof.index j p at'
                      (omega (arith, Matches-length ps.parts items t.matching)))))

  -- A part whose index is not negative is taken without a panic, whatever else it holds. The set
  -- goes on collecting the same pieces under the same header, or a collision is at hand.
  pub add_part_lem :
      (ps : PartSet) (p : Part) (i : ℕ)
      → Tracks ps
      → p.proof.index ≡ pos i
      → Kept ps (add_part h ps p) ⊎ Collision h
  unfolding add_part
  add_part_lem ps p i t at = elim (Bool-cases (ltb_ℤ p.proof.index ps.header.total)) [
    | inr beyond ↦
        resume (rw beyond refl)
          (add_new_part_lem ps p i t at (λ lt. absurd (ground (arith, t.of_total))))
    | inl within ↦
        let lt : i < length items = ground (arith, t.of_total) in
        let (s, found) =
          get_elem?_lt ps.parts i (omega (arith, Matches-length ps.parts items t.matching)) in
        at_slot within lt s found
  ]
    where
      resume :
          add_part h ps p ≡ add_new_part h ps p
          → Kept ps (add_new_part h ps p) ⊎ Collision h
          → Kept ps (add_part h ps p) ⊎ Collision h
      resume e k = subst (λ r. Kept ps r ⊎ Collision h) (sym e) k

      at_slot :
          ltb_ℤ p.proof.index ps.header.total ≡ true
          → i < length items
          → (s : Option Part) → get_elem? ps.parts i ≡ some s
          → Kept ps (add_part h ps p) ⊎ Collision h
      at_slot within lt none found =
          resume (rw within (rw at (rw found refl))) (add_new_part_lem ps p i t at (λ _. found))
      at_slot within lt (some q) found =
          inl (unchanged ps PartError.duplicated_part _ t (rw within (rw at (rw found refl))))
