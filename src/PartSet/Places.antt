-- ===== src/PartSet/Places.antt =====
-- `AddPart` with the part of the sender for a slot.
use melete.Base.{
  ℕ, zero, suc, ◌+◌, ◌<◌, ◌≡◌, ◌⊎◌, refl, ap, ◌∙◌, sym, List, [], ◌∷◌, Option, none, some, true,
  arith, length, get_elem?, set, get_elem?_lt, get_elem?-set_self, inl, inr,
}
use mathlib.Core.Path.{subst}
use melete.Base.Bytes.{Bytes}
use melete.Base.Int.{pos, ltb_ℤ, eq_ℤ_iff}
use melete.Base.Outcome.{done, ◌>>=◌, done-injective}
use melete.Merkle.{HashFunction, Collision}
use melete.PartSet.{Part, PartSetHeader, PartSet, verify_part, add_new_part, add_part}
use melete.PartSet.Slots.{IsThere, Matches-length, put_done}
use melete.PartSet.Collect.{Tracks, Kept, add_part_lem}
use melete.PartSet.Receive.{AllValid, collect, collect-Collected, validate_part_index}

module _ (h : HashFunction) where
  -- The part for a slot of the set with this header.
  pub record Genuine (r : PartSetHeader) (p : Part) (i : ℕ) : Type 0 where
    pub at : p.proof.index ≡ pos i
    pub height : r.height ≡ p.height
    pub round : r.round ≡ p.round
    pub verified : verify_part h p r.root r.total r.chain_id ≡ none

  add_new_part_places :
      (ps : PartSet) (p : Part) (i : ℕ)
      → i < length ps.parts
      → Genuine ps.header p i
      → add_new_part h ps p
        ≡ done (record ps { parts = set ps.parts i (some p); count = ps.count + 1 }, none)
  unfolding add_new_part
  add_new_part_places ps p i lt g = rw ((eq_ℤ_iff ps.header.height p.height).1 g.height) (
      rw ((eq_ℤ_iff ps.header.round p.round).1 g.round)
        (rw g.verified (rw (put_done ps.parts p.proof.index i p g.at lt) refl)))

  -- A part for a slot that is added leaves the slot with a part.
  pub add_part_places :
      (items : List Bytes) (ps : PartSet) (p : Part) (i : ℕ)
      → Tracks h items ps
      → i < length items
      → Genuine ps.header p i
      → (k : Kept h items ps (add_part h ps p)) → IsThere k.after.parts i
  unfolding add_part
  add_part_places items ps p i t lt g k = at_slot (get_elem?_lt ps.parts i lt')
    where
      lt' : i < length ps.parts
      lt' = omega (arith, Matches-length ps.parts items t.matching)

      within : ltb_ℤ p.proof.index ps.header.total ≡ true
      within = ground (arith, g.at, t.of_total)

      at_slot : (s : Option Part) × (get_elem? ps.parts i ≡ some s) → IsThere k.after.parts i
      at_slot (some q, found) = k.keeps i (q, found)
      at_slot (none, found) =
          let e : add_part h ps p ≡ add_new_part h ps p = rw within (rw g.at (rw found refl)) in
          let same = done-injective (sym k.returned ∙ e ∙ add_new_part_places ps p i lt' g) in
          subst (λ (after : PartSet). IsThere after.parts i) (sym (ap (λ r. r.0) same))
            (p, get_elem?-set_self ps.parts i (some p) lt')

  collect_next :
      (items : List Bytes) (ps : PartSet) (q : Part) (rest : List Part)
      → (k : Kept h items ps (add_part h ps q)) (got : PartSet) → collect h k.after rest ≡ done got
      → collect h ps (q ∷ rest) ≡ done got
  unfolding collect
  collect_next items ps q rest k got run = ap (λ r. r >>= λ x. collect h x.0 rest) k.returned ∙ run

  -- A part for a slot that comes among valid parts leaves the slot with a part at the end.
  pub collect_places :
      (items : List Bytes) (ps : PartSet) (parts : List Part) (p : Part) (i k : ℕ)
      → Tracks h items ps
      → AllValid parts
      → i < length items
      → Genuine ps.header p i
      → get_elem? parts k ≡ some p
      → ((got : PartSet) × (collect h ps parts ≡ done got) × IsThere got.parts i) ⊎ Collision h
  unfolding collect
  collect_places items ps [] p i k t v lt g e = absurd (cc)
  collect_places items ps (q ∷ rest) p i zero t v lt g e =
      let (j, at) = validate_part_index q v.0 in
      let here : Genuine ps.header q i = subst (λ x. Genuine ps.header x i) (cc) g in
      elim (add_part_lem h items ps q j t at) [
        | inr c ↦ inr c
        | inl kept ↦ elim (collect-Collected h items kept.after rest kept.tracks v.1) [
          | inr c ↦ inr c
          | inl d ↦ inl (
            d.after,
            collect_next items ps q rest kept d.after d.returned,
            d.keeps i (add_part_places items ps q i t lt here kept),
          )
        ]
      ]
  collect_places items ps (q ∷ rest) p i (suc k) t v lt g e =
      let (j, at) = validate_part_index q v.0 in
      elim (add_part_lem h items ps q j t at) [
        | inr c ↦ inr c
        | inl kept ↦
            let later = subst (λ r. Genuine r p i) (sym kept.same_header) g in
            elim (collect_places items kept.after rest p i k kept.tracks v.1 lt later e) [
              | inr c ↦ inr c
              | inl (got, run, there) ↦ inl (got, collect_next items ps q rest kept got run, there)
            ]
      ]
