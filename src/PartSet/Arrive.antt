-- ===== src/PartSet/Arrive.antt =====
-- Parts that arrive: a set that gets each of the sender's parts completes.
use melete.Base.{
  ℕ, zero, suc, ◌<◌, ◌≡◌, ◌⊎◌, refl, ap, ◌∙◌, sym, List, [], ◌∷◌, Option, none, some, true, arith,
  length, get_elem?, get_elem?_lt, inl, inr,
}
use mathlib.Core.Option
use mathlib.Core.Path.{subst}
use melete.Base.Bytes.{Bytes, Text, bytes_equal_refl}
use melete.Base.Int.{ℤ, pos, eq_ℤ_iff}
use melete.Base.Outcome.{done, ◌>>=◌, done-injective}
use melete.Convert.Laws.{InSigned}
use melete.Merkle.{HashFunction, Collision, Proof, verify, proofs_from_byte_slices}
use melete.Merkle.Complete.{proofs_complete, proofs_root}
use melete.Block.{Block, Codec, hashed}
use melete.Block.Copies.{Decodes, block_bytes}
use melete.PartSet.{
  Part, PartSetHeader, PartSet, generated, verify_part, is_complete, gen_block, make_parts,
  part_set_of_slices, part_set_from_block,
}
use melete.PartSet.Split.{concat, split_byte_array_lem}
use melete.PartSet.Slots.{IsThere, IsThere-filled, Matches-length}
use melete.PartSet.Collect.{Tracks}
use melete.PartSet.Places.{Genuine, collect_places}
use melete.PartSet.Deliver.{gen_block_lem}
use melete.PartSet.Receive.{AllValid, collect, collect-Collected, new_part_set-Tracks, receive}

-- Each part of the slots is among those that come.
abbrev pub HasAll : List (Option Part) → List Part → Type 0
HasAll [] parts = Unit {0}
HasAll (none ∷ ps) parts = HasAll ps parts
HasAll (some p ∷ ps) parts = ((k : ℕ) × (get_elem? parts k ≡ some p)) × HasAll ps parts

pub HasAll-at :
    (ps : List (Option Part)) (parts : List Part) (i : ℕ) (p : Part)
    → HasAll ps parts
    → get_elem? ps i ≡ some (some p)
    → (k : ℕ) × (get_elem? parts k ≡ some p)
HasAll-at [] parts i p a e = absurd (cc)
HasAll-at (none ∷ ps) parts zero p a e = absurd (cc)
HasAll-at (none ∷ ps) parts (suc i) p a e = HasAll-at ps parts i p a e
HasAll-at (some q ∷ ps) parts zero p a e = let (k, at) = a.0 in (k, cc)
HasAll-at (some q ∷ ps) parts (suc i) p a e = HasAll-at ps parts i p a.1 e

from_first :
    (n : ℕ) (P : ℕ → Type 0) → P 0 → ((i : ℕ) → i < n → P (suc i)) → (i : ℕ) → i < suc n → P i
from_first n P first rest zero lt = first
from_first n P first rest (suc i) lt = rest i (omega arith)

-- Each number below `n` has a property, or there is a reason for which some has not.
all_below :
    (n : ℕ) (P : ℕ → Type 0) (C : Type 0)
    → ((i : ℕ) → i < n → P i ⊎ C)
    → ((i : ℕ) → i < n → P i) ⊎ C
all_below zero P C f = inl (λ i lt. elim lt [ ])
all_below (suc n) P C f = elim (f 0 (omega arith)) [
  | inr c ↦ inr c
  | inl first ↦ elim (all_below n (λ i. P (suc i)) C (λ i lt. f (suc i) (omega arith))) [
    | inr c ↦ inr c
    | inl rest ↦ inl (from_first n P first rest)
  ]
]

module _ (h : HashFunction) where
  make_parts-at :
      (chain : Text) (height round : ℤ) (items : List Bytes) (proofs : List Proof) (i : ℕ)
      (x : Bytes) (sp : Proof)
      → get_elem? items i ≡ some x
      → get_elem? proofs i ≡ some sp
      → get_elem? (make_parts chain height round items proofs) i
        ≡ some (
            some
              (record { chain_id = chain; height = height; round = round; bytes = x; proof = sp }))
  unfolding make_parts
  make_parts-at chain height round [] proofs i x sp e f = absurd (cc)
  make_parts-at chain height round (y ∷ items) [] i x sp e f = absurd (cc)
  make_parts-at chain height round (y ∷ items) (p ∷ proofs) zero x sp e f = cc
  make_parts-at chain height round (y ∷ items) (p ∷ proofs) (suc i) x sp e f =
      make_parts-at chain height round items proofs i x sp e f

  verify_part_accepts :
      (p : Part) (root : Bytes) (total : ℤ)
      → verify h p.proof root p.bytes ≡ none
      → p.proof.total ≡ total
      → verify_part h p root total p.chain_id ≡ none
  unfolding verify_part
  verify_part_accepts p root total ok e =
      rw (ok, verify_part)
        (rw ((eq_ℤ_iff total p.proof.total).1 (sym e)) (rw (bytes_equal_refl p.chain_id) refl))

  module _ (c : Codec) where
    -- The sender's part for each slot.
    pub sent_part :
        (b : Block) (items : List Bytes) (round : ℤ) (i : ℕ)
        → i < length items
        → (p : Part) × (get_elem? (part_set_of_slices h c b items round).parts i ≡ some (some p))
          × Genuine h (part_set_of_slices h c b items round).header p i
    unfolding part_set_of_slices
    sent_part b items round i lt =
        let (x, at) = get_elem?_lt items i lt in
        let proven = proofs_complete h items i x at in
        let root = proofs_root h items in
        let accepted : verify h proven.proof (proofs_from_byte_slices h items).0 x ≡ none =
          ap (λ r. verify h proven.proof r x) root ∙ proven.accepted in
        (
          record {
            chain_id = b.header.chain_id;
            height = b.header.height;
            round = round;
            bytes = x;
            proof = proven.proof;
          },
          make_parts-at b.header.chain_id b.header.height round items _ i x proven.proof at
              proven.stored,
          record {
            at = proven.for_index;
            height = refl;
            round = refl;
            verified = verify_part_accepts _ _ (pos (length items)) accepted proven.for_total;
          },
        )

    -- What the receiver of a part set's header and block hash has at the end: a complete part set,
    -- and from it the block as its hash leaves it.
    pub Arrives : Block → PartSet → List Part → Type 0
    Arrives b sent parts =
        (got : PartSet) × (receive h sent.header sent.block_header_hash parts ≡ done got)
        × (is_complete got ≡ true)
        × (gen_block h c got ≡ done (generated (hashed h c b)))

    -- Every slot of what was collected holds a part.
    all-IsThere :
        (b : Block) (items : List Bytes) (round : ℤ) (ps got : PartSet) (parts : List Part)
        → Tracks h items ps
        → ps.header ≡ (part_set_of_slices h c b items round).header
        → AllValid parts
        → HasAll (part_set_of_slices h c b items round).parts parts
        → collect h ps parts ≡ done got
        → (i : ℕ) → i < length items
        → IsThere got.parts i ⊎ Collision h
    all-IsThere b items round ps got parts t same v a run i lt =
        let (p, at, g) = sent_part b items round i lt in
        let (k, comes) = HasAll-at _ parts i p a at in
        elim (collect_places h items ps parts p i k t v lt
          (subst (λ r. Genuine h r p i) (sym same) g) comes) [
            | inr c ↦ inr c
            | inl (got', run', there) ↦
                inl (
                  subst (λ (x : PartSet). IsThere x.parts i) (done-injective (sym run' ∙ run))
                    there)
          ]

    pub complete_of_full :
        (items : List Bytes) (got : PartSet)
        → Tracks h items got
        → ((i : ℕ) → i < length items → IsThere got.parts i)
        → is_complete got ≡ true
    unfolding is_complete
    complete_of_full items got t there =
        let len = Matches-length got.parts items t.matching in
        let full = IsThere-filled got.parts (λ i lt. there i (omega (arith, len))) in
        (eq_ℤ_iff got.header.total (pos got.count)).1
          (t.of_total ∙ ap pos (omega (arith, len, full, t.counted)))

    slices-Arrive :
        (b : Block) (items : List Bytes) (round : ℤ) (parts : List Part)
        → b.blockhash ≡ []
        → Decodes c b
        → InSigned 7 b.header.block_type
        → concat items ≡ block_bytes c b
        → AllValid parts
        → HasAll (part_set_of_slices h c b items round).parts parts
        → Arrives b (part_set_of_slices h c b items round) parts ⊎ Collision h
    unfolding Arrives receive part_set_of_slices
    slices-Arrive b items round parts cached decodes type joined v a =
        let sent = part_set_of_slices h c b items round in
        let (ps, made, t, same, same') =
          new_part_set-Tracks h items sent.header sent.block_header_hash (proofs_root h items)
            refl in
        elim (collect-Collected h items ps parts t v) [
          | inr k ↦ inr k
          | inl d ↦
              elim (all_below (length items) (IsThere d.after.parts) (Collision h)
                (all-IsThere b items round ps d.after parts t same v a d.returned)) [
                  | inr k ↦ inr k
                  | inl there ↦
                      let complete = complete_of_full items d.after d.tracks there in
                      inl (
                        d.after,
                        ap (λ o. o >>= λ q. collect h q parts) made ∙ d.returned,
                        complete,
                        gen_block_lem h c b items d.after cached decodes type joined d.tracks
                            (ap (λ (r : PartSetHeader). r.chain_id) (d.same_header ∙ same))
                            (ap (λ (r : PartSetHeader). r.height) (d.same_header ∙ same))
                            (d.same_hash ∙ same') complete,
                      )
                ]
        ]

    -- `PartSetFromBlock` cuts a block that is not hashed yet, whose type is an `int8`, and whose
    -- message protobuf reads back, into a part set. A receiver that starts from the set's header and
    -- block hash, and adds parts that pass `Part.ValidateBasic`, each part of the set among them,
    -- in any order and between any others, ends without a panic with a complete set, and `GenBlock`
    -- gives the sender's block as `Block.Hash` leaves it. Otherwise two messages with one digest are
    -- at hand.
    pub part_set-Arrives :
        (b : Block) (max_part_size : ℕ) (round : ℤ) (sent : PartSet) (parts : List Part)
        → 0 < max_part_size
        → b.blockhash ≡ []
        → Decodes c b
        → InSigned 7 b.header.block_type
        → part_set_from_block h c b max_part_size round ≡ some sent
        → AllValid parts
        → HasAll sent.parts parts
        → Arrives b sent parts ⊎ Collision h
    unfolding part_set_from_block
    part_set-Arrives b max_part_size round sent parts p cached decodes type cut v a =
        let (items, e, split) =
          split_byte_array_lem (length (block_bytes c b)) (block_bytes c b) max_part_size p
            (omega arith) in
        let same : part_set_of_slices h c b items round ≡ sent =
          Option.some-injective _ _
            (sym (ap (Option.map (λ xs. part_set_of_slices h c b xs round)) e) ∙ cut) in
        subst (λ s. Arrives b s parts ⊎ Collision h) same
          (slices-Arrive b items round parts cached decodes type split.joined v
            (subst (λ (s : PartSet). HasAll s.parts parts) (sym same) a))
