-- ===== src/PartSet.antt =====
-- melete/types/block-part.go with utils.SplitByteArray: a block cut into parts, each with a proof
-- against the root in the part set's header, and the set that collects them again.
pub mod Split
pub mod Slots
pub mod Collect
pub mod Copies
pub mod Receive
pub mod Deliver
pub mod Places
pub mod Arrive
pub mod Sample
mod Tests
use mathlib.Core.Option
use melete.Base.{
  ℕ, zero, suc, ◌+◌, List, [], ◌∷◌, ◌++◌, map, Option, none, some, Bool, true, false, not, ◌&&◌,
  ◌||◌, if◌then◌else◌, length, get_elem?, set, replicate, take, drop, ltb, leb, ◌==◌,
}
use melete.Base.Bytes.{Bytes, Text, bytes_equal}
use melete.Base.Int.{ℤ, pos, negsuc, ltb_ℤ, eq_ℤ}
use melete.Base.Outcome.{Outcome, done, panic, or_panic, ◌>>=◌}
use melete.Merkle.{HashFunction, hash_size, Proof, verify, validate_proof, proofs_from_byte_slices}
use melete.Block.{Block, Codec, block_hash, hashed}
use melete.Block.Copies.{block_bytes, block_from_bytes}

pub record Part : Type 0 where
  pub chain_id : Text
  pub height : ℤ
  pub round : ℤ
  pub bytes : Bytes
  pub proof : Proof

pub record PartSetHeader : Type 0 where
  pub height : ℤ
  pub round : ℤ
  pub total : ℤ
  pub root : Bytes
  pub chain_id : Text

-- A slot that is nil in Go is `none`.
pub record PartSet : Type 0 where
  pub header : PartSetHeader
  pub parts : List (Option Part)
  pub count : ℕ
  pub block_header_hash : Bytes

pub data PartError : Type 0 where
  duplicated_part height_mismatch round_mismatch merkle_failed total_or_chain_mismatch : PartError
  negative_height negative_round no_bytes no_chain_id bad_proof negative_total bad_root : PartError

-- `SplitByteArray`, with fuel: `none` is a loop that does not end, as at size 0.
unfoldable pub split_byte_array : ℕ → Bytes → ℕ → Option (List Bytes)
split_byte_array fuel [] size = some []
split_byte_array zero (x ∷ data') size = none
split_byte_array (suc fuel) (x ∷ data') size =
    Option.map (λ rest. take size (x ∷ data') ∷ rest)
      (split_byte_array fuel (drop size (x ∷ data')) size)

-- `Part.ValidateBasic`
unfoldable pub validate_part : Part → Option PartError
validate_part p =
    if ltb_ℤ p.height (pos 0)
    then some negative_height
    else if ltb_ℤ p.round (pos 0)
    then some negative_round
    else if length p.bytes == 0
    then some no_bytes
    else if length p.chain_id == 0
    then some no_chain_id
    else Option.map (λ e. bad_proof) (validate_proof p.proof)

-- `PartSetHeader.ValidateBasic`
unfoldable pub validate_header : PartSetHeader → Option PartError
validate_header r =
    if ltb_ℤ r.height (pos 0)
    then some negative_height
    else if ltb_ℤ r.round (pos 0)
    then some negative_round
    else if ltb_ℤ r.total (pos 0)
    then some negative_total
    else if length r.chain_id == 0
    then some no_chain_id
    else if not (length r.root == hash_size)
    then some bad_root
    else none

-- `PartSetHeader.Equal`
unfoldable pub header_equal : PartSetHeader → PartSetHeader → Bool
header_equal p q =
    bytes_equal p.chain_id q.chain_id
    && (eq_ℤ p.height q.height
        && (eq_ℤ p.round q.round && (eq_ℤ p.total q.total && bytes_equal p.root q.root)))

-- `NewPartSet`: making a slice of negative length panics.
unfoldable pub new_part_set : PartSetHeader → Bytes → Outcome PartSet
new_part_set r header_hash = elim r.total [
  | pos n ↦
      done (record {
        header = r;
        parts = replicate n none;
        count = 0;
        block_header_hash = header_hash;
      })
  | negsuc n ↦ panic
]

-- The slot at an `int64` index, out of range for a negative one.
abbrev pub slot : List (Option Part) → ℤ → Option (Option Part)
slot parts (pos i) = get_elem? parts i
slot parts (negsuc n) = none

abbrev pub put : List (Option Part) → ℤ → Part → Outcome (List (Option Part))
put parts (pos i) p = if ltb i (length parts) then done (set parts i (some p)) else panic
put parts (negsuc n) p = panic

-- `i < ps.Header.Total && ps.Parts[i] != nil`
abbrev pub is_filled : Option (Option Part) → Outcome Bool
is_filled none = panic
is_filled (some none) = done false
is_filled (some (some p)) = done true

module _ (h : HashFunction) where
  -- `Part.Verify`
  unfoldable pub verify_part : Part → Bytes → ℤ → Text → Option PartError
  verify_part p root total chain_id = elim (verify h p.proof root p.bytes) [
    | some e ↦ some merkle_failed
    | none ↦
        if not (eq_ℤ total p.proof.total) || not (bytes_equal chain_id p.chain_id)
        then some total_or_chain_mismatch
        else none
  ]

  -- `AddPart` behind the duplicate test.
  unfoldable pub add_new_part : PartSet → Part → Outcome (PartSet × Option PartError)
  unfolding verify_part
  add_new_part ps p =
      let r = ps.header in
      if not (eq_ℤ r.height p.height)
      then done (ps, some height_mismatch)
      else if not (eq_ℤ r.round p.round)
      then done (ps, some round_mismatch)
      else elim (verify_part p r.root r.total r.chain_id) [
        | some e ↦ done (ps, some merkle_failed)
        | none ↦ put ps.parts p.proof.index p >>= λ parts.
            done (record ps { parts = parts; count = ps.count + 1 }, none)
      ]

  -- `AddPart`; the error is `none` on success.
  unfoldable pub add_part : PartSet → Part → Outcome (PartSet × Option PartError)
  unfolding add_new_part
  add_part ps p =
      let i = p.proof.index in
      (if ltb_ℤ i ps.header.total then is_filled (slot ps.parts i) else done false) >>= λ filled.
      if filled then done (ps, some duplicated_part) else add_new_part ps p

-- `IsComplete`
unfoldable pub is_complete : PartSet → Bool
is_complete ps = eq_ℤ ps.header.total (pos ps.count)

-- The loop of `GenBlock` over the parts with `bytes.Join`; a nil part panics.
unfoldable pub join_parts : List (Option Part) → Outcome Bytes
join_parts [] = done []
join_parts (none ∷ ps) = panic
join_parts (some p ∷ ps) = join_parts ps >>= λ rest. done (p.bytes ++ rest)

pub data GenError : Type 0 where
  incomplete deserialization chain_id_mismatch block_height_mismatch header_hash_mismatch : GenError

-- A block with or without an error, as `GenBlock` returns it.
pub data Generated : Type 0 where
  generated : Block → Generated
  failed : GenError → Generated

module _ (h : HashFunction) (c : Codec) where
  -- The tests of `GenBlock` on the decoded block. `Block.ValidateBasic` accepts every block, and
  -- `Block.Hash` fills the block that is returned.
  unfoldable pub check_block : PartSet → Block → Generated
  check_block ps b =
      if not (bytes_equal b.header.chain_id ps.header.chain_id)
      then failed chain_id_mismatch
      else if not (eq_ℤ b.header.height ps.header.height)
      then failed block_height_mismatch
      else if not (bytes_equal (block_hash h c b) ps.block_header_hash)
      then failed header_hash_mismatch
      else generated (hashed h c b)

  -- `GenBlock`. An incomplete set gives a nil block and no error in Go. There are `count` places
  -- for the parts' bytes.
  unfoldable pub gen_block : PartSet → Outcome Generated
  unfolding is_complete join_parts check_block block_from_bytes
  gen_block ps =
      if not (is_complete ps)
      then done (failed incomplete)
      else (if ltb ps.count (length ps.parts) then panic else join_parts ps.parts) >>= λ bz.
          block_from_bytes c bz >>= λ o.
          done (elim o [ none ↦ failed deserialization | some b ↦ check_block ps b ])

-- The loop of `PartSetFromBlock` that pairs the slices with their proofs.
unfoldable pub make_parts : Text → ℤ → ℤ → List Bytes → List Proof → List (Option Part)
make_parts chain height round [] proofs = []
make_parts chain height round (b ∷ bs) [] = []
make_parts chain height round (b ∷ bs) (p ∷ ps) =
    some (record { chain_id = chain; height = height; round = round; bytes = b; proof = p })
    ∷ make_parts chain height round bs ps

module _ (h : HashFunction) (c : Codec) where
  -- The part set of a block whose encoding is cut into the slices `items`.
  unfoldable pub part_set_of_slices : Block → List Bytes → ℤ → PartSet
  unfolding make_parts
  part_set_of_slices b items round =
      let (root, proofs) = proofs_from_byte_slices h items in
      record {
        header = record {
          height = b.header.height;
          round = round;
          total = pos (length items);
          root = root;
          chain_id = b.header.chain_id;
        };
        parts = make_parts b.header.chain_id b.header.height round items proofs;
        count = length items;
        block_header_hash = block_hash h c b;
      }

  -- `PartSetFromBlock`
  unfoldable pub part_set_from_block : Block → ℕ → ℤ → Option PartSet
  unfolding split_byte_array part_set_of_slices block_bytes
  part_set_from_block b max_part_size round =
      let bz = block_bytes c b in
      Option.map (λ items. part_set_of_slices b items round)
        (split_byte_array (length bz) bz max_part_size)
