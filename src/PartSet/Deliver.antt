-- ===== src/PartSet/Deliver.antt =====
-- From the sender's block through its parts to the receiver's `GenBlock`.
use mathlib.Core.Option
use melete.Base.{◌≡◌, ◌⊎◌, ap, ◌∙◌, sym, List, [], true, false, arith, length, le→ltb_false}
use melete.Base.Bytes.{Bytes, bytes_equal_refl}
use melete.Base.Int.{pos, eq_ℤ_iff}
use melete.Base.Outcome.{done}
use melete.Merkle.{HashFunction}
use melete.Block.{Block, Codec, block_hash, hashed}
use melete.Block.Copies.{Decodes, block_bytes, block_from_bytes-block_bytes}
use melete.Convert.Laws.{InSigned}
use melete.PartSet.{
  Part, PartSet, generated, failed, incomplete, is_complete, gen_block, check_block,
}
use melete.PartSet.Split.{concat}
use melete.PartSet.Slots.{Matches-length, join_parts_full}
use melete.PartSet.Receive.{receive}
use melete.PartSet.Collect.{Tracks}

module _ (h : HashFunction) (c : Codec) where
  check_block_accepts :
      (ps : PartSet) (b : Block)
      → ps.header.chain_id ≡ b.header.chain_id
      → ps.header.height ≡ b.header.height
      → ps.block_header_hash ≡ block_hash h c b
      → check_block h c ps b ≡ generated (hashed h c b)
  unfolding check_block
  check_block_accepts ps b chain height hash = ground (
    arith,
    bytes_equal_refl b.header.chain_id,
    bytes_equal_refl (block_hash h c b),
    eq_ℤ_iff b.header.height b.header.height,
  )

  -- A complete set of the pieces joins to the encoding.
  pub gen_block_lem :
      (b : Block) (items : List Bytes) (got : PartSet)
      → b.blockhash ≡ []
      → Decodes c b
      → InSigned 7 b.header.block_type
      → concat items ≡ block_bytes c b
      → Tracks h items got
      → got.header.chain_id ≡ b.header.chain_id
      → got.header.height ≡ b.header.height
      → got.block_header_hash ≡ block_hash h c b
      → is_complete got ≡ true
      → gen_block h c got ≡ done (generated (hashed h c b))
  unfolding gen_block is_complete
  gen_block_lem b items got cached decodes type joined t chain height hash complete = rw complete (
      rw (le→ltb_false got.count (length got.parts) (omega (arith, full, len))) (
        rw (join_parts_full got.parts items t.matching (omega (arith, full, len, t.counted)))
          (rw joined (rw (block_from_bytes-block_bytes c b decodes type) (ap done checked)))))
    where
      full : length items ≡ got.count
      full = ground (arith, t.of_total, (eq_ℤ_iff got.header.total (pos got.count)).0 complete)

      len : length got.parts ≡ length items
      len = Matches-length got.parts items t.matching

      decoded : Block
      decoded = record b { blockhash = [] }

      same_block : decoded ≡ b
      same_block = ap (λ x. record b { blockhash = x }) (sym cached)

      accepted : check_block h c got b ≡ generated (hashed h c b)
      accepted = check_block_accepts got b chain height hash

      checked : check_block h c got decoded ≡ generated (hashed h c b)
      checked = ap (check_block h c got) same_block ∙ accepted

  -- What the receiver of a part set's header and block hash has after any parts: a part set that is
  -- not complete and gives no block, or one that gives the block as its hash leaves it.
  pub Delivers : Block → PartSet → List Part → Type 0
  Delivers b sent parts =
      (got : PartSet) × (receive h sent.header sent.block_header_hash parts ≡ done got)
      × (((is_complete got ≡ false) × (gen_block h c got ≡ done (failed incomplete)))
          ⊎ ((is_complete got ≡ true) × (gen_block h c got ≡ done (generated (hashed h c b)))))
