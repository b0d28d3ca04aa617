-- ===== src/Block/Laws.antt =====
-- The hashes of headers and blocks: `Header.Hash` and `Block.Hash`.
use melete.Base.{◌≡◌, ◌⊎◌, refl, ap, ◌∙◌, sym, [], ◌++◌, some, arith, length, inl, inr}
use melete.Base.Bytes.{Bytes}
use melete.Base.Int.{ℤ}
use melete.Convert.{IntType, int_to_bytes, bytes_to_int}
use melete.Convert.Laws.{InRange, bytes_to_int-int_to_bytes}
use melete.Merkle.{HashFunction, hash_size, Collision, hash_from_byte_slices}
use melete.Merkle.Bind.{hash_from_byte_slices_binds}
use melete.Block.{
  Header, Body, Block, Codec, header_fields, header_hash, body_hash, root_or, fill_header,
  block_hash,
}

int_to_bytes_injective :
    (t : IntType) (v w : ℤ)
    → InRange t v
    → InRange t w
    → int_to_bytes t v ≡ int_to_bytes t w
    → v ≡ w
int_to_bytes_injective t v w hv hw e =
    let same : some v ≡ some w =
      sym (bytes_to_int-int_to_bytes t v [] hv)
      ∙ ap (λ b. bytes_to_int t (b ++ [])) e
      ∙ bytes_to_int-int_to_bytes t w [] hw in
    cc

module _ (h : HashFunction) (c : Codec) where
  root_or_kept : (old new : Bytes) → length old ≡ hash_size → root_or h c old new ≡ old
  root_or_kept old new e = ground arith

  root_or_empty : (new : Bytes) → root_or h c [] new ≡ new
  root_or_empty new = refl

  -- When the header's body root has the size of a digest, the block's hash does not depend on the
  -- body at all: the root that came with the header is taken as it is.
  pub block_hash_ignores_body :
      (b : Block) (other : Body)
      → length b.header.body_root ≡ hash_size
      → block_hash h c (record b { body = other }) ≡ block_hash h c b
  unfolding block_hash
  block_hash_ignores_body b other e =
      ap
        (λ root.
          root_or h c b.blockhash
            (header_hash h c (record (fill_header h c b).header { body_root = root })))
        (root_or_kept b.header.body_root (body_hash h c other) e
          ∙ sym (root_or_kept b.header.body_root (body_hash h c b.body) e))

  -- What the fields of two headers agree in.
  pub record SameFields (r s : Header) : Type 0 where
    pub block_type : r.block_type ≡ s.block_type
    pub hash_pointer : r.hash_pointer ≡ s.hash_pointer
    pub chain_id : r.chain_id ≡ s.chain_id
    pub height : r.height ≡ s.height
    pub time_bytes : c.marshal_time r.time ≡ c.marshal_time s.time
    pub body_root : r.body_root ≡ s.body_root
    pub cross_shard_body_root : r.cross_shard_body_root ≡ s.cross_shard_body_root
    pub state_root : r.state_root ≡ s.state_root
    pub receipt_root : r.receipt_root ≡ s.receipt_root
    pub relation_root : r.relation_root ≡ s.relation_root

  -- The fields whose Go types bound them.
  pub record IsSized (r : Header) : Type 0 where
    pub int8_type : InRange IntType.int8 r.block_type
    pub int64_height : InRange IntType.int64 r.height
    pub encodable : (t : Bytes) × (c.marshal_time r.time ≡ some t)

  fields_agree :
      (r s : Header) (t u : Bytes)
      → IsSized r
      → IsSized s
      → c.marshal_time r.time ≡ some t
      → c.marshal_time s.time ≡ some u
      → header_fields h c r t ≡ header_fields h c s u
      → SameFields r s
  unfolding header_fields
  fields_agree r s t u hr hs et eu e = record {
    block_type = int_to_bytes_injective IntType.int8 _ _ hr.int8_type hs.int8_type (cc);
    hash_pointer = cc;
    chain_id = cc;
    height = int_to_bytes_injective IntType.int64 _ _ hr.int64_height hs.int64_height (cc);
    time_bytes = et ∙ ap some (cc) ∙ sym eu;
    body_root = cc;
    cross_shard_body_root = cc;
    state_root = cc;
    receipt_root = cc;
    relation_root = cc;
  }

  header_hash_at :
      (r : Header) (t : Bytes)
      → c.marshal_time r.time ≡ some t
      → header_hash h c r ≡ hash_from_byte_slices h (header_fields h c r t)
  unfolding header_hash
  header_hash_at r t e = rw (e, header_hash) refl

  -- Two headers whose integers are in range and whose times can be encoded, with one hash, agree in
  -- every field but the time, and their times have one encoding, or a collision is at hand.
  pub header_hash_binds :
      (r s : Header)
      → IsSized r
      → IsSized s
      → header_hash h c r ≡ header_hash h c s
      → SameFields r s ⊎ Collision h
  header_hash_binds r s hr hs e =
      let (t, et) = hr.encodable in
      let (u, eu) = hs.encodable in
      elim (hash_from_byte_slices_binds h (header_fields h c r t) (header_fields h c s u)
        (sym (header_hash_at r t et) ∙ e ∙ header_hash_at s u eu)) [
          | inl same ↦ inl (fields_agree r s t u hr hs et eu same)
          | inr k ↦ inr k
        ]
