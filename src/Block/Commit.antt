-- ===== src/Block/Commit.antt =====
-- melete/types/block.go: the commit of a block, which no block holds yet.
use melete.Base.{◌≡◌, refl, List, [], ◌∷◌, Option, none, some}
use melete.Base.Bytes.{Bytes}
use melete.Base.Int.{ℤ}
use melete.Base.Encoding.{Encoding, read_message}
use melete.Base.Outcome.{Outcome, done}
use melete.Convert.{IntType, int_to_bytes, narrow}
use melete.Merkle.{HashFunction, hash_from_byte_slices}

-- `cached` is the field `hash`: nil is `none`, and no method sets it.
pub record Commit : Type 0 where
  pub height : ℤ
  pub round : ℤ
  pub block_hash : Bytes
  pub sigs : List Bytes
  pub cached : Option Bytes

-- The message has no hash, and its round is an `int32`.
pub record CommitProto : Type 0 where
  pub height : ℤ
  pub round : ℤ
  pub block_hash : Bytes
  pub sigs : List Bytes

-- `Commit.Hash`: the round is an `int`, for which `IntToBytes` gives nil.
unfoldable pub commit_hash : HashFunction → Commit → Bytes
commit_hash h c = elim c.cached [
  | some hash ↦ hash
  | none ↦ hash_from_byte_slices h (
      int_to_bytes IntType.int64 c.height ∷ [] ∷ c.block_hash ∷ hash_from_byte_slices h c.sigs ∷ [])
]

-- `Commit.ToProto` and `NewCommitFromProto`
unfoldable pub block_commit_to_proto : Commit → CommitProto
block_commit_to_proto c = record {
  height = c.height;
  round = narrow 32 c.round;
  block_hash = c.block_hash;
  sigs = c.sigs;
}

unfoldable pub block_commit_from_proto : CommitProto → Commit
block_commit_from_proto p = record {
  height = p.height;
  round = p.round;
  block_hash = p.block_hash;
  sigs = p.sigs;
  cached = none;
}

-- `NewCommitFromBytes`
unfoldable pub new_commit_from_bytes : Encoding CommitProto → Bytes → Outcome (Option Commit)
unfolding block_commit_from_proto
new_commit_from_bytes e bz = read_message e (λ p. done (block_commit_from_proto p)) bz

-- A commit with another round that is copied to protobuf and back has the hash of the first one,
-- which holds no cached hash.
commit_hash_ignores_round :
    (h : HashFunction) (c : Commit) (round : ℤ)
    → c.cached ≡ none
    → commit_hash h (block_commit_from_proto (block_commit_to_proto (record c { round = round })))
      ≡ commit_hash h c
unfolding commit_hash block_commit_from_proto block_commit_to_proto
commit_hash_ignores_round h c round e = rw e refl
