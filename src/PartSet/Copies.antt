-- ===== src/PartSet/Copies.antt =====
-- melete/types/block-part.go and crypto/merkle/proof.go: a part's copy in protobuf.
use melete.Base.{◌≡◌, ap, Option, some}
use melete.Base.Bytes.{Bytes, Text}
use melete.Base.Int.{ℤ}
use melete.Base.Outcome.{Outcome, done, or_panic, ◌>>=◌}
use melete.Convert.{narrow}
use melete.Convert.Laws.{InSigned, narrow_fits}
use melete.Merkle.{Proof}
use melete.PartSet.{Part}

-- The round of the message is an `int32`; a proof that is missing is nil, and its message has the
-- fields of a `Proof`.
pub record PartProto : Type 0 where
  pub height : ℤ
  pub round : ℤ
  pub bytes : Bytes
  pub proof : Option Proof
  pub chain_id : Text

-- `Proof.ToProto` and `NewProofFromProto`
unfoldable pub proof_to_proto : Proof → Proof
proof_to_proto p = record {
  total = p.total;
  index = p.index;
  leaf_hash = p.leaf_hash;
  aunts = p.aunts;
}

unfoldable pub proof_from_proto : Proof → Proof
proof_from_proto p = record {
  total = p.total;
  index = p.index;
  leaf_hash = p.leaf_hash;
  aunts = p.aunts;
}

unfoldable pub part_to_proto : Part → PartProto
unfolding proof_to_proto
part_to_proto p = record {
  height = p.height;
  round = narrow 32 p.round;
  bytes = p.bytes;
  proof = some (proof_to_proto p.proof);
  chain_id = p.chain_id;
}

-- `NewPartFromProto`: a missing proof is read through nil.
unfoldable pub part_from_proto : PartProto → Outcome Part
unfolding proof_from_proto
part_from_proto pp = or_panic pp.proof >>= λ proof. done (record {
  chain_id = pp.chain_id;
  height = pp.height;
  round = pp.round;
  bytes = pp.bytes;
  proof = proof_from_proto proof;
})

-- `NewPartFromProto` gives a part back from its copy, when its round is an `int32`.
pub part_from_proto-part_to_proto :
    (p : Part) → InSigned 31 p.round → part_from_proto (part_to_proto p) ≡ done p
unfolding part_from_proto part_to_proto proof_from_proto proof_to_proto
part_from_proto-part_to_proto p r =
    ap (λ n. done (record p { round = n })) (narrow_fits 31 p.round r)
