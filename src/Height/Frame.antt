-- ===== src/Height/Frame.antt =====
-- What `addInnerPart` leaves as it is in the data of a height.
use melete.Base.{◌≡◌, refl, ◌∙◌}
use melete.Signer.{Bls}
use melete.Height.{HeightData}

module _ (b : Bls) where
  -- What parts leave as it is.
  pub record SameFrame (h after : HeightData b) : Type 0 where
    pub height : after.height ≡ h.height
    pub round : after.round ≡ h.round
    pub my_chain_id : after.my_chain_id ≡ h.my_chain_id
    pub shard_info : after.shard_info ≡ h.shard_info
    pub proposal : after.proposal ≡ h.proposal
    pub prevotes : after.prevotes ≡ h.prevotes
    pub precommits : after.precommits ≡ h.precommits

  pub SameFrame-refl : (h : HeightData b) → SameFrame h h
  SameFrame-refl h = record {
    height = refl;
    round = refl;
    my_chain_id = refl;
    shard_info = refl;
    proposal = refl;
    prevotes = refl;
    precommits = refl;
  }

  pub SameFrame-trans : (h g k : HeightData b) → SameFrame h g → SameFrame g k → SameFrame h k
  SameFrame-trans h g k p q = record {
    height = q.height ∙ p.height;
    round = q.round ∙ p.round;
    my_chain_id = q.my_chain_id ∙ p.my_chain_id;
    shard_info = q.shard_info ∙ p.shard_info;
    proposal = q.proposal ∙ p.proposal;
    prevotes = q.prevotes ∙ p.prevotes;
    precommits = q.precommits ∙ p.precommits;
  }
