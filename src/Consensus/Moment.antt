-- ===== src/Consensus/Moment.antt =====
-- The steps and the moment of a node: what the actions of main.go keep.
use melete.Base.{◌≤◌, ◌<◌, ◌≡◌, refl, ◌∙◌, [], ◌∷◌, Bool, false, ◌==◌, arith}
use melete.Base.Bytes.{Text}
use melete.Base.Int.{pos, ◌+ℤ◌}
use melete.Base.Outcome.{or_panic, Holds, returns, Holds-bind, Holds-any}
use melete.Base.Table.{Table, lookup, bytes_eq}
use melete.Signer.{Bls}
use melete.Height.{HeightData}
use melete.Height.Next.{next_height, new_accepts}
use melete.Height.Keeps.{Keeps}
use melete.Consensus.{Node, ConsensusState, Message, next, send_to_shards, send_to, with_datas}

module _ (b : Bls) (n : Node) where
  -- The node and the data of its height are at one height and at round 0, in a step from the
  -- proposal to the commit.
  abbrev pub IsRunning : ConsensusState b n → Type 0
  IsRunning s =
      (s.height_datas.height ≡ s.height)
      × (s.height_datas.round ≡ s.round)
      × (s.round ≡ pos 0)
      × (3 ≤ s.step)
      × (s.step ≤ 7)

  -- Before the last step.
  abbrev pub IsEarly : ConsensusState b n → Type 0
  IsEarly s = IsRunning s × (s.step < 7)

  -- New data of the height, at its height and round.
  pub with_datas-IsEarly :
      (s : ConsensusState b n) (h : HeightData b)
      → IsEarly s
      → Keeps b s.height_datas h
      → IsEarly (with_datas b n s h)
  with_datas-IsEarly s h ((a, r, z, l, u), e) k = ((k.0 ∙ a, k.1 ∙ r, z, l, u), e)

  pub next-IsRunning : (s : ConsensusState b n) → IsEarly s → IsRunning (next b n s)
  unfolding next
  next-IsRunning s ((a, r, z, l, u), e) = rw last (a, r, z, omega (arith, l), omega (arith, e))
    where
      last : (s.step == 7) ≡ false
      last = ground arith

  pub send_to_shards-IsEarly :
      (shards : Table Text Bool) (s : ConsensusState b n) (m : Message)
      → IsEarly s
      → IsEarly (send_to_shards b n shards s m)
  unfolding send_to_shards
  send_to_shards-IsEarly [] s m k = k
  send_to_shards-IsEarly ((shard, related) ∷ rest) s m k =
      send_to_shards-IsEarly rest (send_to b n s shard m) m k

  -- A height that begins.
  pub next_height-Holds :
      (h : HeightData b)
      → Holds
          (λ (g : HeightData b). (g.height ≡ h.height +ℤ pos 1) × (g.round ≡ pos 0))
          (next_height b h)
  unfolding next_height
  next_height-Holds h =
      Holds-bind {P = λ (g : HeightData b). (g.height ≡ h.height +ℤ pos 1) × (g.round ≡ pos 0)}
        (Holds-any (or_panic (lookup h.my_chain_id h.all_validator_set))
          (λ v. returns (refl, refl)))
        (λ g k. Holds-any (new_accepts b g g.shard_info.related_shards) (λ sets. returns k))
