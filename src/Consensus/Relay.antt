-- ===== src/Consensus/Relay.antt =====
-- A message that is early, which `doMessage` keeps for its height and round.
use melete.Base.{
  ◌≡◌, ◌≢◌, ◌⊎◌, refl, ap, ap₂, sym, ◌∙◌, inl, inr, List, [], ◌∷◌, ◌++◌, none, some, Option-cases,
  Bool, true, false, not, ◌&&◌, ◌||◌, if◌then◌else◌, Bool-cases, arith,
}
use mathlib.Core.Option
use melete.Base.Int.{ℤ, pos, pos_part, neg_part, ltb_ℤ, eq_ℤ, eq_ℤ_iff}
use melete.Base.Outcome.{Outcome, done, ◌>>=◌}
use melete.Base.Table.{Table, lookup, insert, int_eq, lookup-insert}
use melete.BitVector.{get_index}
use melete.Merkle.{HashFunction}
use melete.Block.{Codec}
use melete.Signer.{Bls}
use melete.Height.{HeightData, Wire, do_nothing, add_ballot}
use melete.Height.Receive.{add_inner_part, add_proposal, add_prevote, add_precommit}
use melete.Height.Cross.{add_cross_shard_proposal, add_cross_shard_accept, add_cross_shard_commit}
use melete.Consensus.{
  Node, ConsensusState, Message, part_message, proposal_message, prevote_message, precommit_message,
  cross_shard_proposal_message, cross_shard_accept_message, cross_shard_commit_message, relayed,
  is_over_time, add_relay_message_if_over_time, calculate_proposer,
}
use melete.Consensus.Run.{moment_of, run_message, take_message, taken}

differs : (a b : ℤ) → a ≢ b → eq_ℤ a b ≡ false
differs a b ne = ground (arith, eq_ℤ_iff a b)

early_differs : (a d r q : ℤ) → (ltb_ℤ a d || (eq_ℤ a d && ltb_ℤ r q)) ≡ true → (a ≢ d) ⊎ (r ≢ q)
early_differs a d r q late = elim (Bool-cases (eq_ℤ a d)) [
  | inl same ↦
      let at : a ≡ d = (eq_ℤ_iff a d).0 same in
      inr (λ e.
        absurd (ground (arith, late, ap pos_part at, ap neg_part at, ap pos_part e, ap neg_part e)))
  | inr other ↦ inl (λ e. absurd (ground (arith, other, eq_ℤ_iff a d, e)))
]

other_moment : (a d r q : ℤ) → (a ≢ d) ⊎ (r ≢ q) → (not (eq_ℤ a d) || not (eq_ℤ r q)) ≡ true
other_moment a d r q (inl ne) = rw (differs a d ne) refl
other_moment a d r q (inr ne) = rw (differs r q ne) (ground arith)

other_height : (d a : ℤ) → (a ≢ d) → not (eq_ℤ d a) ≡ true
other_height d a ne = rw (differs d a (λ e. ne (sym e))) refl

-- A message put behind those that wait in a table of tables.
kept :
    (height round height' round' : ℤ) (m : Message) (channel : Table ℤ (Table ℤ (List Message)))
    (u : Table ℤ (List Message))
    → Option.get_or (lookup height channel) [] ≡ u
    → Option.get_or
        (lookup round' (
          Option.get_or
            (lookup height' (
              insert height
                (insert round (Option.get_or (lookup round u) [] ++ (m ∷ [])) u)
                channel))
            []))
        []
      ≡ (if eq_ℤ height height' && eq_ℤ round round'
          then Option.get_or (lookup round u) [] ++ (m ∷ [])
          else Option.get_or (lookup round' (Option.get_or (lookup height' channel) [])) [])
kept height round height' round' m channel u e =
    rw
      (lookup-insert height height' (insert round (Option.get_or (lookup round u) [] ++ (m ∷ [])) u)
        channel)
      (elim (Bool-cases (eq_ℤ height height')) [
        | inl same ↦ rw same (
            rw (lookup-insert round round' (Option.get_or (lookup round u) [] ++ (m ∷ [])) u)
              (elim (Bool-cases (eq_ℤ round round')) [
                | inl r ↦ rw r refl
                | inr r ↦ rw r (
                    ap (λ x. Option.get_or (lookup round' x) [])
                      (sym e
                        ∙ ap (λ h. Option.get_or (lookup h channel) [])
                            ((eq_ℤ_iff height height').0 same)))
              ]))
        | inr other ↦ rw other refl
      ])

module _ (b : Bls) (n : Node) where
  -- The messages that wait for a moment, after one was kept.
  pub add_relay_message-relayed :
      (s : ConsensusState b n) (height round height' round' : ℤ) (m : Message)
      → is_over_time b n s height round ≡ true
      → relayed b n (add_relay_message_if_over_time b n s height round m).0 height' round' ≡ (
          if eq_ℤ height height' && eq_ℤ round round'
          then relayed b n s height round ++ (m ∷ [])
          else relayed b n s height' round')
  unfolding add_relay_message_if_over_time lookup insert
  add_relay_message-relayed s height round height' round' m late =
      rw late (elim (Option-cases (lookup height s.relay_message_channel)) [
        | inl e ↦ rw e (
            kept height round height' round' m s.relay_message_channel []
              (ap (λ x. Option.get_or x []) e))
        | inr (u, e) ↦ rw e (
            kept height round height' round' m s.relay_message_channel u
              (ap (λ x. Option.get_or x []) e))
      ])

  -- Nothing but the channel changes.
  pub add_relay_message-kept :
      (s : ConsensusState b n) (height round : ℤ) (m : Message)
      → (u : Table ℤ (Table ℤ (List Message))) × ((add_relay_message_if_over_time b n s height round
            m).0
          ≡ record s { relay_message_channel = u })
  unfolding add_relay_message_if_over_time
  add_relay_message-kept s height round m = elim (Bool-cases (is_over_time b n s height round)) [
    | inr now ↦ (s.relay_message_channel, rw now refl)
    | inl late ↦ rw late (elim (Option-cases (lookup height s.relay_message_channel)) [
      | inl e ↦ rw e (_, refl)
      | inr (u, e) ↦ rw e (_, refl)
    ])
  ]

module _ (b : Bls) (f : HashFunction) (c : Codec) (w : Wire) (n : Node) where
  -- What is read of a message before its height is compared: the bit of a vote's validator, and the
  -- proposer that is due.
  abbrev pub Readable : HeightData b → Outcome ℤ → Message → Type 0
  Readable h due (prevote_message m) =
      (seen : Bool) × (get_index h.prevotes.bits m.validator_index ≡ done seen)
  Readable h due (precommit_message m) =
      (seen : Bool) × (get_index h.precommits.bits m.validator_index ≡ done seen)
  Readable h due (proposal_message m) = (i : ℤ) × (due ≡ done i)
  Readable h due (part_message m) = Unit {0}
  Readable h due (cross_shard_proposal_message m) = Unit {0}
  Readable h due (cross_shard_accept_message m) = Unit {0}
  Readable h due (cross_shard_commit_message m) = Unit {0}

  -- The node and the data of its height are at the same height and at round 0.
  abbrev pub IsAligned : ConsensusState b n → Type 0
  IsAligned s =
      (s.height_datas.height ≡ s.height) × (s.height_datas.round ≡ s.round) × (s.round ≡ pos 0)

  only_height :
      (s : ConsensusState b n) {d : ℤ}
      → (s.height_datas.height ≢ d) ⊎ (s.height_datas.round ≢ pos 0)
      → s.height_datas.round ≡ pos 0
      → s.height_datas.height ≢ d
  only_height s (inl ne) z = ne
  only_height s (inr ne) z = absurd (ne z)

  -- The data of a height do nothing with a message of another moment.
  take_message-nothing :
      (s : ConsensusState b n) (m : Message)
      → (s.height_datas.height ≢ (moment_of m).0) ⊎ (s.height_datas.round ≢ (moment_of m).1)
      → s.height_datas.round ≡ pos 0
      → Readable s.height_datas (calculate_proposer b n s) m
      → take_message b f c w n s m ≡ done (s.height_datas, some do_nothing)
  unfolding take_message moment_of add_inner_part add_proposal add_prevote add_precommit add_ballot
      add_cross_shard_proposal add_cross_shard_accept add_cross_shard_commit
  take_message-nothing s (part_message m) d z r =
      rw (other_moment s.height_datas.height m.height s.height_datas.round m.round d) refl
  take_message-nothing s (proposal_message m) d z r =
      let other =
        other_moment s.height_datas.height m.header.height s.height_datas.round m.header.round d in
      rw r.1 (elim (Option-cases s.height_datas.proposal) [
        | inl e ↦ rw e (rw other refl)
        | inr (q, e) ↦ rw e refl
      ])
  take_message-nothing s (prevote_message m) d z r = rw r.1 (elim (Bool-cases r.0) [
    | inl e ↦ rw e refl
    | inr e ↦
        rw e (rw (other_moment s.height_datas.height m.height s.height_datas.round m.round d) refl)
  ])
  take_message-nothing s (precommit_message m) d z r = rw r.1 (elim (Bool-cases r.0) [
    | inl e ↦ rw e refl
    | inr e ↦
        rw e (rw (other_moment s.height_datas.height m.height s.height_datas.round m.round d) refl)
  ])
  take_message-nothing s (cross_shard_proposal_message m) d z r =
      rw
        (other_height (m.aggregated_signatures).header.height s.height_datas.height
          (only_height s d z))
        refl
  take_message-nothing s (cross_shard_accept_message m) d z r =
      rw (other_height m.height s.height_datas.height (only_height s d z)) refl
  take_message-nothing s (cross_shard_commit_message m) d z r =
      rw (other_height m.height s.height_datas.height (only_height s d z)) refl

  relay_and_nothing :
      (s : ConsensusState b n) (m : Message) (p : ConsensusState b n × Bool)
      → (u : Table ℤ (Table ℤ (List Message))) × (p.0 ≡ record s { relay_message_channel = u })
      → IsAligned s
      → Readable s.height_datas (calculate_proposer b n s) m
      → is_over_time b n s (moment_of m).0 (moment_of m).1 ≡ true
      → (if p.1 then done (p.0, none, []) else take_message b f c w n p.0 m >>= taken b f c w n p.0)
        ≡ done (p.0, none, [])
  unfolding calculate_proposer
  relay_and_nothing s m p (u, e) al r late = elim (Bool-cases p.1) [
    | inl kept ↦ rw kept refl
    | inr first ↦ rw first (
        rw e (
          rw
            (take_message-nothing (record s { relay_message_channel = u }) m
              (rw al.0
                (rw al.1 (early_differs s.height (moment_of m).0 s.round (moment_of m).1 late)))
              (al.1 ∙ al.2) r)
            refl))
  ]

  -- A message of a later height, or of a later round of this height, is kept: the call returns without
  -- an error and makes no other call, the state that it returns differs in the kept messages alone,
  -- and in these the message is the last that waits for its height and round, and what waits for any
  -- other height and round is as it was. The node and the data of its height are at one height and at
  -- round 0, and what is read of the message first can be read.
  pub run_message-early :
      (s : ConsensusState b n) (m : Message) (height round : ℤ)
      → IsAligned s
      → Readable s.height_datas (calculate_proposer b n s) m
      → is_over_time b n s (moment_of m).0 (moment_of m).1 ≡ true
      → (u : Table ℤ (Table ℤ (List Message))) × (run_message b f c w n s m
          ≡ done (record s { relay_message_channel = u }, none, []))
        × (relayed b n (record s { relay_message_channel = u }) height round ≡ (
            if eq_ℤ (moment_of m).0 height && eq_ℤ (moment_of m).1 round
            then relayed b n s height round ++ (m ∷ [])
            else relayed b n s height round))
  unfolding run_message
  run_message-early s m height round al r late =
      let d = (moment_of m).0 in
      let q = (moment_of m).1 in
      let p = add_relay_message_if_over_time b n s d q m in
      let (u, e) = add_relay_message-kept b n s d q m in
      (
        u,
        relay_and_nothing s m p (u, e) al r late ∙ ap (λ t. done (t, none, [])) e,
        ap (λ t. relayed b n t height round) (sym e)
            ∙ add_relay_message-relayed b n s d q height round m late
            ∙ same_moment d q height round,
      )
    where
      same_moment :
          (d q height round : ℤ)
          → (if eq_ℤ d height && eq_ℤ q round
              then relayed b n s d q ++ (m ∷ [])
              else relayed b n s height round)
            ≡ (if eq_ℤ d height && eq_ℤ q round
                then relayed b n s height round ++ (m ∷ [])
                else relayed b n s height round)
      same_moment d q height round = elim (Bool-cases (eq_ℤ d height)) [
        | inr other ↦ rw other refl
        | inl same ↦ elim (Bool-cases (eq_ℤ q round)) [
          | inr other ↦ rw same (rw other refl)
          | inl also ↦ rw same (
              rw also (
                ap₂ (λ x y. relayed b n s x y ++ (m ∷ [])) ((eq_ℤ_iff d height).0 same)
                  ((eq_ℤ_iff q round).0 also)))
        ]
      ]
