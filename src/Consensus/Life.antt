-- ===== src/Consensus/Life.antt =====
-- melete/consensus/main.go: what a node can come to, call by call, from its `Start` on. The mutex lets
-- `Start` and `Receive` in only when no call waits.
use melete.Base.{◌≡◌, refl, List, [], ◌∷◌, ◌++◌, map, zero, suc, ℕ, some, true, false, ◌&&◌, Option}
use mathlib.Core.Path.{subst}
use melete.Base.Int.{pos}
use melete.Base.Outcome.{Outcome, done, panic}
use melete.Merkle.{HashFunction}
use melete.Block.{Codec}
use melete.Signer.{Bls}
use melete.Height.{HeightError, Wire}
use melete.Consensus.{Node, ConsensusState, Message, is_i_shard}
use melete.Consensus.Create.{enter_new_height}
use melete.Consensus.Run.{Call, transition, do_message, is_valid, is_accept, run_call, run_calls}

module _ (b : Bls) (f : HashFunction) (c : Codec) (w : Wire) (n : Node) where
  -- A message that `Receive` hands on to `doMessage`.
  abbrev pub IsAdmitted : ConsensusState b n → Message → Type 0
  IsAdmitted s m =
      ((is_accept b f c w n m && is_i_shard b n s) ≡ false) × (is_valid b f c w n m ≡ true)

  -- The states that a node reaches from its first one, each with the calls that wait in it: it starts
  -- at height 0, it is started again, a message comes, and the first of the calls is made.
  pub data Reach (first : ConsensusState b n) : ConsensusState b n → List Call → Type 0 where
    entered :
        {t : ConsensusState b n} {ms : List Message}
        → first.height ≡ pos 0
        → enter_new_height b f c w n first ≡ done (t, ms)
        → Reach first t (map do_message ms)
    woken : {s : ConsensusState b n} → Reach first s [] → Reach first s (transition ∷ [])
    comes :
        {s : ConsensusState b n} (m : Message)
        → IsAdmitted s m
        → Reach first s []
        → Reach first s (do_message m ∷ [])
    called :
        {s : ConsensusState b n} {x : Call} {rest : List Call} {t : ConsensusState b n}
        {e : Option HeightError} {more : List Call}
        → Reach first s (x ∷ rest)
        → run_call b f c w n s x ≡ done (t, e, more)
        → Reach first t (more ++ rest)

  -- Calls that come to an end lead to a state in which no call waits.
  pub run_calls-Reach :
      (fuel : ℕ) (xs : List Call) (first s t : ConsensusState b n)
      → Reach first s xs
      → run_calls b f c w n fuel xs s ≡ some (done t)
      → Reach first t []
  unfolding run_calls
  run_calls-Reach fuel [] first s t r e = subst (λ u. Reach first u []) (ended e) r
    where
      ended : {u : ConsensusState b n} → Option.some (Outcome.done s) ≡ some (done u) → s ≡ u
      ended q = cc
  run_calls-Reach zero (x ∷ xs) first s t r e = absurd (cc)
  run_calls-Reach (suc fuel) (x ∷ xs) first s t r e =
      after (run_call b f c w n s x) refl
        (λ q ran p. run_calls-Reach fuel (q.2 ++ xs) first q.0 t (called r ran) p) e
    where
      after :
          (o : Outcome (ConsensusState b n × Option HeightError × List Call))
          → run_call b f c w n s x ≡ o
          → ((q : ConsensusState b n × Option HeightError × List Call)
              → run_call b f c w n s x ≡ done q
              → run_calls b f c w n fuel (q.2 ++ xs) q.0 ≡ some (done t)
              → Reach first t [])
          → (elim o [ panic ↦ some panic | done q ↦ run_calls b f c w n fuel (q.2 ++ xs) q.0 ])
            ≡ some (done t)
          → Reach first t []
      after (done q) ran go p = go q ran p
      after panic ran go p = absurd (cc)
