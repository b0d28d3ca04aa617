-- ===== src/Bank/Serial.antt =====
-- A block's transfers, run one after the other with a commit behind each, do to the balances what
-- the transfers on readings do in that order.
use mathlib.Core.Path.{fun_ext, subst}
use melete.Base.{
  ◌≡◌, refl, ap, ap₂, sym, ◌∙◌, List, [], ◌∷◌, map, Option, none, some, Bool, true, false, not,
  if◌then◌else◌, ltb, length, take, drop,
}
use melete.Base.Bytes.{Bytes, Text}
use melete.Base.Outcome.{done}
use melete.Base.Table.{Table, lookup, bytes_eq}
use melete.RangeTree.{search_tree}
use melete.Convert.{bytes_to_uint32}
use melete.Bank.{Wire, TransferTx, out_of_range, BankError, Result, ok, err, panic}
use melete.Bank.Memory.{Database, BankDb, memory, ranged, cross_shard, below, commit, commit_write}
use melete.Bank.Execute.{execute, do_transfer, tx_transfer}
use melete.Bank.Run.{Executed, finish, run_txs}
use melete.Bank.View.{Readings, read, base, is_plain, IsCoherent}
use melete.Bank.Update.{IsCoherent-commit, committed-commit}
use melete.Bank.Refine.{do_transfer-Refines, Refines, answer, readings_after}
use melete.Bank.Readings.{transfer}
use melete.Bank.Whole.{IsWhole, transfer-whole, after-IsWhole}

-- The error of a transfer.
abbrev pub failure_of : Result Readings → Option BankError
failure_of (ok r) = none
failure_of (err e) = some e
failure_of panic = none

-- The transfers in order; one that fails does nothing.
unfoldable pub serial : Table Text Bool → Readings → List TransferTx → Readings
serial locked r [] = r
serial locked r (tx ∷ txs) = serial locked (readings_after r (transfer locked r tx)) txs

-- Bytes of a transaction that decode to a transfer.
abbrev pub IsTransfer : Wire → Bytes → TransferTx → Type 0
IsTransfer w bz tx =
    (ltb (length bz) 4 ≡ false)
    × (bytes_to_uint32 (take 4 bz) ≡ some tx_transfer)
    × (w.unmarshal_transfer (drop 4 bz) ≡ some tx)

abbrev pub AreTransfers : Wire → List Bytes → List TransferTx → Type 0
AreTransfers w [] [] = Unit {0}
AreTransfers w (bz ∷ bzs) (tx ∷ txs) = IsTransfer w bz tx × AreTransfers w bzs txs
AreTransfers w _ _ = ⊥

execute-transfer :
    (d : Database) (locked : Table Text Bool) (w : Wire) (bz : Bytes) (tx : TransferTx)
    (b : BankDb d)
    → IsTransfer w bz tx
    → execute d locked w bz b ≡ do_transfer d locked tx b
unfolding execute
execute-transfer d locked w bz tx b (long, kind, decoded) = rw (long, kind, decoded) refl

-- The error of each transfer, in order.
unfoldable pub failures : Table Text Bool → Readings → List TransferTx → List (Option BankError)
failures locked r [] = []
failures locked r (tx ∷ txs) =
    failure_of (transfer locked r tx)
    ∷ failures locked (readings_after r (transfer locked r tx)) txs

module _ (d : Database) where
  -- After `CommitWrite` the base is what was read, or the base before.
  base-commit :
      (b : BankDb d) (do_it : Bool)
      → IsCoherent d (below d b)
      → is_plain d b ≡ true
      → (base d (commit d b do_it) ≡ (if do_it then read d b else base d b))
        × (read d (commit d b do_it) ≡ base d (commit d b do_it))
        × IsCoherent d (below d (commit d b do_it))
  unfolding base read commit lookup commit_write
  base-commit (cross_shard csd m) do_it c p = absurd (cc)
  base-commit (memory m) true c p = (committed-commit d m true c, refl, IsCoherent-commit d m true)
  base-commit (memory m) false c p = (refl, refl, IsCoherent-commit d m false)
  base-commit (ranged t m) true c p = (
    fun_ext λ k.
        ap (λ r. if not (search_tree t k) then err out_of_range else r k)
          (committed-commit d m true c),
    refl,
    IsCoherent-commit d m true,
  )
  base-commit (ranged t m) false c p = (refl, refl, IsCoherent-commit d m false)

  plain-commit : (b : BankDb d) (do_it : Bool) → is_plain d (commit d b do_it) ≡ is_plain d b
  unfolding commit
  plain-commit (memory m) t = refl
  plain-commit (ranged u m) t = refl
  plain-commit (cross_shard csd m) t = refl

  -- A clean database, which is not a `CrossShardDB`: what is read is what is committed.
  pub record Clean (b : BankDb d) : Type 0 where
    pub settled : read d b ≡ base d b
    pub coherent : IsCoherent d (below d b)
    pub plain : is_plain d b ≡ true

  module _ (locked : Table Text Bool) (w : Wire) where
    -- One round: a transaction and its commit.
    round :
        (bz : Bytes) (tx : TransferTx) (b : BankDb d)
        → Clean b
        → IsWhole (read d b)
        → IsTransfer w bz tx
        → (b' : BankDb d) × (x : Executed d) × (finish d w locked
              (execute d locked w bz b).0
              (execute d locked w bz b).1
            ≡ done (b', x))
          × Clean b'
          × (read d b' ≡ readings_after (read d b) (transfer locked (read d b) tx))
          × (x.failure ≡ failure_of (transfer locked (read d b) tx))
    round bz tx b clean whole is_transfer = by_answer (transfer locked (read d b) tx) refl
      where
        s : Refines d locked b (do_transfer d locked tx b) (transfer locked (read d b) tx)
        s = do_transfer-Refines d locked tx b clean.coherent

        commits :
            (do_it : Bool)
            → (base d (commit d (do_transfer d locked tx b).0 do_it) ≡ (
                if do_it
                then read d (do_transfer d locked tx b).0
                else base d (do_transfer d locked tx b).0))
              × (read d (commit d (do_transfer d locked tx b).0 do_it)
                  ≡ base d (commit d (do_transfer d locked tx b).0 do_it))
              × IsCoherent d (below d (commit d (do_transfer d locked tx b).0 do_it))
        commits do_it =
            base-commit (do_transfer d locked tx b).0 do_it s.coherent (s.plain ∙ clean.plain)

        cleaned : (do_it : Bool) → Clean (commit d (do_transfer d locked tx b).0 do_it)
        cleaned do_it = record {
          settled = (commits do_it).1;
          coherent = (commits do_it).2;
          plain = plain-commit (do_transfer d locked tx b).0 do_it ∙ s.plain ∙ clean.plain;
        }

        finishes :
            (a : Result Readings)
            → transfer locked (read d b) tx ≡ a
            → finish d w locked (execute d locked w bz b).0 (execute d locked w bz b).1
              ≡ finish d w locked (do_transfer d locked tx b).0 (answer a)
        finishes a same =
            ap (λ o. finish d w locked o.0 o.1) (execute-transfer d locked w bz tx b is_transfer)
            ∙ ap (finish d w locked (do_transfer d locked tx b).0) (s.answers ∙ ap answer same)

        by_answer :
            (a : Result Readings)
            → transfer locked (read d b) tx ≡ a
            → (b' : BankDb d) × (x : Executed d) × (finish d w locked
                  (execute d locked w bz b).0
                  (execute d locked w bz b).1
                ≡ done (b', x))
              × Clean b'
              × (read d b' ≡ readings_after (read d b) (transfer locked (read d b) tx))
              × (x.failure ≡ failure_of (transfer locked (read d b) tx))
        by_answer panic same = absurd (transfer-whole locked (read d b) tx whole same)
        by_answer (ok r) same = (
          commit d (do_transfer d locked tx b).0 true,
          _,
          finishes (ok r) same,
          cleaned true,
          (commits true).1 ∙ (commits true).0 ∙ s.reads,
          ap failure_of (sym same),
        )
        by_answer (err e) same = (
          commit d (do_transfer d locked tx b).0 false,
          _,
          finishes (err e) same,
          cleaned false,
          (commits false).1
              ∙ (commits false).0
              ∙ s.bases
              ∙ sym clean.settled
              ∙ sym (ap (readings_after (read d b)) same),
          ap failure_of (sym same),
        )

    -- A block of transfers, run from a clean database, returns without a panic, leaves the balances
    -- that the transfers leave one after the other, each whole or not at all, and reports the errors
    -- that they have in that order. Each stored balance has four bytes at least.
    pub run_txs-serial :
        (bzs : List Bytes) (txs : List TransferTx) (b : BankDb d)
        → Clean b
        → IsWhole (read d b)
        → AreTransfers w bzs txs
        → (b' : BankDb d) × (xs : List (Executed d)) × (run_txs d w locked bzs b ≡ done (b', xs))
          × Clean b'
          × (read d b' ≡ serial locked (read d b) txs)
          × (map (λ x. x.failure) xs ≡ failures locked (read d b) txs)
    unfolding run_txs serial failures
    run_txs-serial [] [] b clean whole are = (b, [], refl, clean, refl, refl)
    run_txs-serial [] (tx ∷ txs) b clean whole are = absurd are
    run_txs-serial (bz ∷ bzs) [] b clean whole are = absurd are
    run_txs-serial (bz ∷ bzs) (tx ∷ txs) b clean whole (is_transfer, are) =
        let (b1, x, e1, clean1, r1, f1) = round bz tx b clean whole is_transfer in
        let whole1 = subst IsWhole (sym r1) (after-IsWhole locked (read d b) tx whole) in
        let (b2, xs, e2, clean2, r2, f2) = run_txs-serial bzs txs b1 clean1 whole1 are in
        (
          b2,
          x ∷ xs,
          rw (e1, e2) refl,
          clean2,
          r2 ∙ ap (λ r. serial locked r txs) r1,
          ap₂ ◌∷◌ f1 (f2 ∙ ap (λ r. failures locked r txs) r1),
        )
