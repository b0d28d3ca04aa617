-- ===== src/Bank/Execute.antt =====
-- bank.go: one transaction on a database of balances.
use melete.Base.{
  ℕ, ◌+◌, ◌-◌, ◌%◌, List, [], ◌∷◌, none, some, Bool, true, false, if◌then◌else◌, length, ltb, ◌==◌,
  take, drop,
}
use mathlib.Core.Option
use melete.Base.Bytes.{Bytes, Text}
use melete.Base.Table.{Table, lookup, bytes_eq}
use melete.Convert.{bytes_to_uint32}
use melete.Bank.{
  uint32_mod, TransferTx, InsertTx, Wire, BankError, tx_too_short, undefined_type, unmarshal_failed,
  key_locked, not_enough, key_exists, Result, ok, err, panic, validate_transfer_tx,
}
use melete.Bank.Memory.{Database, BankDb, get, has, set}

-- The message types of melete/definition/message.go, by `iota`.
abbrev pub tx_transfer : ℕ
tx_transfer = 10

abbrev pub tx_insert : ℕ
tx_insert = 11

-- `app.LockedKeys[key]`
abbrev pub is_locked : Table Text Bool → Text → Bool
is_locked locked k = Option.get_or (lookup k locked) false

module _ (d : Database) where
  -- A method that changes the database and may fail.
  abbrev pub M : Type 0 → Type 0
  M A = BankDb d → BankDb d × Result A

  abbrev pub resume : {A B : Type 0} → BankDb d × Result A → (A → M B) → BankDb d × Result B
  resume (b, ok a) f = f a b
  resume (b, err e) f = (b, err e)
  resume (b, panic) f = (b, panic)

  abbrev pub pure : {A : Type 0} → A → M A
  pure a b = (b, ok a)

  abbrev pub raise : {A : Type 0} → BankError → M A
  raise e b = (b, err e)

  module _ (locked : Table Text Bool) where
    -- The lock test and the read of a balance.
    abbrev pub checked_get : Text → M ℕ
    checked_get k b = if is_locked locked k then (b, err key_locked) else get d b k

    -- The first loop of `doTransfer`: the balances after the debits. Amounts that run out before
    -- the keys panic.
    unfoldable pub debits : List Text → List ℕ → M (List ℕ)
    debits [] ms b = (b, ok [])
    debits (k ∷ ks) [] b = resume (checked_get k b) (λ v b'. (b', panic))
    debits (k ∷ ks) (m ∷ ms) b = resume (checked_get k b) (λ v b'. elim (ltb v m) [
      | true ↦ (b', err not_enough)
      | false ↦ resume (debits ks ms b') (λ vs. pure ((v - m) ∷ vs))
    ])

    -- The second loop: the balances after the credits, on `uint32`.
    unfoldable pub credits : List Text → List ℕ → M (List ℕ)
    credits [] ms b = (b, ok [])
    credits (k ∷ ks) [] b = resume (checked_get k b) (λ v b'. (b', panic))
    credits (k ∷ ks) (m ∷ ms) b =
        resume (checked_get k b)
          (λ v b'. resume (credits ks ms b') (λ vs. pure ((v + m) % uint32_mod ∷ vs)))

    -- The third and the fourth loop: the balances are written.
    unfoldable pub store_all : List Text → List ℕ → M (Unit {0})
    store_all [] vs b = (b, ok tt)
    store_all (k ∷ ks) [] b = if is_locked locked k then (b, err key_locked) else (b, panic)
    store_all (k ∷ ks) (v ∷ vs) b =
        if is_locked locked k
        then (b, err key_locked)
        else resume (set d b k v) (λ u. store_all ks vs)

    -- `doTransfer`
    unfoldable pub do_transfer : TransferTx → M (Unit {0})
    unfolding debits credits store_all
    do_transfer tx b = elim (validate_transfer_tx tx) [
      | some e ↦ (b, err e)
      | none ↦ resume (debits tx.from tx.from_money b) (λ from_balance b1.
          resume (credits tx.to tx.to_money b1) (λ to_balance b2.
            resume (store_all tx.from from_balance b2) (λ u b3. store_all tx.to to_balance b3)))
    ]

    -- `doInsert`
    unfoldable pub do_insert : InsertTx → M (Unit {0})
    do_insert tx b =
        if is_locked locked tx.account
        then (b, err key_locked)
        else resume (has d b tx.account)
            (λ found b'. if found then (b', err key_exists) else set d b' tx.account tx.money)

    -- `execute`
    unfoldable pub execute : Wire → Bytes → M (Unit {0})
    unfolding do_transfer do_insert
    execute w bz b =
        if ltb (length bz) 4 then (b, err tx_too_short) else elim (bytes_to_uint32 (take 4 bz)) [
          | none ↦ (b, panic)
          | some tx_type ↦
              if tx_type == tx_transfer
              then elim (w.unmarshal_transfer (drop 4 bz)) [
                | none ↦ (b, err unmarshal_failed)
                | some tx ↦ do_transfer tx b
              ]
              else if tx_type == tx_insert
              then elim (w.unmarshal_insert (drop 4 bz)) [
                | none ↦ (b, err unmarshal_failed)
                | some tx ↦ do_insert tx b
              ]
              else (b, err undefined_type)
        ]
