-- ===== src/Bank.antt =====
-- melete/abci/minibank: the application that runs the transactions of blocks over balances.
pub mod Whole
pub mod Readings
pub mod Memory
pub mod View
pub mod Update
pub mod Execute
pub mod Refine
pub mod Conserve
pub mod Mint
pub mod Persist
pub mod Run
pub mod Serial
pub mod PreExecute
pub mod Execution
mod Tests
use melete.Base.{
  ℕ, ◌+◌, ◌%◌, List, [], ◌∷◌, Option, none, some, Bool, true, false, not, ◌||◌, if◌then◌else◌,
  length, ◌==◌,
}
use melete.Base.Bytes.{Bytes, Text}
use melete.Base.Table.{Table}

-- `initBalance`: the balance of an account that was never written.
abbrev pub init_balance : ℕ
init_balance = 1000000

abbrev pub uint32_mod : ℕ
uint32_mod = 4294967296

-- `TransferTx` and `InsertTx` of the protobuf messages, without the padding and the time, which no
-- code reads.
pub record TransferTx : Type 0 where
  pub from : List Text
  pub to : List Text
  pub from_money : List ℕ
  pub to_money : List ℕ

pub record InsertTx : Type 0 where
  pub account : Text
  pub money : ℕ

-- `BankData`
pub record BankData : Type 0 where
  pub keys : List Text
  pub values : List ℕ
  pub is_ok : Bool

pub data BankError : Type 0 where
  tx_too_short undefined_type unmarshal_failed : BankError
  different_lengths no_accounts sums_differ : BankError
  key_locked not_enough out_of_range key_not_provided key_exists store_failed : BankError

-- What an operation of the application gives: a value, an error, or a panic.
pub data Result (A : Type 0) : Type 0 where
  ok : A → Result A
  err : BankError → Result A
  panic : Result A

-- The loop of `ValidateTransferTx` over a list of amounts, on `uint32`.
unfoldable pub sum_money : ℕ → List ℕ → ℕ
sum_money acc [] = acc
sum_money acc (m ∷ ms) = sum_money ((acc + m) % uint32_mod) ms

-- `ValidateTransferTx`
unfoldable pub validate_transfer_tx : TransferTx → Option BankError
unfolding sum_money
validate_transfer_tx tx =
    if not (length tx.from == length tx.from_money) || not (length tx.to == length tx.to_money)
    then some different_lengths
    else if length tx.from == 0 || length tx.to == 0
    then some no_accounts
    else if not (sum_money 0 tx.from_money == sum_money 0 tx.to_money)
    then some sums_differ
    else none

-- The protobuf encodings, which are not in the repository.
pub record Wire : Type 0 where
  pub unmarshal_transfer : Bytes → Option TransferTx
  pub unmarshal_insert : Bytes → Option InsertTx
  pub marshal_data : BankData → Bytes
  pub unmarshal_data : Bytes → Option BankData
