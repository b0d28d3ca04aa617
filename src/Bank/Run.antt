-- ===== src/Bank/Run.antt =====
-- bank.go: the transactions of a block one after the other, as `PreExecutionC` and the inner blocks
-- of `Execution` run them, and `PreExecutionC` itself.
use melete.Base.{ℕ, List, [], ◌∷◌, map, Option, none, some, Bool, true, false, if◌then◌else◌}
use mathlib.Core.Option
use melete.Base.Bytes.{Bytes, Text}
use melete.Base.Outcome.{Outcome, done, ◌>>=◌}
use melete.Base.Table.{Table, lookup, insert, bytes_eq}
use melete.Base.TextOrder.{le_text}
use melete.Merkle.{HashFunction}
use melete.Block.{Block, Codec, block_hash, hashed}
use melete.RangeTree.{RangeTree}
use melete.Bank.{Wire, BankError, Result, ok, err, panic}
use melete.Bank.Memory.{
  Database, new_memory_db, BankDb, ranged, get_read_set, get_write_set, commit,
}
use melete.Bank.Execute.{execute}

-- `sort.Strings`
unfoldable pub place_text : Text → List Text → List Text
place_text a [] = a ∷ []
place_text a (b ∷ bs) = let rest = place_text a bs in if le_text a b then a ∷ b ∷ bs else b ∷ rest

unfoldable pub sort_texts : List Text → List Text
unfolding place_text
sort_texts [] = []
sort_texts (a ∷ as') = place_text a (sort_texts as')

-- `CrossShardDataBytes`
unfoldable pub cross_shard_data_bytes : Wire → Table Text ℕ → Bool → Bytes
unfolding sort_texts
cross_shard_data_bytes w data' is_ok =
    let keys = sort_texts (map (λ p. p.0) data') in
    w.marshal_data (record {
      keys = keys;
      values = map (λ k. Option.get_or (lookup k data') 0) keys;
      is_ok = is_ok;
    })

-- The loop of `NewCrossShardDataFromBytes`; fewer values than keys panic.
unfoldable pub pair_values : List Text → List ℕ → Table Text ℕ → Outcome (Table Text ℕ)
pair_values [] vs m = done m
pair_values (k ∷ ks) [] m = Outcome.panic
pair_values (k ∷ ks) (v ∷ vs) m = pair_values ks vs (insert k v m)

-- `NewCrossShardDataFromBytes`: `none` is an error.
unfoldable pub new_cross_shard_data_from_bytes :
    Wire → Bytes → Outcome (Option (Table Text ℕ × Bool))
unfolding pair_values
new_cross_shard_data_from_bytes w bz = elim (w.unmarshal_data bz) [
  | none ↦ done none
  | some bd ↦ pair_values bd.keys bd.values [] >>= λ m. done (some (m, bd.is_ok))
]

module _ (d : Database) where
  -- The application, without its status and its log.
  pub record Application : Type 0 where
    pub db : d.Store
    pub key_range_tree : RangeTree
    pub related_i_key_range_tree : Table Text RangeTree
    pub is_i : Bool
    pub my_chain_id : Text
    pub locked_keys : Table Text Bool
    pub pre_execution_input_list : Table Bytes (List (Table Text ℕ))
    pub pre_execution_output_list : Table Bytes (List (Table Text ℕ))

  -- What a transaction has done: its error, and what was read and written when there is none.
  pub record Executed : Type 0 where
    pub failure : Option BankError
    pub reads : Table Text ℕ
    pub writes : Table Text ℕ

  module _ (w : Wire) (locked : Table Text Bool) where
    -- The end of a round, by the answer of `execute`.
    abbrev pub finish : BankDb d → Result (Unit {0}) → Outcome (BankDb d × Executed)
    finish b (ok u) = done (
      commit d b true,
      record { failure = none; reads = get_read_set d b; writes = get_write_set d b },
    )
    finish b (err e) = done (commit d b false, record { failure = some e; reads = []; writes = [] })
    finish b panic = Outcome.panic

    -- The loop over a block's transactions.
    unfoldable pub run_txs : List Bytes → BankDb d → Outcome (BankDb d × List Executed)
    run_txs [] b = done (b, [])
    run_txs (tx ∷ txs) b =
        finish (execute d locked w tx b).0 (execute d locked w tx b).1 >>= λ first.
        run_txs txs first.0 >>= λ rest. done (rest.0, first.1 ∷ rest.1)

  abbrev pub is_success : Option BankError → Bool
  is_success none = true
  is_success (some e) = false

  -- `PreExecutionC`: the new application, the block as `Block.Hash` leaves it, and
  -- `CrossShardDatas`. What is written stays in memory.
  unfoldable pub pre_execution_c :
      Wire → HashFunction → Codec → Application → Block → Outcome (Application × Block × List Bytes)
  unfolding run_txs cross_shard_data_bytes
  pre_execution_c w h c app block =
      run_txs w app.locked_keys block.cross_shard_body.cross_shard_txs
        (ranged app.key_range_tree (new_memory_db d app.db))
      >>= λ r.
          let key = block_hash h c block in
          done (
            record app {
              pre_execution_input_list =
                  insert key (map (λ x. x.reads) r.1) app.pre_execution_input_list;
              pre_execution_output_list =
                  insert key (map (λ x. x.writes) r.1) app.pre_execution_output_list;
            },
            hashed h c block,
            map (λ x. cross_shard_data_bytes w x.reads (is_success x.failure)) r.1,
          )

  -- `Commit`, whose answer is the constant status.
  abbrev pub commit_app : Application → Application
  commit_app app = record app { pre_execution_input_list = []; pre_execution_output_list = [] }
