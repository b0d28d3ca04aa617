-- ===== src/Bank/Execution.antt =====
-- bank.go: `Execution`, which commits the blocks of a height, and `ValidateTx`.
use melete.Base.{
  ℕ, suc, List, [], ◌∷◌, map, Option, none, some, Bool, true, false, not, ◌&&◌, ◌||◌, if◌then◌else◌,
  length, get_elem?, ltb, ◌==◌, take, drop,
}
use melete.Base.Bytes.{Bytes, Text}
use melete.Base.Int.{pos}
use melete.Base.Outcome.{Outcome, done, or_panic, ◌>>=◌}
use melete.Base.Table.{Table, lookup, insert, bytes_eq}
use melete.BitVector.{BitVector, get_index}
use melete.Convert.{bytes_to_uint32}
use melete.Merkle.{HashFunction}
use melete.Block.{Block, Codec, block_hash}
use melete.RangeTree.{RangeTree, search_tree}
use melete.Bank.{Wire, BankError, Result, ok, err, panic}
use melete.Bank.Memory.{
  Database, MemoryDb, new_memory_db, BankDb, cross_shard, ranged, below, set_memory, commit_write,
  commit, write_wanted,
}
use melete.Bank.Execute.{execute, tx_transfer, tx_insert}
use melete.Bank.Run.{Application, new_cross_shard_data_from_bytes, Executed, run_txs}

-- The codes of melete/types/abci-resp.go, with the log that goes with each.
pub data Receipt : Type 0 where
  executed encoding_error c_aborted i_aborted : Receipt
  aborted : BankError → Receipt

module _ (d : Database) where
  -- The writes that pre-execution has kept for a transaction.
  unfoldable pub set_all : Table Text ℕ → MemoryDb d → MemoryDb d
  set_all [] m = m
  set_all ((k, v) ∷ kvs) m = set_all kvs (set_memory d m k v)

  module _ (w : Wire) (locked : Table Text Bool) where
    -- The last branch: the transaction runs on the values that the C-shard has read. An error panics.
    abbrev pub replay : BankDb d → Result (Unit {0}) → Outcome (MemoryDb d × Receipt)
    replay b (ok u) = done (below d (commit d b true), executed)
    replay b (err e) = Outcome.panic
    replay b panic = Outcome.panic

    -- One transaction of `executionC`, by its decoded data, its bit and the kept writes, if
    -- pre-execution has kept some for its place in the block.
    abbrev pub execute_one :
        Bytes
        → MemoryDb d
        → Option (Table Text ℕ × Bool)
        → Outcome Bool
        → Option (Table Text ℕ)
        → Outcome (MemoryDb d × Receipt)
    execute_one tx m none bit kept = done (m, encoding_error)
    execute_one tx m (some (csd, false)) bit kept = done (m, c_aborted)
    execute_one tx m (some (csd, true)) bit kept = bit >>= λ set.
        if not set then done (m, i_aborted) else elim kept [
          | some writes ↦ done (commit_write d (set_all writes m) true, executed)
          | none ↦
              replay (execute d locked w tx (cross_shard csd m)).0
                (execute d locked w tx (cross_shard csd m)).1
        ]

    -- The loop of `executionC`.
    unfoldable pub execute_txs :
        ℕ
        → List Bytes
        → List Bytes
        → Option BitVector
        → List (Table Text ℕ)
        → MemoryDb d
        → Outcome (MemoryDb d × List Receipt)
    unfolding set_all
    execute_txs i [] datas bv kept m = done (m, [])
    execute_txs i (tx ∷ txs) datas bv kept m = or_panic (get_elem? datas i) >>= λ bz.
        new_cross_shard_data_from_bytes w bz >>= λ data'.
        execute_one tx m data' (get_index bv (pos i)) (get_elem? kept i) >>= λ first.
        execute_txs (suc i) txs datas bv kept first.0 >>= λ rest. done (rest.0, first.1 ∷ rest.1)

  module _ (w : Wire) (h : HashFunction) (c : Codec) where
    -- The outputs of pre-execution for a block, none for a block that was not pre-executed.
    abbrev pub kept_outputs : Application d → Block → List (Table Text ℕ)
    kept_outputs app b = elim (lookup (block_hash h c b) app.pre_execution_output_list) [
      | none ↦ []
      | some ws ↦ ws
    ]

    -- `executionC` on each block: every block starts from the store.
    unfoldable pub execute_cross :
        Application d
        → List Block
        → List (Option BitVector)
        → Outcome (List (MemoryDb d) × Table Text (List Receipt))
    unfolding execute_txs
    execute_cross app [] bvs = done ([], [])
    execute_cross app (b ∷ bs) [] = Outcome.panic
    execute_cross app (b ∷ bs) (bv ∷ bvs) =
        execute_txs w app.locked_keys 0 b.cross_shard_body.cross_shard_txs
          b.cross_shard_body.cross_shard_datas bv (kept_outputs app b) (new_memory_db d app.db)
        >>= λ first. execute_cross app bs bvs >>= λ rest.
            done (first.0 ∷ rest.0, insert b.header.chain_id first.1 rest.1)

    abbrev pub stored : MemoryDb d × Result (Unit {0}) → Outcome d.Store
    stored (m, ok u) = done m.db
    stored (m, err e) = Outcome.panic
    stored (m, panic) = Outcome.panic

    -- The writes in the shard's range, block by block, to the store; an error panics.
    unfoldable pub write_all : RangeTree → List (MemoryDb d) → d.Store → Outcome d.Store
    write_all t [] s = done s
    write_all t (m ∷ ms) s =
        stored (write_wanted d (search_tree t) (record m { db = s })) >>= write_all t ms

    abbrev pub receipt_of : Executed d → Receipt
    receipt_of x = elim x.failure [ none ↦ executed | some e ↦ aborted e ]

    -- The transactions of an inner block, from the store and back to it, in a range.
    unfoldable pub execute_inner :
        Table Text Bool → RangeTree → Block → d.Store → Outcome (d.Store × List Receipt)
    execute_inner locked t b s =
        run_txs d w locked b.body.body_txs (ranged t (new_memory_db d s)) >>= λ r.
        stored (write_wanted d (search_tree t) (below d r.0)) >>= λ s'.
        done (s', map receipt_of r.1)

    -- The inner blocks of a C-shard, each in the range of its shard. They run at once in the code,
    -- over ranges that do not meet, and one after the other here.
    unfoldable pub execute_inners :
        Application d → List Block → d.Store → Outcome (d.Store × Table Text (List Receipt))
    unfolding execute_inner
    execute_inners app [] s = done (s, [])
    execute_inners app (b ∷ bs) s =
        or_panic (lookup b.header.chain_id app.related_i_key_range_tree) >>= λ t.
        execute_inner app.locked_keys t b s >>= λ first. execute_inners app bs first.0 >>= λ rest.
        done (rest.0, insert b.header.chain_id first.1 rest.1)

    -- The inner blocks of a shard: an I-shard has its own block, in its own range.
    unfoldable pub execute_bodies :
        Application d → List Block → d.Store → Outcome (d.Store × Table Text (List Receipt))
    unfolding execute_inner execute_inners
    execute_bodies app blocks s =
        let own = or_panic (get_elem? blocks 0) >>= λ b.
        execute_inner app.locked_keys app.key_range_tree b s >>= λ r.
        done (r.0, (b.header.chain_id, r.1) ∷ []) in
        if app.is_i then own else execute_inners app blocks s

    pub record Response : Type 0 where
      pub cross_shard_resps : Table Text (List Receipt)
      pub inner_shard_resps : Table Text (List Receipt)

    -- `Execution`
    unfoldable pub execution :
        Application d
        → List Block
        → List (Option BitVector)
        → List Block
        → Outcome (Application d × Response)
    unfolding execute_cross write_all execute_bodies
    execution app cross_blocks bvs inner_blocks = execute_cross app cross_blocks bvs >>= λ crossed.
        write_all app.key_range_tree crossed.0 app.db >>= λ s.
        execute_bodies app inner_blocks s >>= λ inner. done (
          record app { db = inner.0 },
          record { cross_shard_resps = crossed.1; inner_shard_resps = inner.1 },
        )

-- Every key of a list is in a range, tested up to the first that is not; a nil tree panics at the
-- first key.
unfoldable pub all_in : Option RangeTree → List Text → Outcome Bool
all_in t [] = done true
all_in t (k ∷ ks) =
    let rest = all_in t ks in or_panic t >>= λ r. if search_tree r k then rest else done false

-- The tests of `ValidateTx` in the range of the mempool's shard.
unfoldable pub validate_in : Wire → Option RangeTree → Bytes → Outcome Bool
unfolding all_in
validate_in w t bz = or_panic (bytes_to_uint32 (take 4 bz)) >>= λ tx_type.
    if tx_type == tx_transfer
    then elim (w.unmarshal_transfer (drop 4 bz)) [
      | none ↦ done false
      | some tx ↦ all_in t tx.from >>= λ ok. if ok then all_in t tx.to else done false
    ]
    else if tx_type == tx_insert
    then elim (w.unmarshal_insert (drop 4 bz)) [
      | none ↦ done false
      | some tx ↦ all_in t (tx.account ∷ [])
    ]
    else done false

-- `ValidateTx`; a shard without a range has a nil tree.
unfoldable pub validate_tx : (d : Database) → Wire → Application d → Bytes → Bool → Outcome Bool
unfolding validate_in
validate_tx d w app bz is_cross_shard =
    if ltb (length bz) 4
    then done false
    else if app.is_i && is_cross_shard
    then done false
    else if app.is_i || is_cross_shard
    then validate_in w (some app.key_range_tree) bz
    else validate_in w (lookup app.my_chain_id app.related_i_key_range_tree) bz
