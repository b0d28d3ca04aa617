-- ===== src/Bank/PreExecute.antt =====
-- bank.go: `PreExecutionI`, by which an I-shard votes on the cross-shard transactions of the blocks
-- of its C-shards.
use melete.Base.{
  ℕ, suc, List, [], ◌∷◌, ◌++◌, map, Option, none, some, Bool, true, false, not, if◌then◌else◌,
  length, get_elem?, ltb, ◌==◌, drop,
}
use melete.Base.Bytes.{Bytes, Text}
use melete.Base.Int.{pos}
use melete.Base.Outcome.{Outcome, done, or_panic, ◌>>=◌}
use melete.Base.Table.{Table}
use melete.BitVector.{BitVector, new_bit_vector, get_index, set_index, to_bytes, from_bytes}
use melete.Block.{Block}
use melete.DependencyGraph.{DependencyGraph, add_write, add_read}
use melete.RangeTree.{RangeTree, search_tree}
use melete.Bank.{Wire, Result, ok, err, panic}
use melete.Bank.Memory.{
  Database, MemoryDb, new_memory_db, BankDb, cross_shard, below, get_memory, get_write_set, commit,
}
use melete.Bank.Execute.{execute}
use melete.Bank.Run.{Application, new_cross_shard_data_from_bytes}

-- `getRWSet`: the keys of a transfer, which it reads and writes; less than four bytes panic.
unfoldable pub get_rw_set : Wire → Bytes → Outcome (List Text)
get_rw_set w bz =
    if ltb (length bz) 4 then Outcome.panic else elim (w.unmarshal_transfer (drop 4 bz)) [
      | none ↦ done []
      | some tx ↦ done (tx.from ++ tx.to)
    ]

-- The loop over `AddWrite`.
unfoldable pub add_writes : List Text → ℕ → DependencyGraph → DependencyGraph
add_writes [] i g = g
add_writes (k ∷ ks) i g = add_writes ks i (add_write k i g)

-- The loop over the keys that are read: no key was written in the block by a transaction that is
-- not committed, and none that the block did not write was written in a block before.
unfoldable pub reads_free :
    DependencyGraph → DependencyGraph → Option BitVector → List Text → Outcome Bool
reads_free g all bv [] = done true
reads_free g all bv (k ∷ ks) =
    let rest = reads_free g all bv ks in
    elim (add_read k g) [
      | some index ↦ get_index bv (pos index) >>= λ set. if not set then done false else rest
      | none ↦ elim (add_read k all) [ some index ↦ done false | none ↦ rest ]
    ]

module _ (w : Wire) where
  -- The first loop over one block.
  unfoldable pub first_pass :
      DependencyGraph
      → ℕ
      → List Bytes
      → DependencyGraph
      → Option BitVector
      → Outcome (DependencyGraph × Option BitVector)
  unfolding get_rw_set reads_free add_writes
  first_pass all i [] g bv = done (g, bv)
  first_pass all i (tx ∷ txs) g bv = get_rw_set w tx >>= λ keys.
      reads_free g all bv keys >>= λ free.
      set_index bv (pos i) free >>= λ r. first_pass all (suc i) txs (add_writes keys i g) r.0

  -- The first loop over the blocks: their first commit statuses.
  unfoldable pub first_statuses : ℕ → DependencyGraph → List Block → Outcome (List Bytes)
  unfolding first_pass
  first_statuses n all [] = done []
  first_statuses n all (b ∷ bs) =
      let txs = b.cross_shard_body.cross_shard_txs in
      first_pass all 0 txs [] (new_bit_vector (pos (length txs))) >>= λ r.
      first_statuses (suc n) (add_writes (map (λ p. p.0) r.0) n all) bs >>= λ rest.
      done (to_bytes r.1 ∷ rest)

module _ (d : Database) where
  -- The loop over the values that a C-shard has read: those in the shard's range are the shard's
  -- own.
  unfoldable pub are_fresh : RangeTree → Table Text ℕ → MemoryDb d → Outcome (MemoryDb d × Bool)
  are_fresh t [] m = done (m, true)
  are_fresh t ((k, v) ∷ kvs) m =
      if not (search_tree t k) then are_fresh t kvs m else elim (get_memory d m k).1 [
        | panic ↦ Outcome.panic
        | err e ↦ done ((get_memory d m k).0, false)
        | ok u ↦ elim (u == v) [
          | true ↦ are_fresh t kvs (get_memory d m k).0
          | false ↦ done ((get_memory d m k).0, false)
        ]
      ]

  -- The loop over the keys that were read, in the second pass.
  unfoldable pub reads_committed : DependencyGraph → Option BitVector → Table Text ℕ → Outcome Bool
  reads_committed g bv [] = done true
  reads_committed g bv ((k, v) ∷ kvs) =
      let rest = reads_committed g bv kvs in
      elim (add_read k g) [
        | none ↦ rest
        | some index ↦ get_index bv (pos index) >>= λ set. if not set then done false else rest
      ]

  -- What `preExecutionBFunc` changes: the database, the graph and the bits.
  abbrev pub Voting : Type 0
  Voting = MemoryDb d × DependencyGraph × Option BitVector

  abbrev pub vote_bit : Voting → ℕ → Bool → Outcome Voting
  vote_bit (m, g, bv) i value = set_index bv (pos i) value >>= λ r. done (m, g, r.0)

  module _ (w : Wire) (app : Application d) where
    -- After `execute` on the values that the C-shard has read.
    abbrev pub judge : Voting → ℕ → Table Text ℕ → BankDb d → Result (Unit {0}) → Outcome Voting
    judge (m, g, bv) i csd b panic = Outcome.panic
    judge (m, g, bv) i csd b (err e) = vote_bit (below d (commit d b false), g, bv) i false
    judge (m, g, bv) i csd b (ok u) = reads_committed g bv csd >>= λ flag.
        vote_bit
          (below d (commit d b flag), add_writes (map (λ p. p.0) (get_write_set d b)) i g, bv) i
          flag

    -- One transaction whose bit is set, by its decoded cross-shard data.
    abbrev pub vote_data : Voting → ℕ → Bytes → Option (Table Text ℕ × Bool) → Outcome Voting
    vote_data v i tx none = vote_bit v i false
    vote_data v i tx (some (csd, false)) = vote_bit v i true
    vote_data (m, g, bv) i tx (some (csd, true)) = are_fresh app.key_range_tree csd m >>= λ f.
        if not f.1
        then vote_bit (f.0, g, bv) i false
        else judge (f.0, g, bv) i csd (execute d app.locked_keys w tx (cross_shard csd f.0)).0
            (execute d app.locked_keys w tx (cross_shard csd f.0)).1

    -- The second loop over one block.
    unfoldable pub second_pass : ℕ → List Bytes → List Bytes → Voting → Outcome Voting
    unfolding are_fresh reads_committed
    second_pass i [] datas v = done v
    second_pass i (tx ∷ txs) datas v = get_index v.2 (pos i) >>= λ set.
        (if not set
          then done v
          else or_panic (get_elem? datas i) >>= λ bz.
              new_cross_shard_data_from_bytes w bz >>= λ data'. vote_data v i tx data')
        >>= λ v'. second_pass (suc i) txs datas v'

    -- `preExecutionBFunc` on each block; each has a database of its own.
    unfoldable pub second_statuses : List Block → List Bytes → Outcome (List Bytes)
    unfolding second_pass
    second_statuses [] ss = done []
    second_statuses (b ∷ bs) [] = Outcome.panic
    second_statuses (b ∷ bs) (s ∷ ss) = from_bytes s >>= λ bv.
        second_pass 0 b.cross_shard_body.cross_shard_txs b.cross_shard_body.cross_shard_datas
          (new_memory_db d app.db, [], bv)
        >>= λ v. second_statuses bs ss >>= λ rest. done (to_bytes v.2 ∷ rest)

    -- `PreExecutionI`: `CommitStatusVote`
    unfoldable pub pre_execution_i : List Block → Outcome (List Bytes)
    unfolding first_statuses second_statuses
    pre_execution_i blocks = first_statuses w 0 [] blocks >>= second_statuses blocks
