-- ===== src/Bank/Memory.antt =====
-- memdb.go: the balances that a block's transactions read and write, over a store on disk.
use melete.Base.{ℕ, ◌≡◌, [], ◌∷◌, Option, none, some, Bool, true, false, not, if◌then◌else◌, ◌==◌}
use mathlib.Core.Option
use melete.Base.Bytes.{Bytes, Text}
use melete.Base.Table.{Table, lookup, insert, bytes_eq, IsTable}
use melete.Convert.{uint32_to_bytes, bytes_to_uint32}
use melete.RangeTree.{RangeTree, search_tree}
use melete.Bank.{init_balance, out_of_range, key_not_provided, store_failed, Result, ok, err, panic}

-- The store of utils/store over an external database: reading may fail, and a batch of writes too.
pub record Database : Type 1 where
  pub Store : Type 0
  pub get : Store → Text → Option Bytes
  pub has : Store → Text → Option Bool
  pub write : Store → Table Text Bytes → Option Store

-- What the code relies on: a batch of different keys that was written is read back, and leaves the
-- other keys alone.
pub record IsDatabase (d : Database) : Type 0 where
  pub get-write :
      (s : d.Store) (batch : Table Text Bytes) (s' : d.Store) (k : Text)
      → IsTable batch
      → d.write s batch ≡ some s'
      → d.get s' k ≡ elim (lookup k batch) [ none ↦ d.get s k | some v ↦ some v ]

-- `CrossShardDB.Get`, by what the write buffer and the block hold.
abbrev pub get_provided : Option ℕ → Option ℕ → Result ℕ
get_provided (some v) p = ok v
get_provided none none = err key_not_provided
get_provided none (some v) = ok v

module _ (d : Database) where
  pub record MemoryDb : Type 0 where
    pub db : d.Store
    pub mem_db : Table Text ℕ
    pub write_buffer : Table Text ℕ
    pub read_buffer : Table Text ℕ

  -- `NewMemoryDB`
  unfoldable pub new_memory_db : d.Store → MemoryDb
  new_memory_db s = record { db = s; mem_db = []; write_buffer = []; read_buffer = [] }

  -- The last branch of `MemoryDB.Get`, by the number that was read; less than four bytes panic.
  abbrev pub keep_amount : MemoryDb → Text → Option ℕ → MemoryDb × Result ℕ
  keep_amount m k none = (m, panic)
  keep_amount m k (some amount) = (
    record m { mem_db = insert k amount m.mem_db; read_buffer = insert k amount m.read_buffer },
    ok amount,
  )

  -- The end of `MemoryDB.Get`, at a key that the store is asked for: a store that fails and an empty
  -- value stand for a new account.
  unfoldable pub get_stored : MemoryDb → Text → Option Bytes → MemoryDb × Result ℕ
  get_stored m k none =
      (record m { read_buffer = insert k init_balance m.read_buffer }, ok init_balance)
  get_stored m k (some []) =
      (record m { read_buffer = insert k init_balance m.read_buffer }, ok init_balance)
  get_stored m k (some (b ∷ bz)) = keep_amount m k (bytes_to_uint32 (b ∷ bz))

  -- `MemoryDB.Get` at a key that no buffer holds.
  unfoldable pub get_committed : MemoryDb → Text → Option ℕ → MemoryDb × Result ℕ
  unfolding get_stored
  get_committed m k (some v) = (record m { read_buffer = insert k v m.read_buffer }, ok v)
  get_committed m k none = get_stored m k (d.get m.db k)

  -- `MemoryDB.Get`, by what the two buffers hold.
  abbrev pub get_buffered : MemoryDb → Text → Option ℕ → Option ℕ → MemoryDb × Result ℕ
  get_buffered m k (some v) seen = (m, ok v)
  get_buffered m k none (some v) = (m, ok v)
  get_buffered m k none none = get_committed m k (lookup k m.mem_db)

  unfoldable pub get_memory : MemoryDb → Text → MemoryDb × Result ℕ
  unfolding get_committed
  get_memory m k = get_buffered m k (lookup k m.write_buffer) (lookup k m.read_buffer)

  -- `MemoryDB.Has`
  unfoldable pub has_memory : MemoryDb → Text → MemoryDb × Result Bool
  has_memory m k = elim (lookup k m.write_buffer) [
    | some v ↦ (m, ok true)
    | none ↦ elim (lookup k m.mem_db) [
      | some v ↦ (
        if Option.get_or (lookup k m.read_buffer) 0 == 0
            then record m { read_buffer = insert k 0 m.read_buffer }
            else m,
        ok true,
      )
      | none ↦ elim (d.has m.db k) [ none ↦ (m, err store_failed) | some b ↦ (m, ok b) ]
    ]
  ]

  -- `MemoryDB.Set`
  unfoldable pub set_memory : MemoryDb → Text → ℕ → MemoryDb
  set_memory m k v = record m { write_buffer = insert k v m.write_buffer }

  -- The loop of `CommitWrite`
  unfoldable pub insert_all : {V : Type 0} → Table Text V → Table Text V → Table Text V
  insert_all [] m = m
  insert_all ((k, v) ∷ kvs) m = insert_all kvs (insert k v m)

  -- `MemoryDB.CommitWrite`
  unfoldable pub commit_write : MemoryDb → Bool → MemoryDb
  unfolding insert_all
  commit_write m do_it = record m {
    mem_db = if do_it then insert_all m.write_buffer m.mem_db else m.mem_db;
    write_buffer = [];
    read_buffer = [];
  }

  -- The batch of `RangeDB.Write`, and with every key that of `MemoryDB.Write`.
  unfoldable pub batch_of : (Text → Bool) → Table Text ℕ → Table Text Bytes
  batch_of wanted [] = []
  batch_of wanted ((k, v) ∷ kvs) =
      let rest = batch_of wanted kvs in if wanted k then (k, uint32_to_bytes v) ∷ rest else rest

  -- `MemoryDB.Write` and `RangeDB.Write`
  unfoldable pub write_wanted : (Text → Bool) → MemoryDb → MemoryDb × Result (Unit {0})
  unfolding batch_of
  write_wanted wanted m = elim (d.write m.db (batch_of wanted m.mem_db)) [
    | none ↦ (m, err store_failed)
    | some s ↦ (record m { db = s; mem_db = [] }, ok tt)
  ]

  -- The three kinds of database that a transaction runs on: `MemoryDB`, `RangeDB` and
  -- `CrossShardDB`.
  pub data BankDb : Type 0 where
    memory : MemoryDb → BankDb
    ranged : RangeTree → MemoryDb → BankDb
    cross_shard : Table Text ℕ → MemoryDb → BankDb

  -- The `MemoryDB` below.
  abbrev pub below : BankDb → MemoryDb
  below (memory m) = m
  below (ranged t m) = m
  below (cross_shard csd m) = m

  abbrev pub with_below : BankDb → MemoryDb → BankDb
  with_below (memory m) n = memory n
  with_below (ranged t m) n = ranged t n
  with_below (cross_shard csd m) n = cross_shard csd n

  -- `Get`
  unfoldable pub get : BankDb → Text → BankDb × Result ℕ
  unfolding get_memory
  get (memory m) k = (memory (get_memory m k).0, (get_memory m k).1)
  get (ranged t m) k =
      if not (search_tree t k)
      then (ranged t m, err out_of_range)
      else (ranged t (get_memory m k).0, (get_memory m k).1)
  get (cross_shard csd m) k =
      (cross_shard csd m, get_provided (lookup k m.write_buffer) (lookup k csd))

  -- `Has`
  unfoldable pub has : BankDb → Text → BankDb × Result Bool
  unfolding has_memory
  has (memory m) k = (memory (has_memory m k).0, (has_memory m k).1)
  has (ranged t m) k =
      if not (search_tree t k)
      then (ranged t m, err out_of_range)
      else (ranged t (has_memory m k).0, (has_memory m k).1)
  has (cross_shard csd m) k = (
    cross_shard csd m,
    elim (lookup k m.write_buffer) [
      | some v ↦ ok true
      | none ↦ elim (lookup k csd) [ none ↦ ok false | some v ↦ ok true ]
    ],
  )

  -- `Set`
  unfoldable pub set : BankDb → Text → ℕ → BankDb × Result (Unit {0})
  unfolding set_memory
  set (memory m) k v = (memory (set_memory m k v), ok tt)
  set (ranged t m) k v =
      if not (search_tree t k)
      then (ranged t m, err out_of_range)
      else (ranged t (set_memory m k v), ok tt)
  set (cross_shard csd m) k v = (cross_shard csd (set_memory m k v), ok tt)

  -- `GetReadSet`
  abbrev pub get_read_set : BankDb → Table Text ℕ
  get_read_set (memory m) = m.read_buffer
  get_read_set (ranged t m) = m.read_buffer
  get_read_set (cross_shard csd m) = csd

  -- `GetWriteSet`
  abbrev pub get_write_set : BankDb → Table Text ℕ
  get_write_set b = (below b).write_buffer

  -- `CommitWrite`
  unfoldable pub commit : BankDb → Bool → BankDb
  unfolding commit_write
  commit b do_it = with_below b (commit_write (below b) do_it)

  -- `Write`, which a `RangeDB` does for the keys in its range alone.
  unfoldable pub write : BankDb → BankDb × Result (Unit {0})
  unfolding write_wanted
  write (memory m) = (memory (write_wanted (λ k. true) m).0, (write_wanted (λ k. true) m).1)
  write (ranged t m) =
      (ranged t (write_wanted (search_tree t) m).0, (write_wanted (search_tree t) m).1)
  write (cross_shard csd m) =
      (cross_shard csd (write_wanted (λ k. true) m).0, (write_wanted (λ k. true) m).1)
