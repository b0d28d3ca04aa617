-- ===== src/Bank/Update.antt =====
-- How `Set` and `CommitWrite` change what is read in a database of balances.
use mathlib.Core.Path.{fun_ext}
use melete.Base.{
  ℕ, ◌≡◌, refl, ap, sym, ◌∙◌, [], ◌∷◌, none, Bool, true, false, arith, if◌then◌else◌, Bool-cases,
  inl, inr,
}
use melete.Base.Bytes.{Text, bytes_equal, bytes_equal_iff}
use melete.Base.Table.{Table, lookup, insert, bytes_eq, lookup-insert, IsTable, insert-IsTable}
use melete.RangeTree.{search_tree}
use melete.Bank.{Result, ok}
use melete.Bank.Memory.{
  Database, MemoryDb, BankDb, memory, ranged, cross_shard, below, set_memory, set, commit_write,
  insert_all,
}
use melete.Bank.View.{
  update, decoded, over, provided, committed, buffered, read, base, is_plain, IsCoherent,
}

module _ (d : Database) where
  written :
      (m : MemoryDb d) (k : Text) (v : ℕ) (r : Result ℕ) (j : Text)
      → over (lookup j (insert k v m.write_buffer)) r
        ≡ (if bytes_equal k j then ok v else over (lookup j m.write_buffer) r)
  written m k v r j = ground (arith, lookup-insert k j v m.write_buffer)

  -- `Set` at a key that can be read changes what is read there, and nothing that is committed.
  pub set_lem :
      (b : BankDb d) (k : Text) (v w : ℕ)
      → IsCoherent d (below d b)
      → read d b k ≡ ok w
      → (b' : BankDb d) × (set d b k v ≡ (b', ok tt))
        × (read d b' ≡ update (read d b) k v)
        × (committed d (below d b') ≡ committed d (below d b))
        × (base d b' ≡ base d b)
        × (is_plain d b' ≡ is_plain d b)
        × IsCoherent d (below d b')
  unfolding set set_memory read base
  set_lem (memory m) k v w c r = (
    memory (set_memory d m k v),
    refl,
    fun_ext (λ j. written m k v (committed d m j) j),
    refl,
    refl,
    refl,
    record { agrees = c.agrees; distinct = insert-IsTable k v m.write_buffer c.distinct },
  )
  set_lem (ranged t m) k v w c r = elim (Bool-cases (search_tree t k)) [
    | inr outside ↦ absurd (ground arith)
    | inl inside ↦ (
      ranged t (set_memory d m k v),
      rw inside refl,
      fun_ext (λ j. in_range j inside),
      refl,
      refl,
      refl,
      record { agrees = c.agrees; distinct = insert-IsTable k v m.write_buffer c.distinct },
    )
  ]
    where
      in_range :
          (j : Text)
          → search_tree t k ≡ true
          → read d (ranged t (set_memory d m k v)) j ≡ update (read d (ranged t m)) k v j
      in_range j inside =
          let same : bytes_equal k j ≡ true → search_tree t j ≡ true =
            λ h. ap (search_tree t) (sym ((bytes_equal_iff k j).0 h)) ∙ inside in
          ground (arith, written m k v (committed d m j) j, same)
  set_lem (cross_shard csd m) k v w c r = (
    cross_shard csd (set_memory d m k v),
    refl,
    fun_ext (λ j. written m k v (provided (lookup j csd)) j),
    refl,
    refl,
    refl,
    record { agrees = c.agrees; distinct = insert-IsTable k v m.write_buffer c.distinct },
  )

  -- After `CommitWrite` both buffers are empty.
  pub IsCoherent-commit : (m : MemoryDb d) (do_it : Bool) → IsCoherent d (commit_write d m do_it)
  unfolding commit_write lookup
  IsCoherent-commit m do_it = record { agrees = λ k v h. cc; distinct = tt }

  lookup-insert_all :
      (w m : Table Text ℕ) (j : Text) (r : Result ℕ)
      → IsTable w
      → over (lookup j (insert_all d w m)) r ≡ over (lookup j w) (over (lookup j m) r)
  unfolding insert_all lookup
  lookup-insert_all [] m j r t = refl
  lookup-insert_all ((k, v) ∷ w) m j r t =
      let hit : bytes_equal k j ≡ true → lookup j w ≡ none =
        λ h. ap (λ x. lookup x w) (sym ((bytes_equal_iff k j).0 h)) ∙ t.0 in
      ground (arith, lookup-insert_all w (insert k v m) j r t.1, lookup-insert k j v m, hit)

  -- `CommitWrite(true)` commits what the transaction reads, `CommitWrite(false)` leaves what was
  -- committed.
  pub committed-commit :
      (m : MemoryDb d) (do_it : Bool)
      → IsCoherent d m
      → committed d (commit_write d m do_it)
        ≡ (if do_it then buffered d (committed d m) m else committed d m)
  unfolding commit_write
  committed-commit m true c =
      fun_ext λ j. lookup-insert_all m.write_buffer m.mem_db j (decoded (d.get m.db j)) c.distinct
  committed-commit m false c = refl
