-- ===== src/Bank/Persist.antt =====
-- `Write` brings what is committed to the store.
use melete.Base.{
  ℕ, ◌<◌, ◌≡◌, refl, ap, sym, ◌∙◌, [], ◌∷◌, Option, none, some, Bool, arith, if◌then◌else◌,
  Option-cases, Bool-cases, inl, inr,
}
use mathlib.Core.Option
use mathlib.Core.List.{append-nil}
use melete.Base.Bytes.{Bytes, Text, bytes_equal, bytes_equal_iff}
use melete.Base.Table.{Table, lookup, bytes_eq, IsTable}
use melete.Convert.{uint32_to_bytes, bytes_to_uint32, put_le, get_le}
use melete.Convert.Laws.{get_le-put_le}
use melete.Bank.{uint32_mod, ok}
use melete.Bank.Memory.{Database, IsDatabase, MemoryDb, batch_of, write_wanted}
use melete.Bank.View.{committed, decoded, over, amount_of}

-- The values of a table are `uint32`s.
abbrev pub Fits : Table Text ℕ → Type 0
Fits [] = Unit {0}
Fits ((k, v) ∷ m) = (v < uint32_mod) × Fits m

read_back : (v : ℕ) → v < uint32_mod → bytes_to_uint32 (uint32_to_bytes v) ≡ some v
unfolding bytes_to_uint32 uint32_to_bytes
read_back v h = ap (get_le 4) (sym (append-nil (put_le 4 v))) ∙ get_le-put_le 4 v [] h

decoded-uint32_to_bytes : (v : ℕ) → v < uint32_mod → decoded (some (uint32_to_bytes v)) ≡ ok v
unfolding decoded uint32_to_bytes
decoded-uint32_to_bytes v h = ap amount_of (read_back v h)

module _ (d : Database) (wanted : Text → Bool) where
  lookup-batch_of :
      (k : Text) (t : Table Text ℕ)
      → lookup k (batch_of d wanted t)
        ≡ (if wanted k then Option.map uint32_to_bytes (lookup k t) else none)
  unfolding lookup batch_of
  lookup-batch_of k [] = ground arith
  lookup-batch_of k ((j, v) ∷ t) = elim (Bool-cases (bytes_equal j k)) [
    | inl same ↦
        let e = ap wanted ((bytes_equal_iff j k).0 same) in ground (arith, lookup-batch_of k t, e)
    | inr other ↦ ground (arith, lookup-batch_of k t)
  ]

  batch_of-IsTable : (t : Table Text ℕ) → IsTable t → IsTable (batch_of d wanted t)
  unfolding batch_of
  batch_of-IsTable [] s = tt
  batch_of-IsTable ((j, v) ∷ t) s = elim (Bool-cases (wanted j)) [
    | inl yes' ↦ rw yes' (lookup-batch_of j t ∙ ground arith, batch_of-IsTable t s.1)
    | inr no' ↦ rw no' (batch_of-IsTable t s.1)
  ]

  Fits-at : (k : Text) (v : ℕ) (t : Table Text ℕ) → Fits t → lookup k t ≡ some v → v < uint32_mod
  unfolding lookup
  Fits-at k v [] f e = absurd (cc)
  Fits-at k v ((j, w) ∷ t) f e = ground (arith, Fits-at k v t)

  batch-reads :
      (k : Text) (t : Table Text ℕ) (old : Option Bytes)
      → Fits t
      → decoded (elim (lookup k (batch_of d wanted t)) [ none ↦ old | some v ↦ some v ])
        ≡ (if wanted k then over (lookup k t) (decoded old) else decoded old)
  batch-reads k t old f = rw (lookup-batch_of k t) (elim (Bool-cases (wanted k)) [
    | inr skipped ↦ rw skipped refl
    | inl kept ↦ elim (Option-cases (lookup k t)) [
      | inl missing ↦ rw (kept, missing) refl
      | inr (v, found) ↦ rw (kept, found) (decoded-uint32_to_bytes v (Fits-at k v t f found))
    ]
  ])

  -- When `MemoryDB.Write` or `RangeDB.Write` succeeds, the store holds at every key in range the
  -- balance that was committed, and at the others what it held; nothing is kept in memory. The
  -- balances in memory are `uint32`s, under a key each, and the store reads a batch back.
  pub write_persists :
      IsDatabase d
      → (m m' : MemoryDb d) → IsTable m.mem_db
      → Fits m.mem_db
      → write_wanted d wanted m ≡ (m', ok tt)
      → (m'.mem_db ≡ [])
        × ((k : Text)
            → committed d m' k ≡ (if wanted k then committed d m k else decoded (d.get m.db k)))
  unfolding write_wanted lookup
  write_persists law m m' t f e = elim (Option-cases (d.write m.db (batch_of d wanted m.mem_db))) [
    | inl failed ↦ absurd (ground arith)
    | inr (s, written) ↦
        let left : m' ≡ record m { db = s; mem_db = [] } = ground arith in
        rw left (
          refl,
          λ k.
              ap decoded (
                law.get-write m.db (batch_of d wanted m.mem_db) s k (batch_of-IsTable m.mem_db t)
                  written)
              ∙ batch-reads k m.mem_db (d.get m.db k) f,
        )
  ]
