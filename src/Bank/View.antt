-- ===== src/Bank/View.antt =====
-- What is read in the three databases, and `Get`.
use mathlib.Core.Path.{fun_ext}
use melete.Base.{
  ℕ, ◌≡◌, refl, ap, sym, ◌∙◌, [], ◌∷◌, Option, none, some, Bool, true, false, not, arith,
  if◌then◌else◌, Option-cases, Bool-cases, inl, inr,
}
use melete.Base.Bytes.{Bytes, Text, bytes_equal, bytes_equal_iff}
use melete.Base.Table.{lookup, insert, bytes_eq, lookup-insert, IsTable}
use melete.Convert.{bytes_to_uint32}
use melete.RangeTree.{search_tree}
use melete.Bank.{init_balance, out_of_range, key_not_provided, Result, ok, err, panic}
use melete.Bank.Memory.{
  Database, MemoryDb, BankDb, memory, ranged, cross_shard, below, get_stored, get_committed,
  get_memory, get_provided, get,
}

-- The balance at each key.
abbrev pub Readings : Type 0
Readings = Text → Result ℕ

abbrev pub update : Readings → Text → ℕ → Readings
update r k v j = if bytes_equal k j then ok v else r j

abbrev pub amount_of : Option ℕ → Result ℕ
amount_of none = panic
amount_of (some v) = ok v

-- The balance that a value in the store stands for.
unfoldable pub decoded : Option Bytes → Result ℕ
decoded none = ok init_balance
decoded (some []) = ok init_balance
decoded (some (b ∷ bz)) = amount_of (bytes_to_uint32 (b ∷ bz))

-- A value that was found, or else what the layer below reads.
abbrev pub over : Option ℕ → Result ℕ → Result ℕ
over none r = r
over (some v) r = ok v

abbrev pub provided : Option ℕ → Result ℕ
provided none = err key_not_provided
provided (some v) = ok v

get_provided_lem : (w p : Option ℕ) → get_provided w p ≡ over w (provided p)
get_provided_lem (some v) p = refl
get_provided_lem none none = refl
get_provided_lem none (some v) = refl

module _ (d : Database) where
  -- What is read when no transaction is running.
  abbrev pub committed : MemoryDb d → Readings
  committed m k = over (lookup k m.mem_db) (decoded (d.get m.db k))

  abbrev pub buffered : Readings → MemoryDb d → Readings
  buffered r m k = over (lookup k m.write_buffer) (r k)

  -- What `Get` answers at each key.
  unfoldable pub read : BankDb d → Readings
  read (memory m) k = buffered (committed m) m k
  read (ranged t m) k =
      if not (search_tree t k) then err out_of_range else buffered (committed m) m k
  read (cross_shard csd m) k = buffered (λ j. provided (lookup j csd)) m k

  -- What `Get` answers when the buffers are empty.
  unfoldable pub base : BankDb d → Readings
  base (memory m) k = committed m k
  base (ranged t m) k = if not (search_tree t k) then err out_of_range else committed m k
  base (cross_shard csd m) k = provided (lookup k csd)

  -- A database that commits what it reads.
  abbrev pub is_plain : BankDb d → Bool
  is_plain (memory m) = true
  is_plain (ranged t m) = true
  is_plain (cross_shard csd m) = false

  -- The read buffer holds what is committed, and the write buffer holds a key once.
  pub record IsCoherent (m : MemoryDb d) : Type 0 where
    pub agrees : (k : Text) (v : ℕ) → lookup k m.read_buffer ≡ some v → committed m k ≡ ok v
    pub distinct : IsTable m.write_buffer

  -- A database that reads the same.
  pub record Same (b b' : BankDb d) : Type 0 where
    pub reads : read b' ≡ read b
    pub holds : committed (below d b') ≡ committed (below d b)
    pub bases : base b' ≡ base b
    pub plain : is_plain b' ≡ is_plain b
    pub coherent : IsCoherent (below d b')

  pub Same-refl : (b : BankDb d) → IsCoherent (below d b) → Same b b
  Same-refl b c = record { reads = refl; holds = refl; bases = refl; plain = refl; coherent = c }

  pub Same-trans : {a b c : BankDb d} → Same a b → Same b c → Same a c
  Same-trans s t = record {
    reads = t.reads ∙ s.reads;
    holds = t.holds ∙ s.holds;
    bases = t.bases ∙ s.bases;
    plain = t.plain ∙ s.plain;
    coherent = t.coherent;
  }

  -- A value that was read is noted.
  noted :
      (m : MemoryDb d) (k : Text) (v : ℕ)
      → IsCoherent m
      → committed m k ≡ ok v
      → IsCoherent (record m { read_buffer = insert k v m.read_buffer })
  noted m k v c e = record {
    agrees = λ j w h.
        ground (arith, lookup-insert k j v m.read_buffer, bytes_equal_iff k j, c.agrees j w);
    distinct = c.distinct;
  }

  -- What a read does to the database below.
  record Kept (m m' : MemoryDb d) : Type 0 where
    same_writes : m'.write_buffer ≡ m.write_buffer
    same_committed : committed m' ≡ committed m
    still_coherent : IsCoherent m'

  get_stored_lem :
      (m : MemoryDb d) (k : Text) (bz : Option Bytes)
      → IsCoherent m
      → lookup k m.mem_db ≡ none
      → bz ≡ d.get m.db k
      → Kept m (get_stored d m k bz).0 × ((get_stored d m k bz).1 ≡ decoded bz)
  unfolding get_stored decoded
  get_stored_lem m k none c free e = (
    record {
      same_writes = refl;
      same_committed = refl;
      still_coherent = noted m k init_balance c (rw (free, ← e) refl);
    },
    refl,
  )
  get_stored_lem m k (some []) c free e = (
    record {
      same_writes = refl;
      same_committed = refl;
      still_coherent = noted m k init_balance c (rw (free, ← e) refl);
    },
    refl,
  )
  get_stored_lem m k (some (b ∷ bz)) c free e = elim (Option-cases (bytes_to_uint32 (b ∷ bz))) [
    | inl bad ↦
        rw bad (record { same_writes = refl; same_committed = refl; still_coherent = c }, refl)
    | inr (amount, good) ↦
        let same : committed (filled amount) ≡ committed m = fun_ext (cached amount good) in
        rw good (
          record {
            same_writes = refl;
            same_committed = same;
            still_coherent = record {
              agrees = λ j v h.
                  ap (λ r. r j) same ∙ (noted m k amount c (fresh amount good)).agrees j v h;
              distinct = c.distinct;
            };
          },
          refl,
        )
  ]
    where
      filled : ℕ → MemoryDb d
      filled amount = record m {
        mem_db = insert k amount m.mem_db;
        read_buffer = insert k amount m.read_buffer;
      }

      fresh : (amount : ℕ) → bytes_to_uint32 (b ∷ bz) ≡ some amount → committed m k ≡ ok amount
      fresh amount good = rw (free, ← e) (ap amount_of good)

      cached :
          (amount : ℕ)
          → bytes_to_uint32 (b ∷ bz) ≡ some amount
          → (j : Text) → committed (filled amount) j ≡ committed m j
      cached amount good j =
          ground (arith, lookup-insert k j amount m.mem_db, bytes_equal_iff k j, fresh amount good)

  get_memory_lem :
      (m : MemoryDb d) (k : Text)
      → IsCoherent m
      → Kept m (get_memory d m k).0 × ((get_memory d m k).1 ≡ buffered (committed m) m k)
  unfolding get_memory get_committed
  get_memory_lem m k c = elim (Option-cases (lookup k m.write_buffer)) [
    | inr (v, written) ↦ rw written (kept, refl)
    | inl n1 ↦ elim (Option-cases (lookup k m.read_buffer)) [
      | inr (v, seen) ↦ rw (n1, seen) (kept, sym (c.agrees k v seen))
      | inl n2 ↦ elim (Option-cases (lookup k m.mem_db)) [
        | inr (v, held) ↦
            rw (n1, n2, held)
              (
                record {
                  same_writes = refl;
                  same_committed = refl;
                  still_coherent = noted m k v c (rw held refl);
                },
                refl,
              )
        | inl n3 ↦ rw (n1, n2, n3) (get_stored_lem m k (d.get m.db k) c n3 refl)
      ]
    ]
  ]
    where
      kept : Kept m m
      kept = record { same_writes = refl; same_committed = refl; still_coherent = c }

  buffered_same :
      (m m' : MemoryDb d) → Kept m m' → buffered (committed m') m' ≡ buffered (committed m) m
  buffered_same m m' k = fun_ext λ j.
      ap (λ w. over (lookup j w) (committed m' j)) k.same_writes
      ∙ ap (λ c. over (lookup j m.write_buffer) (c j)) k.same_committed

  -- `Get` answers what is read at the key, and changes what is read at no key.
  pub get_lem :
      (b : BankDb d) (k : Text)
      → IsCoherent (below d b)
      → Same b (get d b k).0 × ((get d b k).1 ≡ read b k)
  unfolding get read base
  get_lem (memory m) k c =
      let (kept, e) = get_memory_lem m k c in
      (
        record {
          reads = buffered_same m (get_memory d m k).0 kept;
          holds = kept.same_committed;
          bases = kept.same_committed;
          plain = refl;
          coherent = kept.still_coherent;
        },
        e,
      )
  get_lem (ranged t m) k c = elim (Bool-cases (search_tree t k)) [
    | inr outside ↦ rw outside (Same-refl (ranged t m) c, refl)
    | inl inside ↦
        let (kept, e) = get_memory_lem m k c in
        rw inside (
          record {
            reads = λ i j.
                if not (search_tree t j)
                then err out_of_range
                else buffered_same m (get_memory d m k).0 kept i j;
            holds = kept.same_committed;
            bases =
                λ i j. if not (search_tree t j) then err out_of_range else kept.same_committed i j;
            plain = refl;
            coherent = kept.still_coherent;
          },
          e,
        )
  ]
  get_lem (cross_shard csd m) k c =
      (Same-refl (cross_shard csd m) c, get_provided_lem (lookup k m.write_buffer) (lookup k csd))
