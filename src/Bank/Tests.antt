-- ===== src/Bank/Tests.antt =====
-- The bank over a store that is a table, with witnesses.
use melete.Base.{
  ℕ, ◌+◌, ◌%◌, ◌≡◌, ◌≢◌, refl, List, [], ◌∷◌, ◌++◌, map, none, some, Bool, true, false, arith,
  if◌then◌else◌,
}
use melete.Base.Bytes.{Bytes, Text, bytes_equal}
use melete.Base.Outcome.{done}
use melete.Base.Table.{Table, lookup, insert, bytes_eq}
use melete.Convert.{uint32_to_bytes, bytes_to_uint32}
use melete.Bank.{uint32_mod, TransferTx, Wire, ok, not_enough, validate_transfer_tx, init_balance}
use melete.Bank.Memory.{Database, IsDatabase, MemoryDb, BankDb, memory, write_wanted, get, set}
use melete.Bank.Execute.{do_transfer}
use melete.Bank.Run.{Executed, run_txs}
use melete.Bank.View.{read, base, committed, decoded, IsCoherent}
use melete.Bank.Refine.{Refines, do_transfer-Refines}
use melete.Bank.Readings.{transfer}
use melete.Bank.Conserve.{AllDifferent, total, occurs, do_transfer_conserves}
use melete.Bank.Mint.{to_self, wrapping, transfer_to_self_mints, wrapped_sums_mint}
use melete.Bank.Persist.{write_persists}
use melete.Bank.Serial.{Clean, AreTransfers, serial, failures, run_txs-serial}
use melete.Bank.Whole.{IsWhole}

-- A store that is a table.
abbrev table_store : Database
table_store = record {
  Store = Table Text Bytes;
  get = λ s k. elim (lookup k s) [ none ↦ none | some v ↦ some v ];
  has = λ s k. elim (lookup k s) [ none ↦ some false | some v ↦ some true ];
  write = λ s batch. some (batch ++ s);
}

lookup-append :
    (k : Text) (m n : Table Text Bytes)
    → lookup k (m ++ n) ≡ (elim (lookup k m) [ none ↦ lookup k n | some v ↦ some v ])
unfolding lookup
lookup-append k [] n = refl
lookup-append k ((j, v) ∷ m) n = ground (arith, lookup-append k m n)

table_store-IsDatabase : IsDatabase table_store
table_store-IsDatabase = record {
  get-write = λ s batch s' k t e. ground (arith, lookup-append k batch s);
}

abbrev alice : Text
alice = b'a' ∷ []

abbrev bob : Text
bob = b'b' ∷ []

abbrev carol : Text
carol = b'c' ∷ []

-- Every account has its first balance.
abbrev fresh : MemoryDb table_store
fresh = record { db = []; mem_db = []; write_buffer = []; read_buffer = [] }

abbrev fresh_db : BankDb table_store
fresh_db = memory fresh

fresh-IsCoherent : IsCoherent table_store fresh
unfolding lookup
fresh-IsCoherent = record { agrees = λ k v h. cc; distinct = tt }

abbrev payment : TransferTx
payment = record {
  from = alice ∷ [];
  to = bob ∷ carol ∷ [];
  from_money = 30 ∷ [];
  to_money = 10 ∷ 20 ∷ [];
}

payment-AllDifferent : AllDifferent (payment.from ++ payment.to)
unfolding occurs bytes_equal
payment-AllDifferent = (refl, (refl, (refl, tt)))

do_transfer-Refines_example :
    Refines table_store [] fresh_db
      (do_transfer table_store [] payment fresh_db)
      (transfer [] (read table_store fresh_db) payment)
do_transfer-Refines_example = do_transfer-Refines table_store [] payment fresh_db fresh-IsCoherent

abbrev paid : BankDb table_store
paid = (do_transfer table_store [] payment fresh_db).0

payment_made : do_transfer table_store [] payment fresh_db ≡ (paid, ok tt)
unfolding do_transfer validate_transfer_tx get set lookup insert bytes_equal
payment_made = refl

do_transfer_conserves_example :
    (total (read table_store paid) (payment.from ++ payment.to) % uint32_mod
      ≡ total (read table_store fresh_db) (payment.from ++ payment.to) % uint32_mod)
    × ((j : Text)
        → occurs j (payment.from ++ payment.to) ≡ false
        → read table_store paid j ≡ read table_store fresh_db j)
do_transfer_conserves_example =
    do_transfer_conserves table_store [] payment fresh_db paid fresh-IsCoherent payment_made
      payment-AllDifferent

-- A payment of 5 from Alice to herself.
transfer_to_self_mints_example :
    ((do_transfer table_store [] (to_self alice 5) fresh_db).1 ≡ ok tt)
    × (read table_store (do_transfer table_store [] (to_self alice 5) fresh_db).0 alice
        ≡ ok ((init_balance + 5) % uint32_mod))
unfolding read lookup decoded
transfer_to_self_mints_example =
    transfer_to_self_mints table_store [] fresh_db fresh-IsCoherent alice 5 init_balance refl refl
      (omega arith)

all_different : (alice ≢ bob) × (alice ≢ carol) × (bob ≢ carol)
all_different = (λ e. ground arith, λ e. ground arith, λ e. ground arith)

wrapped_sums_mint_example :
    ((do_transfer table_store [] (wrapping alice bob carol) fresh_db).1 ≡ ok tt)
    × (total
          (read table_store (do_transfer table_store [] (wrapping alice bob carol) fresh_db).0)
          (alice ∷ bob ∷ carol ∷ [])
        ≡ total (read table_store fresh_db) (alice ∷ bob ∷ carol ∷ []) + 4294967296)
unfolding read lookup decoded
wrapped_sums_mint_example =
    wrapped_sums_mint table_store [] fresh_db fresh-IsCoherent alice bob carol init_balance
      init_balance init_balance all_different (refl, refl, refl) (refl, refl, refl) (omega arith)
      (omega arith)

-- Two balances in memory, of which Alice's is in range.
abbrev changed : MemoryDb table_store
changed = record fresh { mem_db = (alice, 7) ∷ (bob, 8) ∷ [] }

abbrev is_alice : Text → Bool
is_alice k = bytes_equal alice k

abbrev written : MemoryDb table_store
written = record fresh { db = (alice, uint32_to_bytes 7) ∷ [] }

write_persists_example :
    ◌≡◌ {A = Table Text ℕ} written.mem_db []
    × ((k : Text)
        → committed table_store written k ≡ (
            if is_alice k
            then committed table_store changed k
            else decoded (table_store.get changed.db k)))
unfolding lookup bytes_equal write_wanted
write_persists_example =
    write_persists table_store is_alice table_store-IsDatabase changed written (refl, (refl, tt))
      (omega arith) refl

-- A block of two transfers, the second of which Alice cannot pay.
abbrev dear : TransferTx
dear = record {
  from = alice ∷ [];
  to = bob ∷ [];
  from_money = 2000000 ∷ [];
  to_money = 2000000 ∷ [];
}

-- An encoding of two transfers, by one byte behind the type.
abbrev wire : Wire
wire = record {
  unmarshal_transfer = λ bz.
      if bytes_equal bz (1 ∷ [])
      then some payment
      else if bytes_equal bz (2 ∷ [])
      then some dear
      else none;
  unmarshal_insert = λ bz. none;
  marshal_data = λ b. [];
  unmarshal_data = λ bz. none;
}

abbrev block_txs : List Bytes
block_txs = (10 ∷ 0 ∷ 0 ∷ 0 ∷ 1 ∷ []) ∷ (10 ∷ 0 ∷ 0 ∷ 0 ∷ 2 ∷ []) ∷ []

fresh-Clean : Clean table_store fresh_db
unfolding read base lookup
fresh-Clean = record { settled = refl; coherent = fresh-IsCoherent; plain = refl }

fresh-IsWhole : IsWhole (read table_store fresh_db)
unfolding read lookup decoded
fresh-IsWhole = λ k p. cc

block-AreTransfers : AreTransfers wire block_txs (payment ∷ dear ∷ [])
unfolding bytes_to_uint32 bytes_equal
block-AreTransfers = ((refl, refl, refl), ((refl, refl, refl), tt))

run_txs-serial_example :
    (b' : BankDb table_store) × (xs : List (Executed table_store)) × (run_txs table_store wire []
        block_txs fresh_db
      ≡ done (b', xs))
    × Clean table_store b'
    × (read table_store b' ≡ serial [] (read table_store fresh_db) (payment ∷ dear ∷ []))
    × (map (λ x. x.failure) xs ≡ failures [] (read table_store fresh_db) (payment ∷ dear ∷ []))
run_txs-serial_example =
    run_txs-serial table_store [] wire block_txs (payment ∷ dear ∷ []) fresh_db fresh-Clean
      fresh-IsWhole block-AreTransfers

-- The second transfer fails.
block_failures :
    failures [] (read table_store fresh_db) (payment ∷ dear ∷ []) ≡ none ∷ some not_enough ∷ []
unfolding failures transfer validate_transfer_tx read lookup decoded bytes_equal
block_failures = refl
