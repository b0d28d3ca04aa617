-- ===== src/Bank/Mint.antt =====
-- Transfers that make money: from an account to itself, and with sums that wrap.
use melete.Base.{ℕ, ◌+◌, ◌-◌, ◌%◌, ◌<◌, ◌≤◌, ◌≡◌, ◌≢◌, [], ◌∷◌, false, arith, Bool}
use melete.Base.Bytes.{Text, bytes_equal_iff}
use melete.Base.Table.{Table}
use melete.Bank.{uint32_mod, TransferTx, ok, sum_money, validate_transfer_tx}
use melete.Bank.Memory.{Database, BankDb, below}
use melete.Bank.Execute.{is_locked, do_transfer}
use melete.Bank.View.{Readings, update, read, IsCoherent}
use melete.Bank.Refine.{do_transfer-Refines}
use melete.Bank.Readings.{taken, given, moved, transfer}
use melete.Bank.Conserve.{total}

-- A transfer of `m` from an account to itself.
abbrev pub to_self : Text → ℕ → TransferTx
to_self k m = record { from = k ∷ []; to = k ∷ []; from_money = m ∷ []; to_money = m ∷ [] }

transfer-to_self :
    (locked : Table Text Bool) (r : Readings) (k : Text) (m v : ℕ)
    → is_locked locked k ≡ false
    → r k ≡ ok v
    → m ≤ v
    → transfer locked r (to_self k m) ≡ ok (update (update r k (v - m)) k ((v + m) % uint32_mod))
unfolding transfer taken given moved validate_transfer_tx
transfer-to_self locked r k m v free e h = ground arith

-- A transfer with 0 from `a`, and 2^31 to each of `b` and `c`.
abbrev pub wrapping : Text → Text → Text → TransferTx
wrapping a b c = record {
  from = a ∷ [];
  to = b ∷ c ∷ [];
  from_money = 0 ∷ [];
  to_money = 2147483648 ∷ 2147483648 ∷ [];
}

transfer-wrapping :
    (locked : Table Text Bool) (r : Readings) (a b c : Text) (x y z : ℕ)
    → (is_locked locked a ≡ false) × (is_locked locked b ≡ false) × (is_locked locked c ≡ false)
    → (r a ≡ ok x) × (r b ≡ ok y) × (r c ≡ ok z)
    → transfer locked r (wrapping a b c)
      ≡ ok (
          update
            (update (update r a x) b ((y + 2147483648) % uint32_mod))
            c
            ((z + 2147483648) % uint32_mod))
unfolding transfer taken given moved validate_transfer_tx sum_money
transfer-wrapping locked r a b c x y z free e = ground arith

module _ (d : Database) (locked : Table Text Bool) (db : BankDb d)
    (coherent : IsCoherent d (below d db)) where
  -- A transfer of `m` from an account to itself is accepted when the balance covers it, and leaves
  -- the balance greater by `m`, modulo 2^32; the account is not locked.
  pub transfer_to_self_mints :
      (k : Text) (m v : ℕ)
      → is_locked locked k ≡ false
      → read d db k ≡ ok v
      → m ≤ v
      → ((do_transfer d locked (to_self k m) db).1 ≡ ok tt)
        × (read d (do_transfer d locked (to_self k m) db).0 k ≡ ok ((v + m) % uint32_mod))
  transfer_to_self_mints k m v free e h =
      let s = do_transfer-Refines d locked (to_self k m) db coherent in
      let t = transfer-to_self locked (read d db) k m v free e h in
      (rw s.answers (rw t), rw s.reads (rw t (ground (arith, bytes_equal_iff k k))))

  -- A transfer of 0 from one account and 2^31 to each of two others is accepted, as the sums are
  -- compared modulo 2^32, and adds 2^32 to the sum of the three balances; the accounts are different
  -- and not locked, and the two balances are below 2^31.
  pub wrapped_sums_mint :
      (a b c : Text) (x y z : ℕ)
      → (a ≢ b) × (a ≢ c) × (b ≢ c)
      → (is_locked locked a ≡ false) × (is_locked locked b ≡ false) × (is_locked locked c ≡ false)
      → (read d db a ≡ ok x) × (read d db b ≡ ok y) × (read d db c ≡ ok z)
      → y < 2147483648
      → z < 2147483648
      → ((do_transfer d locked (wrapping a b c) db).1 ≡ ok tt)
        × (total (read d (do_transfer d locked (wrapping a b c) db).0) (a ∷ b ∷ c ∷ [])
            ≡ total (read d db) (a ∷ b ∷ c ∷ []) + 4294967296)
  unfolding total
  wrapped_sums_mint a b c x y z ne free e hy hz =
      let s = do_transfer-Refines d locked (wrapping a b c) db coherent in
      let t = transfer-wrapping locked (read d db) a b c x y z free e in
      (
        rw s.answers (rw t),
        rw s.reads (
            rw t (
              ground (
                arith,
                bytes_equal_iff a b,
                bytes_equal_iff a c,
                bytes_equal_iff b c,
                bytes_equal_iff b a,
                bytes_equal_iff c a,
                bytes_equal_iff c b,
                bytes_equal_iff a a,
                bytes_equal_iff b b,
                bytes_equal_iff c c,
              ))),
      )
