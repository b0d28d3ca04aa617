-- ===== src/Bank/Conserve.antt =====
-- What a transfer does to the sum of the balances.
use melete.Base.{
  ℕ, ◌+◌, ◌%◌, ◌<◌, ◌≡◌, refl, ap, ap₂, sym, ◌∙◌, List, [], ◌∷◌, ◌++◌, Option, none, some, Bool,
  true, false, arith, Bool-cases, inl, inr, length, ◌||◌,
}
use melete.Base.Bytes.{Text, bytes_equal, bytes_equal_iff}
use melete.Base.Table.{Table}
use melete.Bank.{
  uint32_mod, BankError, TransferTx, Result, ok, err, panic, sum_money, validate_transfer_tx,
}
use melete.Bank.Memory.{Database, BankDb, below}
use melete.Bank.Execute.{do_transfer}
use melete.Bank.View.{Readings, update, read, IsCoherent}
use melete.Bank.Refine.{do_transfer-Refines, answer, readings_after}
use melete.Bank.Readings.{taken, given, moved, transfer, ◌>>=◌, taken_inv, given_inv, bind_inv}

unfoldable pub sum : List ℕ → ℕ
sum [] = 0
sum (m ∷ ms) = m + sum ms

abbrev pub value : Result ℕ → ℕ
value (ok v) = v
value (err e) = 0
value panic = 0

-- The sum of the balances of some accounts.
unfoldable pub total : Readings → List Text → ℕ
total r [] = 0
total r (k ∷ ks) = value (r k) + total r ks

unfoldable pub occurs : Text → List Text → Bool
occurs j [] = false
occurs j (k ∷ ks) = bytes_equal k j || occurs j ks

-- No account stands twice.
abbrev pub AllDifferent : List Text → Type 0
AllDifferent [] = Unit {0}
AllDifferent (k ∷ ks) = (occurs k ks ≡ false) × AllDifferent ks

sum_money_lem :
    (acc : ℕ) (ms : List ℕ) → acc < uint32_mod → sum_money acc ms ≡ (acc + sum ms) % uint32_mod
unfolding sum_money sum
sum_money_lem acc [] h = omega arith
sum_money_lem acc (m ∷ ms) h = sum_money_lem ((acc + m) % uint32_mod) ms (omega arith) ∙ omega arith

moved_outside :
    (r : Readings) (ks : List Text) (vs : List ℕ) (j : Text)
    → occurs j ks ≡ false
    → moved r ks vs j ≡ r j
unfolding moved occurs
moved_outside r [] vs j h = refl
moved_outside r (k ∷ ks) [] j h = refl
moved_outside r (k ∷ ks) (v ∷ vs) j h =
    moved_outside (update r k v) ks vs j (ground arith) ∙ ground arith

-- Two readings that agree at some accounts have one sum there.
total_agree :
    (r s : Readings) (ks : List Text)
    → ((j : Text) → occurs j ks ≡ true → r j ≡ s j)
    → total r ks ≡ total s ks
unfolding total occurs
total_agree r s [] h = refl
total_agree r s (k ∷ ks) h =
    ap₂ ◌+◌ (ap value (h k (ground (arith, bytes_equal_iff k k))))
      (total_agree r s ks (λ j o. h j (ground arith)))

total-moved :
    (r : Readings) (ks : List Text) (vs : List ℕ)
    → AllDifferent ks
    → length vs ≡ length ks
    → total (moved r ks vs) ks ≡ sum vs
unfolding total sum moved
total-moved r [] [] a n = refl
total-moved r [] (v ∷ vs) a n = absurd (omega arith)
total-moved r (k ∷ ks) [] a n = absurd (omega arith)
total-moved r (k ∷ ks) (v ∷ vs) a n =
    let own : update r k v k ≡ ok v = ground (arith, bytes_equal_iff k k) in
    ap₂ ◌+◌ (ap value (moved_outside (update r k v) ks vs k a.0 ∙ own))
      (total-moved (update r k v) ks vs a.1 (omega arith))

sum-taken :
    (locked : Table Text Bool) (r : Readings) (ks : List Text) (ms vs : List ℕ)
    → taken locked r ks ms ≡ ok vs
    → length ks ≡ length ms
    → (sum vs + sum ms ≡ total r ks) × (length vs ≡ length ks)
unfolding sum total
sum-taken locked r [] [] vs e n = unfold taken in ground arith
sum-taken locked r [] (m ∷ ms) vs e n = absurd (omega arith)
sum-taken locked r (k ∷ ks) [] vs e n = absurd (omega arith)
sum-taken locked r (k ∷ ks) (m ∷ ms) vs e n =
    let (v, ws, free, reads, fits, rest, same) = taken_inv locked r k ks m ms vs e in
    let ih = sum-taken locked r ks ms ws rest (omega arith) in ground (arith, ih.0, ih.1)

sum-given :
    (locked : Table Text Bool) (r : Readings) (ks : List Text) (ms vs : List ℕ)
    → given locked r ks ms ≡ ok vs
    → length ks ≡ length ms
    → (sum vs % uint32_mod ≡ (total r ks + sum ms) % uint32_mod) × (length vs ≡ length ks)
unfolding sum total
sum-given locked r [] [] vs e n = unfold given in ground arith
sum-given locked r [] (m ∷ ms) vs e n = absurd (omega arith)
sum-given locked r (k ∷ ks) [] vs e n = absurd (omega arith)
sum-given locked r (k ∷ ks) (m ∷ ms) vs e n =
    let (v, ws, free, reads, rest, same) = given_inv locked r k ks m ms vs e in
    let ih = sum-given locked r ks ms ws rest (omega arith) in ground (arith, ih.0, ih.1)

total-append : (r : Readings) (ks js : List Text) → total r (ks ++ js) ≡ total r ks + total r js
unfolding total
total-append r [] js = omega arith
total-append r (k ∷ ks) js = ground (arith, total-append r ks js)

occurs-append : (j : Text) (ks js : List Text) → occurs j (ks ++ js) ≡ (occurs j ks || occurs j js)
unfolding occurs
occurs-append j [] js = refl
occurs-append j (k ∷ ks) js = ground (arith, occurs-append j ks js)

-- Lists whose sum has no account twice have none twice each, and none in common.
different_parts :
    (ks js : List Text)
    → AllDifferent (ks ++ js)
    → AllDifferent ks × AllDifferent js × ((j : Text) → occurs j ks ≡ true → occurs j js ≡ false)
unfolding occurs
different_parts [] js a = (tt, a, λ j h. absurd (cc))
different_parts (k ∷ ks) js (new, a) =
    let (first, second, apart) = different_parts ks js a in
    (
      (ground (arith, occurs-append k ks js), first),
      second,
      λ j h. elim (Bool-cases (bytes_equal k j)) [
        | inl same ↦
            ap (λ x. occurs x js) (sym ((bytes_equal_iff k j).0 same))
            ∙ ground (arith, occurs-append k ks js)
        | inr other ↦ apart j (ground arith)
      ],
    )

-- What a transfer on readings that succeeds has checked and done.
pub record Transferred (locked : Table Text Bool) (r : Readings) (tx : TransferTx) (r' : Readings)
    : Type 0 where
  pub debited : List ℕ
  pub credited : List ℕ
  pub valid : validate_transfer_tx tx ≡ none
  pub paid : taken locked r tx.from tx.from_money ≡ ok debited
  pub got : given locked r tx.to tx.to_money ≡ ok credited
  pub left : moved (moved r tx.from debited) tx.to credited ≡ r'

pub transfer_inv :
    (locked : Table Text Bool) (r : Readings) (tx : TransferTx) (r' : Readings)
    → transfer locked r tx ≡ ok r'
    → Transferred locked r tx r'
unfolding transfer
transfer_inv locked r tx r' e = valid (validate_transfer_tx tx) refl e
  where
    valid :
        (t : Option BankError)
        → t ≡ validate_transfer_tx tx
        → (elim t [
          | some e ↦ err e
          | none ↦ taken locked r tx.from tx.from_money >>= λ vs.
              given locked r tx.to tx.to_money >>= λ ws. ok (moved (moved r tx.from vs) tx.to ws)
        ])
          ≡ ok r'
        → Transferred locked r tx r'
    valid (some x) t e = absurd (cc)
    valid none t e =
        let (vs, paid, rest) = bind_inv (taken locked r tx.from tx.from_money) _ r' e in
        let (ws, got, last) = bind_inv (given locked r tx.to tx.to_money) _ r' rest in
        record { debited = vs; credited = ws; valid = sym t; paid = paid; got = got; left = cc }

pub validated :
    (tx : TransferTx)
    → validate_transfer_tx tx ≡ none
    → (length tx.from ≡ length tx.from_money)
      × (length tx.to ≡ length tx.to_money)
      × (sum tx.from_money % uint32_mod ≡ sum tx.to_money % uint32_mod)
unfolding validate_transfer_tx
validated tx e =
    ground (
      arith,
      sum_money_lem 0 tx.from_money (omega arith),
      sum_money_lem 0 tx.to_money (omega arith),
    )

-- Readings keep their sum modulo 2^32, and are the same outside the transfer's accounts.
transfer_keeps :
    (locked : Table Text Bool) (r : Readings) (tx : TransferTx) (r' : Readings)
    → transfer locked r tx ≡ ok r'
    → AllDifferent (tx.from ++ tx.to)
    → (total r' (tx.from ++ tx.to) % uint32_mod ≡ total r (tx.from ++ tx.to) % uint32_mod)
      × ((j : Text) → occurs j (tx.from ++ tx.to) ≡ false → r' j ≡ r j)
transfer_keeps locked r tx r' e a =
    let t = transfer_inv locked r tx r' e in
    let (n1, n2, sums) = validated tx t.valid in
    let (first, second, apart) = different_parts tx.from tx.to a in
    let (debit, m1) = sum-taken locked r tx.from tx.from_money t.debited t.paid n1 in
    let (credit, m2) = sum-given locked r tx.to tx.to_money t.credited t.got n2 in
    let r1 = moved r tx.from t.debited in
    let from_total =
      total_agree (moved r1 tx.to t.credited) r1 tx.from
        (λ j h. moved_outside r1 tx.to t.credited j (apart j h))
      ∙ total-moved r tx.from t.debited first m1 in
    let to_total = total-moved r1 tx.to t.credited second m2 in
    rw (← t.left) (
      omega (
        arith,
        total-append (moved r1 tx.to t.credited) tx.from tx.to,
        total-append r tx.from tx.to,
        from_total,
        to_total,
        debit,
        credit,
        sums,
      ),
      λ j h.
          moved_outside r1 tx.to t.credited j (ground (arith, occurs-append j tx.from tx.to))
          ∙ moved_outside r tx.from t.debited j (ground (arith, occurs-append j tx.from tx.to)),
    )

answer-ok : (s : Result Readings) → ok tt ≡ answer s → (r : Readings) × (s ≡ ok r)
answer-ok (ok r) e = (r, refl)
answer-ok (err x) e = absurd (cc)
answer-ok panic e = absurd (cc)

module _ (d : Database) (locked : Table Text Bool) where
  -- A transfer that succeeds on accounts that are all different keeps the sum of their balances
  -- modulo 2^32, and the balance of every other account; the read buffer agrees with what is
  -- committed.
  pub do_transfer_conserves :
      (tx : TransferTx) (b b' : BankDb d)
      → IsCoherent d (below d b)
      → do_transfer d locked tx b ≡ (b', ok tt)
      → AllDifferent (tx.from ++ tx.to)
      → (total (read d b') (tx.from ++ tx.to) % uint32_mod
          ≡ total (read d b) (tx.from ++ tx.to) % uint32_mod)
        × ((j : Text) → occurs j (tx.from ++ tx.to) ≡ false → read d b' j ≡ read d b j)
  do_transfer_conserves tx b b' c e a =
      let s = do_transfer-Refines d locked tx b c in
      let (r', done) =
        answer-ok (transfer locked (read d b) tx) (ap (λ o. o.1) (sym e) ∙ s.answers) in
      let after : read d b' ≡ r' =
        ap (λ o. read d o.0) (sym e) ∙ s.reads ∙ ap (readings_after (read d b)) done in
      rw after (transfer_keeps locked (read d b) tx r' done a)
