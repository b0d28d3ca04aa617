-- ===== src/Bank/Whole.antt =====
-- Readings that answer a balance or an error at every key, as a transfer leaves them.
use mathlib.Core.Path.{subst}
use melete.Base.{
  ℕ, ◌≡◌, ◌≢◌, refl, sym, List, [], ◌∷◌, Option, none, some, Bool, true, false, arith, Bool-cases,
  inl, inr, ltb, length,
}
use melete.Base.Bytes.{Text, bytes_equal}
use melete.Base.Table.{Table, bytes_eq}
use melete.Bank.{TransferTx, not_enough, BankError, Result, ok, err, panic, validate_transfer_tx}
use melete.Bank.Execute.{is_locked}
use melete.Bank.View.{Readings, update}
use melete.Bank.Refine.{readings_after}
use melete.Bank.Readings.{taken, given, moved, transfer, open_balance, ◌>>=◌}
use melete.Bank.Conserve.{validated, transfer_inv}

-- Readings at which no transfer panics: a stored balance has four bytes at least.
abbrev pub IsWhole : Readings → Type 0
IsWhole r = (k : Text) → r k ≢ panic

pub bind-whole :
    {A B : Type 0} (m : Result A) (f : A → Result B)
    → m ≢ panic
    → ((a : A) → f a ≢ panic)
    → (m >>= f) ≢ panic
bind-whole (ok a) f h k = k a
bind-whole (err e) f h k = λ p. cc
bind-whole panic f h k = absurd (h refl)

pub branch-whole :
    {A : Type 0} (t : Bool) (x y : Result A)
    → x ≢ panic
    → y ≢ panic
    → (elim t [ true ↦ x | false ↦ y ]) ≢ panic
branch-whole true x y h k = h
branch-whole false x y h k = k

pub open-whole :
    (locked : Table Text Bool) (r : Readings) (k : Text)
    → IsWhole r
    → open_balance locked r k ≢ panic
open-whole locked r k h = elim (Bool-cases (is_locked locked k)) [
  | inl shut ↦ rw shut (λ p. cc)
  | inr free ↦ rw free (h k)
]

pub taken-whole :
    (locked : Table Text Bool) (r : Readings) (ks : List Text) (ms : List ℕ)
    → IsWhole r
    → length ks ≡ length ms
    → taken locked r ks ms ≢ panic
unfolding taken
taken-whole locked r [] ms h n = λ p. cc
taken-whole locked r (k ∷ ks) [] h n = absurd (omega arith)
taken-whole locked r (k ∷ ks) (m ∷ ms) h n =
    bind-whole (open_balance locked r k) _ (open-whole locked r k h) (λ v.
      branch-whole (ltb v m) (err not_enough) _ (λ p. cc)
        (bind-whole (taken locked r ks ms) _ (taken-whole locked r ks ms h (omega arith))
          (λ vs p. cc)))

pub given-whole :
    (locked : Table Text Bool) (r : Readings) (ks : List Text) (ms : List ℕ)
    → IsWhole r
    → length ks ≡ length ms
    → given locked r ks ms ≢ panic
unfolding given
given-whole locked r [] ms h n = λ p. cc
given-whole locked r (k ∷ ks) [] h n = absurd (omega arith)
given-whole locked r (k ∷ ks) (m ∷ ms) h n =
    bind-whole (open_balance locked r k) _ (open-whole locked r k h) (λ v.
      bind-whole (given locked r ks ms) _ (given-whole locked r ks ms h (omega arith)) (λ vs p. cc))

pub moved-IsWhole :
    (r : Readings) (ks : List Text) (vs : List ℕ) → IsWhole r → IsWhole (moved r ks vs)
unfolding moved
moved-IsWhole r [] vs h = h
moved-IsWhole r (k ∷ ks) [] h = h
moved-IsWhole r (k ∷ ks) (v ∷ vs) h = moved-IsWhole (update r k v) ks vs (λ j.
    elim (Bool-cases (bytes_equal k j)) [
      | inl same ↦ rw same (λ p. cc)
      | inr other ↦ rw other (h j)
    ])

pub transfer-whole :
    (locked : Table Text Bool) (r : Readings) (tx : TransferTx)
    → IsWhole r
    → transfer locked r tx ≢ panic
unfolding transfer
transfer-whole locked r tx h = valid (validate_transfer_tx tx) refl
  where
    valid :
        (t : Option BankError)
        → t ≡ validate_transfer_tx tx
        → (elim t [
          | some e ↦ err e
          | none ↦ taken locked r tx.from tx.from_money >>= λ vs.
              given locked r tx.to tx.to_money >>= λ ws. ok (moved (moved r tx.from vs) tx.to ws)
        ])
          ≢ panic
    valid (some e) t = λ p. cc
    valid none t =
        let n = validated tx (sym t) in
        bind-whole (taken locked r tx.from tx.from_money) _
          (taken-whole locked r tx.from tx.from_money h n.0)
          (λ vs.
            bind-whole (given locked r tx.to tx.to_money) _
              (given-whole locked r tx.to tx.to_money h n.1) (λ ws p. cc))

pub after-IsWhole :
    (locked : Table Text Bool) (r : Readings) (tx : TransferTx)
    → IsWhole r
    → IsWhole (readings_after r (transfer locked r tx))
after-IsWhole locked r tx h = by_answer (transfer locked r tx) refl
  where
    by_answer : (s : Result Readings) → transfer locked r tx ≡ s → IsWhole (readings_after r s)
    by_answer (err e) same = h
    by_answer panic same = h
    by_answer (ok r') same =
        let t = transfer_inv locked r tx r' same in
        subst IsWhole t.left
          (moved-IsWhole _ tx.to t.credited (moved-IsWhole r tx.from t.debited h))
