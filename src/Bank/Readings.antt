-- ===== src/Bank/Readings.antt =====
-- Transfers on plain readings of balances: what doTransfer is to do.
use melete.Base.{
  ℕ, suc, ◌+◌, ◌-◌, ◌%◌, ◌≤◌, ◌≡◌, refl, ap, ◌∙◌, List, [], ◌∷◌, none, some, Bool, true, false,
  arith, if◌then◌else◌, Bool-cases, inl, inr, ltb, length,
}
use melete.Base.Bytes.{Text, bytes_equal}
use melete.Base.Table.{Table}
use melete.Bank.{
  uint32_mod, TransferTx, key_locked, not_enough, Result, ok, err, panic, validate_transfer_tx,
}
use melete.Bank.Execute.{is_locked}
use melete.Bank.View.{Readings, update}

infixl 5 ◌>>=◌
abbrev pub ◌>>=◌ : {A B : Type 0} → Result A → (A → Result B) → Result B
ok a >>= f = f a
err e >>= f = err e
panic >>= f = panic

-- The balance of an account that is not locked.
abbrev pub open_balance : Table Text Bool → Readings → Text → Result ℕ
open_balance locked r k = if is_locked locked k then err key_locked else r k

-- The balances after amounts are taken from accounts that can pay them.
unfoldable pub taken : Table Text Bool → Readings → List Text → List ℕ → Result (List ℕ)
taken locked r [] ms = ok []
taken locked r (k ∷ ks) [] = open_balance locked r k >>= λ v. panic
taken locked r (k ∷ ks) (m ∷ ms) = open_balance locked r k >>= λ v. elim (ltb v m) [
  | true ↦ err not_enough
  | false ↦ taken locked r ks ms >>= λ vs. ok ((v - m) ∷ vs)
]

-- The balances after amounts are given to accounts, modulo 2^32.
unfoldable pub given : Table Text Bool → Readings → List Text → List ℕ → Result (List ℕ)
given locked r [] ms = ok []
given locked r (k ∷ ks) [] = open_balance locked r k >>= λ v. panic
given locked r (k ∷ ks) (m ∷ ms) =
    open_balance locked r k >>= λ v. given locked r ks ms >>= λ vs. ok ((v + m) % uint32_mod ∷ vs)

-- The readings with new balances at some accounts, the last one for an account in force.
unfoldable pub moved : Readings → List Text → List ℕ → Readings
moved r [] vs = r
moved r (k ∷ ks) [] = r
moved r (k ∷ ks) (v ∷ vs) = moved (update r k v) ks vs

-- A transfer on readings: the new readings, or the first error.
unfoldable pub transfer : Table Text Bool → Readings → TransferTx → Result Readings
unfolding taken given moved
transfer locked r tx = elim (validate_transfer_tx tx) [
  | some e ↦ err e
  | none ↦ taken locked r tx.from tx.from_money >>= λ vs.
      given locked r tx.to tx.to_money >>= λ ws. ok (moved (moved r tx.from vs) tx.to ws)
]

pub bind_inv :
    {A B : Type 0} (m : Result A) (f : A → Result B) (y : B)
    → (m >>= f) ≡ ok y
    → (x : A) × (m ≡ ok x) × (f x ≡ ok y)
bind_inv (ok x) f y e = (x, refl, e)
bind_inv (err x) f y e = absurd (cc)
bind_inv panic f y e = absurd (cc)

pub open_balance_inv :
    (locked : Table Text Bool) (r : Readings) (k : Text) (v : ℕ)
    → open_balance locked r k ≡ ok v
    → (is_locked locked k ≡ false) × (r k ≡ ok v)
open_balance_inv locked r k v e = elim (Bool-cases (is_locked locked k)) [
  | inl shut ↦ absurd (ground arith)
  | inr free ↦ (free, ground arith)
]

-- A first account that can pay, and those behind it.
pub taken_inv :
    (locked : Table Text Bool) (r : Readings) (k : Text) (ks : List Text) (m : ℕ) (ms vs : List ℕ)
    → taken locked r (k ∷ ks) (m ∷ ms) ≡ ok vs
    → (v : ℕ) × (ws : List ℕ) × (is_locked locked k ≡ false)
      × (r k ≡ ok v)
      × (m ≤ v)
      × (taken locked r ks ms ≡ ok ws)
      × (vs ≡ (v - m) ∷ ws)
unfolding taken
taken_inv locked r k ks m ms vs e =
    let (v, got, rest) = bind_inv (open_balance locked r k) _ vs e in
    let (free, reads) = open_balance_inv locked r k v got in paid v free reads (ltb v m) refl rest
  where
    paid :
        (v : ℕ)
        → is_locked locked k ≡ false
        → r k ≡ ok v
        → (t : Bool) → t ≡ ltb v m
        → (elim t [
          | true ↦ err not_enough
          | false ↦ taken locked r ks ms >>= λ ws. ok ((v - m) ∷ ws)
        ])
          ≡ ok vs
        → (v : ℕ) × (ws : List ℕ) × (is_locked locked k ≡ false)
          × (r k ≡ ok v)
          × (m ≤ v)
          × (taken locked r ks ms ≡ ok ws)
          × (vs ≡ (v - m) ∷ ws)
    paid v free reads true t e = absurd (cc)
    paid v free reads false t e =
        let (ws, got, same) = bind_inv (taken locked r ks ms) _ vs e in
        (v, ws, free, reads, ground arith, got, cc)

-- A first account that can be read, and those behind it.
pub given_inv :
    (locked : Table Text Bool) (r : Readings) (k : Text) (ks : List Text) (m : ℕ) (ms vs : List ℕ)
    → given locked r (k ∷ ks) (m ∷ ms) ≡ ok vs
    → (v : ℕ) × (ws : List ℕ) × (is_locked locked k ≡ false)
      × (r k ≡ ok v)
      × (given locked r ks ms ≡ ok ws)
      × (vs ≡ (v + m) % uint32_mod ∷ ws)
unfolding given
given_inv locked r k ks m ms vs e =
    let (v, got, rest) = bind_inv (open_balance locked r k) _ vs e in
    let (free, reads) = open_balance_inv locked r k v got in
    let (ws, others, same) = bind_inv (given locked r ks ms) _ vs rest in
    (v, ws, free, reads, others, cc)

pub no_amounts :
    (locked : Table Text Bool) (r : Readings) (k : Text) (vs : List ℕ)
    → (open_balance locked r k >>= λ v. panic) ≡ ok vs
    → ⊥
no_amounts locked r k vs e =
    let (v, got, rest) = bind_inv (open_balance locked r k) (λ v. panic) vs e in cc

module _ (locked : Table Text Bool) where
  -- Accounts that are not locked and whose balance can be read.
  abbrev pub Open : Readings → List Text → Type 0
  Open r [] = Unit {0}
  Open r (k ∷ ks) = ((is_locked locked k ≡ false) × (w : ℕ) × (r k ≡ ok w)) × Open r ks

  pub Open-update :
      (r : Readings) (k : Text) (v : ℕ) (ks : List Text) → Open r ks → Open (update r k v) ks
  Open-update r k v [] o = tt
  Open-update r k v (j ∷ ks) ((free, w, e), o) = elim (Bool-cases (bytes_equal k j)) [
    | inl same ↦ ((free, v, rw same), Open-update r k v ks o)
    | inr other ↦ ((free, w, rw other e), Open-update r k v ks o)
  ]

  pub taken-Open :
      (r : Readings) (ks : List Text) (ms vs : List ℕ)
      → taken locked r ks ms ≡ ok vs
      → Open r ks × (length vs ≡ length ks)
  taken-Open r [] ms vs e = (tt, unfold taken in ground arith)
  taken-Open r (k ∷ ks) [] vs e = absurd (unfold taken in no_amounts locked r k vs e)
  taken-Open r (k ∷ ks) (m ∷ ms) vs e =
      let (v, ws, free, reads, fits, rest, same) = taken_inv locked r k ks m ms vs e in
      let (o, n) = taken-Open r ks ms ws rest in (((free, v, reads), o), ap length same ∙ ap suc n)

  pub given-Open :
      (r : Readings) (ks : List Text) (ms vs : List ℕ)
      → given locked r ks ms ≡ ok vs
      → Open r ks × (length vs ≡ length ks)
  given-Open r [] ms vs e = (tt, unfold given in ground arith)
  given-Open r (k ∷ ks) [] vs e = absurd (unfold given in no_amounts locked r k vs e)
  given-Open r (k ∷ ks) (m ∷ ms) vs e =
      let (v, ws, free, reads, rest, same) = given_inv locked r k ks m ms vs e in
      let (o, n) = given-Open r ks ms ws rest in (((free, v, reads), o), ap length same ∙ ap suc n)

  pub Open-moved :
      (r : Readings) (ks js : List Text) (vs : List ℕ) → Open r ks → Open (moved r js vs) ks
  unfolding moved
  Open-moved r ks [] vs o = o
  Open-moved r ks (j ∷ js) [] o = o
  Open-moved r ks (j ∷ js) (v ∷ vs) o = Open-moved (update r j v) ks js vs (Open-update r j v ks o)
