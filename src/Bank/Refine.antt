-- ===== src/Bank/Refine.antt =====
-- A transfer on a database does what it does on plain readings of balances.
use mathlib.Core.Path.{subst}
use melete.Base.{
  ℕ, ◌≡◌, refl, ap, sym, ◌∙◌, List, [], ◌∷◌, Option, none, some, Bool, true, false, arith,
  Bool-cases, inl, inr, ltb, length,
}
use melete.Base.Bytes.{Text}
use melete.Base.Table.{Table}
use melete.Bank.{TransferTx, BankError, Result, ok, err, panic, validate_transfer_tx}
use melete.Bank.Memory.{Database, BankDb, below}
use melete.Bank.Execute.{is_locked, resume, checked_get, debits, credits, store_all, do_transfer}
use melete.Bank.View.{
  Readings, read, committed, base, is_plain, IsCoherent, Same, Same-refl, Same-trans, get_lem,
}
use melete.Bank.Update.{set_lem}
use melete.Bank.Readings.{
  ◌>>=◌, open_balance, taken, given, moved, transfer, Open, Open-update, taken-Open, given-Open,
  Open-moved,
}

module _ (d : Database) (locked : Table Text Bool) where
  -- A computation that changes no reading and answers `r`.
  abbrev Sim : {A : Type 0} → BankDb d → BankDb d × Result A → Result A → Type 0
  Sim b o r = Same d b o.0 × (o.1 ≡ r)

  Sim-resume :
      {A B : Type 0} (b : BankDb d) (o : BankDb d × Result A) (r : Result A)
      (f : A → BankDb d → BankDb d × Result B) (g : A → Result B)
      → Sim b o r
      → ((b' : BankDb d) (a : A) → Same d b b' → Sim b' (f a b') (g a))
      → Sim b (resume d o f) (r >>= g)
  Sim-resume {A} {B} b (b', ok a) r f g (s, e) k =
      subst (λ x. Sim b (f a b') (x >>= g)) e (Same-trans d s (k b' a s).0, (k b' a s).1)
  Sim-resume {A} {B} b (b', err x) r f g (s, e) k =
      subst (λ (x' : Result A). Sim {A = B} b (b', err x) (x' >>= g)) e (s, refl)
  Sim-resume {A} {B} b (b', panic) r f g (s, e) k =
      subst (λ (x' : Result A). Sim {A = B} b (b', panic) (x' >>= g)) e (s, refl)

  Sim-branch :
      {A : Type 0} (b : BankDb d) (t : Bool) (o o' : BankDb d × Result A) (r r' : Result A)
      → Sim b o r
      → Sim b o' r'
      → Sim b (elim t [ true ↦ o | false ↦ o' ]) (elim t [ true ↦ r | false ↦ r' ])
  Sim-branch b true o o' r r' s s' = s
  Sim-branch b false o o' r r' s s' = s'

  checked_get_lem :
      (k : Text) (b : BankDb d)
      → IsCoherent d (below d b)
      → Sim b (checked_get d locked k b) (open_balance locked (read d b) k)
  checked_get_lem k b c = elim (Bool-cases (is_locked locked k)) [
    | inl shut ↦ rw shut (Same-refl d b c, refl)
    | inr free ↦ rw free (get_lem d b k c)
  ]

  debits_lem :
      (ks : List Text) (ms : List ℕ) (b : BankDb d)
      → IsCoherent d (below d b)
      → Sim b (debits d locked ks ms b) (taken locked (read d b) ks ms)
  unfolding debits taken
  debits_lem [] ms b c = (Same-refl d b c, refl)
  debits_lem (k ∷ ks) [] b c =
      Sim-resume b (checked_get d locked k b) _ _ _ (checked_get_lem k b c)
        (λ b' v s. (Same-refl d b' s.coherent, refl))
  debits_lem (k ∷ ks) (m ∷ ms) b c =
      Sim-resume b (checked_get d locked k b) _ _ _ (checked_get_lem k b c) (λ b' v s.
        Sim-branch b' (ltb v m) _ _ _ _ (Same-refl d b' s.coherent, refl)
          (Sim-resume b' (debits d locked ks ms b') _ _ _
            (subst (λ r. Sim b' (debits d locked ks ms b') (taken locked r ks ms)) s.reads
              (debits_lem ks ms b' s.coherent))
            (λ b'' vs s'. (Same-refl d b'' s'.coherent, refl))))

  credits_lem :
      (ks : List Text) (ms : List ℕ) (b : BankDb d)
      → IsCoherent d (below d b)
      → Sim b (credits d locked ks ms b) (given locked (read d b) ks ms)
  unfolding credits given
  credits_lem [] ms b c = (Same-refl d b c, refl)
  credits_lem (k ∷ ks) [] b c =
      Sim-resume b (checked_get d locked k b) _ _ _ (checked_get_lem k b c)
        (λ b' v s. (Same-refl d b' s.coherent, refl))
  credits_lem (k ∷ ks) (m ∷ ms) b c =
      Sim-resume b (checked_get d locked k b) _ _ _ (checked_get_lem k b c) (λ b' v s.
        Sim-resume b' (credits d locked ks ms b') _ _ _
          (subst (λ r. Sim b' (credits d locked ks ms b') (given locked r ks ms)) s.reads
            (credits_lem ks ms b' s.coherent))
          (λ b'' vs s'. (Same-refl d b'' s'.coherent, refl)))

  -- Balances are written at accounts that are open.
  store_all_lem :
      (ks : List Text) (vs : List ℕ) (b : BankDb d)
      → IsCoherent d (below d b)
      → Open locked (read d b) ks
      → length vs ≡ length ks
      → (b' : BankDb d) × (store_all d locked ks vs b ≡ (b', ok tt))
        × (read d b' ≡ moved (read d b) ks vs)
        × (committed d (below d b') ≡ committed d (below d b))
        × (base d b' ≡ base d b)
        × (is_plain d b' ≡ is_plain d b)
        × IsCoherent d (below d b')
  unfolding store_all moved
  store_all_lem [] vs b c o n = (b, refl, refl, refl, refl, refl, c)
  store_all_lem (k ∷ ks) [] b c o n = absurd (omega arith)
  store_all_lem (k ∷ ks) (v ∷ vs) b c ((free, w, reads), o) n =
      let (b1, e1, r1, h1, s1, p1, c1) = set_lem d b k v w c reads in
      let o1 = subst (λ r. Open locked r ks) (sym r1) (Open-update locked (read d b) k v ks o) in
      let (b2, e2, r2, h2, s2, p2, c2) = store_all_lem ks vs b1 c1 o1 (omega arith) in
      (b2, rw (free, e1) e2, r2 ∙ ap (λ r. moved r ks vs) r1, h2 ∙ h1, s2 ∙ s1, p2 ∙ p1, c2)

-- What a computation on readings leaves, and what it answers.
abbrev pub readings_after : Readings → Result Readings → Readings
readings_after r (ok s) = s
readings_after r (err e) = r
readings_after r panic = r

abbrev pub answer : Result Readings → Result (Unit {0})
answer (ok s) = ok tt
answer (err e) = err e
answer panic = panic

module _ (d : Database) (locked : Table Text Bool) where
  -- A database that is left by a computation, against the computation on readings: what is read, the
  -- answer, and what is committed, which does not change.
  pub record Refines (b : BankDb d) (o : BankDb d × Result (Unit {0})) (s : Result Readings)
      : Type 0 where
    pub reads : read d o.0 ≡ readings_after (read d b) s
    pub answers : o.1 ≡ answer s
    pub holds : committed d (below d o.0) ≡ committed d (below d b)
    pub bases : base d o.0 ≡ base d b
    pub plain : is_plain d o.0 ≡ is_plain d b
    pub coherent : IsCoherent d (below d o.0)

  Refines-branch :
      (b : BankDb d) (t : Option BankError) (o : BankDb d × Result (Unit {0})) (s : Result Readings)
      → IsCoherent d (below d b)
      → Refines b o s
      → Refines b (elim t [ some e ↦ (b, err e) | none ↦ o ]) (elim t [ some e ↦ err e | none ↦ s ])
  Refines-branch b (some e) o s c r = record {
    reads = refl;
    answers = refl;
    holds = refl;
    bases = refl;
    plain = refl;
    coherent = c;
  }
  Refines-branch b none o s c r = r

  Refines-resume :
      {A : Type 0} (b : BankDb d) (o : BankDb d × Result A) (r : Result A)
      (f : A → BankDb d → BankDb d × Result (Unit {0})) (g : A → Result Readings)
      → Sim d locked b o r
      → ((b' : BankDb d) (a : A) → Same d b b' → r ≡ ok a → Refines b' (f a b') (g a))
      → Refines b (resume d o f) (r >>= g)
  Refines-resume {A} b (b', ok a) r f g (s, e) k =
      let t = k b' a s (sym e) in
      subst (λ x. Refines b (f a b') (x >>= g)) e
        (record {
          reads = t.reads ∙ ap (λ x. readings_after x (g a)) s.reads;
          answers = t.answers;
          holds = t.holds ∙ s.holds;
          bases = t.bases ∙ s.bases;
          plain = t.plain ∙ s.plain;
          coherent = t.coherent;
        })
  Refines-resume {A} b (b', err x) r f g (s, e) k =
      subst (λ (x' : Result A). Refines b (b', err x) (x' >>= g)) e
        (record {
          reads = s.reads;
          answers = refl;
          holds = s.holds;
          bases = s.bases;
          plain = s.plain;
          coherent = s.coherent;
        })
  Refines-resume {A} b (b', panic) r f g (s, e) k =
      subst (λ (x' : Result A). Refines b (b', panic) (x' >>= g)) e
        (record {
          reads = s.reads;
          answers = refl;
          holds = s.holds;
          bases = s.bases;
          plain = s.plain;
          coherent = s.coherent;
        })

  -- Both lists of balances are written.
  written :
      (tx : TransferTx) (vs ws : List ℕ) (b b2 : BankDb d)
      → taken locked (read d b) tx.from tx.from_money ≡ ok vs
      → given locked (read d b) tx.to tx.to_money ≡ ok ws
      → read d b2 ≡ read d b
      → IsCoherent d (below d b2)
      → Refines b2
          (resume d (store_all d locked tx.from vs b2) (λ u b3. store_all d locked tx.to ws b3))
          (ok (moved (moved (read d b) tx.from vs) tx.to ws))
  written tx vs ws b b2 paid got same c =
      let (o1, n1) = taken-Open locked (read d b) tx.from tx.from_money vs paid in
      let (o2, n2) = given-Open locked (read d b) tx.to tx.to_money ws got in
      let first = subst (λ r. Open locked r tx.from) (sym same) o1 in
      let (b3, e3, r3, h3, s3, p3, c3) = store_all_lem d locked tx.from vs b2 c first n1 in
      let r3' = r3 ∙ ap (λ r. moved r tx.from vs) same in
      let second =
        subst (λ r. Open locked r tx.to) (sym r3')
          (Open-moved locked (read d b) tx.to tx.from vs o2) in
      let (b4, e4, r4, h4, s4, p4, c4) = store_all_lem d locked tx.to ws b3 c3 second n2 in
      rw (e3, e4)
        (record {
          reads = r4 ∙ ap (λ r. moved r tx.to ws) r3';
          answers = refl;
          holds = h4 ∙ h3;
          bases = s4 ∙ s3;
          plain = p4 ∙ p3;
          coherent = c4;
        })

  -- `doTransfer` on any of the three databases does to what is read there what a transfer on
  -- readings does, with the same answer; an error leaves what is read as it was, and what is
  -- committed never changes. The read buffer agrees with what is committed.
  pub do_transfer-Refines :
      (tx : TransferTx) (b : BankDb d)
      → IsCoherent d (below d b)
      → Refines b (do_transfer d locked tx b) (transfer locked (read d b) tx)
  unfolding do_transfer transfer
  do_transfer-Refines tx b c = Refines-branch b (validate_transfer_tx tx) _ _ c (
      Refines-resume b (debits d locked tx.from tx.from_money b) _ _ _
        (debits_lem d locked tx.from tx.from_money b c)
        (λ b1 vs s paid.
          Refines-resume b1 (credits d locked tx.to tx.to_money b1) _ _ _
            (subst
              (λ r.
                Sim d locked b1 (credits d locked tx.to tx.to_money b1)
                  (given locked r tx.to tx.to_money))
              s.reads (credits_lem d locked tx.to tx.to_money b1 s.coherent))
            (λ b2 ws s' got. written tx vs ws b b2 paid got (s'.reads ∙ s.reads) s'.coherent)))
