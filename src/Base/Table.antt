-- ===== src/Base/Table.antt =====
-- Go's maps as association lists, over keys with a Boolean equality.
use melete.Base.{
  ℕ, ◌≡◌, ◌≢◌, ◌↔◌, refl, ap, sym, ◌∙◌, Bool-cases, inl, inr, Bool, true, Option, none, some, List,
  [], ◌∷◌, arith, ◌==◌, ==_iff, if◌then◌else◌,
}
use melete.Base.Int.{ℤ, eq_ℤ, eq_ℤ_iff}
use melete.Base.Bytes.{Bytes, bytes_equal, bytes_equal_iff}

pub record Eq {ℓ} (A : Type ℓ) : Type ℓ where
  pub beq : A → A → Bool
  pub beq_iff : (a b : A) → (beq a b ≡ true) ↔ (a ≡ b)

instance abbrev pub nat_eq : Eq ℕ
nat_eq = record { beq = ◌==◌; beq_iff = ==_iff }

instance abbrev pub bytes_eq : Eq Bytes
bytes_eq = record { beq = bytes_equal; beq_iff = bytes_equal_iff }

instance abbrev pub int_eq : Eq ℤ
int_eq = record { beq = eq_ℤ; beq_iff = eq_ℤ_iff }

abbrev pub Table : Type 0 → Type 0 → Type 0
Table K V = List (K × V)

module _ {K V : Type 0} ⦃e : Eq K⦄ where
  unfoldable pub lookup : K → Table K V → Option V
  lookup k [] = none
  lookup k ((j, v) ∷ m) = if e.beq j k then some v else lookup k m

  -- `m[k] = v`
  unfoldable pub insert : K → V → Table K V → Table K V
  insert k v [] = (k, v) ∷ []
  insert k v ((j, w) ∷ m) = if e.beq j k then (k, v) ∷ m else (j, w) ∷ insert k v m

  -- `delete(m, k)`
  unfoldable pub delete : K → Table K V → Table K V
  delete k [] = []
  delete k ((j, w) ∷ m) = if e.beq j k then delete k m else (j, w) ∷ delete k m

  pub lookup-insert :
      (k j : K) (v : V) (m : Table K V)
      → lookup j (insert k v m) ≡ (if e.beq k j then some v else lookup j m)
  unfolding lookup insert
  lookup-insert k j v [] = refl
  lookup-insert k j v ((i, w) ∷ m) =
      ground (arith, e.beq_iff k j, e.beq_iff i k, e.beq_iff i j, lookup-insert k j v m)

  pub lookup-delete :
      (k j : K) (m : Table K V) → lookup j (delete k m) ≡ (if e.beq k j then none else lookup j m)
  unfolding lookup delete
  lookup-delete k j [] = ground arith
  lookup-delete k j ((i, w) ∷ m) =
      ground (arith, e.beq_iff k j, e.beq_iff i k, e.beq_iff i j, lookup-delete k j m)

  pub lookup-insert_self : (k : K) (v : V) (m : Table K V) → lookup k (insert k v m) ≡ some v
  lookup-insert_self k v m = ground (arith, lookup-insert k k v m, e.beq_iff k k)

  pub lookup-insert_ne :
      (k j : K) (v : V) (m : Table K V) → k ≢ j → lookup j (insert k v m) ≡ lookup j m
  lookup-insert_ne k j v m ne = ground (arith, lookup-insert k j v m, e.beq_iff k j)

  -- Every key stands once, as in a table that `insert` made.
  abbrev pub IsTable : Table K V → Type 0
  IsTable [] = Unit {0}
  IsTable ((k, v) ∷ m) = (lookup k m ≡ none) × IsTable m

  pub insert-IsTable : (k : K) (v : V) (m : Table K V) → IsTable m → IsTable (insert k v m)
  unfolding insert lookup
  insert-IsTable k v [] t = (refl, tt)
  insert-IsTable k v ((j, w) ∷ m) t = elim (Bool-cases (e.beq j k)) [
    | inl same ↦ rw same (ap (λ x. lookup x m) (sym ((e.beq_iff j k).0 same)) ∙ t.0, t.1)
    | inr other ↦ rw other (
      lookup-insert k j v m ∙ ground (arith, e.beq_iff k j, e.beq_iff j k),
      insert-IsTable k v m t.1,
    )
  ]
