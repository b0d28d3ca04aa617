-- ===== src/Base/Outcome.antt =====
-- What a Go call may do: return a value, or panic.
use mathlib.Core.Path.{subst}
use melete.Base.{◌≡◌, refl, Option, none, some, Bool, true, false, if◌then◌else◌}

pub data Outcome {ℓ} (A : Type ℓ) : Type ℓ where
  done : A → Outcome A
  panic : Outcome A

infixl 5 ◌>>=◌
abbrev pub ◌>>=◌ {ℓ κ} : {A : Type ℓ} {B : Type κ} → Outcome A → (A → Outcome B) → Outcome B
done a >>= f = f a
panic >>= f = panic

-- An index out of range, or a nil map entry that is read through.
abbrev pub or_panic {ℓ} : {A : Type ℓ} → Option A → Outcome A
or_panic none = panic
or_panic (some a) = done a

-- A chain that returns has a first call that returns.
pub bind_inv {ℓ κ} :
    {A : Type ℓ} {B : Type κ} (o : Outcome A) (f : A → Outcome B) (y : B)
    → (o >>= f) ≡ done y
    → (x : A) × (o ≡ done x) × (f x ≡ done y)
bind_inv (done x) f y e = (x, refl, e)
bind_inv panic f y e = absurd (cc)

pub or_panic_inv {ℓ} : {A : Type ℓ} (o : Option A) (x : A) → or_panic o ≡ done x → o ≡ some x
or_panic_inv none x e = absurd (cc)
or_panic_inv (some y) x e = cc

pub done-injective {ℓ} : {A : Type ℓ} {x y : A} → Outcome.done x ≡ done y → x ≡ y
done-injective e = cc

-- What a call returns satisfies a predicate, if it returns.
pub data Holds {A : Type 0} (P : A → Type 0) : Outcome A → Type 0 where
  returns : {a : A} → P a → Holds P (done a)
  stops : Holds P panic

-- From here on with a first call of which nothing is known, or what is known of it.
pub Holds-any :
    {A B : Type 0} {Q : B → Type 0} (o : Outcome A) {k : A → Outcome B}
    → ((a : A) → Holds Q (k a))
    → Holds Q (o >>= k)
Holds-any (done a) g = g a
Holds-any panic g = stops

pub Holds-bind :
    {A B : Type 0} {P : A → Type 0} {Q : B → Type 0} {o : Outcome A} {k : A → Outcome B}
    → Holds P o
    → ((a : A) → P a → Holds Q (k a))
    → Holds Q (o >>= k)
Holds-bind (returns {a} h) g = g a h
Holds-bind stops g = stops

pub Holds-if :
    {A : Type 0} {P : A → Type 0} (c : Bool) {o p : Outcome A}
    → Holds P o
    → Holds P p
    → Holds P (if c then o else p)
Holds-if true h g = h
Holds-if false h g = g

pub Holds-option :
    {A B : Type 0} {P : B → Type 0} (m : Option A) {o : Outcome B} {k : A → Outcome B}
    → Holds P o
    → ((a : A) → Holds P (k a))
    → Holds P (elim m [ none ↦ o | some a ↦ k a ])
Holds-option none h g = h
Holds-option (some a) h g = g a

pub Holds-weaken :
    {A : Type 0} {P Q : A → Type 0} {o : Outcome A} → Holds P o → ((a : A) → P a → Q a) → Holds Q o
Holds-weaken (returns {a} h) g = returns (g a h)
Holds-weaken stops g = stops

-- A test whose answer is of use.
pub Holds-split :
    {A : Type 0} {P : A → Type 0} (c : Bool) {o p : Outcome A}
    → (c ≡ true → Holds P o)
    → Holds P p
    → Holds P (if c then o else p)
Holds-split true h g = h refl
Holds-split false h g = g

-- What holds of a call that returned.
pub Holds-done :
    {A : Type 0} {P : A → Type 0} {o : Outcome A} {a : A} → o ≡ done a → Holds P o → P a
Holds-done {P = P} e (returns h) = subst P (done-injective e) h
Holds-done e stops = absurd (cc)
