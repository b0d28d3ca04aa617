-- ===== src/Base/TextOrder.antt =====
-- Go's `<` on strings: the lexicographic order of their bytes, with `u <= v` as not `v < u`.
use melete.Base.{
  ◌≡◌, refl, ap, Bool, true, false, not, [], ◌∷◌, arith, ltb, ◌==◌, if◌then◌else◌, Bool-cases, inl,
  inr,
}
use melete.Base.Bytes.{Text}

unfoldable pub lt_text : Text → Text → Bool
lt_text a [] = false
lt_text [] (y ∷ ys) = true
lt_text (x ∷ xs) (y ∷ ys) = if x == y then lt_text xs ys else ltb x y

-- `u <= v`
abbrev pub le_text : Text → Text → Bool
le_text u v = not (lt_text v u)

pub lt_text_irrefl : (a : Text) → lt_text a a ≡ false
unfolding lt_text
lt_text_irrefl [] = refl
lt_text_irrefl (x ∷ xs) = ground (arith, lt_text_irrefl xs)

pub lt_text_trans : (a b c : Text) → lt_text a b ≡ true → lt_text b c ≡ true → lt_text a c ≡ true
unfolding lt_text
lt_text_trans a [] c p q = absurd (cc)
lt_text_trans a (y ∷ ys) [] p q = absurd (cc)
lt_text_trans [] (y ∷ ys) (z ∷ zs) p q = refl
lt_text_trans (x ∷ xs) (y ∷ ys) (z ∷ zs) p q = ground (arith, lt_text_trans xs ys zs)

-- Texts of which neither is below the other are equal.
pub lt_text_connected : (a b : Text) → lt_text a b ≡ false → lt_text b a ≡ false → a ≡ b
unfolding lt_text
lt_text_connected [] [] p q = refl
lt_text_connected [] (y ∷ ys) p q = absurd (cc)
lt_text_connected (x ∷ xs) [] p q = absurd (cc)
lt_text_connected (x ∷ xs) (y ∷ ys) p q = ground (arith, lt_text_connected xs ys)

pub le_text_refl : (a : Text) → le_text a a ≡ true
le_text_refl a = rw (lt_text_irrefl a)

-- Below a text, below any text that it does not exceed.
pub lt_text-le_text : (p a b : Text) → le_text a b ≡ true → lt_text p a ≡ true → lt_text p b ≡ true
lt_text-le_text p a b h q = elim (Bool-cases (lt_text p b)) [
  | inl e ↦ e
  | inr e ↦ elim (Bool-cases (lt_text b p)) [
    | inl f ↦ ground (arith, lt_text_trans b p a f q)
    | inr f ↦ let same = lt_text_connected p b e f in ground (arith, ap (λ t. lt_text t a) same)
  ]
]

pub le_text_trans : (a b c : Text) → le_text a b ≡ true → le_text b c ≡ true → le_text a c ≡ true
le_text_trans a b c h k = ground (arith, lt_text-le_text c a b)

pub le_text_total : (a b : Text) → le_text a b ≡ false → le_text b a ≡ true
le_text_total a b h = ground (arith, lt_text_trans a b a, lt_text_irrefl a)
