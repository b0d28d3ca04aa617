-- ===== src/Base/Bytes.antt =====
-- Go's byte slices and strings as lists of numbers, and `bytes.Equal`.
use melete.Base.{
  ℕ, ◌≡◌, ◌≢◌, ◌↔◌, refl, ap, ◌∙◌, sym, Bool, true, false, List, [], ◌∷◌, ◌++◌, arith, ◌==◌,
  if◌then◌else◌, Bool-cases, inl, inr, length,
}

abbrev pub Bytes : Type 0
Bytes = List ℕ

-- A Go string is the sequence of its bytes.
abbrev pub Text : Type 0
Text = List ℕ

-- `bytes.Equal`: a nil slice equals an empty one, so both are the empty list here.
unfoldable pub bytes_equal : Bytes → Bytes → Bool
bytes_equal [] [] = true
bytes_equal [] (y ∷ ys) = false
bytes_equal (x ∷ xs) [] = false
bytes_equal (x ∷ xs) (y ∷ ys) = if x == y then bytes_equal xs ys else false

pub bytes_equal_refl : (a : Bytes) → bytes_equal a a ≡ true
unfolding bytes_equal
bytes_equal_refl [] = refl
bytes_equal_refl (x ∷ xs) = ground (arith, bytes_equal_refl xs)

pub bytes_equal→eq : (a b : Bytes) → bytes_equal a b ≡ true → a ≡ b
unfolding bytes_equal
bytes_equal→eq [] [] h = refl
bytes_equal→eq [] (y ∷ ys) h = cc
bytes_equal→eq (x ∷ xs) [] h = cc
bytes_equal→eq (x ∷ xs) (y ∷ ys) h = ground (arith, bytes_equal→eq xs ys)

pub bytes_equal_iff : (a b : Bytes) → (bytes_equal a b ≡ true) ↔ (a ≡ b)
bytes_equal_iff a b = (bytes_equal→eq a b, λ e. ap (bytes_equal a) (sym e) ∙ bytes_equal_refl a)

pub bytes_equal_ne : (a b : Bytes) → a ≢ b → bytes_equal a b ≡ false
bytes_equal_ne a b h = elim (Bool-cases (bytes_equal a b)) [
  | inl e ↦ absurd (h (bytes_equal→eq a b e))
  | inr e ↦ e
]

-- Two sums of words of one length on the left agree part by part.
pub append_injective {ℓ} :
    {A : Type ℓ} (a b c d : List A) → length a ≡ length c → a ++ b ≡ c ++ d → (a ≡ c) × (b ≡ d)
append_injective [] b [] d e h = (refl, h)
append_injective [] b (z ∷ c) d e h = absurd (omega arith)
append_injective (x ∷ a) b [] d e h = absurd (omega arith)
append_injective (x ∷ a) b (z ∷ c) d e h =
    let rest = append_injective a b c d (omega arith) (cc) in (cc, rest.1)
