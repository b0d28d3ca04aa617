-- ===== src/Accepts/Count.antt =====
-- Counting the power behind a key when each validator chose one key at most.
use melete.Base.{
  ℕ, zero, suc, ◌+◌, ◌≤◌, ◌<◌, ◌≡◌, ◌≢◌, refl, ap, ◌∙◌, List, [], ◌∷◌, Option, none, some, Bool,
  false, arith, if◌then◌else◌, ◌==◌, get_elem?, sym,
}
use melete.Base.Bytes.{Bytes, bytes_equal, bytes_equal_refl, bytes_equal_ne, bytes_equal→eq}

abbrev pub sum : List ℕ → ℕ
sum [] = 0
sum (v ∷ vs) = v + sum vs

-- Which key a validator voted for.
abbrev pub Choice : Type 0
Choice = ℕ → Option Bytes

abbrev pub chose : Option Bytes → Bytes → Bool
chose none k = false
chose (some j) k = bytes_equal j k

-- The votes `vs` of the validators from `i` on that chose `k`.
abbrev pub weigh : Bytes → Choice → ℕ → List ℕ → ℕ
weigh k f i [] = 0
weigh k f i (v ∷ vs) = (if chose (f i) k then v else 0) + weigh k f (suc i) vs

abbrev pub mark : Choice → ℕ → Bytes → Choice
mark f n k i = if n == i then some k else f i

chose_one :
    (o : Option Bytes) (k l : Bytes) (v : ℕ)
    → k ≢ l
    → (if chose o k then v else 0) + (if chose o l then v else 0) ≤ v
chose_one none k l v ne = omega arith
chose_one (some j) k l v ne = ground (arith, bytes_equal→eq j k, bytes_equal→eq j l)

-- The powers behind two different keys are not more than there is.
pub weigh_disjoint :
    (k l : Bytes) (f : Choice) (i : ℕ) (vs : List ℕ)
    → k ≢ l
    → weigh k f i vs + weigh l f i vs ≤ sum vs
weigh_disjoint k l f i [] ne = omega arith
weigh_disjoint k l f i (v ∷ vs) ne =
    omega (arith, chose_one (f i) k l v ne, weigh_disjoint k l f (suc i) vs ne)

pub weigh_le : (k : Bytes) (f : Choice) (i : ℕ) (vs : List ℕ) → weigh k f i vs ≤ sum vs
weigh_le k f i [] = omega arith
weigh_le k f i (v ∷ vs) = ground (arith, weigh_le k f (suc i) vs)

pub weigh-none : (k : Bytes) (i : ℕ) (vs : List ℕ) → weigh k (λ j. none) i vs ≡ 0
weigh-none k i [] = refl
weigh-none k i (v ∷ vs) = omega (arith, weigh-none k (suc i) vs)

-- Marking a validator before the ones that are counted changes nothing.
weigh_past :
    (k l : Bytes) (f : Choice) (n i : ℕ) (vs : List ℕ)
    → n < i
    → weigh l (mark f n k) i vs ≡ weigh l f i vs
weigh_past k l f n i [] lt = refl
weigh_past k l f n i (v ∷ vs) lt =
    let rest = weigh_past k l f n (suc i) vs (omega arith) in ground (arith, rest)

-- A validator that had chosen nothing adds its power to the key it chooses.
pub weigh-mark :
    (k : Bytes) (f : Choice) (i m v : ℕ) (vs : List ℕ)
    → f (i + m) ≡ none
    → get_elem? vs m ≡ some v
    → weigh k (mark f (i + m) k) i vs ≡ weigh k f i vs + v
weigh-mark k f i m v [] free e = absurd (cc)
weigh-mark k f i zero v (w ∷ vs) free e =
    let same : i + 0 ≡ i = omega arith in
    let here : f i ≡ none = ap f (sym same) ∙ free in
    let past = weigh_past k k f (i + 0) (suc i) vs (omega arith) in
    let self = bytes_equal_refl k in ground arith
weigh-mark k f i (suc m) v (w ∷ vs) free e =
    let same : i + suc m ≡ suc i + m = omega arith in
    let rest = weigh-mark k f (suc i) m v vs (ap f (sym same) ∙ free) e in
    let moved = ap (λ n. weigh k (mark f n k) (suc i) vs) same in ground arith

-- It adds nothing to another key.
pub weigh-mark_other :
    (k l : Bytes) (f : Choice) (n i : ℕ) (vs : List ℕ)
    → k ≢ l
    → f n ≡ none
    → weigh l (mark f n k) i vs ≡ weigh l f i vs
weigh-mark_other k l f n i [] ne free = refl
weigh-mark_other k l f n i (v ∷ vs) ne free =
    let rest = weigh-mark_other k l f n (suc i) vs ne free in
    let other = bytes_equal_ne k l ne in
    let at : (n ≡ i) → f i ≡ none = λ e. ap f (sym e) ∙ free in ground arith
