-- ===== src/PartSet/Slots.antt =====
-- The slots of a part set against the pieces that they are for.
use melete.Base.{
  ℕ, zero, suc, ◌≤◌, ◌<◌, ◌≡◌, refl, ap, ◌∙◌, List, [], ◌∷◌, ◌++◌, Option, none, some, arith,
  length, get_elem?, set, get_elem?-set_ne,
}
use melete.Base.Bytes.{Bytes}
use melete.Base.Outcome.{done}
use melete.PartSet.{Part, put, join_parts}
use melete.Base.{lt→ltb}
use melete.Base.Int.{ℤ, pos}
use melete.PartSet.Split.{concat}

-- The slots against the pieces: as many, and each part that is there has its piece's bytes.
abbrev pub Matches : List (Option Part) → List Bytes → Type 0
Matches [] [] = Unit {0}
Matches [] (x ∷ xs) = ⊥
Matches (s ∷ ps) [] = ⊥
Matches (none ∷ ps) (x ∷ xs) = Matches ps xs
Matches (some p ∷ ps) (x ∷ xs) = (p.bytes ≡ x) × Matches ps xs

abbrev pub filled : List (Option Part) → ℕ
filled [] = 0
filled (none ∷ ps) = filled ps
filled (some p ∷ ps) = suc (filled ps)

pub Matches-length :
    (ps : List (Option Part)) (xs : List Bytes) → Matches ps xs → length ps ≡ length xs
Matches-length [] [] m = refl
Matches-length [] (x ∷ xs) m = absurd m
Matches-length (s ∷ ps) [] m = absurd m
Matches-length (none ∷ ps) (x ∷ xs) m = ap suc (Matches-length ps xs m)
Matches-length (some p ∷ ps) (x ∷ xs) m = ap suc (Matches-length ps xs m.1)

pub set-Matches :
    (ps : List (Option Part)) (xs : List Bytes) (i : ℕ) (p : Part)
    → Matches ps xs
    → get_elem? xs i ≡ some p.bytes
    → Matches (set ps i (some p)) xs
set-Matches [] [] i p m e = tt
set-Matches [] (x ∷ xs) i p m e = absurd m
set-Matches (s ∷ ps) [] i p m e = absurd m
set-Matches (none ∷ ps) (x ∷ xs) zero p m e = (cc, m)
set-Matches (none ∷ ps) (x ∷ xs) (suc i) p m e = set-Matches ps xs i p m e
set-Matches (some q ∷ ps) (x ∷ xs) zero p m e = (cc, m.1)
set-Matches (some q ∷ ps) (x ∷ xs) (suc i) p m e = (m.0, set-Matches ps xs i p m.1 e)

pub filled-set :
    (ps : List (Option Part)) (i : ℕ) (p : Part)
    → get_elem? ps i ≡ some none
    → filled (set ps i (some p)) ≡ suc (filled ps)
filled-set [] i p e = absurd (cc)
filled-set (none ∷ ps) zero p e = refl
filled-set (some q ∷ ps) zero p e = absurd (cc)
filled-set (none ∷ ps) (suc i) p e = filled-set ps i p e
filled-set (some q ∷ ps) (suc i) p e = ap suc (filled-set ps i p e)

pub join_parts_full :
    (ps : List (Option Part)) (xs : List Bytes)
    → Matches ps xs
    → filled ps ≡ length ps
    → join_parts ps ≡ done (concat xs)
unfolding join_parts
join_parts_full [] [] m f = refl
join_parts_full [] (x ∷ xs) m f = absurd m
join_parts_full (s ∷ ps) [] m f = absurd m
join_parts_full (none ∷ ps) (x ∷ xs) m f = absurd (omega (arith, filled-le ps))
  where
    filled-le : (qs : List (Option Part)) → filled qs ≤ length qs
    filled-le [] = omega arith
    filled-le (none ∷ qs) = omega (arith, filled-le qs)
    filled-le (some q ∷ qs) = omega (arith, filled-le qs)
join_parts_full (some p ∷ ps) (x ∷ xs) m f =
    rw (join_parts_full ps xs m.1 (omega arith)) (ap (λ b. done (b ++ concat xs)) m.0)

-- The slot with this index holds a part.
abbrev pub IsThere : List (Option Part) → ℕ → Type 0
IsThere ps i = (q : Part) × (get_elem? ps i ≡ some (some q))

pub IsThere-set :
    (ps : List (Option Part)) (i j : ℕ) (p : Part)
    → get_elem? ps i ≡ some none
    → IsThere ps j
    → IsThere (set ps i (some p)) j
IsThere-set ps i j p free (q, at) = (q, get_elem?-set_ne ps i j (some p) (λ e. cc) ∙ at)

pub IsThere-filled :
    (ps : List (Option Part)) → ((i : ℕ) → i < length ps → IsThere ps i) → filled ps ≡ length ps
IsThere-filled [] all = refl
IsThere-filled (none ∷ ps) all = let (q, at) = all 0 (omega arith) in absurd (cc)
IsThere-filled (some p ∷ ps) all = ap suc (IsThere-filled ps (λ i lt. all (suc i) (omega arith)))

pub put_done :
    (ps : List (Option Part)) (z : ℤ) (i : ℕ) (p : Part)
    → z ≡ pos i
    → i < length ps
    → put ps z p ≡ done (set ps i (some p))
put_done ps z i p e lt = rw e (rw (lt→ltb i (length ps) lt) refl)
