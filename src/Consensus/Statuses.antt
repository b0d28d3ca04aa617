-- ===== src/Consensus/Statuses.antt =====
-- The commit statuses of a C-shard's block put together: a transaction is committed when every
-- related shard commits it.
use melete.Base.{ℕ, ◌≡◌, refl, ap, ◌∙◌, List, [], ◌∷◌, map, some, none, Bool, ◌&&◌, min}
use melete.Base.Bytes.{Bytes}
use melete.Base.Outcome.{done}
use melete.BitVector.{BitVector, to_bytes}
use melete.BitVector.Valid.{IsValid, test}
use melete.BitVector.Coding.{from_bytes-to_bytes}
use melete.BitVector.Combine.{and_vectors_lem}
use melete.Consensus.Cross.{and_statuses}

abbrev pub AllValid : List BitVector → Type 0
AllValid [] = Unit {0}
AllValid (v ∷ vs) = IsValid v × AllValid vs

-- A bit of every vector, together with a first one.
abbrev pub all_set : Bool → ℕ → List BitVector → Bool
all_set x i [] = x
all_set x i (v ∷ vs) = all_set (x && test v i) i vs

abbrev pub least_size : ℕ → List BitVector → ℕ
least_size k [] = k
least_size k (v ∷ vs) = least_size (min k v.bits) vs

abbrev pub statuses_of : List BitVector → List Bytes
statuses_of vs = map (λ v. to_bytes (some v)) vs

all_set_cong : (x y : Bool) (i : ℕ) (vs : List BitVector) → x ≡ y → all_set x i vs ≡ all_set y i vs
all_set_cong x y i vs e = ap (λ z. all_set z i vs) e

-- From a vector on.
and_statuses_from :
    (t : BitVector) (vs : List BitVector)
    → IsValid t
    → AllValid vs
    → (u : BitVector) × (and_statuses (some t) (statuses_of vs) ≡ done (some u))
      × IsValid u
      × (u.bits ≡ least_size t.bits vs)
      × ((i : ℕ) → test u i ≡ all_set (test t i) i vs)
unfolding and_statuses
and_statuses_from t [] k ks = (t, refl, k, refl, λ i. refl)
and_statuses_from t (v ∷ vs) k ks =
    let (a, ran, valid, sized, tests) = and_vectors_lem t v k ks.0 in
    let (u, rest, fine, least, all) = and_statuses_from a vs valid ks.1 in
    (
      u,
      rw (from_bytes-to_bytes v ks.0) (rw ran rest),
      fine,
      least ∙ ap (λ x. least_size x vs) sized,
      λ i. all i ∙ all_set_cong _ _ i vs (tests i),
    )

-- The statuses of one shard or more, each the encoding of a vector: the loop ends with the vector
-- that has the least of their sizes, in which a bit is set exactly when all of them have it.
pub and_statuses_lem :
    (v : BitVector) (vs : List BitVector)
    → IsValid v
    → AllValid vs
    → (u : BitVector) × (and_statuses none (statuses_of (v ∷ vs)) ≡ done (some u))
      × IsValid u
      × (u.bits ≡ least_size v.bits vs)
      × ((i : ℕ) → test u i ≡ all_set (test v i) i vs)
unfolding and_statuses
and_statuses_lem v vs k ks = rw (from_bytes-to_bytes v k) (and_statuses_from v vs k ks)
