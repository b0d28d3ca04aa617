-- ===== src/Height/Tallied.antt =====
-- The tally of a height's votes.
use melete.Base.{
  ℕ, zero, suc, ◌+◌, ◌<◌, ◌≡◌, ◌≢◌, refl, ap, ◌∙◌, sym, List, [], ◌∷◌, map, set, Option, none, some,
  Bool, true, false, arith, if◌then◌else◌, ◌==◌, length, length-set, length-map, length-replicate,
  get_elem?, get_elem?_lt, get_elem?-map, get_elem?-set_ne, Bool-cases, inl, inr,
}
use melete.Base.Int.{pos, ◌+ℤ◌, pos-+ℤ}
use melete.Base.Outcome.{done}
use melete.Base.Table.{bytes_eq}
use melete.BitVector.{BitVector}
use melete.BitVector.Valid.{IsValid, test, new_bit_vector_lem}
use melete.BitVector.Access.{set_index_lem}
use melete.Accepts.{Peer, vote_at}
use melete.Vote.{Proposal, Ballot}
use melete.Vote.Commit.{bit_power}
use melete.Height.{new_tally, Tally, count_ballot, is_for}

bit_power_past :
    (c d : BitVector) (n i : ℕ) (vs : List ℕ)
    → ((j : ℕ) → test c j ≡ (if n == j then true else test d j))
    → n < i
    → bit_power c i vs ≡ bit_power d i vs
bit_power_past c d n i [] h lt = refl
bit_power_past c d n i (v ∷ vs) h lt =
    let rest = bit_power_past c d n (suc i) vs h (omega arith) in let here = h i in ground arith

-- Setting a bit adds the validator's power.
bit_power-set :
    (c d : BitVector) (i m v : ℕ) (vs : List ℕ)
    → ((j : ℕ) → test c j ≡ (if (i + m) == j then true else test d j))
    → test d (i + m) ≡ false
    → get_elem? vs m ≡ some v
    → bit_power c i vs ≡ bit_power d i vs + v
bit_power-set c d i m v [] h unset e = absurd (cc)
bit_power-set c d i zero v (w ∷ vs) h unset e =
    let same : i + 0 ≡ i = omega arith in
    let here = h i in
    let before : test d i ≡ false = ap (test d) (sym same) ∙ unset in
    let rest = bit_power_past c d (i + 0) (suc i) vs h (omega arith) in ground arith
bit_power-set c d i (suc m) v (w ∷ vs) h unset e =
    let same : i + suc m ≡ suc i + m = omega arith in
    let here = h i in
    let rest =
      bit_power-set c d (suc i) m v vs (λ j. h j ∙ ap (λ n. if n == j then true else test d j) same)
        (ap (test d) (sym same) ∙ unset) e in
    ground arith

-- The tally of the votes for the block of the proposal `q`; `vs` are the validators' powers.
pub record IsTallied (vs : List ℕ) (q : Option Proposal) (t : Tally) : Type 0 where
  pub vector : BitVector
  pub has_vector : t.bits ≡ some vector
  pub valid : IsValid vector
  pub sized : vector.bits ≡ length vs
  pub slots : length t.ballots ≡ length vs
  pub totals : t.total ≡ pos (bit_power vector 0 vs)
  pub matched :
      (i : ℕ)
      → test vector i ≡ true
      → (p : Ballot) × (get_elem? t.ballots i ≡ some (some p)) × (is_for q p ≡ true)

-- The power of a validator.
pub power_at :
    (peers : List Peer) (vs : List ℕ) (i : ℕ)
    → map (λ (p : Peer). p.vote) peers ≡ map pos vs
    → i < length vs
    → (v : ℕ) × (get_elem? vs i ≡ some v) × (vote_at peers (pos i) ≡ done (pos v))
unfolding vote_at
power_at peers vs i staked lt =
    let same_length : length peers ≡ length vs =
      sym (length-map (λ (p : Peer). p.vote) peers) ∙ ap length staked ∙ length-map pos vs in
    let (v, e) = get_elem?_lt vs i lt in
    let (q, f) = get_elem?_lt peers i (omega arith) in
    let here = get_elem?-map (λ (r : Peer). r.vote) peers i q f in
    let there = get_elem?-map pos vs i v e in
    let of_list : some q.vote ≡ some (pos v) = sym here ∙ ap (λ l. get_elem? l i) staked ∙ there in
    (v, e, rw f (ap done (cc)))

-- Storing a vote whose bit is not set.
pub stored-IsTallied :
    (vs : List ℕ) (q : Option Proposal) (t : Tally) (i : ℕ) (p : Ballot) (k : IsTallied vs q t)
    → test k.vector i ≡ false
    → (r : IsTallied vs q (record t { ballots = set t.ballots i (some p) })) × (r.vector ≡ k.vector)
stored-IsTallied vs q t i p k unset = (
  record {
    vector = k.vector;
    has_vector = k.has_vector;
    valid = k.valid;
    sized = k.sized;
    slots = length-set t.ballots i (some p) ∙ k.slots;
    totals = k.totals;
    matched = kept;
  },
  refl,
)
  where
    kept :
        (j : ℕ)
        → test k.vector j ≡ true
        → (r : Ballot) × (get_elem? (set t.ballots i (some p)) j ≡ some (some r))
          × (is_for q r ≡ true)
    kept j is_set =
        let (r, e, m) = k.matched j is_set in
        let other : i ≢ j = λ same. differ (sym unset ∙ ap (test k.vector) same ∙ is_set) in
        (r, get_elem?-set_ne t.ballots i j (some p) other ∙ e, m)
      where
        differ : false ≢ true
        differ e = cc

-- Counting a stored vote for the proposal whose bit is not set.
pub count_ballot-IsTallied :
    (peers : List Peer) (vs : List ℕ) (q : Option Proposal) (t : Tally) (i : ℕ) (p : Ballot)
    (k : IsTallied vs q t)
    → map (λ (r : Peer). r.vote) peers ≡ map pos vs
    → i < length vs
    → test k.vector i ≡ false
    → get_elem? t.ballots i ≡ some (some p)
    → is_for q p ≡ true
    → (u : Tally) × (count_ballot peers t (pos i) ≡ done u)
      × (r : IsTallied vs q u) × (u.ballots ≡ t.ballots)
      × ((j : ℕ) → i < j → test r.vector j ≡ test k.vector j)
unfolding count_ballot
count_ballot-IsTallied peers vs q t i p k staked lt unset at matches =
    let (c, ran, v, same, tests) = set_index_lem k.vector i true k.valid (omega (arith, k.sized)) in
    let (power, e, vote) = power_at peers vs i staked lt in
    let zero_add : 0 + i ≡ i = omega arith in
    let grown =
      bit_power-set c k.vector 0 i power vs
        (λ j. tests j ∙ ap (λ n. if n == j then true else test k.vector j) (sym zero_add))
        (ap (test k.vector) zero_add ∙ unset) e in
    (
      record t { bits = some c; total = t.total +ℤ pos power },
      rw k.has_vector (rw ran (rw vote refl)),
      record {
        vector = c;
        has_vector = refl;
        valid = v;
        sized = same ∙ k.sized;
        slots = k.slots;
        totals = rw k.totals (pos-+ℤ (bit_power k.vector 0 vs) power ∙ ap pos (sym grown));
        matched = found c tests;
      },
      refl,
      λ j lt. tests j ∙ ground arith,
    )
  where
    found :
        (c : BitVector)
        → ((j : ℕ) → test c j ≡ (if i == j then true else test k.vector j))
        → (j : ℕ) → test c j ≡ true
        → (r : Ballot) × (get_elem? t.ballots j ≡ some (some r)) × (is_for q r ≡ true)
    found c tests j is_set = elim (Bool-cases (i == j)) [
      | inl e ↦ (p, ground (arith, at), matches)
      | inr e ↦ k.matched j (ground (arith, tests j))
    ]

-- The empty tally, as `clearPrevote` and `clearPrecommit` leave it.
pub new_tally-IsTallied :
    (vs : List ℕ) (q : Option Proposal) → IsTallied vs q (new_tally (length vs))
unfolding new_tally
new_tally-IsTallied vs q =
    let (c, made, size, v, unset) = new_bit_vector_lem (length vs) in
    record {
      vector = c;
      has_vector = made;
      valid = v;
      sized = size;
      slots = length-replicate (length vs) none;
      totals = ap pos (sym (no_power c 0 vs unset));
      matched = λ i e. absurd (both (unset i) e);
    }
  where
    both : {t : Bool} → t ≡ false → t ≡ true → ⊥
    both e f = cc

    no_power :
        (c : BitVector) (i : ℕ) (ws : List ℕ) → ((j : ℕ) → test c j ≡ false) → bit_power c i ws ≡ 0
    no_power c i [] h = refl
    no_power c i (w ∷ ws) h = let here = h i in let rest = no_power c (suc i) ws h in ground arith
