-- ===== src/Accepts/Valid.antt =====
-- The well-formed sets of accepts.
use mathlib.Core.Option
use melete.Base.{
  ℕ, ◌+◌, ◌*◌, ◌/◌, ◌≤◌, ◌<◌, ◌≡◌, ◌≢◌, refl, ap, ◌∙◌, sym, List, [], ◌∷◌, ◌++◌, map, none, some,
  Bool, true, false, arith, if◌then◌else◌, length, get_elem?,
}
use melete.Base.Bytes.{Bytes, bytes_equal}
use melete.Base.Int.{ℤ, pos, negsuc}
use melete.Base.Outcome.{done}
use melete.Base.Table.{Table, lookup, insert, bytes_eq, int_eq, lookup-insert}
use melete.Signer.{Bls, Verifier, verifier_size, verify_signature}
use melete.Accepts.{Peer, CrossShardAccept, CsaShardSet, unsigned, number_at, slice_at}
use melete.Accepts.Count.{sum, Choice, weigh, mark}

-- The validator gave none of the votes.
abbrev pub Absent : ℤ → List CrossShardAccept → Type 0
Absent i [] = Unit {0}
Absent i (c ∷ cs) = (c.validator_index ≢ i) × Absent i cs

abbrev pub power_at : List ℕ → ℤ → ℕ
power_at vs (pos i) = Option.get_or (get_elem? vs i) 0
power_at vs (negsuc n) = 0

-- The power of the validators that gave the votes.
abbrev pub list_weight : List ℕ → List CrossShardAccept → ℕ
list_weight vs [] = 0
list_weight vs (c ∷ cs) = power_at vs c.validator_index + list_weight vs cs

pub list_weight_end :
    (vs : List ℕ) (cs : List CrossShardAccept) (c : CrossShardAccept)
    → list_weight vs (cs ++ (c ∷ [])) ≡ list_weight vs cs + power_at vs c.validator_index
list_weight_end vs [] c = omega arith
list_weight_end vs (d ∷ cs) c = omega (arith, list_weight_end vs cs c)

-- More than two thirds of the power, as the code divides.
abbrev pub IsQuorum : List ℕ → Choice → Bytes → Type 0
IsQuorum vs f k = 2 * sum vs / 3 < weigh k f 0 vs

module _ (b : Bls) (sign_bytes : CrossShardAccept → Bytes) where
  -- A vote for `k` whose signature is its validator's.
  pub record IsVote (val_set : Verifier b) (k : Bytes) (f : Choice) (c : CrossShardAccept)
      : Type 0 where
    pub commits : c.commit_status ≡ k
    pub signed :
        verify_signature b val_set c.signature (sign_bytes (unsigned c)) c.validator_index
        ≡ done true
    pub index : ℕ
    pub by : c.validator_index ≡ pos index
    pub chosen : f index ≡ some k

  -- Votes for `k` by different validators.
  abbrev pub AreVotes : Verifier b → Bytes → Choice → List CrossShardAccept → Type 0
  AreVotes val_set k f [] = Unit {0}
  AreVotes val_set k f (c ∷ cs) =
      (IsVote val_set k f c × Absent c.validator_index cs) × AreVotes val_set k f cs

  -- The entries of the set against what each validator chose. `vs` are the peers' powers: they are
  -- not negative, and twice their sum is an `int32`.
  pub record IsCounted (vs : List ℕ) (f : Choice) (s : CsaShardSet b) : Type 0 where
    pub staked : map (λ (p : Peer). p.vote) s.peer_list ≡ map pos vs
    pub covered : verifier_size b s.val_set ≤ length s.peer_list
    pub total : s.total_voting_power ≡ pos (sum vs)
    pub small : 2 * sum vs < 2147483648
    pub unseen : (i : ℕ) → lookup (pos i) s.index_seen ≡ none → f i ≡ none
    pub powers : (k : Bytes) → number_at k s.key_vote_power ≡ pos (weigh k f 0 vs)
    pub weights : (k : Bytes) → list_weight vs (slice_at k s.sig_map) ≡ weigh k f 0 vs
    pub held : (k : Bytes) → AreVotes s.val_set k f (slice_at k s.sig_map)

  -- A key is decided exactly when it has a quorum.
  pub record IsDecided (vs : List ℕ) (f : Choice) (s : CsaShardSet b) : Type 0 where
    pub quorum : s.has_maj23_flag ≡ true → IsQuorum vs f s.maj23_key
    pub status : s.has_maj23_flag ≡ true → s.maj23_commit_status ≡ s.maj23_key
    pub complete : (k : Bytes) → IsQuorum vs f k → (s.has_maj23_flag ≡ true) × (s.maj23_key ≡ k)

  pub record IsValid (vs : List ℕ) (s : CsaShardSet b) : Type 0 where
    pub choice : Choice
    pub counted : IsCounted vs choice s
    pub decided : IsDecided vs choice s

  Absent-end :
      (i : ℤ) (cs : List CrossShardAccept) (c : CrossShardAccept)
      → Absent i cs
      → c.validator_index ≢ i
      → Absent i (cs ++ (c ∷ []))
  Absent-end i [] c a ne = (ne, tt)
  Absent-end i (d ∷ cs) c a ne = (a.0, Absent-end i cs c a.1 ne)

  IsVote-mark :
      (v : Verifier b) (k l : Bytes) (f : Choice) (n : ℕ) (c : CrossShardAccept)
      → f n ≡ none
      → IsVote v k f c
      → IsVote v k (mark f n l) c × (c.validator_index ≢ pos n)
  IsVote-mark v k l f n c free d = (
    record { commits = d.commits; signed = d.signed; index = d.index; by = d.by; chosen = kept },
    λ e. other (ground (arith, d.by)),
  )
    where
      other : n ≢ d.index
      other e = absurd (some_none (sym d.chosen ∙ ap f (sym e) ∙ free))
        where
          some_none : some k ≢ none
          some_none p = cc

      kept : mark f n l d.index ≡ some k
      kept = ground (arith, other, d.chosen)

  pub AreVotes-mark :
      (v : Verifier b) (k l : Bytes) (f : Choice) (n : ℕ) (cs : List CrossShardAccept)
      → f n ≡ none
      → AreVotes v k f cs
      → AreVotes v k (mark f n l) cs
  AreVotes-mark v k l f n [] free a = tt
  AreVotes-mark v k l f n (c ∷ cs) free a =
      (((IsVote-mark v k l f n c free a.0.0).0, a.0.1), AreVotes-mark v k l f n cs free a.1)

  pub AreVotes-end :
      (v : Verifier b) (k : Bytes) (f : Choice) (n : ℕ) (cs : List CrossShardAccept)
      (c : CrossShardAccept)
      → f n ≡ none
      → c.validator_index ≡ pos n
      → AreVotes v k f cs
      → IsVote v k (mark f n k) c
      → AreVotes v k (mark f n k) (cs ++ (c ∷ []))
  AreVotes-end v k f n [] c free at a new = ((new, tt), tt)
  AreVotes-end v k f n (d ∷ cs) c free at a new =
      let (old, ne) = IsVote-mark v k k f n d free a.0.0 in
      (
        (old, Absent-end d.validator_index cs c a.0.1 (λ e. ne (sym e ∙ at))),
        AreVotes-end v k f n cs c free at a.1 new,
      )

  pub number_at-insert :
      (k j : Bytes) (v : ℤ) (m : Table Bytes ℤ)
      → number_at j (insert k v m) ≡ (if bytes_equal k j then v else number_at j m)
  number_at-insert k j v m = rw (lookup-insert k j v m) (choose (bytes_equal k j))
    where
      choose :
          (t : Bool)
          → Option.get_or (if t then some v else lookup j m) (pos 0)
            ≡ (if t then v else number_at j m)
      choose true = refl
      choose false = refl

  pub slice_at-insert :
      (k j : Bytes) (v : List CrossShardAccept) (m : Table Bytes (List CrossShardAccept))
      → slice_at j (insert k v m) ≡ (if bytes_equal k j then v else slice_at j m)
  slice_at-insert k j v m = rw (lookup-insert k j v m) (choose (bytes_equal k j))
    where
      choose :
          (t : Bool)
          → Option.get_or (if t then some v else lookup j m) [] ≡ (if t then v else slice_at j m)
      choose true = refl
      choose false = refl
