-- ===== src/Base/Encoding.antt =====
-- Messages as bytes, over the protobuf library's encoding of one kind of message.
use melete.Base.{◌≡◌, refl, Option, none, some}
use melete.Base.Bytes.{Bytes}
use melete.Base.Outcome.{Outcome, done, ◌>>=◌}

-- `proto.Marshal` and `proto.Unmarshal` for the messages `P`.
pub record Encoding (P : Type 0) : Type 0 where
  pub marshal : P → Bytes
  pub unmarshal : Bytes → Option P

-- The body of each `New...FromBytes`: bytes that cannot be read give nil, which is `none`.
abbrev pub read_message : {P M : Type 0} → Encoding P → (P → Outcome M) → Bytes → Outcome (Option M)
read_message e from bz = elim (e.unmarshal bz) [
  | none ↦ done none
  | some q ↦ from q >>= λ m. done (some m)
]

abbrev pub Reads : {P : Type 0} → Encoding P → P → Type 0
Reads e q = e.unmarshal (e.marshal q) ≡ some q

pub read_message-marshal :
    {P M : Type 0} (e : Encoding P) (from : P → Outcome M) (q : P) (m : M)
    → Reads e q
    → from q ≡ done m
    → read_message e from (e.marshal q) ≡ done (some m)
read_message-marshal e from q m reads copied = rw (reads, read_message) (rw copied refl)
