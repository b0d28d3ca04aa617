-- ===== src/PartSet/Split.antt =====
-- `SplitByteArray` of utils/compare-bytes.go.
use mathlib.Core.Option
use melete.Base.{
  ℕ, zero, suc, ◌≤◌, ◌<◌, ◌≡◌, refl, ap, ◌∙◌, List, [], ◌∷◌, ◌++◌, none, some, arith, length, take,
  drop, length-take, length-drop, take-append-drop,
}
use melete.Base.Bytes.{Bytes}
use melete.PartSet.{split_byte_array}

-- `bytes.Join` with no separator.
abbrev pub concat : List Bytes → Bytes
concat [] = []
concat (b ∷ bs) = b ++ concat bs

abbrev pub AllSized : ℕ → List Bytes → Type 0
AllSized size [] = Unit {0}
AllSized size (b ∷ bs) = ((0 < length b) × (length b ≤ size)) × AllSized size bs

-- A split: the pieces in order give the data, and none is empty or longer than the size.
pub record IsSplitOf (bz : Bytes) (size : ℕ) (items : List Bytes) : Type 0 where
  pub joined : concat items ≡ bz
  pub sized : AllSized size items

-- With a positive size the loop ends, and its pieces are a split of the data.
pub split_byte_array_lem :
    (fuel : ℕ) (bz : Bytes) (size : ℕ)
    → 0 < size
    → length bz ≤ fuel
    → (items : List Bytes) × (split_byte_array fuel bz size ≡ some items) × IsSplitOf bz size items
unfolding split_byte_array
split_byte_array_lem fuel [] size p q = ([], refl, record { joined = refl; sized = tt })
split_byte_array_lem zero (x ∷ bz) size p q = absurd (omega arith)
split_byte_array_lem (suc fuel) (x ∷ bz) size p q =
    let piece = take size (x ∷ bz) in
    let rest = drop size (x ∷ bz) in
    let t = length-take size (x ∷ bz) in
    let d = length-drop size (x ∷ bz) in
    let (items, e, split) = split_byte_array_lem fuel rest size p (omega arith) in
    (
      piece ∷ items,
      ap (Option.map (λ r. piece ∷ r)) e,
      record {
        joined = ap (◌++◌ piece) split.joined ∙ take-append-drop size (x ∷ bz);
        sized = ((omega arith, omega arith), split.sized);
      },
    )

-- At size 0 the loop does not end, whatever the fuel, unless there is nothing to cut.
pub split_byte_array_zero : (fuel x : ℕ) (bz : Bytes) → split_byte_array fuel (x ∷ bz) 0 ≡ none
unfolding split_byte_array
split_byte_array_zero zero x bz = refl
split_byte_array_zero (suc fuel) x bz =
    ap (Option.map (λ r. [] ∷ r)) (split_byte_array_zero fuel x bz)
