-- ===== src/ToolResultRedactor/Ranges.antt =====
-- toolresultredactor/patterns.go and redact.go: ranges of bytes, their union, and the text with each
-- range of the union replaced.
pub mod Order
pub mod Cover
pub mod Mask
use eino_agent_extensions.Prelude.{
  ℕ, ◌+◌, ◌-◌, ◌≤◌, ◌≡◌, Bool, true, false, ◌&&◌, ◌||◌, Option, none, some, List, [], ◌∷◌, ◌++◌,
  Bytes, length, take, drop, ltb, leb, ◌==◌, if◌then◌else◌, codes,
}

pub record ByteRange : Type 0 where
  pub start : ℕ
  pub end : ℕ

abbrev pub placeholder : Bytes
placeholder = codes "[REDACTED]"

-- The comparison that `mergeRanges` sorts by.
abbrev pub comes_first : ByteRange → ByteRange → Bool
comes_first a b = if a.start == b.start then ltb a.end b.end else ltb a.start b.start

-- `sort.Slice` by that comparison. Ranges that it cannot order are equal, so that any sort gives
-- this list.
pub insert_range : ByteRange → List ByteRange → List ByteRange
insert_range r [] = r ∷ []
insert_range r (x ∷ xs) = if comes_first x r then x ∷ insert_range r xs else r ∷ x ∷ xs

unfoldable pub sort_ranges : List ByteRange → List ByteRange
unfolding insert_range
sort_ranges [] = []
sort_ranges (x ∷ xs) = insert_range x (sort_ranges xs)

-- The body of the loop: `last` is the last merged range.
abbrev pub extend : ByteRange → ByteRange → ByteRange
extend last candidate =
    if ltb last.end candidate.end then record last { end = candidate.end } else last

unfoldable pub merge_from : ByteRange → List ByteRange → List ByteRange
merge_from last [] = last ∷ []
merge_from last (candidate ∷ rest) = elim (leb candidate.start last.end) [
  | true ↦ merge_from (extend last candidate) rest
  | false ↦ last ∷ merge_from candidate rest
]

pub merge_sorted : List ByteRange → List ByteRange
unfolding merge_from
merge_sorted [] = []
merge_sorted (r ∷ rest) = merge_from r rest

unfoldable pub merge_ranges : List ByteRange → List ByteRange
unfolding merge_sorted sort_ranges
merge_ranges ranges = if ltb (length ranges) 2 then ranges else merge_sorted (sort_ranges ranges)

-- Go's `value[low:high]`; `none` is the panic.
abbrev pub slice : Bytes → ℕ → ℕ → Option Bytes
slice value low high =
    if leb low high && leb high (length value)
    then some (take (high - low) (drop low value))
    else none

abbrev pub then_append : Option Bytes → Option Bytes → Option Bytes
then_append none rest = none
then_append (some a) none = none
then_append (some a) (some b) = some (a ++ b)

-- The loop of `scanScalar` that writes the result, from `position` on.
unfoldable pub splice : Bytes → ℕ → List ByteRange → Option Bytes
splice value position [] = slice value position (length value)
splice value position (span ∷ rest) =
    then_append (slice value position span.start)
      (then_append (some placeholder) (splice value span.end rest))
