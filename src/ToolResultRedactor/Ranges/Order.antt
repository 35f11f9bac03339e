-- ===== src/ToolResultRedactor/Ranges/Order.antt =====
-- Sorting ranges by their starts.
use eino_agent_extensions.Prelude.{
  ℕ, ◌≤◌, ◌≡◌, refl, Bool, false, ◌||◌, ◌&&◌, List, [], ◌∷◌, ltb, leb, arith, All,
}
use eino_agent_extensions.ToolResultRedactor.Ranges.{ByteRange, insert_range, sort_ranges}

-- Is position `i` inside one of the ranges?
abbrev pub within : ByteRange → ℕ → Bool
within r i = leb r.start i && ltb i r.end

abbrev pub covers : List ByteRange → ℕ → Bool
covers [] i = false
covers (r ∷ rs) i = within r i || covers rs i

-- Starts never fall along the list, from `low` on.
abbrev pub SortedFrom : ℕ → List ByteRange → Type 0
SortedFrom low [] = Unit {0}
SortedFrom low (r ∷ rs) = (low ≤ r.start) × SortedFrom r.start rs

pub SortedFrom-mono : (a b : ℕ) (rs : List ByteRange) → a ≤ b → SortedFrom b rs → SortedFrom a rs
SortedFrom-mono a b [] h s = tt
SortedFrom-mono a b (r ∷ rs) h s = (omega arith, s.1)

insert_range-SortedFrom :
    (low : ℕ) (r : ByteRange) (rs : List ByteRange)
    → low ≤ r.start
    → SortedFrom low rs
    → SortedFrom low (insert_range r rs)
unfolding insert_range
insert_range-SortedFrom low r [] h s = (h, tt)
insert_range-SortedFrom low r (x ∷ xs) h s = ground (arith, insert_range-SortedFrom x.start r xs)

pub sort_ranges-SortedFrom : (rs : List ByteRange) → SortedFrom 0 (sort_ranges rs)
unfolding sort_ranges
sort_ranges-SortedFrom [] = tt
sort_ranges-SortedFrom (x ∷ xs) =
    insert_range-SortedFrom 0 x (sort_ranges xs) (omega arith) (sort_ranges-SortedFrom xs)

covers-insert_range :
    (r : ByteRange) (rs : List ByteRange) (i : ℕ)
    → covers (insert_range r rs) i ≡ (within r i || covers rs i)
unfolding insert_range
covers-insert_range r [] i = refl
covers-insert_range r (x ∷ xs) i = ground (arith, covers-insert_range r xs i)

pub covers-sort_ranges : (rs : List ByteRange) (i : ℕ) → covers (sort_ranges rs) i ≡ covers rs i
unfolding sort_ranges
covers-sort_ranges [] i = refl
covers-sort_ranges (x ∷ xs) i =
    ground (arith, covers-insert_range x (sort_ranges xs) i, covers-sort_ranges xs i)

-- A property of every range survives sorting.
insert_range-All :
    (P : ByteRange → Type 0) (r : ByteRange) (rs : List ByteRange)
    → P r
    → All P rs
    → All P (insert_range r rs)
unfolding insert_range
insert_range-All P r [] h a = (h, tt)
insert_range-All P r (x ∷ xs) h a = ground (arith, insert_range-All P r xs h a.1)

pub sort_ranges-All :
    (P : ByteRange → Type 0) (rs : List ByteRange) → All P rs → All P (sort_ranges rs)
unfolding sort_ranges
sort_ranges-All P [] a = tt
sort_ranges-All P (x ∷ xs) a = insert_range-All P x (sort_ranges xs) a.0 (sort_ranges-All P xs a.1)
