-- ===== src/ToolResultRedactor/Ranges/Cover.antt =====
-- `mergeRanges` of toolresultredactor/patterns.go, against the union of its ranges.
use eino_agent_extensions.Prelude.{
  ℕ, ◌≤◌, ◌<◌, ◌≡◌, refl, ◌∙◌, true, false, ◌||◌, List, [], ◌∷◌, ltb, leb, arith, All, length,
  Bool-cases, leb→le, leb→lt, ltb→lt, inl, inr, ◌+◌, subst, sym, ap,
}
use eino_agent_extensions.ToolResultRedactor.Ranges.{
  ByteRange, extend, merge_from, merge_sorted, merge_ranges, sort_ranges,
}
use eino_agent_extensions.ToolResultRedactor.Ranges.Order.{
  within, covers, SortedFrom, SortedFrom-mono, sort_ranges-SortedFrom, covers-sort_ranges,
  sort_ranges-All,
}

-- Not empty, and inside a text of `size` bytes.
abbrev pub Fits : ℕ → ByteRange → Type 0
Fits size r = (r.start < r.end) × (r.end ≤ size)

-- Each range starts behind the end of the one before it (the first at `low` or later) and fits.
abbrev pub Separated : ℕ → ℕ → List ByteRange → Type 0
Separated size low [] = Unit {0}
Separated size low (r ∷ rs) = (low ≤ r.start) × Fits size r × Separated size (r.end + 1) rs

extend-start : (last c : ByteRange) → (extend last c).start ≡ last.start
extend-start last c = ground arith

-- Joining a range that begins inside the last one, or at its end, joins what they cover.
within-extend :
    (last c : ByteRange) (i : ℕ)
    → last.start ≤ c.start
    → c.start ≤ last.end
    → within (extend last c) i ≡ (within last i || within c i)
within-extend last c i h k = ground arith

extend-Fits :
    (size : ℕ) (last c : ByteRange) → Fits size last → Fits size c → Fits size (extend last c)
extend-Fits size last c f g = ground arith

extend-SortedFrom :
    (last c : ByteRange) (rs : List ByteRange)
    → last.start ≤ c.start
    → SortedFrom c.start rs
    → SortedFrom (extend last c).start rs
extend-SortedFrom last c rs h s =
    subst (λ low. SortedFrom low rs) (sym (extend-start last c))
      (SortedFrom-mono last.start c.start rs h s)

merge_from_touch :
    (last c : ByteRange) (rs : List ByteRange)
    → leb c.start last.end ≡ true
    → merge_from last (c ∷ rs) ≡ merge_from (extend last c) rs
unfolding merge_from
merge_from_touch last c rs h = ground arith

merge_from_apart :
    (last c : ByteRange) (rs : List ByteRange)
    → leb c.start last.end ≡ false
    → merge_from last (c ∷ rs) ≡ last ∷ merge_from c rs
unfolding merge_from
merge_from_apart last c rs h = ground arith

covers-merge_from :
    (last : ByteRange) (rs : List ByteRange) (i : ℕ)
    → SortedFrom last.start rs
    → covers (merge_from last rs) i ≡ (within last i || covers rs i)
covers-merge_from last [] i s = unfold merge_from in refl
covers-merge_from last (c ∷ rs) i s = elim (Bool-cases (leb c.start last.end)) [
  | inl touch ↦
      ap (λ m. covers m i) (merge_from_touch last c rs touch)
      ∙ covers-merge_from (extend last c) rs i (extend-SortedFrom last c rs s.0 s.1)
      ∙ ground (arith, within-extend last c i s.0 (leb→le _ _ touch))
  | inr apart ↦
      ap (λ m. covers m i) (merge_from_apart last c rs apart)
      ∙ ground (arith, covers-merge_from c rs i s.1)
]

merge_from-Separated :
    (size low : ℕ) (last : ByteRange) (rs : List ByteRange)
    → low ≤ last.start
    → Fits size last
    → All (Fits size) rs
    → SortedFrom last.start rs
    → Separated size low (merge_from last rs)
merge_from-Separated size low last [] h f a s = unfold merge_from in (h, f, tt)
merge_from-Separated size low last (c ∷ rs) h f a s = elim (Bool-cases (leb c.start last.end)) [
  | inl touch ↦ subst (Separated size low) (sym (merge_from_touch last c rs touch)) (
      merge_from-Separated size low (extend last c) rs (omega (arith, extend-start last c))
        (extend-Fits size last c f a.0) a.1 (extend-SortedFrom last c rs s.0 s.1))
  | inr apart ↦ subst (Separated size low) (sym (merge_from_apart last c rs apart)) (
    h,
    f,
    merge_from-Separated size (last.end + 1) c rs (omega (arith, leb→lt _ _ apart)) a.0 a.1 s.1,
  )
]

covers-merge_sorted :
    (rs : List ByteRange) (i : ℕ) → SortedFrom 0 rs → covers (merge_sorted rs) i ≡ covers rs i
unfolding merge_sorted
covers-merge_sorted [] i s = refl
covers-merge_sorted (r ∷ rs) i s = covers-merge_from r rs i s.1

merge_sorted-Separated :
    (size : ℕ) (rs : List ByteRange)
    → All (Fits size) rs
    → SortedFrom 0 rs
    → Separated size 0 (merge_sorted rs)
unfolding merge_sorted
merge_sorted-Separated size [] a s = tt
merge_sorted-Separated size (r ∷ rs) a s = merge_from-Separated size 0 r rs s.0 a.0 a.1 s.1

few-Separated :
    (size : ℕ) (rs : List ByteRange) → length rs < 2 → All (Fits size) rs → Separated size 0 rs
few-Separated size [] h a = tt
few-Separated size (r ∷ []) h a = (omega arith, a.0, tt)
few-Separated size (r ∷ x ∷ rs) h a = absurd (omega arith)

-- `mergeRanges` covers exactly the bytes that its argument covers, in ranges that are in order, not
-- empty, inside the text, and apart from one another by at least one byte.
pub merge_ranges-Separated :
    (size : ℕ) (rs : List ByteRange)
    → All (Fits size) rs
    → Separated size 0 (merge_ranges rs) × ((i : ℕ) → covers (merge_ranges rs) i ≡ covers rs i)
unfolding merge_ranges
merge_ranges-Separated size rs a = elim (Bool-cases (ltb (length rs) 2)) [
  | inl few ↦ rw few (few-Separated size rs (ltb→lt _ _ few) a, λ i. refl)
  | inr many ↦ rw many (
    merge_sorted-Separated size (sort_ranges rs) (sort_ranges-All (Fits size) rs a)
        (sort_ranges-SortedFrom rs),
    λ i.
        covers-merge_sorted (sort_ranges rs) i (sort_ranges-SortedFrom rs)
        ∙ covers-sort_ranges rs i,
  )
]
