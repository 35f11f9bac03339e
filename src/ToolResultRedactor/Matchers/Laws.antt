-- ===== src/ToolResultRedactor/Matchers/Laws.antt =====
-- toolresultredactor/patterns.go: the lists of matches, with and without a limit.
use eino_agent_extensions.Prelude.{
  ℕ, zero, suc, ◌+◌, ◌-◌, ◌≤◌, ◌<◌, ◌≡◌, refl, ap, ◌∙◌, inl, inr, Bool, true, false, none, some,
  List, [], ◌∷◌, Bytes, length, take, drop, ltb, All, arith, Option-cases, length-drop,
}
use eino_agent_extensions.ToolResultRedactor.Ranges.{ByteRange}
use eino_agent_extensions.ToolResultRedactor.Ranges.Cover.{Fits}
use eino_agent_extensions.ToolResultRedactor.Matchers.{
  Expression, Matcher, regexp_matcher, boundary_matcher, not_empty, touched, shift, boundary_from,
  find,
}

-- What the regular expressions are relied on for: matches lie inside the text and are not empty
-- (the configuration refuses expressions that match nothing); `FindAllStringIndex(v, n)` gives the
-- first `n` of all the matches, which do not overlap.
pub record IsExpression (e : Expression) : Type 0 where
  pub first_fits :
      (value : Bytes) (r : ByteRange) → e.find_first value ≡ some r → Fits (length value) r
  pub all : Bytes → List ByteRange
  pub all_prefix : (value : Bytes) (n : ℕ) → e.find_all value n ≡ take n (all value)
  pub all_fits : (value : Bytes) → All (Fits (length value)) (all value)
  pub all_few : (value : Bytes) → length (all value) ≤ length value

-- A matcher's list of all matches, of which a call gives the first `n`.
pub record IsMatcher (m : Matcher) : Type 0 where
  pub all : Bytes → List ByteRange
  pub prefix : (value : Bytes) (n : ℕ) → find m value n ≡ some (take n (all value))
  pub fits : (value : Bytes) → All (Fits (length value)) (all value)
  pub few : (value : Bytes) → length (all value) ≤ length value

not_empty-All : (size : ℕ) (rs : List ByteRange) → All (Fits size) rs → not_empty rs ≡ rs
unfolding not_empty
not_empty-All size [] a = refl
not_empty-All size (r ∷ rs) a = ground (arith, not_empty-All size rs a.1)

All-take : (P : ByteRange → Type 0) (n : ℕ) (rs : List ByteRange) → All P rs → All P (take n rs)
All-take P zero rs a = tt
All-take P (suc n) [] a = tt
All-take P (suc n) (r ∷ rs) a = (a.0, All-take P n rs a.1)

pub regexp_matcher-IsMatcher : (e : Expression) → IsExpression e → IsMatcher (regexp_matcher e)
unfolding find
regexp_matcher-IsMatcher e v = record {
  all = v.all;
  prefix = λ value n. ap some (
      ap not_empty (v.all_prefix value n)
      ∙ not_empty-All (length value) (take n (v.all value))
          (All-take (Fits (length value)) n (v.all value) (v.all_fits value)));
  fits = v.all_fits;
  few = v.all_few;
}

module _ (e : Expression) (left_byte right_byte : ℕ → Bool) (v : IsExpression e)
    (value : Bytes) where
  -- The matches from `position` on, without a limit.
  abbrev rest : ℕ → ℕ → List ByteRange
  rest zero position = []
  rest (suc fuel) position = elim (ltb position (length value)) [
    | false ↦ []
    | true ↦ elim (e.find_first (drop position value)) [
      | none ↦ []
      | some r ↦ elim (touched left_byte right_byte value (shift position r)) [
        | true ↦ rest fuel (r.end + position)
        | false ↦ shift position r ∷ rest fuel (r.end + position)
      ]
    ]
  ]

  first_ends :
      (position : ℕ) (r : ByteRange)
      → position ≤ length value
      → e.find_first (drop position value) ≡ some r
      → (r.end + position ≤ length value)
        × (position < r.end + position)
        × Fits (length value) (shift position r)
  first_ends position r h q =
      let f = v.first_fits (drop position value) r q in
      let l = length-drop position value in (omega arith, omega arith, (omega arith, omega arith))

  boundary_from-rest :
      (fuel left position : ℕ)
      → position ≤ length value
      → length value < fuel + position
      → boundary_from e left_byte right_byte value fuel left position
        ≡ some (take left (rest fuel position))
  unfolding boundary_from
  boundary_from-rest zero left position p h = absurd (omega arith)
  boundary_from-rest (suc fuel) zero position p h = ground arith
  boundary_from-rest (suc fuel) (suc left) position p h =
      elim (Option-cases (e.find_first (drop position value))) [
        | inl nothing ↦ ground arith
        | inr (r, q) ↦
            let ends = first_ends position r p q in
            let one : suc left - 1 ≡ left = omega arith in
            let skip = boundary_from-rest fuel (suc left) (r.end + position) ends.0 (omega arith) in
            let keep = boundary_from-rest fuel left (r.end + position) ends.0 (omega arith) in
            ground arith
      ]

  rest-Fits :
      (fuel position : ℕ)
      → position ≤ length value
      → All (Fits (length value)) (rest fuel position)
        × (length (rest fuel position) + position ≤ length value)
  rest-Fits zero position p = (tt, omega arith)
  rest-Fits (suc fuel) position p = elim (Option-cases (e.find_first (drop position value))) [
    | inl nothing ↦ (ground arith, ground arith)
    | inr (r, q) ↦
        let ends = first_ends position r p q in
        let later = rest-Fits fuel (r.end + position) ends.0 in
        (ground (arith, ends, later), ground (arith, ends, later))
  ]

pub boundary_matcher-IsMatcher :
    (e : Expression) (left_byte right_byte : ℕ → Bool)
    → IsExpression e
    → IsMatcher (boundary_matcher e left_byte right_byte)
unfolding find
boundary_matcher-IsMatcher e left_byte right_byte v = record {
  all = λ value. rest e left_byte right_byte v value (suc (length value)) 0;
  prefix = λ value n.
      boundary_from-rest e left_byte right_byte v value (suc (length value)) n 0 (omega arith)
        (omega arith);
  fits = λ value. (rest-Fits e left_byte right_byte v value (suc (length value)) 0 (omega arith)).0;
  few = λ value.
      let f = rest-Fits e left_byte right_byte v value (suc (length value)) 0 (omega arith) in
      omega (arith, f.1);
}

-- Both kinds of matchers return for every text and limit (the loop over a text has fuel enough),
-- and a limit only cuts off the list of all their matches, which lie inside the text, are not empty
-- and are at most as many as the bytes of the text.
pub Matcher_lawful :
    (e : Expression) (left_byte right_byte : ℕ → Bool)
    → IsExpression e
    → IsMatcher (regexp_matcher e) × IsMatcher (boundary_matcher e left_byte right_byte)
Matcher_lawful e left_byte right_byte v =
    (regexp_matcher-IsMatcher e v, boundary_matcher-IsMatcher e left_byte right_byte v)
