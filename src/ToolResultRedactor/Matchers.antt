-- ===== src/ToolResultRedactor/Matchers.antt =====
-- toolresultredactor/patterns.go: the two kinds of matchers. A compiled expression is a parameter.
pub mod Laws
use eino_agent_extensions.Prelude.{
  ℕ, zero, suc, ◌+◌, ◌-◌, ◌≤◌, ◌<◌, ◌≡◌, Bool, true, false, ◌&&◌, ◌||◌, Option, none, some, List,
  [], ◌∷◌, Bytes, length, take, drop, get_elem?, ltb, leb, ◌==◌, if◌then◌else◌, All,
}
use eino_agent_extensions.ToolResultRedactor.Ranges.{ByteRange}

-- `regexp.Regexp`: `FindAllStringIndex` and `FindStringIndex`.
pub record Expression : Type 0 where
  pub find_all : Bytes → ℕ → List ByteRange
  pub find_first : Bytes → Option ByteRange

pub data Matcher : Type 0 where
  regexp_matcher : Expression → Matcher
  boundary_matcher : Expression → (ℕ → Bool) → (ℕ → Bool) → Matcher

-- The ranges that are not empty.
unfoldable pub not_empty : List ByteRange → List ByteRange
not_empty [] = []
not_empty (r ∷ rs) = let rest = not_empty rs in if r.start == r.end then rest else r ∷ rest

abbrev pub at_byte : (ℕ → Bool) → Option ℕ → Bool
at_byte p none = false
at_byte p (some b) = p b

-- The two `continue` tests: a match that a token byte touches on the left or on the right.
abbrev pub touched : (ℕ → Bool) → (ℕ → Bool) → Bytes → ByteRange → Bool
touched left_byte right_byte value r =
    (ltb 0 r.start && at_byte left_byte (get_elem? value (r.start - 1)))
    || (ltb r.end (length value) && at_byte right_byte (get_elem? value r.end))

abbrev pub shift : ℕ → ByteRange → ByteRange
shift position r = record { start = r.start + position; end = r.end + position }

abbrev pub cons_if : Bool → ByteRange → Option (List ByteRange) → Option (List ByteRange)
cons_if b r none = none
cons_if true r (some rs) = some (r ∷ rs)
cons_if false r (some rs) = some rs

-- The loop of `boundaryMatcher.find` from `position`, with `left` more ranges to take, on fuel;
-- `none` is a loop that is still running when the fuel is used up.
unfoldable pub boundary_from :
    Expression → (ℕ → Bool) → (ℕ → Bool) → Bytes → ℕ → ℕ → ℕ → Option (List ByteRange)
boundary_from e left_byte right_byte value zero left position = none
boundary_from e left_byte right_byte value (suc fuel) left position =
    elim (ltb position (length value) && ltb 0 left) [
      | false ↦ some []
      | true ↦ elim (e.find_first (drop position value)) [
        | none ↦ some []
        | some r ↦ elim (touched left_byte right_byte value (shift position r)) [
          | true ↦ boundary_from e left_byte right_byte value fuel left (r.end + position)
          | false ↦
              cons_if true (shift position r)
                (boundary_from e left_byte right_byte value fuel (left - 1) (r.end + position))
        ]
      ]
    ]

-- `find`; a match is longer than nothing, so that one turn for each byte and one more are enough.
unfoldable pub find : Matcher → Bytes → ℕ → Option (List ByteRange)
unfolding not_empty boundary_from
find (regexp_matcher e) value limit = some (not_empty (e.find_all value limit))
find (boundary_matcher e left_byte right_byte) value limit =
    boundary_from e left_byte right_byte value (suc (length value)) limit 0

-- `githubStatelessTokenByte`
unfoldable pub github_stateless_token_byte : ℕ → Bool
github_stateless_token_byte value =
    value == b'-'
    || value == b'.'
    || value == b'_'
    || (leb b'0' value && leb value b'9')
    || (leb b'A' value && leb value b'Z')
    || (leb b'a' value && leb value b'z')
