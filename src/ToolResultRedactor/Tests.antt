-- ===== src/ToolResultRedactor/Tests.antt =====
-- Scans with an expression that matches the first byte of a text, as `\A(?s:.)` does.
use eino_agent_extensions.Prelude.{
  ℕ, ◌≤◌, ◌≡◌, refl, Bool, true, Option, none, some, List, [], ◌∷◌, Bytes, length, take, codes,
  arith, All, ◌==◌,
}
use eino_agent_extensions.Context.{endless}
use eino_agent_extensions.ToolResultRedactor.Ranges.{ByteRange, merge_ranges, splice}
use eino_agent_extensions.ToolResultRedactor.Ranges.Order.{covers}
use eino_agent_extensions.ToolResultRedactor.Ranges.Cover.{Fits, Separated, merge_ranges-Separated}
use eino_agent_extensions.ToolResultRedactor.Matchers.{
  Expression, regexp_matcher, boundary_matcher, find,
}
use eino_agent_extensions.ToolResultRedactor.Matchers.Laws.{IsExpression, IsMatcher, Matcher_lawful}
use eino_agent_extensions.ToolResultRedactor.Scalar.{Policy, scan_scalar, changed}
use eino_agent_extensions.ToolResultRedactor.Fields.{Attachment}
use eino_agent_extensions.ToolResultRedactor.Scalar.Laws.{
  AreMatchers, Returns, all_matches, scan_scalar-Returns,
}

abbrev first_byte : Bytes → List ByteRange
first_byte [] = []
first_byte (x ∷ xs) = record { start = 0; end = 1 } ∷ []

abbrev first_match : Bytes → Option ByteRange
first_match [] = none
first_match (x ∷ xs) = some (record { start = 0; end = 1 })

abbrev first : Expression
first = record { find_all = λ v n. take n (first_byte v); find_first = first_match }

first-Fits : (v : Bytes) (r : ByteRange) → first_match v ≡ some r → Fits (length v) r
first-Fits [] r h = absurd (cc)
first-Fits (x ∷ xs) r h = ground arith

first-All-Fits : (v : Bytes) → All (Fits (length v)) (first_byte v)
first-All-Fits [] = tt
first-All-Fits (x ∷ xs) = ((omega arith, omega arith), tt)

first_few : (v : Bytes) → length (first_byte v) ≤ length v
first_few [] = omega arith
first_few (x ∷ xs) = omega arith

first-IsExpression : IsExpression first
first-IsExpression = record {
  first_fits = first-Fits;
  all = first_byte;
  all_prefix = λ v n. refl;
  all_fits = first-All-Fits;
  all_few = first_few;
}

abbrev is_x : ℕ → Bool
is_x b = b == b'x'

abbrev pub policy : Policy
policy = record {
  max_field_bytes = 8;
  max_matches_per_field = 3;
  max_metadata_entries = 2;
  max_attachments = 2;
  rules = regexp_matcher first ∷ boundary_matcher first is_x is_x ∷ [];
}

pub policy-AreMatchers : AreMatchers policy.rules
policy-AreMatchers = (
  (Matcher_lawful first is_x is_x first-IsExpression).0,
  ((Matcher_lawful first is_x is_x first-IsExpression).1, tt),
)

-- The boundary rule takes the x, and passes over the bytes beside it.
redacted :
    scan_scalar (λ b. true) policy endless (codes "abxc")
    ≡ some (endless, codes "[REDACTED]b[REDACTED]c", changed)
unfolding scan_scalar find merge_ranges splice
redacted = refl

merge_ranges-Separated_example :
    Separated 9 0
      (merge_ranges (record { start = 4; end = 6 } ∷ record { start = 1; end = 4 } ∷ []))
    × ((i : ℕ)
        → covers
            (merge_ranges (record { start = 4; end = 6 } ∷ record { start = 1; end = 4 } ∷ []))
            i
          ≡ covers (record { start = 4; end = 6 } ∷ record { start = 1; end = 4 } ∷ []) i)
merge_ranges-Separated_example =
    merge_ranges-Separated 9 (record { start = 4; end = 6 } ∷ record { start = 1; end = 4 } ∷ [])
      (omega arith)

Matcher_lawful_example :
    IsMatcher (regexp_matcher first) × IsMatcher (boundary_matcher first is_x is_x)
Matcher_lawful_example = Matcher_lawful first is_x is_x first-IsExpression

scan_scalar-Returns_example :
    Returns
      (codes "abxc")
      (all_matches policy.rules policy-AreMatchers (codes "abxc"))
      (scan_scalar (λ b. true) policy endless (codes "abxc"))
scan_scalar-Returns_example =
    scan_scalar-Returns (λ b. true) policy policy-AreMatchers endless (codes "abxc")

abbrev image : Attachment
image = record {
  id = codes "i";
  mime_type = codes "image/png";
  name = codes "abxc";
  url = [];
  metadata = some ((codes "", codes "vx") ∷ []);
}
