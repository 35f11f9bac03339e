-- ===== src/ToolResultRedactor/Scalar.antt =====
-- `scanScalar` of toolresultredactor/redact.go. A result of `none` is a fault: a matcher that does
-- not return, or an index out of range.
pub mod Laws
use eino_agent_extensions.Prelude.{
  ℕ, zero, suc, ◌+◌, ◌-◌, Bool, true, false, ◌||◌, not, Option, none, some, List, [], ◌∷◌, ◌++◌,
  Bytes, length, ltb, if◌then◌else◌, bytes_eq,
}
use eino_agent_extensions.Context.{Ctx, poll}
use eino_agent_extensions.ToolResultRedactor.Ranges.{ByteRange, placeholder, merge_ranges, splice}
use eino_agent_extensions.ToolResultRedactor.Matchers.{Matcher, find}

pub data ScanState : Type 0 where
  unchanged changed unsafe canceled : ScanState

-- The limits that a scalar scan reads, and the compiled rules.
pub record Policy : Type 0 where
  pub max_field_bytes : ℕ
  pub max_matches_per_field : ℕ
  pub max_metadata_entries : ℕ
  pub max_attachments : ℕ
  pub rules : List Matcher

pub data Collected : Type 0 where
  found : List ByteRange → Collected
  too_many stopped : Collected

-- How many matches to ask a rule for: one more than may be left, or one for each byte.
abbrev pub query_limit : Bytes → ℕ → ℕ
query_limit value remaining = if ltb remaining (length value) then remaining + 1 else length value

-- The loop over the rules: `matches` is the count so far, `ranges` what has been found.
unfoldable pub collect :
    Bytes → ℕ → Ctx → ℕ → List ByteRange → List Matcher → Option (Ctx × Collected)
collect value maximum ctx matches ranges [] = some (ctx, found ranges)
collect value maximum ctx matches ranges (rule ∷ rules) = elim (poll ctx).0 [
  | true ↦ some ((poll ctx).1, stopped)
  | false ↦ elim (find rule value (query_limit value (maximum - matches))) [
    | none ↦ none
    | some new ↦ elim (ltb (maximum - matches) (length new)) [
      | true ↦ some ((poll ctx).1, too_many)
      | false ↦ collect value maximum (poll ctx).1 (matches + length new) (ranges ++ new) rules
    ]
  ]
]

abbrev pub as_changed : Ctx → Option Bytes → Option (Ctx × Bytes × ScanState)
as_changed ctx none = none
as_changed ctx (some text) = some (ctx, text, changed)

-- Behind the loop.
pub finish : Bytes → Ctx → Collected → Option (Ctx × Bytes × ScanState)
finish value ctx stopped = some (ctx, placeholder, canceled)
finish value ctx too_many = some (ctx, placeholder, unsafe)
finish value ctx (found ranges) =
    if (poll ctx).0 then some ((poll ctx).1, placeholder, canceled) else elim ranges [
      | [] ↦ some ((poll ctx).1, value, unchanged)
      | r ∷ rs ↦ as_changed (poll ctx).1 (splice value 0 (merge_ranges (r ∷ rs)))
    ]

pub finish_collected : Bytes → Option (Ctx × Collected) → Option (Ctx × Bytes × ScanState)
unfolding finish
finish_collected value none = none
finish_collected value (some (ctx, c)) = finish value ctx c

module _ (utf8_valid : Bytes → Bool) (p : Policy) where
  unfoldable pub scan_scalar : Ctx → Bytes → Option (Ctx × Bytes × ScanState)
  unfolding finish_collected collect
  scan_scalar ctx value =
      if (poll ctx).0
      then some ((poll ctx).1, placeholder, canceled)
      else if bytes_eq value placeholder
      then some ((poll ctx).1, value, unchanged)
      else if ltb p.max_field_bytes (length value) || not (utf8_valid value)
      then some ((poll ctx).1, placeholder, unsafe)
      else finish_collected value (collect value p.max_matches_per_field (poll ctx).1 0 [] p.rules)
