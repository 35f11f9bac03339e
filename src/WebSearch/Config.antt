-- ===== src/WebSearch/Config.antt =====
-- `validateLimits` and `resultRetention` of websearch/config.go, with `worstCaseResultBytes` of
-- websearch/bounds.go.
--
-- The limits are at or above 0: the code refuses a negative one where it refuses 0.
pub mod Retention
pub mod Encoded
use eino_agent_extensions.Prelude.{
  ℕ, ◌+◌, ◌-◌, ◌*◌, ◌/◌, Bool, true, false, ◌&&◌, ◌||◌, not, Option, none, some, ltb, leb, ◌==◌,
  if◌then◌else◌,
}
use eino_agent_extensions.WebSearch.Bounds.{Limits}

pub data ConfigError : Type 0 where
  max_query max_raw_input max_results max_title max_url max_snippet max_in_flight max_wait
        retention :
      ConfigError

abbrev pub max_int64 : ℕ
max_int64 = 9223372036854775807

unfoldable pub checked_add : ℕ → ℕ → Option ℕ
checked_add left right = if ltb (max_int64 - right) left then none else some (left + right)

unfoldable pub checked_mul : ℕ → ℕ → Option ℕ
checked_mul left right =
    if not (left == 0) && ltb (max_int64 / left) right then none else some (left * right)

abbrev pub and_then {ℓ} : {A : Type ℓ} → Option ℕ → (ℕ → Option A) → Option A
and_then none next = none
and_then (some n) next = next n

-- A limit outside of its range, which starts at 1 for all but one.
abbrev pub outside : ℕ → ℕ → ℕ → Bool
outside low high n = ltb n low || ltb high n

-- The smallest input that can hold the largest query: `none` if it does not fit an int64.
unfoldable pub minimum_raw : Limits → Option ℕ
unfolding checked_add checked_mul
minimum_raw l = and_then (checked_mul l.max_query_bytes 6) (λ n. checked_add n 12)

abbrev pub raw_too_small : Limits → Option ℕ → Bool
raw_too_small l none = true
raw_too_small l (some minimum) =
    ltb l.max_raw_input_bytes minimum || ltb 131072 l.max_raw_input_bytes

-- `none` is the absence of an error.
unfoldable pub validate_limits : Limits → Option ConfigError
unfolding minimum_raw
validate_limits l =
    if outside 1 16384 l.max_query_bytes
    then some max_query
    else if raw_too_small l (minimum_raw l)
    then some max_raw_input
    else if outside 1 100 l.max_results
    then some max_results
    else if outside 1 1024 l.max_title_bytes
    then some max_title
    else if outside 8 8192 l.max_url_bytes
    then some max_url
    else if outside 1 16384 l.max_snippet_bytes
    then some max_snippet
    else if outside 1 256 l.max_in_flight
    then some max_in_flight
    else (if outside 1 600000000000 l.max_wait then some max_wait else none)

-- The lengths of `{"results":[]}` and of the same with one empty record.
abbrev pub empty_bytes : ℕ
empty_bytes = 14

abbrev pub one_bytes : ℕ
one_bytes = 48

abbrev pub positive : ℕ → Option ℕ
positive n = if n == 0 then none else some n

-- `none` is the error result-retention.
unfoldable pub worst_case_result_bytes : Limits → Option ℕ
unfolding checked_add checked_mul
worst_case_result_bytes l = and_then (checked_add l.max_title_bytes l.max_url_bytes) λ some_fields.
    and_then (checked_add some_fields l.max_snippet_bytes) λ fields.
      and_then (checked_mul fields 6) λ escaped.
        and_then (checked_add (one_bytes - empty_bytes) escaped) λ per_record.
          and_then (checked_mul per_record l.max_results) λ records.
            and_then (checked_add empty_bytes records)
              λ total. and_then (checked_add total (l.max_results - 1)) positive

unfoldable pub result_retention : Limits → Option ℕ
unfolding worst_case_result_bytes checked_mul
result_retention l = and_then (worst_case_result_bytes l) (λ one_copy. checked_mul one_copy 2)
