-- ===== src/BackgroundJobs/Config.antt =====
-- backgroundjobs/config.go: the limits, the environment of the jobs and the retention of results.
--
-- The limits are at or above 0: the code refuses a negative one where it refuses 0, and a negative
-- default timeout, which is outside the model.
pub mod Environment
pub mod Retained
mod Tests
use eino_agent_extensions.Prelude.{
  ℕ, zero, suc, ◌+◌, ◌-◌, ◌*◌, ◌/◌, ◌%◌, Bool, true, false, ◌&&◌, ◌||◌, not, Option, none, some,
  List, [], ◌∷◌, ◌++◌, map, Bytes, bytes_eq, bytes_less, length, ltb, leb, ◌==◌, if◌then◌else◌,
}
use eino_agent_extensions.External.{is_empty, has_nul}

-- Durations are in nanoseconds.
pub record Limits : Type 0 where
  pub max_running : ℕ
  pub max_tracked : ℕ
  pub max_command_bytes : ℕ
  pub max_working_directory_bytes : ℕ
  pub max_output_bytes_per_stream : ℕ
  pub max_environment_entries : ℕ
  pub max_environment_bytes : ℕ
  pub default_timeout : ℕ
  pub max_timeout : ℕ
  pub terminate_grace : ℕ
  pub kill_wait : ℕ

pub data ConfigError : Type 0 where
  limits tracked_below_running max_timeout default_timeout termination_bounds environment_mode
        environment_entries environment_entry environment_bytes retention_overflow retention_limit :
      ConfigError

abbrev pub max_int64 : ℕ
max_int64 = 9223372036854775807

abbrev pub second : ℕ
second = 1000000000

-- `none` is the absence of an error.
unfoldable pub validate_limits : Limits → Option ConfigError
validate_limits l =
    if l.max_running == 0
      || l.max_tracked == 0
      || l.max_command_bytes == 0
      || l.max_working_directory_bytes == 0
      || l.max_output_bytes_per_stream == 0
      || l.max_environment_entries == 0
      || l.max_environment_bytes == 0
    then some limits
    else if ltb l.max_tracked l.max_running
    then some tracked_below_running
    else if ltb l.max_timeout second || not (l.max_timeout % second == 0)
    then some max_timeout
    else if not (l.default_timeout % second == 0) || ltb l.max_timeout l.default_timeout
    then some default_timeout
    else if l.terminate_grace == 0
        || l.kill_wait == 0
        || ltb max_int64 (l.terminate_grace + l.kill_wait + second)
    then some termination_bounds
    else none

pub data EnvironmentMode : Type 0 where
  explicit_only inherit_and_override other_mode : EnvironmentMode

abbrev pub Entries : Type 0
Entries = List (Bytes × Bytes)

-- `values[key] = value`
unfoldable pub put : Bytes → Bytes → Entries → Entries
put key value [] = (key, value) ∷ []
put key value ((k, v) ∷ rest) =
    let more = put key value rest in if bytes_eq k key then (key, value) ∷ rest else (k, v) ∷ more

unfoldable pub put_all : Entries → Entries → Entries
unfolding put
put_all [] values = values
put_all ((key, value) ∷ rest) values = put_all rest (put key value values)

abbrev pub one_more_byte : ℕ → Option (Bytes × Bytes) → Option (Bytes × Bytes)
one_more_byte c none = none
one_more_byte c (some (key, value)) = some (c ∷ key, value)

-- `strings.Cut(item, "=")`
unfoldable pub cut : Bytes → Option (Bytes × Bytes)
cut [] = none
cut (c ∷ cs) = let rest = cut cs in if c == b'=' then some ([], cs) else one_more_byte c rest

abbrev pub cons_some : Option (Bytes × Bytes) → Entries → Entries
cons_some none rest = rest
cons_some (some e) rest = e ∷ rest

unfoldable pub cut_all : List Bytes → Entries
unfolding cut
cut_all [] = []
cut_all (item ∷ rest) = cons_some (cut item) (cut_all rest)

abbrev pub has_equals : Bytes → Bool
has_equals [] = false
has_equals (c ∷ cs) = c == b'=' || has_equals cs

abbrev pub bad_entry : Bytes → Bytes → Bool
bad_entry key value = is_empty key || has_equals key || has_nul key || has_nul value

abbrev pub entry_bytes : Bytes → Bytes → ℕ
entry_bytes key value = length key + 1 + length value

-- The loop that checks the entries; `total` is their bytes so far.
unfoldable pub check_entries : ℕ → ℕ → Entries → Option ConfigError
check_entries max_bytes total [] = none
check_entries max_bytes total ((key, value) ∷ rest) =
    let more = check_entries max_bytes (total + entry_bytes key value) rest in
    if bad_entry key value
    then some environment_entry
    else if ltb (max_bytes - total) (entry_bytes key value)
    then some environment_bytes
    else more

-- `sort.Strings(keys)`, with the values along: the keys differ.
unfoldable pub insert_entry : Bytes × Bytes → Entries → Entries
insert_entry e [] = e ∷ []
insert_entry e (f ∷ fs) =
    let rest = insert_entry e fs in if bytes_less f.0 e.0 then f ∷ rest else e ∷ f ∷ fs

unfoldable pub sort_entries : Entries → Entries
unfolding insert_entry
sort_entries [] = []
sort_entries (e ∷ es) = insert_entry e (sort_entries es)

abbrev pub spelled : Bytes × Bytes → Bytes
spelled (key, value) = key ++ b'=' ∷ value

pub data Effective : Type 0 where
  effective : List Bytes → Effective
  refused : ConfigError → Effective

abbrev pub settled : Entries → Option ConfigError → Effective
settled values none = effective (map spelled (sort_entries values))
settled values (some e) = refused e

unfoldable pub settle_values : Limits → Entries → Effective
unfolding check_entries sort_entries
settle_values l values =
    if ltb l.max_environment_entries (length values)
    then refused environment_entries
    else settled values (check_entries l.max_environment_bytes 0 values)

-- `effectiveEnvironment`; `environ` is what `os.Environ` returns.
unfoldable pub effective_environment : List Bytes → EnvironmentMode → Entries → Limits → Effective
unfolding put_all cut_all settle_values
effective_environment environ explicit_only overrides l = settle_values l (put_all overrides [])
effective_environment environ inherit_and_override overrides l =
    settle_values l (put_all overrides (put_all (cut_all environ) []))
effective_environment environ other_mode overrides l = refused environment_mode

unfoldable pub safe_add : ℕ → ℕ → Option ℕ
safe_add left right = if ltb (max_int64 - right) left then none else some (left + right)

unfoldable pub safe_mul : ℕ → ℕ → Option ℕ
safe_mul left right =
    if not (left == 0) && ltb (max_int64 / left) right then none else some (left * right)

abbrev pub and_then {ℓ} : {A : Type ℓ} → Option ℕ → (ℕ → Option A) → Option A
and_then none next = none
and_then (some n) next = next n

-- The lengths that `json.Marshal` gives of the largest results, which the runtime's encoder decides.
pub record Encoded : Type 0 where
  pub empty_status : ℕ
  pub summary : ℕ
  pub empty_list : ℕ
  pub start : ℕ
  pub kill : ℕ

pub record Retention : Type 0 where
  pub start : ℕ
  pub status : ℕ
  pub list : ℕ
  pub kill : ℕ

unfoldable pub status_bytes : Encoded → Limits → Option ℕ
unfolding safe_add safe_mul
status_bytes e l = and_then (safe_mul l.max_output_bytes_per_stream 12) (safe_add e.empty_status)

unfoldable pub list_bytes : Encoded → Limits → Option ℕ
unfolding safe_add safe_mul
list_bytes e l =
    if l.max_tracked == 0
    then some e.empty_list
    else and_then (safe_mul l.max_tracked e.summary)
        λ added. and_then (safe_add e.empty_list added) (λ n. safe_add n (l.max_tracked - 1))

-- Twice a maximum, within the bound on what is kept inline.
unfoldable pub inline_bytes : ℕ → Option ℕ
unfolding safe_mul
inline_bytes maximum = and_then (safe_mul maximum 2) (λ n. if ltb 16777216 n then none else some n)

-- `retentionPolicies`; `none` is an error.
unfoldable pub retention_policies : Encoded → Limits → Option Retention
unfolding status_bytes list_bytes inline_bytes
retention_policies e l = and_then (status_bytes e l) λ status_maximum.
    and_then (list_bytes e l) λ list_maximum. and_then (inline_bytes e.start) λ start.
      and_then (inline_bytes status_maximum) λ status. and_then (inline_bytes list_maximum) λ list.
        and_then (inline_bytes e.kill)
          λ kill. some (record { start = start; status = status; list = list; kill = kill })
