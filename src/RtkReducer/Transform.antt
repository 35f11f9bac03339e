-- ===== src/RtkReducer/Transform.antt =====
-- rtkreducer/transform.go: a tool's result with its text reduced, or as it was.
--
-- The engine is what the transformer holds as functions: the context it asks, the slot it takes and
-- gives back, and the reduction of one field. A panic is a result of the reduction.
pub mod Replace
pub mod Laws
pub mod Results
pub mod Slots
pub mod Calls
pub mod Tests
use eino_agent_extensions.Prelude.{
  ℕ, zero, suc, ◌+◌, ◌-◌, ◌/◌, ◌%◌, Bool, true, false, ◌&&◌, ◌||◌, not, Option, none, some, List,
  [], ◌∷◌, ◌++◌, map, Bytes, bytes_eq, bytes_less, codes, length, take, drop, get_elem?, ltb, leb,
  ◌==◌, if◌then◌else◌,
}
use eino_agent_extensions.External.{is_empty, has_nul}
use eino_agent_extensions.Json.{JsonLib}
use eino_agent_extensions.RtkReducer.Json.{StringSpan, scan_object_strings}

pub data Filter : Type 0 where
  go_test git_diff log : Filter

-- `other_mode` is any other string.
pub data Mode : Type 0 where
  text_only json_mirror other_mode : Mode

pub record Field : Type 0 where
  pub name : Bytes
  pub filter : Filter

pub record CanonicalInputMatch : Type 0 where
  pub field : Bytes
  pub equals : List Bytes

pub record CanonicalBinding : Type 0 where
  pub tool_name : Bytes
  pub mode : Mode
  pub match_input : Option CanonicalInputMatch
  pub fields : List Field

-- The fields of `Limits` that the transform reads; an `int` of them is positive.
pub record TransformLimits : Type 0 where
  pub max_input_bytes : ℕ
  pub max_result_bytes : ℕ
  pub max_field_bytes : ℕ
  pub max_json_depth : ℕ
  pub max_json_nodes : ℕ

-- `runtime.ToolResultTransform`, by what the transform reads and writes of it.
pub record ToolResult : Type 0 where
  pub tool_name : Bytes
  pub call_input : Bytes
  pub permission_status : Bytes
  pub output : Bytes
  pub structured : Bytes

pub data Reduced : Type 0 where
  reduces : Bytes → Reduced
  gives_up panics : Reduced

pub record Engine (S : Type 0) : Type 0 where
  pub ended : S → S × Bool
  pub acquire : S → S × Bool
  pub release : S → S
  pub reduce : S → Filter → Bytes → S × Reduced

unfoldable pub filter_name : Filter → Bytes
filter_name go_test = codes "go-test"
filter_name git_diff = codes "git-diff"
filter_name log = codes "log"

-- `strconv.Itoa`; an `int` has at most 19 digits.
unfoldable pub digits : ℕ → ℕ → Bytes
digits zero n = []
digits (suc fuel) n =
    let rest = digits fuel (n / 10) in
    if ltb n 10 then (48 + n) ∷ [] else rest ++ (48 + n % 10) ∷ []

unfoldable pub reduction_marker : Filter → ℕ → Bytes
unfolding filter_name digits
reduction_marker filter original_bytes =
    codes "[Reduced by RTK "
    ++ filter_name filter
    ++ codes "; original_bytes="
    ++ digits 20 original_bytes
    ++ codes "]\n"

unfoldable pub bounded_combined_size : ℕ → ℕ → ℕ → Bool
bounded_combined_size left right maximum = leb left maximum && leb right (maximum - left)

-- `spans[name]`, which is the zero span where there is none.
unfoldable pub span_of : Bytes → List (Bytes × StringSpan) → Option StringSpan
span_of name [] = none
span_of name ((key, span) ∷ rest) =
    let more = span_of name rest in if bytes_eq key name then some span else more

abbrev pub or_zero : Option StringSpan → StringSpan
or_zero none = record { start = 0; end = 0; value = [] }
or_zero (some span) = span

-- `sort.SearchStrings` on sorted values: how many are below.
unfoldable pub search_strings : List Bytes → Bytes → ℕ
search_strings [] value = 0
search_strings (x ∷ xs) value =
    let rest = search_strings xs value in if bytes_less x value then suc rest else 0

abbrev pub is_value : Bytes → Option Bytes → Bool
is_value value none = false
is_value value (some v) = bytes_eq v value

pub record FieldReplacement : Type 0 where
  pub start : ℕ
  pub end : ℕ
  pub value : Bytes

-- What one turn of the loop over the fields comes to.
pub data Turn : Type 0 where
  replaces : FieldReplacement → Turn
  continues returns_original faults : Turn

pub data Collected : Type 0 where
  collects : List FieldReplacement → Collected
  gives_original faulted : Collected

-- `sort.Slice` by start.
unfoldable pub insert_by_start : FieldReplacement → List FieldReplacement → List FieldReplacement
insert_by_start r [] = r ∷ []
insert_by_start r (q ∷ qs) =
    let rest = insert_by_start r qs in if leb r.start q.start then r ∷ q ∷ qs else q ∷ rest

unfoldable pub sort_by_start : List FieldReplacement → List FieldReplacement
unfolding insert_by_start
sort_by_start [] = []
sort_by_start (r ∷ rs) = insert_by_start r (sort_by_start rs)

-- The loop that takes what each replacement saves from the length; `none` returns the original.
unfoldable pub new_length : ℕ → List FieldReplacement → Option ℕ
new_length len [] = some len
new_length len (r ∷ rs) =
    let taken = r.start + length r.value in
    let rest = new_length (len - (r.end - taken)) rs in
    if leb r.end taken || ltb len (r.end - taken) then none else rest

unfoldable pub put_before : Bytes → Option Bytes → Option Bytes
put_before text none = none
put_before text (some rest) = some (text ++ rest)

-- The loop that copies the text with the replacements put in.
unfoldable pub patch : Bytes → ℕ → List FieldReplacement → Option Bytes
unfolding put_before
patch raw position [] = some (drop position raw)
patch raw position (r ∷ rs) =
    let rest = patch raw r.end rs in
    if ltb r.start position || ltb (length raw) r.end
    then none
    else put_before (take (r.start - position) (drop position raw) ++ r.value) rest

abbrev pub or_this : Option CanonicalBinding → CanonicalBinding → Bytes → Option CanonicalBinding
or_this none b name = if bytes_eq b.tool_name name then some b else none
or_this (some later) b name = some later

-- The map that newTransformer makes: of two bindings with a name the later one is kept.
unfoldable pub binding_of : Bytes → List CanonicalBinding → Option CanonicalBinding
binding_of name [] = none
binding_of name (b ∷ bs) = or_this (binding_of name bs) b name

module _ {S : Type 0} (lib : JsonLib) (engine : Engine S) (limits : TransformLimits) where
  -- `matchesInput`, from what the scan finds.
  abbrev pub matches_span : CanonicalInputMatch → Option StringSpan → Bool
  matches_span match none = false
  matches_span match (some span) =
      is_value span.value (get_elem? match.equals (search_strings match.equals span.value))

  abbrev pub matches_found : CanonicalInputMatch → Option (List (Bytes × StringSpan)) → Bool
  matches_found match none = false
  matches_found match (some found) = matches_span match (span_of match.field found)

  unfoldable pub matches_input : Bytes → CanonicalInputMatch → Bool
  unfolding search_strings span_of scan_object_strings
  matches_input raw match =
      if ltb limits.max_input_bytes (length raw)
      then false
      else matches_found match (
          scan_object_strings lib raw limits.max_json_depth limits.max_json_nodes
            (match.field ∷ []))

  -- `transformText` behind the call of the reducer; `none` returns the original.
  unfoldable pub marked_text : Filter → Bytes → Bytes → Option Bytes
  unfolding reduction_marker bounded_combined_size
  marked_text filter text reduced =
      let marked = reduction_marker filter (length text) ++ reduced in
      if bytes_eq reduced text || is_empty reduced || not (lib.utf8_valid reduced)
      then none
      else if leb (length text) (length marked)
          || not (bounded_combined_size (length marked) 0 limits.max_result_bytes)
      then none
      else some marked

  abbrev pub with_output : ToolResult → Option Bytes → ToolResult
  with_output original none = original
  with_output original (some marked) = record original { output = marked }

  -- The result, and whether the reducer went into a panic.
  abbrev pub text_result : ToolResult → Filter → S × Reduced → S × ToolResult
  text_result original filter (s, reduces reduced) =
      (s, with_output original (marked_text filter original.output reduced))
  text_result original filter (s, r) = (s, original)

  abbrev pub is_bad_text : Bytes → Bool
  is_bad_text text =
      ltb limits.max_field_bytes (length text) || not (lib.utf8_valid text) || has_nul text

  abbrev pub text_field : ToolResult → List Field → S → S × ToolResult
  text_field original (field ∷ []) s =
      if is_bad_text original.output || is_empty original.output
      then (s, original)
      else text_result original field.filter (engine.reduce s field.filter original.output)
  text_field original fields s = (s, original)

  unfoldable pub transform_text : ToolResult → List Field → S → S × ToolResult
  unfolding marked_text
  transform_text original fields s =
      if is_empty original.structured then text_field original fields s else (s, original)

  -- The end of a turn of the loop over the fields, behind the encoding.
  abbrev pub encoded_turn : StringSpan → Option Bytes → Turn
  encoded_turn span none = continues
  encoded_turn span (some encoded) =
      if leb (span.end - span.start) (length encoded)
      then continues
      else replaces (record { start = span.start; end = span.end; value = encoded })

  -- A turn behind the call of the reducer.
  unfoldable pub reduced_turn : Filter → StringSpan → Reduced → Turn
  unfolding reduction_marker
  reduced_turn filter span gives_up = returns_original
  reduced_turn filter span panics = faults
  reduced_turn filter span (reduces reduced) =
      let marked = reduction_marker filter (length span.value) ++ reduced in
      if is_empty reduced || not (lib.utf8_valid reduced)
      then returns_original
      else if bytes_eq reduced span.value || leb (length span.value) (length marked)
      then continues
      else encoded_turn span (lib.marshal marked)

  unfoldable pub field_turn : Filter → StringSpan → S → S × Turn
  unfolding reduced_turn
  field_turn filter span s =
      if is_empty span.value
      then (s, continues)
      else let r = engine.reduce s filter span.value in (r.0, reduced_turn filter span r.1)

  abbrev pub also : FieldReplacement → S × Collected → S × Collected
  also r (s, collects rs) = (s, collects (r ∷ rs))
  also r (s, c) = (s, c)

  abbrev pub go_on : (S → S × Collected) → S × Turn → S × Collected
  go_on rest (s, replaces r) = also r (rest s)
  go_on rest (s, continues) = rest s
  go_on rest (s, returns_original) = (s, gives_original)
  go_on rest (s, faults) = (s, faulted)

  -- The loop that asks for the reductions.
  unfoldable pub collect : List (Bytes × StringSpan) → List Field → S → S × Collected
  unfolding field_turn span_of
  collect spans [] s = (s, collects [])
  collect spans (f ∷ fs) s =
      go_on (collect spans fs) (field_turn f.filter (or_zero (span_of f.name spans)) s)

  unfoldable pub has_bad_field : List (Bytes × StringSpan) → List Field → Bool
  unfolding span_of
  has_bad_field spans [] = false
  has_bad_field spans (f ∷ fs) =
      is_bad_text (or_zero (span_of f.name spans)).value || has_bad_field spans fs

  abbrev pub checked : Bytes → ℕ → Option Bytes → Option Bytes
  checked raw len none = none
  checked raw len (some patched) =
      if not (length patched == len) || not (lib.json_valid patched) then none else some patched

  abbrev pub patched_within : Bytes → List FieldReplacement → Option ℕ → Option Bytes
  patched_within raw rs none = none
  patched_within raw rs (some len) =
      if leb (length raw) len || not (bounded_combined_size len len limits.max_result_bytes)
      then none
      else checked raw len (patch raw 0 rs)

  -- `transformJSON` behind the loop that asks.
  unfoldable pub patched_text : Bytes → List FieldReplacement → Option Bytes
  unfolding new_length patch bounded_combined_size sort_by_start
  patched_text raw [] = none
  patched_text raw (r ∷ rs) =
      let sorted = sort_by_start (r ∷ rs) in
      patched_within raw sorted (new_length (length raw) sorted)

  abbrev pub with_both : ToolResult → Option Bytes → ToolResult
  with_both original none = original
  with_both original (some patched) = record original { output = patched; structured = patched }

  abbrev pub json_result : ToolResult → S × Collected → S × ToolResult
  json_result original (s, collects rs) =
      (s, with_both original (patched_text original.structured rs))
  json_result original (s, c) = (s, original)

  abbrev pub json_fields :
      ToolResult → List Field → S → Option (List (Bytes × StringSpan)) → S × ToolResult
  json_fields original fields s none = (s, original)
  json_fields original fields s (some spans) =
      if not (length spans == length fields) || has_bad_field spans fields
      then (s, original)
      else json_result original (collect spans fields s)

  unfoldable pub transform_json : ToolResult → List Field → S → S × ToolResult
  unfolding collect has_bad_field patched_text scan_object_strings
  transform_json original fields s =
      if is_empty original.structured || not (bytes_eq original.output original.structured)
      then (s, original)
      else json_fields original fields s (
          scan_object_strings lib original.structured limits.max_json_depth limits.max_json_nodes
            (map (λ f. f.name) fields))

  abbrev pub by_mode : ToolResult → CanonicalBinding → Mode → S → S × ToolResult
  by_mode original binding text_only s = transform_text original binding.fields s
  by_mode original binding json_mirror s = transform_json original binding.fields s
  by_mode original binding other_mode s = (s, original)

  -- From the slot that is taken to its release, which the deferred call makes on every way out.
  unfoldable pub admitted : ToolResult → CanonicalBinding → S → S × ToolResult
  unfolding transform_text transform_json bounded_combined_size
  admitted original binding s =
      let e = engine.ended s in
      if e.1
        || not (
            bounded_combined_size (length original.output) (length original.structured)
              limits.max_result_bytes)
      then (engine.release e.0, original)
      else let r = by_mode original binding binding.mode e.0 in (engine.release r.0, r.1)

  abbrev pub matches_binding : ToolResult → Option CanonicalInputMatch → Bool
  matches_binding input none = true
  matches_binding input (some match) = matches_input input.call_input match

  unfoldable pub bound_transform : ToolResult → CanonicalBinding → S → S × ToolResult
  unfolding admitted matches_input
  bound_transform original binding s =
      let e = engine.ended s in
      if e.1 || not (is_empty original.permission_status)
      then (e.0, original)
      else if not (matches_binding original binding.match_input)
      then (e.0, original)
      else let a = engine.acquire e.0 in
        if a.1 then admitted original binding a.0 else (a.0, original)

  abbrev pub transform_bound : ToolResult → Option CanonicalBinding → S → S × ToolResult
  transform_bound original none s = (s, original)
  transform_bound original (some binding) s = bound_transform original binding s

  -- `transform`
  unfoldable pub transform : List CanonicalBinding → ToolResult → S → S × ToolResult
  unfolding binding_of bound_transform
  transform bindings input s = transform_bound input (binding_of input.tool_name bindings) s
