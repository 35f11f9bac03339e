-- ===== src/RtkReducer/Json.antt =====
-- `scanObjectStrings` of rtkreducer/json.go: the string members of a root object, by their spans.
--
-- `parseValue` recurs on fuel for the depth, which it tests; the loops run on fuel for the nodes,
-- since each turn counts one.
pub mod Spans
pub mod Members
pub mod Ends
use eino_agent_extensions.Prelude.{
  ℕ, zero, suc, ◌+◌, Bool, true, false, ◌&&◌, ◌||◌, not, Option, none, some, List, [], ◌∷◌, Bytes,
  bytes_eq, length, drop, get_elem?, ltb, leb, ◌==◌, if◌then◌else◌,
}
use eino_agent_extensions.Json.{
  JsonLib, leading_spaces, primitive_length, is_byte, quote, parse_string_literal,
}

pub record StringSpan : Type 0 where
  pub start : ℕ
  pub end : ℕ
  pub value : Bytes

-- `found` has the newest span first.
pub record ObjectScanner : Type 0 where
  pub position : ℕ
  pub nodes : ℕ
  pub found : List (Bytes × StringSpan)

-- What a function of the scanner returns; `spent` is the fuel of the model.
pub data Verdict : Type 0 where
  passes fails spent : Verdict

abbrev pub Scanned : Type 0
Scanned = ObjectScanner × Verdict

unfoldable pub and_then : Scanned → (ObjectScanner → Scanned) → Scanned
and_then (s, passes) next = next s
and_then (s, v) next = (s, v)

abbrev pub contains : Bytes → List Bytes → Bool
contains key [] = false
contains key (k ∷ ks) = bytes_eq k key || contains key ks

module _ (lib : JsonLib) (raw : Bytes) (max_depth max_nodes : ℕ) (requested : List Bytes) where
  abbrev pub current : ObjectScanner → Option ℕ
  current s = get_elem? raw s.position

  abbrev pub skip_space : ObjectScanner → ObjectScanner
  skip_space s = record s { position = s.position + leading_spaces (drop s.position raw) }

  abbrev pub step : ObjectScanner → ObjectScanner
  step s = record s { position = s.position + 1 }

  -- `consumeNode` and what follows where it passes.
  unfoldable pub consume_node : ObjectScanner → (ObjectScanner → Scanned) → Scanned
  consume_node s next =
      if leb max_nodes s.nodes then (s, fails) else next (record s { nodes = s.nodes + 1 })

  -- A byte that has to come next, and what follows it.
  unfoldable pub expect : ℕ → ObjectScanner → (ObjectScanner → Scanned) → Scanned
  expect c s next = if is_byte c (current s) then next s else (s, fails)

  -- A literal at the position, and what follows it.
  unfoldable pub with_literal :
      ObjectScanner → Option (ℕ × Bytes) → (ObjectScanner → ℕ → Bytes → Scanned) → Scanned
  with_literal s none next = (s, fails)
  with_literal s (some (end, value)) next =
      if lib.utf8_valid value then next (record s { position = end }) end value else (s, fails)

  unfoldable pub literal : ObjectScanner → (ObjectScanner → ℕ → Bytes → Scanned) → Scanned
  unfolding with_literal parse_string_literal
  literal s next = with_literal s (parse_string_literal lib raw s.position) next

  unfoldable pub parse_primitive : ObjectScanner → Scanned
  unfolding primitive_length
  parse_primitive s =
      let n = primitive_length (drop s.position raw) in
      (record s { position = s.position + n }, (if n == 0 then fails else passes))

  -- Behind a member or an element: the end, or a comma and the next one.
  unfoldable pub after_item : ℕ → ObjectScanner → (ObjectScanner → Scanned) → Scanned
  after_item close s next =
      if is_byte close (current s)
      then (step s, passes)
      else (if is_byte b',' (current s) then next (step s) else (s, fails))

  -- The value of a requested member.
  unfoldable pub wanted_value : ℕ → Bytes → ObjectScanner → Scanned
  unfolding consume_node expect literal
  wanted_value depth key s =
      if ltb max_depth (depth + 1)
      then (s, fails)
      else consume_node s λ t. expect quote t λ u. literal u λ v end value. (
        record v {
          found = (key, record { start = u.position; end = end; value = value }) ∷ v.found;
        },
        passes,
      )

  abbrev pub member_value : ℕ → Bool → Bytes → (ObjectScanner → Scanned) → ObjectScanner → Scanned
  member_value depth root key below s =
      if root && contains key requested then wanted_value depth key s else below s

  -- A member's value, and what follows the member.
  unfoldable pub member_rest :
      ℕ
      → Bool
      → Bytes
      → (ObjectScanner → Scanned)
      → (ObjectScanner → Scanned)
      → ObjectScanner
      → Scanned
  unfolding and_then after_item wanted_value leading_spaces
  member_rest depth root key below more s =
      and_then (member_value depth root key below (skip_space (step s)))
        (λ t. after_item b'}' (skip_space t) more)

  -- A member behind its key; `seen` has the keys of the members before it.
  unfoldable pub keyed :
      ℕ
      → Bool
      → (ObjectScanner → Scanned)
      → List Bytes
      → (List Bytes → ObjectScanner → Scanned)
      → ObjectScanner
      → ℕ
      → Bytes
      → Scanned
  unfolding expect member_rest leading_spaces
  keyed depth root below seen more s end key =
      if contains key seen
      then (s, fails)
      else expect b':' (skip_space s) (member_rest depth root key below (more (key ∷ seen)))

  unfoldable pub member :
      ℕ
      → Bool
      → (ObjectScanner → Scanned)
      → List Bytes
      → (List Bytes → ObjectScanner → Scanned)
      → ObjectScanner
      → Scanned
  unfolding expect literal keyed leading_spaces
  member depth root below seen more s =
      expect quote (skip_space s) (λ t. literal t (keyed depth root below seen more))

  -- The loop over an object's members.
  unfoldable pub members :
      ℕ → ℕ → Bool → (ObjectScanner → Scanned) → List Bytes → ObjectScanner → Scanned
  unfolding consume_node member
  members zero depth root below seen s = (s, spent)
  members (suc fuel) depth root below seen s =
      consume_node s (member depth root below seen (members fuel depth root below))

  unfoldable pub parse_object : ℕ → Bool → (ObjectScanner → Scanned) → ObjectScanner → Scanned
  unfolding members
  parse_object depth root below s =
      let t = skip_space (step s) in
      if is_byte b'}' (current t)
      then (step t, passes)
      else members (max_nodes + 1) depth root below [] t

  -- The loop over an array's elements.
  unfoldable pub elements : ℕ → (ObjectScanner → Scanned) → ObjectScanner → Scanned
  unfolding and_then after_item leading_spaces
  elements zero below s = (s, spent)
  elements (suc fuel) below s =
      and_then (below s) (λ t. after_item b']' (skip_space t) (elements fuel below))

  unfoldable pub parse_array : (ObjectScanner → Scanned) → ObjectScanner → Scanned
  unfolding elements
  parse_array below s =
      let t = skip_space (step s) in
      if is_byte b']' (current t) then (step t, passes) else elements (max_nodes + 1) below t

  -- The switch of parseValue over the byte at the position.
  abbrev pub dispatch : ℕ → Bool → (ObjectScanner → Scanned) → ObjectScanner → Option ℕ → Scanned
  dispatch depth root below s none = (s, fails)
  dispatch depth root below s (some c) =
      if c == b'{'
      then parse_object depth root below s
      else if root
      then (s, fails)
      else if c == b'['
      then parse_array below s
      else if c == quote
      then literal s (λ t end value. (t, passes))
      else parse_primitive s

  unfoldable pub parse_value : ℕ → ℕ → Bool → ObjectScanner → Scanned
  unfolding consume_node literal parse_object parse_array parse_primitive leading_spaces
  parse_value zero depth root s = (s, spent)
  parse_value (suc fuel) depth root s =
      if ltb max_depth depth
      then (s, fails)
      else consume_node s λ t.
        dispatch depth root (parse_value fuel (depth + 1) false) (skip_space t)
          (current (skip_space t))

  abbrev pub at_end : ObjectScanner → Scanned
  at_end s = if s.position == length raw then (s, passes) else (s, fails)

  unfoldable pub scan_root : Scanned
  unfolding and_then parse_value
  scan_root =
      and_then (parse_value (max_depth + 1) 1 true (record { position = 0; nodes = 0; found = [] }))
        (λ s. at_end (skip_space s))

  abbrev pub spans_of : Scanned → Option (List (Bytes × StringSpan))
  spans_of (s, passes) = some s.found
  spans_of (s, v) = none

  -- `scanObjectStrings`; `none` is a refusal.
  unfoldable pub scan_object_strings : Option (List (Bytes × StringSpan))
  unfolding scan_root
  scan_object_strings =
      if length raw == 0
        || max_depth == 0
        || max_nodes == 0
        || not (lib.json_valid raw)
        || not (lib.utf8_valid raw)
      then none
      else spans_of scan_root
