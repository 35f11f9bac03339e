-- ===== src/ToolResultRedactor/Structured.antt =====
-- `scanStructured` of toolresultredactor/json.go: the string literals of a JSON text, each with its
-- matches redacted, or the whole text hidden.
--
-- `parseValue` recurs on fuel for the depth, which it tests; the loops run on fuel for the nodes,
-- since each turn counts one.
pub mod Redactions
pub mod Walks
pub mod Laws
pub mod Results
use eino_agent_extensions.Prelude.{
  ℕ, zero, suc, ◌+◌, ◌-◌, Bool, true, false, ◌||◌, not, Option, none, some, List, [], ◌∷◌, ◌++◌,
  Bytes, codes, length, take, drop, get_elem?, ltb, leb, ◌==◌, if◌then◌else◌,
}
use eino_agent_extensions.Context.{Ctx, poll}
use eino_agent_extensions.Json.{
  JsonLib, leading_spaces, primitive_length, is_byte, quote, parse_string_literal,
}
use eino_agent_extensions.ToolResultRedactor.Ranges.{placeholder}
use eino_agent_extensions.ToolResultRedactor.Scalar.{
  Policy, ScanState, unchanged, changed, unsafe, canceled, scan_scalar,
}

pub record StructuredLimits : Type 0 where
  pub max_structured_bytes : ℕ
  pub max_structured_depth : ℕ
  pub max_structured_nodes : ℕ

abbrev pub structured_placeholder : Bytes
structured_placeholder = quote ∷ placeholder ++ quote ∷ []

pub record JsonReplacement : Type 0 where
  pub start : ℕ
  pub end : ℕ
  pub value : Bytes

pub record JsonWalker : Type 0 where
  pub ctx : Ctx
  pub position : ℕ
  pub nodes : ℕ
  pub replacements : List JsonReplacement

-- What a function of the walker returns. `spent` is the fuel of the model, `faulted` a scan of a text
-- that does not return.
pub data Verdict : Type 0 where
  state : ScanState → Verdict
  spent faulted : Verdict

abbrev pub Walked : Type 0
Walked = JsonWalker × Verdict

-- `if state := ...; state != scanUnchanged { return state }`
unfoldable pub and_then : Walked → (JsonWalker → Walked) → Walked
and_then (w, state unchanged) next = next w
and_then (w, v) next = (w, v)

module _ (lib : JsonLib) (p : Policy) (limits : StructuredLimits) (raw : Bytes) where
  abbrev pub current : JsonWalker → Option ℕ
  current w = get_elem? raw w.position

  abbrev pub skip_space : JsonWalker → JsonWalker
  skip_space w = record w { position = w.position + leading_spaces (drop w.position raw) }

  abbrev pub step : JsonWalker → JsonWalker
  step w = record w { position = w.position + 1 }

  -- `if w.ctx.Err() != nil { return scanCanceled }`, and what follows.
  unfoldable pub unless_ended : JsonWalker → (JsonWalker → Walked) → Walked
  unless_ended w next =
      let v = record w { ctx = (poll w.ctx).1 } in
      if (poll w.ctx).0 then (v, state canceled) else next v

  -- `consumeNode`, which counts the node before its test, and what follows.
  unfoldable pub consume_node : JsonWalker → (JsonWalker → Walked) → Walked
  consume_node w next =
      let v = record w { nodes = w.nodes + 1 } in
      if leb v.nodes limits.max_structured_nodes then next v else (v, state unsafe)

  unfoldable pub expect : ℕ → JsonWalker → (JsonWalker → Walked) → Walked
  expect c w next = if is_byte c (current w) then next w else (w, state unsafe)

  unfoldable pub with_literal :
      JsonWalker → Option (ℕ × Bytes) → (JsonWalker → ℕ → Bytes → Walked) → Walked
  with_literal w none next = (w, state unsafe)
  with_literal w (some (end, value)) next = next (record w { position = end }) end value

  unfoldable pub literal : JsonWalker → (JsonWalker → ℕ → Bytes → Walked) → Walked
  unfolding with_literal parse_string_literal
  literal w next = with_literal w (parse_string_literal lib raw w.position) next

  abbrev pub replaced : JsonWalker → ℕ → ℕ → Bytes → JsonWalker
  replaced w start end value = record w {
    replacements = w.replacements ++ record { start = start; end = end; value = value } ∷ [];
  }

  abbrev pub marshaled : JsonWalker → ℕ → ℕ → Option Bytes → Walked
  marshaled w start end none = (w, state unsafe)
  marshaled w start end (some value) = (replaced w start end value, state unchanged)

  -- The switch over the scan of a string value.
  unfoldable pub redact_value : JsonWalker → ℕ → ℕ → Option (Ctx × Bytes × ScanState) → Walked
  redact_value w start end none = (w, faulted)
  redact_value w start end (some (ctx, text, canceled)) = (record w { ctx = ctx }, state canceled)
  redact_value w start end (some (ctx, text, unsafe)) =
      (replaced (record w { ctx = ctx }) start end structured_placeholder, state unchanged)
  redact_value w start end (some (ctx, text, changed)) =
      marshaled (record w { ctx = ctx }) start end (lib.marshal text)
  redact_value w start end (some (ctx, text, unchanged)) = (record w { ctx = ctx }, state unchanged)

  -- The test of a key's scan, and what follows it.
  unfoldable pub clean_key :
      JsonWalker → Option (Ctx × Bytes × ScanState) → (JsonWalker → Walked) → Walked
  clean_key w none next = (w, faulted)
  clean_key w (some (ctx, text, canceled)) next = (record w { ctx = ctx }, state canceled)
  clean_key w (some (ctx, text, unchanged)) next = next (record w { ctx = ctx })
  clean_key w (some (ctx, text, s)) next = (record w { ctx = ctx }, state unsafe)

  unfoldable pub string_value : ℕ → JsonWalker → ℕ → Bytes → Walked
  unfolding redact_value scan_scalar
  string_value start w end value =
      redact_value w start end (scan_scalar lib.utf8_valid p w.ctx value)

  unfoldable pub parse_primitive : JsonWalker → Walked
  unfolding primitive_length
  parse_primitive w =
      let n = primitive_length (drop w.position raw) in
      (record w { position = w.position + n }, (if n == 0 then state unsafe else state unchanged))

  unfoldable pub after_item : ℕ → JsonWalker → (JsonWalker → Walked) → Walked
  after_item close w next =
      if is_byte close (current w)
      then (step w, state unchanged)
      else (if is_byte b',' (current w) then next (step w) else (w, state unsafe))

  -- A member's value, and what follows the member.
  unfoldable pub member_rest : (JsonWalker → Walked) → (JsonWalker → Walked) → JsonWalker → Walked
  unfolding and_then after_item leading_spaces
  member_rest below more w = and_then (below (step w)) (λ v. after_item b'}' (skip_space v) more)

  unfoldable pub behind_key : (JsonWalker → Walked) → (JsonWalker → Walked) → JsonWalker → Walked
  unfolding expect member_rest leading_spaces
  behind_key below more w = expect b':' (skip_space w) (member_rest below more)

  unfoldable pub keyed :
      (JsonWalker → Walked) → (JsonWalker → Walked) → JsonWalker → ℕ → Bytes → Walked
  unfolding clean_key behind_key scan_scalar
  keyed below more w end key =
      clean_key w (scan_scalar lib.utf8_valid p w.ctx key) (behind_key below more)

  unfoldable pub member : (JsonWalker → Walked) → (JsonWalker → Walked) → JsonWalker → Walked
  unfolding expect literal keyed leading_spaces
  member below more w = expect quote (skip_space w) (λ v. literal v (keyed below more))

  -- The loop over an object's members.
  unfoldable pub members : ℕ → (JsonWalker → Walked) → JsonWalker → Walked
  unfolding unless_ended consume_node member
  members zero below w = (w, spent)
  members (suc fuel) below w =
      unless_ended w (λ v. consume_node v (member below (members fuel below)))

  unfoldable pub parse_object : (JsonWalker → Walked) → JsonWalker → Walked
  unfolding members
  parse_object below w =
      let v = skip_space (step w) in
      if is_byte b'}' (current v)
      then (step v, state unchanged)
      else members (limits.max_structured_nodes + 1) below v

  -- The loop over an array's elements.
  unfoldable pub elements : ℕ → (JsonWalker → Walked) → JsonWalker → Walked
  unfolding and_then after_item leading_spaces
  elements zero below w = (w, spent)
  elements (suc fuel) below w =
      and_then (below w) (λ v. after_item b']' (skip_space v) (elements fuel below))

  unfoldable pub parse_array : (JsonWalker → Walked) → JsonWalker → Walked
  unfolding elements
  parse_array below w =
      let v = skip_space (step w) in
      if is_byte b']' (current v)
      then (step v, state unchanged)
      else elements (limits.max_structured_nodes + 1) below v

  abbrev pub dispatch : (JsonWalker → Walked) → JsonWalker → Option ℕ → Walked
  dispatch below w none = (w, state unsafe)
  dispatch below w (some c) =
      if c == b'{'
      then parse_object below w
      else if c == b'['
      then parse_array below w
      else (if c == quote then literal w (string_value w.position) else parse_primitive w)

  abbrev pub spaced_value : (JsonWalker → Walked) → JsonWalker → Walked
  spaced_value below w = dispatch below (skip_space w) (current (skip_space w))

  abbrev pub shallow : ℕ → (JsonWalker → Walked) → JsonWalker → Walked
  shallow depth next w =
      if ltb limits.max_structured_depth depth then (w, state unsafe) else consume_node w next

  unfoldable pub parse_value : ℕ → ℕ → JsonWalker → Walked
  unfolding unless_ended consume_node literal string_value parse_object parse_array parse_primitive
      leading_spaces
  parse_value zero depth w = (w, spent)
  parse_value (suc fuel) depth w =
      unless_ended w (shallow depth (spaced_value (parse_value fuel (depth + 1))))

  abbrev pub put_before : Bytes → Option Bytes → Option Bytes
  put_before text none = none
  put_before text (some rest) = some (text ++ rest)

  -- The loop that writes the output; `none` is a slice out of range.
  unfoldable pub write_out : ℕ → List JsonReplacement → Option Bytes
  write_out position [] = if ltb (length raw) position then none else some (drop position raw)
  write_out position (r ∷ rs) =
      let rest = write_out r.end rs in
      if ltb r.start position || ltb (length raw) r.start
      then none
      else put_before (take (r.start - position) (drop position raw) ++ r.value) rest

  -- What `scanStructured` returns of a text that is there; `none` is a fault.
  abbrev pub Structured : Type 0
  Structured = Option (Ctx × Bytes × ScanState)

  abbrev pub hidden : Ctx → ScanState → Structured
  hidden ctx s = some (ctx, structured_placeholder, s)

  abbrev pub written : Ctx → Option Bytes → Structured
  written ctx none = none
  written ctx (some out) = some (ctx, out, changed)

  abbrev pub output : Ctx → List JsonReplacement → Structured
  output ctx [] = some (ctx, raw, unchanged)
  output ctx (r ∷ rs) = written ctx (write_out 0 (r ∷ rs))

  -- The lines behind the walk.
  unfoldable pub concluded : Walked → Structured
  unfolding write_out leading_spaces
  concluded (w, spent) = none
  concluded (w, faulted) = none
  concluded (w, state s) =
      let ctx = (poll w.ctx).1 in
      let v = skip_space w in
      if (poll w.ctx).0 then hidden ctx canceled else elim s [
        | canceled ↦ hidden ctx canceled
        | unsafe ↦ hidden ctx unsafe
        | changed ↦
            if not (v.position == length raw) then hidden ctx unsafe else output ctx v.replacements
        | unchanged ↦
            if not (v.position == length raw) then hidden ctx unsafe else output ctx v.replacements
      ]

  unfoldable pub walk : Ctx → Walked
  unfolding parse_value
  walk ctx =
      parse_value (limits.max_structured_depth + 1) 1
        (record { ctx = ctx; position = 0; nodes = 0; replacements = [] })

  unfoldable pub scan_present : Ctx → Structured
  unfolding walk concluded
  scan_present ctx =
      if length raw == 0
      then some (ctx, raw, unchanged)
      else if (poll ctx).0
      then hidden (poll ctx).1 canceled
      else if ltb limits.max_structured_bytes (length raw) || not (lib.json_valid raw)
      then hidden (poll ctx).1 unsafe
      else concluded (walk (poll ctx).1)

abbrev pub present : Option (Ctx × Bytes × ScanState) → Option (Ctx × Option Bytes × ScanState)
present none = none
present (some (ctx, out, s)) = some (ctx, some out, s)

-- `scanStructured`; nil is `none` inside.
unfoldable pub scan_structured :
    JsonLib
    → Policy
    → StructuredLimits
    → Ctx
    → Option Bytes
    → Option (Ctx × Option Bytes × ScanState)
unfolding scan_present
scan_structured lib p limits ctx none = some (ctx, none, unchanged)
scan_structured lib p limits ctx (some raw) = present (scan_present lib p limits raw ctx)
