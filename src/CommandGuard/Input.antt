-- ===== src/CommandGuard/Input.antt =====
-- commandguard/input.go: the walk over the JSON tokens of a call's input.
--
-- The tokens come from a `json.Decoder`, whose state is an argument. `value` recurs on fuel for its
-- depth and its loops on fuel for the nodes that are left: see Laws.
pub mod Laws
use eino_agent_extensions.Prelude.{
  ℕ, zero, suc, ◌+◌, Bool, true, false, ◌&&◌, ◌||◌, not, List, [], ◌∷◌, Bytes, bytes_eq, length,
  ltb, leb, ◌==◌, if◌then◌else◌,
}
use eino_agent_extensions.Context.{Ctx, poll}
use eino_agent_extensions.CommandGuard.Words.{
  Outcome, abstain, invalid_command, analysis_limit, one_of,
}
use eino_agent_extensions.CommandGuard.Syntax.{Limits}
use eino_agent_extensions.CommandGuard.Match.{Verdict, says, spent}

-- A delimiter, a string, or a number, a boolean or a null.
pub data Token : Type 0 where
  delim : ℕ → Token
  string : Bytes → Token
  atom : Token

-- What `Token` returns: a token, the end of the input, or another error.
pub data Read : Type 0 where
  token : Token → Read
  eof failed : Read

pub record Decoder (S : Type 0) : Type 0 where
  pub start : Bytes → S
  pub read : S → S × Read
  pub more : S → Bool

-- The variables of `input`.
pub record Reading (S : Type 0) : Type 0 where
  pub ctx : Ctx
  pub decoder : S
  pub nodes : ℕ
  pub command : Bytes
  pub found : Bool

pub data Taken : Type 0 where
  got : Token → Taken
  no : Outcome → Taken

module _ {S : Type 0} (d : Decoder S) (valid_text : Bytes → Bool) (l : Limits) (field : Bytes) where
  -- `take` behind `Token`.
  unfoldable pub taken : Reading S → Read → Reading S × Taken
  taken a (token (string s)) = (a, (if valid_text s then got (string s) else no invalid_command))
  taken a (token t) = (a, got t)
  taken a eof = (a, no invalid_command)
  taken a failed = (a, no invalid_command)

  unfoldable pub take : Reading S → Reading S × Taken
  unfolding taken
  take a =
      let b = record a { ctx = (poll a.ctx).1 } in
      if (poll a.ctx).0
      then (b, no invalid_command)
      else if leb l.max_json_nodes b.nodes
      then (b, no analysis_limit)
      else taken (record b { nodes = b.nodes + 1; decoder = (d.read b.decoder).0 })
          (d.read b.decoder).1

  abbrev pub Scan : Type 0
  Scan = Reading S × Verdict

  abbrev pub on_token : Reading S × Taken → (Reading S → Token → Scan) → Scan
  on_token (a, no o) next = (a, says o)
  on_token (a, got t) next = next a t

  abbrev pub go_on : Scan → (Reading S → Scan) → Scan
  go_on (a, says abstain) next = next a
  go_on (a, v) next = (a, v)

  -- The value of the command's field.
  unfoldable pub store : Reading S → Token → Scan
  store a (string s) =
      if ltb l.max_command_bytes (length s)
      then (record a { command = s }, says analysis_limit)
      else (record a { command = s; found = true }, says abstain)
  store a t = (record a { command = [] }, says invalid_command)

  unfoldable pub command_field : ℕ → Reading S → Scan
  unfolding take store
  command_field depth a =
      if leb l.max_json_depth depth then (a, says analysis_limit) else on_token (take a) store

  -- One member of an object, with the values below it and the members behind it.
  unfoldable pub member :
      ℕ
      → Bool
      → List Bytes
      → (Reading S → Scan)
      → (List Bytes → Reading S → Scan)
      → Reading S
      → Token
      → Scan
  unfolding command_field
  member depth root seen below rest a (string s) =
      if one_of s seen
      then (a, says invalid_command)
      else go_on (if root && bytes_eq s field then command_field depth a else below a)
          (rest (s ∷ seen))
  member depth root seen below rest a t = (a, says invalid_command)

  -- The loop over an object.
  unfoldable pub object : ℕ → ℕ → Bool → (Reading S → Scan) → List Bytes → Reading S → Scan
  unfolding member
  object zero depth root below seen a = (a, spent)
  object (suc fuel) depth root below seen a =
      if d.more a.decoder
      then on_token (take a) (member depth root seen below (object fuel depth root below))
      else (a, says abstain)

  -- The loop over an array.
  unfoldable pub array : ℕ → (Reading S → Scan) → Reading S → Scan
  array zero below a = (a, spent)
  array (suc fuel) below a =
      if d.more a.decoder then go_on (below a) (array fuel below) else (a, says abstain)

  abbrev pub is_delim : ℕ → Read → Bool
  is_delim c (token (delim e)) = e == c
  is_delim c r = false

  -- The closing delimiter.
  unfoldable pub close : ℕ → Reading S → Scan
  close c a =
      let r = d.read a.decoder in
      (record a { decoder = r.0 }, says (if is_delim c r.1 then abstain else invalid_command))

  -- A value, from its first token on.
  unfoldable pub container : ℕ → Bool → (Reading S → Scan) → Reading S → Token → Scan
  unfolding object array close
  container depth root below a (delim c) =
      if root && not (c == b'{')
      then (a, says invalid_command)
      else if c == b'{'
      then go_on (object (l.max_json_nodes + 1) depth root below [] a) (close b'}')
      else if c == b'['
      then go_on (array (l.max_json_nodes + 1) below a) (close b']')
      else (a, says invalid_command)
  container depth root below a t = (a, says (if root then invalid_command else abstain))

  unfoldable pub value : ℕ → ℕ → Bool → Reading S → Scan
  unfolding container take
  value zero depth root a = (a, spent)
  value (suc fuel) depth root a =
      if ltb l.max_json_depth depth
      then (a, says analysis_limit)
      else on_token (take a) (container depth root (value fuel (depth + 1) false))

  -- Behind the root value.
  abbrev pub ended : Read → Bool
  ended eof = true
  ended r = false

  abbrev pub at_root_end : Reading S → Scan
  at_root_end a =
      let r = d.read a.decoder in
      (
        record a { decoder = r.0 },
        says (if not (ended r.1) || not a.found then invalid_command else abstain),
      )

  abbrev pub reading : Ctx → Bytes → Reading S
  reading ctx raw = record {
    ctx = ctx;
    decoder = d.start raw;
    nodes = 0;
    command = [];
    found = false;
  }

  -- `input`: on `abstain` the command is in the state.
  unfoldable pub input : Ctx → Bytes → Scan
  unfolding value
  input ctx raw =
      let a = reading ctx raw in
      if ltb l.max_raw_input_bytes (length raw)
      then (a, says analysis_limit)
      else if not (valid_text raw)
      then (a, says invalid_command)
      else go_on (value (l.max_json_depth + 1) 1 true a) at_root_end
