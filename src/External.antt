-- ===== src/External.antt =====
-- Functions of the Go standard library that the packages call on text. They are not under src/:
-- a model takes them as this record. The hypotheses a theorem needs of them stand in its statement.
use eino_agent_extensions.Prelude.{Bool, true, false, [], ◌∷◌, Bytes, ◌==◌, if◌then◌else◌}

pub record TextLib : Type 0 where
  -- `unicode/utf8.ValidString` and `Valid`
  pub utf8_valid : Bytes → Bool
  -- `strings.ToValidUTF8(s, "")`
  pub to_valid_utf8 : Bytes → Bytes
  -- `strings.TrimSpace`
  pub trim_space : Bytes → Bytes
  -- `strings.TrimRightFunc(s, unicode.IsSpace)`
  pub trim_right_space : Bytes → Bytes

-- What `context.Context.Err` returns when it is not nil.
pub data CtxErr : Type 0 where
  canceled deadline_exceeded : CtxErr

abbrev pub is_empty : Bytes → Bool
is_empty [] = true
is_empty (x ∷ xs) = false

-- `strings.IndexByte(value, 0) >= 0`
abbrev pub has_nul : Bytes → Bool
has_nul [] = false
has_nul (x ∷ xs) = if x == 0 then true else has_nul xs
