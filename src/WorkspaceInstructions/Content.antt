-- ===== src/WorkspaceInstructions/Content.antt =====
-- `admitContent` and `displayPath` of workspaceinstructions/discover.go.
pub mod Laws
use eino_agent_extensions.Prelude.{
  ℕ, zero, suc, ◌+◌, ◌-◌, Bool, true, false, ◌||◌, not, Option, none, some, List, [], ◌∷◌, ◌++◌,
  Bytes, length, take, ltb, leb, ◌==◌, if◌then◌else◌, codes,
}
use eino_agent_extensions.External.{TextLib, is_empty, has_nul}

-- `strings.Repeat`
abbrev pub repeat : Bytes → ℕ → Bytes
repeat text zero = []
repeat text (suc n) = text ++ repeat text n

-- The index is below the length of the chain.
unfoldable pub display_path : ℕ → ℕ → Bytes → Bytes
display_path chain_length index file_name =
    if index + 1 == chain_length
    then codes "./" ++ file_name
    else repeat (codes "../") (chain_length - 1 - index) ++ file_name

-- `utf8.UTFMax`
abbrev utf_max : ℕ
utf_max = 4

module _ (lib : TextLib) where
  -- The loop that drops the bytes of a character that was cut: from `end - 1` down to `minimum`.
  unfoldable pub valid_prefix : Bytes → ℕ → ℕ → Option Bytes
  valid_prefix raw minimum zero = none
  valid_prefix raw minimum (suc end) =
      let shorter = valid_prefix raw minimum end in
      if leb minimum end
      then (if lib.utf8_valid (take end raw) then some (take end raw) else shorter)
      else none

  -- Up to the test for a zero byte.
  unfoldable pub valid_part : Bytes → Bool → Option Bytes
  unfolding valid_prefix
  valid_part raw truncated =
      if lib.utf8_valid raw
      then some raw
      else if not truncated
      then none
      else valid_prefix raw (length raw + 1 - utf_max) (length raw)

  abbrev pub without_nul : Option Bytes → Bool → Option (Bytes × Bool)
  without_nul none truncated = none
  without_nul (some raw) truncated =
      if has_nul raw
      then none
      else if is_empty (lib.trim_right_space raw)
      then none
      else some (lib.trim_right_space raw, truncated)

  -- The content and whether it is truncated; `none` is a file that is not admitted.
  unfoldable pub admit_content : Bytes → Bool → ℕ → Option (Bytes × Bool)
  unfolding valid_part
  admit_content raw size_exceeded max_bytes =
      let truncated = size_exceeded || ltb max_bytes (length raw) in
      without_nul
        (valid_part (if ltb max_bytes (length raw) then take max_bytes raw else raw) truncated)
        truncated
