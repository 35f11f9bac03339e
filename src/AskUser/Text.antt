-- ===== src/AskUser/Text.antt =====
-- askuser/tool.go: the checks on text.
use eino_agent_extensions.Prelude.{ℕ, Bool, ◌&&◌, not, Bytes, length, leb}
use eino_agent_extensions.External.{TextLib, has_nul, is_empty}

module _ (lib : TextLib) where
  unfoldable pub valid_text : Bytes → ℕ → Bool
  valid_text value maximum =
      lib.utf8_valid value && leb (length value) maximum && not (has_nul value)

  unfoldable pub valid_required_text : Bytes → ℕ → Bool
  unfolding valid_text
  valid_required_text value maximum =
      valid_text value maximum && not (is_empty (lib.trim_space value))
