-- ===== src/WorkspaceInstructions/Tests.antt =====
-- Sections of two small files, the second of which does not fit.
use eino_agent_extensions.Prelude.{◌≡◌, refl, true, false, some, [], ◌∷◌, ◌++◌, Bytes, codes, arith}
use eino_agent_extensions.External.{TextLib}
use eino_agent_extensions.WorkspaceInstructions.Content.{display_path}
use eino_agent_extensions.WorkspaceInstructions.Render.{InstructionFile, render, escape_attribute}
use eino_agent_extensions.WorkspaceInstructions.Render.Escape.{inert, inert-escape_attribute}
use eino_agent_extensions.WorkspaceInstructions.Render.Rollback.{open_section}
use eino_agent_extensions.WorkspaceInstructions.Render.Section.{Rendered, render-Rendered}
use eino_agent_extensions.WorkspaceInstructions.Render.Minimum.{
  Limits, first_file_shown, minimum_section_bytes,
}

abbrev above : InstructionFile
above = record { display = codes "../AGENTS.md"; content = codes "ab"; truncated = false }

abbrev here : InstructionFile
here = record { display = codes "./AGENTS.md"; content = codes "cdefghijklm"; truncated = true }

render-Rendered_example :
    (out : Bytes) × (render 240 (above ∷ here ∷ []) ≡ some out)
    × Rendered 240 (above ∷ here ∷ []) out
render-Rendered_example = render-Rendered 240 (omega arith) above (here ∷ [])

abbrev limits : Limits
limits = record { max_chain_depth = 2; max_file_bytes = 4 }

minimum : minimum_section_bytes (codes "AGENTS.md" ∷ []) limits ≡ 272
unfolding minimum_section_bytes
minimum = refl

first_file_shown_example :
    (out : Bytes) × (after : Bytes) × (render 310 (above ∷ here ∷ []) ≡ some out)
    × (out ≡ open_section (above ∷ []) ++ after)
unfolding display_path
first_file_shown_example =
    first_file_shown (codes "AGENTS.md" ∷ []) limits 310 (omega (arith, minimum)) 2 0 0
      (codes "AGENTS.md") refl (omega arith) (omega arith) above (here ∷ []) refl (omega arith)

inert-escape_attribute_example : inert (escape_attribute (codes "a\"<b&>")) ≡ true
inert-escape_attribute_example = inert-escape_attribute (codes "a\"<b&>")

-- A library in which every text is valid and no byte is space.
abbrev plain : TextLib
plain = record {
  utf8_valid = λ t. true;
  to_valid_utf8 = λ t. t;
  trim_space = λ t. t;
  trim_right_space = λ t. t;
}
