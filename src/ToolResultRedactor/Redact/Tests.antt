-- ===== src/ToolResultRedactor/Redact/Tests.antt =====
-- The redaction of a result with a structured text of three literals.
use eino_agent_extensions.Prelude.{
  ◌-◌, ◌≡◌, refl, true, false, none, some, [], ◌∷◌, ◌++◌, Bytes, codes, length, take, drop, ltb,
  if◌then◌else◌,
}
use eino_agent_extensions.Context.{endless, until}
use eino_agent_extensions.Json.{JsonLib, quote}
use eino_agent_extensions.ToolResultRedactor.Ranges.{merge_ranges, splice}
use eino_agent_extensions.ToolResultRedactor.Matchers.{find}
use eino_agent_extensions.ToolResultRedactor.Scalar.{changed, unsafe, canceled}
use eino_agent_extensions.ToolResultRedactor.Structured.{
  StructuredLimits, structured_placeholder, scan_structured,
}
use eino_agent_extensions.ToolResultRedactor.Redact.{ToolResult}
use eino_agent_extensions.ToolResultRedactor.Tests.{policy}

-- Text without escapes: a literal is its value between quotes.
abbrev plain : JsonLib
plain = record {
  rune_size = λ bs. if ltb 0 (length bs) then 1 else 0;
  rune_error = λ bs. false;
  utf8_valid = λ bs. true;
  json_valid = λ bs. true;
  unmarshal = λ bs. some (take (length bs - 2) (drop 1 bs));
  marshal = λ bs. some (quote ∷ bs ++ quote ∷ []);
}

abbrev limits : StructuredLimits
limits = record { max_structured_bytes = 100; max_structured_depth = 3; max_structured_nodes = 5 }

abbrev literal : Bytes → Bytes
literal text = quote ∷ text ++ quote ∷ []

-- `["", 1, "xx"]`
abbrev texts : Bytes
texts = codes "[" ++ literal [] ++ codes ", 1, " ++ literal (codes "xx") ++ codes "]"

masked_texts :
    scan_structured plain policy limits endless (some texts)
    ≡ some (
      endless,
      some (codes "[" ++ literal [] ++ codes ", 1, " ++ literal (codes "[REDACTED]x") ++ codes "]"),
      changed,
    )
unfolding scan_structured find merge_ranges splice
masked_texts = refl

-- A fifth node more is too many.
too_deep :
    scan_structured plain policy limits endless (some (codes "[[[[1]]]]"))
    ≡ some (endless, some structured_placeholder, unsafe)
unfolding scan_structured
too_deep = refl

ended_early :
    scan_structured plain policy limits (until 3) (some texts)
    ≡ some (until 0, some structured_placeholder, canceled)
unfolding scan_structured
ended_early = refl

abbrev given : ToolResult
given = record {
  output = codes "abx";
  structured = some texts;
  metadata = none;
  attachments = none;
}
