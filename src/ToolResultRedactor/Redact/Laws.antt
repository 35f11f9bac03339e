-- ===== src/ToolResultRedactor/Redact/Laws.antt =====
-- `redact` of toolresultredactor/redact.go: each part of the result that comes out.
use eino_agent_extensions.Prelude.{◌≡◌, ◌⊎◌, Option, none, some, Bytes, length}
use eino_agent_extensions.Json.{JsonLib}
use eino_agent_extensions.ToolResultRedactor.Scalar.{Policy}
use eino_agent_extensions.ToolResultRedactor.Scalar.Laws.{AreMatchers}
use eino_agent_extensions.ToolResultRedactor.Fields.Laws.{Redacted, MetadataSafe, AttachmentsSafe}
use eino_agent_extensions.ToolResultRedactor.Structured.{StructuredLimits, structured_placeholder}
use eino_agent_extensions.ToolResultRedactor.Structured.Redactions.{Scans}
use eino_agent_extensions.ToolResultRedactor.Redact.{ToolResult}

module _ (lib : JsonLib) (p : Policy) (limits : StructuredLimits) (l : AreMatchers p.rules) where
  -- The placeholder, or the tokens of the text with every literal clean or redacted; nil stays nil.
  abbrev pub StructuredSafe : Option Bytes → Option Bytes → Type 0
  StructuredSafe none out = out ≡ none
  StructuredSafe (some raw) none = ⊥
  StructuredSafe (some raw) (some out) =
      (out ≡ structured_placeholder) ⊎ Scans lib p limits raw l (length raw) out

  pub record ResultSafe (input out : ToolResult) : Type 0 where
    pub output : Redacted lib.utf8_valid p l input.output out.output
    pub structured : StructuredSafe input.structured out.structured
    pub metadata : MetadataSafe lib.utf8_valid p l input.metadata out.metadata
    pub attachments : AttachmentsSafe lib.utf8_valid p l input.attachments out.attachments

  abbrev pub Redacts : ToolResult → Option ToolResult → Type 0
  Redacts input r = (out : ToolResult) × (r ≡ some out) × ResultSafe input out
