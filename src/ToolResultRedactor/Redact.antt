-- ===== src/ToolResultRedactor/Redact.antt =====
-- `redact`, `redactChecked` and `fullyPlaceholderized` of toolresultredactor/redact.go: a whole result.
pub mod Laws
mod Tests
use eino_agent_extensions.Prelude.{Bool, Option, none, some, List, Bytes}
use eino_agent_extensions.Context.{Ctx}
use eino_agent_extensions.Json.{JsonLib}
use eino_agent_extensions.ToolResultRedactor.Ranges.{placeholder}
use eino_agent_extensions.ToolResultRedactor.Scalar.{
  Policy, ScanState, unchanged, changed, unsafe, canceled, scan_scalar,
}
use eino_agent_extensions.ToolResultRedactor.Fields.{
  Metadata, Attachment, Step, going, ended, ◌>>=◌, metadata_placeholder, attachment_placeholder,
  text_of, scan_metadata, checked, scan_attachments,
}
use eino_agent_extensions.ToolResultRedactor.Structured.{
  StructuredLimits, structured_placeholder, scan_structured,
}

pub record ToolResult : Type 0 where
  pub output : Bytes
  pub structured : Option Bytes
  pub metadata : Option Metadata
  pub attachments : Option (List Attachment)

abbrev pub in_place_of {ℓ} : {A : Type ℓ} → A → Option A → Option A
in_place_of hidden none = none
in_place_of hidden (some x) = some hidden

unfoldable pub fully_placeholderized : ToolResult → ToolResult
fully_placeholderized input = record {
  output = placeholder;
  structured = in_place_of structured_placeholder input.structured;
  metadata = in_place_of metadata_placeholder input.metadata;
  attachments = in_place_of attachment_placeholder input.attachments;
}

-- The text of a structured scan, or the end.
abbrev pub structured_of : Option (Ctx × Option Bytes × ScanState) → Option (Step (Option Bytes))
structured_of none = none
structured_of (some (ctx, text, canceled)) = some (ended ctx)
structured_of (some (ctx, text, s)) = some (going ctx text)

-- A canceled scan hides the whole result.
abbrev pub or_hidden : ToolResult → Option (Step ToolResult) → Option ToolResult
or_hidden input none = none
or_hidden input (some (ended ctx)) = some (fully_placeholderized input)
or_hidden input (some (going ctx output)) = some output

-- The recovery from a panic.
abbrev pub recovered : ToolResult → Option ToolResult → ToolResult
recovered input none = fully_placeholderized input
recovered input (some output) = output

module _ (lib : JsonLib) (p : Policy) (limits : StructuredLimits) where
  unfoldable pub scan_fields : Ctx → ToolResult → Option (Step ToolResult)
  unfolding scan_scalar scan_structured scan_metadata scan_attachments
  scan_fields ctx input = checked lib.utf8_valid p ctx >>= λ (ctx, _).
      text_of (scan_scalar lib.utf8_valid p ctx input.output) >>= λ (ctx, output).
      structured_of (scan_structured lib p limits ctx input.structured) >>= λ (ctx, structured).
      scan_metadata lib.utf8_valid p ctx input.metadata >>= λ (ctx, metadata).
      scan_attachments lib.utf8_valid p ctx input.attachments >>= λ (ctx, attachments).
      checked lib.utf8_valid p ctx >>= λ (ctx, _). some (
        going ctx (record {
          output = output;
          structured = structured;
          metadata = metadata;
          attachments = attachments;
        }))

  unfoldable pub redact_checked : Ctx → ToolResult → Option ToolResult
  unfolding scan_fields fully_placeholderized
  redact_checked ctx input = or_hidden input (scan_fields ctx input)

  unfoldable pub redact : Ctx → ToolResult → ToolResult
  unfolding redact_checked fully_placeholderized
  redact ctx input = recovered input (redact_checked ctx input)
