-- ===== src/ToolResultRedactor/Structured/Results.antt =====
-- `scanStructured` of toolresultredactor/json.go: its result, by the state of the scan.
use eino_agent_extensions.Prelude.{ℕ, ◌≡◌, Option, some, Bytes, length, drop}
use eino_agent_extensions.Context.{Ctx}
use eino_agent_extensions.Json.{JsonLib}
use eino_agent_extensions.Json.Rewriting.{Rewritten}
use eino_agent_extensions.ToolResultRedactor.Scalar.{
  Policy, ScanState, unchanged, changed, unsafe, canceled,
}
use eino_agent_extensions.ToolResultRedactor.Scalar.Laws.{AreMatchers}
use eino_agent_extensions.ToolResultRedactor.Structured.{StructuredLimits, structured_placeholder}
use eino_agent_extensions.ToolResultRedactor.Structured.Redactions.{IsRedaction, Scans}

module _ (lib : JsonLib) (p : Policy) (limits : StructuredLimits) (raw : Bytes)
    (l : AreMatchers p.rules) where
  abbrev Writes : ℕ → Option Bytes → Type 0
  Writes from o =
      (out : Bytes) × (o ≡ some out)
      × Rewritten (IsRedaction lib p limits raw l) (drop from raw) out

  -- What a scan may return, with what state: the text if every literal of it is clean, the text with
  -- every literal clean or redacted, or the placeholder.
  abbrev pub Scanned : Bytes → ScanState → Type 0
  Scanned out unchanged = (out ≡ raw) × Scans lib p limits raw l (length raw) out
  Scanned out changed =
      Rewritten (IsRedaction lib p limits raw l) raw out × Scans lib p limits raw l (length raw) out
  Scanned out unsafe = out ≡ structured_placeholder
  Scanned out canceled = out ≡ structured_placeholder

  abbrev pub Returns : Option (Ctx × Bytes × ScanState) → Type 0
  Returns r =
      (ctx : Ctx) × (out : Bytes) × (s : ScanState) × (r ≡ some (ctx, out, s)) × Scanned out s
