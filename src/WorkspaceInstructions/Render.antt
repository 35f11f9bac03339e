-- ===== src/WorkspaceInstructions/Render.antt =====
-- workspaceinstructions/render.go: the section is written file by file; when one does not fit, whole
-- files are rolled back until the marker for omitted files fits.
pub mod Escape
pub mod Rollback
pub mod Section
pub mod Minimum
use eino_agent_extensions.Prelude.{
  ℕ, zero, suc, ◌+◌, ◌-◌, ◌*◌, Bool, true, false, not, Option, none, some, List, [], ◌∷◌, ◌++◌,
  Bytes, length, take, ltb, leb, ◌==◌, if◌then◌else◌, codes,
}

abbrev pub section_open : Bytes
section_open = codes "<workspace_instructions version=\"workspace-instructions-render-v1\">"

abbrev pub section_close : Bytes
section_close = codes "</workspace_instructions>"

abbrev pub file_open_prefix : Bytes
file_open_prefix = codes "<file path=\""

abbrev pub truncated_attr : Bytes
truncated_attr = codes " truncated=\"true\""

abbrev pub file_close : Bytes
file_close = codes "</file>"

abbrev pub truncated_marker : Bytes
truncated_marker = codes "[truncated: file exceeds the configured limit]"

abbrev pub omitted_marker : Bytes
omitted_marker = codes "[omitted: remaining instruction files exceed the configured section limit]"

abbrev pub line_break_bytes : ℕ
line_break_bytes = 1

abbrev pub line_break : Bytes
line_break = b'\n' ∷ []

pub record InstructionFile : Type 0 where
  pub display : Bytes
  pub content : Bytes
  pub truncated : Bool

-- `checkpoints` has the newest first.
pub record SectionSink : Type 0 where
  pub buffer : Bytes
  pub checkpoints : List ℕ
  pub limit : ℕ
  pub started : Bool
  pub omitted : Bool

unfoldable pub new_section_sink : ℕ → SectionSink
new_section_sink limit = record {
  buffer = [];
  checkpoints = [];
  limit = limit;
  started = false;
  omitted = false;
}

-- The replacer replaces single bytes.
unfoldable pub escape_byte : ℕ → Bytes
escape_byte b =
    if b == b'&'
    then codes "&amp;"
    else if b == b'"'
    then codes "&quot;"
    else if b == b'<'
    then codes "&lt;"
    else if b == b'>'
    then codes "&gt;"
    else b ∷ []

unfoldable pub escape_attribute : Bytes → Bytes
unfolding escape_byte
escape_attribute [] = []
escape_attribute (b ∷ bs) = escape_byte b ++ escape_attribute bs

abbrev pub when : Bool → Bytes → Bytes
when true text = text
when false text = []

-- What `appendFile` writes behind the buffer.
unfoldable pub file_text : InstructionFile → Bytes
unfolding escape_attribute
file_text file =
    file_open_prefix
    ++ escape_attribute file.display
    ++ codes "\""
    ++ when file.truncated truncated_attr
    ++ codes ">\n"
    ++ file.content
    ++ line_break
    ++ when file.truncated (truncated_marker ++ line_break)
    ++ file_close
    ++ line_break

unfoldable pub append_file : Bytes → InstructionFile → Bytes
unfolding file_text
append_file builder file = builder ++ file_text file

unfoldable pub rendered_file_size : Bytes → ℕ → Bool → ℕ
unfolding escape_attribute
rendered_file_size display content_bytes truncated =
    length file_open_prefix
    + length (escape_attribute display)
    + 1
    + 1
    + line_break_bytes
    + content_bytes
    + line_break_bytes
    + length file_close
    + line_break_bytes
    + (if truncated then length truncated_attr + length truncated_marker + line_break_bytes else 0)

-- `bytes.Buffer.Truncate`, which panics on more bytes than there are.
unfoldable pub truncate : ℕ → Bytes → Option Bytes
truncate n buffer = if ltb (length buffer) n then none else some (take n buffer)

-- `sink.buffer.Len() > markerBudget`; the budget may be negative.
unfoldable pub over_budget : ℕ → Bytes → Bool
over_budget limit buffer =
    ltb limit (length buffer + (length omitted_marker + line_break_bytes + length section_close))

-- The loop of `add`.
unfoldable pub roll_back : ℕ → Bytes → List ℕ → Option (Bytes × List ℕ)
unfolding over_budget truncate
roll_back limit buffer [] = some (buffer, [])
roll_back limit buffer (last ∷ rest) = elim (over_budget limit buffer) [
  | false ↦ some (buffer, last ∷ rest)
  | true ↦ elim (truncate last buffer) [ none ↦ none | some shorter ↦ roll_back limit shorter rest ]
]

-- The lines before the test: the first file opens the section.
unfoldable pub start : SectionSink → SectionSink
start sink =
    if sink.started
    then sink
    else record sink { started = true; buffer = sink.buffer ++ section_open ++ line_break }

abbrev pub with_rolled : SectionSink → Option (Bytes × List ℕ) → Option (SectionSink × Bool)
with_rolled sink none = none
with_rolled sink (some (buffer, checkpoints)) =
    some (record sink { omitted = true; buffer = buffer; checkpoints = checkpoints }, false)

-- The lines from the test on.
unfoldable pub place : SectionSink → InstructionFile → Option (SectionSink × Bool)
unfolding append_file rendered_file_size roll_back
place sink file =
    if leb
      (length sink.buffer
        + rendered_file_size file.display (length file.content) file.truncated
        + length section_close)
      sink.limit
    then some (
      record sink {
        checkpoints = length sink.buffer ∷ sink.checkpoints;
        buffer = append_file sink.buffer file;
      },
      true,
    )
    else with_rolled sink (roll_back sink.limit sink.buffer sink.checkpoints)

unfoldable pub add : SectionSink → InstructionFile → Option (SectionSink × Bool)
unfolding start place
add sink file = if sink.omitted then some (sink, false) else place (start sink) file

unfoldable pub finish : SectionSink → Bytes
finish sink =
    if not sink.started
    then []
    else sink.buffer ++ (if sink.omitted then omitted_marker ++ line_break else []) ++ section_close

-- `walkInstructionFiles` as the sink sees it: files are visited until one is refused.
unfoldable pub visit_all : SectionSink → List InstructionFile → Option SectionSink
unfolding add
visit_all sink [] = some sink
visit_all sink (file ∷ files) = elim (add sink file) [
  | none ↦ none
  | some (sink', false) ↦ some sink'
  | some (sink', true) ↦ visit_all sink' files
]

abbrev pub finished : Option SectionSink → Option Bytes
unfolding finish
finished none = none
finished (some sink) = some (finish sink)

-- `renderWorkspaceWithReader` where the walk has no error.
unfoldable pub render : ℕ → List InstructionFile → Option Bytes
unfolding new_section_sink visit_all finish
render limit files = finished (visit_all (new_section_sink limit) files)
