-- ===== src/ToolResultRedactor/Fields.antt =====
-- `scanMetadata` and `scanAttachments` of toolresultredactor/redact.go.
-- A Go map is the list of its entries in the order in which `range` visits them; nil is `none`.
pub mod Laws
use eino_agent_extensions.Prelude.{
  ℕ, zero, suc, ◌+◌, ◌-◌, Bool, true, false, Option, none, some, List, [], ◌∷◌, ◌++◌, Bytes, length,
  ltb, if◌then◌else◌,
}
use eino_agent_extensions.Context.{Ctx, poll}
use eino_agent_extensions.ToolResultRedactor.Ranges.{placeholder}
use eino_agent_extensions.ToolResultRedactor.Scalar.{
  Policy, ScanState, unchanged, changed, unsafe, canceled, scan_scalar,
}

abbrev pub Metadata : Type 0
Metadata = List (Bytes × Bytes)

pub record Attachment : Type 0 where
  pub id : Bytes
  pub mime_type : Bytes
  pub name : Bytes
  pub url : Bytes
  pub metadata : Option Metadata

-- The value of a step, or that the context ended during it.
pub data Step {ℓ} (A : Type ℓ) : Type ℓ where
  going : Ctx → A → Step A
  ended : Ctx → Step A

-- A chain of scans: a fault ends it, and so does a canceled scan.
infixl 5 ◌>>=◌
abbrev pub ◌>>=◌ {ℓ κ} :
    {A : Type ℓ} {B : Type κ} → Option (Step A) → (Ctx × A → Option (Step B)) → Option (Step B)
none >>= f = none
some (ended ctx) >>= f = some (ended ctx)
some (going ctx a) >>= f = f (ctx, a)

abbrev pub metadata_placeholder : Metadata
metadata_placeholder = ([], placeholder) ∷ []

abbrev pub attachment_placeholder : List Attachment
attachment_placeholder =
    record { id = []; mime_type = []; name = placeholder; url = []; metadata = none } ∷ []

-- The text of a scan, or the end.
abbrev pub text_of : Option (Ctx × Bytes × ScanState) → Option (Step Bytes)
text_of none = none
text_of (some (ctx, text, canceled)) = some (ended ctx)
text_of (some (ctx, text, s)) = some (going ctx text)

-- Is a scanned key usable?  A key that would change hides the whole map.
abbrev pub key_of : Option (Ctx × Bytes × ScanState) → Option (Step Bool)
key_of none = none
key_of (some (ctx, text, canceled)) = some (ended ctx)
key_of (some (ctx, text, unchanged)) = some (going ctx true)
key_of (some (ctx, text, s)) = some (going ctx false)

abbrev pub with_entry : Bytes → Bytes → Ctx × Option Metadata → Option (Step (Option Metadata))
with_entry key value (ctx, none) = some (going ctx none)
with_entry key value (ctx, some rest) = some (going ctx (some ((key, value) ∷ rest)))

module _ (utf8_valid : Bytes → Bool) (p : Policy) where
  -- The loop over the entries; `none` as its value is a map that is hidden.
  unfoldable pub scan_entries : Ctx → Metadata → Option (Step (Option Metadata))
  scan_entries ctx [] = some (going ctx (some []))
  scan_entries ctx ((key, value) ∷ rest) =
      key_of (scan_scalar utf8_valid p ctx key) >>= λ (ctx, fine). elim fine [
        | false ↦ some (going ctx none)
        | true ↦ text_of (scan_scalar utf8_valid p ctx value) >>= λ (ctx, text).
            scan_entries ctx rest >>= with_entry key text
      ]

  -- The body of the loop behind the key.
  pub scan_value : Bytes → Bytes → Metadata → Ctx → Bool → Option (Step (Option Metadata))
  unfolding scan_entries
  scan_value key value rest ctx fine = elim fine [
    | false ↦ some (going ctx none)
    | true ↦ text_of (scan_scalar utf8_valid p ctx value) >>= λ (ctx, text).
        scan_entries ctx rest >>= with_entry key text
  ]

  abbrev pub shown : Ctx × Option Metadata → Option (Step (Option Metadata))
  shown (ctx, none) = some (going ctx (some metadata_placeholder))
  shown (ctx, some m) = some (going ctx (some m))

  unfoldable pub scan_metadata : Ctx → Option Metadata → Option (Step (Option Metadata))
  unfolding scan_entries
  scan_metadata ctx none = some (going ctx none)
  scan_metadata ctx (some m) =
      if ltb p.max_metadata_entries (length m)
      then some (going ctx (some metadata_placeholder))
      else scan_entries ctx m >>= shown

  -- `if ctx.Err() != nil { return ... }`
  abbrev pub checked : Ctx → Option (Step (Unit {0}))
  checked ctx = if (poll ctx).0 then some (ended (poll ctx).1) else some (going (poll ctx).1 tt)

  -- The body of the loop of `scanAttachments`.
  unfoldable pub scan_attachment : Ctx → Attachment → Option (Step Attachment)
  unfolding scan_metadata
  scan_attachment ctx a = checked ctx >>= λ (ctx, _).
      text_of (scan_scalar utf8_valid p ctx a.id) >>= λ (ctx, id).
      text_of (scan_scalar utf8_valid p ctx a.mime_type) >>= λ (ctx, mime_type).
      text_of (scan_scalar utf8_valid p ctx a.name) >>= λ (ctx, name).
      text_of (scan_scalar utf8_valid p ctx a.url) >>= λ (ctx, url).
      scan_metadata ctx a.metadata >>= λ (ctx, metadata). some (
        going ctx
          (record { id = id; mime_type = mime_type; name = name; url = url; metadata = metadata }))

  unfoldable pub scan_each : Ctx → List Attachment → Option (Step (List Attachment))
  unfolding scan_attachment
  scan_each ctx [] = some (going ctx [])
  scan_each ctx (a ∷ rest) = scan_attachment ctx a >>= λ (ctx, a').
      scan_each ctx rest >>= λ (ctx, rest'). some (going ctx (a' ∷ rest'))

  unfoldable pub scan_attachments :
      Ctx → Option (List Attachment) → Option (Step (Option (List Attachment)))
  unfolding scan_each
  scan_attachments ctx none = some (going ctx none)
  scan_attachments ctx (some xs) =
      if ltb p.max_attachments (length xs)
      then some (going ctx (some attachment_placeholder))
      else (scan_each ctx xs >>= λ (ctx, xs'). some (going ctx (some xs')))
