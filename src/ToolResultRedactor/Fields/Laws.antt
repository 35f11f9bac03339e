-- ===== src/ToolResultRedactor/Fields/Laws.antt =====
-- `scanMetadata` and `scanAttachments` of toolresultredactor/redact.go: the texts that come out.
use eino_agent_extensions.Prelude.{
  ℕ, ◌+◌, ◌≡◌, refl, sym, ◌∙◌, ap, ◌⊎◌, inl, inr, Bool, true, false, Option, none, some, List, [],
  ◌∷◌, Bytes, length, ltb, Bool-cases, subst,
}
use eino_agent_extensions.Context.{Ctx, poll}
use eino_agent_extensions.ToolResultRedactor.Ranges.{placeholder}
use eino_agent_extensions.ToolResultRedactor.Ranges.Order.{covers}
use eino_agent_extensions.ToolResultRedactor.Ranges.Mask.{masked}
use eino_agent_extensions.ToolResultRedactor.Scalar.{
  Policy, ScanState, unchanged, changed, unsafe, canceled, scan_scalar,
}
use eino_agent_extensions.ToolResultRedactor.Scalar.Laws.{
  AreMatchers, all_matches, scan_scalar-Returns, Scanned,
}
use eino_agent_extensions.ToolResultRedactor.Fields.{
  Metadata, Attachment, Step, going, ended, ◌>>=◌, metadata_placeholder, attachment_placeholder,
  text_of, key_of, with_entry, scan_value, scan_entries, shown, scan_metadata, checked,
  scan_attachment, scan_each, scan_attachments,
}

-- The chain returned, and if it goes on its value has the property.
pub data Safe {ℓ κ} {A : Type ℓ} (P : A → Type κ) : Option (Step A) → Type (ℓ ⊔ κ) where
  stops : (ctx : Ctx) → Safe P (some (ended ctx))
  goes : (ctx : Ctx) (a : A) → P a → Safe P (some (going ctx a))

pub >>=-Safe {ℓ κ ι ν} :
    {A : Type ℓ} {B : Type κ} {P : A → Type ι} {Q : B → Type ν} {m : Option (Step A)}
    (f : Ctx × A → Option (Step B))
    → Safe P m
    → ((ctx : Ctx) (a : A) → P a → Safe Q (f (ctx, a)))
    → Safe Q (m >>= f)
>>=-Safe f (stops ctx) k = stops ctx
>>=-Safe f (goes ctx a h) k = k ctx a h

masked_nothing :
    (inside : Bool) (i : ℕ) (value : Bytes) → masked (λ k. false) inside i value ≡ value
masked_nothing inside i [] = refl
masked_nothing inside i (x ∷ xs) = ap (λ t. x ∷ t) (masked_nothing false (i + 1) xs)

module _ (utf8_valid : Bytes → Bool) (p : Policy) (l : AreMatchers p.rules) where
  -- A text with each maximal run of matched bytes replaced, or nothing but the placeholder.
  abbrev pub Redacted : Bytes → Bytes → Type 0
  Redacted value text =
      (text ≡ placeholder) ⊎ (text ≡ masked (covers (all_matches p.rules l value)) false 0 value)

  Scanned-Redacted :
      (value text : Bytes) (s : ScanState)
      → Scanned value (all_matches p.rules l value) text s
      → Redacted value text
  Scanned-Redacted value text unchanged (e, inl none_found) = inr (
      e ∙ sym (ap (λ m. masked (covers m) false 0 value) none_found ∙ masked_nothing false 0 value))
  Scanned-Redacted value text unchanged (e, inr same) = inl (e ∙ same)
  Scanned-Redacted value text changed (_, e) = inr e
  Scanned-Redacted value text unsafe e = inl e
  Scanned-Redacted value text canceled e = inl e

  state-Safe :
      (value : Bytes) (ctx : Ctx) (text : Bytes) (s : ScanState)
      → Scanned value (all_matches p.rules l value) text s
      → Safe (Redacted value) (text_of (some (ctx, text, s)))
  state-Safe value ctx text canceled h = stops ctx
  state-Safe value ctx text unchanged h = goes ctx text (Scanned-Redacted value text unchanged h)
  state-Safe value ctx text changed h = goes ctx text (Scanned-Redacted value text changed h)
  state-Safe value ctx text unsafe h = goes ctx text (Scanned-Redacted value text unsafe h)

  pub text_of-Safe :
      (ctx : Ctx) (value : Bytes)
      → Safe (Redacted value) (text_of (scan_scalar utf8_valid p ctx value))
  text_of-Safe ctx value =
      let (ctx', text, s, e, h) = scan_scalar-Returns utf8_valid p l ctx value in
      rw e (state-Safe value ctx' text s h)

  -- A key that stays is one that the scan leaves alone.
  abbrev pub KeyClean : Bytes → Bool → Type 0
  KeyClean key true = Redacted key key
  KeyClean key false = Unit {0}

  key-Safe :
      (key : Bytes) (ctx : Ctx) (text : Bytes) (s : ScanState)
      → Scanned key (all_matches p.rules l key) text s
      → Safe (KeyClean key) (key_of (some (ctx, text, s)))
  key-Safe key ctx text canceled h = stops ctx
  key-Safe key ctx text unchanged h =
      goes ctx true (subst (Redacted key) h.0 (Scanned-Redacted key text unchanged h))
  key-Safe key ctx text changed h = goes ctx false tt
  key-Safe key ctx text unsafe h = goes ctx false tt

  key_of-Safe :
      (ctx : Ctx) (key : Bytes) → Safe (KeyClean key) (key_of (scan_scalar utf8_valid p ctx key))
  key_of-Safe ctx key =
      let (ctx', text, s, e, h) = scan_scalar-Returns utf8_valid p l ctx key in
      rw e (key-Safe key ctx' text s h)

  -- The same keys in the same order, all of them clean, and redacted values.
  abbrev pub Entries : Metadata → Metadata → Type 0
  Entries [] [] = Unit {0}
  Entries [] (x ∷ xs) = ⊥
  Entries (x ∷ xs) [] = ⊥
  Entries ((k, v) ∷ m) ((k', v') ∷ m') = (k' ≡ k) × Redacted k k × Redacted v v' × Entries m m'

  abbrev pub MaybeEntries : Metadata → Option Metadata → Type 0
  MaybeEntries m none = Unit {0}
  MaybeEntries m (some m') = Entries m m'

  entry-Safe :
      (key value text : Bytes) (rest : Metadata)
      → Redacted key key
      → Redacted value text
      → (ctx : Ctx) (r : Option Metadata) → MaybeEntries rest r
      → Safe (MaybeEntries ((key, value) ∷ rest)) (with_entry key text (ctx, r))
  entry-Safe key value text rest h k ctx none e = goes ctx none tt
  entry-Safe key value text rest h k ctx (some m) e =
      goes ctx (some ((key, text) ∷ m)) (refl, h, k, e)

  value-Safe :
      (key value : Bytes) (rest : Metadata)
      → ((ctx : Ctx) → Safe (MaybeEntries rest) (scan_entries utf8_valid p ctx rest))
      → (ctx : Ctx) (fine : Bool) → KeyClean key fine
      → Safe (MaybeEntries ((key, value) ∷ rest)) (scan_value utf8_valid p key value rest ctx fine)
  unfolding scan_value
  value-Safe key value rest ih ctx false h = goes ctx none tt
  value-Safe key value rest ih ctx true h =
      >>=-Safe _ (text_of-Safe ctx value)
        λ ctx' text redacted. >>=-Safe _ (ih ctx') (entry-Safe key value text rest h redacted)

  scan_entries-Safe :
      (m : Metadata) (ctx : Ctx) → Safe (MaybeEntries m) (scan_entries utf8_valid p ctx m)
  unfolding scan_entries scan_value
  scan_entries-Safe [] ctx = goes ctx (some []) tt
  scan_entries-Safe ((key, value) ∷ rest) ctx =
      >>=-Safe _ (key_of-Safe ctx key)
        (unfold scan_value in value-Safe key value rest (scan_entries-Safe rest))

  -- The map is nil as before, or hidden, or its entries are redacted.
  abbrev pub MetadataSafe : Option Metadata → Option Metadata → Type 0
  MetadataSafe none m' = m' ≡ none
  MetadataSafe (some m) none = ⊥
  MetadataSafe (some m) (some m') = (m' ≡ metadata_placeholder) ⊎ Entries m m'

  pub scan_metadata-Safe :
      (ctx : Ctx) (m : Option Metadata) → Safe (MetadataSafe m) (scan_metadata utf8_valid p ctx m)
  unfolding scan_metadata
  scan_metadata-Safe ctx none = goes ctx none refl
  scan_metadata-Safe ctx (some m) = elim (Bool-cases (ltb p.max_metadata_entries (length m))) [
    | inl many ↦ rw many (goes ctx (some metadata_placeholder) (inl refl))
    | inr few ↦ rw few (>>=-Safe _ (scan_entries-Safe m ctx) shown-Safe)
  ]
    where
      shown-Safe :
          (ctx : Ctx) (r : Option Metadata)
          → MaybeEntries m r
          → Safe (MetadataSafe (some m)) (shown utf8_valid p (ctx, r))
      shown-Safe ctx none h = goes ctx (some metadata_placeholder) (inl refl)
      shown-Safe ctx (some m') h = goes ctx (some m') (inr h)

  pub record AttachmentSafe (a b : Attachment) : Type 0 where
    pub id : Redacted a.id b.id
    pub mime_type : Redacted a.mime_type b.mime_type
    pub name : Redacted a.name b.name
    pub url : Redacted a.url b.url
    pub metadata : MetadataSafe a.metadata b.metadata

  pub checked-Safe : (ctx : Ctx) → Safe (λ (u : Unit {0}). Unit {0}) (checked utf8_valid p ctx)
  checked-Safe ctx = elim (Bool-cases (poll ctx).0) [
    | inl stop ↦ rw stop (stops (poll ctx).1)
    | inr go ↦ rw go (goes (poll ctx).1 tt tt)
  ]

  scan_attachment-Safe :
      (ctx : Ctx) (a : Attachment) → Safe (AttachmentSafe a) (scan_attachment utf8_valid p ctx a)
  unfolding scan_attachment
  scan_attachment-Safe ctx a = >>=-Safe _ (checked-Safe ctx) λ ctx _ _.
      >>=-Safe _ (text_of-Safe ctx a.id) λ ctx id i.
        >>=-Safe _ (text_of-Safe ctx a.mime_type) λ ctx mime_type j.
          >>=-Safe _ (text_of-Safe ctx a.name) λ ctx name k.
            >>=-Safe _ (text_of-Safe ctx a.url) λ ctx url n.
              >>=-Safe _ (scan_metadata-Safe ctx a.metadata) λ ctx metadata m.
                goes ctx
                  (record {
                    id = id;
                    mime_type = mime_type;
                    name = name;
                    url = url;
                    metadata = metadata;
                  })
                  (record { id = i; mime_type = j; name = k; url = n; metadata = m })

  abbrev pub Each : List Attachment → List Attachment → Type 0
  Each [] [] = Unit {0}
  Each [] (b ∷ bs) = ⊥
  Each (a ∷ as_) [] = ⊥
  Each (a ∷ as_) (b ∷ bs) = AttachmentSafe a b × Each as_ bs

  scan_each-Safe :
      (xs : List Attachment) (ctx : Ctx) → Safe (Each xs) (scan_each utf8_valid p ctx xs)
  unfolding scan_each
  scan_each-Safe [] ctx = goes ctx [] tt
  scan_each-Safe (a ∷ rest) ctx =
      >>=-Safe _ (scan_attachment-Safe ctx a)
        λ ctx b h. >>=-Safe _ (scan_each-Safe rest ctx) λ ctx bs k. goes ctx (b ∷ bs) (h, k)

  abbrev pub AttachmentsSafe : Option (List Attachment) → Option (List Attachment) → Type 0
  AttachmentsSafe none ys = ys ≡ none
  AttachmentsSafe (some xs) none = ⊥
  AttachmentsSafe (some xs) (some ys) = (ys ≡ attachment_placeholder) ⊎ Each xs ys

  -- Whenever the rules are lawful matchers, a scan of attachments returns. Where the context has not
  -- ended, nil stays nil, and a list is hidden behind the one placeholder attachment or keeps its
  -- length and order, with each of the four texts of an attachment redacted (the placeholder, or the
  -- text with its runs of matched bytes replaced). The metadata of an attachment is nil as before, or
  -- hidden, or has the same keys with redacted values; a key that stays is its own redaction.
  pub scan_attachments-Safe :
      (ctx : Ctx) (xs : Option (List Attachment))
      → Safe (AttachmentsSafe xs) (scan_attachments utf8_valid p ctx xs)
  unfolding scan_attachments
  scan_attachments-Safe ctx none = goes ctx none refl
  scan_attachments-Safe ctx (some xs) = elim (Bool-cases (ltb p.max_attachments (length xs))) [
    | inl many ↦ rw many (goes ctx (some attachment_placeholder) (inl refl))
    | inr few ↦ rw few (>>=-Safe _ (scan_each-Safe xs ctx) (λ ctx ys h. goes ctx (some ys) (inr h)))
  ]
