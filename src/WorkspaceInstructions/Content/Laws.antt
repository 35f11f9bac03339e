-- ===== src/WorkspaceInstructions/Content/Laws.antt =====
-- What is admitted as the content of a file.
use eino_agent_extensions.Prelude.{
  ℕ, zero, suc, ◌+◌, ◌-◌, ◌≤◌, ◌≡◌, refl, sym, ap, ◌∙◌, Bool, true, false, ◌||◌, Option, none, some,
  [], ◌∷◌, Bytes, length, take, take_all, length-take, ltb, leb, arith, Bool-cases, inl, inr, min,
  ltb→le, le→ltb, subst,
}
use eino_agent_extensions.External.{TextLib, is_empty, has_nul}
use eino_agent_extensions.WorkspaceInstructions.Content.{
  valid_prefix, valid_part, without_nul, admit_content,
}

-- The first bytes of another text.
abbrev pub IsPrefix : Bytes → Bytes → Type 0
IsPrefix part whole = (n : ℕ) × (part ≡ take n whole)

prefix-take : (n m : ℕ) (xs : Bytes) → IsPrefix (take n (take m xs)) xs
prefix-take zero m xs = (0, refl)
prefix-take (suc n) zero xs = (0, refl)
prefix-take (suc n) (suc m) [] = (0, refl)
prefix-take (suc n) (suc m) (x ∷ xs) = let (k, e) = prefix-take n m xs in (suc k, ap (λ t. x ∷ t) e)

module _ (lib : TextLib) where
  -- A text without a zero byte, valid, from the front of the file; the content is it without the
  -- space at its end, and it is not empty.
  abbrev pub Admitted : Bytes → ℕ → Bool → Option (Bytes × Bool) → Type 0
  Admitted raw max_bytes cut none = Unit {0}
  Admitted raw max_bytes cut (some (content, truncated)) =
      (text : Bytes) × (content ≡ lib.trim_right_space text)
      × IsPrefix text raw
      × (length text ≤ max_bytes)
      × (lib.utf8_valid text ≡ true)
      × (has_nul text ≡ false)
      × (is_empty content ≡ false)
      × (truncated ≡ cut)

  abbrev Part : Bytes → Option Bytes → Type 0
  Part raw none = Unit {0}
  Part raw (some text) = IsPrefix text raw × (lib.utf8_valid text ≡ true)

  valid_prefix-Part : (raw : Bytes) (minimum end : ℕ) → Part raw (valid_prefix lib raw minimum end)
  unfolding valid_prefix
  valid_prefix-Part raw minimum zero = tt
  valid_prefix-Part raw minimum (suc end) = elim (Bool-cases (leb minimum end)) [
    | inr low ↦ rw low tt
    | inl high ↦ elim (Bool-cases (lib.utf8_valid (take end raw))) [
      | inl valid ↦ rw (high, valid) ((end, refl), valid)
      | inr broken ↦ rw (high, broken) (valid_prefix-Part raw minimum end)
    ]
  ]

  valid_part-Part : (raw : Bytes) (truncated : Bool) → Part raw (valid_part lib raw truncated)
  unfolding valid_part
  valid_part-Part raw truncated = elim (Bool-cases (lib.utf8_valid raw)) [
    | inl valid ↦ rw valid ((length raw, sym (take_all (length raw) raw (omega arith))), valid)
    | inr broken ↦ elim (Bool-cases truncated) [
      | inl cut ↦ rw (broken, cut) (valid_prefix-Part raw (length raw + 1 - 4) (length raw))
      | inr whole ↦ rw (broken, whole) tt
    ]
  ]

  without_nul-Admitted :
      (raw : Bytes) (max_bytes : ℕ) (cut : Bool) (part : Option Bytes)
      → Part raw part
      → ((text : Bytes) → part ≡ some text → length text ≤ max_bytes)
      → Admitted raw max_bytes cut (without_nul lib part cut)
  without_nul-Admitted raw max_bytes cut none h few = tt
  without_nul-Admitted raw max_bytes cut (some text) h few = elim (Bool-cases (has_nul text)) [
    | inl nul ↦ rw nul tt
    | inr clean ↦ elim (Bool-cases (is_empty (lib.trim_right_space text))) [
      | inl blank ↦ rw (clean, blank) tt
      | inr kept ↦ rw (clean, kept) (text, refl, h.0, few text refl, h.1, clean, kept, refl)
    ]
  ]

  -- The bytes that are looked at.
  window-Admitted :
      (raw window : Bytes) (max_bytes : ℕ) (cut : Bool)
      → length window ≤ max_bytes
      → ((n : ℕ) → IsPrefix (take n window) raw)
      → Admitted raw max_bytes cut (without_nul lib (valid_part lib window cut) cut)
  window-Admitted raw window max_bytes cut few front =
      without_nul-Admitted raw max_bytes cut (valid_part lib window cut)
        (widen (valid_part lib window cut) (valid_part-Part window cut))
        (λ text e. short text (subst (Part window) e (valid_part-Part window cut)))
    where
      widen : (part : Option Bytes) → Part window part → Part raw part
      widen none h = tt
      widen (some text) ((n, e), valid) = (((front n).0, e ∙ (front n).1), valid)

      short : (text : Bytes) → Part window (some text) → length text ≤ max_bytes
      short text ((n, e), valid) =
          let k : length text ≡ min n (length window) = ap length e ∙ length-take n window in
          omega (arith, k)

  -- An admitted content is the trimmed form of a text that stands at the front of the file's bytes,
  -- takes at most the maximum, is valid UTF-8 and has no zero byte; it is not empty, and is marked
  -- truncated exactly when the file is larger than the maximum.
  pub admit_content-Admitted :
      (raw : Bytes) (size_exceeded : Bool) (max_bytes : ℕ)
      → Admitted raw max_bytes
          (size_exceeded || ltb max_bytes (length raw))
          (admit_content lib raw size_exceeded max_bytes)
  unfolding admit_content
  admit_content-Admitted raw size_exceeded max_bytes =
      elim (Bool-cases (ltb max_bytes (length raw))) [
        | inl long ↦
            rw (admit_content, long)
              (window-Admitted raw (take max_bytes raw) max_bytes (size_exceeded || true)
                (omega (arith, length-take max_bytes raw)) (λ n. prefix-take n max_bytes raw))
        | inr fits ↦
            rw (admit_content, fits)
              (window-Admitted raw raw max_bytes (size_exceeded || false) (ltb→le _ _ fits)
                (λ n. (n, refl)))
      ]

  -- A file of at most the maximum whose bytes are valid UTF-8 without a zero byte, and not only
  -- space, is admitted with all but the space at its end.
  pub admit_content_accepts :
      (raw : Bytes) (size_exceeded : Bool) (max_bytes : ℕ)
      → length raw ≤ max_bytes
      → lib.utf8_valid raw ≡ true
      → has_nul raw ≡ false
      → is_empty (lib.trim_right_space raw) ≡ false
      → admit_content lib raw size_exceeded max_bytes
        ≡ some (lib.trim_right_space raw, size_exceeded)
  unfolding admit_content valid_part
  admit_content_accepts raw true max_bytes few valid clean kept =
      rw (admit_content, le→ltb max_bytes (length raw) few, valid_part, valid, clean, kept) refl
  admit_content_accepts raw false max_bytes few valid clean kept =
      rw (admit_content, le→ltb max_bytes (length raw) few, valid_part, valid, clean, kept) refl
