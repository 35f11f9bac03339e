-- ===== src/WorkspaceInstructions/Render/Escape.antt =====
-- The escaped display and the announced size of a rendered file.
use eino_agent_extensions.Prelude.{
  ℕ, ◌+◌, ◌≡◌, refl, inl, inr, not, ◌&&◌, Bool-cases, Bool, true, false, [], ◌∷◌, ◌++◌, Bytes,
  length, length-append, ◌==◌, codes, arith,
}
use eino_agent_extensions.WorkspaceInstructions.Render.{
  InstructionFile, escape_byte, escape_attribute, file_text, rendered_file_size, file_open_prefix,
  truncated_attr, truncated_marker, file_close, line_break,
}

-- Has a text no quote, `<` or `>`, which would end an attribute's value or open or close a tag?
abbrev pub inert : Bytes → Bool
inert [] = true
inert (b ∷ bs) = not (b == b'"') && not (b == b'<') && not (b == b'>') && inert bs

inert-append : (xs ys : Bytes) → inert xs ≡ true → inert ys ≡ true → inert (xs ++ ys) ≡ true
inert-append [] ys h k = k
inert-append (x ∷ xs) ys h k = let ih = inert-append xs ys in ground arith

inert-escape_byte : (b : ℕ) → inert (escape_byte b) ≡ true
unfolding escape_byte
inert-escape_byte b = elim (Bool-cases (b == b'&')) [
  | inl h ↦ rw h refl
  | inr amp ↦ elim (Bool-cases (b == b'"')) [
    | inl h ↦ rw (amp, h) refl
    | inr quote ↦ elim (Bool-cases (b == b'<')) [
      | inl h ↦ rw (amp, quote, h) refl
      | inr low ↦ elim (Bool-cases (b == b'>')) [
        | inl h ↦ rw (amp, quote, low, h) refl
        | inr high ↦ rw (amp, quote, low, high, quote, low, high) refl
      ]
    ]
  ]
]

-- No byte of an escaped attribute is a quote or an angle bracket.
pub inert-escape_attribute : (value : Bytes) → inert (escape_attribute value) ≡ true
unfolding escape_attribute
inert-escape_attribute [] = refl
inert-escape_attribute (b ∷ bs) =
    inert-append (escape_byte b) (escape_attribute bs) (inert-escape_byte b)
      (inert-escape_attribute bs)

length-append5 :
    (a b c d e : Bytes)
    → length (a ++ b ++ c ++ d ++ e) ≡ length a + length b + length c + length d + length e
length-append5 a b c d e = omega (
  arith,
  length-append (a ++ b ++ c ++ d) e,
  length-append (a ++ b ++ c) d,
  length-append (a ++ b) c,
  length-append a b,
)

pieces :
    (a b c d e content mark : Bytes)
    → length (a ++ b ++ c ++ d ++ e ++ content ++ line_break ++ mark ++ file_close ++ line_break)
      ≡ length a
        + length b
        + length c
        + length d
        + length e
        + length content
        + 1
        + length mark
        + length file_close
        + 1
pieces a b c d e content mark = omega (
  arith,
  length-append5 (a ++ b ++ c ++ d ++ e ++ content) line_break mark file_close line_break,
  length-append (a ++ b ++ c ++ d ++ e) content,
  length-append5 a b c d e,
)

size_of :
    (display content : Bytes) (truncated : Bool)
    → length (file_text (record { display = display; content = content; truncated = truncated }))
      ≡ rendered_file_size display (length content) truncated
unfolding file_text rendered_file_size
size_of display content false = omega (
  arith,
  pieces file_open_prefix (escape_attribute display) (codes "\"") [] (codes ">\n") content [],
)
size_of display content true = omega (
  arith,
  pieces file_open_prefix (escape_attribute display) (codes "\"") truncated_attr (codes ">\n")
      content (truncated_marker ++ line_break),
)

-- `renderedFileSize` announces exactly what `appendFile` writes.
pub length-file_text :
    (file : InstructionFile)
    → length (file_text file) ≡ rendered_file_size file.display (length file.content) file.truncated
length-file_text file = size_of file.display file.content file.truncated
