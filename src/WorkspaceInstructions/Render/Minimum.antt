-- ===== src/WorkspaceInstructions/Render/Minimum.antt =====
-- `minimumSectionBytes` of workspaceinstructions/render.go, against the section that comes out.
use eino_agent_extensions.Prelude.{
  ℕ, zero, suc, ◌+◌, ◌-◌, ◌*◌, ◌≤◌, ◌<◌, ◌≡◌, refl, sym, ap, ◌∙◌, Bool, true, false, some, List, [],
  ◌∷◌, ◌++◌, Bytes, length, take, get_elem?, length-append, ltb, if◌then◌else◌, codes, arith,
  Bool-cases, subst, inl, inr, ltb→lt, ltb→le, ◌==◌,
}
use eino_agent_extensions.WorkspaceInstructions.Content.{display_path, repeat}
use eino_agent_extensions.WorkspaceInstructions.Render.{
  InstructionFile, section_open, section_close, omitted_marker, line_break, line_break_bytes,
  file_text, rendered_file_size, escape_attribute, escape_byte, render,
}
use eino_agent_extensions.WorkspaceInstructions.Render.Rollback.{
  open_section, section_text, texts, append_assoc, append-nil,
}
use eino_agent_extensions.WorkspaceInstructions.Render.Escape.{length-file_text}
use eino_agent_extensions.WorkspaceInstructions.Render.Section.{
  Rendered, render-Rendered, length-section_text_marked,
}

-- The limits that bound the size of a file's part of the section.
pub record Limits : Type 0 where
  pub max_chain_depth : ℕ
  pub max_file_bytes : ℕ

-- The loop: the longest display of a name, from `longest` on.
unfoldable pub maximum_display : ℕ → Bytes → List Bytes → Bytes
unfolding escape_attribute display_path
maximum_display depth longest [] = longest
maximum_display depth longest (name ∷ names) =
    maximum_display depth
      (if ltb (length (escape_attribute longest))
          (length (escape_attribute (display_path depth 0 name)))
        then display_path depth 0 name
        else longest)
      names

unfoldable pub minimum_section_bytes : List Bytes → Limits → ℕ
unfolding maximum_display rendered_file_size
minimum_section_bytes file_names limits =
    length section_open
    + line_break_bytes
    + rendered_file_size (maximum_display limits.max_chain_depth [] file_names)
        limits.max_file_bytes true
    + length omitted_marker
    + line_break_bytes
    + length section_close

abbrev width : Bytes → ℕ
width text = length (escape_attribute text)

escape-append : (xs ys : Bytes) → width (xs ++ ys) ≡ width xs + width ys
unfolding escape_attribute
escape-append [] ys = omega arith
escape-append (x ∷ xs) ys = omega (
  arith,
  length-append (escape_byte x) (escape_attribute (xs ++ ys)),
  length-append (escape_byte x) (escape_attribute xs),
  escape-append xs ys,
)

-- The longest is at least as long as its start, and as every name's display.
maximum-start :
    (depth : ℕ) (longest : Bytes) (names : List Bytes)
    → width longest ≤ width (maximum_display depth longest names)
unfolding maximum_display
maximum-start depth longest [] = omega arith
maximum-start depth longest (name ∷ names) =
    elim (Bool-cases (ltb (width longest) (width (display_path depth 0 name)))) [
      | inl longer ↦
          rw (maximum_display, longer)
            (omega
              (arith, ltb→lt _ _ longer, maximum-start depth (display_path depth 0 name) names))
      | inr shorter ↦ rw (maximum_display, shorter) (maximum-start depth longest names)
    ]

maximum-name :
    (depth : ℕ) (names : List Bytes) (longest : Bytes) (j : ℕ) (name : Bytes)
    → get_elem? names j ≡ some name
    → width (display_path depth 0 name) ≤ width (maximum_display depth longest names)
unfolding maximum_display
maximum-name depth [] longest j name h = absurd (cc)
maximum-name depth (x ∷ names) longest zero name h =
    let e : x ≡ name = cc in
    subst (λ y. width (display_path depth 0 y) ≤ width (maximum_display depth longest (x ∷ names)))
      e
      (elim (Bool-cases (ltb (width longest) (width (display_path depth 0 x)))) [
        | inl longer ↦
            rw (maximum_display, longer) (maximum-start depth (display_path depth 0 x) names)
        | inr shorter ↦
            rw (maximum_display, shorter)
              (omega (arith, ltb→le _ _ shorter, maximum-start depth longest names))
      ])
maximum-name depth (x ∷ names) longest (suc j) name h = maximum-name depth names _ j name h

width-repeat : (n : ℕ) → width (repeat (codes "../") n) ≡ 3 * n
unfolding escape_attribute
width-repeat zero = refl
width-repeat (suc n) =
    omega (arith, escape-append (codes "../") (repeat (codes "../") n), width-repeat n)

-- How much a display adds to the name.
abbrev added : ℕ → ℕ → ℕ
added chain_length index = if index + 1 == chain_length then 2 else 3 * (chain_length - 1 - index)

width-display_path :
    (chain_length index : ℕ) (name : Bytes)
    → width (display_path chain_length index name) ≡ added chain_length index + width name
unfolding display_path escape_attribute
width-display_path chain_length index name = elim (Bool-cases (index + 1 == chain_length)) [
  | inl last ↦ rw (last) (omega arith)
  | inr above ↦ rw (above) (
      omega (
        arith,
        escape-append (repeat (codes "../") (chain_length - 1 - index)) name,
        width-repeat (chain_length - 1 - index),
      ))
]

added_mono :
    (depth chain_length index : ℕ)
    → chain_length ≤ depth
    → index < chain_length
    → added chain_length index ≤ added depth 0
added_mono depth chain_length index h k = ground arith

rendered_file_size_mono :
    (display longest : Bytes) (size most : ℕ) (truncated : Bool)
    → width display ≤ width longest
    → size ≤ most
    → rendered_file_size display size truncated ≤ rendered_file_size longest most true
unfolding rendered_file_size
rendered_file_size_mono display longest size most true h k = omega arith
rendered_file_size_mono display longest size most false h k = omega arith

length-open_section :
    (file : InstructionFile)
    → length (open_section (file ∷ []))
      ≡ length section_open
        + line_break_bytes
        + rendered_file_size file.display (length file.content) file.truncated
unfolding open_section texts
length-open_section file = omega (
  arith,
  length-append (section_open ++ line_break) (file_text file ++ []),
  length-append (file_text file) [],
  length-file_text file,
)

regroup : (o t m c : Bytes) → o ++ t ++ m ++ c ≡ o ++ (t ++ m ++ c)
regroup o t m c = ap (λ u. u ++ c) (append_assoc o t m) ∙ append_assoc o (t ++ m) c

open_section-first :
    (file : InstructionFile) (files : List InstructionFile)
    → open_section (file ∷ files) ≡ open_section (file ∷ []) ++ texts files
unfolding open_section texts
open_section-first file files =
    ap (λ u. section_open ++ line_break ++ (u ++ texts files)) (sym (append-nil (file_text file)))
    ∙ sym (append_assoc (section_open ++ line_break) (file_text file ++ []) (texts files))

-- What a section starts with.
begins_with_first :
    (limit : ℕ) (file : InstructionFile) (files : List InstructionFile) (out : Bytes)
    → length (section_text (file ∷ []) true) ≤ limit
    → Rendered limit (file ∷ files) out
    → (after : Bytes) × (out ≡ open_section (file ∷ []) ++ after)
begins_with_first limit file files out room (zero, below, e, short, most, whole) =
    let over = most 1 (omega arith) (omega arith) in absurd (omega (arith, over))
begins_with_first limit file files out room (suc n, below, e, short, most, whole) =
    let mark = if ltb (suc n) (length (file ∷ files)) then omitted_marker ++ line_break else [] in
    (
      texts (take n files) ++ mark ++ section_close,
      e
          ∙ ap (λ o. o ++ mark ++ section_close) (open_section-first file (take n files))
          ∙ regroup (open_section (file ∷ [])) (texts (take n files)) mark section_close,
    )

-- Where the limit is at least `minimumSectionBytes` for the configured names and limits, and the
-- first file stands at a configured name in a chain of at most the maximal depth with a content of
-- at most the maximal size, rendering does not panic and the section starts with that file in full.
pub first_file_shown :
    (file_names : List Bytes) (limits : Limits) (limit : ℕ)
    → minimum_section_bytes file_names limits ≤ limit
    → (chain_length index j : ℕ) (name : Bytes) → get_elem? file_names j ≡ some name
    → index < chain_length
    → chain_length ≤ limits.max_chain_depth
    → (file : InstructionFile) (files : List InstructionFile)
    → file.display ≡ display_path chain_length index name
    → length file.content ≤ limits.max_file_bytes
    → (out : Bytes) × (after : Bytes) × (render limit (file ∷ files) ≡ some out)
      × (out ≡ open_section (file ∷ []) ++ after)
unfolding minimum_section_bytes
first_file_shown file_names limits limit enough chain_length index j name at inside deep file files
      shown small =
    let longest = maximum_display limits.max_chain_depth [] file_names in
    let wide : width file.display ≤ width longest = omega (
      arith,
      ap width shown,
      width-display_path chain_length index name,
      width-display_path limits.max_chain_depth 0 name,
      added_mono limits.max_chain_depth chain_length index deep inside,
      maximum-name limits.max_chain_depth file_names [] j name at,
    ) in
    let size =
      rendered_file_size_mono file.display longest (length file.content) limits.max_file_bytes
        file.truncated wide small in
    let (out, e, r) = render-Rendered limit (omega (arith, enough)) file files in
    let (after, starts) =
      begins_with_first limit file files out
        (omega
          (arith, enough, size, length-section_text_marked (file ∷ []), length-open_section file))
        r in
    (out, after, e, starts)
