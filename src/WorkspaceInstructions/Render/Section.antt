-- ===== src/WorkspaceInstructions/Render/Section.antt =====
-- The section that comes out of the sink.
use eino_agent_extensions.Prelude.{
  ℕ, suc, ◌+◌, ◌≤◌, ◌<◌, ◌≡◌, refl, sym, ap, ◌∙◌, subst, Bool, true, false, Option, some, List, [],
  ◌∷◌, ◌++◌, Bytes, length, take, drop, drop-drop, le_or_lt, length-append, take_all, ltb, leb,
  arith, Bool-cases, inl, inr, lt→ltb, le→ltb, ltb→lt, ltb→le, leb→le, leb→lt,
}
use eino_agent_extensions.WorkspaceInstructions.Render.{
  InstructionFile, SectionSink, section_close, omitted_marker, line_break, line_break_bytes,
  file_text, append_file, rendered_file_size, over_budget, roll_back, start, place, add, finish,
  visit_all, finished, render, new_section_sink,
}
use eino_agent_extensions.WorkspaceInstructions.Render.Escape.{length-file_text}
use eino_agent_extensions.WorkspaceInstructions.Render.Rollback.{
  open_section, section_text, overhead, body, marks, body_next, body_le, rolls,
}

-- What the marker and the closing tag take.
abbrev pub tail_bytes : ℕ
tail_bytes = length omitted_marker + line_break_bytes + length section_close

pub length-section_text_marked :
    (files : List InstructionFile)
    → length (section_text files true) ≡ length (open_section files) + tail_bytes
length-section_text_marked files = omega (
  arith,
  length-append (open_section files ++ (omitted_marker ++ line_break)) section_close,
  length-append (open_section files) (omitted_marker ++ line_break),
)

length-section_text_whole :
    (files : List InstructionFile)
    → length (section_text files false) ≡ length (open_section files) + length section_close
length-section_text_whole files = omega (
  arith,
  length-append (open_section files ++ []) section_close,
  length-append (open_section files) [],
)

over→lt : (limit : ℕ) (b : Bytes) → over_budget limit b ≡ true → limit < length b + tail_bytes
unfolding over_budget
over→lt limit b h = ltb→lt limit (length b + tail_bytes) h

under→le : (limit : ℕ) (b : Bytes) → over_budget limit b ≡ false → length b + tail_bytes ≤ limit
unfolding over_budget
under→le limit b h = ltb→le limit (length b + tail_bytes) h

empty-under : (limit : ℕ) → overhead ≤ limit → over_budget limit (open_section []) ≡ false
unfolding over_budget open_section
empty-under limit h = le→ltb limit _ h

-- Where the section is open and nothing omitted, `add` is the lines from its test on.
add-place :
    (buffer : Bytes) (checkpoints : List ℕ) (limit : ℕ) (file : InstructionFile)
    → let sink : SectionSink = record {
      buffer = buffer;
      checkpoints = checkpoints;
      limit = limit;
      started = true;
      omitted = false;
    } in
      add sink file ≡ place sink file
unfolding add start
add-place buffer checkpoints limit file = refl

visit_next :
    (sink sink' : SectionSink) (file : InstructionFile) (rest : List InstructionFile)
    → add sink file ≡ some (sink', true)
    → visit_all sink (file ∷ rest) ≡ visit_all sink' rest
unfolding visit_all
visit_next sink sink' file rest e = rw (visit_all, e) refl

visit_stop :
    (sink sink' : SectionSink) (file : InstructionFile) (rest : List InstructionFile)
    → add sink file ≡ some (sink', false)
    → visit_all sink (file ∷ rest) ≡ some sink'
unfolding visit_all
visit_stop sink sink' file rest e = rw (visit_all, e) refl

module _ (limit : ℕ) (files : List InstructionFile) where
  -- The sink behind `n` files, and one that has dropped all but `n`.
  abbrev sink_at : Bool → ℕ → SectionSink
  sink_at cut n = record {
    buffer = body files limit n;
    checkpoints = marks files limit n;
    limit = limit;
    started = true;
    omitted = cut;
  }

  -- How a walk ends.
  data Ends : Option SectionSink → Type 0 where
    all_kept :
        (n : ℕ)
        → n ≡ length files
        → length (body files limit n) + length section_close ≤ limit
        → Ends (some (sink_at false n))
    cut_at :
        (m : ℕ)
        → m < length files
        → over_budget limit (body files limit m) ≡ false
        → ((k : ℕ) → m < k → k ≤ length files → limit < length (body files limit k) + tail_bytes)
        → limit < length (body files limit (length files)) + length section_close
        → Ends (some (sink_at true m))

  placed :
      (n : ℕ) (file : InstructionFile) (rest : List InstructionFile)
      → drop n files ≡ file ∷ rest
      → leb
          (length (body files limit n)
            + rendered_file_size file.display (length file.content) file.truncated
            + length section_close)
          limit
        ≡ true
      → place (sink_at false n) file ≡ some (sink_at false (suc n), true)
  unfolding place append_file
  placed n file rest h fits = rw (fits, body_next files limit n file rest h) refl

  refused :
      (n m : ℕ) (file : InstructionFile)
      → leb
          (length (body files limit n)
            + rendered_file_size file.display (length file.content) file.truncated
            + length section_close)
          limit
        ≡ false
      → roll_back limit (body files limit n) (marks files limit n)
        ≡ some (body files limit m, marks files limit m)
      → place (sink_at false n) file ≡ some (sink_at true m, false)
  unfolding place
  refused n m file over e = rw (over, e) refl

  drop_next :
      (n : ℕ) (file : InstructionFile) (rest : List InstructionFile)
      → drop n files ≡ file ∷ rest
      → drop (suc n) files ≡ rest
  drop_next n file rest h =
      ap (λ k. drop k files) (let e : suc n ≡ n + 1 = omega arith in e)
      ∙ sym (drop-drop 1 n files)
      ∙ ap (drop 1) h

  length-body_next :
      (n : ℕ) (file : InstructionFile) (rest : List InstructionFile)
      → drop n files ≡ file ∷ rest
      → length (body files limit (suc n))
        ≡ length (body files limit n)
          + rendered_file_size file.display (length file.content) file.truncated
  length-body_next n file rest h =
      ap length (body_next files limit n file rest h)
      ∙ length-append (body files limit n) (file_text file)
      ∙ ap (λ k. length (body files limit n) + k) (length-file_text file)

  visit-Ends :
      (rest : List InstructionFile) (n : ℕ)
      → over_budget limit (body files limit 0) ≡ false
      → drop n files ≡ rest
      → n + length rest ≡ length files
      → length (body files limit n) + length section_close ≤ limit
      → Ends (visit_all (sink_at false n) rest)
  unfolding visit_all add start
  visit-Ends [] n empty h all fits = all_kept n (omega arith) fits
  visit-Ends (file ∷ rest) n empty h all fits =
      elim (Bool-cases (
        leb
          (length (body files limit n)
            + rendered_file_size file.display (length file.content) file.truncated
            + length section_close)
          limit)) [
            | inl small ↦
                subst Ends
                  (sym (
                    visit_next (sink_at false n) (sink_at false (suc n)) file rest
                      (add-place _ _ _ file ∙ placed n file rest h small)))
                  (visit-Ends rest (suc n) empty (drop_next n file rest h) (omega arith)
                    (omega (arith, length-body_next n file rest h, leb→le _ _ small)))
            | inr big ↦
                let (m, below, e, under, above) = rolls files limit empty n in
                let next = length-body_next n file rest h in
                subst Ends
                  (sym (
                    visit_stop (sink_at false n) (sink_at true m) file rest
                      (add-place _ _ _ file ∙ refused n m file big e)))
                  (cut_at m (omega arith) under
                    (λ k p q. elim (le_or_lt k n) [
                      | inl small ↦ over→lt limit (body files limit k) (above k p small)
                      | inr late ↦
                          omega (
                            arith,
                            next,
                            leb→lt _ _ big,
                            body_le files limit (suc n) k (omega arith),
                          )
                    ])
                    (omega (
                      arith,
                      next,
                      leb→lt _ _ big,
                      body_le files limit (suc n) (length files) (omega arith),
                    )))
          ]

-- What a rendered section is: `n` files of the given, with the marker exactly if one is missing; it
-- keeps to the limit; and neither a section of more files with the marker, nor, where one is
-- missing, the section of all files would keep to it.
abbrev pub Rendered : ℕ → List InstructionFile → Bytes → Type 0
Rendered limit files out =
    (n : ℕ) × (n ≤ length files)
    × (out ≡ section_text (take n files) (ltb n (length files)))
    × (length out ≤ limit)
    × ((k : ℕ) → n < k → k ≤ length files → limit < length (section_text (take k files) true))
    × (n < length files → limit < length (section_text files false))

Ends-Rendered :
    (limit : ℕ) (files : List InstructionFile) (s : Option SectionSink)
    → Ends limit files s
    → (out : Bytes) × (finished s ≡ some out) × Rendered limit files out
unfolding finished finish
Ends-Rendered limit files s (all_kept n whole fits) = (
  section_text (take n files) false,
  refl,
  (
    n,
    omega arith,
    ap (section_text (take n files)) (sym (le→ltb n (length files) (omega arith))),
    omega (arith, length-section_text_whole (take n files)),
    (λ k p q. absurd (omega arith)),
    (λ p. absurd (omega arith)),
  ),
)
Ends-Rendered limit files s (cut_at m missing under above big) = (
  section_text (take m files) true,
  refl,
  (
    m,
    omega arith,
    ap (section_text (take m files)) (sym (lt→ltb m (length files) missing)),
    omega (arith, length-section_text_marked (take m files), under→le limit _ under),
    (λ k p q. omega (arith, length-section_text_marked (take k files), above k p q)),
    (λ p. omega (
      arith,
      length-section_text_whole files,
      big,
      ap (λ fs. length (open_section fs)) (take_all (length files) files (omega arith)),
    )),
  ),
)

-- Where the limit holds a section of no file and the marker, rendering one file or more does not
-- panic and gives a section of a first part of the files in full, with the marker exactly if one is
-- missing. The section keeps to the limit, and the first part is as long as the limit allows: the
-- marked section of any longer part, and where a file is missing the section of all, would exceed it.
pub render-Rendered :
    (limit : ℕ)
    → overhead ≤ limit
    → (file : InstructionFile) (files : List InstructionFile)
    → (out : Bytes) × (render limit (file ∷ files) ≡ some out) × Rendered limit (file ∷ files) out
unfolding render new_section_sink visit_all add start open_section
render-Rendered limit room file files = Ends-Rendered limit (file ∷ files) _ (
    visit-Ends limit (file ∷ files) (file ∷ files) 0 (empty-under limit room) refl (omega arith)
      (let h = under→le limit (open_section []) (empty-under limit room) in omega (arith, h)))
