-- ===== src/WorkspaceInstructions/Render/Rollback.antt =====
-- The texts of an open section, and what a roll back leaves of it.
use eino_agent_extensions.Prelude.{
  ℕ, zero, suc, ◌+◌, ◌-◌, ◌≤◌, ◌<◌, ◌≡◌, refl, sym, ap, ◌∙◌, inl, inr, Bool, true, false, some,
  List, [], ◌∷◌, ◌++◌, Bytes, length, take, drop, length-append, if◌then◌else◌, arith, Bool-cases,
  le_or_lt, subst, le→ltb,
}
use eino_agent_extensions.WorkspaceInstructions.Render.{
  InstructionFile, section_open, section_close, omitted_marker, line_break, line_break_bytes,
  file_text, truncate, over_budget, roll_back,
}

-- The rendered files, one behind the other.
unfoldable pub texts : List InstructionFile → Bytes
texts [] = []
texts (file ∷ files) = file_text file ++ texts files

-- An open section of some files.
unfoldable pub open_section : List InstructionFile → Bytes
unfolding texts
open_section files = section_open ++ line_break ++ texts files

-- A whole section of some files, with the marker or without.
abbrev pub section_text : List InstructionFile → Bool → Bytes
section_text files marked =
    open_section files ++ (if marked then omitted_marker ++ line_break else []) ++ section_close

-- What a section of no file and the marker takes.
abbrev pub overhead : ℕ
overhead =
    length section_open
    + line_break_bytes
    + (length omitted_marker + line_break_bytes + length section_close)

pub append_assoc : (xs ys zs : Bytes) → xs ++ ys ++ zs ≡ xs ++ (ys ++ zs)
append_assoc [] ys zs = refl
append_assoc (x ∷ xs) ys zs = ap (λ t. x ∷ t) (append_assoc xs ys zs)

pub append-nil : (xs : Bytes) → xs ++ [] ≡ xs
append-nil [] = refl
append-nil (x ∷ xs) = ap (λ t. x ∷ t) (append-nil xs)

take-append : (xs ys : Bytes) → take (length xs) (xs ++ ys) ≡ xs
take-append [] ys = refl
take-append (x ∷ xs) ys = ap (λ t. x ∷ t) (take-append xs ys)

truncate-append : (xs ys : Bytes) → truncate (length xs) (xs ++ ys) ≡ some xs
unfolding truncate
truncate-append xs ys =
    rw
      (
        length-append xs ys,
        le→ltb (length xs + length ys) (length xs) (omega arith),
        take-append xs ys,
      )
      refl

roll_back_over :
    (limit last : ℕ) (buffer shorter : Bytes) (rest : List ℕ)
    → over_budget limit buffer ≡ true
    → truncate last buffer ≡ some shorter
    → roll_back limit buffer (last ∷ rest) ≡ roll_back limit shorter rest
unfolding roll_back
roll_back_over limit last buffer shorter rest over e = rw (roll_back, over, e) refl

roll_back_under :
    (limit last : ℕ) (buffer : Bytes) (rest : List ℕ)
    → over_budget limit buffer ≡ false
    → roll_back limit buffer (last ∷ rest) ≡ some (buffer, last ∷ rest)
unfolding roll_back
roll_back_under limit last buffer rest under = rw (roll_back, under) refl

-- One file more.
texts_next :
    (files : List InstructionFile) (n : ℕ) (file : InstructionFile) (rest : List InstructionFile)
    → drop n files ≡ file ∷ rest
    → texts (take (suc n) files) ≡ texts (take n files) ++ file_text file
unfolding texts
texts_next [] zero file rest h = absurd (cc)
texts_next [] (suc n) file rest h = absurd (cc)
texts_next (x ∷ xs) zero file rest h =
    let e : x ≡ file = cc in append-nil (file_text x) ∙ ap file_text e
texts_next (x ∷ xs) (suc n) file rest h =
    ap (λ t. file_text x ++ t) (texts_next xs n file rest h)
    ∙ sym (append_assoc (file_text x) (texts (take n xs)) (file_text file))

texts_grow :
    (files : List InstructionFile) (n : ℕ)
    → (t : Bytes) × (texts (take (suc n) files) ≡ texts (take n files) ++ t)
unfolding texts
texts_grow [] zero = ([], refl)
texts_grow [] (suc n) = ([], refl)
texts_grow (x ∷ xs) zero = (file_text x, append-nil (file_text x))
texts_grow (x ∷ xs) (suc n) =
    let (t, e) = texts_grow xs n in
    (t, ap (λ u. file_text x ++ u) e ∙ sym (append_assoc (file_text x) (texts (take n xs)) t))

module _ (files : List InstructionFile) (limit : ℕ) where
  -- The buffer behind `n` files, and the checkpoints.
  abbrev pub body : ℕ → Bytes
  body n = open_section (take n files)

  abbrev pub marks : ℕ → List ℕ
  marks zero = []
  marks (suc n) = length (body n) ∷ marks n

  body_grow : (n : ℕ) → (t : Bytes) × (body (suc n) ≡ body n ++ t)
  unfolding open_section
  body_grow n =
      let (t, e) = texts_grow files n in
      (
        t,
        ap (λ u. section_open ++ line_break ++ u) e
            ∙ sym (append_assoc (section_open ++ line_break) (texts (take n files)) t),
      )

  pub body_next :
      (n : ℕ) (file : InstructionFile) (rest : List InstructionFile)
      → drop n files ≡ file ∷ rest
      → body (suc n) ≡ body n ++ file_text file
  unfolding open_section
  body_next n file rest h =
      ap (λ u. section_open ++ line_break ++ u) (texts_next files n file rest h)
      ∙ sym (append_assoc (section_open ++ line_break) (texts (take n files)) (file_text file))

  body_mono : (n d : ℕ) → length (body n) ≤ length (body (n + d))
  body_mono n zero =
      subst (λ k. length (body n) ≤ length (body k)) (let e : n ≡ n + 0 = omega arith in e)
        (omega arith)
  body_mono n (suc d) =
      let (t, e) = body_grow (n + d) in
      let same : n + suc d ≡ suc (n + d) = omega arith in
      let k : length (body (suc (n + d))) ≡ length (body (n + d)) + length t =
        ap length e ∙ length-append (body (n + d)) t in
      subst (λ j. length (body n) ≤ length (body j)) (sym same) (omega (arith, k, body_mono n d))

  pub body_le : (n m : ℕ) → n ≤ m → length (body n) ≤ length (body m)
  body_le n m h =
      subst (λ k. length (body n) ≤ length (body k)) (let e : n + (m - n) ≡ m = omega arith in e)
        (body_mono n (m - n))

  truncate-body : (n : ℕ) → truncate (length (body n)) (body (suc n)) ≡ some (body n)
  truncate-body n =
      let (t, e) = body_grow n in ap (truncate (length (body n))) e ∙ truncate-append (body n) t

  -- What the roll back from `n` files keeps.
  abbrev pub Kept : ℕ → Type 0
  Kept n =
      (m : ℕ) × (m ≤ n)
      × (roll_back limit (body n) (marks n) ≡ some (body m, marks m))
      × (over_budget limit (body m) ≡ false)
      × ((k : ℕ) → m < k → k ≤ n → over_budget limit (body k) ≡ true)

  pub rolls : over_budget limit (body 0) ≡ false → (n : ℕ) → Kept n
  unfolding roll_back
  rolls fits zero = (0, omega arith, refl, fits, λ k p q. absurd (omega arith))
  rolls fits (suc n) = elim (Bool-cases (over_budget limit (body (suc n)))) [
    | inr under ↦ (
      suc n,
      omega arith,
      roll_back_under limit (length (body n)) (body (suc n)) (marks n) under,
      under,
      λ k p q. absurd (omega arith),
    )
    | inl over ↦
        let (m, below, e, under, above) = rolls fits n in
        (
          m,
          omega arith,
          roll_back_over limit (length (body n)) (body (suc n)) (body n) (marks n) over
                (truncate-body n)
              ∙ e,
          under,
          λ k p q. elim (le_or_lt k n) [
            | inl small ↦ above k p small
            | inr big ↦
                subst (λ j. over_budget limit (body j) ≡ true)
                  (let e : suc n ≡ k = omega arith in e) over
          ],
        )
  ]
