-- ===== src/ToolResultRedactor/Ranges/Mask.antt =====
-- The text with its ranges replaced, against a description that reads the text once: each byte that
-- is not covered stays, and each maximal run of covered bytes becomes one placeholder.
use mathlib.Core.List.{append-nil}
use eino_agent_extensions.Prelude.{
  ℕ, zero, suc, ◌+◌, ◌-◌, ◌≤◌, ◌<◌, ◌≡◌, refl, sym, ap, ◌∙◌, Bool, true, false, some, List, [], ◌∷◌,
  ◌++◌, Bytes, length, take, drop, if◌then◌else◌, arith, length-drop, drop_on, drop_all,
}
use eino_agent_extensions.ToolResultRedactor.Ranges.{ByteRange, placeholder, slice, splice}
use eino_agent_extensions.ToolResultRedactor.Ranges.Order.{covers}
use eino_agent_extensions.ToolResultRedactor.Ranges.Cover.{Separated}

-- `inside` says that the byte before was covered; `i` is the position of the first byte.
abbrev pub masked : (ℕ → Bool) → Bool → ℕ → Bytes → Bytes
masked covered inside i [] = []
masked covered inside i (x ∷ xs) =
    if covered i
    then (if inside then [] else placeholder) ++ masked covered (covered i) (i + 1) xs
    else x ∷ masked covered (covered i) (i + 1) xs

module _ (covered : ℕ → Bool) where
  -- A stretch that no range covers is copied.
  masked_clear :
      (n i : ℕ) (xs : Bytes)
      → ((k : ℕ) → i ≤ k → k < i + n → covered k ≡ false)
      → n ≤ length xs
      → masked covered false i xs ≡ take n xs ++ masked covered false (i + n) (drop n xs)
  masked_clear zero i xs h l = ap (λ j. masked covered false j xs) (omega arith)
  masked_clear (suc n) i [] h l = absurd (omega arith)
  masked_clear (suc n) i (x ∷ xs) h l =
      let rest =
        masked_clear n (i + 1) xs (λ k p q. h k (omega arith) (omega arith)) (omega arith) in
      let here = h i (omega arith) (omega arith) in
      let same : i + 1 + n ≡ i + suc n = omega arith in
      rw here
        (ap (λ t. x ∷ t) (rest ∙ ap (λ j. take n xs ++ masked covered false j (drop n xs)) same))

  -- Inside a run, covered bytes vanish.
  masked_run :
      (n i : ℕ) (xs : Bytes)
      → ((k : ℕ) → i ≤ k → k < i + n → covered k ≡ true)
      → n ≤ length xs
      → masked covered true i xs ≡ masked covered true (i + n) (drop n xs)
  masked_run zero i xs h l = ap (λ j. masked covered true j xs) (omega arith)
  masked_run (suc n) i [] h l = absurd (omega arith)
  masked_run (suc n) i (x ∷ xs) h l =
      let rest = masked_run n (i + 1) xs (λ k p q. h k (omega arith) (omega arith)) (omega arith) in
      let here = h i (omega arith) (omega arith) in
      let same : i + 1 + n ≡ i + suc n = omega arith in
      rw here (rest ∙ ap (λ j. masked covered true j (drop n xs)) same)

  -- A whole run becomes one placeholder.
  masked_span :
      (n i : ℕ) (xs : Bytes)
      → 0 < n
      → ((k : ℕ) → i ≤ k → k < i + n → covered k ≡ true)
      → n ≤ length xs
      → masked covered false i xs ≡ placeholder ++ masked covered true (i + n) (drop n xs)
  masked_span zero i xs p h l = absurd (omega arith)
  masked_span (suc n) i [] p h l = absurd (omega arith)
  masked_span (suc n) i (x ∷ xs) p h l =
      let rest = masked_run n (i + 1) xs (λ k p q. h k (omega arith) (omega arith)) (omega arith) in
      let here = h i (omega arith) (omega arith) in
      let same : i + 1 + n ≡ i + suc n = omega arith in
      rw here (ap (λ t. placeholder ++ t) (rest ∙ ap (λ j. masked covered true j (drop n xs)) same))

  -- Where the next byte is not covered, it does not matter what was before.
  masked_leave :
      (i : ℕ) (xs : Bytes)
      → covered i ≡ false
      → masked covered true i xs ≡ masked covered false i xs
  masked_leave i [] h = refl
  masked_leave i (x ∷ xs) h = rw h

covers_below :
    (size low : ℕ) (rs : List ByteRange) (k : ℕ)
    → Separated size low rs
    → k < low
    → covers rs k ≡ false
covers_below size low [] k s h = refl
covers_below size low (r ∷ rs) k s h = ground (arith, covers_below size (r.end + 1) rs k s.2)

Separated-mono :
    (size a b : ℕ) (rs : List ByteRange) → a ≤ b → Separated size b rs → Separated size a rs
Separated-mono size a b [] h s = tt
Separated-mono size a b (r ∷ rs) h s = (omega arith, s.1, s.2)

slice-some :
    (value : Bytes) (low high : ℕ)
    → low ≤ high
    → high ≤ length value
    → slice value low high ≡ some (take (high - low) (drop low value))
slice-some value low high h k = ground arith

module _ (value : Bytes) (covered : ℕ → Bool) where
  -- The description moves on over an uncovered stretch to `start`, and over a range to `end`.
  to_start :
      (position start : ℕ)
      → position ≤ start
      → start ≤ length value
      → ((k : ℕ) → position ≤ k → k < start → covered k ≡ false)
      → masked covered false position (drop position value)
        ≡ take (start - position) (drop position value)
          ++ masked covered false start (drop start value)
  to_start position start h k clear =
      masked_clear covered (start - position) position (drop position value)
        (λ j p q. clear j p (omega arith)) (omega (arith, length-drop position value))
      ∙ ap (λ t. take (start - position) (drop position value) ++ t)
          (ap (λ j. masked covered false j (drop (start - position) (drop position value)))
              (omega arith)
            ∙ ap (masked covered false start) (drop_on position start value h))

  to_end :
      (start end : ℕ)
      → start < end
      → end ≤ length value
      → ((k : ℕ) → start ≤ k → k < end → covered k ≡ true)
      → covered end ≡ false
      → masked covered false start (drop start value)
        ≡ placeholder ++ masked covered false end (drop end value)
  to_end start end h k run clear =
      masked_span covered (end - start) start (drop start value) (omega arith)
        (λ j p q. run j p (omega arith)) (omega (arith, length-drop start value))
      ∙ ap (λ t. placeholder ++ t)
          (ap (λ j. masked covered true j (drop (end - start) (drop start value))) (omega arith)
            ∙ ap (masked covered true end) (drop_on start end value (omega arith))
            ∙ masked_leave covered end (drop end value) clear)

  -- From any position, the pieces that are written out are the masked rest of the text; no slice is
  -- out of range.
  pub splice-masked :
      (rs : List ByteRange) (position : ℕ)
      → position ≤ length value
      → Separated (length value) position rs
      → ((k : ℕ) → position ≤ k → covered k ≡ covers rs k)
      → splice value position rs ≡ some (masked covered false position (drop position value))
  unfolding splice
  splice-masked [] position l s h =
      slice-some value position (length value) l (omega arith)
      ∙ ap some (
          sym (
            to_start position (length value) l (omega arith) (λ k p q. h k p)
            ∙ ap
                (λ t.
                  take (length value - position) (drop position value)
                  ++ masked covered false (length value) t)
                (drop_all (length value) value (omega arith))
            ∙ append-nil _))
  splice-masked (r ∷ rs) position l s h =
      let rest =
        splice-masked rs r.end (omega arith)
          (Separated-mono (length value) r.end (r.end + 1) rs (omega arith) s.2)
          (λ k p. ground (arith, h k)) in
      rw (slice-some value position r.start s.0 (omega arith), rest)
        (ap some (
          sym (
            to_start position r.start s.0 (omega arith)
              (λ k p q. ground (arith, h k p, covers_below (length value) (r.end + 1) rs k s.2))
            ∙ ap (λ t. take (r.start - position) (drop position value) ++ t)
                (to_end r.start r.end (omega arith) (omega arith) (λ k p q. ground (arith, h k))
                  (ground
                    (arith, h r.end, covers_below (length value) (r.end + 1) rs r.end s.2))))))
