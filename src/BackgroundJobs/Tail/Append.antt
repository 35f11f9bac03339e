-- ===== src/BackgroundJobs/Tail/Append.antt =====
-- The last part of `Write`: two copies put the new bytes behind the newest.
use eino_agent_extensions.Prelude.{
  ℕ, ◌+◌, ◌-◌, ◌%◌, ◌≤◌, ◌<◌, min, ◌≡◌, ◌∙◌, inl, inr, ◌++◌, length, take, drop, get_elem?, Bytes,
  arith, mod_cases, length-append, length-take, length-drop, get_elem?-append_left,
  get_elem?-append_right, get_elem?-take, get_elem?-drop, le_or_lt, ◌⊎◌, sym, subst,
}
use eino_agent_extensions.BackgroundJobs.Tail.{TailWriter, copy_at, held_bytes, append_bytes}
use eino_agent_extensions.BackgroundJobs.Tail.Content.{
  IsRing, slot, length-copy_at, copy_at_before, copy_at_inside, copy_at_behind, length-held_bytes,
  held_bytes-slot, held_bytes-eq,
}

-- The two copies of `append_bytes`, at a position that neither touches, or one of them wrote.
abbrev two_copies : Bytes → ℕ → ℕ → Bytes → Bytes
two_copies b end first d = copy_at (copy_at b end (take first d)) 0 (drop first d)

module _ (b : Bytes) (end first : ℕ) (d : Bytes) (within : first ≤ length d) where
  two_copies-untouched :
      (p : ℕ)
      → (p < end) ⊎ (end + first ≤ p)
      → length d - first ≤ p
      → get_elem? (two_copies b end first d) p ≡ get_elem? b p
  two_copies-untouched p far behind =
      copy_at_behind (copy_at b end (take first d)) 0 (drop first d) p
        (omega (arith, length-drop first d))
      ∙ outside far
    where
      outside :
          (p < end) ⊎ (end + first ≤ p) → get_elem? (copy_at b end (take first d)) p ≡ get_elem? b p
      outside (inl h) = copy_at_before b end (take first d) p h
      outside (inr h) = copy_at_behind b end (take first d) p (omega (arith, length-take first d))

  two_copies-first :
      (p j : ℕ)
      → p ≡ end + j
      → j < first
      → p < length b
      → length d - first ≤ p
      → get_elem? (two_copies b end first d) p ≡ get_elem? d j
  two_copies-first p j e h k behind =
      copy_at_behind (copy_at b end (take first d)) 0 (drop first d) p
        (omega (arith, length-drop first d))
      ∙ copy_at_inside b end (take first d) p j e (omega (arith, length-take first d)) k
      ∙ get_elem?-take first d j h

  two_copies-second :
      (p j : ℕ)
      → j ≡ first + p
      → j < length d
      → p < length b
      → get_elem? (two_copies b end first d) p ≡ get_elem? d j
  two_copies-second p j e h k =
      copy_at_inside (copy_at b end (take first d)) 0 (drop first d) p p (omega arith)
        (omega (arith, length-drop first d)) (omega (arith, length-copy_at b end (take first d)))
      ∙ get_elem?-drop first d p j e

pub length_appended :
    (w : TailWriter) (d : Bytes) → length (append_bytes w d).buffer ≡ length w.buffer
unfolding append_bytes
length_appended w d =
    let end = (w.start + w.filled) % length w.buffer in
    let first = min (length d) (length w.buffer - end) in
    length-copy_at (copy_at w.buffer end (take first d)) 0 (drop first d)
    ∙ length-copy_at w.buffer end (take first d)

module _ (w : TailWriter) (d : Bytes) (v : IsRing w) (room : w.filled + length d ≤ length w.buffer)
    (open_ended : 0 < length w.buffer) where
  pub append_bytes-IsRing : IsRing (append_bytes w d)
  unfolding append_bytes
  append_bytes-IsRing = record {
    fits = omega (arith, length_appended w d);
    inside = ground (arith, v.inside, length_appended w d);
  }

  -- Where the new bytes go: the end of the content, and whether it has wrapped.
  wrap :
      let end = (w.start + w.filled) % length w.buffer in
      ((w.start + w.filled < length w.buffer) × (end ≡ w.start + w.filled))
      ⊎ ((length w.buffer ≤ w.start + w.filled) × (end ≡ w.start + w.filled - length w.buffer))
  wrap = mod_cases (w.start + w.filled) (length w.buffer) (ground (arith, v.inside, v.fits))

  append_bytes-old :
      (i : ℕ)
      → i < w.filled
      → get_elem? (append_bytes w d).buffer (slot w i) ≡ get_elem? w.buffer (slot w i)
  unfolding append_bytes slot
  append_bytes-old i h =
      let end = (w.start + w.filled) % length w.buffer in
      let first = min (length d) (length w.buffer - end) in
      two_copies-untouched w.buffer end first d (omega arith) (slot w i)
        (ground (arith, wrap, v.inside)) (ground (arith, wrap, v.inside))

  append_bytes-new :
      (j : ℕ)
      → j < length d
      → get_elem? (append_bytes w d).buffer (slot w (w.filled + j)) ≡ get_elem? d j
  unfolding append_bytes slot
  append_bytes-new j h =
      let end = (w.start + w.filled) % length w.buffer in
      let first = min (length d) (length w.buffer - end) in
      elim (le_or_lt first j) [
        | inl later ↦
            two_copies-second w.buffer end first d (omega arith) (slot w (w.filled + j)) j
              (ground (arith, wrap, v.inside)) h (ground (arith, wrap, v.inside))
        | inr early ↦
            two_copies-first w.buffer end first d (omega arith) (slot w (w.filled + j)) j
              (ground (arith, wrap, v.inside)) early (ground (arith, wrap, v.inside))
              (ground (arith, wrap, v.inside))
      ]

  append_bytes-slot : (i : ℕ) → slot (append_bytes w d) i ≡ slot w i
  unfolding append_bytes slot
  append_bytes-slot i = rw (length_appended w d)

  append_bytes-filled : (append_bytes w d).filled ≡ length (held_bytes w ++ d)
  unfolding append_bytes
  append_bytes-filled = omega (arith, length-append (held_bytes w) d, length-held_bytes w v)

  append_bytes-at :
      (i : ℕ)
      → i < length (held_bytes w ++ d)
      → get_elem? (append_bytes w d).buffer (slot w i) ≡ get_elem? (held_bytes w ++ d) i
  append_bytes-at i h = elim (le_or_lt w.filled i) [
    | inl new ↦
        let j = i - w.filled in
        let e : w.filled + j ≡ i = omega arith in
        subst
          (λ k. get_elem? (append_bytes w d).buffer (slot w k) ≡ get_elem? (held_bytes w ++ d) k) e
          (append_bytes-new j (omega (arith, length-append (held_bytes w) d, length-held_bytes w v))
            ∙ sym (
                get_elem?-append_right (held_bytes w) d (w.filled + j) j
                  (omega (arith, length-held_bytes w v))))
    | inr old ↦
        append_bytes-old i old
        ∙ sym (held_bytes-slot w i v old)
        ∙ sym (get_elem?-append_left (held_bytes w) d i (omega (arith, length-held_bytes w v)))
  ]

  pub append_bytes-held : held_bytes (append_bytes w d) ≡ held_bytes w ++ d
  append_bytes-held =
      held_bytes-eq (append_bytes w d) (held_bytes w ++ d) append_bytes-IsRing append_bytes-filled
        λ i p. rw (append_bytes-slot i) (append_bytes-at i p)
