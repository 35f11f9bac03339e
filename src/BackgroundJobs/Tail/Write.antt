-- ===== src/BackgroundJobs/Tail/Write.antt =====
-- One `Write` of backgroundjobs/tail.go against the content of the ring.
use eino_agent_extensions.Prelude.{
  ℕ, ◌+◌, ◌-◌, ◌≤◌, ◌<◌, ◌≡◌, refl, ap, ◌∙◌, inl, inr, true, ◌++◌, length, drop, ltb, if◌then◌else◌,
  Bytes, arith, mod_cases, length-append, length-drop, get_elem?-drop, le_or_lt, le→leb, lt→leb,
  drop_append, newest_right, newest, sym,
}
use eino_agent_extensions.BackgroundJobs.Tail.{
  TailWriter, held_bytes, write_over, make_room, append_bytes, write,
}
use eino_agent_extensions.BackgroundJobs.Tail.Content.{
  IsRing, slot, length-copy_at, copy_at_inside, length-held_bytes, held_bytes-slot, held_bytes-eq,
}
use eino_agent_extensions.BackgroundJobs.Tail.Append.{
  append_bytes-held, append_bytes-IsRing, length_appended,
}

write_over-IsRing :
    (w : TailWriter) (d : Bytes) → length w.buffer ≤ length d → IsRing (write_over w d)
unfolding write_over
write_over-IsRing w d h = record {
  fits = omega (arith, length-copy_at w.buffer 0 (drop (length d - length w.buffer) d));
  inside = inl refl;
}

write_over-held :
    (w : TailWriter) (d : Bytes)
    → length w.buffer ≤ length d
    → held_bytes (write_over w d) ≡ newest (length w.buffer) d
unfolding write_over slot
write_over-held w d h =
    let cap = length w.buffer in
    let xs = drop (length d - cap) d in
    held_bytes-eq (write_over w d) xs (write_over-IsRing w d h)
      (omega (arith, length-drop (length d - cap) d))
      λ i p. ground (
        arith,
        length-copy_at w.buffer 0 xs,
        length-drop (length d - cap) d,
        copy_at_inside w.buffer 0 xs i i (omega arith) p
            (omega (arith, length-drop (length d - cap) d)),
      )

make_room-IsRing :
    (w : TailWriter) (n : ℕ) → IsRing w → n < length w.buffer → IsRing (make_room w n)
unfolding make_room
make_room-IsRing w n v h = record {
  fits = ground (arith, v.fits);
  inside =
      ground
        (arith, v.inside, mod_cases (w.start + (w.filled + n - length w.buffer)) (length w.buffer));
}

make_room-fits :
    (w : TailWriter) (n : ℕ)
    → IsRing w
    → n < length w.buffer
    → (make_room w n).filled + n ≤ length w.buffer
unfolding make_room
make_room-fits w n v h = ground arith

make_room-slot :
    (w : TailWriter) (n i : ℕ)
    → IsRing w
    → n < length w.buffer
    → w.filled + n - length w.buffer + i < w.filled
    → slot (make_room w n) i ≡ slot w (w.filled + n - length w.buffer + i)
unfolding make_room slot
make_room-slot w n i v h k =
    ground
      (arith, v.inside, mod_cases (w.start + (w.filled + n - length w.buffer)) (length w.buffer))

make_room-buffer : (w : TailWriter) (n : ℕ) → (make_room w n).buffer ≡ w.buffer
unfolding make_room
make_room-buffer w n = ground arith

make_room-filled :
    (w : TailWriter) (n : ℕ) → (make_room w n).filled ≡ w.filled - (w.filled + n - length w.buffer)
unfolding make_room
make_room-filled w n = ground arith

make_room-held :
    (w : TailWriter) (n : ℕ)
    → IsRing w
    → n < length w.buffer
    → held_bytes (make_room w n) ≡ drop (w.filled + n - length w.buffer) (held_bytes w)
make_room-held w n v h =
    let gone = w.filled + n - length w.buffer in
    let xs = drop gone (held_bytes w) in
    let size : length xs ≡ w.filled - gone =
      omega (arith, length-drop gone (held_bytes w), length-held_bytes w v) in
    held_bytes-eq (make_room w n) xs (make_room-IsRing w n v h) (make_room-filled w n ∙ sym size)
      λ i p.
        rw (make_room-slot w n i v h (omega arith), make_room-buffer w n)
          (sym (held_bytes-slot w (gone + i) v (omega arith))
            ∙ sym (get_elem?-drop gone (held_bytes w) i (gone + i) refl))

-- Discarding the oldest bytes and appending is keeping the newest.
newest-append :
    (c : ℕ) (xs d : Bytes)
    → length d < c
    → drop (length xs + length d - c) xs ++ d ≡ newest c (xs ++ d)
newest-append c xs d h =
    let gone = length xs + length d - c in
    sym (drop_append gone xs d (omega arith))
    ∙ ap (λ n. drop n (xs ++ d)) (omega (arith, length-append xs d))

write_inner :
    (w : TailWriter) (d : Bytes)
    → IsRing w
    → length d < length w.buffer
    → IsRing (append_bytes (make_room w (length d)) d)
      × (held_bytes (append_bytes (make_room w (length d)) d)
          ≡ newest (length w.buffer) (held_bytes w ++ d))
write_inner w d v h =
    let u = make_room w (length d) in
    let ring : IsRing u = make_room-IsRing w (length d) v h in
    let same : length u.buffer ≡ length w.buffer = ap length (make_room-buffer w (length d)) in
    let room : u.filled + length d ≤ length u.buffer =
      omega (arith, make_room-fits w (length d) v h) in
    let positive : 0 < length u.buffer = omega arith in
    (
      append_bytes-IsRing u d ring room positive,
      append_bytes-held u d ring room positive
          ∙ ap (λ xs. xs ++ d) (make_room-held w (length d) v h)
          ∙ ap (λ n. drop (n + length d - length w.buffer) (held_bytes w) ++ d)
              (sym (length-held_bytes w v))
          ∙ newest-append (length w.buffer) (held_bytes w) d h,
    )

pub write-IsRing : (w : TailWriter) (d : Bytes) → IsRing w → IsRing (write w d).0
unfolding write
write-IsRing w d v = elim (le_or_lt (length w.buffer) (length d)) [
  | inl big ↦ rw (le→leb _ _ big) (write_over-IsRing w d big)
  | inr small ↦ rw (lt→leb _ _ small) (write_inner w d v small).0
]

-- One `Write` on a well-formed ring: the content is the newest `capacity` bytes of the old content
-- followed by the new bytes.
pub held_bytes-write :
    (w : TailWriter) (d : Bytes)
    → IsRing w
    → held_bytes (write w d).0 ≡ newest (length w.buffer) (held_bytes w ++ d)
unfolding write
held_bytes-write w d v = elim (le_or_lt (length w.buffer) (length d)) [
  | inl big ↦
      rw (le→leb _ _ big)
        (write_over-held w d big ∙ sym (newest_right (length w.buffer) (held_bytes w) d big))
  | inr small ↦ rw (lt→leb _ _ small) (write_inner w d v small).1
]

-- The capacity never changes, and the flag is set exactly when bytes were dropped.
pub write-truncated :
    (w : TailWriter) (d : Bytes)
    → (write w d).0.truncated
      ≡ (if ltb (length w.buffer) (w.filled + length d) then true else w.truncated)
unfolding write write_over make_room append_bytes
write-truncated w d = ground arith

pub length-write : (w : TailWriter) (d : Bytes) → length (write w d).0.buffer ≡ length w.buffer
unfolding write write_over make_room append_bytes
length-write w d = ground (
  arith,
  length-copy_at w.buffer 0 (drop (length d - length w.buffer) d),
  length_appended (make_room w (length d)) d,
  make_room-buffer w (length d),
)
