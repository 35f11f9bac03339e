-- ===== src/BackgroundJobs/Tail/Stream.antt =====
-- A run of `Write` calls against the stream of all bytes written.
use mathlib.Core.List.{append-nil, append_assoc}
use eino_agent_extensions.Prelude.{
  ℕ, ◌-◌, ◌≡◌, refl, ap, ◌∙◌, inl, List, [], ◌∷◌, ◌++◌, length, ltb, Bytes, arith, length-append,
  length-drop, length-replicate, newest, newest-newest, sym,
}
use eino_agent_extensions.BackgroundJobs.Tail.{TailWriter, held_bytes, write, new_tail_writer}
use eino_agent_extensions.BackgroundJobs.Tail.Content.{IsRing, length-held_bytes}
use eino_agent_extensions.BackgroundJobs.Tail.Write.{
  write-IsRing, held_bytes-write, write-truncated, length-write,
}

-- The writes of one run, oldest first.
unfoldable pub write_all : TailWriter → List Bytes → TailWriter
write_all w [] = w
write_all w (d ∷ ds) = write_all (write w d).0 ds

abbrev pub joined : List Bytes → Bytes
joined [] = []
joined (d ∷ ds) = d ++ joined ds

-- What a ring of capacity `limit` holds when all the bytes of `written` have passed through it.
pub record Holds (limit : ℕ) (w : TailWriter) (written : Bytes) : Type 0 where
  pub ring : IsRing w
  pub capacity : length w.buffer ≡ limit
  pub content : held_bytes w ≡ newest limit written
  pub flag : w.truncated ≡ ltb limit (length written)

Holds-write :
    (limit : ℕ) (w : TailWriter) (written d : Bytes)
    → Holds limit w written
    → Holds limit (write w d).0 (written ++ d)
Holds-write limit w written d h =
    let filled : w.filled ≡ length written - (length written - limit) = omega (
      arith,
      length-held_bytes w h.ring,
      ap length h.content,
      length-drop (length written - limit) written,
    ) in
    record {
      ring = write-IsRing w d h.ring;
      capacity = length-write w d ∙ h.capacity;
      content =
          held_bytes-write w d h.ring ∙ cc (h.capacity, h.content) ∙ newest-newest limit written d;
      flag =
          ground (arith, write-truncated w d, h.capacity, h.flag, filled, length-append written d);
    }

Holds-write_all :
    (limit : ℕ) (w : TailWriter) (written : Bytes) (ds : List Bytes)
    → Holds limit w written
    → Holds limit (write_all w ds) (written ++ joined ds)
unfolding write_all
Holds-write_all limit w written [] h = rw append-nil h
Holds-write_all limit w written (d ∷ ds) h =
    rw (sym (append_assoc written d (joined ds)))
      (Holds-write_all limit (write w d).0 (written ++ d) ds (Holds-write limit w written d h))

Holds-new : (limit : ℕ) → Holds limit (new_tail_writer limit) []
unfolding new_tail_writer held_bytes
Holds-new limit = record {
  ring = record { fits = omega arith; inside = inl refl };
  capacity = length-replicate limit 0;
  content = ground arith;
  flag = ground arith;
}

-- After any sequence of writes to a new buffer, of any sizes, it holds exactly the newest `limit`
-- bytes of everything written, in order, and it is marked as truncated exactly when more than
-- `limit` bytes were written.
pub stream_tail :
    (limit : ℕ) (ds : List Bytes)
    → let w = write_all (new_tail_writer limit) ds in
      (held_bytes w ≡ newest limit (joined ds)) × (w.truncated ≡ ltb limit (length (joined ds)))
stream_tail limit ds =
    let h = Holds-write_all limit (new_tail_writer limit) [] ds (Holds-new limit) in
    (h.content, h.flag)
