-- ===== src/BackgroundJobs/Tail.antt =====
-- backgroundjobs/tail.go: the bounded ring buffer that keeps the newest bytes of an output stream.
-- The mutex is left out: each method holds it for its whole body, so a call is one step.
pub mod Content
pub mod Append
pub mod Write
pub mod Stream
mod Tests
use eino_agent_extensions.Prelude.{
  ℕ, zero, suc, ◌+◌, ◌-◌, ◌%◌, ◌≤◌, ◌<◌, min, ◌≡◌, Bool, true, false, ◌||◌, List, [], ◌∷◌, ◌++◌,
  length, take, drop, replicate, ltb, leb, if◌then◌else◌, Bytes,
}

pub record TailWriter : Type 0 where
  pub buffer : Bytes
  pub start : ℕ
  pub filled : ℕ
  pub truncated : Bool

pub record TailResult : Type 0 where
  pub text : Bytes
  pub truncated : Bool

-- Go's `copy(dst[offset:], src)`: as much of `src` as there is room for.
unfoldable pub copy_at : Bytes → ℕ → Bytes → Bytes
copy_at [] offset src = []
copy_at (x ∷ dst) zero [] = x ∷ dst
copy_at (x ∷ dst) zero (s ∷ src) = s ∷ copy_at dst zero src
copy_at (x ∷ dst) (suc offset) src = x ∷ copy_at dst offset src

unfoldable pub new_tail_writer : ℕ → TailWriter
new_tail_writer limit = record {
  buffer = replicate limit 0;
  start = 0;
  filled = 0;
  truncated = false;
}

-- The first branch of `Write`: the new bytes alone fill the buffer.
unfoldable pub write_over : TailWriter → Bytes → TailWriter
unfolding copy_at
write_over w bytes =
    let capacity = length w.buffer in
    record {
      buffer = copy_at w.buffer 0 (drop (length bytes - capacity) bytes);
      start = 0;
      filled = capacity;
      truncated = if ltb capacity (length bytes) || ltb 0 w.filled then true else w.truncated;
    }

-- The second `if` of `Write`: discard the oldest bytes to make room.
unfoldable pub make_room : TailWriter → ℕ → TailWriter
make_room w count =
    let capacity = length w.buffer in
    if ltb capacity (w.filled + count)
    then (let discard = w.filled + count - capacity in
        record {
          buffer = w.buffer;
          start = (w.start + discard) % capacity;
          filled = w.filled - discard;
          truncated = true;
        })
    else w

-- The rest of `Write`: the bytes go behind the newest, wrapping at the end of the buffer.
unfoldable pub append_bytes : TailWriter → Bytes → TailWriter
unfolding copy_at
append_bytes w bytes =
    let capacity = length w.buffer in
    let end = (w.start + w.filled) % capacity in
    let first = min (length bytes) (capacity - end) in
    record w {
      buffer = copy_at (copy_at w.buffer end (take first bytes)) 0 (drop first bytes);
      filled = w.filled + length bytes;
    }

-- `Write`. It reports the whole input as written.
unfoldable pub write : TailWriter → Bytes → TailWriter × ℕ
unfolding write_over make_room append_bytes
write w bytes =
    if leb (length w.buffer) (length bytes)
    then (write_over w bytes, length bytes)
    else (append_bytes (make_room w (length bytes)) bytes, length bytes)

unfoldable pub mark_truncated : TailWriter → TailWriter
mark_truncated w = record w { truncated = true }

-- The bytes that `snapshot` copies out, before their encoding is repaired.
unfoldable pub held_bytes : TailWriter → Bytes
held_bytes w =
    if ltb 0 w.filled
    then (let first = min w.filled (length w.buffer - w.start) in
        take first (drop w.start w.buffer) ++ take (w.filled - first) w.buffer)
    else []

-- `unicode/utf8.Valid` and `strings.ToValidUTF8` are not under src/: they are parameters.
module _ (utf8_valid : Bytes → Bool) (to_valid_utf8 : Bytes → Bytes) where
  unfoldable pub snapshot : TailWriter → TailResult
  unfolding held_bytes
  snapshot w =
      let bytes = held_bytes w in
      record {
        text = if utf8_valid bytes then bytes else to_valid_utf8 bytes;
        truncated = w.truncated;
      }
