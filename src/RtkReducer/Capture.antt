-- ===== src/RtkReducer/Capture.antt =====
-- rtkreducer/capture.go: a stream is read to its end, and no more than the limit of it is kept.
pub mod Laws
pub mod Stream
mod Tests
use eino_agent_extensions.Prelude.{
  ℕ, zero, suc, ◌+◌, ◌-◌, Bool, true, false, ◌&&◌, not, Option, none, some, List, [], ◌∷◌, ◌++◌,
  Bytes, length, take, ltb, leb, ◌==◌, if◌then◌else◌,
}

pub record BoundedCapture : Type 0 where
  pub limit : ℕ
  pub retain : Bool
  pub buf : Bytes
  pub count : ℕ
  pub overflow : Bool

unfoldable pub new_bounded_capture : ℕ → BoundedCapture
new_bounded_capture limit = record {
  limit = limit;
  retain = true;
  buf = [];
  count = 0;
  overflow = false;
}

unfoldable pub new_discard_capture : ℕ → BoundedCapture
new_discard_capture limit = record {
  limit = limit;
  retain = false;
  buf = [];
  count = 0;
  overflow = false;
}

-- How much of a value is kept; what remains is nothing where the difference is negative.
unfoldable pub keep_bytes : BoundedCapture → Bytes → ℕ
keep_bytes c value =
    let remaining = c.limit - c.count in
    if ltb remaining (length value) then remaining else length value

-- `write`: the capture, the bytes reported, and whether the overflow callback was called; `none` is
-- the error of a capture without a limit.
unfoldable pub write : BoundedCapture → Bytes → Option (BoundedCapture × ℕ × Bool)
unfolding keep_bytes
write c value =
    if c.limit == 0
    then none
    else let keep = keep_bytes c value in
      some (
        record {
          limit = c.limit;
          retain = c.retain;
          buf = if c.retain && ltb 0 keep then c.buf ++ take keep value else c.buf;
          count = c.count + keep;
          overflow = if not (keep == length value) && not c.overflow then true else c.overflow;
        },
        length value,
        not (keep == length value) && not c.overflow,
      )

-- What a call of `Read` gives: some bytes, and nothing more, the end or another error.
pub data ReadErr : Type 0 where
  more eof failed : ReadErr

pub data ReadResult : Type 0 where
  read : Bytes → ReadErr → ReadResult

-- Why `readFrom` returned, or that the calls seen so far do not end it.
pub data Stop : Type 0 where
  done short_buffer no_progress read_failed reading : Stop

-- The capture, and how often the callback was called.
pub record Reading : Type 0 where
  pub capture : BoundedCapture
  pub fired : ℕ

abbrev pub tally : Bool → ℕ → ℕ
tally true n = n + 1
tally false n = n

abbrev pub ending : ReadErr → Stop
ending more = reading
ending eof = done
ending failed = read_failed

unfoldable pub max_zero_reads : ℕ
max_zero_reads = 100

-- A call that gave bytes: they are written, and then its error is looked at.
unfoldable pub take_in : Reading → Bytes → Option Reading
unfolding write
take_in r bytes = elim (write r.capture bytes) [
  | none ↦ none
  | some (c, _, fired) ↦ some (record { capture = c; fired = tally fired r.fired })
]

-- The loop of `readFrom`, by the results of its calls of `Read`.
unfoldable pub read_loop : Reading → ℕ → List ReadResult → Reading × Stop
unfolding take_in max_zero_reads
read_loop r zero_reads [] = (r, reading)
read_loop r zero_reads (read [] more ∷ calls) = elim (leb max_zero_reads (zero_reads + 1)) [
  | true ↦ (r, no_progress)
  | false ↦ read_loop r (zero_reads + 1) calls
]
read_loop r zero_reads (read [] err ∷ calls) = (r, ending err)
read_loop r zero_reads (read (b ∷ bs) more ∷ calls) = elim (take_in r (b ∷ bs)) [
  | none ↦ (r, short_buffer)
  | some r' ↦ read_loop r' 0 calls
]
read_loop r zero_reads (read (b ∷ bs) err ∷ calls) = elim (take_in r (b ∷ bs)) [
  | none ↦ (r, short_buffer)
  | some r' ↦ (r', ending err)
]

unfoldable pub read_from : BoundedCapture → List ReadResult → Reading × Stop
unfolding read_loop
read_from c calls =
    if c.limit == 0
    then (record { capture = c; fired = 0 }, short_buffer)
    else read_loop (record { capture = c; fired = 0 }) 0 calls
