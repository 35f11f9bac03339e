-- ===== src/RtkReducer/Capture/Stream.antt =====
-- `readFrom` of rtkreducer/capture.go on a whole stream.
use eino_agent_extensions.Prelude.{
  ℕ, zero, suc, ◌<◌, ◌≡◌, refl, sym, ap, ◌∙◌, Bool, true, false, some, List, [], ◌∷◌, ◌++◌, Bytes,
  length, length-append, ltb, ◌==◌, if◌then◌else◌, arith, Bool-cases, inl, inr, min, le→ltb, lt→ltb,
  ltb→lt,
}
use eino_agent_extensions.RtkReducer.Capture.{
  BoundedCapture, new_bounded_capture, new_discard_capture, more, eof, ReadResult, read, done,
  Reading, tally, take_in, read_loop, read_from,
}
use eino_agent_extensions.RtkReducer.Capture.Laws.{holding, passes, write-holding, append_nil}

-- The bytes of some calls of `Read`.
abbrev pub bytes_of : List ReadResult → Bytes
bytes_of [] = []
bytes_of (read bytes err ∷ calls) = bytes ++ bytes_of calls

append_three : (xs ys zs : Bytes) → xs ++ ys ++ zs ≡ xs ++ (ys ++ zs)
append_three [] ys zs = refl
append_three (x ∷ xs) ys zs = ap (λ t. x ∷ t) (append_three xs ys zs)

-- Calls that give some bytes each, and a last one that gives the end.
abbrev pub stream : List (ℕ × Bytes) → Bytes → List ReadResult
stream [] last = read last eof ∷ []
stream ((b, bs) ∷ chunks) last = read (b ∷ bs) more ∷ stream chunks last

module _ (limit : ℕ) (retain : Bool) where
  -- The reading that has seen a text: the callback has been called once if it passes the limit.
  abbrev pub seen_as : Bytes → Reading
  seen_as seen = record {
    capture = holding limit retain seen;
    fired = if ltb limit (length seen) then 1 else 0;
  }

  fired_once :
      (seen value : Bytes)
      → tally (passes limit seen value) (if ltb limit (length seen) then 1 else 0)
        ≡ (if ltb limit (length (seen ++ value)) then 1 else 0)
  fired_once seen value = elim (Bool-cases (ltb limit (length seen))) [
    | inl over ↦
        let l = length-append seen value in
        let now : ltb limit (length (seen ++ value)) ≡ true =
          lt→ltb limit (length (seen ++ value)) (let p = ltb→lt _ _ over in omega (arith, l, p)) in
        rw (over, now) refl
    | inr under ↦ elim (Bool-cases (ltb limit (length (seen ++ value)))) [
      | inl now ↦ rw (under, now) refl
      | inr still ↦ rw (under, still) refl
    ]
  ]

  take_in-seen_as :
      0 < limit
      → (seen value : Bytes) → take_in (seen_as seen) value ≡ some (seen_as (seen ++ value))
  unfolding take_in
  take_in-seen_as h seen value =
      rw (take_in, write-holding limit retain seen value h, fired_once seen value) refl

  loop_stream :
      0 < limit
      → (chunks : List (ℕ × Bytes)) (last seen : Bytes) (zero_reads : ℕ)
      → read_loop (seen_as seen) zero_reads (stream chunks last)
        ≡ (seen_as (seen ++ bytes_of (stream chunks last)), done)
  unfolding read_loop
  loop_stream h [] [] seen zero_reads = ap (λ t. (seen_as t, done)) (sym (append_nil seen))
  loop_stream h [] (b ∷ bs) seen zero_reads =
      rw (read_loop, take_in-seen_as h seen (b ∷ bs), append_nil bs) refl
  loop_stream h ((b, bs) ∷ chunks) last seen zero_reads =
      rw (read_loop, take_in-seen_as h seen (b ∷ bs))
        (loop_stream h chunks last (seen ++ (b ∷ bs)) 0
          ∙ ap (λ t. (seen_as t, done))
              (append_three seen (b ∷ bs) (bytes_of (stream chunks last))))

-- A capture of either kind; one that does not retain keeps the count and no bytes.
abbrev pub fresh : ℕ → Bool → BoundedCapture
fresh limit true = new_bounded_capture limit
fresh limit false = new_discard_capture limit

start_as :
    (limit : ℕ) (retain : Bool)
    → ◌≡◌ {A = Reading}
        (record { capture = fresh limit retain; fired = 0 })
        (seen_as limit retain [])
unfolding new_bounded_capture new_discard_capture
start_as zero true = refl
start_as zero false = refl
start_as (suc n) true =
    let a : min (suc n) 0 ≡ 0 = omega arith in
    let b = le→ltb (suc n) 0 (omega arith) in rw (a, b) refl
start_as (suc n) false =
    let a : min (suc n) 0 ≡ 0 = omega arith in
    let b = le→ltb (suc n) 0 (omega arith) in rw (a, b) refl

read_from_limited :
    (c : BoundedCapture) (calls : List ReadResult)
    → (c.limit == 0) ≡ false
    → read_from c calls ≡ read_loop (record { capture = c; fired = 0 }) 0 calls
unfolding read_from
read_from_limited c calls limited = rw (read_from, limited) refl

read_from-loop :
    (limit : ℕ) (retain : Bool) (calls : List ReadResult)
    → 0 < limit
    → read_from (fresh limit retain) calls ≡ read_loop (seen_as limit retain []) 0 calls
unfolding new_bounded_capture new_discard_capture
read_from-loop limit true calls h =
    let limited : (limit == 0) ≡ false = ground arith in
    read_from_limited (fresh limit true) calls limited
    ∙ ap (λ r. read_loop r 0 calls) (start_as limit true)
read_from-loop limit false calls h =
    let limited : (limit == 0) ≡ false = ground arith in
    read_from_limited (fresh limit false) calls limited
    ∙ ap (λ r. read_loop r 0 calls) (start_as limit false)

-- A reader that gives some bytes with each call, and at last the end, is read to its end without an
-- error. The capture then has the first bytes of the stream up to its limit, or none of them if it
-- does not retain; it has overflowed exactly if the stream is longer than the limit, and has then
-- called the overflow callback exactly once.
pub read_from-stream :
    (limit : ℕ) (retain : Bool) (chunks : List (ℕ × Bytes)) (last : Bytes)
    → 0 < limit
    → read_from (fresh limit retain) (stream chunks last)
      ≡ (seen_as limit retain (bytes_of (stream chunks last)), done)
read_from-stream limit retain chunks last h =
    read_from-loop limit retain (stream chunks last) h ∙ loop_stream limit retain h chunks last [] 0
