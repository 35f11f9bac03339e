-- ===== src/RtkReducer/Capture/Laws.antt =====
-- What a capture holds of a stream.
use eino_agent_extensions.Prelude.{
  ℕ, zero, suc, ◌-◌, ◌<◌, ◌≡◌, refl, sym, ap, ◌∙◌, Bool, true, false, ◌&&◌, not, Option, some, [],
  ◌∷◌, ◌++◌, Bytes, length, take, length-append, ltb, ◌==◌, if◌then◌else◌, arith, min, lt→ltb,
}
use eino_agent_extensions.RtkReducer.Capture.{BoundedCapture, keep_bytes, write}

-- A capture that has seen a text.
abbrev pub holding : ℕ → Bool → Bytes → BoundedCapture
holding limit retain seen = record {
  limit = limit;
  retain = retain;
  buf = if retain then take limit seen else [];
  count = min limit (length seen);
  overflow = ltb limit (length seen);
}

nothing : (n : ℕ) → ◌≡◌ {A = Bytes} [] (take n [])
nothing zero = refl
nothing (suc n) = refl

take-min : (n : ℕ) (xs : Bytes) → take (min n (length xs)) xs ≡ take n xs
take-min n [] = ap (λ k. take k []) (let e : min n 0 ≡ 0 = omega arith in e) ∙ nothing n
take-min zero (x ∷ xs) =
    ap (λ k. take k (x ∷ xs)) (let e : min 0 (suc (length xs)) ≡ 0 = omega arith in e)
take-min (suc n) (x ∷ xs) =
    ap (λ k. take k (x ∷ xs))
      (let e : min (suc n) (suc (length xs)) ≡ suc (min n (length xs)) = omega arith in e)
    ∙ ap (λ t. x ∷ t) (take-min n xs)

pub append_nil : (xs : Bytes) → xs ++ [] ≡ xs
append_nil [] = refl
append_nil (x ∷ xs) = ap (λ t. x ∷ t) (append_nil xs)

keep_bytes-holding :
    (limit : ℕ) (retain : Bool) (seen value : Bytes)
    → keep_bytes (holding limit retain seen) value ≡ min (limit - length seen) (length value)
unfolding keep_bytes
keep_bytes-holding limit retain seen value = ground arith

-- The text grows by what is kept.
kept_text :
    (limit : ℕ) (seen value : Bytes)
    → take limit seen ++ take (min (limit - length seen) (length value)) value
      ≡ take limit (seen ++ value)
kept_text zero seen value =
    ap (λ k. take k value) (let e : min (0 - length seen) (length value) ≡ 0 = omega arith in e)
kept_text (suc n) [] value =
    ap (λ k. take k value)
      (let e : min (suc n - 0) (length value) ≡ min (suc n) (length value) = omega arith in e)
    ∙ take-min (suc n) value
kept_text (suc n) (x ∷ xs) value =
    ap (λ t. x ∷ t)
      (ap (λ k. take n xs ++ take k value)
          (let e : min (suc n - suc (length xs)) (length value)
                ≡ min (n - length xs) (length value) =
              omega arith in
            e)
        ∙ kept_text n xs value)

-- Keeping nothing is keeping the empty text.
take_positive :
    (keep : ℕ) (xs value : Bytes)
    → (if ltb 0 keep then xs ++ take keep value else xs) ≡ xs ++ take keep value
take_positive zero xs value = sym (append_nil xs)
take_positive (suc n) xs value = rw (lt→ltb 0 (suc n) (omega arith)) refl

next_buf :
    (limit keep : ℕ) (retain : Bool) (seen value : Bytes)
    → keep ≡ min (limit - length seen) (length value)
    → (if retain && ltb 0 keep
        then (if retain then take limit seen else []) ++ take keep value
        else (if retain then take limit seen else []))
      ≡ (if retain then take limit (seen ++ value) else [])
next_buf limit keep false seen value e = refl
next_buf limit keep true seen value e =
    take_positive keep (take limit seen) value
    ∙ ap (λ k. take limit seen ++ take k value) e
    ∙ kept_text limit seen value

-- The overflow is reported when the text passes the limit, and not again.
abbrev pub passes : ℕ → Bytes → Bytes → Bool
passes limit seen value = not (ltb limit (length seen)) && ltb limit (length (seen ++ value))

passes_limit :
    (limit keep : ℕ) (seen value : Bytes)
    → keep ≡ min (limit - length seen) (length value)
    → (not (keep == length value) && not (ltb limit (length seen))) ≡ passes limit seen value
passes_limit limit keep seen value e = let l = length-append seen value in ground arith

next_overflow :
    (limit keep : ℕ) (seen value : Bytes)
    → keep ≡ min (limit - length seen) (length value)
    → (if not (keep == length value) && not (ltb limit (length seen))
        then true
        else ltb limit (length seen))
      ≡ ltb limit (length (seen ++ value))
next_overflow limit keep seen value e = let l = length-append seen value in ground arith

written :
    {buf buf' : Bytes} {count count' : ℕ} {over over' fired fired' : Bool} (limit size : ℕ)
    (retain : Bool)
    → buf ≡ buf'
    → count ≡ count'
    → over ≡ over'
    → fired ≡ fired'
    → ◌≡◌ {A = Option (BoundedCapture × ℕ × Bool)}
        (some (
          record { limit = limit; retain = retain; buf = buf; count = count; overflow = over },
          size,
          fired,
        ))
        (some (
          record { limit = limit; retain = retain; buf = buf'; count = count'; overflow = over' },
          size,
          fired',
        ))
written limit size retain a b c d = cc (a, b, c, d)

pub write-holding :
    (limit : ℕ) (retain : Bool) (seen value : Bytes)
    → 0 < limit
    → write (holding limit retain seen) value
      ≡ some (holding limit retain (seen ++ value), length value, passes limit seen value)
unfolding write
write-holding limit retain seen value h =
    let c = holding limit retain seen in
    let keep = keep_bytes-holding limit retain seen value in
    let limited : (limit == 0) ≡ false = ground arith in
    let l = length-append seen value in
    rw (write, limited)
      (written limit (length value) retain
        (next_buf limit (keep_bytes c value) retain seen value keep) (omega (arith, keep, l))
        (next_overflow limit (keep_bytes c value) seen value keep)
        (passes_limit limit (keep_bytes c value) seen value keep))
