-- ===== src/ToolResultRedactor/Scalar/Laws.antt =====
-- `scanScalar` of toolresultredactor/redact.go: its states and the text that comes out with each.
use mathlib.Core.List.{append-nil, append_assoc}
use eino_agent_extensions.Prelude.{
  ℕ, ◌+◌, ◌-◌, ◌≤◌, ◌≡◌, refl, sym, ap, ◌∙◌, ◌⊎◌, inl, inr, Bool, false, ◌||◌, not, Option, some,
  List, [], ◌∷◌, ◌++◌, Bytes, length, ltb, bytes_eq, take, All, arith, Bool-cases, length-take,
  take_all, ltb→le, All-append, ◌≢◌, bytes_eq_iff,
}
use eino_agent_extensions.Context.{Ctx, poll}
use eino_agent_extensions.ToolResultRedactor.Ranges.{ByteRange, placeholder, merge_ranges, splice}
use eino_agent_extensions.ToolResultRedactor.Ranges.Order.{covers}
use eino_agent_extensions.ToolResultRedactor.Ranges.Cover.{Fits, merge_ranges-Separated}
use eino_agent_extensions.ToolResultRedactor.Ranges.Mask.{masked, splice-masked}
use eino_agent_extensions.ToolResultRedactor.Matchers.{Matcher, find}
use eino_agent_extensions.ToolResultRedactor.Matchers.Laws.{IsMatcher}
use eino_agent_extensions.ToolResultRedactor.Scalar.{
  ScanState, unchanged, changed, unsafe, canceled, Policy, found, too_many, stopped, query_limit,
  collect, finish, finish_collected, scan_scalar,
}

abbrev pub AreMatchers : List Matcher → Type 0
AreMatchers [] = Unit {0}
AreMatchers (m ∷ ms) = IsMatcher m × AreMatchers ms

-- All the matches of all the rules in a text, with no limit.
abbrev pub all_matches : (rules : List Matcher) → AreMatchers rules → Bytes → List ByteRange
all_matches [] l value = []
all_matches (m ∷ ms) l value = l.0.all value ++ all_matches ms l.1 value

take_too_few : (n : ℕ) (rs : List ByteRange) → length (take (n + 1) rs) ≤ n → take (n + 1) rs ≡ rs
take_too_few n rs h = take_all (n + 1) rs (omega (arith, length-take (n + 1) rs))

-- A rule that is asked with the scan's limit and gives no more than may be left has given all.
query_complete :
    (m : Matcher) (v : IsMatcher m) (value : Bytes) (remaining : ℕ)
    → length (take (query_limit value remaining) (v.all value)) ≤ remaining
    → take (query_limit value remaining) (v.all value) ≡ v.all value
query_complete m v value remaining h = elim (Bool-cases (ltb remaining (length value))) [
  | inl more ↦ rw more (take_too_few remaining (v.all value) (ground arith))
  | inr less ↦ rw less (take_all (length value) (v.all value) (v.few value))
]

collect_step :
    (value : Bytes) (maximum : ℕ) (ctx : Ctx) (matches : ℕ) (ranges new : List ByteRange)
    (m : Matcher) (ms : List Matcher)
    → (poll ctx).0 ≡ false
    → find m value (query_limit value (maximum - matches)) ≡ some new
    → ltb (maximum - matches) (length new) ≡ false
    → collect value maximum ctx matches ranges (m ∷ ms)
      ≡ collect value maximum (poll ctx).1 (matches + length new) (ranges ++ new) ms
unfolding collect
collect_step value maximum ctx matches ranges new m ms go asked few = ground arith

-- The loop stops, refuses, or has all the matches.
collect-cases :
    (value : Bytes) (maximum : ℕ) (ctx : Ctx) (matches : ℕ) (ranges : List ByteRange)
    (rules : List Matcher) (l : AreMatchers rules)
    → (ctx' : Ctx) × ((collect value maximum ctx matches ranges rules ≡ some (ctx', stopped))
        ⊎ ((collect value maximum ctx matches ranges rules ≡ some (ctx', too_many))
            ⊎ (collect value maximum ctx matches ranges rules
                ≡ some (ctx', found (ranges ++ all_matches rules l value)))))
unfolding collect
collect-cases value maximum ctx matches ranges [] l = (ctx, inr (inr (rw append-nil)))
collect-cases value maximum ctx matches ranges (m ∷ ms) l =
    let remaining = maximum - matches in
    let new = take (query_limit value remaining) (l.0.all value) in
    let asked = l.0.prefix value (query_limit value remaining) in
    let (ctx', later) =
      collect-cases value maximum (poll ctx).1 (matches + length new) (ranges ++ new) ms l.1 in
    elim (Bool-cases (poll ctx).0) [
      | inl stop ↦ ((poll ctx).1, inl (ground arith))
      | inr go ↦ elim (Bool-cases (ltb remaining (length new))) [
        | inl many ↦ ((poll ctx).1, inr (inl (ground arith)))
        | inr few ↦
            let step = collect_step value maximum ctx matches ranges new m ms go asked few in
            let all = query_complete m l.0 value remaining (ltb→le _ _ few) in
            let same : (ranges ++ new) ++ all_matches ms l.1 value
                ≡ ranges ++ (l.0.all value ++ all_matches ms l.1 value) =
              append_assoc ranges new (all_matches ms l.1 value)
              ∙ ap (λ a. ranges ++ (a ++ all_matches ms l.1 value)) all in
            (
              ctx',
              elim later [
                | inl a ↦ inl (step ∙ a)
                | inr (inl a) ↦ inr (inl (step ∙ a))
                | inr (inr a) ↦ inr (inr (step ∙ a ∙ ap (λ r. some (ctx', found r)) same))
              ],
            )
      ]
    ]

all_matches_fit :
    (rules : List Matcher) (l : AreMatchers rules) (value : Bytes)
    → All (Fits (length value)) (all_matches rules l value)
all_matches_fit [] l value = tt
all_matches_fit (m ∷ ms) l value =
    All-append (Fits (length value)) (l.0.all value) (all_matches ms l.1 value) (l.0.fits value)
      (all_matches_fit ms l.1 value)

-- What a scan of a text may return, with what state, if `matches` are all its matches.
abbrev pub Scanned : Bytes → List ByteRange → Bytes → ScanState → Type 0
Scanned value matches text unchanged = (text ≡ value) × ((matches ≡ []) ⊎ (value ≡ placeholder))
Scanned value matches text changed = (matches ≢ []) × (text ≡ masked (covers matches) false 0 value)
Scanned value matches text unsafe = text ≡ placeholder
Scanned value matches text canceled = text ≡ placeholder

abbrev pub Returns : Bytes → List ByteRange → Option (Ctx × Bytes × ScanState) → Type 0
Returns value matches r =
    (ctx : Ctx) × (text : Bytes) × (state : ScanState) × (r ≡ some (ctx, text, state))
    × Scanned value matches text state

splice_matches :
    (value : Bytes) (matches : List ByteRange)
    → All (Fits (length value)) matches
    → splice value 0 (merge_ranges matches) ≡ some (masked (covers matches) false 0 value)
splice_matches value matches a =
    let merged = merge_ranges-Separated (length value) matches a in
    splice-masked value (covers matches) (merge_ranges matches) 0 (omega arith) merged.0
      (λ k p. sym (merged.1 k))

finish-Returns :
    (value : Bytes) (ctx : Ctx) (matches : List ByteRange)
    → All (Fits (length value)) matches
    → Returns value matches (finish value ctx (found matches))
unfolding finish
finish-Returns value ctx [] a = elim (Bool-cases (poll ctx).0) [
  | inl stop ↦ ((poll ctx).1, placeholder, canceled, rw stop, refl)
  | inr go ↦ ((poll ctx).1, value, unchanged, rw go, (refl, inl refl))
]
finish-Returns value ctx (r ∷ rs) a = elim (Bool-cases (poll ctx).0) [
  | inl stop ↦ ((poll ctx).1, placeholder, canceled, rw stop, refl)
  | inr go ↦ (
    (poll ctx).1,
    masked (covers (r ∷ rs)) false 0 value,
    changed,
    rw (go, splice_matches value (r ∷ rs) a),
    ((λ e. cc), refl),
  )
]

module _ (utf8_valid : Bytes → Bool) (p : Policy) (l : AreMatchers p.rules) where
  collected-Returns :
      (ctx : Ctx) (value : Bytes)
      → Returns value
          (all_matches p.rules l value)
          (finish_collected value (collect value p.max_matches_per_field ctx 0 [] p.rules))
  unfolding finish_collected
  collected-Returns ctx value =
      let (ctx', outcome) = collect-cases value p.max_matches_per_field ctx 0 [] p.rules l in
      elim outcome [
        | inl e ↦ rw e (ctx', placeholder, canceled, unfold finish in refl, refl)
        | inr (inl e) ↦ rw e (ctx', placeholder, unsafe, unfold finish in refl, refl)
        | inr (inr e) ↦ rw e (
            finish-Returns value ctx' (all_matches p.rules l value)
              (all_matches_fit p.rules l value))
      ]

  -- A scan always returns. An unchanged text has no match of any rule (or is the placeholder); a
  -- changed one is the text with every maximal run of matched bytes replaced by one placeholder and
  -- all other bytes kept; in any other case nothing but the placeholder comes out.
  pub scan_scalar-Returns :
      (ctx : Ctx) (value : Bytes)
      → Returns value (all_matches p.rules l value) (scan_scalar utf8_valid p ctx value)
  unfolding scan_scalar
  scan_scalar-Returns ctx value = elim (Bool-cases (poll ctx).0) [
    | inl stop ↦ rw stop ((poll ctx).1, placeholder, canceled, refl, refl)
    | inr go ↦ elim (Bool-cases (bytes_eq value placeholder)) [
      | inl same ↦
          rw (go, same)
            (
              (poll ctx).1,
              value,
              unchanged,
              refl,
              (refl, inr ((bytes_eq_iff value placeholder).0 same)),
            )
      | inr other ↦
          elim (Bool-cases (ltb p.max_field_bytes (length value) || not (utf8_valid value))) [
            | inl bad ↦ rw (go, other, bad) ((poll ctx).1, placeholder, unsafe, refl, refl)
            | inr good ↦ rw (go, other, good) (collected-Returns (poll ctx).1 value)
          ]
    ]
  ]
