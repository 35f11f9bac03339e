-- ===== src/WebSearch/Config/Retention.antt =====
-- `resultRetention` of websearch/config.go, for limits that are validated.
use native.Mathlib.Nat.{div-lt_iff_lt-mul, mul-le-mul_left, mul_comm}
use eino_agent_extensions.Prelude.{
  ℕ, zero, ◌+◌, ◌-◌, ◌*◌, ◌/◌, ◌≤◌, ◌<◌, ◌≡◌, refl, Bool, true, false, ◌&&◌, not, Option, none,
  some, ltb, ◌==◌, if◌then◌else◌, by_cases, arith,
}
use eino_agent_extensions.WebSearch.Bounds.{Limits}
use eino_agent_extensions.WebSearch.Config.{
  ConfigError, max_int64, checked_add, checked_mul, outside, minimum_raw, raw_too_small,
  validate_limits, positive, worst_case_result_bytes, result_retention,
}

checked_add_fits : (a b : ℕ) → (a + b) ≤ max_int64 → checked_add a b ≡ some (a + b)
unfolding checked_add
checked_add_fits a b h =
    by_cases (λ o. o ≡ some (a + b)) (ltb (max_int64 - b) a) none (some (a + b))
      (λ big. let less : (max_int64 - b) < a = ground arith in absurd (omega (arith, less, h)))
      (λ _. refl)

checked_mul_fits : (a b : ℕ) → zero < a → (a * b) ≤ max_int64 → checked_mul a b ≡ some (a * b)
unfolding checked_mul
checked_mul_fits a b pos h =
    by_cases (λ o. o ≡ some (a * b)) (not (a == 0) && ltb (max_int64 / a) b) none (some (a * b))
      (λ big.
        let less : (max_int64 / a) < b = ground arith in
        let over : max_int64 < (b * a) = (div-lt_iff_lt-mul pos).0 less in
        absurd (omega (arith, over, h, mul_comm a b)))
      (λ _. refl)

-- What validated limits are known to be.
abbrev Ranges : Limits → Type 0
Ranges l =
    (1 ≤ l.max_results)
    × (l.max_results ≤ 100)
    × (1 ≤ l.max_title_bytes)
    × (l.max_title_bytes ≤ 1024)
    × (8 ≤ l.max_url_bytes)
    × (l.max_url_bytes ≤ 8192)
    × (1 ≤ l.max_snippet_bytes)
    × (l.max_snippet_bytes ≤ 16384)

passes :
    (b : Bool) (e : ConfigError) (y : Option ConfigError)
    → (if b then some e else y) ≡ none
    → (b ≡ false) × (y ≡ none)
passes true e y h = cc
passes false e y h = (refl, h)

inside : (low high n : ℕ) → outside low high n ≡ false → (low ≤ n) × (n ≤ high)
inside low high n h = (ground arith, ground arith)

validated-Ranges : (l : Limits) → validate_limits l ≡ none → Ranges l
unfolding validate_limits
validated-Ranges l h =
    let query = passes (outside 1 16384 l.max_query_bytes) _ _ h in
    let raw = passes (raw_too_small l (minimum_raw l)) _ _ query.1 in
    let results = passes (outside 1 100 l.max_results) _ _ raw.1 in
    let title = passes (outside 1 1024 l.max_title_bytes) _ _ results.1 in
    let url = passes (outside 8 8192 l.max_url_bytes) _ _ title.1 in
    let snippet = passes (outside 1 16384 l.max_snippet_bytes) _ _ url.1 in
    let a = inside 1 100 l.max_results results.0 in
    let b = inside 1 1024 l.max_title_bytes title.0 in
    let c = inside 8 8192 l.max_url_bytes url.0 in
    let d = inside 1 16384 l.max_snippet_bytes snippet.0 in (a.0, a.1, b.0, b.1, c.0, c.1, d.0, d.1)

product_bound : (p r : ℕ) → p ≤ 153634 → r ≤ 100 → (p * r) ≤ 15363400
product_bound p r h k = omega (arith, mul-le-mul_left p k, mul-le-mul_left 100 h, mul_comm p 100)

positive_above : (n : ℕ) → zero < n → positive n ≡ some n
positive_above n h =
    by_cases (λ o. o ≡ some n) (n == 0) none (some n) (λ e. absurd (ground arith)) (λ _. refl)

-- For validated limits no checked step of the retention overflows an int64 or fails, and its value
-- is, in unbounded arithmetic, twice the fixed bytes of a result, its records with six bytes for each
-- byte of their texts, and the commas between them.
pub result_retention_exact :
    (l : Limits)
    → validate_limits l ≡ none
    → result_retention l
      ≡ some (
          (14
            + (34 + (l.max_title_bytes + l.max_url_bytes + l.max_snippet_bytes) * 6) * l.max_results
            + (l.max_results - 1))
          * 2)
unfolding result_retention worst_case_result_bytes
result_retention_exact l h =
    let t : ℕ = l.max_title_bytes in
    let u : ℕ = l.max_url_bytes in
    let s : ℕ = l.max_snippet_bytes in
    let r : ℕ = l.max_results in
    let k = validated-Ranges l h in
    let p : ℕ = 34 + (t + u + s) * 6 in
    let small : p ≤ 153634 = omega (arith, k) in
    let most = product_bound p r small k.1 in
    let a = checked_add_fits t u (omega (arith, k)) in
    let b = checked_add_fits (t + u) s (omega (arith, k)) in
    let c = checked_mul_fits (t + u + s) 6 (omega (arith, k)) (omega (arith, k)) in
    let d = checked_add_fits 34 ((t + u + s) * 6) (omega (arith, k)) in
    let e = checked_mul_fits p r (omega arith) (omega (arith, most)) in
    let f = checked_add_fits 14 (p * r) (omega (arith, most)) in
    let g = checked_add_fits (14 + p * r) (r - 1) (omega (arith, most, k)) in
    let i = positive_above (14 + p * r + (r - 1)) (omega arith) in
    let j = checked_mul_fits (14 + p * r + (r - 1)) 2 (omega arith) (omega (arith, most, k)) in
    rw (a, b, c, d, e, f, g, i) j
