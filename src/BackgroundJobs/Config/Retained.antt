-- ===== src/BackgroundJobs/Config/Retained.antt =====
-- `resultRetention` of backgroundjobs/config.go, against the sizes that it adds up.
use eino_agent_extensions.Prelude.{
  ℕ, ◌+◌, ◌-◌, ◌*◌, ◌/◌, ◌≤◌, ◌≡◌, refl, ap, subst, ◌∙◌, Bool, true, false, ◌&&◌, not, Option, none,
  some, ltb, ◌==◌, if◌then◌else◌, by_cases, arith,
}
use eino_agent_extensions.BackgroundJobs.Config.{
  Limits, max_int64, safe_add, safe_mul, and_then, Encoded, Retention, status_bytes, list_bytes,
  inline_bytes, retention_policies,
}

and_then-some {ℓ} :
    {A : Type ℓ} (o : Option ℕ) (next : ℕ → Option A) (a : A)
    → and_then o next ≡ some a
    → (n : ℕ) × (o ≡ some n) × (next n ≡ some a)
and_then-some none next a h = cc
and_then-some (some n) next a h = (n, refl, h)

guarded_some : (b : Bool) (m n : ℕ) → (if b then none else some m) ≡ some n → n ≡ m
guarded_some true m n h = cc
guarded_some false m n h = cc

safe_add-some : (a b n : ℕ) → safe_add a b ≡ some n → n ≡ a + b
unfolding safe_add
safe_add-some a b n h = guarded_some (ltb (max_int64 - b) a) (a + b) n h

safe_mul-some : (a b n : ℕ) → safe_mul a b ≡ some n → n ≡ a * b
unfolding safe_mul
safe_mul-some a b n h = guarded_some (not (a == 0) && ltb (max_int64 / a) b) (a * b) n h

inline_bytes-some : (m n : ℕ) → inline_bytes m ≡ some n → (n ≡ m * 2) × (n ≤ 16777216)
unfolding inline_bytes
inline_bytes-some m n h =
    let (k, product, e) =
      and_then-some (safe_mul m 2) (λ n. if ltb 16777216 n then none else some n) n h in
    let doubled = safe_mul-some m 2 k product in
    by_cases (λ o. o ≡ some n → (n ≡ m * 2) × (n ≤ 16777216)) (ltb 16777216 k) none (some k)
      (λ _ e. cc)
      (λ small e. let same : k ≡ n = cc in (omega (arith, same, doubled), ground (arith, same))) e

status_bytes-some :
    (e : Encoded) (l : Limits) (n : ℕ)
    → status_bytes e l ≡ some n
    → n ≡ e.empty_status + l.max_output_bytes_per_stream * 12
unfolding status_bytes
status_bytes-some e l n h =
    let (k, product, sum) =
      and_then-some (safe_mul l.max_output_bytes_per_stream 12) (safe_add e.empty_status) n h in
    omega (
      arith,
      safe_mul-some l.max_output_bytes_per_stream 12 k product,
      safe_add-some e.empty_status k n sum,
    )

-- The list of no job, and of the most jobs with the commas between them.
abbrev pub full_list : Encoded → Limits → ℕ
full_list e l = e.empty_list + l.max_tracked * e.summary + (l.max_tracked - 1)

list_bytes-some : (e : Encoded) (l : Limits) (n : ℕ) → list_bytes e l ≡ some n → n ≡ full_list e l
unfolding list_bytes
list_bytes-some e l n h =
    let long : Option ℕ =
      and_then (safe_mul l.max_tracked e.summary)
        (λ added. and_then (safe_add e.empty_list added) (λ n. safe_add n (l.max_tracked - 1))) in
    by_cases (λ o. o ≡ some n → n ≡ full_list e l) (l.max_tracked == 0) (some e.empty_list) long
      (λ is_zero e'.
        let same : e.empty_list ≡ n = cc in
        let none_tracked : l.max_tracked ≡ 0 = ground arith in
        rw none_tracked (omega (arith, same)))
      (λ _ e'.
        let (added, product, rest) =
          and_then-some (safe_mul l.max_tracked e.summary)
            (λ added. and_then (safe_add e.empty_list added) (λ n. safe_add n (l.max_tracked - 1)))
            n e' in
        let (sum, first, last) =
          and_then-some (safe_add e.empty_list added) (λ n. safe_add n (l.max_tracked - 1)) n
            rest in
        let p = safe_mul-some l.max_tracked e.summary added product in
        let q = safe_add-some e.empty_list added sum first in
        let r = safe_add-some sum (l.max_tracked - 1) n last in cc (p, q, r))
      h

-- A retention that is given keeps twice the largest result of each tool, with every byte of the
-- output of a job escaped and a summary for each job that may be tracked, at most 16 MiB each.
pub retention_policies-some :
    (e : Encoded) (l : Limits) (r : Retention)
    → retention_policies e l ≡ some r
    → (r.start ≡ e.start * 2)
      × (r.status ≡ (e.empty_status + l.max_output_bytes_per_stream * 12) * 2)
      × (r.list ≡ full_list e l * 2)
      × (r.kill ≡ e.kill * 2)
      × (r.start ≤ 16777216)
      × (r.status ≤ 16777216)
      × (r.list ≤ 16777216)
      × (r.kill ≤ 16777216)
unfolding retention_policies
retention_policies-some e l r h =
    let (status_maximum, a, h1) = and_then-some (status_bytes e l) _ r h in
    let (list_maximum, b, h2) = and_then-some (list_bytes e l) _ r h1 in
    let (start, c, h3) = and_then-some (inline_bytes e.start) _ r h2 in
    let (status, d, h4) = and_then-some (inline_bytes status_maximum) _ r h3 in
    let (list, f, h5) = and_then-some (inline_bytes list_maximum) _ r h4 in
    let (kill, g, h6) = and_then-some (inline_bytes e.kill) _ r h5 in
    let same : record { start = start; status = status; list = list; kill = kill } ≡ r = cc in
    let s = inline_bytes-some e.start start c in
    let t = inline_bytes-some status_maximum status d in
    let u = inline_bytes-some list_maximum list f in
    let k = inline_bytes-some e.kill kill g in
    subst
      (λ (r : Retention).
        (r.start ≡ e.start * 2)
        × (r.status ≡ (e.empty_status + l.max_output_bytes_per_stream * 12) * 2)
        × (r.list ≡ full_list e l * 2)
        × (r.kill ≡ e.kill * 2)
        × (r.start ≤ 16777216)
        × (r.status ≤ 16777216)
        × (r.list ≤ 16777216)
        × (r.kill ≤ 16777216))
      same
      (
        s.0,
        t.0 ∙ ap (λ m. m * 2) (status_bytes-some e l status_maximum a),
        u.0 ∙ ap (λ m. m * 2) (list_bytes-some e l list_maximum b),
        k.0,
        s.1,
        t.1,
        u.1,
        k.1,
      )
