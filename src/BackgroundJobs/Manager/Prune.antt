-- ===== src/BackgroundJobs/Manager/Prune.antt =====
-- backgroundjobs/manager.go: pruning, and the admission of a start.
use eino_agent_extensions.Prelude.{
  All, ℕ, zero, suc, ◌+◌, ◌≤◌, ◌<◌, ◌≡◌, refl, ap, Bool, true, false, ◌&&◌, ◌||◌, Option, none,
  some, List, [], ◌∷◌, ltb, leb, ◌==◌, by_cases, Bool-cases, ◌⊎◌, inl, inr, arith,
}
use eino_agent_extensions.BackgroundJobs.Config.{Limits}
use eino_agent_extensions.BackgroundJobs.Manager.{
  pending, listed, hidden, gone, Entry, Manager, in_jobs, in_hidden, is_done, has_number, bit,
  count, find_entry, tracked, candidate, dropped, delete, prune_locked, sooner, Reservation,
  capacity_exhausted, reserve_pruned, reserve_start, max_uint64,
}
use eino_agent_extensions.BackgroundJobs.Manager.Entries.{All-find_entry, count-update_entry}

-- A finished job that pruning may drop.
abbrev pub prunable : Entry → Bool
prunable e = in_jobs e && is_done e

abbrev pub NonePrunable : List Entry → Type 0
NonePrunable es = All (λ e. prunable e ≡ false) es

candidate-none :
    (es : List Entry) (best : Option Entry)
    → candidate es best ≡ none
    → (best ≡ none) × NonePrunable es
unfolding candidate
candidate-none [] best h = (h, tt)
candidate-none (e ∷ es) best h = elim (Bool-cases (in_jobs e && is_done e && sooner e best)) [
  | inl better ↦ let k = candidate-none es (some e) (rw better at h) in let wrong = k.0 in cc
  | inr worse ↦
      let k = candidate-none es best (rw worse at h) in
      let unequalled : (in_jobs e && is_done e && sooner e none) ≡ false = rw k.0 at worse in
      (k.0, (ground arith, k.1))
]

abbrev named : ℕ → Entry → Bool
named n e = in_jobs e && is_done e && has_number n e

-- The candidate is one of the entries, where it is not the best one before.
candidate-some :
    (es : List Entry) (best : Option Entry) (c : Entry)
    → candidate es best ≡ some c
    → (best ≡ some c) ⊎ ((e : Entry) × (find_entry (named c.job.number) es ≡ some e))
unfolding candidate
candidate-some [] best c h = inl h
candidate-some (e ∷ es) best c h =
    let q : Entry → Bool = named c.job.number in
    elim (Bool-cases (q e)) [
      | inl here ↦ inr (e, rw here refl)
      | inr there ↦ elim (Bool-cases (in_jobs e && is_done e && sooner e best)) [
        | inl better ↦ elim (candidate-some es (some e) c (rw better at h)) [
          | inl same ↦
              let found : e ≡ c = cc in
              let self : has_number c.job.number e ≡ true = rw found (ground arith) in
              let wrong : q e ≡ true = ground arith in cc
          | inr (x, later) ↦ inr (x, rw there later)
        ]
        | inr worse ↦ elim (candidate-some es best c (rw worse at h)) [
          | inl same ↦ inl same
          | inr (x, later) ↦ inr (x, rw there later)
        ]
      ]
    ]

every : (es : List Entry) → All (λ e. Unit {0}) es
every [] = tt
every (e ∷ es) = (tt, every es)

listed_not_hidden : (e : Entry) → in_jobs e ≡ true → in_hidden e ≡ false
listed_not_hidden e h =
    (elim e.place
        as (λ p.
          (elim p [ listed ↦ true | _ ↦ false ]) ≡ true
          → (elim p [ hidden ↦ true | _ ↦ false ]) ≡ false) [
            | pending ↦ λ k. refl
            | listed ↦ λ k. refl
            | hidden ↦ λ k. cc
            | gone ↦ λ k. refl
          ])
      h

-- Dropping a candidate takes one job out of `jobs` and changes no other count.
delete_one :
    (n : ℕ) (m : Manager) (e : Entry)
    → find_entry (named n) m.entries ≡ some e
    → ((count in_jobs (delete n m).entries + 1) ≡ count in_jobs m.entries)
      × ((tracked (delete n m) + 1) ≡ tracked m)
delete_one n m e found =
    let all : (es : List Entry) → All (λ e. Unit {0}) es = λ es. every es in
    let k = All-find_entry (λ e. Unit {0}) (named n) m.entries e (all m.entries) found in
    let in_map : in_jobs e ≡ true = ground arith in
    let c = count-update_entry in_jobs (named n) dropped m.entries e found in
    let d = count-update_entry in_hidden (named n) dropped m.entries e found in
    let not_hidden = ap bit (listed_not_hidden e in_map) in
    (omega (arith, c, ap bit in_map), omega (arith, c, d, ap bit in_map, not_hidden))

none_in_jobs : (es : List Entry) → count in_jobs es ≡ 0 → NonePrunable es
none_in_jobs [] h = tt
none_in_jobs (e ∷ es) h = elim (Bool-cases (in_jobs e)) [
  | inl there ↦ absurd (omega (arith, h, ap bit there))
  | inr away ↦ (rw away refl, none_in_jobs es (omega (arith, h)))
]

-- One turn of the loop, where a smaller fuel is enough for one job less.
turn :
    (fuel : ℕ) (l : Limits) (m : Manager) (c : Option Entry)
    → candidate m.entries none ≡ c
    → count in_jobs m.entries ≤ suc fuel
    → ((k : Manager)
        → count in_jobs k.entries ≤ fuel
        → (tracked (prune_locked fuel l k) < l.max_tracked)
          ⊎ NonePrunable (prune_locked fuel l k).entries)
    → let r : Manager = elim c [
      | none ↦ m
      | some e ↦ prune_locked fuel l (delete e.job.number m)
    ] in
      (tracked r < l.max_tracked) ⊎ NonePrunable r.entries
turn fuel l m none e h more = inr (candidate-none m.entries none e).1
turn fuel l m (some c) e h more = elim (candidate-some m.entries none c e) [
  | inl wrong ↦ cc
  | inr (x, found) ↦
      more (delete c.job.number m) (omega (arith, h, (delete_one c.job.number m x found).0))
]

-- With a turn for each job in `jobs` pruning makes room for a start or leaves no finished job there.
pub prune_locked-Pruned :
    (fuel : ℕ) (l : Limits) (m : Manager)
    → count in_jobs m.entries ≤ fuel
    → (tracked (prune_locked fuel l m) < l.max_tracked)
      ⊎ NonePrunable (prune_locked fuel l m).entries
unfolding prune_locked
prune_locked-Pruned zero l m h = inr (none_in_jobs m.entries (omega (arith, h)))
prune_locked-Pruned (suc fuel) l m h =
    by_cases (λ (r : Manager). (tracked r < l.max_tracked) ⊎ NonePrunable r.entries)
      (ltb (tracked m) l.max_tracked) _ _ (λ room. inl (ground arith))
      λ _. turn fuel l m (candidate m.entries none) refl h (prune_locked-Pruned fuel l)

reserve_pruned_refuses :
    (l : Limits) (m : Manager)
    → (reserve_pruned l m).1 ≡ capacity_exhausted
    → ((reserve_pruned l m).0 ≡ m)
      × ((l.max_running ≤ (m.starting + m.running)) ⊎ (l.max_tracked ≤ tracked m))
unfolding reserve_pruned
reserve_pruned_refuses l m =
    by_cases
      (λ (r : Manager × Reservation).
        r.1 ≡ capacity_exhausted
        → (r.0 ≡ m) × ((l.max_running ≤ (m.starting + m.running)) ⊎ (l.max_tracked ≤ tracked m)))
      (leb l.max_running (m.starting + m.running) || leb l.max_tracked (tracked m)) _ _
      (λ full _. (refl, ground arith))
      λ _.
        by_cases
          (λ (r : Manager × Reservation).
            r.1 ≡ capacity_exhausted
            → (r.0 ≡ m)
              × ((l.max_running ≤ (m.starting + m.running)) ⊎ (l.max_tracked ≤ tracked m)))
          (m.counter == max_uint64) _ _ (λ _ h. cc) (λ _ h. cc)

-- A start is refused for want of capacity only if the counters of starting and of running jobs have
-- together reached their maximum, or the tracked jobs have reached theirs and no entry that is left
-- is one that pruning may take.
pub reserve_start_refuses :
    (l : Limits) (m : Manager)
    → (reserve_start l m).1 ≡ capacity_exhausted
    → (l.max_running ≤ ((reserve_start l m).0.starting + (reserve_start l m).0.running))
      ⊎ ((l.max_tracked ≤ tracked (reserve_start l m).0)
          × NonePrunable (reserve_start l m).0.entries)
unfolding reserve_start
reserve_start_refuses l m =
    by_cases
      (λ (r : Manager × Reservation).
        r.1 ≡ capacity_exhausted
        → (l.max_running ≤ (r.0.starting + r.0.running))
          ⊎ ((l.max_tracked ≤ tracked r.0) × NonePrunable r.0.entries))
      (m.closing || m.closed) _ _ (λ _ h. cc)
      λ _ h.
        let p : Manager = prune_locked (count in_jobs m.entries) l m in
        let k = reserve_pruned_refuses l p h in
        rw (k.0) (elim k.1 [
          | inl busy ↦ inl busy
          | inr full ↦ elim (prune_locked-Pruned (count in_jobs m.entries) l m (omega arith)) [
            | inl room ↦ absurd (omega (arith, full, room))
            | inr none_left ↦ inr (full, none_left)
          ]
        ])
