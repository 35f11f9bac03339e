-- ===== src/BackgroundJobs/Manager/Capacity.antt =====
-- backgroundjobs/manager.go: the counters, the processes and the tracked jobs.
use eino_agent_extensions.Prelude.{
  All, ℕ, zero, suc, ◌+◌, ◌≤◌, ◌<◌, ◌≡◌, refl, ap, Bool, true, false, ◌&&◌, ◌||◌, not, none, some,
  length, ltb, leb, ◌==◌, by_cases, Option-cases, inl, inr, arith,
}
use eino_agent_extensions.BackgroundJobs.Config.{Limits}
use eino_agent_extensions.BackgroundJobs.Job.{Owner}
use eino_agent_extensions.BackgroundJobs.Job.Invariant.{Sound, new_job-Sound}
use eino_agent_extensions.BackgroundJobs.Manager.{
  pending, listed, hidden, gone, Entry, Manager, new_manager, is_pending, in_jobs, in_hidden,
  is_done, has_number, bit, count, find_entry, tracked, candidate, dropped, delete, prune_locked,
  Reservation, reserve_pruned, reserve_start, mem, release_reservation, spawn, max_uint64,
}
use eino_agent_extensions.BackgroundJobs.Manager.Entries.{
  All-find_entry, All-update_entry, count-update_entry, update_missing, length-remove,
}

abbrev pub is_counted : Entry → Bool
is_counted e = e.job.counted

-- The process of the job has not been reaped.
abbrev pub unreaped : Entry → Bool
unreaped e = not e.job.wait_done

-- A job is sound; it is not counted before its publication, and counted behind it until its process
-- has been reaped.
pub record Kept (e : Entry) : Type 0 where
  pub sound : Sound e.job
  pub before_count : is_pending e ≡ true → e.job.counted ≡ false
  pub while_running : is_pending e ≡ false → e.job.wait_done ≡ false → e.job.counted ≡ true

pub record Bounded (l : Limits) (m : Manager) : Type 0 where
  pub starts : m.starting ≡ length m.reserved + count is_pending m.entries
  pub counts : count is_counted m.entries ≤ m.running
  pub runs : (m.starting + m.running) ≤ l.max_running
  pub tracks : tracked m ≤ l.max_tracked
  pub kept : All Kept m.entries

pub new_manager-Bounded : (l : Limits) → Bounded l new_manager
new_manager-Bounded l = record {
  starts = refl;
  counts = omega arith;
  runs = omega arith;
  tracks = omega arith;
  kept = tt;
}

-- A job in `jobs` is not pending.
listed_not_pending : (e : Entry) → in_jobs e ≡ true → is_pending e ≡ false
listed_not_pending e h =
    elim e.place
        as (λ p.
          (elim p [ listed ↦ true | _ ↦ false ]) ≡ true
          → (elim p [ pending ↦ true | _ ↦ false ]) ≡ false) [
            | pending ↦ λ k. cc
            | listed ↦ λ k. refl
            | hidden ↦ λ k. cc
            | gone ↦ λ k. cc
          ]
      h

pub delete-Bounded : (l : Limits) (n : ℕ) (m : Manager) → Bounded l m → Bounded l (delete n m)
delete-Bounded l n m h =
    let q : Entry → Bool = λ e. in_jobs e && is_done e && has_number n e in
    elim (Option-cases (find_entry q m.entries)) [
      | inl missing ↦ rw (update_missing q dropped m.entries missing) h
      | inr (e, found) ↦
          let k = All-find_entry Kept q m.entries e h.kept found in
          let in_map : in_jobs e ≡ true = ground arith in
          let p = listed_not_pending e in_map in
          let a = count-update_entry is_pending q dropped m.entries e found in
          let b = count-update_entry is_counted q dropped m.entries e found in
          let c = count-update_entry in_jobs q dropped m.entries e found in
          let d = count-update_entry in_hidden q dropped m.entries e found in
          record {
            starts = omega (arith, a, ap bit p, h.starts);
            counts = omega (arith, b, h.counts);
            runs = h.runs;
            tracks = omega (arith, c, d, ap bit in_map, h.tracks);
            kept = All-update_entry Kept q dropped m.entries h.kept λ x at kx. record {
              sound = kx.sound;
              before_count = λ e. cc;
              while_running = λ _ w. kx.while_running (listed_not_pending x (ground arith)) w;
            };
          }
    ]

pub prune_locked-Bounded :
    (fuel : ℕ) (l : Limits) (m : Manager) → Bounded l m → Bounded l (prune_locked fuel l m)
unfolding prune_locked
prune_locked-Bounded zero l m h = h
prune_locked-Bounded (suc fuel) l m h =
    by_cases (Bounded l) (ltb (tracked m) l.max_tracked) _ _ (λ _. h)
      λ _.
        (elim (candidate m.entries none)
          as (λ c.
            Bounded l
              (elim c [ none ↦ m | some e ↦ prune_locked fuel l (delete e.job.number m) ])) [
                | none ↦ h
                | some e ↦
                    prune_locked-Bounded fuel l (delete e.job.number m)
                      (delete-Bounded l e.job.number m h)
              ])

reserve_pruned-Bounded : (l : Limits) (m : Manager) → Bounded l m → Bounded l (reserve_pruned l m).0
unfolding reserve_pruned
reserve_pruned-Bounded l m h =
    by_cases (λ (r : Manager × Reservation). Bounded l r.0)
      (leb l.max_running (m.starting + m.running) || leb l.max_tracked (tracked m)) _ _ (λ _. h)
      λ room.
        by_cases (λ (r : Manager × Reservation). Bounded l r.0) (m.counter == max_uint64) _ _
          (λ _. h)
          λ _.
            let some_running : (m.starting + m.running) < l.max_running = ground arith in
            let some_tracked : tracked m < l.max_tracked = ground arith in
            record {
              starts = omega (arith, h.starts);
              counts = h.counts;
              runs = omega (arith, some_running);
              tracks = omega (arith, some_tracked);
              kept = h.kept;
            }

pub reserve_start-Bounded :
    (l : Limits) (m : Manager) → Bounded l m → Bounded l (reserve_start l m).0
unfolding reserve_start
reserve_start-Bounded l m h =
    by_cases (λ (r : Manager × Reservation). Bounded l r.0) (m.closing || m.closed) _ _ (λ _. h)
      λ _.
        reserve_pruned-Bounded l (prune_locked (count in_jobs m.entries) l m)
          (prune_locked-Bounded (count in_jobs m.entries) l m h)

pub release_reservation-Bounded :
    (l : Limits) (n : ℕ) (m : Manager) → Bounded l m → Bounded l (release_reservation n m)
unfolding release_reservation
release_reservation-Bounded l n m h =
    by_cases (Bounded l) (mem n m.reserved) _ _
      (λ there.
        let one_less = length-remove n m.reserved there in
        record {
          starts = omega (arith, h.starts, one_less);
          counts = h.counts;
          runs = omega (arith, h.runs);
          tracks = omega (arith, h.tracks);
          kept = h.kept;
        })
      (λ _. h)

pub spawn-Bounded :
    (l : Limits) (n : ℕ) (owner : Owner) (now : ℕ) (m : Manager)
    → Bounded l m
    → Bounded l (spawn n owner now m)
unfolding spawn
spawn-Bounded l n owner now m h =
    by_cases (Bounded l) (mem n m.reserved) _ _
      (λ there.
        let one_less = length-remove n m.reserved there in
        record {
          starts = omega (arith, h.starts, one_less);
          counts = omega (arith, h.counts);
          runs = h.runs;
          tracks = omega (arith, h.tracks);
          kept = (
            record {
              sound = new_job-Sound n owner now;
              before_count = λ _. refl;
              while_running = λ e. cc;
            },
            h.kept,
          );
        })
      (λ _. h)
