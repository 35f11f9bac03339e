-- ===== src/BackgroundJobs/Manager/Run.antt =====
-- The manager under any steps of the calls, of the jobs and of Close.
use eino_agent_extensions.Prelude.{
  All, ℕ, ◌+◌, ◌≤◌, ◌≡◌, refl, ap, Bool, true, false, ◌&&◌, ◌||◌, List, [], ◌∷◌, ◌==◌,
  if◌then◌else◌, All, by_cases, Bool-cases, inl, inr, arith,
}
use eino_agent_extensions.BackgroundJobs.Config.{Limits}
use eino_agent_extensions.BackgroundJobs.Job.{Owner, Job, Event}
use eino_agent_extensions.BackgroundJobs.Manager.{
  Place, pending, listed, hidden, gone, Entry, Manager, new_manager, is_pending, in_jobs, in_hidden,
  job_completed, announce, step_job, begin_close, all_done, drop_tables, finish_close, bit, count,
  tracked, dropped, reserve_start, release_reservation, spawn, publish,
}
use eino_agent_extensions.BackgroundJobs.Manager.Entries.{count_sum}
use eino_agent_extensions.BackgroundJobs.Manager.Capacity.{
  is_counted, unreaped, Kept, Bounded, new_manager-Bounded, reserve_start-Bounded,
  release_reservation-Bounded, spawn-Bounded,
}
use eino_agent_extensions.BackgroundJobs.Manager.Publication.{publish-Bounded}
use eino_agent_extensions.BackgroundJobs.Manager.Completion.{
  job_completed-Bounded, announce-Bounded, step_job-Bounded,
}

abbrev drop_one : Entry → Entry
drop_one e = if in_jobs e || in_hidden e then dropped e else e

-- What a drop does to the counts.
drop_one_counts :
    (p : Place) (j : Job)
    → let e : Entry = record { job = j; place = p } in
      (is_pending (drop_one e) ≡ is_pending e)
      × (in_jobs (drop_one e) ≡ false)
      × (in_hidden (drop_one e) ≡ false)
      × ((drop_one e).job ≡ j)
drop_one_counts pending j = (refl, refl, refl, refl)
drop_one_counts listed j = (refl, refl, refl, refl)
drop_one_counts hidden j = (refl, refl, refl, refl)
drop_one_counts gone j = (refl, refl, refl, refl)

drop_tables_counts :
    (es : List Entry)
    → (count is_pending (drop_tables es) ≡ count is_pending es)
      × (count is_counted (drop_tables es) ≡ count is_counted es)
      × (count in_jobs (drop_tables es) ≡ 0)
      × (count in_hidden (drop_tables es) ≡ 0)
drop_tables_counts [] = (refl, refl, refl, refl)
drop_tables_counts (e ∷ es) =
    let ih = drop_tables_counts es in
    let one = drop_one_counts e.place e.job in
    (
      omega (arith, ih.0, ap bit one.0),
      omega (arith, ih.1, ap (λ (j : Job). bit j.counted) one.3),
      omega (arith, ih.2, ap bit one.1),
      omega (arith, ih.3, ap bit one.2),
    )

drop_one-Kept :
    (p : Place) (j : Job)
    → Kept (record { job = j; place = p })
    → Kept (drop_one (record { job = j; place = p }))
drop_one-Kept pending j h = h
drop_one-Kept listed j h = record {
  sound = h.sound;
  before_count = λ e. cc;
  while_running = h.while_running;
}
drop_one-Kept hidden j h = record {
  sound = h.sound;
  before_count = λ e. cc;
  while_running = h.while_running;
}
drop_one-Kept gone j h = h

drop_tables-Kept : (es : List Entry) → All Kept es → All Kept (drop_tables es)
drop_tables-Kept [] h = tt
drop_tables-Kept (e ∷ es) h = (drop_one-Kept e.place e.job h.0, drop_tables-Kept es h.1)

finish_close-Bounded : (l : Limits) (m : Manager) → Bounded l m → Bounded l (finish_close m)
unfolding finish_close
finish_close-Bounded l m h =
    let same = drop_tables_counts m.entries in
    by_cases (Bounded l) (m.closing && m.starting == 0 && all_done m.entries) _ _
      (λ _. record {
        starts = omega (arith, h.starts, same.0);
        counts = omega (arith, h.counts, same.1);
        runs = h.runs;
        tracks = omega (arith, h.tracks, same.2, same.3);
        kept = drop_tables-Kept m.entries h.kept;
      })
      (λ _. h)

begin_close-Bounded : (l : Limits) (m : Manager) → Bounded l m → Bounded l (begin_close m)
unfolding begin_close
begin_close-Bounded l m h =
    by_cases (Bounded l) m.closed _ _ (λ _. h)
      (λ _. record {
        starts = h.starts;
        counts = h.counts;
        runs = h.runs;
        tracks = h.tracks;
        kept = h.kept;
      })

-- A step of a call, of a job or of Close.
pub data Action : Type 0 where
  reserves : Action
  releases : ℕ → Action
  spawns : ℕ → Owner → ℕ → Action
  publishes : ℕ → Bool → Bool → Action
  steps : ℕ → Event → Action
  completes : ℕ → Action
  announces : ℕ → Action
  closes : Action
  ends_close : Action

unfoldable pub act : Limits → Action → Manager → Manager
unfolding reserve_start release_reservation spawn publish step_job job_completed announce
    begin_close finish_close
act l reserves m = (reserve_start l m).0
act l (releases n) m = release_reservation n m
act l (spawns n owner now) m = spawn n owner now m
act l (publishes n released canceled) m = publish n released canceled m
act l (steps n event) m = step_job n event m
act l (completes n) m = job_completed n m
act l (announces n) m = announce n m
act l closes m = begin_close m
act l ends_close m = finish_close m

unfoldable pub run : Limits → List Action → Manager → Manager
unfolding act
run l [] m = m
run l (a ∷ actions) m = run l actions (act l a m)

act-Bounded : (l : Limits) (a : Action) (m : Manager) → Bounded l m → Bounded l (act l a m)
unfolding act
act-Bounded l reserves m h = reserve_start-Bounded l m h
act-Bounded l (releases n) m h = release_reservation-Bounded l n m h
act-Bounded l (spawns n owner now) m h = spawn-Bounded l n owner now m h
act-Bounded l (publishes n released canceled) m h = publish-Bounded l n released canceled m h
act-Bounded l (steps n event) m h = step_job-Bounded l n event m h
act-Bounded l (completes n) m h = job_completed-Bounded l n m h
act-Bounded l (announces n) m h = announce-Bounded l n m h
act-Bounded l closes m h = begin_close-Bounded l m h
act-Bounded l ends_close m h = finish_close-Bounded l m h

run-Bounded :
    (l : Limits) (actions : List Action) (m : Manager) → Bounded l m → Bounded l (run l actions m)
unfolding run
run-Bounded l [] m h = h
run-Bounded l (a ∷ actions) m h = run-Bounded l actions (act l a m) (act-Bounded l a m h)

bit_most : (b : Bool) → bit b ≤ 1
bit_most true = omega arith
bit_most false = omega arith

-- A process that has not been reaped is that of a pending job or of a counted one.
unreaped_counts :
    (e : Entry) → Kept e → bit (unreaped e) ≤ (bit (is_pending e) + bit (is_counted e))
unreaped_counts e h = elim (Bool-cases (is_pending e)) [
  | inl waits ↦ rw waits (omega (arith, bit_most (unreaped e)))
  | inr shown ↦ elim (Bool-cases e.job.wait_done) [
    | inl over ↦ rw over (omega arith)
    | inr runs ↦ rw (shown, runs, h.while_running shown runs) (omega arith)
  ]
]

-- Through any interleaving of the calls of start, the steps of the jobs and Close, the number of
-- started processes that have not been reaped, those of jobs in no map included, is at most the bound
-- on running jobs, and the number of jobs in the maps and of reservations at most the bound on
-- tracked ones.
pub run_bounded :
    (l : Limits) (actions : List Action)
    → (count unreaped (run l actions new_manager).entries ≤ l.max_running)
      × (tracked (run l actions new_manager) ≤ l.max_tracked)
run_bounded l actions =
    let m = run l actions new_manager in
    let h : Bounded l m = run-Bounded l actions new_manager (new_manager-Bounded l) in
    (
      omega (
        arith,
        h.starts,
        h.counts,
        h.runs,
        count_sum unreaped is_pending is_counted Kept m.entries h.kept unreaped_counts,
      ),
      h.tracks,
    )
