-- ===== src/BackgroundJobs/Manager.antt =====
-- backgroundjobs/manager.go: the tables of jobs and the counters, under the manager's mutex.
--
-- A step is one critical section. The maps `jobs` and `hidden` are one list, in which each job has
-- the place where it stands: with a call of start that has not published it yet, in `jobs`, in
-- `hidden`, or in no map any more. `reserved` has the identifiers of the calls of start between
-- reserveStart and the start of the process. A job takes its own steps meanwhile, which are those of
-- Job; jobCompleted and the closing of `done` are the rest of finishTerminal.
pub mod Entries
pub mod Capacity
pub mod Publication
pub mod Completion
pub mod Run
pub mod Prune
use eino_agent_extensions.Prelude.{
  ℕ, zero, suc, ◌+◌, ◌-◌, Bool, true, false, ◌&&◌, ◌||◌, not, Option, none, some, List, [], ◌∷◌,
  Bytes, bytes_eq, length, ltb, leb, ◌==◌, if◌then◌else◌,
}
use eino_agent_extensions.BackgroundJobs.Config.{Limits}
use eino_agent_extensions.BackgroundJobs.Job.{
  Stage, live, settled, reported, done, Owner, Job, new_job, Cause, cause_close, Event, job_step,
}

pub data Place : Type 0 where
  pending listed hidden gone : Place

pub record Entry : Type 0 where
  pub job : Job
  pub place : Place

pub record Manager : Type 0 where
  pub counter : ℕ
  pub entries : List Entry
  pub reserved : List ℕ
  pub starting : ℕ
  pub running : ℕ
  pub closing : Bool
  pub closed : Bool

abbrev pub new_manager : Manager
new_manager = record {
  counter = 0;
  entries = [];
  reserved = [];
  starting = 0;
  running = 0;
  closing = false;
  closed = false;
}

abbrev pub is_pending : Entry → Bool
is_pending e = elim e.place [ pending ↦ true | _ ↦ false ]

abbrev pub in_jobs : Entry → Bool
in_jobs e = elim e.place [ listed ↦ true | _ ↦ false ]

abbrev pub in_hidden : Entry → Bool
in_hidden e = elim e.place [ hidden ↦ true | _ ↦ false ]

abbrev pub is_done : Entry → Bool
is_done e = elim e.job.stage [ done ↦ true | _ ↦ false ]

abbrev pub is_settled : Entry → Bool
is_settled e = elim e.job.stage [ settled ↦ true | _ ↦ false ]

abbrev pub is_reported : Entry → Bool
is_reported e = elim e.job.stage [ reported ↦ true | _ ↦ false ]

abbrev pub has_number : ℕ → Entry → Bool
has_number n e = e.job.number == n

abbrev pub bit : Bool → ℕ
bit true = 1
bit false = 0

abbrev pub count : (Entry → Bool) → List Entry → ℕ
count p [] = 0
count p (e ∷ es) = bit (p e) + count p es

-- The first entry with a property, and its change.
abbrev pub find_entry : (Entry → Bool) → List Entry → Option Entry
find_entry p [] = none
find_entry p (e ∷ es) = let rest = find_entry p es in if p e then some e else rest

abbrev pub update_entry : (Entry → Bool) → (Entry → Entry) → List Entry → List Entry
update_entry p f [] = []
update_entry p f (e ∷ es) = let rest = update_entry p f es in if p e then f e ∷ es else e ∷ rest

-- `len(manager.jobs)+len(manager.hidden)+manager.starting`
abbrev pub tracked : Manager → ℕ
tracked m = count in_jobs m.entries + count in_hidden m.entries + m.starting

abbrev pub completion : Entry → ℕ
completion e = elim e.job.completed_at [ none ↦ 0 | some t ↦ t ]

abbrev pub sooner : Entry → Option Entry → Bool
sooner e none = true
sooner e (some c) =
    ltb (completion e) (completion c)
    || (completion e == completion c && ltb e.job.number c.job.number)

-- The loop over `jobs` in pruneLocked.
unfoldable pub candidate : List Entry → Option Entry → Option Entry
candidate [] best = best
candidate (e ∷ es) best =
    candidate es (if in_jobs e && is_done e && sooner e best then some e else best)

abbrev pub dropped : Entry → Entry
dropped e = record e { place = gone }

-- `delete(manager.jobs, id)`
abbrev pub delete : ℕ → Manager → Manager
delete n m = record m {
  entries = update_entry (λ e. in_jobs e && is_done e && has_number n e) dropped m.entries;
}

-- `pruneLocked`, on fuel: one turn for each job in `jobs` is enough, see Prune.
unfoldable pub prune_locked : ℕ → Limits → Manager → Manager
unfolding candidate
prune_locked zero l m = m
prune_locked (suc fuel) l m =
    if ltb (tracked m) l.max_tracked then m else elim (candidate m.entries none) [
      | none ↦ m
      | some e ↦ prune_locked fuel l (delete e.job.number m)
    ]

pub data Reservation : Type 0 where
  reserved_as : ℕ → Reservation
  manager_closing capacity_exhausted identity_exhausted : Reservation

abbrev pub max_uint64 : ℕ
max_uint64 = 18446744073709551615

-- `reserveStart` behind the pruning.
unfoldable pub reserve_pruned : Limits → Manager → Manager × Reservation
reserve_pruned l m =
    if leb l.max_running (m.starting + m.running) || leb l.max_tracked (tracked m)
    then (m, capacity_exhausted)
    else if m.counter == max_uint64
    then (m, identity_exhausted)
    else (
      record m {
        counter = m.counter + 1;
        starting = m.starting + 1;
        reserved = (m.counter + 1) ∷ m.reserved;
      },
      reserved_as (m.counter + 1),
    )

unfoldable pub reserve_start : Limits → Manager → Manager × Reservation
unfolding prune_locked reserve_pruned
reserve_start l m =
    if m.closing || m.closed
    then (m, manager_closing)
    else reserve_pruned l (prune_locked (count in_jobs m.entries) l m)

abbrev pub mem : ℕ → List ℕ → Bool
mem n [] = false
mem n (x ∷ xs) = x == n || mem n xs

abbrev pub remove : ℕ → List ℕ → List ℕ
remove n [] = []
remove n (x ∷ xs) = let rest = remove n xs in if x == n then xs else x ∷ rest

-- `releaseReservation`, where the call of start has started no process.
unfoldable pub release_reservation : ℕ → Manager → Manager
release_reservation n m =
    if mem n m.reserved
    then record m { starting = m.starting - 1; reserved = remove n m.reserved }
    else m

-- The process of a call of start runs.
unfoldable pub spawn : ℕ → Owner → ℕ → Manager → Manager
spawn n owner now m =
    if mem n m.reserved
    then record m {
      reserved = remove n m.reserved;
      entries = record { job = new_job n owner now; place = pending } ∷ m.entries;
    }
    else m

-- What the publication makes of the job. `released` is `readyErr == nil && gateReleased`.
abbrev pub published_entry : Bool → Entry → Entry
published_entry shown e =
    let terminal = is_done e in
    record e {
      job = record e.job {
        published = shown || e.job.published;
        counted = not terminal || e.job.counted;
      };
      place = if shown then listed else (if terminal then gone else hidden);
    }

-- The critical section of start that publishes its job.
abbrev pub publish_found : ℕ → Bool → Bool → Manager → Option Entry → Manager
publish_found n released canceled m none = m
publish_found n released canceled m (some e) =
    let shown = released && not m.closing && not canceled in
    record m {
      entries =
          update_entry (λ e. is_pending e && has_number n e) (published_entry shown) m.entries;
      running = if is_done e then m.running else m.running + 1;
      starting = m.starting - 1;
    }

unfoldable pub publish : ℕ → Bool → Bool → Manager → Manager
publish n released canceled m =
    publish_found n released canceled m (find_entry (λ e. is_pending e && has_number n e) m.entries)

-- `jobCompleted` takes a job out of `hidden` and out of the count.
abbrev pub completed_entry : Entry → Entry
completed_entry e = record e {
  job = record e.job { counted = false; stage = reported };
  place = elim e.place [ hidden ↦ gone | p ↦ p ];
}

abbrev pub completed_found : ℕ → Manager → Option Entry → Manager
completed_found n m none = m
completed_found n m (some e) = record m {
  entries = update_entry (λ e. is_settled e && has_number n e) completed_entry m.entries;
  running = if e.job.counted then m.running - 1 else m.running;
}

unfoldable pub job_completed : ℕ → Manager → Manager
job_completed n m = completed_found n m (find_entry (λ e. is_settled e && has_number n e) m.entries)

-- `close(job.done)`
unfoldable pub announce : ℕ → Manager → Manager
announce n m = record m {
  entries =
      update_entry (λ e. is_reported e && has_number n e)
        (λ e. record e { job = record e.job { stage = done } }) m.entries;
}

-- A step of a job.
unfoldable pub step_job : ℕ → Event → Manager → Manager
unfolding job_step
step_job n event m = record m {
  entries = update_entry (has_number n) (λ e. record e { job = job_step event e.job }) m.entries;
}

-- The first critical section of Close.
unfoldable pub begin_close : Manager → Manager
begin_close m = if m.closed then m else record m { closing = true }

abbrev pub all_done : List Entry → Bool
all_done [] = true
all_done (e ∷ es) = (is_done e || not (in_jobs e || in_hidden e)) && all_done es

abbrev pub drop_tables : List Entry → List Entry
drop_tables [] = []
drop_tables (e ∷ es) = (if in_jobs e || in_hidden e then dropped e else e) ∷ drop_tables es

-- The last critical section of Close, which has waited for the calls of start and for all jobs.
unfoldable pub finish_close : Manager → Manager
finish_close m =
    if m.closing && m.starting == 0 && all_done m.entries
    then record m { entries = drop_tables m.entries; closed = true }
    else m

-- Lookups by status and kill: a job of another owner is not found.
abbrev pub same_owner : Owner → Owner → Bool
same_owner a b = bytes_eq a.session_id b.session_id && bytes_eq a.workspace_id b.workspace_id

abbrev pub owned : Owner → Option Entry → Option Job
owned owner none = none
owned owner (some e) = if same_owner e.job.owner owner then some e.job else none

unfoldable pub lookup : Owner → ℕ → Manager → Option Job
lookup owner n m = owned owner (find_entry (λ e. in_jobs e && has_number n e) m.entries)
