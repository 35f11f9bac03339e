-- ===== src/BackgroundJobs/Job/Invariant.antt =====
-- backgroundjobs/job.go: the invariant of a job.
use eino_agent_extensions.Prelude.{
  ℕ, ◌≡◌, refl, Bool, true, false, not, Option, none, some, if◌then◌else◌, ◌==◌, by_cases,
}
use eino_agent_extensions.BackgroundJobs.Job.{
  JobState, running, succeeded, failed, killed, timed_out, Cause, cause_none, cause_natural,
  cause_kill, cause_timeout, cause_close, Phase, phase_initial, phase_term_sent, Coordinator, idle,
  terminating, graceful, finishing, waiting, Stage, live, Owner, Job, new_job, is_running,
  is_none_cause, is_natural, is_final, start_coordinator, start_if_none_runs, begin_termination,
  asked_cause,
}

abbrev pub is_live : Stage → Bool
is_live live = true
is_live s = false

abbrev pub busy : Coordinator → Bool
busy idle = false
busy c = true

-- The phase at which the coordinator may stand.
abbrev pub Fits : Coordinator → Phase → Type 0
Fits terminating p = p ≡ phase_initial
Fits graceful p = p ≡ phase_term_sent
Fits finishing p = is_final p ≡ false
Fits waiting p = is_final p ≡ true
Fits c p = Unit {0}

-- The state and the exit code of a job that ended for a cause, with what is known of its status.
abbrev pub ended_as : Cause → Bool → Bool → ℕ → JobState × Option ℕ
ended_as cause_natural true false code = ((if code == 0 then succeeded else failed), some code)
ended_as cause_natural valid forced code = (failed, none)
ended_as cause_kill valid forced code = (killed, none)
ended_as cause_close valid forced code = (killed, none)
ended_as cause_timeout valid forced code = (timed_out, none)
ended_as cause_none valid forced code = (running, none)

pub record Sound (j : Job) : Type 0 where
  pub untouched :
      is_none_cause j.cause ≡ true
      → (j.coordinator ≡ idle)
        × (j.coordinator_running ≡ false)
        × (j.finalizing ≡ false)
        × (is_live j.stage ≡ true)
  pub alive :
      is_live j.stage ≡ true
      → (j.state ≡ running) × (j.exit_code ≡ none) × (j.coordinator_running ≡ busy j.coordinator)
  pub fits : Fits j.coordinator j.phase
  pub final : j.finalizing ≡ true → (is_final j.phase ≡ true) × (j.wait_done ≡ true)
  pub ended :
      is_live j.stage ≡ false
      → (j.wait_done ≡ true)
        × (is_final j.phase ≡ true)
        × ((j.state, j.exit_code) ≡ ended_as j.cause j.status_valid j.output_forced j.status_code)
  pub natural : is_natural j.cause ≡ true → j.status_ready ≡ true

pub new_job-Sound : (number : ℕ) (owner : Owner) (now : ℕ) → Sound (new_job number owner now)
new_job-Sound number owner now = record {
  untouched = λ h. (refl, refl, refl, refl);
  alive = λ h. (refl, refl, refl);
  fits = tt;
  final = λ h. cc;
  ended = λ h. cc;
  natural = λ h. cc;
}

asked : (c : Cause) → asked_cause c ≡ true → (is_natural c ≡ false) × (is_none_cause c ≡ false)
asked cause_none h = cc
asked cause_natural h = cc
asked cause_kill h = (refl, refl)
asked cause_timeout h = (refl, refl)
asked cause_close h = (refl, refl)

-- A coordinator that is started where none was.
pub start_coordinator-Sound :
    (j : Job) → Sound j → is_none_cause j.cause ≡ false → Sound (start_coordinator j)
unfolding start_coordinator
start_coordinator-Sound j h some_cause = record {
  untouched = λ e. cc;
  alive = λ e. ((h.alive e).0, (h.alive e).1, refl);
  fits = tt;
  final = h.final;
  ended = h.ended;
  natural = h.natural;
}

start_if_none_runs-Sound :
    (j : Job) → Sound j → is_none_cause j.cause ≡ false → Sound (start_if_none_runs j)
start_if_none_runs-Sound j h some_cause =
    by_cases Sound j.coordinator_running _ _ (λ _. h) (λ _. start_coordinator-Sound j h some_cause)

-- A cause for a job without one.
caused :
    (c : Cause) (j : Job)
    → Sound j
    → is_none_cause j.cause ≡ true
    → is_natural c ≡ false
    → Sound (record j { cause = c })
caused c j h fresh chosen = record {
  untouched = λ e. h.untouched fresh;
  alive = h.alive;
  fits = h.fits;
  final = h.final;
  ended = λ e. let k = (h.untouched fresh).3 in cc;
  natural = λ e. cc;
}

pub begin_termination-Sound :
    (c : Cause) (j : Job) → asked_cause c ≡ true → Sound j → Sound (begin_termination c j).0
unfolding begin_termination
begin_termination-Sound c j chosen h =
    by_cases (λ (r : Job × Bool). Sound r.0) (not (is_running j.state)) _ _ (λ _. h)
      λ _.
        by_cases (λ (r : Job × Bool). Sound r.0) (is_none_cause j.cause) _ _
          (λ fresh.
            start_if_none_runs-Sound (record j { cause = c })
              (caused c j h fresh (asked c chosen).0) (asked c chosen).1)
          (λ other. start_if_none_runs-Sound j h other)
