-- ===== src/BackgroundJobs/Job/Kept.antt =====
-- backgroundjobs/job.go: the marks of a job that later steps are to keep.
use eino_agent_extensions.Prelude.{
  ℕ, ◌≡◌, ◌≤◌, refl, ap, ◌∙◌, Bool, true, false, ◌&&◌, not, List, [], ◌∷◌, by_cases, arith,
}
use eino_agent_extensions.BackgroundJobs.Job.{
  Cause, cause_natural, Phase, phase_initial, phase_term_sent, phase_final_signal_sent, Coordinator,
  idle, begun, terminating, graceful, finishing, waiting, giving_up, Stage, live, Job, is_running,
  is_none_cause, start_coordinator, start_if_none_runs, begin_termination, read_status, reap, look,
  Sent, delivered, group_gone, refused, advance_signal, complete_attempt, settle, finish_terminal,
  once, Event, on_begin, on_ready, on_status, on_reap, on_look, on_signal, on_grace, on_wait_done,
  on_wait_timeout, on_give_up, on_finalize, asked_cause, signal_from, is_at, job_step,
}
use eino_agent_extensions.BackgroundJobs.Job.Invariant.{is_live, Sound}
use eino_agent_extensions.BackgroundJobs.Job.Steps.{at_coordinator}
use eino_agent_extensions.BackgroundJobs.Job.Final.{job_step-Sound, run_job}

-- TERM goes before KILL.
abbrev pub rank : Phase → ℕ
rank phase_initial = 0
rank phase_term_sent = 1
rank phase_final_signal_sent = 2

-- A later state of the same job: the first cause is its cause, its phase has not gone back, and an
-- end is its end.
pub record Later (j k : Job) : Type 0 where
  pub same_cause : is_none_cause j.cause ≡ false → k.cause ≡ j.cause
  pub phase_on : rank j.phase ≤ rank k.phase
  pub same_end :
      is_live j.stage ≡ false
      → (k.stage ≡ j.stage)
        × (k.state ≡ j.state)
        × (k.exit_code ≡ j.exit_code)
        × (k.completed_at ≡ j.completed_at)

still : (j : Job) → Later j j
still j = record {
  same_cause = λ e. refl;
  phase_on = omega arith;
  same_end = λ e. (refl, refl, refl, refl);
}

followed_by : (j k l : Job) → Later j k → Later k l → Later j l
followed_by j k l g h = record {
  same_cause = λ e. h.same_cause (ap is_none_cause (g.same_cause e) ∙ e) ∙ g.same_cause e;
  phase_on = omega (arith, g.phase_on, h.phase_on);
  same_end = λ e.
      let a = g.same_end e in
      let b = h.same_end (ap is_live a.0 ∙ e) in (b.0 ∙ a.0, b.1 ∙ a.1, b.2 ∙ a.2, b.3 ∙ a.3);
}

-- A step that sets neither the cause nor the phase nor the end.
aside :
    (j k : Job)
    → k.cause ≡ j.cause
    → k.phase ≡ j.phase
    → k.stage ≡ j.stage
    → k.state ≡ j.state
    → k.exit_code ≡ j.exit_code
    → k.completed_at ≡ j.completed_at
    → Later j k
aside j k a b c d e f = record {
  same_cause = λ _. a;
  phase_on = rw b (omega arith);
  same_end = λ _. (c, d, e, f);
}

start_coordinator-Later : (j : Job) → Later j (start_coordinator j)
unfolding start_coordinator
start_coordinator-Later j = aside j _ refl refl refl refl refl refl

start_if_none_runs-Later : (j : Job) → Later j (start_if_none_runs j)
start_if_none_runs-Later j =
    by_cases (Later j) j.coordinator_running _ _ (λ _. still j) (λ _. start_coordinator-Later j)

caused-Later :
    (c : Cause) (j : Job) → is_none_cause j.cause ≡ true → Later j (record j { cause = c })
caused-Later c j fresh = record {
  same_cause = λ e. cc;
  phase_on = omega arith;
  same_end = λ e. (refl, refl, refl, refl);
}

begin_termination-Later : (c : Cause) (j : Job) → Later j (begin_termination c j).0
unfolding begin_termination
begin_termination-Later c j =
    by_cases (λ (r : Job × Bool). Later j r.0) (not (is_running j.state)) _ _ (λ _. still j)
      λ _.
        by_cases (λ (r : Job × Bool). Later j r.0) (is_none_cause j.cause) _ _
          (λ fresh.
            followed_by j (record j { cause = c }) _ (caused-Later c j fresh)
              (start_if_none_runs-Later (record j { cause = c })))
          (λ other. start_if_none_runs-Later j)

read_status-Later : (valid : Bool) (code : ℕ) (j : Job) → Later j (read_status valid code j)
unfolding read_status
read_status-Later valid code j =
    let k : Job = record j { status_valid = valid; status_code = code; status_ready = true } in
    followed_by j k _ (aside j k refl refl refl refl refl refl) (
      by_cases (Later k) (is_none_cause k.cause) _ _
        (λ fresh.
          followed_by k (record k { cause = cause_natural }) _ (caused-Later cause_natural k fresh)
            (start_coordinator-Later (record k { cause = cause_natural })))
        (λ _. still k))

rank_final : (p : Phase) → rank p ≤ 2
rank_final phase_initial = omega arith
rank_final phase_term_sent = omega arith
rank_final phase_final_signal_sent = omega arith

advance_signal-Later :
    (p : Phase) (s : Sent) (j : Job) → rank j.phase ≤ rank p → Later j (advance_signal p s j)
unfolding advance_signal
advance_signal-Later p refused j up = aside j _ refl refl refl refl refl refl
advance_signal-Later p delivered j up = record {
  same_cause = λ e. refl;
  phase_on = up;
  same_end = λ e. (refl, refl, refl, refl);
}
advance_signal-Later p group_gone j up = record {
  same_cause = λ e. refl;
  phase_on = rank_final j.phase;
  same_end = λ e. (refl, refl, refl, refl);
}

signal_from-Later :
    (c : Coordinator) (s : Sent) (j : Job)
    → j.coordinator ≡ c
    → Sound j
    → Later j (signal_from c s j)
signal_from-Later terminating s j at h =
    let early : j.phase ≡ phase_initial =
      at_coordinator terminating j.coordinator j.phase at h.fits in
    advance_signal-Later phase_term_sent s j (rw early (omega arith))
signal_from-Later finishing s j at h =
    advance_signal-Later phase_final_signal_sent s j (rank_final j.phase)
signal_from-Later idle s j at h = still j
signal_from-Later begun s j at h = still j
signal_from-Later graceful s j at h = still j
signal_from-Later waiting s j at h = still j
signal_from-Later giving_up s j at h = still j

settle-Later : (now : ℕ) (j : Job) → is_live j.stage ≡ true → Later j (settle now j)
unfolding settle
settle-Later now j lives = record {
  same_cause = λ e. refl;
  phase_on = omega arith;
  same_end = λ e. cc;
}

once-Later : (now : ℕ) (j : Job) (s : Stage) → j.stage ≡ s → Later j (once s (settle now) j)
once-Later now j live e = settle-Later now j (ap is_live e)
once-Later now j _ e = still j

finish_terminal-Later : (now : ℕ) (j : Job) → Later j (finish_terminal now j)
unfolding finish_terminal
finish_terminal-Later now j = once-Later now j j.stage refl

job_step-Later : (e : Event) (j : Job) → Sound j → Later j (job_step e j)
unfolding job_step look complete_attempt reap
job_step-Later (on_begin c) j h =
    by_cases (Later j) (asked_cause c) _ _ (λ _. begin_termination-Later c j) (λ _. still j)
job_step-Later (on_ready r) j h = aside j _ refl refl refl refl refl refl
job_step-Later (on_status valid code) j h =
    by_cases (Later j) j.status_ready _ _ (λ _. still j) (λ _. read_status-Later valid code j)
job_step-Later (on_reap forced) j h =
    by_cases (Later j) j.wait_done _ _ (λ _. still j) (λ _. aside j _ refl refl refl refl refl refl)
job_step-Later on_look j h =
    by_cases (Later j) (is_at begun j.coordinator) _ _
      (λ _. aside j _ refl refl refl refl refl refl) (λ _. still j)
job_step-Later (on_signal s) j h = signal_from-Later j.coordinator s j refl h
job_step-Later on_grace j h =
    by_cases (Later j) (is_at graceful j.coordinator) _ _
      (λ _. aside j _ refl refl refl refl refl refl) (λ _. still j)
job_step-Later (on_wait_done now) j h =
    let k : Job = record j { coordinator = idle } in
    by_cases (Later j) (is_at waiting j.coordinator && j.wait_done) _ _
      (λ _.
        followed_by j k _ (aside j k refl refl refl refl refl refl) (finish_terminal-Later now k))
      (λ _. still j)
job_step-Later on_wait_timeout j h =
    by_cases (Later j) (is_at waiting j.coordinator) _ _
      (λ _. aside j _ refl refl refl refl refl refl) (λ _. still j)
job_step-Later on_give_up j h =
    by_cases (Later j) (is_at giving_up j.coordinator) _ _
      (λ _. aside j _ refl refl refl refl refl refl) (λ _. still j)
job_step-Later (on_finalize now) j h =
    let k : Job = record j { finalizing = false } in
    by_cases (Later j) j.finalizing _ _
      (λ _.
        followed_by j k _ (aside j k refl refl refl refl refl refl) (finish_terminal-Later now k))
      (λ _. still j)

-- Through any steps of a sound job the first cause of its end stays its cause, KILL is never followed
-- by TERM, and once it has ended its state, exit code and time of completion stay as they are.
pub run_job-Later : (es : List Event) (j : Job) → Sound j → Later j (run_job es j)
unfolding run_job
run_job-Later [] j h = still j
run_job-Later (e ∷ es) j h =
    followed_by j (job_step e j) _ (job_step-Later e j h)
      (run_job-Later es (job_step e j) (job_step-Sound e j h))
