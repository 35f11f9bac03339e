-- ===== src/BackgroundJobs/Job/Final.antt =====
-- backgroundjobs/job.go: whole runs of a job, and what follows an end.
use eino_agent_extensions.Prelude.{
  ℕ, ◌≡◌, refl, ap, true, false, ◌&&◌, List, [], ◌∷◌, by_cases, arith,
}
use eino_agent_extensions.BackgroundJobs.Job.{
  idle, begun, graceful, finishing, waiting, giving_up, Owner, Job, new_job, is_final, route, look,
  complete_attempt, Event, on_begin, on_ready, on_status, on_reap, on_look, on_signal, on_grace,
  on_wait_done, on_wait_timeout, on_give_up, on_finalize, asked_cause, is_at, job_step,
}
use eino_agent_extensions.BackgroundJobs.Job.Invariant.{
  busy, Sound, new_job-Sound, begin_termination-Sound,
}
use eino_agent_extensions.BackgroundJobs.Job.Reports.{
  read_status-Sound, reap-Sound, route-Fits, moved,
}
use eino_agent_extensions.BackgroundJobs.Job.Steps.{
  busy-route, signal_from-Sound, is_at_iff, at_coordinator, finish_terminal-Sound,
  busy-is_none_cause, finalizing-is_none_cause,
}

pub job_step-Sound : (e : Event) (j : Job) → Sound j → Sound (job_step e j)
unfolding job_step look complete_attempt
job_step-Sound (on_begin c) j h =
    by_cases Sound (asked_cause c) _ _ (λ chosen. begin_termination-Sound c j chosen h) (λ _. h)
job_step-Sound (on_ready r) j h = record {
  untouched = h.untouched;
  alive = h.alive;
  fits = h.fits;
  final = h.final;
  ended = h.ended;
  natural = h.natural;
}
job_step-Sound (on_status valid code) j h =
    by_cases Sound j.status_ready _ _ (λ _. h) (λ late. read_status-Sound valid code j late h)
job_step-Sound (on_reap forced) j h =
    by_cases Sound j.wait_done _ _ (λ _. h) (λ early. reap-Sound forced j early h)
job_step-Sound on_look j h =
    by_cases Sound (is_at begun j.coordinator) _ _
      (λ at.
        moved (route j.cause j.phase j.ready) j (ap busy (is_at_iff begun j.coordinator at))
          (busy-route j.cause j.phase j.ready) (route-Fits j.cause j.phase j.ready) h)
      (λ _. h)
job_step-Sound (on_signal s) j h = signal_from-Sound j.coordinator s j refl h
job_step-Sound on_grace j h =
    by_cases Sound (is_at graceful j.coordinator) _ _
      (λ at.
        let e : j.coordinator ≡ graceful = is_at_iff graceful j.coordinator at in
        moved finishing j (ap busy e) refl
          (ap is_final (at_coordinator graceful j.coordinator j.phase e h.fits)) h)
      (λ _. h)
job_step-Sound (on_wait_done now) j h =
    by_cases Sound (is_at waiting j.coordinator && j.wait_done) _ _
      (λ both.
        let at : is_at waiting j.coordinator ≡ true = ground arith in
        let e : j.coordinator ≡ waiting = is_at_iff waiting j.coordinator at in
        finish_terminal-Sound now idle j.finalizing j tt (λ f. f) (ground arith)
          (at_coordinator waiting j.coordinator j.phase e h.fits)
          (busy-is_none_cause j h (ap busy e)) h)
      (λ _. h)
job_step-Sound on_wait_timeout j h =
    by_cases Sound (is_at waiting j.coordinator) _ _
      (λ at. moved giving_up j (ap busy (is_at_iff waiting j.coordinator at)) refl tt h) (λ _. h)
job_step-Sound on_give_up j h =
    by_cases Sound (is_at giving_up j.coordinator) _ _
      (λ at. record {
        untouched = λ e. (refl, refl, (h.untouched e).2, (h.untouched e).3);
        alive = λ e. ((h.alive e).0, (h.alive e).1, refl);
        fits = tt;
        final = h.final;
        ended = h.ended;
        natural = h.natural;
      })
      (λ _. h)
job_step-Sound (on_finalize now) j h =
    by_cases Sound j.finalizing _ _
      (λ f.
        finish_terminal-Sound now j.coordinator false j h.fits (λ e. cc) (h.final f).1 (h.final f).0
          (finalizing-is_none_cause j h f) h)
      (λ _. h)

unfoldable pub run_job : List Event → Job → Job
unfolding job_step
run_job [] j = j
run_job (e ∷ es) j = run_job es (job_step e j)

run_job-Sound : (es : List Event) (j : Job) → Sound j → Sound (run_job es j)
unfolding run_job
run_job-Sound [] j h = h
run_job-Sound (e ∷ es) j h = run_job-Sound es (job_step e j) (job_step-Sound e j h)

-- Through any steps of a new job: a coordinator stands only where the phase allows it, and it is
-- running exactly if the flag says so as long as the job lives; and a job that has ended was reaped,
-- is in its final phase, and has the state and the exit code of its cause and its status.
pub run_job-new_job-Sound :
    (es : List Event) (number : ℕ) (owner : Owner) (now : ℕ)
    → Sound (run_job es (new_job number owner now))
run_job-new_job-Sound es number owner now =
    run_job-Sound es (new_job number owner now) (new_job-Sound number owner now)
