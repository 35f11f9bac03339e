-- ===== src/BackgroundJobs/Job/Marks.antt =====
-- backgroundjobs/job.go: the marks that the manager reads and sets.
use eino_agent_extensions.Prelude.{ℕ, ◌≡◌, refl, Bool, false, ◌&&◌, not, by_cases}
use eino_agent_extensions.BackgroundJobs.Job.{
  Cause, Coordinator, idle, begun, terminating, graceful, finishing, waiting, giving_up, Stage,
  live, Job, is_running, is_none_cause, start_coordinator, start_if_none_runs, begin_termination,
  read_status, reap, look, Sent, delivered, group_gone, refused, advance_signal, complete_attempt,
  settle, finish_terminal, once, Event, on_begin, on_ready, on_status, on_reap, on_look, on_signal,
  on_grace, on_wait_done, on_wait_timeout, on_give_up, on_finalize, asked_cause, signal_from, is_at,
  job_step,
}

abbrev pub Marks : Job → Job → Type 0
Marks j k = (k.counted ≡ j.counted) × (k.wait_done ≡ false → j.wait_done ≡ false)

unmarked : (j : Job) → Marks j j
unmarked j = (refl, λ e. e)

start_if_none_runs-Marks : (j : Job) → Marks j (start_if_none_runs j)
unfolding start_coordinator
start_if_none_runs-Marks j =
    by_cases (Marks j) j.coordinator_running _ _ (λ _. unmarked j) (λ _. (refl, λ e. e))

begin_termination-Marks : (c : Cause) (j : Job) → Marks j (begin_termination c j).0
unfolding begin_termination
begin_termination-Marks c j =
    by_cases (λ (r : Job × Bool). Marks j r.0) (not (is_running j.state)) _ _ (λ _. unmarked j)
      λ _.
        by_cases (λ (r : Job × Bool). Marks j r.0) (is_none_cause j.cause) _ _
          (λ fresh. start_if_none_runs-Marks (record j { cause = c }))
          (λ other. start_if_none_runs-Marks j)

signal_from-Marks : (c : Coordinator) (s : Sent) (j : Job) → Marks j (signal_from c s j)
unfolding advance_signal
signal_from-Marks terminating refused j = (refl, λ e. e)
signal_from-Marks terminating delivered j = (refl, λ e. e)
signal_from-Marks terminating group_gone j = (refl, λ e. e)
signal_from-Marks finishing refused j = (refl, λ e. e)
signal_from-Marks finishing delivered j = (refl, λ e. e)
signal_from-Marks finishing group_gone j = (refl, λ e. e)
signal_from-Marks _ s j = unmarked j

once-Marks : (now : ℕ) (j : Job) (s : Stage) → Marks j (once s (settle now) j)
unfolding settle
once-Marks now j live = (refl, λ e. e)
once-Marks now j _ = unmarked j

pub job_step-Marks : (e : Event) (j : Job) → Marks j (job_step e j)
unfolding job_step look complete_attempt reap read_status start_coordinator finish_terminal
job_step-Marks (on_begin c) j =
    by_cases (Marks j) (asked_cause c) _ _ (λ _. begin_termination-Marks c j) (λ _. unmarked j)
job_step-Marks (on_ready r) j = (refl, λ e. e)
job_step-Marks (on_status valid code) j =
    by_cases (Marks j) j.status_ready _ _ (λ _. unmarked j)
      λ _.
        by_cases (Marks j) (is_none_cause j.cause) _ _ (λ _. (refl, λ e. e)) (λ _. (refl, λ e. e))
job_step-Marks (on_reap forced) j =
    by_cases (Marks j) j.wait_done _ _ (λ _. unmarked j) (λ _. (refl, λ e. cc))
job_step-Marks on_look j =
    by_cases (Marks j) (is_at begun j.coordinator) _ _ (λ _. (refl, λ e. e)) (λ _. unmarked j)
job_step-Marks (on_signal s) j = signal_from-Marks j.coordinator s j
job_step-Marks on_grace j =
    by_cases (Marks j) (is_at graceful j.coordinator) _ _ (λ _. (refl, λ e. e)) (λ _. unmarked j)
job_step-Marks (on_wait_done now) j =
    by_cases (Marks j) (is_at waiting j.coordinator && j.wait_done) _ _
      (λ _. once-Marks now (record j { coordinator = idle }) j.stage) (λ _. unmarked j)
job_step-Marks on_wait_timeout j =
    by_cases (Marks j) (is_at waiting j.coordinator) _ _ (λ _. (refl, λ e. e)) (λ _. unmarked j)
job_step-Marks on_give_up j =
    by_cases (Marks j) (is_at giving_up j.coordinator) _ _ (λ _. (refl, λ e. e)) (λ _. unmarked j)
job_step-Marks (on_finalize now) j =
    by_cases (Marks j) j.finalizing _ _
      (λ _. once-Marks now (record j { finalizing = false }) j.stage) (λ _. unmarked j)
