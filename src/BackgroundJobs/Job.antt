-- ===== src/BackgroundJobs/Job.antt =====
-- backgroundjobs/job.go: how one job ends.
--
-- A step is one critical section of the job's mutex, of the goroutine that reads the status, the one
-- that waits for the process, or the coordinator. A step that the state does not allow changes
-- nothing. The answers of the operating system are the arguments of the steps. The timer of the
-- effective timeout is a step begin_termination like any other. The lines of `finishTerminal` are
-- three steps, since the mutex is released between them.
pub mod Invariant
pub mod Reports
pub mod Steps
pub mod Final
pub mod Kept
pub mod Alone
pub mod Marks
use eino_agent_extensions.Prelude.{
  ℕ, zero, suc, Bool, true, false, ◌&&◌, ◌||◌, not, Option, none, some, List, [], ◌∷◌, Bytes,
  if◌then◌else◌, ◌==◌,
}

pub data JobState : Type 0 where
  running succeeded failed killed timed_out : JobState

pub data Cause : Type 0 where
  cause_none cause_natural cause_kill cause_timeout cause_close : Cause

pub data Phase : Type 0 where
  phase_initial phase_term_sent phase_final_signal_sent : Phase

-- Where the coordinator stands: it is not there, before it reads the cause and the phase, before it
-- sends TERM, in the wait for the status, before it sends KILL, in the wait for the process, or
-- before it completes its attempt.
pub data Coordinator : Type 0 where
  idle begun terminating graceful finishing waiting giving_up : Coordinator

-- How far `finishTerminal` is: not called, the state is set, the manager knows, `done` is closed.
pub data Stage : Type 0 where
  live settled reported done : Stage

pub record Owner : Type 0 where
  pub session_id : Bytes
  pub workspace_id : Bytes

-- `number` is the counter in the identifier. A channel is whether it is closed.
pub record Job : Type 0 where
  pub number : ℕ
  pub owner : Owner
  pub started_at : ℕ
  pub completed_at : Option ℕ
  pub state : JobState
  pub exit_code : Option ℕ
  pub published : Bool
  pub counted : Bool
  pub ready : Bool
  pub status_ready : Bool
  pub wait_done : Bool
  pub status_valid : Bool
  pub status_code : ℕ
  pub output_forced : Bool
  pub cause : Cause
  pub phase : Phase
  pub coordinator_running : Bool
  pub coordinator : Coordinator
  pub finalizing : Bool
  pub stage : Stage

abbrev pub new_job : ℕ → Owner → ℕ → Job
new_job number owner now = record {
  number = number;
  owner = owner;
  started_at = now;
  completed_at = none;
  state = running;
  exit_code = none;
  published = false;
  counted = false;
  ready = false;
  status_ready = false;
  wait_done = false;
  status_valid = false;
  status_code = 0;
  output_forced = false;
  cause = cause_none;
  phase = phase_initial;
  coordinator_running = false;
  coordinator = idle;
  finalizing = false;
  stage = live;
}

abbrev pub is_running : JobState → Bool
is_running running = true
is_running s = false

abbrev pub is_none_cause : Cause → Bool
is_none_cause cause_none = true
is_none_cause c = false

abbrev pub is_natural : Cause → Bool
is_natural cause_natural = true
is_natural c = false

abbrev pub is_final : Phase → Bool
is_final phase_final_signal_sent = true
is_final p = false

-- `startCoordinatorLocked`
unfoldable pub start_coordinator : Job → Job
start_coordinator j = record j { coordinator_running = true; coordinator = begun }

abbrev pub start_if_none_runs : Job → Job
start_if_none_runs j = if j.coordinator_running then j else start_coordinator j

-- `beginTermination`, with whether the cause is new.
unfoldable pub begin_termination : Cause → Job → Job × Bool
unfolding start_coordinator
begin_termination cause j =
    if not (is_running j.state)
    then (j, false)
    else if is_none_cause j.cause
    then (start_if_none_runs (record j { cause = cause }), true)
    else (start_if_none_runs j, false)

-- The critical section of `readStatus`.
unfoldable pub read_status : Bool → ℕ → Job → Job
unfolding start_coordinator
read_status valid code j =
    let k = record j { status_valid = valid; status_code = code; status_ready = true } in
    if is_none_cause k.cause then start_coordinator (record k { cause = cause_natural }) else k

-- The critical section behind `Wait`.
unfoldable pub reap : Bool → Job → Job
reap forced j = record j {
  output_forced = forced;
  wait_done = true;
  finalizing = is_final j.phase && not (is_none_cause j.cause);
}

-- `coordinate` reads the cause, the phase and whether the supervisor is ready.
unfoldable pub route : Cause → Phase → Bool → Coordinator
route cause_natural phase_final_signal_sent ready = waiting
route cause_natural phase ready = finishing
route cause phase_initial true = terminating
route cause phase_initial false = finishing
route cause phase_term_sent ready = graceful
route cause phase_final_signal_sent ready = waiting

unfoldable pub look : Job → Job
unfolding route
look j = record j { coordinator = route j.cause j.phase j.ready }

-- What the signal to the process group came to.
pub data Sent : Type 0 where
  delivered group_gone refused : Sent

abbrev pub after_phase : Phase → Coordinator
after_phase phase_final_signal_sent = waiting
after_phase p = graceful

-- `advanceSignal` in the coordinator, which gives up if it has not advanced.
unfoldable pub advance_signal : Phase → Sent → Job → Job
advance_signal success_phase refused j = record j { coordinator = giving_up }
advance_signal success_phase delivered j = record j {
  phase = success_phase;
  coordinator = after_phase success_phase;
}
advance_signal success_phase group_gone j = record j {
  phase = phase_final_signal_sent;
  coordinator = waiting;
}

-- The completion of an attempt.
unfoldable pub complete_attempt : Job → Job
complete_attempt j = record j { coordinator_running = false; coordinator = idle }

-- The switch of `finishTerminal`, for the state and the exit code.
unfoldable pub terminal_state : Cause → Bool → ℕ → JobState → JobState
terminal_state cause_none exited code state = state
terminal_state cause_kill exited code state = killed
terminal_state cause_close exited code state = killed
terminal_state cause_timeout exited code state = timed_out
terminal_state cause_natural exited code state =
    if exited then (if code == 0 then succeeded else failed) else failed

unfoldable pub terminal_exit_code : Cause → Bool → ℕ → Option ℕ → Option ℕ
terminal_exit_code cause_natural exited code exit_code = if exited then some code else exit_code
terminal_exit_code cause exited code exit_code = exit_code

-- `statusValid && !outputForced`
abbrev pub exited : Job → Bool
exited j = j.status_valid && not j.output_forced

-- The first critical section of `finishTerminal`.
unfoldable pub settle : ℕ → Job → Job
unfolding terminal_state terminal_exit_code
settle now j = record j {
  state = terminal_state j.cause (exited j) j.status_code j.state;
  exit_code = terminal_exit_code j.cause (exited j) j.status_code j.exit_code;
  completed_at = some now;
  coordinator_running = false;
  stage = settled;
}

-- `terminalOnce.Do`
abbrev pub once : Stage → (Job → Job) → Job → Job
once live f j = f j
once s f j = j

unfoldable pub finish_terminal : ℕ → Job → Job
unfolding settle
finish_terminal now j = once j.stage (settle now) j

pub data Event : Type 0 where
  on_begin : Cause → Event
  on_ready : Bool → Event
  on_status : Bool → ℕ → Event
  on_reap : Bool → Event
  on_look : Event
  on_signal : Sent → Event
  on_grace : Event
  on_wait_done : ℕ → Event
  on_wait_timeout : Event
  on_give_up : Event
  on_finalize : ℕ → Event

-- The causes that callers give.
abbrev pub asked_cause : Cause → Bool
asked_cause cause_kill = true
asked_cause cause_timeout = true
asked_cause cause_close = true
asked_cause c = false

abbrev pub signal_from : Coordinator → Sent → Job → Job
signal_from terminating s j = advance_signal phase_term_sent s j
signal_from finishing s j = advance_signal phase_final_signal_sent s j
signal_from c s j = j

abbrev pub is_at : Coordinator → Coordinator → Bool
is_at idle idle = true
is_at begun begun = true
is_at graceful graceful = true
is_at waiting waiting = true
is_at giving_up giving_up = true
is_at c d = false

unfoldable pub job_step : Event → Job → Job
unfolding begin_termination read_status reap look advance_signal complete_attempt finish_terminal
job_step (on_begin cause) j = if asked_cause cause then (begin_termination cause j).0 else j
job_step (on_ready ready) j = record j { ready = ready }
job_step (on_status valid code) j = if j.status_ready then j else read_status valid code j
job_step (on_reap forced) j = if j.wait_done then j else reap forced j
job_step on_look j = if is_at begun j.coordinator then look j else j
job_step (on_signal s) j = signal_from j.coordinator s j
job_step on_grace j =
    if is_at graceful j.coordinator then record j { coordinator = finishing } else j
job_step (on_wait_done now) j =
    if is_at waiting j.coordinator && j.wait_done
    then finish_terminal now (record j { coordinator = idle })
    else j
job_step on_wait_timeout j =
    if is_at waiting j.coordinator then record j { coordinator = giving_up } else j
job_step on_give_up j = if is_at giving_up j.coordinator then complete_attempt j else j
job_step (on_finalize now) j =
    if j.finalizing then finish_terminal now (record j { finalizing = false }) else j
