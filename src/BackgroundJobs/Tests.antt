-- ===== src/BackgroundJobs/Tests.antt =====
-- A job that runs to its natural end, one that is killed, and a manager with room for one job.
use eino_agent_extensions.Prelude.{
  ◌++◌, ℕ, ◌≤◌, ◌≡◌, ◌⊎◌, ◌+◌, arith, refl, true, false, Option, some, none, List, [], ◌∷◌, codes,
}
use eino_agent_extensions.BackgroundJobs.Config.{Limits}
use eino_agent_extensions.BackgroundJobs.Job.{
  JobState, succeeded, killed, cause_kill, Owner, Job, new_job, delivered, Event, on_begin,
  on_ready, on_status, on_reap, on_look, on_signal, on_grace, on_wait_done,
}
use eino_agent_extensions.BackgroundJobs.Job.Invariant.{Sound}
use eino_agent_extensions.BackgroundJobs.Job.Final.{run_job, run_job-new_job-Sound}
use eino_agent_extensions.BackgroundJobs.Job.Kept.{Later, run_job-Later}
use eino_agent_extensions.BackgroundJobs.Manager.{
  new_manager, count, tracked, reserved_as, capacity_exhausted, reserve_start, in_jobs,
}
use eino_agent_extensions.BackgroundJobs.Manager.Capacity.{unreaped}
use eino_agent_extensions.BackgroundJobs.Manager.Run.{
  Action, reserves, spawns, publishes, steps, completes, announces, run, run_bounded,
}
use eino_agent_extensions.BackgroundJobs.Supervisor.{parse_supervisor_status, print_status}
use eino_agent_extensions.BackgroundJobs.Supervisor.Status.{parse_supervisor_status-print_status}
use eino_agent_extensions.BackgroundJobs.Manager.Prune.{NonePrunable, reserve_start_refuses}

abbrev somebody : Owner
somebody = record { session_id = codes "s"; workspace_id = codes "w" }

abbrev natural_end : List Event
natural_end =
    on_ready true
    ∷ on_status true 0
    ∷ on_look
    ∷ on_signal delivered
    ∷ on_reap false
    ∷ on_wait_done 9
    ∷ []

abbrev killed_end : List Event
killed_end =
    on_ready true
    ∷ on_begin cause_kill
    ∷ on_look
    ∷ on_signal delivered
    ∷ on_grace
    ∷ on_signal delivered
    ∷ on_reap false
    ∷ on_status true 0
    ∷ on_wait_done 9
    ∷ []

abbrev end_of : Job → JobState × Option ℕ
end_of j = (j.state, j.exit_code)

ends_naturally : end_of (run_job natural_end (new_job 1 somebody 0)) ≡ (succeeded, some 0)
unfolding run_job
ends_naturally = refl

ends_killed : end_of (run_job killed_end (new_job 1 somebody 0)) ≡ (killed, none)
unfolding run_job
ends_killed = refl

run_job-new_job-Sound_example : Sound (run_job killed_end (new_job 1 somebody 0))
run_job-new_job-Sound_example = run_job-new_job-Sound killed_end 1 somebody 0

run_job-Later_example :
    Later
      (run_job natural_end (new_job 1 somebody 0))
      (run_job killed_end (run_job natural_end (new_job 1 somebody 0)))
run_job-Later_example =
    run_job-Later killed_end (run_job natural_end (new_job 1 somebody 0))
      (run_job-new_job-Sound natural_end 1 somebody 0)

abbrev room_for_one : Limits
room_for_one = record {
  max_running = 1;
  max_tracked = 1;
  max_command_bytes = 64;
  max_working_directory_bytes = 64;
  max_output_bytes_per_stream = 64;
  max_environment_entries = 1;
  max_environment_bytes = 64;
  default_timeout = 0;
  max_timeout = 1000000000;
  terminate_grace = 1;
  kill_wait = 1;
}

-- The job ends behind its publication.
abbrev in_order : List Action
in_order =
    reserves
    ∷ spawns 1 somebody 0
    ∷ publishes 1 true false
    ∷ steps 1 (on_ready true)
    ∷ steps 1 (on_status true 0)
    ∷ steps 1 on_look
    ∷ steps 1 (on_signal delivered)
    ∷ steps 1 (on_reap false)
    ∷ steps 1 (on_wait_done 9)
    ∷ completes 1
    ∷ announces 1
    ∷ []

-- The publication of the job comes between its completion and the closing of its channel.
abbrev in_between : List Action
in_between =
    reserves
    ∷ spawns 1 somebody 0
    ∷ steps 1 (on_ready true)
    ∷ steps 1 (on_status true 0)
    ∷ steps 1 on_look
    ∷ steps 1 (on_signal delivered)
    ∷ steps 1 (on_reap false)
    ∷ steps 1 (on_wait_done 9)
    ∷ completes 1
    ∷ publishes 1 true false
    ∷ announces 1
    ∷ []

in_order_frees :
    (reserve_start room_for_one (run room_for_one in_order new_manager)).1 ≡ reserved_as 2
unfolding reserve_start run
in_order_frees = refl

-- The finished job stays counted, and no other can start.
in_between_leaks :
    ((run room_for_one in_between new_manager).running ≡ 1)
    × (count unreaped (run room_for_one in_between new_manager).entries ≡ 0)
    × ((reserve_start room_for_one (run room_for_one in_between new_manager)).1
        ≡ capacity_exhausted)
unfolding reserve_start run
in_between_leaks = (refl, refl, refl)

run_bounded_example :
    (count unreaped (run room_for_one in_between new_manager).entries ≤ 1)
    × (tracked (run room_for_one in_between new_manager) ≤ 1)
run_bounded_example = run_bounded room_for_one in_between

refused_second :
    (reserve_start room_for_one (run room_for_one (reserves ∷ []) new_manager)).1
    ≡ capacity_exhausted
unfolding reserve_start run
refused_second = refl

reserve_start_refuses_example :
    (1 ≤ (
      (reserve_start room_for_one (run room_for_one (reserves ∷ []) new_manager)).0.starting
      + (reserve_start room_for_one (run room_for_one (reserves ∷ []) new_manager)).0.running))
    ⊎ ((1 ≤ tracked (reserve_start room_for_one (run room_for_one (reserves ∷ []) new_manager)).0)
        × NonePrunable
            (reserve_start room_for_one (run room_for_one (reserves ∷ []) new_manager)).0.entries)
reserve_start_refuses_example =
    reserve_start_refuses room_for_one (run room_for_one (reserves ∷ []) new_manager) refused_second

one_listed : count in_jobs (run room_for_one in_order new_manager).entries ≤ 1
unfolding run
one_listed = omega arith

parse_supervisor_status-print_status_example :
    ((parse_supervisor_status (print_status 137) false).0 ≡ true)
    × ((parse_supervisor_status (print_status 137) false).1 ≡ 137)
parse_supervisor_status-print_status_example =
    parse_supervisor_status-print_status 137 (omega arith)

status_too_large : (parse_supervisor_status (codes "v1:256" ++ (b'\n' ∷ [])) false).0 ≡ false
unfolding parse_supervisor_status
status_too_large = refl
