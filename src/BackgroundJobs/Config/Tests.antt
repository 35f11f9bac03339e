-- ===== src/BackgroundJobs/Config/Tests.antt =====
-- An environment that is inherited and overridden, and limits at their edges.
use eino_agent_extensions.Prelude.{◌≡◌, refl, none, some, [], ◌∷◌, codes}
use eino_agent_extensions.BackgroundJobs.Config.{
  Limits, validate_limits, tracked_below_running, explicit_only, inherit_and_override, effective,
  refused, environment_bytes, environment_entry, effective_environment, Encoded, retention_policies,
}
use eino_agent_extensions.BackgroundJobs.Config.Environment.{Fits, effective_environment-Fits}

abbrev small : Limits
small = record {
  max_running = 1;
  max_tracked = 2;
  max_command_bytes = 10;
  max_working_directory_bytes = 10;
  max_output_bytes_per_stream = 10;
  max_environment_entries = 3;
  max_environment_bytes = 9;
  default_timeout = 0;
  max_timeout = 2000000000;
  terminate_grace = 1;
  kill_wait = 1;
}

valid_limits : validate_limits small ≡ none
unfolding validate_limits
valid_limits = refl

too_few_tracked : validate_limits (record small { max_running = 3 }) ≡ some tracked_below_running
unfolding validate_limits
too_few_tracked = refl

-- An item without an equals sign is passed over, an override replaces, and the keys are sorted.
inherited :
    effective_environment
      (codes "B=1" ∷ codes "A=2" ∷ codes "C" ∷ [])
      inherit_and_override
      ((codes "B", codes "3=") ∷ [])
      small
    ≡ effective (codes "A=2" ∷ codes "B=3=" ∷ [])
unfolding effective_environment
inherited = refl

too_long :
    effective_environment [] explicit_only ((codes "A", codes "12345678") ∷ []) small
    ≡ refused environment_bytes
unfolding effective_environment
too_long = refl

bad_key :
    effective_environment [] explicit_only ((codes "A=", []) ∷ []) small ≡ refused environment_entry
unfolding effective_environment
bad_key = refl

effective_environment-Fits_example : Fits small (
    effective_environment
      (codes "B=1" ∷ codes "A=2" ∷ codes "C" ∷ [])
      inherit_and_override
      ((codes "B", codes "3=") ∷ [])
      small)
effective_environment-Fits_example =
    effective_environment-Fits (codes "B=1" ∷ codes "A=2" ∷ codes "C" ∷ []) inherit_and_override
      ((codes "B", codes "3=") ∷ []) small

abbrev lengths : Encoded
lengths = record { empty_status = 100; summary = 50; empty_list = 11; start = 60; kill = 70 }

retained :
    retention_policies lengths small
    ≡ some (record { start = 120; status = 440; list = 224; kill = 140 })
unfolding retention_policies
retained = refl
