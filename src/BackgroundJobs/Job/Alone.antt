-- ===== src/BackgroundJobs/Job/Alone.antt =====
-- backgroundjobs/job.go: where a coordinator of a job is started.
use eino_agent_extensions.Prelude.{
  ℕ, ◌≡◌, ◌⊎◌, refl, sym, ap, ◌∙◌, Bool, true, false, not, Option, ◌==◌, by_cases, Bool-cases, inl,
  inr, arith,
}
use eino_agent_extensions.BackgroundJobs.Job.{
  JobState, succeeded, failed, Cause, cause_none, cause_natural, cause_kill, cause_timeout,
  cause_close, Coordinator, idle, Job, is_running, is_none_cause, start_if_none_runs,
  begin_termination, read_status,
}
use eino_agent_extensions.BackgroundJobs.Job.Invariant.{is_live, busy, ended_as, Sound}

ended_as_over :
    (c : Cause) (valid forced : Bool) (code : ℕ)
    → is_none_cause c ≡ false
    → is_running (ended_as c valid forced code).0 ≡ false
ended_as_over cause_none valid forced code h = cc
ended_as_over cause_natural true false code h =
    by_cases (λ s. is_running s ≡ false) (code == 0) succeeded failed (λ _. refl) (λ _. refl)
ended_as_over cause_natural true true code h = refl
ended_as_over cause_natural false forced code h = refl
ended_as_over cause_kill valid forced code h = refl
ended_as_over cause_timeout valid forced code h = refl
ended_as_over cause_close valid forced code h = refl

-- A job whose state is running has not ended.
running-is_live : (j : Job) → Sound j → is_running j.state ≡ true → is_live j.stage ≡ true
running-is_live j h r = elim (Bool-cases (is_live j.stage)) [
  | inl lives ↦ lives
  | inr over ↦ elim (Bool-cases (is_none_cause j.cause)) [
    | inl fresh ↦ let l = (h.untouched fresh).3 in cc
    | inr some_cause ↦
        let a = ended_as_over j.cause j.status_valid j.output_forced j.status_code some_cause in
        let b : is_running j.state
            ≡ is_running (ended_as j.cause j.status_valid j.output_forced j.status_code).0 =
          ap (λ (p : JobState × Option ℕ). is_running p.0) (h.ended over).2 in
        cc
  ]
]

idle_if_not_busy : (c : Coordinator) → busy c ≡ false → c ≡ idle
idle_if_not_busy idle h = refl
idle_if_not_busy _ h = cc

abbrev Alone : Job → Job → Type 0
Alone j k = (k.coordinator ≡ j.coordinator) ⊎ (j.coordinator ≡ idle)

start_if_none_runs-Alone :
    (j : Job) → Sound j → is_running j.state ≡ true → Alone j (start_if_none_runs j)
start_if_none_runs-Alone j h r =
    by_cases (Alone j) j.coordinator_running _ _ (λ _. inl refl)
      λ free. inr (idle_if_not_busy j.coordinator (sym (h.alive (running-is_live j h r)).2 ∙ free))

-- In a sound job a request to terminate and the arrival of the status start a coordinator only where
-- none stands, so that at most one sends signals.
pub started_alone :
    (j : Job)
    → Sound j
    → ((c : Cause)
        → ((begin_termination c j).0.coordinator ≡ j.coordinator) ⊎ (j.coordinator ≡ idle))
      × ((valid : Bool) (code : ℕ)
          → ((read_status valid code j).coordinator ≡ j.coordinator) ⊎ (j.coordinator ≡ idle))
unfolding begin_termination read_status
started_alone j h = (
  λ c.
      by_cases (λ (r : Job × Bool). Alone j r.0) (not (is_running j.state)) _ _ (λ _. inl refl)
        λ r.
          let lives : is_running j.state ≡ true = ground arith in
          by_cases (λ (r : Job × Bool). Alone j r.0) (is_none_cause j.cause) _ _
            (λ fresh. inr (h.untouched fresh).0) (λ _. start_if_none_runs-Alone j h lives),
  λ valid code.
      by_cases (Alone j) (is_none_cause j.cause) _ _ (λ fresh. inr (h.untouched fresh).0)
        (λ _. inl refl),
)
