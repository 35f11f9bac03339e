-- ===== src/BackgroundJobs/Job/Reports.antt =====
-- backgroundjobs/job.go: the status of a job and the end of its process, against the invariant.
use eino_agent_extensions.Prelude.{
  ℕ, ◌≡◌, refl, sym, ◌∙◌, Bool, true, false, by_cases, Bool-cases, inl, inr, arith,
}
use eino_agent_extensions.BackgroundJobs.Job.{
  Cause, cause_none, cause_natural, cause_kill, cause_timeout, cause_close, Phase, phase_initial,
  phase_term_sent, phase_final_signal_sent, Coordinator, Job, is_none_cause, is_natural,
  read_status, reap, route,
}
use eino_agent_extensions.BackgroundJobs.Job.Invariant.{
  busy, Fits, ended_as, Sound, start_coordinator-Sound,
}

-- The status decides only for a natural end.
ended_as_steady :
    (c : Cause) (valid valid' forced forced' : Bool) (code code' : ℕ)
    → is_natural c ≡ false
    → ended_as c valid forced code ≡ ended_as c valid' forced' code'
ended_as_steady cause_none valid valid' forced forced' code code' h = refl
ended_as_steady cause_natural valid valid' forced forced' code code' h = cc
ended_as_steady cause_kill valid valid' forced forced' code code' h = refl
ended_as_steady cause_timeout valid valid' forced forced' code code' h = refl
ended_as_steady cause_close valid valid' forced forced' code code' h = refl

none_not_natural : (c : Cause) → is_none_cause c ≡ true → is_natural c ≡ false
none_not_natural cause_none h = refl
none_not_natural cause_natural h = cc
none_not_natural cause_kill h = refl
none_not_natural cause_timeout h = refl
none_not_natural cause_close h = refl

-- The status has come.
informed :
    (valid : Bool) (code : ℕ) (j : Job)
    → j.status_ready ≡ false
    → Sound j
    → Sound (record j { status_valid = valid; status_code = code; status_ready = true })
informed valid code j late h =
    let other : is_natural j.cause ≡ false = elim (Bool-cases (is_natural j.cause)) [
      | inl n ↦ let r = h.natural n in cc
      | inr o ↦ o
    ] in
    record {
      untouched = h.untouched;
      alive = h.alive;
      fits = h.fits;
      final = h.final;
      ended = λ e. (
        (h.ended e).0,
        (h.ended e).1,
        (h.ended e).2
            ∙ ended_as_steady j.cause j.status_valid valid j.output_forced j.output_forced
                j.status_code code other,
      );
      natural = λ e. refl;
    }

pub read_status-Sound :
    (valid : Bool) (code : ℕ) (j : Job)
    → j.status_ready ≡ false
    → Sound j
    → Sound (read_status valid code j)
unfolding read_status
read_status-Sound valid code j late h =
    let k : Job = record j { status_valid = valid; status_code = code; status_ready = true } in
    let s : Sound k = informed valid code j late h in
    by_cases Sound (is_none_cause j.cause) _ _
      (λ fresh.
        start_coordinator-Sound (record k { cause = cause_natural })
          (record {
            untouched = λ e. s.untouched fresh;
            alive = s.alive;
            fits = s.fits;
            final = s.final;
            ended = λ e. let l = (s.untouched fresh).3 in cc;
            natural = λ e. refl;
          })
          refl)
      (λ _. s)

pub reap-Sound : (forced : Bool) (j : Job) → j.wait_done ≡ false → Sound j → Sound (reap forced j)
unfolding reap
reap-Sound forced j alive_still h = record {
  untouched = λ e. ((h.untouched e).0, (h.untouched e).1, ground arith, (h.untouched e).3);
  alive = h.alive;
  fits = h.fits;
  final = λ e. (ground arith, refl);
  ended = λ e. let w = (h.ended e).0 in cc;
  natural = h.natural;
}

pub route-Fits : (c : Cause) (p : Phase) (ready : Bool) → Fits (route c p ready) p
unfolding route
route-Fits cause_natural phase_initial ready = refl
route-Fits cause_natural phase_term_sent ready = refl
route-Fits cause_natural phase_final_signal_sent ready = refl
route-Fits cause_none phase_initial true = refl
route-Fits cause_none phase_initial false = refl
route-Fits cause_none phase_term_sent ready = refl
route-Fits cause_none phase_final_signal_sent ready = refl
route-Fits cause_kill phase_initial true = refl
route-Fits cause_kill phase_initial false = refl
route-Fits cause_kill phase_term_sent ready = refl
route-Fits cause_kill phase_final_signal_sent ready = refl
route-Fits cause_timeout phase_initial true = refl
route-Fits cause_timeout phase_initial false = refl
route-Fits cause_timeout phase_term_sent ready = refl
route-Fits cause_timeout phase_final_signal_sent ready = refl
route-Fits cause_close phase_initial true = refl
route-Fits cause_close phase_initial false = refl
route-Fits cause_close phase_term_sent ready = refl
route-Fits cause_close phase_final_signal_sent ready = refl

-- The coordinator goes on to where it fits.
pub moved :
    (c : Coordinator) (j : Job)
    → busy j.coordinator ≡ true
    → busy c ≡ true
    → Fits c j.phase
    → Sound j
    → Sound (record j { coordinator = c })
moved c j was now_busy fit h = record {
  untouched = λ e. let i = (h.untouched e).0 in cc;
  alive = λ e. ((h.alive e).0, (h.alive e).1, (h.alive e).2 ∙ was ∙ sym now_busy);
  fits = fit;
  final = h.final;
  ended = h.ended;
  natural = h.natural;
}
