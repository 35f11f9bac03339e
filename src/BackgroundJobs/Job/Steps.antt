-- ===== src/BackgroundJobs/Job/Steps.antt =====
-- backgroundjobs/job.go: each step of a job, against the invariant.
use eino_agent_extensions.Prelude.{
  ℕ, ◌≡◌, refl, sym, ap, ◌∙◌, Bool, true, false, ◌&&◌, not, none, Bool-cases, inl, inr,
}
use eino_agent_extensions.BackgroundJobs.Job.{
  JobState, Cause, cause_none, cause_natural, cause_kill, cause_timeout, cause_close, Phase,
  phase_initial, phase_term_sent, phase_final_signal_sent, Coordinator, idle, begun, terminating,
  graceful, finishing, waiting, giving_up, Stage, live, Job, is_none_cause, is_final, route, Sent,
  delivered, group_gone, refused, after_phase, advance_signal, terminal_state, terminal_exit_code,
  settle, finish_terminal, once, exited, signal_from, is_at,
}
use eino_agent_extensions.BackgroundJobs.Job.Invariant.{is_live, busy, Fits, ended_as, Sound}
use eino_agent_extensions.BackgroundJobs.Job.Reports.{moved}

pub busy-route : (c : Cause) (p : Phase) (ready : Bool) → busy (route c p ready) ≡ true
unfolding route
busy-route cause_natural phase_final_signal_sent ready = refl
busy-route cause_natural phase_initial ready = refl
busy-route cause_natural phase_term_sent ready = refl
busy-route _ phase_initial true = refl
busy-route _ phase_initial false = refl
busy-route _ phase_term_sent ready = refl
busy-route _ phase_final_signal_sent ready = refl

-- A signal before the last one.
sent :
    (p : Phase) (c : Coordinator) (j : Job)
    → busy j.coordinator ≡ true
    → busy c ≡ true
    → Fits c p
    → is_final j.phase ≡ false
    → Sound j
    → Sound (record j { phase = p; coordinator = c })
sent p c j was now_busy fit early h = record {
  untouched = λ e. let i = (h.untouched e).0 in cc;
  alive = λ e. ((h.alive e).0, (h.alive e).1, (h.alive e).2 ∙ was ∙ sym now_busy);
  fits = fit;
  final = λ e. let f = (h.final e).0 in cc;
  ended = λ e. let f = (h.ended e).1 in cc;
  natural = h.natural;
}

advance_signal-Sound :
    (p : Phase) (s : Sent) (j : Job)
    → busy j.coordinator ≡ true
    → Fits (after_phase p) p
    → is_final j.phase ≡ false
    → Sound j
    → Sound (advance_signal p s j)
unfolding advance_signal
advance_signal-Sound p refused j was fit early h = moved giving_up j was refl tt h
advance_signal-Sound phase_initial delivered j was fit early h =
    sent phase_initial graceful j was refl fit early h
advance_signal-Sound phase_term_sent delivered j was fit early h =
    sent phase_term_sent graceful j was refl fit early h
advance_signal-Sound phase_final_signal_sent delivered j was fit early h =
    sent phase_final_signal_sent waiting j was refl fit early h
advance_signal-Sound p group_gone j was fit early h =
    sent phase_final_signal_sent waiting j was refl refl early h

pub at_coordinator : (c d : Coordinator) (p : Phase) → d ≡ c → Fits d p → Fits c p
at_coordinator c d p e h = rw e at h

pub signal_from-Sound :
    (c : Coordinator) (s : Sent) (j : Job) → j.coordinator ≡ c → Sound j → Sound (signal_from c s j)
signal_from-Sound terminating s j at h =
    let early : is_final j.phase ≡ false =
      ap is_final (at_coordinator terminating j.coordinator j.phase at h.fits) in
    advance_signal-Sound phase_term_sent s j (ap busy at) refl early h
signal_from-Sound finishing s j at h =
    advance_signal-Sound phase_final_signal_sent s j (ap busy at) refl
      (at_coordinator finishing j.coordinator j.phase at h.fits) h
signal_from-Sound idle s j at h = h
signal_from-Sound begun s j at h = h
signal_from-Sound graceful s j at h = h
signal_from-Sound waiting s j at h = h
signal_from-Sound giving_up s j at h = h

pub is_at_iff : (c d : Coordinator) → is_at c d ≡ true → d ≡ c
is_at_iff idle idle h = refl
is_at_iff begun begun h = refl
is_at_iff graceful graceful h = refl
is_at_iff waiting waiting h = refl
is_at_iff giving_up giving_up h = refl
is_at_iff _ _ h = cc

-- The state that a job gets at its end.
terminal-ended_as :
    (c : Cause) (valid forced : Bool) (code : ℕ) (state : JobState)
    → is_none_cause c ≡ false
    → (
      terminal_state c (valid && not forced) code state,
      terminal_exit_code c (valid && not forced) code none,
    )
      ≡ ended_as c valid forced code
unfolding terminal_state terminal_exit_code
terminal-ended_as cause_none valid forced code state h = cc
terminal-ended_as cause_natural true true code state h = refl
terminal-ended_as cause_natural true false code state h = refl
terminal-ended_as cause_natural false forced code state h = refl
terminal-ended_as cause_kill valid forced code state h = refl
terminal-ended_as cause_timeout valid forced code state h = refl
terminal-ended_as cause_close valid forced code state h = refl

-- The end, which the coordinator leaves or a wait that found it there.
settle-Sound :
    (now : ℕ) (c : Coordinator) (f : Bool) (j : Job)
    → Fits c j.phase
    → j.wait_done ≡ true
    → is_final j.phase ≡ true
    → is_none_cause j.cause ≡ false
    → is_live j.stage ≡ true
    → Sound j
    → Sound (settle now (record j { coordinator = c; finalizing = f }))
unfolding settle
settle-Sound now c f j fit reaped sent_all some_cause still h = record {
  untouched = λ e. cc;
  alive = λ e. cc;
  fits = fit;
  final = λ e. (sent_all, reaped);
  ended = λ e. (
    reaped,
    sent_all,
    ap
          (λ x. (
            terminal_state j.cause (exited j) j.status_code j.state,
            terminal_exit_code j.cause (exited j) j.status_code x,
          ))
          (h.alive still).1
        ∙ terminal-ended_as j.cause j.status_valid j.output_forced j.status_code j.state some_cause,
  );
  natural = h.natural;
}

-- A coordinator that leaves a job behind its end.
left :
    (c : Coordinator) (f : Bool) (j : Job)
    → Fits c j.phase
    → (f ≡ true → j.finalizing ≡ true)
    → is_none_cause j.cause ≡ false
    → is_live j.stage ≡ false
    → Sound j
    → Sound (record j { coordinator = c; finalizing = f })
left c f j fit less some_cause over h = record {
  untouched = λ e. cc;
  alive = λ e. cc;
  fits = fit;
  final = λ e. h.final (less e);
  ended = h.ended;
  natural = h.natural;
}

once-Sound :
    (now : ℕ) (c : Coordinator) (f : Bool) (j : Job) (s : Stage)
    → j.stage ≡ s
    → Fits c j.phase
    → (f ≡ true → j.finalizing ≡ true)
    → j.wait_done ≡ true
    → is_final j.phase ≡ true
    → is_none_cause j.cause ≡ false
    → Sound j
    → Sound (once s (settle now) (record j { coordinator = c; finalizing = f }))
once-Sound now c f j live e fit less reaped sent_all some_cause h =
    settle-Sound now c f j fit reaped sent_all some_cause (ap is_live e) h
once-Sound now c f j _ e fit less reaped sent_all some_cause h =
    left c f j fit less some_cause (ap is_live e) h

pub finish_terminal-Sound :
    (now : ℕ) (c : Coordinator) (f : Bool) (j : Job)
    → Fits c j.phase
    → (f ≡ true → j.finalizing ≡ true)
    → j.wait_done ≡ true
    → is_final j.phase ≡ true
    → is_none_cause j.cause ≡ false
    → Sound j
    → Sound (finish_terminal now (record j { coordinator = c; finalizing = f }))
unfolding finish_terminal
finish_terminal-Sound now c f j = once-Sound now c f j j.stage refl

-- Where a coordinator or a finalizer is, there is a cause.
pub busy-is_none_cause :
    (j : Job) → Sound j → busy j.coordinator ≡ true → is_none_cause j.cause ≡ false
busy-is_none_cause j h b = elim (Bool-cases (is_none_cause j.cause)) [
  | inl none_yet ↦ let i = (h.untouched none_yet).0 in cc
  | inr some_cause ↦ some_cause
]

pub finalizing-is_none_cause :
    (j : Job) → Sound j → j.finalizing ≡ true → is_none_cause j.cause ≡ false
finalizing-is_none_cause j h f = elim (Bool-cases (is_none_cause j.cause)) [
  | inl none_yet ↦ let i = (h.untouched none_yet).2 in cc
  | inr some_cause ↦ some_cause
]
