-- ===== src/AskUser/Coordinator/Laws.antt =====
-- The wait loop of `ask` of askuser/coordinator.go, by the wakes of its select.
use eino_agent_extensions.Prelude.{
  ltb→lt, ℕ, ◌≤◌, ◌<◌, ◌≡◌, refl, ◌⊎◌, inl, inr, true, Option, none, some, List, [], ◌∷◌, ltb,
  arith, All, Bool-cases,
}
use eino_agent_extensions.External.{TextLib}
use eino_agent_extensions.AskUser.Response.{
  ToolInput, Response, Status, bare, Mapped, ok, responder_operation, panics, map_response,
}
use eino_agent_extensions.AskUser.Response.Laws.{Maps, map_response-Maps}
use eino_agent_extensions.AskUser.Coordinator.{
  ctx, responder_failed, Outcome, answered, failed, ResponseEnvelope, Wake, ctx_done, woken,
  in_time, is_published, turn, turn_alive, or_later, outcome_of, await,
}

module _ (lib : TextLib) (max_custom_answer_bytes : ℕ) (input : ToolInput) (deadline : ℕ) where
  -- Why `select` returned: the context ended, an envelope was published, or the timer fired, which
  -- is not before the deadline.
  abbrev pub IsJustified : Wake → Type 0
  IsJustified (ctx_done e) = Unit {0}
  IsJustified (woken e envelope now) = (is_published envelope ≡ true) ⊎ (deadline ≤ now)

  alive_settles :
      (envelope : Option ResponseEnvelope) (now : ℕ)
      → (is_published envelope ≡ true) ⊎ (deadline ≤ now)
      → (o : Outcome) × (turn_alive lib max_custom_answer_bytes input deadline
            (in_time deadline envelope)
            envelope
            now
          ≡ some o)
  unfolding turn_alive
  alive_settles none now h = (answered (bare Status.timed_out), ground arith)
  alive_settles (some e) now h = elim (Bool-cases (ltb e.completed_at deadline)) [
    | inl early ↦ (outcome_of (map_response lib max_custom_answer_bytes input e.response), rw early)
    | inr late ↦ (answered (bare Status.timed_out), rw late (ground arith))
  ]

  -- The loop of `ask` takes one turn: whenever `select` returns for one of its three reasons, the
  -- call has an outcome, whatever would come later.
  pub await_settles :
      (w : Wake) (ws : List Wake)
      → IsJustified w
      → (o : Outcome) × (await lib max_custom_answer_bytes input deadline (w ∷ ws) ≡ some o)
  unfolding await turn
  await_settles (ctx_done e) ws h = (failed (ctx e), refl)
  await_settles (woken (some e) envelope now) ws h = (failed (ctx e), refl)
  await_settles (woken none envelope now) ws h =
      let (o, q) = alive_settles envelope now h in (o, rw q)

  -- An envelope is absent or was completed too late.
  abbrev pub IsLate : Option ResponseEnvelope → Type 0
  IsLate none = Unit {0}
  IsLate (some e) = deadline ≤ e.completed_at

  -- What the call comes to by a response that was in time.
  abbrev pub Answers : Option Response → Outcome → Type 0
  Answers r (answered a) = Maps lib max_custom_answer_bytes input r (ok a)
  Answers r (failed responder_failed) = Maps lib max_custom_answer_bytes input r responder_operation
  Answers r (failed _) = ⊥

  -- The outcome of a turn, by what the turn reads: the error of the context comes first, then an
  -- envelope in time, and the timed-out result only without one.
  abbrev pub Gives : Wake → Outcome → Type 0
  Gives (ctx_done e) o = o ≡ failed (ctx e)
  Gives (woken (some e) envelope now) o = o ≡ failed (ctx e)
  Gives (woken none envelope now) o =
      ((e : ResponseEnvelope) × (envelope ≡ some e)
        × (e.completed_at < deadline)
        × Answers e.response o)
      ⊎ ((o ≡ answered (bare Status.timed_out))
          × IsLate envelope
          × ((is_published envelope ≡ true) ⊎ (deadline ≤ now)))

  -- A turn that goes round again: nothing has come, and the deadline is not reached.
  abbrev pub Waits : Wake → Type 0
  Waits (ctx_done e) = ⊥
  Waits (woken err envelope now) = (err ≡ none) × (envelope ≡ none) × (now < deadline)

  -- The outcome is given by a wake, and all those before it wait.
  abbrev pub Explained : List Wake → Outcome → Type 0
  Explained [] o = ⊥
  Explained (w ∷ ws) o = Gives w o ⊎ (Waits w × Explained ws o)

  outcome_of-Answers :
      (r : Option Response) (m : Mapped)
      → Maps lib max_custom_answer_bytes input r m
      → Answers r (outcome_of m)
  unfolding outcome_of
  outcome_of-Answers r (ok a) h = h
  outcome_of-Answers r responder_operation h = h
  outcome_of-Answers none panics h = cc
  outcome_of-Answers (some r) panics (inl (a, e, h)) = cc
  outcome_of-Answers (some r) panics (inr (e, h)) = cc

  turn-Gives :
      (w : Wake)
      → ((turn lib max_custom_answer_bytes input deadline w ≡ none) × Waits w)
        ⊎ ((o : Outcome) × (turn lib max_custom_answer_bytes input deadline w ≡ some o) × Gives w o)
  unfolding turn turn_alive
  turn-Gives (ctx_done e) = inr (failed (ctx e), refl, refl)
  turn-Gives (woken (some e) envelope now) = inr (failed (ctx e), refl, refl)
  turn-Gives (woken none none now) = elim (Bool-cases (ltb now deadline)) [
    | inl early ↦ inl (rw early refl, (refl, refl, ground arith))
    | inr late ↦
        inr (answered (bare Status.timed_out), rw late refl, inr (refl, tt, inr (ground arith)))
  ]
  turn-Gives (woken none (some e) now) = elim (Bool-cases (ltb e.completed_at deadline)) [
    | inl early ↦ inr (
      outcome_of (map_response lib max_custom_answer_bytes input e.response),
      rw early refl,
      inl (
        e,
        refl,
        ltb→lt _ _ early,
        outcome_of-Answers e.response (map_response lib max_custom_answer_bytes input e.response)
            (map_response-Maps lib max_custom_answer_bytes input e.response),
      ),
    )
    | inr late ↦ inr (
      answered (bare Status.timed_out),
      rw late (ground arith),
      inr (refl, ground arith, inl refl),
    )
  ]

  -- Either all the wakes wait, and the call is still blocked behind them, or the outcome is given by
  -- the first wake that does not wait: the error of the context that it reads; or what mapResponse
  -- makes of an envelope that was completed before the deadline, an answer or a failure of the
  -- responder; or the timed-out result, if the envelope is absent or late and either it is there or
  -- the deadline is reached. The loop never panics.
  pub await-Explained :
      (ws : List Wake)
      → ((await lib max_custom_answer_bytes input deadline ws ≡ none) × All Waits ws)
        ⊎ ((o : Outcome) × (await lib max_custom_answer_bytes input deadline ws ≡ some o)
            × Explained ws o)
  unfolding await or_later
  await-Explained [] = inl (refl, tt)
  await-Explained (w ∷ ws) = elim (turn-Gives w) [
    | inr (o, e, x) ↦ inr (o, rw e refl, inl x)
    | inl (e, waits) ↦ elim (await-Explained ws) [
      | inl (none_left, all) ↦ inl (rw (e, none_left) refl, (waits, all))
      | inr (o, q, x) ↦ inr (o, rw (e, q) refl, inr (waits, x))
    ]
  ]
