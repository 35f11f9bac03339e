-- ===== src/AskUser/Coordinator.antt =====
-- `ask` and `runResponder` of askuser/coordinator.go. What the scheduler and the clock decide enters
-- as arguments: what `ctx.Err()` returns at each check, and one `Wake` for each turn of the loop.
-- Times are nanoseconds. The coordinator's own bookkeeping is in Admission.
pub mod Laws
pub mod Balance
use eino_agent_extensions.Prelude.{
  ℕ, ◌+◌, Bool, true, false, ◌&&◌, ◌||◌, not, Option, none, some, List, [], ◌∷◌, Bytes, ltb,
  if◌then◌else◌, String, str_eq, pos,
}
use eino_agent_extensions.External.{TextLib, CtxErr}
use eino_agent_extensions.Admission.{Coordinator, acquire, release}
use eino_agent_extensions.AskUser.Response.{
  ToolInput, Response, Status, Answer, bare, Mapped, ok, responder_operation, panics, map_response,
}

pub data AskError : Type 0 where
  ctx : CtxErr → AskError
  runtime_error : String → AskError
  responder_failed : AskError
  index_panic : AskError

pub data Outcome : Type 0 where
  answered : Answer → Outcome
  failed : AskError → Outcome

pub record ToolCall : Type 0 where
  pub session_id : String
  pub run_id : String
  pub id : String

-- `none` for the response is an error or a panic of the responder.
pub record ResponseEnvelope : Type 0 where
  pub response : Option Response
  pub completed_at : ℕ

-- One return of `select`: the context's channel, or one of the other two; then what the turn reads.
pub data Wake : Type 0 where
  ctx_done : CtxErr → Wake
  woken : Option CtxErr → Option ResponseEnvelope → ℕ → Wake

outcome_of : Mapped → Outcome
outcome_of (ok a) = answered a
outcome_of responder_operation = failed responder_failed
outcome_of panics = failed index_panic

-- The envelope that `snapshot` returned, if it was completed before the deadline.
abbrev pub in_time : ℕ → Option ResponseEnvelope → Option ResponseEnvelope
in_time deadline none = none
in_time deadline (some e) = if ltb e.completed_at deadline then some e else none

abbrev pub is_published : Option ResponseEnvelope → Bool
is_published none = false
is_published (some e) = true

module _ (lib : TextLib) (max_custom_answer_bytes : ℕ) (input : ToolInput) (deadline : ℕ) where
  -- The tests of one turn; `none` goes round again.
  turn_alive : Option ResponseEnvelope → Option ResponseEnvelope → ℕ → Option Outcome
  unfolding outcome_of
  turn_alive (some e) envelope now =
      some (outcome_of (map_response lib max_custom_answer_bytes input e.response))
  turn_alive none envelope now =
      if not (ltb now deadline) || is_published envelope
      then some (answered (bare Status.timed_out))
      else none

  unfoldable pub turn : Wake → Option Outcome
  unfolding turn_alive
  turn (ctx_done e) = some (failed (ctx e))
  turn (woken (some e) envelope now) = some (failed (ctx e))
  turn (woken none envelope now) = turn_alive (in_time deadline envelope) envelope now

  or_later : Option Outcome → Option Outcome → Option Outcome
  or_later (some o) rest = some o
  or_later none rest = rest

  -- The loop; `none` is a call that is still blocked when the wakes given run out.
  unfoldable pub await : List Wake → Option Outcome
  unfolding turn or_later
  await [] = none
  await (w ∷ ws) = or_later (turn w) (await ws)

pub data Begun : Type 0 where
  finished : Outcome → Begun
  pending : ℕ → ℕ → Begun

abbrev pub has_identity : ToolCall → Bool
has_identity call = not (str_eq call.session_id "" || str_eq call.run_id "" || str_eq call.id "")

pub begin_admitted : Coordinator → Option ℕ → Option CtxErr → ℕ → Coordinator × Begun
begin_admitted c none (some e) deadline = (c, finished (failed (ctx e)))
begin_admitted c none none deadline = (c, finished (answered (bare Status.unavailable)))
begin_admitted c (some id) (some e) deadline = (release c id, finished (failed (ctx e)))
begin_admitted c (some id) none deadline = (c, pending id deadline)

pub begin_checked : Coordinator → ToolCall → ℕ → Option CtxErr → Coordinator × Begun
unfolding begin_admitted
begin_checked c call deadline second =
    if has_identity call
    then (let (c', id) = acquire c in begin_admitted c' id second deadline)
    else (c, finished (failed (runtime_error "call-identity")))

-- `ask` up to the start of the responder: `first` is what `ctx.Err()` returns on entry, `second`
-- behind `acquire`. A call goes on as `pending` with its identifier and its deadline.
unfoldable pub begin :
    Coordinator → ToolCall → Option CtxErr → Option CtxErr → ℕ → ℕ → Coordinator × Begun
unfolding begin_checked
begin c call (some e) second now max_wait = (c, finished (failed (ctx e)))
begin c call none second now max_wait = begin_checked c call (now + max_wait) second

-- `runResponder` behind the host's return or panic: the envelope is published, then the deferred
-- `release` runs.
unfoldable pub settle_responder :
    Coordinator → ℕ → Option Response → ℕ → Coordinator × ResponseEnvelope
settle_responder c id response now =
    (release c id, record { response = response; completed_at = now })
