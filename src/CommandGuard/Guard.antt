-- ===== src/CommandGuard/Guard.antt =====
-- commandguard/guard.go: one call of a tool, from the admission to the decision.
--
-- `permits` is the number of tokens in the channel of that name. The two deferred functions run on
-- every way out: first the permit is given back, then a panic becomes an error, and an error of the
-- context replaces the result.
pub mod Laws
use eino_agent_extensions.Prelude.{
  ℕ, ◌+◌, ◌-◌, Bool, true, false, Option, none, some, List, [], ◌∷◌, Bytes, bytes_eq, leb,
  if◌then◌else◌, codes,
}
use eino_agent_extensions.Context.{Ctx, poll}
use eino_agent_extensions.CommandGuard.Words.{
  Outcome, abstain, rule_match, invalid_command, unanalysable, analysis_limit, capacity,
}
use eino_agent_extensions.CommandGuard.Syntax.{Dialect, Analysis}
use eino_agent_extensions.CommandGuard.Match.{Policy, Verdict, says, panics, spent, Ran}
use eino_agent_extensions.CommandGuard.Walk.{Shell, valid_text, analyse}
use eino_agent_extensions.CommandGuard.Input.{Decoder, Reading, Scan, input}

pub record Binding : Type 0 where
  pub tool_name : Bytes
  pub command_field : Bytes
  pub dialect : Dialect

pub record Request : Type 0 where
  pub tool_name : Bytes
  pub input : Bytes

-- `ToolGuardResult`: the code of a denial is always command_policy_denied.
pub data Decision : Type 0 where
  abstains : Decision
  denies : Bytes → Decision

-- A decision, the error of the context or the internal error. `unended` is the fuel of the model.
pub data Answer : Type 0 where
  decided : Decision → Answer
  canceled internal unended : Answer

unfoldable pub message : Outcome → Bytes
message rule_match = codes "command policy denied: rule-match"
message invalid_command = codes "command policy denied: invalid-command"
message unanalysable = codes "command policy denied: unanalysable-command"
message analysis_limit = codes "command policy denied: analysis-limit"
message capacity = codes "command policy denied: capacity"
message abstain = []

unfoldable pub denial : Outcome → Decision
unfolding message
denial abstain = abstains
denial o = denies (message o)

-- The loop over the bindings; a binding without a name is none.
unfoldable pub find_binding : List Binding → Bytes → Option Binding
find_binding [] name = none
find_binding (b ∷ bs) name =
    let rest = find_binding bs name in
    if bytes_eq b.tool_name name then (if bytes_eq b.tool_name [] then none else some b) else rest

abbrev pub Served : Type 0
Served = ℕ × Ctx × Answer

-- The end of the deferred functions: the context is asked once more.
abbrev pub deferred : ℕ → Ctx → Answer → Served
deferred permits ctx answer = (permits, (poll ctx).1, (if (poll ctx).0 then canceled else answer))

-- The lines behind the analysis, and the recovery from its panics.
unfoldable pub conclude : Ctx → Verdict → Ctx × Answer
unfolding denial
conclude ctx (says o) = ((poll ctx).1, (if (poll ctx).0 then canceled else decided (denial o)))
conclude ctx panics = (ctx, internal)
conclude ctx spent = (ctx, unended)

module _ {S : Type 0} (sh : Shell) (d : Decoder S) (p : Policy) where
  abbrev pub judged : Ran → Ctx × Answer
  judged (a, v) = conclude a.ctx v

  abbrev pub read_command : Dialect → Reading S × Verdict → Ctx × Answer
  read_command dialect (r, says abstain) = judged (analyse sh p r.ctx r.command dialect)
  read_command dialect (r, v) = conclude r.ctx v

  -- From the permit to its release.
  unfoldable pub judge : Ctx → Bytes → Binding → Ctx × Answer
  unfolding conclude analyse input
  judge ctx raw b =
      read_command b.dialect (input d (valid_text sh) p.limits b.command_field ctx raw)

  unfoldable pub guard_bound : ℕ → Ctx → Bytes → Option Binding → Served
  unfolding judge
  guard_bound permits ctx raw none = deferred permits ctx (decided abstains)
  guard_bound permits ctx raw (some b) =
      if leb p.limits.max_in_flight permits
      then deferred permits ctx (decided (denial capacity))
      else let taken = permits + 1 in let r = judge ctx raw b in deferred (taken - 1) r.0 r.1

  -- `GuardTool`
  unfoldable pub guard_tool : List Binding → ℕ → Ctx → Request → Served
  unfolding find_binding guard_bound
  guard_tool bindings permits ctx request =
      if (poll ctx).0
      then deferred permits (poll ctx).1 canceled
      else guard_bound permits (poll ctx).1 request.input (find_binding bindings request.tool_name)
