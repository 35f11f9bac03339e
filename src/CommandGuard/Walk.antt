-- ===== src/CommandGuard/Walk.antt =====
-- `script` of commandguard/parser.go and commandguard/syntax_policy.go: a script is parsed and each
-- node of its tree is inspected on the way down and finished on the way up.
--
-- `syntax.Walk` calls back before the children of a node and behind them, and with the first denial
-- nothing more is done; so the walk is a recursion on the tree that stops there. `stack` is the
-- depth. The code keeps the decoded words in a map by their nodes, which a call reads for its
-- arguments: here the walk of the children hands the decoded words among them to the call.
pub mod Steps
pub mod Sound
pub mod Cleared
pub mod Bounds
pub mod Ends
use eino_agent_extensions.Prelude.{
  ℕ, zero, suc, ◌+◌, Bool, true, false, ◌&&◌, ◌||◌, not, Option, none, some, List, [], ◌∷◌, ◌++◌,
  Bytes, length, ltb, leb, ◌==◌, if◌then◌else◌,
}
use eino_agent_extensions.Context.{Ctx, poll}
use eino_agent_extensions.CommandGuard.Words.{
  Outcome, abstain, invalid_command, unanalysable, analysis_limit, Word,
}
use eino_agent_extensions.CommandGuard.Carriage.{contains, mask_carriage_returns}
use eino_agent_extensions.CommandGuard.Syntax.{
  Dialect, Node, Nodes, nil, cons, lit, sgl_quoted, dbl_quoted, word, call, word_iter, for_clause,
  assign, param_exp, ext_glob, plain, other, Limits, Analysis, inspect_node,
}
use eino_agent_extensions.CommandGuard.Decode.{decode}
use eino_agent_extensions.CommandGuard.Match.{
  Policy, Verdict, says, panics, spent, Ran, CommandRun, ScriptRun, command_with,
}

-- `syntax.Parser.Parse`: a tree, an error of the syntax or the dialect, another error or no file.
-- It reads the script through a reader that asks the context.
pub data Parsed : Type 0 where
  file : Node → Parsed
  syntax_error other_error no_file : Parsed

pub record Shell : Type 0 where
  pub parse : Ctx → Bytes → Dialect → Ctx × Parsed
  pub split_braces : Nodes → Bool
  pub utf8_valid : Bytes → Bool

-- The result of a walk: the words are those decoded among the nodes walked.
abbrev pub Walked : Type 0
Walked = Analysis × Verdict × List Word

abbrev pub entered : Analysis × Outcome → (Analysis → Walked) → Walked
entered (a, abstain) below = below a
entered (a, o) below = (a, says o, [])

-- What `finishNode` does at a node, with the result of the walk below it: nothing for most types.
abbrev pub leave : Walked → Walked
leave (a, v, words) = (a, v, [])

abbrev pub leave_word : Ctx × Word × Outcome → Analysis → Walked
leave_word (ctx, w, o) a = (record a { ctx = ctx }, says o, w ∷ [])

abbrev pub finish_args : CommandRun → ℕ → ℕ → Analysis → List Word → Ran
finish_args command depth wrappers a [] = (a, says abstain)
finish_args command depth wrappers a (w ∷ ws) = command a (w ∷ ws) depth wrappers

abbrev pub leave_call : Ran → Walked
leave_call (a, v) = (a, v, [])

-- On with the next sibling, or out with the first denial.
abbrev pub and_then : Walked → (Analysis → Walked) → Walked
and_then (a, says abstain, words) next = let (b, v, more) = next a in (b, v, words ++ more)
and_then (a, v, words) next = (a, v, words)

-- At the end of a node's children, if nothing was denied.
abbrev pub at_end : Walked → (Analysis → List Word → Walked) → Walked
at_end (a, says abstain, words) finish = finish a words
at_end (a, v, words) finish = (a, v, [])

module _ (sh : Shell) (l : Limits) (command : CommandRun) (carriage wrappers : ℕ) where
  unfoldable mutual
    unfolding inspect_node decode

    pub walk_node : ℕ → Node → Analysis → Walked
    walk_node depth (lit v) a =
        entered (inspect_node l (lit v) depth a) (λ b. (b, says abstain, []))
    walk_node depth (sgl_quoted d v) a =
        entered (inspect_node l (sgl_quoted d v) depth a) (λ b. (b, says abstain, []))
    walk_node depth (dbl_quoted d ns) a =
        entered (inspect_node l (dbl_quoted d ns) depth a)
          (λ b. leave (walk_nodes (depth + 1) ns b))
    walk_node depth (word ns) a = entered (inspect_node l (word ns) depth a) λ b.
        at_end (walk_nodes (depth + 1) ns b)
          λ c words. leave_word (decode sh.split_braces l.max_word_bytes carriage ns c.ctx) c
    walk_node depth (call ns) a = entered (inspect_node l (call ns) depth a) λ b.
        at_end (walk_nodes (depth + 1) ns b)
          λ c words. leave_call (finish_args command (depth + 1) wrappers c words)
    walk_node depth (word_iter name ns) a =
        entered (inspect_node l (word_iter name ns) depth a)
          (λ b. leave (walk_nodes (depth + 1) ns b))
    walk_node depth (for_clause w ns) a =
        entered (inspect_node l (for_clause w ns) depth a)
          (λ b. leave (walk_nodes (depth + 1) ns b))
    walk_node depth (assign v ns) a =
        entered (inspect_node l (assign v ns) depth a) (λ b. leave (walk_nodes (depth + 1) ns b))
    walk_node depth (param_exp v ns) a =
        entered (inspect_node l (param_exp v ns) depth a) (λ b. leave (walk_nodes (depth + 1) ns b))
    walk_node depth (ext_glob ns) a =
        entered (inspect_node l (ext_glob ns) depth a) (λ b. leave (walk_nodes (depth + 1) ns b))
    walk_node depth (plain ns) a =
        entered (inspect_node l (plain ns) depth a) (λ b. leave (walk_nodes (depth + 1) ns b))
    walk_node depth (other ns) a =
        entered (inspect_node l (other ns) depth a) (λ b. leave (walk_nodes (depth + 1) ns b))

    pub walk_nodes : ℕ → Nodes → Analysis → Walked
    walk_nodes depth nil a = (a, says abstain, [])
    walk_nodes depth (cons n ns) a = and_then (walk_node depth n a) (walk_nodes depth ns)

  -- `walkScript`
  unfoldable pub walk_script : ℕ → Node → Analysis → Ran
  unfolding walk_node walk_nodes
  walk_script base_depth root a = let r = walk_node base_depth root a in (r.0, r.1)

abbrev pub valid_text : Shell → Bytes → Bool
valid_text sh s = sh.utf8_valid s && not (contains 0 s)

module _ (sh : Shell) (l : Limits) (command : CommandRun) where
  -- The lines behind the parser.
  unfoldable pub parsed : Parsed → ℕ → ℕ → ℕ → Analysis → Ran
  unfolding walk_script
  parsed (file root) carriage base_depth wrappers a =
      walk_script sh l command carriage wrappers base_depth root a
  parsed syntax_error carriage base_depth wrappers a = (a, says invalid_command)
  parsed other_error carriage base_depth wrappers a = (a, panics)
  parsed no_file carriage base_depth wrappers a = (a, panics)

  -- From the masked text on.
  unfoldable pub parse_masked : Option (Bytes × ℕ) → Dialect → ℕ → ℕ → Analysis → Ran
  unfolding parsed
  parse_masked none dialect base_depth wrappers a = (a, says unanalysable)
  parse_masked (some (s, carriage)) dialect base_depth wrappers a =
      let r = sh.parse a.ctx s dialect in
      let b = record a { ctx = (poll r.0).1; bytes = a.bytes + length s } in
      if (poll r.0).0 then (b, says invalid_command) else parsed r.1 carriage base_depth wrappers b

  -- `script`
  unfoldable pub script : ScriptRun
  unfolding parse_masked mask_carriage_returns
  script a s dialect base_depth wrappers =
      let b = record a { ctx = (poll a.ctx).1 } in
      if (poll a.ctx).0
      then (b, says invalid_command)
      else if ltb l.max_command_bytes (length s)
          || ltb l.max_analysis_bytes (b.bytes + length s)
          || leb l.max_ast_depth base_depth
      then (b, says analysis_limit)
      else if not (valid_text sh s)
      then (b, says invalid_command)
      else parse_masked (mask_carriage_returns s) dialect base_depth wrappers b

-- `command`, on fuel: each call behind a wrapper has one wrapper more.
unfoldable pub command_at : ℕ → Shell → Policy → CommandRun
unfolding command_with script
command_at zero sh p a words depth wrappers = (a, spent)
command_at (suc fuel) sh p a words depth wrappers =
    command_with (command_at fuel sh p) (script sh p.limits (command_at fuel sh p)) p a words depth
      wrappers

-- The analysis of a command of the model.
unfoldable pub analyse : Shell → Policy → Ctx → Bytes → Dialect → Ran
unfolding command_at script
analyse sh p ctx s dialect =
    script sh p.limits (command_at (p.limits.max_wrapper_depth + 1) sh p)
      (record { ctx = ctx; bytes = 0; nodes = 0; words = 0 }) s dialect 0 0
