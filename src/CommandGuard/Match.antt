-- ===== src/CommandGuard/Match.antt =====
-- commandguard/match.go and the rest of wrappers.go: one command against the rules, the builtins and
-- the wrappers. What a wrapped command and a nested script amount to are arguments here; Walk ties
-- the recursion.
pub mod Rules
use eino_agent_extensions.Prelude.{
  ℕ, zero, suc, ◌+◌, Bool, true, false, ◌&&◌, ◌||◌, not, Option, none, some, List, [], ◌∷◌, Bytes,
  bytes_eq, length, leb, ◌==◌, if◌then◌else◌, codes,
}
use eino_agent_extensions.Context.{Ctx, poll}
use eino_agent_extensions.CommandGuard.Words.{
  Outcome, abstain, rule_match, invalid_command, unanalysable, analysis_limit, Word, has_prefix,
  one_of,
}
use eino_agent_extensions.CommandGuard.Options.{Scanned, remaining, refused, faulted}
use eino_agent_extensions.CommandGuard.Wrappers.{wrapper_arguments}
use eino_agent_extensions.CommandGuard.Syntax.{Dialect, posix, bash, Limits, Analysis}

pub record Rule : Type 0 where
  pub executable : Bytes
  pub arg_prefix : List Bytes

pub record Policy : Type 0 where
  pub rules : List Rule
  pub limits : Limits

-- What an analysis says; a panic for an index out of range or an internal error; or that the fuel of
-- the model is spent.
pub data Verdict : Type 0 where
  says : Outcome → Verdict
  panics spent : Verdict

abbrev pub Ran : Type 0
Ran = Analysis × Verdict

abbrev pub ends_with_slash : Bytes → Bool
ends_with_slash [] = false
ends_with_slash (c ∷ []) = c == b'/'
ends_with_slash (c ∷ d ∷ cs) = ends_with_slash (d ∷ cs)

-- `text[strings.LastIndexByte(text, '/')+1:]`, with `best` for a text without a slash.
abbrev pub after_slash : Bytes → Bytes → Bytes
after_slash best [] = best
after_slash best (c ∷ cs) = if c == b'/' then after_slash cs cs else after_slash best cs

abbrev pub base_name : Bytes → Bytes
base_name text = after_slash text text

-- The loop over a rule's prefix: `abstain` is a mismatch.
unfoldable pub match_prefix : List Bytes → List Word → Outcome
match_prefix [] args = rule_match
match_prefix (want ∷ wants) [] = abstain
match_prefix (want ∷ wants) (arg ∷ args) =
    if not arg.known
    then unanalysable
    else (if bytes_eq arg.text want then match_prefix wants args else abstain)

-- The loop over the rules.
unfoldable pub match_rules : Ctx → List Rule → Bytes → List Word → Ctx × Outcome
unfolding match_prefix
match_rules ctx [] name args = (ctx, abstain)
match_rules ctx (r ∷ rules) name args =
    let rest = match_rules (poll ctx).1 rules name args in
    if (poll ctx).0
    then ((poll ctx).1, invalid_command)
    else if not (bytes_eq r.executable name)
    then rest
    else elim (match_prefix r.arg_prefix args) [ abstain ↦ rest | o ↦ ((poll ctx).1, o) ]

abbrev pub shell_builtins : List Bytes
shell_builtins =
    codes "eval"
    ∷ codes "."
    ∷ codes "source"
    ∷ codes "alias"
    ∷ codes "unalias"
    ∷ codes "builtin"
    ∷ codes "enable"
    ∷ codes "trap"
    ∷ codes "fc"
    ∷ codes "history"
    ∷ codes "bind"
    ∷ codes "complete"
    ∷ codes "compgen"
    ∷ codes "read"
    ∷ codes "unset"
    ∷ codes "getopts"
    ∷ codes "mapfile"
    ∷ codes "readarray"
    ∷ codes "declare"
    ∷ codes "typeset"
    ∷ codes "local"
    ∷ codes "export"
    ∷ codes "readonly"
    ∷ codes "let"
    ∷ []

abbrev pub unanalysable_if : Bool → Outcome
unanalysable_if true = unanalysable
unanalysable_if false = abstain

abbrev pub printf_operand : List Word → Bool
printf_operand [] = false
printf_operand (arg ∷ args) =
    not arg.known || (has_prefix arg.text (codes "-") && not (bytes_eq arg.text (codes "--")))

-- The loop of `test` and `[`.
abbrev pub test_operand : List Word → Bool
test_operand [] = false
test_operand (arg ∷ args) =
    not arg.known
    || bytes_eq arg.text (codes "-v")
    || bytes_eq arg.text (codes "-R")
    || test_operand args

abbrev pub last_is_bracket : List Word → Bool
last_is_bracket [] = false
last_is_bracket (arg ∷ []) = bytes_eq arg.text (codes "]")
last_is_bracket (arg ∷ next ∷ args) = last_is_bracket (next ∷ args)

unfoldable pub builtin : Bytes → List Word → Outcome
builtin name args =
    if one_of name shell_builtins
    then unanalysable
    else if bytes_eq name (codes "printf")
    then unanalysable_if (printf_operand args)
    else if one_of name (codes "test" ∷ codes "[" ∷ [])
    then unanalysable_if
        (test_operand args || (bytes_eq name (codes "[") && not (last_is_bracket args)))
    else abstain

-- The nested analyses: a command at a depth behind some wrappers, and a script.
abbrev pub CommandRun : Type 0
CommandRun = Analysis → List Word → ℕ → ℕ → Ran

abbrev pub ScriptRun : Type 0
ScriptRun = Analysis → Bytes → Dialect → ℕ → ℕ → Ran

abbrev pub is_shell_flag : Word → Bool
is_shell_flag w =
    w.known
    && (bytes_eq w.text (codes "-e")
        || bytes_eq w.text (codes "-u")
        || bytes_eq w.text (codes "-x"))

unfoldable pub skip_flags : List Word → List Word
skip_flags [] = []
skip_flags (w ∷ ws) = let rest = skip_flags ws in if is_shell_flag w then rest else w ∷ ws

abbrev pub dialect_of : Bytes → Dialect
dialect_of name = if bytes_eq name (codes "bash") then bash else posix

abbrev pub next_known : List Word → Bool
next_known [] = true
next_known (w ∷ ws) = w.known

-- `shell` behind the flags: `-c`, the script, and at most a known word next.
unfoldable pub shell_script : ScriptRun → Bytes → Analysis → List Word → ℕ → ℕ → Ran
shell_script nested name a [] depth wrappers = (a, says unanalysable)
shell_script nested name a (c ∷ []) depth wrappers = (a, says unanalysable)
shell_script nested name a (c ∷ script ∷ rest) depth wrappers =
    if not c.known
      || not (bytes_eq c.text (codes "-c") || bytes_eq c.text (codes "-lc"))
      || not script.known
      || has_prefix script.text (codes "-")
      || has_prefix script.text (codes "+")
      || not (next_known rest)
    then (a, says unanalysable)
    else nested a script.text (dialect_of name) depth wrappers

unfoldable pub shell : ScriptRun → Bytes → Analysis → List Word → ℕ → ℕ → Ran
unfolding skip_flags shell_script
shell nested name a args depth wrappers =
    shell_script nested name a (skip_flags args) depth wrappers

-- What follows the words before the wrapped command.
unfoldable pub wrapped : CommandRun → Bytes → Analysis → Scanned → ℕ → ℕ → Ran
wrapped again name a (refused o) depth wrappers = (a, says o)
wrapped again name a faulted depth wrappers = (a, panics)
wrapped again name a (remaining []) depth wrappers =
    (a, says (if bytes_eq name (codes "env") then abstain else unanalysable))
wrapped again name a (remaining (w ∷ ws)) depth wrappers = again a (w ∷ ws) (depth + 1) wrappers

abbrev pub wrapper_names : List Bytes
wrapper_names =
    codes "env"
    ∷ codes "command"
    ∷ codes "exec"
    ∷ codes "sudo"
    ∷ codes "timeout"
    ∷ codes "sh"
    ∷ codes "bash"
    ∷ []

unfoldable pub wrapper :
    CommandRun → ScriptRun → Limits → Analysis → Bytes → List Word → ℕ → ℕ → Ran
unfolding shell wrapped wrapper_arguments
wrapper again nested l a name args depth wrappers =
    if not (one_of name wrapper_names)
    then (a, says abstain)
    else if leb l.max_wrapper_depth wrappers || leb l.max_ast_depth depth
    then (a, says analysis_limit)
    else if bytes_eq name (codes "sh") || bytes_eq name (codes "bash")
    then shell nested name a args (depth + 1) (wrappers + 1)
    else let scanned = wrapper_arguments a.ctx name args in
      wrapped again name (record a { ctx = scanned.0 }) scanned.1 depth (wrappers + 1)

-- `command` behind the rules.
unfoldable pub unmatched :
    CommandRun → ScriptRun → Limits → Analysis → Bytes → List Word → ℕ → ℕ → Outcome → Ran
unfolding wrapper
unmatched again nested l a name args depth wrappers abstain =
    wrapper again nested l a name args depth wrappers
unmatched again nested l a name args depth wrappers o = (a, says o)

unfoldable pub matched :
    CommandRun → ScriptRun → Limits → Analysis → Bytes → List Word → ℕ → ℕ → Outcome → Ran
unfolding unmatched builtin
matched again nested l a name args depth wrappers abstain =
    unmatched again nested l a name args depth wrappers (builtin name args)
matched again nested l a name args depth wrappers o = (a, says o)

-- `command` behind the question whether the context has ended.
unfoldable pub match_command : CommandRun → ScriptRun → Policy → Analysis → List Word → ℕ → ℕ → Ran
unfolding match_rules matched
match_command again nested p a [] depth wrappers = (a, says unanalysable)
match_command again nested p a (executable ∷ args) depth wrappers =
    if not executable.known || bytes_eq executable.text [] || ends_with_slash executable.text
    then (a, says unanalysable)
    else let name = base_name executable.text in
      let r = match_rules a.ctx p.rules name args in
      matched again nested p.limits (record a { ctx = r.0 }) name args depth wrappers r.1

unfoldable pub command_with : CommandRun → ScriptRun → Policy → Analysis → List Word → ℕ → ℕ → Ran
unfolding match_command
command_with again nested p a words depth wrappers =
    let b = record a { ctx = (poll a.ctx).1 } in
    if (poll a.ctx).0
    then (b, says invalid_command)
    else match_command again nested p b words depth wrappers
