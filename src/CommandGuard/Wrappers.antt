-- ===== src/CommandGuard/Wrappers.antt =====
-- commandguard/wrappers.go: the words of a wrapper command that stand before the wrapped command.
pub mod Laws
use eino_agent_extensions.Prelude.{
  ℕ, Bool, true, false, ◌&&◌, ◌||◌, not, Option, none, some, List, [], ◌∷◌, Bytes, bytes_eq,
  if◌then◌else◌, codes, ◌==◌,
}
use eino_agent_extensions.CommandGuard.Words.{
  Outcome, abstain, unanalysable, Word, has_prefix, before, variable_name, opaque_variable_target,
}
use eino_agent_extensions.CommandGuard.Options.{
  Scanned, remaining, refused, faulted, scan_options, wrapper_options, duration_shape,
}
use eino_agent_extensions.Context.{Ctx, poll}

-- The lines behind the test for `-p`.
unfoldable pub after_flags : List Word → Scanned
after_flags [] = remaining []
after_flags (first ∷ rest) =
    if first.known && bytes_eq first.text (codes "--")
    then remaining rest
    else if not first.known || has_prefix first.text (codes "-")
    then refused unanalysable
    else remaining (first ∷ rest)

unfoldable pub builtin_command_prefix : Bytes → List Word → Scanned
unfolding after_flags
builtin_command_prefix name [] = after_flags []
builtin_command_prefix name (first ∷ rest) =
    if bytes_eq name (codes "command") && first.known && bytes_eq first.text (codes "-p")
    then after_flags rest
    else after_flags (first ∷ rest)

unfoldable pub assignment_operands : List Word → Scanned
unfolding before variable_name opaque_variable_target
assignment_operands [] = remaining []
assignment_operands (first ∷ rest) =
    let others = assignment_operands rest in
    if not first.known then refused unanalysable else elim (before b'=' first.text) [
      | none ↦ remaining (first ∷ rest)
      | some key ↦
          if not (variable_name key) || opaque_variable_target key
          then refused unanalysable
          else others
    ]

-- `sudo` can read a selector behind the assignments again.
unfoldable pub no_selector : Bool → Scanned → Scanned
no_selector sudo (remaining (first ∷ rest)) =
    if sudo && has_prefix first.text (codes "-")
    then refused unanalysable
    else remaining (first ∷ rest)
no_selector sudo (remaining []) = remaining []
no_selector sudo (refused o) = refused o
no_selector sudo faulted = faulted

unfoldable pub duration_operand : List Word → Scanned
unfolding duration_shape
duration_operand [] = refused unanalysable
duration_operand (first ∷ rest) =
    if not first.known || not (duration_shape first.text)
    then refused unanalysable
    else remaining rest

-- The switch over the wrapper's name behind its options.
unfoldable pub after_options : Bytes → Scanned → Scanned
unfolding assignment_operands no_selector duration_operand
after_options name (remaining args) =
    if bytes_eq name (codes "env") || bytes_eq name (codes "sudo")
    then no_selector (bytes_eq name (codes "sudo")) (assignment_operands args)
    else if bytes_eq name (codes "timeout")
    then duration_operand args
    else remaining args
after_options name (refused o) = refused o
after_options name faulted = faulted

unfoldable pub wrapper_arguments : Ctx → Bytes → List Word → Ctx × Scanned
unfolding builtin_command_prefix after_options scan_options wrapper_options
wrapper_arguments ctx name args =
    if bytes_eq name (codes "command") || bytes_eq name (codes "exec")
    then (ctx, builtin_command_prefix name args)
    else let scanned = scan_options ctx args (wrapper_options name) in
      (scanned.0, after_options name scanned.1)
