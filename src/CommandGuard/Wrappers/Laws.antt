-- ===== src/CommandGuard/Wrappers/Laws.antt =====
-- commandguard/wrappers.go: the words before a wrapped command.
use eino_agent_extensions.Prelude.{
  by_cases, ◌≡◌, refl, Bool, true, ◌&&◌, ◌||◌, not, Option, none, some, List, [], ◌∷◌, Bytes,
  bytes_eq, if◌then◌else◌, codes, Bool-cases, inl, inr,
}
use eino_agent_extensions.CommandGuard.Words.{
  unanalysable, Word, has_prefix, before, variable_name, opaque_variable_target,
}
use eino_agent_extensions.CommandGuard.Options.{
  Scanned, remaining, refused, faulted, wrapper_options, duration_shape,
}
use eino_agent_extensions.CommandGuard.Wrappers.{
  after_flags, builtin_command_prefix, assignment_operands, no_selector, duration_operand,
  after_options, wrapper_arguments,
}
use eino_agent_extensions.Context.{Ctx}
use eino_agent_extensions.CommandGuard.Options.Laws.{
  Skipped, here, there, Careful, Careful-there, un_negate, or_left, and_left, and_right,
  scan_options-Careful,
}

after_flags-Careful : (args : List Word) → Careful args (after_flags args)
unfolding after_flags
after_flags-Careful [] = here []
after_flags-Careful (first ∷ rest) =
    by_cases (Careful (first ∷ rest)) (first.known && bytes_eq first.text (codes "--")) _ _
      (λ e. there first rest rest (and_left _ _ e) (here rest))
      λ e.
        by_cases (Careful (first ∷ rest)) (not first.known || has_prefix first.text (codes "-")) _ _
          (λ e. refl) (λ e. here (first ∷ rest))

builtin_command_prefix-Careful :
    (name : Bytes) (args : List Word) → Careful args (builtin_command_prefix name args)
unfolding builtin_command_prefix
builtin_command_prefix-Careful name [] = after_flags-Careful []
builtin_command_prefix-Careful name (first ∷ rest) =
    by_cases (Careful (first ∷ rest))
      (bytes_eq name (codes "command") && first.known && bytes_eq first.text (codes "-p")) _ _
      (λ e. Careful-there first rest _ (and_right _ _ (and_left _ _ e)) (after_flags-Careful rest))
      (λ e. after_flags-Careful (first ∷ rest))

assignment_operands-Careful : (args : List Word) → Careful args (assignment_operands args)
unfolding assignment_operands
assignment_operands-Careful [] = here []
assignment_operands-Careful (first ∷ rest) =
    by_cases (Careful (first ∷ rest)) (not first.known) _ _ (λ e. refl)
      λ e.
        keyed (before b'=' first.text) (un_negate first.known e) (assignment_operands-Careful rest)
  where
    keyed :
        (found : Option Bytes)
        → first.known ≡ true
        → Careful rest (assignment_operands rest)
        → Careful (first ∷ rest) (elim found [
          | none ↦ remaining (first ∷ rest)
          | some key ↦
              if not (variable_name key) || opaque_variable_target key
              then refused unanalysable
              else assignment_operands rest
        ])
    keyed none known others = here (first ∷ rest)
    keyed (some key) known others =
        by_cases (Careful (first ∷ rest)) (not (variable_name key) || opaque_variable_target key) _
          _ (λ e. refl) (λ e. Careful-there first rest _ known others)

no_selector-Careful :
    (sudo : Bool) (args : List Word) (scanned : Scanned)
    → Careful args scanned
    → Careful args (no_selector sudo scanned)
unfolding no_selector
no_selector-Careful sudo args (remaining []) h = h
no_selector-Careful sudo args (remaining (first ∷ rest)) h =
    by_cases (Careful args) (sudo && has_prefix first.text (codes "-")) _ _ (λ e. refl) (λ e. h)
no_selector-Careful sudo args (refused o) h = h
no_selector-Careful sudo args faulted h = h

duration_operand-Careful : (args : List Word) → Careful args (duration_operand args)
unfolding duration_operand
duration_operand-Careful [] = refl
duration_operand-Careful (first ∷ rest) =
    by_cases (Careful (first ∷ rest)) (not first.known || not (duration_shape first.text)) _ _
      (λ e. refl) (λ e. there first rest rest (un_negate first.known (or_left _ _ e)) (here rest))

-- One careful scan behind another.
Skipped-Careful :
    (args rest : List Word) (result : Scanned)
    → Skipped args rest
    → Careful rest result
    → Careful args result
Skipped-Careful args rest result (here _) k = k
Skipped-Careful args rest result (there first more _ known h) k =
    Careful-there first more result known (Skipped-Careful more rest result h k)

after_options-Careful :
    (name : Bytes) (args : List Word) (scanned : Scanned)
    → Careful args scanned
    → Careful args (after_options name scanned)
unfolding after_options
after_options-Careful name args (refused o) h = h
after_options-Careful name args faulted h = h
after_options-Careful name args (remaining rest) h = Skipped-Careful args rest _ h (
    by_cases (Careful rest) (bytes_eq name (codes "env") || bytes_eq name (codes "sudo")) _ _
      (λ e.
        no_selector-Careful (bytes_eq name (codes "sudo")) rest (assignment_operands rest)
          (assignment_operands-Careful rest))
      (λ e.
        by_cases (Careful rest) (bytes_eq name (codes "timeout")) _ _
          (λ e. duration_operand-Careful rest) (λ e. here rest)))

-- For every wrapper and its arguments, either the command is denied, or what is left is the
-- arguments without some words at their front, all of which are known; no index is out of range.
pub wrapper_arguments-Careful :
    (ctx : Ctx) (name : Bytes) (args : List Word) → Careful args (wrapper_arguments ctx name args).1
unfolding wrapper_arguments
wrapper_arguments-Careful ctx name args =
    elim (Bool-cases (bytes_eq name (codes "command") || bytes_eq name (codes "exec"))) [
      | inl prefix ↦ rw (wrapper_arguments, prefix) (builtin_command_prefix-Careful name args)
      | inr options ↦
          rw (wrapper_arguments, options)
            (after_options-Careful name args _
              (scan_options-Careful ctx args (wrapper_options name)))
    ]
