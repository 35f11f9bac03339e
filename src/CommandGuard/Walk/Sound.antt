-- ===== src/CommandGuard/Walk/Sound.antt =====
-- The commands and scripts that are clear, by the rules and wrappers of commandguard.
use eino_agent_extensions.Prelude.{
  ℕ, ◌+◌, ◌≡◌, refl, Bool, ◌||◌, true, false, Option, none, some, List, [], ◌∷◌, ◌++◌, Bytes,
  bytes_eq, codes,
}
use eino_agent_extensions.Context.{Ctx}
use eino_agent_extensions.CommandGuard.Words.{Outcome, abstain, Word, one_of, has_prefix}
use eino_agent_extensions.CommandGuard.Options.{remaining}
use eino_agent_extensions.CommandGuard.Wrappers.{wrapper_arguments}
use eino_agent_extensions.CommandGuard.Carriage.{mask_carriage_returns}
use eino_agent_extensions.CommandGuard.Options.Laws.{Skipped}
use eino_agent_extensions.CommandGuard.Syntax.{
  Dialect, Node, Nodes, nil, cons, lit, sgl_quoted, dbl_quoted, word, call, word_iter, for_clause,
  assign, param_exp, ext_glob, plain, other, Analysis, inspect_node, admit,
}
use eino_agent_extensions.CommandGuard.Decode.{decode}
use eino_agent_extensions.CommandGuard.Match.{
  Policy, says, Ran, CommandRun, base_name, wrapper_names, is_shell_flag, next_known, dialect_of,
}
use eino_agent_extensions.CommandGuard.Match.Rules.{NoRule}
use eino_agent_extensions.CommandGuard.Walk.{
  file, Shell, entered, leave, leave_word, finish_args, leave_call, walk_node, walk_nodes,
}
use eino_agent_extensions.CommandGuard.Walk.Steps.{
  Good, entered-Good, leave-Good, at_end-Good, and_then-Good, inspect_node_admits,
}

-- The script among the arguments of a shell: behind the flags that may stand before it, the word
-- behind `-c` or `-lc`. It does not look like an option, and a word that follows it is known.
pub data Runs (s : Word) : List Word → Type 0 where
  flag : (w : Word) (ws : List Word) → is_shell_flag w ≡ true → Runs s ws → Runs s (w ∷ ws)
  option :
      (c : Word) (rest : List Word)
      → c.known ≡ true
      → (bytes_eq c.text (codes "-c") || bytes_eq c.text (codes "-lc")) ≡ true
      → s.known ≡ true
      → (has_prefix s.text (codes "-") || has_prefix s.text (codes "+")) ≡ false
      → next_known rest ≡ true
      → Runs s (c ∷ s ∷ rest)

abbrev pub is_shell : Bytes → Bool
is_shell name = bytes_eq name (codes "sh") || bytes_eq name (codes "bash")

-- What is walked below a node that is neither a word nor a call.
abbrev pub children : Node → Option Nodes
children (lit v) = some nil
children (sgl_quoted d v) = some nil
children (dbl_quoted d ns) = some ns
children (word ns) = none
children (call ns) = none
children (word_iter name ns) = some ns
children (for_clause w ns) = some ns
children (assign v ns) = some ns
children (param_exp v ns) = some ns
children (ext_glob ns) = some ns
children (plain ns) = some ns
children (other ns) = some ns

module _ (sh : Shell) (p : Policy) where
  -- The first word is known, and no rule may match the command.
  abbrev pub Passed : Word → List Word → Type 0
  Passed w args = (w.known ≡ true) × NoRule p.rules (base_name w.text) args

  -- `Cleared words`: the command passed, and so did what it runs if it is a wrapper.
  -- `ClearedScript d s`: the script has a tree in the dialect, all of which is cleared.
  -- `ClearedNode c n ws`: every node of the tree is of an admitted type, each call of it is cleared,
  -- and `ws` is the word that it decodes to.
  mutual
    pub data Cleared : List Word → Type 0 where
      direct :
          (w : Word) (args : List Word)
          → Passed w args
          → one_of (base_name w.text) wrapper_names ≡ false
          → Cleared (w ∷ args)
      bare :
          (w : Word) (args : List Word)
          → Passed w args
          → bytes_eq (base_name w.text) (codes "env") ≡ true
          → Skipped args []
          → Cleared (w ∷ args)
      behind :
          (w v : Word) (args rest : List Word) (ctx : Ctx)
          → Passed w args
          → is_shell (base_name w.text) ≡ false
          → (wrapper_arguments ctx (base_name w.text) args).1 ≡ remaining (v ∷ rest)
          → Skipped args (v ∷ rest)
          → Cleared (v ∷ rest)
          → Cleared (w ∷ args)
      scripted :
          (w s : Word) (args : List Word)
          → Passed w args
          → is_shell (base_name w.text) ≡ true
          → Runs s args
          → ClearedScript (dialect_of (base_name w.text)) s.text
          → Cleared (w ∷ args)

    pub data ClearedScript : Dialect → Bytes → Type 0 where
      tree :
          (s t : Bytes) (carriage : ℕ) (ctx : Ctx) (dialect : Dialect) (root : Node)
          (ws : List Word)
          → mask_carriage_returns s ≡ some (t, carriage)
          → (sh.parse ctx t dialect).1 ≡ file root
          → ClearedNode carriage root ws
          → ClearedScript dialect s

    pub data ClearedNode : ℕ → Node → List Word → Type 0 where
      inner :
          (carriage : ℕ) (n : Node) (ns : Nodes) (ws : List Word)
          → children n ≡ some ns
          → admit n ≡ abstain
          → ClearedNodes carriage ns ws
          → ClearedNode carriage n []
      decoded :
          (carriage : ℕ) (ns : Nodes) (ws : List Word) (w : Word) (ctx ctx' : Ctx)
          → ClearedNodes carriage ns ws
          → decode sh.split_braces p.limits.max_word_bytes carriage ns ctx ≡ (ctx', w, abstain)
          → ClearedNode carriage (word ns) (w ∷ [])
      no_args :
          (carriage : ℕ) (ns : Nodes)
          → ClearedNodes carriage ns []
          → ClearedNode carriage (call ns) []
      called :
          (carriage : ℕ) (ns : Nodes) (w : Word) (ws : List Word)
          → ClearedNodes carriage ns (w ∷ ws)
          → Cleared (w ∷ ws)
          → ClearedNode carriage (call ns) []

    pub data ClearedNodes : ℕ → Nodes → List Word → Type 0 where
      none_left : (carriage : ℕ) → ClearedNodes carriage nil []
      one_more :
          (carriage : ℕ) (n : Node) (ns : Nodes) (ws more : List Word)
          → ClearedNode carriage n ws
          → ClearedNodes carriage ns more
          → ClearedNodes carriage (cons n ns) (ws ++ more)

  -- A run that abstains has the property.
  abbrev pub If {κ} : Type κ → Ran → Type κ
  If P r = r.1 ≡ says abstain → P

  module _ (command : CommandRun) (carriage wrappers : ℕ)
      (runs : (a : Analysis) (ws : List Word) (depth : ℕ)
        → If (Cleared ws) (command a ws depth wrappers)) where
    inner-Good :
        (depth : ℕ) (n : Node) (ns : Nodes) (a : Analysis)
        → children n ≡ some ns
        → ((b : Analysis)
            → Good
                (ClearedNodes carriage ns)
                (walk_nodes sh p.limits command carriage wrappers (depth + 1) ns b))
        → Good (ClearedNode carriage n) (
            entered
              (inspect_node p.limits n depth a)
              (λ b. leave (walk_nodes sh p.limits command carriage wrappers (depth + 1) ns b)))
    inner-Good depth n ns a c below =
        entered-Good (ClearedNode carriage n) (inspect_node p.limits n depth a) _ λ b admitted.
          leave-Good (ClearedNodes carriage ns) (ClearedNode carriage n)
            (walk_nodes sh p.limits command carriage wrappers (depth + 1) ns b) (below b)
            (λ ws h. inner carriage n ns ws c (inspect_node_admits p.limits n depth a admitted) h)

    leaf-Good :
        (depth : ℕ) (n : Node) (a : Analysis)
        → children n ≡ some nil
        → Good
            (ClearedNode carriage n)
            (entered (inspect_node p.limits n depth a) (λ b. (b, says abstain, [])))
    leaf-Good depth n a c =
        entered-Good (ClearedNode carriage n) (inspect_node p.limits n depth a) _ λ b admitted e.
          inner carriage n nil [] c (inspect_node_admits p.limits n depth a admitted)
            (none_left carriage)

    leave_word-Good :
        (ns : Nodes) (c : Analysis) (ws : List Word)
        → ClearedNodes carriage ns ws
        → (r : Ctx × Word × Outcome)
        → decode sh.split_braces p.limits.max_word_bytes carriage ns c.ctx ≡ r
        → Good (ClearedNode carriage (word ns)) (leave_word r c)
    leave_word-Good ns c ws h (ctx, w, abstain) e f = decoded carriage ns ws w c.ctx ctx h e
    leave_word-Good ns c ws h (ctx, w, _) e f = cc

    finish_args-Good :
        (depth : ℕ) (ns : Nodes) (c : Analysis) (ws : List Word)
        → ClearedNodes carriage ns ws
        → Good
            (ClearedNode carriage (call ns))
            (leave_call (finish_args command depth wrappers c ws))
    finish_args-Good depth ns c [] h e = no_args carriage ns h
    finish_args-Good depth ns c (w ∷ ws) h e = called carriage ns w ws h (runs c (w ∷ ws) depth e)

    mutual
      unfolding walk_node walk_nodes

      pub walk_node-Good :
          (n : Node) (depth : ℕ) (a : Analysis)
          → Good
              (ClearedNode carriage n)
              (walk_node sh p.limits command carriage wrappers depth n a)
      walk_node-Good (lit v) depth a = leaf-Good depth (lit v) a refl
      walk_node-Good (sgl_quoted d v) depth a = leaf-Good depth (sgl_quoted d v) a refl
      walk_node-Good (dbl_quoted d ns) depth a =
          inner-Good depth (dbl_quoted d ns) ns a refl (walk_nodes-Good ns (depth + 1))
      walk_node-Good (word ns) depth a =
          entered-Good (ClearedNode carriage (word ns)) (inspect_node p.limits (word ns) depth a) _
            λ b _.
              at_end-Good (ClearedNodes carriage ns) (ClearedNode carriage (word ns))
                (walk_nodes sh p.limits command carriage wrappers (depth + 1) ns b) _
                (walk_nodes-Good ns (depth + 1) b) (λ c ws h. leave_word-Good ns c ws h _ refl)
      walk_node-Good (call ns) depth a =
          entered-Good (ClearedNode carriage (call ns)) (inspect_node p.limits (call ns) depth a) _
            λ b _.
              at_end-Good (ClearedNodes carriage ns) (ClearedNode carriage (call ns))
                (walk_nodes sh p.limits command carriage wrappers (depth + 1) ns b) _
                (walk_nodes-Good ns (depth + 1) b) (finish_args-Good (depth + 1) ns)
      walk_node-Good (word_iter name ns) depth a =
          inner-Good depth (word_iter name ns) ns a refl (walk_nodes-Good ns (depth + 1))
      walk_node-Good (for_clause w ns) depth a =
          inner-Good depth (for_clause w ns) ns a refl (walk_nodes-Good ns (depth + 1))
      walk_node-Good (assign v ns) depth a =
          inner-Good depth (assign v ns) ns a refl (walk_nodes-Good ns (depth + 1))
      walk_node-Good (param_exp v ns) depth a =
          inner-Good depth (param_exp v ns) ns a refl (walk_nodes-Good ns (depth + 1))
      walk_node-Good (ext_glob ns) depth a =
          inner-Good depth (ext_glob ns) ns a refl (walk_nodes-Good ns (depth + 1))
      walk_node-Good (plain ns) depth a =
          inner-Good depth (plain ns) ns a refl (walk_nodes-Good ns (depth + 1))
      walk_node-Good (other ns) depth a =
          inner-Good depth (other ns) ns a refl (walk_nodes-Good ns (depth + 1))

      walk_nodes-Good :
          (ns : Nodes) (depth : ℕ) (a : Analysis)
          → Good
              (ClearedNodes carriage ns)
              (walk_nodes sh p.limits command carriage wrappers depth ns a)
      walk_nodes-Good nil depth a = λ e. none_left carriage
      walk_nodes-Good (cons n ns) depth a =
          and_then-Good (ClearedNode carriage n) (ClearedNodes carriage ns)
            (ClearedNodes carriage (cons n ns))
            (walk_node sh p.limits command carriage wrappers depth n a) _ (walk_node-Good n depth a)
            (walk_nodes-Good ns depth) (one_more carriage n ns)
