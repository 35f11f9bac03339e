-- ===== src/CommandGuard/Walk/Bounds.antt =====
-- commandguard/syntax_policy.go: the counters of a walk.
use eino_agent_extensions.Prelude.{by_cases, ℕ, ◌+◌, ◌≤◌, ◌||◌, List, [], ◌∷◌, leb, arith}
use eino_agent_extensions.Context.{Ctx, poll}
use eino_agent_extensions.CommandGuard.Words.{Outcome, abstain, Word}
use eino_agent_extensions.CommandGuard.Syntax.{
  Node, Nodes, nil, cons, lit, sgl_quoted, dbl_quoted, word, call, word_iter, for_clause, assign,
  param_exp, ext_glob, plain, other, Limits, Analysis, inspect_node, count_word,
}
use eino_agent_extensions.CommandGuard.Decode.{decode}
use eino_agent_extensions.CommandGuard.Match.{Verdict, says, panics, spent, Ran, CommandRun}
use eino_agent_extensions.CommandGuard.Walk.{
  Parsed, file, syntax_error, other_error, no_file, Shell, Walked, entered, leave, leave_word,
  finish_args, leave_call, and_then, at_end, walk_node, walk_nodes, walk_script, parsed,
}

abbrev pub Within : Limits → Analysis → Type 0
Within l a =
    (a.bytes ≤ l.max_analysis_bytes) × (a.nodes ≤ l.max_ast_nodes) × (a.words ≤ l.max_words)

-- The recursion did not run out of fuel.
abbrev pub Ended : Verdict → Type 0
Ended (says o) = Unit {0}
Ended panics = Unit {0}
Ended spent = ⊥

abbrev pub Fine : Limits → Ran → Type 0
Fine l r = Within l r.0 × Ended r.1

abbrev FineWalk : Limits → Walked → Type 0
FineWalk l r = Within l r.0 × Ended r.1

entered-Fine :
    (l : Limits) (r : Analysis × Outcome) (below : Analysis → Walked)
    → Within l r.0
    → ((b : Analysis) → Within l b → FineWalk l (below b))
    → FineWalk l (entered r below)
entered-Fine l (a, abstain) below h k = k a h
entered-Fine l (a, _) below h k = (h, tt)

leave-Fine : (l : Limits) (r : Walked) → FineWalk l r → FineWalk l (leave r)
leave-Fine l (a, v, ws) h = h

at_end-Fine :
    (l : Limits) (r : Walked) (finish : Analysis → List Word → Walked)
    → FineWalk l r
    → ((b : Analysis) (ws : List Word) → Within l b → FineWalk l (finish b ws))
    → FineWalk l (at_end r finish)
at_end-Fine l (a, says abstain, ws) finish h k = k a ws h.0
at_end-Fine l (a, says _, ws) finish h k = h
at_end-Fine l (a, panics, ws) finish h k = h
at_end-Fine l (a, spent, ws) finish h k = h

and_then-Fine :
    (l : Limits) (r : Walked) (next : Analysis → Walked)
    → FineWalk l r
    → ((b : Analysis) → Within l b → FineWalk l (next b))
    → FineWalk l (and_then r next)
and_then-Fine l (a, says abstain, ws) next h k = k a h.0
and_then-Fine l (a, says _, ws) next h k = h
and_then-Fine l (a, panics, ws) next h k = h
and_then-Fine l (a, spent, ws) next h k = h

count_word-Within :
    (l : Limits) (n : Node) (a : Analysis) → Within l a → Within l (count_word l n a).0
unfolding count_word
count_word-Within l (word ns) a h = ground arith
count_word-Within l _ a h = h

inspect_node-Within :
    (l : Limits) (n : Node) (depth : ℕ) (a : Analysis)
    → Within l a
    → Within l (inspect_node l n depth a).0
unfolding inspect_node
inspect_node-Within l n depth a h =
    by_cases (λ (r : Analysis × Outcome). Within l r.0) (poll a.ctx).0 _ _ (λ _. h)
      λ _.
        by_cases (λ (r : Analysis × Outcome). Within l r.0)
          (leb l.max_ast_nodes a.nodes || leb l.max_ast_depth depth) _ _ (λ _. h)
          λ fine. count_word-Within l n _ (ground arith)

module _ (sh : Shell) (l : Limits) (command : CommandRun) (carriage wrappers : ℕ)
    (runs : (a : Analysis) (ws : List Word) (depth : ℕ)
      → Within l a
      → Fine l (command a ws depth wrappers)) where
  leave_word-Fine :
      (r : Ctx × Word × Outcome) (a : Analysis) → Within l a → FineWalk l (leave_word r a)
  leave_word-Fine (ctx, w, o) a h = (h, tt)

  finish_args-Fine :
      (depth : ℕ) (a : Analysis) (ws : List Word)
      → Within l a
      → FineWalk l (leave_call (finish_args command depth wrappers a ws))
  finish_args-Fine depth a [] h = (h, tt)
  finish_args-Fine depth a (w ∷ ws) h = runs a (w ∷ ws) depth h

  below-Fine :
      (n : Node) (ns : Nodes) (depth : ℕ) (a : Analysis)
      → Within l a
      → ((b : Analysis)
          → Within l b
          → FineWalk l (walk_nodes sh l command carriage wrappers (depth + 1) ns b))
      → FineWalk l (
          entered
            (inspect_node l n depth a)
            (λ b. leave (walk_nodes sh l command carriage wrappers (depth + 1) ns b)))
  below-Fine n ns depth a h below =
      entered-Fine l (inspect_node l n depth a) _ (inspect_node-Within l n depth a h)
        λ b k. leave-Fine l (walk_nodes sh l command carriage wrappers (depth + 1) ns b) (below b k)

  leaf-Fine :
      (n : Node) (depth : ℕ) (a : Analysis)
      → Within l a
      → FineWalk l (entered (inspect_node l n depth a) (λ b. (b, says abstain, [])))
  leaf-Fine n depth a h =
      entered-Fine l (inspect_node l n depth a) _ (inspect_node-Within l n depth a h)
        (λ b k. (k, tt))

  mutual
    unfolding walk_node walk_nodes

    walk_node-Fine :
        (n : Node) (depth : ℕ) (a : Analysis)
        → Within l a
        → FineWalk l (walk_node sh l command carriage wrappers depth n a)
    walk_node-Fine (lit v) depth a h = leaf-Fine (lit v) depth a h
    walk_node-Fine (sgl_quoted d v) depth a h = leaf-Fine (sgl_quoted d v) depth a h
    walk_node-Fine (dbl_quoted d ns) depth a h =
        below-Fine (dbl_quoted d ns) ns depth a h (walk_nodes-Fine ns (depth + 1))
    walk_node-Fine (word ns) depth a h =
        entered-Fine l (inspect_node l (word ns) depth a) _
          (inspect_node-Within l (word ns) depth a h)
          λ b k.
            at_end-Fine l (walk_nodes sh l command carriage wrappers (depth + 1) ns b) _
              (walk_nodes-Fine ns (depth + 1) b k)
              (λ c ws m.
                leave_word-Fine (decode sh.split_braces l.max_word_bytes carriage ns c.ctx) c m)
    walk_node-Fine (call ns) depth a h =
        entered-Fine l (inspect_node l (call ns) depth a) _
          (inspect_node-Within l (call ns) depth a h)
          λ b k.
            at_end-Fine l (walk_nodes sh l command carriage wrappers (depth + 1) ns b) _
              (walk_nodes-Fine ns (depth + 1) b k) (finish_args-Fine (depth + 1))
    walk_node-Fine (word_iter name ns) depth a h =
        below-Fine (word_iter name ns) ns depth a h (walk_nodes-Fine ns (depth + 1))
    walk_node-Fine (for_clause w ns) depth a h =
        below-Fine (for_clause w ns) ns depth a h (walk_nodes-Fine ns (depth + 1))
    walk_node-Fine (assign v ns) depth a h =
        below-Fine (assign v ns) ns depth a h (walk_nodes-Fine ns (depth + 1))
    walk_node-Fine (param_exp v ns) depth a h =
        below-Fine (param_exp v ns) ns depth a h (walk_nodes-Fine ns (depth + 1))
    walk_node-Fine (ext_glob ns) depth a h =
        below-Fine (ext_glob ns) ns depth a h (walk_nodes-Fine ns (depth + 1))
    walk_node-Fine (plain ns) depth a h =
        below-Fine (plain ns) ns depth a h (walk_nodes-Fine ns (depth + 1))
    walk_node-Fine (other ns) depth a h =
        below-Fine (other ns) ns depth a h (walk_nodes-Fine ns (depth + 1))

    walk_nodes-Fine :
        (ns : Nodes) (depth : ℕ) (a : Analysis)
        → Within l a
        → FineWalk l (walk_nodes sh l command carriage wrappers depth ns a)
    walk_nodes-Fine nil depth a h = (h, tt)
    walk_nodes-Fine (cons n ns) depth a h =
        and_then-Fine l (walk_node sh l command carriage wrappers depth n a) _
          (walk_node-Fine n depth a h) (walk_nodes-Fine ns depth)

  pub parsed-Fine :
      (r : Parsed) (base_depth : ℕ) (a : Analysis)
      → Within l a
      → Fine l (parsed sh l command r carriage base_depth wrappers a)
  unfolding parsed walk_script
  parsed-Fine (file root) base_depth a h = walk_node-Fine root base_depth a h
  parsed-Fine syntax_error base_depth a h = (h, tt)
  parsed-Fine other_error base_depth a h = (h, tt)
  parsed-Fine no_file base_depth a h = (h, tt)
