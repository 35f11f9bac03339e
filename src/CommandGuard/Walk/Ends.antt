-- ===== src/CommandGuard/Walk/Ends.antt =====
-- commandguard/parser.go: the counters of a whole analysis, and its recursion.
use eino_agent_extensions.Prelude.{
  by_cases, ℕ, zero, suc, ◌+◌, ◌≤◌, ◌<◌, ◌≡◌, refl, ◌||◌, not, Option, none, some, List, [], ◌∷◌,
  Bytes, bytes_eq, length, ltb, leb, codes, arith,
}
use eino_agent_extensions.Context.{Ctx, poll}
use eino_agent_extensions.CommandGuard.Words.{Outcome, abstain, Word, one_of, has_prefix}
use eino_agent_extensions.CommandGuard.Carriage.{mask_carriage_returns}
use eino_agent_extensions.CommandGuard.Carriage.Laws.{Masked, mask_carriage_returns-Masked}
use eino_agent_extensions.CommandGuard.Options.{Scanned, remaining, refused, faulted}
use eino_agent_extensions.CommandGuard.Wrappers.{wrapper_arguments}
use eino_agent_extensions.CommandGuard.Syntax.{Dialect, Limits, Analysis}
use eino_agent_extensions.CommandGuard.Match.{
  Policy, CommandRun, ScriptRun, base_name, match_rules, wrapper_names, builtin, skip_flags,
  shell_script, shell, wrapped, wrapper, unmatched, matched, match_command, command_with,
  dialect_of, next_known, ends_with_slash,
}
use eino_agent_extensions.CommandGuard.Walk.{
  Shell, valid_text, parse_masked, script, command_at, analyse,
}
use eino_agent_extensions.CommandGuard.Walk.Bounds.{Within, Fine, parsed-Fine}

module _ (sh : Shell) (l : Limits) (command : CommandRun) (wrappers : ℕ)
    (runs : (a : Analysis) (ws : List Word) (depth : ℕ)
      → Within l a
      → Fine l (command a ws depth wrappers)) where
  parse_masked-Fine :
      (s : Bytes) (m : Option (Bytes × ℕ)) (dialect : Dialect) (base_depth : ℕ) (a : Analysis)
      → Masked s m
      → Within l a
      → (a.bytes + length s) ≤ l.max_analysis_bytes
      → Fine l (parse_masked sh l command m dialect base_depth wrappers a)
  unfolding parse_masked
  parse_masked-Fine s none dialect base_depth a masked h room = (h, tt)
  parse_masked-Fine s (some (t, carriage)) dialect base_depth a masked h room =
      let within : Within l (record a { bytes = a.bytes + length t }) =
        (omega (arith, masked.1, room), h.1, h.2) in
      by_cases (Fine l) (poll (sh.parse a.ctx t dialect).0).0 _ _ (λ _. (within, tt))
        λ _.
          parsed-Fine sh l command carriage wrappers runs (sh.parse a.ctx t dialect).1 base_depth _
            within

  script-Fine :
      (a : Analysis) (s : Bytes) (dialect : Dialect) (base_depth : ℕ)
      → Within l a
      → Fine l (script sh l command a s dialect base_depth wrappers)
  unfolding script
  script-Fine a s dialect base_depth h =
      by_cases (Fine l) (poll a.ctx).0 _ _ (λ _. (h, tt))
        λ _.
          by_cases (Fine l)
            (ltb l.max_command_bytes (length s)
              || ltb l.max_analysis_bytes (a.bytes + length s)
              || leb l.max_ast_depth base_depth)
            _ _ (λ _. (h, tt))
            λ room.
              by_cases (Fine l) (not (valid_text sh s)) _ _ (λ _. (h, tt))
                λ _.
                  parse_masked-Fine s (mask_carriage_returns s) dialect base_depth _
                    (mask_carriage_returns-Masked s) h (ground arith)

-- One command, where what it runs keeps to the limits.
module _ (l : Limits) (again : CommandRun) (nested : ScriptRun) (wrappers : ℕ)
    (runs : wrappers < l.max_wrapper_depth
      → (a : Analysis) (ws : List Word) (depth : ℕ) → Within l a
      → Fine l (again a ws depth (wrappers + 1)))
    (scripts : wrappers < l.max_wrapper_depth
      → (a : Analysis) (s : Bytes) (dialect : Dialect) (depth : ℕ) → Within l a
      → Fine l (nested a s dialect depth (wrappers + 1))) where
  shell_script-Fine :
      wrappers < l.max_wrapper_depth
      → (name : Bytes) (a : Analysis) (ws : List Word) (depth : ℕ) → Within l a
      → Fine l (shell_script nested name a ws depth (wrappers + 1))
  unfolding shell_script
  shell_script-Fine deep name a [] depth h = (h, tt)
  shell_script-Fine deep name a (c ∷ []) depth h = (h, tt)
  shell_script-Fine deep name a (c ∷ s ∷ rest) depth h =
      by_cases (Fine l)
        (not c.known
          || not (bytes_eq c.text (codes "-c") || bytes_eq c.text (codes "-lc"))
          || not s.known
          || has_prefix s.text (codes "-")
          || has_prefix s.text (codes "+")
          || not (next_known rest))
        _ _ (λ _. (h, tt)) (λ _. scripts deep a s.text (dialect_of name) depth h)

  wrapped-Fine :
      wrappers < l.max_wrapper_depth
      → (name : Bytes) (a : Analysis) (scanned : Scanned) (depth : ℕ) → Within l a
      → Fine l (wrapped again name a scanned depth (wrappers + 1))
  unfolding wrapped
  wrapped-Fine deep name a (refused o) depth h = (h, tt)
  wrapped-Fine deep name a faulted depth h = (h, tt)
  wrapped-Fine deep name a (remaining []) depth h = (h, tt)
  wrapped-Fine deep name a (remaining (w ∷ ws)) depth h = runs deep a (w ∷ ws) (depth + 1) h

  wrapper-Fine :
      (a : Analysis) (name : Bytes) (args : List Word) (depth : ℕ)
      → Within l a
      → Fine l (wrapper again nested l a name args depth wrappers)
  unfolding wrapper shell
  wrapper-Fine a name args depth h =
      by_cases (Fine l) (not (one_of name wrapper_names)) _ _ (λ _. (h, tt))
        λ _.
          by_cases (Fine l) (leb l.max_wrapper_depth wrappers || leb l.max_ast_depth depth) _ _
            (λ _. (h, tt))
            λ room.
              by_cases (Fine l) (bytes_eq name (codes "sh") || bytes_eq name (codes "bash")) _ _
                (λ _. shell_script-Fine (ground arith) name a (skip_flags args) (depth + 1) h)
                (λ _.
                  wrapped-Fine (ground arith) name _ (wrapper_arguments a.ctx name args).1 depth h)

  unmatched-Fine :
      (a : Analysis) (name : Bytes) (args : List Word) (depth : ℕ) (o : Outcome)
      → Within l a
      → Fine l (unmatched again nested l a name args depth wrappers o)
  unfolding unmatched
  unmatched-Fine a name args depth abstain h = wrapper-Fine a name args depth h
  unmatched-Fine a name args depth _ h = (h, tt)

  matched-Fine :
      (a : Analysis) (name : Bytes) (args : List Word) (depth : ℕ) (o : Outcome)
      → Within l a
      → Fine l (matched again nested l a name args depth wrappers o)
  unfolding matched
  matched-Fine a name args depth abstain h = unmatched-Fine a name args depth (builtin name args) h
  matched-Fine a name args depth _ h = (h, tt)

  command_with-Fine :
      (p : Policy)
      → p.limits ≡ l
      → (a : Analysis) (words : List Word) (depth : ℕ) → Within l a
      → Fine l (command_with again nested p a words depth wrappers)
  unfolding command_with match_command
  command_with-Fine p same a [] depth h =
      by_cases (Fine l) (poll a.ctx).0 _ _ (λ _. (h, tt)) (λ _. (h, tt))
  command_with-Fine p same a (w ∷ args) depth h =
      by_cases (Fine l) (poll a.ctx).0 _ _ (λ _. (h, tt))
        λ _.
          by_cases (Fine l) (not w.known || bytes_eq w.text [] || ends_with_slash w.text) _ _
            (λ _. (h, tt))
            λ _. rw (same) (
              matched-Fine _ (base_name w.text) args depth
                (match_rules (poll a.ctx).1 p.rules (base_name w.text) args).1 h)

command_at-Fine :
    (sh : Shell) (p : Policy) (fuel : ℕ) (a : Analysis) (words : List Word) (depth wrappers : ℕ)
    → wrappers ≤ p.limits.max_wrapper_depth
    → p.limits.max_wrapper_depth < (wrappers + fuel)
    → Within p.limits a
    → Fine p.limits (command_at fuel sh p a words depth wrappers)
unfolding command_at
command_at-Fine sh p zero a words depth wrappers low enough h = absurd (omega (arith, low, enough))
command_at-Fine sh p (suc fuel) a words depth wrappers low enough h =
    command_with-Fine p.limits (command_at fuel sh p) (script sh p.limits (command_at fuel sh p))
      wrappers
      (λ deep b ws d.
        command_at-Fine sh p fuel b ws d (wrappers + 1) (omega (arith, deep))
          (omega (arith, enough)))
      (λ deep b s dialect d.
        script-Fine sh p.limits (command_at fuel sh p) (wrappers + 1)
          (λ c ws e.
            command_at-Fine sh p fuel c ws e (wrappers + 1) (omega (arith, deep))
              (omega (arith, enough)))
          b s dialect d)
      p refl a words depth h

-- Whatever the parser returns, the analysis of a command ends, in a verdict of the code or a panic,
-- with a fuel of one more than the bound on wrappers; the bytes, nodes and words that it has counted
-- by then, those of all nested scripts included, are within the limits of the policy.
pub analyse-Fine :
    (sh : Shell) (p : Policy) (ctx : Ctx) (s : Bytes) (dialect : Dialect)
    → Fine p.limits (analyse sh p ctx s dialect)
unfolding analyse
analyse-Fine sh p ctx s dialect =
    script-Fine sh p.limits (command_at (p.limits.max_wrapper_depth + 1) sh p) 0
      (λ a ws depth.
        command_at-Fine sh p (p.limits.max_wrapper_depth + 1) a ws depth 0 (omega arith)
          (omega arith))
      _ s dialect 0 (omega arith, omega arith, omega arith)
