-- ===== src/CommandGuard/Guard/Laws.antt =====
-- commandguard/guard.go: the calls that pass.
use eino_agent_extensions.Prelude.{◌≤◌, ◌≡◌, true, Option, none, some, Bytes, length}
use eino_agent_extensions.Context.{Ctx}
use eino_agent_extensions.CommandGuard.Words.{abstain}
use eino_agent_extensions.CommandGuard.Match.{Policy, says}
use eino_agent_extensions.CommandGuard.Walk.{Shell, valid_text, analyse}
use eino_agent_extensions.CommandGuard.Walk.Sound.{ClearedScript}
use eino_agent_extensions.CommandGuard.Input.{Decoder, input}
use eino_agent_extensions.CommandGuard.Guard.{Binding}

module _ {S : Type 0} (sh : Shell) (d : Decoder S) (p : Policy) where
  -- What is known of a request that passes under a binding: the walk over its input, in the context
  -- of the call, denies nothing and has found a command, and the analysis lets this command pass.
  abbrev pub Vetted : Ctx → Bytes → Binding → Type 0
  Vetted ctx raw b =
      let read = input d (valid_text sh) p.limits b.command_field ctx raw in
      (read.1 ≡ says abstain)
      × (read.0.found ≡ true)
      × (valid_text sh read.0.command ≡ true)
      × (length read.0.command ≤ p.limits.max_command_bytes)
      × ((analyse sh p read.0.ctx read.0.command b.dialect).1 ≡ says abstain)
      × ClearedScript sh p b.dialect read.0.command

  -- What lets a request pass: no binding for its tool, or a vetted command.
  abbrev pub Passes : Ctx → Bytes → Option Binding → Type 0
  Passes ctx raw none = Unit {0}
  Passes ctx raw (some b) = Vetted ctx raw b
