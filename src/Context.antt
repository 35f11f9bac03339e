-- ===== src/Context.antt =====
-- A `context.Context` as its users see it: `Err` may be asked any number of times, and once it has
-- an error it keeps it. `until n` is a context that ends after `n` more questions.
use eino_agent_extensions.Prelude.{ℕ, zero, suc, Bool, true, false}

pub data Ctx : Type 0 where
  endless : Ctx
  until : ℕ → Ctx

-- `ctx.Err() != nil`, and the context from then on.
abbrev pub poll : Ctx → Bool × Ctx
poll endless = (false, endless)
poll (until zero) = (true, until zero)
poll (until (suc n)) = (false, until n)
