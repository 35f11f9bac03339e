-- ===== src/Admission.antt =====
-- Admission to a bounded coordinator: `acquire`, `release` and `Close` of askuser/coordinator.go,
-- which delegatetask/coordinator.go and websearch/coordinator.go repeat word for word.
-- Each section under the mutex is one step. A cancel function is known by the id it is registered
-- under; `canceled` lists the ids whose functions `Close` has called, newest last.
-- `done` says whether the channel of that name is closed.
pub mod Invariant
pub mod Drain
mod Tests
use eino_agent_extensions.Prelude.{
  ℕ, ◌+◌, ◌-◌, ◌%◌, ◌^◌, ◌≡◌, Bool, true, false, ◌&&◌, ◌||◌, Option, none, some, List, [], ◌∷◌,
  ◌++◌, leb, ◌==◌, if◌then◌else◌,
}

pub record Coordinator : Type 0 where
  pub max_in_flight : ℕ
  pub closing : Bool
  pub closed : Bool
  pub live : ℕ
  pub next_id : ℕ
  pub cancels : List ℕ
  pub canceled : List ℕ
  pub done : Bool

unfoldable pub new_coordinator : ℕ → Coordinator
new_coordinator max_in_flight = record {
  max_in_flight = max_in_flight;
  closing = false;
  closed = false;
  live = 0;
  next_id = 0;
  cancels = [];
  canceled = [];
  done = false;
}

abbrev pub contains : ℕ → List ℕ → Bool
contains i [] = false
contains i (w ∷ ws) = if w == i then true else contains i ws

-- `cancels[id] = cancel`, by the keys of the map.
unfoldable pub insert_key : ℕ → List ℕ → List ℕ
insert_key i ws = if contains i ws then ws else ws ++ i ∷ []

unfoldable pub delete_key : ℕ → List ℕ → List ℕ
delete_key i [] = []
delete_key i (w ∷ ws) = if w == i then ws else w ∷ delete_key i ws

-- The identifiers are uint64 and wrap.
abbrev pub id_mod : ℕ
id_mod = 2 ^ 64

-- The part of `acquire` behind its guard.
unfoldable pub register : Coordinator → Coordinator × ℕ
unfolding insert_key
register c =
    let id = (c.next_id + 1) % id_mod in
    (record c { next_id = id; live = c.live + 1; cancels = insert_key id c.cancels }, id)

unfoldable pub acquire : Coordinator → Coordinator × Option ℕ
unfolding register
acquire c =
    if c.closing || c.closed || leb c.max_in_flight c.live
    then (c, none)
    else (let (c', id) = register c in (c', some id))

-- The last lines of `release` and of `Close`: `doneOnce` closes the channel.
unfoldable pub settle : Coordinator → Coordinator
settle c = if c.closing && c.live == 0 then record c { closed = true; done = true } else c

unfoldable pub release : Coordinator → ℕ → Coordinator
unfolding delete_key settle
release c id = settle (
    if contains id c.cancels
    then record c { cancels = delete_key id c.cancels; live = c.live - 1 }
    else c)

-- The state in which `Close` has stopped admission and called every registered cancel function.
abbrev pub shutting : Coordinator → Coordinator
shutting c = record c { closing = true; canceled = c.canceled ++ c.cancels }

-- `Close` up to its wait for `done`.
unfoldable pub close : Coordinator → Coordinator
unfolding settle
close c = if c.closed then c else settle (shutting c)

-- What goroutines do to one coordinator, in any order.
pub data Call : Type 0 where
  acquires : Call
  releases : ℕ → Call
  closes : Call

unfoldable pub step : Coordinator → Call → Coordinator
unfolding acquire release close
step c acquires = (acquire c).0
step c (releases id) = release c id
step c closes = close c

unfoldable pub run : Coordinator → List Call → Coordinator
unfolding step
run c [] = c
run c (x ∷ xs) = run (step c x) xs
