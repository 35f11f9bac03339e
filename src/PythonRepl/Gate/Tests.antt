-- ===== src/PythonRepl/Gate/Tests.antt =====
-- A gate with room for one waiter, and the laws at a state where caller 2 waits behind caller 1.
use eino_agent_extensions.Prelude.{ℕ, ◌≡◌, refl, ◌≤◌, true, false, length}
use eino_agent_extensions.PythonRepl.Gate.{
  System, Reach, here, next, enters, queue_full, start, acquire_enter, release, acquire_canceled,
}
use eino_agent_extensions.PythonRepl.Gate.Exclusion.{owns, contains, gate_exclusive, no_lost_wakeup}

abbrev contended : System
contended = (acquire_enter (acquire_enter (start 1) 1).0 2).0

contended-Reach : Reach (start 1) contended
unfolding start acquire_enter
contended-Reach = next (next here (enters 1 refl)) (enters 2 refl)

full : (acquire_enter contended 3).1 ≡ queue_full
unfolding acquire_enter start
full = refl

-- A grant that races with cancellation is given on: the gate is free again.
raced : (acquire_canceled (release contended 1) 2).gate.active ≡ false
unfolding acquire_canceled release acquire_enter start
raced = refl

gate_exclusive_example : ◌≡◌ {A = ℕ} 1 1 × (length contended.gate.waiters ≤ contended.gate.maximum)
unfolding start acquire_enter
gate_exclusive_example = gate_exclusive 1 contended 1 1 contended-Reach refl refl

no_lost_wakeup_example :
    ((o : ℕ) × (owns (contended.phase o) ≡ true)) × (contains 2 contended.gate.waiters ≡ true)
unfolding start acquire_enter
no_lost_wakeup_example = no_lost_wakeup 1 contended 2 contended-Reach refl
