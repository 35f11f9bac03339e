-- ===== src/PythonRepl/Gate.antt =====
-- pythonrepl/session.go: the gate that admits one operation of an owner at a time and queues a
-- bounded number behind it. Every section of code under the gate's mutex is one step.
-- A caller is a number. `phase` is what its goroutine has reached, with the waiter's `granted` flag;
-- closing `ready` and setting `granted` are one step under the mutex, so `granted` stands for both.
pub mod Exclusion
mod Tests
use eino_agent_extensions.Prelude.{
  ℕ, ◌≡◌, Bool, true, false, List, [], ◌∷◌, ◌++◌, length, leb, ◌==◌, if◌then◌else◌,
}

pub record OperationGate : Type 0 where
  pub active : Bool
  pub waiters : List ℕ
  pub maximum : ℕ

unfoldable pub new_operation_gate : ℕ → OperationGate
new_operation_gate maximum = record { active = false; waiters = []; maximum = maximum }

pub data Phase : Type 0 where
  idle waiting granted holding : Phase

pub record System : Type 0 where
  pub gate : OperationGate
  pub phase : ℕ → Phase

unfoldable pub set_phase : (ℕ → Phase) → ℕ → Phase → ℕ → Phase
set_phase f i p j = if j == i then p else f j

pub data Acquired : Type 0 where
  entered queue_full queued : Acquired

-- `acquire` up to the `select`.
unfoldable pub acquire_enter : System → ℕ → System × Acquired
unfolding set_phase
acquire_enter s i =
    if s.gate.active
    then (if leb s.gate.maximum (length s.gate.waiters) then (s, queue_full) else (
      record {
        gate = record {
          active = s.gate.active;
          waiters = s.gate.waiters ++ i ∷ [];
          maximum = s.gate.maximum;
        };
        phase = set_phase s.phase i waiting;
      },
      queued,
    ))
    else (
      record {
        gate = record { active = true; waiters = s.gate.waiters; maximum = s.gate.maximum };
        phase = set_phase s.phase i holding;
      },
      entered,
    )

-- `release`, by the list of waiters: the first is granted the gate, which stays active.
release_waiters : List ℕ → ℕ → (ℕ → Phase) → System
unfolding set_phase
release_waiters [] maximum phase = record {
  gate = record { active = false; waiters = []; maximum = maximum };
  phase = phase;
}
release_waiters (w ∷ rest) maximum phase = record {
  gate = record { active = true; waiters = rest; maximum = maximum };
  phase = set_phase phase w granted;
}

-- `release` by caller `i`, which is then done with the gate.
unfoldable pub release : System → ℕ → System
unfolding release_waiters set_phase
release s i = release_waiters s.gate.waiters s.gate.maximum (set_phase s.phase i idle)

-- The case `<-waiter.ready`: a caller whose context has ended gives the gate on at once.
unfoldable pub acquire_ready : System → ℕ → Bool → System
unfolding release set_phase
acquire_ready s i canceled =
    if canceled then release s i else record s { phase = set_phase s.phase i holding }

unfoldable pub without : ℕ → List ℕ → List ℕ
without i [] = []
without i (w ∷ ws) = if w == i then ws else w ∷ without i ws

withdraw : Phase → System → ℕ → System
unfolding release set_phase without
withdraw granted s i = release s i
withdraw _ s i = record {
  gate = record {
    active = s.gate.active;
    waiters = without i s.gate.waiters;
    maximum = s.gate.maximum;
  };
  phase = set_phase s.phase i idle;
}

-- The case `<-ctx.Done()`: a grant that raced with it is given on, else the waiter leaves the queue.
unfoldable pub acquire_canceled : System → ℕ → System
unfolding withdraw
acquire_canceled s i = withdraw (s.phase i) s i

-- What the callers of one gate can do, in any order.
pub data Step (s : System) : System → Type 0 where
  enters : (i : ℕ) → s.phase i ≡ idle → Step s (acquire_enter s i).0
  readies : (i : ℕ) (canceled : Bool) → s.phase i ≡ granted → Step s (acquire_ready s i canceled)
  cancels_waiting : (i : ℕ) → s.phase i ≡ waiting → Step s (acquire_canceled s i)
  cancels_granted : (i : ℕ) → s.phase i ≡ granted → Step s (acquire_canceled s i)
  leaves : (i : ℕ) → s.phase i ≡ holding → Step s (release s i)

pub data Reach (s : System) : System → Type 0 where
  here : Reach s s
  next : {t u : System} → Reach s t → Step t u → Reach s u

unfoldable pub start : ℕ → System
unfolding new_operation_gate
start maximum = record { gate = new_operation_gate maximum; phase = λ _. idle }
