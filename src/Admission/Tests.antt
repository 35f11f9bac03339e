-- ===== src/Admission/Tests.antt =====
-- Runs of a coordinator with two places.
use eino_agent_extensions.Prelude.{ℕ, ◌≡◌, refl, ◌≤◌, ◌⊎◌, true, none, List, [], ◌∷◌, ◌++◌, arith}
use eino_agent_extensions.Admission.{
  Coordinator, new_coordinator, contains, acquire, close, Call, acquires, releases, closes, run,
}
use eino_agent_extensions.Admission.Invariant.{Inv, run-new-Inv}
use eino_agent_extensions.Admission.Drain.{close_refuses, close_drains, releases_id}

abbrev calls : List Call
calls = acquires ∷ acquires ∷ acquires ∷ releases 1 ∷ acquires ∷ []

abbrev busy : Coordinator
busy = run (new_coordinator 2) calls

busy_ids : (busy.cancels ≡ 2 ∷ 3 ∷ []) × (busy.live ≡ 2)
unfolding run new_coordinator
busy_ids = (refl, refl)

closed_down :
    let d = run busy (closes ∷ releases 3 ∷ releases 2 ∷ acquires ∷ []) in
    (d.closed ≡ true) × (d.canceled ≡ 2 ∷ 3 ∷ []) × (d.live ≡ 0)
unfolding run new_coordinator
closed_down = (refl, refl, refl)

run-new-Inv_example : Inv busy
run-new-Inv_example = run-new-Inv 2 calls (omega arith)

close_refuses_example :
    (acquire (run (close busy) (releases 2 ∷ [])) ≡ (run (close busy) (releases 2 ∷ []), none))
    × ((run (close busy) (releases 2 ∷ [])).live ≤ busy.live)
close_refuses_example = close_refuses busy (releases 2 ∷ []) (run-new-Inv 2 calls (omega arith))

-- The newer operation releases first, and a call that comes too late stands between.
abbrev departures : List Call
departures = releases 3 ∷ acquires ∷ releases 2 ∷ []

departures_cover : (j : ℕ) → contains j busy.cancels ≡ true → releases_id j departures ≡ true
unfolding run new_coordinator
departures_cover j h = ground arith

close_drains_example :
    let d = run (close busy) departures in
    (d.closed ≡ true)
    × (d.done ≡ true)
    × (d.live ≡ 0)
    × ((busy.closed ≡ true) ⊎ ((close busy).canceled ≡ busy.canceled ++ busy.cancels))
close_drains_example =
    close_drains busy departures (run-new-Inv 2 calls (omega arith)) departures_cover
