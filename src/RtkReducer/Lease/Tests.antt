-- ===== src/RtkReducer/Lease/Tests.antt =====
-- A lease that is released while its process still runs, and Close behind it.
use eino_agent_extensions.Prelude.{◌≡◌, refl, true, false, arith}
use eino_agent_extensions.RtkReducer.Lease.{
  EngineLease, Coordinator, new_coordinator, hold, owner_done, release, reserve, admit, put_lease,
  finish_owner, release_slot, begin_close, finish_close, reserves, admits, holds, releases, Reaches,
  start, more,
}
use eino_agent_extensions.RtkReducer.Lease.Counts.{Inv, Reaches-Inv}

abbrev fresh : EngineLease
fresh = record { pending = 0; released = false }

abbrev held : EngineLease
held = record { pending = 1; released = false }

abbrev after_entry : Coordinator
after_entry = reserve 1 new_coordinator

abbrev leased : Coordinator
leased = put_lease 0 (hold fresh, false) (admit after_entry)

abbrev let_go : Coordinator
let_go = put_lease 0 (release held) leased

let_go-Reaches : Reaches 1 let_go
unfolding new_coordinator reserve admit put_lease hold
let_go-Reaches =
    more leased let_go
      (more (admit after_entry) leased
        (more after_entry (admit after_entry)
          (more new_coordinator after_entry start (reserves new_coordinator))
          (admits after_entry (omega arith)))
        (holds (admit after_entry) 0 fresh refl refl))
      (releases leased 0 held refl)

Reaches-Inv_example : Inv 1 let_go
Reaches-Inv_example = Reaches-Inv 1 let_go let_go-Reaches

-- The slot is kept for the process, and no other caller gets one.
still_taken : (let_go.slots ≡ 1) × (reserve 1 let_go ≡ let_go)
unfolding new_coordinator reserve admit put_lease hold release
still_taken = (refl, refl)

abbrev after_exit : Coordinator
after_exit = put_lease 0 (owner_done (record { pending = 1; released = true })) let_go

given_back : (release_slot (finish_owner after_exit)).slots ≡ 0
unfolding new_coordinator reserve admit put_lease hold release owner_done finish_owner release_slot
given_back = refl

-- Close waits while the lease is active, and closes behind it.
closed_behind :
    ((begin_close let_go).cleaning ≡ 0)
    × ((finish_close true (begin_close (release_slot (finish_owner after_exit)))).closed ≡ true)
unfolding new_coordinator reserve admit put_lease hold release owner_done finish_owner release_slot
    begin_close finish_close
closed_behind = (refl, refl)
