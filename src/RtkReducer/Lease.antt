-- ===== src/RtkReducer/Lease.antt =====
-- The coordinator and the leases of rtkreducer/process.go. Each critical section, and each send to or
-- receive from the channel of slots, is one step; a goroutine between two of them is counted by what
-- it has left to do.
--
-- A lease holds its slot until it is released and the owners of its processes are done. The caller
-- holds a lease only before it releases it, as `reduce` runs inside the call that has the lease.
pub mod Counts
pub mod Tests
use eino_agent_extensions.Prelude.{
  ℕ, zero, suc, ◌+◌, ◌-◌, ◌≤◌, ◌<◌, ◌≡◌, Bool, true, false, ◌&&◌, ◌||◌, not, Option, none, some,
  List, [], ◌∷◌, ◌++◌, get_elem?, ltb, ◌==◌, if◌then◌else◌,
}

pub record EngineLease : Type 0 where
  pub pending : ℕ
  pub released : Bool

-- `entering` has sent to the slots and has not come to the mutex, `finishing` is about to call
-- finishOwner, `leaving` about to receive from the slots, `cleaning` is in Close behind its wait.
pub record Coordinator : Type 0 where
  pub closing : Bool
  pub closed : Bool
  pub quarantined : Bool
  pub active : ℕ
  pub slots : ℕ
  pub leases : List EngineLease
  pub entering : ℕ
  pub finishing : ℕ
  pub leaving : ℕ
  pub cleaning : ℕ

unfoldable pub new_coordinator : Coordinator
new_coordinator = record {
  closing = false;
  closed = false;
  quarantined = false;
  active = 0;
  slots = 0;
  leases = [];
  entering = 0;
  finishing = 0;
  leaving = 0;
  cleaning = 0;
}

unfoldable pub hold : EngineLease → EngineLease
hold l = record l { pending = l.pending + 1 }

-- The lease, and whether it is to give its slot back.
unfoldable pub owner_done : EngineLease → EngineLease × Bool
owner_done l =
    let pending = l.pending - 1 in (record l { pending = pending }, l.released && pending == 0)

unfoldable pub release : EngineLease → EngineLease × Bool
release l = if l.released then (l, false) else (record l { released = true }, l.pending == 0)

-- The select of `acquire`: a slot is taken where there is one, and nothing waits.
unfoldable pub reserve : ℕ → Coordinator → Coordinator
reserve max_concurrent c =
    if ltb c.slots max_concurrent
    then record c { slots = c.slots + 1; entering = c.entering + 1 }
    else c

-- `acquire` under the mutex.
unfoldable pub admit : Coordinator → Coordinator
admit c =
    if c.closing || c.closed || c.quarantined
    then record c { entering = c.entering - 1; leaving = c.leaving + 1 }
    else record c {
      entering = c.entering - 1;
      active = c.active + 1;
      leases = c.leases ++ record { pending = 0; released = false } ∷ [];
    }

abbrev pub set_at : ℕ → EngineLease → List EngineLease → List EngineLease
set_at i l [] = []
set_at zero l (k ∷ ks) = l ∷ ks
set_at (suc i) l (k ∷ ks) = k ∷ set_at i l ks

-- What a lease became, with the call of finishOwner that may follow.
unfoldable pub put_lease : ℕ → EngineLease × Bool → Coordinator → Coordinator
put_lease i (l, gives_back) c = record c {
  leases = set_at i l c.leases;
  finishing = (if gives_back then c.finishing + 1 else c.finishing);
}

unfoldable pub finish_owner : Coordinator → Coordinator
finish_owner c = record c {
  active = c.active - 1;
  finishing = c.finishing - 1;
  leaving = c.leaving + 1;
}

unfoldable pub release_slot : Coordinator → Coordinator
release_slot c = record c { slots = c.slots - 1; leaving = c.leaving - 1 }

-- A turn of the loop of `Close`: it returns, waits, or goes on to clean up.
unfoldable pub begin_close : Coordinator → Coordinator
begin_close c = if c.closed then c else record c {
  closing = true;
  cleaning = (if c.active == 0 then c.cleaning + 1 else c.cleaning);
}

-- The end of `Close`, by whether all is removed.
unfoldable pub finish_close : Bool → Coordinator → Coordinator
finish_close removed c =
    if c.closed
    then record c { cleaning = c.cleaning - 1 }
    else if removed
    then record c { closed = true; cleaning = c.cleaning - 1 }
    else record c { quarantined = true; cleaning = c.cleaning - 1 }

-- `lazyRoot` on a failure.
unfoldable pub quarantine : Coordinator → Coordinator
quarantine c = if c.closing || c.closed || c.quarantined then c else record c { quarantined = true }

pub data Step (max_concurrent : ℕ) : Coordinator → Coordinator → Type 0 where
  reserves : (c : Coordinator) → Step max_concurrent c (reserve max_concurrent c)
  admits : (c : Coordinator) → 0 < c.entering → Step max_concurrent c (admit c)
  holds :
      (c : Coordinator) (i : ℕ) (l : EngineLease)
      → get_elem? c.leases i ≡ some l
      → l.released ≡ false
      → Step max_concurrent c (put_lease i (hold l, false) c)
  owner_ends :
      (c : Coordinator) (i : ℕ) (l : EngineLease)
      → get_elem? c.leases i ≡ some l
      → 0 < l.pending
      → Step max_concurrent c (put_lease i (owner_done l) c)
  releases :
      (c : Coordinator) (i : ℕ) (l : EngineLease)
      → get_elem? c.leases i ≡ some l
      → Step max_concurrent c (put_lease i (release l) c)
  finishes : (c : Coordinator) → 0 < c.finishing → Step max_concurrent c (finish_owner c)
  frees : (c : Coordinator) → 0 < c.leaving → Step max_concurrent c (release_slot c)
  quarantines : (c : Coordinator) → Step max_concurrent c (quarantine c)
  closes : (c : Coordinator) → Step max_concurrent c (begin_close c)
  cleans :
      (c : Coordinator) (removed : Bool)
      → 0 < c.cleaning
      → Step max_concurrent c (finish_close removed c)

pub data Reaches (max_concurrent : ℕ) : Coordinator → Type 0 where
  start : Reaches max_concurrent new_coordinator
  more :
      (c d : Coordinator)
      → Reaches max_concurrent c
      → Step max_concurrent c d
      → Reaches max_concurrent d
