-- ===== src/RtkReducer/Lease/Counts.antt =====
-- The counters of rtkreducer/process.go, in every state that the coordinator reaches.
use eino_agent_extensions.Prelude.{
  ℕ, zero, suc, ◌+◌, ◌-◌, ◌≤◌, ◌<◌, ◌≡◌, refl, ap, Bool, true, false, ◌&&◌, ◌||◌, not, some, List,
  [], ◌∷◌, ◌++◌, get_elem?, ltb, ◌==◌, if◌then◌else◌, by_cases, arith,
}
use eino_agent_extensions.RtkReducer.Lease.{
  EngineLease, Coordinator, new_coordinator, hold, owner_done, release, reserve, admit, set_at,
  put_lease, finish_owner, release_slot, begin_close, finish_close, quarantine, Step, reserves,
  admits, holds, owner_ends, releases, finishes, frees, quarantines, closes, cleans, Reaches, start,
  more,
}

-- A lease that still has its slot.
abbrev pub is_live : EngineLease → Bool
is_live l = not (l.released && l.pending == 0)

abbrev pub one_if : Bool → ℕ
one_if true = 1
one_if false = 0

abbrev pub live_leases : List EngineLease → ℕ
live_leases [] = 0
live_leases (l ∷ ls) = one_if (is_live l) + live_leases ls

live_leases-append :
    (ls : List EngineLease) (l : EngineLease)
    → live_leases (ls ++ l ∷ []) ≡ live_leases ls + one_if (is_live l)
live_leases-append [] l = omega arith
live_leases-append (k ∷ ks) l = omega (arith, live_leases-append ks l)

live_leases-set_at :
    (ls : List EngineLease) (i : ℕ) (l m : EngineLease)
    → get_elem? ls i ≡ some l
    → (live_leases (set_at i m ls) + one_if (is_live l)) ≡ (live_leases ls + one_if (is_live m))
live_leases-set_at [] i l m h = cc
live_leases-set_at (k ∷ ks) zero l m h =
    let same : k ≡ l = cc in
    let e : one_if (is_live k) ≡ one_if (is_live l) = ap (λ x. one_if (is_live x)) same in
    omega (arith, e)
live_leases-set_at (k ∷ ks) (suc i) l m h = omega (arith, live_leases-set_at ks i l m h)

pub record Inv (max_concurrent : ℕ) (c : Coordinator) : Type 0 where
  pub leased : c.active ≡ (live_leases c.leases + c.finishing)
  pub slotted : c.slots ≡ (c.entering + c.active + c.leaving)
  pub bounded : c.slots ≤ max_concurrent
  pub cleaned : 0 < c.cleaning → (c.active ≡ 0) × (c.closing ≡ true)
  pub shut : c.closed ≡ true → (c.active ≡ 0) × (c.closing ≡ true)

module _ (max_concurrent : ℕ) where
  new_coordinator-Inv : Inv max_concurrent new_coordinator
  unfolding new_coordinator
  new_coordinator-Inv = record {
    leased = refl;
    slotted = refl;
    bounded = omega arith;
    cleaned = λ e. absurd (omega arith);
    shut = λ e. cc;
  }

  reserve-Inv :
      (c : Coordinator) → Inv max_concurrent c → Inv max_concurrent (reserve max_concurrent c)
  unfolding reserve
  reserve-Inv c v =
      by_cases (Inv max_concurrent) (ltb c.slots max_concurrent)
        (record c { slots = c.slots + 1; entering = c.entering + 1 }) c
        (λ room. record {
          leased = v.leased;
          slotted = omega (arith, v.slotted);
          bounded = ground arith;
          cleaned = v.cleaned;
          shut = v.shut;
        })
        (λ _. v)

  admit-Inv :
      (c : Coordinator) → 0 < c.entering → Inv max_concurrent c → Inv max_concurrent (admit c)
  unfolding admit
  admit-Inv c enters v =
      let fresh : EngineLease = record { pending = 0; released = false } in
      by_cases (Inv max_concurrent) (c.closing || c.closed || c.quarantined)
        (record c { entering = c.entering - 1; leaving = c.leaving + 1 })
        (record c {
          entering = c.entering - 1;
          active = c.active + 1;
          leases = c.leases ++ fresh ∷ [];
        })
        (λ _. record {
          leased = v.leased;
          slotted = omega (arith, v.slotted, enters);
          bounded = v.bounded;
          cleaned = v.cleaned;
          shut = v.shut;
        })
        (λ is_open. record {
          leased = omega (arith, v.leased, live_leases-append c.leases fresh);
          slotted = omega (arith, v.slotted, enters);
          bounded = v.bounded;
          cleaned = λ e. ground (arith, v.cleaned e);
          shut = λ e. ground (arith, v.shut e);
        })

  -- A lease that is put back in its place, and gives its slot back if it was live and is not.
  put_lease-Inv :
      (c : Coordinator) (i : ℕ) (l m : EngineLease) (gives_back : Bool)
      → get_elem? c.leases i ≡ some l
      → one_if (is_live l) ≡ (one_if (is_live m) + one_if gives_back)
      → Inv max_concurrent c
      → Inv max_concurrent (put_lease i (m, gives_back) c)
  unfolding put_lease
  put_lease-Inv c i l m true at e v = record {
    leased = omega (arith, v.leased, e, live_leases-set_at c.leases i l m at);
    slotted = v.slotted;
    bounded = v.bounded;
    cleaned = v.cleaned;
    shut = v.shut;
  }
  put_lease-Inv c i l m false at e v = record {
    leased = omega (arith, v.leased, e, live_leases-set_at c.leases i l m at);
    slotted = v.slotted;
    bounded = v.bounded;
    cleaned = v.cleaned;
    shut = v.shut;
  }

  hold_lem :
      (l : EngineLease) → l.released ≡ false → one_if (is_live l) ≡ (one_if (is_live (hold l)) + 0)
  unfolding hold
  hold_lem l h = ground arith

  owner_done_lem :
      (l : EngineLease)
      → 0 < l.pending
      → one_if (is_live l) ≡ (one_if (is_live (owner_done l).0) + one_if (owner_done l).1)
  unfolding owner_done
  owner_done_lem l h = ground arith

  release_lem :
      (l : EngineLease)
      → one_if (is_live l) ≡ (one_if (is_live (release l).0) + one_if (release l).1)
  unfolding release
  release_lem l = ground arith

  finish_owner-Inv :
      (c : Coordinator)
      → 0 < c.finishing
      → Inv max_concurrent c
      → Inv max_concurrent (finish_owner c)
  unfolding finish_owner
  finish_owner-Inv c h v = record {
    leased = omega (arith, v.leased, h);
    slotted = omega (arith, v.leased, v.slotted, h);
    bounded = v.bounded;
    cleaned = λ e. absurd (omega (arith, (v.cleaned e).0, v.leased, h));
    shut = λ e. absurd (omega (arith, (v.shut e).0, v.leased, h));
  }

  release_slot-Inv :
      (c : Coordinator) → 0 < c.leaving → Inv max_concurrent c → Inv max_concurrent (release_slot c)
  unfolding release_slot
  release_slot-Inv c h v = record {
    leased = v.leased;
    slotted = omega (arith, v.slotted, h);
    bounded = omega (arith, v.bounded);
    cleaned = v.cleaned;
    shut = v.shut;
  }

  quarantine-Inv : (c : Coordinator) → Inv max_concurrent c → Inv max_concurrent (quarantine c)
  unfolding quarantine
  quarantine-Inv c v =
      by_cases (Inv max_concurrent) (c.closing || c.closed || c.quarantined) c
        (record c { quarantined = true }) (λ _. v)
        λ _. record {
          leased = v.leased;
          slotted = v.slotted;
          bounded = v.bounded;
          cleaned = v.cleaned;
          shut = v.shut;
        }

  begin_close-Inv : (c : Coordinator) → Inv max_concurrent c → Inv max_concurrent (begin_close c)
  unfolding begin_close
  begin_close-Inv c v =
      let after : ℕ = if c.active == 0 then c.cleaning + 1 else c.cleaning in
      by_cases (Inv max_concurrent) c.closed c (record c { closing = true; cleaning = after })
        (λ _. v)
        λ free. record {
          leased = v.leased;
          slotted = v.slotted;
          bounded = v.bounded;
          cleaned =
              by_cases (λ n. 0 < n → (c.active ≡ 0) × (true ≡ true)) (c.active == 0)
                (c.cleaning + 1) c.cleaning (λ idle e. (ground arith, refl))
                (λ _ e. ((v.cleaned e).0, refl));
          shut = λ e. ((v.shut e).0, refl);
        }

  finish_close-Inv :
      (c : Coordinator) (removed : Bool)
      → 0 < c.cleaning
      → Inv max_concurrent c
      → Inv max_concurrent (finish_close removed c)
  unfolding finish_close
  finish_close-Inv c removed h v =
      let clean : Coordinator = record c { closed = true; cleaning = c.cleaning - 1 } in
      let unclean : Coordinator = record c { quarantined = true; cleaning = c.cleaning - 1 } in
      by_cases (Inv max_concurrent) c.closed (record c { cleaning = c.cleaning - 1 })
        (if removed then clean else unclean)
        (λ _. record {
          leased = v.leased;
          slotted = v.slotted;
          bounded = v.bounded;
          cleaned = λ e. v.cleaned h;
          shut = v.shut;
        })
        λ _.
          by_cases (Inv max_concurrent) removed clean unclean
            (λ _. record {
              leased = v.leased;
              slotted = v.slotted;
              bounded = v.bounded;
              cleaned = λ e. v.cleaned h;
              shut = λ e. v.cleaned h;
            })
            (λ _. record {
              leased = v.leased;
              slotted = v.slotted;
              bounded = v.bounded;
              cleaned = λ e. v.cleaned h;
              shut = v.shut;
            })

  Step-Inv :
      (c d : Coordinator) → Step max_concurrent c d → Inv max_concurrent c → Inv max_concurrent d
  Step-Inv _ _ (reserves c) v = reserve-Inv c v
  Step-Inv _ _ (admits c h) v = admit-Inv c h v
  Step-Inv _ _ (holds c i l at h) v = put_lease-Inv c i l (hold l) false at (hold_lem l h) v
  Step-Inv _ _ (owner_ends c i l at h) v =
      put_lease-Inv c i l (owner_done l).0 (owner_done l).1 at (owner_done_lem l h) v
  Step-Inv _ _ (releases c i l at) v =
      put_lease-Inv c i l (release l).0 (release l).1 at (release_lem l) v
  Step-Inv _ _ (finishes c h) v = finish_owner-Inv c h v
  Step-Inv _ _ (frees c h) v = release_slot-Inv c h v
  Step-Inv _ _ (quarantines c) v = quarantine-Inv c v
  Step-Inv _ _ (closes c) v = begin_close-Inv c v
  Step-Inv _ _ (cleans c removed h) v = finish_close-Inv c removed h v

  -- In every state that is reached, whatever the order of the steps, the slots taken are at most the
  -- bound: they are those of the callers that enter, of the active leases, and of the callers that
  -- leave; and the active leases are those that are live and those that are about to finish. Where
  -- Close cleans up or has closed, no lease is active.
  pub Reaches-Inv : (c : Coordinator) → Reaches max_concurrent c → Inv max_concurrent c
  Reaches-Inv _ start = new_coordinator-Inv
  Reaches-Inv _ (more c d reached step) = Step-Inv c d step (Reaches-Inv c reached)
