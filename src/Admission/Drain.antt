-- ===== src/Admission/Drain.antt =====
-- `Close` of askuser/coordinator.go: the calls behind it, and its wait.
use eino_agent_extensions.Prelude.{
  ℕ, ◌≤◌, ◌≡◌, refl, sym, subst, ◌∙◌, ◌⊎◌, inl, inr, Bool, ◌||◌, ◌==◌, true, false, none, List, [],
  ◌∷◌, ◌++◌, arith, Bool-cases,
}
use eino_agent_extensions.Admission.{
  Coordinator, contains, register, acquire, settle, release, close, Call, acquires, releases,
  closes, step, run,
}
use eino_agent_extensions.Admission.Invariant.{Inv, close-Inv, release-Inv, contains-delete_key}

closing-step :
    (c : Coordinator) (x : Call)
    → c.closing ≡ true
    → ((step c x).closing ≡ true) × ((step c x).live ≤ c.live)
unfolding step acquire register release close settle
closing-step c acquires h = ground arith
closing-step c (releases id) h = ground arith
closing-step c closes h = ground arith

closing-run :
    (c : Coordinator) (xs : List Call)
    → c.closing ≡ true
    → ((run c xs).closing ≡ true) × ((run c xs).live ≤ c.live)
unfolding run
closing-run c [] h = (h, omega arith)
closing-run c (x ∷ xs) h =
    let now = closing-step c x h in
    let later = closing-run (step c x) xs now.0 in (later.0, omega arith)

close-closing : (c : Coordinator) → Inv c → (close c).closing ≡ true
unfolding close settle
close-closing c v = ground (arith, v.shut)

live-close : (c : Coordinator) → (close c).live ≡ c.live
unfolding close settle
live-close c = ground arith

-- Behind a `Close`, whatever calls follow, `acquire` admits nothing and changes nothing, and the
-- number of live operations never grows.
pub close_refuses :
    (c : Coordinator) (xs : List Call)
    → Inv c
    → (acquire (run (close c) xs) ≡ (run (close c) xs, none)) × ((run (close c) xs).live ≤ c.live)
unfolding acquire
close_refuses c xs v =
    let h = closing-run (close c) xs (close-closing c v) in
    (rw h.0, omega (arith, h.1, live-close c))

cancels-close : (c : Coordinator) → (close c).cancels ≡ c.cancels
unfolding close settle
cancels-close c = ground arith

-- `Close` calls the cancel function of every live operation of a coordinator not yet closed.
canceled-close : (c : Coordinator) → c.closed ≡ false → (close c).canceled ≡ c.canceled ++ c.cancels
unfolding close settle
canceled-close c h = ground arith

-- Some call of a list releases the identifier.
abbrev pub releases_id : ℕ → List Call → Bool
releases_id j [] = false
releases_id j (releases i ∷ xs) = i == j || releases_id j xs
releases_id j (acquires ∷ xs) = releases_id j xs
releases_id j (closes ∷ xs) = releases_id j xs

acquire_closing : (c : Coordinator) → c.closing ≡ true → (acquire c).0 ≡ c
unfolding acquire
acquire_closing c h = rw h refl

closing-step-Inv : (c : Coordinator) (x : Call) → c.closing ≡ true → Inv c → Inv (step c x)
unfolding step
closing-step-Inv c acquires h v = subst Inv (sym (acquire_closing c h)) v
closing-step-Inv c (releases id) h v = release-Inv c id v
closing-step-Inv c closes h v = close-Inv c v

contains-release :
    (c : Coordinator) (i j : ℕ)
    → Inv c
    → contains j (release c i).cancels ≡ true
    → (contains j c.cancels ≡ true) × ((i == j) ≡ false)
unfolding release settle
contains-release c i j v h = elim (Bool-cases (i == j)) [
  | inl same ↦
      let e : i ≡ j = ground arith in
      absurd (ground (arith, contains-delete_key c.next_id i j c.cancels v.ids))
  | inr other ↦ (ground (arith, contains-delete_key c.next_id i j c.cancels v.ids), other)
]

-- What is registered behind some calls was registered before them, and none of them released it.
contains-run :
    (c : Coordinator) (xs : List Call) (j : ℕ)
    → c.closing ≡ true
    → Inv c
    → contains j (run c xs).cancels ≡ true
    → (contains j c.cancels ≡ true) × (releases_id j xs ≡ false)
unfolding run step
contains-run c [] j h v at = (at, refl)
contains-run c (acquires ∷ xs) j h v at =
    contains-run c xs j h v
      (subst (λ d. contains j (run d xs).cancels ≡ true) (acquire_closing c h) at)
contains-run c (releases i ∷ xs) j h v at =
    let now = closing-step c (releases i) h in
    let later = contains-run (release c i) xs j now.0 (release-Inv c i v) at in
    let here = contains-release c i j v later.0 in (here.0, rw here.1 later.1)
contains-run c (closes ∷ xs) j h v at =
    let now = closing-step c closes h in
    let later = contains-run (close c) xs j now.0 (close-Inv c v) at in
    (subst (λ ws. contains j ws ≡ true) (cancels-close c) later.0, later.1)

closing-run-Inv : (c : Coordinator) (xs : List Call) → c.closing ≡ true → Inv c → Inv (run c xs)
unfolding run
closing-run-Inv c [] h v = v
closing-run-Inv c (x ∷ xs) h v =
    closing-run-Inv (step c x) xs (closing-step c x h).0 (closing-step-Inv c x h v)

contains_none : (ws : List ℕ) → ((j : ℕ) → contains j ws ≡ true → ⊥) → ws ≡ []
contains_none [] h = refl
contains_none (w ∷ ws) h = absurd (h w (ground arith))

drained :
    (c : Coordinator)
    → Inv c
    → c.closing ≡ true
    → c.cancels ≡ []
    → (c.closed ≡ true) × (c.done ≡ true) × (c.live ≡ 0)
drained c v h e = ground (arith, v.counted, v.shut, v.signaled)

-- The wait of `Close` ends: in any state that the coordinator can be in, behind the `Close` and any
-- further calls, in any order, among which each operation that was live at the `Close` has called
-- `release`, the coordinator is closed, `done` is closed and nothing is live; and `Close` has called
-- the cancel function of each of these operations, unless the coordinator was closed already.
pub close_drains :
    (c : Coordinator) (xs : List Call)
    → Inv c
    → ((j : ℕ) → contains j c.cancels ≡ true → releases_id j xs ≡ true)
    → let d = run (close c) xs in
      (d.closed ≡ true)
      × (d.done ≡ true)
      × (d.live ≡ 0)
      × ((c.closed ≡ true) ⊎ ((close c).canceled ≡ c.canceled ++ c.cancels))
close_drains c xs v all =
    let shuts = close-closing c v in
    let after = closing-run-Inv (close c) xs shuts (close-Inv c v) in
    let empty = contains_none (run (close c) xs).cancels λ j at.
      let left = contains-run (close c) xs j shuts (close-Inv c v) at in
      let was = all j (subst (λ ws. contains j ws ≡ true) (cancels-close c) left.0) in
      let e : true ≡ false = sym was ∙ left.1 in cc in
    let d = drained (run (close c) xs) after (closing-run (close c) xs shuts).0 empty in
    (d.0, d.1, d.2, elim (Bool-cases c.closed) [ inl h ↦ inl h | inr h ↦ inr (canceled-close c h) ])

cancels-release : (c : Coordinator) (id : ℕ) → Inv c → contains id (release c id).cancels ≡ false
unfolding release settle
cancels-release c id v = ground (arith, contains-delete_key c.next_id id id c.cancels v.ids)

release_missing :
    (c : Coordinator) (id : ℕ)
    → contains id c.cancels ≡ false
    → ((release c id).live ≡ c.live) × ((release c id).cancels ≡ c.cancels)
unfolding release settle
release_missing c id h = ground arith

-- `release` counts an operation down once: a second `release` of its identifier changes no count.
pub release_twice :
    (c : Coordinator) (id : ℕ)
    → Inv c
    → ((release (release c id) id).live ≡ (release c id).live)
      × ((release (release c id) id).cancels ≡ (release c id).cancels)
release_twice c id v = release_missing (release c id) id (cancels-release c id v)
