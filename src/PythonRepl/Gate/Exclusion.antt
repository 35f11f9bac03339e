-- ===== src/PythonRepl/Gate/Exclusion.antt =====
-- The gate of pythonrepl/session.go, in every state that its callers reach.
use eino_agent_extensions.Prelude.{
  ℕ, ◌≤◌, ◌≡◌, refl, inl, inr, Bool, true, false, List, [], ◌∷◌, ◌++◌, length, ◌==◌, if◌then◌else◌,
  arith, length-append, Bool-cases, ◌∙◌, ap,
}
use eino_agent_extensions.PythonRepl.Gate.{
  System, Phase, idle, waiting, granted, holding, set_phase, acquire_enter, release,
  release_waiters, acquire_ready, without, withdraw, acquire_canceled, Step, enters, readies,
  cancels_waiting, cancels_granted, leaves, Reach, here, next, start,
}

-- The caller has the gate, or has been granted it and not looked yet.
abbrev pub owns : Phase → Bool
owns granted = true
owns holding = true
owns _ = false

abbrev pub waits : Phase → Bool
waits waiting = true
waits _ = false

abbrev pub contains : ℕ → List ℕ → Bool
contains i [] = false
contains i (w ∷ ws) = if w == i then true else contains i ws

-- No caller stands twice in the queue.
abbrev pub Distinct : List ℕ → Type 0
Distinct [] = Unit {0}
Distinct (w ∷ ws) = (contains w ws ≡ false) × Distinct ws

pub record Inv (s : System) : Type 0 where
  pub single : (i j : ℕ) → owns (s.phase i) ≡ true → owns (s.phase j) ≡ true → i ≡ j
  pub owned : s.gate.active ≡ true → (i : ℕ) × (owns (s.phase i) ≡ true)
  pub busy : (i : ℕ) → owns (s.phase i) ≡ true → s.gate.active ≡ true
  pub queue : (i : ℕ) → contains i s.gate.waiters ≡ waits (s.phase i)
  pub distinct : Distinct s.gate.waiters
  pub free : s.gate.active ≡ false → s.gate.waiters ≡ []
  pub bounded : length s.gate.waiters ≤ s.gate.maximum

start-Inv : (maximum : ℕ) → Inv (start maximum)
unfolding start
start-Inv maximum = record {
  single = λ i j h k. cc;
  owned = λ h. cc;
  busy = λ i h. cc;
  queue = λ i. refl;
  distinct = tt;
  free = λ h. refl;
  bounded = omega arith;
}

contains-append :
    (i w : ℕ) (ws : List ℕ) → contains i (ws ++ w ∷ []) ≡ (if w == i then true else contains i ws)
contains-append i w [] = refl
contains-append i w (x ∷ ws) = ground (arith, contains-append i w ws)

Distinct-append :
    (w : ℕ) (ws : List ℕ) → contains w ws ≡ false → Distinct ws → Distinct (ws ++ w ∷ [])
Distinct-append w [] h d = (refl, tt)
Distinct-append w (x ∷ ws) h d = ground (arith, contains-append x w ws, Distinct-append w ws)

contains-without :
    (i j : ℕ) (ws : List ℕ)
    → Distinct ws
    → contains j (without i ws) ≡ (if i == j then false else contains j ws)
unfolding without
contains-without i j [] d = ground arith
contains-without i j (x ∷ ws) d = ground (arith, contains-without i j ws d.1)

Distinct-without : (i : ℕ) (ws : List ℕ) → Distinct ws → Distinct (without i ws)
unfolding without
Distinct-without i [] d = tt
Distinct-without i (x ∷ ws) d =
    ground (arith, contains-without i x ws d.1, Distinct-without i ws d.1)

length-without : (i : ℕ) (ws : List ℕ) → length (without i ws) ≤ length ws
unfolding without
length-without i [] = omega arith
length-without i (x ∷ ws) = ground (arith, length-without i ws)

enter-Inv : (s : System) (i : ℕ) → s.phase i ≡ idle → Inv s → Inv (acquire_enter s i).0
unfolding acquire_enter
enter-Inv s i h v = record {
  single = λ a b p q. ground (arith, v.single a b, v.busy a, v.busy b);
  owned = elim (Bool-cases s.gate.active) [
    | inl e ↦ λ _. let o = v.owned e in (o.0, ground (arith, o.1))
    | inr e ↦ λ _. (i, ground arith)
  ];
  busy = λ a p. ground (arith, v.busy a);
  queue = λ a. ground (arith, v.queue a, v.queue i, contains-append a i s.gate.waiters);
  distinct = ground (arith, v.queue i, Distinct-append i s.gate.waiters, v.distinct);
  free = λ p. ground (arith, v.free);
  bounded = ground (arith, v.bounded, length-append s.gate.waiters (i ∷ []));
}

-- The parts of the invariant that `release` starts from, over the queue as a list.
release_waiters-Inv :
    (ws : List ℕ) (maximum : ℕ) (phase : ℕ → Phase) (i : ℕ)
    → ((j : ℕ) → owns (phase j) ≡ true → j ≡ i)
    → owns (phase i) ≡ true
    → ((j : ℕ) → contains j ws ≡ waits (phase j))
    → Distinct ws
    → length ws ≤ maximum
    → Inv (release_waiters ws maximum (set_phase phase i idle))
unfolding release_waiters
release_waiters-Inv [] maximum phase i only mine queue d b = record {
  single = λ j k p q. ground (arith, only j, only k);
  owned = λ h. cc;
  busy = λ j p. ground (arith, only j);
  queue = λ j. ground (arith, queue j);
  distinct = tt;
  free = λ h. refl;
  bounded = omega arith;
}
release_waiters-Inv (w ∷ ws) maximum phase i only mine queue d b = record {
  single = λ j k p q. ground (arith, only j, only k);
  owned = λ h. (w, ground arith);
  busy = λ j p. refl;
  queue = λ j. ground (arith, queue j, queue w, d.0);
  distinct = d.1;
  free = λ h. cc;
  bounded = omega arith;
}

release-Inv : (s : System) (i : ℕ) → owns (s.phase i) ≡ true → Inv s → Inv (release s i)
unfolding release
release-Inv s i h v =
    release_waiters-Inv s.gate.waiters s.gate.maximum s.phase i (λ j p. v.single j i p h) h v.queue
      v.distinct v.bounded

ready-Inv :
    (s : System) (i : ℕ) (canceled : Bool)
    → s.phase i ≡ granted
    → Inv s
    → Inv (acquire_ready s i canceled)
unfolding acquire_ready
ready-Inv s i true h v = release-Inv s i (ground arith) v
ready-Inv s i false h v = record {
  single = λ a b p q. ground (arith, v.single a b, v.single a i, v.single i b);
  owned = λ e. (i, ground arith);
  busy = λ a p. ground (arith, v.busy a, v.busy i);
  queue = λ a. ground (arith, v.queue a);
  distinct = v.distinct;
  free = v.free;
  bounded = v.bounded;
}

withdraw-Inv : (s : System) (i : ℕ) → s.phase i ≡ waiting → Inv s → Inv (withdraw waiting s i)
unfolding withdraw
withdraw-Inv s i h v = record {
  single = λ a b p q. ground (arith, v.single a b);
  owned = λ e. let o = v.owned e in (o.0, ground (arith, o.1));
  busy = λ a p. ground (arith, v.busy a);
  queue = λ a. ground (arith, v.queue a, contains-without i a s.gate.waiters v.distinct);
  distinct = Distinct-without i s.gate.waiters v.distinct;
  free = λ e. rw (v.free e);
  bounded = omega (arith, v.bounded, length-without i s.gate.waiters);
}

pub Step-Inv : {s t : System} → Step s t → Inv s → Inv t
unfolding acquire_canceled
Step-Inv {s} (enters i h) v = enter-Inv s i h v
Step-Inv {s} (readies i canceled h) v = ready-Inv s i canceled h v
Step-Inv {s} (cancels_waiting i h) v = rw h (withdraw-Inv s i h v)
Step-Inv {s} (cancels_granted i h) v = rw h (unfold withdraw in release-Inv s i (ground arith) v)
Step-Inv {s} (leaves i h) v = release-Inv s i (ground arith) v

pub Reach-Inv : {s t : System} → Reach s t → Inv s → Inv t
Reach-Inv here v = v
Reach-Inv (next r st) v = Step-Inv st (Reach-Inv r v)

-- However the callers of a gate interleave, with grants racing against cancellation, at most one of
-- them has the gate or has been granted it, and at most `maximum` wait.
pub gate_exclusive :
    (maximum : ℕ) (s : System) (i j : ℕ)
    → Reach (start maximum) s
    → owns (s.phase i) ≡ true
    → owns (s.phase j) ≡ true
    → (i ≡ j) × (length s.gate.waiters ≤ s.gate.maximum)
gate_exclusive maximum s i j r h k =
    let v = Reach-Inv r (start-Inv maximum) in (v.single i j h k, v.bounded)

-- No wakeup is lost: in every reachable state in which some caller waits, some caller has the gate
-- or has been granted it, and the waiter stands in the queue that `release` serves.
pub no_lost_wakeup :
    (maximum : ℕ) (s : System) (i : ℕ)
    → Reach (start maximum) s
    → s.phase i ≡ waiting
    → ((o : ℕ) × (owns (s.phase o) ≡ true)) × (contains i s.gate.waiters ≡ true)
no_lost_wakeup maximum s i r h =
    let v = Reach-Inv r (start-Inv maximum) in
    let queued : contains i s.gate.waiters ≡ true = v.queue i ∙ ap waits h in
    (
      elim (Bool-cases s.gate.active) [
        | inl e ↦ v.owned e
        | inr e ↦ absurd (ground (arith, queued, v.free e))
      ],
      queued,
    )
