-- ===== src/Admission/Invariant.antt =====
-- The bookkeeping of a coordinator under every interleaving of its calls.
use native.Mathlib.Nat.{mod-eq_of_lt}
use eino_agent_extensions.Prelude.{
  ℕ, ◌+◌, ◌-◌, ◌%◌, ◌≤◌, ◌<◌, ◌≡◌, refl, ap, sym, ◌⊎◌, inl, inr, true, false, ◌&&◌, ◌||◌, none,
  some, List, [], ◌∷◌, ◌++◌, length, leb, ◌==◌, if◌then◌else◌, arith, length-append, Bool-cases,
  subst,
}
use eino_agent_extensions.Admission.{
  Coordinator, new_coordinator, contains, insert_key, delete_key, id_mod, register, acquire, settle,
  release, close, shutting, Call, acquires, releases, closes, step, run,
}

-- The registered ids are at most `n`, and none stands twice.
abbrev pub Ids : ℕ → List ℕ → Type 0
Ids n [] = Unit {0}
Ids n (w ∷ ws) = (w ≤ n) × (contains w ws ≡ false) × Ids n ws

pub record Inv (c : Coordinator) : Type 0 where
  pub counted : c.live ≡ length c.cancels
  pub ids : Ids c.next_id c.cancels
  pub bounded : c.live ≤ c.max_in_flight
  pub shut : c.closed ≡ (c.closing && c.live == 0)
  pub signaled : c.done ≡ c.closed

pub Ids-fresh : (n m : ℕ) (ws : List ℕ) → Ids n ws → n < m → contains m ws ≡ false
Ids-fresh n m [] h k = refl
Ids-fresh n m (w ∷ ws) h k = ground (arith, Ids-fresh n m ws h.2)

pub contains-snoc :
    (i w : ℕ) (ws : List ℕ) → contains i (ws ++ w ∷ []) ≡ (if w == i then true else contains i ws)
contains-snoc i w [] = refl
contains-snoc i w (x ∷ ws) = ground (arith, contains-snoc i w ws)

Ids-snoc : (n : ℕ) (ws : List ℕ) → Ids n ws → Ids (n + 1) (ws ++ (n + 1) ∷ [])
Ids-snoc n [] h = (omega arith, refl, tt)
Ids-snoc n (w ∷ ws) h = (omega arith, ground (arith, contains-snoc w (n + 1) ws), Ids-snoc n ws h.2)

pub contains-delete_key :
    (n i j : ℕ) (ws : List ℕ)
    → Ids n ws
    → contains j (delete_key i ws) ≡ (if i == j then false else contains j ws)
unfolding delete_key
contains-delete_key n i j [] d = ground arith
contains-delete_key n i j (x ∷ ws) d = ground (arith, contains-delete_key n i j ws d.2)

pub Ids-delete_key : (n i : ℕ) (ws : List ℕ) → Ids n ws → Ids n (delete_key i ws)
unfolding delete_key
Ids-delete_key n i [] d = tt
Ids-delete_key n i (x ∷ ws) d =
    ground (arith, contains-delete_key n i x ws d.2, Ids-delete_key n i ws d.2)

pub length-delete_key :
    (i : ℕ) (ws : List ℕ) → contains i ws ≡ true → length (delete_key i ws) + 1 ≡ length ws
unfolding delete_key
length-delete_key i [] h = cc
length-delete_key i (x ∷ ws) h = ground (arith, length-delete_key i ws)

pub new_coordinator-Inv : (m : ℕ) → Inv (new_coordinator m)
unfolding new_coordinator
new_coordinator-Inv m = record {
  counted = refl;
  ids = tt;
  bounded = omega arith;
  shut = refl;
  signaled = refl;
}

register-Inv :
    (c : Coordinator)
    → Inv c
    → c.closing ≡ false
    → c.live < c.max_in_flight
    → c.next_id + 1 < id_mod
    → Inv (register c).0
unfolding register insert_key
register-Inv c v open_ h k =
    let e : (c.next_id + 1) % id_mod ≡ c.next_id + 1 = mod-eq_of_lt k in
    let fresh : contains (c.next_id + 1) c.cancels ≡ false =
      Ids-fresh c.next_id (c.next_id + 1) c.cancels v.ids (omega arith) in
    rw e (record {
      counted = ground (arith, fresh, v.counted, length-append c.cancels ((c.next_id + 1) ∷ []));
      ids = ground (arith, fresh, Ids-snoc c.next_id c.cancels v.ids);
      bounded = omega arith;
      shut = ground (arith, v.shut);
      signaled = v.signaled;
    })

settle-Inv :
    (c : Coordinator)
    → c.live ≡ length c.cancels
    → Ids c.next_id c.cancels
    → c.live ≤ c.max_in_flight
    → (c.closed ≡ true → (c.closing ≡ true) × (c.live ≡ 0))
    → c.done ≡ c.closed
    → Inv (settle c)
unfolding settle
settle-Inv c counted ids bounded shut signaled = record {
  counted = ground (arith, counted);
  ids = ground (arith, ids);
  bounded = ground (arith, bounded);
  shut = ground (arith, shut);
  signaled = ground (arith, signaled);
}

-- `acquire` refuses and changes nothing, or registers below the limit while nothing is closing.
pub acquire-cases :
    (c : Coordinator)
    → (acquire c ≡ (c, none))
      ⊎ ((acquire c ≡ ((register c).0, some (register c).1))
          × (c.closing ≡ false)
          × (c.live < c.max_in_flight))
unfolding acquire
acquire-cases c = elim (Bool-cases (c.closing || c.closed || leb c.max_in_flight c.live)) [
  | inl full ↦ inl (rw full)
  | inr room ↦ inr (rw room, ground arith, ground arith)
]

acquire-Inv : (c : Coordinator) → Inv c → c.next_id + 1 < id_mod → Inv (acquire c).0
unfolding acquire
acquire-Inv c v k = ground (arith, register-Inv c v)

pub release-Inv : (c : Coordinator) (id : ℕ) → Inv c → Inv (release c id)
unfolding release
release-Inv c id v = elim (Bool-cases (contains id c.cancels)) [
  | inl h ↦ rw h (
      settle-Inv (record c { cancels = delete_key id c.cancels; live = c.live - 1 })
        (omega (arith, v.counted, length-delete_key id c.cancels h))
        (Ids-delete_key c.next_id id c.cancels v.ids) (omega (arith, v.bounded))
        (ground (arith, v.shut)) v.signaled)
  | inr h ↦ rw h (settle-Inv c v.counted v.ids v.bounded (ground (arith, v.shut)) v.signaled)
]

close_closed : (c : Coordinator) → c.closed ≡ true → close c ≡ c
unfolding close
close_closed c h = ap (λ b. if b then c else settle (shutting c)) h

close_open : (c : Coordinator) → c.closed ≡ false → close c ≡ settle (shutting c)
unfolding close
close_open c h = ap (λ b. if b then c else settle (shutting c)) h

pub close-Inv : (c : Coordinator) → Inv c → Inv (close c)
close-Inv c v = elim (Bool-cases c.closed) [
  | inl h ↦ subst Inv (sym (close_closed c h)) v
  | inr h ↦
      subst Inv (sym (close_open c h))
        (settle-Inv (shutting c) v.counted v.ids v.bounded (λ e. absurd (ground arith)) v.signaled)
]

step-Inv : (c : Coordinator) (x : Call) → Inv c → c.next_id + 1 < id_mod → Inv (step c x)
unfolding step
step-Inv c acquires v k = acquire-Inv c v k
step-Inv c (releases id) v k = release-Inv c id v
step-Inv c closes v k = close-Inv c v

-- A call uses up at most one identifier.
next_id-step :
    (c : Coordinator) (x : Call) → c.next_id + 1 < id_mod → (step c x).next_id ≤ c.next_id + 1
unfolding step acquire register release close settle
next_id-step c acquires k =
    let e : (c.next_id + 1) % id_mod ≡ c.next_id + 1 = mod-eq_of_lt k in ground arith
next_id-step c (releases id) k = ground arith
next_id-step c closes k = ground arith

pub run-Inv :
    (c : Coordinator) (xs : List Call) → Inv c → c.next_id + length xs < id_mod → Inv (run c xs)
unfolding run
run-Inv c [] v k = v
run-Inv c (x ∷ xs) v k =
    run-Inv (step c x) xs (step-Inv c x v (omega arith))
      (omega (arith, next_id-step c x (omega arith)))

-- From a new coordinator, through any interleaving of fewer than 2^64 calls: the number of live
-- operations is the number of registered cancel functions and never passes the limit, no two
-- operations share an identifier, the coordinator is closed exactly when it is closing with nothing
-- live, and the `done` channel is closed exactly then.
pub run-new-Inv : (m : ℕ) (xs : List Call) → length xs < id_mod → Inv (run (new_coordinator m) xs)
run-new-Inv m xs h =
    run-Inv (new_coordinator m) xs (new_coordinator-Inv m) (unfold new_coordinator in omega arith)
