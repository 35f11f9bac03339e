-- ===== src/AskUser/Coordinator/Balance.antt =====
-- The admission that `ask` takes and gives back.
use native.Mathlib.Nat.{mod-eq_of_lt}
use eino_agent_extensions.Prelude.{
  ℕ, ◌+◌, ◌%◌, ◌<◌, ◌≡◌, refl, inl, inr, true, false, Option, none, some, List, [], ◌∷◌, ◌++◌,
  arith, ◌∙◌, Bool-cases, ap,
}
use eino_agent_extensions.External.{CtxErr}
use eino_agent_extensions.Admission.{
  Coordinator, acquire, register, release, contains, insert_key, delete_key, settle, id_mod,
}
use eino_agent_extensions.Admission.Invariant.{Inv, Ids-fresh, contains-snoc, acquire-cases}
use eino_agent_extensions.AskUser.Response.{Response}
use eino_agent_extensions.AskUser.Coordinator.{
  ToolCall, Begun, finished, pending, begin, begin_checked, begin_admitted, settle_responder,
  has_identity,
}

delete_key-snoc :
    (id : ℕ) (ws : List ℕ) → contains id ws ≡ false → delete_key id (ws ++ id ∷ []) ≡ ws
unfolding delete_key
delete_key-snoc id [] h = ground arith
delete_key-snoc id (w ∷ ws) h = ground (arith, delete_key-snoc id ws)

-- Two states with the same operations in flight.
abbrev pub SameLoad : Coordinator → Coordinator → Type 0
SameLoad c d = (d.live ≡ c.live) × (d.cancels ≡ c.cancels) × (d.closed ≡ c.closed)

release-register :
    (c : Coordinator)
    → c.closing ≡ false
    → contains (register c).1 c.cancels ≡ false
    → SameLoad c (release (register c).0 (register c).1)
unfolding release register insert_key settle
release-register c h f = ground (
  arith,
  f,
  delete_key-snoc ((c.next_id + 1) % id_mod) c.cancels f,
  contains-snoc ((c.next_id + 1) % id_mod) ((c.next_id + 1) % id_mod) c.cancels,
)

module _ (c : Coordinator) (call : ToolCall) (v : Inv c) (room : c.next_id + 1 < id_mod) where
  -- What a call leaves behind: finished, the same operations in flight; pending, one more, under an
  -- identifier of its own, that is given back when its responder is done.
  abbrev pub Balanced : Coordinator → Begun → ℕ → Type 0
  Balanced d (finished o) deadline = SameLoad c d
  Balanced d (pending id due) deadline =
      (due ≡ deadline)
      × (d.live ≡ c.live + 1)
      × (contains id d.cancels ≡ true)
      × (contains id c.cancels ≡ false)
      × ((r : Option Response) (t : ℕ) → SameLoad c (settle_responder d id r t).0)

  fresh : contains (register c).1 c.cancels ≡ false
  unfolding register
  fresh =
      ap (λ i. contains i c.cancels) (mod-eq_of_lt room)
      ∙ Ids-fresh c.next_id (c.next_id + 1) c.cancels v.ids (omega arith)

  registered :
      (due : ℕ) → c.closing ≡ false → Balanced (register c).0 (pending (register c).1 due) due
  unfolding settle_responder
  registered due h =
      (refl, unfold register in refl, known, fresh, λ r t. release-register c h fresh)
    where
      known : contains (register c).1 (register c).0.cancels ≡ true
      known =
          unfold register insert_key in
          ground (
            arith,
            fresh,
            contains-snoc ((c.next_id + 1) % id_mod) ((c.next_id + 1) % id_mod) c.cancels,
          )

  admitted-Balanced :
      (second : Option CtxErr) (due : ℕ)
      → let r = begin_admitted (acquire c).0 (acquire c).1 second due in Balanced r.0 r.1 due
  unfolding begin_admitted
  admitted-Balanced none due = elim (acquire-cases c) [
    | inl e ↦ rw e (refl, refl, refl)
    | inr (e, h, k) ↦ rw e (registered due h)
  ]
  admitted-Balanced (some x) due = elim (acquire-cases c) [
    | inl e ↦ rw e (refl, refl, refl)
    | inr (e, h, k) ↦ rw e (release-register c h fresh)
  ]

  -- `ask` keeps the books: whatever the context and the identity checks say, a call that finishes
  -- before its responder starts leaves the same operations in flight, and a call that goes on adds
  -- exactly one, under a new identifier with the deadline `now + max_wait`, which the deferred
  -- `release` takes away again, whether the responder returns, fails or panics.
  pub begin-Balanced :
      (first second : Option CtxErr) (now max_wait : ℕ)
      → let r = begin c call first second now max_wait in Balanced r.0 r.1 (now + max_wait)
  unfolding begin begin_checked
  begin-Balanced (some e) second now max_wait = (refl, refl, refl)
  begin-Balanced none second now max_wait = elim (Bool-cases (has_identity call)) [
    | inl named ↦ rw named (admitted-Balanced second (now + max_wait))
    | inr anonymous ↦ rw anonymous (refl, refl, refl)
  ]
