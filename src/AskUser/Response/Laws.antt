-- ===== src/AskUser/Response/Laws.antt =====
-- `mapResponse` of askuser/coordinator.go, against the answers that a question offers.
use eino_agent_extensions.Prelude.{
  ℕ, zero, suc, ◌+◌, ◌-◌, ◌<◌, ◌≡◌, refl, Bool, true, ◌||◌, ◌⊎◌, ◌≢◌, by_cases, ap, inl, inr, not,
  Option, none, some, List, [], ◌∷◌, Bytes, length, get_elem?, ltb, arith, ℤ, pos, negsuc,
  Bool-cases, ◌∙◌,
}
use eino_agent_extensions.External.{TextLib, is_empty}
use eino_agent_extensions.AskUser.Text.{valid_required_text}
use eino_agent_extensions.AskUser.Response.{
  ToolOption, ToolInput, Response, ResponseKind, Status, Answer, bare, Mapped, ok,
  responder_operation, select_option, map_selected, map_bare, map_kind, map_response, is_zero,
}

get_elem?-some :
    (xs : List ToolOption) (i : ℕ) → i < length xs → (o : ToolOption) × (get_elem? xs i ≡ some o)
get_elem?-some [] i h = absurd (omega arith)
get_elem?-some (x ∷ xs) zero h = (x, refl)
get_elem?-some (x ∷ xs) (suc i) h = get_elem?-some xs i (omega arith)

pub option_answer : ToolOption → ℕ → Answer
option_answer o n = record { status = Status.selected; answer = o.label; selected_option = pos n }

is_zero-pos : (z : ℤ) → is_zero z ≡ true → z ≡ pos 0
is_zero-pos (pos zero) h = refl
is_zero-pos (pos (suc n)) h = cc
is_zero-pos (negsuc n) h = cc

is_empty_nil : (bs : Bytes) → is_empty bs ≡ true → bs ≡ []
is_empty_nil [] h = refl
is_empty_nil (b ∷ bs) h = cc

module _ (lib : TextLib) (max_custom_answer_bytes : ℕ) (input : ToolInput) where
  -- The answer that a response of a kind stands for, if it is well formed for the kind.
  abbrev pub Offers : ResponseKind → Response → Answer → Type 0
  Offers ResponseKind.selected r a =
      (k : ℕ) × (o : ToolOption) × (get_elem? input.options k ≡ some o)
      × (r.selected_option ≡ pos (k + 1))
      × (r.custom_answer ≡ [])
      × (a ≡ option_answer o (k + 1))
  Offers ResponseKind.custom r a =
      (r.selected_option ≡ pos 0)
      × (valid_required_text lib r.custom_answer max_custom_answer_bytes ≡ true)
      × (a ≡ record { status = Status.custom; answer = r.custom_answer; selected_option = pos 0 })
  Offers ResponseKind.dismissed r a =
      (r.selected_option ≡ pos 0) × (r.custom_answer ≡ []) × (a ≡ bare Status.dismissed)
  Offers ResponseKind.unavailable r a =
      (r.selected_option ≡ pos 0) × (r.custom_answer ≡ []) × (a ≡ bare Status.unavailable)
  Offers (ResponseKind.other s) r a = ⊥

  -- Refused, or the answer that is offered.
  abbrev Decided : ResponseKind → Response → Mapped → Type 0
  Decided k r m = (m ≡ responder_operation) ⊎ ((a : Answer) × (m ≡ ok a) × Offers k r a)

  selected-Decided :
      (z : ℤ) (r : Response)
      → r.selected_option ≡ z
      → Decided ResponseKind.selected r (map_selected z r.custom_answer input.options)
  unfolding map_selected select_option option_answer
  selected-Decided (negsuc n) r e = inl refl
  selected-Decided (pos zero) r e = inl refl
  selected-Decided (pos (suc k)) r e =
      elim (Bool-cases (ltb (length input.options) (suc k) || not (is_empty r.custom_answer))) [
        | inl bad ↦ inl (ground arith)
        | inr good ↦
            let (o, at) = get_elem?-some input.options k (ground arith) in
            let next : suc k ≡ k + 1 = omega arith in
            let before : suc k - 1 ≡ k = omega arith in
            inr (
              option_answer o (k + 1),
              ground (arith, at, before),
              (k, o, at, e ∙ ap pos next, is_empty_nil r.custom_answer (ground arith), refl),
            )
      ]

  custom-Decided :
      (r : Response)
      → Decided ResponseKind.custom r
          (map_kind lib max_custom_answer_bytes input ResponseKind.custom r)
  unfolding map_kind
  custom-Decided r =
      by_cases (Decided ResponseKind.custom r)
        (not (is_zero r.selected_option)
          || not (valid_required_text lib r.custom_answer max_custom_answer_bytes))
        responder_operation
        (ok (record { status = Status.custom; answer = r.custom_answer; selected_option = pos 0 }))
        (λ _. inl refl)
        (λ good. inr (
          record { status = Status.custom; answer = r.custom_answer; selected_option = pos 0 },
          refl,
          (is_zero-pos r.selected_option (ground arith), ground arith, refl),
        ))

  bare-Decided :
      (r : Response)
      → Decided ResponseKind.dismissed r (map_bare r Status.dismissed)
        × Decided ResponseKind.unavailable r (map_bare r Status.unavailable)
  unfolding map_bare
  bare-Decided r =
      let bad : Bool = not (is_zero r.selected_option) || not (is_empty r.custom_answer) in
      (
        by_cases (Decided ResponseKind.dismissed r) bad responder_operation
            (ok (bare Status.dismissed)) (λ _. inl refl)
            (λ good. inr (
              bare Status.dismissed,
              refl,
              (
                is_zero-pos r.selected_option (ground arith),
                is_empty_nil r.custom_answer (ground arith),
                refl,
              ),
            )),
        by_cases (Decided ResponseKind.unavailable r) bad responder_operation
            (ok (bare Status.unavailable)) (λ _. inl refl)
            (λ good. inr (
              bare Status.unavailable,
              refl,
              (
                is_zero-pos r.selected_option (ground arith),
                is_empty_nil r.custom_answer (ground arith),
                refl,
              ),
            )),
      )

  kind-Decided :
      (k : ResponseKind) (r : Response)
      → Decided k r (map_kind lib max_custom_answer_bytes input k r)
  unfolding map_kind
  kind-Decided ResponseKind.selected r = selected-Decided r.selected_option r refl
  kind-Decided ResponseKind.custom r = custom-Decided r
  kind-Decided ResponseKind.dismissed r = (bare-Decided r).0
  kind-Decided ResponseKind.unavailable r = (bare-Decided r).1
  kind-Decided (ResponseKind.other s) r = inl refl

  get_elem?-inside :
      (xs : List ToolOption) (k : ℕ) (o : ToolOption) → get_elem? xs k ≡ some o → k < length xs
  get_elem?-inside [] k o h = cc
  get_elem?-inside (x ∷ xs) zero o h = omega arith
  get_elem?-inside (x ∷ xs) (suc k) o h = omega (arith, get_elem?-inside xs k o h)

  -- A response that stands for an answer is not refused.
  accepted :
      (k : ResponseKind) (r : Response) (a : Answer)
      → Offers k r a
      → map_kind lib max_custom_answer_bytes input k r ≢ responder_operation
  unfolding map_kind map_selected select_option map_bare
  accepted ResponseKind.selected r a (k, o, at, e, z, same) =
      let inside = get_elem?-inside input.options k o at in
      let before : k + 1 - 1 ≡ k = omega arith in
      rw (e, z, before, at) (λ h. absurd (ground (arith, inside)))
  accepted ResponseKind.custom r a (e, v, same) = rw (e, v) (λ h. cc)
  accepted ResponseKind.dismissed r a (e, z, same) = rw (e, z) (λ h. cc)
  accepted ResponseKind.unavailable r a (e, z, same) = rw (e, z) (λ h. cc)
  accepted (ResponseKind.other s) r a h = absurd h

  -- The answer that the response stands for, or a refusal of one that stands for none.
  abbrev pub Maps : Option Response → Mapped → Type 0
  Maps none m = m ≡ responder_operation
  Maps (some r) m =
      ((a : Answer) × (m ≡ ok a) × Offers r.kind r a)
      ⊎ ((m ≡ responder_operation) × ((a : Answer) → Offers r.kind r a → ⊥))

  Decided-Maps :
      (r : Response)
      → Decided r.kind r (map_kind lib max_custom_answer_bytes input r.kind r)
      → Maps (some r) (map_kind lib max_custom_answer_bytes input r.kind r)
  Decided-Maps r (inl refused) = inr (refused, λ a offers. accepted r.kind r a offers refused)
  Decided-Maps r (inr accepts) = inl accepts

  -- `mapResponse` answers a response exactly if it is well formed for its kind, and then with the
  -- answer that it stands for: a selection of an option, with no custom answer, by its label and its
  -- one-based number; a custom answer, with no selection, by its text, which is valid and within its
  -- limit; a dismissal or an unavailability, with neither, by that status alone. It refuses an error
  -- and any other response, and it never indexes out of range.
  pub map_response-Maps :
      (r : Option Response) → Maps r (map_response lib max_custom_answer_bytes input r)
  unfolding map_response
  map_response-Maps none = refl
  map_response-Maps (some r) = Decided-Maps r (kind-Decided r.kind r)
