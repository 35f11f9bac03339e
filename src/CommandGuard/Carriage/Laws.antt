-- ===== src/CommandGuard/Carriage/Laws.antt =====
-- The mask of commandguard/parser.go and its removal, one behind the other.
use eino_agent_extensions.Prelude.{
  ℕ, ◌≡◌, refl, ap, Bool, true, false, ◌&&◌, not, Option, none, some, List, [], ◌∷◌, Bytes, length,
  ◌==◌, arith, Bool-cases, inl, inr,
}
use eino_agent_extensions.CommandGuard.Carriage.{
  contains, replace_all, candidates, mask_from, mask_carriage_returns, unmask,
}

-- A masked text has no carriage return, is as long as the text, and gives it back.
abbrev pub Masked : Bytes → Option (Bytes × ℕ) → Type 0
Masked s none = Unit {0}
Masked s (some (t, carriage)) =
    (contains b'\r' t ≡ false) × (length t ≡ length s) × (unmask carriage t ≡ s)

length-replace_all : (old new : ℕ) (s : Bytes) → length (replace_all old new s) ≡ length s
unfolding replace_all
length-replace_all old new [] = refl
length-replace_all old new (x ∷ xs) = omega (arith, length-replace_all old new xs)

-- The replaced byte is gone.
contains-replace_all :
    (old new : ℕ) (s : Bytes) → (new == old) ≡ false → contains old (replace_all old new s) ≡ false
unfolding contains replace_all
contains-replace_all old new [] h = refl
contains-replace_all old new (x ∷ xs) h = elim (Bool-cases (x == old)) [
  | inl same ↦ rw (same, h) (contains-replace_all old new xs h)
  | inr other ↦ rw (other, other) (contains-replace_all old new xs h)
]

-- Replacing back, where the new byte did not occur.
replace_all-replace_all :
    (old new : ℕ) (s : Bytes)
    → contains new s ≡ false
    → replace_all new old (replace_all old new s) ≡ s
unfolding contains replace_all
replace_all-replace_all old new [] h = refl
replace_all-replace_all old new (x ∷ xs) h =
    let first : (x == new) ≡ false = ground arith in
    let others : contains new xs ≡ false = ground arith in
    let ih = replace_all-replace_all old new xs others in
    elim (Bool-cases (x == old)) [
      | inl same ↦
          let self : (new == new) ≡ true = ground arith in
          let e : old ≡ x = ground arith in rw (same, self) (cc (e, ih))
      | inr other ↦ rw (other, first) (ap (λ t. x ∷ t) ih)
    ]

-- Every candidate is a byte that is neither 0 nor a carriage return.
abbrev usable : List ℕ → Bool
usable [] = true
usable (c ∷ cs) = not (c == 0) && not (c == b'\r') && usable cs

candidate-Masked :
    (s : Bytes) (c : ℕ)
    → not (c == 0) ≡ true
    → not (c == b'\r') ≡ true
    → contains c s ≡ false
    → Masked s (some (replace_all b'\r' c s, c))
unfolding unmask
candidate-Masked s c h k free =
    let zero_not : (c == 0) ≡ false = ground arith in
    let cr_not : (c == b'\r') ≡ false = ground arith in
    (
      contains-replace_all b'\r' c s cr_not,
      length-replace_all b'\r' c s,
      rw (unmask, zero_not) (replace_all-replace_all b'\r' c s free),
    )

mask_from-Masked : (s : Bytes) (cs : List ℕ) → usable cs ≡ true → Masked s (mask_from s cs)
unfolding mask_from
mask_from-Masked s [] h = tt
mask_from-Masked s (c ∷ cs) h =
    let a : not (c == 0) ≡ true = ground arith in
    let b : not (c == b'\r') ≡ true = ground arith in
    let more : usable cs ≡ true = ground arith in
    elim (Bool-cases (contains c s)) [
      | inl used ↦ rw (mask_from, used) (mask_from-Masked s cs more)
      | inr free ↦ rw (mask_from, free) (candidate-Masked s c a b free)
    ]

-- A text that `maskCarriageReturns` gives to the parser has no carriage return and the length of the
-- script, and decoding it gives the script back.
pub mask_carriage_returns-Masked : (s : Bytes) → Masked s (mask_carriage_returns s)
unfolding mask_carriage_returns candidates unmask
mask_carriage_returns-Masked s = elim (Bool-cases (contains b'\r' s)) [
  | inl some_cr ↦ rw (mask_carriage_returns, some_cr) (mask_from-Masked s candidates refl)
  | inr none_cr ↦ rw (mask_carriage_returns, none_cr) (none_cr, refl, refl)
]
