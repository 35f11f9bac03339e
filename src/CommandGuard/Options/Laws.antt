-- ===== src/CommandGuard/Options/Laws.antt =====
-- commandguard/wrapper_options.go: the words that a scan of options passes over.
use eino_agent_extensions.Prelude.{
  by_cases, ℕ, zero, suc, ◌≡◌, refl, Bool, true, false, ◌&&◌, ◌||◌, not, List, [], ◌∷◌, bytes_eq,
  if◌then◌else◌, codes,
}
use eino_agent_extensions.CommandGuard.Words.{Outcome, abstain, Word, has_prefix, cut_prefix}
use eino_agent_extensions.CommandGuard.Options.{
  OptionSpec, OptionValue, nonempty, variable, duration, signal_name, flag_option, valid_operand,
  attached, operand_fits, next_fits, spelled, consume_option, Scanned, remaining, refused, faulted,
  Move, returns, skip_one, skip_two, skip, option_turn, scan_options,
}
use eino_agent_extensions.Context.{Ctx, poll}

-- The second list is the first without some words at its front, all of them known.
pub data Skipped : List Word → List Word → Type 0 where
  here : (args : List Word) → Skipped args args
  there :
      (first : Word) (args rest : List Word)
      → first.known ≡ true
      → Skipped args rest
      → Skipped (first ∷ args) rest

-- The result of a scan of some arguments: known words were passed over, or the command is denied.
abbrev pub Careful : List Word → Scanned → Type 0
Careful args (remaining rest) = Skipped args rest
Careful args (refused o) = is_denial o ≡ true
  where
    is_denial : Outcome → Bool
    is_denial abstain = false
    is_denial o = true
Careful args faulted = ⊥

-- What an option may take of the words behind it.
abbrev Takes : List Word → ℕ → Type 0
Takes rest zero = Unit {0}
Takes rest (suc zero) = Unit {0}
Takes [] (suc (suc n)) = ⊥
Takes (w ∷ ws) (suc (suc n)) = w.known ≡ true

pick-Takes :
    (rest : List Word) (b : Bool) (m n : ℕ)
    → Takes rest m
    → Takes rest n
    → Takes rest (if b then m else n)
pick-Takes rest true m n h k = h
pick-Takes rest false m n h k = k

next_fits-Takes : (kind : OptionValue) (rest : List Word) → Takes rest (next_fits kind rest)
unfolding next_fits
next_fits-Takes kind [] = tt
next_fits-Takes kind (w ∷ ws) = known_fits w.known (valid_operand w.text kind) refl
  where
    known_fits : (b c : Bool) → w.known ≡ b → Takes (w ∷ ws) (if b && c then 2 else 0)
    known_fits false c e = tt
    known_fits true false e = tt
    known_fits true true e = e

spelled-Takes : (kind : OptionValue) (rest : List Word) → Takes rest (spelled kind rest)
unfolding spelled
spelled-Takes flag_option rest = tt
spelled-Takes nonempty rest = next_fits-Takes nonempty rest
spelled-Takes variable rest = next_fits-Takes variable rest
spelled-Takes duration rest = next_fits-Takes duration rest
spelled-Takes signal_name rest = next_fits-Takes signal_name rest

consume_option-Takes :
    (first : Word) (rest : List Word) (specs : List OptionSpec)
    → Takes rest (consume_option first rest specs)
unfolding consume_option
consume_option-Takes first rest [] = tt
consume_option-Takes first rest (s ∷ specs) =
    let others = consume_option-Takes first rest specs in
    let more = consume_option first rest specs in
    let fits = operand_fits s.kind (cut_prefix first.text s.spelling) in
    let same = bytes_eq first.text s.spelling in
    pick-Takes rest (attached s.spelling) (if fits then 1 else more)
      (if same then spelled s.kind rest else more) (pick-Takes rest fits 1 more tt others)
      (pick-Takes rest same (spelled s.kind rest) more (spelled-Takes s.kind rest) others)

-- What a turn may do: it returns carefully, or passes over known words.
abbrev Turns : Word → List Word → Move → Type 0
Turns first rest (returns result) = Careful (first ∷ rest) result
Turns first rest skip_one = first.known ≡ true
Turns first [] skip_two = ⊥
Turns first (second ∷ rest) skip_two = (first.known ≡ true) × (second.known ≡ true)

skip-Turns :
    (first : Word) (rest : List Word) (n : ℕ)
    → first.known ≡ true
    → Takes rest n
    → Turns first rest (skip n)
unfolding skip
skip-Turns first rest zero h k = refl
skip-Turns first rest (suc zero) h k = h
skip-Turns first [] (suc (suc n)) h k = k
skip-Turns first (second ∷ rest) (suc (suc n)) h k = (h, k)

pub un_negate : (b : Bool) → not b ≡ false → b ≡ true
un_negate true h = refl
un_negate false h = absurd (cc)

pub or_left : (b c : Bool) → (b || c) ≡ false → b ≡ false
or_left true c h = absurd (cc)
or_left false c h = refl

pub and_left : (b c : Bool) → (b && c) ≡ true → b ≡ true
and_left true c h = refl
and_left false c h = absurd (cc)

pub and_right : (b c : Bool) → (b && c) ≡ true → c ≡ true
and_right true c h = h
and_right false c h = absurd (cc)

option_turn-Turns :
    (ended : Bool) (first : Word) (rest : List Word) (specs : List OptionSpec)
    → Turns first rest (option_turn ended first rest specs)
unfolding option_turn
option_turn-Turns ended first rest specs =
    by_cases (Turns first rest) ended _ _ (λ e. refl)
      λ e.
        by_cases (Turns first rest) (not first.known) _ _ (λ e. refl)
          λ known.
            by_cases (Turns first rest) (bytes_eq first.text (codes "--")) _ _
              (λ e. there first rest rest (un_negate first.known known) (here rest))
              λ e.
                by_cases (Turns first rest) (not (has_prefix first.text (codes "-"))) _ _
                  (λ e. here (first ∷ rest))
                  (λ e.
                    skip-Turns first rest (consume_option first rest specs)
                      (un_negate first.known known) (consume_option-Takes first rest specs))

-- More known words in front.
pub Careful-there :
    (first : Word) (args : List Word) (result : Scanned)
    → first.known ≡ true
    → Careful args result
    → Careful (first ∷ args) result
Careful-there first args (remaining rest) h k = there first args rest h k
Careful-there first args (refused o) h k = k
Careful-there first args faulted h k = k

pub scan_options-Careful :
    (ctx : Ctx) (args : List Word) (specs : List OptionSpec)
    → Careful args (scan_options ctx args specs).1
unfolding scan_options
scan_options-Careful ctx [] specs = here []
scan_options-Careful ctx (first ∷ []) specs =
    turned (option_turn (poll ctx).0 first [] specs) (option_turn-Turns (poll ctx).0 first [] specs)
  where
    turned :
        (move : Move)
        → Turns first [] move
        → Careful
            (first ∷ [])
            (elim move as (λ m. Ctx × Scanned) [
              | returns result ↦ ((poll ctx).1, result)
              | skip_one ↦ ((poll ctx).1, remaining [])
              | skip_two ↦ ((poll ctx).1, faulted)
            ]).1
    turned (returns result) h = h
    turned skip_one h = there first [] [] h (here [])
    turned skip_two h = h
scan_options-Careful ctx (first ∷ second ∷ rest) specs =
    turned (option_turn (poll ctx).0 first (second ∷ rest) specs)
      (option_turn-Turns (poll ctx).0 first (second ∷ rest) specs)
      (scan_options-Careful (poll ctx).1 (second ∷ rest) specs)
      (scan_options-Careful (poll ctx).1 rest specs)
  where
    turned :
        (move : Move)
        → Turns first (second ∷ rest) move
        → Careful (second ∷ rest) (scan_options (poll ctx).1 (second ∷ rest) specs).1
        → Careful rest (scan_options (poll ctx).1 rest specs).1
        → Careful
            (first ∷ second ∷ rest)
            (elim move as (λ m. Ctx × Scanned) [
              | returns result ↦ ((poll ctx).1, result)
              | skip_one ↦ scan_options (poll ctx).1 (second ∷ rest) specs
              | skip_two ↦ scan_options (poll ctx).1 rest specs
            ]).1
    turned (returns result) h one two = h
    turned skip_one h one two = Careful-there first (second ∷ rest) _ h one
    turned skip_two h one two =
        Careful-there first (second ∷ rest) _ h.0 (Careful-there second rest _ h.1 two)
