-- ===== src/CommandGuard/Carriage.antt =====
-- `maskCarriageReturns` of commandguard/parser.go, and the line of `decode` in words.go that takes
-- the mask away.
pub mod Laws
use eino_agent_extensions.Prelude.{
  ℕ, Bool, true, false, ◌||◌, Option, none, some, List, [], ◌∷◌, Bytes, ◌==◌, if◌then◌else◌,
}

-- `strings.ContainsRune` for an ASCII byte.
unfoldable pub contains : ℕ → Bytes → Bool
contains b [] = false
contains b (x ∷ xs) = x == b || contains b xs

-- `strings.ReplaceAll` for single bytes.
unfoldable pub replace_all : ℕ → ℕ → Bytes → Bytes
replace_all old new [] = []
replace_all old new (x ∷ xs) = (if x == old then new else x) ∷ replace_all old new xs

unfoldable pub candidates : List ℕ
candidates =
    1 ∷ 2 ∷ 3 ∷ 4 ∷ 5 ∷ 6 ∷ 7 ∷ 8 ∷ 14 ∷ 15 ∷ 16 ∷ 17 ∷ 18 ∷ 19 ∷ 20 ∷ 21 ∷ 22 ∷ 23 ∷ 24 ∷ 25 ∷ 26
    ∷ 27 ∷ 28 ∷ 29 ∷ 30 ∷ 31 ∷ []

-- The loop over the candidates; `none` is an unanalysable text.
unfoldable pub mask_from : Bytes → List ℕ → Option (Bytes × ℕ)
unfolding contains replace_all
mask_from s [] = none
mask_from s (candidate ∷ more) =
    let rest = mask_from s more in
    if contains candidate s then rest else some (replace_all b'\r' candidate s, candidate)

-- The text and the mask, which is 0 if there is none.
unfoldable pub mask_carriage_returns : Bytes → Option (Bytes × ℕ)
unfolding mask_from candidates
mask_carriage_returns s = if contains b'\r' s then mask_from s candidates else some (s, 0)

-- What `decode` makes of a text of the parser.
unfoldable pub unmask : ℕ → Bytes → Bytes
unfolding replace_all
unmask carriage s = if carriage == 0 then s else replace_all carriage b'\r' s
