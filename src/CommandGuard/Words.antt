-- ===== src/CommandGuard/Words.antt =====
-- commandguard/errors.go, words.go and variables.go: outcomes, words, and names of variables.
use eino_agent_extensions.Prelude.{
  ℕ, Bool, true, false, ◌&&◌, ◌||◌, Option, none, some, List, [], ◌∷◌, Bytes, bytes_eq, leb, ◌==◌,
  codes,
}

pub data Outcome : Type 0 where
  abstain rule_match invalid_command unanalysable analysis_limit capacity : Outcome

pub record Word : Type 0 where
  pub text : Bytes
  pub known : Bool

-- `strings.CutPrefix`
abbrev pub cut_prefix : Bytes → Bytes → Option Bytes
cut_prefix text [] = some text
cut_prefix [] (y ∷ ys) = none
cut_prefix (x ∷ xs) (y ∷ ys) = elim (x == y) [ true ↦ cut_prefix xs ys | false ↦ none ]

abbrev pub is_some {ℓ} : {A : Type ℓ} → Option A → Bool
is_some none = false
is_some (some a) = true

-- `strings.HasPrefix`
abbrev pub has_prefix : Bytes → Bytes → Bool
has_prefix text prefix = is_some (cut_prefix text prefix)

-- What stands before the first such byte: `none` if there is none.
unfoldable pub before : ℕ → Bytes → Option Bytes
before b [] = none
before b (x ∷ xs) = elim (x == b) [
  | true ↦ some []
  | false ↦ elim (before b xs) [ none ↦ none | some key ↦ some (x ∷ key) ]
]

-- `case` on a list of strings.
abbrev pub one_of : Bytes → List Bytes → Bool
one_of text [] = false
one_of text (x ∷ xs) = bytes_eq text x || one_of text xs

abbrev pub is_digit : ℕ → Bool
is_digit c = leb b'0' c && leb c b'9'

abbrev pub is_letter : ℕ → Bool
is_letter c = (leb b'a' c && leb c b'z') || (leb b'A' c && leb c b'Z')

unfoldable pub opaque_variable_target : Bytes → Bool
opaque_variable_target name =
    has_prefix name (codes "BASH_")
    || one_of name (
        codes "OPTIND"
        ∷ codes "RANDOM"
        ∷ codes "SRANDOM"
        ∷ codes "SECONDS"
        ∷ codes "HISTCMD"
        ∷ codes "MAILCHECK"
        ∷ [])
    || one_of name (
        codes "PS0"
        ∷ codes "PS1"
        ∷ codes "PS2"
        ∷ codes "PS3"
        ∷ codes "PS4"
        ∷ codes "PROMPT_COMMAND"
        ∷ codes "ENV"
        ∷ [])

-- Every byte satisfies a test.
abbrev pub all_bytes : (ℕ → Bool) → Bytes → Bool
all_bytes p [] = true
all_bytes p (x ∷ xs) = p x && all_bytes p xs

unfoldable pub variable_name : Bytes → Bool
variable_name [] = false
variable_name (c ∷ cs) =
    (c == b'_' || is_letter c) && all_bytes (λ d. d == b'_' || is_letter d || is_digit d) cs
