-- ===== src/CommandGuard/Options.antt =====
-- commandguard/wrapper_options.go: the options that a wrapper command may have.
pub mod Laws
use eino_agent_extensions.Prelude.{
  ℕ, zero, suc, Bool, true, false, ◌&&◌, ◌||◌, not, Option, none, some, List, [], ◌∷◌, ◌++◌, Bytes,
  bytes_eq, leb, ◌==◌, if◌then◌else◌, codes,
}
use eino_agent_extensions.CommandGuard.Words.{
  Outcome, abstain, invalid_command, unanalysable, Word, cut_prefix, has_prefix, one_of, is_digit,
  is_letter, all_bytes, variable_name, is_some,
}
use eino_agent_extensions.Context.{Ctx, poll}

-- The rest of a text behind its leading digits, and whether there was one.
abbrev digits : Bool → Bytes → Bool × Bytes
digits some_read [] = (some_read, [])
digits some_read (c ∷ cs) = if is_digit c then digits true cs else (some_read, c ∷ cs)

-- `[smhd]?$`
abbrev unit : Bytes → Bool
unit [] = true
unit (c ∷ []) = c == b's' || c == b'm' || c == b'h' || c == b'd'
unit (c ∷ d ∷ cs) = false

-- `(\.[0-9]+)?[smhd]?$`
abbrev fraction : Bytes → Bool
fraction [] = true
fraction (c ∷ cs) =
    if c == b'.' then (digits false cs).0 && unit (digits false cs).1 else unit (c ∷ cs)

-- `^[0-9]+(\.[0-9]+)?[smhd]?$`
unfoldable pub duration_shape : Bytes → Bool
duration_shape s = (digits false s).0 && fraction (digits false s).1

-- `^([0-9]+|[A-Za-z][A-Za-z0-9]*)$`
unfoldable pub signal_shape : Bytes → Bool
signal_shape [] = false
signal_shape (c ∷ cs) =
    (is_digit c && all_bytes is_digit cs)
    || (is_letter c && all_bytes (λ d. is_letter d || is_digit d) cs)

-- A number is a signal unless all its digits are 0.
unfoldable pub signal : Bytes → Bool
unfolding signal_shape
signal [] = false
signal (c ∷ cs) =
    signal_shape (c ∷ cs) && (not (is_digit c) || not (all_bytes (λ d. d == b'0') (c ∷ cs)))

pub data OptionValue : Type 0 where
  nonempty variable duration signal_name flag_option : OptionValue

unfoldable pub valid_operand : Bytes → OptionValue → Bool
unfolding duration_shape signal variable_name
valid_operand [] kind = false
valid_operand (c ∷ cs) nonempty = true
valid_operand (c ∷ cs) variable = variable_name (c ∷ cs)
valid_operand (c ∷ cs) duration = duration_shape (c ∷ cs)
valid_operand (c ∷ cs) signal_name = signal (c ∷ cs)
valid_operand (c ∷ cs) flag_option = false

pub record OptionSpec : Type 0 where
  pub spelling : Bytes
  pub kind : OptionValue

abbrev spec : Bytes → OptionValue → OptionSpec
spec spelling kind = record { spelling = spelling; kind = kind }

unfoldable pub env_options : List OptionSpec
env_options =
    spec (codes "-i") flag_option
    ∷ spec (codes "--ignore-environment") flag_option
    ∷ spec (codes "-u") variable
    ∷ spec (codes "--unset=") variable
    ∷ spec (codes "-C") nonempty
    ∷ spec (codes "--chdir=") nonempty
    ∷ []

unfoldable pub sudo_options : List OptionSpec
sudo_options =
    spec (codes "-n") flag_option
    ∷ spec (codes "-E") flag_option
    ∷ spec (codes "-H") flag_option
    ∷ spec (codes "-u") nonempty
    ∷ spec (codes "--user=") nonempty
    ∷ spec (codes "-g") nonempty
    ∷ spec (codes "--group=") nonempty
    ∷ spec (codes "-D") nonempty
    ∷ spec (codes "--chdir=") nonempty
    ∷ []

unfoldable pub timeout_options : List OptionSpec
timeout_options =
    spec (codes "--foreground") flag_option
    ∷ spec (codes "--preserve-status") flag_option
    ∷ spec (codes "-v") flag_option
    ∷ spec (codes "--verbose") flag_option
    ∷ spec (codes "-s") signal_name
    ∷ spec (codes "--signal=") signal_name
    ∷ spec (codes "-k") duration
    ∷ spec (codes "--kill-after=") duration
    ∷ []

-- `strings.HasSuffix(spelling, "=")`
unfoldable pub attached : Bytes → Bool
attached [] = false
attached (c ∷ []) = c == b'='
attached (c ∷ d ∷ cs) = attached (d ∷ cs)

unfoldable pub operand_fits : OptionValue → Option Bytes → Bool
unfolding valid_operand
operand_fits kind none = false
operand_fits kind (some value) = valid_operand value kind

unfoldable pub next_fits : OptionValue → List Word → ℕ
unfolding valid_operand
next_fits kind [] = 0
next_fits kind (w ∷ ws) = if w.known && valid_operand w.text kind then 2 else 0

-- An option that is spelled out: with its operand, unless it is a flag.
unfoldable pub spelled : OptionValue → List Word → ℕ
unfolding next_fits
spelled flag_option rest = 1
spelled nonempty rest = next_fits nonempty rest
spelled variable rest = next_fits variable rest
spelled duration rest = next_fits duration rest
spelled signal_name rest = next_fits signal_name rest

-- How many of the first argument and the others an option takes: 0 if it is not supported.
unfoldable pub consume_option : Word → List Word → List OptionSpec → ℕ
unfolding operand_fits attached spelled
consume_option first rest [] = 0
consume_option first rest (s ∷ specs) =
    let others = consume_option first rest specs in
    if attached s.spelling
    then (if operand_fits s.kind (cut_prefix first.text s.spelling) then 1 else others)
    else (if bytes_eq first.text s.spelling then spelled s.kind rest else others)

-- `wrapperOptions`; a name that it lacks has no options.
unfoldable pub wrapper_options : Bytes → List OptionSpec
unfolding env_options sudo_options timeout_options
wrapper_options name =
    if bytes_eq name (codes "env")
    then env_options
    else if bytes_eq name (codes "sudo")
    then sudo_options
    else if bytes_eq name (codes "timeout")
    then timeout_options
    else []

-- The words that are left, or an outcome, or a panic for an index out of range.
pub data Scanned : Type 0 where
  remaining : List Word → Scanned
  refused : Outcome → Scanned
  faulted : Scanned

-- What a turn of the loop of `scanOptions` does: it returns, or goes on behind some words.
pub data Move : Type 0 where
  returns : Scanned → Move
  skip_one skip_two : Move

unfoldable pub skip : ℕ → Move
skip zero = returns (refused unanalysable)
skip (suc zero) = skip_one
skip (suc (suc n)) = skip_two

unfoldable pub option_turn : Bool → Word → List Word → List OptionSpec → Move
unfolding consume_option skip
option_turn ended first rest specs =
    if ended
    then returns (refused invalid_command)
    else if not first.known
    then returns (refused unanalysable)
    else if bytes_eq first.text (codes "--")
    then returns (remaining rest)
    else if not (has_prefix first.text (codes "-"))
    then returns (remaining (first ∷ rest))
    else skip (consume_option first rest specs)

unfoldable pub scan_options : Ctx → List Word → List OptionSpec → Ctx × Scanned
unfolding option_turn
scan_options ctx [] specs = (ctx, remaining [])
scan_options ctx (first ∷ []) specs = elim (option_turn (poll ctx).0 first [] specs) [
  | returns result ↦ ((poll ctx).1, result)
  | skip_one ↦ ((poll ctx).1, remaining [])
  | skip_two ↦ ((poll ctx).1, faulted)
]
scan_options ctx (first ∷ second ∷ rest) specs =
    elim (option_turn (poll ctx).0 first (second ∷ rest) specs) [
      | returns result ↦ ((poll ctx).1, result)
      | skip_one ↦ scan_options (poll ctx).1 (second ∷ rest) specs
      | skip_two ↦ scan_options (poll ctx).1 rest specs
    ]
