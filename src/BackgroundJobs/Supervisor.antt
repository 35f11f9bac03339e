-- ===== src/BackgroundJobs/Supervisor.antt =====
-- `parseSupervisorStatus` of backgroundjobs/supervisor.go, and what the supervisor's script of
-- process.go prints.
pub mod Status
use eino_agent_extensions.Prelude.{
  ℕ, zero, suc, ◌+◌, ◌-◌, ◌*◌, ◌/◌, ◌%◌, Bool, true, false, ◌&&◌, ◌||◌, not, Option, none, some,
  List, [], ◌∷◌, ◌++◌, Bytes, bytes_eq, length, take, drop, ltb, leb, ◌==◌, if◌then◌else◌, codes,
}

abbrev pub is_digit : ℕ → Bool
is_digit c = leb b'0' c && leb c b'9'

-- The digits of `strconv.Atoi`, from a value on; texts are too short here to overflow.
unfoldable pub digits_from : ℕ → Bytes → Option ℕ
digits_from n [] = some n
digits_from n (c ∷ cs) =
    let rest = digits_from (n * 10 + (c - b'0')) cs in if is_digit c then rest else none

abbrev pub some_digits : Bytes → Option ℕ
some_digits [] = none
some_digits (c ∷ cs) = digits_from 0 (c ∷ cs)

-- `strconv.Atoi`: whether there is a minus sign, and the number behind the sign.
unfoldable pub atoi : Bytes → Bool × Option ℕ
unfolding digits_from
atoi [] = (false, none)
atoi (c ∷ cs) =
    if c == b'-'
    then (true, some_digits cs)
    else (if c == b'+' then (false, some_digits cs) else (false, some_digits (c ∷ cs)))

abbrev pub last_is : ℕ → Bytes → Bool
last_is b [] = false
last_is b (c ∷ []) = c == b
last_is b (c ∷ d ∷ cs) = last_is b (d ∷ cs)

abbrev pub leading_zero : Bytes → Bool
leading_zero [] = false
leading_zero (c ∷ cs) = c == b'0' && ltb 1 (length (c ∷ cs))

-- The last line: the sign of a code that is refused is left out.
abbrev pub status_of : Bool × Option ℕ → Bool × ℕ
status_of (negative, none) = (false, 0)
status_of (negative, some n) = ((not negative || n == 0) && leb n 255, n)

abbrev pub parse_value : Bytes → Bool × ℕ
parse_value value =
    if bytes_eq value [] || leading_zero value then (false, 0) else status_of (atoi value)

unfoldable pub parse_supervisor_status : Bytes → Bool → Bool × ℕ
unfolding atoi
parse_supervisor_status raw read_error =
    if read_error
      || ltb (length raw) 5
      || ltb 8 (length raw)
      || not (bytes_eq (take 3 raw) (codes "v1:"))
      || not (last_is b'\n' raw)
    then (false, 0)
    else parse_value (take (length raw - 4) (drop 3 raw))

-- `printf '%d'` of a shell's exit status.
abbrev pub decimal : ℕ → Bytes
decimal n =
    if ltb n 10
    then (b'0' + n) ∷ []
    else if ltb n 100
    then (b'0' + n / 10) ∷ (b'0' + n % 10) ∷ []
    else (b'0' + n / 100) ∷ (b'0' + (n / 10) % 10) ∷ (b'0' + n % 10) ∷ []

unfoldable pub print_status : ℕ → Bytes
print_status status = codes "v1:" ++ decimal status ++ (b'\n' ∷ [])
