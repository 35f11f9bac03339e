-- ===== src/Json.antt =====
-- The lexical part of the JSON scanners, which rtkreducer/json.go and toolresultredactor/json.go have
-- in the same words: spaces, primitives and string literals at a position of a text.
--
-- A loop over the bytes behind a position is a recursion on those bytes that counts them; a step of
-- several bytes is a count of bytes to pass.
pub mod Laws
pub mod Rewriting
use eino_agent_extensions.Prelude.{
  ℕ, zero, suc, ◌+◌, ◌-◌, ◌*◌, Bool, true, false, ◌&&◌, ◌||◌, not, Option, none, some, List, [],
  ◌∷◌, Bytes, length, take, drop, get_elem?, ltb, leb, ◌==◌, if◌then◌else◌,
}

-- What the scanners call of Go's standard library: `utf8.DecodeRune`, by the size and by whether it
-- is an error of one byte, `utf8.Valid`, `json.Valid`, and `json.Unmarshal` and `json.Marshal` of a
-- string, `none` for an error.
pub record JsonLib : Type 0 where
  pub rune_size : Bytes → ℕ
  pub rune_error : Bytes → Bool
  pub utf8_valid : Bytes → Bool
  pub json_valid : Bytes → Bool
  pub unmarshal : Bytes → Option Bytes
  pub marshal : Bytes → Option Bytes

abbrev pub quote : ℕ
quote = 34

abbrev pub backslash : ℕ
backslash = 92

abbrev pub is_space : ℕ → Bool
is_space c = c == 32 || c == 9 || c == 13 || c == 10

-- `skipSpace`
unfoldable pub leading_spaces : Bytes → ℕ
leading_spaces [] = 0
leading_spaces (c ∷ cs) = let rest = leading_spaces cs in if is_space c then suc rest else 0

abbrev pub ends_primitive : ℕ → Bool
ends_primitive c = is_space c || c == b',' || c == b'}' || c == b']'

-- `parsePrimitive`
unfoldable pub primitive_length : Bytes → ℕ
primitive_length [] = 0
primitive_length (c ∷ cs) =
    let rest = primitive_length cs in if ends_primitive c then 0 else suc rest

-- The byte at a position is there, and is this one.
abbrev pub is_byte : ℕ → Option ℕ → Bool
is_byte c none = false
is_byte c (some d) = d == c

abbrev pub one_more : Option ℕ → Option ℕ
one_more none = none
one_more (some n) = some (suc n)

abbrev pub hex_digit : ℕ → Option ℕ
hex_digit c =
    if leb 48 c && leb c 57
    then some (c - 48)
    else if leb 97 c && leb c 102
    then some (c - 97 + 10)
    else (if leb 65 c && leb c 70 then some (c - 65 + 10) else none)

-- `result <<= 4; result += digit`
abbrev pub shift_in : Option ℕ → Option ℕ → Option ℕ
shift_in none digit = none
shift_in (some n) none = none
shift_in (some n) (some digit) = some (n * 16 + digit)

-- `parseHexRune`, on what follows the `u`.
unfoldable pub parse_hex_rune : Bytes → Option ℕ
parse_hex_rune (a ∷ b ∷ c ∷ d ∷ rest) =
    shift_in (shift_in (shift_in (shift_in (some 0) (hex_digit a)) (hex_digit b)) (hex_digit c))
      (hex_digit d)
parse_hex_rune _ = none

abbrev pub is_low_surrogate : Option ℕ → Bool
is_low_surrogate none = false
is_low_surrogate (some r) = leb 56320 r && leb r 57343

-- The second half of a pair, behind the first.
unfoldable pub second_half : Bytes → Bool
unfolding parse_hex_rune
second_half (a ∷ b ∷ rest) = a == backslash && b == b'u' && is_low_surrogate (parse_hex_rune rest)
second_half _ = false

-- How many bytes of a `u` escape follow the backslash.
abbrev pub unicode_escape : Option ℕ → Bytes → Option ℕ
unicode_escape none rest = none
unicode_escape (some first) rest =
    if leb 55296 first && leb first 57343
    then (if leb first 56319 && second_half rest then some 11 else none)
    else some 5

abbrev pub is_escape : ℕ → Bool
is_escape c =
    c == quote
    || c == backslash
    || c == b'/'
    || c == b'b'
    || c == b'f'
    || c == b'n'
    || c == b'r'
    || c == b't'

-- How many bytes of an escape follow the backslash.
unfoldable pub escape_length : Bytes → Option ℕ
unfolding parse_hex_rune second_half
escape_length [] = none
escape_length (e ∷ es) =
    if not (e == b'u')
    then (if is_escape e then some 1 else none)
    else unicode_escape (parse_hex_rune es) (drop 4 es)

module _ (lib : JsonLib) where
  -- How many bytes behind this one the loop of validJSONStringEncoding passes.
  unfoldable pub encoding_step : ℕ → Bytes → Option ℕ
  unfolding escape_length
  encoding_step c cs =
      if c == backslash
      then escape_length cs
      else if ltb c 32 || lib.rune_error (c ∷ cs)
      then none
      else some (lib.rune_size (c ∷ cs) - 1)

  -- The loop, on what stands between the quotes; the first argument is the bytes to pass.
  unfoldable pub valid_from : ℕ → Bytes → Bool
  unfolding encoding_step
  valid_from skip [] = true
  valid_from (suc skip) (c ∷ cs) = valid_from skip cs
  valid_from zero (c ∷ cs) = elim (encoding_step c cs) [
    | none ↦ false
    | some skip ↦ valid_from skip cs
  ]

  abbrev pub last_is_quote : Bytes → Bool
  last_is_quote [] = false
  last_is_quote (c ∷ []) = c == quote
  last_is_quote (c ∷ d ∷ cs) = last_is_quote (d ∷ cs)

  -- `validJSONStringEncoding`
  unfoldable pub valid_json_string_encoding : Bytes → Bool
  unfolding valid_from
  valid_json_string_encoding literal =
      not (ltb (length literal) 2)
      && is_byte quote (get_elem? literal 0)
      && last_is_quote literal
      && valid_from 0 (take (length literal - 2) (drop 1 literal))

  -- How many bytes behind this one the loop of parseStringLiteral passes; `none` ends it.
  unfoldable pub literal_step : ℕ → Bytes → Option ℕ
  literal_step c cs =
      if c == backslash
      then some 1
      else if ltb c 32 || lib.rune_size (c ∷ cs) == 0
      then none
      else some (lib.rune_size (c ∷ cs) - 1)

  -- The number of bytes from here through the closing quote.
  unfoldable pub literal_from : ℕ → Bytes → Option ℕ
  unfolding literal_step
  literal_from skip [] = none
  literal_from (suc skip) (c ∷ cs) = one_more (literal_from skip cs)
  literal_from zero (c ∷ cs) = elim (c == quote) [
    | true ↦ some 1
    | false ↦ elim (literal_step c cs) [ none ↦ none | some skip ↦ one_more (literal_from skip cs) ]
  ]

  -- What stands from the opening quote at a position through the closing one, and the position
  -- behind it; the value it decodes to.
  abbrev pub decoded : ℕ → Option Bytes → Option (ℕ × Bytes)
  decoded end none = none
  decoded end (some value) = some (end, value)

  abbrev pub literal_value : ℕ → Bytes → Option (ℕ × Bytes)
  literal_value end literal =
      if not (valid_json_string_encoding literal) then none else decoded end (lib.unmarshal literal)

  abbrev pub literal_of : Bytes → ℕ → Option ℕ → Option (ℕ × Bytes)
  literal_of raw start none = none
  literal_of raw start (some n) = literal_value (start + 1 + n) (take (1 + n) (drop start raw))

  -- `parseStringLiteral` at an opening quote: where the literal ends, and its value.
  unfoldable pub parse_string_literal : Bytes → ℕ → Option (ℕ × Bytes)
  unfolding literal_from valid_json_string_encoding
  parse_string_literal raw start = literal_of raw start (literal_from 0 (drop (start + 1) raw))
