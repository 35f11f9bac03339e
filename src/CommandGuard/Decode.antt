-- ===== src/CommandGuard/Decode.antt =====
-- `decode` of commandguard/words.go: the text of a word without its quotes, and whether it is known.
use eino_agent_extensions.Prelude.{
  ℕ, ◌+◌, Bool, true, false, ◌&&◌, ◌||◌, not, Option, none, some, [], ◌∷◌, ◌++◌, Bytes, length,
  drop, ltb, ◌==◌, if◌then◌else◌,
}
use eino_agent_extensions.Context.{Ctx, poll}
use eino_agent_extensions.CommandGuard.Words.{
  Outcome, abstain, invalid_command, analysis_limit, Word,
}
use eino_agent_extensions.CommandGuard.Carriage.{contains, unmask}
use eino_agent_extensions.CommandGuard.Syntax.{
  Node, Nodes, nil, cons, lit, sgl_quoted, dbl_quoted, word, call, word_iter, for_clause, assign,
  param_exp, ext_glob, plain, other,
}

-- The variables of `decode`; `bracket` is none for -1.
pub record Decoding : Type 0 where
  pub ctx : Ctx
  pub text : Bytes
  pub known : Bool
  pub bracket : Option ℕ

abbrev pub is_none : Option ℕ → Bool
is_none none = true
is_none (some n) = false

-- `appendText`: false leaves the text as it is.
unfoldable pub append_text : ℕ → ℕ → Bytes → Decoding → Decoding × Bool
append_text max_word_bytes carriage s d =
    if ltb max_word_bytes (length d.text + length s)
    then (d, false)
    else (record d { text = d.text ++ unmask carriage s }, true)

-- An unescaped byte outside quotes: globs and a leading tilde make the word unknown.
unfoldable pub note_byte : Bool → ℕ → Decoding → Decoding
note_byte quoted c d = if quoted then d else record d {
  known = if c == b'*' || c == b'?' || (c == b'~' && length d.text == 0) then false else d.known;
  bracket = if c == b'[' && is_none d.bracket then some (length d.text) else d.bracket;
}

-- The bytes that a backslash quotes inside double quotes.
abbrev pub escapable : ℕ → Bool
escapable c = c == b'$' || c == b'`' || c == b'"' || c == b'\\' || c == b'\n'

abbrev pub continue_if {ℓ} : {A : Type ℓ} → Decoding × Bool → (Decoding → A) → (Decoding → A) → A
continue_if (d, true) go stop = go d
continue_if (d, false) go stop = stop d

-- The loop over the bytes of a literal; false is a word that is too long.
unfoldable pub decode_lit : ℕ → ℕ → Bool → Bytes → Decoding → Decoding × Bool
unfolding append_text note_byte unmask
decode_lit max_word_bytes carriage quoted [] d = (d, true)
decode_lit max_word_bytes carriage quoted (c ∷ []) d =
    append_text max_word_bytes carriage (c ∷ []) (note_byte quoted c d)
decode_lit max_word_bytes carriage quoted (c ∷ next ∷ rest) d = elim (c == b'\\') [
  | true ↦ elim (not quoted || escapable next) [
    | true ↦ elim (next == b'\n') [
      | true ↦ decode_lit max_word_bytes carriage quoted rest d
      | false ↦
          continue_if (append_text max_word_bytes carriage (next ∷ []) d)
            (decode_lit max_word_bytes carriage quoted rest) (λ d'. (d', false))
    ]
    | false ↦
        continue_if (append_text max_word_bytes carriage (c ∷ []) d)
          (decode_lit max_word_bytes carriage quoted (next ∷ rest)) (λ d'. (d', false))
  ]
  | false ↦
      continue_if (append_text max_word_bytes carriage (c ∷ []) (note_byte quoted c d))
        (decode_lit max_word_bytes carriage quoted (next ∷ rest)) (λ d'. (d', false))
]

abbrev pub as_outcome : Decoding × Bool → Decoding × Outcome
as_outcome (d, true) = (d, abstain)
as_outcome (d, false) = (d, analysis_limit)

abbrev pub unknown_if : Bool → Decoding → Decoding
unknown_if true d = record d { known = false }
unknown_if false d = d

-- A part behind the question whether the context has ended, and what follows it.
abbrev pub then_parts : Decoding × Outcome → (Decoding → Decoding × Outcome) → Decoding × Outcome
then_parts (d, abstain) rest = rest d
then_parts (d, o) rest = (d, o)

abbrev pub asked : Decoding → (Decoding → Decoding × Outcome) → Decoding × Outcome
asked d go =
    let d' = record d { ctx = (poll d.ctx).1 } in
    if (poll d.ctx).0 then (d', invalid_command) else go d'

-- The local function `parts`: the types that it does not name make the word unknown.
unfoldable mutual
  unfolding decode_lit append_text

  pub decode_part : ℕ → ℕ → Bool → Node → Decoding → Decoding × Outcome
  decode_part max carriage quoted (lit v) d = as_outcome (decode_lit max carriage quoted v d)
  decode_part max carriage quoted (sgl_quoted dollar v) d =
      as_outcome (append_text max carriage v (unknown_if dollar d))
  decode_part max carriage quoted (dbl_quoted dollar ns) d =
      decode_parts max carriage true ns (unknown_if dollar d)
  decode_part max carriage quoted (word ns) d = (record d { known = false }, abstain)
  decode_part max carriage quoted (call ns) d = (record d { known = false }, abstain)
  decode_part max carriage quoted (word_iter name ns) d = (record d { known = false }, abstain)
  decode_part max carriage quoted (for_clause w ns) d = (record d { known = false }, abstain)
  decode_part max carriage quoted (assign v ns) d = (record d { known = false }, abstain)
  decode_part max carriage quoted (param_exp v ns) d = (record d { known = false }, abstain)
  decode_part max carriage quoted (ext_glob ns) d = (record d { known = false }, abstain)
  decode_part max carriage quoted (plain ns) d = (record d { known = false }, abstain)
  decode_part max carriage quoted (other ns) d = (record d { known = false }, abstain)

  pub decode_parts : ℕ → ℕ → Bool → Nodes → Decoding → Decoding × Outcome
  decode_parts max carriage quoted nil d = (d, abstain)
  decode_parts max carriage quoted (cons n ns) d =
      then_parts (asked d (decode_part max carriage quoted n)) (decode_parts max carriage quoted ns)

-- An opening bracket with a closing one behind it.
abbrev pub globbed : Option ℕ → Bytes → Bool
globbed none text = false
globbed (some bracket) text = contains b']' (drop (bracket + 1) text)

-- The lines behind the parts; `splits` is `syntax.SplitBraces` of the word.
abbrev pub as_word : Bool → Decoding → Word
as_word splits d = record {
  text = d.text;
  known = if globbed d.bracket d.text || splits then false else d.known;
}

abbrev pub no_word : Word
no_word = record { text = []; known = false }

abbrev pub finish_word : Bool → Decoding × Outcome → Ctx × Word × Outcome
finish_word splits (d, abstain) = (d.ctx, as_word splits d, abstain)
finish_word splits (d, o) = (d.ctx, no_word, o)

-- `syntax.SplitBraces` is not under src/: a parameter.
unfoldable pub decode : (Nodes → Bool) → ℕ → ℕ → Nodes → Ctx → Ctx × Word × Outcome
unfolding decode_parts decode_part contains
decode split_braces max carriage ns ctx = finish_word (split_braces ns) (
    decode_parts max carriage false ns
      (record { ctx = ctx; text = []; known = true; bracket = none }))
