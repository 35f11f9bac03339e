-- ===== src/ToolResultRedactor/Structured/Redactions.antt =====
-- What may stand in the place of a literal, and what a redacted text is, token by token.
use mathlib.Core.List.{append-nil, append_assoc}
use eino_agent_extensions.Prelude.{
  ℕ, zero, suc, ◌+◌, ◌-◌, ◌≤◌, ◌≡◌, ◌≢◌, refl, sym, ap, ◌∙◌, ◌⊎◌, Bool, true, false, ◌||◌, some,
  List, [], ◌∷◌, ◌++◌, Bytes, length, take, drop, drop_on, get_elem?, ◌==◌, arith,
}
use eino_agent_extensions.Json.{JsonLib, leading_spaces, primitive_length, is_byte, quote}
use eino_agent_extensions.Json.Laws.{slice, IsLiteral}
use eino_agent_extensions.ToolResultRedactor.Ranges.{placeholder}
use eino_agent_extensions.ToolResultRedactor.Ranges.Order.{covers}
use eino_agent_extensions.ToolResultRedactor.Ranges.Mask.{masked}
use eino_agent_extensions.ToolResultRedactor.Scalar.{Policy}
use eino_agent_extensions.ToolResultRedactor.Scalar.Laws.{AreMatchers, all_matches}
use eino_agent_extensions.ToolResultRedactor.Structured.{
  StructuredLimits, structured_placeholder, JsonReplacement,
}

take_nil : (n : ℕ) → take {A = ℕ} n [] ≡ []
take_nil zero = refl
take_nil (suc n) = refl

take_split : (m n k : ℕ) (xs : Bytes) → k ≡ m + n → take k xs ≡ take m xs ++ take n (drop m xs)
take_split zero n k xs h = ap (λ j. take j xs) (omega (arith, h))
take_split (suc m) n zero xs h = absurd (omega (arith, h))
take_split (suc m) n (suc k) [] h = sym (take_nil n)
take_split (suc m) n (suc k) (x ∷ xs) h = ap (λ t. x ∷ t) (take_split m n k xs (omega (arith, h)))

pub slice_on :
    (a b c : ℕ) (raw : Bytes) → a ≤ b → b ≤ c → slice a c raw ≡ slice a b raw ++ slice b c raw
slice_on a b c raw h k =
    take_split (b - a) (c - b) (c - a) (drop a raw) (omega (arith, h, k))
    ∙ ap (λ t. slice a b raw ++ take (c - b) t) (drop_on a b raw h)

slice_none : (a : ℕ) (raw : Bytes) → slice a a raw ≡ []
slice_none a raw =
    let nothing_left : a - a ≡ 0 = omega arith in ap (λ n. take n (drop a raw)) nothing_left

-- A brace, a bracket, a comma or a colon.
abbrev pub is_structure : ℕ → Bool
is_structure c = c == b'{' || c == b'}' || c == b'[' || c == b']' || c == b',' || c == b':'

module _ (lib : JsonLib) (p : Policy) (limits : StructuredLimits) (raw : Bytes)
    (l : AreMatchers p.rules) where
  -- What may stand in the place of a literal: the placeholder, or its value with all the matches
  -- masked, which has some.
  pub record IsRedaction (old new : Bytes) : Type 0 where
    pub value : Bytes
    pub decodes : lib.unmarshal old ≡ some value
    pub redacted :
        (new ≡ structured_placeholder)
        ⊎ ((all_matches p.rules l value ≢ [])
            × (lib.marshal (masked (covers (all_matches p.rules l value)) false 0 value)
                ≡ some new))

  pub record IsChange (r : JsonReplacement) : Type 0 where
    pub forward : r.start ≤ r.end
    pub within : r.end ≤ length raw
    pub allowed : IsRedaction (slice r.start r.end raw) r.value

  -- Replacements one behind the other from a position to another.
  abbrev pub Chain : ℕ → ℕ → List JsonReplacement → Type 0
  Chain from to [] = from ≤ to
  Chain from to (r ∷ rs) = (from ≤ r.start) × IsChange r × Chain r.end to rs

  pub Chain-mono :
      (from to later : ℕ) (rs : List JsonReplacement)
      → to ≤ later
      → Chain from to rs
      → Chain from later rs
  Chain-mono from to later [] h k = omega (arith, h, k)
  Chain-mono from to later (r ∷ rs) h k = (k.0, k.1, Chain-mono r.end to later rs h k.2)

  pub Chain-append :
      (from to : ℕ) (rs : List JsonReplacement) (r : JsonReplacement)
      → to ≤ r.start
      → IsChange r
      → Chain from to rs
      → Chain from r.end (rs ++ r ∷ [])
  Chain-append from to [] r h change k = (omega (arith, h, k), change, omega arith)
  Chain-append from to (q ∷ rs) r h change k = (k.0, k.1, Chain-append q.end to rs r h change k.2)

  -- A value in which no rule has a match, or the placeholder.
  abbrev pub IsClean : Bytes → Type 0
  IsClean value = (all_matches p.rules l value ≡ []) ⊎ (value ≡ placeholder)

  -- `Scans q out`: the text up to `q` is a sequence of tokens, and `out` is these tokens with every
  -- string literal clean and kept, or redacted. What is no literal is kept: spaces, marks of the
  -- structure, and primitives, which do not start with a quote.
  pub data Scans : ℕ → Bytes → Type 0 where
    nothing : Scans 0 []
    spaces :
        (q : ℕ) (out : Bytes)
        → Scans q out
        → Scans
            (q + leading_spaces (drop q raw))
            (out ++ slice q (q + leading_spaces (drop q raw)) raw)
    mark :
        (q c : ℕ) (out : Bytes)
        → is_byte c (get_elem? raw q) ≡ true
        → is_structure c ≡ true
        → Scans q out
        → Scans (q + 1) (out ++ slice q (q + 1) raw)
    primitive :
        (q : ℕ) (out : Bytes)
        → is_byte quote (get_elem? raw q) ≡ false
        → Scans q out
        → Scans
            (q + primitive_length (drop q raw))
            (out ++ slice q (q + primitive_length (drop q raw)) raw)
    kept :
        (q end : ℕ) (value out : Bytes)
        → IsLiteral lib raw q end value
        → IsClean value
        → Scans q out
        → Scans end (out ++ slice q end raw)
    redacted :
        (q end : ℕ) (value new out : Bytes)
        → IsLiteral lib raw q end value
        → IsRedaction (slice q end raw) new
        → Scans q out
        → Scans end (out ++ new)

  -- What the replacements make of the text from a position to another.
  abbrev pub copied : ℕ → List JsonReplacement → ℕ → Bytes
  copied from [] q = slice from q raw
  copied from (r ∷ rs) q = (slice from r.start raw ++ r.value) ++ copied r.end rs q

  pub copied_on :
      (from to q later : ℕ) (rs : List JsonReplacement)
      → Chain from to rs
      → to ≤ q
      → q ≤ later
      → copied from rs later ≡ copied from rs q ++ slice q later raw
  copied_on from to q later [] h k m = slice_on from q later raw (omega (arith, h, k)) m
  copied_on from to q later (r ∷ rs) h k m =
      ap (λ t. (slice from r.start raw ++ r.value) ++ t) (copied_on r.end to q later rs h.2 k m)
      ∙ sym
          (append_assoc (slice from r.start raw ++ r.value) (copied r.end rs q) (slice q later raw))

  pub copied-append :
      (from : ℕ) (rs : List JsonReplacement) (r : JsonReplacement)
      → copied from (rs ++ r ∷ []) r.end ≡ copied from rs r.start ++ r.value
  copied-append from [] r =
      ap (λ t. (slice from r.start raw ++ r.value) ++ t) (slice_none r.end raw)
      ∙ append-nil (slice from r.start raw ++ r.value)
  copied-append from (q ∷ rs) r =
      ap (λ t. (slice from q.start raw ++ q.value) ++ t) (copied-append q.end rs r)
      ∙ sym (append_assoc (slice from q.start raw ++ q.value) (copied q.end rs r.start) r.value)
