-- ===== src/Json/Laws.antt =====
-- What a parsed literal is, and how far the loops go.
use eino_agent_extensions.Prelude.{
  ℕ, zero, suc, ◌+◌, ◌-◌, ◌≤◌, ◌≡◌, refl, sym, ap, true, Option, none, some, [], ◌∷◌, Bytes, length,
  take, drop, length-drop, ◌==◌, Bool-cases, Option-cases, inl, inr, arith,
}
use eino_agent_extensions.Json.{
  JsonLib, leading_spaces, primitive_length, one_more, literal_step, literal_from,
  valid_json_string_encoding, decoded, literal_value, parse_string_literal, quote,
}

-- The bytes of a text from a position to another.
abbrev pub slice : ℕ → ℕ → Bytes → Bytes
slice start end raw = take (end - start) (drop start raw)

pub leading_spaces_le : (bs : Bytes) → leading_spaces bs ≤ length bs
unfolding leading_spaces
leading_spaces_le [] = omega arith
leading_spaces_le (c ∷ cs) = ground (arith, leading_spaces_le cs)

pub primitive_length_le : (bs : Bytes) → primitive_length bs ≤ length bs
unfolding primitive_length
primitive_length_le [] = omega arith
primitive_length_le (c ∷ cs) = ground (arith, primitive_length_le cs)

one_more-some : (o : Option ℕ) (n : ℕ) → one_more o ≡ some n → (k : ℕ) × (o ≡ some k) × (n ≡ suc k)
one_more-some none n h = cc
one_more-some (some k) n h = (k, refl, cc)

literal_from_le :
    (lib : JsonLib) (skip : ℕ) (bs : Bytes) (n : ℕ)
    → literal_from lib skip bs ≡ some n
    → (1 ≤ n) × (n ≤ length bs)
unfolding literal_from
literal_from_le lib zero [] n h = cc
literal_from_le lib (suc skip) [] n h = cc
literal_from_le lib (suc skip) (c ∷ cs) n h =
    let more = one_more-some (literal_from lib skip cs) n h in
    let ih = literal_from_le lib skip cs more.0 more.1 in
    (omega (arith, more.2), omega (arith, more.2, ih))
literal_from_le lib zero (c ∷ cs) n h = elim (Bool-cases (c == quote)) [
  | inl closes ↦
      let e : some 1 ≡ some n = rw (closes, literal_from) at h in
      let one : 1 ≡ n = cc in (omega (arith, one), omega (arith, one))
  | inr goes_on ↦ elim (Option-cases (literal_step lib c cs)) [
    | inl stops ↦ let e = rw (goes_on, stops, literal_from) at h in cc
    | inr (skip, steps) ↦
        let more =
          one_more-some (literal_from lib skip cs) n (rw (goes_on, steps, literal_from) at h) in
        let ih = literal_from_le lib skip cs more.0 more.1 in
        (omega (arith, more.2), omega (arith, more.2, ih))
  ]
]

-- A string literal of a text, from its opening quote through its closing one.
pub record IsLiteral (lib : JsonLib) (raw : Bytes) (start end : ℕ) (value : Bytes) : Type 0 where
  pub opens : (start + 2) ≤ end
  pub within : end ≤ length raw
  pub encoded : valid_json_string_encoding lib (slice start end raw) ≡ true
  pub decodes : lib.unmarshal (slice start end raw) ≡ some value

decoded-some :
    (lib : JsonLib) (end : ℕ) (o : Option Bytes) (r : ℕ × Bytes)
    → decoded lib end o ≡ some r
    → (r.0 ≡ end) × (o ≡ some r.1)
decoded-some lib end none r h = cc
decoded-some lib end (some value) r h =
    let e : (end, value) ≡ r = cc in
    (sym (ap (λ (p : ℕ × Bytes). p.0) e), ap (λ (p : ℕ × Bytes). some p.1) e)

literal_value-some :
    (lib : JsonLib) (end : ℕ) (literal : Bytes) (r : ℕ × Bytes)
    → literal_value lib end literal ≡ some r
    → (r.0 ≡ end)
      × (valid_json_string_encoding lib literal ≡ true)
      × (lib.unmarshal literal ≡ some r.1)
literal_value-some lib end literal r h =
    elim (Bool-cases (valid_json_string_encoding lib literal)) [
      | inl valid ↦
          let d = decoded-some lib end (lib.unmarshal literal) r (rw valid at h) in
          (d.0, valid, d.1)
      | inr wrong ↦ let e = rw wrong at h in cc
    ]

pub parse_string_literal-IsLiteral :
    (lib : JsonLib) (raw : Bytes) (start end : ℕ) (value : Bytes)
    → parse_string_literal lib raw start ≡ some (end, value)
    → IsLiteral lib raw start end value
unfolding parse_string_literal
parse_string_literal-IsLiteral lib raw start end value h =
    elim (Option-cases (literal_from lib 0 (drop (start + 1) raw))) [
      | inl none_there ↦ let e = rw none_there at h in cc
      | inr (n, found) ↦
          let bounds = literal_from_le lib 0 (drop (start + 1) raw) n found in
          let v =
            literal_value-some lib (start + 1 + n) (take (1 + n) (drop start raw)) (end, value)
              (rw found at h) in
          let length_ : (1 + n) ≡ (end - start) = omega (arith, v.0) in
          record {
            opens = omega (arith, v.0, bounds);
            within = omega (arith, v.0, bounds, length-drop (start + 1) raw);
            encoded = rw (← length_) v.1;
            decodes = rw (← length_) v.2;
          }
    ]
