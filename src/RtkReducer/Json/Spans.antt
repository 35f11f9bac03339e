-- ===== src/RtkReducer/Json/Spans.antt =====
-- `parseObject` of rtkreducer/json.go: the spans of its strings, and its end.
use eino_agent_extensions.Prelude.{
  ℕ, zero, suc, ◌+◌, ◌≤◌, ◌≡◌, refl, true, Option, none, some, List, [], ◌∷◌, Bytes, length, drop,
  length-drop, get_elem?, leb, ◌==◌, by_cases, arith,
}
use eino_agent_extensions.Json.{
  JsonLib, leading_spaces, primitive_length, is_byte, parse_string_literal,
}
use eino_agent_extensions.Json.Laws.{
  leading_spaces_le, primitive_length_le, IsLiteral, parse_string_literal-IsLiteral,
}
use eino_agent_extensions.RtkReducer.Json.{
  StringSpan, ObjectScanner, Verdict, passes, fails, spent, Scanned, and_then, contains, skip_space,
  consume_node, expect, with_literal, literal, parse_primitive, after_item,
}

abbrev pub Ended : Verdict → Type 0
Ended passes = Unit {0}
Ended fails = Unit {0}
Ended spent = ⊥

module _ (lib : JsonLib) (raw : Bytes) (max_depth max_nodes : ℕ) (requested : List Bytes) where
  -- The newest span ends at or before a position and the others at or before its start; each is a
  -- literal of the text, under a key that was asked for.
  abbrev pub Spans : ℕ → List (Bytes × StringSpan) → Type 0
  Spans p [] = Unit {0}
  Spans p ((key, span) ∷ rest) =
      (span.end ≤ p)
      × IsLiteral lib raw span.start span.end span.value
      × (contains key requested ≡ true)
      × Spans span.start rest

  pub Spans-mono :
      (p q : ℕ) (found : List (Bytes × StringSpan)) → p ≤ q → Spans p found → Spans q found
  Spans-mono p q [] h k = tt
  Spans-mono p q ((key, span) ∷ rest) h k = (omega (arith, h, k.0), k.1, k.2, k.3)

  pub record Sane (s : ObjectScanner) : Type 0 where
    pub counted : s.nodes ≤ max_nodes
    pub within : s.position ≤ length raw
    pub spans : Spans s.position s.found

  -- What a function comes to: it ends, within the bound, and if it passes it leaves a sane scanner
  -- that has counted at least so many nodes.
  pub record Comes (n : ℕ) (r : Scanned) : Type 0 where
    pub ends : Ended r.1
    pub bound : r.0.nodes ≤ max_nodes
    pub on : r.1 ≡ passes → (n ≤ r.0.nodes) × Sane r.0

  pub failing : (n : ℕ) (s : ObjectScanner) → Sane s → Comes n (s, fails)
  failing n s h = record { ends = tt; bound = h.counted; on = λ e. cc }

  pub passing : (n : ℕ) (s : ObjectScanner) → n ≤ s.nodes → Sane s → Comes n (s, passes)
  passing n s k h = record { ends = tt; bound = h.counted; on = λ e. (k, h) }

  pub weaken : (n m : ℕ) (r : Scanned) → n ≤ m → Comes m r → Comes n r
  weaken n m r h k = record {
    ends = k.ends;
    bound = k.bound;
    on = λ e. (omega (arith, h, (k.on e).0), (k.on e).1);
  }

  pub moved :
      (s : ObjectScanner) (q : ℕ)
      → s.position ≤ q
      → q ≤ length raw
      → Sane s
      → Sane (record s { position = q })
  moved s q h k sane = record {
    counted = sane.counted;
    within = k;
    spans = Spans-mono s.position q s.found h sane.spans;
  }

  pub skip_space-Sane :
      (s : ObjectScanner) → Sane s → Sane (skip_space lib raw max_depth max_nodes requested s)
  skip_space-Sane s h =
      moved s (s.position + leading_spaces (drop s.position raw)) (omega arith)
        (omega
          (arith, h.within, leading_spaces_le (drop s.position raw), length-drop s.position raw))
        h

  -- A byte that is there is inside the text.
  byte_inside :
      (c : ℕ) (bs : Bytes) (i : ℕ) → is_byte c (get_elem? bs i) ≡ true → (i + 1) ≤ length bs
  byte_inside c [] i h = cc
  byte_inside c (b ∷ bs) zero h = omega arith
  byte_inside c (b ∷ bs) (suc i) h = omega (arith, byte_inside c bs i h)

  pub step-Sane :
      (c : ℕ) (s : ObjectScanner)
      → is_byte c (get_elem? raw s.position) ≡ true
      → Sane s
      → Sane (record s { position = s.position + 1 })
  step-Sane c s at h = moved s (s.position + 1) (omega arith) (byte_inside c raw s.position at) h

  pub and_then-Comes :
      (n : ℕ) (r : Scanned) (next : ObjectScanner → Scanned)
      → Comes n r
      → ((s : ObjectScanner) → n ≤ s.nodes → Sane s → Comes n (next s))
      → Comes n (and_then r next)
  unfolding and_then
  and_then-Comes n (s, passes) next h k = k s (h.on refl).0 (h.on refl).1
  and_then-Comes n (s, fails) next h k = record { ends = h.ends; bound = h.bound; on = h.on }
  and_then-Comes n (s, spent) next h k = record { ends = h.ends; bound = h.bound; on = h.on }

  pub consume_node-Comes :
      (n : ℕ) (s : ObjectScanner) (next : ObjectScanner → Scanned)
      → Sane s
      → (Sane (record s { nodes = s.nodes + 1 })
          → Comes n (next (record s { nodes = s.nodes + 1 })))
      → Comes n (consume_node lib raw max_depth max_nodes requested s next)
  unfolding consume_node
  consume_node-Comes n s next h k =
      by_cases (Comes n) (leb max_nodes s.nodes) _ _ (λ _. failing n s h)
        λ room. k (record { counted = ground arith; within = h.within; spans = h.spans })

  pub expect-Comes :
      (n c : ℕ) (s : ObjectScanner) (next : ObjectScanner → Scanned)
      → Sane s
      → (is_byte c (get_elem? raw s.position) ≡ true → Comes n (next s))
      → Comes n (expect lib raw max_depth max_nodes requested c s next)
  unfolding expect
  expect-Comes n c s next h k =
      by_cases (Comes n) (is_byte c (get_elem? raw s.position)) _ _ k (λ _. failing n s h)

  with_literal-Comes :
      (n : ℕ) (s : ObjectScanner) (o : Option (ℕ × Bytes))
      (next : ObjectScanner → ℕ → Bytes → Scanned)
      → parse_string_literal lib raw s.position ≡ o
      → Sane s
      → ((end : ℕ) (value : Bytes)
          → IsLiteral lib raw s.position end value
          → Sane (record s { position = end })
          → Comes n (next (record s { position = end }) end value))
      → Comes n (with_literal lib raw max_depth max_nodes requested s o next)
  unfolding with_literal
  with_literal-Comes n s none next e h k = failing n s h
  with_literal-Comes n s (some (end, value)) next e h k =
      let is_literal = parse_string_literal-IsLiteral lib raw s.position end value e in
      by_cases (Comes n) (lib.utf8_valid value) (next (record s { position = end }) end value)
        (s, fails)
        (λ _.
          k end value is_literal
            (moved s end (omega (arith, is_literal.opens)) is_literal.within h))
        (λ _. failing n s h)

  pub literal-Comes :
      (n : ℕ) (s : ObjectScanner) (next : ObjectScanner → ℕ → Bytes → Scanned)
      → Sane s
      → ((end : ℕ) (value : Bytes)
          → IsLiteral lib raw s.position end value
          → Sane (record s { position = end })
          → Comes n (next (record s { position = end }) end value))
      → Comes n (literal lib raw max_depth max_nodes requested s next)
  unfolding literal
  literal-Comes n s next h k =
      with_literal-Comes n s (parse_string_literal lib raw s.position) next refl h k

  pub parse_primitive-Comes :
      (s : ObjectScanner)
      → Sane s
      → Comes s.nodes (parse_primitive lib raw max_depth max_nodes requested s)
  unfolding parse_primitive
  parse_primitive-Comes s h =
      let n : ℕ = primitive_length (drop s.position raw) in
      let on =
        moved s (s.position + n) (omega arith)
          (omega (
            arith,
            h.within,
            primitive_length_le (drop s.position raw),
            length-drop s.position raw,
          ))
          h in
      by_cases (λ v. Comes s.nodes (record s { position = s.position + n }, v)) (n == 0) fails
        passes (λ _. failing s.nodes (record s { position = s.position + n }) on)
        (λ _. passing s.nodes (record s { position = s.position + n }) (omega arith) on)

  pub after_item-Comes :
      (n close : ℕ) (s : ObjectScanner) (next : ObjectScanner → Scanned)
      → n ≤ s.nodes
      → Sane s
      → (Sane (record s { position = s.position + 1 })
          → Comes n (next (record s { position = s.position + 1 })))
      → Comes n (after_item lib raw max_depth max_nodes requested close s next)
  unfolding after_item
  after_item-Comes n close s next enough h k =
      by_cases (Comes n) (is_byte close (get_elem? raw s.position)) _ _
        (λ at. passing n (record s { position = s.position + 1 }) enough (step-Sane close s at h))
        λ _.
          by_cases (Comes n) (is_byte b',' (get_elem? raw s.position)) _ _
            (λ at. k (step-Sane b',' s at h)) (λ _. failing n s h)
