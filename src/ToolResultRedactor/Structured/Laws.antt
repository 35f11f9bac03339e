-- ===== src/ToolResultRedactor/Structured/Laws.antt =====
-- `scanStructured` of toolresultredactor/json.go: the walk over a whole text.
use eino_agent_extensions.Prelude.{
  ℕ, zero, suc, ◌+◌, ◌≤◌, ◌<◌, ◌≡◌, refl, ap, ◌∙◌, true, Option, none, some, [], Bytes, get_elem?,
  ltb, ◌==◌, by_cases, arith,
}
use eino_agent_extensions.Context.{Ctx, poll}
use eino_agent_extensions.Json.{JsonLib, is_byte, quote}
use eino_agent_extensions.ToolResultRedactor.Scalar.{Policy, unchanged, unsafe}
use eino_agent_extensions.ToolResultRedactor.Scalar.Laws.{AreMatchers}
use eino_agent_extensions.ToolResultRedactor.Structured.{
  StructuredLimits, JsonWalker, state, Walked, and_then, skip_space, step, consume_node, literal,
  string_value, after_item, member_rest, behind_key, keyed, member, members, parse_object, elements,
  parse_array, dispatch, spaced_value, shallow, parse_value, walk,
}
use eino_agent_extensions.ToolResultRedactor.Structured.Redactions.{nothing}
use eino_agent_extensions.ToolResultRedactor.Structured.Walks.{
  Sane, Comes, failing, passing, weaken, skip_space-Sane, step-Sane, and_then-Comes,
  unless_ended-Comes, consume_node-Comes, expect-Comes, literal-Comes, string_value-Comes,
  clean_key-Comes, parse_primitive-Comes, after_item-Comes,
}

module _ (lib : JsonLib) (p : Policy) (limits : StructuredLimits) (raw : Bytes)
    (l : AreMatchers p.rules) where
  abbrev Is : JsonWalker → Type 0
  Is w = Sane lib p limits raw l w

  abbrev To : ℕ → Walked → Type 0
  To n r = Comes lib p limits raw l n r

  -- A walk over a value below: it counts at least one node.
  abbrev Below : (JsonWalker → Walked) → Type 0
  Below below = (w : JsonWalker) → Is w → To (w.nodes + 1) (below w)

  -- A walk over what follows, at a count of at least so many nodes.
  abbrev Follows : ℕ → (JsonWalker → Walked) → Type 0
  Follows n more = (w : JsonWalker) → n ≤ w.nodes → Is w → To n (more w)

  member_rest-Comes :
      (below more : JsonWalker → Walked) (w : JsonWalker)
      → is_byte b':' (get_elem? raw w.position) ≡ true
      → Below below
      → Follows w.nodes more
      → Is w
      → To w.nodes (member_rest lib p limits raw below more w)
  unfolding member_rest
  member_rest-Comes below more w at runs follows h =
      and_then-Comes lib p limits raw l w.nodes (below (step lib p limits raw w))
        (λ v. after_item lib p limits raw b'}' (skip_space lib p limits raw v) more)
        (weaken lib p limits raw l w.nodes (w.nodes + 1) (below (step lib p limits raw w))
          (omega arith)
          (runs (step lib p limits raw w) (step-Sane lib p limits raw l b':' w refl at h)))
        λ v enough sane.
          after_item-Comes lib p limits raw l w.nodes b'}' (skip_space lib p limits raw v) more refl
            enough (skip_space-Sane lib p limits raw l v sane)
            (follows (step lib p limits raw (skip_space lib p limits raw v)) enough)

  behind_key-Comes :
      (below more : JsonWalker → Walked) (w : JsonWalker)
      → Below below
      → Follows w.nodes more
      → Is w
      → To w.nodes (behind_key lib p limits raw below more w)
  unfolding behind_key
  behind_key-Comes below more w runs follows h =
      expect-Comes lib p limits raw l w.nodes b':' (skip_space lib p limits raw w)
        (member_rest lib p limits raw below more)
        λ at.
          member_rest-Comes below more (skip_space lib p limits raw w) at runs follows
            (skip_space-Sane lib p limits raw l w h)

  member-Comes :
      (below more : JsonWalker → Walked) (w : JsonWalker)
      → Below below
      → Follows w.nodes more
      → Is w
      → To w.nodes (member lib p limits raw below more w)
  unfolding member keyed
  member-Comes below more w runs follows h =
      let v : JsonWalker = skip_space lib p limits raw w in
      expect-Comes lib p limits raw l w.nodes quote v
        (λ v. literal lib p limits raw v (keyed lib p limits raw below more))
        λ _.
          literal-Comes lib p limits raw l w.nodes v (keyed lib p limits raw below more)
            λ end key is_literal.
              clean_key-Comes lib p limits raw l w.nodes end key v
                (behind_key lib p limits raw below more) is_literal
                (skip_space-Sane lib p limits raw l w h)
                λ ctx ready.
                  behind_key-Comes below more (record v { position = end; ctx = ctx }) runs follows
                    ready

  members-Comes :
      (fuel : ℕ) (below : JsonWalker → Walked) (w : JsonWalker)
      → Below below
      → Is w
      → limits.max_structured_nodes < (w.nodes + fuel)
      → To w.nodes (members lib p limits raw fuel below w)
  unfolding members
  members-Comes zero below w runs h enough = absurd (omega (arith, h.counted, enough))
  members-Comes (suc fuel) below w runs h enough =
      let u : JsonWalker = record w { ctx = (poll w.ctx).1 } in
      let t : JsonWalker = record u { nodes = u.nodes + 1 } in
      let more : JsonWalker → Walked = members lib p limits raw fuel below in
      unless_ended-Comes lib p limits raw l w.nodes w
        (λ v. consume_node lib p limits raw v (member lib p limits raw below more)) h
        λ sane_u.
          consume_node-Comes lib p limits raw l w.nodes u (member lib p limits raw below more)
            sane_u
            λ sane_t.
              weaken lib p limits raw l w.nodes (w.nodes + 1) (member lib p limits raw below more t)
                (omega arith)
                (member-Comes below more t runs
                  (λ x above sane_x.
                    weaken lib p limits raw l (w.nodes + 1) x.nodes (more x) above
                      (members-Comes fuel below x runs sane_x (omega (arith, above, enough))))
                  sane_t)

  elements-Comes :
      (fuel : ℕ) (below : JsonWalker → Walked) (w : JsonWalker)
      → Below below
      → Is w
      → limits.max_structured_nodes < (w.nodes + fuel)
      → To w.nodes (elements lib p limits raw fuel below w)
  unfolding elements
  elements-Comes zero below w runs h enough = absurd (omega (arith, h.counted, enough))
  elements-Comes (suc fuel) below w runs h enough =
      let more : JsonWalker → Walked = elements lib p limits raw fuel below in
      let next : JsonWalker → Walked =
        λ v. after_item lib p limits raw b']' (skip_space lib p limits raw v) more in
      weaken lib p limits raw l w.nodes (w.nodes + 1) (and_then (below w) next) (omega arith) (
        and_then-Comes lib p limits raw l (w.nodes + 1) (below w) next (runs w h) λ v above sane_v.
          after_item-Comes lib p limits raw l (w.nodes + 1) b']' (skip_space lib p limits raw v)
            more refl above (skip_space-Sane lib p limits raw l v sane_v)
            λ sane_x.
              let x : JsonWalker = step lib p limits raw (skip_space lib p limits raw v) in
              weaken lib p limits raw l (w.nodes + 1) x.nodes (more x) above
                (elements-Comes fuel below x runs sane_x (omega (arith, above, enough))))

  parse_object-Comes :
      (below : JsonWalker → Walked) (w : JsonWalker)
      → is_byte b'{' (get_elem? raw w.position) ≡ true
      → Below below
      → Is w
      → To w.nodes (parse_object lib p limits raw below w)
  unfolding parse_object
  parse_object-Comes below w at runs h =
      let v : JsonWalker = skip_space lib p limits raw (step lib p limits raw w) in
      let sane : Is v =
        skip_space-Sane lib p limits raw l (step lib p limits raw w)
          (step-Sane lib p limits raw l b'{' w refl at h) in
      by_cases (To w.nodes) (is_byte b'}' (get_elem? raw v.position))
        (step lib p limits raw v, state unchanged)
        (members lib p limits raw (limits.max_structured_nodes + 1) below v)
        (λ ends.
          passing lib p limits raw l w.nodes (step lib p limits raw v) (omega arith)
            (step-Sane lib p limits raw l b'}' v refl ends sane))
        (λ _. members-Comes (limits.max_structured_nodes + 1) below v runs sane (omega arith))

  parse_array-Comes :
      (below : JsonWalker → Walked) (w : JsonWalker)
      → is_byte b'[' (get_elem? raw w.position) ≡ true
      → Below below
      → Is w
      → To w.nodes (parse_array lib p limits raw below w)
  unfolding parse_array
  parse_array-Comes below w at runs h =
      let v : JsonWalker = skip_space lib p limits raw (step lib p limits raw w) in
      let sane : Is v =
        skip_space-Sane lib p limits raw l (step lib p limits raw w)
          (step-Sane lib p limits raw l b'[' w refl at h) in
      by_cases (To w.nodes) (is_byte b']' (get_elem? raw v.position))
        (step lib p limits raw v, state unchanged)
        (elements lib p limits raw (limits.max_structured_nodes + 1) below v)
        (λ ends.
          passing lib p limits raw l w.nodes (step lib p limits raw v) (omega arith)
            (step-Sane lib p limits raw l b']' v refl ends sane))
        (λ _. elements-Comes (limits.max_structured_nodes + 1) below v runs sane (omega arith))

  dispatch-Comes :
      (below : JsonWalker → Walked) (w : JsonWalker) (o : Option ℕ)
      → get_elem? raw w.position ≡ o
      → Below below
      → Is w
      → To w.nodes (dispatch lib p limits raw below w o)
  dispatch-Comes below w none at runs h = failing lib p limits raw l w.nodes w
  dispatch-Comes below w (some c) at runs h =
      by_cases (To w.nodes) (c == b'{') _ _
        (λ e. parse_object-Comes below w (ap (is_byte b'{') at ∙ e) runs h)
        λ _.
          by_cases (To w.nodes) (c == b'[') _ _
            (λ e. parse_array-Comes below w (ap (is_byte b'[') at ∙ e) runs h)
            λ _.
              by_cases (To w.nodes) (c == quote) _ _
                (λ _.
                  literal-Comes lib p limits raw l w.nodes w
                    (string_value lib p limits raw w.position)
                    λ end value is_literal.
                      string_value-Comes lib p limits raw l w.nodes end value w (omega arith)
                        is_literal h)
                (λ e. parse_primitive-Comes lib p limits raw l w (ap (is_byte quote) at ∙ e) h)

  parse_value-Comes :
      (fuel depth : ℕ) (w : JsonWalker)
      → Is w
      → depth ≤ (limits.max_structured_depth + 1)
      → (limits.max_structured_depth + 1) < (depth + fuel)
      → To (w.nodes + 1) (parse_value lib p limits raw fuel depth w)
  unfolding parse_value
  parse_value-Comes zero depth w h low enough = absurd (omega (arith, low, enough))
  parse_value-Comes (suc fuel) depth w h low enough =
      let u : JsonWalker = record w { ctx = (poll w.ctx).1 } in
      let t : JsonWalker = record u { nodes = u.nodes + 1 } in
      let below : JsonWalker → Walked = parse_value lib p limits raw fuel (depth + 1) in
      let at_value : JsonWalker → Walked = spaced_value lib p limits raw below in
      unless_ended-Comes lib p limits raw l (w.nodes + 1) w
        (shallow lib p limits raw depth at_value) h
        λ sane_u.
          by_cases (To (w.nodes + 1)) (ltb limits.max_structured_depth depth) (u, state unsafe)
            (consume_node lib p limits raw u at_value)
            (λ _. failing lib p limits raw l (w.nodes + 1) u)
            λ deep. consume_node-Comes lib p limits raw l (w.nodes + 1) u at_value sane_u λ sane_t.
              dispatch-Comes below (skip_space lib p limits raw t)
                (get_elem? raw (skip_space lib p limits raw t).position) refl
                (λ x sane_x.
                  parse_value-Comes fuel (depth + 1) x sane_x (ground arith)
                    (omega (arith, enough)))
                (skip_space-Sane lib p limits raw l t sane_t)

  pub walk-Comes : (ctx : Ctx) → To 1 (walk lib p limits raw ctx)
  unfolding walk
  walk-Comes ctx =
      parse_value-Comes (limits.max_structured_depth + 1) 1
        (record { ctx = ctx; position = 0; nodes = 0; replacements = [] })
        (record {
          counted = omega arith;
          within = omega arith;
          chained = omega arith;
          scanned = nothing;
        })
        (omega arith) (omega arith)
