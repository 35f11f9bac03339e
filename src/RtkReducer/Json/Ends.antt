-- ===== src/RtkReducer/Json/Ends.antt =====
-- The scan of a whole text.
use eino_agent_extensions.Prelude.{
  ℕ, zero, suc, ◌+◌, ◌≤◌, ◌<◌, ◌≡◌, refl, ap, subst, ◌∙◌, Bool, true, false, Option, none, some,
  List, [], Bytes, length, get_elem?, ltb, ◌==◌, by_cases, arith,
}
use eino_agent_extensions.Json.{JsonLib, is_byte, quote}
use eino_agent_extensions.RtkReducer.Json.{
  StringSpan, ObjectScanner, passes, fails, spent, Scanned, and_then, skip_space, step, after_item,
  parse_object, elements, parse_array, dispatch, parse_value, at_end, scan_root, spans_of,
  scan_object_strings,
}
use eino_agent_extensions.RtkReducer.Json.Spans.{
  Ended, Spans, Spans-mono, Sane, Comes, failing, passing, weaken, skip_space-Sane, step-Sane,
  and_then-Comes, consume_node-Comes, literal-Comes, parse_primitive-Comes, after_item-Comes,
}
use eino_agent_extensions.RtkReducer.Json.Members.{members-Comes}

module _ (lib : JsonLib) (raw : Bytes) (max_depth max_nodes : ℕ) (requested : List Bytes) where
  abbrev Is : ObjectScanner → Type 0
  Is s = Sane lib raw max_depth max_nodes requested s

  abbrev To : ℕ → Scanned → Type 0
  To n r = Comes lib raw max_depth max_nodes requested n r

  -- A scan of a value below: it counts at least one node.
  abbrev Below : (ObjectScanner → Scanned) → Type 0
  Below below = (s : ObjectScanner) → Is s → To (s.nodes + 1) (below s)

  elements-Comes :
      (fuel : ℕ) (below : ObjectScanner → Scanned) (s : ObjectScanner)
      → Below below
      → Is s
      → max_nodes < (s.nodes + fuel)
      → To s.nodes (elements lib raw max_depth max_nodes requested fuel below s)
  unfolding elements
  elements-Comes zero below s runs h enough = absurd (omega (arith, h.counted, enough))
  elements-Comes (suc fuel) below s runs h enough =
      let next : ObjectScanner → Scanned = λ t.
        after_item lib raw max_depth max_nodes requested b']'
          (skip_space lib raw max_depth max_nodes requested t)
          (elements lib raw max_depth max_nodes requested fuel below) in
      weaken lib raw max_depth max_nodes requested s.nodes (s.nodes + 1) (and_then (below s) next)
        (omega arith)
        (and_then-Comes lib raw max_depth max_nodes requested (s.nodes + 1) (below s) next
          (runs s h)
          λ x more sane_x.
            after_item-Comes lib raw max_depth max_nodes requested (s.nodes + 1) b']'
              (skip_space lib raw max_depth max_nodes requested x)
              (elements lib raw max_depth max_nodes requested fuel below) more
              (skip_space-Sane lib raw max_depth max_nodes requested x sane_x)
              λ sane_y.
                let y : ObjectScanner =
                  step lib raw max_depth max_nodes requested
                    (skip_space lib raw max_depth max_nodes requested x) in
                weaken lib raw max_depth max_nodes requested (s.nodes + 1) y.nodes
                  (elements lib raw max_depth max_nodes requested fuel below y) more
                  (elements-Comes fuel below y runs sane_y (omega (arith, more, enough))))

  parse_object-Comes :
      (depth : ℕ) (root : Bool) (below : ObjectScanner → Scanned) (s : ObjectScanner)
      → is_byte b'{' (get_elem? raw s.position) ≡ true
      → Below below
      → Is s
      → To s.nodes (parse_object lib raw max_depth max_nodes requested depth root below s)
  unfolding parse_object
  parse_object-Comes depth root below s at runs h =
      let t : ObjectScanner =
        skip_space lib raw max_depth max_nodes requested
          (step lib raw max_depth max_nodes requested s) in
      let sane_t : Is t =
        skip_space-Sane lib raw max_depth max_nodes requested
          (step lib raw max_depth max_nodes requested s)
          (step-Sane lib raw max_depth max_nodes requested b'{' s at h) in
      by_cases (To s.nodes) (is_byte b'}' (get_elem? raw t.position)) _ _
        (λ ends.
          passing lib raw max_depth max_nodes requested s.nodes
            (step lib raw max_depth max_nodes requested t) (omega arith)
            (step-Sane lib raw max_depth max_nodes requested b'}' t ends sane_t))
        (λ _.
          members-Comes lib raw max_depth max_nodes requested (max_nodes + 1) depth root below [] t
            runs sane_t (omega arith))

  parse_array-Comes :
      (below : ObjectScanner → Scanned) (s : ObjectScanner)
      → is_byte b'[' (get_elem? raw s.position) ≡ true
      → Below below
      → Is s
      → To s.nodes (parse_array lib raw max_depth max_nodes requested below s)
  unfolding parse_array
  parse_array-Comes below s at runs h =
      let t : ObjectScanner =
        skip_space lib raw max_depth max_nodes requested
          (step lib raw max_depth max_nodes requested s) in
      let sane_t : Is t =
        skip_space-Sane lib raw max_depth max_nodes requested
          (step lib raw max_depth max_nodes requested s)
          (step-Sane lib raw max_depth max_nodes requested b'[' s at h) in
      by_cases (To s.nodes) (is_byte b']' (get_elem? raw t.position)) _ _
        (λ ends.
          passing lib raw max_depth max_nodes requested s.nodes
            (step lib raw max_depth max_nodes requested t) (omega arith)
            (step-Sane lib raw max_depth max_nodes requested b']' t ends sane_t))
        (λ _. elements-Comes (max_nodes + 1) below t runs sane_t (omega arith))

  dispatch-Comes :
      (depth : ℕ) (root : Bool) (below : ObjectScanner → Scanned) (s : ObjectScanner) (o : Option ℕ)
      → get_elem? raw s.position ≡ o
      → Below below
      → Is s
      → To s.nodes (dispatch lib raw max_depth max_nodes requested depth root below s o)
  dispatch-Comes depth root below s none at runs h =
      failing lib raw max_depth max_nodes requested s.nodes s h
  dispatch-Comes depth root below s (some c) at runs h =
      by_cases (To s.nodes) (c == b'{') _ _
        (λ e. parse_object-Comes depth root below s (ap (is_byte b'{') at ∙ e) runs h)
        λ _.
          by_cases (To s.nodes) root _ _
            (λ _. failing lib raw max_depth max_nodes requested s.nodes s h)
            λ _.
              by_cases (To s.nodes) (c == b'[') _ _
                (λ e. parse_array-Comes below s (ap (is_byte b'[') at ∙ e) runs h)
                λ _.
                  by_cases (To s.nodes) (c == quote) _ _
                    (λ _.
                      literal-Comes lib raw max_depth max_nodes requested s.nodes s
                        (λ t end value. (t, passes)) h
                        (λ end value is_literal u.
                          passing lib raw max_depth max_nodes requested s.nodes
                            (record s { position = end }) (omega arith) u))
                    (λ _. parse_primitive-Comes lib raw max_depth max_nodes requested s h)

  parse_value-Comes :
      (fuel depth : ℕ) (root : Bool) (s : ObjectScanner)
      → Is s
      → depth ≤ (max_depth + 1)
      → (max_depth + 1) < (depth + fuel)
      → To (s.nodes + 1) (parse_value lib raw max_depth max_nodes requested fuel depth root s)
  unfolding parse_value
  parse_value-Comes zero depth root s h low enough = absurd (omega (arith, low, enough))
  parse_value-Comes (suc fuel) depth root s h low enough =
      let below : ObjectScanner → Scanned = λ t.
        dispatch lib raw max_depth max_nodes requested depth root
          (parse_value lib raw max_depth max_nodes requested fuel (depth + 1) false)
          (skip_space lib raw max_depth max_nodes requested t)
          (get_elem? raw (skip_space lib raw max_depth max_nodes requested t).position) in
      by_cases (To (s.nodes + 1)) (ltb max_depth depth) _ _
        (λ _. failing lib raw max_depth max_nodes requested (s.nodes + 1) s h)
        λ deep.
          consume_node-Comes lib raw max_depth max_nodes requested (s.nodes + 1) s below h λ t.
            let a : ObjectScanner =
              skip_space lib raw max_depth max_nodes requested (record s { nodes = s.nodes + 1 }) in
            dispatch-Comes depth root
              (parse_value lib raw max_depth max_nodes requested fuel (depth + 1) false) a
              (get_elem? raw a.position) refl
              (λ x sane_x.
                parse_value-Comes fuel (depth + 1) false x sane_x (ground arith)
                  (omega (arith, enough)))
              (skip_space-Sane lib raw max_depth max_nodes requested
                (record s { nodes = s.nodes + 1 }) t)

  at_end-Comes :
      (n : ℕ) (s : ObjectScanner)
      → n ≤ s.nodes
      → Is s
      → To n (at_end lib raw max_depth max_nodes requested s)
  at_end-Comes n s enough h =
      by_cases (To n) (s.position == length raw) (s, passes) (s, fails)
        (λ _. passing lib raw max_depth max_nodes requested n s enough h)
        (λ _. failing lib raw max_depth max_nodes requested n s h)

  scan_root-Comes : To 1 (scan_root lib raw max_depth max_nodes requested)
  unfolding scan_root
  scan_root-Comes =
      let start : ObjectScanner = record { position = 0; nodes = 0; found = [] } in
      and_then-Comes lib raw max_depth max_nodes requested 1
        (parse_value lib raw max_depth max_nodes requested (max_depth + 1) 1 true start)
        (λ s.
          at_end lib raw max_depth max_nodes requested
            (skip_space lib raw max_depth max_nodes requested s))
        (parse_value-Comes (max_depth + 1) 1 true start
          (record { counted = omega arith; within = omega arith; spans = tt }) (omega arith)
          (omega arith))
        λ s enough h.
          at_end-Comes 1 (skip_space lib raw max_depth max_nodes requested s) enough
            (skip_space-Sane lib raw max_depth max_nodes requested s h)

  -- The scan of a text ends within the fuel, and counts at most the nodes it may.
  pub scan_root-Ended :
      Ended (scan_root lib raw max_depth max_nodes requested).1
      × ((scan_root lib raw max_depth max_nodes requested).0.nodes ≤ max_nodes)
  scan_root-Ended = (scan_root-Comes.ends, scan_root-Comes.bound)

  spans_of-Spans :
      (r : Scanned) (found : List (Bytes × StringSpan))
      → To 1 r
      → spans_of lib raw max_depth max_nodes requested r ≡ some found
      → Spans lib raw max_depth max_nodes requested (length raw) found
  spans_of-Spans (s, passes) found h e =
      let sane : Is s = (h.on refl).1 in
      let same : s.found ≡ found = cc in
      subst (Spans lib raw max_depth max_nodes requested (length raw)) same (
        Spans-mono lib raw max_depth max_nodes requested s.position (length raw) s.found sane.within
          sane.spans)
  spans_of-Spans (s, fails) found h e = cc
  spans_of-Spans (s, spent) found h e = cc

  -- What is found is literals of the text, each under a key that was asked for, and the newer ones
  -- behind the older.
  pub scan_object_strings-Spans :
      (found : List (Bytes × StringSpan))
      → scan_object_strings lib raw max_depth max_nodes requested ≡ some found
      → Spans lib raw max_depth max_nodes requested (length raw) found
  unfolding scan_object_strings
  scan_object_strings-Spans found h =
      by_cases
        (λ r. r ≡ some found → Spans lib raw max_depth max_nodes requested (length raw) found) _
        none
        (spans_of lib raw max_depth max_nodes requested
          (scan_root lib raw max_depth max_nodes requested))
        (λ _ e. cc)
        (λ _.
          spans_of-Spans (scan_root lib raw max_depth max_nodes requested) found scan_root-Comes)
        h
