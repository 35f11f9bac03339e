-- ===== src/RtkReducer/Json/Members.antt =====
-- The members of an object, one behind the other.
use eino_agent_extensions.Prelude.{
  ℕ, zero, suc, ◌+◌, ◌≤◌, ◌<◌, ◌≡◌, Bool, true, ◌&&◌, List, ◌∷◌, Bytes, get_elem?, ltb, by_cases,
  arith,
}
use eino_agent_extensions.Json.{JsonLib, is_byte, quote}
use eino_agent_extensions.RtkReducer.Json.{
  ObjectScanner, passes, fails, Scanned, contains, skip_space, step, expect, literal, after_item,
  wanted_value, member_value, member_rest, keyed, member, members,
}
use eino_agent_extensions.RtkReducer.Json.Spans.{
  Sane, Comes, failing, passing, weaken, skip_space-Sane, step-Sane, and_then-Comes,
  consume_node-Comes, expect-Comes, literal-Comes, after_item-Comes,
}

module _ (lib : JsonLib) (raw : Bytes) (max_depth max_nodes : ℕ) (requested : List Bytes) where
  abbrev Is : ObjectScanner → Type 0
  Is s = Sane lib raw max_depth max_nodes requested s

  abbrev To : ℕ → Scanned → Type 0
  To n r = Comes lib raw max_depth max_nodes requested n r

  -- A scan of a value below: it counts at least one node.
  abbrev Below : (ObjectScanner → Scanned) → Type 0
  Below below = (s : ObjectScanner) → Is s → To (s.nodes + 1) (below s)

  wanted_value-Comes :
      (depth : ℕ) (key : Bytes) (s : ObjectScanner)
      → contains key requested ≡ true
      → Is s
      → To s.nodes (wanted_value lib raw max_depth max_nodes requested depth key s)
  unfolding wanted_value
  wanted_value-Comes depth key s wanted h =
      let added : ℕ → ObjectScanner → ℕ → Bytes → Scanned = λ start v end value. (
        record v { found = (key, record { start = start; end = end; value = value }) ∷ v.found },
        passes,
      ) in
      let value_of : ObjectScanner → Scanned =
        λ u. literal lib raw max_depth max_nodes requested u (added u.position) in
      by_cases (To s.nodes) (ltb max_depth (depth + 1)) _ _
        (λ _. failing lib raw max_depth max_nodes requested s.nodes s h)
        λ _.
          consume_node-Comes lib raw max_depth max_nodes requested s.nodes s
            (λ t. expect lib raw max_depth max_nodes requested quote t value_of) h
            λ t.
              expect-Comes lib raw max_depth max_nodes requested s.nodes quote
                (record s { nodes = s.nodes + 1 }) value_of t
                λ _.
                  literal-Comes lib raw max_depth max_nodes requested s.nodes
                    (record s { nodes = s.nodes + 1 }) (added s.position) t
                    λ end value is_literal u.
                      passing lib raw max_depth max_nodes requested s.nodes
                        (record s {
                          position = end;
                          nodes = s.nodes + 1;
                          found =
                              (key, record { start = s.position; end = end; value = value })
                              ∷ s.found;
                        })
                        (omega arith)
                        (record {
                          counted = u.counted;
                          within = u.within;
                          spans = (omega arith, is_literal, wanted, h.spans);
                        })

  member_value-Comes :
      (depth : ℕ) (root : Bool) (key : Bytes) (below : ObjectScanner → Scanned) (s : ObjectScanner)
      → Below below
      → Is s
      → To s.nodes (member_value lib raw max_depth max_nodes requested depth root key below s)
  member_value-Comes depth root key below s runs h =
      by_cases (To s.nodes) (root && contains key requested)
        (wanted_value lib raw max_depth max_nodes requested depth key s) (below s)
        (λ both. wanted_value-Comes depth key s (ground arith) h)
        (λ _.
          weaken lib raw max_depth max_nodes requested s.nodes (s.nodes + 1) (below s) (omega arith)
            (runs s h))

  -- A scan of what follows a member, at a count above one.
  abbrev Follows : ℕ → (ObjectScanner → Scanned) → Type 0
  Follows n more = (s : ObjectScanner) → n ≤ s.nodes → Is s → To n (more s)

  member_rest-Comes :
      (depth : ℕ) (root : Bool) (key : Bytes) (below more : ObjectScanner → Scanned)
      (s : ObjectScanner)
      → is_byte b':' (get_elem? raw s.position) ≡ true
      → Below below
      → Follows s.nodes more
      → Is s
      → To s.nodes (member_rest lib raw max_depth max_nodes requested depth root key below more s)
  unfolding member_rest
  member_rest-Comes depth root key below more s at runs follows h =
      let d : ObjectScanner =
        skip_space lib raw max_depth max_nodes requested
          (step lib raw max_depth max_nodes requested s) in
      let sane_d : Is d =
        skip_space-Sane lib raw max_depth max_nodes requested
          (step lib raw max_depth max_nodes requested s)
          (step-Sane lib raw max_depth max_nodes requested b':' s at h) in
      and_then-Comes lib raw max_depth max_nodes requested s.nodes
        (member_value lib raw max_depth max_nodes requested depth root key below d)
        (λ x.
          after_item lib raw max_depth max_nodes requested b'}'
            (skip_space lib raw max_depth max_nodes requested x) more)
        (member_value-Comes depth root key below d runs sane_d)
        λ x enough sane_x.
          after_item-Comes lib raw max_depth max_nodes requested s.nodes b'}'
            (skip_space lib raw max_depth max_nodes requested x) more enough
            (skip_space-Sane lib raw max_depth max_nodes requested x sane_x)
            (follows
              (step lib raw max_depth max_nodes requested
                (skip_space lib raw max_depth max_nodes requested x))
              enough)

  keyed-Comes :
      (depth : ℕ) (root : Bool) (below : ObjectScanner → Scanned) (seen : List Bytes)
      (more : List Bytes → ObjectScanner → Scanned) (s : ObjectScanner) (end : ℕ) (key : Bytes)
      → Below below
      → Follows s.nodes (more (key ∷ seen))
      → Is s
      → To s.nodes
          (keyed lib raw max_depth max_nodes requested depth root below seen more s end key)
  unfolding keyed
  keyed-Comes depth root below seen more s end key runs follows h =
      let rest : ObjectScanner → Scanned =
        member_rest lib raw max_depth max_nodes requested depth root key below
          (more (key ∷ seen)) in
      by_cases (To s.nodes) (contains key seen) (s, fails)
        (expect lib raw max_depth max_nodes requested b':'
          (skip_space lib raw max_depth max_nodes requested s) rest)
        (λ _. failing lib raw max_depth max_nodes requested s.nodes s h)
        λ _.
          expect-Comes lib raw max_depth max_nodes requested s.nodes b':'
            (skip_space lib raw max_depth max_nodes requested s) rest
            (skip_space-Sane lib raw max_depth max_nodes requested s h)
            λ at.
              member_rest-Comes depth root key below (more (key ∷ seen))
                (skip_space lib raw max_depth max_nodes requested s) at runs follows
                (skip_space-Sane lib raw max_depth max_nodes requested s h)

  member-Comes :
      (depth : ℕ) (root : Bool) (below : ObjectScanner → Scanned) (seen : List Bytes)
      (more : List Bytes → ObjectScanner → Scanned) (s : ObjectScanner)
      → Below below
      → ((keys : List Bytes) → Follows s.nodes (more keys))
      → Is s
      → To s.nodes (member lib raw max_depth max_nodes requested depth root below seen more s)
  unfolding member
  member-Comes depth root below seen more s runs follows h =
      let a : ObjectScanner = skip_space lib raw max_depth max_nodes requested s in
      let behind : ObjectScanner → ℕ → Bytes → Scanned =
        keyed lib raw max_depth max_nodes requested depth root below seen more in
      expect-Comes lib raw max_depth max_nodes requested s.nodes quote a
        (λ t. literal lib raw max_depth max_nodes requested t behind)
        (skip_space-Sane lib raw max_depth max_nodes requested s h)
        λ _.
          literal-Comes lib raw max_depth max_nodes requested s.nodes a behind
            (skip_space-Sane lib raw max_depth max_nodes requested s h)
            λ end key is_literal sane.
              keyed-Comes depth root below seen more (record a { position = end }) end key runs
                (follows (key ∷ seen)) sane

  pub members-Comes :
      (fuel depth : ℕ) (root : Bool) (below : ObjectScanner → Scanned) (seen : List Bytes)
      (s : ObjectScanner)
      → Below below
      → Is s
      → max_nodes < (s.nodes + fuel)
      → To s.nodes (members lib raw max_depth max_nodes requested fuel depth root below seen s)
  unfolding members
  members-Comes zero depth root below seen s runs h enough =
      absurd (omega (arith, h.counted, enough))
  members-Comes (suc fuel) depth root below seen s runs h enough =
      let t : ObjectScanner = record s { nodes = s.nodes + 1 } in
      let more : List Bytes → ObjectScanner → Scanned =
        members lib raw max_depth max_nodes requested fuel depth root below in
      consume_node-Comes lib raw max_depth max_nodes requested s.nodes s
        (member lib raw max_depth max_nodes requested depth root below seen more) h
        λ sane.
          weaken lib raw max_depth max_nodes requested s.nodes (s.nodes + 1)
            (member lib raw max_depth max_nodes requested depth root below seen more t)
            (omega arith)
            (member-Comes depth root below seen more t runs
              (λ keys x above sane_x.
                weaken lib raw max_depth max_nodes requested (s.nodes + 1) x.nodes (more keys x)
                  above
                  (members-Comes fuel depth root below keys x runs sane_x
                    (omega (arith, above, enough))))
              sane)
