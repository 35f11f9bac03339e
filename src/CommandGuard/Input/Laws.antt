-- ===== src/CommandGuard/Input/Laws.antt =====
-- commandguard/input.go: the walk over an input, its end and its result.
use eino_agent_extensions.Prelude.{
  ℕ, zero, suc, ◌+◌, ◌≤◌, ◌<◌, ◌≡◌, refl, Bool, true, false, ◌&&◌, not, List, [], ◌∷◌, Bytes,
  bytes_eq, length, ltb, leb, ◌==◌, by_cases, Bool-cases, inl, inr, arith,
}
use eino_agent_extensions.Context.{Ctx, poll}
use eino_agent_extensions.CommandGuard.Words.{abstain, one_of}
use eino_agent_extensions.CommandGuard.Syntax.{Limits}
use eino_agent_extensions.CommandGuard.Match.{Verdict, says, panics, spent}
use eino_agent_extensions.CommandGuard.Walk.Bounds.{Ended}
use eino_agent_extensions.CommandGuard.Input.{
  Token, delim, string, atom, Read, token, eof, failed, Decoder, Reading, Taken, taken, take,
  on_token, go_on, store, command_field, member, object, array, close, container, value,
  at_root_end, reading, input,
}

module _ {S : Type 0} (d : Decoder S) (valid_text : Bytes → Bool) (l : Limits) (field : Bytes) where
  -- A command that has been found is a valid text within its bound.
  abbrev pub Proper : Reading S → Type 0
  Proper a =
      a.found ≡ true → (valid_text a.command ≡ true) × (length a.command ≤ l.max_command_bytes)

  -- The state is within the bound on nodes and has a proper command.
  abbrev Sane : Reading S → Type 0
  Sane a = (a.nodes ≤ l.max_json_nodes) × Proper a

  -- What a scan has come to: it went on from a sane state with at least so many nodes.
  abbrev pub Counted : ℕ → Reading S × Verdict → Type 0
  Counted n r =
      (r.0.nodes ≤ l.max_json_nodes)
      × Ended r.1
      × (r.1 ≡ says abstain → (n ≤ r.0.nodes) × Proper r.0)

  go_on-Counted :
      (n : ℕ) (r : Reading S × Verdict) (next : Reading S → Reading S × Verdict)
      → Counted n r
      → ((a : Reading S) → Sane a → n ≤ a.nodes → Counted n (next a))
      → Counted n (go_on d valid_text l field r next)
  go_on-Counted n (a, says abstain) next h k = k a (h.0, (h.2 refl).1) (h.2 refl).0
  go_on-Counted n (a, says _) next h k = (h.0, h.1, λ e. cc)
  go_on-Counted n (a, panics) next h k = h
  go_on-Counted n (a, spent) next h k = h

  -- What a token is known to be.
  abbrev Sound : Token → Type 0
  Sound (string s) = valid_text s ≡ true
  Sound t = Unit {0}

  taken-Counted :
      (a : Reading S) (r : Read) (n : ℕ) (next : Reading S → Token → Reading S × Verdict)
      → Sane a
      → ((t : Token) → Sound t → Counted n (next a t))
      → Counted n (on_token d valid_text l field (taken d valid_text l field a r) next)
  unfolding taken
  taken-Counted a (token (string s)) n next h k =
      by_cases (λ (t : Taken). Counted n (on_token d valid_text l field (a, t) next)) (valid_text s)
        _ _ (λ valid. k (string s) valid) (λ _. (h.0, tt, λ e. cc))
  taken-Counted a (token (delim c)) n next h k = k (delim c) tt
  taken-Counted a (token atom) n next h k = k atom tt
  taken-Counted a eof n next h k = (h.0, tt, λ e. cc)
  taken-Counted a failed n next h k = (h.0, tt, λ e. cc)

  take-Counted :
      (a : Reading S) (n : ℕ) (next : Reading S → Token → Reading S × Verdict)
      → Sane a
      → ((b : Reading S) (t : Token)
          → Sane b
          → b.nodes ≡ a.nodes + 1
          → Sound t
          → Counted n (next b t))
      → Counted n (on_token d valid_text l field (take d valid_text l field a) next)
  unfolding take
  take-Counted a n next h k =
      by_cases (λ (r : Reading S × Taken). Counted n (on_token d valid_text l field r next))
        (poll a.ctx).0 _ _ (λ _. (h.0, tt, λ e. cc))
        λ _.
          by_cases (λ (r : Reading S × Taken). Counted n (on_token d valid_text l field r next))
            (leb l.max_json_nodes a.nodes) _ _ (λ _. (h.0, tt, λ e. cc))
            λ room.
              taken-Counted _ (d.read a.decoder).1 n next (ground arith, h.1)
                (λ t sound. k _ t (ground arith, h.1) refl sound)

  store-Counted :
      (a : Reading S) (t : Token) (n : ℕ)
      → Sane a
      → n ≤ a.nodes
      → Sound t
      → Counted n (store d valid_text l field a t)
  unfolding store
  store-Counted a (string s) n h enough valid =
      by_cases (Counted n) (ltb l.max_command_bytes (length s)) _ _ (λ _. (h.0, tt, λ e. cc))
        λ short. (h.0, tt, λ e. (enough, λ f. (valid, ground arith)))
  store-Counted a (delim c) n h enough sound = (h.0, tt, λ e. cc)
  store-Counted a atom n h enough sound = (h.0, tt, λ e. cc)

  command_field-Counted :
      (depth : ℕ) (a : Reading S)
      → Sane a
      → Counted a.nodes (command_field d valid_text l field depth a)
  unfolding command_field
  command_field-Counted depth a h =
      by_cases (Counted a.nodes) (leb l.max_json_depth depth) _ _ (λ _. (h.0, tt, λ e. cc))
        λ _.
          take-Counted a a.nodes _ h
            (λ b t sane more sound. store-Counted b t a.nodes sane (omega (arith, more)) sound)

  -- A scan of a value below: it takes at least one token.
  abbrev Below : (Reading S → Reading S × Verdict) → Type 0
  Below below = (a : Reading S) → Sane a → Counted (a.nodes + 1) (below a)

  weaken : (n m : ℕ) (r : Reading S × Verdict) → n ≤ m → Counted m r → Counted n r
  weaken n m r h k = (k.0, k.1, λ e. (omega (arith, h, (k.2 e).0), (k.2 e).1))

  member-Counted :
      (depth : ℕ) (root : Bool) (seen : List Bytes) (below : Reading S → Reading S × Verdict)
      (rest : List Bytes → Reading S → Reading S × Verdict) (a : Reading S) (t : Token)
      → Below below
      → ((more : List Bytes) (b : Reading S)
          → Sane b
          → a.nodes ≤ b.nodes
          → Counted a.nodes (rest more b))
      → Sane a
      → Counted a.nodes (member d valid_text l field depth root seen below rest a t)
  unfolding member
  member-Counted depth root seen below rest a (delim c) runs on h = (h.0, tt, λ e. cc)
  member-Counted depth root seen below rest a atom runs on h = (h.0, tt, λ e. cc)
  member-Counted depth root seen below rest a (string s) runs on h =
      by_cases (Counted a.nodes) (one_of s seen) _ _ (λ _. (h.0, tt, λ e. cc))
        λ _.
          go_on-Counted a.nodes _ (rest (s ∷ seen))
            (by_cases (Counted a.nodes) (root && bytes_eq s field)
              (command_field d valid_text l field depth a) (below a)
              (λ _. command_field-Counted depth a h)
              (λ _. weaken a.nodes (a.nodes + 1) (below a) (omega arith) (runs a h)))
            (λ b sane low. on (s ∷ seen) b sane low)

  object-Counted :
      (fuel depth : ℕ) (root : Bool) (below : Reading S → Reading S × Verdict) (seen : List Bytes)
      (a : Reading S)
      → Below below
      → Sane a
      → l.max_json_nodes < (a.nodes + fuel)
      → Counted a.nodes (object d valid_text l field fuel depth root below seen a)
  unfolding object
  object-Counted zero depth root below seen a runs h enough = absurd (omega (arith, h.0, enough))
  object-Counted (suc fuel) depth root below seen a runs h enough =
      by_cases (Counted a.nodes) (d.more a.decoder) _ _
        (λ _. take-Counted a a.nodes _ h λ b t sane more sound.
          weaken a.nodes b.nodes
            (member d valid_text l field depth root seen below
              (object d valid_text l field fuel depth root below) b t)
            (omega (arith, more))
            (member-Counted depth root seen below
              (object d valid_text l field fuel depth root below) b t runs
              (λ names c inside low.
                weaken b.nodes c.nodes (object d valid_text l field fuel depth root below names c)
                  low
                  (object-Counted fuel depth root below names c runs inside
                    (omega (arith, more, low, enough))))
              sane))
        (λ _. (h.0, tt, λ e. (omega arith, h.1)))

  array-Counted :
      (fuel : ℕ) (below : Reading S → Reading S × Verdict) (a : Reading S)
      → Below below
      → Sane a
      → l.max_json_nodes < (a.nodes + fuel)
      → Counted a.nodes (array d valid_text l field fuel below a)
  unfolding array
  array-Counted zero below a runs h enough = absurd (omega (arith, h.0, enough))
  array-Counted (suc fuel) below a runs h enough =
      by_cases (Counted a.nodes) (d.more a.decoder) _ _
        (λ _.
          weaken a.nodes (a.nodes + 1)
            (go_on d valid_text l field (below a) (array d valid_text l field fuel below))
            (omega arith)
            (go_on-Counted (a.nodes + 1) (below a) _ (runs a h) λ b sane low.
              weaken (a.nodes + 1) b.nodes (array d valid_text l field fuel below b) low
                (array-Counted fuel below b runs sane (omega (arith, low, enough)))))
        (λ _. (h.0, tt, λ e. (omega arith, h.1)))

  close-Counted :
      (c : ℕ) (a : Reading S) → Sane a → Counted a.nodes (close d valid_text l field c a)
  unfolding close
  close-Counted c a h = (h.0, tt, λ e. (omega arith, h.1))

  -- A container whose token has been taken.
  container-Counted :
      (depth : ℕ) (root : Bool) (below : Reading S → Reading S × Verdict) (a : Reading S)
      (t : Token)
      → Below below
      → Sane a
      → Counted a.nodes (container d valid_text l field depth root below a t)
  unfolding container
  container-Counted depth root below a (string s) runs h = (h.0, tt, λ e. (omega arith, h.1))
  container-Counted depth root below a atom runs h = (h.0, tt, λ e. (omega arith, h.1))
  container-Counted depth root below a (delim c) runs h =
      by_cases (Counted a.nodes) (root && not (c == b'{')) _ _ (λ _. (h.0, tt, λ e. cc))
        λ _.
          by_cases (Counted a.nodes) (c == b'{') _ _
            (λ _.
              go_on-Counted a.nodes _ _
                (object-Counted (l.max_json_nodes + 1) depth root below [] a runs h (omega arith))
                (λ b sane low.
                  weaken a.nodes b.nodes (close d valid_text l field b'}' b) low
                    (close-Counted b'}' b sane)))
            λ _.
              by_cases (Counted a.nodes) (c == b'[') _ _
                (λ _.
                  go_on-Counted a.nodes _ _
                    (array-Counted (l.max_json_nodes + 1) below a runs h (omega arith))
                    (λ b sane low.
                      weaken a.nodes b.nodes (close d valid_text l field b']' b) low
                        (close-Counted b']' b sane)))
                (λ _. (h.0, tt, λ e. cc))

  value-Counted :
      (fuel depth : ℕ) (root : Bool) (a : Reading S)
      → Sane a
      → depth ≤ (l.max_json_depth + 1)
      → (l.max_json_depth + 1) < (depth + fuel)
      → Counted (a.nodes + 1) (value d valid_text l field fuel depth root a)
  unfolding value
  value-Counted zero depth root a h low enough = absurd (omega (arith, low, enough))
  value-Counted (suc fuel) depth root a h low enough =
      by_cases (Counted (a.nodes + 1)) (ltb l.max_json_depth depth) _ _ (λ _. (h.0, tt, λ e. cc))
        λ deep. take-Counted a (a.nodes + 1) _ h λ b t sane more sound.
          weaken (a.nodes + 1) b.nodes
            (container d valid_text l field depth root
              (value d valid_text l field fuel (depth + 1) false) b t)
            (omega (arith, more))
            (container-Counted depth root (value d valid_text l field fuel (depth + 1) false) b t
              (λ c inside.
                value-Counted fuel (depth + 1) false c inside (ground arith)
                  (omega (arith, enough)))
              sane)

  at_root_end-Counted : (a : Reading S) → Sane a → Counted 0 (at_root_end d valid_text l field a)
  at_root_end-Counted a h = (h.0, tt, λ e. (omega arith, h.1))

  root-Found :
      (a : Reading S) → (at_root_end d valid_text l field a).1 ≡ says abstain → a.found ≡ true
  root-Found a h = elim (Bool-cases a.found) [ inl found ↦ found | inr missing ↦ ground arith ]

  found_at_end :
      (r : Reading S × Verdict)
      → (go_on d valid_text l field r (at_root_end d valid_text l field)).1 ≡ says abstain
      → (go_on d valid_text l field r (at_root_end d valid_text l field)).0.found ≡ true
  found_at_end (a, says abstain) h = root-Found a h
  found_at_end (a, says _) h = cc
  found_at_end (a, panics) h = cc
  found_at_end (a, spent) h = cc

  input-Counted :
      (ctx : Ctx) (raw : Bytes)
      → Counted 0 (input d valid_text l field ctx raw)
        × ((input d valid_text l field ctx raw).1 ≡ says abstain
            → (input d valid_text l field ctx raw).0.found ≡ true)
  unfolding input
  input-Counted ctx raw =
      let a : Reading S = reading d valid_text l field ctx raw in
      let sane : Sane a = (omega arith, λ e. cc) in
      let P : Reading S × Verdict → Type 0 =
        λ r. Counted 0 r × (r.1 ≡ says abstain → r.0.found ≡ true) in
      by_cases P (ltb l.max_raw_input_bytes (length raw)) _ _
        (λ _. ((sane.0, tt, λ e. cc), λ e. cc))
        λ _.
          by_cases P (not (valid_text raw)) _ _ (λ _. ((sane.0, tt, λ e. cc), λ e. cc))
            λ _. (
              go_on-Counted 0 (value d valid_text l field (l.max_json_depth + 1) 1 true a) _
                  (weaken 0 1 (value d valid_text l field (l.max_json_depth + 1) 1 true a)
                    (omega arith)
                    (value-Counted (l.max_json_depth + 1) 1 true a sane (omega arith)
                      (omega arith)))
                  (λ b inside low. at_root_end-Counted b inside),
              found_at_end (value d valid_text l field (l.max_json_depth + 1) 1 true a),
            )

  -- Whatever tokens the decoder yields, the walk over an input ends, with a fuel of one more than the
  -- bounds on depth and on nodes, and it takes at most the bound's number of nodes.
  pub input-Ended :
      (ctx : Ctx) (raw : Bytes)
      → ((input d valid_text l field ctx raw).0.nodes ≤ l.max_json_nodes)
        × Ended (input d valid_text l field ctx raw).1
  input-Ended ctx raw = let r = input-Counted ctx raw in (r.0.0, r.0.1)

  -- If the walk over an input denies nothing, it has found a command, which is a valid text within the
  -- bound on commands.
  pub input-Proper :
      (ctx : Ctx) (raw : Bytes)
      → (input d valid_text l field ctx raw).1 ≡ says abstain
      → ((input d valid_text l field ctx raw).0.found ≡ true)
        × (valid_text (input d valid_text l field ctx raw).0.command ≡ true)
        × (length (input d valid_text l field ctx raw).0.command ≤ l.max_command_bytes)
  input-Proper ctx raw h =
      let r = input-Counted ctx raw in (r.1 h, ((r.0.2 h).1 (r.1 h)).0, ((r.0.2 h).1 (r.1 h)).1)
