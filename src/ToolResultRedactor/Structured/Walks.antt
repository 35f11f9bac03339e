-- ===== src/ToolResultRedactor/Structured/Walks.antt =====
-- `parseValue` of toolresultredactor/json.go: the end of a walk, and what it leaves to replace.
use eino_agent_extensions.Prelude.{
  ℕ, zero, suc, ◌+◌, ◌≤◌, ◌≡◌, refl, sym, ap, subst, ◌∙◌, inl, inr, true, false, Option, none, some,
  [], ◌∷◌, ◌++◌, Bytes, length, drop, length-drop, get_elem?, leb, ◌==◌, if◌then◌else◌, by_cases,
  arith,
}
use eino_agent_extensions.Context.{Ctx, poll}
use eino_agent_extensions.Json.{
  JsonLib, leading_spaces, primitive_length, is_byte, quote, parse_string_literal,
}
use eino_agent_extensions.Json.Laws.{
  slice, leading_spaces_le, primitive_length_le, IsLiteral, parse_string_literal-IsLiteral,
}
use eino_agent_extensions.ToolResultRedactor.Scalar.{
  Policy, ScanState, unchanged, changed, unsafe, canceled, scan_scalar,
}
use eino_agent_extensions.ToolResultRedactor.Scalar.Laws.{
  AreMatchers, all_matches, Scanned, scan_scalar-Returns,
}
use eino_agent_extensions.ToolResultRedactor.Structured.{
  StructuredLimits, structured_placeholder, JsonReplacement, JsonWalker, Verdict, state, spent,
  faulted, Walked, and_then, skip_space, unless_ended, consume_node, expect, with_literal, literal,
  replaced, marshaled, redact_value, clean_key, string_value, parse_primitive, after_item,
}
use eino_agent_extensions.ToolResultRedactor.Structured.Redactions.{
  IsRedaction, IsChange, Chain, Chain-mono, Chain-append, IsClean, Scans, spaces, mark, primitive,
  kept, redacted, is_structure, copied, copied_on, copied-append,
}

abbrev pub Ended : Verdict → Type 0
Ended (state unchanged) = Unit {0}
Ended (state unsafe) = Unit {0}
Ended (state canceled) = Unit {0}
Ended (state changed) = ⊥
Ended spent = ⊥
Ended faulted = ⊥

module _ (lib : JsonLib) (p : Policy) (limits : StructuredLimits) (raw : Bytes)
    (l : AreMatchers p.rules) where
  pub record Sane (w : JsonWalker) : Type 0 where
    pub counted : w.nodes ≤ limits.max_structured_nodes
    pub within : w.position ≤ length raw
    pub chained : Chain lib p limits raw l 0 w.position w.replacements
    pub scanned :
        Scans lib p limits raw l w.position (copied lib p limits raw l 0 w.replacements w.position)

  -- What a function comes to: it ends, and if it goes on it leaves a sane walker that has counted at
  -- least so many nodes.
  pub record Comes (n : ℕ) (r : Walked) : Type 0 where
    pub ends : Ended r.1
    pub on : r.1 ≡ state unchanged → (n ≤ r.0.nodes) × Sane r.0

  pub failing : (n : ℕ) (w : JsonWalker) → Comes n (w, state unsafe)
  failing n w = record { ends = tt; on = λ e. cc }

  canceling : (n : ℕ) (w : JsonWalker) → Comes n (w, state canceled)
  canceling n w = record { ends = tt; on = λ e. cc }

  pub passing : (n : ℕ) (w : JsonWalker) → n ≤ w.nodes → Sane w → Comes n (w, state unchanged)
  passing n w k h = record { ends = tt; on = λ e. (k, h) }

  pub weaken : (n m : ℕ) (r : Walked) → n ≤ m → Comes m r → Comes n r
  weaken n m r h k = record { ends = k.ends; on = λ e. (omega (arith, h, (k.on e).0), (k.on e).1) }

  pub with_ctx : (w : JsonWalker) (ctx : Ctx) → Sane w → Sane (record w { ctx = ctx })
  with_ctx w ctx h = record {
    counted = h.counted;
    within = h.within;
    chained = h.chained;
    scanned = h.scanned;
  }

  moved :
      (w : JsonWalker) (q : ℕ)
      → w.position ≤ q
      → q ≤ length raw
      → Scans lib p limits raw l q
          (copied lib p limits raw l 0 w.replacements w.position ++ slice w.position q raw)
      → Sane w
      → Sane (record w { position = q })
  moved w q h k scanned sane = record {
    counted = sane.counted;
    within = k;
    chained = Chain-mono lib p limits raw l 0 w.position q w.replacements h sane.chained;
    scanned =
        subst (Scans lib p limits raw l q)
          (sym (
            copied_on lib p limits raw l 0 w.position w.position q w.replacements sane.chained
              (omega arith) h))
          scanned;
  }

  pub skip_space-Sane : (w : JsonWalker) → Sane w → Sane (skip_space lib p limits raw w)
  skip_space-Sane w h =
      moved w (w.position + leading_spaces (drop w.position raw)) (omega arith)
        (omega
          (arith, h.within, leading_spaces_le (drop w.position raw), length-drop w.position raw))
        (spaces w.position (copied lib p limits raw l 0 w.replacements w.position) h.scanned) h

  byte_inside :
      (c : ℕ) (bs : Bytes) (i : ℕ) → is_byte c (get_elem? bs i) ≡ true → (i + 1) ≤ length bs
  byte_inside c [] i h = cc
  byte_inside c (b ∷ bs) zero h = omega arith
  byte_inside c (b ∷ bs) (suc i) h = omega (arith, byte_inside c bs i h)

  pub step-Sane :
      (c : ℕ) (w : JsonWalker)
      → is_structure c ≡ true
      → is_byte c (get_elem? raw w.position) ≡ true
      → Sane w
      → Sane (record w { position = w.position + 1 })
  step-Sane c w structure at h =
      moved w (w.position + 1) (omega arith) (byte_inside c raw w.position at)
        (mark w.position c (copied lib p limits raw l 0 w.replacements w.position) at structure
          h.scanned)
        h

  pub and_then-Comes :
      (n : ℕ) (r : Walked) (next : JsonWalker → Walked)
      → Comes n r
      → ((w : JsonWalker) → n ≤ w.nodes → Sane w → Comes n (next w))
      → Comes n (and_then r next)
  unfolding and_then
  and_then-Comes n (w, state unchanged) next h k = k w (h.on refl).0 (h.on refl).1
  and_then-Comes n (w, state changed) next h k = record { ends = h.ends; on = h.on }
  and_then-Comes n (w, state unsafe) next h k = record { ends = h.ends; on = h.on }
  and_then-Comes n (w, state canceled) next h k = record { ends = h.ends; on = h.on }
  and_then-Comes n (w, spent) next h k = record { ends = h.ends; on = h.on }
  and_then-Comes n (w, faulted) next h k = record { ends = h.ends; on = h.on }

  pub unless_ended-Comes :
      (n : ℕ) (w : JsonWalker) (next : JsonWalker → Walked)
      → Sane w
      → (Sane (record w { ctx = (poll w.ctx).1 })
          → Comes n (next (record w { ctx = (poll w.ctx).1 })))
      → Comes n (unless_ended lib p limits raw w next)
  unfolding unless_ended
  unless_ended-Comes n w next h k =
      let v : JsonWalker = record w { ctx = (poll w.ctx).1 } in
      by_cases (Comes n) (poll w.ctx).0 (v, state canceled) (next v) (λ _. canceling n v)
        (λ _. k (with_ctx w (poll w.ctx).1 h))

  pub consume_node-Comes :
      (n : ℕ) (w : JsonWalker) (next : JsonWalker → Walked)
      → Sane w
      → (Sane (record w { nodes = w.nodes + 1 })
          → Comes n (next (record w { nodes = w.nodes + 1 })))
      → Comes n (consume_node lib p limits raw w next)
  unfolding consume_node
  consume_node-Comes n w next h k =
      let v : JsonWalker = record w { nodes = w.nodes + 1 } in
      by_cases (Comes n) (leb v.nodes limits.max_structured_nodes) (next v) (v, state unsafe)
        (λ room. k (record {
          counted = ground arith;
          within = h.within;
          chained = h.chained;
          scanned = h.scanned;
        }))
        (λ _. failing n v)

  pub expect-Comes :
      (n c : ℕ) (w : JsonWalker) (next : JsonWalker → Walked)
      → (is_byte c (get_elem? raw w.position) ≡ true → Comes n (next w))
      → Comes n (expect lib p limits raw c w next)
  unfolding expect
  expect-Comes n c w next k =
      by_cases (Comes n) (is_byte c (get_elem? raw w.position)) (next w) (w, state unsafe) k
        (λ _. failing n w)

  with_literal-Comes :
      (n : ℕ) (w : JsonWalker) (o : Option (ℕ × Bytes)) (next : JsonWalker → ℕ → Bytes → Walked)
      → parse_string_literal lib raw w.position ≡ o
      → ((end : ℕ) (value : Bytes)
          → IsLiteral lib raw w.position end value
          → Comes n (next (record w { position = end }) end value))
      → Comes n (with_literal lib p limits raw w o next)
  unfolding with_literal
  with_literal-Comes n w none next e k = failing n w
  with_literal-Comes n w (some (end, value)) next e k =
      k end value (parse_string_literal-IsLiteral lib raw w.position end value e)

  pub literal-Comes :
      (n : ℕ) (w : JsonWalker) (next : JsonWalker → ℕ → Bytes → Walked)
      → ((end : ℕ) (value : Bytes)
          → IsLiteral lib raw w.position end value
          → Comes n (next (record w { position = end }) end value))
      → Comes n (literal lib p limits raw w next)
  unfolding literal
  literal-Comes n w next k =
      with_literal-Comes n w (parse_string_literal lib raw w.position) next refl k

  -- A literal that is kept because it is clean.
  kept-Sane :
      (end : ℕ) (value : Bytes) (ctx : Ctx) (w : JsonWalker)
      → IsLiteral lib raw w.position end value
      → IsClean lib p limits raw l value
      → Sane w
      → Sane (record w { position = end; ctx = ctx })
  kept-Sane end value ctx w is_literal clean h =
      with_ctx (record w { position = end }) ctx
        (moved w end (omega (arith, is_literal.opens)) is_literal.within
          (kept w.position end value (copied lib p limits raw l 0 w.replacements w.position)
            is_literal clean h.scanned)
          h)

  -- A literal that is replaced.
  replaced-Sane :
      (end : ℕ) (value new : Bytes) (ctx : Ctx) (w : JsonWalker)
      → IsLiteral lib raw w.position end value
      → IsRedaction lib p limits raw l (slice w.position end raw) new
      → Sane w
      → Sane (replaced lib p limits raw (record w { position = end; ctx = ctx }) w.position end new)
  replaced-Sane end value new ctx w is_literal redaction h =
      let r : JsonReplacement = record { start = w.position; end = end; value = new } in
      let change : IsChange lib p limits raw l r = record {
        forward = omega (arith, is_literal.opens);
        within = is_literal.within;
        allowed = redaction;
      } in
      record {
        counted = h.counted;
        within = is_literal.within;
        chained =
            Chain-append lib p limits raw l 0 w.position w.replacements r (omega arith) change
              h.chained;
        scanned =
            subst (Scans lib p limits raw l end)
              (sym (copied-append lib p limits raw l 0 w.replacements r))
              (redacted w.position end value new
                (copied lib p limits raw l 0 w.replacements w.position) is_literal redaction
                h.scanned);
      }

  marshaled-Comes :
      (n end : ℕ) (value text : Bytes) (ctx : Ctx) (o : Option Bytes) (w : JsonWalker)
      → lib.marshal text ≡ o
      → n ≤ w.nodes
      → IsLiteral lib raw w.position end value
      → Scanned value (all_matches p.rules l value) text changed
      → Sane w
      → Comes n
          (marshaled lib p limits raw (record w { position = end; ctx = ctx }) w.position end o)
  marshaled-Comes n end value text ctx none w e enough is_literal scanned h =
      failing n (record w { position = end; ctx = ctx })
  marshaled-Comes n end value text ctx (some new) w e enough is_literal scanned h =
      passing n
        (replaced lib p limits raw (record w { position = end; ctx = ctx }) w.position end new)
        enough
        (replaced-Sane end value new ctx w is_literal
          (record {
            value = value;
            decodes = is_literal.decodes;
            redacted = inr (scanned.0, ap lib.marshal (sym scanned.1) ∙ e);
          })
          h)

  redact_value-Comes :
      (n end : ℕ) (value text : Bytes) (ctx : Ctx) (s : ScanState) (w : JsonWalker)
      → n ≤ w.nodes
      → IsLiteral lib raw w.position end value
      → Scanned value (all_matches p.rules l value) text s
      → Sane w
      → Comes n (
          redact_value lib p limits raw
            (record w { position = end })
            w.position
            end
            (some (ctx, text, s)))
  unfolding redact_value
  redact_value-Comes n end value text ctx unchanged w enough is_literal scanned h =
      passing n (record w { position = end; ctx = ctx }) enough
        (kept-Sane end value ctx w is_literal scanned.1 h)
  redact_value-Comes n end value text ctx changed w enough is_literal scanned h =
      marshaled-Comes n end value text ctx (lib.marshal text) w refl enough is_literal scanned h
  redact_value-Comes n end value text ctx unsafe w enough is_literal scanned h =
      passing n
        (replaced lib p limits raw (record w { position = end; ctx = ctx }) w.position end
          structured_placeholder)
        enough
        (replaced-Sane end value structured_placeholder ctx w is_literal
          (record { value = value; decodes = is_literal.decodes; redacted = inl refl }) h)
  redact_value-Comes n end value text ctx canceled w enough is_literal scanned h =
      canceling n (record w { position = end; ctx = ctx })

  pub string_value-Comes :
      (n end : ℕ) (value : Bytes) (w : JsonWalker)
      → n ≤ w.nodes
      → IsLiteral lib raw w.position end value
      → Sane w
      → Comes n (string_value lib p limits raw w.position (record w { position = end }) end value)
  unfolding string_value
  string_value-Comes n end value w enough is_literal h =
      let (ctx, text, s, e, scanned) = scan_scalar-Returns lib.utf8_valid p l w.ctx value in
      subst
        (λ o.
          Comes n (redact_value lib p limits raw (record w { position = end }) w.position end o))
        (sym e) (redact_value-Comes n end value text ctx s w enough is_literal scanned h)

  key_state-Comes :
      (n end : ℕ) (key text : Bytes) (ctx : Ctx) (s : ScanState) (w : JsonWalker)
      (next : JsonWalker → Walked)
      → IsLiteral lib raw w.position end key
      → Scanned key (all_matches p.rules l key) text s
      → Sane w
      → (Sane (record w { position = end; ctx = ctx })
          → Comes n (next (record w { position = end; ctx = ctx })))
      → Comes n
          (clean_key lib p limits raw (record w { position = end }) (some (ctx, text, s)) next)
  unfolding clean_key
  key_state-Comes n end key text ctx unchanged w next is_literal scanned h k =
      k (kept-Sane end key ctx w is_literal scanned.1 h)
  key_state-Comes n end key text ctx changed w next is_literal scanned h k =
      failing n (record w { position = end; ctx = ctx })
  key_state-Comes n end key text ctx unsafe w next is_literal scanned h k =
      failing n (record w { position = end; ctx = ctx })
  key_state-Comes n end key text ctx canceled w next is_literal scanned h k =
      canceling n (record w { position = end; ctx = ctx })

  pub clean_key-Comes :
      (n end : ℕ) (key : Bytes) (w : JsonWalker) (next : JsonWalker → Walked)
      → IsLiteral lib raw w.position end key
      → Sane w
      → ((ctx : Ctx)
          → Sane (record w { position = end; ctx = ctx })
          → Comes n (next (record w { position = end; ctx = ctx })))
      → Comes n (
          clean_key lib p limits raw
            (record w { position = end })
            (scan_scalar lib.utf8_valid p w.ctx key)
            next)
  clean_key-Comes n end key w next is_literal h k =
      let (ctx, text, s, e, scanned) = scan_scalar-Returns lib.utf8_valid p l w.ctx key in
      subst (λ o. Comes n (clean_key lib p limits raw (record w { position = end }) o next)) (sym e)
        (key_state-Comes n end key text ctx s w next is_literal scanned h (k ctx))

  pub parse_primitive-Comes :
      (w : JsonWalker)
      → is_byte quote (get_elem? raw w.position) ≡ false
      → Sane w
      → Comes w.nodes (parse_primitive lib p limits raw w)
  unfolding parse_primitive
  parse_primitive-Comes w other h =
      let n : ℕ = primitive_length (drop w.position raw) in
      let v : JsonWalker = record w { position = w.position + n } in
      by_cases (λ verdict. Comes w.nodes (v, verdict)) (n == 0) (state unsafe) (state unchanged)
        (λ _. failing w.nodes v)
        (λ _. passing w.nodes v (omega arith) (
          moved w (w.position + n) (omega arith)
            (omega (
              arith,
              h.within,
              primitive_length_le (drop w.position raw),
              length-drop w.position raw,
            ))
            (primitive w.position (copied lib p limits raw l 0 w.replacements w.position) other
              h.scanned)
            h))

  pub after_item-Comes :
      (n close : ℕ) (w : JsonWalker) (next : JsonWalker → Walked)
      → is_structure close ≡ true
      → n ≤ w.nodes
      → Sane w
      → (Sane (record w { position = w.position + 1 })
          → Comes n (next (record w { position = w.position + 1 })))
      → Comes n (after_item lib p limits raw close w next)
  unfolding after_item
  after_item-Comes n close w next closes enough h k =
      let v : JsonWalker = record w { position = w.position + 1 } in
      by_cases (Comes n) (is_byte close (get_elem? raw w.position)) (v, state unchanged)
        (if is_byte b',' (get_elem? raw w.position) then next v else (w, state unsafe))
        (λ at. passing n v enough (step-Sane close w closes at h))
        λ _.
          by_cases (Comes n) (is_byte b',' (get_elem? raw w.position)) (next v) (w, state unsafe)
            (λ at. k (step-Sane b',' w refl at h)) (λ _. failing n w)
