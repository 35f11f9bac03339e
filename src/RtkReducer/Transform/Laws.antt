-- ===== src/RtkReducer/Transform/Laws.antt =====
-- What the transform makes of a result: nothing, a marked text, or a patched object.
use eino_agent_extensions.Prelude.{
  ℕ, ◌-◌, ◌≤◌, ◌<◌, ◌≡◌, refl, ap, Bool, not, ◌||◌, Option, none, some, List, [], ◌∷◌, ◌++◌, Bytes,
  bytes_eq, length, drop, length-take, length-drop, leb, if◌then◌else◌, by_cases, ◌⊎◌, inl, inr,
  All, arith,
}
use eino_agent_extensions.External.{is_empty}
use eino_agent_extensions.Json.{JsonLib}
use eino_agent_extensions.Json.Laws.{slice, IsLiteral}
use eino_agent_extensions.RtkReducer.Json.{StringSpan}
use eino_agent_extensions.RtkReducer.Json.Spans.{Spans}
use eino_agent_extensions.RtkReducer.Transform.{
  Filter, Field, TransformLimits, Reduced, reduces, gives_up, panics, Engine, reduction_marker,
  span_of, or_zero, FieldReplacement, Turn, replaces, continues, returns_original, faults,
  Collected, collects, gives_original, faulted, encoded_turn, reduced_turn, field_turn, also, go_on,
  collect,
}
use eino_agent_extensions.RtkReducer.Transform.Replace.{IsChange}

module _ {S : Type 0} (lib : JsonLib) (engine : Engine S) (limits : TransformLimits) where
  -- A literal and the one in its place: the marked reduction of what it stands for, and shorter.
  pub record IsReduction (old new : Bytes) : Type 0 where
    pub value : Bytes
    pub filter : Filter
    pub reduced : Bytes
    pub state : S
    pub decodes : lib.unmarshal old ≡ some value
    pub asked : (engine.reduce state filter value).1 ≡ reduces reduced
    pub encodes : lib.marshal (reduction_marker filter (length value) ++ reduced) ≡ some new
    pub shorter : length new < length old

  length-slice :
      (start end : ℕ) (raw : Bytes) → end ≤ length raw → length (slice start end raw) ≡ end - start
  length-slice start end raw h =
      omega (arith, length-take (end - start) (drop start raw), length-drop start raw)

  -- The zero span, or a literal of the text.
  abbrev pub Known : Bytes → StringSpan → Type 0
  Known raw span = (span.value ≡ []) ⊎ IsLiteral lib raw span.start span.end span.value

  abbrev Follows : Bytes → Turn → Type 0
  Follows raw (replaces r) = IsChange IsReduction raw r
  Follows raw continues = Unit {0}
  Follows raw returns_original = Unit {0}
  Follows raw faults = Unit {0}

  abbrev pub Changes : Bytes → Collected → Type 0
  Changes raw (collects rs) = All (IsChange IsReduction raw) rs
  Changes raw gives_original = Unit {0}
  Changes raw faulted = Unit {0}

  encoded_turn-Follows :
      (raw : Bytes) (filter : Filter) (span : StringSpan) (reduced : Bytes) (s : S)
      (o : Option Bytes)
      → lib.marshal (reduction_marker filter (length span.value) ++ reduced) ≡ o
      → IsLiteral lib raw span.start span.end span.value
      → (engine.reduce s filter span.value).1 ≡ reduces reduced
      → Follows raw (encoded_turn lib engine limits span o)
  encoded_turn-Follows raw filter span reduced s none e k asked = tt
  encoded_turn-Follows raw filter span reduced s (some encoded) e k asked =
      by_cases (Follows raw) (leb (span.end - span.start) (length encoded)) continues
        (replaces (record { start = span.start; end = span.end; value = encoded })) (λ _. tt)
        λ long. record {
          forward = omega (arith, k.opens);
          allowed = record {
            value = span.value;
            filter = filter;
            reduced = reduced;
            state = s;
            decodes = k.decodes;
            asked = asked;
            encodes = e;
            shorter = ground (arith, length-slice span.start span.end raw k.within);
          };
        }

  reduced_turn-Follows :
      (raw : Bytes) (filter : Filter) (span : StringSpan) (s : S) (r : Reduced)
      → IsLiteral lib raw span.start span.end span.value
      → (engine.reduce s filter span.value).1 ≡ r
      → Follows raw (reduced_turn lib engine limits filter span r)
  unfolding reduced_turn
  reduced_turn-Follows raw filter span s gives_up k asked = tt
  reduced_turn-Follows raw filter span s panics k asked = tt
  reduced_turn-Follows raw filter span s (reduces reduced) k asked =
      let marked : Bytes = reduction_marker filter (length span.value) ++ reduced in
      let encoded : Turn = encoded_turn lib engine limits span (lib.marshal marked) in
      let is_long : Bool = bytes_eq reduced span.value || leb (length span.value) (length marked) in
      by_cases (Follows raw) (is_empty reduced || not (lib.utf8_valid reduced)) returns_original
        (if is_long then continues else encoded) (λ _. tt)
        λ _.
          by_cases (Follows raw) is_long continues encoded (λ _. tt)
            λ _. encoded_turn-Follows raw filter span reduced s (lib.marshal marked) refl k asked

  field_turn-Follows :
      (raw : Bytes) (filter : Filter) (span : StringSpan) (s : S)
      → Known raw span
      → Follows raw (field_turn lib engine limits filter span s).1
  unfolding field_turn
  field_turn-Follows raw filter span s known =
      by_cases (λ (r : S × Turn). Follows raw r.1) (is_empty span.value) (s, continues) _ (λ _. tt)
        λ full. elim known [
          | inl zero_span ↦ cc (ap is_empty zero_span, full)
          | inr k ↦ reduced_turn-Follows raw filter span s _ k refl
        ]

  also-Changes :
      (raw : Bytes) (r : FieldReplacement) (c : S × Collected)
      → IsChange IsReduction raw r
      → Changes raw c.1
      → Changes raw (also lib engine limits r c).1
  also-Changes raw r (s, collects rs) h k = (h, k)
  also-Changes raw r (s, gives_original) h k = tt
  also-Changes raw r (s, faulted) h k = tt

  go_on-Changes :
      (raw : Bytes) (rest : S → S × Collected) (t : S × Turn)
      → Follows raw t.1
      → ((s : S) → Changes raw (rest s).1)
      → Changes raw (go_on lib engine limits rest t).1
  go_on-Changes raw rest (s, replaces r) h k = also-Changes raw r (rest s) h (k s)
  go_on-Changes raw rest (s, continues) h k = k s
  go_on-Changes raw rest (s, returns_original) h k = tt
  go_on-Changes raw rest (s, faults) h k = tt

  pub span_of-Known :
      (raw : Bytes) (max_depth max_nodes : ℕ) (name : Bytes) (found : List (Bytes × StringSpan))
      (p : ℕ) (names : List Bytes)
      → Spans lib raw max_depth max_nodes names p found
      → Known raw (or_zero (span_of name found))
  unfolding span_of
  span_of-Known raw max_depth max_nodes name [] p names h = inl refl
  span_of-Known raw max_depth max_nodes name ((key, span) ∷ rest) p names h =
      by_cases (λ o. Known raw (or_zero o)) (bytes_eq key name) (some span) (span_of name rest)
        (λ _. inr h.1) (λ _. span_of-Known raw max_depth max_nodes name rest span.start names h.3)

  pub collect-Changes :
      (raw : Bytes) (spans : List (Bytes × StringSpan)) (fields : List Field) (s : S)
      → ((name : Bytes) → Known raw (or_zero (span_of name spans)))
      → Changes raw (collect lib engine limits spans fields s).1
  unfolding collect
  collect-Changes raw spans [] s known = tt
  collect-Changes raw spans (f ∷ fs) s known =
      go_on-Changes raw (collect lib engine limits spans fs)
        (field_turn lib engine limits f.filter (or_zero (span_of f.name spans)) s)
        (field_turn-Follows raw f.filter (or_zero (span_of f.name spans)) s (known f.name))
        (λ t. collect-Changes raw spans fs t known)
