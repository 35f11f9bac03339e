-- ===== src/RtkReducer/Transform/Slots.antt =====
-- rtkreducer/transform.go: the slot of a call.
use eino_agent_extensions.Prelude.{
  ℕ, ◌+◌, ◌-◌, ◌≡◌, refl, ◌∙◌, Bool, not, ◌||◌, Option, none, some, List, [], ◌∷◌, Bytes, bytes_eq,
  length, ◌==◌, if◌then◌else◌, by_cases, arith,
}
use eino_agent_extensions.External.{is_empty}
use eino_agent_extensions.Json.{JsonLib}
use eino_agent_extensions.RtkReducer.Json.{StringSpan}
use eino_agent_extensions.RtkReducer.Transform.{
  Filter, Field, Mode, text_only, json_mirror, other_mode, CanonicalBinding, TransformLimits,
  ToolResult, Reduced, reduces, gives_up, panics, Engine, span_of, or_zero, Turn, replaces,
  continues, returns_original, faults, FieldReplacement, Collected, collects, gives_original,
  faulted, text_result, is_bad_text, text_field, transform_text, field_turn, reduced_turn, also,
  go_on, collect, has_bad_field, json_result, json_fields, transform_json, by_mode, admitted,
  matches_binding, bound_transform, binding_of, transform_bound, transform,
}

module _ {S : Type 0} (lib : JsonLib) (engine : Engine S) (limits : TransformLimits) where
  -- The slots that are held, as the functions of an engine change them.
  pub record Counts (held : S → ℕ) : Type 0 where
    pub on_ended : (s : S) → held (engine.ended s).0 ≡ held s
    pub on_reduce :
        (s : S) (filter : Filter) (text : Bytes) → held (engine.reduce s filter text).0 ≡ held s
    pub on_acquire :
        (s : S) → held (engine.acquire s).0 ≡ (if (engine.acquire s).1 then held s + 1 else held s)
    pub on_release : (s : S) → held (engine.release s) ≡ held s - 1

  module _ (held : S → ℕ) (counts : Counts held) where
    -- A run from a state keeps what is held there.
    abbrev Kept : {R : Type 0} → S → S × R → Type 0
    Kept s r = held r.0 ≡ held s

    text_result-Kept :
        (original : ToolResult) (filter : Filter) (r : S × Reduced)
        → Kept r.0 (text_result lib engine limits original filter r)
    text_result-Kept original filter (s, reduces reduced) = refl
    text_result-Kept original filter (s, gives_up) = refl
    text_result-Kept original filter (s, panics) = refl

    text_field-Kept :
        (original : ToolResult) (fields : List Field) (s : S)
        → Kept s (text_field lib engine limits original fields s)
    text_field-Kept original [] s = refl
    text_field-Kept original (f ∷ g ∷ fs) s = refl
    text_field-Kept original (f ∷ []) s =
        by_cases (λ (r : S × ToolResult). Kept s r)
          (is_bad_text lib engine limits original.output || is_empty original.output) (s, original)
          (text_result lib engine limits original f.filter
            (engine.reduce s f.filter original.output))
          (λ _. refl)
          (λ _.
            text_result-Kept original f.filter (engine.reduce s f.filter original.output)
            ∙ counts.on_reduce s f.filter original.output)

    transform_text-Kept :
        (original : ToolResult) (fields : List Field) (s : S)
        → Kept s (transform_text lib engine limits original fields s)
    unfolding transform_text
    transform_text-Kept original fields s =
        by_cases (λ (r : S × ToolResult). Kept s r) (is_empty original.structured)
          (text_field lib engine limits original fields s) (s, original)
          (λ _. text_field-Kept original fields s) (λ _. refl)

    field_turn-Kept :
        (filter : Filter) (span : StringSpan) (s : S)
        → Kept s (field_turn lib engine limits filter span s)
    unfolding field_turn
    field_turn-Kept filter span s =
        by_cases (λ (r : S × Turn). Kept s r) (is_empty span.value) (s, continues)
          (
            (engine.reduce s filter span.value).0,
            reduced_turn lib engine limits filter span (engine.reduce s filter span.value).1,
          )
          (λ _. refl) (λ _. counts.on_reduce s filter span.value)

    also-Kept : (r : FieldReplacement) (c : S × Collected) → Kept c.0 (also lib engine limits r c)
    also-Kept r (s, collects rs) = refl
    also-Kept r (s, gives_original) = refl
    also-Kept r (s, faulted) = refl

    go_on-Kept :
        (rest : S → S × Collected) (t : S × Turn)
        → ((s : S) → Kept s (rest s))
        → Kept t.0 (go_on lib engine limits rest t)
    go_on-Kept rest (s, replaces r) h = also-Kept r (rest s) ∙ h s
    go_on-Kept rest (s, continues) h = h s
    go_on-Kept rest (s, returns_original) h = refl
    go_on-Kept rest (s, faults) h = refl

    collect-Kept :
        (spans : List (Bytes × StringSpan)) (fields : List Field) (s : S)
        → Kept s (collect lib engine limits spans fields s)
    unfolding collect
    collect-Kept spans [] s = refl
    collect-Kept spans (f ∷ fs) s =
        let turn : S × Turn =
          field_turn lib engine limits f.filter (or_zero (span_of f.name spans)) s in
        go_on-Kept (collect lib engine limits spans fs) turn (collect-Kept spans fs)
        ∙ field_turn-Kept f.filter (or_zero (span_of f.name spans)) s

    json_result-Kept :
        (original : ToolResult) (c : S × Collected)
        → Kept c.0 (json_result lib engine limits original c)
    json_result-Kept original (s, collects rs) = refl
    json_result-Kept original (s, gives_original) = refl
    json_result-Kept original (s, faulted) = refl

    json_fields-Kept :
        (original : ToolResult) (fields : List Field) (s : S)
        (o : Option (List (Bytes × StringSpan)))
        → Kept s (json_fields lib engine limits original fields s o)
    json_fields-Kept original fields s none = refl
    json_fields-Kept original fields s (some spans) =
        by_cases (λ (r : S × ToolResult). Kept s r)
          (not (length spans == length fields) || has_bad_field lib engine limits spans fields)
          (s, original)
          (json_result lib engine limits original (collect lib engine limits spans fields s))
          (λ _. refl)
          (λ _.
            json_result-Kept original (collect lib engine limits spans fields s)
            ∙ collect-Kept spans fields s)

    transform_json-Kept :
        (original : ToolResult) (fields : List Field) (s : S)
        → Kept s (transform_json lib engine limits original fields s)
    unfolding transform_json
    transform_json-Kept original fields s =
        by_cases (λ (r : S × ToolResult). Kept s r)
          (is_empty original.structured || not (bytes_eq original.output original.structured))
          (s, original) _ (λ _. refl) (λ _. json_fields-Kept original fields s _)

    by_mode-Kept :
        (original : ToolResult) (b : CanonicalBinding) (mode : Mode) (s : S)
        → Kept s (by_mode lib engine limits original b mode s)
    by_mode-Kept original b text_only s = transform_text-Kept original b.fields s
    by_mode-Kept original b json_mirror s = transform_json-Kept original b.fields s
    by_mode-Kept original b other_mode s = refl

    -- From the slot on: one slot less is held.
    admitted_gives_back :
        (original : ToolResult) (b : CanonicalBinding) (s : S)
        → held (admitted lib engine limits original b s).0 ≡ held s - 1
    unfolding admitted
    admitted_gives_back original b s =
        let e : S × Bool = engine.ended s in
        let run : S × ToolResult = by_mode lib engine limits original b b.mode e.0 in
        by_cases (λ (r : S × ToolResult). held r.0 ≡ held s - 1) _ (engine.release e.0, original)
          (engine.release run.0, run.1)
          (λ _. omega (arith, counts.on_release e.0, counts.on_ended s))
          (λ _.
            omega (
              arith,
              counts.on_release run.0,
              by_mode-Kept original b b.mode e.0,
              counts.on_ended s,
            ))

    bound_transform-Kept :
        (original : ToolResult) (b : CanonicalBinding) (s : S)
        → Kept s (bound_transform lib engine limits original b s)
    unfolding bound_transform
    bound_transform-Kept original b s =
        let e : S × Bool = engine.ended s in
        let a : S × Bool = engine.acquire e.0 in
        let on_ended = counts.on_ended s in
        let on_acquire = counts.on_acquire e.0 in
        let with_slot : S × ToolResult =
          if a.1 then admitted lib engine limits original b a.0 else (a.0, original) in
        let is_other : Bool = not (matches_binding lib engine limits original b.match_input) in
        by_cases (λ (r : S × ToolResult). Kept s r)
          (e.1 || not (is_empty original.permission_status)) (e.0, original)
          (if is_other then (e.0, original) else with_slot) (λ _. on_ended)
          λ _.
            by_cases (λ (r : S × ToolResult). Kept s r) is_other (e.0, original) with_slot
              (λ _. on_ended)
              λ _.
                by_cases (λ (r : S × ToolResult). Kept s r) a.1
                  (admitted lib engine limits original b a.0) (a.0, original)
                  (λ taken. grind (arith, admitted_gives_back original b a.0))
                  (λ refused. grind arith)

    transform_bound-Kept :
        (original : ToolResult) (o : Option CanonicalBinding) (s : S)
        → Kept s (transform_bound lib engine limits original o s)
    transform_bound-Kept original none s = refl
    transform_bound-Kept original (some b) s = bound_transform-Kept original b s

    -- A call holds in the end as many slots as it did before, on every way out: where it is refused,
    -- where the context ends, where a reduction gives up and where it panics.
    pub transform-Kept :
        (bindings : List CanonicalBinding) (input : ToolResult) (s : S)
        → held (transform lib engine limits bindings input s).0 ≡ held s
    unfolding transform
    transform-Kept bindings input s =
        transform_bound-Kept input (binding_of input.tool_name bindings) s
