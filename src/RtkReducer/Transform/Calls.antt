-- ===== src/RtkReducer/Transform/Calls.antt =====
-- A whole call of the transform: when it changes a result, and to what.
use eino_agent_extensions.Prelude.{
  ◌≡◌, refl, Bool, true, not, ◌||◌, Option, none, some, List, length, if◌then◌else◌, by_cases, ◌⊎◌,
  inl, inr, arith,
}
use eino_agent_extensions.External.{is_empty}
use eino_agent_extensions.Json.{JsonLib}
use eino_agent_extensions.RtkReducer.Transform.{
  Mode, text_only, json_mirror, other_mode, CanonicalBinding, TransformLimits, ToolResult, Engine,
  bounded_combined_size, by_mode, admitted, matches_binding, bound_transform, binding_of,
  transform_bound, transform,
}
use eino_agent_extensions.RtkReducer.Transform.Results.{
  IsMarked, IsMirrored, transform_text-Marks, transform_json-Mirrors,
}

module _ {S : Type 0} (lib : JsonLib) (engine : Engine S) (limits : TransformLimits) where
  -- What the text of a result became, by the mode of the binding.
  pub data IsChanged (original result : ToolResult) : Mode → Type 0 where
    by_text : IsMarked lib engine limits original result → IsChanged original result text_only
    by_mirror : IsMirrored lib engine limits original result → IsChanged original result json_mirror

  -- A call that its binding admits, and the change that it made.
  pub record IsServed (bindings : List CanonicalBinding) (original result : ToolResult)
      : Type 0 where
    pub binding : CanonicalBinding
    pub bound : binding_of original.tool_name bindings ≡ some binding
    pub unasked : is_empty original.permission_status ≡ true
    pub matching : matches_binding lib engine limits original binding.match_input ≡ true
    pub sized :
        bounded_combined_size
          (length original.output)
          (length original.structured)
          limits.max_result_bytes
        ≡ true
    pub changed : IsChanged original result binding.mode

  by_mode-IsChanged :
      (original : ToolResult) (b : CanonicalBinding) (mode : Mode) (s : S)
      → ((by_mode lib engine limits original b mode s).1 ≡ original)
        ⊎ IsChanged original (by_mode lib engine limits original b mode s).1 mode
  by_mode-IsChanged original b text_only s =
      elim (transform_text-Marks lib engine limits original b.fields s) [
        | inl h ↦ inl h
        | inr h ↦ inr (by_text h)
      ]
  by_mode-IsChanged original b json_mirror s =
      elim (transform_json-Mirrors lib engine limits original b.fields s) [
        | inl h ↦ inl h
        | inr h ↦ inr (by_mirror h)
      ]
  by_mode-IsChanged original b other_mode s = inl refl

  module _ (bindings : List CanonicalBinding) (original : ToolResult) where
    abbrev Ends : S × ToolResult → Type 0
    Ends r = (r.1 ≡ original) ⊎ IsServed bindings original r.1

    admitted-IsServed :
        (b : CanonicalBinding) (s : S)
        → binding_of original.tool_name bindings ≡ some b
        → is_empty original.permission_status ≡ true
        → matches_binding lib engine limits original b.match_input ≡ true
        → Ends (admitted lib engine limits original b s)
    unfolding admitted
    admitted-IsServed b s bound unasked matching =
        let e : S × Bool = engine.ended s in
        let run : S × ToolResult = by_mode lib engine limits original b b.mode e.0 in
        let sized : Bool =
          bounded_combined_size (length original.output) (length original.structured)
            limits.max_result_bytes in
        by_cases Ends (e.1 || not sized) (engine.release e.0, original)
          (engine.release run.0, run.1) (λ _. inl refl)
          λ good. elim (by_mode-IsChanged original b b.mode e.0) [
            | inl h ↦ inl h
            | inr h ↦ inr (record {
              binding = b;
              bound = bound;
              unasked = unasked;
              matching = matching;
              sized = ground arith;
              changed = h;
            })
          ]

    bound_transform-IsServed :
        (b : CanonicalBinding) (s : S)
        → binding_of original.tool_name bindings ≡ some b
        → Ends (bound_transform lib engine limits original b s)
    unfolding bound_transform
    bound_transform-IsServed b s bound =
        let e : S × Bool = engine.ended s in
        let a : S × Bool = engine.acquire e.0 in
        let is_match : Bool = matches_binding lib engine limits original b.match_input in
        let with_slot : S × ToolResult =
          if a.1 then admitted lib engine limits original b a.0 else (a.0, original) in
        by_cases Ends (e.1 || not (is_empty original.permission_status)) (e.0, original)
          (if not is_match then (e.0, original) else with_slot) (λ _. inl refl)
          λ good.
            by_cases Ends (not is_match) (e.0, original) with_slot (λ _. inl refl)
              λ matching.
                by_cases Ends a.1 (admitted lib engine limits original b a.0) (a.0, original)
                  (λ _. admitted-IsServed b a.0 bound (ground arith) (ground arith)) (λ _. inl refl)

    transform_bound-IsServed :
        (o : Option CanonicalBinding) (s : S)
        → binding_of original.tool_name bindings ≡ o
        → Ends (transform_bound lib engine limits original o s)
    transform_bound-IsServed none s bound = inl refl
    transform_bound-IsServed (some b) s bound = bound_transform-IsServed b s bound

  -- A call returns the result it was given, or its binding admits the call and the text is changed by
  -- the binding's mode: a marked reduction that stands alone, or an object patched in both places.
  pub transform-IsServed :
      (bindings : List CanonicalBinding) (original : ToolResult) (s : S)
      → ((transform lib engine limits bindings original s).1 ≡ original)
        ⊎ IsServed bindings original (transform lib engine limits bindings original s).1
  unfolding transform
  transform-IsServed bindings original s =
      transform_bound-IsServed bindings original (binding_of original.tool_name bindings) s refl
