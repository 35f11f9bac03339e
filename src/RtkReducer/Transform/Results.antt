-- ===== src/RtkReducer/Transform/Results.antt =====
-- The results of the transform, by its modes.
use eino_agent_extensions.Prelude.{
  ℕ, ◌+◌, ◌≤◌, ◌<◌, ◌≡◌, refl, ap, Bool, true, false, not, ◌||◌, Option, none, some, List, [], ◌∷◌,
  ◌++◌, map, Bytes, bytes_eq, bytes_eq_iff, length, leb, ◌==◌, if◌then◌else◌, by_cases, ◌⊎◌, inl,
  inr, All, arith,
}
use eino_agent_extensions.External.{is_empty}
use eino_agent_extensions.Json.{JsonLib}
use eino_agent_extensions.RtkReducer.Json.{StringSpan, scan_object_strings}
use eino_agent_extensions.RtkReducer.Json.Ends.{scan_object_strings-Spans}
use eino_agent_extensions.RtkReducer.Transform.{
  Filter, Field, TransformLimits, ToolResult, Reduced, reduces, gives_up, panics, Engine,
  reduction_marker, bounded_combined_size, FieldReplacement, Collected, collects, gives_original,
  faulted, sort_by_start, new_length, patch, marked_text, with_output, text_result, is_bad_text,
  text_field, transform_text, collect, has_bad_field, checked, patched_within, patched_text,
  with_both, json_result, json_fields, transform_json,
}
use eino_agent_extensions.Json.Rewriting.{Rewritten}
use eino_agent_extensions.RtkReducer.Transform.Replace.{
  IsChange, patch-Rewritten, sort_by_start-All,
}
use eino_agent_extensions.RtkReducer.Transform.Laws.{
  IsReduction, Changes, span_of-Known, collect-Changes,
}

module _ {S : Type 0} (lib : JsonLib) (engine : Engine S) (limits : TransformLimits) where
  -- A text with literals of it replaced by reductions: shorter, JSON, and twice within the bound.
  pub record IsPatched (raw out : Bytes) : Type 0 where
    pub rewritten : Rewritten (IsReduction lib engine limits) raw out
    pub shorter : length out < length raw
    pub bounded : (length out + length out) ≤ limits.max_result_bytes
    pub valid : lib.json_valid out ≡ true

  abbrev Patches : Bytes → Option Bytes → Type 0
  Patches raw none = Unit {0}
  Patches raw (some out) = IsPatched raw out

  checked-Patches :
      (raw : Bytes) (len : ℕ) (rs : List FieldReplacement) (o : Option Bytes)
      → patch raw 0 rs ≡ o
      → All (IsChange (IsReduction lib engine limits) raw) rs
      → leb (length raw) len ≡ false
      → bounded_combined_size len len limits.max_result_bytes ≡ true
      → Patches raw (checked lib engine limits raw len o)
  unfolding bounded_combined_size
  checked-Patches raw len rs none e changes shrinks fits = tt
  checked-Patches raw len rs (some out) e changes shrinks fits =
      by_cases (Patches raw) (not (length out == len) || not (lib.json_valid out)) none (some out)
        (λ _. tt)
        λ good. record {
          rewritten = patch-Rewritten (IsReduction lib engine limits) raw 0 rs out changes e;
          shorter = ground arith;
          bounded = ground arith;
          valid = ground arith;
        }

  patched_within-Patches :
      (raw : Bytes) (rs : List FieldReplacement) (o : Option ℕ)
      → All (IsChange (IsReduction lib engine limits) raw) rs
      → Patches raw (patched_within lib engine limits raw rs o)
  patched_within-Patches raw rs none changes = tt
  patched_within-Patches raw rs (some len) changes =
      by_cases (Patches raw)
        (leb (length raw) len || not (bounded_combined_size len len limits.max_result_bytes)) none
        (checked lib engine limits raw len (patch raw 0 rs)) (λ _. tt)
        λ good.
          checked-Patches raw len rs (patch raw 0 rs) refl changes (ground arith) (ground arith)

  patched_text-Patches :
      (raw : Bytes) (rs : List FieldReplacement)
      → All (IsChange (IsReduction lib engine limits) raw) rs
      → Patches raw (patched_text lib engine limits raw rs)
  unfolding patched_text
  patched_text-Patches raw [] changes = tt
  patched_text-Patches raw (r ∷ rs) changes =
      patched_within-Patches raw (sort_by_start (r ∷ rs))
        (new_length (length raw) (sort_by_start (r ∷ rs)))
        (sort_by_start-All (IsChange (IsReduction lib engine limits) raw) (r ∷ rs) changes)

  -- Both texts of the result are the patched one of the text that both had.
  pub record IsMirrored (original result : ToolResult) : Type 0 where
    pub patched : Bytes
    pub is : result ≡ record original { output = patched; structured = patched }
    pub mirrored : original.output ≡ original.structured
    pub made : IsPatched original.structured patched

  abbrev Mirrors : ToolResult → ToolResult → Type 0
  Mirrors original result = (result ≡ original) ⊎ IsMirrored original result

  with_both-Mirrors :
      (original : ToolResult) (o : Option Bytes)
      → original.output ≡ original.structured
      → Patches original.structured o
      → Mirrors original (with_both lib engine limits original o)
  with_both-Mirrors original none same h = inl refl
  with_both-Mirrors original (some patched) same h =
      inr (record { patched = patched; is = refl; mirrored = same; made = h })

  json_result-Mirrors :
      (original : ToolResult) (c : S × Collected)
      → original.output ≡ original.structured
      → Changes lib engine limits original.structured c.1
      → Mirrors original (json_result lib engine limits original c).1
  json_result-Mirrors original (s, collects rs) same h =
      with_both-Mirrors original (patched_text lib engine limits original.structured rs) same
        (patched_text-Patches original.structured rs h)
  json_result-Mirrors original (s, gives_original) same h = inl refl
  json_result-Mirrors original (s, faulted) same h = inl refl

  json_fields-Mirrors :
      (original : ToolResult) (fields : List Field) (s : S) (o : Option (List (Bytes × StringSpan)))
      → original.output ≡ original.structured
      → scan_object_strings lib original.structured limits.max_json_depth limits.max_json_nodes
          (map (λ f. f.name) fields)
        ≡ o
      → Mirrors original (json_fields lib engine limits original fields s o).1
  json_fields-Mirrors original fields s none same e = inl refl
  json_fields-Mirrors original fields s (some spans) same e =
      let raw : Bytes = original.structured in
      let names : List Bytes = map (λ f. f.name) fields in
      by_cases (λ (r : S × ToolResult). Mirrors original r.1)
        (not (length spans == length fields) || has_bad_field lib engine limits spans fields)
        (s, original)
        (json_result lib engine limits original (collect lib engine limits spans fields s))
        (λ _. inl refl)
        λ _. json_result-Mirrors original (collect lib engine limits spans fields s) same (
          collect-Changes lib engine limits raw spans fields s λ name.
            span_of-Known lib engine limits raw limits.max_json_depth limits.max_json_nodes name
              spans (length raw) names
              (scan_object_strings-Spans lib raw limits.max_json_depth limits.max_json_nodes names
                spans e))

  -- The result is the one given, or both its texts, which were one, are that text with literals of
  -- it replaced, each by the marked reduction of its value and shorter, and the new text is JSON,
  -- shorter, and twice within the bound.
  pub transform_json-Mirrors :
      (original : ToolResult) (fields : List Field) (s : S)
      → ((transform_json lib engine limits original fields s).1 ≡ original)
        ⊎ IsMirrored original (transform_json lib engine limits original fields s).1
  unfolding transform_json
  transform_json-Mirrors original fields s =
      by_cases (λ (r : S × ToolResult). Mirrors original r.1)
        (is_empty original.structured || not (bytes_eq original.output original.structured))
        (s, original) _ (λ _. inl refl)
        λ good.
          json_fields-Mirrors original fields s _
            ((bytes_eq_iff original.output original.structured).0 (ground arith)) refl

  -- The output is the marked reduction of the text it was: shorter, and within the bound.
  pub record IsMarked (original result : ToolResult) : Type 0 where
    pub filter : Filter
    pub reduced : Bytes
    pub state : S
    pub asked : (engine.reduce state filter original.output).1 ≡ reduces reduced
    pub is :
        result
        ≡ record original { output = reduction_marker filter (length original.output) ++ reduced }
    pub alone : is_empty original.structured ≡ true
    pub shorter : length result.output < length original.output
    pub bounded : length result.output ≤ limits.max_result_bytes
    pub encoded : lib.utf8_valid reduced ≡ true

  abbrev Marks : ToolResult → ToolResult → Type 0
  Marks original result = (result ≡ original) ⊎ IsMarked original result

  with_output-Marks :
      (original : ToolResult) (filter : Filter) (reduced : Bytes) (s : S)
      → is_empty original.structured ≡ true
      → (engine.reduce s filter original.output).1 ≡ reduces reduced
      → Marks original (
          with_output lib engine limits original
            (marked_text lib engine limits filter original.output reduced))
  unfolding marked_text bounded_combined_size
  with_output-Marks original filter reduced s alone asked =
      let marked : Bytes = reduction_marker filter (length original.output) ++ reduced in
      let Good : Option Bytes → Type 0 =
        λ o. Marks original (with_output lib engine limits original o) in
      let is_long : Bool =
        leb (length original.output) (length marked)
        || not (bounded_combined_size (length marked) 0 limits.max_result_bytes) in
      by_cases Good
        (bytes_eq reduced original.output || is_empty reduced || not (lib.utf8_valid reduced)) none
        (if is_long then none else some marked) (λ _. inl refl)
        λ good.
          by_cases Good is_long none (some marked) (λ _. inl refl)
            λ short. inr (record {
              filter = filter;
              reduced = reduced;
              state = s;
              asked = asked;
              is = refl;
              alone = alone;
              shorter = ground arith;
              bounded = ground arith;
              encoded = ground arith;
            })

  text_result-Marks :
      (original : ToolResult) (filter : Filter) (s : S) (r : S × Reduced)
      → is_empty original.structured ≡ true
      → engine.reduce s filter original.output ≡ r
      → Marks original (text_result lib engine limits original filter r).1
  text_result-Marks original filter s (t, reduces reduced) alone e =
      with_output-Marks original filter reduced s alone (ap (λ r. r.1) e)
  text_result-Marks original filter s (t, gives_up) alone e = inl refl
  text_result-Marks original filter s (t, panics) alone e = inl refl

  text_field-Marks :
      (original : ToolResult) (fields : List Field) (s : S)
      → is_empty original.structured ≡ true
      → Marks original (text_field lib engine limits original fields s).1
  text_field-Marks original [] s alone = inl refl
  text_field-Marks original (f ∷ g ∷ fs) s alone = inl refl
  text_field-Marks original (f ∷ []) s alone =
      by_cases (λ (r : S × ToolResult). Marks original r.1)
        (is_bad_text lib engine limits original.output || is_empty original.output) (s, original)
        (text_result lib engine limits original f.filter (engine.reduce s f.filter original.output))
        (λ _. inl refl)
        (λ _.
          text_result-Marks original f.filter s (engine.reduce s f.filter original.output) alone
            refl)

  -- The result is the one given, or its output, which stood alone, is the marked reduction of what it
  -- was, shorter and within the bound.
  pub transform_text-Marks :
      (original : ToolResult) (fields : List Field) (s : S)
      → ((transform_text lib engine limits original fields s).1 ≡ original)
        ⊎ IsMarked original (transform_text lib engine limits original fields s).1
  unfolding transform_text
  transform_text-Marks original fields s =
      by_cases (λ (r : S × ToolResult). Marks original r.1) (is_empty original.structured)
        (text_field lib engine limits original fields s) (s, original)
        (λ alone. text_field-Marks original fields s alone) (λ _. inl refl)
