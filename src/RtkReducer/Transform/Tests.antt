-- ===== src/RtkReducer/Transform/Tests.antt =====
-- The transform at work on an object with one long member.
use eino_agent_extensions.Prelude.{
  ℕ, ◌+◌, ◌-◌, ◌≡◌, ◌≤◌, refl, ◌⊎◌, Bool, true, false, none, some, List, [], ◌∷◌, ◌++◌, Bytes,
  codes, length, take, drop, replicate, ltb, by_cases, if◌then◌else◌,
}
use eino_agent_extensions.Json.{JsonLib, quote}
use eino_agent_extensions.RtkReducer.Json.{scan_root, scan_object_strings}
use eino_agent_extensions.RtkReducer.Json.Spans.{Ended, Spans}
use eino_agent_extensions.RtkReducer.Json.Ends.{scan_root-Ended, scan_object_strings-Spans}
use eino_agent_extensions.RtkReducer.Transform.{
  log, json_mirror, CanonicalBinding, TransformLimits, ToolResult, reduces, Engine, transform,
}
use eino_agent_extensions.RtkReducer.Transform.Slots.{Counts, transform-Kept}
use eino_agent_extensions.RtkReducer.Transform.Calls.{IsServed, transform-IsServed}

-- Text without escapes: a literal is its value between quotes.
abbrev plain : JsonLib
plain = record {
  rune_size = λ bs. if ltb 0 (length bs) then 1 else 0;
  rune_error = λ bs. false;
  utf8_valid = λ bs. true;
  json_valid = λ bs. true;
  unmarshal = λ bs. some (take (length bs - 2) (drop 1 bs));
  marshal = λ bs. some (quote ∷ bs ++ quote ∷ []);
}

-- Two slots; a reduction leaves two bytes.
abbrev slots : Engine ℕ
slots = record {
  ended = λ s. (s, false);
  acquire = λ s. if ltb s 2 then (s + 1, true) else (s, false);
  release = λ s. s - 1;
  reduce = λ s filter text. (s, reduces (codes "ok"));
}

abbrev small : TransformLimits
small = record {
  max_input_bytes = 100;
  max_result_bytes = 1000;
  max_field_bytes = 100;
  max_json_depth = 4;
  max_json_nodes = 10;
}

-- `{"a":"xxx"}` with `literal` for the value.
abbrev object_with : Bytes → Bytes
object_with literal = b'{' ∷ quote ∷ b'a' ∷ quote ∷ b':' ∷ literal ++ b'}' ∷ []

abbrev long_literal : Bytes
long_literal = quote ∷ replicate 70 b'x' ++ quote ∷ []

abbrev bindings : List CanonicalBinding
bindings =
    record {
      tool_name = codes "t";
      mode = json_mirror;
      match_input = none;
      fields = record { name = codes "a"; filter = log } ∷ [];
    }
    ∷ []

abbrev given : ToolResult
given = record {
  tool_name = codes "t";
  call_input = [];
  permission_status = [];
  output = object_with long_literal;
  structured = object_with long_literal;
}

abbrev made : Bytes
made = object_with (quote ∷ codes "[Reduced by RTK log; original_bytes=70]\nok" ++ quote ∷ [])

found_a :
    scan_object_strings plain (object_with long_literal) 4 10 (codes "a" ∷ [])
    ≡ some ((codes "a", record { start = 5; end = 77; value = replicate 70 b'x' }) ∷ [])
unfolding scan_object_strings
found_a = refl

scan_root-Ended_example :
    Ended (scan_root plain (object_with long_literal) 4 10 (codes "a" ∷ [])).1
    × ((scan_root plain (object_with long_literal) 4 10 (codes "a" ∷ [])).0.nodes ≤ 10)
scan_root-Ended_example = scan_root-Ended plain (object_with long_literal) 4 10 (codes "a" ∷ [])

scan_object_strings-Spans_example :
    Spans plain
      (object_with long_literal)
      4
      10
      (codes "a" ∷ [])
      78
      ((codes "a", record { start = 5; end = 77; value = replicate 70 b'x' }) ∷ [])
scan_object_strings-Spans_example =
    scan_object_strings-Spans plain (object_with long_literal) 4 10 (codes "a" ∷ [])
      ((codes "a", record { start = 5; end = 77; value = replicate 70 b'x' }) ∷ []) found_a

transform_run :
    transform plain slots small bindings given 1
    ≡ (1, record given { output = made; structured = made })
unfolding transform
transform_run = refl

transform-IsServed_example :
    ((transform plain slots small bindings given 1).1 ≡ given)
    ⊎ IsServed plain slots small bindings given (transform plain slots small bindings given 1).1
transform-IsServed_example = transform-IsServed plain slots small bindings given 1

slots_count : Counts plain slots small (λ s. s)
slots_count = record {
  on_ended = λ s. refl;
  on_reduce = λ s filter text. refl;
  on_acquire = λ s.
      by_cases (λ (r : ℕ × Bool). r.0 ≡ (if r.1 then s + 1 else s)) (ltb s 2) (s + 1, true)
        (s, false) (λ _. refl) (λ _. refl);
  on_release = λ s. refl;
}

transform-Kept_example : (transform plain slots small bindings given 1).0 ≡ 1
transform-Kept_example = transform-Kept plain slots small (λ s. s) slots_count bindings given 1
