-- ===== src/AskUser/Tests.antt =====
-- A question with two options, asked through a coordinator with one place.
use eino_agent_extensions.Prelude.{
  ◌≡◌, refl, ◌⊎◌, inr, true, none, some, List, [], ◌∷◌, codes, pos, arith, All,
}
use eino_agent_extensions.External.{TextLib}
use eino_agent_extensions.Admission.{new_coordinator, acquire}
use eino_agent_extensions.AskUser.Response.{
  ToolInput, Response, ResponseKind, Status, ok, responder_operation, map_response, bare,
}
use eino_agent_extensions.AskUser.Response.Laws.{Maps, map_response-Maps}
use eino_agent_extensions.AskUser.Coordinator.{
  ToolCall, Outcome, answered, Wake, woken, await, begin, pending,
}
use eino_agent_extensions.AskUser.Coordinator.Laws.{
  Waits, Explained, await_settles, await-Explained,
}

abbrev plain : TextLib
plain = record {
  utf8_valid = λ b. true;
  to_valid_utf8 = λ b. b;
  trim_space = λ b. b;
  trim_right_space = λ b. b;
}

abbrev question : ToolInput
question = record {
  question = codes "Continue?";
  options =
      record { label = codes "yes"; description = [] }
      ∷ record { label = codes "no"; description = [] }
      ∷ [];
}

abbrev second_option : Response
second_option = record { kind = ResponseKind.selected; selected_option = pos 2; custom_answer = [] }

chosen :
    map_response plain 10 question (some second_option)
    ≡ ok (record { status = Status.selected; answer = codes "no"; selected_option = pos 2 })
unfolding map_response
chosen = refl

out_of_range :
    map_response plain 10 question (some (record second_option { selected_option = pos 3 }))
    ≡ responder_operation
unfolding map_response
out_of_range = refl

abbrev wakes : List Wake
wakes = woken none (some (record { response = some second_option; completed_at = 7 })) 8 ∷ []

answered_in_time :
    await plain 10 question 9 wakes
    ≡ some (
        answered
          (record { status = Status.selected; answer = codes "no"; selected_option = pos 2 }))
unfolding await map_response
answered_in_time = refl

too_late : await plain 10 question 7 wakes ≡ some (answered (bare Status.timed_out))
unfolding await
too_late = refl

abbrev call : ToolCall
call = record { session_id = "s"; run_id = "r"; id = "c" }

started : (begin (new_coordinator 1) call none none 100 5).1 ≡ pending 1 105
unfolding begin acquire new_coordinator
started = refl

map_response-Maps_example :
    Maps plain 10 question
      (some second_option)
      (map_response plain 10 question (some second_option))
map_response-Maps_example = map_response-Maps plain 10 question (some second_option)

await_settles_example :
    (o : Outcome) × (await plain 10 question 9 (woken none none 9 ∷ []) ≡ some o)
await_settles_example = await_settles plain 10 question 9 (woken none none 9) [] (inr (omega arith))

await-Explained_example :
    ((await plain 10 question 9 wakes ≡ none) × All (Waits plain 10 question 9) wakes)
    ⊎ ((o : Outcome) × (await plain 10 question 9 wakes ≡ some o)
        × Explained plain 10 question 9 wakes o)
await-Explained_example = await-Explained plain 10 question 9 wakes
