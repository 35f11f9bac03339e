-- ===== src/CommandGuard/Tests/Calls.antt =====
-- A call of a shell tool, with a parser that takes a script for one word and a decoder that yields
-- the tokens of one object.
use eino_agent_extensions.Prelude.{
  ◌≤◌, ◌≡◌, refl, Bool, true, false, List, [], ◌∷◌, Bytes, length, codes, ◌==◌,
}
use eino_agent_extensions.Context.{endless}
use eino_agent_extensions.CommandGuard.Words.{abstain}
use eino_agent_extensions.CommandGuard.Carriage.{contains}
use eino_agent_extensions.CommandGuard.Syntax.{posix, nil, cons, lit, word, call, plain, Limits}
use eino_agent_extensions.CommandGuard.Match.{Policy, says}
use eino_agent_extensions.CommandGuard.Walk.{file, Shell, valid_text, analyse}
use eino_agent_extensions.CommandGuard.Walk.Bounds.{Fine, Ended}
use eino_agent_extensions.CommandGuard.Walk.Ends.{analyse-Fine}
use eino_agent_extensions.CommandGuard.Input.{delim, string, atom, Read, token, eof, Decoder, input}
use eino_agent_extensions.CommandGuard.Input.Laws.{input-Ended, input-Proper}
use eino_agent_extensions.CommandGuard.Guard.{Binding, Request, denies, decided, guard_tool}

abbrev one_word : Shell
one_word = record {
  parse =
      λ ctx s dialect. (ctx, file (plain (cons (call (cons (word (cons (lit s) nil)) nil)) nil)));
  split_braces = λ ns. false;
  utf8_valid = λ s. true;
}

abbrev some_limits : Limits
some_limits = record {
  max_raw_input_bytes = 64;
  max_json_depth = 3;
  max_json_nodes = 8;
  max_command_bytes = 8;
  max_analysis_bytes = 16;
  max_ast_nodes = 8;
  max_ast_depth = 8;
  max_words = 4;
  max_word_bytes = 8;
  max_wrapper_depth = 2;
  max_in_flight = 1;
}

abbrev no_rm : Policy
no_rm = record {
  rules = record { executable = codes "rm"; arg_prefix = [] } ∷ [];
  limits = some_limits;
}

abbrev after_first : List Read → List Read
after_first [] = []
after_first (r ∷ rs) = rs

abbrev first_read : List Read → Read
first_read [] = eof
first_read (r ∷ rs) = r

abbrev more_in : List Read → Bool
more_in (token (delim c) ∷ rs) = c == b'{'
more_in (token t ∷ rs) = true
more_in rs = false

abbrev one_object : Bytes → Decoder (List Read)
one_object command = record {
  start = λ raw.
      token (delim b'{')
      ∷ token (string (codes "x"))
      ∷ token atom
      ∷ token (string (codes "cmd"))
      ∷ token (string command)
      ∷ token (delim b'}')
      ∷ [];
  read = λ rs. (after_first rs, first_read rs);
  more = more_in;
}

abbrev shell_binding : Binding
shell_binding = record { tool_name = codes "shell"; command_field = codes "cmd"; dialect = posix }

abbrev shell_request : Request
shell_request = record { tool_name = codes "shell"; input = codes "{}" }

rm_denied :
    (guard_tool one_word
      (one_object (codes "rm"))
      no_rm
      (shell_binding ∷ [])
      0
      endless
      shell_request).2
    ≡ decided (denies (codes "command policy denied: rule-match"))
unfolding guard_tool
rm_denied = refl

full_denied :
    (guard_tool one_word
      (one_object (codes "ls"))
      no_rm
      (shell_binding ∷ [])
      1
      endless
      shell_request).2
    ≡ decided (denies (codes "command policy denied: capacity"))
unfolding guard_tool
full_denied = refl

analyse-Fine_example : Fine some_limits (analyse one_word no_rm endless (codes "ls") posix)
analyse-Fine_example = analyse-Fine one_word no_rm endless (codes "ls") posix

ls_found :
    (input
      (one_object (codes "ls"))
      (valid_text one_word)
      some_limits
      (codes "cmd")
      endless
      (codes "{}")).1
    ≡ says abstain
unfolding input contains
ls_found = refl

input-Ended_example :
    ((input
        (one_object (codes "ls"))
        (valid_text one_word)
        some_limits
        (codes "cmd")
        endless
        (codes "{}")).0.nodes
      ≤ 8)
    × Ended
        (input
          (one_object (codes "ls"))
          (valid_text one_word)
          some_limits
          (codes "cmd")
          endless
          (codes "{}")).1
input-Ended_example =
    input-Ended (one_object (codes "ls")) (valid_text one_word) some_limits (codes "cmd") endless
      (codes "{}")

input-Proper_example :
    ((input
        (one_object (codes "ls"))
        (valid_text one_word)
        some_limits
        (codes "cmd")
        endless
        (codes "{}")).0.found
      ≡ true)
    × (valid_text one_word
          (input
            (one_object (codes "ls"))
            (valid_text one_word)
            some_limits
            (codes "cmd")
            endless
            (codes "{}")).0.command
        ≡ true)
    × (length
          (input
            (one_object (codes "ls"))
            (valid_text one_word)
            some_limits
            (codes "cmd")
            endless
            (codes "{}")).0.command
        ≤ 8)
input-Proper_example =
    input-Proper (one_object (codes "ls")) (valid_text one_word) some_limits (codes "cmd") endless
      (codes "{}") ls_found
