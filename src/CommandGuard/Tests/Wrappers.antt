-- ===== src/CommandGuard/Tests/Wrappers.antt =====
-- A wrapper with options and an assignment, and a script with a carriage return.
use eino_agent_extensions.Prelude.{◌≡◌, refl, true, List, [], ◌∷◌, Bytes, codes}
use eino_agent_extensions.CommandGuard.Words.{Word}
use eino_agent_extensions.CommandGuard.Options.{remaining}
use eino_agent_extensions.CommandGuard.Options.Laws.{Careful}
use eino_agent_extensions.CommandGuard.Wrappers.{wrapper_arguments}
use eino_agent_extensions.CommandGuard.Wrappers.Laws.{wrapper_arguments-Careful}
use eino_agent_extensions.CommandGuard.Carriage.{mask_carriage_returns}
use eino_agent_extensions.CommandGuard.Carriage.Laws.{Masked, mask_carriage_returns-Masked}
use eino_agent_extensions.Context.{endless}

abbrev plain_word : Bytes → Word
plain_word text = record { text = text; known = true }

abbrev sudo_words : List Word
sudo_words =
    plain_word (codes "-n")
    ∷ plain_word (codes "-u")
    ∷ plain_word (codes "bob")
    ∷ plain_word (codes "A=1")
    ∷ plain_word (codes "rm")
    ∷ []

sudo_rm :
    (wrapper_arguments endless (codes "sudo") sudo_words).1
    ≡ remaining (plain_word (codes "rm") ∷ [])
unfolding wrapper_arguments
sudo_rm = refl

wrapper_arguments-Careful_example :
    Careful sudo_words (wrapper_arguments endless (codes "sudo") sudo_words).1
wrapper_arguments-Careful_example = wrapper_arguments-Careful endless (codes "sudo") sudo_words

mask_carriage_returns-Masked_example :
    Masked (97 ∷ 13 ∷ 1 ∷ []) (mask_carriage_returns (97 ∷ 13 ∷ 1 ∷ []))
mask_carriage_returns-Masked_example = mask_carriage_returns-Masked (97 ∷ 13 ∷ 1 ∷ [])
