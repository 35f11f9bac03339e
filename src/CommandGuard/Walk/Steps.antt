-- ===== src/CommandGuard/Walk/Steps.antt =====
-- The steps of a walk, each for a property of the words that it ends with.
use eino_agent_extensions.Prelude.{ℕ, ◌≡◌, refl, ◌||◌, List, [], ◌++◌, leb, Bool-cases, inl, inr}
use eino_agent_extensions.Context.{poll}
use eino_agent_extensions.CommandGuard.Words.{Outcome, abstain, Word}
use eino_agent_extensions.CommandGuard.Syntax.{
  Node, word, Limits, Analysis, inspect_node, admit, count_word,
}
use eino_agent_extensions.CommandGuard.Match.{says}
use eino_agent_extensions.CommandGuard.Walk.{Walked, entered, leave, and_then, at_end}

-- If a walk abstains, its words have the property.
abbrev pub Good {κ} : (List Word → Type κ) → Walked → Type κ
Good P r = r.1 ≡ says abstain → P r.2

pub entered-Good {κ} :
    (P : List Word → Type κ) (r : Analysis × Outcome) (below : Analysis → Walked)
    → ((b : Analysis) → r.1 ≡ abstain → Good P (below b))
    → Good P (entered r below)
entered-Good P (a, abstain) below h e = h a refl e
entered-Good P (a, o) below h e = cc

pub leave-Good {κ ι} :
    (Q : List Word → Type κ) (P : List Word → Type ι) (r : Walked)
    → Good Q r
    → ((ws : List Word) → Q ws → P [])
    → Good P (leave r)
leave-Good Q P (a, v, ws) h k e = k ws (h e)

pub at_end-Good {κ ι} :
    (Q : List Word → Type κ) (P : List Word → Type ι) (r : Walked)
    (finish : Analysis → List Word → Walked)
    → Good Q r
    → ((b : Analysis) (ws : List Word) → Q ws → Good P (finish b ws))
    → Good P (at_end r finish)
at_end-Good Q P (a, says abstain, ws) finish h k e = k a ws (h refl) e
at_end-Good Q P (a, says o, ws) finish h k e = cc
at_end-Good Q P (a, v, ws) finish h k e = cc

pub and_then-Good {κ ι ν} :
    (Q : List Word → Type κ) (R : List Word → Type ι) (P : List Word → Type ν) (r : Walked)
    (next : Analysis → Walked)
    → Good Q r
    → ((b : Analysis) → Good R (next b))
    → ((ws more : List Word) → Q ws → R more → P (ws ++ more))
    → Good P (and_then r next)
and_then-Good Q R P (a, says abstain, ws) next h k join e = join ws (next a).2 (h refl) (k a e)
and_then-Good Q R P (a, says o, ws) next h k join e = cc
and_then-Good Q R P (a, v, ws) next h k join e = cc

-- A node that is entered is of an admitted type.
count_word_admits :
    (l : Limits) (n : Node) (a : Analysis) → (count_word l n a).1 ≡ abstain → admit n ≡ abstain
unfolding count_word
count_word_admits l (word ns) a h = refl
count_word_admits l _ a h = h

pub inspect_node_admits :
    (l : Limits) (n : Node) (depth : ℕ) (a : Analysis)
    → (inspect_node l n depth a).1 ≡ abstain
    → admit n ≡ abstain
unfolding inspect_node
inspect_node_admits l n depth a h = elim (Bool-cases (poll a.ctx).0) [
  | inl stop ↦ let e = simp (inspect_node, stop) at h in cc
  | inr go ↦ elim (Bool-cases (leb l.max_ast_nodes a.nodes || leb l.max_ast_depth depth)) [
    | inl over ↦ let e = simp (inspect_node, go, over) at h in cc
    | inr fine ↦ count_word_admits l n _ (simp (inspect_node, go, fine) at h)
  ]
]
