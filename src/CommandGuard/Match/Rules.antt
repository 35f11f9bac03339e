-- ===== src/CommandGuard/Match/Rules.antt =====
-- commandguard/match.go: the rules, for the possible values of a command.
use eino_agent_extensions.Prelude.{
  ◌≡◌, refl, ◌⊎◌, inl, inr, false, List, [], ◌∷◌, Bytes, bytes_eq, bytes_eq_iff, All, Bool-cases,
}
use eino_agent_extensions.Context.{Ctx, poll}
use eino_agent_extensions.CommandGuard.Words.{Outcome, abstain, Word}
use eino_agent_extensions.CommandGuard.Match.{Rule, match_prefix, match_rules}

-- Some values of the unknown arguments match a prefix.
abbrev pub MayMatch : List Bytes → List Word → Type 0
MayMatch [] args = Unit {0}
MayMatch (want ∷ wants) [] = ⊥
MayMatch (want ∷ wants) (arg ∷ args) =
    ((arg.known ≡ false) ⊎ (arg.text ≡ want)) × MayMatch wants args

-- No rule may match a command.
abbrev pub NoRule : List Rule → Bytes → List Word → Type 0
NoRule rules name args = All (λ r. r.executable ≡ name → ¬ MayMatch r.arg_prefix args) rules

pub match_prefix_abstains :
    (wants : List Bytes) (args : List Word)
    → match_prefix wants args ≡ abstain
    → ¬ MayMatch wants args
unfolding match_prefix
match_prefix_abstains [] args h m = cc
match_prefix_abstains (want ∷ wants) [] h m = m
match_prefix_abstains (want ∷ wants) (arg ∷ args) h (first, rest) = elim (Bool-cases arg.known) [
  | inr unknown ↦ let e = simp (match_prefix, unknown) at h in cc
  | inl known ↦ elim (Bool-cases (bytes_eq arg.text want)) [
    | inl same ↦ match_prefix_abstains wants args (simp (match_prefix, known, same) at h) rest
    | inr differs ↦ elim first [
      | inl unknown ↦ cc
      | inr same ↦ let e = (bytes_eq_iff arg.text want).1 same in cc
    ]
  ]
]

-- Where the loop over the rules abstains, none of them may match.
pub match_rules-NoRule :
    (ctx : Ctx) (rules : List Rule) (name : Bytes) (args : List Word)
    → (match_rules ctx rules name args).1 ≡ abstain
    → NoRule rules name args
unfolding match_rules
match_rules-NoRule ctx [] name args h = tt
match_rules-NoRule ctx (r ∷ rules) name args h = elim (Bool-cases (poll ctx).0) [
  | inl stop ↦ let e = simp (match_rules, stop) at h in cc
  | inr go ↦ elim (Bool-cases (bytes_eq r.executable name)) [
    | inr differs ↦ (
      (λ e m. let f = (bytes_eq_iff r.executable name).1 e in cc),
      match_rules-NoRule (poll ctx).1 rules name args (simp (match_rules, go, differs) at h),
    )
    | inl same ↦
        prefixed (match_prefix r.arg_prefix args) refl
          (match_rules-NoRule (poll ctx).1 rules name args) (simp (match_rules, go, same) at h)
  ]
]
  where
    prefixed :
        (o : Outcome)
        → match_prefix r.arg_prefix args ≡ o
        → ((match_rules (poll ctx).1 rules name args).1 ≡ abstain → NoRule rules name args)
        → (elim o as (λ x. Ctx × Outcome) [
          | abstain ↦ match_rules (poll ctx).1 rules name args
          | other ↦ ((poll ctx).1, other)
        ]).1
          ≡ abstain
        → NoRule (r ∷ rules) name args
    prefixed abstain e others k = ((λ x m. match_prefix_abstains r.arg_prefix args e m), others k)
    prefixed _ e others k = cc
