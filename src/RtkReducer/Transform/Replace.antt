-- ===== src/RtkReducer/Transform/Replace.antt =====
-- The replacements in a text: what is put in, and what is left as it was.
use eino_agent_extensions.Prelude.{
  ℕ, ◌≤◌, ◌≡◌, refl, sym, subst, Option, none, some, List, [], ◌∷◌, ◌++◌, Bytes, drop, leb,
  by_cases, All, arith,
}
use eino_agent_extensions.Json.Laws.{slice}
use eino_agent_extensions.Json.Rewriting.{Rewritten, piece_put}
use eino_agent_extensions.RtkReducer.Transform.{
  FieldReplacement, insert_by_start, sort_by_start, put_before, patch,
}

-- A replacement of a part of the text that the relation allows.
pub record IsChange (P : Bytes → Bytes → Type 0) (raw : Bytes) (r : FieldReplacement) : Type 0 where
  pub forward : r.start ≤ r.end
  pub allowed : P (slice r.start r.end raw) r.value

put_before-some :
    (text : Bytes) (o : Option Bytes) (out : Bytes)
    → put_before text o ≡ some out
    → (rest : Bytes) × (o ≡ some rest) × (out ≡ text ++ rest)
unfolding put_before
put_before-some text none out h = cc
put_before-some text (some rest) out h = (rest, refl, cc)

module _ (P : Bytes → Bytes → Type 0) (raw : Bytes) where
  pub patch-Rewritten :
      (position : ℕ) (rs : List FieldReplacement) (out : Bytes)
      → All (IsChange P raw) rs
      → patch raw position rs ≡ some out
      → Rewritten P (drop position raw) out
  unfolding patch
  patch-Rewritten position [] out changes h = record {
    pieces = [];
    rest = drop position raw;
    allowed = tt;
    was = refl;
    is = cc;
  }
  patch-Rewritten position (r ∷ rs) out changes h =
      by_cases (λ o. o ≡ some out → Rewritten P (drop position raw) out) _ none
        (put_before (slice position r.start raw ++ r.value) (patch raw r.end rs)) (λ _ e. cc)
        (λ fits e.
          let more =
            put_before-some (slice position r.start raw ++ r.value) (patch raw r.end rs) out e in
          subst (Rewritten P (drop position raw)) (sym more.2) (
            piece_put P raw position r.start r.end r.value more.0 (ground arith) changes.0.forward
              changes.0.allowed (patch-Rewritten r.end rs more.0 changes.1 more.1)))
        h

pub insert_by_start-All :
    (Q : FieldReplacement → Type 0) (r : FieldReplacement) (rs : List FieldReplacement)
    → Q r
    → All Q rs
    → All Q (insert_by_start r rs)
unfolding insert_by_start
insert_by_start-All Q r [] h k = (h, tt)
insert_by_start-All Q r (q ∷ qs) h k =
    by_cases (All Q) (leb r.start q.start) (r ∷ q ∷ qs) (q ∷ insert_by_start r qs) (λ _. (h, k))
      (λ _. (k.0, insert_by_start-All Q r qs h k.1))

pub sort_by_start-All :
    (Q : FieldReplacement → Type 0) (rs : List FieldReplacement)
    → All Q rs
    → All Q (sort_by_start rs)
unfolding sort_by_start
sort_by_start-All Q [] h = tt
sort_by_start-All Q (r ∷ rs) h =
    insert_by_start-All Q r (sort_by_start rs) h.0 (sort_by_start-All Q rs h.1)
