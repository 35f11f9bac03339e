-- ===== src/Json/Rewriting.antt =====
-- Parts of a text replaced by others, and all else kept.
use mathlib.Core.List.{append_assoc}
use eino_agent_extensions.Prelude.{
  ℕ, ◌-◌, ◌≤◌, ◌≡◌, sym, ap, ◌∙◌, List, [], ◌∷◌, ◌++◌, Bytes, drop, take-append-drop, drop_on, All,
}
use eino_agent_extensions.Json.Laws.{slice}

pub drop_slice : (a b : ℕ) (raw : Bytes) → a ≤ b → drop a raw ≡ slice a b raw ++ drop b raw
drop_slice a b raw h =
    sym (take-append-drop (b - a) (drop a raw)) ∙ ap (λ t. slice a b raw ++ t) (drop_on a b raw h)

-- A part that stays, a part that goes and what comes in its place.
pub record Piece : Type 0 where
  pub before : Bytes
  pub old : Bytes
  pub new : Bytes

abbrev pub old_text : List Piece → Bytes → Bytes
old_text [] rest = rest
old_text (p ∷ ps) rest = p.before ++ p.old ++ old_text ps rest

abbrev pub new_text : List Piece → Bytes → Bytes
new_text [] rest = rest
new_text (p ∷ ps) rest = p.before ++ p.new ++ new_text ps rest

-- One text is the other with parts replaced, each as the relation allows.
pub record Rewritten (P : Bytes → Bytes → Type 0) (from to : Bytes) : Type 0 where
  pub pieces : List Piece
  pub rest : Bytes
  pub allowed : All (λ p. P p.old p.new) pieces
  pub was : from ≡ old_text pieces rest
  pub is : to ≡ new_text pieces rest

pub piece_put :
    (P : Bytes → Bytes → Type 0) (raw : Bytes) (position start end : ℕ) (value out : Bytes)
    → position ≤ start
    → start ≤ end
    → P (slice start end raw) value
    → Rewritten P (drop end raw) out
    → Rewritten P (drop position raw) ((slice position start raw ++ value) ++ out)
piece_put P raw position start end value out order forward allowed behind =
    let piece : Piece = record {
      before = slice position start raw;
      old = slice start end raw;
      new = value;
    } in
    record {
      pieces = piece ∷ behind.pieces;
      rest = behind.rest;
      allowed = (allowed, behind.allowed);
      was =
          drop_slice position start raw order
          ∙ ap (λ t. slice position start raw ++ t)
              (drop_slice start end raw forward ∙ ap (λ t. slice start end raw ++ t) behind.was)
          ∙ sym (
              append_assoc (slice position start raw) (slice start end raw)
                (old_text behind.pieces behind.rest));
      is = ap (λ t. (slice position start raw ++ value) ++ t) behind.is;
    }
