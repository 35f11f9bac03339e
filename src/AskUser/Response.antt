-- ===== src/AskUser/Response.antt =====
-- askuser/responder.go and `mapResponse` of askuser/coordinator.go: what the host's answer becomes.
pub mod Laws
use eino_agent_extensions.Prelude.{
  ℕ, zero, suc, ◌+◌, ◌-◌, ◌≤◌, ◌<◌, ◌≡◌, refl, Bool, true, false, ◌||◌, ◌⊎◌, inl, inr, not, Option,
  none, some, List, [], ◌∷◌, Bytes, length, get_elem?, leb, ltb, if◌then◌else◌, arith, ℤ, pos,
  negsuc, String,
}
use eino_agent_extensions.External.{TextLib, is_empty}
use eino_agent_extensions.AskUser.Text.{valid_required_text}

pub record ToolOption : Type 0 where
  pub label : Bytes
  pub description : Bytes

pub record ToolInput : Type 0 where
  pub question : Bytes
  pub options : List ToolOption

-- A host may return any string for a kind.
pub data ResponseKind : Type 0 where
  selected custom dismissed unavailable : ResponseKind
  other : String → ResponseKind

pub record Response : Type 0 where
  pub kind : ResponseKind
  pub selected_option : ℤ
  pub custom_answer : Bytes

pub data Status : Type 0 where
  selected custom dismissed unavailable timed_out : Status

pub record Answer : Type 0 where
  pub status : Status
  pub answer : Bytes
  pub selected_option : ℤ

abbrev pub bare : Status → Answer
bare status = record { status = status; answer = []; selected_option = pos 0 }

-- The outcome of `mapResponse`; `panics` is an index out of range.
pub data Mapped : Type 0 where
  ok : Answer → Mapped
  responder_operation : Mapped
  panics : Mapped

pub select_option : Option ToolOption → ℕ → Mapped
select_option none n = panics
select_option (some o) n =
    ok (record { status = Status.selected; answer = o.label; selected_option = pos n })

pub map_selected : ℤ → Bytes → List ToolOption → Mapped
unfolding select_option
map_selected (negsuc n) custom_answer options = responder_operation
map_selected (pos n) custom_answer options =
    if ltb n 1 || ltb (length options) n || not (is_empty custom_answer)
    then responder_operation
    else select_option (get_elem? options (n - 1)) n

abbrev pub is_zero : ℤ → Bool
is_zero (pos zero) = true
is_zero _ = false

pub map_bare : Response → Status → Mapped
map_bare r status =
    if not (is_zero r.selected_option) || not (is_empty r.custom_answer)
    then responder_operation
    else ok (bare status)

module _ (lib : TextLib) (max_custom_answer_bytes : ℕ) (input : ToolInput) where
  pub map_kind : ResponseKind → Response → Mapped
  unfolding map_selected map_bare
  map_kind ResponseKind.selected r = map_selected r.selected_option r.custom_answer input.options
  map_kind ResponseKind.custom r =
      if not (is_zero r.selected_option)
        || not (valid_required_text lib r.custom_answer max_custom_answer_bytes)
      then responder_operation
      else ok (record { status = Status.custom; answer = r.custom_answer; selected_option = pos 0 })
  map_kind ResponseKind.dismissed r = map_bare r Status.dismissed
  map_kind ResponseKind.unavailable r = map_bare r Status.unavailable
  map_kind (ResponseKind.other s) r = responder_operation

  -- An error of the responder (a panic counts as one) hides its response.
  unfoldable pub map_response : Option Response → Mapped
  unfolding map_kind
  map_response none = responder_operation
  map_response (some r) = map_kind r.kind r
