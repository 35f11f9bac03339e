-- ===== src/WebSearch/Bounds.antt =====
-- `boundSources`, `utf8Prefix` and `validSourceURL` of websearch/bounds.go.
pub mod Laws
mod Tests
use eino_agent_extensions.Prelude.{
  ℕ, zero, suc, ◌+◌, Bool, true, false, ◌&&◌, ◌||◌, not, Option, none, some, List, [], ◌∷◌, Bytes,
  bytes_eq, length, take, ltb, if◌then◌else◌, codes, ◌==◌,
}
use eino_agent_extensions.External.{TextLib, is_empty}

pub record Source : Type 0 where
  pub title : Bytes
  pub url : Bytes
  pub snippet : Bytes

-- The limits that bound a result.
pub record Limits : Type 0 where
  pub max_raw_input_bytes : ℕ
  pub max_query_bytes : ℕ
  pub max_results : ℕ
  pub max_title_bytes : ℕ
  pub max_url_bytes : ℕ
  pub max_snippet_bytes : ℕ
  pub max_in_flight : ℕ
  pub max_wait : ℕ

-- What `validSourceURL` reads of `net/url.Parse`; an error is `none`.
pub record ParsedUrl : Type 0 where
  pub scheme : Bytes
  pub hostname : Bytes
  pub has_user : Bool

-- `strings.Cut(value, ":")`: what stands before the first colon.
unfoldable pub cut_scheme : Bytes → Option Bytes
cut_scheme [] = none
cut_scheme (c ∷ cs) = elim (c == b':') [
  | true ↦ some []
  | false ↦ elim (cut_scheme cs) [ none ↦ none | some scheme ↦ some (c ∷ scheme) ]
]

abbrev pub accepts : Bytes → Option ParsedUrl → Bool
accepts scheme none = false
accepts scheme (some parsed) =
    if is_empty parsed.hostname || parsed.has_user then false else bytes_eq parsed.scheme scheme

abbrev pub with_scheme : Option Bytes → Option ParsedUrl → Bool
with_scheme none parsed = false
with_scheme (some scheme) parsed =
    if bytes_eq scheme (codes "http") || bytes_eq scheme (codes "https")
    then accepts scheme parsed
    else false

module _ (lib : TextLib) (parse : Bytes → Option ParsedUrl) where
  unfoldable pub utf8_prefix : Bytes → ℕ → Bytes
  utf8_prefix value maximum =
      let shown = if ltb maximum (length value) then take maximum value else value in
      if lib.utf8_valid shown then shown else lib.to_valid_utf8 shown

  unfoldable pub valid_source_url : Bytes → ℕ → Bool
  unfolding cut_scheme
  valid_source_url value maximum =
      if ltb maximum (length value) || not (lib.utf8_valid value)
      then false
      else with_scheme (cut_scheme value) (parse value)

  unfoldable pub bounded : Source → Limits → Source
  unfolding utf8_prefix
  bounded record_ limits = record {
    title = utf8_prefix record_.title limits.max_title_bytes;
    url = record_.url;
    snippet = utf8_prefix record_.snippet limits.max_snippet_bytes;
  }

  -- The loop over `count` records.
  unfoldable pub bound_from : ℕ → List Source → Limits → List Source
  unfolding valid_source_url bounded
  bound_from zero records limits = []
  bound_from (suc count) [] limits = []
  bound_from (suc count) (r ∷ records) limits =
      let rest = bound_from count records limits in
      if not (valid_source_url r.url limits.max_url_bytes) then rest else bounded r limits ∷ rest

  unfoldable pub bound_sources : List Source → Limits → List Source
  unfolding bound_from
  bound_sources records limits =
      bound_from
        (if ltb limits.max_results (length records) then limits.max_results else length records)
        records limits
