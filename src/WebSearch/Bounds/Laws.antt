-- ===== src/WebSearch/Bounds/Laws.antt =====
-- What the bounded records promise.
use eino_agent_extensions.Prelude.{
  ℕ, zero, suc, ◌≤◌, ◌≡◌, refl, sym, ap, ◌∙◌, map, take_all, true, Option, List, [], ◌∷◌, Bytes,
  length, length-take, take, ltb, if◌then◌else◌, arith, All, Bool-cases, inl, inr, ltb→le,
}
use eino_agent_extensions.External.{TextLib}
use eino_agent_extensions.WebSearch.Bounds.{
  Source, Limits, ParsedUrl, utf8_prefix, valid_source_url, bounded, bound_from, bound_sources,
}

-- What Go documents of `strings.ToValidUTF8` with an empty replacement: bytes are only dropped, and
-- the result is valid.
pub record IsRepair (lib : TextLib) : Type 0 where
  pub shorter : (v : Bytes) → length (lib.to_valid_utf8 v) ≤ length v
  pub valid : (v : Bytes) → lib.utf8_valid (lib.to_valid_utf8 v) ≡ true

module _ (lib : TextLib) (repair : IsRepair lib) (parse : Bytes → Option ParsedUrl) where
  -- A text within a bound, valid.
  abbrev pub Short : ℕ → Bytes → Type 0
  Short maximum text = (length text ≤ maximum) × (lib.utf8_valid text ≡ true)

  shown-Short :
      (maximum : ℕ) (shown : Bytes)
      → length shown ≤ maximum
      → Short maximum (if lib.utf8_valid shown then shown else lib.to_valid_utf8 shown)
  shown-Short maximum shown h = elim (Bool-cases (lib.utf8_valid shown)) [
    | inl valid ↦ rw valid (h, valid)
    | inr broken ↦ let s = repair.shorter shown in rw broken (omega (arith, s), repair.valid shown)
  ]

  utf8_prefix-Short :
      (value : Bytes) (maximum : ℕ) → Short maximum (utf8_prefix lib parse value maximum)
  unfolding utf8_prefix
  utf8_prefix-Short value maximum = elim (Bool-cases (ltb maximum (length value))) [
    | inl long ↦
        rw (utf8_prefix, long)
          (shown-Short maximum (take maximum value) (omega (arith, length-take maximum value)))
    | inr fits ↦ rw (utf8_prefix, fits) (shown-Short maximum value (ltb→le _ _ fits))
  ]

  -- A record within the limits whose URL passes the check.
  pub record Fine (limits : Limits) (s : Source) : Type 0 where
    pub title : Short limits.max_title_bytes s.title
    pub url : valid_source_url lib parse s.url limits.max_url_bytes ≡ true
    pub snippet : Short limits.max_snippet_bytes s.snippet

  abbrev pub Fitting : ℕ → Limits → List Source → Type 0
  Fitting count limits results = (length results ≤ count) × All (Fine limits) results

  bound_from-Fitting :
      (count : ℕ) (records : List Source) (limits : Limits)
      → Fitting count limits (bound_from lib parse count records limits)
  unfolding bound_from bounded
  bound_from-Fitting zero records limits = (omega arith, tt)
  bound_from-Fitting (suc count) [] limits = (omega arith, tt)
  bound_from-Fitting (suc count) (r ∷ records) limits =
      let (few, fine) = bound_from-Fitting count records limits in
      elim (Bool-cases (valid_source_url lib parse r.url limits.max_url_bytes)) [
        | inr bad ↦ rw (bound_from, bad) (omega (arith, few), fine)
        | inl good ↦
            rw (bound_from, good)
              (
                omega (arith, few),
                (
                  record {
                    title = utf8_prefix-Short r.title limits.max_title_bytes;
                    url = good;
                    snippet = utf8_prefix-Short r.snippet limits.max_snippet_bytes;
                  },
                  fine,
                ),
              )
      ]

  -- The records with a URL that passes the check, in their order.
  abbrev pub passing : Limits → List Source → List Source
  passing limits [] = []
  passing limits (r ∷ records) =
      if valid_source_url lib parse r.url limits.max_url_bytes
      then r ∷ passing limits records
      else passing limits records

  bound_from-passing :
      (count : ℕ) (records : List Source) (limits : Limits)
      → bound_from lib parse count records limits
        ≡ map (λ r. bounded lib parse r limits) (passing limits (take count records))
  unfolding bound_from
  bound_from-passing zero records limits = refl
  bound_from-passing (suc count) [] limits = refl
  bound_from-passing (suc count) (r ∷ records) limits =
      elim (Bool-cases (valid_source_url lib parse r.url limits.max_url_bytes)) [
        | inl good ↦
            rw (bound_from, good)
              (ap (λ t. bounded lib parse r limits ∷ t) (bound_from-passing count records limits))
        | inr bad ↦ rw (bound_from, bad) (bound_from-passing count records limits)
      ]

  -- With a repair of UTF-8 that only drops bytes and gives valid text, a result has at most
  -- MaxResults records, each with a title and a snippet that are valid and within their limits and
  -- a URL that passes `validSourceURL`. They are all the records with such a URL among the first
  -- MaxResults, in their order, with title and snippet cut by `utf8Prefix`.
  pub bound_sources-Fitting :
      (records : List Source) (limits : Limits)
      → Fitting limits.max_results limits (bound_sources lib parse records limits)
        × (bound_sources lib parse records limits
            ≡ map
                (λ r. bounded lib parse r limits)
                (passing limits (take limits.max_results records)))
  unfolding bound_sources
  bound_sources-Fitting records limits =
      elim (Bool-cases (ltb limits.max_results (length records))) [
        | inl many ↦
            rw (bound_sources, many)
              (
                bound_from-Fitting limits.max_results records limits,
                bound_from-passing limits.max_results records limits,
              )
        | inr few ↦
            let (a, b) = bound_from-Fitting (length records) records limits in
            let le = ltb→le _ _ few in
            rw (bound_sources, few)
              (
                (omega (arith, a, le), b),
                bound_from-passing (length records) records limits
                    ∙ ap (λ rs. map (λ r. bounded lib parse r limits) (passing limits rs))
                        (take_all (length records) records (omega arith)
                          ∙ sym (take_all limits.max_results records le)),
              )
      ]
