-- ===== src/WebSearch/Config/Encoded.antt =====
-- `boundAndEncode` of websearch/coordinator.go, against the retention of websearch/config.go.
--
-- Of `json.Marshal` the encoding of a string, with its quotes and escapes, is a parameter; a structure
-- of websearch/searcher.go is an object of its fields in their order, under the names of their tags.
use native.Mathlib.Nat.{mul-le-mul_left}
use eino_agent_extensions.Prelude.{
  ℕ, ◌+◌, ◌-◌, ◌*◌, ◌≤◌, ◌≡◌, refl, Option, none, some, List, [], ◌∷◌, ◌++◌, Bytes, codes, length,
  length-append, All, true, false, Bool-cases, inl, inr, ltb, ltb→le, arith,
}
use eino_agent_extensions.External.{TextLib}
use eino_agent_extensions.WebSearch.Bounds.{
  Source, Limits, ParsedUrl, valid_source_url, bound_sources,
}
use eino_agent_extensions.WebSearch.Bounds.Laws.{IsRepair, Fine, bound_sources-Fitting}
use eino_agent_extensions.WebSearch.Config.{validate_limits, result_retention}
use eino_agent_extensions.WebSearch.Config.Retention.{result_retention_exact}

module _ (quote : Bytes → Bytes) where
  unfoldable pub encoded_source : Source → Bytes
  encoded_source s =
      codes "{\"title\":"
      ++ (quote s.title
          ++ (codes ",\"url\":"
              ++ (quote s.url ++ (codes ",\"snippet\":" ++ (quote s.snippet ++ codes "}")))))

  unfoldable pub encoded_sources : List Source → Bytes
  encoded_sources [] = []
  encoded_sources (s ∷ []) = encoded_source s
  encoded_sources (s ∷ t ∷ rest) = encoded_source s ++ (b',' ∷ encoded_sources (t ∷ rest))

  unfoldable pub encoded_result : List Source → Bytes
  encoded_result results = codes "{\"results\":[" ++ (encoded_sources results ++ codes "]}")

  unfoldable pub bound_and_encode :
      TextLib → (Bytes → Option ParsedUrl) → List Source → Limits → Bytes
  bound_and_encode lib parse records limits =
      encoded_result (bound_sources lib parse records limits)

-- What encoding/json does to a string at most: two quotes, and six bytes for each byte.
abbrev pub IsQuote : (Bytes → Bytes) → Type 0
IsQuote quote = (s : Bytes) → length (quote s) ≤ (2 + length s * 6)

module _ (quote : Bytes → Bytes) (quoted : IsQuote quote) where
  source_bytes :
      (s : Source)
      → length (encoded_source quote s)
        ≤ (34 + (length s.title + length s.url + length s.snippet) * 6)
  unfolding encoded_source
  source_bytes s =
      let c = length-append (quote s.snippet) (codes "}") in
      let d = length-append (codes ",\"snippet\":") (quote s.snippet ++ codes "}") in
      let e =
        length-append (quote s.url) (codes ",\"snippet\":" ++ (quote s.snippet ++ codes "}")) in
      let f =
        length-append (codes ",\"url\":")
          (quote s.url ++ (codes ",\"snippet\":" ++ (quote s.snippet ++ codes "}"))) in
      let g = length-append (quote s.title) (
        codes ",\"url\":"
        ++ (quote s.url ++ (codes ",\"snippet\":" ++ (quote s.snippet ++ codes "}")))) in
      let h = length-append (codes "{\"title\":") (
        quote s.title
        ++ (codes ",\"url\":"
            ++ (quote s.url ++ (codes ",\"snippet\":" ++ (quote s.snippet ++ codes "}"))))) in
      omega (arith, c, d, e, f, g, h, quoted s.title, quoted s.url, quoted s.snippet)

  sources_bytes :
      (results : List Source) (p : ℕ)
      → All (λ s. length (encoded_source quote s) ≤ p) results
      → length (encoded_sources quote results) ≤ (p * length results + (length results - 1))
  unfolding encoded_sources
  sources_bytes [] p h = omega arith
  sources_bytes (s ∷ []) p h = omega (arith, h.0)
  sources_bytes (s ∷ t ∷ rest) p h =
      let a = length-append (encoded_source quote s) (b',' ∷ encoded_sources quote (t ∷ rest)) in
      let b = sources_bytes (t ∷ rest) p h.1 in omega (arith, a, b, h.0)

  result_bytes :
      (results : List Source) (p : ℕ)
      → All (λ s. length (encoded_source quote s) ≤ p) results
      → length (encoded_result quote results) ≤ (14 + p * length results + (length results - 1))
  unfolding encoded_result
  result_bytes results p h =
      let a =
        length-append (codes "{\"results\":[") (encoded_sources quote results ++ codes "]}") in
      let b = length-append (encoded_sources quote results) (codes "]}") in
      omega (arith, a, b, sources_bytes results p h)

  module _ (lib : TextLib) (repair : IsRepair lib) (parse : Bytes → Option ParsedUrl) where
    valid_source_url-length :
        (url : Bytes) (maximum : ℕ)
        → valid_source_url lib parse url maximum ≡ true
        → length url ≤ maximum
    unfolding valid_source_url
    valid_source_url-length url maximum h = elim (Bool-cases (ltb maximum (length url))) [
      | inl long ↦ absurd (
          let e : valid_source_url lib parse url maximum ≡ false =
            rw (valid_source_url, long) refl in
          cc)
      | inr fits ↦ ltb→le _ _ fits
    ]

    Fine-bytes :
        (l : Limits) (s : Source)
        → Fine lib repair parse l s
        → length (encoded_source quote s)
          ≤ (34 + (l.max_title_bytes + l.max_url_bytes + l.max_snippet_bytes) * 6)
    Fine-bytes l s fine =
        let u = valid_source_url-length s.url l.max_url_bytes fine.url in
        omega (arith, source_bytes s, u, fine.title.0, fine.snippet.0)

    All-Fine-bytes :
        (l : Limits) (results : List Source)
        → All (Fine lib repair parse l) results
        → All
            (λ s.
              length (encoded_source quote s)
              ≤ (34 + (l.max_title_bytes + l.max_url_bytes + l.max_snippet_bytes) * 6))
            results
    All-Fine-bytes l [] h = tt
    All-Fine-bytes l (s ∷ rest) (fine, more) = (Fine-bytes l s fine, All-Fine-bytes l rest more)

    -- Where a string is encoded in at most two quotes and six bytes for each of its bytes: for
    -- validated limits the retention is a number, and it has room for two copies of what
    -- boundAndEncode makes of any records.
    pub result_retention_covers :
        (l : Limits) (records : List Source)
        → validate_limits l ≡ none
        → (n : ℕ) × (result_retention l ≡ some n)
          × ((length (bound_and_encode quote lib parse records l) * 2) ≤ n)
    unfolding bound_and_encode
    result_retention_covers l records h =
        let results : List Source = bound_sources lib parse records l in
        let p : ℕ = 34 + (l.max_title_bytes + l.max_url_bytes + l.max_snippet_bytes) * 6 in
        let fitting = (bound_sources-Fitting lib repair parse records l).0 in
        let bytes = result_bytes results p (All-Fine-bytes l results fitting.1) in
        let most = mul-le-mul_left p fitting.0 in
        (_, result_retention_exact l h, omega (arith, bytes, most, fitting.0))
