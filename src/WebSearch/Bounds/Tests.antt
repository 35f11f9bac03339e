-- ===== src/WebSearch/Bounds/Tests.antt =====
-- Two records, of which the limit admits one.
use eino_agent_extensions.Prelude.{
  ℕ, ◌*◌, ◌≤◌, ◌++◌, length, length-append, Option, none, some, ◌≡◌, refl, true, false, Option,
  some, [], ◌∷◌, Bytes, codes, arith, map, take,
}
use eino_agent_extensions.External.{TextLib}
use eino_agent_extensions.WebSearch.Bounds.{Source, Limits, ParsedUrl, bound_sources, bounded}
use eino_agent_extensions.WebSearch.Config.{validate_limits, result_retention}
use eino_agent_extensions.WebSearch.Config.Encoded.{
  IsQuote, encoded_source, encoded_sources, encoded_result, bound_and_encode,
  result_retention_covers,
}
use eino_agent_extensions.WebSearch.Bounds.Laws.{IsRepair, Fitting, passing, bound_sources-Fitting}

abbrev ascii : TextLib
ascii = record {
  utf8_valid = λ t. true;
  to_valid_utf8 = λ t. t;
  trim_space = λ t. t;
  trim_right_space = λ t. t;
}

ascii-IsRepair : IsRepair ascii
ascii-IsRepair = record { shorter = λ v. omega arith; valid = λ v. refl }

abbrev parse : Bytes → Option ParsedUrl
parse v = some (record { scheme = codes "http"; hostname = codes "a"; has_user = false })

abbrev limits : Limits
limits = record {
  max_raw_input_bytes = 100;
  max_query_bytes = 10;
  max_results = 1;
  max_title_bytes = 2;
  max_url_bytes = 9;
  max_snippet_bytes = 4;
  max_in_flight = 1;
  max_wait = 1000000000;
}

abbrev source : Source
source = record { title = codes "abc"; url = codes "http://a"; snippet = codes "s" }

one_kept :
    bound_sources ascii parse (source ∷ source ∷ []) limits
    ≡ record { title = codes "ab"; url = codes "http://a"; snippet = codes "s" } ∷ []
unfolding bound_sources
one_kept = refl

bound_sources-Fitting_example :
    Fitting ascii ascii-IsRepair parse limits.max_results limits
      (bound_sources ascii parse (source ∷ source ∷ []) limits)
    × (bound_sources ascii parse (source ∷ source ∷ []) limits
        ≡ map
            (λ r. bounded ascii parse r limits)
            (passing ascii ascii-IsRepair parse limits
              (take limits.max_results (source ∷ source ∷ []))))
bound_sources-Fitting_example =
    bound_sources-Fitting ascii ascii-IsRepair parse (source ∷ source ∷ []) limits

limits_valid : validate_limits limits ≡ none
unfolding validate_limits
limits_valid = refl

-- An encoder that writes each byte of a string in the six characters of `\u0061`.
abbrev escape : Bytes → Bytes
escape [] = []
escape (c ∷ cs) = b'\\' ∷ b'u' ∷ b'0' ∷ b'0' ∷ b'6' ∷ b'1' ∷ escape cs

abbrev quote : Bytes → Bytes
quote s = b'"' ∷ (escape s ++ (b'"' ∷ []))

escape-length : (s : Bytes) → length (escape s) ≤ (length s * 6)
escape-length [] = omega arith
escape-length (c ∷ cs) = omega (arith, escape-length cs)

quote-IsQuote : IsQuote quote
quote-IsQuote s = omega (arith, length-append (escape s) (b'"' ∷ []), escape-length s)

result_retention_covers_example :
    (n : ℕ) × (result_retention limits ≡ some n)
    × ((length (bound_and_encode quote ascii parse (source ∷ source ∷ []) limits) * 2) ≤ n)
result_retention_covers_example =
    result_retention_covers quote quote-IsQuote ascii ascii-IsRepair parse limits
      (source ∷ source ∷ []) limits_valid

abbrev plain_quote : Bytes → Bytes
plain_quote s = b'"' ∷ (s ++ (b'"' ∷ []))

encoded :
    bound_and_encode plain_quote ascii parse (source ∷ []) limits
    ≡ codes "{\"results\":[{\"title\":\"ab\",\"url\":\"http://a\",\"snippet\":\"s\"}]}"
unfolding bound_and_encode encoded_result encoded_sources encoded_source bound_sources
encoded = refl
