-- ===== src/BackgroundJobs/Config/Environment.antt =====
-- The environment that jobs get: its size, and the form of its entries.
use eino_agent_extensions.Prelude.{
  ℕ, suc, ◌+◌, ◌-◌, ◌≤◌, ◌≡◌, refl, Bool, false, ◌||◌, Option, none, some, List, [], ◌∷◌, map,
  Bytes, bytes_less, length, ltb, if◌then◌else◌, by_cases, All, arith,
}
use eino_agent_extensions.External.{is_empty, has_nul}
use eino_agent_extensions.BackgroundJobs.Config.{
  Limits, ConfigError, environment_entries, environment_entry, environment_bytes, EnvironmentMode,
  explicit_only, inherit_and_override, other_mode, Entries, put_all, cut_all, has_equals, bad_entry,
  entry_bytes, check_entries, insert_entry, sort_entries, spelled, Effective, effective, refused,
  settled, settle_values, effective_environment,
}

-- A key without an equals sign, an equals sign and a value, and no zero byte.
pub record IsEntry (e : Bytes × Bytes) : Type 0 where
  pub named : is_empty e.0 ≡ false
  pub plain : has_equals e.0 ≡ false
  pub clean : (has_nul e.0 || has_nul e.1) ≡ false

abbrev pub total_bytes : Entries → ℕ
total_bytes [] = 0
total_bytes (e ∷ es) = entry_bytes e.0 e.1 + total_bytes es

-- What the entries are known to be: few, small and of the right form.
pub record Bounded (l : Limits) (es : Entries) : Type 0 where
  pub few : length es ≤ l.max_environment_entries
  pub small : total_bytes es ≤ l.max_environment_bytes
  pub formed : All IsEntry es

check_entries-All :
    (max_bytes total : ℕ) (es : Entries)
    → total ≤ max_bytes
    → check_entries max_bytes total es ≡ none
    → ((total + total_bytes es) ≤ max_bytes) × All IsEntry es
unfolding check_entries
check_entries-All max_bytes total [] low h = (omega (arith, low), tt)
check_entries-All max_bytes total ((key, value) ∷ rest) low h =
    let now : ℕ = total + entry_bytes key value in
    let Goal : Type 0 =
      ((total + total_bytes ((key, value) ∷ rest)) ≤ max_bytes)
      × All IsEntry ((key, value) ∷ rest) in
    let fits : Bool = ltb (max_bytes - total) (entry_bytes key value) in
    let more : Option ConfigError = check_entries max_bytes now rest in
    by_cases (λ o. o ≡ none → Goal) (bad_entry key value) (some environment_entry)
      (if fits then some environment_bytes else more) (λ _ e. cc)
      (λ good.
        by_cases (λ o. o ≡ none → Goal) fits (some environment_bytes) more (λ _ e. cc)
          (λ room e.
            let in_bound : now ≤ max_bytes = ground (arith, low) in
            let behind = check_entries-All max_bytes now rest in_bound e in
            (
              omega (arith, behind.0),
              (
                record { named = ground arith; plain = ground arith; clean = ground arith },
                behind.1,
              ),
            )))
      h

insert_entry-Bounded :
    (e : Bytes × Bytes) (es : Entries)
    → IsEntry e
    → All IsEntry es
    → (length (insert_entry e es) ≡ suc (length es))
      × (total_bytes (insert_entry e es) ≡ entry_bytes e.0 e.1 + total_bytes es)
      × All IsEntry (insert_entry e es)
unfolding insert_entry
insert_entry-Bounded e [] h k = (refl, refl, (h, tt))
insert_entry-Bounded e (f ∷ fs) h k =
    let behind = insert_entry-Bounded e fs h k.1 in
    by_cases
      (λ es.
        (length es ≡ suc (length (f ∷ fs)))
        × (total_bytes es ≡ entry_bytes e.0 e.1 + total_bytes (f ∷ fs))
        × All IsEntry es)
      (bytes_less f.0 e.0) (f ∷ insert_entry e fs) (e ∷ f ∷ fs)
      (λ _. (omega (arith, behind.0), omega (arith, behind.1), (k.0, behind.2)))
      (λ _. (refl, refl, (h, k)))

sort_entries-Bounded :
    (es : Entries)
    → All IsEntry es
    → (length (sort_entries es) ≡ length es)
      × (total_bytes (sort_entries es) ≡ total_bytes es)
      × All IsEntry (sort_entries es)
unfolding sort_entries
sort_entries-Bounded [] h = (refl, refl, tt)
sort_entries-Bounded (e ∷ es) h =
    let behind = sort_entries-Bounded es h.1 in
    let here = insert_entry-Bounded e (sort_entries es) h.0 behind.2 in
    (omega (arith, here.0, behind.0), omega (arith, here.1, behind.1), here.2)

-- The strings are the entries spelled out, and these are within the bounds.
abbrev pub Fits : Limits → Effective → Type 0
Fits l (refused e) = Unit {0}
Fits l (effective env) = (es : Entries) × (env ≡ map spelled es) × Bounded l es

settled-Fits :
    (l : Limits) (values : Entries) (o : Option ConfigError)
    → length values ≤ l.max_environment_entries
    → check_entries l.max_environment_bytes 0 values ≡ o
    → Fits l (settled values o)
settled-Fits l values (some e) few h = tt
settled-Fits l values none few h =
    let checked = check_entries-All l.max_environment_bytes 0 values (omega arith) h in
    let sorted = sort_entries-Bounded values checked.1 in
    (
      sort_entries values,
      refl,
      record {
        few = omega (arith, few, sorted.0);
        small = omega (arith, checked.0, sorted.1);
        formed = sorted.2;
      },
    )

settle_values-Fits : (l : Limits) (values : Entries) → Fits l (settle_values l values)
unfolding settle_values
settle_values-Fits l values =
    by_cases (Fits l) (ltb l.max_environment_entries (length values)) (refused environment_entries)
      (settled values (check_entries l.max_environment_bytes 0 values)) (λ _. tt)
      (λ few.
        settled-Fits l values (check_entries l.max_environment_bytes 0 values) (ground arith) refl)

-- Whatever the environment of the process and the overrides, the environment of the jobs is refused,
-- or has at most the allowed entries and bytes, and each entry is a key that is not empty and has no
-- equals sign, an equals sign and a value, without a zero byte.
pub effective_environment-Fits :
    (environ : List Bytes) (mode : EnvironmentMode) (overrides : Entries) (l : Limits)
    → Fits l (effective_environment environ mode overrides l)
unfolding effective_environment
effective_environment-Fits environ explicit_only overrides l =
    settle_values-Fits l (put_all overrides [])
effective_environment-Fits environ inherit_and_override overrides l =
    settle_values-Fits l (put_all overrides (put_all (cut_all environ) []))
effective_environment-Fits environ other_mode overrides l = tt
