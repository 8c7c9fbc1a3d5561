-- ===== src/Tools/Facts.antt =====
-- src/tools/facts.ts over the facts of src/memory/store.ts. An answer is kept as what it tells, its
-- wording and the fence around stored text are left out. `FactText` are the string methods and regular
-- expressions that the code calls, and the database's ILIKE.
pub mod Recorded
use ezra.Common.{
  ℕ, ◌+◌, String, Bool, true, false, not, ◌&&◌, ◌||◌, Option, none, some, List, [], ◌∷◌, map,
  split_on, str_eq, any, all, select, take, length, leb, ltb, ◌==◌, if◌then◌else◌,
}
use ezra.Common.Sorting.{sort}
use ezra.Store.{HouseholdFact, get_fact, upsert_fact}

pub record FactText : Type 0 where
  pub to_lower_case : String → String
  pub trim : String → String
  -- Runs of other characters than letters and digits become one dash.
  pub dashed : String → String
  -- No dash at either end.
  pub strip_dashes : String → String
  pub includes : String → String → Bool
  pub ilike : String → String → Bool

-- `[...new Set(xs)]`, the first of each kept.
unfoldable pub distinct_after : List String → List String → List String
distinct_after seen [] = []
distinct_after seen (x ∷ xs) =
    let rest = distinct_after (x ∷ seen) xs in if any (str_eq x) seen then rest else x ∷ rest

abbrev pub search_candidates : ℕ
search_candidates = 50

abbrev pub search_results : ℕ
search_results = 5

abbrev pub catalog_keys : ℕ
catalog_keys = 100

abbrev pub list_facts_limit : ℕ
list_facts_limit = 50

-- `ORDER BY updated_at DESC LIMIT`
unfoldable pub newest : ℕ → List HouseholdFact → List HouseholdFact
newest limit facts = take limit (sort (λ a b. leb b.updated_at a.updated_at) facts)

pub record FactKeys : Type 0 where
  pub keys : List String
  pub total : ℕ

unfoldable pub list_fact_keys : ℕ → List HouseholdFact → FactKeys
unfolding newest
list_fact_keys limit facts = record {
  keys = map (λ f. f.key) (newest limit facts);
  total = length facts;
}

pub record FactList : Type 0 where
  pub facts : List HouseholdFact
  pub total : ℕ

unfoldable pub list_facts : ℕ → List HouseholdFact → FactList
unfolding newest
list_facts limit facts = record { facts = newest limit facts; total = length facts }

pub data SetFactAnswer : Type 0 where
  not_recorded : List String → SetFactAnswer
  recorded : String → String → SetFactAnswer

pub data GetFactAnswer : Type 0 where
  nothing_stored : GetFactAnswer
  stored : HouseholdFact → FactKeys → GetFactAnswer
  closest : List HouseholdFact → FactKeys → GetFactAnswer
  no_match : FactKeys → GetFactAnswer

module _ (o : FactText) where
  unfoldable pub normalize_fact_key : String → String
  normalize_fact_key raw =
      let slug = o.strip_dashes (o.dashed (o.to_lower_case raw)) in
      if str_eq slug "" then o.to_lower_case (o.trim raw) else slug

  unfoldable pub fact_terms : String → List String
  unfolding normalize_fact_key distinct_after
  fact_terms raw =
      select (λ t. not (str_eq t "")) (distinct_after [] (split_on 45 (normalize_fact_key raw)))

  -- Without terms there is nothing to match.
  unfoldable pub search_facts : List String → Bool → ℕ → List HouseholdFact → List HouseholdFact
  unfolding newest
  search_facts terms keys_only limit facts = newest limit (
      select
        (λ f.
          any (λ t. o.ilike t f.key) terms || not keys_only && any (λ t. o.ilike t f.value) terms)
        facts)

  abbrev pub score : List String → HouseholdFact → ℕ
  score [] f = 0
  score (t ∷ ts) f =
      (if o.includes (o.to_lower_case f.key) t then 2 else 0)
      + (if o.includes (o.to_lower_case f.value) t then 1 else 0)
      + score ts f

  unfoldable pub rank_by_terms : List HouseholdFact → List String → List HouseholdFact
  rank_by_terms facts terms =
      sort (λ a b. leb (score terms b) (score terms a)) (select (λ f. ltb 0 (score terms f)) facts)

  abbrev pub is_subset : List String → List String → Bool
  is_subset xs ys = all (λ x. any (str_eq x) ys) xs

  unfoldable pub similar_fact_keys : String → List HouseholdFact → List String
  unfolding fact_terms search_facts
  similar_fact_keys key facts =
      let terms = fact_terms key in
      select (λ k. is_subset terms (fact_terms k) || is_subset (fact_terms k) terms)
        (map (λ f. f.key) (search_facts terms true search_candidates facts))

  abbrev pub write_fact :
      String → String → ℕ → List HouseholdFact → SetFactAnswer × List HouseholdFact
  write_fact key value now facts = (recorded key value, upsert_fact key value now facts)

  abbrev pub unless_similar :
      String → String → ℕ → List HouseholdFact → List String → SetFactAnswer × List HouseholdFact
  unless_similar key value now facts [] = write_fact key value now facts
  unless_similar key value now facts (k ∷ ks) = (not_recorded (k ∷ ks), facts)

  abbrev pub is_new : Bool → Option HouseholdFact → Bool
  is_new distinct none = not distinct
  is_new distinct (some f) = false

  -- `set_fact` under the normalized key.
  unfoldable pub set_fact_at :
      String → String → Bool → ℕ → List HouseholdFact → SetFactAnswer × List HouseholdFact
  unfolding similar_fact_keys
  set_fact_at key value distinct now facts =
      if is_new distinct (get_fact key facts)
      then unless_similar key value now facts (similar_fact_keys key facts)
      else write_fact key value now facts

  unfoldable pub set_fact :
      String → String → Bool → ℕ → List HouseholdFact → SetFactAnswer × List HouseholdFact
  unfolding set_fact_at
  set_fact raw value distinct now facts =
      set_fact_at (normalize_fact_key raw) value distinct now facts

  abbrev pub take_matches : FactKeys → List HouseholdFact → GetFactAnswer
  take_matches catalog [] = no_match catalog
  take_matches catalog (f ∷ fs) = closest (f ∷ fs) catalog

  abbrev pub take_fact :
      String → List HouseholdFact → FactKeys → Option HouseholdFact → GetFactAnswer
  unfolding fact_terms search_facts rank_by_terms
  take_fact raw facts catalog (some f) = stored f catalog
  take_fact raw facts catalog none =
      let terms = fact_terms raw in
      take_matches catalog (
        take search_results
          (rank_by_terms (search_facts terms false search_candidates facts) terms))

  -- The tool `get_fact`.
  unfoldable pub get_fact_answer : String → List HouseholdFact → GetFactAnswer
  unfolding take_fact list_fact_keys
  get_fact_answer raw [] = nothing_stored
  get_fact_answer raw (f ∷ facts) =
      take_fact raw (f ∷ facts) (list_fact_keys catalog_keys (f ∷ facts))
        (get_fact (normalize_fact_key raw) (f ∷ facts))
