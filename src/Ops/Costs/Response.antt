-- ===== src/Ops/Costs/Response.antt =====
-- `getCosts` of src/backoffice/cost.ts: what the console shows of the sums.
use Prim.Native.Nat.{◌/◌}
use ezra.Common.{ℕ, ◌+◌, ◌*◌, String, List, [], ◌∷◌, ltb, ◌==◌, if◌then◌else◌}
use ezra.Ops.Costs.{
  Observation, CostClock, Split, price, cost_of, tokens_of, Folding, fold_all, new_folding, Months,
  split_months, no_months, daily_cost,
}

pub record Fraction : Type 0 where
  pub over : ℕ
  pub under : ℕ

abbrev pub or_one : ℕ → ℕ
or_one n = if n == 0 then 1 else n

pub record UsageTypeRow : Type 0 where
  pub name : String
  pub tokens : ℕ
  pub cost : ℕ
  pub share : Fraction

pub record TokenSplitSlice : Type 0 where
  pub label : String
  pub pct : Fraction

abbrev pub token_split : Split → List TokenSplitSlice
token_split s =
    let slice = λ (label : String) (n : ℕ).
      let x : TokenSplitSlice = record {
        label = label;
        pct = record { over = n; under = or_one (tokens_of s) };
      } in
      x in
    slice "Cache read" s.cache_read
    ∷ slice "Fresh input" s.fresh
    ∷ slice "Cache write" s.cache_write
    ∷ slice "Output" s.output
    ∷ []

abbrev pub usage_row : Split → String → ℕ → ℕ → UsageTypeRow
usage_row s name tokens per_token = record {
  name = name;
  tokens = tokens;
  cost = tokens * per_token;
  share = record { over = tokens * per_token; under = or_one (cost_of s) };
}

abbrev pub by_usage : Split → List UsageTypeRow
by_usage s =
    usage_row s "Cache read" s.cache_read price.cache_read
    ∷ usage_row s "Fresh input" s.fresh price.fresh_input
    ∷ usage_row s "Cache write" s.cache_write price.cache_write
    ∷ usage_row s "Output" s.output price.output
    ∷ []

-- `Math.round(share * 100)` of the tokens that come in.
abbrev pub input_side : Split → ℕ
input_side s = s.fresh + s.cache_read + s.cache_write

abbrev pub cache_read_pct : Split → ℕ
cache_read_pct s =
    if ltb 0 (input_side s) then (s.cache_read * 200 + input_side s) / (input_side s * 2) else 0

pub record CostsResponse : Type 0 where
  pub budget_usd : ℕ
  -- In cents.
  pub month_cost : ℕ
  pub last_month_cost : ℕ
  pub tokens_month : ℕ
  pub cache_read_pct : ℕ
  pub daily_cost : List ℕ
  pub token_split : List TokenSplitSlice
  pub by_usage : List UsageTypeRow

-- `Math.round(usd * 100)`
abbrev pub cents : ℕ → ℕ
cents cost = (cost + 500_000) / 1_000_000

abbrev pub response : CostClock → ℕ → ℕ → Folding → Months → CostsResponse
response o budget now f m =
    let split = if ltb 0 (tokens_of m.month) then m.month else f.window in
    record {
      budget_usd = budget;
      month_cost = cents (cost_of m.month);
      last_month_cost = cents (cost_of m.prev);
      tokens_month = tokens_of m.month;
      cache_read_pct = cache_read_pct split;
      daily_cost = daily_cost o now 30 f.by_day;
      token_split = token_split split;
      by_usage = by_usage split;
    }

-- `getCosts`
unfoldable pub get_costs : CostClock → ℕ → ℕ → List Observation → CostsResponse
get_costs o budget now records =
    let f = fold_all records new_folding in
    response o budget now f (split_months o now f.by_day (no_months o now))
