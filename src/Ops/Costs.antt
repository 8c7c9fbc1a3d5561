-- ===== src/Ops/Costs.antt =====
-- src/backoffice/cost.ts: tokens and estimated costs from the observations. A cost is a whole number of
-- 10⁻⁸ dollars, so the prices are exact and only the roundings of the source are roundings; what the
-- source divides without rounding is kept as a fraction. `CostClock` are the calls of `Date`.
pub mod Response
pub mod Folded
use Prim.Native.Nat.{◌/◌}
use ezra.Common.{
  ℕ, zero, suc, ◌+◌, ◌*◌, ◌-◌, String, Bool, true, false, not, ◌&&◌, Option, none, some, List, [],
  ◌∷◌, ◌++◌, map, str_eq, ltb, leb, ◌==◌, if◌then◌else◌,
}

pub record ObservationUsage : Type 0 where
  pub input : ℕ
  pub output : ℕ
  pub cache_read : ℕ
  pub cache_write : ℕ

-- What the costs read of an observation; the day is `startTime.slice(0, 10)`.
pub record Observation : Type 0 where
  pub usage : Option ObservationUsage
  pub start_day : Option String

pub record CostClock : Type 0 where
  -- `new Date(day + 'T00:00:00Z')`
  pub start_of : String → ℕ
  pub month_start : ℕ → ℕ
  pub prev_month_start : ℕ → ℕ
  -- The day so many days before an instant.
  pub days_ago : ℕ → ℕ → String

pub record Split : Type 0 where
  pub fresh : ℕ
  pub cache_read : ℕ
  pub cache_write : ℕ
  pub output : ℕ

abbrev pub empty_split : Split
empty_split = record { fresh = 0; cache_read = 0; cache_write = 0; output = 0 }

abbrev pub add : Split → ObservationUsage → Split
add s u = record {
  fresh = s.fresh + u.input;
  cache_read = s.cache_read + u.cache_read;
  cache_write = s.cache_write + u.cache_write;
  output = s.output + u.output;
}

abbrev pub merge : Split → Split → Split
merge s t = record {
  fresh = s.fresh + t.fresh;
  cache_read = s.cache_read + t.cache_read;
  cache_write = s.cache_write + t.cache_write;
  output = s.output + t.output;
}

pub record Prices : Type 0 where
  pub fresh_input : ℕ
  pub output : ℕ
  pub cache_read : ℕ
  pub cache_write : ℕ

-- `PRICE_PER_TOKEN`, in 10⁻⁸ dollars.
abbrev pub price : Prices
price = record { fresh_input = 300; output = 1_500; cache_read = 30; cache_write = 375 }

abbrev pub cost_of : Split → ℕ
cost_of s =
    s.fresh * price.fresh_input
    + s.cache_read * price.cache_read
    + s.cache_write * price.cache_write
    + s.output * price.output

abbrev pub tokens_of : Split → ℕ
tokens_of s = s.fresh + s.cache_read + s.cache_write + s.output

-- The map from days to splits, in the order of insertion.
abbrev pub ByDay : Type 0
ByDay = List (String × Split)

unfoldable pub get_day : String → ByDay → Option Split
get_day day [] = none
get_day day ((d, s) ∷ days) = if str_eq d day then some s else get_day day days

unfoldable pub set_day : String → Split → ByDay → ByDay
set_day day s [] = (day, s) ∷ []
set_day day s ((d, t) ∷ days) = if str_eq d day then (d, s) ∷ days else (d, t) ∷ set_day day s days

abbrev pub or_empty : Option Split → Split
or_empty none = empty_split
or_empty (some s) = s

pub record Folding : Type 0 where
  pub by_day : ByDay
  pub window : Split

abbrev pub put : ObservationUsage → String → Folding → Folding
put u day f = record {
  by_day = set_day day (add (or_empty (get_day day f.by_day)) u) f.by_day;
  window = add f.window u;
}

abbrev pub fold_one : Option ObservationUsage → Option String → Folding → Folding
fold_one (some u) (some day) f = put u day f
fold_one _ _ f = f

-- The loop over the observations.
unfoldable pub fold_all : List Observation → Folding → Folding
fold_all [] f = f
fold_all (r ∷ rs) f = fold_all rs (fold_one r.usage r.start_day f)

abbrev pub new_folding : Folding
new_folding = record { by_day = []; window = empty_split }

pub record Months : Type 0 where
  pub month : Split
  pub prev : Split

module _ (o : CostClock) (now : ℕ) where
  abbrev pub in_month : String → Bool
  in_month day = leb (o.month_start now) (o.start_of day)

  abbrev pub in_prev : String → Bool
  in_prev day =
      leb (o.prev_month_start now) (o.start_of day) && ltb (o.start_of day) (o.month_start now)

  abbrev pub put_day : String → Split → Months → Months
  put_day day s m =
      if in_month day
      then record m { month = merge m.month s }
      else if in_prev day
      then record m { prev = merge m.prev s }
      else m

  -- The loop over the days.
  unfoldable pub split_months : ByDay → Months → Months
  split_months [] m = m
  split_months ((day, s) ∷ days) m = split_months days (put_day day s m)

  abbrev pub no_months : Months
  no_months = record { month = empty_split; prev = empty_split }

  abbrev pub day_cost : Option Split → ℕ
  day_cost none = 0
  day_cost (some s) = (cost_of s + 5_000) / 10_000

  -- The last `n` days, oldest first, in 10⁻⁴ dollars.
  unfoldable pub daily_cost : ℕ → ByDay → List ℕ
  daily_cost zero days = []
  daily_cost (suc i) days = day_cost (get_day (o.days_ago now i) days) ∷ daily_cost i days
