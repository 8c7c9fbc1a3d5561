-- ===== src/Ops/Costs/Folded.antt =====
-- The detour over the days changes no sum, and the shares of a whole make up the whole.
use Prim.Native.Nat.{◌/◌}
use native.Mathlib.Nat.{div-lt_iff_lt-mul}
use ezra.Common.{
  ◌<◌, length, ℕ, zero, suc, ◌+◌, ◌*◌, ◌≤◌, String, Bool, true, ◌&&◌, Option, none, some, List, [],
  ◌∷◌, eq_iff, ltb, leb, if◌then◌else◌, ◌≡◌, refl, ap, ◌∙◌, arith, Bool-cases, inl, inr,
}
use ezra.Ops.Costs.Response.{get_costs, cents}
use ezra.Ops.Costs.{
  ObservationUsage, Observation, CostClock, Split, empty_split, add, merge, ByDay, get_day, set_day,
  or_empty, Folding, fold_one, fold_all, new_folding, Months, put_day, split_months, no_months,
  cost_of, tokens_of, daily_cost,
}

-- The sum over the days that pass a test.
abbrev weight : (String → Bool) → ByDay → Split
weight p [] = empty_split
weight p ((day, s) ∷ days) = if p day then merge s (weight p days) else weight p days

weight-absent :
    (p : String → Bool) (day : String) (u : ObservationUsage) (days : ByDay)
    → weight p (set_day day (add (or_empty (get_day day days)) u) days)
      ≡ (if p day then add (weight p days) u else weight p days)
unfolding set_day get_day
weight-absent p day u [] = ground arith
weight-absent p day u ((d, s) ∷ days) = ground (arith, eq_iff d day, weight-absent p day u days)

abbrev pub sum_one : (String → Bool) → Option ObservationUsage → Option String → Split → Split
sum_one p (some u) (some day) s = if p day then add s u else s
sum_one p _ _ s = s

-- The tokens of the observations whose day passes a test, with no map in between.
abbrev pub sum_where : (String → Bool) → List Observation → Split
sum_where p [] = empty_split
sum_where p (r ∷ rs) = sum_one p r.usage r.start_day (sum_where p rs)

fold_one-weight :
    (p : String → Bool) (u : Option ObservationUsage) (day : Option String) (f : Folding)
    → weight p (fold_one u day f).by_day ≡ sum_one p u day (weight p f.by_day)
fold_one-weight p (some u) (some day) f = weight-absent p day u f.by_day
fold_one-weight p (some u) none f = refl
fold_one-weight p none (some day) f = refl
fold_one-weight p none none f = refl

sum_one-merge :
    (p : String → Bool) (u : Option ObservationUsage) (day : Option String) (s t : Split)
    → merge (sum_one p u day s) t ≡ merge s (sum_one p u day t)
sum_one-merge p (some u) (some day) s t = ground arith
sum_one-merge p (some u) none s t = refl
sum_one-merge p none (some day) s t = refl
sum_one-merge p none none s t = refl

fold_all-weight :
    (p : String → Bool) (rs : List Observation) (f : Folding)
    → weight p (fold_all rs f).by_day ≡ merge (weight p f.by_day) (sum_where p rs)
unfolding fold_all
fold_all-weight p [] f = ground arith
fold_all-weight p (r ∷ rs) f =
    fold_all-weight p rs (fold_one r.usage r.start_day f)
    ∙ ap (λ s. merge s (sum_where p rs)) (fold_one-weight p r.usage r.start_day f)
    ∙ sum_one-merge p r.usage r.start_day (weight p f.by_day) (sum_where p rs)

fold_one-window :
    (u : Option ObservationUsage) (day : Option String) (f : Folding)
    → (fold_one u day f).window ≡ sum_one (λ d. true) u day f.window
fold_one-window (some u) (some day) f = refl
fold_one-window (some u) none f = refl
fold_one-window none (some day) f = refl
fold_one-window none none f = refl

fold_all-window :
    (rs : List Observation) (f : Folding)
    → (fold_all rs f).window ≡ merge f.window (sum_where (λ d. true) rs)
unfolding fold_all
fold_all-window [] f = ground arith
fold_all-window (r ∷ rs) f =
    fold_all-window rs (fold_one r.usage r.start_day f)
    ∙ ap (λ s. merge s (sum_where (λ d. true) rs)) (fold_one-window r.usage r.start_day f)
    ∙ sum_one-merge (λ d. true) r.usage r.start_day f.window (sum_where (λ d. true) rs)

module _ (o : CostClock) (now : ℕ) where
  -- A day that starts when this month starts, or later.
  abbrev pub this_month : String → Bool
  this_month day = leb (o.month_start now) (o.start_of day)

  -- One that starts from the start of the month before on, and before this month.
  abbrev pub last_month : String → Bool
  last_month day =
      leb (o.prev_month_start now) (o.start_of day) && ltb (o.start_of day) (o.month_start now)

  put_day-month :
      (day : String) (s w : Split) (m : Months)
      → merge (put_day o now day s m).month w
        ≡ merge m.month (if this_month day then merge s w else w)
  put_day-month day s w m = ground arith

  put_day-prev :
      (day : String) (s w : Split) (m : Months)
      → merge (put_day o now day s m).prev w
        ≡ merge m.prev (if last_month day then merge s w else w)
  put_day-prev day s w m = ground arith

  split_months-month :
      (days : ByDay) (m : Months)
      → (split_months o now days m).month ≡ merge m.month (weight (this_month) days)
  unfolding split_months
  split_months-month [] m = ground arith
  split_months-month ((day, s) ∷ days) m =
      split_months-month days (put_day o now day s m)
      ∙ put_day-month day s (weight (this_month) days) m

  split_months-prev :
      (days : ByDay) (m : Months)
      → (split_months o now days m).prev ≡ merge m.prev (weight last_month days)
  unfolding split_months
  split_months-prev [] m = ground arith
  split_months-prev ((day, s) ∷ days) m =
      split_months-prev days (put_day o now day s m) ∙ put_day-prev day s (weight last_month days) m

  merge-empty : (s : Split) → merge empty_split (merge empty_split s) ≡ s
  merge-empty s = ground arith

  abbrev pub folding : List Observation → Folding
  folding rs = fold_all rs new_folding

  month-sum :
      (rs : List Observation)
      → (split_months o now (folding rs).by_day (no_months o now)).month ≡ sum_where (this_month) rs
  month-sum rs =
      split_months-month (folding rs).by_day (no_months o now)
      ∙ ap (merge empty_split) (fold_all-weight (this_month) rs new_folding)
      ∙ merge-empty (sum_where (this_month) rs)

  prev-sum :
      (rs : List Observation)
      → (split_months o now (folding rs).by_day (no_months o now)).prev ≡ sum_where last_month rs
  prev-sum rs =
      split_months-prev (folding rs).by_day (no_months o now)
      ∙ ap (merge empty_split) (fold_all-weight last_month rs new_folding)
      ∙ merge-empty (sum_where last_month rs)

  -- The costs of this month and of the one before, and the tokens of this month, are those of the
  -- observations with usage and a start whose day falls into that month, taken one by one.
  pub get_costs-sums :
      (budget : ℕ) (rs : List Observation)
      → ((get_costs o budget now rs).month_cost ≡ cents (cost_of (sum_where (this_month) rs)))
        × ((get_costs o budget now rs).last_month_cost ≡ cents (cost_of (sum_where last_month rs)))
        × ((get_costs o budget now rs).tokens_month ≡ tokens_of (sum_where (this_month) rs))
  unfolding get_costs
  get_costs-sums budget rs = (
    ap (λ s. cents (cost_of s)) (month-sum rs),
    ap (λ s. cents (cost_of s)) (prev-sum rs),
    ap tokens_of (month-sum rs),
  )

below_101 : (c i : ℕ) → c ≤ i → 0 < i → (c * 200 + i) / (i * 2) ≤ 100
below_101 c i h p =
    let d =
      (div-lt_iff_lt-mul {k = i * 2} {x = c * 200 + i} {y = 101} (omega (arith, p))).1
        (omega (arith, h, p)) in
    omega (arith, d)

at_most_all : (c i : ℕ) → c ≤ i → (if ltb 0 i then (c * 200 + i) / (i * 2) else 0) ≤ 100
at_most_all c i h = elim (Bool-cases (ltb 0 i)) [
  | inl e ↦ rw e (below_101 c i h (ground arith))
  | inr e ↦ rw e (omega arith)
]

length-daily_cost :
    (o : CostClock) (now n : ℕ) (days : ByDay) → length (daily_cost o now n days) ≡ n
unfolding daily_cost
length-daily_cost o now zero days = refl
length-daily_cost o now (suc n) days = ap suc (length-daily_cost o now n days)

-- The share of cache reads is at most 100 per cent, and there is one daily cost for each of 30 days.
pub get_costs-within :
    (o : CostClock) (budget now : ℕ) (rs : List Observation)
    → ((get_costs o budget now rs).cache_read_pct ≤ 100)
      × (length (get_costs o budget now rs).daily_cost ≡ 30)
unfolding get_costs
get_costs-within o budget now rs =
    (at_most_all _ _ (omega arith), length-daily_cost o now 30 (fold_all rs new_folding).by_day)
