-- ===== src/Ops/RouterPanel.antt =====
-- `deriveRouterHealth` of src/backoffice/router-health.ts over the logged turns. The wording of the rows
-- and the fields that are only shown are left out. A share above a limit is compared by cross multiplication, a probability is a whole number
-- of millionths, and a time is a number.
pub mod Charged
use text.Mathlib.Text.{starts_with}
use Prim.Native.Nat.{◌/◌, max}
use mathlib.Core.List.{reverse}
use ezra.Common.{
  ℕ, zero, suc, ◌+◌, ◌*◌, ◌-◌, String, Bool, true, false, not, ◌&&◌, ◌||◌, Option, none, some, List,
  [], ◌∷◌, ◌++◌, str_eq, ltb, leb, ◌==◌, if◌then◌else◌, length, take, select, any, get_elem?, min,
}
use ezra.Common.Sorting.{sort}
use ezra.Agent.Route.{yes, no}

pub record LoggedAnswers : Type 0 where
  pub asks_anything : ℕ
  pub several_requests : ℕ
  pub refers_back : ℕ
  pub weighs_options : ℕ
  pub schedule_reasoning : ℕ
  pub corrects_previous : ℕ

pub record RouteLogRow : Type 0 where
  pub conversation_id : String
  pub created_at : ℕ
  pub tier : String
  pub proposed : String
  pub source : String
  pub latency_ms : Option ℕ
  pub answers : Option LoggedAnswers

abbrev pub is_fallback : RouteLogRow → Bool
is_fallback r = starts_with r.source "fallback-error:"

abbrev pub is_pre_rule : RouteLogRow → Bool
is_pre_rule r = starts_with r.source "pre-rule:"

-- `n / d > num / den`, for a positive `d`.
abbrev pub share_above : ℕ → ℕ → ℕ → ℕ → Bool
share_above n d num den = ltb (num * d) (n * den)

-- The fallbacks before the first turn that was answered.
unfoldable pub streak_of : List RouteLogRow → ℕ
streak_of [] = 0
streak_of (r ∷ rs) = let rest = streak_of rs in if is_fallback r then suc rest else 0

abbrev pub fallback_amber : List RouteLogRow → Bool
fallback_amber routed =
    leb 3 (streak_of routed)
    || ltb 0 (length routed)
      && share_above (length (select is_fallback routed)) (length routed) 2 10

abbrev pub put_latency : Option ℕ → List ℕ → List ℕ
put_latency none ls = ls
put_latency (some l) ls = l ∷ ls

unfoldable pub latencies : List RouteLogRow → List ℕ
latencies [] = []
latencies (r ∷ rs) =
    if str_eq r.source "jev" then put_latency r.latency_ms (latencies rs) else latencies rs

-- `lat[Math.min(lat.length - 1, Math.floor(0.95 * lat.length))]`
unfoldable pub p95 : List RouteLogRow → Option ℕ
p95 routed =
    let lat = sort leb (latencies routed) in
    get_elem? lat (min (length lat - 1) (length lat * 95 / 100))

abbrev pub is_unsettled : Option LoggedAnswers → Bool
is_unsettled none = false
is_unsettled (some a) =
    any (λ p. not (no p) && not (yes p))
      (a.several_requests ∷ a.refers_back ∷ a.weighs_options ∷ a.schedule_reasoning
        ∷ a.asks_anything ∷ [])

abbrev pub mix_amber : List RouteLogRow → Bool
mix_amber answered =
    ltb 0 (length answered)
    && (share_above (length (select (λ r. str_eq r.proposed "deep") answered)) (length answered) 4
          10
        || share_above (length (select (λ r. is_unsettled r.answers) answered)) (length answered) 5
            10)

-- `byConversation`, in the order of insertion.
abbrev pub Grouped : Type 0
Grouped = List (String × List RouteLogRow)

unfoldable pub push : RouteLogRow → Grouped → Grouped
push r [] = (r.conversation_id, r ∷ []) ∷ []
push r ((c, list) ∷ groups) =
    if str_eq c r.conversation_id then (c, list ++ r ∷ []) ∷ groups else (c, list) ∷ push r groups

unfoldable pub group : List RouteLogRow → Grouped → Grouped
group [] groups = groups
group (r ∷ rs) groups = group rs (push r groups)

-- A map from tiers to counts, of which one goes up by one.
abbrev pub Counts : Type 0
Counts = List (String × ℕ)

unfoldable pub count_of : String → Counts → ℕ
count_of tier [] = 0
count_of tier ((t, n) ∷ counts) = if str_eq t tier then n else count_of tier counts

unfoldable pub bump : String → Counts → Counts
bump tier [] = (tier, 1) ∷ []
bump tier ((t, n) ∷ counts) =
    if str_eq t tier then (t, suc n) ∷ counts else (t, n) ∷ bump tier counts

pub record Charges : Type 0 where
  pub turns : Counts
  pub corrections : Counts

abbrev pub corrects : Option LoggedAnswers → Bool
corrects none = false
corrects (some a) = yes a.corrects_previous

-- A correction is charged to the tier of the turn before it.
abbrev pub charge : Option RouteLogRow → RouteLogRow → Charges → Charges
charge none r c = record c { turns = bump r.tier c.turns }
charge (some before) r c = record {
  turns = bump r.tier c.turns;
  corrections = if corrects r.answers then bump before.tier c.corrections else c.corrections;
}

unfoldable pub charge_list : Option RouteLogRow → List RouteLogRow → Charges → Charges
charge_list before [] c = c
charge_list before (r ∷ rs) c = charge_list (some r) rs (charge before r c)

unfoldable pub charge_all : Grouped → Charges → Charges
charge_all [] c = c
charge_all ((conversation, list) ∷ groups) c = charge_all groups (charge_list none list c)

-- `rate(tier) > rate('standard')`, by cross multiplication.
abbrev pub is_worse : Charges → String → Bool
is_worse c tier =
    ltb (count_of "standard" c.corrections * max 1 (count_of tier c.turns))
      (count_of tier c.corrections * max 1 (count_of "standard" c.turns))

pub record RouterHealth : Type 0 where
  pub silent : Bool
  pub routed_today : ℕ
  pub streak : ℕ
  pub fallbacks : ℕ
  pub routed : ℕ
  pub fallback_amber : Bool
  pub latency : Option ℕ
  pub latency_amber : Bool
  pub mix_amber : Bool
  pub charges : Charges
  pub worse : List String
  pub recent : List RouteLogRow

abbrev pub above_limit : Option ℕ → Bool
above_limit none = false
above_limit (some l) = ltb 1_000 l

abbrev pub charges_of : List RouteLogRow → Charges
charges_of newest_first =
    charge_all (group (reverse newest_first) []) (record { turns = []; corrections = [] })

unfoldable pub derive_router_health : ℕ → ℕ → List RouteLogRow → RouterHealth
derive_router_health now turns rows =
    let newest_first = sort (λ a b. leb b.created_at a.created_at) rows in
    let day = select (λ r. leb now (r.created_at + 86_400_000)) newest_first in
    let routed = take 20 (select (λ r. not (is_pre_rule r)) newest_first) in
    let charges = charges_of newest_first in
    record {
      silent = ltb 0 turns && length day == 0;
      routed_today = length day;
      streak = streak_of routed;
      fallbacks = length (select is_fallback routed);
      routed = length routed;
      fallback_amber = fallback_amber routed;
      latency = p95 routed;
      latency_amber = above_limit (p95 routed);
      mix_amber = mix_amber (select (λ r. str_eq r.source "jev") day);
      charges = charges;
      worse =
          select (λ t. ltb 0 (count_of t charges.turns) && is_worse charges t)
            ("fast" ∷ "deep" ∷ []);
      recent = take 100 newest_first;
    }
