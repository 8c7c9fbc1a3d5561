-- ===== src/Agent/Route/Tiers.antt =====
-- A turn leaves the standard tier only for settled answers, with the router on and the tier enabled.
use ezra.Common.{
  ℕ, ◌≤◌, ◌<◌, String, Bool, true, false, not, ◌||◌, Option, none, some, List, any, Attempt,
  returned, threw, ◌≡◌, refl, ◌⊎◌, inl, inr, arith, eq_iff, Bool-cases,
}
use ezra.Tools.{is_none}
use ezra.Agent.Route.{
  Tier, fast, standard, deep, RouteAnswers, PreRouteRule, decide_tier, yes_threshold, no_threshold,
  pre_route_tier, apply_rollout, tier_eq, to_route_answers, RouteState,
}
use ezra.Agent.Route.Turn.{
  RouteMode, shadow, on, jev, JevResponse, Asked, answered, failed, RouteDecision, RouteTurnInput,
  is_empty, take_answers, take_asked, take_rule, route_turn,
}

-- What a tier was bought with.
abbrev pub Bought : RouteAnswers → Tier → Type 0
Bought a standard = Unit
Bought a deep =
    (yes_threshold < a.weighs_options)
    ⊎ (yes_threshold < a.schedule_reasoning) × (yes_threshold < a.several_requests)
Bought a fast =
    (a.weighs_options ≤ yes_threshold)
    × ((a.asks_anything < no_threshold) × (a.intent ≡ "social")
        ⊎ ((a.intent ≡ "list_edit") ⊎ (a.intent ≡ "social"))
          × (a.several_requests < no_threshold)
          × (a.refers_back < no_threshold)
          × (a.schedule_reasoning < no_threshold))

-- The deep tier takes an answer above the upper threshold, for weighing options or for both a
-- schedule and several requests; the fast tier takes answers below the lower one, and no answer
-- above the upper one for weighing options.
pub decide_tier-Bought : (a : RouteAnswers) → Bought a (decide_tier a)
unfolding decide_tier
decide_tier-Bought a = ground (arith, eq_iff a.intent "social", eq_iff a.intent "list_edit")

module _ (mode : RouteMode) (enabled : List Tier) where
  -- Standard, or what the judge's answers decide, under an enabled router.
  abbrev pub Routed : RouteDecision → Type 0
  Routed d =
      (d.tier ≡ standard)
      ⊎ (mode ≡ on)
        × (any (tier_eq d.tier) enabled ≡ true)
        × (d.proposed ≡ d.tier)
        × (d.source ≡ jev)
        × ((a : RouteAnswers) × (d.answers ≡ some a) × (decide_tier a ≡ d.tier))

rule_there :
    (pending quoted empty : Bool)
    → (pending || (quoted || empty)) ≡ true
    → is_none (pre_route_tier pending quoted (not empty)) ≡ false
unfolding pre_route_tier
rule_there pending quoted empty h = ground arith

module _ (enabled : List Tier) where
  answers-Routed :
      (mode : RouteMode) (latency : ℕ) (state : RouteState) (r : JevResponse)
      (a : Attempt RouteAnswers)
      → Routed mode enabled (take_answers mode enabled latency state r a)
  unfolding take_answers apply_rollout
  answers-Routed mode latency state r (threw e) = inl refl
  answers-Routed shadow latency state r (returned a) = inl refl
  answers-Routed on latency state r (returned a) =
      elim (Bool-cases (any (tier_eq (decide_tier a)) enabled)) [
        | inl h ↦ inr (rw h (refl, h, refl, refl, (a, refl, refl)))
        | inr h ↦ inl (rw h refl)
      ]

  asked-Routed :
      (mode : RouteMode) (latency : ℕ) (state : RouteState) (asked : Asked)
      → Routed mode enabled (take_asked mode enabled latency state asked)
  unfolding take_asked
  asked-Routed mode latency state (failed kind) = inl refl
  asked-Routed mode latency state (answered r) =
      answers-Routed mode latency state r (to_route_answers r.answers)

  module _ {W : Type 0} (label_for : String → String) (ask : RouteState → W → Asked × W)
      (started ended : ℕ) where
    rule-Routed :
        (mode : RouteMode) (input : RouteTurnInput) (w : W) (rule : Option PreRouteRule)
        → Routed mode enabled (take_rule mode enabled label_for ask started ended input w rule).0
    unfolding take_rule
    rule-Routed mode input w (some rule) = inl refl
    rule-Routed mode input w none = asked-Routed mode _ _ _

    -- Whatever the judge does, the step returns a decision: `standard`, or, with the router on and
    -- that tier enabled, the tier that the judge's answers decide.
    pub route_turn-Routed :
        (mode : RouteMode) (input : RouteTurnInput) (w : W)
        → Routed mode enabled (route_turn mode enabled label_for ask started ended input w).0
    unfolding route_turn
    route_turn-Routed mode input w = rule-Routed mode input w _

    rule_asks_nothing :
        (mode : RouteMode) (input : RouteTurnInput) (w : W) (rule : Option PreRouteRule)
        → is_none rule ≡ false
        → let d = take_rule mode enabled label_for ask started ended input w rule in
          (d.1 ≡ w) × (d.0.tier ≡ standard) × (d.0.request ≡ none)
    unfolding take_rule
    rule_asks_nothing mode input w (some rule) h = (refl, refl, refl)
    rule_asks_nothing mode input w none h = cc

    -- A turn with a pending action, a quoted reply or no text never asks the judge and is standard.
    pub route_turn_asks_nothing :
        (mode : RouteMode) (input : RouteTurnInput) (w : W)
        → (input.has_pending_actions || (input.has_quoted_reply || is_empty input.latest)) ≡ true
        → let d = route_turn mode enabled label_for ask started ended input w in
          (d.1 ≡ w) × (d.0.tier ≡ standard) × (d.0.request ≡ none)
    unfolding route_turn
    route_turn_asks_nothing mode input w h =
        rule_asks_nothing mode input w _
          (rule_there input.has_pending_actions input.has_quoted_reply (is_empty input.latest) h)
