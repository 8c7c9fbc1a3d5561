-- ===== src/Agent/Route/Turn.antt =====
-- src/agent/route-turn.ts: the body of the step that picks the tier of a turn. The judge is a
-- function `ask` on the world `W`; a clock reading before and one after it are arguments.
use text.Mathlib.Text.{starts_with}
use ezra.Common.{
  ℕ, ◌-◌, String, Bool, true, false, not, Option, none, some, List, [], ◌∷◌, str_eq, if◌then◌else◌,
  any, map, Attempt, returned, threw,
}
use ezra.Agent.{TurnMessage, user, assistant, tool}
use ezra.Agent.Route.{
  Tier, standard, RouteAnswers, Wire, RouteMessage, RouteState, PreRouteRule, decide_tier,
  to_route_answers, pre_route_tier, apply_rollout, render_route_state,
}

pub data RouteMode : Type 0 where
  shadow on : RouteMode

-- The kinds of a failed call, and `internal`.
pub data FailureKind : Type 0 where
  timeout network http malformed internal : FailureKind

pub data RouteSource : Type 0 where
  jev : RouteSource
  pre_rule : PreRouteRule → RouteSource
  fallback_error : FailureKind → RouteSource

pub record JevResponse : Type 0 where
  pub model : String
  pub answers : Wire
  pub input_tokens : ℕ

pub data Asked : Type 0 where
  answered : JevResponse → Asked
  failed : FailureKind → Asked

pub record RouteDecision : Type 0 where
  pub tier : Tier
  pub proposed : Tier
  pub source : RouteSource
  pub mode : RouteMode
  pub jev_model : Option String
  pub latency_ms : Option ℕ
  pub input_tokens : Option ℕ
  pub answers : Option RouteAnswers
  pub request : Option RouteState
  pub response : Option Wire

pub record RouteTurnInput : Type 0 where
  pub prior : List TurnMessage
  pub latest : List RouteMessage
  pub has_pending_actions : Bool
  pub has_quoted_reply : Bool

abbrev pub is_empty {ℓ} : {A : Type ℓ} → List A → Bool
is_empty [] = true
is_empty (x ∷ xs) = false

-- `makeMemberLabeler`
unfoldable pub member_label : List String → List String → String → String
member_label husband wife sender =
    if any (str_eq sender) husband
    then "husband"
    else if any (str_eq sender) wife
    then "wife"
    else "member"

module _ (label_for : String → String) where
  unfoldable pub to_route_messages : List TurnMessage → List RouteMessage
  to_route_messages [] = []
  to_route_messages (user sender content ∷ ms) =
      let rest = to_route_messages ms in
      if starts_with sender "system:"
      then rest
      else record { from = label_for sender; text = content } ∷ rest
  to_route_messages (assistant content calls ∷ ms) =
      let rest = to_route_messages ms in
      if str_eq content "" then rest else record { from = "assistant"; text = content } ∷ rest
  to_route_messages (tool id content ∷ ms) = to_route_messages ms

  abbrev pub relabel : RouteMessage → RouteMessage
  relabel m = record { from = label_for m.from; text = m.text }

  -- The state sent to the judge; the `from` of an input message is its sender's id.
  unfoldable pub request_of : RouteTurnInput → RouteState
  unfolding to_route_messages
  request_of input = render_route_state (to_route_messages input.prior) (map relabel input.latest)

module _ (mode : RouteMode) (enabled : List Tier) where
  abbrev pub clamped : RouteMode → Tier → Tier
  clamped on proposed = apply_rollout proposed enabled
  clamped shadow proposed = standard

  abbrev pub pre_decision : PreRouteRule → RouteDecision
  pre_decision rule = record {
    tier = standard;
    proposed = standard;
    source = pre_rule rule;
    mode = mode;
    jev_model = none;
    latency_ms = none;
    input_tokens = none;
    answers = none;
    request = none;
    response = none;
  }

  -- The `catch`.
  abbrev pub fallback : FailureKind → ℕ → RouteState → RouteDecision
  fallback kind latency state = record {
    tier = standard;
    proposed = standard;
    source = fallback_error kind;
    mode = mode;
    jev_model = none;
    latency_ms = some latency;
    input_tokens = none;
    answers = none;
    request = some state;
    response = none;
  }

  unfoldable pub take_answers : ℕ → RouteState → JevResponse → Attempt RouteAnswers → RouteDecision
  take_answers latency state r (threw e) = fallback internal latency state
  take_answers latency state r (returned a) = record {
    tier = clamped mode (decide_tier a);
    proposed = decide_tier a;
    source = jev;
    mode = mode;
    jev_model = some r.model;
    latency_ms = some latency;
    input_tokens = some r.input_tokens;
    answers = some a;
    request = some state;
    response = some r.answers;
  }

  unfoldable pub take_asked : ℕ → RouteState → Asked → RouteDecision
  unfolding take_answers
  take_asked latency state (failed kind) = fallback kind latency state
  take_asked latency state (answered r) = take_answers latency state r (to_route_answers r.answers)

  module _ {W : Type 0} (label_for : String → String) (ask : RouteState → W → Asked × W)
      (started ended : ℕ) where
    unfoldable pub take_rule : RouteTurnInput → W → Option PreRouteRule → RouteDecision × W
    take_rule input w (some rule) = (pre_decision rule, w)
    take_rule input w none =
        let state = request_of label_for input in
        (take_asked (ended - started) state (ask state w).0, (ask state w).1)

    -- `makeRouteTurn`
    unfoldable pub route_turn : RouteTurnInput → W → RouteDecision × W
    unfolding take_rule
    route_turn input w = take_rule input w (
        pre_route_tier input.has_pending_actions input.has_quoted_reply
          (not (is_empty input.latest)))
