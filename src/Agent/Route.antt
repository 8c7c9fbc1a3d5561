-- ===== src/Agent/Route.antt =====
-- src/agent/turn-route.ts: from the judge's answers to a model tier. A probability is a whole number
-- of millionths. The wording of the questions is the judge's matter and left out.
pub mod Turn
pub mod Tiers
pub mod Labels
use ezra.Common.{
  ℕ, ◌-◌, String, Bool, true, false, not, ◌&&◌, ◌||◌, Option, none, some, List, [], ◌∷◌, str_eq,
  ltb, ◌==◌, if◌then◌else◌, any, map, length, drop, concat, join, Attempt, returned, threw,
}

pub data Tier : Type 0 where
  fast standard deep : Tier

-- The options of the question `intent`.
abbrev pub intents : List String
intents =
    "list_edit" ∷ "reminder" ∷ "calendar" ∷ "household_fact" ∷ "planning_or_advice"
    ∷ "conversation_recall" ∷ "social" ∷ []

-- What every JavaScript object inherits, and `in` finds as well.
abbrev pub inherited : List String
inherited =
    "constructor" ∷ "__defineGetter__" ∷ "__defineSetter__" ∷ "hasOwnProperty" ∷ "__lookupGetter__"
    ∷ "__lookupSetter__" ∷ "isPrototypeOf" ∷ "propertyIsEnumerable" ∷ "toString" ∷ "valueOf"
    ∷ "__proto__" ∷ "toLocaleString" ∷ []

pub record RouteAnswers : Type 0 where
  pub asks_anything : ℕ
  pub intent : String
  pub several_requests : ℕ
  pub refers_back : ℕ
  pub weighs_options : ℕ
  pub schedule_reasoning : ℕ
  pub corrects_previous : ℕ

abbrev pub yes_threshold : ℕ
yes_threshold = 700_000

abbrev pub no_threshold : ℕ
no_threshold = 300_000

abbrev pub yes : ℕ → Bool
yes p = ltb yes_threshold p

abbrev pub no : ℕ → Bool
no p = ltb p no_threshold

unfoldable pub decide_tier : RouteAnswers → Tier
decide_tier a =
    if yes a.weighs_options || yes a.schedule_reasoning && yes a.several_requests
    then deep
    else if no a.asks_anything && str_eq a.intent "social"
    then fast
    else if (str_eq a.intent "list_edit" || str_eq a.intent "social")
        && (no a.several_requests && (no a.refers_back && no a.schedule_reasoning))
    then fast
    else standard

pub data JevAnswer : Type 0 where
  noul : ℕ → JevAnswer
  choice : String → JevAnswer

abbrev pub Wire : Type 0
Wire = List (String × JevAnswer)

-- `wire[id]`
unfoldable pub answer_to : String → Wire → Option JevAnswer
answer_to id [] = none
answer_to id ((k, a) ∷ wire) = if str_eq k id then some a else answer_to id wire

abbrev pub as_noul : String → Option JevAnswer → Attempt ℕ
as_noul id (some (noul p)) = returned p
as_noul id _ = threw (concat ("turn route: no noul answer for \"" ∷ id ∷ "\"" ∷ []))

abbrev pub as_intent : Option JevAnswer → Attempt String
as_intent (some (choice c)) =
    if any (str_eq c) intents || any (str_eq c) inherited
    then returned c
    else threw "turn route: no valid intent answer"
as_intent _ = threw "turn route: no valid intent answer"

infixl 5 ◌then◌
abbrev ◌then◌ : {A B : Type 0} → Attempt A → (A → Attempt B) → Attempt B
(returned a) then f = f a
(threw e) then f = threw e

unfoldable pub to_route_answers : Wire → Attempt RouteAnswers
unfolding answer_to
to_route_answers wire =
    let ask : String → Attempt ℕ = λ id. as_noul id (answer_to id wire) in
    as_intent (answer_to "intent" wire) then (λ i. ask "asks_anything" then (λ asks.
      ask "several_requests" then (λ several. ask "refers_back" then (λ refers.
        ask "weighs_options" then (λ weighs. ask "schedule_reasoning" then (λ schedule.
          ask "corrects_previous" then (λ corrects. returned (record {
            asks_anything = asks;
            intent = i;
            several_requests = several;
            refers_back = refers;
            weighs_options = weighs;
            schedule_reasoning = schedule;
            corrects_previous = corrects;
          }))))))))

pub data PreRouteRule : Type 0 where
  pending_actions quoted_reply no_text : PreRouteRule

-- The rule that routes to `standard` without the judge, if one does.
unfoldable pub pre_route_tier : Bool → Bool → Bool → Option PreRouteRule
pre_route_tier has_pending_actions has_quoted_reply has_text =
    if has_pending_actions
    then some pending_actions
    else if has_quoted_reply
    then some quoted_reply
    else if has_text
    then none
    else some no_text

abbrev pub tier_eq : Tier → Tier → Bool
tier_eq fast fast = true
tier_eq standard standard = true
tier_eq deep deep = true
tier_eq _ _ = false

unfoldable pub apply_rollout : Tier → List Tier → Tier
apply_rollout tier enabled = if any (tier_eq tier) enabled then tier else standard

pub record RouteMessage : Type 0 where
  pub from : String
  pub text : String

pub record RouteState : Type 0 where
  pub household : String
  pub assistant_can : String
  pub recent_conversation : String
  pub latest_messages : List RouteMessage

abbrev render_recent : List RouteMessage → String
render_recent [] = "(none)"
render_recent (m ∷ ms) = join "\n" (map (λ m. concat (m.from ∷ ": " ∷ m.text ∷ [])) (m ∷ ms))

-- `slice(-4)` keeps the last four.
unfoldable pub render_route_state : List RouteMessage → List RouteMessage → RouteState
render_route_state recent latest = record {
  household =
      "Two adults (husband, wife) messaging their home assistant on WhatsApp, in Hebrew, English, or a mix of both.";
  assistant_can =
      "edit shared shopping and to-do lists, set reminders, store and recall household facts, read and propose calendar events";
  recent_conversation = render_recent (drop (length recent - 4) recent);
  latest_messages = latest;
}
