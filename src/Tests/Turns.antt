-- ===== src/Tests/Turns.antt =====
-- The lane, the router and the compaction at work on concrete inputs.
use mathlib.Core.List.{Permᴰ}
use ezra.Common.{
  Option, none, some, arith, ◌≤◌, ℕ, suc, String, Bool, true, false, List, [], ◌∷◌, ◌≡◌, refl,
}
use ezra.Common.Sorting.Keys.{Ascending}
use ezra.Transport.SendClass.{human, proactive}
use ezra.Hitl.Value.{null}
use ezra.Orchestration.Debounce.{InboxItem, group_into_batches}
use ezra.Orchestration.Debounce.Batches.{flatten, Batched, group_into_batches-Batched}
use ezra.Orchestration.Drain.{Lane, drain}
use ezra.Orchestration.Drain.Counts.{about}
use ezra.Orchestration.Drain.Once.{Drained, drain-Drained}
use ezra.Orchestration.Enqueue.{ConversationEnqueue}
use ezra.Agent.{TurnMessage, user, assistant, tool}
use ezra.Agent.Route.{fast, RouteAnswers, RouteState, noul, choice}
use ezra.Agent.Route.Turn.{on, Asked, answered, RouteTurnInput, route_turn, member_label}
use ezra.Agent.Route.Tiers.{Routed, route_turn-Routed}
use ezra.Agent.Compaction.{CompactionConfig, find_compaction_cut, persisted}
use ezra.Agent.Compaction.Cuts.{
  IsLastCut, find_compaction_cut-IsLastCut, answers_calls, persisted-answers_calls,
}

abbrev bubble : ℕ → String → InboxItem
bubble n sender = record {
  seq = n;
  conversation_id = "c";
  kind = human;
  sender_id = sender;
  message_id = "m";
  payload = "hi";
}

abbrev inbox : List InboxItem
inbox = bubble 3 "b" ∷ bubble 1 "a" ∷ bubble 2 "a" ∷ []

group_into_batches-Batched_example :
    Permᴰ (flatten (group_into_batches inbox)) inbox
    × Ascending (λ i. i.seq) (flatten (group_into_batches inbox))
    × Batched (group_into_batches inbox)
group_into_batches-Batched_example = group_into_batches-Batched inbox

abbrev lane : Lane
lane = record {
  rows = bubble 3 "b" ∷ bubble 1 "a" ∷ [];
  later = (bubble 4 "b" ∷ []) ∷ [] ∷ (bubble 9 "a" ∷ []) ∷ [];
  processed = [];
}

distinct : (n : ℕ) → about n lane ≤ 1
distinct n = ground arith

-- The second batch is rejected.
abbrev rejects : List InboxItem → List (List InboxItem) → Option String
rejects batch [] = none
rejects batch (b ∷ bs) = some "no model"

drain-Drained_example : Drained rejects lane (drain 2_000 15_000 rejects lane)
drain-Drained_example = drain-Drained 2_000 15_000 rejects lane distinct

abbrev chatty : RouteAnswers
chatty = record {
  asks_anything = 100_000;
  intent = "social";
  several_requests = 500_000;
  refers_back = 500_000;
  weighs_options = 100_000;
  schedule_reasoning = 100_000;
  corrects_previous = 0;
}

abbrev replies : RouteState → ℕ → Asked × ℕ
replies state n = (
  answered (record {
    model = "jev";
    input_tokens = 10;
    answers =
        ("intent", choice "list_edit")
        ∷ ("asks_anything", noul 900_000)
        ∷ ("several_requests", noul 1)
        ∷ ("refers_back", noul 1)
        ∷ ("weighs_options", noul 1)
        ∷ ("schedule_reasoning", noul 1)
        ∷ ("corrects_previous", noul 1)
        ∷ [];
  }),
  suc n,
)

abbrev asks : Bool → RouteTurnInput
asks pending = record {
  prior = user "a@s" "add eggs" ∷ assistant "done" [] ∷ [];
  latest = record { from = "a@s"; text = "and milk" } ∷ [];
  has_pending_actions = pending;
  has_quoted_reply = false;
}

abbrev names : String → String
names = member_label ("a@s" ∷ []) ("b@s" ∷ [])

route_turn-Routed_example :
    Routed on (fast ∷ []) (route_turn on (fast ∷ []) names replies 0 5 (asks false) 0).0
route_turn-Routed_example = route_turn-Routed (fast ∷ []) names replies 0 5 on (asks false) 0

abbrev talk : List TurnMessage
talk =
    user "a" "one"
    ∷ assistant "" (record { id = "t"; name = "n"; args = null } ∷ [])
    ∷ tool "t" "ok"
    ∷ assistant "done" []
    ∷ user "a" "two"
    ∷ assistant "yes" []
    ∷ []

abbrev tight : CompactionConfig
tight = record { threshold_messages = 3; keep_messages = 2 }

find_compaction_cut-IsLastCut_example : IsLastCut talk tight 4 (find_compaction_cut talk tight)
find_compaction_cut-IsLastCut_example = find_compaction_cut-IsLastCut talk tight 4

persisted-answers_calls_example : answers_calls [] (persisted (λ head. "summary") tight talk) ≡ true
persisted-answers_calls_example = persisted-answers_calls (λ head. "summary") tight talk refl

abbrev bins : ConversationEnqueue
bins = record {
  conversation_id = "c";
  kind = proactive;
  sender_id = "system";
  message_id = "m7";
  payload = "bins";
}
