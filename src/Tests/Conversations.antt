-- ===== src/Tests/Conversations.antt =====
-- Whole turns and the passes between them at work on a small household.
use ezra.Common.{
  ℕ, suc, String, true, false, none, some, List, [], ◌∷◌, Attempt, returned, threw, ◌≡◌, refl,
  arith, if◌then◌else◌, ltb, length, any, str_eq,
}
use ezra.Tests.Data.{tools, call, table, shown, net, takes_all}
use ezra.Hitl.Value.{obj, field, end, str, ToolCall}
use ezra.Hitl.Table.{Table, PendingAction}
use ezra.Hitl.Prompting.{Office, send_approval_prompts}
use ezra.Hitl.Prompting.Prompted.{IsLogged, Prompted, send_approval_prompts-Leads}
use ezra.Tools.{ToolResult, run_tool, park}
use ezra.Tools.Laws.{Answers, run_tool-Answers}
use ezra.Agent.{TurnMessage, user, assistant}
use ezra.Agent.Batch.{BatchItem, to_model_messages}
use ezra.Agent.Prompts.{PendingActionDigestEntry}
use ezra.Agent.Relatedness
use ezra.Agent.HandleTurn.{HandleTurnDeps, RelatednessDeps, TurnState, AssistantMessage}
use ezra.Agent.HandleTurn.Inbound.{Quotes, relate}
use ezra.Agent.HandleTurn.Turn.{handle_turn}
use ezra.Agent.HandleTurn.Answered.{answers_all, IsFor, Left}
use ezra.Agent.HandleTurn.Keeps.Turn.{IsTurnResult}
use ezra.Agent.HandleTurn.Ends.{handle_turn-Leaves, handle_turn-answers_all}
use ezra.Agent.HandleTurn.Targets.{relate_guesses_nothing}
use ezra.Hitl.Resolve
use ezra.Hitl.Refine
use ezra.Orchestration.Sweep.{Desk}
use ezra.Orchestration.Sweep.Expiry.{expiry_sweep}
use ezra.Orchestration.Sweep.Expired.{Good, is_overdue, expiry_sweep-Leads}
use ezra.Orchestration.Ingest.{ParsedInboundMessage, IngestionDeps, Inlet, ingest}
use ezra.Orchestration.Ingest.Acked.{Outcome, is_ours, to_wire, ingest-Outcome}
use ezra.Orchestration.Enqueue.{ConversationEnqueue, enqueue_conversation_item, insert-there}
use ezra.Orchestration.Debounce.{InboxItem}
use ezra.Transport.SendClass.{human}
use ezra.Crash.{Returns, Leaves, Leads, done}

abbrev World : Type 0
World = Table × ℕ

abbrev tool_answer : Attempt ToolResult × Table × ℕ → Attempt ToolResult × World
tool_answer (r, t, n) = (r, (t, n))

-- A model that books a table and then says so.
abbrev scripted : List TurnMessage → AssistantMessage
scripted msgs =
    if ltb (length msgs) 3
    then record { content = ""; tool_calls = call ∷ [] }
    else record { content = "booked"; tool_calls = [] }

abbrev deps : HandleTurnDeps World
deps = record {
  database = λ w. (returned tt, w);
  run_tool = λ c w. tool_answer (run_tool tools (park 24 5) c "c" w.0 w.1);
  load_pending_digest = none;
  resolve_approval = none;
  relatedness = none;
  call_model = λ msgs options w. (returned (scripted msgs), w);
  max_rounds = 8;
  summarize_proposal = none;
  compaction = none;
  route_turn = none;
  log_route = none;
  stringify = shown;
  eastern = λ n. "noon";
  one_line = λ s. s;
}

answer-IsFor :
    (c : ToolCall) (t : Table) (n : ℕ) (r : Attempt ToolResult × Table × ℕ)
    → Answers tools 24 5 c "c" t n r
    → Returns (IsFor c) (tool_answer r).0
answer-IsFor c t n (returned r, t', n') a = a.0
answer-IsFor c t n (threw e, t', n') a = tt

deps-IsFor : (c : ToolCall) (w : World) → Returns (IsFor c) (deps.run_tool c w).0
deps-IsFor c w =
    answer-IsFor c w.0 w.1 (run_tool tools (park 24 5) c "c" w.0 w.1)
      (run_tool-Answers tools 24 5 c "c" w.0 w.1)

abbrev batch : List BatchItem
batch =
    record { sender_id = "a"; payload = obj (field "text" (str "a table for two, please") end) }
    ∷ []

abbrev start : TurnState World
start = record { context = user "b" "hi" ∷ assistant "hello" [] ∷ []; world = ([], 0) }

handle_turn-Leaves_example :
    Leaves
      (λ t. Left start.context (to_model_messages shown batch) t.context)
      (IsTurnResult 8)
      (handle_turn "w1" deps batch 20 start)
handle_turn-Leaves_example = handle_turn-Leaves "w1" deps deps-IsFor batch 20 start

handle_turn-answers_all_example :
    answers_all [] (handle_turn "w1" deps batch 20 start).2.context ≡ true
handle_turn-answers_all_example = handle_turn-answers_all "w1" deps deps-IsFor batch 20 start refl

abbrev entry : String → PendingActionDigestEntry
entry id = record {
  action_id = id;
  tool_name = "book";
  summary = "a table";
  args_json = none;
  expires_at = none;
}

-- A classifier that approves of everything.
abbrev eager : RelatednessDeps ℕ
eager = record {
  classify = λ i n. (returned Relatedness.approve, suc n);
  resolve_decision = λ id decision n. (returned Resolve.unbound, suc n);
  refine = λ id args n. (returned Refine.unbound, suc n);
}

abbrev spoken : Quotes
spoken = record {
  msgs = user "a" "yes" ∷ [];
  items =
      record {
        item = record { sender_id = "a"; payload = obj (field "text" (str "yes") end) };
        prior = none;
      }
      ∷ [];
}

relate_guesses_nothing_example :
    relate
      (some eager)
      ""
      spoken
      (entry "x" ∷ entry "y" ∷ [])
      9
      (record { context = []; world = 0 })
    ≡ (
      done (record { msgs = spoken.msgs; reprompt = none; changed = false }),
      9,
      record { context = []; world = 0 },
    )
relate_guesses_nothing_example =
    relate_guesses_nothing eager "" spoken (entry "x" ∷ entry "y" ∷ []) 9
      (record { context = []; world = 0 }) refl refl

abbrev desk : Desk PendingAction
desk = record { inbox = []; serial = 1; drains = []; table = table }

expiry_sweep-Leads_example :
    Leads
      (Good "expire-act-c-t1")
      (λ _ s. Good "expire-act-c-t1" s × (any (is_overdue 500) s.table ≡ false))
      (expiry_sweep shown 500 9 desk)
expiry_sweep-Leads_example =
    expiry_sweep-Leads "expire-act-c-t1" 500 shown 9 desk (refl, omega arith)

abbrev office : Office ℕ
office = record { table = table; net = net }

send_approval_prompts-Leads_example :
    Leads
      (IsLogged takes_all shown (some tools) true "c")
      (Prompted takes_all shown (some tools) true "c")
      (send_approval_prompts takes_all shown (some tools) true "c" 9 office)
send_approval_prompts-Leads_example =
    send_approval_prompts-Leads takes_all shown (some tools) true "c" 9 office refl

abbrev inbound : ParsedInboundMessage
inbound = record {
  id = "m1";
  conversation_id = "c";
  sender_id = "a";
  sender_name = none;
  from_me = false;
  text = "hi";
  quoted_message_id = none;
  timestamp = 7;
}

-- The inbox and the drains that were started.
abbrev Queue : Type 0
Queue = List InboxItem × List String

abbrev item_of : ParsedInboundMessage → ConversationEnqueue
item_of m = record {
  conversation_id = m.conversation_id;
  kind = human;
  sender_id = m.sender_id;
  message_id = m.id;
  payload = m.text;
}

abbrev start_drain : String → String → List String → List String
start_drain id partition drains = id ∷ drains

abbrev enqueue_item : ParsedInboundMessage → Queue → Attempt (Unit {0}) × Queue
enqueue_item m (rows, drains) =
    let (answer, rows', drains') =
      enqueue_conversation_item start_drain 1 (item_of m) rows drains in
    (answer, (rows', drains'))

abbrev IsQueued : ParsedInboundMessage → Queue → Type 0
IsQueued m (rows, drains) = any (λ r. str_eq r.message_id m.id) rows ≡ true

abbrev ingestion : IngestionDeps Queue
ingestion = record {
  enqueue_durably = enqueue_item;
  was_sent_by_bot = λ id. false;
  is_household_conversation = none;
}

ingestion-keeps :
    (m : ParsedInboundMessage) (q : Queue)
    → (enqueue_item m q).0 ≡ returned tt
    → IsQueued m (enqueue_item m q).1
unfolding enqueue_conversation_item
ingestion-keeps m q e = insert-there 1 (item_of m) q.0

abbrev inlet : Inlet Queue
inlet = record { acks = 0; world = ([], []) }

ingest-Outcome_example :
    Outcome ingestion IsQueued inbound
      (is_ours ingestion inbound)
      inlet
      (ingest ingestion (to_wire inbound) 5 inlet)
ingest-Outcome_example =
    ingest-Outcome ingestion IsQueued ingestion-keeps inbound 5 inlet (λ e. cc e) (λ e. cc e)
      (λ e. cc e)
