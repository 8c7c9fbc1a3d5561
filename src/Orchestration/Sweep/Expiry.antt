-- ===== src/Orchestration/Sweep/Expiry.antt =====
-- src/hitl/expiry.ts: the sweep of the actions that nobody answered in time.
use ezra.Common.{ℕ, String, Option, none, some, List, [], ◌∷◌, map, concat}
use ezra.Hitl.Value.{Value, obj, field, end, str, ToolCall, parse_call}
use ezra.Hitl.Table.{PendingAction, mark_expired, get_overdue_pending_actions}
use ezra.Transport.SendClass.{proactive}
use ezra.Agent.Prompts.{render_expiry_notice}
use ezra.Orchestration.Enqueue.{ConversationEnqueue}
use ezra.Orchestration.Sweep.{Desk, sweep}
use ezra.Crash.{Run}

pub record OverdueAction : Type 0 where
  pub action_id : String
  pub conversation_id : String
  pub tool_name : String
  pub summary : String

unfoldable pub expiry_firing_id : String → String
expiry_firing_id action = concat ("expire-" ∷ action ∷ [])

module _ (stringify : Value → String) where
  abbrev pub overdue_of : PendingAction → Option ToolCall → OverdueAction
  overdue_of action (some call) = record {
    action_id = action.action_id;
    conversation_id = action.conversation_id;
    tool_name = call.name;
    summary = stringify call.args;
  }
  overdue_of action none = record {
    action_id = action.action_id;
    conversation_id = action.conversation_id;
    tool_name = "unknown";
    summary = stringify action.tool_call;
  }

  abbrev pub to_overdue_action : PendingAction → OverdueAction
  to_overdue_action action = overdue_of action (parse_call action.tool_call)

  unfoldable pub to_overdue_actions : List PendingAction → List OverdueAction
  to_overdue_actions actions = map to_overdue_action actions

  -- The payload as the inbox column holds it.
  unfoldable pub to_expiry_item : OverdueAction → ConversationEnqueue
  unfolding render_expiry_notice
  to_expiry_item a = record {
    conversation_id = a.conversation_id;
    kind = proactive;
    sender_id = "system:hitl";
    message_id = expiry_firing_id a.action_id;
    payload = stringify (
        obj (
          field "actionUpdate" (str (render_expiry_notice a.action_id a.tool_name a.summary)) end));
  }

  -- `makeExpirySweepWorkflow`
  unfoldable pub expiry_sweep : ℕ → Run (Desk PendingAction) ℕ
  unfolding sweep to_overdue_actions
  expiry_sweep scheduled_time =
      sweep to_expiry_item (λ a t. mark_expired a.action_id t)
        (λ t. to_overdue_actions (get_overdue_pending_actions scheduled_time t))
