-- ===== src/Orchestration/Sweep/Reminders.antt =====
-- src/orchestration/scheduled.ts: the sweep of the due reminders. `iso` is `Date.toISOString`.
use ezra.Common.{ℕ, String, [], ◌∷◌, map, concat}
use ezra.Hitl.Value.{Value, obj, field, end, str}
use ezra.Transport.SendClass.{proactive}
use ezra.Store.{Reminder, get_due_reminders, mark_reminder_fired}
use ezra.Orchestration.Enqueue.{ConversationEnqueue}
use ezra.Orchestration.Sweep.{Desk, sweep}
use ezra.Crash.{Run}

pub record DueReminder : Type 0 where
  pub id : String
  pub conversation_id : String
  pub body : String
  pub due_at_iso : String

unfoldable pub reminder_firing_id : DueReminder → String
reminder_firing_id r = concat ("remind-" ∷ r.id ∷ "-" ∷ r.due_at_iso ∷ [])

module _ (iso : ℕ → String) (stringify : Value → String) where
  abbrev pub due_of : Reminder → DueReminder
  due_of r = record {
    id = r.id;
    conversation_id = r.conversation_id;
    body = r.body;
    due_at_iso = iso r.due_at;
  }

  unfoldable pub to_proactive_item : DueReminder → ConversationEnqueue
  to_proactive_item r = record {
    conversation_id = r.conversation_id;
    kind = proactive;
    sender_id = "system";
    message_id = reminder_firing_id r;
    payload = stringify (obj (field "reminder" (str r.body) end));
  }

  -- `makeReminderSweepWorkflow`
  unfoldable pub reminder_sweep : ℕ → Run (Desk Reminder) ℕ
  unfolding sweep
  reminder_sweep scheduled_time =
      sweep to_proactive_item (λ r t. mark_reminder_fired r.id t)
        (λ t. map due_of (get_due_reminders scheduled_time t))
