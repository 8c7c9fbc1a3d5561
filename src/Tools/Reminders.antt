-- ===== src/Tools/Reminders.antt =====
-- src/tools/reminders.ts over the reminders of src/memory/store.ts. `digits` and `utc` are the clock's
-- tables of Orchestration.TimeZone, `text_of` prints a number, `instant_label` is the formatter of Intl.
pub mod Due
use ezra.Common.{
  ℕ, String, Option, none, some, List, [], ◌∷◌, map, concat, join, ltb, if◌then◌else◌,
}
use ezra.Orchestration.TimeZone.{WallTime, wall_time_to_instant}
use ezra.Store.{Reminder, create_reminder, get_scheduled_reminders, cancel_reminder}

pub record ReminderText : Type 0 where
  pub text_of : ℕ → String
  pub instant_label : ℕ → String
  pub utc : WallTime → ℕ
  pub digits : ℕ → ℕ

module _ (o : ReminderText) where
  -- `String(n).padStart(2, '0')`, for the numbers below 100 that stand in a wall time.
  abbrev pub pad : ℕ → String
  pad n = if ltb n 10 then concat ("0" ∷ o.text_of n ∷ []) else o.text_of n

  abbrev pub wall_time_label : WallTime → String
  wall_time_label w = concat (
      o.text_of w.year
      ∷ "-"
      ∷ pad w.month
      ∷ "-"
      ∷ pad w.day
      ∷ " "
      ∷ pad w.hour
      ∷ ":"
      ∷ pad w.minute
      ∷ [])

  unfoldable pub create_reminder_tool :
      String → ℕ → String → String → WallTime → String → List Reminder → String × List Reminder
  unfolding create_reminder
  create_reminder_tool id now conversation body wall created_by rows = (
    concat
        ("reminder " ∷ id ∷ " set for " ∷ wall_time_label wall ∷ " (household time): " ∷ body ∷ []),
    create_reminder id now conversation body (wall_time_to_instant o.digits o.utc wall) none
        created_by rows,
  )

  abbrev pub reminder_line : Reminder → String
  reminder_line r =
      concat (
        "- "
        ∷ o.instant_label r.due_at
        ∷ " (household time): "
        ∷ r.body
        ∷ " (id "
        ∷ r.id
        ∷ ")"
        ∷ [])

  abbrev pub reminders_text : List Reminder → String
  reminders_text [] = "no scheduled reminders"
  reminders_text (r ∷ rows) =
      concat ("scheduled reminders:\n" ∷ join "\n" (map reminder_line (r ∷ rows)) ∷ [])

  unfoldable pub list_reminders_tool : String → List Reminder → String
  unfolding get_scheduled_reminders
  list_reminders_tool conversation rows = reminders_text (get_scheduled_reminders conversation rows)

abbrev pub cancelled_text : String → Option Reminder → String
cancelled_text id none = concat (
    "reminder " ∷ id
    ∷ " was not cancelled — it does not exist, already fired, or was already cancelled" ∷ [])
cancelled_text id (some r) = concat ("cancelled reminder " ∷ r.id ∷ ": " ∷ r.body ∷ [])

unfoldable pub cancel_reminder_tool : String → List Reminder → String × List Reminder
unfolding cancel_reminder
cancel_reminder_tool id rows =
    let (row, rows') = cancel_reminder id rows in (cancelled_text id row, rows')
