-- ===== src/Tools/Reminders/Due.antt =====
-- Which reminders the sweep will find after any calls of the reminder tools.
use ezra.Common.{
  ℕ, String, Bool, not, ◌&&◌, ◌||◌, List, [], ◌∷◌, str_eq, eq_iff, leb, any, any-append, any-select,
  update_where, ◌≡◌, refl, ap, sym, ◌∙◌, arith,
}
use ezra.Common.Sorting.Tests.{any-sort}
use ezra.Orchestration.TimeZone.{WallTime, wall_time_to_instant}
use ezra.Store.{
  Reminder, get_due_reminders, is_scheduled, open_reminder, with_reminder_status, cancelled,
}
use ezra.Tools.Reminders.{ReminderText, create_reminder_tool, cancel_reminder_tool}

pub data ReminderCall : Type 0 where
  creates : String → ℕ → String → String → WallTime → String → ReminderCall
  cancels : String → ReminderCall

-- Whether the sweep at `as_of` finds the reminder.
abbrev pub is_due : ℕ → String → List Reminder → Bool
is_due as_of id rows = any (λ r. str_eq r.id id) (get_due_reminders as_of rows)

abbrev waits : ℕ → String → Reminder → Bool
waits as_of id r = (is_scheduled r.status && leb r.due_at as_of) && str_eq r.id id

is_due_lem :
    (as_of : ℕ) (id : String) (rows : List Reminder)
    → is_due as_of id rows ≡ any (waits as_of id) rows
unfolding get_due_reminders
is_due_lem as_of id rows =
    any-sort _ (λ r. str_eq r.id id) _ ∙ any-select _ (λ r. str_eq r.id id) rows

any-cancel :
    (as_of : ℕ) (id i : String) (rows : List Reminder)
    → any (waits as_of id) (update_where (open_reminder i) (with_reminder_status cancelled) rows)
      ≡ (any (waits as_of id) rows && not (str_eq i id))
any-cancel as_of id i [] = refl
any-cancel as_of id i (r ∷ rows) =
    ground (arith, eq_iff r.id i, eq_iff i id, eq_iff r.id id, any-cancel as_of id i rows)

module _ (o : ReminderText) where
  abbrev pub call : ReminderCall → List Reminder → List Reminder
  call (creates id now conversation body wall by) rows =
      (create_reminder_tool o id now conversation body wall by rows).1
  call (cancels id) rows = (cancel_reminder_tool id rows).1

  abbrev pub call_all : List ReminderCall → List Reminder → List Reminder
  call_all [] rows = rows
  call_all (c ∷ cs) rows = call_all cs (call c rows)

  -- Whether it should be found, if it was before the calls.
  abbrev pub expected : ℕ → String → Bool → List ReminderCall → Bool
  expected as_of id due [] = due
  expected as_of id due (creates i now conversation body wall by ∷ cs) =
      expected as_of id (due || leb (wall_time_to_instant o.digits o.utc wall) as_of && str_eq i id)
        cs
  expected as_of id due (cancels i ∷ cs) = expected as_of id (due && not (str_eq i id)) cs

  call-due :
      (as_of : ℕ) (id : String) (c : ReminderCall) (rows : List Reminder)
      → is_due as_of id (call c rows) ≡ expected as_of id (is_due as_of id rows) (c ∷ [])
  unfolding create_reminder_tool cancel_reminder_tool
  call-due as_of id (creates i now conversation body wall by) rows =
      is_due_lem as_of id _
      ∙ any-append (waits as_of id) rows _
      ∙ ground (arith, is_due_lem as_of id rows)
  call-due as_of id (cancels i) rows =
      is_due_lem as_of id _
      ∙ any-cancel as_of id i rows
      ∙ ap (λ b. b && not (str_eq i id)) (sym (is_due_lem as_of id rows))

  expected-step :
      (as_of : ℕ) (id : String) (due : Bool) (c : ReminderCall) (cs : List ReminderCall)
      → expected as_of id due (c ∷ cs) ≡ expected as_of id (expected as_of id due (c ∷ [])) cs
  expected-step as_of id due (creates i now conversation body wall by) cs = refl
  expected-step as_of id due (cancels i) cs = refl

  -- After any calls of the reminder tools, the sweep at a time finds the reminder with an id exactly
  -- if it would have before, or the reminder was made for a wall time whose instant is not after that
  -- time, and it has not been cancelled since.
  pub call_all-due :
      (as_of : ℕ) (id : String) (cs : List ReminderCall) (rows : List Reminder)
      → is_due as_of id (call_all cs rows) ≡ expected as_of id (is_due as_of id rows) cs
  call_all-due as_of id [] rows = refl
  call_all-due as_of id (c ∷ cs) rows =
      call_all-due as_of id cs (call c rows)
      ∙ ap (λ b. expected as_of id b cs) (call-due as_of id c rows)
      ∙ sym (expected-step as_of id (is_due as_of id rows) c cs)
