-- ===== src/Store.antt =====
-- The lists, the reminders and the household facts of src/memory/store.ts. A new row's id is made by
-- the database and is an argument here, as is the clock's reading.
pub mod Settles
use text.Mathlib.Text.{is_le}
use Prim.Native.String.{compare}
use ezra.Common.{
  ℕ, String, Bool, true, false, not, ◌&&◌, ◌||◌, Option, none, some, List, [], ◌∷◌, ◌++◌, str_eq,
  ltb, leb, ◌==◌, if◌then◌else◌, any, select, find, update_where,
}
use ezra.Common.Sorting.{sort}

pub record ListItem : Type 0 where
  pub id : String
  pub list : String
  pub item : String
  pub added_by : String
  pub is_done : Bool
  pub created_at : ℕ
  pub done_at : Option ℕ

pub data ReminderStatus : Type 0 where
  scheduled fired cancelled : ReminderStatus

pub record Reminder : Type 0 where
  pub id : String
  pub conversation_id : String
  pub body : String
  pub due_at : ℕ
  pub recurrence : Option String
  pub status : ReminderStatus
  pub created_by : String
  pub created_at : ℕ

pub record HouseholdFact : Type 0 where
  pub key : String
  pub value : String
  pub updated_at : ℕ

-- `ORDER BY time, id`
abbrev earlier : ℕ → String → ℕ → String → Bool
earlier t i u j = ltb t u || t == u && is_le (compare i j)

unfoldable pub add_list_item : String → ℕ → String → String → String → List ListItem → List ListItem
add_list_item id now list item added_by rows =
    rows
    ++ record {
      id = id;
      list = list;
      item = item;
      added_by = added_by;
      is_done = false;
      created_at = now;
      done_at = none;
    }
      ∷ []

unfoldable pub get_open_items : String → List ListItem → List ListItem
get_open_items list rows =
    sort (λ a b. earlier a.created_at a.id b.created_at b.id)
      (select (λ r. str_eq r.list list && not r.is_done) rows)

unfoldable pub mark_item_done : String → ℕ → List ListItem → Option ListItem × List ListItem
mark_item_done id now rows =
    let rows' =
      update_where (λ r. str_eq r.id id) (λ r. record r { is_done = true; done_at = some now })
        rows in
    (find (λ r. str_eq r.id id) rows', rows')

unfoldable pub create_reminder :
    String → ℕ → String → String → ℕ → Option String → String → List Reminder → List Reminder
create_reminder id now conversation body due recurrence by rows =
    rows
    ++ record {
      id = id;
      conversation_id = conversation;
      body = body;
      due_at = due;
      recurrence = recurrence;
      status = scheduled;
      created_by = by;
      created_at = now;
    }
      ∷ []

abbrev pub is_scheduled : ReminderStatus → Bool
is_scheduled scheduled = true
is_scheduled _ = false

-- `WHERE id = $1 AND status = 'scheduled'`
abbrev pub open_reminder : String → Reminder → Bool
open_reminder id r = str_eq r.id id && is_scheduled r.status

abbrev pub with_reminder_status : ReminderStatus → Reminder → Reminder
with_reminder_status to r = record r { status = to }

unfoldable pub mark_reminder_fired : String → List Reminder → Bool × List Reminder
mark_reminder_fired id rows =
    (any (open_reminder id) rows, update_where (open_reminder id) (with_reminder_status fired) rows)

abbrev pub returned_row : Option Reminder → Option Reminder
returned_row none = none
returned_row (some r) = some (with_reminder_status cancelled r)

-- The statement returns the row as it is now.
unfoldable pub cancel_reminder : String → List Reminder → Option Reminder × List Reminder
cancel_reminder id rows = (
  returned_row (find (open_reminder id) rows),
  update_where (open_reminder id) (with_reminder_status cancelled) rows,
)

unfoldable pub get_scheduled_reminders : String → List Reminder → List Reminder
get_scheduled_reminders conversation rows =
    sort (λ a b. earlier a.due_at a.id b.due_at b.id)
      (select (λ r. str_eq r.conversation_id conversation && is_scheduled r.status) rows)

unfoldable pub get_due_reminders : ℕ → List Reminder → List Reminder
get_due_reminders as_of rows =
    sort (λ a b. earlier a.due_at a.id b.due_at b.id)
      (select (λ r. is_scheduled r.status && leb r.due_at as_of) rows)

abbrev pub has_fact : String → HouseholdFact → Bool
has_fact key f = str_eq f.key key

-- `ON CONFLICT (key) DO UPDATE`
unfoldable pub upsert_fact : String → String → ℕ → List HouseholdFact → List HouseholdFact
upsert_fact key value now facts =
    if any (has_fact key) facts
    then update_where (has_fact key) (λ f. record f { value = value; updated_at = now }) facts
    else facts ++ record { key = key; value = value; updated_at = now } ∷ []

unfoldable pub get_fact : String → List HouseholdFact → Option HouseholdFact
get_fact key facts = find (has_fact key) facts
