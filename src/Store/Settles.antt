-- ===== src/Store/Settles.antt =====
-- A reminder settles once, and a fact reads back as it was written last.
use ezra.Common.{
  ℕ, ◌+◌, ◌≤◌, String, Bool, true, false, not, ◌&&◌, some, List, [], ◌∷◌, ◌++◌, str_eq,
  if◌then◌else◌, any, find, update_where, ◌≡◌, refl, arith, eq_iff, Bool-cases, inl, inr,
}
use ezra.Tools.{is_none}
use ezra.Store.{
  Reminder, ReminderStatus, fired, cancelled, is_scheduled, open_reminder, with_reminder_status,
  returned_row, mark_reminder_fired, cancel_reminder, HouseholdFact, has_fact, upsert_fact,
  get_fact,
}

-- What settles a reminder: the sweep that fires it, or a person who cancels it.
pub data Settling : Type 0 where
  fires cancels : String → Settling

abbrev pub one_if : Bool → ℕ
one_if true = 1
one_if false = 0

abbrev pub settle : Settling → List Reminder → Bool × List Reminder
settle (fires id) rows = mark_reminder_fired id rows
settle (cancels id) rows = (not (is_none (cancel_reminder id rows).0), (cancel_reminder id rows).1)

abbrev pub concerns : String → Settling → Bool
concerns id (fires i) = str_eq i id
concerns id (cancels i) = str_eq i id

-- How often the reminder `id` was settled, and the rows in the end.
abbrev pub settle_all : String → List Settling → List Reminder → ℕ × List Reminder
settle_all id [] rows = (0, rows)
settle_all id (e ∷ es) rows =
    let (wins, rows') = settle_all id es (settle e rows).1 in
    (one_if (concerns id e && (settle e rows).0) + wins, rows')

open-update :
    (id i : String) (to : ReminderStatus) (rows : List Reminder)
    → is_scheduled to ≡ false
    → any (open_reminder id) (update_where (open_reminder i) (with_reminder_status to) rows)
      ≡ (if str_eq i id then false else any (open_reminder id) rows)
open-update id i to [] h = ground arith
open-update id i to (r ∷ rows) h =
    ground (arith, h, eq_iff i id, eq_iff r.id i, eq_iff r.id id, open-update id i to rows h)

found-open :
    (id : String) (rows : List Reminder)
    → not (is_none (returned_row (find (open_reminder id) rows))) ≡ any (open_reminder id) rows
found-open id [] = refl
found-open id (r ∷ rows) = ground (arith, found-open id rows)

settle-open :
    (id : String) (e : Settling) (rows : List Reminder)
    → one_if (concerns id e && (settle e rows).0)
        + one_if (any (open_reminder id) (settle e rows).1)
      ≤ one_if (any (open_reminder id) rows)
unfolding mark_reminder_fired cancel_reminder
settle-open id (fires i) rows = ground (arith, eq_iff i id, open-update id i fired rows refl)
settle-open id (cancels i) rows =
    ground (arith, eq_iff i id, open-update id i cancelled rows refl, found-open i rows)

-- However often a reminder is fired or cancelled, in whatever order and among whatever other
-- reminders, it is settled at most once, and not at all if it was not scheduled.
pub settle_all-once :
    (id : String) (es : List Settling) (rows : List Reminder)
    → (settle_all id es rows).0 + one_if (any (open_reminder id) (settle_all id es rows).1)
      ≤ one_if (any (open_reminder id) rows)
settle_all-once id [] rows = omega arith
settle_all-once id (e ∷ es) rows =
    omega (arith, settle-open id e rows, settle_all-once id es (settle e rows).1)

find-update :
    (key k value : String) (now : ℕ) (facts : List HouseholdFact)
    → find
        (has_fact k)
        (update_where (has_fact key) (λ f. record f { value = value; updated_at = now }) facts)
      ≡ (if str_eq key k && any (has_fact key) facts
          then some (record { key = key; value = value; updated_at = now })
          else find (has_fact k) facts)
find-update key k value now [] = ground arith
find-update key k value now (f ∷ facts) =
    ground
      (arith, eq_iff key k, eq_iff f.key key, eq_iff f.key k, find-update key k value now facts)

find-new :
    (k : String) (new : HouseholdFact) (facts : List HouseholdFact)
    → any (has_fact new.key) facts ≡ false
    → find (has_fact k) (facts ++ new ∷ [])
      ≡ (if str_eq new.key k then some new else find (has_fact k) facts)
find-new k new [] h = ground arith
find-new k new (f ∷ facts) h =
    ground (arith, eq_iff new.key k, eq_iff f.key new.key, eq_iff f.key k, find-new k new facts)

-- A fact that was written reads back with its last value, and every other fact is as before.
pub get_fact-upsert_fact :
    (key k value : String) (now : ℕ) (facts : List HouseholdFact)
    → get_fact k (upsert_fact key value now facts) ≡ (
        if str_eq key k
        then some (record { key = key; value = value; updated_at = now })
        else get_fact k facts)
unfolding get_fact upsert_fact
get_fact-upsert_fact key k value now facts = elim (Bool-cases (any (has_fact key) facts)) [
  | inl h ↦ rw h (ground (arith, h, find-update key k value now facts))
  | inr h ↦ rw h (find-new k (record { key = key; value = value; updated_at = now }) facts h)
]
