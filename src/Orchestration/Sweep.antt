-- ===== src/Orchestration/Sweep.antt =====
-- The body that the two scheduled sweeps share (src/hitl/expiry.ts, src/orchestration/scheduled.ts):
-- each row found is enqueued under an id of its own and then marked. The process may stop before any
-- effect. Nothing is taken from the journal here: a replay and a later tick both run the body again.
pub mod Told
pub mod Expired
pub mod Listed
pub mod Expiry
pub mod Reminders
use ezra.Common.{
  ℕ, zero, suc, ◌+◌, String, Bool, List, [], ◌∷◌, ◌++◌, str_eq, any, length, if◌then◌else◌, Attempt,
  returned, threw,
}
use ezra.Orchestration.Debounce.{InboxItem}
use ezra.Orchestration.Enqueue.{ConversationEnqueue, insert_inbox_item, drain_workflow_id}
use ezra.Crash.{Run, effect, pure, ◌>>=◌}

-- The inbox with the next value of its serial, the drains started, and the table `R` that is swept.
pub record Desk (R : Type 0) : Type 0 where
  pub inbox : List InboxItem
  pub serial : ℕ
  pub drains : List String
  pub table : List R

-- A workflow id starts one workflow.
abbrev pub start_once : String → List String → List String
start_once id ids = if any (str_eq id) ids then ids else id ∷ ids

module _ {R : Type 0} where
  -- The insert of the enqueue workflow.
  unfoldable pub insert_step : ConversationEnqueue → Run (Desk R) Bool
  unfolding insert_inbox_item
  insert_step item = effect (λ s. (
    returned (insert_inbox_item s.serial item s.inbox).0,
    record s { inbox = (insert_inbox_item s.serial item s.inbox).1; serial = suc s.serial },
  ))

  abbrev pub started : Desk R → Attempt String → Attempt {0} Unit × Desk R
  started s (returned id) = (returned tt, record s { drains = start_once id s.drains })
  started s (threw e) = (threw e, s)

  -- The start of the drain.
  abbrev pub start_step : ConversationEnqueue → Run (Desk R) (Unit {0})
  start_step item = effect (λ s. started s (drain_workflow_id item.message_id))

  -- The guarded update of one row.
  abbrev pub mark_step : (List R → Bool × List R) → Run (Desk R) Bool
  mark_step mark = effect (λ s. (returned (mark s.table).0, record s { table = (mark s.table).1 }))

  module _ {A : Type 0} (to_item : A → ConversationEnqueue)
      (mark : A → List R → Bool × List R) where
    unfoldable pub fire : A → Run (Desk R) Bool
    unfolding insert_step
    fire a = do _ ← insert_step (to_item a); _ ← start_step (to_item a); mark_step (mark a)

    -- The loop of the sweep.
    unfoldable pub fire_all : List A → Run (Desk R) (Unit {0})
    unfolding fire
    fire_all [] = pure tt
    fire_all (a ∷ rest) = do _ ← fire a; fire_all rest

    -- The sweep, with the query that finds the rows.
    unfoldable pub sweep : (List R → List A) → Run (Desk R) ℕ
    unfolding fire_all
    sweep find_rows = do
      found ← effect (λ s. (returned (find_rows s.table), s))
      _ ← fire_all found
      pure (length found)
