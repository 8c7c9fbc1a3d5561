-- ===== src/Hitl/Table.antt =====
-- The rows of `pending_actions`: the statements of src/memory/store.ts on that table and the guarded
-- status transitions of src/hitl/pending-actions.ts. A table is the list of its rows in insertion
-- order, times are epoch milliseconds.
pub mod Guards
pub mod Updates
use text.Mathlib.Text.{is_le}
use Prim.Native.String.{compare}
use ezra.Common.{
  ℕ, String, Bool, true, false, ◌&&◌, ◌||◌, not, Option, none, some, List, [], ◌∷◌, ◌++◌, str_eq,
  if◌then◌else◌, any, select, find, update_where, leb, ltb, ◌==◌,
}
use ezra.Common.Sorting.{sort}
use ezra.Hitl.Value.{Value}

pub data Status : Type 0 where
  pending approved denied executed expired stale : Status

pub record PendingAction : Type 0 where
  pub action_id : String
  pub conversation_id : String
  pub tool_call : Value
  pub status : Status
  pub created_at : ℕ
  pub expires_at : ℕ
  pub prompt_message_id : Option String

abbrev pub Table : Type 0
Table = List PendingAction

-- A status as the column holds it.
abbrev pub status_text : Status → String
status_text pending = "pending"
status_text approved = "approved"
status_text denied = "denied"
status_text executed = "executed"
status_text expired = "expired"
status_text stale = "stale"

abbrev pub is_pending : Status → Bool
is_pending pending = true
is_pending _ = false

abbrev pub is_approved : Status → Bool
is_approved approved = true
is_approved _ = false

abbrev pub is_claimed : Status → Bool
is_claimed approved = true
is_claimed executed = true
is_claimed _ = false

-- `WHERE action_id = $1`
abbrev pub has_id : String → PendingAction → Bool
has_id id r = str_eq r.action_id id

-- `WHERE action_id = $1 AND status …`
abbrev pub has_id_in : (Status → Bool) → String → PendingAction → Bool
has_id_in guard id r = has_id id r && guard r.status

abbrev pub with_status : Status → PendingAction → PendingAction
with_status to r = record r { status = to }

-- `UPDATE … SET status = to WHERE action_id = id AND guard RETURNING action_id`, and whether a row
-- came back.
unfoldable pub flip_status : (Status → Bool) → Status → String → Table → Bool × Table
flip_status guard to id t =
    (any (has_id_in guard id) t, update_where (has_id_in guard id) (with_status to) t)

unfoldable pub mark_approved : String → Table → Bool × Table
mark_approved = flip_status is_pending approved

unfoldable pub mark_denied : String → Table → Bool × Table
mark_denied = flip_status is_pending denied

unfoldable pub mark_stale : String → Table → Bool × Table
mark_stale = flip_status is_approved stale

unfoldable pub mark_expired : String → Table → Bool × Table
mark_expired = flip_status is_pending expired

unfoldable pub return_to_pending : String → Table → Bool × Table
return_to_pending = flip_status is_claimed pending

unfoldable pub get_pending_action : String → Table → Option PendingAction
get_pending_action id t = find (has_id id) t

pub record ClaimedAction : Type 0 where
  pub action_id : String
  pub tool_call : Value

abbrev pub claim_of : Option PendingAction → Option ClaimedAction
claim_of none = none
claim_of (some r) = some (record { action_id = r.action_id; tool_call = r.tool_call })

-- The statement returns the row that it flipped.
unfoldable pub claim_for_execution : String → Table → Option ClaimedAction × Table
claim_for_execution id t = (
  claim_of (find (has_id_in is_approved id) t),
  update_where (has_id_in is_approved id) (with_status executed) t,
)

-- The status of the row, if it is there.
unfoldable pub current_status : String → Table → Option Status
current_status id t = elim (find (has_id id) t) [ none ↦ none | some r ↦ some r.status ]

-- The columns of an insert, with the defaults of the table.
abbrev pub new_action : String → String → Value → ℕ → ℕ → PendingAction
new_action id conversation call now expires = record {
  action_id = id;
  conversation_id = conversation;
  tool_call = call;
  status = pending;
  created_at = now;
  expires_at = expires;
  prompt_message_id = none;
}

-- The primary key refuses a second row under one id.
unfoldable pub create_pending_action : String → String → Value → ℕ → ℕ → Table → Option Table
create_pending_action id conversation call now expires t =
    if any (has_id id) t then none else some (t ++ new_action id conversation call now expires ∷ [])

abbrev pub stamped : String → PendingAction → PendingAction
stamped message r = record r { prompt_message_id = some message }

unfoldable pub set_prompt_message_id : String → String → Table → Bool × Table
set_prompt_message_id id message t =
    (any (has_id id) t, update_where (has_id id) (stamped message) t)

-- `prompt_message_id = $2` is not true of a null.
abbrev pub is_prompt : String → Option String → Bool
is_prompt message none = false
is_prompt message (some m) = str_eq m message

unfoldable pub get_action_by_prompt_message_id : String → String → Table → Option PendingAction
get_action_by_prompt_message_id conversation message t =
    find (λ r. str_eq r.conversation_id conversation && is_prompt message r.prompt_message_id) t

-- Ties are broken by the id, in code point order.
abbrev pub sooner : (PendingAction → ℕ) → PendingAction → PendingAction → Bool
sooner time a b =
    ltb (time a) (time b) || (time a == time b && is_le (compare a.action_id b.action_id))

unfoldable pub get_overdue_pending_actions : ℕ → Table → List PendingAction
get_overdue_pending_actions as_of t =
    sort (sooner (λ r. r.expires_at))
      (select (λ r. is_pending r.status && leb r.expires_at as_of) t)

unfoldable pub get_pending_actions_for_conversation : String → Table → List PendingAction
get_pending_actions_for_conversation conversation t =
    sort (sooner (λ r. r.created_at))
      (select (λ r. str_eq r.conversation_id conversation && is_pending r.status) t)
