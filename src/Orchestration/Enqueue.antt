-- ===== src/Orchestration/Enqueue.antt =====
-- The enqueue of src/orchestration/queue.ts: the inbox row, then the drain of its message. A table
-- row stays after it was processed, so the message id keeps refusing a second one. Starting a
-- workflow is an effect of the runtime, a function `start` of the workflow's id and partition.
use ezra.Common.{
  ℕ, String, Bool, true, false, List, [], ◌∷◌, ◌++◌, str_eq, if◌then◌else◌, any, any-snoc, Attempt,
  returned, threw, concat, ◌≡◌, refl, eq_refl, ap, ◌∙◌, Bool-cases, inl, inr,
}
use ezra.Transport.SendClass.{InboxKind}
use ezra.Orchestration.Debounce.{InboxItem}

pub record ConversationEnqueue : Type 0 where
  pub conversation_id : String
  pub kind : InboxKind
  pub sender_id : String
  pub message_id : String
  pub payload : String

unfoldable pub drain_workflow_id : String → Attempt String
drain_workflow_id message =
    if str_eq message ""
    then threw "drainWorkflowId: message id must be non-empty"
    else returned (concat ("drain-" ∷ message ∷ []))

abbrev pub row_of : ℕ → ConversationEnqueue → InboxItem
row_of seq item = record {
  seq = seq;
  conversation_id = item.conversation_id;
  kind = item.kind;
  sender_id = item.sender_id;
  message_id = item.message_id;
  payload = item.payload;
}

-- `ON CONFLICT (message_id) DO NOTHING`; `seq` is the next value of the serial.
unfoldable pub insert_inbox_item : ℕ → ConversationEnqueue → List InboxItem → Bool × List InboxItem
insert_inbox_item seq item rows =
    if any (λ r. str_eq r.message_id item.message_id) rows
    then (false, rows)
    else (true, rows ++ row_of seq item ∷ [])

module _ {W : Type 0} (start : String → String → W → W) where
  abbrev started : ConversationEnqueue → Attempt String → W → Attempt (Unit {0}) × W
  started item (returned id) w = (returned tt, start id item.conversation_id w)
  started item (threw e) w = (threw e, w)

  -- `makeConversationEnqueueWorkflow`
  unfoldable pub enqueue_conversation_item :
      ℕ → ConversationEnqueue → List InboxItem → W → Attempt (Unit {0}) × List InboxItem × W
  unfolding insert_inbox_item drain_workflow_id
  enqueue_conversation_item seq item rows w =
      let (answer, w') = started item (drain_workflow_id item.message_id) w in
      (answer, (insert_inbox_item seq item rows).1, w')

pub insert-there :
    (seq : ℕ) (item : ConversationEnqueue) (rows : List InboxItem)
    → any (λ r. str_eq r.message_id item.message_id) (insert_inbox_item seq item rows).1 ≡ true
unfolding insert_inbox_item
insert-there seq item rows =
    elim (Bool-cases (any (λ r. str_eq r.message_id item.message_id) rows)) [
      | inl h ↦ rw (h, h) refl
      | inr h ↦ rw h (
          any-snoc (λ r. str_eq r.message_id item.message_id) rows (row_of seq item)
            (inr (eq_refl item.message_id)))
    ]

insert-known :
    (seq : ℕ) (item : ConversationEnqueue) (rows : List InboxItem)
    → any (λ r. str_eq r.message_id item.message_id) rows ≡ true
    → insert_inbox_item seq item rows ≡ (false, rows)
unfolding insert_inbox_item
insert-known seq item rows h = rw h refl

-- A redelivered message, under whatever serial value and whatever else it carries, adds no second
-- row: after one insert under a message id, another one under it writes nothing.
pub insert_inbox_item-again :
    (seq seq' : ℕ) (item item' : ConversationEnqueue) (rows : List InboxItem)
    → item'.message_id ≡ item.message_id
    → insert_inbox_item seq' item' (insert_inbox_item seq item rows).1
      ≡ (false, (insert_inbox_item seq item rows).1)
insert_inbox_item-again seq seq' item item' rows e =
    insert-known seq' item' (insert_inbox_item seq item rows).1 (
      ap (λ m. any (λ (r : InboxItem). str_eq r.message_id m) (insert_inbox_item seq item rows).1) e
      ∙ insert-there seq item rows)
