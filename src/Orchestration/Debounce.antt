-- ===== src/Orchestration/Debounce.antt =====
-- `groupIntoBatches` of src/orchestration/debounce.ts over the inbox rows of src/memory/store.ts.
pub mod Batches
use ezra.Common.{
  ℕ, String, Bool, true, false, ◌&&◌, Option, none, some, List, [], ◌∷◌, ◌++◌, str_eq,
  if◌then◌else◌,
}
use ezra.Common.Sorting.{sort}
use ezra.Common.Sorting.Keys.{by_key}
use ezra.Transport.SendClass.{InboxKind, human, proactive}

pub record InboxItem : Type 0 where
  pub seq : ℕ
  pub conversation_id : String
  pub kind : InboxKind
  pub sender_id : String
  pub message_id : String
  pub payload : String

abbrev pub is_human : InboxKind → Bool
is_human human = true
is_human proactive = false

-- `current[current.length - 1]`
abbrev pub last : List InboxItem → Option InboxItem
last [] = none
last (x ∷ []) = some x
last (x ∷ y ∷ xs) = last (y ∷ xs)

abbrev pub follows : InboxItem → InboxItem → Bool
follows previous item =
    is_human previous.kind && (is_human item.kind && str_eq previous.sender_id item.sender_id)

unfoldable pub continues_run : Option InboxItem → InboxItem → Bool
continues_run none item = false
continues_run (some previous) item = follows previous item

-- `if (current.length > 0) batches.push(current)`
unfoldable pub push_batch : List (List InboxItem) → List InboxItem → List (List InboxItem)
push_batch batches [] = batches
push_batch batches (x ∷ xs) = batches ++ (x ∷ xs) ∷ []

-- The loop, with the batches so far and the open one.
unfoldable pub group_loop :
    List (List InboxItem) → List InboxItem → List InboxItem → List (List InboxItem)
unfolding continues_run push_batch
group_loop batches current [] = push_batch batches current
group_loop batches current (item ∷ items) =
    let joined = group_loop batches (current ++ item ∷ []) items in
    let split = group_loop (push_batch batches current) (item ∷ []) items in
    if continues_run (last current) item then joined else split

unfoldable pub group_into_batches : List InboxItem → List (List InboxItem)
unfolding group_loop
group_into_batches items = group_loop [] [] (sort (by_key (λ i. i.seq)) items)
