-- ===== src/Orchestration/Drain.antt =====
-- `makeDrainWorkflow` of src/orchestration/queue.ts over the inbox statements of src/memory/store.ts.
-- Time passes in a sleep and while a batch is processed; what arrives then is the next list of
-- `later`. A batch whose processing rejects ends the drain, the workflow rejecting in its turn.
pub mod Counts
pub mod Quiet
pub mod Once
use ezra.Common.{
  ℕ, zero, suc, ◌+◌, Bool, true, false, not, ◌||◌, Option, none, some, List, [], ◌∷◌, ◌++◌, map,
  any, select, length, ltb, leb, ◌==◌, if◌then◌else◌, Attempt, returned, threw, String,
}
use ezra.Common.Sorting.{sort}
use ezra.Common.Sorting.Keys.{by_key}
use ezra.Orchestration.Debounce.{InboxItem, group_into_batches}

-- The unprocessed rows of the conversation, what will still arrive, and the batches processed.
pub record Lane : Type 0 where
  pub rows : List InboxItem
  pub later : List (List InboxItem)
  pub processed : List (List InboxItem)

abbrev pub let_pass_as : List InboxItem → List (List InboxItem) → Lane → Lane
let_pass_as rows [] l = l
let_pass_as rows (new ∷ later) l = record l { rows = rows ++ new; later = later }

-- How many items are there or will arrive.
abbrev pub total_length : List (List InboxItem) → ℕ
total_length [] = 0
total_length (xs ∷ xss) = length xs + total_length xss

abbrev pub load : Lane → ℕ
load l = length l.rows + total_length l.later

-- Time passes.
abbrev pub let_pass : Lane → Lane
let_pass l = let_pass_as l.rows l.later l

-- `getPendingInbox`
unfoldable pub get_pending_inbox : Lane → List InboxItem
get_pending_inbox l = sort (by_key (λ i. i.seq)) l.rows

-- `markInboxProcessed`
unfoldable pub mark_inbox_processed : List ℕ → Lane → Lane
mark_inbox_processed seqs l = record l {
  rows = select (λ r. not (any (λ s. s == r.seq) seqs)) l.rows;
}

-- The turn of a batch takes its time, also one that rejects.
abbrev pub process_batch : Option String → List InboxItem → Lane → Attempt (Unit {0}) × Lane
process_batch none batch l =
    (returned tt, let_pass (record l { processed = l.processed ++ batch ∷ [] }))
process_batch (some error) batch l = (threw error, let_pass l)

-- The rest of the loop over the batches.
abbrev pub unless_rejected :
    (Lane → Attempt (Unit {0}) × Lane) → Attempt (Unit {0}) × Lane → Attempt (Unit {0}) × Lane
unless_rejected rest (returned u, l) = rest l
unless_rejected rest (threw e, l) = (threw e, l)

-- How the processing of a batch ends, which may be with an error, is a function `rejects` of the batch
-- and of those processed before.
module _ (rejects : List InboxItem → List (List InboxItem) → Option String) where
  unfoldable pub process_batches : List (List InboxItem) → Lane → Attempt (Unit {0}) × Lane
  unfolding mark_inbox_processed
  process_batches [] l = (returned tt, l)
  process_batches (b ∷ bs) l =
      unless_rejected (λ l'. process_batches bs (mark_inbox_processed (map (λ i. i.seq) b) l'))
        (process_batch (rejects b l.processed) b l)

module _ (silence_window_ms max_quiet_wait_ms : ℕ) where
  -- The silence window, from what was pending. Something arrives in every round but the last.
  unfoldable pub wait_quiet : ℕ → ℕ → List InboxItem → Lane → Option Lane
  unfolding get_pending_inbox
  wait_quiet zero waited pending l = none
  wait_quiet (suc fuel) waited pending l =
      let l' = let_pass l in
      let next = get_pending_inbox l' in
      let rest = wait_quiet fuel (waited + silence_window_ms) next l' in
      if not (ltb (length pending) (length next))
        || leb max_quiet_wait_ms (waited + silence_window_ms)
      then some l'
      else rest

  module _ (rejects : List InboxItem → List (List InboxItem) → Option String) where
    -- After the batches of a round; `again` is the next round.
    unfoldable pub take_processed :
        (ℕ → Lane → Option (Attempt ℕ × Lane))
        → ℕ
        → Attempt (Unit {0}) × Lane
        → Option (Attempt ℕ × Lane)
    take_processed again count (returned u, l) = again count l
    take_processed again count (threw e, l) = some (threw e, l)

    -- The rest of a round after the silence window.
    unfoldable pub take_quiet :
        (ℕ → Lane → Option (Attempt ℕ × Lane)) → ℕ → Option Lane → Option (Attempt ℕ × Lane)
    unfolding take_processed process_batches
    take_quiet again count none = none
    take_quiet again count (some l) =
        let batches = group_into_batches (get_pending_inbox l) in
        take_processed again (count + length batches) (process_batches rejects batches l)

    unfoldable pub take_pending :
        (ℕ → Lane → Option (Attempt ℕ × Lane))
        → ℕ
        → Lane
        → List InboxItem
        → Option (Attempt ℕ × Lane)
    unfolding take_quiet wait_quiet
    take_pending again count l [] = some (returned count, l)
    take_pending again count l (p ∷ ps) =
        take_quiet again count (wait_quiet (suc (length l.later)) 0 (p ∷ ps) l)

    -- The loop, with the batches processed so far.
    unfoldable pub drain_loop : ℕ → ℕ → Lane → Option (Attempt ℕ × Lane)
    unfolding take_pending
    drain_loop zero count l = none
    drain_loop (suc fuel) count l =
        take_pending (λ count' l'. drain_loop fuel count' l') count l (get_pending_inbox l)

    -- One round for every item that is there or will arrive, at most, and one that finds nothing.
    unfoldable pub drain : Lane → Option (Attempt ℕ × Lane)
    unfolding drain_loop
    drain l = drain_loop (suc (load l)) 0 l
