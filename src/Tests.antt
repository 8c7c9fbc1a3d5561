-- ===== src/Tests.antt =====
-- The theorems at work on a small household.
pub mod Data
pub mod Turns
pub mod Monitors
pub mod Conversations
pub mod Sockets
pub mod Connections
pub mod Settings
pub mod Consoles
use ezra.Common.{
  ℕ, zero, suc, ◌+◌, ◌*◌, ◌≤◌, ◌-◌, String, Bool, true, false, not, ◌&&◌, ◌||◌, Option, none, some,
  List, [], ◌∷◌, ◌++◌, str_eq, if◌then◌else◌, length, Attempt, returned, threw, ◌≡◌, refl, ◌⊎◌, inl,
  inr, ◌↔◌, ◌≢◌, arith, eq_iff,
}
use mathlib.Core.List.{Memᴰ}
use ezra.Tests.Data.{
  book, tools, call, action, table, plain_text, shown, reply, net, takes_all, down, quick, letter,
}
use ezra.Hitl.Value.{
  as_record, has, Value, obj, field, end, str, undefined, get, has, spread, parse_call, to_value,
}
use ezra.Hitl.Value.Laws.{get-spread, parse_call-to_value, IsRecord}
use ezra.Hitl.Table.{get_pending_action, pending, create_pending_action}
use ezra.Hitl.Table.Guards.{IsKeyed}
use ezra.Hitl.Binding
use ezra.Hitl.Binding.{interpret_approval_reply, listed, approve_replies, deny_replies, normalize}
use ezra.Hitl.Binding.Words.{approve_iff, deny_iff}
use ezra.Hitl.Resolve.{approve, deny, settle_decision}
use ezra.Hitl.Resolve.Decision.{decision}
use ezra.Hitl.Resolve.Refines.{Does, settle_decision-Does}
use ezra.Hitl.Refine.{refine_action}
use ezra.Hitl.Refine.Effect.{Bound, Overlaid, refine_action-Effect}
use ezra.Hitl.History.{Event, replies, decides, expires, run}
use ezra.Hitl.History.Spending.{is_open, room}
use ezra.Hitl.History.Once.{total, run-executes_once}
use ezra.Tools.{run_tool, park, get_tool, make_tool_registry, add_tools}
use ezra.Tools.Laws.{run_tool-Answers, run_tool_never_executes, make_tool_registry-finds, Answers}
use ezra.Transport.SendClass.{
  is_unroutable_destination, is_permanent_send_error, is_transient_send_error,
  unroutable_destination_error,
}
use ezra.Transport.SendClass.Routes.{IsJid, unroutable_iff, permanent-not-transient}
use ezra.Transport.Resilient.{resilient_send}
use ezra.Transport.Resilient.Budget.{Ends, resilient_send-Ends}
use ezra.Transport.Deliver.{replays, send_dead_letter, dead_letter_line, Notices}
use ezra.Transport.Deliver.Once.{unclaimed, replays-at_most_once}
use ezra.Transport.Deliver.Loud.{Loud, send_dead_letter-private, with_text}

keyed : IsKeyed table
unfolding get_pending_action
keyed = (refl, tt)

found : get_pending_action action.action_id table ≡ some action
unfolding get_pending_action
found = refl

abbrev evening : List Event
evening = decides "c" "act-c-t1" approve ∷ decides "c" "act-c-t1" approve ∷ expires "act-c-t1" ∷ []

run-executes_once_example :
    total "act-c-t1" (run plain_text shown tools evening table 0).0
      + room
          (is_open (get_pending_action "act-c-t1" (run plain_text shown tools evening table 0).1))
    ≤ room (is_open (get_pending_action "act-c-t1" table))
run-executes_once_example =
    run-executes_once plain_text shown tools "act-c-t1" evening table 0 keyed

settle_decision-Does_example :
    Does action table
      (settle_decision tools action approve table 0)
      (decision tools action approve 0)
settle_decision-Does_example = settle_decision-Does action tools table 0 keyed found approve

refine_action-Effect_example :
    Bound
      (Overlaid (obj (field "seats" (str "3") end)))
      shown
      tools
      action
      (obj (field "seats" (str "3") end))
      table
      (str_eq "c" "c")
      (refine_action shown tools "c" action.action_id (obj (field "seats" (str "3") end)) table)
unfolding as_record has
refine_action-Effect_example =
    refine_action-Effect shown tools action (obj (field "seats" (str "3") end)) table (refl, tt)
      keyed found "c"

replays-at_most_once_example :
    let s' = replays takes_all reply (1 ∷ 3 ∷ 3 ∷ []) net in
    length s'.wire + unclaimed "send-m1" s'.log ≤ length net.wire + unclaimed "send-m1" net.log
replays-at_most_once_example = replays-at_most_once takes_all reply (1 ∷ 3 ∷ 3 ∷ []) net refl

resilient_send-Ends_example :
    Ends quick down (λ a d e m w. w + 1) 0 (resilient_send quick down (λ a d e m w. w + 1) 0)
resilient_send-Ends_example =
    resilient_send-Ends quick down (λ a d e m w. w + 1)
      (record {
        base_positive = omega arith;
        base_capped = omega arith;
        rate_positive = omega arith;
      })
      0

unequal : (a b : String) → str_eq a b ≡ false → a ≢ b
unequal a b h e = ground (arith, eq_iff a b)

run_tool-Answers_example : Answers tools 1 5 call "c" [] 0 (run_tool tools (park 1 5) call "c" [] 0)
run_tool-Answers_example = run_tool-Answers tools 1 5 call "c" [] 0
