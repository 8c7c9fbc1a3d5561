-- ===== src/Hitl/Resolve/Decision.antt =====
-- What a decision means for one row, with no table: the outcome, the status the row is left in, and
-- what happens to the world.
use ezra.Common.{
  String, Bool, true, false, Option, none, some, if◌then◌else◌, Attempt, returned, threw, slice_to,
}
use ezra.Hitl.Value.{parse_call}
use ezra.Hitl.Table.{Status, PendingAction, is_pending, pending}
use ezra.Hitl.Table
use ezra.Tools.{IdContext, ToolRegistry, apply_id}
use ezra.Hitl.Resolve.{
  ApprovalDecision, ApprovalOutcome, approve, deny, executed, denied, stale, failed,
  already_resolved, call_name, Resolved, resolve_call, still_valid,
}

-- The status in which an outcome leaves the row.
abbrev pub status_after : Status → ApprovalOutcome → Status
status_after before (executed _ _ _) = Table.executed
status_after before (denied _ _) = Table.denied
status_after before (stale _ _) = Table.stale
status_after before (failed _ _ _) = Table.pending
status_after before _ = before

module _ {W : Type 0} where
  abbrev pub context_of : PendingAction → Resolved W → IdContext
  context_of a r = record {
    action_id = a.action_id;
    conversation_id = a.conversation_id;
    tool_use_id = r.call.id;
  }

  abbrev pub answered : PendingAction → Resolved W → Attempt String × W → ApprovalOutcome × W
  answered a r (returned result, w) = (executed a.action_id r.call.name result, w)
  answered a r (threw e, w) = (failed a.action_id r.call.name (slice_to 200 e), w)

  abbrev pub checked : PendingAction → Resolved W → Attempt Bool × W → ApprovalOutcome × W
  checked a r (threw e, w) = (failed a.action_id r.call.name (slice_to 200 e), w)
  checked a r (returned false, w) = (stale a.action_id r.call.name, w)
  checked a r (returned true, w) =
      answered a r
        (r.def.execute r.args (context_of a r) (apply_id r.def.external_id (context_of a r)) w)

  abbrev pub approved_call : PendingAction → Option (Resolved W) → W → ApprovalOutcome × W
  approved_call a none w = (stale a.action_id (call_name (parse_call a.tool_call)), w)
  approved_call a (some r) w =
      checked a r (still_valid r (context_of a r) (apply_id r.def.external_id (context_of a r)) w)

  module _ (reg : ToolRegistry W) where
    abbrev pub decided : PendingAction → ApprovalDecision → W → ApprovalOutcome × W
    decided a deny w = (denied a.action_id (call_name (parse_call a.tool_call)), w)
    decided a approve w = approved_call a (resolve_call reg (parse_call a.tool_call)) w

    unfoldable pub decision : PendingAction → ApprovalDecision → W → ApprovalOutcome × W
    decision a d w =
        if is_pending a.status then decided a d w else (already_resolved a.action_id a.status, w)
