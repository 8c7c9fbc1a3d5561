-- ===== src/Hitl/Resolve.antt =====
-- src/hitl/resolve-approval.ts: a decision on a parked action, by a quoted reply or by a classified
-- message. Each body runs in one database transaction (src/orchestration/steps.ts), so a throw
-- leaves the table as it was; what a tool has done to the world `W` stays done.
pub mod Decision
pub mod Refines
use ezra.Common.{
  String, Bool, true, false, not, Option, none, some, str_eq, if◌then◌else◌, Attempt, returned,
  threw, slice_to, find,
}
use ezra.Hitl.Value.{Value, ToolCall, parse_call}
use ezra.Hitl.Table.{
  Status, PendingAction, Table, mark_approved, mark_denied, mark_stale, return_to_pending,
  claim_for_execution, ClaimedAction, current_status, get_pending_action,
  get_action_by_prompt_message_id,
}
use ezra.Hitl.Binding.{ApprovalReply, TextOps, interpret_approval_reply}
use ezra.Hitl.Binding
use ezra.Tools.{
  IdContext, ToolDefinition, ToolRegistry, Parsed, success, failure, get_tool, apply_id,
}

pub data ApprovalDecision : Type 0 where
  approve deny : ApprovalDecision

pub data ApprovalOutcome : Type 0 where
  unbound : ApprovalOutcome
  unclear : String → ApprovalOutcome
  executed : String → String → String → ApprovalOutcome
  denied : String → String → ApprovalOutcome
  stale : String → String → ApprovalOutcome
  failed : String → String → String → ApprovalOutcome
  already_resolved : String → Status → ApprovalOutcome

-- `call.success ? call.data.name : 'unknown'`
abbrev pub call_name : Option ToolCall → String
call_name none = "unknown"
call_name (some c) = c.name

-- The `already-resolved` answer; a row that is not there makes `rows[0]!.status` throw.
unfoldable pub already_settled : String → Table → Attempt ApprovalOutcome
already_settled id t = elim (current_status id t) [
  | none ↦ threw "Cannot read properties of undefined (reading 'status')"
  | some s ↦ returned (already_resolved id s)
]

abbrev pub Settled : Type 0 → Type 0
Settled W = Attempt ApprovalOutcome × Table × W

-- The stored call, its tool and its parsed arguments, if the call is still good.
pub record Resolved (W : Type 0) : Type 0 where
  pub call : ToolCall
  pub def : ToolDefinition W
  pub args : Value

abbrev resolve_args : {W : Type 0} → ToolCall → ToolDefinition W → Parsed → Option (Resolved W)
resolve_args call def (success args) = some (record { call = call; def = def; args = args })
resolve_args call def (failure issues) = none

module _ {W : Type 0} (reg : ToolRegistry W) where
  unfoldable pub resolve_call : Option ToolCall → Option (Resolved W)
  resolve_call none = none
  resolve_call (some call) = elim (get_tool call.name reg) [
    | none ↦ none
    | some def ↦ resolve_args call def (def.schema call.args)
  ]

module _ {W : Type 0} where
  -- `def.revalidate`, which holds where the tool has none.
  unfoldable pub still_valid : Resolved W → IdContext → Option String → W → Attempt Bool × W
  still_valid r ctx external w = elim r.def.revalidate [
    | none ↦ (returned true, w)
    | some check ↦ check r.args ctx external w
  ]

  -- The `catch`: the row goes back to pending.
  unfoldable pub fold_failure : PendingAction → Resolved W → String → Table → W → Settled W
  fold_failure action r message t w = (
    returned (failed action.action_id r.call.name (slice_to 200 message)),
    (return_to_pending action.action_id t).1,
    w,
  )

  -- What the call of `def.execute` comes to.
  unfoldable pub take_answer : PendingAction → Resolved W → Table → Attempt String × W → Settled W
  take_answer action r t (returned result, w) =
      (returned (executed action.action_id r.call.name result), t, w)
  take_answer action r t (threw message, w) = fold_failure action r message t w

  -- A lost claim answers `already-resolved`; a throw there is caught as well.
  unfoldable pub lost_claim : PendingAction → Resolved W → Table → W → Settled W
  lost_claim action r t w = elim (already_settled action.action_id t) [
    | returned outcome ↦ (returned outcome, t, w)
    | threw message ↦ fold_failure action r message t w
  ]

  unfoldable pub take_claim :
      PendingAction
      → Resolved W
      → IdContext
      → Option String
      → W
      → Option ClaimedAction × Table
      → Settled W
  take_claim action r ctx external w (none, t) = lost_claim action r t w
  take_claim action r ctx external w (some _, t) =
      take_answer action r t (r.def.execute r.args ctx external w)

  -- What the call of `def.revalidate` comes to.
  unfoldable pub take_verdict :
      PendingAction → Resolved W → IdContext → Option String → Table → Attempt Bool × W → Settled W
  take_verdict action r ctx external t (threw message, w) = fold_failure action r message t w
  take_verdict action r ctx external t (returned false, w) =
      (returned (stale action.action_id r.call.name), (mark_stale action.action_id t).1, w)
  take_verdict action r ctx external t (returned true, w) =
      take_claim action r ctx external w (claim_for_execution action.action_id t)

  -- The `try` block.
  unfoldable pub run_approved : PendingAction → Resolved W → Table → W → Settled W
  run_approved action r t w =
      let ctx : IdContext = record {
        action_id = action.action_id;
        conversation_id = action.conversation_id;
        tool_use_id = r.call.id;
      } in
      let external = apply_id r.def.external_id ctx in
      take_verdict action r ctx external t (still_valid r ctx external w)

  -- The rest of an approval that has flipped the row; a call that is no longer good goes stale.
  unfoldable pub take_call : PendingAction → Option (Resolved W) → Table → W → Settled W
  take_call action none t w = (
    returned (stale action.action_id (call_name (parse_call action.tool_call))),
    (mark_stale action.action_id t).1,
    w,
  )
  take_call action (some r) t w = run_approved action r t w

  -- What the flip to `approved` comes to.
  module _ (reg : ToolRegistry W) where
    unfoldable pub settle_approved : PendingAction → Bool × Table → W → Settled W
    settle_approved action (true, t) w =
        take_call action (resolve_call reg (parse_call action.tool_call)) t w
    settle_approved action (false, t) w = (already_settled action.action_id t, t, w)

    unfoldable pub settle_denied : PendingAction → Bool × Table → W → Settled W
    settle_denied action (true, t) w =
        (returned (denied action.action_id (call_name (parse_call action.tool_call))), t, w)
    settle_denied action (false, t) w = (already_settled action.action_id t, t, w)

    unfoldable pub settle_decision : PendingAction → ApprovalDecision → Table → W → Settled W
    settle_decision action deny t w = settle_denied action (mark_denied action.action_id t) w
    settle_decision action approve t w = settle_approved action (mark_approved action.action_id t) w

    -- What `interpretApprovalReply` comes to.
    unfoldable pub take_reply : PendingAction → Table → W → ApprovalReply → Settled W
    take_reply action t w ApprovalReply.unclear = (returned (unclear action.action_id), t, w)
    take_reply action t w ApprovalReply.approve = settle_decision action approve t w
    take_reply action t w ApprovalReply.deny = settle_decision action deny t w

    unfoldable pub take_quoted : TextOps → String → Table → W → Option PendingAction → Settled W
    take_quoted ops text t w none = (returned unbound, t, w)
    take_quoted ops text t w (some action) =
        take_reply action t w (interpret_approval_reply ops text)

    -- `makeResolveApprovalReply`
    unfoldable pub resolve_approval_reply :
        TextOps → String → String → String → Table → W → Settled W
    resolve_approval_reply ops conversation quoted text t w =
        take_quoted ops text t w (get_action_by_prompt_message_id conversation quoted t)

    unfoldable pub take_named :
        String → ApprovalDecision → Table → W → Option PendingAction → Settled W
    take_named conversation decision t w none = (returned unbound, t, w)
    take_named conversation decision t w (some action) =
        if str_eq action.conversation_id conversation
        then settle_decision action decision t w
        else (returned unbound, t, w)

    -- `makeResolveClassifiedDecision`
    unfoldable pub resolve_classified_decision :
        String → String → ApprovalDecision → Table → W → Settled W
    resolve_classified_decision conversation id decision t w =
        take_named conversation decision t w (get_pending_action id t)

-- The transaction around a body: what was written is kept only if the body returns.
unfoldable pub transaction : {W : Type 0} → Settled W → Table → Settled W
transaction (returned o, t', w') t = (returned o, t', w')
transaction (threw e, t', w') t = (threw e, t, w')
