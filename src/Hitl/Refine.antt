-- ===== src/Hitl/Refine.antt =====
-- src/hitl/refine-action.ts: a change of a pending proposal's arguments. `stringify` is
-- `JSON.stringify`.
pub mod Effect
use ezra.Common.{
  String, Bool, true, false, Option, none, some, str_eq, if◌then◌else◌, any, update_where, Attempt,
  returned, threw,
}
use ezra.Hitl.Value.{Value, obj, ToolCall, parse_call, to_value, spread, as_record}
use ezra.Hitl.Table.{
  Status, PendingAction, Table, is_pending, has_id_in, get_pending_action, current_status,
}
use ezra.Tools.{ToolDefinition, ToolRegistry, Parsed, success, failure, get_tool}

pub data RefineOutcome : Type 0 where
  unbound : RefineOutcome
  invalid : String → String → RefineOutcome
  refined : String → String → String → RefineOutcome
  already_resolved : String → Status → RefineOutcome

-- `SET tool_call = …, prompt_message_id = NULL`
abbrev pub with_call : ToolCall → PendingAction → PendingAction
with_call call r = record r { tool_call = to_value call; prompt_message_id = none }

-- The guarded update of the row, and whether a row came back.
unfoldable pub rewrite_call : ToolCall → String → Table → Bool × Table
rewrite_call call id t =
    (any (has_id_in is_pending id) t, update_where (has_id_in is_pending id) (with_call call) t)

-- The answer of an update that found no pending row.
unfoldable pub refused : String → Table → Attempt RefineOutcome
refused id t = elim (current_status id t) [
  | none ↦ threw "Cannot read properties of undefined (reading 'status')"
  | some s ↦ returned (already_resolved id s)
]

-- The stored arguments under the patch.
unfoldable pub merged : ToolCall → Value → Value
merged call patch = obj (spread (as_record call.args) (as_record patch))

module _ (stringify : Value → String) where
  unfoldable pub take_rewrite :
      PendingAction → ToolCall → Bool × Table → Attempt RefineOutcome × Table
  take_rewrite action call (true, t) =
      (returned (refined action.action_id call.name (stringify call.args)), t)
  take_rewrite action call (false, t) = (refused action.action_id t, t)

  -- What `def.schema.safeParse(merged)` comes to.
  unfoldable pub take_args :
      PendingAction → ToolCall → Table → Parsed → Attempt RefineOutcome × Table
  take_args action call t (failure issues) = (returned (invalid action.action_id call.name), t)
  take_args action call t (success args) =
      let updated : ToolCall = record { id = call.id; name = call.name; args = args } in
      take_rewrite action updated (rewrite_call updated action.action_id t)

  module _ {W : Type 0} where
    -- What `registry.get(call.data.name)` comes to.
    unfoldable pub take_tool :
        PendingAction
        → ToolCall
        → Value
        → Table
        → Option (ToolDefinition W)
        → Attempt RefineOutcome × Table
    take_tool action call patch t none = (returned (invalid action.action_id call.name), t)
    take_tool action call patch t (some def) =
        take_args action call t (def.schema (merged call patch))

    module _ (reg : ToolRegistry W) where
      unfoldable pub refine_call :
          PendingAction → Option ToolCall → Value → Table → Attempt RefineOutcome × Table
      refine_call action none patch t = (returned (invalid action.action_id "unknown"), t)
      refine_call action (some call) patch t =
          take_tool action call patch t (get_tool call.name reg)

      unfoldable pub take_row :
          String → Value → Table → Option PendingAction → Attempt RefineOutcome × Table
      take_row conversation patch t none = (returned unbound, t)
      take_row conversation patch t (some action) =
          if str_eq action.conversation_id conversation
          then refine_call action (parse_call action.tool_call) patch t
          else (returned unbound, t)

      -- `makeRefineAction`
      unfoldable pub refine_action : String → String → Value → Table → Attempt RefineOutcome × Table
      refine_action conversation id patch t =
          take_row conversation patch t (get_pending_action id t)
