-- ===== src/Agent/Prompts.antt =====
-- src/agent/prompts.ts: the texts that the turn loop writes and reads back. `eastern` is the rendering
-- of a time for Eastern readers, `one_line` the replacement of runs of line breaks by a dash.
use ezra.Common.{ℕ, String, Option, none, some, List, [], ◌∷◌, map, concat, join}
use ezra.Hitl.Table.{status_text}
use ezra.Hitl.Resolve.{
  ApprovalOutcome, unbound, unclear, executed, denied, stale, failed, already_resolved,
}

pub record PendingActionDigestEntry : Type 0 where
  pub action_id : String
  pub tool_name : String
  pub summary : String
  pub args_json : Option String
  pub expires_at : Option ℕ

unfoldable pub render_approval_prompt : String → String
render_approval_prompt summary =
    concat (summary ∷ "\n\nApprove? Reply to this message with yes or no." ∷ [])

unfoldable pub render_approval_outcome : ApprovalOutcome → String → Option String
render_approval_outcome unbound approver = none
render_approval_outcome (unclear action) approver = none
render_approval_outcome (executed action tool result) approver = some (
    concat (
      "[action update] " ∷ action ∷ " (" ∷ tool ∷ ") approved by " ∷ approver ∷ " and done: "
      ∷ result ∷ []))
render_approval_outcome (denied action tool) approver = some (
    concat (
      "[action update] " ∷ action ∷ " (" ∷ tool ∷ ") declined by " ∷ approver
      ∷ " — nothing was executed." ∷ []))
render_approval_outcome (stale action tool) approver = some (
    concat (
      "[action update] " ∷ action ∷ " (" ∷ tool ∷ ") was approved by " ∷ approver
      ∷ " but failed its revalidation check — it is no longer valid and was NOT executed." ∷ []))
render_approval_outcome (failed action tool message) approver = some (
    concat (
      "[action update] " ∷ action ∷ " (" ∷ tool ∷ ") was approved by " ∷ approver
      ∷ " but the action could not be completed (" ∷ message
      ∷ ") — it is STILL PENDING and was not executed; approving it again will retry." ∷ []))
render_approval_outcome (already_resolved action status) approver = some (
    concat (
      "[action update] "
      ∷ approver
      ∷ " answered the prompt for "
      ∷ action
      ∷ ", but it was already "
      ∷ status_text status
      ∷ " — nothing changed."
      ∷ []))

unfoldable pub render_expiry_notice : String → String → String → String
render_expiry_notice action tool summary = concat (
    "[action update] the proposed " ∷ tool ∷ " (" ∷ summary ∷ ") [" ∷ action
    ∷ "] was not approved in time and has quietly expired — nothing was executed. If it is still wanted, just ask again."
    ∷ [])

module _ (eastern : ℕ → String) (one_line : String → String) where
  abbrev pub expiry_note : Option ℕ → String
  expiry_note none = ""
  expiry_note (some at) = concat (" (expires " ∷ eastern at ∷ " Eastern)" ∷ [])

  abbrev pub digest_line : PendingActionDigestEntry → String
  digest_line e = concat (
      "- ["
      ∷ e.action_id
      ∷ "] "
      ∷ e.tool_name
      ∷ ": "
      ∷ one_line e.summary
      ∷ expiry_note e.expires_at
      ∷ [])

  unfoldable pub render_pending_actions_digest : List PendingActionDigestEntry → Option String
  render_pending_actions_digest [] = none
  render_pending_actions_digest (e ∷ es) = some (
      concat (
        "## Awaiting approval\nThese proposed actions are waiting for a yes/no. Mention them only when relevant; never treat them as done:\n"
        ∷ join "\n" (map digest_line (e ∷ es))
        ∷ []))

unfoldable pub compose_system_prompt : String → Option String → String
compose_system_prompt stable none = stable
compose_system_prompt stable (some digest) = concat (stable ∷ "\n\n" ∷ digest ∷ [])
