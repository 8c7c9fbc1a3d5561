-- ===== src/Hitl/History.antt =====
-- Any sequence of what the program does to the table of parked actions: parks (hitl/park.ts), prompt
-- stamps, quoted and classified decisions (hitl/resolve-approval.ts), refinements
-- (hitl/refine-action.ts) and expiries (hitl/expiry.ts). Postgres serializes the transactions, so two
-- replies that race are two events in either order.
pub mod Spending
pub mod Once
use ezra.Common.{ℕ, String, Option, none, some, List, [], ◌∷◌, Attempt, returned, threw}
use ezra.Hitl.Value.{Value}
use ezra.Hitl.Table.{Table, create_pending_action, set_prompt_message_id, mark_expired}
use ezra.Hitl.Binding.{TextOps}
use ezra.Hitl.Resolve.{
  ApprovalDecision, ApprovalOutcome, Settled, resolve_approval_reply, resolve_classified_decision,
  transaction,
}
use ezra.Hitl.Refine.{RefineOutcome, refine_action}
use ezra.Tools.{ToolRegistry}

pub data Event : Type 0 where
  parks : String → String → Value → ℕ → ℕ → Event
  stamps : String → String → Event
  replies : String → String → String → Event
  decides : String → String → ApprovalDecision → Event
  refines : String → String → Value → Event
  expires : String → Event

-- The table after an insert, which a duplicate id leaves as it was.
abbrev pub or_else : Table → Option Table → Table
or_else t none = t
or_else t (some t') = t'

-- The table after a refinement, which a throw rolls back.
abbrev pub committed : Table → Attempt RefineOutcome × Table → Table
committed t (returned o, t') = t'
committed t (threw e, t') = t

abbrev pub told : Attempt ApprovalOutcome → List ApprovalOutcome
told (returned o) = o ∷ []
told (threw e) = []

module _ {W : Type 0} (ops : TextOps) (stringify : Value → String) (reg : ToolRegistry W) where
  -- One event: the outcomes told to the conversation, the table and the world.
  unfoldable pub step : Event → Table → W → List ApprovalOutcome × Table × W
  step (parks id conversation call now until) t w =
      ([], or_else t (create_pending_action id conversation call now until t), w)
  step (stamps id message) t w = ([], (set_prompt_message_id id message t).1, w)
  step (replies conversation quoted text) t w =
      let (o, t', w') =
        transaction (resolve_approval_reply reg ops conversation quoted text t w) t in
      (told o, t', w')
  step (decides conversation id decision) t w =
      let (o, t', w') =
        transaction (resolve_classified_decision reg conversation id decision t w) t in
      (told o, t', w')
  step (refines conversation id patch) t w =
      ([], committed t (refine_action stringify reg conversation id patch t), w)
  step (expires id) t w = ([], (mark_expired id t).1, w)

  -- The outcomes of each event, in order.
  unfoldable pub run : List Event → Table → W → List (List ApprovalOutcome) × Table × W
  run [] t w = ([], t, w)
  run (e ∷ es) t w =
      let (o, t', w') = step e t w in let (os, t'', w'') = run es t' w' in (o ∷ os, t'', w'')
