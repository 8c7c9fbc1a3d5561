-- ===== src/Hitl/Resolve/Refines.antt =====
-- The settle core does to the table what the decision says of the row, on every path.
use ezra.Common.{
  String, Bool, true, false, Option, none, some, Attempt, returned, threw, slice_to, ◌≡◌, refl,
  arith, Bool-cases, inl, inr, ◌∙◌, ap,
}
use ezra.Hitl.Value.{parse_call}
use ezra.Hitl.Table.{
  Status, PendingAction, Table, with_status, is_pending, is_approved, is_claimed,
  get_pending_action, flip_status, mark_approved, mark_denied, mark_stale, return_to_pending,
  claim_for_execution, current_status, claim_of, ClaimedAction,
}
use ezra.Hitl.Table
use ezra.Hitl.Table.Guards.{
  IsKeyed, Becomes, Becomes-get, Becomes-trans, flip_status-Becomes, flip_status-kept,
  flip_status-won, claim_for_execution-claims, on_status,
}
use ezra.Tools.{ToolRegistry, apply_id}
use ezra.Hitl.Resolve.{
  ApprovalDecision, ApprovalOutcome, approve, deny, failed, already_resolved, Resolved,
  resolve_call, fold_failure, take_answer, take_claim, take_verdict, run_approved, take_call,
  settle_approved, settle_denied, settle_decision, already_settled, Settled,
}
use ezra.Hitl.Resolve.Decision.{
  status_after, context_of, answered, checked, approved_call, decided, decision,
}

-- The answer for a row that is there reads its status.
already_settled-reads :
    (id : String) (t : Table) {r : PendingAction}
    → get_pending_action id t ≡ some r
    → already_settled id t ≡ returned (already_resolved id r.status)
unfolding already_settled current_status get_pending_action
already_settled-reads id t e = ground arith

-- The claim of a row that was just approved is never lost.
claim_wins :
    (a : PendingAction) {t u : Table}
    → Becomes t a.action_id (with_status Table.approved a) u
    → (c : ClaimedAction) × (v : Table) × (claim_for_execution a.action_id u ≡ (some c, v))
      × Becomes t a.action_id (with_status Table.executed a) v
claim_wins a {u = u} b = (
  record { action_id = a.action_id; tool_call = a.tool_call },
  (flip_status is_approved Table.executed a.action_id u).1,
  rw (claim_for_execution-claims a.action_id u b.keyed, Becomes-get b) refl,
  Becomes-trans b (
      flip_status-Becomes is_approved Table.executed a.action_id u (with_status Table.approved a)
        b.keyed (Becomes-get b) refl),
)

module _ {W : Type 0} (a : PendingAction) where
  -- The answer `s` of a body says `d`, and leaves the table with the row in its status.
  pub record Does (t : Table) (s : Settled W) (d : ApprovalOutcome × W) : Type 0 where
    pub outcome : s.0 ≡ returned d.0
    pub world : s.2 ≡ d.1
    pub table : Becomes t a.action_id (with_status (status_after a.status d.0) a) s.1

  module _ (t : Table) (k : IsKeyed t) where
    -- A claimed row goes back to pending.
    fold_failure-Does :
        (r : Resolved W) (e : String) (w : W) (s : Status) {u : Table}
        → is_claimed s ≡ true
        → Becomes t a.action_id (with_status s a) u
        → Does t (fold_failure a r e u w) (failed a.action_id r.call.name (slice_to 200 e), w)
    unfolding fold_failure return_to_pending
    fold_failure-Does r e w s {u} g b = record {
      outcome = refl;
      world = refl;
      table = Becomes-trans b (
          flip_status-Becomes is_claimed Table.pending a.action_id u (with_status s a) b.keyed
            (Becomes-get b) g);
    }

    take_answer-Does :
        (r : Resolved W) (answer : Attempt String × W) {u : Table}
        → Becomes t a.action_id (with_status Table.executed a) u
        → Does t (take_answer a r u answer) (answered a r answer)
    unfolding take_answer
    take_answer-Does r (returned result, w) b = record { outcome = refl; world = refl; table = b }
    take_answer-Does r (threw e, w) b = fold_failure-Does r e w Table.executed refl b

    take_verdict-Does :
        (r : Resolved W) (verdict : Attempt Bool × W) {u : Table}
        → Becomes t a.action_id (with_status Table.approved a) u
        → let ctx = context_of a r in
          Does t
            (take_verdict a r ctx (apply_id r.def.external_id ctx) u verdict)
            (checked a r verdict)
    unfolding take_verdict mark_stale take_claim
    take_verdict-Does r (threw e, w) b = fold_failure-Does r e w Table.approved refl b
    take_verdict-Does r (returned false, w) {u} b = record {
      outcome = refl;
      world = refl;
      table = Becomes-trans b (
          flip_status-Becomes is_approved Table.stale a.action_id u (with_status Table.approved a)
            b.keyed (Becomes-get b) refl);
    }
    take_verdict-Does r (returned true, w) b =
        let (c, v, claimed, b') = claim_wins a b in rw claimed (take_answer-Does r _ b')

    take_call-Does :
        (r : Option (Resolved W)) (w : W) {u : Table}
        → Becomes t a.action_id (with_status Table.approved a) u
        → Does t (take_call a r u w) (approved_call a r w)
    unfolding take_call run_approved mark_stale
    take_call-Does none w {u} b = record {
      outcome = refl;
      world = refl;
      table = Becomes-trans b (
          flip_status-Becomes is_approved Table.stale a.action_id u (with_status Table.approved a)
            b.keyed (Becomes-get b) refl);
    }
    take_call-Does (some r) w b = take_verdict-Does r _ b

    -- A decision whose flip is lost changes no row.
    lost-Does :
        (w : W) {u : Table}
        → Becomes t a.action_id a u
        → Does t (already_settled a.action_id u, u, w) (already_resolved a.action_id a.status, w)
    lost-Does w {u} b = record {
      outcome = already_settled-reads a.action_id u (Becomes-get b);
      world = refl;
      table = b;
    }

  module _ (reg : ToolRegistry W) (t : Table) (w : W) (k : IsKeyed t)
      (e : get_pending_action a.action_id t ≡ some a) where
    -- Whether a flip of a pending row wins is whether the row is pending.
    flip_won : (to : Status) → (flip_status is_pending to a.action_id t).0 ≡ is_pending a.status
    flip_won to = flip_status-won is_pending to a.action_id t k ∙ ap (on_status is_pending) e

    flip_pair :
        (to : Status) {won : Bool}
        → is_pending a.status ≡ won
        → flip_status is_pending to a.action_id t
          ≡ (won, (flip_status is_pending to a.action_id t).1)
    flip_pair to h = λ i. ((flip_won to ∙ h) i, (flip_status is_pending to a.action_id t).1)

    won-Does :
        (d : ApprovalDecision)
        → is_pending a.status ≡ true
        → Does t (settle_decision reg a d t w) (decided reg a d w)
    unfolding settle_decision mark_denied mark_approved settle_denied settle_approved
    won-Does deny p = rw (flip_pair Table.denied p) (record {
      outcome = refl;
      world = refl;
      table = flip_status-Becomes is_pending Table.denied a.action_id t a k e p;
    })
    won-Does approve p = rw (flip_pair Table.approved p) (
        take_call-Does t k (resolve_call reg (parse_call a.tool_call)) w
          (flip_status-Becomes is_pending Table.approved a.action_id t a k e p))

    missed-Does :
        (d : ApprovalDecision)
        → is_pending a.status ≡ false
        → Does t (settle_decision reg a d t w) (already_resolved a.action_id a.status, w)
    unfolding settle_decision mark_denied mark_approved settle_denied settle_approved
    missed-Does deny p =
        rw (flip_pair Table.denied p)
          (lost-Does t k w (flip_status-kept is_pending Table.denied a.action_id t a k e p))
    missed-Does approve p =
        rw (flip_pair Table.approved p)
          (lost-Does t k w (flip_status-kept is_pending Table.approved a.action_id t a k e p))

    -- For a row of a keyed table, a decision returns the outcome that it means, leaves the row in
    -- that outcome's status and no other row changed, and touches the world as that decision does.
    pub settle_decision-Does :
        (d : ApprovalDecision) → Does t (settle_decision reg a d t w) (decision reg a d w)
    unfolding decision
    settle_decision-Does d = elim (Bool-cases (is_pending a.status)) [
      | inl p ↦ rw p (won-Does d p)
      | inr p ↦ rw p (missed-Does d p)
    ]
