-- ===== src/Hitl/History/Spending.antt =====
-- What each kind of event costs of the one execution that an action has.
use ezra.Common.{
  ℕ, ◌+◌, ◌≤◌, String, Bool, true, false, Option, none, some, List, [], ◌∷◌, str_eq, if◌then◌else◌,
  Attempt, returned, threw, ◌≡◌, refl, arith, eq_iff, Bool-cases, Option-cases, inl, inr,
  update_where,
}
use ezra.Hitl.Value.{Value}
use ezra.Hitl.Table.{
  Status, PendingAction, Table, is_pending, get_pending_action, create_pending_action, mark_expired,
  set_prompt_message_id, with_status, stamped, has_id, has_id_in, flip_status,
  get_action_by_prompt_message_id,
}
use ezra.Hitl.Table
use ezra.Hitl.Table.Guards.{IsKeyed, Becomes}
use ezra.Hitl.Table.Updates.{
  create_pending_action-adds, get-find, get-update, update-IsKeyed, update-any_status, any_status,
}
use ezra.Hitl.Resolve.{
  ApprovalDecision, ApprovalOutcome, approve, deny, Resolved, executed, Settled, transaction,
}
use ezra.Hitl.Resolve.Decision.{decision, decided, status_after, answered, checked, approved_call}
use ezra.Hitl.Resolve.Refines.{Does}
use ezra.Hitl.History.{told, or_else}
use ezra.Tools.{ToolRegistry}

-- An action that may still be executed: not parked yet, or pending.
abbrev pub is_open : Option PendingAction → Bool
is_open none = true
is_open (some r) = is_pending r.status

abbrev executes : String → ApprovalOutcome → ℕ
executes id (executed i tool result) = if str_eq i id then 1 else 0
executes id _ = 0

abbrev pub executions : String → List ApprovalOutcome → ℕ
executions id [] = 0
executions id (o ∷ os) = executes id o + executions id os

abbrev pub room : Bool → ℕ
room true = 1
room false = 0

-- After an event the table is keyed, and the executions told fit in the room that was left.
pub record Spends (id : String) (t : Table) (os : List ApprovalOutcome) (t' : Table) : Type 0 where
  pub keyed : IsKeyed t'
  pub budget :
      executions id os + room (is_open (get_pending_action id t'))
      ≤ room (is_open (get_pending_action id t))

-- A row that changes and stays as open as it was.
pub Becomes-Spends :
    (id j : String) (t t' : Table) (r : PendingAction)
    → Becomes t j r t'
    → (is_pending r.status ≡ true → is_open (get_pending_action j t) ≡ true)
    → Spends id t [] t'
Becomes-Spends id j t t' r b open_before = record {
  keyed = b.keyed;
  budget = ground (arith, b.rows id, eq_iff j id);
}

module _ {W : Type 0} (a : PendingAction) (id : String) where
  -- The executions told fit in the room of a pending row, less what the row's new status leaves.
  abbrev Fits : ApprovalOutcome × W → Type 0
  Fits (o, w) =
      executes id o
        + (if str_eq a.action_id id then room (is_pending (status_after a.status o)) else 0)
      ≤ (if str_eq a.action_id id then 1 else 0)

  answered-Fits : (r : Resolved W) (answer : Attempt String × W) → Fits (answered a r answer)
  answered-Fits r (returned result, w) = ground arith
  answered-Fits r (threw e, w) = ground arith

  checked-Fits : (r : Resolved W) (verdict : Attempt Bool × W) → Fits (checked a r verdict)
  checked-Fits r (threw e, w) = ground arith
  checked-Fits r (returned false, w) = ground arith
  checked-Fits r (returned true, w) = answered-Fits r _

  approved_call-Fits : (c : Option (Resolved W)) (w : W) → Fits (approved_call a c w)
  approved_call-Fits none w = ground arith
  approved_call-Fits (some r) w = checked-Fits r _

  decided-Fits : (reg : ToolRegistry W) (d : ApprovalDecision) (w : W) → Fits (decided reg a d w)
  decided-Fits reg deny w = ground arith
  decided-Fits reg approve w = approved_call-Fits _ w

  decision-room :
      (reg : ToolRegistry W) (d : ApprovalDecision) (w : W)
      → let o = (decision reg a d w).0 in
        executes id o
          + (if str_eq a.action_id id then room (is_pending (status_after a.status o)) else 0)
        ≤ (if str_eq a.action_id id then room (is_pending a.status) else 0)
  unfolding decision
  decision-room reg d w = elim (Bool-cases (is_pending a.status)) [
    | inl p ↦ rw p (decided-Fits reg d w)
    | inr p ↦ rw (p, p) (ground arith)
  ]

  pub Does-Spends :
      (reg : ToolRegistry W) (d : ApprovalDecision) (t : Table) (w : W) (s : Settled W)
      → get_pending_action a.action_id t ≡ some a
      → Does a t s (decision reg a d w)
      → Spends id t (told (transaction s t).0) (transaction s t).1
  unfolding transaction
  Does-Spends reg d t w (returned o, u, v) e does = record {
    keyed = does.table.keyed;
    budget =
        ground
          (arith, does.outcome, does.table.rows id, decision-room reg d w, eq_iff a.action_id id);
  }
  Does-Spends reg d t w (threw m, u, v) e does = cc (does.outcome)

module _ (id : String) where
  pub unchanged-Spends : (t : Table) → IsKeyed t → Spends id t [] t
  unchanged-Spends t k = record { keyed = k; budget = omega arith }

  -- An outcome that executes nothing, over an unchanged table.
  pub told-Spends :
      (o : ApprovalOutcome) (t : Table) → IsKeyed t → executes id o ≡ 0 → Spends id t (o ∷ []) t
  told-Spends o t k h = record { keyed = k; budget = omega arith }

  pub parks-Spends :
      (i conversation : String) (call : Value) (now until : ℕ) (t : Table)
      → IsKeyed t
      → Spends id t [] (or_else t (create_pending_action i conversation call now until t))
  parks-Spends i conversation call now until t k =
      elim (Option-cases (create_pending_action i conversation call now until t)) [
        | inl clash ↦ rw clash (unchanged-Spends t k)
        | inr (t', made) ↦
            let (fresh, b) = create_pending_action-adds i conversation call now until t k made in
            rw made (Becomes-Spends id i t t' _ b (λ _. rw fresh refl))
      ]

  -- An update of one row that opens nothing.
  pub update-Spends :
      (guard : Status → Bool) (f : PendingAction → PendingAction)
      (keeps : (r : PendingAction) → (f r).action_id ≡ r.action_id) (i : String) (t : Table)
      → IsKeyed t
      → ((r : PendingAction) → is_pending (f r).status ≡ true → is_pending r.status ≡ true)
      → Spends id t [] (update_where (has_id_in guard i) f t)
  update-Spends guard f keeps i t k opens = record {
    keyed = update-IsKeyed guard f keeps i t k;
    budget = elim (Option-cases (get_pending_action id t)) [
      | inl gone ↦ ground (arith, get-update guard f keeps i id t)
      | inr (r, found) ↦ ground (arith, get-update guard f keeps i id t, opens r)
    ];
  }

  pub stamps-Spends :
      (i message : String) (t : Table)
      → IsKeyed t
      → Spends id t [] (set_prompt_message_id i message t).1
  unfolding set_prompt_message_id
  stamps-Spends i message t k =
      rw (update-any_status (stamped message) i t)
        (update-Spends any_status (stamped message) (λ _. refl) i t k (λ r h. h))

  pub expires-Spends : (i : String) (t : Table) → IsKeyed t → Spends id t [] (mark_expired i t).1
  unfolding mark_expired flip_status
  expires-Spends i t k =
      update-Spends is_pending (with_status Table.expired) (λ _. refl) i t k (λ r h. cc)

pub get-found :
    (i : String) (t : Table) {a : PendingAction}
    → IsKeyed t
    → get_pending_action i t ≡ some a
    → get_pending_action a.action_id t ≡ some a
unfolding get_pending_action
get-found i t k found = get-find (has_id i) t k found

pub quoted-found :
    (conversation quoted : String) (t : Table) {a : PendingAction}
    → IsKeyed t
    → get_action_by_prompt_message_id conversation quoted t ≡ some a
    → get_pending_action a.action_id t ≡ some a
unfolding get_action_by_prompt_message_id
quoted-found conversation quoted t k found = get-find _ t k found
