-- ===== src/Hitl/History/Once.antt =====
-- An action is executed at most once, whatever happens.
use ezra.Common.{
  ℕ, ◌+◌, ◌≤◌, String, Bool, true, false, Option, none, some, List, [], ◌∷◌, str_eq, Attempt,
  returned, threw, ◌≡◌, refl, arith, subst, sym, Bool-cases, Option-cases, inl, inr,
}
use ezra.Hitl.Value.{Value}
use ezra.Hitl.Table.{PendingAction, Table, get_pending_action}
use ezra.Hitl.Table.Guards.{IsKeyed}
use ezra.Hitl.Table.Updates.{get-action_id}
use ezra.Hitl.Binding.{TextOps, ApprovalReply}
use ezra.Hitl.Resolve.{
  ApprovalDecision, ApprovalOutcome, approve, deny, settle_decision, resolve_approval_reply,
  resolve_classified_decision, transaction, take_reply, take_quoted, take_named,
}
use ezra.Hitl.Resolve.Refines.{settle_decision-Does}
use ezra.Hitl.Refine.{
  RefineOutcome, unbound, invalid, refined, already_resolved, refine_action, take_row,
}
use ezra.Hitl.Refine.Effect.{Effect, Bound, refine_action-Bound}
use ezra.Hitl.History.{
  Event, parks, stamps, replies, decides, refines, expires, step, run, told, committed,
}
use ezra.Tools.{ToolRegistry}
use ezra.Hitl.History.Spending.{
  is_open, executions, room, Spends, Becomes-Spends, Does-Spends, unchanged-Spends, told-Spends,
  parks-Spends, stamps-Spends, expires-Spends, get-found, quoted-found,
}

module _ {W : Type 0} (reg : ToolRegistry W) (id : String) where
  settle-Spends :
      (a : PendingAction) (d : ApprovalDecision) (t : Table) (w : W)
      → IsKeyed t
      → get_pending_action a.action_id t ≡ some a
      → let s = transaction (settle_decision reg a d t w) t in Spends id t (told s.0) s.1
  settle-Spends a d t w k e = Does-Spends a id reg d t w _ e (settle_decision-Does a reg t w k e d)

  take_reply-Spends :
      (a : PendingAction) (r : ApprovalReply) (t : Table) (w : W)
      → IsKeyed t
      → get_pending_action a.action_id t ≡ some a
      → let s = transaction (take_reply reg a t w r) t in Spends id t (told s.0) s.1
  unfolding take_reply
  take_reply-Spends a ApprovalReply.unclear t w k e =
      unfold transaction in told-Spends id _ t k refl
  take_reply-Spends a ApprovalReply.approve t w k e = settle-Spends a approve t w k e
  take_reply-Spends a ApprovalReply.deny t w k e = settle-Spends a deny t w k e

  take_quoted-Spends :
      (ops : TextOps) (text : String) (r : Option PendingAction) (t : Table) (w : W)
      → IsKeyed t
      → ((a : PendingAction) → r ≡ some a → get_pending_action a.action_id t ≡ some a)
      → let s = transaction (take_quoted reg ops text t w r) t in Spends id t (told s.0) s.1
  unfolding take_quoted
  take_quoted-Spends ops text none t w k e = unfold transaction in told-Spends id _ t k refl
  take_quoted-Spends ops text (some a) t w k e = take_reply-Spends a _ t w k (e a refl)

  replies-Spends :
      (ops : TextOps) (conversation quoted text : String) (t : Table) (w : W)
      → IsKeyed t
      → let s = transaction (resolve_approval_reply reg ops conversation quoted text t w) t in
        Spends id t (told s.0) s.1
  unfolding resolve_approval_reply
  replies-Spends ops conversation quoted text t w k =
      take_quoted-Spends ops text _ t w k (λ a found. quoted-found conversation quoted t k found)

  take_named-Spends :
      (conversation : String) (d : ApprovalDecision) (r : Option PendingAction) (t : Table) (w : W)
      → IsKeyed t
      → ((a : PendingAction) → r ≡ some a → get_pending_action a.action_id t ≡ some a)
      → let s = transaction (take_named reg conversation d t w r) t in Spends id t (told s.0) s.1
  unfolding take_named
  take_named-Spends conversation d none t w k e = unfold transaction in told-Spends id _ t k refl
  take_named-Spends conversation d (some a) t w k e =
      elim (Bool-cases (str_eq a.conversation_id conversation)) [
        | inl same ↦ rw same (settle-Spends a d t w k (e a refl))
        | inr other ↦ rw other (unfold transaction in told-Spends id _ t k refl)
      ]

  decides-Spends :
      (conversation i : String) (d : ApprovalDecision) (t : Table) (w : W)
      → IsKeyed t
      → let s = transaction (resolve_classified_decision reg conversation i d t w) t in
        Spends id t (told s.0) s.1
  unfolding resolve_classified_decision
  decides-Spends conversation i d t w k =
      take_named-Spends conversation d _ t w k (λ a found. get-found i t k found)

  Effect-Spends :
      (stringify : Value → String) (a : PendingAction) (patch : Value) (t : Table)
      (s : Attempt RefineOutcome × Table)
      → IsKeyed t
      → get_pending_action a.action_id t ≡ some a
      → Effect (λ call given. Unit {0}) stringify reg a patch t s
      → Spends id t [] (committed t s)
  Effect-Spends stringify a patch t (returned unbound, t') k e f = absurd f
  Effect-Spends stringify a patch t (returned (invalid i n), t') k e f =
      subst (λ u. Spends id t [] u) (sym f.1) (unchanged-Spends id t k)
  Effect-Spends stringify a patch t (returned (refined i n s), t') k e f =
      Becomes-Spends id a.action_id t t' _ f.1.row (λ _. rw e f.1.was_pending)
  Effect-Spends stringify a patch t (returned (already_resolved i s), t') k e f =
      Becomes-Spends id a.action_id t t' a f.3 (λ h. rw e h)
  Effect-Spends stringify a patch t (threw m, t') k e f = absurd f

  Bound-Spends :
      (stringify : Value → String) (a : PendingAction) (patch : Value) (t : Table) (same : Bool)
      (s : Attempt RefineOutcome × Table)
      → IsKeyed t
      → get_pending_action a.action_id t ≡ some a
      → Bound (λ call given. Unit {0}) stringify reg a patch t same s
      → Spends id t [] (committed t s)
  Bound-Spends stringify a patch t true s k e f = Effect-Spends stringify a patch t s k e f
  Bound-Spends stringify a patch t false s k e f = rw f (unchanged-Spends id t k)

  absent-refine_action :
      (stringify : Value → String) (conversation i : String) (patch : Value) (t : Table)
      → get_pending_action i t ≡ none
      → refine_action stringify reg conversation i patch t ≡ (returned unbound, t)
  unfolding refine_action take_row
  absent-refine_action stringify conversation i patch t gone = rw gone

  refines-Spends :
      (stringify : Value → String) (conversation i : String) (patch : Value) (t : Table)
      → IsKeyed t
      → Spends id t [] (committed t (refine_action stringify reg conversation i patch t))
  refines-Spends stringify conversation i patch t k = elim (Option-cases (get_pending_action i t)) [
    | inl gone ↦
        rw (absent-refine_action stringify conversation i patch t gone) (unchanged-Spends id t k)
    | inr (a, found) ↦
        subst
          (λ j. Spends id t [] (committed t (refine_action stringify reg conversation j patch t)))
          (get-action_id i t found)
          (Bound-Spends stringify a patch t _ _ k (get-found i t k found) (
            refine_action-Bound (λ call given. Unit {0}) stringify reg a patch t (λ call. tt) k
              (get-found i t k found) conversation))
  ]

  step-Spends :
      (ops : TextOps) (stringify : Value → String) (e : Event) (t : Table) (w : W)
      → IsKeyed t
      → let s = step ops stringify reg e t w in Spends id t s.0 s.1
  unfolding step
  step-Spends ops stringify (parks i c call now until) t w k =
      parks-Spends id i c call now until t k
  step-Spends ops stringify (stamps i message) t w k = stamps-Spends id i message t k
  step-Spends ops stringify (replies c quoted text) t w k = replies-Spends ops c quoted text t w k
  step-Spends ops stringify (decides c i d) t w k = decides-Spends c i d t w k
  step-Spends ops stringify (refines c i patch) t w k = refines-Spends stringify c i patch t k
  step-Spends ops stringify (expires i) t w k = expires-Spends id i t k

abbrev pub total : String → List (List ApprovalOutcome) → ℕ
total id [] = 0
total id (os ∷ rest) = executions id os + total id rest

module _ {W : Type 0} (ops : TextOps) (stringify : Value → String) (reg : ToolRegistry W)
    (id : String) where
  -- Over any sequence of events from a keyed table, the executions reported for an action, and one
  -- more if it may still be executed afterwards, are at most one if it might have been executed
  -- before, and none if it had been settled: an action is reported executed at most once, and a
  -- settled one never again, nor is it opened again.
  pub run-executes_once :
      (es : List Event) (t : Table) (w : W)
      → IsKeyed t
      → total id (run ops stringify reg es t w).0
          + room (is_open (get_pending_action id (run ops stringify reg es t w).1))
        ≤ room (is_open (get_pending_action id t))
  unfolding run
  run-executes_once [] t w k = omega arith
  run-executes_once (e ∷ es) t w k =
      let first = step-Spends reg id ops stringify e t w k in
      let s = step ops stringify reg e t w in
      omega (arith, first.budget, run-executes_once es s.1 s.2 first.keyed)
