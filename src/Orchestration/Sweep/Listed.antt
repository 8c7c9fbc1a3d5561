-- ===== src/Orchestration/Sweep/Listed.antt =====
-- The query of the sweep lists every overdue row.
use ezra.Common.{
  ℕ, String, Bool, true, false, not, ◌||◌, ◌&&◌, leb, Option, none, some, List, [], ◌∷◌, map,
  str_eq, any, all, select, ◌≡◌, refl, arith, eq_refl, sym, ap, ◌∙◌, Bool-cases, inl, inr, subst,
  if◌then◌else◌,
}
use ezra.Common.Sorting.Tests.{any-sort}
use ezra.Hitl.Value.{Value, ToolCall, parse_call}
use ezra.Hitl.Table.{PendingAction, Table, get_overdue_pending_actions, is_pending}
use ezra.Orchestration.Sweep.Expiry.{overdue_of, to_overdue_actions}

module _ (p : PendingAction → Bool) where
  -- Each row that passes `p` has the id of some row of `list`.
  abbrev pub covered : List PendingAction → Table → Bool
  covered list t = all (λ r. not (p r) || any (λ y. str_eq r.action_id y.action_id) list) t

  covered-more :
      (x : PendingAction) (list : List PendingAction) (t : Table)
      → covered list t ≡ true
      → covered (x ∷ list) t ≡ true
  covered-more x list [] h = refl
  covered-more x list (r ∷ t) h = ground (arith, covered-more x list t)

  covered-here :
      (x : PendingAction) (list : List PendingAction) (t : Table)
      → covered list t ≡ true
      → covered (x ∷ list) (x ∷ t) ≡ true
  covered-here x list t h = ground (arith, covered-more x list t, eq_refl x.action_id)

  covered-skip :
      (x : PendingAction) (list : List PendingAction) (t : Table)
      → p x ≡ false
      → covered list t ≡ true
      → covered list (x ∷ t) ≡ true
  covered-skip x list t k h = ground arith

  pub select-covered : (t : Table) → covered (select p t) t ≡ true
  select-covered [] = refl
  select-covered (x ∷ t) = elim (Bool-cases (p x)) [
    | inl h ↦
        subst (λ b. covered (if b then x ∷ select p t else select p t) (x ∷ t) ≡ true) (sym h)
          (covered-here x (select p t) t (select-covered t))
    | inr h ↦
        subst (λ b. covered (if b then x ∷ select p t else select p t) (x ∷ t) ≡ true) (sym h)
          (covered-skip x (select p t) t h (select-covered t))
  ]

overdue-id :
    (stringify : Value → String) (a : PendingAction) (o : Option ToolCall)
    → (overdue_of stringify a o).action_id ≡ a.action_id
overdue-id stringify a none = refl
overdue-id stringify a (some call) = refl

any-ids :
    (stringify : Value → String) (q : String → Bool) (xs : List PendingAction)
    → any q (map (λ a. a.action_id) (to_overdue_actions stringify xs)) ≡ any (λ a. q a.action_id) xs
unfolding to_overdue_actions
any-ids stringify q [] = refl
any-ids stringify q (a ∷ xs) =
    ap (λ i. q i || any q (map (λ a. a.action_id) (to_overdue_actions stringify xs)))
      (overdue-id stringify a (parse_call a.tool_call))
    ∙ ap (λ b. q a.action_id || b) (any-ids stringify q xs)

-- A test of the listed ids is one of the rows that the query selects.
pub any-listed :
    (stringify : Value → String) (as_of : ℕ) (q : String → Bool) (t : Table)
    → any q (
        map (λ a. a.action_id) (to_overdue_actions stringify (get_overdue_pending_actions as_of t)))
      ≡ any (λ a. q a.action_id) (select (λ r. is_pending r.status && leb r.expires_at as_of) t)
unfolding get_overdue_pending_actions
any-listed stringify as_of q t =
    any-ids stringify q (get_overdue_pending_actions as_of t) ∙ any-sort _ (λ a. q a.action_id) _
