-- ===== src/Hitl/Table/Updates.antt =====
-- Updates of one row by any function that keeps its id, new rows, and rows found by another column.
use ezra.Common.{
  ℕ, subst, Bool-cases, inl, inr, String, Bool, true, false, Option, none, some, [], ◌∷◌, ◌++◌,
  str_eq, if◌then◌else◌, any, find, update_where, ◌≡◌, refl, eq_iff, eq_refl, arith,
}
use ezra.Hitl.Value.{Value}
use ezra.Hitl.Table.{
  Status, PendingAction, Table, has_id, has_id_in, get_pending_action, create_pending_action,
  set_prompt_message_id, stamped, new_action,
}
use ezra.Hitl.Table.Guards.{IsKeyed, Becomes}

abbrev pub any_status : Status → Bool
any_status s = true

module _ (guard : Status → Bool) (f : PendingAction → PendingAction)
    (keeps : (r : PendingAction) → (f r).action_id ≡ r.action_id) (id : String) where
  abbrev pub updated_row : Option PendingAction → Option PendingAction
  updated_row none = none
  updated_row (some r) = some (if guard r.status then f r else r)

  pub get-update :
      (j : String) (t : Table)
      → get_pending_action j (update_where (has_id_in guard id) f t)
        ≡ (if str_eq id j then updated_row (get_pending_action j t) else get_pending_action j t)
  unfolding get_pending_action
  get-update j [] = ground arith
  get-update j (r ∷ t) = ground (
    arith,
    eq_iff id j,
    eq_iff r.action_id j,
    eq_iff r.action_id id,
    eq_iff (f r).action_id j,
    keeps r,
    get-update j t,
  )

  update-absent :
      (j : String) (t : Table)
      → get_pending_action j t ≡ none
      → get_pending_action j (update_where (has_id_in guard id) f t) ≡ none
  update-absent j t h = rw (get-update j t) (ground arith)

  pub update-IsKeyed : (t : Table) → IsKeyed t → IsKeyed (update_where (has_id_in guard id) f t)
  update-IsKeyed [] k = tt
  update-IsKeyed (r ∷ t) k = ground (arith, keeps r, update-absent r.action_id t, update-IsKeyed t)

  pub update-Becomes :
      (t : Table) (r : PendingAction)
      → IsKeyed t
      → get_pending_action id t ≡ some r
      → guard r.status ≡ true
      → Becomes t id (f r) (update_where (has_id_in guard id) f t)
  update-Becomes t r k e g = record {
    keyed = update-IsKeyed t k;
    rows = λ j. ground (arith, get-update j t, eq_iff id j);
  }

  pub update-kept :
      (t : Table) (r : PendingAction)
      → IsKeyed t
      → get_pending_action id t ≡ some r
      → guard r.status ≡ false
      → Becomes t id r (update_where (has_id_in guard id) f t)
  update-kept t r k e g = record {
    keyed = update-IsKeyed t k;
    rows = λ j. ground (arith, get-update j t, eq_iff id j);
  }

-- A row that a query finds is the row of its own id.
pub get-find :
    (p : PendingAction → Bool) (t : Table) {a : PendingAction}
    → IsKeyed t
    → find p t ≡ some a
    → get_pending_action a.action_id t ≡ some a
unfolding get_pending_action
get-find p [] k e = cc
get-find p (r ∷ t) {a} k e =
    ground (arith, eq_iff r.action_id a.action_id, eq_refl r.action_id, get-find p t {a = a})

pub get-action_id :
    (id : String) (t : Table) {a : PendingAction}
    → get_pending_action id t ≡ some a
    → a.action_id ≡ id
unfolding get_pending_action
get-action_id id [] e = cc
get-action_id id (r ∷ t) {a} e = ground (arith, eq_iff r.action_id id, get-action_id id t {a = a})

-- What a new row under `id` makes of the lookups.
get-append :
    (r : PendingAction) (j : String) (t : Table)
    → get_pending_action r.action_id t ≡ none
    → get_pending_action j (t ++ r ∷ [])
      ≡ (if str_eq r.action_id j then some r else get_pending_action j t)
unfolding get_pending_action
get-append r j [] h = refl
get-append r j (x ∷ t) h = ground (
  arith,
  eq_iff x.action_id r.action_id,
  eq_iff r.action_id j,
  eq_iff x.action_id j,
  get-append r j t,
)

append-IsKeyed :
    (r : PendingAction) (t : Table)
    → IsKeyed t
    → get_pending_action r.action_id t ≡ none
    → IsKeyed (t ++ r ∷ [])
unfolding get_pending_action
append-IsKeyed r [] k h = (refl, tt)
append-IsKeyed r (x ∷ t) k h = ground (
  arith,
  eq_iff x.action_id r.action_id,
  eq_iff r.action_id x.action_id,
  get-append r x.action_id t,
  append-IsKeyed r t,
)

pub absent-any :
    (id : String) (t : Table) → any (has_id id) t ≡ false → get_pending_action id t ≡ none
unfolding get_pending_action
absent-any id [] h = refl
absent-any id (r ∷ t) h = ground (arith, absent-any id t)

-- An insert that is not refused adds one pending row, with no prompt, under a fresh id.
pub create_pending_action-adds :
    (id conversation : String) (call : Value) (now expires : ℕ) (t : Table) {t' : Table}
    → IsKeyed t
    → create_pending_action id conversation call now expires t ≡ some t'
    → (get_pending_action id t ≡ none)
      × Becomes t id (new_action id conversation call now expires) t'
unfolding create_pending_action
create_pending_action-adds id conversation call now expires t {t' = t'} k e =
    elim (Bool-cases (any (has_id id) t)) [
      | inl clash ↦ cc (rw clash at e)
      | inr fresh ↦
          let r = new_action id conversation call now expires in
          let gone = absent-any id t fresh in
          (
            gone,
            let same : t ++ r ∷ [] ≡ t' = ground arith in
                subst (Becomes t id r) same
                  (record { keyed = append-IsKeyed r t k gone; rows = λ j. get-append r j t gone }),
          )
    ]

pub update-any_status :
    (f : PendingAction → PendingAction) (id : String) (t : Table)
    → update_where (has_id id) f t ≡ update_where (has_id_in any_status id) f t
update-any_status f id [] = refl
update-any_status f id (r ∷ t) = ground (arith, update-any_status f id t)

-- A stamp changes the prompt id of the row named, and nothing else.
pub set_prompt_message_id-stamps :
    (id message : String) (t : Table) (r : PendingAction)
    → IsKeyed t
    → get_pending_action id t ≡ some r
    → Becomes t id (stamped message r) (set_prompt_message_id id message t).1
unfolding set_prompt_message_id
set_prompt_message_id-stamps id message t r k e =
    rw (update-any_status (stamped message) id t)
      (update-Becomes any_status (stamped message) (λ _. refl) id t r k e refl)
