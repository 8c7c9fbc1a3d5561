-- ===== src/Hitl/Table/Guards.antt =====
-- What the guarded updates do to the row that they name, and to all others.
use ezra.Common.{
  String, Bool, true, false, Option, none, some, [], ◌∷◌, str_eq, if◌then◌else◌, any, find, ◌≡◌,
  refl, eq_iff, eq_refl, arith,
}
use ezra.Hitl.Table.{
  Status, PendingAction, Table, has_id_in, with_status, is_approved, executed, flip_status,
  get_pending_action, claim_of, claim_for_execution, current_status,
}

-- No two rows have one id: the table's primary key.
abbrev pub IsKeyed : Table → Type 0
IsKeyed [] = Unit
IsKeyed (r ∷ t) = (get_pending_action r.action_id t ≡ none) × IsKeyed t

abbrev pub on_status : (Status → Bool) → Option PendingAction → Bool
on_status guard none = false
on_status guard (some r) = guard r.status

abbrev pub flip_row : (Status → Bool) → Status → Option PendingAction → Option PendingAction
flip_row guard to none = none
flip_row guard to (some r) = some (if guard r.status then with_status to r else r)

-- The row named is flipped under the guard, and no other row changes.
pub get-flip_status :
    (guard : Status → Bool) (to : Status) (id j : String) (t : Table)
    → get_pending_action j (flip_status guard to id t).1
      ≡ (if str_eq id j then flip_row guard to (get_pending_action j t) else get_pending_action j t)
unfolding flip_status get_pending_action
get-flip_status guard to id j [] = ground arith
get-flip_status guard to id j (r ∷ t) = ground (
  arith,
  eq_iff id j,
  eq_iff r.action_id j,
  eq_iff r.action_id id,
  get-flip_status guard to id j t,
)

any-of_absent :
    (guard : Status → Bool) (id : String) (t : Table)
    → get_pending_action id t ≡ none
    → any (has_id_in guard id) t ≡ false
unfolding get_pending_action
any-of_absent guard id [] h = refl
any-of_absent guard id (r ∷ t) h = ground (arith, any-of_absent guard id t)

-- Under the primary key the update reports whether the row's status passed the guard.
pub flip_status-won :
    (guard : Status → Bool) (to : Status) (id : String) (t : Table)
    → IsKeyed t
    → (flip_status guard to id t).0 ≡ on_status guard (get_pending_action id t)
unfolding flip_status get_pending_action
flip_status-won guard to id [] k = refl
flip_status-won guard to id (r ∷ t) k =
    ground (arith, eq_iff r.action_id id, any-of_absent guard id t, flip_status-won guard to id t)

found-of_absent :
    (guard : Status → Bool) (id : String) (t : Table)
    → get_pending_action id t ≡ none
    → find (has_id_in guard id) t ≡ none
unfolding get_pending_action
found-of_absent guard id [] h = refl
found-of_absent guard id (r ∷ t) h = ground (arith, found-of_absent guard id t)

-- The row, if its status passes.
abbrev pub guarded_row : (Status → Bool) → Option PendingAction → Option PendingAction
guarded_row guard none = none
guarded_row guard (some r) = if guard r.status then some r else none

find-guarded :
    (guard : Status → Bool) (id : String) (t : Table)
    → IsKeyed t
    → find (has_id_in guard id) t ≡ guarded_row guard (get_pending_action id t)
unfolding get_pending_action
find-guarded guard id [] k = refl
find-guarded guard id (r ∷ t) k =
    ground (arith, eq_iff r.action_id id, found-of_absent guard id t, find-guarded guard id t)

-- The claim hands back the row exactly when it is approved, and is otherwise the flip to `executed`.
pub claim_for_execution-claims :
    (id : String) (t : Table)
    → IsKeyed t
    → claim_for_execution id t ≡ (
      claim_of (guarded_row is_approved (get_pending_action id t)),
      (flip_status is_approved executed id t).1,
    )
unfolding claim_for_execution flip_status
claim_for_execution-claims id t k = rw (find-guarded is_approved id t k)

get-with_status :
    (guard : Status → Bool) (to : Status) (id j : String) (t : Table)
    → get_pending_action j t ≡ none
    → get_pending_action j (flip_status guard to id t).1 ≡ none
get-with_status guard to id j t h = rw (get-flip_status guard to id j t) (ground arith)

pub flip_status-IsKeyed :
    (guard : Status → Bool) (to : Status) (id : String) (t : Table)
    → IsKeyed t
    → IsKeyed (flip_status guard to id t).1
unfolding flip_status
flip_status-IsKeyed guard to id [] k = tt
flip_status-IsKeyed guard to id (r ∷ t) k =
    ground (arith, get-with_status guard to id r.action_id t, flip_status-IsKeyed guard to id t)

current_status-get :
    (id : String) (t : Table)
    → current_status id t
      ≡ (elim (get_pending_action id t) [ none ↦ none | some r ↦ some r.status ])
unfolding current_status get_pending_action
current_status-get id t = refl

-- `t'` is `t` with the row `r` in place of the one under `id`.
pub record Becomes (t : Table) (id : String) (r : PendingAction) (t' : Table) : Type 0 where
  pub keyed : IsKeyed t'
  pub rows :
      (j : String)
      → get_pending_action j t' ≡ (if str_eq id j then some r else get_pending_action j t)

pub Becomes-get :
    {t t' : Table} {id : String} {r : PendingAction}
    → Becomes t id r t'
    → get_pending_action id t' ≡ some r
Becomes-get {id = id} b = rw (b.rows id, eq_refl id)

pub Becomes-trans :
    {t u v : Table} {id : String} {r s : PendingAction}
    → Becomes t id r u
    → Becomes u id s v
    → Becomes t id s v
Becomes-trans {id = id} b c = record {
  keyed = c.keyed;
  rows = λ j. ground (arith, b.rows j, c.rows j);
}

-- A flip whose guard passes wins, and sets the row's status.
pub flip_status-Becomes :
    (guard : Status → Bool) (to : Status) (id : String) (t : Table) (r : PendingAction)
    → IsKeyed t
    → get_pending_action id t ≡ some r
    → guard r.status ≡ true
    → Becomes t id (with_status to r) (flip_status guard to id t).1
flip_status-Becomes guard to id t r k e g = record {
  keyed = flip_status-IsKeyed guard to id t k;
  rows = λ j. ground (arith, get-flip_status guard to id j t, eq_iff id j);
}

-- One whose guard fails changes no row.
pub flip_status-kept :
    (guard : Status → Bool) (to : Status) (id : String) (t : Table) (r : PendingAction)
    → IsKeyed t
    → get_pending_action id t ≡ some r
    → guard r.status ≡ false
    → Becomes t id r (flip_status guard to id t).1
flip_status-kept guard to id t r k e g = record {
  keyed = flip_status-IsKeyed guard to id t k;
  rows = λ j. ground (arith, get-flip_status guard to id j t, eq_iff id j);
}
