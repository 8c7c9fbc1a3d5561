-- ===== src/Orchestration/Sweep/Expired.antt =====
-- No action expires untold: whatever stops the sweep, the notice of every expired action is in the
-- inbox, and a sweep that ends leaves none overdue.
use ezra.Common.{
  ℕ, zero, suc, ◌≤◌, String, Bool, true, false, not, ◌&&◌, ◌||◌, List, [], ◌∷◌, map, str_eq, any,
  all, select, leb, Attempt, returned, threw, ◌≡◌, refl, arith, eq_iff, sym, Bool-cases, inl, inr,
  subst,
}
use ezra.Hitl.Value.{Value}
use ezra.Hitl.Table.{
  Status, PendingAction, Table, expired, has_id_in, is_pending, mark_expired,
  get_overdue_pending_actions, flip_status,
}
use ezra.Orchestration.Debounce.{InboxItem}
use ezra.Orchestration.Enqueue.{ConversationEnqueue, insert_inbox_item, drain_workflow_id}
use ezra.Orchestration.Sweep.{
  Desk, insert_step, start_step, started, mark_step, fire, fire_all, sweep,
}
use ezra.Orchestration.Sweep.Expiry.{
  OverdueAction, expiry_firing_id, to_expiry_item, to_overdue_actions, expiry_sweep,
}
use ezra.Orchestration.Sweep.Told.{known, times, insert-knows, insert-still_knows, insert-once}
use ezra.Orchestration.Sweep.Listed.{covered, select-covered, any-listed}
use ezra.Crash.{ended, Leads, go_on-Leads, effect}

abbrev pub is_expired : Status → Bool
is_expired expired = true
is_expired _ = false

-- The action is not expired, or its notice is in the inbox.
abbrev pub told_of : List InboxItem → PendingAction → Bool
told_of inbox r = not (is_expired r.status) || known (expiry_firing_id r.action_id) inbox

abbrev pub all_told : Desk PendingAction → Bool
all_told s = all (told_of s.inbox) s.table

abbrev pub is_overdue : ℕ → PendingAction → Bool
is_overdue as_of r = is_pending r.status && leb r.expires_at as_of

-- Every overdue row has one of the ids.
abbrev all_listed : ℕ → List String → Table → Bool
all_listed as_of ids t = all (λ r. not (is_overdue as_of r) || any (str_eq r.action_id) ids) t

told-grows :
    (seq : ℕ) (item : ConversationEnqueue) (inbox : List InboxItem) (t : Table)
    → all (told_of inbox) t ≡ true
    → all (told_of (insert_inbox_item seq item inbox).1) t ≡ true
told-grows seq item inbox [] h = refl
told-grows seq item inbox (r ∷ t) h = ground (
  arith,
  insert-still_knows seq item inbox (expiry_firing_id r.action_id),
  told-grows seq item inbox t,
)

same_known :
    (id : String) (inbox : List InboxItem) (r : PendingAction)
    → has_id_in is_pending id r ≡ true
    → known (expiry_firing_id id) inbox ≡ true
    → known (expiry_firing_id r.action_id) inbox ≡ true
same_known id inbox r h k =
    subst (λ x. known (expiry_firing_id x) inbox ≡ true)
      (sym ((eq_iff r.action_id id).0 (ground arith))) k

told-marked :
    (id : String) (inbox : List InboxItem) (t : Table)
    → known (expiry_firing_id id) inbox ≡ true
    → all (told_of inbox) t ≡ true
    → all (told_of inbox) (mark_expired id t).1 ≡ true
unfolding mark_expired flip_status
told-marked id inbox [] k h = refl
told-marked id inbox (r ∷ t) k h = elim (Bool-cases (has_id_in is_pending id r)) [
  | inl e ↦ rw e (ground (arith, same_known id inbox r e k, told-marked id inbox t k))
  | inr e ↦ rw e (ground (arith, told-marked id inbox t k))
]

listed-marked :
    (as_of : ℕ) (id : String) (ids : List String) (t : Table)
    → all_listed as_of (id ∷ ids) t ≡ true
    → all_listed as_of ids (mark_expired id t).1 ≡ true
unfolding mark_expired flip_status
listed-marked as_of id ids [] h = refl
listed-marked as_of id ids (r ∷ t) h = elim (Bool-cases (has_id_in is_pending id r)) [
  | inl e ↦ rw e (ground (arith, listed-marked as_of id ids t))
  | inr e ↦ rw e (ground (arith, e, listed-marked as_of id ids t))
]

-- For one message id `m`: expired actions are told, and no message stands twice under `m`.
abbrev pub Good : String → Desk PendingAction → Type 0
Good m s = (all_told s ≡ true) × (times m s.inbox ≤ 1)

module _ (m : String) (as_of : ℕ) (stringify : Value → String) where
  abbrev Due : List OverdueAction → Desk PendingAction → Type 0
  Due todo s = all_listed as_of (map (λ a. a.action_id) todo) s.table ≡ true

  -- The notice of the action is in the inbox.
  abbrev Sent : OverdueAction → Desk PendingAction → Type 0
  Sent a s = known (expiry_firing_id a.action_id) s.inbox ≡ true

  insert-Leads :
      (a : OverdueAction) (todo : List OverdueAction) (n : ℕ) (s : Desk PendingAction)
      → Good m s
      → Due todo s
      → Leads
          (Good m)
          (λ _ s. Good m s × Due todo s × Sent a s)
          (insert_step (to_expiry_item stringify a) n s)
  unfolding insert_step to_expiry_item
  insert-Leads a todo zero s g d = g
  insert-Leads a todo (suc n) s g d = (
    (
      told-grows s.serial (to_expiry_item stringify a) s.inbox s.table g.0,
      insert-once s.serial (to_expiry_item stringify a) s.inbox m g.1,
    ),
    d,
    insert-knows s.serial (to_expiry_item stringify a) s.inbox,
  )

  started-Leads :
      (a : OverdueAction) (todo : List OverdueAction) (r : Attempt String) (n : ℕ)
      (s : Desk PendingAction)
      → Good m s × Due todo s × Sent a s
      → Leads
          (Good m)
          (λ _ s. Good m s × Due todo s × Sent a s)
          (ended (started s r).0, n, (started s r).1)
  started-Leads a todo (returned id) n s h = h
  started-Leads a todo (threw e) n s h = h.0

  start-Leads :
      (a : OverdueAction) (todo : List OverdueAction) (n : ℕ) (s : Desk PendingAction)
      → Good m s × Due todo s × Sent a s
      → Leads
          (Good m)
          (λ _ s. Good m s × Due todo s × Sent a s)
          (start_step (to_expiry_item stringify a) n s)
  start-Leads a todo zero s h = h.0
  start-Leads a todo (suc n) s h =
      started-Leads a todo (drain_workflow_id (to_expiry_item stringify a).message_id) n s h

  mark-Leads :
      (a : OverdueAction) (todo : List OverdueAction) (n : ℕ) (s : Desk PendingAction)
      → Good m s × Due (a ∷ todo) s × Sent a s
      → Leads
          (Good m)
          (λ _ s. Good m s × Due todo s)
          (mark_step (λ t. mark_expired a.action_id t) n s)
  mark-Leads a todo zero s h = h.0
  mark-Leads a todo (suc n) s h = (
    (told-marked a.action_id s.inbox s.table h.2 h.0.0, h.0.1),
    listed-marked as_of a.action_id (map (λ a. a.action_id) todo) s.table h.1,
  )

  fire-Leads :
      (a : OverdueAction) (todo : List OverdueAction) (n : ℕ) (s : Desk PendingAction)
      → Good m s × Due (a ∷ todo) s
      → Leads
          (Good m)
          (λ _ s. Good m s × Due todo s)
          (fire (to_expiry_item stringify) (λ a t. mark_expired a.action_id t) a n s)
  unfolding fire
  fire-Leads a todo n s h =
      go_on-Leads (Good m) _ _ _ (insert_step (to_expiry_item stringify a) n s)
        (insert-Leads a (a ∷ todo) n s h.0 h.1)
        (λ _ n s h.
          go_on-Leads (Good m) _ _ _ (start_step (to_expiry_item stringify a) n s)
            (start-Leads a (a ∷ todo) n s h) (λ _ n s h. mark-Leads a todo n s h))

  fire_all-Leads :
      (todo : List OverdueAction) (n : ℕ) (s : Desk PendingAction)
      → Good m s × Due todo s
      → Leads
          (Good m)
          (λ _ s. Good m s × Due [] s)
          (fire_all (to_expiry_item stringify) (λ a t. mark_expired a.action_id t) todo n s)
  unfolding fire_all
  fire_all-Leads [] n s h = h
  fire_all-Leads (a ∷ todo) n s h =
      go_on-Leads (Good m) _ _ _
        (fire (to_expiry_item stringify) (λ a t. mark_expired a.action_id t) a n s)
        (fire-Leads a todo n s h) (λ _ n s h. fire_all-Leads todo n s h)

  Due-found :
      (t rows : Table)
      → covered (is_overdue as_of) (select (is_overdue as_of) t) rows ≡ true
      → all_listed as_of
          (map
            (λ a. a.action_id)
            (to_overdue_actions stringify (get_overdue_pending_actions as_of t)))
          rows
        ≡ true
  Due-found t [] h = refl
  Due-found t (r ∷ rows) h =
      ground (arith, any-listed stringify as_of (str_eq r.action_id) t, Due-found t rows)

  none_left : (t : Table) → all_listed as_of [] t ≡ true → any (is_overdue as_of) t ≡ false
  none_left [] h = refl
  none_left (r ∷ t) h = ground (arith, none_left t)

  found-Leads :
      (n : ℕ) (s : Desk PendingAction)
      → Good m s
      → Leads
          (Good m)
          (λ found s. Good m s × Due found s)
          (effect
            (λ s. (
              returned (to_overdue_actions stringify (get_overdue_pending_actions as_of s.table)),
              s,
            ))
            n
            s)
  found-Leads zero s h = h
  found-Leads (suc n) s h =
      (h, Due-found s.table s.table (select-covered (is_overdue as_of) s.table))

  -- If before a sweep the notice of every expired action is in the inbox and at most one row has the
  -- message id `m`, then both hold wherever the sweep stops; and if it returns, no pending action
  -- is past its time.
  pub expiry_sweep-Leads :
      (n : ℕ) (s : Desk PendingAction)
      → Good m s
      → Leads
          (Good m)
          (λ _ s. Good m s × (any (is_overdue as_of) s.table ≡ false))
          (expiry_sweep stringify as_of n s)
  unfolding expiry_sweep sweep
  expiry_sweep-Leads n s h =
      go_on-Leads (Good m) (λ found s. Good m s × Due found s) _ _ _ (found-Leads n s h)
        (λ found n s h.
          go_on-Leads (Good m) (λ _ s. Good m s × Due [] s) _ _
            (fire_all (to_expiry_item stringify) (λ a t. mark_expired a.action_id t) found n s)
            (fire_all-Leads found n s h) (λ _ n s h. (h.0, none_left s.table h.1)))
