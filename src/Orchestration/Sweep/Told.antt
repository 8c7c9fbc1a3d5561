-- ===== src/Orchestration/Sweep/Told.antt =====
-- The message ids in the inbox: an insert under an id makes it known, once, and forgets none.
use ezra.Common.{
  ℕ, ◌+◌, ◌≤◌, String, Bool, true, false, List, [], ◌∷◌, ◌++◌, str_eq, any, any-snoc, if◌then◌else◌,
  ◌≡◌, refl, subst, arith, eq_refl, eq_iff, ap, Bool-cases, inl, inr,
}
use ezra.Orchestration.Debounce.{InboxItem}
use ezra.Orchestration.Enqueue.{ConversationEnqueue, insert_inbox_item, row_of}

abbrev pub has_message : String → InboxItem → Bool
has_message m i = str_eq i.message_id m

abbrev pub known : String → List InboxItem → Bool
known m rows = any (has_message m) rows

-- How many rows of the inbox have a message id.
abbrev pub times : String → List InboxItem → ℕ
times m [] = 0
times m (i ∷ rows) = (if has_message m i then 1 else 0) + times m rows

times-append :
    (m : String) (rows : List InboxItem) (i : InboxItem)
    → times m (rows ++ i ∷ []) ≡ times m rows + times m (i ∷ [])
times-append m [] i = omega arith
times-append m (x ∷ rows) i = omega (arith, times-append m rows i)

times_unknown : (m : String) (rows : List InboxItem) → known m rows ≡ false → times m rows ≡ 0
times_unknown m [] h = refl
times_unknown m (x ∷ rows) h = ground (arith, times_unknown m rows)

once_more :
    (m : String) (rows : List InboxItem) (i : InboxItem)
    → known i.message_id rows ≡ false
    → times m rows ≤ 1
    → times m (rows ++ i ∷ []) ≤ 1
once_more m rows i k t = elim (Bool-cases (has_message m i)) [
  | inl h ↦ omega (
    arith,
    times-append m rows i,
    ap (λ b. (if b then 1 else 0) + 0) h,
    times_unknown m rows (subst (λ x. known x rows ≡ false) ((eq_iff i.message_id m).0 h) k),
  )
  | inr h ↦ omega (arith, times-append m rows i, ap (λ b. (if b then 1 else 0) + 0) h)
]

module _ (seq : ℕ) (item : ConversationEnqueue) (rows : List InboxItem) where
  pub insert-knows : known item.message_id (insert_inbox_item seq item rows).1 ≡ true
  unfolding insert_inbox_item
  insert-knows = elim (Bool-cases (known item.message_id rows)) [
    | inl h ↦ rw (h, h) refl
    | inr h ↦ rw h (
        any-snoc (has_message item.message_id) rows (row_of seq item)
          (inr (eq_refl item.message_id)))
  ]

  pub insert-still_knows :
      (m : String) → known m rows ≡ true → known m (insert_inbox_item seq item rows).1 ≡ true
  unfolding insert_inbox_item
  insert-still_knows m k = elim (Bool-cases (known item.message_id rows)) [
    | inl h ↦ rw h k
    | inr h ↦ rw h (any-snoc (has_message m) rows (row_of seq item) (inl k))
  ]

  pub insert-once :
      (m : String) → times m rows ≤ 1 → times m (insert_inbox_item seq item rows).1 ≤ 1
  unfolding insert_inbox_item
  insert-once m t = elim (Bool-cases (known item.message_id rows)) [
    | inl h ↦ rw h t
    | inr h ↦ rw h (once_more m rows (row_of seq item) h t)
  ]
