-- ===== src/Orchestration/Debounce/Batches.antt =====
-- What the batches are: the inbox in sequence order, cut wherever two neighbours do not belong
-- together and nowhere else.
use mathlib.Core.List.{Permᴰ}
use ezra.Common.{
  arith, eq_iff, true, false, some, List, [], ◌∷◌, ◌++◌, if◌then◌else◌, ◌≡◌, refl, ap, ◌∙◌,
  Bool-cases, inl, inr, append_assoc,
}
use ezra.Common.Sorting.{sort}
use ezra.Common.Sorting.Keys.{by_key, Ascending, sort-perm, sort-Ascending}
use ezra.Orchestration.Debounce.{
  InboxItem, is_human, last, follows, continues_run, push_batch, group_loop, group_into_batches,
}

abbrev pub flatten : List (List InboxItem) → List InboxItem
flatten [] = []
flatten (b ∷ bs) = b ++ flatten bs

-- The same cut from the right end.
abbrev attach : InboxItem → List (List InboxItem) → List (List InboxItem)
attach x [] = (x ∷ []) ∷ []
attach x ([] ∷ bs) = (x ∷ []) ∷ bs
attach x ((y ∷ b) ∷ bs) = if follows x y then (x ∷ y ∷ b) ∷ bs else (x ∷ []) ∷ (y ∷ b) ∷ bs

abbrev runs : List InboxItem → List (List InboxItem)
runs [] = []
runs (x ∷ xs) = attach x (runs xs)

-- The first batch under a longer start.
abbrev prepend : List InboxItem → List (List InboxItem) → List (List InboxItem)
prepend xs [] = []
prepend xs (b ∷ bs) = (xs ++ b) ∷ bs

last-append : (xs : List InboxItem) (x : InboxItem) → last (xs ++ x ∷ []) ≡ some x
last-append [] x = refl
last-append (y ∷ []) x = refl
last-append (y ∷ z ∷ xs) x = last-append (z ∷ xs) x

push_batch-append :
    (bs : List (List InboxItem)) (xs : List InboxItem) (x : InboxItem)
    → push_batch bs (xs ++ x ∷ []) ≡ bs ++ (xs ++ x ∷ []) ∷ []
unfolding push_batch
push_batch-append bs [] x = refl
push_batch-append bs (y ∷ xs) x = refl

-- The first batch of a list starts with its first item.
record Starts (x : InboxItem) (bs : List (List InboxItem)) : Type 0 where
  first : List InboxItem
  rest : List (List InboxItem)
  same : bs ≡ (x ∷ first) ∷ rest

attach-Starts : (x : InboxItem) (bs : List (List InboxItem)) → Starts x (attach x bs)
attach-Starts x [] = record { first = []; rest = []; same = refl }
attach-Starts x ([] ∷ bs) = record { first = []; rest = bs; same = refl }
attach-Starts x ((y ∷ b) ∷ bs) = elim (Bool-cases (follows x y)) [
  | inl h ↦ record { first = y ∷ b; rest = bs; same = rw h refl }
  | inr h ↦ record { first = []; rest = (y ∷ b) ∷ bs; same = rw h refl }
]

attach-joined :
    (p x : InboxItem) (xs first : List InboxItem) (rest bs : List (List InboxItem))
    → bs ≡ (x ∷ first) ∷ rest
    → follows p x ≡ true
    → prepend (xs ++ p ∷ []) bs ≡ prepend xs (attach p bs)
attach-joined p x xs first rest bs e h =
    rw (e, h) (ap (λ b. b ∷ rest) (append_assoc xs (p ∷ []) (x ∷ first)))

attach-split :
    (p x : InboxItem) (xs first : List InboxItem) (rest bs : List (List InboxItem))
    → bs ≡ (x ∷ first) ∷ rest
    → follows p x ≡ false
    → (xs ++ p ∷ []) ∷ prepend [] bs ≡ prepend xs (attach p bs)
attach-split p x xs first rest bs e h = rw (e, h) refl

joined-runs :
    (p x : InboxItem) (xs items : List InboxItem)
    → follows p x ≡ true
    → prepend (xs ++ p ∷ []) (runs (x ∷ items)) ≡ prepend xs (runs (p ∷ x ∷ items))
joined-runs p x xs items h =
    let s = attach-Starts x (runs items) in
    attach-joined p x xs s.first s.rest (runs (x ∷ items)) s.same h

split-runs :
    (p x : InboxItem) (xs items : List InboxItem)
    → follows p x ≡ false
    → (xs ++ p ∷ []) ∷ prepend [] (runs (x ∷ items)) ≡ prepend xs (runs (p ∷ x ∷ items))
split-runs p x xs items h =
    let s = attach-Starts x (runs items) in
    attach-split p x xs s.first s.rest (runs (x ∷ items)) s.same h

-- The loop whose open batch ends in `p` makes the runs from `p` on.
group_loop-runs :
    (bs : List (List InboxItem)) (xs : List InboxItem) (p : InboxItem) (items : List InboxItem)
    → group_loop bs (xs ++ p ∷ []) items ≡ bs ++ prepend xs (runs (p ∷ items))
unfolding group_loop continues_run
group_loop-runs bs xs p [] = push_batch-append bs xs p
group_loop-runs bs xs p (x ∷ items) = elim (Bool-cases (follows p x)) [
  | inl h ↦
      rw (last-append xs p, h)
        (group_loop-runs bs (xs ++ p ∷ []) x items ∙ ap (λ r. bs ++ r) (joined-runs p x xs items h))
  | inr h ↦
      rw (last-append xs p, h)
        (group_loop-runs (push_batch bs (xs ++ p ∷ [])) [] x items
          ∙ ap (λ l. l ++ prepend [] (runs (x ∷ items))) (push_batch-append bs xs p)
          ∙ append_assoc bs ((xs ++ p ∷ []) ∷ []) (prepend [] (runs (x ∷ items)))
          ∙ ap (λ r. bs ++ r) (split-runs p x xs items h))
]

prepend-nil : (bs : List (List InboxItem)) → prepend [] bs ≡ bs
prepend-nil [] = refl
prepend-nil (b ∷ bs) = refl

group_loop_lem : (items : List InboxItem) → group_loop [] [] items ≡ runs items
unfolding group_loop continues_run push_batch
group_loop_lem [] = refl
group_loop_lem (x ∷ items) = group_loop-runs [] [] x items ∙ prepend-nil (runs (x ∷ items))

flatten-attach :
    (x : InboxItem) (bs : List (List InboxItem)) → flatten (attach x bs) ≡ x ∷ flatten bs
flatten-attach x [] = refl
flatten-attach x ([] ∷ bs) = refl
flatten-attach x ((y ∷ b) ∷ bs) = elim (Bool-cases (follows x y)) [
  | inl h ↦ rw h refl
  | inr h ↦ rw h refl
]

flatten-runs : (xs : List InboxItem) → flatten (runs xs) ≡ xs
flatten-runs [] = refl
flatten-runs (x ∷ xs) = flatten-attach x (runs xs) ∙ ap (λ r. x ∷ r) (flatten-runs xs)

-- Two items of one thought: both from a person, and from the same one.
abbrev pub Together : InboxItem → InboxItem → Type 0
Together x y = (is_human x.kind ≡ true) × (is_human y.kind ≡ true) × (x.sender_id ≡ y.sender_id)

follows-Together : (x y : InboxItem) → follows x y ≡ true → Together x y
follows-Together x y h = ground (arith, eq_iff x.sender_id y.sender_id)

follows-apart : (x y : InboxItem) → follows x y ≡ false → Together x y → ⊥
follows-apart x y h t = ground (arith, eq_iff x.sender_id y.sender_id)

-- Every item of a batch belongs with the one before it.
abbrev pub Chained : List InboxItem → Type 0
Chained [] = ⊥
Chained (x ∷ []) = Unit
Chained (x ∷ y ∷ xs) = Together x y × Chained (y ∷ xs)

abbrev pub Apart : List InboxItem → List InboxItem → Type 0
Apart [] c = ⊥
Apart (x ∷ []) [] = ⊥
Apart (x ∷ []) (y ∷ c) = Together x y → ⊥
Apart (x ∷ z ∷ b) c = Apart (z ∷ b) c

-- No batch could have gone on with the first item of the next.
abbrev pub Cut : List InboxItem → List (List InboxItem) → Type 0
Cut b [] = Unit
Cut b (c ∷ bs) = Apart b c

abbrev pub Batched : List (List InboxItem) → Type 0
Batched [] = Unit
Batched (b ∷ bs) = Chained b × Cut b bs × Batched bs

Cut-longer :
    (x y : InboxItem) (b : List InboxItem) (bs : List (List InboxItem))
    → Cut (y ∷ b) bs
    → Cut (x ∷ y ∷ b) bs
Cut-longer x y b [] c = tt
Cut-longer x y b (d ∷ bs) c = c

attach-Batched : (x : InboxItem) (bs : List (List InboxItem)) → Batched bs → Batched (attach x bs)
attach-Batched x [] w = (tt, tt, tt)
attach-Batched x ([] ∷ bs) w = absurd (w.0)
attach-Batched x ((y ∷ b) ∷ bs) w = elim (Bool-cases (follows x y)) [
  | inl h ↦ rw h ((follows-Together x y h, w.0), Cut-longer x y b bs w.1, w.2)
  | inr h ↦ rw h (tt, follows-apart x y h, w)
]

runs-Batched : (xs : List InboxItem) → Batched (runs xs)
runs-Batched [] = tt
runs-Batched (x ∷ xs) = attach-Batched x (runs xs) (runs-Batched xs)

-- The batches, one after the other, are the given items in ascending sequence order, none lost,
-- added or doubled; every batch holds at least one item, and either one item or only human items of
-- one sender; and no batch could have gone on with the first item of the next.
pub group_into_batches-Batched :
    (items : List InboxItem)
    → Permᴰ (flatten (group_into_batches items)) items
      × Ascending (λ i. i.seq) (flatten (group_into_batches items))
      × Batched (group_into_batches items)
unfolding group_into_batches
group_into_batches-Batched items =
    let sorted = sort (by_key (λ (i : InboxItem). i.seq)) items in
    rw (group_loop_lem sorted, flatten-runs sorted)
      (sort-perm _ items, sort-Ascending (λ i. i.seq) items, runs-Batched sorted)
