-- ===== src/Orchestration/Drain/Once.antt =====
-- Every item is processed once, and the lane is left empty.
use ezra.Common.{
  ℕ, zero, suc, ◌≤◌, ◌<◌, Option, some, String, Attempt, returned, threw, List, [], ◌∷◌, length,
  ◌≡◌, refl, sym, ap, ◌∙◌, arith, subst,
}
use ezra.Common.Sorting.Keys.{by_key, sort-perm}
use ezra.Orchestration.Debounce.{InboxItem, group_into_batches}
use ezra.Orchestration.Debounce.Batches.{flatten, group_into_batches-Batched, Batched}
use ezra.Orchestration.Drain.{
  Lane, load, get_pending_inbox, process_batches, wait_quiet, take_processed, take_quiet,
  take_pending, drain_loop, drain,
}
use ezra.Orchestration.Drain.Quiet.{
  Waits, process_batches-less, process_batches-rejected, wait_quiet-Waits,
}
use ezra.Orchestration.Drain.Counts.{about, count, count-append, count-perm, process_batches-about}

-- The batches of a lane hold its rows.
group-count :
    (n : ℕ) (l : Lane)
    → count n (flatten (group_into_batches (get_pending_inbox l))) ≡ count n l.rows
unfolding get_pending_inbox
group-count n l =
    count-perm n _ _ (group_into_batches-Batched (get_pending_inbox l)).0
    ∙ count-perm n _ _ (sort-perm (by_key (λ i. i.seq)) l.rows)

-- How a drain ends: with no row left, or with the error of a batch.
abbrev pub Ends :
    (List InboxItem → List (List InboxItem) → Option String) → Attempt ℕ → Lane → Type 0
Ends rejects (returned batches) l = l.rows ≡ []
Ends rejects (threw e) l = (b : List InboxItem) × (rejects b l.processed ≡ some e)

-- The result of a drain, and that every number is about as often as before.
pub record Drained (rejects : List InboxItem → List (List InboxItem) → Option String) (l : Lane)
    (o : Option (Attempt ℕ × Lane)) : Type 0 where
  pub result : Attempt ℕ
  pub lane : Lane
  pub returns : o ≡ some (result, lane)
  pub ended : Ends rejects result lane
  pub once : (n : ℕ) → about n lane ≡ about n l

Drained-later :
    (rejects : List InboxItem → List (List InboxItem) → Option String) {l m : Lane}
    (o : Option (Attempt ℕ × Lane))
    → ((n : ℕ) → about n m ≡ about n l)
    → Drained rejects m o
    → Drained rejects l o
Drained-later rejects o same d = record {
  result = d.result;
  lane = d.lane;
  returns = d.returns;
  ended = d.ended;
  once = λ n. d.once n ∙ same n;
}

-- The batches of a round are about as much, and leave less if there was a row.
round-less :
    (rejects : List InboxItem → List (List InboxItem) → Option String) (n : ℕ) (l : Lane)
    (bs : List (List InboxItem))
    → Batched bs
    → 1 ≤ count n (flatten bs)
    → ((k : ℕ) → count k (flatten bs) ≤ count k l.rows)
    → (process_batches rejects bs l).0 ≡ returned tt
    → load (process_batches rejects bs l).1 < load l
round-less rejects n l [] w c r h = absurd (omega arith)
round-less rejects n l ([] ∷ bs) w c r h = absurd (w.0)
round-less rejects n l ((x ∷ b) ∷ bs) w c r h =
    let one : 1 ≤ count x.seq (x ∷ b) = ground arith in
    process_batches-less rejects (x ∷ b) bs l x.seq one
      (omega (arith, one, r x.seq, count-append x.seq (x ∷ b) (flatten bs))) h

no-rows : (rows : List InboxItem) → ((n : ℕ) → count n rows ≡ 0) → rows ≡ []
no-rows [] h = refl
no-rows (r ∷ rows) h = absurd (ground (arith, h r.seq))

first-row :
    (l : Lane) {p : InboxItem} {ps : List InboxItem}
    → get_pending_inbox l ≡ p ∷ ps
    → 1 ≤ count p.seq l.rows
unfolding get_pending_inbox
first-row l {p = p} {ps = ps} e =
    let same = count-perm p.seq _ _ (sort-perm (by_key (λ i. i.seq)) l.rows) in
    ground (arith, same, ap (λ xs. count p.seq xs) e)

no-pending : (l : Lane) → get_pending_inbox l ≡ [] → l.rows ≡ []
unfolding get_pending_inbox
no-pending l e =
    no-rows l.rows (λ n.
      sym (count-perm n _ _ (sort-perm (by_key (λ i. i.seq)) l.rows)) ∙ ap (λ xs. count n xs) e)

module _ (silence most : ℕ) (rejects : List InboxItem → List (List InboxItem) → Option String) where
  processed-Drained :
      (again : ℕ → Lane → Option (Attempt ℕ × Lane)) (k : ℕ) (l : Lane)
      (p : Attempt (Unit {0}) × Lane)
      → ((n : ℕ) → about n p.1 ≡ about n l)
      → (p.0 ≡ returned tt → load p.1 < load l)
      → ((e : String) → p.0 ≡ threw e → Ends rejects (threw e) p.1)
      → ((n : ℕ) → about n l ≤ 1)
      → ((k : ℕ) (m : Lane)
          → load m < load l
          → ((n : ℕ) → about n m ≤ 1)
          → Drained rejects m (again k m))
      → Drained rejects l (take_processed silence most rejects again k p)
  unfolding take_processed
  processed-Drained again k l (returned u, m) same less why one next =
      Drained-later rejects _ same (next k m (less refl) (λ n. omega (arith, same n, one n)))
  processed-Drained again k l (threw e, m) same less why one next = record {
    result = threw e;
    lane = m;
    returns = refl;
    ended = why e refl;
    once = same;
  }

  quiet-Drained :
      (again : ℕ → Lane → Option (Attempt ℕ × Lane)) (count' : ℕ) (l : Lane) (o : Option Lane)
      → Waits l o
      → (n : ℕ) → 1 ≤ count n l.rows
      → ((n : ℕ) → about n l ≤ 1)
      → ((k : ℕ) (m : Lane)
          → load m < load l
          → ((n : ℕ) → about n m ≤ 1)
          → Drained rejects m (again k m))
      → Drained rejects l (take_quiet silence most rejects again count' o)
  unfolding take_quiet
  quiet-Drained again count' l o w n there u next =
      let m = w.lane in
      let bs = group_into_batches (get_pending_inbox m) in
      let same : (k : ℕ) → about k (process_batches rejects bs m).1 ≡ about k l = λ k.
        process_batches-about rejects k bs m (omega (arith, w.passes.same k, u k))
          (omega (arith, group-count k m))
        ∙ w.passes.same k in
      let less : (process_batches rejects bs m).0 ≡ returned tt
          → load (process_batches rejects bs m).1 < load l =
        λ h. omega (
          arith,
          w.passes.loads,
          round-less rejects n m bs (group_into_batches-Batched (get_pending_inbox m)).2
              (omega (arith, group-count n m, w.passes.more n))
              (λ k. omega (arith, group-count k m)) h,
        ) in
      subst (λ o. Drained rejects l (take_quiet silence most rejects again count' o)) (sym w.ended)
        (processed-Drained again _ l (process_batches rejects bs m) same less
          (process_batches-rejected rejects bs m) u next)

  -- A round, the next one being right.
  round-Drained :
      (again : ℕ → Lane → Option (Attempt ℕ × Lane)) (count' : ℕ) (l : Lane)
      (pending : List InboxItem)
      → get_pending_inbox l ≡ pending
      → ((n : ℕ) → about n l ≤ 1)
      → ((k : ℕ) (m : Lane)
          → load m < load l
          → ((n : ℕ) → about n m ≤ 1)
          → Drained rejects m (again k m))
      → Drained rejects l (take_pending silence most rejects again count' l pending)
  unfolding take_pending take_quiet
  round-Drained again count' l [] e u next = record {
    result = returned count';
    lane = l;
    returns = refl;
    ended = no-pending l e;
    once = λ n. refl;
  }
  round-Drained again count' l (p ∷ ps) e u next =
      let w : Waits l (wait_quiet silence most (suc (length l.later)) 0 (p ∷ ps) l) =
        subst (λ xs. Waits l (wait_quiet silence most (suc (length l.later)) 0 xs l)) e
          (wait_quiet-Waits silence most (suc (length l.later)) 0 l l.rows l.later refl refl
            (omega arith)) in
      quiet-Drained again count' l _ w p.seq (first-row l e) u next

  loop-Drained :
      (fuel count' : ℕ) (l : Lane)
      → load l < fuel
      → ((n : ℕ) → about n l ≤ 1)
      → Drained rejects l (drain_loop silence most rejects fuel count' l)
  unfolding drain_loop
  loop-Drained zero count' l h u = absurd (omega arith)
  loop-Drained (suc fuel) count' l h u =
      round-Drained _ count' l (get_pending_inbox l) refl u
        (λ k m less one. loop-Drained fuel k m (omega (arith, less)) one)

  -- If no two of the items that are in the inbox, will arrive, or were processed have one sequence
  -- number, the drain ends, and every number stands exactly as often as before among the items
  -- unprocessed, processed and still to arrive. If it returns, no unprocessed row is left, so each item
  -- that was there or arrived in time has been processed once; if it rejects, it is with the error of
  -- one batch, and no item is lost.
  pub drain-Drained :
      (l : Lane) → ((n : ℕ) → about n l ≤ 1) → Drained rejects l (drain silence most rejects l)
  unfolding drain
  drain-Drained l u = loop-Drained (suc (load l)) 0 l (omega arith) u
