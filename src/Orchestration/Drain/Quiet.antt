-- ===== src/Orchestration/Drain/Quiet.antt =====
-- The silence window ends, and a batch leaves less to do.
use ezra.Common.{
  ℕ, zero, suc, ◌+◌, ◌≤◌, ◌<◌, Bool, true, not, ◌||◌, Option, none, some, String, Attempt, returned,
  threw, List, [], ◌∷◌, ◌++◌, map, any, length, ltb, leb, ◌==◌, ◌≡◌, refl, ap, ◌∙◌, arith,
  Bool-cases, inl, inr, subst,
}
use ezra.Orchestration.Debounce.{InboxItem}
use ezra.Orchestration.Drain.{
  Lane, load, let_pass_as, let_pass, get_pending_inbox, mark_inbox_processed, process_batch,
  process_batches, unless_rejected, wait_quiet,
}
use ezra.Orchestration.Drain.Counts.{
  Passes, any-seqs, count, length-marked, length-marked_one, let_pass_as-Passes,
}

module _ (rejects : List InboxItem → List (List InboxItem) → Option String) where
  pub process_batches-load :
      (bs : List (List InboxItem)) (l : Lane) → load (process_batches rejects bs l).1 ≤ load l
  unfolding process_batches mark_inbox_processed
  process_batches-load [] l = omega arith
  process_batches-load (b ∷ bs) l =
      let start : Lane = record l { processed = l.processed ++ b ∷ [] } in
      let p = let_pass_as-Passes l.rows l.later start refl refl in
      let after = (process_batch none b l).1 in
      either (rejects b l.processed) (
        omega (
          arith,
          p.loads,
          length-marked (map (λ i. i.seq) b) after.rows,
          process_batches-load bs (mark_inbox_processed (map (λ i. i.seq) b) after),
        ))
    where
      rest : Lane → Attempt (Unit {0}) × Lane
      rest l' = process_batches rejects bs (mark_inbox_processed (map (λ i. i.seq) b) l')

      either :
          (x : Option String)
          → load (rest (process_batch none b l).1).1 ≤ load l
          → load (unless_rejected rest (process_batch x b l)).1 ≤ load l
      either none accepted = accepted
      either (some e) accepted =
          omega (arith, (let_pass_as-Passes l.rows l.later l refl refl).loads)

  -- A batch of items that are there leaves fewer, unless a batch is rejected.
  pub process_batches-less :
      (b : List InboxItem) (bs : List (List InboxItem)) (l : Lane) (n : ℕ)
      → 1 ≤ count n b
      → 1 ≤ count n l.rows
      → (process_batches rejects (b ∷ bs) l).0 ≡ returned tt
      → load (process_batches rejects (b ∷ bs) l).1 < load l
  unfolding process_batches mark_inbox_processed
  process_batches-less b bs l n c r = either (rejects b l.processed)
    where
      rest : Lane → Attempt (Unit {0}) × Lane
      rest l' = process_batches rejects bs (mark_inbox_processed (map (λ i. i.seq) b) l')

      either :
          (x : Option String)
          → (unless_rejected rest (process_batch x b l)).0 ≡ returned tt
          → load (unless_rejected rest (process_batch x b l)).1 < load l
      either none h =
          let start : Lane = record l { processed = l.processed ++ b ∷ [] } in
          let p = let_pass_as-Passes l.rows l.later start refl refl in
          let after = (process_batch none b l).1 in
          let listed : any (λ s. s == n) (map (λ i. i.seq) b) ≡ true =
            ground (arith, any-seqs n b) in
          let there : 1 ≤ count n after.rows = omega (arith, p.more n) in
          omega (
            arith,
            p.loads,
            length-marked_one n (map (λ i. i.seq) b) after.rows listed there,
            process_batches-load bs (mark_inbox_processed (map (λ i. i.seq) b) after),
          )
      either (some e) h = cc

  -- The error that ends the batches is that of one batch, at what had been processed then.
  pub process_batches-rejected :
      (bs : List (List InboxItem)) (l : Lane) (e : String)
      → (process_batches rejects bs l).0 ≡ threw e
      → (b : List InboxItem) × (rejects b (process_batches rejects bs l).1.processed ≡ some e)
  unfolding process_batches
  process_batches-rejected [] l e = λ h. cc h
  process_batches-rejected (b ∷ bs) l e =
      either (rejects b l.processed) refl (process_batches-rejected bs _ e)
    where
      rest : Lane → Attempt (Unit {0}) × Lane
      rest l' = process_batches rejects bs (mark_inbox_processed (map (λ i. i.seq) b) l')

      By : Attempt (Unit {0}) × Lane → Type 0
      By p = p.0 ≡ threw e → (c : List InboxItem) × (rejects c p.1.processed ≡ some e)

      either :
          (x : Option String)
          → rejects b l.processed ≡ x
          → By (rest (process_batch none b l).1)
          → By (unless_rejected rest (process_batch x b l))
      either none at accepted h = accepted h
      either (some f) at accepted h =
          (b, ap (rejects b) (let_pass_as-Passes l.rows l.later l refl refl).done ∙ at ∙ cc h)

-- A wait that ends.
pub record Waits (l : Lane) (o : Option Lane) : Type 0 where
  pub lane : Lane
  pub ended : o ≡ some lane
  pub passes : Passes l lane

Passes-trans : {l m n : Lane} → Passes l m → Passes m n → Passes l n
Passes-trans p q = record {
  same = λ n. q.same n ∙ p.same n;
  more = λ n. omega (arith, p.more n, q.more n);
  loads = q.loads ∙ p.loads;
  done = q.done ∙ p.done;
}

Waits-later : {l m : Lane} (o : Option Lane) → Passes l m → Waits m o → Waits l o
Waits-later o p w = record { lane = w.lane; ended = w.ended; passes = Passes-trans p w.passes }

let_pass-Passes : (l : Lane) → Passes l (let_pass l)
let_pass-Passes l = let_pass_as-Passes l.rows l.later l refl refl

let_pass-still : (l : Lane) → [] ≡ l.later → let_pass l ≡ l
let_pass-still l f = subst (λ later. let_pass_as l.rows later l ≡ l) f refl

let_pass-later :
    (l : Lane) {new : List InboxItem} {later : List (List InboxItem)}
    → (new ∷ later) ≡ l.later
    → later ≡ (let_pass l).later
let_pass-later l {new = new} {later = later} f =
    subst (λ k. later ≡ (let_pass_as l.rows k l).later) f refl

module _ (silence most : ℕ) where
  abbrev stops : ℕ → Lane → Bool
  stops waited l =
      not (ltb (length (get_pending_inbox l)) (length (get_pending_inbox (let_pass l))))
      || leb most (waited + silence)

  pub wait_quiet-Waits :
      (fuel waited : ℕ) (l : Lane) (rows : List InboxItem) (later : List (List InboxItem))
      → rows ≡ l.rows
      → later ≡ l.later
      → length later < fuel
      → Waits l (wait_quiet silence most fuel waited (get_pending_inbox l) l)
  unfolding wait_quiet
  wait_quiet-Waits zero waited l rows later e f h = absurd (omega arith)
  wait_quiet-Waits (suc fuel) waited l rows [] e f h = elim (Bool-cases (stops waited l)) [
    | inl k ↦ rw k (record { lane = let_pass l; ended = refl; passes = let_pass-Passes l })
    | inr k ↦
        absurd (ground (arith, ap (λ m. length (get_pending_inbox m)) (let_pass-still l f), k))
  ]
  wait_quiet-Waits (suc fuel) waited l rows (new ∷ later) e f h =
      elim (Bool-cases (stops waited l)) [
        | inl k ↦ rw k (record { lane = let_pass l; ended = refl; passes = let_pass-Passes l })
        | inr k ↦ rw k (
            Waits-later _ (let_pass-Passes l) (
              wait_quiet-Waits fuel (waited + silence) (let_pass l) (let_pass l).rows later refl
                (let_pass-later l f) (omega arith)))
      ]
