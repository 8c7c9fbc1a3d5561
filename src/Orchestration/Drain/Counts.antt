-- ===== src/Orchestration/Drain/Counts.antt =====
-- What time, a processed batch and its marking do to the number of items of a sequence number.
use mathlib.Core.List.{Permᴰ}
use ezra.Common.{
  ℕ, ◌+◌, ◌≤◌, ◌<◌, true, not, String, Option, none, some, Attempt, List, [], ◌∷◌, ◌++◌, map, any,
  select, length, ltb, ◌==◌, if◌then◌else◌, ◌≡◌, refl, sym, ap, ◌∙◌, arith, length-append,
  Bool-cases, inl, inr,
}
use ezra.Orchestration.Debounce.{InboxItem}
use ezra.Orchestration.Debounce.Batches.{flatten}
use ezra.Orchestration.Drain.{
  Lane, load, let_pass_as, mark_inbox_processed, process_batch, process_batches, unless_rejected,
}

-- How many items of a list have the sequence number `n`.
abbrev pub count : ℕ → List InboxItem → ℕ
count n [] = 0
count n (x ∷ xs) = (if x.seq == n then 1 else 0) + count n xs

abbrev pub count_all : ℕ → List (List InboxItem) → ℕ
count_all n [] = 0
count_all n (xs ∷ xss) = count n xs + count_all n xss

-- How often the number `n` is about: among the rows, still to arrive, or processed.
abbrev pub about : ℕ → Lane → ℕ
about n l = count n l.rows + count_all n l.later + count_all n l.processed

pub count-append : (n : ℕ) (xs ys : List InboxItem) → count n (xs ++ ys) ≡ count n xs + count n ys
count-append n [] ys = omega arith
count-append n (x ∷ xs) ys = omega (arith, count-append n xs ys)

pub count_all-append :
    (n : ℕ) (xss yss : List (List InboxItem))
    → count_all n (xss ++ yss) ≡ count_all n xss + count_all n yss
count_all-append n [] yss = omega arith
count_all-append n (xs ∷ xss) yss = omega (arith, count_all-append n xss yss)

pub count-flatten : (n : ℕ) (bs : List (List InboxItem)) → count n (flatten bs) ≡ count_all n bs
count-flatten n [] = refl
count-flatten n (b ∷ bs) = omega (arith, count-append n b (flatten bs), count-flatten n bs)

pub count-perm : (n : ℕ) (xs ys : List InboxItem) → Permᴰ xs ys → count n xs ≡ count n ys
count-perm n xs ys Permᴰ.nil = refl
count-perm n xs ys (Permᴰ.cons {l₁ = l} {l₂ = k} e p) = rw e (omega (arith, count-perm n l k p))
count-perm n xs ys (Permᴰ.swap e f) = rw (e, f) (omega arith)
count-perm n xs ys (Permᴰ.trans {l₂ = m} p q) = count-perm n xs m p ∙ count-perm n m ys q

pub any-same : (n m : ℕ) (seqs : List ℕ) → m ≡ n → any (λ s. s == m) seqs ≡ any (λ s. s == n) seqs
any-same n m seqs e = ap (λ k. any (λ s. s == k) seqs) e

-- Marking removes exactly the rows with the numbers given.
pub count-marked :
    (n : ℕ) (seqs : List ℕ) (rows : List InboxItem)
    → count n (select (λ r. not (any (λ s. s == r.seq) seqs)) rows)
      ≡ (if any (λ s. s == n) seqs then 0 else count n rows)
count-marked n seqs [] = ground arith
count-marked n seqs (r ∷ rows) = elim (Bool-cases (any (λ s. s == r.seq) seqs)) [
  | inl h ↦ rw h (ground (arith, h, any-same n r.seq seqs, count-marked n seqs rows))
  | inr h ↦ rw h (ground (arith, h, any-same n r.seq seqs, count-marked n seqs rows))
]

pub length-marked :
    (seqs : List ℕ) (rows : List InboxItem)
    → length (select (λ r. not (any (λ s. s == r.seq) seqs)) rows) ≤ length rows
length-marked seqs [] = omega arith
length-marked seqs (r ∷ rows) = ground (arith, length-marked seqs rows)

pub length-marked_one :
    (n : ℕ) (seqs : List ℕ) (rows : List InboxItem)
    → any (λ s. s == n) seqs ≡ true
    → 1 ≤ count n rows
    → length (select (λ r. not (any (λ s. s == r.seq) seqs)) rows) < length rows
length-marked_one n seqs [] h c = absurd (omega arith)
length-marked_one n seqs (r ∷ rows) h c = elim (Bool-cases (any (λ s. s == r.seq) seqs)) [
  | inl k ↦ rw k (omega (arith, length-marked seqs rows))
  | inr k ↦ rw k (ground (arith, k, any-same n r.seq seqs, length-marked_one n seqs rows h))
]

pub any-seqs :
    (n : ℕ) (b : List InboxItem) → any (λ s. s == n) (map (λ i. i.seq) b) ≡ ltb 0 (count n b)
any-seqs n [] = refl
any-seqs n (x ∷ b) = ground (arith, any-seqs n b)

-- Time moves items from what is to come to the rows.
pub record Passes (l l' : Lane) : Type 0 where
  pub same : (n : ℕ) → about n l' ≡ about n l
  pub more : (n : ℕ) → count n l.rows ≤ count n l'.rows
  pub loads : load l' ≡ load l
  pub done : l'.processed ≡ l.processed

pub let_pass_as-Passes :
    (rows : List InboxItem) (later : List (List InboxItem)) (l : Lane)
    → rows ≡ l.rows
    → later ≡ l.later
    → Passes l (let_pass_as rows later l)
let_pass_as-Passes rows [] l e f = record {
  same = λ n. refl;
  more = λ n. omega arith;
  loads = refl;
  done = refl;
}
let_pass_as-Passes rows (new ∷ later) l e f =
    rw (sym e, sym f)
      (record {
        same = λ n. omega (arith, count-append n rows new);
        more = λ n. omega (arith, count-append n rows new);
        loads = omega (arith, length-append rows new);
        done = refl;
      })

pub batch-step :
    (n : ℕ) (b : List InboxItem) (bs : List (List InboxItem)) (l : Lane)
    → about n l ≤ 1
    → count n (b ++ flatten bs) ≤ count n l.rows
    → let l' = mark_inbox_processed (map (λ i. i.seq) b) (process_batch none b l).1 in
      (about n l' ≡ about n l) × (count n (flatten bs) ≤ count n l'.rows)
unfolding mark_inbox_processed
batch-step n b bs l u c =
    let start : Lane = record l { processed = l.processed ++ b ∷ [] } in
    let p = let_pass_as-Passes l.rows l.later start refl refl in
    ground (
      arith,
      p.same n,
      p.more n,
      count-marked n (map (λ i. i.seq) b) (process_batch none b l).1.rows,
      any-seqs n b,
      count-append n b (flatten bs),
      count_all-append n l.processed (b ∷ []),
      u,
      c,
    )

module _ (rejects : List InboxItem → List (List InboxItem) → Option String) where
  pub process_batches-about :
      (n : ℕ) (bs : List (List InboxItem)) (l : Lane)
      → about n l ≤ 1
      → count n (flatten bs) ≤ count n l.rows
      → about n (process_batches rejects bs l).1 ≡ about n l
  unfolding process_batches
  process_batches-about n [] l u c = refl
  process_batches-about n (b ∷ bs) l u c =
      let (same, more) = batch-step n b bs l u c in
      either (rejects b l.processed)
        (process_batches-about n bs _ (omega (arith, same, u)) more ∙ same)
    where
      rest : Lane → Attempt (Unit {0}) × Lane
      rest l' = process_batches rejects bs (mark_inbox_processed (map (λ i. i.seq) b) l')

      either :
          (x : Option String)
          → about n (rest (process_batch none b l).1).1 ≡ about n l
          → about n (unless_rejected rest (process_batch x b l)).1 ≡ about n l
      either none accepted = accepted
      either (some e) accepted = (let_pass_as-Passes l.rows l.later l refl refl).same n
