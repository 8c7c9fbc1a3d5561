-- ===== src/Transport/RecentIds/Echoes.antt =====
-- The set stays within its capacity, and a sent id stays in it while fewer than that many others come.
use ezra.Common.{
  ℕ, suc, ◌+◌, ◌≤◌, ◌<◌, String, true, false, List, [], ◌∷◌, ◌++◌, str_eq, eq_refl, eq_iff, any,
  length, length-append, if◌then◌else◌, ◌≡◌, refl, arith, subst, Bool-cases, inl, inr,
}
use ezra.Transport.RecentIds.{RecentIds, has, without, trimmed, add, add_all}

length-without : (id : String) (ids : List String) → length (without id ids) ≤ length ids
length-without id [] = omega arith
length-without id (x ∷ ids) = ground (arith, length-without id ids)

length-trimmed :
    (capacity : ℕ) (ids : List String)
    → length ids ≤ suc capacity
    → length (trimmed capacity ids) ≤ capacity
length-trimmed capacity [] h = ground arith
length-trimmed capacity (x ∷ ids) h = ground arith

add-length :
    (id : String) (r : RecentIds) → length r.ids ≤ r.capacity → length (add id r).ids ≤ r.capacity
unfolding add
add-length id r h =
    length-trimmed r.capacity (without id r.ids ++ id ∷ [])
      (omega (arith, length-append (without id r.ids) (id ∷ []), length-without id r.ids, h))

-- Whatever ids are added to a set within its capacity, it stays within it.
pub add_all-length :
    (ids : List String) (r : RecentIds)
    → length r.ids ≤ r.capacity
    → length (add_all ids r).ids ≤ r.capacity
unfolding add_all
add_all-length [] r h = h
add_all-length (id ∷ ids) r h = add_all-length ids (add id r) (add-length id r h)

-- How many ids stand behind the first occurrence.
abbrev newer : String → List String → ℕ
newer id [] = 0
newer id (x ∷ xs) = if str_eq id x then length xs else newer id xs

-- The id is there, with at most `k` behind it.
abbrev Within : String → ℕ → List String → Type 0
Within id k ids = (any (str_eq id) ids ≡ true) × (newer id ids ≤ k)

other : (id x y : String) → str_eq id x ≡ false → str_eq x y ≡ true → str_eq id y ≡ false
other id x y e h = subst (λ z. str_eq id z ≡ false) ((eq_iff x y).0 h) e

Within-first :
    (id y : String) (k : ℕ) (ids : List String)
    → str_eq id y ≡ true
    → Within id k (y ∷ ids)
    → length ids ≤ k
Within-first id y k ids f h = ground arith

Within-tail :
    (id y : String) (k : ℕ) (ids : List String)
    → str_eq id y ≡ false
    → Within id k (y ∷ ids)
    → Within id k ids
Within-tail id y k ids f h = ground arith

-- The tail may lose ids, unless they matter.
Within-cons :
    (id y : String) (k : ℕ) (ids less : List String)
    → length less ≤ length ids
    → Within id k (y ∷ ids)
    → (str_eq id y ≡ false → Within id k less)
    → Within id k (y ∷ less)
Within-cons id y k ids less le h tail = elim (Bool-cases (str_eq id y)) [
  | inl f ↦ rw f (refl, omega (arith, le, Within-first id y k ids f h))
  | inr f ↦ rw f (tail f)
]

Within-without :
    (id x : String) (k : ℕ) (ids : List String)
    → str_eq id x ≡ false
    → Within id k ids
    → Within id k (without x ids)
Within-without id x k [] e h = h
Within-without id x k (y ∷ ids) e h = elim (Bool-cases (str_eq x y)) [
  | inl g ↦ rw g (Within-without id x k ids e (Within-tail id y k ids (other id x y e g) h))
  | inr g ↦ rw g (
      Within-cons id y k ids (without x ids) (length-without x ids) h
        (λ f. Within-without id x k ids e (Within-tail id y k ids f h)))
]

Within-append :
    (id x : String) (k : ℕ) (ids : List String)
    → Within id k ids
    → Within id (suc k) (ids ++ x ∷ [])
Within-append id x k [] h = ground arith
Within-append id x k (y ∷ ids) h = elim (Bool-cases (str_eq id y)) [
  | inl e ↦ rw e (refl, omega (arith, length-append ids (x ∷ []), Within-first id y k ids e h))
  | inr e ↦ rw e (Within-append id x k ids (ground arith))
]

Within-trimmed :
    (id : String) (k capacity : ℕ) (ids : List String)
    → k < capacity
    → Within id k ids
    → Within id k (trimmed capacity ids)
Within-trimmed id k capacity [] lt h = ground arith
Within-trimmed id k capacity (x ∷ ids) lt h = ground arith

Within-mono :
    (id : String) (k m : ℕ) (ids : List String) → k ≤ m → Within id k ids → Within id m ids
Within-mono id k m ids le h = (h.0, omega (arith, h.1))

-- A fresh add puts the id last.
Within-last : (id : String) (ids : List String) → Within id 0 (without id ids ++ id ∷ [])
Within-last id [] = rw (eq_refl id) (refl, omega arith)
Within-last id (y ∷ ids) = elim (Bool-cases (str_eq id y)) [
  | inl e ↦ rw e (Within-last id ids)
  | inr e ↦ rw (e, e) (Within-last id ids)
]

add-Within :
    (id x : String) (k : ℕ) (r : RecentIds)
    → suc k < r.capacity
    → Within id k r.ids
    → Within id (suc k) (add x r).ids
unfolding add
add-Within id x k r lt h = elim (Bool-cases (str_eq id x)) [
  | inl e ↦
      subst (λ z. Within id (suc k) (trimmed r.capacity (without z r.ids ++ z ∷ [])))
        ((eq_iff id x).0 e)
        (Within-trimmed id (suc k) r.capacity (without id r.ids ++ id ∷ []) lt (
          Within-mono id 0 (suc k) (without id r.ids ++ id ∷ []) (omega arith)
            (Within-last id r.ids)))
  | inr e ↦
      Within-trimmed id (suc k) r.capacity (without x r.ids ++ x ∷ []) lt
        (Within-append id x k (without x r.ids) (Within-without id x k r.ids e h))
]

-- `later` is shorter than what is left of the capacity.
still-there :
    (id : String) (later : List String) (k : ℕ) (r : RecentIds)
    → k + length later < r.capacity
    → Within id k r.ids
    → any (str_eq id) (add_all later r).ids ≡ true
unfolding add_all add
still-there id [] k r lt h = h.0
still-there id (x ∷ later) k r lt h =
    still-there id later (suc k) (add x r) (omega (arith, lt))
      (add-Within id x k r (omega (arith, lt)) h)

-- An id that was added is still known after fewer further adds than the capacity.
pub add_all-has :
    (id : String) (later : List String) (r : RecentIds)
    → length later < r.capacity
    → has id (add_all later (add id r)) ≡ true
unfolding has add
add_all-has id later r lt = still-there id later 0 (add id r) (omega (arith, lt)) (
    Within-trimmed id 0 r.capacity (without id r.ids ++ id ∷ []) (omega (arith, lt))
      (Within-last id r.ids))
