-- ===== src/Common/Sorting/Keys.antt =====
-- Sorting by a numeric key: an ascending rearrangement.
use ezra.Common.Tests.{leb, Bool-cases}
use ezra.Common.Lists.{All}
use ezra.Common.Sorting.{insert_sorted, sort}
use Prim.Native.Nat.{ℕ, ◌≤◌}
use mathlib.Core.Path.{refl}
use mathlib.Core.Bool.{Bool}
use mathlib.Core.Logic.{inl, inr}
use mathlib.Core.List.{List, [], ◌∷◌, Permᴰ}
use mathlib.Core.List.Permᴰ
use native.Mathlib.Omega.{arith}

module _ {ℓ} {A : Type ℓ} where
  insert_sorted-perm :
      (le : A → A → Bool) (x : A) (ys : List A) → Permᴰ (insert_sorted le x ys) (x ∷ ys)
  unfolding insert_sorted
  insert_sorted-perm le x [] = Permᴰ.cons refl Permᴰ.nil
  insert_sorted-perm le x (y ∷ ys) = elim (Bool-cases (le x y)) [
    | inl h ↦ rw h (Permᴰ.refl (x ∷ y ∷ ys))
    | inr h ↦
        rw h (Permᴰ.trans (Permᴰ.cons refl (insert_sorted-perm le x ys)) (Permᴰ.swap refl refl))
  ]

  pub sort-perm : (le : A → A → Bool) (xs : List A) → Permᴰ (sort le xs) xs
  unfolding sort
  sort-perm le [] = Permᴰ.nil
  sort-perm le (x ∷ xs) =
      Permᴰ.trans (insert_sorted-perm le x (sort le xs)) (Permᴰ.cons refl (sort-perm le xs))

  module _ (key : A → ℕ) where
    abbrev pub Ascending : List A → Type ℓ
    Ascending [] = Unit
    Ascending (x ∷ xs) = All (λ y. key x ≤ key y) xs × Ascending xs

    abbrev pub by_key : A → A → Bool
    by_key a b = leb (key a) (key b)

    insert_sorted-All :
        (n : ℕ) (x : A) (ys : List A)
        → n ≤ key x
        → All (λ y. n ≤ key y) ys
        → All (λ y. n ≤ key y) (insert_sorted by_key x ys)
    unfolding insert_sorted
    insert_sorted-All n x [] h a = (h, tt)
    insert_sorted-All n x (y ∷ ys) h a = elim (Bool-cases (by_key x y)) [
      | inl e ↦ rw e (h, a)
      | inr e ↦ rw e (a.0, insert_sorted-All n x ys h a.1)
    ]

    All-weaken : (m n : ℕ) (ys : List A) → m ≤ n → All (λ y. n ≤ key y) ys → All (λ y. m ≤ key y) ys
    All-weaken m n [] h a = tt
    All-weaken m n (y ∷ ys) h a = (omega (arith, a.0), All-weaken m n ys h a.1)

    insert_sorted-Ascending :
        (x : A) (ys : List A) → Ascending ys → Ascending (insert_sorted by_key x ys)
    unfolding insert_sorted
    insert_sorted-Ascending x [] a = (tt, tt)
    insert_sorted-Ascending x (y ∷ ys) a = elim (Bool-cases (by_key x y)) [
      | inl e ↦ rw e ((ground arith, All-weaken (key x) (key y) ys (ground arith) a.0), a)
      | inr e ↦
          rw e (insert_sorted-All (key y) x ys (ground arith) a.0, insert_sorted-Ascending x ys a.1)
    ]

    pub sort-Ascending : (xs : List A) → Ascending (sort by_key xs)
    unfolding sort
    sort-Ascending [] = tt
    sort-Ascending (x ∷ xs) = insert_sorted-Ascending x (sort by_key xs) (sort-Ascending xs)
