-- ===== src/Crash.antt =====
-- Effectful code that may stop dead between two effects. A computation takes the number of effects
-- that the process still lives for, and each effect costs one.
use ezra.Common.{ℕ, zero, suc, String, Attempt, returned, threw, ◌≡◌, refl}

pub data Ended {ℓ} (A : Type ℓ) : Type ℓ where
  done : A → Ended A
  raised : String → Ended A
  crashed : Ended A

-- A computation over the state `S`.
abbrev pub Run : Type 0 → Type 0 → Type 0
Run S A = ℕ → S → Ended A × ℕ × S

abbrev pub ended : {A : Type 0} → Attempt A → Ended A
ended (returned a) = done a
ended (threw e) = raised e

module _ {S : Type 0} where
  -- What a first computation came to, handed to the next one.
  abbrev pub go_on : {A B : Type 0} → (A → Run S B) → Ended A × ℕ × S → Ended B × ℕ × S
  go_on f (done a, n, s) = f a n s
  go_on f (raised e, n, s) = (raised e, n, s)
  go_on f (crashed, n, s) = (crashed, n, s)

  infixl 5 ◌>>=◌
  abbrev pub ◌>>=◌ : {A B : Type 0} → Run S A → (A → Run S B) → Run S B
  ◌>>=◌ m f n s = go_on f (m n s)

  abbrev pub pure : {A : Type 0} → A → Run S A
  pure a n s = (done a, n, s)

  abbrev pub raise : {A : Type 0} → String → Run S A
  raise e n s = (raised e, n, s)

  -- An effect happens whole or not at all.
  abbrev pub effect : {A : Type 0} → (S → Attempt A × S) → Run S A
  effect f zero s = (crashed, zero, s)
  effect f (suc n) s = (ended (f s).0, n, (f s).1)

  abbrev pub rescue : {A : Type 0} → (String → Run S A) → Ended A × ℕ × S → Ended A × ℕ × S
  rescue h (done a, n, s) = (done a, n, s)
  rescue h (raised e, n, s) = h e n s
  rescue h (crashed, n, s) = (crashed, n, s)

  -- `try { m } catch (e) { h(e) }`
  abbrev pub catch : {A : Type 0} → Run S A → (String → Run S A) → Run S A
  catch m h n s = rescue h (m n s)

  -- A step that only makes a value leaves the state.
  pub go_on-state :
      {A B : Type 0} (f : A → B) (r : Ended A × ℕ × S) → (go_on (λ a. pure (f a)) r).2 ≡ r.2
  go_on-state f (done a, n, s) = refl
  go_on-state f (raised e, n, s) = refl
  go_on-state f (crashed, n, s) = refl

-- The value of an attempt that returns one.
abbrev pub Returns : {A : Type 0} → (A → Type 0) → Attempt A → Type 0
Returns Q (returned a) = Q a
Returns Q (threw e) = Unit

-- However a computation ended, the state is as `I` says, and a value that came out is as `Q` says.
abbrev pub Leaves : {S A : Type 0} → (S → Type 0) → (A → Type 0) → Ended A × ℕ × S → Type 0
Leaves I Q (done a, n, s) = Q a × I s
Leaves I Q (raised e, n, s) = I s
Leaves I Q (crashed, n, s) = I s

module _ {S A : Type 0} (I : S → Type 0) (Q : A → Type 0) where
  pub go_on-Leaves :
      {B : Type 0} (R : B → Type 0) (f : A → Run S B) (r : Ended A × ℕ × S)
      → Leaves I Q r
      → ((a : A) (n : ℕ) (s : S) → Q a → I s → Leaves I R (f a n s))
      → Leaves I R (go_on f r)
  go_on-Leaves R f (done a, n, s) h next = next a n s h.0 h.1
  go_on-Leaves R f (raised e, n, s) h next = h
  go_on-Leaves R f (crashed, n, s) h next = h

  pub ended-Leaves :
      (r : Attempt A) (n : ℕ) (s : S) → Returns Q r → I s → Leaves I Q (ended r, n, s)
  ended-Leaves (returned a) n s q i = (q, i)
  ended-Leaves (threw e) n s q i = i

  pub Leaves-state : (r : Ended A × ℕ × S) → Leaves I Q r → I r.2
  Leaves-state (done a, n, s) h = h.1
  Leaves-state (raised e, n, s) h = h
  Leaves-state (crashed, n, s) h = h

module _ {S A : Type 0} (I : S → Type 0) (Q R : A → Type 0) where
  pub Leaves-map : ((a : A) → Q a → R a) → (r : Ended A × ℕ × S) → Leaves I Q r → Leaves I R r
  Leaves-map f (done a, n, s) h = (f a h.0, h.1)
  Leaves-map f (raised e, n, s) h = h
  Leaves-map f (crashed, n, s) h = h

-- The same, where what comes out is judged together with the state.
abbrev pub Leads : {S A : Type 0} → (S → Type 0) → (A → S → Type 0) → Ended A × ℕ × S → Type 0
Leads I Q (done a, n, s) = Q a s
Leads I Q (raised e, n, s) = I s
Leads I Q (crashed, n, s) = I s

module _ {S A B : Type 0} (I : S → Type 0) (Q : A → S → Type 0) (R : B → S → Type 0) where
  pub go_on-Leads :
      (f : A → Run S B) (r : Ended A × ℕ × S)
      → Leads I Q r
      → ((a : A) (n : ℕ) (s : S) → Q a s → Leads I R (f a n s))
      → Leads I R (go_on f r)
  go_on-Leads f (done a, n, s) h next = next a n s h
  go_on-Leads f (raised e, n, s) h next = h
  go_on-Leads f (crashed, n, s) h next = h

module _ {S A : Type 0} (I : S → Type 0) (Q R : A → S → Type 0) where
  pub Leads-map :
      ((a : A) (s : S) → Q a s → R a s) → (r : Ended A × ℕ × S) → Leads I Q r → Leads I R r
  Leads-map f (done a, n, s) h = f a s h
  Leads-map f (raised e, n, s) h = h
  Leads-map f (crashed, n, s) h = h
