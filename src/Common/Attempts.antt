-- ===== src/Common/Attempts.antt =====
-- What a JavaScript call that may throw comes back with. A thrown error is kept as its `message`.
use mathlib.Core.Path.{◌≡◌, refl}
use mathlib.Core.Logic.{◌⊎◌, inl, inr}
use Prim.Native.String.{String}

pub data Attempt {ℓ} (A : Type ℓ) : Type ℓ where
  returned : A → Attempt A
  threw : String → Attempt A

pub Attempt-cases {ℓ} :
    {A : Type ℓ} (r : Attempt A) → ((a : A) × (r ≡ returned a)) ⊎ ((e : String) × (r ≡ threw e))
Attempt-cases (returned a) = inl (a, refl)
Attempt-cases (threw e) = inr (e, refl)
