-- ===== src/Common/Texts.antt =====
-- Template literals, `join`, and `slice` from the start.
use Prim.Native.Nat.{ℕ, zero, suc}
use Prim.Native.Char.{Char, code}
use Prim.Native.String
use Prim.Native.String.{String}
use mathlib.Core.List.{List, [], ◌∷◌}
use mathlib.Core.Option.{Option, none, some}
use ezra.Common.Tests.{◌==◌, if◌then◌else◌}

-- The parts of a template literal, put together.
abbrev pub concat : List String → String
concat [] = ""
concat (s ∷ ss) = String.◌++◌ s (concat ss)

abbrev pub join : String → List String → String
join sep [] = ""
join sep (s ∷ []) = s
join sep (s ∷ t ∷ ss) = String.◌++◌ s (String.◌++◌ sep (join sep (t ∷ ss)))

-- `text.slice(0, n)`, where a character is one code unit.
abbrev pub slice_to : ℕ → String → String
slice_to zero s = ""
slice_to (suc n) String.[] = ""
slice_to (suc n) (String.◌∷◌ c s) = String.◌∷◌ c (slice_to n s)

abbrev pub put_char : Char → List String → List String
put_char c [] = String.◌∷◌ c "" ∷ []
put_char c (part ∷ parts) = String.◌∷◌ c part ∷ parts

-- `text.split(mark)`, for a mark of one character given by its code.
abbrev pub split_on : ℕ → String → List String
split_on mark String.[] = "" ∷ []
split_on mark (String.◌∷◌ c s) =
    let rest = split_on mark s in if code c == mark then "" ∷ rest else put_char c rest

-- The parts of a text before and after a mark.
pub record Halves : Type 0 where
  pub before : String
  pub after : String

abbrev pub before_char : Char → Option Halves → Option Halves
before_char c none = none
before_char c (some h) = some (record { before = String.◌∷◌ c h.before; after = h.after })

-- At the first mark, as `indexOf` and two slices cut it.
abbrev pub cut_at : ℕ → String → Option Halves
cut_at mark String.[] = none
cut_at mark (String.◌∷◌ c s) =
    let rest = cut_at mark s in
    if code c == mark then some (record { before = ""; after = s }) else before_char c rest
