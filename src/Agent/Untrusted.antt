-- ===== src/Agent/Untrusted.antt =====
-- src/agent/untrusted.ts: the fence around text that the model must not obey. A text is the list of its
-- code points.
pub mod Fenced
use ezra.Common.{
  ℕ, zero, suc, Bool, true, false, ◌&&◌, ◌||◌, List, [], ◌∷◌, ◌++◌, ◌==◌, if◌then◌else◌,
}

-- `«/untrusted»`
abbrev pub untrusted_close : List ℕ
untrusted_close = 171 ∷ 47 ∷ 117 ∷ 110 ∷ 116 ∷ 114 ∷ 117 ∷ 115 ∷ 116 ∷ 101 ∷ 100 ∷ 187 ∷ []

-- `«untrusted:`
abbrev pub untrusted_open : List ℕ
untrusted_open = 171 ∷ 117 ∷ 110 ∷ 116 ∷ 114 ∷ 117 ∷ 115 ∷ 116 ∷ 101 ∷ 100 ∷ 58 ∷ []

-- `(fence marker removed)`
abbrev pub neutralized_close : List ℕ
neutralized_close =
    40 ∷ 102 ∷ 101 ∷ 110 ∷ 99 ∷ 101 ∷ 32 ∷ 109 ∷ 97 ∷ 114 ∷ 107 ∷ 101 ∷ 114 ∷ 32 ∷ 114 ∷ 101 ∷ 109
    ∷ 111 ∷ 118 ∷ 101 ∷ 100 ∷ 41 ∷ []

-- `text.startsWith(part)`
unfoldable pub starts : List ℕ → List ℕ → Bool
starts [] text = true
starts (p ∷ part) [] = false
starts (p ∷ part) (c ∷ text) = p == c && starts part text

-- `text.includes(part)`
unfoldable pub includes : List ℕ → List ℕ → Bool
unfolding starts
includes part [] = starts part []
includes part (c ∷ text) = starts part (c ∷ text) || includes part text

-- A marker gives way, any other character stays.
abbrev pub scrubbed_at : ℕ → List ℕ → List ℕ → Bool → List ℕ
scrubbed_at c kept after true = neutralized_close ++ after
scrubbed_at c kept after false = c ∷ kept

-- `text.split(close).join(neutral)`, `skip` characters of a marker being passed over.
unfoldable pub scrub_from : ℕ → List ℕ → List ℕ
unfolding starts
scrub_from skip [] = []
scrub_from (suc skip) (c ∷ text) = scrub_from skip text
scrub_from zero (c ∷ text) =
    scrubbed_at c (scrub_from zero text) (scrub_from 11 text) (starts untrusted_close (c ∷ text))

unfoldable pub scrub : List ℕ → List ℕ
unfolding scrub_from
scrub text = scrub_from 0 text

unfoldable pub fence_untrusted : List ℕ → List ℕ → List ℕ
unfolding scrub
fence_untrusted source body =
    untrusted_open ++ scrub source ++ (187 ∷ 10 ∷ scrub body ++ 10 ∷ untrusted_close)
