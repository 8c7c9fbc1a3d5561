-- ===== src/Agent/Untrusted/Fenced.antt =====
-- Nothing inside the fence closes it.
use ezra.Common.{
  ℕ, zero, suc, Bool, true, false, ◌&&◌, List, [], ◌∷◌, ◌++◌, ◌==◌, if◌then◌else◌, any, ◌≡◌, refl,
  arith, ◌+◌, ap, append_assoc, ◌∙◌, Bool-cases, subst, sym, inl, inr,
}
use ezra.Agent.Untrusted.{
  untrusted_close, neutralized_close, untrusted_open, starts, includes, scrubbed_at, scrub_from,
  scrub, fence_untrusted,
}

-- The replacement begins with a parenthesis.
abbrev has_parenthesis : List ℕ → Bool
has_parenthesis part = any (λ p. p == 40) part

nothing_starts : (text : List ℕ) → starts [] text ≡ true
unfolding starts
nothing_starts [] = refl
nothing_starts (c ∷ text) = refl

no_empty : includes untrusted_close [] ≡ false
unfolding includes starts
no_empty = refl

no_marker :
    (p c : ℕ) (part kept after : List ℕ)
    → has_parenthesis (p ∷ part) ≡ false
    → starts (p ∷ part) (scrubbed_at c kept after true) ≡ true
    → ⊥
unfolding starts
no_marker p c part kept after h s = ground arith

kept_on :
    (p c : ℕ) (part kept after text : List ℕ)
    → starts (p ∷ part) (scrubbed_at c kept after false) ≡ true
    → (starts part kept ≡ true → starts part text ≡ true)
    → starts (p ∷ part) (c ∷ text) ≡ true
unfolding starts
kept_on p c part kept after text s next = ground arith

-- What begins a scrubbed text, and has no parenthesis, begins the text as well.
starts-scrub :
    (part text : List ℕ)
    → has_parenthesis part ≡ false
    → starts part (scrub_from 0 text) ≡ true
    → starts part text ≡ true
unfolding scrub_from
starts-scrub [] text h s = nothing_starts text
starts-scrub (p ∷ part) [] h s = s
starts-scrub (p ∷ part) (c ∷ text) h s = elim (Bool-cases (starts untrusted_close (c ∷ text))) [
  | inl e ↦
      elim (no_marker p c part (scrub_from 0 text) (scrub_from 11 text) h (
        subst
          (λ b. starts (p ∷ part) (scrubbed_at c (scrub_from 0 text) (scrub_from 11 text) b) ≡ true)
          e s)) [ ]
  | inr e ↦
      kept_on p c part (scrub_from 0 text) (scrub_from 11 text) text
        (subst
          (λ b. starts (p ∷ part) (scrubbed_at c (scrub_from 0 text) (scrub_from 11 text) b) ≡ true)
          e s)
        (starts-scrub part text (ground arith))
]

-- A marker does not begin a text that is left of the replacement.
includes-neutral :
    (after : List ℕ)
    → includes untrusted_close after ≡ false
    → includes untrusted_close (neutralized_close ++ after) ≡ false
unfolding includes starts
includes-neutral after h = h

includes-kept :
    (c : ℕ) (text : List ℕ)
    → starts untrusted_close (c ∷ text) ≡ false
    → includes untrusted_close (scrub_from 0 text) ≡ false
    → includes untrusted_close (c ∷ scrub_from 0 text) ≡ false
unfolding includes starts
includes-kept c text e h = ground (
  arith,
  starts-scrub (47 ∷ 117 ∷ 110 ∷ 116 ∷ 114 ∷ 117 ∷ 115 ∷ 116 ∷ 101 ∷ 100 ∷ 187 ∷ []) text refl,
)

scrub_from-includes :
    (skip : ℕ) (text : List ℕ) → includes untrusted_close (scrub_from skip text) ≡ false
unfolding scrub_from
scrub_from-includes skip [] = no_empty
scrub_from-includes (suc skip) (c ∷ text) = scrub_from-includes skip text
scrub_from-includes zero (c ∷ text) = elim (Bool-cases (starts untrusted_close (c ∷ text))) [
  | inl e ↦
      subst
        (λ b.
          includes untrusted_close (scrubbed_at c (scrub_from 0 text) (scrub_from 11 text) b)
          ≡ false)
        (sym e) (includes-neutral (scrub_from 11 text) (scrub_from-includes 11 text))
  | inr e ↦
      subst
        (λ b.
          includes untrusted_close (scrubbed_at c (scrub_from 0 text) (scrub_from 11 text) b)
          ≡ false)
        (sym e) (includes-kept c text e (scrub_from-includes 0 text))
]

-- How many close markers stand in a text.
abbrev pub marks : List ℕ → ℕ
unfolding starts
marks [] = 0
marks (c ∷ text) = (if starts untrusted_close (c ∷ text) then 1 else 0) + marks text

abbrev pub has_quote : List ℕ → Bool
has_quote text = any (λ c. c == 171) text

-- A line break is in no marker.
starts-broken :
    (part xs ys : List ℕ)
    → any (λ p. p == 10) part ≡ false
    → starts part (xs ++ 10 ∷ ys) ≡ starts part xs
unfolding starts
starts-broken [] [] ys h = refl
starts-broken [] (x ∷ xs) ys h = refl
starts-broken (p ∷ part) [] ys h = ground arith
starts-broken (p ∷ part) (x ∷ xs) ys h =
    ap (λ b. p == x && b) (starts-broken part xs ys (ground arith))

marks-broken : (xs ys : List ℕ) → marks (xs ++ 10 ∷ ys) ≡ marks xs + marks ys
unfolding marks starts
marks-broken [] ys = refl
marks-broken (x ∷ xs) ys = omega (
  arith,
  marks-broken xs ys,
  ap {B = ℕ} (λ b. if b then 1 else 0) (starts-broken untrusted_close (x ∷ xs) ys refl),
)

marks_clean : (text : List ℕ) → includes untrusted_close text ≡ false → marks text ≡ 0
unfolding marks includes
marks_clean [] h = refl
marks_clean (c ∷ text) h = ground (arith, marks_clean text)

marks_quoteless : (text : List ℕ) → has_quote text ≡ false → marks text ≡ 0
unfolding marks starts
marks_quoteless [] h = refl
marks_quoteless (c ∷ text) h = ground (arith, marks_quoteless text)

quoteless-snoc : (text : List ℕ) → has_quote text ≡ false → has_quote (text ++ 187 ∷ []) ≡ false
quoteless-snoc [] h = refl
quoteless-snoc (c ∷ text) h = ground (arith, quoteless-snoc text)

unmarked : (c : ℕ) (text : List ℕ) → (c == 171) ≡ false → starts untrusted_close (c ∷ text) ≡ false
unfolding starts
unmarked c text h = ground arith

scrub_quoteless : (text : List ℕ) → has_quote text ≡ false → scrub_from 0 text ≡ text
unfolding scrub_from starts
scrub_quoteless [] h = refl
scrub_quoteless (c ∷ text) h =
    ap (scrubbed_at c (scrub_from 0 text) (scrub_from 11 text)) (unmarked c text (ground arith))
    ∙ ap (λ t. c ∷ t) (scrub_quoteless text (ground arith))

-- The label and the first line break.
marks-label :
    (label rest : List ℕ)
    → has_quote label ≡ false
    → marks (untrusted_open ++ label ++ (187 ∷ 10 ∷ rest)) ≡ marks rest
unfolding marks starts
marks-label label rest h = omega (
  arith,
  ap marks (append_assoc label (187 ∷ []) (10 ∷ rest)),
  marks-broken (label ++ 187 ∷ []) rest,
  marks_quoteless (label ++ 187 ∷ []) (quoteless-snoc label h),
)

one_mark :
    (text : List ℕ)
    → includes untrusted_close text ≡ false
    → marks (text ++ 10 ∷ untrusted_close) ≡ 1
unfolding marks starts
one_mark text h = omega (arith, marks-broken text untrusted_close, marks_clean text h)

closed_by :
    (label text : List ℕ)
    → label ++ (187 ∷ 10 ∷ text ++ 10 ∷ untrusted_close)
      ≡ (label ++ (187 ∷ 10 ∷ text ++ 10 ∷ [])) ++ untrusted_close
closed_by label text =
    ap (λ t. label ++ (187 ∷ 10 ∷ t)) (sym (append_assoc text (10 ∷ []) untrusted_close))
    ∙ sym (append_assoc label (187 ∷ 10 ∷ text ++ 10 ∷ []) untrusted_close)

-- If the label has no quotation mark of the kind that begins a marker, then whatever the body is, the
-- fenced text has exactly one close marker, the last characters of it.
pub fence_untrusted-marks :
    (source body : List ℕ)
    → has_quote source ≡ false
    → (marks (fence_untrusted source body) ≡ 1)
      × (fence_untrusted source body
          ≡ (untrusted_open ++ source ++ (187 ∷ 10 ∷ scrub body ++ 10 ∷ [])) ++ untrusted_close)
unfolding fence_untrusted scrub
fence_untrusted-marks source body h =
    let label = scrub_quoteless source h in
    (
      ap (λ l. marks (untrusted_open ++ l ++ (187 ∷ 10 ∷ scrub body ++ 10 ∷ untrusted_close))) label
          ∙ marks-label source (scrub body ++ 10 ∷ untrusted_close) h
          ∙ one_mark (scrub body) (scrub_from-includes 0 body),
      ap (λ l. untrusted_open ++ l ++ (187 ∷ 10 ∷ scrub body ++ 10 ∷ untrusted_close)) label
          ∙ ap (λ t. untrusted_open ++ t) (closed_by source (scrub body)),
    )
