-- ===== src/Ops/Limiter/Locks.antt =====
-- When an address is locked, and which entries the sweep leaves.
use ezra.Common.{
  ℕ, ◌+◌, ◌≤◌, String, Bool, true, false, ◌&&◌, not, Option, none, some, List, [], ◌∷◌, str_eq, ltb,
  leb, if◌then◌else◌, length, ◌≡◌, refl, arith, eq_refl, Option-cases, Bool-cases, inl, inr, ◌∙◌,
  ap, sym,
}
use ezra.Ops.Limiter.{
  RateLimitOptions, Entry, Limits, put_entry, is_locked, entry_or_new, recent_failures,
  with_failure, unless_spent, record_failure,
}

-- Locked at `now`, as an entry says.
abbrev pub locked_by : ℕ → Option Entry → Bool
locked_by now none = false
locked_by now (some e) = ltb now e.locked_until

is_locked_lem :
    (addr : String) (now : ℕ) (s : Limits) → (is_locked addr now s).0 ≡ locked_by now (s addr)
unfolding is_locked
is_locked_lem addr now s = elim (Option-cases (s addr)) [
  | inl h ↦ rw h refl
  | inr (e, h) ↦ rw h (ground arith)
]

-- The sweep drops no entry that locks.
swept-locked :
    (t now : ℕ) (o : Option Entry) → t ≤ now → locked_by now (unless_spent t o) ≡ locked_by now o
swept-locked t now none h = refl
swept-locked t now (some e) h = ground arith

with_failure-locked :
    (options : RateLimitOptions) (t now : ℕ) (e : Entry)
    → locked_by now (some (with_failure options t e)) ≡ (
        if leb options.max_failures (length (recent_failures options t e))
        then ltb now (t + options.lockout_ms)
        else ltb now e.locked_until)
with_failure-locked options t now e =
    elim (Bool-cases (leb options.max_failures (length (recent_failures options t e)))) [
      | inl h ↦ rw h refl
      | inr h ↦ rw h refl
    ]

abbrev failed_entry : RateLimitOptions → String → ℕ → Limits → Entry
failed_entry options addr t s = with_failure options t (entry_or_new (s addr))

-- Right after a failure at `t`, an address is locked at a later time exactly if its failures in the
-- window have reached the limit and that time is within the lockout, or they have not and an older
-- lock still holds.
pub record_failure-locks :
    (options : RateLimitOptions) (addr : String) (t now : ℕ) (s : Limits)
    → t ≤ now
    → (is_locked addr now (record_failure options addr t s)).0 ≡ (
        if leb options.max_failures (length (recent_failures options t (entry_or_new (s addr))))
        then ltb now (t + options.lockout_ms)
        else ltb now (entry_or_new (s addr)).locked_until)
unfolding record_failure
record_failure-locks options addr t now s h =
    is_locked_lem addr now (record_failure options addr t s)
    ∙ swept-locked t now (put_entry addr (some (failed_entry options addr t s)) s addr) h
    ∙ ap (λ b. locked_by now (if b then some (failed_entry options addr t s) else s addr))
        (eq_refl addr)
    ∙ with_failure-locked options t now (entry_or_new (s addr))

-- A failure of one address neither locks nor unlocks another.
pub record_failure-locks_no_other :
    (options : RateLimitOptions) (addr other : String) (t now : ℕ) (s : Limits)
    → str_eq other addr ≡ false
    → t ≤ now
    → (is_locked other now (record_failure options addr t s)).0 ≡ (is_locked other now s).0
unfolding record_failure
record_failure-locks_no_other options addr other t now s apart h =
    is_locked_lem other now (record_failure options addr t s)
    ∙ swept-locked t now (put_entry addr (some (failed_entry options addr t s)) s other) h
    ∙ ap (λ b. locked_by now (if b then some (failed_entry options addr t s) else s other)) apart
    ∙ sym (is_locked_lem other now s)

-- The failures of other addresses, in order.
unfoldable pub others_fail : RateLimitOptions → List (String × ℕ) → Limits → Limits
unfolding record_failure
others_fail options [] s = s
others_fail options ((addr, t) ∷ fs) s = others_fail options fs (record_failure options addr t s)

abbrev pub avoids : String → List (String × ℕ) → Bool
avoids addr [] = true
avoids addr ((other, t) ∷ fs) = not (str_eq addr other) && avoids addr fs

kept-once :
    (options : RateLimitOptions) (addr other : String) (t : ℕ) (s : Limits) (e : Entry)
    → s addr ≡ some e
    → 1 ≤ length e.failures
    → str_eq addr other ≡ false
    → record_failure options other t s addr ≡ some e
unfolding record_failure
kept-once options addr other t s e h l apart = rw (apart, h) (ground arith)

-- An entry with a failure in it stays as it is through any failures of other addresses, however
-- much later than the window.
pub others_fail-keeps :
    (options : RateLimitOptions) (addr : String) (fs : List (String × ℕ)) (s : Limits) (e : Entry)
    → s addr ≡ some e
    → 1 ≤ length e.failures
    → avoids addr fs ≡ true
    → others_fail options fs s addr ≡ some e
unfolding others_fail
others_fail-keeps options addr [] s e h l a = h
others_fail-keeps options addr ((other, t) ∷ fs) s e h l a =
    others_fail-keeps options addr fs (record_failure options other t s) e
      (kept-once options addr other t s e h l (ground arith)) l (ground arith)
