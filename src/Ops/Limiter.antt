-- ===== src/Ops/Limiter.antt =====
-- `makeRateLimiter` of src/backoffice/auth.ts. The map from addresses to entries is a function, the
-- clock reading an argument; `t - windowMs` is below 0 for an early `t`, so the test adds instead.
pub mod Locks
use ezra.Common.{
  ℕ, ◌+◌, String, Bool, true, false, ◌&&◌, Option, none, some, List, [], ◌∷◌, ◌++◌, str_eq, ltb,
  leb, ◌==◌, if◌then◌else◌, select, length,
}

pub record RateLimitOptions : Type 0 where
  pub max_failures : ℕ
  pub lockout_ms : ℕ
  pub window_ms : ℕ

pub record Entry : Type 0 where
  pub failures : List ℕ
  pub locked_until : ℕ

abbrev pub Limits : Type 0
Limits = String → Option Entry

abbrev pub put_entry : String → Option Entry → Limits → Limits
put_entry addr e s k = if str_eq k addr then e else s k

-- Whether the address is locked; a lock that has run out is deleted.
abbrev pub check_entry : String → ℕ → Limits → Option Entry → Bool × Limits
check_entry addr now s none = (false, s)
check_entry addr now s (some e) =
    if ltb now e.locked_until
    then (true, s)
    else if e.locked_until == 0
    then (false, s)
    else (false, put_entry addr none s)

unfoldable pub is_locked : String → ℕ → Limits → Bool × Limits
is_locked addr now s = check_entry addr now s (s addr)

abbrev pub entry_or_new : Option Entry → Entry
entry_or_new none = record { failures = []; locked_until = 0 }
entry_or_new (some e) = e

-- The failures still in the window, and this one.
abbrev pub recent_failures : RateLimitOptions → ℕ → Entry → List ℕ
recent_failures options t e = select (λ ts. ltb t (ts + options.window_ms)) e.failures ++ t ∷ []

abbrev pub with_failure : RateLimitOptions → ℕ → Entry → Entry
with_failure options t e =
    if leb options.max_failures (length (recent_failures options t e))
    then record { failures = []; locked_until = t + options.lockout_ms }
    else record { failures = recent_failures options t e; locked_until = e.locked_until }

-- `if (v.failures.length === 0 && v.lockedUntil <= t) state.delete(k)`
abbrev pub unless_spent : ℕ → Option Entry → Option Entry
unless_spent t none = none
unless_spent t (some e) = if length e.failures == 0 && leb e.locked_until t then none else some e

unfoldable pub record_failure : RateLimitOptions → String → ℕ → Limits → Limits
record_failure options addr t s k =
    unless_spent t (put_entry addr (some (with_failure options t (entry_or_new (s addr)))) s k)

unfoldable pub reset : String → Limits → Limits
reset addr s = put_entry addr none s
