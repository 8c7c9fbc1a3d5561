-- ===== src/Orchestration/TimeZone.antt =====
-- src/orchestration/tz.ts: from a wall time of the household to the instant it names, in milliseconds
-- since 1970. `utc` is `Date.UTC` without seconds, `digits` what a wall clock in the zone shows at an
-- instant, read as UTC, which `Intl` knows.
pub mod Exact
use ezra.Common.{ℕ, zero, suc, ◌+◌, ◌-◌}

pub record WallTime : Type 0 where
  pub year : ℕ
  pub month : ℕ
  pub day : ℕ
  pub hour : ℕ
  pub minute : ℕ

module _ (digits : ℕ → ℕ) where
  -- `wallAsUtc - offsetAt(instant)`; the offset is `digits instant - instant`.
  abbrev pub corrected : ℕ → ℕ → ℕ
  corrected wall_as_utc instant = wall_as_utc + instant - digits instant

  -- The loop with so many rounds to go.
  unfoldable pub correct : ℕ → ℕ → ℕ → ℕ
  correct zero wall_as_utc instant = instant
  correct (suc n) wall_as_utc instant = correct n wall_as_utc (corrected wall_as_utc instant)

  unfoldable pub wall_time_to_instant : (WallTime → ℕ) → WallTime → ℕ
  unfolding correct
  wall_time_to_instant utc wall = correct 2 (utc wall) (utc wall)
