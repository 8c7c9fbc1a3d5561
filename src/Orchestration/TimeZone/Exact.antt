-- ===== src/Orchestration/TimeZone/Exact.antt =====
-- Around a change of the clocks in a zone west of Greenwich.
use ezra.Common.{ℕ, ◌+◌, ◌≤◌, ◌<◌, ltb, ◌≡◌, arith, Bool-cases, inl, inr, if◌then◌else◌}
use ezra.Orchestration.TimeZone.{WallTime, corrected, wall_time_to_instant}

-- From `since` to `until`, a stretch with one change of the clocks, the wall clock is `west - before`
-- behind UTC until `change`, and `west - after` from then on. Nothing is said of other instants.
pub record IsZone (digits : ℕ → ℕ) (since until change west before after : ℕ) : Type 0 where
  pub behind_before : before ≤ west
  pub behind_after : after ≤ west
  pub in_range : west ≤ since
  pub shows_before : (i : ℕ) → since ≤ i → i ≤ until → i < change → digits i + west ≡ i + before
  pub shows_after : (i : ℕ) → since ≤ i → i ≤ until → change ≤ i → digits i + west ≡ i + after

module _ {digits : ℕ → ℕ} {since until change west before after : ℕ}
    (z : IsZone digits since until change west before after) where
  shows :
      (i : ℕ)
      → since ≤ i
      → i ≤ until
      → digits i + west ≡ i + (if ltb i change then before else after)
  shows i h u = elim (Bool-cases (ltb i change)) [
    | inl e ↦ rw e (z.shows_before i h u (ground arith))
    | inr e ↦ rw e (z.shows_after i h u (ground arith))
  ]

  -- One round, from an instant that is late enough.
  corrected_lem :
      (w i : ℕ)
      → since ≤ w
      → since ≤ i
      → i ≤ until
      → corrected digits w i + (if ltb i change then before else after) ≡ w + west
  corrected_lem w i hw hi ui = elim (Bool-cases (ltb i change)) [
    | inl e ↦
        rw e (omega (arith, z.shows_before i hi ui (ground arith), z.behind_before, z.in_range, hw))
    | inr e ↦
        rw e (omega (arith, z.shows_after i hi ui (ground arith), z.behind_after, z.in_range, hw))
  ]

  in_window :
      (w i : ℕ)
      → since ≤ w
      → w + west ≤ until
      → since ≤ i
      → i ≤ until
      → (since ≤ corrected digits w i) × (corrected digits w i ≤ until)
  in_window w i hw uw hi ui = elim (Bool-cases (ltb i change)) [
    | inl e ↦
        let at = z.shows_before i hi ui (ground arith) in
        (omega (arith, at, z.behind_before, hw), omega (arith, at, uw))
    | inr e ↦
        let at = z.shows_after i hi ui (ground arith) in
        (omega (arith, at, z.behind_after, hw), omega (arith, at, uw))
  ]

in_the_gap :
    (change west before after w c d shown : ℕ)
    → before ≤ west
    → after ≤ west
    → c + (if ltb w change then before else after) ≡ w + west
    → d + (if ltb c change then before else after) ≡ w + west
    → shown + west ≡ d + (if ltb d change then before else after)
    → change + before ≤ w + west
    → w + west < change + after
    → (d < change) × (shown + after ≡ w + before)
in_the_gap change west before after w c d shown hb ha hc hd hs lo hi = ground arith

module _ {digits : ℕ → ℕ} {since until change west before after : ℕ}
    (z : IsZone digits since until change west before after) (utc : WallTime → ℕ) (wall : WallTime)
    (late : since ≤ utc wall) (early : utc wall + west ≤ until) where
  -- A wall time that the change of the clocks leaves out becomes an instant before the change, whose
  -- own wall time is earlier by what the clocks are put forward.
  pub wall_time_to_instant-gap :
      change + before ≤ utc wall + west
      → utc wall + west < change + after
      → (wall_time_to_instant digits utc wall < change)
        × (digits (wall_time_to_instant digits utc wall) + after ≡ utc wall + before)
  unfolding wall_time_to_instant
  wall_time_to_instant-gap lo hi =
      let w : ℕ = utc wall in
      let c : ℕ = corrected digits w w in
      let w_in : w ≤ until = omega (arith, early) in
      let (hc, uc) = in_window z w w late early late w_in in
      let (hd, ud) = in_window z w c late early hc uc in
      in_the_gap change west before after w c (corrected digits w c) _ z.behind_before
        z.behind_after (corrected_lem z w w late late w_in) (corrected_lem z w c late hc uc)
        (shows z (corrected digits w c) hd ud) lo hi
