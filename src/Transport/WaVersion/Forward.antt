-- ===== src/Transport/WaVersion/Forward.antt =====
-- A rejected version is left only for a different one, and every probe is told.
use ezra.Common.{
  Bool, true, false, Option, none, some, [], ◌∷◌, ◌++◌, ◌≡◌, refl, ◌⊎◌, inl, inr, Bool-cases,
  Attempt,
}
use ezra.Transport.WaVersion.{
  WaVersion, WaVersionSource, probe_failed, adopted, no_upgrade, same_wa_version, answer_of,
  take_checked, take_offer, check_upstream, fall_forward, probed,
}

module _ {W : Type 0} where
  -- From `s`, with the answer of the rejection.
  abbrev pub Fell : WaVersionSource W → Bool × WaVersionSource W → Type 0
  Fell s (true, t) =
      (same_wa_version t.active s.active ≡ false)
      × (t.events ≡ s.events ++ adopted s.active t.active ∷ [])
  Fell s (false, t) =
      (t.active ≡ s.active)
      × ((t.events ≡ s.events ++ probe_failed ∷ [])
          ⊎ (t.events ≡ s.events ++ no_upgrade s.active ∷ []))

  take_offer-Fell : (s : WaVersionSource W) (o : Option WaVersion) → Fell s (take_offer s o)
  unfolding take_offer
  take_offer-Fell s none = (refl, inl refl)
  take_offer-Fell s (some u) = elim (Bool-cases (same_wa_version u s.active)) [
    | inl h ↦ rw h (refl, inr refl)
    | inr h ↦ rw h (h, refl)
  ]

  -- A rejection is answered by `true` exactly when the version changed: then it is a different one and
  -- the change is told, and otherwise it is the same one and either the failed probe or the lack of
  -- anything newer is told.
  pub fall_forward-Fell :
      (fetch : W → Attempt (Option WaVersion) × W) (s : WaVersionSource W)
      → Fell s (fall_forward fetch s)
  unfolding fall_forward
  fall_forward-Fell fetch s = take_offer-Fell (probed fetch s) (answer_of (fetch s.world).0)

  take_checked-active :
      (s : WaVersionSource W) (o : Option WaVersion) → (take_checked s o).active ≡ s.active
  unfolding take_checked
  take_checked-active s none = refl
  take_checked-active s (some u) = elim (Bool-cases (same_wa_version u s.active)) [
    | inl h ↦ rw h refl
    | inr h ↦ rw h refl
  ]

  pub check_upstream-active :
      (fetch : W → Attempt (Option WaVersion) × W) (s : WaVersionSource W)
      → (check_upstream fetch s).active ≡ s.active
  unfolding check_upstream
  check_upstream-active fetch s = take_checked-active (probed fetch s) (answer_of (fetch s.world).0)
