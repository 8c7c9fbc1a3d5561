-- ===== src/Transport/WaVersion.antt =====
-- src/transport/wa-version.ts: the client version to announce, and what it takes to leave the pinned
-- one. The probe is a function on the world `W`; what the source has to say is a list of events.
pub mod Forward
use ezra.Common.{
  ℕ, Bool, true, false, ◌&&◌, Option, none, some, List, [], ◌∷◌, ◌++◌, ◌==◌, leb, if◌then◌else◌,
  Attempt, returned, threw,
}
use ezra.Hitl.Value.{Value, Items, undefined, null, num, arr, bool, no_items, item}

pub record WaVersion : Type 0 where
  pub major : ℕ
  pub minor : ℕ
  pub patch : ℕ

unfoldable pub same_wa_version : WaVersion → WaVersion → Bool
same_wa_version a b = a.major == b.major && (a.minor == b.minor && a.patch == b.patch)

pub record BaileysVersionProbeResult : Type 0 where
  pub version : Value
  pub is_latest : Value
  pub error : Value

-- `Number.MAX_SAFE_INTEGER`
abbrev pub max_safe_integer : ℕ
max_safe_integer = 9_007_199_254_740_991

abbrev pub if_safe : ℕ → ℕ → ℕ → Option WaVersion
if_safe a b c =
    if leb a max_safe_integer && (leb b max_safe_integer && leb c max_safe_integer)
    then some (record { major = a; minor = b; patch = c })
    else none

-- An array of three numbers.
unfoldable pub as_wa_version : Value → Option WaVersion
as_wa_version (arr (item (num a) (item (num b) (item (num c) no_items)))) = if_safe a b c
as_wa_version _ = none

abbrev pub is_nullish : Value → Bool
is_nullish undefined = true
is_nullish null = true
is_nullish _ = false

abbrev pub is_true : Value → Bool
is_true (bool b) = b
is_true _ = false

unfoldable pub interpret_probe_result : BaileysVersionProbeResult → Option WaVersion
unfolding as_wa_version
interpret_probe_result r =
    if is_nullish r.error && is_true r.is_latest then as_wa_version r.version else none

pub data WaVersionEvent : Type 0 where
  probe_failed : WaVersionEvent
  current : WaVersion → WaVersionEvent
  stale adopted : WaVersion → WaVersion → WaVersionEvent
  no_upgrade : WaVersion → WaVersionEvent

pub record WaVersionSource (W : Type 0) : Type 0 where
  pub active : WaVersion
  pub events : List WaVersionEvent
  pub world : W

abbrev pub emit : {W : Type 0} → WaVersionEvent → WaVersionSource W → WaVersionSource W
emit e s = record s { events = s.events ++ e ∷ [] }

-- A probe that throws has no answer.
abbrev pub answer_of : Attempt (Option WaVersion) → Option WaVersion
answer_of (returned v) = v
answer_of (threw e) = none

module _ {W : Type 0} where
  unfoldable pub take_checked : WaVersionSource W → Option WaVersion → WaVersionSource W
  take_checked s none = emit probe_failed s
  take_checked s (some upstream) =
      if same_wa_version upstream s.active
      then emit (current s.active) s
      else emit (stale s.active upstream) s

  unfoldable pub take_offer : WaVersionSource W → Option WaVersion → Bool × WaVersionSource W
  take_offer s none = (false, emit probe_failed s)
  take_offer s (some upstream) =
      if same_wa_version upstream s.active
      then (false, emit (no_upgrade s.active) s)
      else (true, emit (adopted s.active upstream) (record s { active = upstream }))

  module _ (fetch_upstream : W → Attempt (Option WaVersion) × W) where
    abbrev pub probed : WaVersionSource W → WaVersionSource W
    probed s = record s { world = (fetch_upstream s.world).1 }

    -- `checkUpstream`
    unfoldable pub check_upstream : WaVersionSource W → WaVersionSource W
    unfolding take_checked
    check_upstream s = take_checked (probed s) (answer_of (fetch_upstream s.world).0)

    -- `fallForward`
    unfoldable pub fall_forward : WaVersionSource W → Bool × WaVersionSource W
    unfolding take_offer
    fall_forward s = take_offer (probed s) (answer_of (fetch_upstream s.world).0)
