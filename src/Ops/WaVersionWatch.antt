-- ===== src/Ops/WaVersionWatch.antt =====
-- src/ops/wa-version-watch.ts: which version events the household's operator hears of. An alert is
-- kept as what it tells; the lines of the log are left out, and versions are compared as such in
-- place of their texts.
pub mod Told
use ezra.Common.{
  ℕ, ◌+◌, Bool, true, false, not, ◌&&◌, Option, none, some, List, [], ◌∷◌, ◌++◌, leb, if◌then◌else◌,
}
use ezra.Transport.WaVersion.{
  WaVersion, WaVersionEvent, probe_failed, current, stale, adopted, no_upgrade, same_wa_version,
}

abbrev pub blind_probe_alert_threshold : ℕ
blind_probe_alert_threshold = 7

pub data Alert : Type 0 where
  blind : ℕ → Alert
  behind fell_forward : WaVersion → WaVersion → Alert
  stuck : WaVersion → Alert

pub record Watch : Type 0 where
  pub notified_stale : Option WaVersion
  pub notified_no_upgrade : Option WaVersion
  pub consecutive_probe_failures : ℕ
  pub notified_blind : Bool
  pub alerts : List Alert

abbrev pub fresh_watch : Watch
fresh_watch = record {
  notified_stale = none;
  notified_no_upgrade = none;
  consecutive_probe_failures = 0;
  notified_blind = false;
  alerts = [];
}

abbrev pub is_noted : Option WaVersion → WaVersion → Bool
is_noted none v = false
is_noted (some w) v = same_wa_version w v

abbrev pub fire : Alert → Watch → Watch
fire a w = record w { alerts = w.alerts ++ a ∷ [] }

abbrev pub on_probe_succeeded : Watch → Watch
on_probe_succeeded w = record w { consecutive_probe_failures = 0; notified_blind = false }

-- One more failed probe, `n` in a row by now.
abbrev pub count_failure : ℕ → Watch → Watch
count_failure n w =
    if leb blind_probe_alert_threshold n && not w.notified_blind
    then fire (blind n) (record w { consecutive_probe_failures = n; notified_blind = true })
    else record w { consecutive_probe_failures = n }

unfoldable pub on_event : WaVersionEvent → Watch → Watch
unfolding same_wa_version
on_event probe_failed w = count_failure (w.consecutive_probe_failures + 1) w
on_event (current v) w = record (on_probe_succeeded w) { notified_stale = none }
on_event (stale pinned upstream) w =
    if is_noted w.notified_stale upstream
    then on_probe_succeeded w
    else fire (behind pinned upstream)
        (record (on_probe_succeeded w) { notified_stale = some upstream })
on_event (adopted before now) w = fire (fell_forward before now) (on_probe_succeeded w)
on_event (no_upgrade v) w =
    if is_noted w.notified_no_upgrade v
    then on_probe_succeeded w
    else fire (stuck v) (record (on_probe_succeeded w) { notified_no_upgrade = some v })

unfoldable pub on_events : List WaVersionEvent → Watch → Watch
unfolding on_event
on_events [] w = w
on_events (e ∷ es) w = on_events es (on_event e w)
