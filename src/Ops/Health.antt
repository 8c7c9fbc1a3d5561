-- ===== src/Ops/Health.antt =====
-- `createHealthMonitor` of src/ops/health.ts: changes of the socket's state become alerts. The grace
-- timer runs or it does not; that it goes off is an event of its own. The texts are left out.
pub mod Alerts
use ezra.Common.{Bool, true, false, List, [], ◌∷◌, ◌++◌, ◌||◌, if◌then◌else◌}

pub data TransportState : Type 0 where
  open_state connecting closed logged_out : TransportState

pub data Alert : Type 0 where
  reconnected socket_down signed_out : Alert

pub record Monitor : Type 0 where
  pub grace_timer : Bool
  pub down_alert_sent : Bool
  pub stopped : Bool

abbrev pub new_monitor : Monitor
new_monitor = record { grace_timer = false; down_alert_sent = false; stopped = false }

-- The alert that is sent, if any, and the monitor after it.
abbrev pub Handled : Type 0
Handled = List Alert × Monitor

abbrev pub handle_open : Monitor → Handled
handle_open m =
    if m.down_alert_sent
    then (reconnected ∷ [], record m { grace_timer = false; down_alert_sent = false })
    else ([], record m { grace_timer = false })

abbrev pub handle_down : Monitor → Handled
handle_down m =
    if m.grace_timer || m.down_alert_sent then ([], m) else ([], record m { grace_timer = true })

abbrev pub handle_logged_out : Monitor → Handled
handle_logged_out m =
    if m.down_alert_sent
    then ([], record m { grace_timer = false })
    else (signed_out ∷ [], record m { grace_timer = false; down_alert_sent = true })

abbrev pub handle_state : TransportState → Monitor → Handled
handle_state open_state m = handle_open m
handle_state closed m = handle_down m
handle_state connecting m = handle_down m
handle_state logged_out m = handle_logged_out m

unfoldable pub on_state_change : TransportState → Monitor → Handled
on_state_change state m = if m.stopped then ([], m) else handle_state state m

-- The callback of `setTimeout`; a cleared timer does not go off.
unfoldable pub on_grace_over : Monitor → Handled
on_grace_over m =
    if m.grace_timer
    then (socket_down ∷ [], record m { grace_timer = false; down_alert_sent = true })
    else ([], m)

unfoldable pub stop : Monitor → Monitor
stop m = record m { stopped = true; grace_timer = false }

pub data Event : Type 0 where
  changes : TransportState → Event
  grace_over stops : Event

unfoldable pub step : Event → Monitor → Handled
unfolding on_state_change on_grace_over stop
step (changes state) m = on_state_change state m
step grace_over m = on_grace_over m
step stops m = ([], stop m)

unfoldable pub watch : List Event → Monitor → Handled
unfolding step
watch [] m = ([], m)
watch (e ∷ es) m = ((step e m).0 ++ (watch es (step e m).1).0, (watch es (step e m).1).1)
