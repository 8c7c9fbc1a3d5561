-- ===== src/Ops/Health/Alerts.antt =====
-- One alert for an outage and one for its end, and no outage that stays silent.
use ezra.Common.{Bool, true, false, List, [], ◌∷◌, ◌++◌, ◌&&◌, map, ◌≡◌, refl, arith, ap, ◌∙◌}
use ezra.Ops.Health.{
  TransportState, open_state, connecting, closed, logged_out, Alert, reconnected, socket_down,
  signed_out, Monitor, on_state_change, on_grace_over, stop, Event, changes, grace_over, stops,
  step, watch, new_monitor,
}

-- Alerts of an outage and of its end in turn, from and to whether an outage has been told of.
abbrev pub Alternate : Bool → List Alert → Bool → Type 0
Alternate down [] end = down ≡ end
Alternate down (reconnected ∷ rest) end = (down ≡ true) × Alternate false rest end
Alternate down (socket_down ∷ rest) end = (down ≡ false) × Alternate true rest end
Alternate down (signed_out ∷ rest) end = (down ≡ false) × Alternate true rest end

-- The timer never runs once the outage has been told of.
abbrev pub IsSound : Monitor → Type 0
IsSound m = (m.grace_timer && m.down_alert_sent) ≡ false

Alternate-append :
    (a b c : Bool) (xs ys : List Alert)
    → Alternate a xs b
    → Alternate b ys c
    → Alternate a (xs ++ ys) c
Alternate-append a b c [] ys h k = rw h k
Alternate-append a b c (reconnected ∷ xs) ys h k = (h.0, Alternate-append false b c xs ys h.1 k)
Alternate-append a b c (socket_down ∷ xs) ys h k = (h.0, Alternate-append true b c xs ys h.1 k)
Alternate-append a b c (signed_out ∷ xs) ys h k = (h.0, Alternate-append true b c xs ys h.1 k)

step-IsSound :
    (e : Event) (m : Monitor)
    → IsSound m
    → IsSound (step e m).1 × Alternate m.down_alert_sent (step e m).0 (step e m).1.down_alert_sent
unfolding step on_state_change on_grace_over stop
step-IsSound (changes open_state) m s = ground arith
step-IsSound (changes connecting) m s = ground arith
step-IsSound (changes closed) m s = ground arith
step-IsSound (changes logged_out) m s = ground arith
step-IsSound grace_over m s = ground arith
step-IsSound stops m s = ground arith

watch-IsSound :
    (es : List Event) (m : Monitor)
    → IsSound m
    → Alternate m.down_alert_sent (watch es m).0 (watch es m).1.down_alert_sent
unfolding watch
watch-IsSound [] m s = refl
watch-IsSound (e ∷ es) m s =
    let (sound, first) = step-IsSound e m s in
    Alternate-append m.down_alert_sent (step e m).1.down_alert_sent _ (step e m).0 _ first
      (watch-IsSound es (step e m).1 sound)

-- Over any events, alerts of an outage and alerts of its end come in turn, an outage first: none is
-- told of twice, and no end is told of an outage that was not.
pub watch-Alternate :
    (es : List Event)
    → Alternate false (watch es new_monitor).0 (watch es new_monitor).1.down_alert_sent
watch-Alternate es = watch-IsSound es new_monitor refl

abbrev pub down_state : Bool → TransportState
down_state true = closed
down_state false = connecting

-- Changes between the two states of a socket that is down.
abbrev pub flaps : List Bool → List Event
flaps bs = map (λ b. changes (down_state b)) bs

-- The outage has not been told of, and the timer runs.
abbrev IsArmed : Monitor → Type 0
IsArmed m = (m.grace_timer ≡ true) × (m.down_alert_sent ≡ false) × (m.stopped ≡ false)

flap-arms :
    (b : Bool) (m : Monitor)
    → m.stopped ≡ false
    → m.down_alert_sent ≡ false
    → IsArmed (on_state_change (down_state b) m).1 × ((on_state_change (down_state b) m).0 ≡ [])
unfolding on_state_change
flap-arms true m h d = ground arith
flap-arms false m h d = ground arith

armed-told :
    (bs : List Bool) (m : Monitor)
    → IsArmed m
    → ((watch (flaps bs ++ grace_over ∷ []) m).0 ≡ socket_down ∷ [])
      × ((watch (flaps bs ++ grace_over ∷ []) m).1.down_alert_sent ≡ true)
unfolding watch step on_grace_over
armed-told [] m c = ground arith
armed-told (b ∷ bs) m c =
    let (armed, quiet) = flap-arms b m c.2 c.1 in
    let (said, told) = armed-told bs _ armed in
    (
      ap
            (λ alerts.
              alerts
              ++ (watch (flaps bs ++ grace_over ∷ []) (on_state_change (down_state b) m).1).0)
            quiet
          ∙ said,
      told,
    )

-- A socket that goes down and only flaps between closed and connecting until the grace is over gets
-- exactly one alert, that it is down, and the outage counts as told of, unless the monitor was stopped
-- or has told of an outage already.
pub watch_outage_told :
    (m : Monitor) (b : Bool) (bs : List Bool)
    → m.stopped ≡ false
    → m.down_alert_sent ≡ false
    → ((watch (flaps (b ∷ bs) ++ grace_over ∷ []) m).0 ≡ socket_down ∷ [])
      × ((watch (flaps (b ∷ bs) ++ grace_over ∷ []) m).1.down_alert_sent ≡ true)
unfolding watch step
watch_outage_told m b bs h d =
    let (armed, quiet) = flap-arms b m h d in
    let (said, told) = armed-told bs _ armed in
    (
      ap
            (λ alerts.
              alerts
              ++ (watch (flaps bs ++ grace_over ∷ []) (on_state_change (down_state b) m).1).0)
            quiet
          ∙ said,
      told,
    )
