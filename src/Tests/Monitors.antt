-- ===== src/Tests/Monitors.antt =====
-- The monitor, the limiter and the store at work on concrete inputs.
use ezra.Common.{◌+◌, true, false, none, some, List, [], ◌∷◌, ◌++◌, ◌≡◌, refl, arith}
use ezra.Common.{any, ◌≤◌}
use ezra.Store.{Reminder, scheduled, open_reminder}
use ezra.Store.Settles.{fires, cancels, settle_all, one_if, settle_all-once}
use ezra.Ops.Health.{
  open_state, closed, logged_out, Event, changes, grace_over, socket_down, watch, new_monitor,
}
use ezra.Ops.Health.Alerts.{Alternate, watch-Alternate, flaps, watch_outage_told}
use ezra.Ops.Limiter.{RateLimitOptions, Entry, Limits, put_entry}
use ezra.Ops.Limiter.Locks.{others_fail, others_fail-keeps}

abbrev outage : List Event
outage = changes closed ∷ grace_over ∷ changes logged_out ∷ changes open_state ∷ []

watch-Alternate_example :
    Alternate false (watch outage new_monitor).0 (watch outage new_monitor).1.down_alert_sent
watch-Alternate_example = watch-Alternate outage

watch_outage_told_example :
    ((watch (flaps (true ∷ false ∷ []) ++ grace_over ∷ []) new_monitor).0 ≡ socket_down ∷ [])
    × ((watch (flaps (true ∷ false ∷ []) ++ grace_over ∷ []) new_monitor).1.down_alert_sent ≡ true)
watch_outage_told_example = watch_outage_told new_monitor true (false ∷ []) refl refl

abbrev options : RateLimitOptions
options = record { max_failures = 2; lockout_ms = 100; window_ms = 50 }

abbrev one_failure : Entry
one_failure = record { failures = 10 ∷ []; locked_until = 0 }

abbrev limits : Limits
limits = put_entry "a" (some one_failure) (λ k. none)

others_fail-keeps_example :
    others_fail options (("b", 500) ∷ ("c", 90_000) ∷ []) limits "a" ≡ some one_failure
others_fail-keeps_example =
    others_fail-keeps options "a" (("b", 500) ∷ ("c", 90_000) ∷ []) limits one_failure refl
      (omega arith) refl

abbrev nag : Reminder
nag = record {
  id = "r";
  conversation_id = "c";
  body = "bins";
  due_at = 5;
  recurrence = none;
  status = scheduled;
  created_by = "a";
  created_at = 1;
}

settle_all-once_example :
    (settle_all "r" (fires "r" ∷ cancels "r" ∷ fires "r" ∷ []) (nag ∷ [])).0
      + one_if (
          any
            (open_reminder "r")
            (settle_all "r" (fires "r" ∷ cancels "r" ∷ fires "r" ∷ []) (nag ∷ [])).1)
    ≤ one_if (any (open_reminder "r") (nag ∷ []))
settle_all-once_example = settle_all-once "r" (fires "r" ∷ cancels "r" ∷ fires "r" ∷ []) (nag ∷ [])
