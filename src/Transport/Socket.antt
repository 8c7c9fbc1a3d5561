-- ===== src/Transport/Socket.antt =====
-- src/transport/baileys.ts: the life of the connection. A connect attempt is known by its number, and
-- so is the socket that it makes. Timers and promises that are under way are part of the state; that
-- one of them comes due is an event, in any order.
mod States
pub mod Steps
pub mod Driven
pub mod Wedged
pub mod Idle
use ezra.Common.{
  ℕ, zero, suc, ◌+◌, String, Bool, true, false, not, Option, none, some, List, [], ◌∷◌, ◌++◌, ltb,
  ◌==◌, if◌then◌else◌, Attempt, returned, threw, ◌≡◌,
}
use ezra.Ops.Health.{TransportState, open_state, connecting, closed, logged_out}
use ezra.Transport.Content.{
  DisconnectAction, re_pair, restart, retry, version_rejected, classify_disconnect,
}

pub data RetryReason : Type 0 where
  disconnected : DisconnectAction → RetryReason
  connect_timeout connect_failed : RetryReason

pub record DisconnectInfo : Type 0 where
  pub status_code : Option ℕ
  pub action : RetryReason
  pub attempt : ℕ
  pub retry_delay : Option ℕ
  pub gave_up : Bool

-- An attempt that waits for its credentials or its socket. `connect` itself awaits its own.
pub record InFlight : Type 0 where
  pub id : ℕ
  pub background : Bool

pub record Adapter : Type 0 where
  pub socket : Option ℕ
  pub state : TransportState
  pub intentional_close : Bool
  pub force_restart : Bool
  pub retry_attempts : ℕ
  pub connect_attempt : ℕ
  -- The attempt that the timer of the watchdog was set for.
  pub watchdog : Option ℕ
  pub in_flight : List InFlight
  -- How many backoffs sleep.
  pub sleeping : ℕ
  -- The codes of the rejections for which the version source is being asked.
  pub falling : List (Option ℕ)
  -- How many calls wait for the connection to open, and what the others were answered.
  pub waiters : ℕ
  pub answers : List (Attempt (Unit {0}))
  -- What the handlers of a state change were told, what was reported, which sockets were ended.
  pub told : List TransportState
  pub reports : List DisconnectInfo
  pub ended : List ℕ

abbrev pub new_adapter : Adapter
new_adapter = record {
  socket = none;
  state = closed;
  intentional_close = false;
  force_restart = false;
  retry_attempts = 0;
  connect_attempt = 0;
  watchdog = none;
  in_flight = [];
  sleeping = 0;
  falling = [];
  waiters = 0;
  answers = [];
  told = [];
  reports = [];
  ended = [];
}

abbrev pub same_state : TransportState → TransportState → Bool
same_state open_state open_state = true
same_state connecting connecting = true
same_state closed closed = true
same_state logged_out logged_out = true
same_state _ _ = false

abbrev pub each_waiter : ℕ → Attempt (Unit {0}) → List (Attempt (Unit {0}))
each_waiter zero answer = []
each_waiter (suc n) answer = answer ∷ each_waiter n answer

-- The handler of `waitForOpen`: it stays while the state is 'connecting'.
unfoldable pub answer_waiters : TransportState → Adapter → Adapter
answer_waiters connecting s = s
answer_waiters open_state s = record s {
  waiters = 0;
  answers = s.answers ++ each_waiter s.waiters (returned tt);
}
answer_waiters logged_out s = record s {
  waiters = 0;
  answers =
      s.answers
      ++ each_waiter s.waiters (threw "WhatsApp logged out — re-pair via QR (docs/pairing.md)");
}
answer_waiters closed s = record s {
  waiters = 0;
  answers = s.answers ++ each_waiter s.waiters (threw "WhatsApp connection closed before opening");
}

unfoldable pub set_state : TransportState → Adapter → Adapter
set_state next s =
    if same_state next s.state
    then s
    else answer_waiters next (record s { state = next; told = s.told ++ next ∷ [] })

abbrev pub wait_for_open : Adapter → Adapter
wait_for_open s = record s { waiters = suc s.waiters }

abbrev pub clear_watchdog : Adapter → Adapter
clear_watchdog s = record s { watchdog = none }

abbrev pub report : DisconnectInfo → Adapter → Adapter
report info s = record s { reports = s.reports ++ info ∷ [] }

abbrev pub socket_ids : Option ℕ → List ℕ
socket_ids none = []
socket_ids (some id) = id ∷ []

-- `sock?.end(undefined)`; the close that it brings about is an event of its own.
abbrev pub end_socket : Adapter → Adapter
end_socket s = record s { ended = s.ended ++ socket_ids s.socket }

-- `startSocket` up to its first await.
unfoldable pub start_socket : Bool → Adapter → Adapter
start_socket background s =
    let begun = set_state connecting (record s { connect_attempt = suc s.connect_attempt }) in
    record begun {
      watchdog = some (suc s.connect_attempt);
      in_flight = record { id = suc s.connect_attempt; background = background } ∷ begun.in_flight;
    }

abbrev pub info : Option ℕ → RetryReason → ℕ → Option ℕ → Bool → DisconnectInfo
info code action attempt delay gave_up = record {
  status_code = code;
  action = action;
  attempt = attempt;
  retry_delay = delay;
  gave_up = gave_up;
}

-- A backoff is over.
unfoldable pub on_woken : Adapter → Adapter
on_woken s = if s.intentional_close then s else start_socket true s

-- The rest of `startSocket`, once it has its socket.
unfoldable pub on_created : ℕ → Adapter → Adapter
on_created id s =
    if id == s.connect_attempt
    then record s { socket = some id }
    else record s { ended = s.ended ++ id ∷ [] }

-- The socket's `connection.update` with 'open'.
unfoldable pub on_opened : ℕ → Adapter → Adapter
on_opened id s =
    if id == s.connect_attempt
    then set_state open_state (record s { watchdog = none; retry_attempts = 0 })
    else s

unfoldable pub connect : Adapter → Adapter
connect s = start_socket false (wait_for_open (record s { intentional_close = false }))

unfoldable pub force_reconnect : Adapter → Adapter
force_reconnect s = end_socket (record (wait_for_open s) { force_restart = true })

unfoldable pub disconnect : Adapter → Adapter
disconnect s =
    set_state closed (end_socket (clear_watchdog (record s { intentional_close = true })))

-- The budget of the reconnect policy, and the delay that is drawn for an attempt.
module _ (max_attempts : ℕ) (delay : ℕ → ℕ) where
  unfoldable pub schedule_retry : Option ℕ → RetryReason → Adapter → Adapter
  schedule_retry code action s =
      let attempt = suc s.retry_attempts in
      let spent = record s { retry_attempts = attempt } in
      if ltb max_attempts attempt
      then set_state closed (report (info code action attempt none true) spent)
      else record (report (info code action attempt (some (delay s.retry_attempts)) false) spent) {
        sleeping = suc s.sleeping;
      }

  unfoldable pub on_connect_timeout : ℕ → Adapter → Adapter
  on_connect_timeout id s =
      if id == s.connect_attempt
      then schedule_retry none connect_timeout (record (end_socket s) {
        watchdog = none;
        connect_attempt = suc s.connect_attempt;
        socket = none;
      })
      else s

  -- What `classifyDisconnect` makes of the code.
  unfoldable pub act_on : DisconnectAction → Option ℕ → Adapter → Adapter
  act_on re_pair code s =
      set_state logged_out (report (info code (disconnected re_pair) 0 none false) s)
  act_on restart code s =
      start_socket true (report (info code (disconnected restart) 0 none false) s)
  act_on version_rejected code s = record s { falling = code ∷ s.falling }
  act_on retry code s = schedule_retry code (disconnected retry) s

  unfoldable pub handle_close : Option ℕ → Adapter → Adapter
  handle_close code s =
      let disarmed = clear_watchdog s in
      if s.intentional_close
      then set_state closed disarmed
      else if s.force_restart
      then start_socket true (record disarmed { force_restart = false })
      else act_on (classify_disconnect code) code disarmed

  -- The version source has answered.
  unfoldable pub on_fell_forward : Option ℕ → Bool → Adapter → Adapter
  on_fell_forward code adopted s =
      if s.intentional_close
      then s
      else if adopted
      then start_socket true (
          report (info code (disconnected version_rejected) 0 (some 0) false)
            (record s { retry_attempts = 0 }))
      else schedule_retry code (disconnected version_rejected) s

  -- `startSocket` throws, in the background or under `connect`.
  unfoldable pub on_rejected : Bool → Adapter → Adapter
  on_rejected false s = s
  on_rejected true s =
      if s.intentional_close
      then clear_watchdog s
      else schedule_retry none connect_failed (clear_watchdog s)

  -- The socket's `connection.update` with 'close'.
  unfoldable pub on_closed : ℕ → Option ℕ → Adapter → Adapter
  on_closed id code s = if id == s.connect_attempt then handle_close code s else s
