-- ===== src/Tests/Connections.antt =====
-- The life of a connection, what comes and goes over it, and the settings, on concrete inputs.
use ezra.Common.{
  ℕ, suc, ◌+◌, ◌-◌, ◌*◌, String, true, false, Option, none, some, List, [], ◌∷◌, ◌++◌, ltb,
  if◌then◌else◌, str_eq, All, ◌≡◌, refl, arith,
}
use ezra.Transport.SendClass.{is_unroutable_destination, index_of_at}
use ezra.Hitl.Value.{Value, obj, field, end, str}
use ezra.Ops.Health.{open_state, closed}
use ezra.Transport.Socket.{
  Adapter, new_adapter, connect, disconnect, on_closed, on_woken, handle_close, act_on,
  schedule_retry, start_socket, set_state, answer_waiters,
}
use ezra.Transport.Socket.Steps.{here, next, connects, woken, closes}
use ezra.Transport.Socket.Driven.{Drives, Reach-Drives}
use ezra.Transport.Socket.Wedged.{wedge, timeouts, wedge-gives_up}
use ezra.Transport.Socket.Idle.{IsIdle, Later, disconnect-IsIdle}
use ezra.Transport.Socket.Idle
use ezra.Transport.Content.{classify_disconnect}
use ezra.Transport.RecentIds.{RecentIds}
use ezra.Transport.Upsert.{UpsertMessage, append, number, handle_upsert}
use ezra.Transport.Outgoing.{OutboundMessage, answered, Channel, send, send_all}
use ezra.Transport.Outgoing.Echoless.{send-not_echoed}
use ezra.Orchestration.TimeZone.{WallTime}

abbrev backoff : ℕ → ℕ
backoff attempt = 2_000 * suc attempt

-- Connected, dropped, and on the way again.
abbrev dialing : Adapter
dialing = connect new_adapter

abbrev dropped : Adapter
dropped = on_closed 3 backoff 1 (some 408) dialing

abbrev redialing : Adapter
redialing = on_woken (record dropped { sleeping = 0 })

Reach-Drives_example : Drives redialing
unfolding connect on_closed handle_close act_on classify_disconnect schedule_retry start_socket
    set_state answer_waiters on_woken
Reach-Drives_example =
    Reach-Drives 3 (next (next (next here connects) (closes backoff 1 (some 408))) (woken 0 refl))
      refl refl

wedge-gives_up_example :
    ((wedge 3 backoff 4 dialing).state ≡ closed)
    × ((wedge 3 backoff 4 dialing).reports ≡ dialing.reports ++ timeouts 3 backoff 0 3)
unfolding connect start_socket set_state answer_waiters
wedge-gives_up_example = wedge-gives_up 3 backoff 3 dialing refl refl refl refl refl

disconnect-IsIdle_example :
    IsIdle dropped.connect_attempt dropped.reports
      (on_woken (record (disconnect dropped) { sleeping = 0 }))
unfolding connect on_closed handle_close act_on classify_disconnect schedule_retry start_socket
    set_state answer_waiters disconnect
disconnect-IsIdle_example = disconnect-IsIdle 3 dropped (Idle.next Idle.here (woken 0 refl) refl)

abbrev hello : Value
hello = obj (field "conversation" (str "hello") end)

abbrev incoming : String → UpsertMessage
incoming id = record {
  id = some id;
  remote_jid = some "family@g.us";
  from_me = some true;
  participant = some "1555:3@s.whatsapp.net";
  message = hello;
  push_name = none;
  message_timestamp = number 9;
}

abbrev sent : RecentIds
sent = record { capacity = 4; ids = "b1" ∷ [] }

abbrev no_number : String → Option ℕ
no_number s = none

abbrev channel : Channel
channel = record { has_socket = true; state = open_state; sent_ids = sent; wire = [] }

abbrev reply : OutboundMessage
reply = record { conversation_id = "family@g.us"; text = "done" }

abbrev points : String → List ℕ
points s = b'a' ∷ b'@' ∷ b'b' ∷ []

send-not_echoed_example :
    All
      (λ n. str_eq "b2" n.id ≡ false)
      (handle_upsert no_number
        (send_all points "late"
          ((answered (some "b3"), reply) ∷ [])
          (send points "late" (answered (some "b2")) reply channel).1).sent_ids
        append
        (incoming "b2" ∷ incoming "m2" ∷ []))
unfolding send is_unroutable_destination index_of_at
send-not_echoed_example =
    send-not_echoed points "late" no_number (answered (some "b2")) reply channel "b2" refl
      ((answered (some "b3"), reply) ∷ []) (omega arith) append (incoming "b2" ∷ incoming "m2" ∷ [])

-- New York's wall clock, with the changes of March and November 2026 and of March 2027.
abbrev clock : ℕ → ℕ
clock i =
    if ltb i 1_772_953_200_000
    then i - 18_000_000
    else if ltb i 1_793_512_800_000
    then i - 14_400_000
    else if ltb i 1_805_007_600_000
    then i - 18_000_000
    else i - 14_400_000

-- Within November 2026.
abbrev november : WallTime → ℕ
november w = 1_793_491_200_000 + (w.day - 1) * 86_400_000 + w.hour * 3_600_000 + w.minute * 60_000

-- The clock shows half past one twice that night.
abbrev half_past_one : WallTime
half_past_one = record { year = 2026; month = 11; day = 1; hour = 1; minute = 30 }
