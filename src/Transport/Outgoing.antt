-- ===== src/Transport/Outgoing.antt =====
-- `send` of src/transport/baileys.ts and the marker of src/transport/agent-marker.ts.
pub mod Echoless
use Prim.Native.String
use text.Mathlib.Text.{starts_with}
use ezra.Common.{
  ℕ, String, Bool, true, false, not, ◌||◌, Option, none, some, List, [], ◌∷◌, ◌++◌, str_eq,
  if◌then◌else◌, concat, Attempt, returned, threw,
}
use ezra.Ops.Health.{TransportState, open_state, connecting, closed, logged_out}
use ezra.Transport.Socket.{same_state}
use ezra.Transport.SendClass.{is_unroutable_destination, unroutable_destination_error}
use ezra.Transport.RecentIds.{RecentIds, add}

-- `'🤖 '`
abbrev pub agent_marker : String
agent_marker = "🤖 "

unfoldable pub mark_agent_text : String → String
mark_agent_text text = if starts_with text agent_marker then text else String.◌++◌ agent_marker text

pub record OutboundMessage : Type 0 where
  pub conversation_id : String
  pub text : String

-- How the race of `sendMessage` and the timer ends.
pub data Raced : Type 0 where
  answered : Option String → Raced
  late : Raced
  failed : String → Raced

-- What a send reads and writes.
pub record Channel : Type 0 where
  pub has_socket : Bool
  pub state : TransportState
  pub sent_ids : RecentIds
  pub wire : List OutboundMessage

module _ (code_points : String → List ℕ) (timed_out : String) where
  abbrev pub take_raced : Raced → Channel → Attempt String × Channel
  take_raced (answered none) c = (threw "sendMessage returned no message id", c)
  take_raced (answered (some id)) c =
      if str_eq id ""
      then (threw "sendMessage returned no message id", c)
      else (returned id, record c { sent_ids = add id c.sent_ids })
  take_raced late c = (threw timed_out, c)
  take_raced (failed error) c = (threw error, c)

  unfoldable pub send : Raced → OutboundMessage → Channel → Attempt String × Channel
  send raced m c =
      if not c.has_socket || not (same_state c.state open_state)
      then (threw "transport not connected", c)
      else if is_unroutable_destination (code_points m.conversation_id)
      then (threw (unroutable_destination_error m.conversation_id), c)
      else take_raced raced (record c {
        wire =
            c.wire
            ++ record { conversation_id = m.conversation_id; text = mark_agent_text m.text } ∷ [];
      })

  -- One send after another, each with the end of its race.
  unfoldable pub send_all : List (Raced × OutboundMessage) → Channel → Channel
  send_all [] c = c
  send_all ((raced, m) ∷ sends) c = send_all sends (send raced m c).1
