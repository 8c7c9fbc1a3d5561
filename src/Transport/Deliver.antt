-- ===== src/Transport/Deliver.antt =====
-- `deliverReply` and `makeSendDeadLetter` of src/transport/send-class.ts. The process may die
-- between any two effects; the sent log is in the database and survives. What stands on the far
-- side of the socket is the type `W` with its `transport_send`; a send that throws has put nothing
-- on the wire.
pub mod Once
pub mod Loud
use ezra.Common.{
  ℕ, String, Bool, true, false, Option, none, some, List, [], ◌∷◌, ◌++◌, if◌then◌else◌, Attempt,
  returned, threw, concat,
}
use ezra.Crash.{Run, effect, pure, raise, catch, ◌>>=◌}
use ezra.Transport.SendClass.{DeliveryClass, at_least_once, at_most_once, is_permanent_send_error}
use ezra.Transport.SentLog.{SentLogEntry, SentLog, record_send, get_sent_entry}

pub record Message : Type 0 where
  pub conversation_id : String
  pub text : String

pub record DeadLetter : Type 0 where
  pub idempotency_key : String
  pub conversation_id : String
  pub delivery_class : DeliveryClass
  pub text : String
  pub error : String

pub record Net (W : Type 0) : Type 0 where
  pub log : SentLog
  pub wire : List Message
  pub dead : List DeadLetter
  pub far : W

pub record DeliverReplyArgs : Type 0 where
  pub send_class : DeliveryClass
  pub idempotency_key : String
  pub conversation_id : String
  pub text : String

pub record Delivered : Type 0 where
  pub sent : Bool
  pub dead_lettered : Bool

abbrev pub entry_of : DeliverReplyArgs → SentLogEntry
entry_of args = record {
  idempotency_key = args.idempotency_key;
  conversation_id = args.conversation_id;
  delivery_class = args.send_class;
  body = args.text;
}

abbrev pub message_of : DeliverReplyArgs → Message
message_of args = record { conversation_id = args.conversation_id; text = args.text }

abbrev pub outcome : Bool → Bool → Delivered
outcome sent dead = record { sent = sent; dead_lettered = dead }

abbrev pub dead_letter_of : DeliverReplyArgs → String → DeadLetter
dead_letter_of args error = record {
  idempotency_key = args.idempotency_key;
  conversation_id = args.conversation_id;
  delivery_class = args.send_class;
  text = args.text;
  error = error;
}

module _ {W : Type 0} (transport_send : Message → W → Attempt String × W) where
  -- What `transport_send` answered, and the message on the wire if it went.
  abbrev pub put_on_wire : Message → Net W → Attempt String × W → Attempt String × Net W
  put_on_wire m s (returned id, far) =
      (returned id, record s { wire = s.wire ++ m ∷ []; far = far })
  put_on_wire m s (threw e, far) = (threw e, record s { far = far })

  abbrev pub send : Message → Run (Net W) String
  send m = effect (λ s. put_on_wire m s (transport_send m s.far))

  abbrev pub claim : SentLogEntry → Run (Net W) Bool
  claim e =
      effect (λ s. (returned (record_send e s.log).0, record s { log = (record_send e s.log).1 }))

  abbrev pub look_up : String → Run (Net W) (Option SentLogEntry)
  look_up key = effect (λ s. (returned (get_sent_entry key s.log), s))

  -- The dead-letter handler, which never throws.
  abbrev pub bury : DeadLetter → Run (Net W) (Unit {0})
  bury d = effect (λ s. (returned tt, record s { dead = s.dead ++ d ∷ [] }))

  -- Log, then send: only the call that wrote the row sends.
  unfoldable pub send_if_won : DeliverReplyArgs → Bool → Run (Net W) Delivered
  send_if_won args false = pure (outcome false false)
  send_if_won args true = do _ ← send (message_of args); pure (outcome true false)

  unfoldable pub deliver_at_most_once : DeliverReplyArgs → Run (Net W) Delivered
  unfolding send_if_won
  deliver_at_most_once args = do won ← claim (entry_of args); send_if_won args won

  -- The `catch` around the send: a permanent failure is dead-lettered, any other goes on.
  unfoldable pub handle_failure : DeliverReplyArgs → String → Run (Net W) Bool
  handle_failure args error =
      if is_permanent_send_error error
      then (do _ ← bury (dead_letter_of args error); pure false)
      else raise error

  -- Whether the message went; if not, it was dead-lettered.
  unfoldable pub attempt_send : DeliverReplyArgs → Run (Net W) Bool
  unfolding handle_failure
  attempt_send args = catch (do _ ← send (message_of args); pure true) (handle_failure args)

  unfoldable pub log_if_sent : DeliverReplyArgs → Bool → Run (Net W) Delivered
  log_if_sent args false = pure (outcome false true)
  log_if_sent args true = do _ ← claim (entry_of args); pure (outcome true false)

  unfoldable pub send_unless_logged : DeliverReplyArgs → Option SentLogEntry → Run (Net W) Delivered
  unfolding attempt_send log_if_sent
  send_unless_logged args (some e) = pure (outcome false false)
  send_unless_logged args none = do went ← attempt_send args; log_if_sent args went

  -- Send, then log.
  unfoldable pub deliver_at_least_once : DeliverReplyArgs → Run (Net W) Delivered
  unfolding send_unless_logged
  deliver_at_least_once args = do
    entry ← look_up args.idempotency_key
    send_unless_logged args entry

  unfoldable pub deliver_class : DeliveryClass → DeliverReplyArgs → Run (Net W) Delivered
  unfolding deliver_at_most_once deliver_at_least_once
  deliver_class at_most_once args = deliver_at_most_once args
  deliver_class at_least_once args = deliver_at_least_once args

  unfoldable pub deliver_reply : DeliverReplyArgs → Run (Net W) Delivered
  unfolding deliver_class
  deliver_reply args = deliver_class args.send_class args

  -- The delivery run again and again, each run living for as many effects as the list says.
  unfoldable pub replays : DeliverReplyArgs → List ℕ → Net W → Net W
  replays args [] s = s
  replays args (n ∷ ns) s = replays args ns (deliver_reply args n s).2

-- What the dead-letter handler writes: lines of the local log, and texts of the alert channel `C`.
pub record Notices (C : Type 0) : Type 0 where
  pub lines : List String
  pub alerts : List String
  pub channel : C

abbrev pub class_name : DeliveryClass → String
class_name at_least_once = "at-least-once"
class_name at_most_once = "at-most-once"

unfoldable pub dead_letter_line : DeadLetter → String
dead_letter_line d = concat (
    "[dead-letter] undeliverable "
    ∷ class_name d.delivery_class
    ∷ " send to "
    ∷ d.conversation_id
    ∷ " ("
    ∷ d.error
    ∷ "); key="
    ∷ d.idempotency_key
    ∷ " :: "
    ∷ d.text
    ∷ [])

unfoldable pub dead_letter_alert : DeadLetter → String
dead_letter_alert d = concat (
    "⚠\u{fe0f} hh-assistant: undeliverable "
    ∷ class_name d.delivery_class
    ∷ " message\nto: "
    ∷ d.conversation_id
    ∷ "\nreason: "
    ∷ d.error
    ∷ "\nsend key: "
    ∷ d.idempotency_key
    ∷ [])

module _ {C : Type 0} (alert : String → C → Attempt (Unit {0}) × C) where
  abbrev pub alerted : Notices C → String → Attempt (Unit {0}) × C → Notices C
  alerted n text (returned _, c) = record n { alerts = n.alerts ++ text ∷ []; channel = c }
  alerted n text (threw detail, c) = record n {
    lines =
        n.lines
        ++ concat (
            "[dead-letter] alert failed (" ∷ detail ∷ ") — message dropped, freeing the lane anyway"
            ∷ [])
          ∷ [];
    channel = c;
  }

  -- `makeSendDeadLetter`: it returns on every path.
  unfoldable pub send_dead_letter : DeadLetter → Notices C → Notices C
  send_dead_letter d n =
      alerted (record n { lines = n.lines ++ dead_letter_line d ∷ [] }) (dead_letter_alert d)
        (alert (dead_letter_alert d) n.channel)
