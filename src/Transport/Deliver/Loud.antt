-- ===== src/Transport/Deliver/Loud.antt =====
-- No at-least-once reply is lost in silence, and what the dead-letter handler tells whom.
use ezra.Common.{
  ℕ, String, true, false, some, List, [], ◌∷◌, ◌++◌, Attempt, returned, threw, ◌≡◌, refl, sym,
  append-nil,
}
use ezra.Crash.{Ended, done, raised, crashed}
use ezra.Transport.SendClass.{is_permanent_send_error}
use ezra.Transport.SentLog.{SentLogEntry, record_send, get_sent_entry}
use ezra.Transport.Deliver.{
  Message, DeadLetter, Net, DeliverReplyArgs, Delivered, entry_of, message_of, outcome,
  dead_letter_of, Notices, dead_letter_line, dead_letter_alert, alerted, send_dead_letter,
}

module _ {W : Type 0} (transport_send : Message → W → Attempt String × W) (args : DeliverReplyArgs)
    (s : Net W) where
  -- An answer means: logged before, or sent and logged now, or dead-lettered for a permanent error.
  pub data Accounted (s' : Net W) : Delivered → Type 0 where
    logged_before :
        (e : SentLogEntry)
        → get_sent_entry args.idempotency_key s.log ≡ some e
        → s' ≡ s
        → Accounted s' (outcome false false)
    sent_now :
        s'.wire ≡ s.wire ++ message_of args ∷ []
        → s'.log ≡ (record_send (entry_of args) s.log).1
        → s'.dead ≡ s.dead
        → Accounted s' (outcome true false)
    buried :
        (error : String)
        → is_permanent_send_error error ≡ true
        → s'.dead ≡ s.dead ++ dead_letter_of args error ∷ []
        → s'.log ≡ s.log
        → s'.wire ≡ s.wire
        → Accounted s' (outcome false true)

  -- A run that throws or dies leaves the log as it was, so that the next run sends; it throws only
  -- what is worth another run.
  pub Loud : Ended Delivered × ℕ × Net W → Type 0
  Loud (done d, n, s') = Accounted s' d
  Loud (raised e, n, s') =
      (is_permanent_send_error e ≡ false)
      × (s'.log ≡ s.log)
      × (s'.wire ≡ s.wire)
      × (s'.dead ≡ s.dead)
  Loud (crashed, n, s') = s'.log ≡ s.log

-- The same letter with another text.
abbrev pub with_text : DeadLetter → String → DeadLetter
with_text d text = record d { text = text }

module _ {C : Type 0} (alert : String → C → Attempt (Unit {0}) × C) where
  -- The local log starts with the full line, whatever the alert does.
  line_first :
      (d : DeadLetter) (n : Notices C) (r : Attempt (Unit {0}) × C)
      → (rest : List String) × ((alerted alert
            (record n { lines = n.lines ++ dead_letter_line d ∷ [] })
            (dead_letter_alert d)
            r).lines
          ≡ (n.lines ++ dead_letter_line d ∷ []) ++ rest)
  line_first d n (returned _, c) = ([], sym (append-nil _))
  line_first d n (threw e, c) = (_, refl)

  alert_same :
      (d : DeadLetter) (text : String) (n : Notices C) (l1 l2 : List String)
      (r : Attempt (Unit {0}) × C)
      → let a = alerted alert (record n { lines = l1 }) (dead_letter_alert d) r in
        let b = alerted alert (record n { lines = l2 }) (dead_letter_alert d) r in
        (a.alerts ≡ b.alerts) × (a.channel ≡ b.channel)
  alert_same d text n l1 l2 (returned _, c) = (refl, refl)
  alert_same d text n l1 l2 (threw e, c) = (refl, refl)

  -- The handler writes the whole letter, its text included, to the local log first, also when the
  -- alert fails; what it puts on the alert channel does not depend on the letter's text.
  pub send_dead_letter-private :
      (d : DeadLetter) (text : String) (n : Notices C)
      → ((rest : List String) × ((send_dead_letter alert d n).lines
            ≡ (n.lines ++ dead_letter_line d ∷ []) ++ rest))
        × ((send_dead_letter alert d n).alerts
            ≡ (send_dead_letter alert (with_text d text) n).alerts)
        × ((send_dead_letter alert d n).channel
            ≡ (send_dead_letter alert (with_text d text) n).channel)
  unfolding send_dead_letter dead_letter_alert
  send_dead_letter-private d text n =
      let (alerts, channel) =
        alert_same d text n (n.lines ++ dead_letter_line d ∷ [])
          (n.lines ++ dead_letter_line (with_text d text) ∷ [])
          (alert (dead_letter_alert d) n.channel) in
      (line_first d n (alert (dead_letter_alert d) n.channel), alerts, channel)
