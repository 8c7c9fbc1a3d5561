-- ===== src/Transport/Deliver/Once.antt =====
-- Under crashes at any point and any number of replays: an at-most-once reply leaves at most once.
use ezra.Common.{
  ℕ, zero, suc, ◌+◌, ◌≤◌, String, Bool, true, false, List, [], ◌∷◌, ◌++◌, str_eq, if◌then◌else◌,
  any, length, length-append, Attempt, returned, threw, ◌≡◌, refl, sym, subst, arith, eq_refl,
}
use ezra.Crash.{Run, go_on-state}
use ezra.Transport.SendClass.{DeliveryClass, at_least_once, at_most_once}
use ezra.Transport.SentLog.{SentLogEntry, SentLog, has_key, record_send}
use ezra.Transport.Deliver.{
  Message, Net, DeliverReplyArgs, Delivered, entry_of, message_of, outcome, send, send_if_won,
  deliver_at_most_once, deliver_class, deliver_reply, put_on_wire, replays,
}

abbrev pub is_logged : String → SentLog → Bool
is_logged key log = any (has_key key) log

abbrev pub unclaimed : String → SentLog → ℕ
unclaimed key log = if is_logged key log then 0 else 1

any-append :
    (key : String) (log : SentLog) (e : SentLogEntry)
    → is_logged key (log ++ e ∷ [])
      ≡ (if str_eq e.idempotency_key key then true else is_logged key log)
any-append key [] e = ground arith
any-append key (x ∷ log) e = ground (arith, any-append key log e)

-- A claim wins exactly when the key was not there, and leaves it there.
record_send-logs :
    (e : SentLogEntry) (log : SentLog)
    → ((record_send e log).0 ≡ (if is_logged e.idempotency_key log then false else true))
      × (is_logged e.idempotency_key (record_send e log).1 ≡ true)
unfolding record_send
record_send-logs e log =
    ground (arith, any-append e.idempotency_key log e, eq_refl e.idempotency_key)

module _ {W : Type 0} (transport_send : Message → W → Attempt String × W)
    (args : DeliverReplyArgs) where
  put_on_wire-one :
      (m : Message) (s : Net W) (r : Attempt String × W)
      → ((put_on_wire transport_send m s r).1.log ≡ s.log)
        × (length (put_on_wire transport_send m s r).1.wire ≤ length s.wire + 1)
  put_on_wire-one m s (returned id, far) = (refl, omega (arith, length-append s.wire (m ∷ [])))
  put_on_wire-one m s (threw e, far) = (refl, omega arith)

  -- The send alone: the log stays, and the wire grows by one at most.
  send_if_won-cost :
      (won : Bool) (n : ℕ) (s : Net W)
      → let s' = (send_if_won transport_send args won n s).2 in
        (s'.log ≡ s.log) × (length s'.wire ≤ length s.wire + (if won then 1 else 0))
  unfolding send_if_won
  send_if_won-cost false n s = (refl, omega arith)
  send_if_won-cost true zero s = (refl, omega arith)
  send_if_won-cost true (suc n) s =
      rw (go_on-state (λ a. outcome true false) (send transport_send (message_of args) (suc n) s))
        (put_on_wire-one (message_of args) s (transport_send (message_of args) s.far))

  -- One run, cut short anywhere: a message that goes is paid for by the claim.
  at_most_once-step :
      (n : ℕ) (s : Net W)
      → let s' = (deliver_at_most_once transport_send args n s).2 in
        length s'.wire + unclaimed args.idempotency_key s'.log
        ≤ length s.wire + unclaimed args.idempotency_key s.log
  unfolding deliver_at_most_once
  at_most_once-step zero s = omega arith
  at_most_once-step (suc n) s =
      let (won, logged) = record_send-logs (entry_of args) s.log in
      let (same, wire) =
        send_if_won-cost (record_send (entry_of args) s.log).0 n
          (record s { log = (record_send (entry_of args) s.log).1 }) in
      ground (arith, won, logged, same, wire)

  reply-at_most_once :
      (c : DeliveryClass)
      → c ≡ at_most_once
      → deliver_class transport_send c args ≡ deliver_at_most_once transport_send args
  unfolding deliver_class
  reply-at_most_once at_most_once e = refl
  reply-at_most_once at_least_once e = cc

  reply-step :
      (n : ℕ) (s : Net W)
      → args.send_class ≡ at_most_once
      → let s' = (deliver_reply transport_send args n s).2 in
        length s'.wire + unclaimed args.idempotency_key s'.log
        ≤ length s.wire + unclaimed args.idempotency_key s.log
  unfolding deliver_reply
  reply-step n s c =
      subst
        (λ (run : Run (Net W) Delivered).
          length (run n s).2.wire + unclaimed args.idempotency_key (run n s).2.log
          ≤ length s.wire + unclaimed args.idempotency_key s.log)
        (sym (reply-at_most_once args.send_class c)) (at_most_once-step n s)

  -- However often the delivery of an at-most-once reply is run, and wherever each run dies, the
  -- message leaves at most once, and not at all if its key was in the log.
  pub replays-at_most_once :
      (ns : List ℕ) (s : Net W)
      → args.send_class ≡ at_most_once
      → let s' = replays transport_send args ns s in
        length s'.wire + unclaimed args.idempotency_key s'.log
        ≤ length s.wire + unclaimed args.idempotency_key s.log
  unfolding replays
  replays-at_most_once [] s c = omega arith
  replays-at_most_once (n ∷ ns) s c =
      omega (
        arith,
        reply-step n s c,
        replays-at_most_once ns (deliver_reply transport_send args n s).2 c,
      )
