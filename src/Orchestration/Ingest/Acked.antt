-- ===== src/Orchestration/Ingest/Acked.antt =====
-- No message is acknowledged before it is durable. `IsDurable m w` says that the world `w` holds `m` for
-- good; that an enqueue resolves only then is what ingest.ts asks of it.
use ezra.Common.{
  ℕ, zero, suc, ◌+◌, Bool, true, false, not, ◌&&◌, Option, none, some, Attempt, returned, threw,
  ◌≡◌, ◌≢◌, refl, sym, ap, subst, arith, eq_iff, String, Bool-cases, inl, inr, ◌⊎◌,
}
use ezra.Hitl.Value.{Value, obj, field, end, str, bool, num, null, get, non_empty}
use ezra.Orchestration.Ingest.{
  ParsedInboundMessage, IngestOutcome, enqueued, self_echo, ignored_conversation, invalid,
  enqueue_failed, Inlet, IngestionDeps, is_foreign, only_keys, ack_with, try_enqueue, after_enqueue,
  ingest_parsed, ingest, parse_inbound,
}
use ezra.Crash.{Ended, done, raised, crashed, go_on, rescue, pure, ended}

-- The message is one that the household is to have answered.
abbrev pub is_ours : {W : Type 0} → IngestionDeps W → ParsedInboundMessage → Bool
is_ours d m =
    not (is_foreign d.is_household_conversation m.conversation_id) && not (d.was_sent_by_bot m.id)

abbrev or_null : Option String → Value
or_null none = null
or_null (some s) = str s

-- A message as the transport hands it over.
abbrev pub to_wire : ParsedInboundMessage → Value
to_wire m = obj (
    field "id" (str m.id) (
      field "conversationId" (str m.conversation_id) (
        field "senderId" (str m.sender_id) (
          field "senderName" (or_null m.sender_name) (
            field "fromMe" (bool m.from_me) (
              field "text" (str m.text) (
                field "quotedMessageId" (or_null m.quoted_message_id)
                  (field "timestamp" (num m.timestamp) end))))))))

parts-read :
    (i c s t : String) (n q : Option String) (b : Bool) (at : ℕ)
    → i ≢ ""
    → c ≢ ""
    → s ≢ ""
    → let m : ParsedInboundMessage = record {
      id = i;
      conversation_id = c;
      sender_id = s;
      sender_name = n;
      from_me = b;
      text = t;
      quoted_message_id = q;
      timestamp = at;
    } in
      parse_inbound (to_wire m) ≡ some m
unfolding parse_inbound only_keys get non_empty
parts-read i c s t none none b at hi hc hs = ground (arith, eq_iff i "", eq_iff c "", eq_iff s "")
parts-read i c s t none (some q) b at hi hc hs =
    ground (arith, eq_iff i "", eq_iff c "", eq_iff s "")
parts-read i c s t (some n) none b at hi hc hs =
    ground (arith, eq_iff i "", eq_iff c "", eq_iff s "")
parts-read i c s t (some n) (some q) b at hi hc hs =
    ground (arith, eq_iff i "", eq_iff c "", eq_iff s "")

-- A message with an id, a chat and a sender reads back from the wire.
pub parse_inbound-to_wire :
    (m : ParsedInboundMessage)
    → m.id ≢ ""
    → m.conversation_id ≢ ""
    → m.sender_id ≢ ""
    → parse_inbound (to_wire m) ≡ some m
parse_inbound-to_wire m =
    parts-read m.id m.conversation_id m.sender_id m.text m.sender_name m.quoted_message_id m.from_me
      m.timestamp

module _ {W : Type 0} (d : IngestionDeps W) (IsDurable : ParsedInboundMessage → W → Type 0) where
  -- From `s` to `t`: an unacknowledged message, whose enqueue may have been made, or one that is durable
  -- and acknowledged once.
  abbrev pub Safe : ParsedInboundMessage → Inlet W → Inlet W → Type 0
  Safe m s t =
      ((t.acks ≡ s.acks) × ((t.world ≡ s.world) ⊎ (t.world ≡ (d.enqueue_durably m s.world).1)))
      ⊎ ((t.acks ≡ s.acks + 1) × IsDurable m t.world)

  -- What a run on a message of ours came to.
  abbrev pub Ingested : ParsedInboundMessage → Inlet W → Ended IngestOutcome × ℕ × Inlet W → Type 0
  Ingested m s (done enqueued, n, t) = (t.acks ≡ s.acks + 1) × IsDurable m t.world
  Ingested m s (done (enqueue_failed e), n, t) =
      (t.acks ≡ s.acks) × (d.enqueue_durably m s.world ≡ (threw e, t.world))
  Ingested m s (done invalid, n, t) = ⊥
  Ingested m s (done self_echo, n, t) = ⊥
  Ingested m s (done ignored_conversation, n, t) = ⊥
  Ingested m s (raised e, n, t) = ⊥
  Ingested m s (crashed, n, t) = Safe m s t

  -- A message that is refused: at most one acknowledgement, and the world stands.
  abbrev pub Refused : Inlet W → Ended IngestOutcome × ℕ × Inlet W → Type 0
  Refused s (done enqueued, n, t) = ⊥
  Refused s (done (enqueue_failed e), n, t) = ⊥
  Refused s (done invalid, n, t) = (t.acks ≡ s.acks + 1) × (t.world ≡ s.world)
  Refused s (done self_echo, n, t) = (t.acks ≡ s.acks + 1) × (t.world ≡ s.world)
  Refused s (done ignored_conversation, n, t) = (t.acks ≡ s.acks + 1) × (t.world ≡ s.world)
  Refused s (raised e, n, t) = ⊥
  Refused s (crashed, n, t) = (t.acks ≡ s.acks) × (t.world ≡ s.world)

  abbrev pub Outcome :
      ParsedInboundMessage → Bool → Inlet W → Ended IngestOutcome × ℕ × Inlet W → Type 0
  Outcome m true s r = Ingested m s r
  Outcome m false s r = Refused s r

  module _
      (keeps : (m : ParsedInboundMessage) (w : W)
        → (d.enqueue_durably m w).0 ≡ returned tt
        → IsDurable m (d.enqueue_durably m w).1) where
    acked-Ingested :
        (m : ParsedInboundMessage) (s : Inlet W) (n : ℕ) (x : Attempt {0} Unit × W)
        → d.enqueue_durably m s.world ≡ x
        → Ingested m s (
            go_on (after_enqueue d) (
              rescue
                (λ error. pure (some error))
                (go_on (λ _. pure none) (ended x.0, n, record s { world = x.1 }))))
    acked-Ingested m s zero (returned u, w) e = inl (refl, inr (ap (λ y. y.1) (sym e)))
    acked-Ingested m s (suc n) (returned u, w) e =
        (refl, subst (λ y. IsDurable m y.1) e (keeps m s.world (ap (λ y. y.0) e)))
    acked-Ingested m s n (threw e, w) h = (refl, h)

    ours-Ingested :
        (m : ParsedInboundMessage) (n : ℕ) (s : Inlet W)
        → Ingested m s (go_on (after_enqueue d) (try_enqueue d m n s))
    ours-Ingested m zero s = inl (refl, inl refl)
    ours-Ingested m (suc n) s = acked-Ingested m s n (d.enqueue_durably m s.world) refl

    parsed-Outcome :
        (m : ParsedInboundMessage) (n : ℕ) (s : Inlet W)
        → Outcome m (is_ours d m) s (ingest_parsed d (some m) n s)
    unfolding ingest_parsed
    parsed-Outcome m n s =
        elim (Bool-cases (is_foreign d.is_household_conversation m.conversation_id)) [
          | inl f ↦ rw f (foreign n)
          | inr f ↦ elim (Bool-cases (d.was_sent_by_bot m.id)) [
            | inl b ↦ rw (f, b) (echo n)
            | inr b ↦ rw (f, b) (ours-Ingested m n s)
          ]
        ]
      where
        foreign : (n : ℕ) → Refused s (ack_with d ignored_conversation n s)
        foreign zero = (refl, refl)
        foreign (suc n) = (refl, refl)

        echo : (n : ℕ) → Refused s (ack_with d self_echo n s)
        echo zero = (refl, refl)
        echo (suc n) = (refl, refl)

    -- Provided that an enqueue resolves only once its message is durable, a well-formed message of the
    -- household that the bot did not send is acknowledged only once it is durable: a run that answers
    -- `enqueued` has made it durable and acknowledged it once, one whose enqueue throws answers with its
    -- error and has not acknowledged it, and one that stops short has acknowledged it only if it is
    -- durable. A well-formed message of another chat or of the bot is acknowledged, unless the run
    -- stops short, and changes nothing.
    pub ingest-Outcome :
        (m : ParsedInboundMessage) (n : ℕ) (s : Inlet W)
        → m.id ≢ ""
        → m.conversation_id ≢ ""
        → m.sender_id ≢ ""
        → Outcome m (is_ours d m) s (ingest d (to_wire m) n s)
    unfolding ingest
    ingest-Outcome m n s i c q =
        subst (λ o. Outcome m (is_ours d m) s (ingest_parsed d o n s))
          (sym (parse_inbound-to_wire m i c q)) (parsed-Outcome m n s)

    -- A message that is not well-formed is acknowledged as invalid, unless the run stops short, and
    -- changes nothing.
    pub ingest_invalid :
        (raw : Value) (n : ℕ) (s : Inlet W)
        → parse_inbound raw ≡ none
        → Refused s (ingest d raw n s)
    unfolding ingest ingest_parsed
    ingest_invalid raw n s e =
        subst (λ o. Refused s (ingest_parsed d o n s)) (sym e) (invalid-Refused n)
      where
        invalid-Refused : (n : ℕ) → Refused s (ack_with d invalid n s)
        invalid-Refused zero = (refl, refl)
        invalid-Refused (suc n) = (refl, refl)
