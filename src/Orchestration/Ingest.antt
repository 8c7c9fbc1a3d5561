-- ===== src/Orchestration/Ingest.antt =====
-- src/orchestration/ingest.ts: from a message of the transport to the durable inbox. The process may
-- stop before any effect. `enqueue_durably` works on the world `W`.
pub mod Acked
use ezra.Common.{
  ℕ, suc, ◌+◌, String, Bool, true, false, not, ◌&&◌, Option, none, some, List, [], ◌∷◌, ◌++◌,
  str_eq, any, if◌then◌else◌, Attempt, returned, threw, concat,
}
use ezra.Hitl.Value.{Value, Fields, null, bool, str, num, obj, end, field, get, non_empty}
use ezra.Crash.{Run, effect, pure, raise, catch, ◌>>=◌}

pub record ParsedInboundMessage : Type 0 where
  pub id : String
  pub conversation_id : String
  pub sender_id : String
  pub sender_name : Option String
  pub from_me : Bool
  pub text : String
  pub quoted_message_id : Option String
  pub timestamp : ℕ

abbrev pub schema_keys : List String
schema_keys =
    "id" ∷ "conversationId" ∷ "senderId" ∷ "senderName" ∷ "fromMe" ∷ "text" ∷ "quotedMessageId"
    ∷ "timestamp" ∷ []

-- A strict object has no other key.
unfoldable pub only_keys : List String → Fields → Bool
only_keys keys end = true
only_keys keys (field k v fs) = any (str_eq k) keys && only_keys keys fs

abbrev pub string_of : Value → Option String
string_of (str s) = some s
string_of _ = none

abbrev pub nullable : Value → Option (Option String)
nullable null = some none
nullable (str s) = some (some s)
nullable _ = none

abbrev pub bool_of : Value → Option Bool
bool_of (bool b) = some b
bool_of _ = none

abbrev pub number_of : Value → Option ℕ
number_of (num n) = some n
number_of _ = none

abbrev pub all_parts :
    Option String
    → Option String
    → Option String
    → Option (Option String)
    → Option Bool
    → Option String
    → Option (Option String)
    → Option ℕ
    → Option ParsedInboundMessage
all_parts (some i) (some c) (some s) (some n) (some m) (some t) (some q) (some at) = some (record {
  id = i;
  conversation_id = c;
  sender_id = s;
  sender_name = n;
  from_me = m;
  text = t;
  quoted_message_id = q;
  timestamp = at;
})
all_parts _ _ _ _ _ _ _ _ = none

abbrev pub parse_fields : Fields → Option ParsedInboundMessage
parse_fields fs =
    all_parts (non_empty (get "id" fs)) (non_empty (get "conversationId" fs))
      (non_empty (get "senderId" fs)) (nullable (get "senderName" fs)) (bool_of (get "fromMe" fs))
      (string_of (get "text" fs)) (nullable (get "quotedMessageId" fs))
      (number_of (get "timestamp" fs))

-- `inboundMessageSchema.safeParse`
unfoldable pub parse_inbound : Value → Option ParsedInboundMessage
unfolding only_keys
parse_inbound (obj fs) = if only_keys schema_keys fs then parse_fields fs else none
parse_inbound _ = none

unfoldable pub ingest_workflow_id : String → Attempt String
ingest_workflow_id message =
    if str_eq message ""
    then threw "ingestWorkflowId: message id must be non-empty"
    else returned (concat ("ingest-" ∷ message ∷ []))

pub data IngestOutcome : Type 0 where
  enqueued self_echo ignored_conversation invalid : IngestOutcome
  enqueue_failed : String → IngestOutcome

-- How often messages were acknowledged, and the rest of the world, the inbox with it.
pub record Inlet (W : Type 0) : Type 0 where
  pub acks : ℕ
  pub world : W

pub record IngestionDeps (W : Type 0) : Type 0 where
  pub enqueue_durably : ParsedInboundMessage → W → Attempt {0} Unit × W
  pub was_sent_by_bot : String → Bool
  pub is_household_conversation : Option (String → Bool)

-- `deps.isHouseholdConversation?.(id) === false`
abbrev pub is_foreign : Option (String → Bool) → String → Bool
is_foreign none id = false
is_foreign (some is_household) id = not (is_household id)

module _ {W : Type 0} (d : IngestionDeps W) where
  -- Every acknowledgement goes through.
  abbrev pub ack_with : IngestOutcome → Run (Inlet W) IngestOutcome
  ack_with outcome = effect (λ s. (returned outcome, record s { acks = s.acks + 1 }))

  -- What the inbox holds after it, also when it throws, is the enqueue's own affair.
  abbrev pub enqueue : ParsedInboundMessage → Run (Inlet W) (Unit {0})
  enqueue m =
      effect (λ s.
        ((d.enqueue_durably m s.world).0, record s { world = (d.enqueue_durably m s.world).1 }))

  -- The `try`: whether the enqueue failed.
  abbrev pub try_enqueue : ParsedInboundMessage → Run (Inlet W) (Option String)
  try_enqueue m = catch (enqueue m >>= (λ _. pure none)) (λ error. pure (some error))

  abbrev pub after_enqueue : Option String → Run (Inlet W) IngestOutcome
  after_enqueue none = ack_with enqueued
  after_enqueue (some error) = pure (enqueue_failed error)

  unfoldable pub ingest_parsed : Option ParsedInboundMessage → Run (Inlet W) IngestOutcome
  ingest_parsed none = ack_with invalid
  ingest_parsed (some m) =
      if is_foreign d.is_household_conversation m.conversation_id
      then ack_with ignored_conversation
      else if d.was_sent_by_bot m.id
      then ack_with self_echo
      else try_enqueue m >>= after_enqueue

  -- `createIngestion`
  unfoldable pub ingest : Value → Run (Inlet W) IngestOutcome
  unfolding parse_inbound ingest_parsed
  ingest raw = ingest_parsed (parse_inbound raw)
