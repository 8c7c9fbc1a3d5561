-- ===== src/Agent/Batch.antt =====
-- src/agent/context.ts: the items of an inbox batch as the turn sees them. `stringify` is
-- `JSON.stringify`.
use ezra.Common.{String, Option, none, some, List, [], ◌∷◌, map, concat}
use ezra.Hitl.Value.{Value, str, obj, get, non_empty}
use ezra.Agent.{TurnMessage, user}

pub record BatchItem : Type 0 where
  pub sender_id : String
  pub payload : Value

pub record QuotedReply : Type 0 where
  pub text : String
  pub quoted_message_id : String

abbrev pub as_string : Value → Option String
as_string (str s) = some s
as_string _ = none

-- `z.looseObject({ [key]: z.string() }).safeParse`
unfoldable pub string_at : String → Value → Option String
string_at key (obj fs) = as_string (get key fs)
string_at key _ = none

-- `z.string().min(1)` at a key.
unfoldable pub non_empty_at : String → Value → Option String
non_empty_at key (obj fs) = non_empty (get key fs)
non_empty_at key _ = none

abbrev pub both_parts : Option String → Option String → Option QuotedReply
both_parts (some text) (some id) = some (record { text = text; quoted_message_id = id })
both_parts _ _ = none

unfoldable pub extract_quoted_reply : BatchItem → Option QuotedReply
extract_quoted_reply i =
    both_parts (string_at "text" i.payload) (non_empty_at "quotedMessageId" i.payload)

unfoldable pub extract_message_text : BatchItem → Option String
extract_message_text i = string_at "text" i.payload

module _ (stringify : Value → String) where
  -- The content by the three schemas, the first that fits.
  abbrev pub content_by : Value → Option String → Option String → Option String → String
  content_by payload (some text) reminder update = text
  content_by payload none (some reminder) update = concat ("[reminder] " ∷ reminder ∷ [])
  content_by payload none none (some update) = update
  content_by payload none none none = stringify payload

  unfoldable pub content_of : Value → String
  content_of payload =
      content_by payload (string_at "text" payload) (string_at "reminder" payload)
        (string_at "actionUpdate" payload)

  abbrev pub to_model_message : BatchItem → TurnMessage
  to_model_message i = user i.sender_id (content_of i.payload)

  unfoldable pub to_model_messages : List BatchItem → List TurnMessage
  to_model_messages batch = map to_model_message batch
