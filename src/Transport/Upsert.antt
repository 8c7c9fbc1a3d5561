-- ===== src/Transport/Upsert.antt =====
-- `handleUpsert` of src/transport/baileys.ts, with the readers of src/transport/protocol.ts that it
-- uses: from what the socket hands over to the messages that the handlers get.
pub mod Handed
use Prim.Native.Char.{Char, code}
use Prim.Native.String
use ezra.Common.{
  ℕ, String, Bool, true, false, not, ◌&&◌, ◌||◌, Option, none, some, List, [], ◌∷◌, ◌++◌, str_eq,
  ◌==◌, leb, if◌then◌else◌, concat,
}
use ezra.Hitl.Value.{Value}
use ezra.Transport.Content.{
  is_truthy, extract_message_text, extract_quoted_message_id, detect_media_type,
}
use ezra.Transport.RecentIds.{RecentIds, has}

-- A timestamp as it comes off the wire: a finite number, a text, or a `Long` by its `toNumber()`.
pub data WireTime : Type 0 where
  number : ℕ → WireTime
  digits : String → WireTime
  long : ℕ → WireTime
  other : WireTime

pub record UpsertMessage : Type 0 where
  pub id : Option String
  pub remote_jid : Option String
  pub from_me : Option Bool
  pub participant : Option String
  pub message : Value
  pub push_name : Option String
  pub message_timestamp : WireTime

pub data UpsertType : Type 0 where
  notify append other_type : UpsertType

pub record InboundMessage : Type 0 where
  pub id : String
  pub conversation_id : String
  pub sender_id : String
  pub sender_name : Option String
  pub from_me : Bool
  pub text : String
  pub quoted_message_id : Option String
  pub timestamp : ℕ

abbrev pub is_digit : Char → Bool
is_digit c = leb b'0' (code c) && leb (code c) b'9'

-- What stands after a colon, without the digits up to an `@`, of which one is needed.
unfoldable pub after_device : Bool → String → Option String
after_device seen String.[] = none
after_device seen (String.◌∷◌ c s) =
    let rest = after_device true s in
    if is_digit c then rest else if seen && code c == b'@' then some (String.◌∷◌ c s) else none

abbrev pub or_text : String → Option String → String
or_text s none = s
or_text s (some t) = t

-- `jid.replace(/:\d+(?=@)/, '')`
unfoldable pub normalize_jid : String → String
normalize_jid String.[] = ""
normalize_jid (String.◌∷◌ c s) =
    let kept = String.◌∷◌ c (normalize_jid s) in
    if code c == b':' then or_text kept (after_device false s) else kept

abbrev pub or_zero : Option ℕ → ℕ
or_zero none = 0
or_zero (some n) = n

-- `parse_int` is `Number.parseInt(text, 10)`, which may be no number.
unfoldable pub to_epoch_seconds : (String → Option ℕ) → WireTime → ℕ
to_epoch_seconds parse_int (number n) = n
to_epoch_seconds parse_int (digits s) = or_zero (parse_int s)
to_epoch_seconds parse_int (long n) = n
to_epoch_seconds parse_int other = 0

-- A text that counts as true.
abbrev pub present : Option String → Option String
present none = none
present (some s) = if str_eq s "" then none else some s

-- A message with its id, its chat and its text.
abbrev pub or_placeholder : Option String → Option String → Option String
or_placeholder (some t) media = some t
or_placeholder none none = none
or_placeholder none (some media) = some (concat ("[" ∷ media ∷ " received]" ∷ []))

unfoldable pub text_of : Value → Option String
text_of message = or_placeholder (extract_message_text message) (detect_media_type message)

abbrev pub participant_or : String → Option String → String
participant_or conversation none = conversation
participant_or conversation (some p) = p

abbrev pub is_mine : Option Bool → Bool
is_mine none = false
is_mine (some b) = b

module _ (parse_int : String → Option ℕ) where
  abbrev pub inbound : UpsertMessage → String → String → String → InboundMessage
  inbound m id conversation text = record {
    id = id;
    conversation_id = conversation;
    sender_id = normalize_jid (participant_or conversation m.participant);
    sender_name = m.push_name;
    from_me = is_mine m.from_me;
    text = text;
    quoted_message_id = extract_quoted_message_id m.message;
    timestamp = to_epoch_seconds parse_int m.message_timestamp;
  }

  abbrev pub with_text : UpsertMessage → String → String → Option String → List InboundMessage
  with_text m id conversation none = []
  with_text m id conversation (some text) = inbound m id conversation text ∷ []

  -- One round of the loop: the message that is handed on, if any.
  unfoldable pub take_keyed :
      RecentIds → UpsertMessage → Option String → Option String → List InboundMessage
  take_keyed sent_ids m (some id) (some conversation) =
      if str_eq conversation "status@broadcast"
      then []
      else if not (is_truthy m.message)
      then []
      else if has id sent_ids
      then []
      else with_text m id conversation (text_of m.message)
  take_keyed sent_ids m _ _ = []

  unfoldable pub take_all : RecentIds → List UpsertMessage → List InboundMessage
  take_all sent_ids [] = []
  take_all sent_ids (m ∷ ms) =
      take_keyed sent_ids m (present m.id) (present m.remote_jid) ++ take_all sent_ids ms

  -- What every handler gets, in its order.
  unfoldable pub handle_upsert : RecentIds → UpsertType → List UpsertMessage → List InboundMessage
  handle_upsert sent_ids notify messages = take_all sent_ids messages
  handle_upsert sent_ids append messages = take_all sent_ids messages
  handle_upsert sent_ids other_type messages = []
