-- ===== src/Transport/Content.antt =====
-- src/transport/protocol.ts: what a WhatsApp message says, under whatever envelopes it comes in, and
-- what a disconnect means.
pub mod Wrapped
use ezra.Common.{
  ℕ, zero, suc, String, Bool, true, false, not, Option, none, some, List, [], ◌∷◌, str_eq, ◌==◌,
  if◌then◌else◌, find,
}
use ezra.Hitl.Value.{
  Value, Fields, Items, undefined, null, bool, str, num, obj, arr, end, field, no_items, item, get,
}

pub data DisconnectAction : Type 0 where
  re_pair restart retry version_rejected : DisconnectAction

unfoldable pub classify_disconnect : Option ℕ → DisconnectAction
classify_disconnect none = retry
classify_disconnect (some code) =
    if code == 401
    then re_pair
    else if code == 405
    then version_rejected
    else if code == 515
    then restart
    else retry

-- The elements of an array stand under keys that nobody asks for.
abbrev pub element_fields : Items → Fields
element_fields no_items = end
element_fields (item v is) = field "" v (element_fields is)

unfoldable pub as_content : Value → Option Fields
as_content (obj fs) = some fs
as_content (arr is) = some (element_fields is)
as_content _ = none

-- A value that counts as true in a test.
abbrev pub is_truthy : Value → Bool
is_truthy undefined = false
is_truthy null = false
is_truthy (bool b) = b
is_truthy (str s) = not (str_eq s "")
is_truthy (num n) = not (n == 0)
is_truthy (obj fs) = true
is_truthy (arr is) = true

abbrev pub wrapper_keys : List String
wrapper_keys =
    "ephemeralMessage" ∷ "viewOnceMessage" ∷ "viewOnceMessageV2" ∷ "documentWithCaptionMessage" ∷ []

-- `asContent(v)?.[key]`
abbrev pub get_in : String → Option Fields → Value
get_in key none = undefined
get_in key (some fs) = get key fs

unfoldable pub at_path : String → String → Fields → Value
unfolding as_content
at_path outer inner fs = get_in inner (as_content (get outer fs))

unfoldable pub wrapper_of : Fields → Option String
unfolding at_path
wrapper_of fs = find (λ key. is_truthy (at_path key "message" fs)) wrapper_keys

unfoldable pub open_wrapper :
    (Option Fields → Option Fields) → Fields → Option String → Option Fields
unfolding at_path as_content
open_wrapper again fs none = some fs
open_wrapper again fs (some key) = again (as_content (at_path key "message" fs))

-- The loop with `depth` rounds to go.
unfoldable pub unwrap_from : ℕ → Option Fields → Option Fields
unfolding wrapper_of open_wrapper
unwrap_from zero content = content
unwrap_from (suc depth) none = none
unwrap_from (suc depth) (some fs) = open_wrapper (unwrap_from depth) fs (wrapper_of fs)

unfoldable pub unwrap_content : Value → Option Fields
unfolding unwrap_from as_content
unwrap_content raw = unwrap_from 4 (as_content raw)

-- A string that is not empty.
abbrev pub some_text : Value → Option String
some_text (str s) = if str_eq s "" then none else some s
some_text _ = none

abbrev pub or_next : Option String → Option String → Option String
or_next (some s) o = some s
or_next none o = o

unfoldable pub text_of_content : Fields → Option String
unfolding at_path
text_of_content fs = or_next (some_text (get "conversation" fs)) (
    or_next (some_text (at_path "extendedTextMessage" "text" fs)) (
      or_next (some_text (at_path "imageMessage" "caption" fs)) (
        or_next (some_text (at_path "videoMessage" "caption" fs))
          (some_text (at_path "documentMessage" "caption" fs)))))

abbrev pub if_content : (Fields → Option String) → Option Fields → Option String
if_content read none = none
if_content read (some fs) = read fs

unfoldable pub extract_message_text : Value → Option String
unfolding unwrap_content text_of_content
extract_message_text raw = if_content text_of_content (unwrap_content raw)

-- The first value of the object that quotes something.
unfoldable pub stanza_id : Fields → Option String
unfolding at_path as_content
stanza_id end = none
stanza_id (field k v fs) =
    or_next (some_text (get_in "stanzaId" (as_content (get_in "contextInfo" (as_content v)))))
      (stanza_id fs)

unfoldable pub extract_quoted_message_id : Value → Option String
unfolding unwrap_content stanza_id
extract_quoted_message_id raw = if_content stanza_id (unwrap_content raw)

abbrev pub status_number : Value → Option ℕ
status_number (num n) = some n
status_number _ = none

unfoldable pub get_status_code : Value → Option ℕ
unfolding as_content
get_status_code error =
    status_number (get_in "statusCode" (as_content (get_in "output" (as_content error))))

pub record MediaKey : Type 0 where
  pub key : String
  pub kind : String

abbrev pub media : String → String → MediaKey
media key kind = record { key = key; kind = kind }

abbrev pub media_keys : List MediaKey
media_keys =
    media "imageMessage" "image"
    ∷ media "videoMessage" "video"
    ∷ media "audioMessage" "audio"
    ∷ media "documentMessage" "document"
    ∷ media "stickerMessage" "sticker"
    ∷ []

abbrev pub is_content : Option Fields → Bool
is_content none = false
is_content (some fs) = true

abbrev pub kind_of : Option MediaKey → Option String
kind_of none = none
kind_of (some m) = some m.kind

unfoldable pub media_of_content : Fields → Option String
unfolding as_content
media_of_content fs = kind_of (find (λ m. is_content (as_content (get m.key fs))) media_keys)

unfoldable pub detect_media_type : Value → Option String
unfolding unwrap_content media_of_content
detect_media_type raw = if_content media_of_content (unwrap_content raw)
