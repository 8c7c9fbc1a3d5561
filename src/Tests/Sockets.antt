-- ===== src/Tests/Sockets.antt =====
-- The messages off the wire, the echo filter and the client version on concrete inputs.
use ezra.Common.{◌≤◌, ◌≢◌, [], ◌∷◌, length, ◌≡◌, refl, arith}
use ezra.Hitl.Value.{Fields, obj, field, end, str, get, undefined}
use ezra.Transport.Content.{
  extract_message_text, extract_quoted_message_id, detect_media_type, text_of_content, stanza_id,
  media_of_content,
}
use ezra.Transport.Content.Wrapped
use ezra.Transport.Content.Wrapped.{Wraps, IsBare, bare, wrapped, extract-Wraps}
use ezra.Transport.RecentIds.{RecentIds, add_all}
use ezra.Transport.RecentIds.Echoes.{add_all-length}

abbrev said : Fields
said = field "conversation" (str "hi") end

-- A vanishing message.
abbrev vanishing : Fields
vanishing = field "ephemeralMessage" (obj (field "message" (obj said) end)) end

plain : IsBare said
unfolding get
plain Wrapped.vanishing = refl
plain Wrapped.seen_once = refl
plain Wrapped.seen_once_anew = refl
plain Wrapped.captioned = refl

alone :
    (k : Wrapped.Envelope) → k ≢ Wrapped.vanishing → get (Wrapped.key_of k) vanishing ≡ undefined
unfolding get
alone Wrapped.vanishing other = absurd (other refl)
alone Wrapped.seen_once other = refl
alone Wrapped.seen_once_anew other = refl
alone Wrapped.captioned other = refl

vanishing-Wraps : Wraps said 1 (obj vanishing)
unfolding get
vanishing-Wraps =
    wrapped 0 vanishing (field "message" (obj said) end) said Wrapped.vanishing refl refl alone
      (bare plain)

extract-Wraps_example :
    (extract_message_text (obj vanishing) ≡ text_of_content said)
    × (extract_quoted_message_id (obj vanishing) ≡ stanza_id said)
    × (detect_media_type (obj vanishing) ≡ media_of_content said)
extract-Wraps_example = extract-Wraps said 1 (obj vanishing) vanishing-Wraps (omega arith)

abbrev recent : RecentIds
recent = record { capacity = 3; ids = "a" ∷ "b" ∷ "c" ∷ [] }

add_all-length_example : length (add_all ("d" ∷ "e" ∷ []) recent).ids ≤ 3
add_all-length_example = add_all-length ("d" ∷ "e" ∷ []) recent (omega arith)
