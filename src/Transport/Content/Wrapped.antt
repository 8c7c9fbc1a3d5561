-- ===== src/Transport/Content/Wrapped.antt =====
-- What a message says does not depend on the envelopes around it.
use ezra.Common.{ℕ, zero, suc, ◌≤◌, String, none, some, ◌≡◌, ◌≢◌, refl, arith, ap, ◌∙◌}
use ezra.Hitl.Value.{Value, Fields, obj, undefined, get}
use ezra.Transport.Content.{
  as_content, at_path, wrapper_of, unwrap_from, unwrap_content, extract_message_text,
  text_of_content, extract_quoted_message_id, stanza_id, detect_media_type, media_of_content,
  if_content, open_wrapper,
}

-- The envelopes that WhatsApp puts around a message.
pub data Envelope : Type 0 where
  vanishing seen_once seen_once_anew captioned : Envelope

abbrev pub key_of : Envelope → String
key_of vanishing = "ephemeralMessage"
key_of seen_once = "viewOnceMessage"
key_of seen_once_anew = "viewOnceMessageV2"
key_of captioned = "documentWithCaptionMessage"

-- Content in no envelope.
abbrev pub IsBare : Fields → Type 0
IsBare fs = (k : Envelope) → get (key_of k) fs ≡ undefined

-- `v` is the content `fs` in a number of envelopes: each is an object that has the key of one, and under
-- it an object with the message; whatever else stands beside it is no envelope.
pub data Wraps (fs : Fields) : ℕ → Value → Type 0 where
  bare : IsBare fs → Wraps fs 0 (obj fs)
  wrapped :
      (n : ℕ) (gs hs inner : Fields) (k : Envelope)
      → get (key_of k) gs ≡ obj hs
      → get "message" hs ≡ obj inner
      → ((other : Envelope) → other ≢ k → get (key_of other) gs ≡ undefined)
      → Wraps fs n (obj inner)
      → Wraps fs (suc n) (obj gs)

bare-wrapper_of : (fs : Fields) → IsBare fs → wrapper_of fs ≡ none
unfolding wrapper_of at_path as_content
bare-wrapper_of fs b = rw (b vanishing, b seen_once, b seen_once_anew, b captioned) refl

envelope-wrapper_of :
    (gs hs inner : Fields) (k : Envelope)
    → get (key_of k) gs ≡ obj hs
    → get "message" hs ≡ obj inner
    → ((other : Envelope) → other ≢ k → get (key_of other) gs ≡ undefined)
    → wrapper_of gs ≡ some (key_of k)
unfolding wrapper_of at_path as_content
envelope-wrapper_of gs hs inner vanishing e m o = rw (e, m) refl
envelope-wrapper_of gs hs inner seen_once e m o = rw (o vanishing (λ p. cc p), e, m) refl
envelope-wrapper_of gs hs inner seen_once_anew e m o =
    rw (o vanishing (λ p. cc p), o seen_once (λ p. cc p), e, m) refl
envelope-wrapper_of gs hs inner captioned e m o =
    rw (o vanishing (λ p. cc p), o seen_once (λ p. cc p), o seen_once_anew (λ p. cc p), e, m) refl

envelope-at_path :
    (gs hs inner : Fields) (key : String)
    → get key gs ≡ obj hs
    → get "message" hs ≡ obj inner
    → at_path key "message" gs ≡ obj inner
unfolding at_path as_content
envelope-at_path gs hs inner key e m = rw (e, m) refl

unwrap-bare : (fs : Fields) (more : ℕ) → wrapper_of fs ≡ none → unwrap_from more (some fs) ≡ some fs
unfolding unwrap_from open_wrapper
unwrap-bare fs zero w = refl
unwrap-bare fs (suc more) w = rw w refl

unwrap-wrapped :
    (gs : Fields) (key : String) (more : ℕ)
    → wrapper_of gs ≡ some key
    → unwrap_from (suc more) (some gs) ≡ unwrap_from more (as_content (at_path key "message" gs))
unfolding unwrap_from open_wrapper
unwrap-wrapped gs key more w = rw w refl

none_left : (m : ℕ) → suc m ≤ 0 → ⊥
none_left m le = omega (arith, le)

unwrap_from-Wraps :
    (fs : Fields) (n depth : ℕ) (v : Value)
    → Wraps fs n v
    → n ≤ depth
    → unwrap_from depth (as_content v) ≡ some fs
unfolding as_content
unwrap_from-Wraps fs n depth v (bare b) le = unwrap-bare fs depth (bare-wrapper_of fs b)
unwrap_from-Wraps fs n zero v (wrapped m gs hs inner k e q o h) le = elim (none_left m le) [ ]
unwrap_from-Wraps fs n (suc depth) v (wrapped m gs hs inner k e q o h) le =
    unwrap-wrapped gs (key_of k) depth (envelope-wrapper_of gs hs inner k e q o)
    ∙ ap (λ x. unwrap_from depth (as_content x)) (envelope-at_path gs hs inner (key_of k) e q)
    ∙ unwrap_from-Wraps fs m depth (obj inner) h (omega (arith, le))

unwrap_content-Wraps :
    (fs : Fields) (n : ℕ) (v : Value) → Wraps fs n v → n ≤ 4 → unwrap_content v ≡ some fs
unfolding unwrap_content
unwrap_content-Wraps fs n v h le = unwrap_from-Wraps fs n 4 v h le

-- Up to four envelopes around a message, each a vanishing, a view-once (old or new) or a
-- document-with-caption one, change neither its text, nor the id that it quotes, nor its
-- media type.
pub extract-Wraps :
    (fs : Fields) (n : ℕ) (v : Value)
    → Wraps fs n v
    → n ≤ 4
    → (extract_message_text v ≡ text_of_content fs)
      × (extract_quoted_message_id v ≡ stanza_id fs)
      × (detect_media_type v ≡ media_of_content fs)
unfolding extract_message_text extract_quoted_message_id detect_media_type
extract-Wraps fs n v h le =
    let e = unwrap_content-Wraps fs n v h le in
    (
      ap (if_content text_of_content) e,
      ap (if_content stanza_id) e,
      ap (if_content media_of_content) e,
    )
