-- ===== src/Transport/Upsert/Handed.antt =====
-- Nothing that the bot has sent is handed on.
use ezra.Common.{
  ℕ, String, Bool, true, false, not, Option, none, some, List, [], ◌∷◌, str_eq, if◌then◌else◌, ◌≡◌,
  refl, All, All-append,
}
use ezra.Transport.Content.{is_truthy}
use ezra.Transport.RecentIds.{RecentIds, has}
use ezra.Transport.Upsert.{
  UpsertMessage, UpsertType, notify, append, other_type, InboundMessage, with_text, take_keyed,
  take_all, handle_upsert, present, text_of,
}

abbrev pub IsNews : RecentIds → InboundMessage → Type 0
IsNews sent_ids m = has m.id sent_ids ≡ false

All-unless {ℓ κ} :
    {A : Type ℓ} (P : A → Type κ) (b : Bool) (xs : List A)
    → (b ≡ false → All P xs)
    → All P (if b then [] else xs)
All-unless P true xs h = tt
All-unless P false xs h = h refl

module _ (parse_int : String → Option ℕ) (sent_ids : RecentIds) where
  with_text-IsNews :
      (m : UpsertMessage) (id conversation : String) (t : Option String)
      → has id sent_ids ≡ false
      → All (IsNews sent_ids) (with_text parse_int m id conversation t)
  with_text-IsNews m id conversation none h = tt
  with_text-IsNews m id conversation (some t) h = (h, tt)

  take_keyed-IsNews :
      (m : UpsertMessage) (id conversation : Option String)
      → All (IsNews sent_ids) (take_keyed parse_int sent_ids m id conversation)
  unfolding take_keyed
  take_keyed-IsNews m none conversation = tt
  take_keyed-IsNews m (some id) none = tt
  take_keyed-IsNews m (some id) (some conversation) =
      All-unless (IsNews sent_ids) (str_eq conversation "status@broadcast") _ (λ _.
        All-unless (IsNews sent_ids) (not (is_truthy m.message)) _ (λ _.
          All-unless (IsNews sent_ids) (has id sent_ids) _
            (λ fresh. with_text-IsNews m id conversation (text_of m.message) fresh)))

  take_all-IsNews :
      (ms : List UpsertMessage) → All (IsNews sent_ids) (take_all parse_int sent_ids ms)
  unfolding take_all
  take_all-IsNews [] = tt
  take_all-IsNews (m ∷ ms) =
      All-append (IsNews sent_ids)
        (take_keyed parse_int sent_ids m (present m.id) (present m.remote_jid)) _
        (take_keyed-IsNews m (present m.id) (present m.remote_jid)) (take_all-IsNews ms)

  -- Nothing that is handed on has the id of a message that the bot has sent.
  pub handle_upsert-IsNews :
      (t : UpsertType) (ms : List UpsertMessage)
      → All (IsNews sent_ids) (handle_upsert parse_int sent_ids t ms)
  unfolding handle_upsert
  handle_upsert-IsNews notify ms = take_all-IsNews ms
  handle_upsert-IsNews append ms = take_all-IsNews ms
  handle_upsert-IsNews other_type ms = tt
