-- ===== src/Transport/SendClass.antt =====
-- src/transport/send-class.ts: the delivery class of a reply, its send ids, and which failed sends
-- are worth a retry. An error is known by its message.
pub mod Routes
use text.Mathlib.Text.{starts_with}
use ezra.Common.{
  ℕ, zero, suc, ◌+◌, String, Bool, true, false, ◌||◌, Option, none, some, List, [], ◌∷◌, str_eq,
  ◌==◌, if◌then◌else◌, concat, length,
}

pub data DeliveryClass : Type 0 where
  at_least_once at_most_once : DeliveryClass

pub data InboxKind : Type 0 where
  human proactive : InboxKind

unfoldable pub select_send_class : InboxKind → String → DeliveryClass
select_send_class proactive sender = if str_eq sender "system" then at_least_once else at_most_once
select_send_class human sender = at_most_once

unfoldable pub reply_send_id : String → String
reply_send_id message = concat ("send-" ∷ message ∷ [])

unfoldable pub approval_send_id : String → String
approval_send_id action = concat ("approval-" ∷ action ∷ [])

unfoldable pub is_transient_send_error : String → Bool
is_transient_send_error message = str_eq message "transport not connected"

-- `jid.indexOf('@')`, over characters.
unfoldable pub index_of_at : ℕ → List ℕ → Option ℕ
index_of_at i [] = none
index_of_at i (c ∷ cs) = if c == b'@' then some i else index_of_at (suc i) cs

-- No `@` at all is an index below 0.
unfoldable pub is_unroutable_destination : List ℕ → Bool
is_unroutable_destination jid = elim (index_of_at 0 jid) [
  | none ↦ true
  | some at ↦ at == 0 || suc at == length jid
]

abbrev pub permanent_send_error_prefix : String
permanent_send_error_prefix = "unroutable destination"

unfoldable pub unroutable_destination_error : String → String
unroutable_destination_error jid = concat (permanent_send_error_prefix ∷ ": " ∷ jid ∷ [])

unfoldable pub is_permanent_send_error : String → Bool
is_permanent_send_error message = starts_with message permanent_send_error_prefix
