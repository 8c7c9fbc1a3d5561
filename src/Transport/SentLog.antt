-- ===== src/Transport/SentLog.antt =====
-- The `sent_log` statements of src/memory/store.ts.
use ezra.Common.{
  String, Bool, true, false, Option, List, [], ◌∷◌, ◌++◌, str_eq, if◌then◌else◌, any, find,
}
use ezra.Transport.SendClass.{DeliveryClass}

pub record SentLogEntry : Type 0 where
  pub idempotency_key : String
  pub conversation_id : String
  pub delivery_class : DeliveryClass
  pub body : String

abbrev pub SentLog : Type 0
SentLog = List SentLogEntry

abbrev pub has_key : String → SentLogEntry → Bool
has_key key e = str_eq e.idempotency_key key

-- `INSERT … ON CONFLICT (idempotency_key) DO NOTHING RETURNING …`, and whether a row was written.
unfoldable pub record_send : SentLogEntry → SentLog → Bool × SentLog
record_send e log =
    if any (has_key e.idempotency_key) log then (false, log) else (true, log ++ e ∷ [])

unfoldable pub get_sent_entry : String → SentLog → Option SentLogEntry
get_sent_entry key log = find (has_key key) log
