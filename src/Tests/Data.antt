-- ===== src/Tests/Data.antt =====
-- A small household: one tool that asks first, one parked action, one reply, one transport.
use ezra.Common.{ℕ, suc, ◌+◌, String, true, none, some, [], ◌∷◌, Attempt, returned, threw}
use ezra.Hitl.Value.{Value, obj, field, end, str, ToolCall, to_value}
use ezra.Hitl.Table.{PendingAction, Table, new_action}
use ezra.Hitl.Binding.{TextOps}
use ezra.Tools.{ToolDefinition, ToolRegistry, success, confirm_before}
use ezra.Transport.SendClass.{at_least_once, at_most_once}
use ezra.Transport.Resilient.{ResilientSendConfig}
use ezra.Transport.Deliver.{Message, Net, DeliverReplyArgs, DeadLetter}

-- The world counts the bookings made.
abbrev pub book : ToolDefinition ℕ
book = record {
  name = "book";
  description = "Book a table";
  schema = λ v. success v;
  risk_tier = confirm_before;
  external_id = none;
  revalidate = some (λ args ctx external w. (returned true, w));
  summarize = none;
  execute = λ args ctx external w. (returned "booked", w + 1);
}

abbrev pub tools : ToolRegistry ℕ
tools = book ∷ []

abbrev pub call : ToolCall
call = record { id = "t1"; name = "book"; args = obj (field "seats" (str "2") end) }

abbrev pub action : PendingAction
action = new_action "act-c-t1" "c" (to_value call) 0 100

abbrev pub table : Table
table = action ∷ []

abbrev pub plain_text : TextOps
plain_text = record {
  trim = λ s. s;
  to_lower_case = λ s. s;
  strip_edges = λ s. s;
  collapse_spaces = λ s. s;
}

abbrev pub shown : Value → String
shown v = "json"

abbrev pub reply : DeliverReplyArgs
reply = record {
  send_class = at_most_once;
  idempotency_key = "send-m1";
  conversation_id = "a@s";
  text = "done";
}

abbrev pub net : Net ℕ
net = record { log = []; wire = []; dead = []; far = 0 }

-- A transport that takes every message.
abbrev pub takes_all : Message → ℕ → Attempt String × ℕ
takes_all m n = (returned "id", suc n)

-- One that refuses every message for good.
abbrev pub refuses : Message → ℕ → Attempt String × ℕ
refuses m n = (threw "unroutable destination: x", n)

-- A socket that is down.
abbrev pub down : ℕ → Attempt String × ℕ
down n = (threw "transport not connected", n)

abbrev pub quick : ResilientSendConfig
quick = record { max_elapsed_ms = 20; base_delay_ms = 5; backoff_rate = 2; max_delay_ms = 10 }

abbrev pub letter : DeadLetter
letter = record {
  idempotency_key = "k";
  conversation_id = "c";
  delivery_class = at_least_once;
  text = "the code is 1234";
  error = "unroutable destination: c";
}
