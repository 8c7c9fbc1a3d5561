-- ===== src/Hitl/Prompting.antt =====
-- src/hitl/approval-prompt.ts, with `recordApprovalSend` of src/memory/store.ts: the prompts of the
-- actions that have none yet. The process may stop before any effect.
pub mod Stamps
pub mod Prompted
use ezra.Common.{
  String, Bool, true, false, ◌&&◌, Option, none, some, List, [], ◌∷◌, ◌++◌, if◌then◌else◌, select,
  Attempt, returned, threw,
}
use ezra.Hitl.Value.{Value, parse_call}
use ezra.Hitl.Table.{
  PendingAction, Table, get_pending_actions_for_conversation, set_prompt_message_id,
}
use ezra.Hitl.Digest.{entry_of}
use ezra.Tools.{ToolRegistry, is_none}
use ezra.Agent.Prompts.{render_approval_prompt}
use ezra.Transport.SendClass.{at_least_once, approval_send_id, is_permanent_send_error}
use ezra.Transport.SentLog.{SentLogEntry, record_send}
use ezra.Transport.Deliver.{Message, DeadLetter, Net, put_on_wire}
use ezra.Crash.{Run, effect, pure, raise, catch, ◌>>=◌}

-- The table of actions, with the log and the wire.
pub record Office (W : Type 0) : Type 0 where
  pub table : Table
  pub net : Net W

abbrev pub is_unstamped : PendingAction → Bool
is_unstamped r = is_none r.prompt_message_id

module _ {W V : Type 0} (transport_send : Message → W → Attempt String × W)
    (stringify : Value → String) (registry : Option (ToolRegistry V)) (dead_letter : Bool)
    (conversation : String) where
  -- The text of the prompt.
  abbrev pub prompt_text : PendingAction → String
  prompt_text a =
      render_approval_prompt (entry_of stringify registry a (parse_call a.tool_call)).summary

  abbrev pub send_prompt : PendingAction → Run (Office W) String
  send_prompt a = effect (λ s.
      let m : Message = record { conversation_id = conversation; text = prompt_text a } in
      let r = put_on_wire transport_send m s.net (transport_send m s.net.far) in
      (r.0, record s { net = r.1 }))

  abbrev pub sent_entry : PendingAction → SentLogEntry
  sent_entry a = record {
    idempotency_key = approval_send_id a.action_id;
    conversation_id = conversation;
    delivery_class = at_least_once;
    body = prompt_text a;
  }

  -- The log row and the stamp, in one transaction.
  abbrev pub stamp : PendingAction → String → Office W → Office W
  stamp a id s = record {
    table = (set_prompt_message_id a.action_id id s.table).1;
    net = record (s.net) { log = (record_send (sent_entry a) s.net.log).1 };
  }

  unfoldable pub record_approval_send : PendingAction → String → Run (Office W) (Unit {0})
  record_approval_send a id = effect (λ s. (returned tt, stamp a id s))

  abbrev pub letter_of : PendingAction → String → DeadLetter
  letter_of a error = record {
    idempotency_key = approval_send_id a.action_id;
    conversation_id = conversation;
    delivery_class = at_least_once;
    text = prompt_text a;
    error = error;
  }

  -- The handler of a prompt that can never be sent, which does not throw.
  abbrev pub bury : DeadLetter → Office W → Office W
  bury d s = record s { net = record (s.net) { dead = s.net.dead ++ d ∷ [] } }

  -- The `catch` around the send.
  unfoldable pub give_up : PendingAction → String → Run (Office W) (Option String)
  give_up a error =
      if is_permanent_send_error error && dead_letter
      then effect (λ s. (returned none, bury (letter_of a error) s))
      else raise error

  unfoldable pub take_receipt : PendingAction → Option String → Run (Office W) (List String)
  unfolding record_approval_send
  take_receipt a none = pure []
  take_receipt a (some id) = record_approval_send a id >>= (λ _. pure (a.action_id ∷ []))

  unfoldable pub prompt_one : PendingAction → Run (Office W) (List String)
  unfolding give_up take_receipt
  prompt_one a = catch (send_prompt a >>= (λ id. pure (some id))) (give_up a) >>= take_receipt a

  -- The loop over the rows.
  unfoldable pub prompt_all : List PendingAction → Run (Office W) (List String)
  unfolding prompt_one
  prompt_all [] = pure []
  prompt_all (a ∷ rows) = prompt_one a >>= (λ ids. prompt_all rows >>= (λ more. pure (ids ++ more)))

  unfoldable pub send_approval_prompts : Run (Office W) (List String)
  unfolding prompt_all
  send_approval_prompts =
      effect (λ s. (
        returned (select is_unstamped (get_pending_actions_for_conversation conversation s.table)),
        s,
      ))
      >>= prompt_all
