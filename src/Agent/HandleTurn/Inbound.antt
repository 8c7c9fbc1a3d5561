-- ===== src/Agent/HandleTurn/Inbound.antt =====
-- src/agent/handle-turn.ts: the first half of the turn, before any model round. Quoted replies are
-- resolved, then one message may be classified against a pending action.
use ezra.Common.{
  String, Bool, true, false, Option, none, some, List, [], ◌∷◌, ◌++◌, str_eq, find, Attempt,
}
use ezra.Hitl.Resolve
use ezra.Hitl.Resolve.{ApprovalOutcome, ApprovalDecision}
use ezra.Hitl.Refine
use ezra.Hitl.Refine.{RefineOutcome}
use ezra.Agent.{TurnMessage, user}
use ezra.Agent.Batch.{BatchItem, QuotedReply, extract_quoted_reply, extract_message_text}
use ezra.Agent.Prompts.{PendingActionDigestEntry, render_approval_outcome}
use ezra.Agent.Relatedness.{RelatednessVerdict, approve, deny, unrelated, refine}
use ezra.Agent.HandleTurn.{RelatednessDeps, TurnState, step}
use ezra.Crash.{Run, pure, ◌>>=◌}

-- The new context message that carries an outcome, where one is rendered.
abbrev pub update_message : Option String → List TurnMessage
update_message none = []
update_message (some update) = user "system:hitl" update ∷ []

abbrev pub outcome_message : ApprovalOutcome → BatchItem → List TurnMessage
outcome_message o i = update_message (render_approval_outcome o i.sender_id)

-- An item of the batch, with the outcome of its quote if it has one.
pub record Quoted : Type 0 where
  pub item : BatchItem
  pub prior : Option ApprovalOutcome

abbrev unquoted : BatchItem → Quoted
unquoted i = record { item = i; prior = none }

abbrev plain : List BatchItem → List Quoted
plain [] = []
plain (i ∷ is) = unquoted i ∷ plain is

-- What the quotes of a batch came to: the transcript, and the items with their outcomes.
pub record Quotes : Type 0 where
  pub msgs : List TurnMessage
  pub items : List Quoted

abbrev pub put_item : Quoted → Quotes → Quotes
put_item q r = record r { items = q ∷ r.items }

-- The entry that an item may settle or change, if there is one and only one that it can mean.
unfoldable pub target_of :
    Option ApprovalOutcome → List PendingActionDigestEntry → Option PendingActionDigestEntry
target_of none (e ∷ []) = some e
target_of (some Resolve.unbound) (e ∷ []) = some e
target_of (some (Resolve.unclear id)) entries = find (λ e. str_eq e.action_id id) entries
target_of _ _ = none

pub record Reprompt : Type 0 where
  pub action_id : String
  pub tool_name : String
  pub summary : String

-- What the classification came to.
pub record Classified : Type 0 where
  pub msgs : List TurnMessage
  pub reprompt : Option Reprompt
  pub changed : Bool

abbrev pub or_else : Option String → String → String
or_else none s = s
or_else (some t) s = t

module _ {W : Type 0} where
  -- One item; `again` is the rest of the loop.
  abbrev pub take_quote :
      (String → String → W → Attempt ApprovalOutcome × W)
      → (List TurnMessage → Run (TurnState W) Quotes)
      → BatchItem
      → List TurnMessage
      → Option QuotedReply
      → Run (TurnState W) Quotes
  take_quote resolve again i msgs none = again msgs >>= (λ r. pure (put_item (unquoted i) r))
  take_quote resolve again i msgs (some quoted) =
      step (resolve quoted.quoted_message_id quoted.text) >>= (λ o.
        again (msgs ++ outcome_message o i)
        >>= (λ r. pure (put_item (record { item = i; prior = some o }) r)))

  -- The loop over the batch.
  unfoldable pub resolve_quotes :
      Option (String → String → W → Attempt ApprovalOutcome × W)
      → List BatchItem
      → List TurnMessage
      → Run (TurnState W) Quotes
  resolve_quotes none is msgs = pure (record { msgs = msgs; items = plain is })
  resolve_quotes (some resolve) [] msgs = pure (record { msgs = msgs; items = [] })
  resolve_quotes (some resolve) (i ∷ is) msgs =
      take_quote resolve (resolve_quotes (some resolve) is) i msgs (extract_quoted_reply i)

  unfoldable pub load_entries :
      Option (W → Attempt (List PendingActionDigestEntry) × W)
      → Run (TurnState W) (List PendingActionDigestEntry)
  load_entries none = pure []
  load_entries (some load) = step load

  module _ (r : RelatednessDeps W) (recent : String) (msgs : List TurnMessage) where
    abbrev settled_by : BatchItem → ApprovalOutcome → Classified
    settled_by i o = record { msgs = msgs ++ outcome_message o i; reprompt = none; changed = true }

    abbrev settle :
        BatchItem → PendingActionDigestEntry → ApprovalDecision → Run (TurnState W) Classified
    settle i target decision =
        step (r.resolve_decision target.action_id decision) >>= (λ o. pure (settled_by i o))

    -- An invalid or unbound change leaves the action, and the loop goes on with `again`.
    abbrev pub take_refined :
        Run (TurnState W) Classified → BatchItem → RefineOutcome → Run (TurnState W) Classified
    take_refined again i Refine.unbound = again
    take_refined again i (Refine.invalid id tool) = again
    take_refined again i (Refine.refined id tool summary) = pure (record {
      msgs = msgs;
      reprompt = some (record { action_id = id; tool_name = tool; summary = summary });
      changed = true;
    })
    take_refined again i (Refine.already_resolved id status) =
        pure (settled_by i (Resolve.already_resolved id status))

    abbrev pub take_verdict :
        Run (TurnState W) Classified
        → BatchItem
        → PendingActionDigestEntry
        → RelatednessVerdict
        → Run (TurnState W) Classified
    take_verdict again i target approve = settle i target Resolve.approve
    take_verdict again i target deny = settle i target Resolve.deny
    take_verdict again i target (refine args) =
        step (r.refine target.action_id args) >>= take_refined again i
    take_verdict again i target unrelated = again

    abbrev pub take_text :
        Run (TurnState W) Classified
        → BatchItem
        → PendingActionDigestEntry
        → Option String
        → Run (TurnState W) Classified
    take_text again i target none = again
    take_text again i target (some text) =
        step (
          r.classify (record {
            sender_id = i.sender_id;
            message = text;
            tool_name = target.tool_name;
            summary = or_else target.args_json target.summary;
            recent_context = recent;
          }))
        >>= take_verdict again i target

    abbrev pub take_target :
        Run (TurnState W) Classified
        → BatchItem
        → Option PendingActionDigestEntry
        → Run (TurnState W) Classified
    take_target again i none = again
    take_target again i (some target) = take_text again i target (extract_message_text i)

    -- The loop over the batch.
    unfoldable pub classify_items :
        List Quoted → List PendingActionDigestEntry → Run (TurnState W) Classified
    classify_items [] entries = pure (record { msgs = msgs; reprompt = none; changed = false })
    classify_items (q ∷ qs) entries =
        take_target (classify_items qs entries) q.item (target_of q.prior entries)

  -- No pending entry, no classifier call.
  unfoldable pub relate :
      Option (RelatednessDeps W)
      → String
      → Quotes
      → List PendingActionDigestEntry
      → Run (TurnState W) Classified
  unfolding classify_items
  relate none recent q entries = pure (record { msgs = q.msgs; reprompt = none; changed = false })
  relate (some r) recent q [] = pure (record { msgs = q.msgs; reprompt = none; changed = false })
  relate (some r) recent q (e ∷ es) = classify_items r recent q.msgs q.items (e ∷ es)
