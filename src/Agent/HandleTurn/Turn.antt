-- ===== src/Agent/HandleTurn/Turn.antt =====
-- src/agent/handle-turn.ts: the whole turn, from the stored transcript to the one left behind.
use ezra.Common.{
  ℕ, ◌-◌, String, Bool, true, false, not, Option, none, some, List, [], ◌∷◌, ◌++◌, any, take, drop,
  length, concat, if◌then◌else◌, Attempt, returned,
}
use ezra.Agent.{TurnMessage, assistant}
use ezra.Agent.Batch.{BatchItem, extract_message_text, extract_quoted_reply, to_model_messages}
use ezra.Agent.Compaction.{
  should_compact, find_compaction_cut, build_compacted_transcript, render_for_summary,
}
use ezra.Agent.Prompts.{
  PendingActionDigestEntry, render_approval_prompt, render_pending_actions_digest,
}
use ezra.Agent.Route.{Tier, RouteMessage}
use ezra.Agent.Route.Turn.{RouteTurnInput, RouteDecision, is_empty}
use ezra.Agent.HandleTurn.{
  HandleTurnDeps, CompactionDeps, TurnState, TurnResult, parked, step, load_context,
  persist_context,
}
use ezra.Agent.HandleTurn.Inbound.{Reprompt, resolve_quotes, load_entries, relate}
use ezra.Agent.HandleTurn.Rounds.{Looped, run_rounds, finish}
use ezra.Crash.{Run, pure, ◌>>=◌}

abbrev pub latest_of : String → Option String → List RouteMessage
latest_of sender none = []
latest_of sender (some text) = record { from = sender; text = text } ∷ []

abbrev pub latest_messages : List BatchItem → List RouteMessage
latest_messages [] = []
latest_messages (i ∷ is) = latest_of i.sender_id (extract_message_text i) ++ latest_messages is

abbrev pub is_some {ℓ} : {A : Type ℓ} → Option A → Bool
is_some none = false
is_some (some a) = true

abbrev pub route_input :
    List TurnMessage → List BatchItem → List PendingActionDigestEntry → RouteTurnInput
route_input prior batch entries = record {
  prior = prior;
  latest = latest_messages batch;
  has_pending_actions = not (is_empty entries);
  has_quoted_reply = any (λ i. is_some (extract_quoted_reply i)) batch;
}

-- The last six messages before the batch, for the classifier.
abbrev pub recent_context : List TurnMessage → String
recent_context msgs = render_for_summary (drop (length msgs - 6) msgs)

module _ {W : Type 0} (workflow : String) (d : HandleTurnDeps W) where
  abbrev pub log_decision :
      Option (RouteDecision → W → Attempt Bool × W)
      → RouteDecision
      → Run (TurnState W) (Option Tier)
  log_decision none decision = pure (some decision.tier)
  log_decision (some log) decision = step (log decision) >>= (λ _. pure (some decision.tier))

  -- The step `routeTurn`, and the log of its decision.
  abbrev pub pick_tier :
      Option (RouteTurnInput → W → RouteDecision × W)
      → RouteTurnInput
      → Run (TurnState W) (Option Tier)
  pick_tier none input = pure none
  pick_tier (some route) input =
      step (λ w. (returned (route input w).0, (route input w).1)) >>= log_decision d.log_route

  -- The summary takes the place of the head, after it was remembered and logged.
  abbrev pub compact :
      CompactionDeps W → List TurnMessage → Option ℕ → Run (TurnState W) (List TurnMessage)
  compact c msgs none = pure msgs
  compact c msgs (some cut) =
      let key = concat ("compact-" ∷ workflow ∷ []) in
      step (c.summarize (take cut msgs)) >>= (λ summary.
        step (c.embed_summary summary) >>= (λ embedding.
          step (c.write_memory summary embedding key) >>= (λ _.
            step (
              c.write_compaction_log (record {
                source_key = key;
                head = take cut msgs;
                summary = summary;
                cut_index = cut;
                tail_count = length msgs - cut;
              }))
            >>= (λ _.
                persist_context d (build_compacted_transcript summary (drop cut msgs))
                >>= (λ _. pure (build_compacted_transcript summary (drop cut msgs)))))))

  abbrev pub compact_if :
      Option (CompactionDeps W) → List TurnMessage → Run (TurnState W) (List TurnMessage)
  compact_if none msgs = pure msgs
  compact_if (some c) msgs =
      if should_compact msgs c.config
      then compact c msgs (find_compaction_cut msgs c.config)
      else pure msgs

  abbrev pub result_of : Looped → TurnResult
  result_of l = record { status = l.status; rounds = l.rounds }

  -- The transcript is stored before it is compacted.
  abbrev pub close_turn : Looped → Run (TurnState W) TurnResult
  close_turn l =
      persist_context d l.msgs
      >>= (λ _. compact_if d.compaction l.msgs >>= (λ _. pure (result_of l)))

  unfoldable pub run_model :
      List TurnMessage → List PendingActionDigestEntry → Option Tier → Run (TurnState W) TurnResult
  unfolding run_rounds
  run_model msgs entries tier =
      let digest = render_pending_actions_digest d.eastern d.one_line entries in
      run_rounds d digest tier d.max_rounds 0 msgs
      >>= (λ l. finish d digest tier l l.status >>= close_turn)

  -- A changed proposal closes the turn with its prompt, else the model is asked.
  unfoldable pub answer_turn :
      List TurnMessage
      → List BatchItem
      → List TurnMessage
      → List PendingActionDigestEntry
      → Option Reprompt
      → Run (TurnState W) TurnResult
  unfolding run_model
  answer_turn prior batch msgs entries (some r) =
      persist_context d (msgs ++ assistant (render_approval_prompt r.summary) [] ∷ [])
      >>= (λ _. pure (record { status = parked; rounds = 0 }))
  answer_turn prior batch msgs entries none =
      pick_tier d.route_turn (route_input prior batch entries) >>= run_model msgs entries

  abbrev pub reload_by :
      Option (W → Attempt (List PendingActionDigestEntry) × W)
      → List PendingActionDigestEntry
      → Run (TurnState W) (List PendingActionDigestEntry)
  reload_by none entries = pure entries
  reload_by (some load) entries = step load

  -- The digest is read again if a classified message has changed what is pending.
  abbrev pub reload_entries :
      Bool → List PendingActionDigestEntry → Run (TurnState W) (List PendingActionDigestEntry)
  reload_entries true entries = reload_by d.load_pending_digest entries
  reload_entries false entries = pure entries

  -- `makeHandleTurnWorkflow`
  unfoldable pub handle_turn : List BatchItem → Run (TurnState W) TurnResult
  unfolding resolve_quotes load_entries relate answer_turn
  handle_turn batch = load_context d >>= (λ prior.
      resolve_quotes d.resolve_approval batch (prior ++ to_model_messages d.stringify batch)
      >>= (λ q. load_entries d.load_pending_digest >>= (λ entries.
          relate d.relatedness (recent_context prior) q entries >>= (λ c.
            reload_entries c.changed entries
            >>= (λ now. answer_turn prior batch c.msgs now c.reprompt)))))
