-- ===== src/Agent/HandleTurn/Rounds.antt =====
-- src/agent/handle-turn.ts: the loop of model rounds and the forced last call.
use ezra.Common.{
  ℕ, zero, suc, String, Bool, true, false, Option, none, some, List, [], ◌∷◌, ◌++◌, map, ◌||◌,
}
use ezra.Hitl.Value.{ToolCall}
use ezra.Tools.{ToolResult}
use ezra.Agent.{TurnMessage, assistant, tool}
use ezra.Agent.Prompts.{render_approval_prompt}
use ezra.Agent.Route.{Tier}
use ezra.Agent.HandleTurn.{
  HandleTurnDeps, TurnState, AssistantMessage, TurnStatus, completed, parked, cap_hit, step,
}
use ezra.Crash.{Run, pure, raise, ◌>>=◌}

abbrev pub said : AssistantMessage → TurnMessage
said a = assistant a.content a.tool_calls

abbrev pub answer_of : ToolResult → TurnMessage
answer_of r = tool r.tool_use_id r.content

-- What the calls of one round came to.
pub record Answers : Type 0 where
  pub msgs : List TurnMessage
  pub parked : Bool
  pub parked_calls : List ToolCall

-- A call is shown in a prompt if its result is parked and names an action.
abbrev pub shown : Bool → Option String → ToolCall → List ToolCall
shown true (some action) call = call ∷ []
shown _ _ call = []

abbrev pub put_answer : ToolCall → ToolResult → Answers → Answers
put_answer call r a = record {
  msgs = answer_of r ∷ a.msgs;
  parked = r.parked || a.parked;
  parked_calls = shown r.parked r.action_id call ++ a.parked_calls;
}

-- Where the loop stands when it ends.
pub record Looped : Type 0 where
  pub msgs : List TurnMessage
  pub status : TurnStatus
  pub rounds : ℕ

module _ {W : Type 0} (d : HandleTurnDeps W) where
  -- The answers to the calls of one message, in their order.
  unfoldable pub answer_calls : List ToolCall → Run (TurnState W) Answers
  answer_calls [] = pure (record { msgs = []; parked = false; parked_calls = [] })
  answer_calls (call ∷ calls) =
      step (d.run_tool call) >>= (λ r. answer_calls calls >>= (λ a. pure (put_answer call r a)))

  abbrev pub proposal_by : Option (ToolCall → String) → ToolCall → String
  proposal_by none call = d.stringify call.args
  proposal_by (some summarize) call = summarize call

  abbrev pub closing : ToolCall → TurnMessage
  closing call = assistant (render_approval_prompt (proposal_by d.summarize_proposal call)) []

  module _ (digest : Option String) (tier : Option Tier) where
    abbrev pub call_model : List TurnMessage → Bool → Run (TurnState W) AssistantMessage
    call_model msgs force =
        step (d.call_model msgs (record { force_final = force; digest = digest; tier = tier }))

    abbrev pub take_answers :
        (List TurnMessage → Run (TurnState W) Looped)
        → List TurnMessage
        → ℕ
        → Bool
        → Answers
        → Run (TurnState W) Looped
    take_answers again msgs rounds true a = pure (record {
      msgs = (msgs ++ a.msgs) ++ map closing a.parked_calls;
      status = parked;
      rounds = rounds;
    })
    take_answers again msgs rounds false a = again (msgs ++ a.msgs)

    unfoldable pub take_calls :
        (List TurnMessage → Run (TurnState W) Looped)
        → List TurnMessage
        → ℕ
        → List ToolCall
        → Run (TurnState W) Looped
    unfolding answer_calls
    take_calls again msgs rounds [] =
        pure (record { msgs = msgs; status = completed; rounds = rounds })
    take_calls again msgs rounds (call ∷ calls) =
        answer_calls (call ∷ calls) >>= (λ a. take_answers again msgs rounds a.parked a)

    -- The loop with `left` rounds to go.
    unfoldable pub run_rounds : ℕ → ℕ → List TurnMessage → Run (TurnState W) Looped
    unfolding take_calls
    run_rounds zero rounds msgs = pure (record { msgs = msgs; status = cap_hit; rounds = rounds })
    run_rounds (suc left) rounds msgs = call_model msgs false >>= (λ a.
        take_calls (run_rounds left (suc rounds)) (msgs ++ said a ∷ []) (suc rounds) a.tool_calls)

    abbrev pub forced : Looped → AssistantMessage → List ToolCall → Run (TurnState W) Looped
    forced l a [] = pure (record l { msgs = l.msgs ++ assistant a.content [] ∷ [] })
    forced l a (call ∷ calls) = raise "handleTurn: forced-final model call returned tool calls"

    -- After the cap, one more message and it may call nothing.
    abbrev pub finish : Looped → TurnStatus → Run (TurnState W) Looped
    finish l cap_hit = call_model l.msgs true >>= (λ a. forced l a a.tool_calls)
    finish l completed = pure l
    finish l parked = pure l
