-- ===== src/Agent/HandleTurn.antt =====
-- src/agent/handle-turn.ts: the turn workflow over one conversation. What it is composed of comes in
-- as functions on the world `W`; an effect is one journaled step or transaction, and the process may
-- stop before any of them. The stored transcript is the `context` of the state.
pub mod Inbound
pub mod Rounds
pub mod Turn
pub mod Answered
pub mod Ends
pub mod Keeps
pub mod Targets
use ezra.Common.{ℕ, String, Bool, Option, none, some, List, Attempt, returned, threw}
use ezra.Hitl.Value.{Value, ToolCall}
use ezra.Hitl.Resolve.{ApprovalOutcome, ApprovalDecision}
use ezra.Hitl.Refine.{RefineOutcome}
use ezra.Tools.{ToolResult}
use ezra.Agent.{TurnMessage}
use ezra.Agent.Prompts.{PendingActionDigestEntry}
use ezra.Agent.Relatedness.{RelatednessVerdict, ClassifyInput}
use ezra.Agent.Route.{Tier}
use ezra.Agent.Route.Turn.{RouteTurnInput, RouteDecision}
use ezra.Agent.Compaction.{CompactionConfig}
use ezra.Crash.{Run, effect}

pub record AssistantMessage : Type 0 where
  pub content : String
  pub tool_calls : List ToolCall

pub record ModelCallOptions : Type 0 where
  pub force_final : Bool
  pub digest : Option String
  pub tier : Option Tier

pub record RelatednessDeps (W : Type 0) : Type 0 where
  pub classify : ClassifyInput → W → Attempt RelatednessVerdict × W
  pub resolve_decision : String → ApprovalDecision → W → Attempt ApprovalOutcome × W
  pub refine : String → Value → W → Attempt RefineOutcome × W

pub record CompactionLog : Type 0 where
  pub source_key : String
  pub head : List TurnMessage
  pub summary : String
  pub cut_index : ℕ
  pub tail_count : ℕ

pub record CompactionDeps (W : Type 0) : Type 0 where
  pub config : CompactionConfig
  pub summarize : List TurnMessage → W → Attempt String × W
  pub embed_summary : String → W → Attempt (List ℕ) × W
  pub write_memory : String → List ℕ → String → W → Attempt Bool × W
  pub write_compaction_log : CompactionLog → W → Attempt Bool × W

-- The functions are those of one conversation. `database` says whether the transaction that reads or
-- writes the transcript goes through, the last three render.
pub record HandleTurnDeps (W : Type 0) : Type 0 where
  pub database : W → Attempt {0} Unit × W
  pub run_tool : ToolCall → W → Attempt ToolResult × W
  pub load_pending_digest : Option (W → Attempt (List PendingActionDigestEntry) × W)
  pub resolve_approval : Option (String → String → W → Attempt ApprovalOutcome × W)
  pub relatedness : Option (RelatednessDeps W)
  pub call_model : List TurnMessage → ModelCallOptions → W → Attempt AssistantMessage × W
  pub max_rounds : ℕ
  pub summarize_proposal : Option (ToolCall → String)
  pub compaction : Option (CompactionDeps W)
  pub route_turn : Option (RouteTurnInput → W → RouteDecision × W)
  pub log_route : Option (RouteDecision → W → Attempt Bool × W)
  pub stringify : Value → String
  pub eastern : ℕ → String
  pub one_line : String → String

pub data TurnStatus : Type 0 where
  completed parked cap_hit : TurnStatus

pub record TurnResult : Type 0 where
  pub status : TurnStatus
  pub rounds : ℕ

pub record TurnState (W : Type 0) : Type 0 where
  pub context : List TurnMessage
  pub world : W

abbrev pub loaded : List TurnMessage → Attempt {0} Unit → Attempt (List TurnMessage)
loaded msgs (returned u) = returned msgs
loaded msgs (threw e) = threw e

-- The transcript after a write that went through, or did not.
abbrev pub written : List TurnMessage → List TurnMessage → Attempt {0} Unit → List TurnMessage
written old msgs (returned u) = msgs
written old msgs (threw e) = old

module _ {W : Type 0} where
  -- An effect on the world only.
  abbrev pub step : {A : Type 0} → (W → Attempt A × W) → Run (TurnState W) A
  step f = effect (λ s. ((f s.world).0, record { context = s.context; world = (f s.world).1 }))

  module _ (d : HandleTurnDeps W) where
    -- `deps.loadContext`
    abbrev pub load_context : Run (TurnState W) (List TurnMessage)
    load_context = effect (λ s. (
      loaded s.context (d.database s.world).0,
      record { context = s.context; world = (d.database s.world).1 },
    ))

    -- `deps.persistContext`
    abbrev pub persist_context : List TurnMessage → Run (TurnState W) Unit
    persist_context msgs = effect (λ s. (
      (d.database s.world).0,
      record {
        context = written s.context msgs (d.database s.world).0;
        world = (d.database s.world).1;
      },
    ))
