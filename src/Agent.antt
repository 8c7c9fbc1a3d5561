-- ===== src/Agent.antt =====
-- src/agent: the messages of a turn (src/agent/context.ts), the choice of its model tier and the
-- compaction of its transcript.
pub mod Route
pub mod Compaction
pub mod Batch
pub mod Prompts
pub mod Relatedness
pub mod HandleTurn
pub mod Untrusted
use ezra.Common.{String, List}
use ezra.Hitl.Value.{ToolCall}

pub data TurnMessage : Type 0 where
  user : String → String → TurnMessage
  assistant : String → List ToolCall → TurnMessage
  tool : String → String → TurnMessage
