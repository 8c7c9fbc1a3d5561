-- ===== src/Agent/Compaction.antt =====
-- src/agent/compaction.ts: where the transcript is cut, and what stands in for its head; and the use
-- that src/agent/handle-turn.ts makes of them.
pub mod Cuts
use ezra.Common.{
  ℕ, zero, suc, ◌+◌, ◌-◌, min, String, Bool, true, false, ◌&&◌, Option, none, some, List, [], ◌∷◌,
  str_eq, ltb, leb, if◌then◌else◌, any, map, length, get_elem?, take, drop, concat, join,
}
use ezra.Hitl.Value.{ToolCall}
use ezra.Agent.{TurnMessage, user, assistant, tool}

pub record CompactionConfig : Type 0 where
  pub threshold_messages : ℕ
  pub keep_messages : ℕ

abbrev pub default_compaction_config : CompactionConfig
default_compaction_config = record { threshold_messages = 60; keep_messages = 20 }

abbrev pub compaction_sender_id : String
compaction_sender_id = "system:compaction"

unfoldable pub should_compact : List TurnMessage → CompactionConfig → Bool
should_compact msgs config = ltb config.threshold_messages (length msgs)

abbrev pub is_user : Option TurnMessage → Bool
is_user (some (user sender content)) = true
is_user _ = false

-- The loop from an index down to 1.
unfoldable pub scan_down : List TurnMessage → ℕ → Option ℕ
scan_down msgs zero = none
scan_down msgs (suc i) =
    let rest = scan_down msgs i in if is_user (get_elem? msgs (suc i)) then some (suc i) else rest

-- A negative bound is 0 here; either way the loop has no round.
unfoldable pub find_compaction_cut : List TurnMessage → CompactionConfig → Option ℕ
unfolding scan_down
find_compaction_cut msgs config =
    scan_down msgs (min (length msgs - config.keep_messages) (length msgs - 1))

unfoldable pub build_compacted_transcript : String → List TurnMessage → List TurnMessage
build_compacted_transcript summary tail =
    user compaction_sender_id (
      concat (
        "Summary of the earlier conversation (fuller detail may be recallable via recall_history):\n"
        ∷ summary ∷ []))
    ∷ tail

abbrev pub rendered : TurnMessage → String
rendered (user sender content) = concat (sender ∷ ": " ∷ content ∷ [])
rendered (assistant content calls) = concat ("assistant: " ∷ content ∷ [])
rendered (tool id content) = concat ("[tool result] " ∷ content ∷ [])

unfoldable pub render_for_summary : List TurnMessage → String
render_for_summary msgs = join "\n" (map rendered msgs)

abbrev pub compacted : (List TurnMessage → String) → List TurnMessage → Option ℕ → List TurnMessage
compacted summarize msgs none = msgs
compacted summarize msgs (some cut) =
    build_compacted_transcript (summarize (take cut msgs)) (drop cut msgs)

-- The transcript that a turn leaves behind, `summarize` being the model's summary of the head.
unfoldable pub persisted :
    (List TurnMessage → String) → CompactionConfig → List TurnMessage → List TurnMessage
persisted summarize config msgs =
    if should_compact msgs config
    then compacted summarize msgs (find_compaction_cut msgs config)
    else msgs
