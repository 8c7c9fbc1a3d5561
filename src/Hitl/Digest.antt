-- ===== src/Hitl/Digest.antt =====
-- src/hitl/digest.ts: the rows of pending actions as the prompt and the classifier see them.
use ezra.Common.{String, Option, none, some, List, map, Attempt, returned, threw}
use ezra.Hitl.Value.{Value, ToolCall, parse_call}
use ezra.Hitl.Table.{PendingAction}
use ezra.Tools.{ToolDefinition, ToolRegistry, Parsed, success, failure, get_tool}
use ezra.Agent.Prompts.{PendingActionDigestEntry}

module _ (stringify : Value → String) where
  abbrev pub or_json : Value → Attempt String → String
  or_json args (returned line) = line
  or_json args (threw e) = stringify args

  abbrev pub by_hook : Value → (Value → Attempt String) → Parsed → String
  by_hook args summarize (success parsed) = or_json args (summarize parsed)
  by_hook args summarize (failure issues) = stringify args

  abbrev pub by_option : Value → (Value → Parsed) → Option (Value → Attempt String) → String
  by_option args schema none = stringify args
  by_option args schema (some summarize) = by_hook args summarize (schema args)

  module _ {W : Type 0} where
    abbrev pub by_definition : Value → Option (ToolDefinition W) → String
    by_definition args none = stringify args
    by_definition args (some def) = by_option args def.schema def.summarize

    abbrev pub find_in : Option (ToolRegistry W) → String → Option (ToolDefinition W)
    find_in none name = none
    find_in (some reg) name = get_tool name reg

    unfoldable pub summarize_tool_call : Option (ToolRegistry W) → String → Value → String
    summarize_tool_call registry name args = by_definition args (find_in registry name)

    abbrev pub entry_of :
        Option (ToolRegistry W) → PendingAction → Option ToolCall → PendingActionDigestEntry
    unfolding summarize_tool_call
    entry_of registry action (some call) = record {
      action_id = action.action_id;
      tool_name = call.name;
      summary = summarize_tool_call registry call.name call.args;
      args_json = some (stringify call.args);
      expires_at = some action.expires_at;
    }
    entry_of registry action none = record {
      action_id = action.action_id;
      tool_name = "unknown";
      summary = stringify action.tool_call;
      args_json = some (stringify action.tool_call);
      expires_at = some action.expires_at;
    }

    unfoldable pub to_digest_entries :
        Option (ToolRegistry W) → List PendingAction → List PendingActionDigestEntry
    to_digest_entries registry actions =
        map (λ a. entry_of registry a (parse_call a.tool_call)) actions
