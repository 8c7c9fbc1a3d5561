-- ===== src/Tools.antt =====
-- The tool definitions and the registry (src/tools/define-tool.ts, src/tools/registry.ts), and the
-- park of src/hitl/park.ts. `W` is all that a tool can reach and change: the other tables and the
-- services behind its dependencies. No tool of src/tools touches `pending_actions`.
pub mod Laws
pub mod Facts
pub mod Lists
pub mod Reminders
use ezra.Common.{
  ℕ, ◌+◌, ◌*◌, String, Bool, true, false, ◌&&◌, Option, none, some, List, [], ◌∷◌, ◌++◌, map,
  str_eq, if◌then◌else◌, any, find, Attempt, returned, threw, concat, join,
}
use ezra.Hitl.Value.{Value, ToolCall, to_value}
use ezra.Hitl.Table.{Table, create_pending_action}

pub data RiskTier : Type 0 where
  autonomous notify_after confirm_before : RiskTier

pub record IdContext : Type 0 where
  pub action_id : String
  pub conversation_id : String
  pub tool_use_id : String

pub record Issue : Type 0 where
  pub path : List String
  pub message : String

-- What `schema.safeParse` returns.
pub data Parsed : Type 0 where
  success : Value → Parsed
  failure : List Issue → Parsed

pub record ToolDefinition (W : Type 0) : Type 0 where
  pub name : String
  pub description : String
  pub schema : Value → Parsed
  pub risk_tier : RiskTier
  pub external_id : Option (IdContext → String)
  pub revalidate : Option (Value → IdContext → Option String → W → Attempt Bool × W)
  pub summarize : Option (Value → Attempt String)
  pub execute : Value → IdContext → Option String → W → Attempt String × W

abbrev pub ToolRegistry : Type 0 → Type 0
ToolRegistry W = List (ToolDefinition W)

abbrev pub is_none {ℓ} : {A : Type ℓ} → Option A → Bool
is_none none = true
is_none (some _) = false

abbrev pub needs_approval : RiskTier → Bool
needs_approval confirm_before = true
needs_approval _ = false

pub record ToolResult : Type 0 where
  pub tool_use_id : String
  pub content : String
  pub parked : Bool
  pub action_id : Option String

pub record ParkRequest : Type 0 where
  pub action_id : String
  pub conversation_id : String
  pub call : ToolCall
  pub external_id : Option String

unfoldable pub derive_action_id : String → String → String
derive_action_id conversation tool_use = concat ("act-" ∷ conversation ∷ "-" ∷ tool_use ∷ [])

abbrev pub render_issue : Issue → String
render_issue i = concat (join "." i.path ∷ ": " ∷ i.message ∷ [])

-- `makePark` at the clock's reading `now`; a refused insert throws.
unfoldable pub park : ℕ → ℕ → ParkRequest → Table → Attempt ToolResult × Table
park ttl_hours now request t =
    elim (create_pending_action request.action_id request.conversation_id (to_value request.call)
      now (now + ttl_hours * 3_600_000) t) [
        | none ↦ (threw "duplicate key value violates unique constraint", t)
        | some t' ↦ (
          returned (record {
            tool_use_id = request.call.id;
            content = concat (
                "pending approval, action_id=" ∷ request.action_id
                ∷ ": waiting for a household member to confirm — not done yet" ∷ []);
            parked = true;
            action_id = none;
          }),
          t',
        )
      ]

abbrev pub apply_id : Option (IdContext → String) → IdContext → Option String
apply_id none ctx = none
apply_id (some f) ctx = some (f ctx)

abbrev pub id_context : String → String → IdContext
id_context conversation tool_use = record {
  action_id = derive_action_id conversation tool_use;
  conversation_id = conversation;
  tool_use_id = tool_use;
}

abbrev error_result : ToolCall → String → ToolResult
error_result call content = record {
  tool_use_id = call.id;
  content = content;
  parked = false;
  action_id = none;
}

module _ {W : Type 0} where
  -- `defineTool`
  unfoldable pub define_tool : ToolDefinition W → Attempt (ToolDefinition W)
  define_tool def =
      if str_eq def.name ""
      then threw "defineTool: tool name must be non-empty"
      else if needs_approval def.risk_tier && is_none def.revalidate
      then threw (
          concat (
            "defineTool: " ∷ def.name
            ∷ " is confirm-before but declares no revalidation check (SPEC boundary)" ∷ []))
      else returned def

  -- `registry.get(name)`
  unfoldable pub get_tool : String → ToolRegistry W → Option (ToolDefinition W)
  get_tool name reg = find (λ def. str_eq def.name name) reg

  -- The loop of `makeToolRegistry`; `reg` holds the definitions taken so far.
  unfoldable pub add_tools : ToolRegistry W → List (ToolDefinition W) → Attempt (ToolRegistry W)
  add_tools reg [] = returned reg
  add_tools reg (def ∷ defs) =
      let rest = add_tools (reg ++ def ∷ []) defs in
      if any (λ d. str_eq d.name def.name) reg
      then threw (concat ("makeToolRegistry: duplicate tool name " ∷ def.name ∷ []))
      else rest

  unfoldable pub make_tool_registry : List (ToolDefinition W) → Attempt (ToolRegistry W)
  unfolding add_tools
  make_tool_registry defs = add_tools [] defs

  -- The answer of the park, with the two fields that the loop relies on set here.
  abbrev as_parked : String → Attempt ToolResult × Table → W → Attempt ToolResult × Table × W
  as_parked action (returned r, t) w =
      (returned (record r { parked = true; action_id = some action }), t, w)
  as_parked action (threw e, t) w = (threw e, t, w)

  abbrev as_answer : ToolCall → Attempt String × W → Table → Attempt ToolResult × Table × W
  as_answer call (returned content, w) t = (returned (error_result call content), t, w)
  as_answer call (threw e, w) t = (threw e, t, w)

  module _ (reg : ToolRegistry W)
      (park_call : ParkRequest → Table → Attempt ToolResult × Table) where
    -- A call whose arguments have parsed.
    abbrev run_parsed :
        ToolDefinition W → Value → ToolCall → String → Table → W → Attempt ToolResult × Table × W
    run_parsed def args call conversation t w =
        let ctx = id_context conversation call.id in
        let external = apply_id def.external_id ctx in
        if needs_approval def.risk_tier
        then as_parked ctx.action_id
            (park_call
              (record {
                action_id = ctx.action_id;
                conversation_id = conversation;
                call = call;
                external_id = external;
              })
              t)
            w
        else as_answer call (def.execute args ctx external w) t

    -- `makeRunTool`
    unfoldable pub run_tool : ToolCall → String → Table → W → Attempt ToolResult × Table × W
    run_tool call conversation t w = elim (get_tool call.name reg) [
      | none ↦ (returned (error_result call (concat ("unknown tool: " ∷ call.name ∷ []))), t, w)
      | some def ↦ elim (def.schema call.args) [
        | failure issues ↦ (
          returned (
              error_result call (
                concat (
                  "invalid arguments for "
                  ∷ call.name
                  ∷ " — "
                  ∷ join "; " (map render_issue issues)
                  ∷ []))),
          t,
          w,
        )
        | success args ↦ run_parsed def args call conversation t w
      ]
    ]
