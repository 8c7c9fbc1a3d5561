-- ===== src/Hitl/Refine/Effect.antt =====
-- What a refinement does to its row, and that it never settles one.
use ezra.Common.{
  String, Bool, true, false, Option, none, some, str_eq, if◌then◌else◌, Attempt, returned, threw,
  ◌≡◌, refl, arith, ◌∙◌, ap, Bool-cases, inl, inr, subst, sym,
}
use ezra.Hitl.Value.{Value, ToolCall, parse_call, to_value, as_record, get, has}
use ezra.Hitl.Value.Laws.{IsRecord, get-spread}
use ezra.Hitl.Table.{
  PendingAction, Table, is_pending, get_pending_action, flip_status, current_status, denied,
}
use ezra.Hitl.Table.Guards.{IsKeyed, Becomes, Becomes-get, flip_status-won, on_status}
use ezra.Hitl.Table.Updates.{update-Becomes, update-kept}
use ezra.Tools.{ToolDefinition, ToolRegistry, Parsed, success, failure, get_tool}
use ezra.Hitl.Refine.{
  RefineOutcome, unbound, invalid, refined, already_resolved, with_call, rewrite_call, refused,
  take_rewrite, take_args, merged, take_tool, take_row, refine_call, refine_action,
}

abbrev pub with_args : ToolCall → Value → ToolCall
with_args call args = record { id = call.id; name = call.name; args = args }

-- The patch over the stored arguments, key by key.
abbrev pub Overlaid : Value → ToolCall → Value → Type 0
Overlaid patch call given =
    (j : String)
    → get j (as_record given)
      ≡ (if has j (as_record patch) then get j (as_record patch) else get j (as_record call.args))

overlay :
    (patch : Value)
    → IsRecord (as_record patch)
    → (call : ToolCall) → Overlaid patch call (merged call patch)
unfolding merged as_record
overlay patch distinct call j = get-spread j (as_record call.args) (as_record patch) distinct

-- `Over` is what is known of the arguments given to the schema.
module _ {W : Type 0} (Over : ToolCall → Value → Type 0) (stringify : Value → String)
    (reg : ToolRegistry W) (a : PendingAction) (patch : Value) (t : Table) where
  -- The row is still pending and holds the same call with arguments that the tool's schema made of
  -- the stored ones under the patch; its prompt is to be sent again.
  pub record Rewrites (name summary : String) (t' : Table) : Type 0 where
    pub call : ToolCall
    pub def : ToolDefinition W
    pub args : Value
    pub was_pending : is_pending a.status ≡ true
    pub stored : parse_call a.tool_call ≡ some call
    pub tool : get_tool call.name reg ≡ some def
    pub given : Value
    pub overlaid : Over call given
    pub accepted : def.schema given ≡ success args
    pub named : name ≡ call.name
    pub shown : summary ≡ stringify args
    pub row :
        Becomes t a.action_id
          (record a { tool_call = to_value (with_args call args); prompt_message_id = none })
          t'

  abbrev pub Effect : Attempt RefineOutcome × Table → Type 0
  Effect (returned (refined id name summary), t') = (id ≡ a.action_id) × Rewrites name summary t'
  Effect (returned (already_resolved id s), t') =
      (id ≡ a.action_id)
      × (s ≡ a.status)
      × (is_pending a.status ≡ false)
      × Becomes t a.action_id a t'
  Effect (returned (invalid id name), t') = (id ≡ a.action_id) × (t' ≡ t)
  Effect (returned unbound, t') = ⊥
  Effect (threw e, t') = ⊥

  -- The answer to the conversation that asks.
  abbrev pub Bound : Bool → Attempt RefineOutcome × Table → Type 0
  Bound true s = Effect s
  Bound false s = s ≡ (returned unbound, t)

  module _ (over : (call : ToolCall) → Over call (merged call patch)) (k : IsKeyed t)
      (e : get_pending_action a.action_id t ≡ some a) where
    rewrite_won : (c : ToolCall) → (rewrite_call c a.action_id t).0 ≡ is_pending a.status
    unfolding rewrite_call flip_status
    rewrite_won c = flip_status-won is_pending denied a.action_id t k ∙ ap (on_status is_pending) e

    rewrite_pair :
        (c : ToolCall) {won : Bool}
        → is_pending a.status ≡ won
        → rewrite_call c a.action_id t ≡ (won, (rewrite_call c a.action_id t).1)
    rewrite_pair c h = λ i. ((rewrite_won c ∙ h) i, (rewrite_call c a.action_id t).1)

    rewritten :
        (c : ToolCall)
        → is_pending a.status ≡ true
        → Becomes t a.action_id (with_call c a) (rewrite_call c a.action_id t).1
    unfolding rewrite_call
    rewritten c p = update-Becomes is_pending (with_call c) (λ _. refl) a.action_id t a k e p

    kept :
        (c : ToolCall)
        → is_pending a.status ≡ false
        → Becomes t a.action_id a (rewrite_call c a.action_id t).1
    unfolding rewrite_call
    kept c p = update-kept is_pending (with_call c) (λ _. refl) a.action_id t a k e p

    refused-reads :
        (u : Table)
        → Becomes t a.action_id a u
        → refused a.action_id u ≡ returned (already_resolved a.action_id a.status)
    unfolding refused current_status get_pending_action
    refused-reads u b = ground (arith, Becomes-get b)

    take_rewrite-Effect :
        (call : ToolCall) (def : ToolDefinition W) (args : Value)
        → parse_call a.tool_call ≡ some call
        → get_tool call.name reg ≡ some def
        → def.schema (merged call patch) ≡ success args
        → Effect (
            take_rewrite stringify a
              (with_args call args)
              (rewrite_call (with_args call args) a.action_id t))
    unfolding take_rewrite
    take_rewrite-Effect call def args stored tool accepted =
        elim (Bool-cases (is_pending a.status)) [
          | inl p ↦ rw (rewrite_pair (with_args call args) p) (
            refl,
            record {
              call = call;
              def = def;
              args = args;
              was_pending = p;
              stored = stored;
              tool = tool;
              given = merged call patch;
              overlaid = over call;
              accepted = accepted;
              named = refl;
              shown = refl;
              row = rewritten (with_args call args) p;
            },
          )
          | inr p ↦
              rw
                (
                  rewrite_pair (with_args call args) p,
                  refused-reads _ (kept (with_args call args) p),
                )
                (refl, refl, p, kept (with_args call args) p)
        ]

    take_args-Effect :
        (call : ToolCall) (def : ToolDefinition W) (p : Parsed)
        → parse_call a.tool_call ≡ some call
        → get_tool call.name reg ≡ some def
        → def.schema (merged call patch) ≡ p
        → Effect (take_args stringify a call t p)
    unfolding take_args
    take_args-Effect call def (failure issues) stored tool found = (refl, refl)
    take_args-Effect call def (success args) stored tool found =
        take_rewrite-Effect call def args stored tool found

    take_tool-Effect :
        (call : ToolCall)
        → parse_call a.tool_call ≡ some call
        → (d : Option (ToolDefinition W)) → get_tool call.name reg ≡ d
        → Effect (take_tool stringify a call patch t d)
    unfolding take_tool
    take_tool-Effect call stored none tool = (refl, refl)
    take_tool-Effect call stored (some def) tool =
        take_args-Effect call def (def.schema (merged call patch)) stored tool refl

    refine_call-Effect :
        (c : Option ToolCall)
        → parse_call a.tool_call ≡ c
        → Effect (refine_call stringify reg a c patch t)
    unfolding refine_call
    refine_call-Effect none stored = (refl, refl)
    refine_call-Effect (some call) stored =
        take_tool-Effect call stored (get_tool call.name reg) refl

    take_row-Bound :
        (conversation : String) (same : Bool)
        → str_eq a.conversation_id conversation ≡ same
        → Bound same (take_row stringify reg conversation patch t (some a))
    unfolding take_row
    take_row-Bound conversation true h = rw h (refine_call-Effect (parse_call a.tool_call) refl)
    take_row-Bound conversation false h = rw h refl

    pub refine_action-Bound :
        (conversation : String)
        → Bound
            (str_eq a.conversation_id conversation)
            (refine_action stringify reg conversation a.action_id patch t)
    unfolding refine_action
    refine_action-Bound conversation =
        subst
          (λ r.
            Bound (str_eq a.conversation_id conversation)
              (take_row stringify reg conversation patch t r))
          (sym e) (take_row-Bound conversation (str_eq a.conversation_id conversation) refl)

-- Asked for by the row's own conversation, with a patch that names no key twice, a refinement
-- either rewrites the pending row that it names, or says why not and leaves every row as it was; it
-- never throws. Rewritten, the row has only its call's arguments changed, to what the tool's schema
-- makes of the stored ones with the patch over them, and its prompt's id cleared; its status stays.
-- Asked for by another conversation, it answers `unbound` and changes nothing.
pub refine_action-Effect :
    {W : Type 0} (stringify : Value → String) (reg : ToolRegistry W) (a : PendingAction)
    (patch : Value) (t : Table)
    → IsRecord (as_record patch)
    → IsKeyed t
    → get_pending_action a.action_id t ≡ some a
    → (conversation : String)
    → Bound
        (Overlaid patch)
        stringify
        reg
        a
        patch
        t
        (str_eq a.conversation_id conversation)
        (refine_action stringify reg conversation a.action_id patch t)
refine_action-Effect stringify reg a patch t distinct k e conversation =
    refine_action-Bound (Overlaid patch) stringify reg a patch t (overlay patch distinct) k e
      conversation
