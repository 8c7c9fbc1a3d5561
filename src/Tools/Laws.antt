-- ===== src/Tools/Laws.antt =====
-- What the registry and `runTool` guarantee.
use ezra.Common.{
  ℕ, ◌+◌, ◌*◌, String, true, false, Option, none, some, List, [], ◌∷◌, ◌++◌, str_eq, any, Attempt,
  returned, threw, ◌≡◌, refl, ◌⊎◌, inl, inr, arith, append_assoc, concat, join, map, sym, subst,
  append-nil, Bool-cases, ◌∙◌, eq_refl,
}
use mathlib.Core.List.{Memᴰ}
use ezra.Hitl.Value.{Value, ToolCall, to_value}
use ezra.Hitl.Table.{Table, create_pending_action, get_pending_action, has_id, pending}
use ezra.Hitl.Table.Updates.{absent-any}
use ezra.Tools.{
  ToolDefinition, ToolRegistry, ToolResult, add_tools, make_tool_registry, run_tool, park,
  derive_action_id, needs_approval, get_tool, confirm_before, autonomous, notify_after, Parsed,
  success, failure, ParkRequest, RiskTier, Issue, error_result, render_issue, as_parked, run_parsed,
  as_answer,
}

module _ {W : Type 0} (reg : ToolRegistry W) (ttl now : ℕ) (call : ToolCall) (conversation : String)
    (t : Table) (w : W) where
  abbrev pub action : String
  action = derive_action_id conversation call.id

  -- The call is of a tool whose arguments fit and that asks before it acts.
  pub record Asks : Type 0 where
    pub def : ToolDefinition W
    pub args : Value
    pub known : get_tool call.name reg ≡ some def
    pub fits : def.schema call.args ≡ success args
    pub tier : def.risk_tier ≡ confirm_before

  -- The new row is the last, pending and without a prompt, under an id that no row had.
  abbrev pub Adds : Table → Type 0
  Adds t' =
      (get_pending_action action t ≡ none)
      × (t'
          ≡ t
            ++ record {
              action_id = action;
              conversation_id = conversation;
              tool_call = to_value call;
              status = pending;
              created_at = now;
              expires_at = now + ttl * 3_600_000;
              prompt_message_id = none;
            }
              ∷ [])

  abbrev pub Answered : ToolResult → Table → W → Type 0
  Answered r t' w' =
      (r.tool_use_id ≡ call.id)
      × ((r.parked ≡ false) × (r.action_id ≡ none) × (t' ≡ t) × (Asks → ⊥)
          ⊎ (r.parked ≡ true) × (r.action_id ≡ some action) × (w' ≡ w) × Asks × Adds t')

  abbrev pub Answers : Attempt ToolResult × Table × W → Type 0
  Answers (returned r, t', w') = Answered r t' w'
  Answers (threw e, t', w') = t' ≡ t

  create-Adds :
      {t' : Table}
      → create_pending_action action conversation (to_value call) now (now + ttl * 3_600_000) t
        ≡ some t'
      → Adds t'
  unfolding create_pending_action
  create-Adds e = elim (Bool-cases (any (has_id action) t)) [
    | inl clash ↦ cc (rw (clash, create_pending_action) at e)
    | inr fresh ↦ (absent-any action t fresh, ground arith)
  ]

  park_request : Option String → ParkRequest
  park_request external = record {
    action_id = action;
    conversation_id = conversation;
    call = call;
    external_id = external;
  }

  inserted : Option Table
  inserted = create_pending_action action conversation (to_value call) now (now + ttl * 3_600_000) t

  park-table :
      (external : Option String) (r : ToolResult) (t' : Table)
      → park ttl now (park_request external) t ≡ (returned r, t')
      → (r.tool_use_id ≡ call.id) × (inserted ≡ some t')
  unfolding park park_request inserted
  park-table external r t' h = ground arith

  park-refused :
      (external : Option String) (m : String) (t' : Table)
      → park ttl now (park_request external) t ≡ (threw m, t')
      → t' ≡ t
  unfolding park park_request
  park-refused external m t' h = ground arith

  park-Answers :
      (external : Option String)
      → Asks
      → (x : Attempt ToolResult × Table) → park ttl now (park_request external) t ≡ x
      → Answers (as_parked action x w)
  unfolding inserted
  park-Answers external asks (returned r, t') h =
      let (answers, row) = park-table external r t' h in
      (answers, inr (refl, refl, refl, asks, create-Adds row))
  park-Answers external asks (threw m, t') h = park-refused external m t' h

  parked-Answers :
      (external : Option String)
      → Asks
      → Answers (as_parked action (park ttl now (park_request external) t) w)
  parked-Answers external asks = park-Answers external asks _ refl

  executed-Answers : (x : Attempt String × W) → (Asks → ⊥) → Answers (as_answer call x t)
  executed-Answers (returned content, w') free = (refl, inl (refl, refl, refl, free))
  executed-Answers (threw e, w') free = refl

  parsed-Answers :
      (def : ToolDefinition W) (args : Value)
      → get_tool call.name reg ≡ some def
      → def.schema call.args ≡ success args
      → (tier : RiskTier) → def.risk_tier ≡ tier
      → Answers (run_parsed reg (park ttl now) def args call conversation t w)
  unfolding park_request
  parsed-Answers def args g p confirm_before r =
      rw r (parked-Answers _ (record { def = def; args = args; known = g; fits = p; tier = r }))
  parsed-Answers def args g p autonomous r =
      rw r (executed-Answers _ (λ asks. cc (g, asks.known, asks.tier, r)))
  parsed-Answers def args g p notify_after r =
      rw r (executed-Answers _ (λ asks. cc (g, asks.known, asks.tier, r)))

  run_tool-unknown :
      get_tool call.name reg ≡ none
      → (run_tool reg (park ttl now) call conversation t w)
        ≡ (returned (error_result call (concat ("unknown tool: " ∷ call.name ∷ []))), t, w)
  unfolding run_tool
  run_tool-unknown g = ground arith

  run_tool-known :
      (def : ToolDefinition W) (args : Value)
      → get_tool call.name reg ≡ some def
      → def.schema call.args ≡ success args
      → run_tool reg (park ttl now) call conversation t w
        ≡ run_parsed reg (park ttl now) def args call conversation t w
  unfolding run_tool
  run_tool-known def args g p = ground arith

  run_tool-misfit :
      (def : ToolDefinition W) (issues : List Issue)
      → get_tool call.name reg ≡ some def
      → def.schema call.args ≡ failure issues
      → run_tool reg (park ttl now) call conversation t w ≡ (
        returned (
            error_result call (
              concat (
                "invalid arguments for "
                ∷ call.name
                ∷ " — "
                ∷ join "; " (map render_issue issues)
                ∷ []))),
        t,
        w,
      )
  unfolding run_tool
  run_tool-misfit def issues g p = ground arith

  schema-Answers :
      (def : ToolDefinition W)
      → get_tool call.name reg ≡ some def
      → (p : Parsed) → def.schema call.args ≡ p
      → Answers (run_tool reg (park ttl now) call conversation t w)
  unfolding run_tool
  schema-Answers def g (success args) p =
      subst (λ x. Answers x) (sym (run_tool-known def args g p))
        (parsed-Answers def args g p def.risk_tier refl)
  schema-Answers def g (failure issues) p =
      subst (λ x. Answers x) (sym (run_tool-misfit def issues g p))
        (refl, inl (refl, refl, refl, λ asks. cc (g, p, asks.known, asks.fits)))

  tool-Answers :
      (o : Option (ToolDefinition W))
      → get_tool call.name reg ≡ o
      → Answers (run_tool reg (park ttl now) call conversation t w)
  tool-Answers none g =
      subst (λ x. Answers x) (sym (run_tool-unknown g))
        (refl, inl (refl, refl, refl, λ asks. cc (g, asks.known)))
  tool-Answers (some def) g = schema-Answers def g (def.schema call.args) refl

  -- A tool call that returns answers that very call. A known tool whose arguments fit and that asks
  -- before it acts is parked: the world stands, and the table has one row more, pending, under an id
  -- that was free. Any other call is not parked and leaves the table as it was. One that throws changes
  -- no row.
  pub run_tool-Answers : Answers (run_tool reg (park ttl now) call conversation t w)
  run_tool-Answers = tool-Answers (get_tool call.name reg) refl

  -- A call of a tool that needs approval leaves the world as it was.
  pub run_tool_never_executes :
      {def : ToolDefinition W}
      → get_tool call.name reg ≡ some def
      → needs_approval def.risk_tier ≡ true
      → (run_tool reg (park ttl now) call conversation t w).2 ≡ w
  unfolding run_tool park
  run_tool_never_executes found risky = ground arith

module _ {W : Type 0} where
  add_tools-cons :
      (reg : ToolRegistry W) (x : ToolDefinition W) (defs : ToolRegistry W) {out : ToolRegistry W}
      → add_tools reg (x ∷ defs) ≡ returned out
      → (any (λ y. str_eq y.name x.name) reg ≡ false)
        × (add_tools (reg ++ x ∷ []) defs ≡ returned out)
  unfolding add_tools
  add_tools-cons reg x defs e = elim (Bool-cases (any (λ y. str_eq y.name x.name) reg)) [
    | inl clash ↦ cc (rw (clash, add_tools) at e)
    | inr fresh ↦ (fresh, rw (fresh, add_tools) at e)
  ]

  add_tools-append :
      (reg defs : ToolRegistry W) {out : ToolRegistry W}
      → add_tools reg defs ≡ returned out
      → out ≡ reg ++ defs
  unfolding add_tools
  add_tools-append reg [] e = rw append-nil (ground arith)
  add_tools-append reg (d ∷ defs) e =
      add_tools-append (reg ++ d ∷ []) defs (add_tools-cons reg d defs e).1
      ∙ append_assoc reg (d ∷ []) defs

  get_tool-append :
      (reg rest : ToolRegistry W) (d : ToolDefinition W)
      → any (λ x. str_eq x.name d.name) reg ≡ false
      → get_tool d.name (reg ++ d ∷ rest) ≡ some d
  unfolding get_tool
  get_tool-append [] rest d h = rw (eq_refl d.name)
  get_tool-append (x ∷ reg) rest d h = ground (arith, get_tool-append reg rest d)

  add_tools-finds :
      (reg defs : ToolRegistry W) {out : ToolRegistry W} {d : ToolDefinition W}
      → add_tools reg defs ≡ returned out
      → Memᴰ d defs
      → get_tool d.name out ≡ some d
  add_tools-finds reg [] e m = elim m [ ]
  add_tools-finds reg (x ∷ defs) {d = d} e (Memᴰ.head same) =
      let (fresh, rest) = add_tools-cons reg x defs e in
      rw (add_tools-append (reg ++ x ∷ []) defs rest, append_assoc reg (x ∷ []) defs, same)
        (get_tool-append reg defs x fresh)
  add_tools-finds reg (x ∷ defs) e (Memᴰ.tail m) =
      add_tools-finds (reg ++ x ∷ []) defs (add_tools-cons reg x defs e).1 m

  -- A registry that was built from a list of definitions finds every one of them under its name.
  pub make_tool_registry-finds :
      (defs : List (ToolDefinition W)) {reg : ToolRegistry W} {d : ToolDefinition W}
      → make_tool_registry defs ≡ returned reg
      → Memᴰ d defs
      → get_tool d.name reg ≡ some d
  unfolding make_tool_registry
  make_tool_registry-finds defs e m = add_tools-finds [] defs e m
