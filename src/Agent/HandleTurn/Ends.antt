-- ===== src/Agent/HandleTurn/Ends.antt =====
-- The whole turn: what it leaves stored wherever it stops, and the rounds that it took.
use ezra.Common.{
  ℕ, zero, suc, String, true, List, [], ◌++◌, ◌≡◌, refl, sym, Attempt, returned, threw, subst,
}
use ezra.Hitl.Value.{ToolCall}
use ezra.Agent.{TurnMessage}
use ezra.Agent.Batch.{BatchItem, to_model_messages}
use ezra.Agent.HandleTurn.{HandleTurnDeps, TurnState}
use ezra.Agent.HandleTurn.Inbound.{resolve_quotes, relate}
use ezra.Agent.HandleTurn.Answered.{answers_all, IsFor}
use ezra.Crash.{Leaves-state, Run, Leaves, Returns, go_on-Leaves, ended-Leaves, ◌>>=◌}
use ezra.Agent.HandleTurn.Keeps.{Grows-same}
use ezra.Agent.Batch.{to_model_messages}
use ezra.Agent.HandleTurn.{TurnResult, load_context, loaded}
use ezra.Agent.HandleTurn.Inbound.{load_entries}
use ezra.Agent.HandleTurn.Turn.{answer_turn, reload_entries, handle_turn, recent_context}
use ezra.Agent.HandleTurn.Answered.{Left, kept, Left-answers_all}
use ezra.Agent.HandleTurn.Keeps.Inbound.{resolve_quotes-Grows, relate-Grows}
use ezra.Agent.HandleTurn.Keeps.Turn.{
  IsTurnResult, answer_turn-Leaves, entries-Leaves, reload-Leaves, to_model_messages-answers_all,
}

loaded-same :
    (msgs : List TurnMessage) (r : Attempt {0} Unit) → Returns (λ p. p ≡ msgs) (loaded msgs r)
loaded-same msgs (returned u) = refl
loaded-same msgs (threw e) = tt

module _ {W : Type 0} (workflow : String) (d : HandleTurnDeps W)
    (is_for : (call : ToolCall) (w : W) → Returns (IsFor call) (d.run_tool call w).0)
    (batch : List BatchItem) where
  load-Leaves :
      (old new : List TurnMessage) (n : ℕ) (s : TurnState W)
      → Left old new s.context
      → Leaves (λ t. Left old new t.context) (λ p. p ≡ s.context) (load_context d n s)
  load-Leaves old new zero s h = h
  load-Leaves old new (suc n) s h =
      ended-Leaves (λ t. Left old new t.context) (λ p. p ≡ s.context)
        (loaded s.context (d.database s.world).0) n _ (loaded-same s.context (d.database s.world).0)
        h

  abbrev pub new_messages : List TurnMessage
  new_messages = to_model_messages d.stringify batch

  -- From the loaded transcript on.
  abbrev rest : List TurnMessage → Run (TurnState W) TurnResult
  rest old = resolve_quotes d.resolve_approval batch (old ++ new_messages) >>= (λ q.
      load_entries d.load_pending_digest >>= (λ entries.
        relate d.relatedness (recent_context old) q entries >>= (λ c.
          reload_entries workflow d c.changed entries
          >>= (λ now. answer_turn workflow d old batch c.msgs now c.reprompt))))

  loaded-Leaves :
      (old : List TurnMessage) (n : ℕ) (s : TurnState W)
      → Left old new_messages s.context
      → Leaves (λ s. Left old new_messages s.context) (IsTurnResult d.max_rounds) (rest old n s)
  loaded-Leaves old n s h =
      let base = old ++ new_messages in
      let I : TurnState W → Type 0 = λ s. Left old new_messages s.context in
      let R = IsTurnResult d.max_rounds in
      go_on-Leaves I _ R _ (resolve_quotes d.resolve_approval batch base n s)
        (resolve_quotes-Grows (Left old new_messages) base d.resolve_approval batch base n s
          (Grows-same base) h)
        (λ q n s g h.
          go_on-Leaves I _ R _ (load_entries d.load_pending_digest n s)
            (entries-Leaves old new_messages workflow d is_for d.load_pending_digest n s h)
            (λ entries n s _ h.
              go_on-Leaves I _ R _ (relate d.relatedness (recent_context old) q entries n s)
                (relate-Grows (Left old new_messages) base d.relatedness (recent_context old) q
                  entries n s g h)
                (λ c n s g h.
                  go_on-Leaves I _ R _ (reload_entries workflow d c.changed entries n s)
                    (reload-Leaves old new_messages workflow d is_for c.changed
                      d.load_pending_digest entries n s refl h)
                    (λ now n s _ h.
                      answer_turn-Leaves old new_messages workflow d is_for old batch c.msgs now
                        c.reprompt n s g h))))

  -- If every result of a tool names the call that it answers, then wherever the turn stops, the
  -- stored transcript is the old one, or the old one, the batch and further messages in which every
  -- call is answered, or that with its head, up to a user message, replaced by a summary. A turn that
  -- returns has run from one round to the maximum, or hit the cap after exactly the maximum, or it is
  -- parked after no round.
  pub handle_turn-Leaves :
      (n : ℕ) (s : TurnState W)
      → Leaves
          (λ t. Left s.context new_messages t.context)
          (IsTurnResult d.max_rounds)
          (handle_turn workflow d batch n s)
  unfolding handle_turn
  handle_turn-Leaves n s =
      let I : TurnState W → Type 0 = λ t. Left s.context new_messages t.context in
      go_on-Leaves I (λ p. p ≡ s.context) (IsTurnResult d.max_rounds) rest (load_context d n s)
        (load-Leaves s.context new_messages n s kept)
        (λ prior n t e h.
          subst (λ p. Leaves I (IsTurnResult d.max_rounds) (rest p n t)) (sym e)
            (loaded-Leaves s.context n t h))

  -- If every result of a tool names the call that it answers, and in the stored transcript every
  -- call is answered by exactly one result, in order and before anything else, then the same holds of
  -- the transcript that is stored wherever the turn stops, by a return, a throw or a crash.
  pub handle_turn-answers_all :
      (n : ℕ) (s : TurnState W)
      → answers_all [] s.context ≡ true
      → answers_all [] (handle_turn workflow d batch n s).2.context ≡ true
  handle_turn-answers_all n s h =
      Left-answers_all s.context new_messages _ h (to_model_messages-answers_all d.stringify batch)
        (Leaves-state (λ t. Left s.context new_messages t.context) (IsTurnResult d.max_rounds)
          (handle_turn workflow d batch n s) (handle_turn-Leaves n s))
