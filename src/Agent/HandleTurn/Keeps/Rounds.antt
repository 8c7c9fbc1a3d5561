-- ===== src/Agent/HandleTurn/Keeps/Rounds.antt =====
-- A round adds the model's message and one answer to each of its calls.
use ezra.Common.{
  ℕ, zero, suc, ◌+◌, String, Bool, true, false, Option, List, [], ◌∷◌, ◌++◌, map, ◌<◌, ◌≤◌, eq_iff,
  ◌≡◌, refl, sym, arith, subst, append_assoc,
}
use ezra.Hitl.Value.{ToolCall}
use ezra.Tools.{ToolResult}
use ezra.Agent.{TurnMessage}
use ezra.Agent.Route.{Tier}
use ezra.Agent.HandleTurn.{
  HandleTurnDeps, TurnState, AssistantMessage, TurnStatus, completed, parked, cap_hit, step,
}
use ezra.Agent.HandleTurn.Rounds.{
  said, Answers, Looped, put_answer, answer_calls, closing, take_answers, take_calls, run_rounds,
  forced, finish,
}
use ezra.Agent.HandleTurn.Answered.{answers_all, IsFor}
use ezra.Crash.{Leaves-map, Run, Leaves, Returns, go_on-Leaves}
use ezra.Agent.HandleTurn.Keeps.{Grows, Grows-append, step-Leaves, after_step}

-- The round that a loop ends in, with `before` rounds run and `left` to go.
abbrev pub Took : ℕ → ℕ → TurnStatus → ℕ → Type 0
Took before left completed rounds = (before < rounds) × (rounds ≤ before + left)
Took before left parked rounds = (before < rounds) × (rounds ≤ before + left)
Took before left cap_hit rounds = rounds ≡ before + left

Took-suc :
    (before left : ℕ) (status : TurnStatus) (rounds : ℕ)
    → Took (suc before) left status rounds
    → Took before (suc left) status rounds
Took-suc before left completed rounds t = ground arith
Took-suc before left parked rounds t = ground arith
Took-suc before left cap_hit rounds t = ground arith

closings-answers_all :
    {W : Type 0} (d : HandleTurnDeps W) (calls : List ToolCall)
    → answers_all [] (map (closing d) calls) ≡ true
closings-answers_all d [] = refl
closings-answers_all d (call ∷ calls) = closings-answers_all d calls

-- The answers to the calls, and nothing else.
abbrev IsAnswers : List ToolCall → Answers → Type 0
IsAnswers calls a = answers_all (map (λ c. c.id) calls) a.msgs ≡ true

put_answer-IsAnswers :
    (call : ToolCall) (calls : List ToolCall) (r : ToolResult) (a : Answers)
    → IsFor call r
    → IsAnswers calls a
    → IsAnswers (call ∷ calls) (put_answer call r a)
put_answer-IsAnswers call calls r a f h = rw ((eq_iff r.tool_use_id call.id).1 f) h

module _ {W : Type 0} (C : List TurnMessage → Type 0) (d : HandleTurnDeps W)
    (is_for : (call : ToolCall) (w : W) → Returns (IsFor call) (d.run_tool call w).0) where
  abbrev Kept : TurnState W → Type 0
  Kept s = C s.context

  answer_calls-IsAnswers :
      (calls : List ToolCall) (n : ℕ) (s : TurnState W)
      → C s.context
      → Leaves Kept (IsAnswers calls) (answer_calls d calls n s)
  unfolding answer_calls
  answer_calls-IsAnswers [] n s c = (refl, c)
  answer_calls-IsAnswers (call ∷ calls) n s c =
      go_on-Leaves Kept (IsFor call) (IsAnswers (call ∷ calls)) _ (step (d.run_tool call) n s)
        (step-Leaves C (IsFor call) (d.run_tool call) n s (is_for call s.world) c)
        (λ r n s f c.
          go_on-Leaves Kept (IsAnswers calls) (IsAnswers (call ∷ calls)) _
            (answer_calls d calls n s) (answer_calls-IsAnswers calls n s c)
            (λ a n s h c. (put_answer-IsAnswers call calls r a f h, c)))

  module _ (base : List TurnMessage) (digest : Option String) (tier : Option Tier) where
    -- What a loop hands on.
    abbrev pub Ran : ℕ → ℕ → Looped → Type 0
    Ran before left l = Grows base l.msgs × Took before left l.status l.rounds

    Ran-suc : (before left : ℕ) (l : Looped) → Ran (suc before) left l → Ran before (suc left) l
    Ran-suc before left l h = (h.0, Took-suc before left l.status l.rounds h.1)

    -- The message of a round with the answers to its calls.
    said-Grows :
        (msgs : List TurnMessage) (a : AssistantMessage) (b : Answers)
        → IsAnswers a.tool_calls b
        → Grows base msgs
        → Grows base ((msgs ++ said a ∷ []) ++ b.msgs)
    said-Grows msgs a b k g =
        subst (λ m. Grows base m) (sym (append_assoc msgs (said a ∷ []) b.msgs))
          (Grows-append base msgs (said a ∷ b.msgs) k g)

    take_answers-Ran :
        (again : List TurnMessage → Run (TurnState W) Looped) (msgs : List TurnMessage)
        (before left : ℕ) (parked : Bool) (a : Answers) (n : ℕ) (s : TurnState W)
        → Grows base (msgs ++ a.msgs)
        → C s.context
        → Leaves Kept (Ran (suc before) left) (again (msgs ++ a.msgs) n s)
        → Leaves Kept
            (Ran before (suc left))
            (take_answers d digest tier again msgs (suc before) parked a n s)
    take_answers-Ran again msgs before left true a n s g c h = (
      (
        Grows-append base (msgs ++ a.msgs) _ (closings-answers_all d a.parked_calls) g,
        (omega arith, omega arith),
      ),
      c,
    )
    take_answers-Ran again msgs before left false a n s g c h =
        Leaves-map Kept (Ran (suc before) left) (Ran before (suc left)) (Ran-suc before left)
          (again (msgs ++ a.msgs) n s) h

    take_calls-Ran :
        (again : List TurnMessage → Run (TurnState W) Looped) (msgs : List TurnMessage)
        (before left : ℕ) (a : AssistantMessage) (calls : List ToolCall) (n : ℕ) (s : TurnState W)
        → a.tool_calls ≡ calls
        → Grows base msgs
        → C s.context
        → ((msgs : List TurnMessage) (n : ℕ) (s : TurnState W)
            → Grows base msgs
            → C s.context
            → Leaves Kept (Ran (suc before) left) (again msgs n s))
        → Leaves Kept
            (Ran before (suc left))
            (take_calls d digest tier again (msgs ++ said a ∷ []) (suc before) calls n s)
    unfolding take_calls
    take_calls-Ran again msgs before left a [] n s e g c h =
        ((Grows-append base msgs (said a ∷ []) (rw e refl) g, (omega arith, omega arith)), c)
    take_calls-Ran again msgs before left a (call ∷ calls) n s e g c h =
        go_on-Leaves Kept (IsAnswers (call ∷ calls)) (Ran before (suc left)) _
          (answer_calls d (call ∷ calls) n s) (answer_calls-IsAnswers (call ∷ calls) n s c)
          (λ b n s k c.
            let g' = said-Grows msgs a b (subst (λ cs. IsAnswers cs b) (sym e) k) g in
            take_answers-Ran again (msgs ++ said a ∷ []) before left b.parked b n s g' c
              (h ((msgs ++ said a ∷ []) ++ b.msgs) n s g' c))

    pub run_rounds-Ran :
        (left before : ℕ) (msgs : List TurnMessage) (n : ℕ) (s : TurnState W)
        → Grows base msgs
        → C s.context
        → Leaves Kept (Ran before left) (run_rounds d digest tier left before msgs n s)
    unfolding run_rounds
    run_rounds-Ran zero before msgs n s g c = ((g, omega arith), c)
    run_rounds-Ran (suc left) before msgs n s g c =
        after_step C (Ran before (suc left)) _ _ n s c (λ a n s c.
          take_calls-Ran (run_rounds d digest tier left (suc before)) msgs before left a
            a.tool_calls n s refl g c
            (λ msgs n s g c. run_rounds-Ran left (suc before) msgs n s g c))

    forced-Ran :
        (left : ℕ) (l : Looped) (a : AssistantMessage) (calls : List ToolCall) (n : ℕ)
        (s : TurnState W)
        → Ran 0 left l
        → C s.context
        → Leaves Kept (Ran 0 left) (forced d digest tier l a calls n s)
    forced-Ran left l a [] n s h c = ((Grows-append base l.msgs _ refl h.0, h.1), c)
    forced-Ran left l a (call ∷ calls) n s h c = c

    pub finish-Ran :
        (left : ℕ) (l : Looped) (status : TurnStatus) (n : ℕ) (s : TurnState W)
        → Ran 0 left l
        → C s.context
        → Leaves Kept (Ran 0 left) (finish d digest tier l status n s)
    finish-Ran left l completed n s h c = (h, c)
    finish-Ran left l parked n s h c = (h, c)
    finish-Ran left l cap_hit n s h c =
        after_step C (Ran 0 left) _ _ n s c (λ a n s c. forced-Ran left l a a.tool_calls n s h c)
