-- ===== src/Agent/HandleTurn/Keeps/Turn.antt =====
-- What a turn leaves stored wherever it stops, and the rounds that it took.
use ezra.Common.{
  ℕ, zero, suc, String, Bool, true, false, Option, none, some, List, [], ◌∷◌, ◌++◌, ◌≡◌, refl, sym,
  arith, Attempt, returned, threw, drop, get_elem?, subst, Bool-cases, inl, inr, ◌⊎◌,
}
use ezra.Hitl.Value.{Value, ToolCall}
use ezra.Agent.{TurnMessage}
use ezra.Agent.Batch.{BatchItem, to_model_messages}
use ezra.Agent.Route.{Tier}
use ezra.Agent.Prompts.{PendingActionDigestEntry, render_pending_actions_digest}
use ezra.Agent.HandleTurn.{HandleTurnDeps, TurnState, parked, written}
use ezra.Agent.HandleTurn.Rounds.{Looped, run_rounds, finish}
use ezra.Agent.HandleTurn.Answered.{answers_all, IsFor}
use ezra.Crash.{Ended, Leaves, Returns, go_on-Leaves, ended-Leaves}
use ezra.Agent.HandleTurn.Keeps.{Returns-Unit, Grows, Grows-append, step-Leaves, after_step}
use ezra.Agent.Batch.{to_model_messages}
use ezra.Agent.Compaction.{is_user, should_compact, find_compaction_cut, build_compacted_transcript}
use ezra.Agent.Compaction.Cuts.{IsLastCut, find_compaction_cut-IsLastCut}
use ezra.Agent.Route.Turn.{RouteTurnInput, RouteDecision}
use ezra.Agent.HandleTurn.{CompactionDeps, TurnResult, persist_context}
use ezra.Agent.HandleTurn.Inbound.{Reprompt, load_entries}
use ezra.Agent.HandleTurn.Turn.{
  compact, compact_if, close_turn, run_model, answer_turn, pick_tier, log_decision, reload_entries,
}
use ezra.Agent.HandleTurn.Answered.{Left, grown, shortened}
use ezra.Agent.HandleTurn.Keeps.Rounds.{Took, run_rounds-Ran, finish-Ran}

-- The rounds of a turn that may run `max` of them; a changed proposal is parked without any.
abbrev pub IsTurnResult : ℕ → TurnResult → Type 0
IsTurnResult max r = Took 0 max r.status r.rounds ⊎ ((r.status ≡ parked) × (r.rounds ≡ 0))

pub to_model_messages-answers_all :
    (stringify : Value → String) (batch : List BatchItem)
    → answers_all [] (to_model_messages stringify batch) ≡ true
unfolding to_model_messages
to_model_messages-answers_all stringify [] = refl
to_model_messages-answers_all stringify (i ∷ is) = to_model_messages-answers_all stringify is

module _ (old batch : List TurnMessage) where
  Grows-Left : (msgs : List TurnMessage) → Grows (old ++ batch) msgs → Left old batch msgs
  Grows-Left msgs (new, a, e) = subst (Left old batch) (sym e) (grown new a)

  cut-Left :
      (msgs : List TurnMessage) (summary : String) (cut : ℕ)
      → Grows (old ++ batch) msgs
      → is_user (get_elem? msgs cut) ≡ true
      → Left old batch (build_compacted_transcript summary (drop cut msgs))
  cut-Left msgs summary cut (new, a, e) u =
      subst (λ m. Left old batch (build_compacted_transcript summary (drop cut m))) (sym e)
        (shortened new summary cut a (subst (λ m. is_user (get_elem? m cut) ≡ true) e u))

  module _ {W : Type 0} (workflow : String) (d : HandleTurnDeps W)
      (is_for : (call : ToolCall) (w : W) → Returns (IsFor call) (d.run_tool call w).0) where
    abbrev Kept : TurnState W → Type 0
    Kept s = Left old batch s.context

    written-Left :
        (ctx msgs : List TurnMessage) (r : Attempt {0} Unit)
        → Left old batch ctx
        → Left old batch msgs
        → Left old batch (written ctx msgs r)
    written-Left ctx msgs (returned u) c h = h
    written-Left ctx msgs (threw e) c h = c

    persist-Leaves :
        (msgs : List TurnMessage) (n : ℕ) (s : TurnState W)
        → Left old batch msgs
        → Kept s
        → Leaves Kept (λ _. Unit) (persist_context d msgs n s)
    persist-Leaves msgs zero s h c = c
    persist-Leaves msgs (suc n) s h c =
        ended-Leaves Kept (λ _. Unit) (d.database s.world).0 n _
          (Returns-Unit (d.database s.world).0)
          (written-Left s.context msgs (d.database s.world).0 c h)

    -- The cut stands at a user message.
    compact-Leaves :
        (c : CompactionDeps W) (msgs : List TurnMessage) (o : Option ℕ) (n : ℕ) (s : TurnState W)
        → Grows (old ++ batch) msgs
        → IsLastCut msgs c.config 0 o
        → Kept s
        → Leaves Kept (λ _. Unit) (compact workflow d c msgs o n s)
    compact-Leaves c msgs none n s g k h = (tt, h)
    compact-Leaves c msgs (some cut) n s g k h =
        after_step (Left old batch) (λ _. Unit) _ _ n s h
          (λ summary n s h.
            after_step (Left old batch) (λ _. Unit) _ _ n s h
              (λ embedding n s h.
                after_step (Left old batch) (λ _. Unit) _ _ n s h
                  (λ _ n s h.
                    after_step (Left old batch) (λ _. Unit) _ _ n s h
                      (λ _ n s h.
                        go_on-Leaves Kept (λ _. Unit) (λ _. Unit) _ (persist_context d _ n s)
                          (persist-Leaves (build_compacted_transcript summary (drop cut msgs)) n s
                            (cut-Left msgs summary cut g (ground (arith, k.0))) h)
                          (λ _ n s _ h. (tt, h))))))

    compact_if-Leaves :
        (c : Option (CompactionDeps W)) (msgs : List TurnMessage) (n : ℕ) (s : TurnState W)
        → Grows (old ++ batch) msgs
        → Kept s
        → Leaves Kept (λ _. Unit) (compact_if workflow d c msgs n s)
    compact_if-Leaves none msgs n s g h = (tt, h)
    compact_if-Leaves (some c) msgs n s g h = elim (Bool-cases (should_compact msgs c.config)) [
      | inl long ↦ rw long (
          compact-Leaves c msgs (find_compaction_cut msgs c.config) n s g
            (find_compaction_cut-IsLastCut msgs c.config 0) h)
      | inr short ↦ rw short (tt, h)
    ]

    abbrev pub EndsWell : Ended TurnResult × ℕ × TurnState W → Type 0
    EndsWell = Leaves Kept (IsTurnResult d.max_rounds)

    close_turn-Leaves :
        (l : Looped) (n : ℕ) (s : TurnState W)
        → Grows (old ++ batch) l.msgs × Took 0 d.max_rounds l.status l.rounds
        → Kept s
        → EndsWell (close_turn workflow d l n s)
    close_turn-Leaves l n s g h =
        go_on-Leaves Kept (λ _. Unit) (IsTurnResult d.max_rounds) _ (persist_context d l.msgs n s)
          (persist-Leaves l.msgs n s (Grows-Left l.msgs g.0) h)
          (λ _ n s _ h.
            go_on-Leaves Kept (λ _. Unit) (IsTurnResult d.max_rounds) _
              (compact_if workflow d d.compaction l.msgs n s)
              (compact_if-Leaves d.compaction l.msgs n s g.0 h) (λ _ n s _ h. (inl g.1, h)))

    run_model-Leaves :
        (msgs : List TurnMessage) (entries : List PendingActionDigestEntry) (tier : Option Tier)
        (n : ℕ) (s : TurnState W)
        → Grows (old ++ batch) msgs
        → Kept s
        → EndsWell (run_model workflow d msgs entries tier n s)
    unfolding run_model
    run_model-Leaves msgs entries tier n s g h =
        let digest = render_pending_actions_digest d.eastern d.one_line entries in
        go_on-Leaves Kept _ (IsTurnResult d.max_rounds) _
          (run_rounds d digest tier d.max_rounds 0 msgs n s)
          (run_rounds-Ran (Left old batch) d is_for (old ++ batch) digest tier d.max_rounds 0 msgs n
            s g h)
          (λ l n s r h.
            go_on-Leaves Kept _ (IsTurnResult d.max_rounds) _ (finish d digest tier l l.status n s)
              (finish-Ran (Left old batch) d is_for (old ++ batch) digest tier d.max_rounds l
                l.status n s r h)
              (λ l n s r h. close_turn-Leaves l n s r h))

    log_decision-Leaves :
        (log : Option (RouteDecision → W → Attempt Bool × W)) (decision : RouteDecision) (n : ℕ)
        (s : TurnState W)
        → Kept s
        → Leaves Kept (λ _. Unit) (log_decision workflow d log decision n s)
    log_decision-Leaves none decision n s h = (tt, h)
    log_decision-Leaves (some log) decision n s h =
        after_step (Left old batch) (λ _. Unit) _ _ n s h (λ _ n s h. (tt, h))

    pick_tier-Leaves :
        (route : Option (RouteTurnInput → W → RouteDecision × W)) (input : RouteTurnInput) (n : ℕ)
        (s : TurnState W)
        → Kept s
        → Leaves Kept (λ _. Unit) (pick_tier workflow d route input n s)
    pick_tier-Leaves none input n s h = (tt, h)
    pick_tier-Leaves (some route) input n s h =
        after_step (Left old batch) (λ _. Unit)
          (λ w. (returned (route input w).0, (route input w).1)) _ n s h
          (λ decision n s h. log_decision-Leaves d.log_route decision n s h)

    pub answer_turn-Leaves :
        (prior : List TurnMessage) (items : List BatchItem) (msgs : List TurnMessage)
        (entries : List PendingActionDigestEntry) (r : Option Reprompt) (n : ℕ) (s : TurnState W)
        → Grows (old ++ batch) msgs
        → Kept s
        → EndsWell (answer_turn workflow d prior items msgs entries r n s)
    unfolding answer_turn
    answer_turn-Leaves prior items msgs entries (some r) n s g h =
        go_on-Leaves Kept (λ _. Unit) (IsTurnResult d.max_rounds) _ (persist_context d _ n s)
          (persist-Leaves _ n s (Grows-Left _ (Grows-append (old ++ batch) msgs _ refl g)) h)
          (λ _ n s _ h. (inr (refl, refl), h))
    answer_turn-Leaves prior items msgs entries none n s g h =
        go_on-Leaves Kept (λ _. Unit) (IsTurnResult d.max_rounds) _
          (pick_tier workflow d d.route_turn _ n s) (pick_tier-Leaves d.route_turn _ n s h)
          (λ tier n s _ h. run_model-Leaves msgs entries tier n s g h)

    pub entries-Leaves :
        (load : Option (W → Attempt (List PendingActionDigestEntry) × W)) (n : ℕ) (s : TurnState W)
        → Kept s
        → Leaves Kept (λ _. Unit) (load_entries load n s)
    unfolding load_entries
    entries-Leaves none n s h = (tt, h)
    entries-Leaves (some load) n s h =
        step-Leaves (Left old batch) (λ _. Unit) load n s (Returns-Unit (load s.world).0) h

    pub reload-Leaves :
        (changed : Bool) (load : Option (W → Attempt (List PendingActionDigestEntry) × W))
        (es : List PendingActionDigestEntry) (n : ℕ) (s : TurnState W)
        → d.load_pending_digest ≡ load
        → Kept s
        → Leaves Kept (λ _. Unit) (reload_entries workflow d changed es n s)
    reload-Leaves false load es n s e h = (tt, h)
    reload-Leaves true none es n s e h = rw e (tt, h)
    reload-Leaves true (some load) es n s e h =
        rw e (step-Leaves (Left old batch) (λ _. Unit) load n s (Returns-Unit (load s.world).0) h)
