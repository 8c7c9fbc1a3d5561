-- ===== src/Agent/HandleTurn/Keeps.antt =====
-- What each stage of the turn adds to the transcript, and what the turn leaves stored wherever it
-- stops.
pub mod Inbound
pub mod Rounds
pub mod Turn
use ezra.Common.{
  ℕ, zero, suc, ◌+◌, String, Bool, true, false, ◌&&◌, ◌||◌, Option, none, some, List, [], ◌∷◌, ◌++◌,
  map, str_eq, eq_refl, ◌≡◌, refl, sym, ap, ◌∙◌, arith, Attempt, returned, threw, drop, get_elem?,
  subst, append-nil, append_assoc, Bool-cases, Option-cases, inl, inr,
}
use ezra.Hitl.Value.{Value, ToolCall}
use ezra.Hitl.Resolve
use ezra.Hitl.Resolve.{ApprovalOutcome}
use ezra.Hitl.Refine
use ezra.Hitl.Refine.{RefineOutcome}
use ezra.Tools.{ToolResult}
use ezra.Agent.{TurnMessage, user, assistant, tool}
use ezra.Agent.Batch.{
  BatchItem, QuotedReply, extract_quoted_reply, extract_message_text, to_model_messages,
}
use ezra.Agent.Prompts.{PendingActionDigestEntry, render_approval_outcome}
use ezra.Agent.Relatedness.{RelatednessVerdict, approve, deny, unrelated, refine}
use ezra.Agent.HandleTurn.{
  HandleTurnDeps, RelatednessDeps, TurnState, AssistantMessage, TurnStatus, completed, parked,
  cap_hit, step, written,
}
use ezra.Agent.HandleTurn.Inbound.{
  update_message, outcome_message, Quotes, Quoted, Classified, put_item, resolve_quotes, target_of,
  classify_items, take_verdict, take_refined, take_text, take_target, relate,
}
use ezra.Agent.HandleTurn.Rounds.{
  said, answer_of, Answers, Looped, put_answer, answer_calls, closing, take_answers, take_calls,
  run_rounds, forced, finish,
}
use ezra.Agent.HandleTurn.Answered.{answers_all, IsFor, answers_all-append}
use ezra.Crash.{Run, Leaves, Returns, go_on-Leaves, ended-Leaves, effect, pure, go_on, ◌>>=◌, ended}

-- `msgs` is `base` and some messages more, in which every call is answered.
abbrev pub Grows : List TurnMessage → List TurnMessage → Type 0
Grows base msgs = (new : List TurnMessage) × (answers_all [] new ≡ true) × (msgs ≡ base ++ new)

pub Grows-same : (base : List TurnMessage) → Grows base base
Grows-same base = ([], refl, sym (append-nil base))

pub Grows-append :
    (base msgs new : List TurnMessage)
    → answers_all [] new ≡ true
    → Grows base msgs
    → Grows base (msgs ++ new)
Grows-append base msgs new a (old, b, e) = (
  old ++ new,
  answers_all-append [] old new b a,
  ap (λ m. m ++ new) e ∙ append_assoc base old new,
)

module _ {W : Type 0} (C : List TurnMessage → Type 0) where
  -- A step leaves the stored transcript alone.
  pub step-Leaves :
      {A : Type 0} (Q : A → Type 0) (f : W → Attempt A × W) (n : ℕ) (s : TurnState W)
      → Returns Q (f s.world).0
      → C s.context
      → Leaves (λ s. C s.context) Q (step f n s)
  step-Leaves Q f zero s q c = c
  step-Leaves Q f (suc n) s q c =
      ended-Leaves (λ s. C s.context) Q (f s.world).0 n
        (record { context = s.context; world = (f s.world).1 }) q c

pub Returns-Unit : {A : Type 0} (r : Attempt A) → Returns (λ _. Unit) r
Returns-Unit (returned a) = tt
Returns-Unit (threw e) = tt

module _ {W : Type 0} (C : List TurnMessage → Type 0) where
  -- A step, and what comes after it.
  pub after_step :
      {A B : Type 0} (R : B → Type 0) (f : W → Attempt A × W) (g : A → Run (TurnState W) B) (n : ℕ)
      (s : TurnState W)
      → C s.context
      → ((a : A) (n : ℕ) (s : TurnState W) → C s.context → Leaves (λ s. C s.context) R (g a n s))
      → Leaves (λ s. C s.context) R ((step f >>= g) n s)
  after_step R f g n s c next =
      go_on-Leaves (λ s. C s.context) (λ _. Unit) R g (step f n s)
        (step-Leaves C (λ _. Unit) f n s (Returns-Unit (f s.world).0) c) (λ a n s _ i. next a n s i)
