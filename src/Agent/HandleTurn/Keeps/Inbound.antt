-- ===== src/Agent/HandleTurn/Keeps/Inbound.antt =====
-- Before the model is asked the transcript only grows, and nothing is stored.
use ezra.Common.{ℕ, String, true, Option, none, some, List, [], ◌∷◌, ◌++◌, ◌≡◌, refl, Attempt}
use ezra.Hitl.Resolve
use ezra.Hitl.Resolve.{ApprovalOutcome}
use ezra.Hitl.Refine
use ezra.Hitl.Refine.{RefineOutcome}
use ezra.Agent.{TurnMessage}
use ezra.Agent.Batch.{BatchItem, QuotedReply, extract_quoted_reply, extract_message_text}
use ezra.Agent.Prompts.{PendingActionDigestEntry, render_approval_outcome}
use ezra.Agent.Relatedness.{RelatednessVerdict, approve, deny, unrelated, refine}
use ezra.Agent.HandleTurn.{RelatednessDeps, TurnState}
use ezra.Agent.HandleTurn.Inbound.{
  update_message, outcome_message, Quotes, Quoted, Classified, take_quote, resolve_quotes,
  target_of, classify_items, take_verdict, take_refined, take_text, take_target, relate,
}
use ezra.Agent.HandleTurn.Answered.{answers_all}
use ezra.Crash.{Ended, Run, Leaves, go_on-Leaves}
use ezra.Agent.HandleTurn.Keeps.{Grows, Grows-append, after_step}

update_message-answers_all : (o : Option String) → answers_all [] (update_message o) ≡ true
update_message-answers_all none = refl
update_message-answers_all (some u) = refl

Grows-outcome :
    (base msgs : List TurnMessage) (o : ApprovalOutcome) (i : BatchItem)
    → Grows base msgs
    → Grows base (msgs ++ outcome_message o i)
Grows-outcome base msgs o i g =
    Grows-append base msgs (outcome_message o i)
      (update_message-answers_all (render_approval_outcome o i.sender_id)) g

module _ {W : Type 0} (C : List TurnMessage → Type 0) (base : List TurnMessage) where
  abbrev Kept : TurnState W → Type 0
  Kept s = C s.context

  abbrev GrownQuotes : Ended Quotes × ℕ × TurnState W → Type 0
  GrownQuotes = Leaves Kept (λ q. Grows base q.msgs)

  take_quote-Grows :
      (resolve : String → String → W → Attempt ApprovalOutcome × W)
      (again : List TurnMessage → Run (TurnState W) Quotes) (i : BatchItem)
      (msgs : List TurnMessage) (quote : Option QuotedReply) (n : ℕ) (s : TurnState W)
      → Grows base msgs
      → C s.context
      → ((msgs : List TurnMessage) (n : ℕ) (s : TurnState W)
          → Grows base msgs
          → C s.context
          → GrownQuotes (again msgs n s))
      → GrownQuotes (take_quote resolve again i msgs quote n s)
  take_quote-Grows resolve again i msgs none n s g c next =
      go_on-Leaves Kept (λ q. Grows base q.msgs) (λ q. Grows base q.msgs) _ (again msgs n s)
        (next msgs n s g c) (λ q n s g c. (g, c))
  take_quote-Grows resolve again i msgs (some quoted) n s g c next =
      after_step C (λ q. Grows base q.msgs) (resolve quoted.quoted_message_id quoted.text) _ n s c
        (λ o n s c.
          go_on-Leaves Kept (λ q. Grows base q.msgs) (λ q. Grows base q.msgs) _
            (again (msgs ++ outcome_message o i) n s)
            (next (msgs ++ outcome_message o i) n s (Grows-outcome base msgs o i g) c)
            (λ q n s g c. (g, c)))

  pub resolve_quotes-Grows :
      (resolve : Option (String → String → W → Attempt ApprovalOutcome × W)) (is : List BatchItem)
      (msgs : List TurnMessage) (n : ℕ) (s : TurnState W)
      → Grows base msgs
      → C s.context
      → GrownQuotes (resolve_quotes resolve is msgs n s)
  unfolding resolve_quotes
  resolve_quotes-Grows none is msgs n s g c = (g, c)
  resolve_quotes-Grows (some resolve) [] msgs n s g c = (g, c)
  resolve_quotes-Grows (some resolve) (i ∷ is) msgs n s g c =
      take_quote-Grows resolve (resolve_quotes (some resolve) is) i msgs (extract_quoted_reply i) n
        s g c (λ msgs n s g c. resolve_quotes-Grows (some resolve) is msgs n s g c)

  module _ (r : RelatednessDeps W) (recent : String) (msgs : List TurnMessage) where
    abbrev Grown : Ended Classified × ℕ × TurnState W → Type 0
    Grown = Leaves Kept (λ q. Grows base q.msgs)

    take_refined-Grows :
        (again : Run (TurnState W) Classified) (i : BatchItem) (o : RefineOutcome) (n : ℕ)
        (s : TurnState W)
        → Grows base msgs
        → C s.context
        → ((n : ℕ) (s : TurnState W) → C s.context → Grown (again n s))
        → Grown (take_refined r recent msgs again i o n s)
    take_refined-Grows again i Refine.unbound n s g c next = next n s c
    take_refined-Grows again i (Refine.invalid id t) n s g c next = next n s c
    take_refined-Grows again i (Refine.refined id t u) n s g c next = (g, c)
    take_refined-Grows again i (Refine.already_resolved id t) n s g c next =
        (Grows-outcome base msgs (Resolve.already_resolved id t) i g, c)

    take_verdict-Grows :
        (again : Run (TurnState W) Classified) (i : BatchItem) (e : PendingActionDigestEntry)
        (v : RelatednessVerdict) (n : ℕ) (s : TurnState W)
        → Grows base msgs
        → C s.context
        → ((n : ℕ) (s : TurnState W) → C s.context → Grown (again n s))
        → Grown (take_verdict r recent msgs again i e v n s)
    take_verdict-Grows again i e approve n s g c next =
        after_step C (λ q. Grows base q.msgs) (r.resolve_decision e.action_id Resolve.approve) _ n s
          c (λ o n s c. (Grows-outcome base msgs o i g, c))
    take_verdict-Grows again i e deny n s g c next =
        after_step C (λ q. Grows base q.msgs) (r.resolve_decision e.action_id Resolve.deny) _ n s c
          (λ o n s c. (Grows-outcome base msgs o i g, c))
    take_verdict-Grows again i e unrelated n s g c next = next n s c
    take_verdict-Grows again i e (refine args) n s g c next =
        after_step C (λ q. Grows base q.msgs) (r.refine e.action_id args) _ n s c
          (λ o n s c. take_refined-Grows again i o n s g c next)

    take_text-Grows :
        (again : Run (TurnState W) Classified) (i : BatchItem) (e : PendingActionDigestEntry)
        (text : Option String) (n : ℕ) (s : TurnState W)
        → Grows base msgs
        → C s.context
        → ((n : ℕ) (s : TurnState W) → C s.context → Grown (again n s))
        → Grown (take_text r recent msgs again i e text n s)
    take_text-Grows again i e none n s g c next = next n s c
    take_text-Grows again i e (some text) n s g c next =
        after_step C (λ q. Grows base q.msgs) (r.classify _) _ n s c
          (λ v n s c. take_verdict-Grows again i e v n s g c next)

    take_target-Grows :
        (again : Run (TurnState W) Classified) (i : BatchItem) (e : Option PendingActionDigestEntry)
        (n : ℕ) (s : TurnState W)
        → Grows base msgs
        → C s.context
        → ((n : ℕ) (s : TurnState W) → C s.context → Grown (again n s))
        → Grown (take_target r recent msgs again i e n s)
    take_target-Grows again i none n s g c next = next n s c
    take_target-Grows again i (some e) n s g c next =
        take_text-Grows again i e (extract_message_text i) n s g c next

    pub classify_items-Grows :
        (qs : List Quoted) (es : List PendingActionDigestEntry) (n : ℕ) (s : TurnState W)
        → Grows base msgs
        → C s.context
        → Grown (classify_items r recent msgs qs es n s)
    unfolding classify_items
    classify_items-Grows [] es n s g c = (g, c)
    classify_items-Grows (q ∷ qs) es n s g c =
        take_target-Grows (classify_items r recent msgs qs es) q.item (target_of q.prior es) n s g c
          (λ n s c. classify_items-Grows qs es n s g c)

  pub relate-Grows :
      (r : Option (RelatednessDeps W)) (recent : String) (q : Quotes)
      (es : List PendingActionDigestEntry) (n : ℕ) (s : TurnState W)
      → Grows base q.msgs
      → C s.context
      → Leaves Kept (λ q. Grows base q.msgs) (relate r recent q es n s)
  unfolding relate
  relate-Grows none recent q es n s g c = (g, c)
  relate-Grows (some r) recent q [] n s g c = (g, c)
  relate-Grows (some r) recent q (e ∷ es) n s g c =
      classify_items-Grows r recent q.msgs q.items (e ∷ es) n s g c
