-- ===== src/Agent/HandleTurn/Targets.antt =====
-- The classifier is never asked to guess which action a message is about.
use ezra.Common.{
  ℕ, String, Bool, true, false, not, Option, none, some, List, [], ◌∷◌, length, ltb, all, ◌≡◌, refl,
  arith,
}
use ezra.Hitl.Resolve
use ezra.Hitl.Resolve.{ApprovalOutcome}
use ezra.Agent.{TurnMessage}
use ezra.Agent.Prompts.{PendingActionDigestEntry}
use ezra.Agent.HandleTurn.{RelatednessDeps, TurnState}
use ezra.Agent.HandleTurn.Inbound.{Quoted, Quotes, target_of, classify_items, relate}
use ezra.Crash.{done}

abbrev pub is_unclear : Option ApprovalOutcome → Bool
is_unclear (some (Resolve.unclear id)) = true
is_unclear _ = false

no_target :
    (prior : Option ApprovalOutcome) (e f : PendingActionDigestEntry)
    (es : List PendingActionDigestEntry)
    → is_unclear prior ≡ false
    → target_of prior (e ∷ f ∷ es) ≡ none
unfolding target_of
no_target none e f es h = refl
no_target (some Resolve.unbound) e f es h = refl
no_target (some (Resolve.unclear i)) e f es h = cc
no_target (some (Resolve.executed i t r)) e f es h = refl
no_target (some (Resolve.denied i t)) e f es h = refl
no_target (some (Resolve.stale i t)) e f es h = refl
no_target (some (Resolve.failed i t m)) e f es h = refl
no_target (some (Resolve.already_resolved i t)) e f es h = refl

module _ {W : Type 0} (r : RelatednessDeps W) (recent : String) where
  no_classification :
      (msgs : List TurnMessage) (qs : List Quoted) (e f : PendingActionDigestEntry)
      (es : List PendingActionDigestEntry) (n : ℕ) (s : TurnState W)
      → all (λ q. not (is_unclear q.prior)) qs ≡ true
      → classify_items r recent msgs qs (e ∷ f ∷ es) n s
        ≡ (done (record { msgs = msgs; reprompt = none; changed = false }), n, s)
  unfolding classify_items
  no_classification msgs [] e f es n s h = refl
  no_classification msgs (q ∷ qs) e f es n s h =
      rw (no_target q.prior e f es (ground arith))
        (no_classification msgs qs e f es n s (ground arith))

  -- Where at least two actions are pending and no item of the batch quotes a prompt unclearly, no
  -- step is taken to classify: neither the classifier nor a decision nor a change is called, and the
  -- transcript stays as the quotes left it.
  pub relate_guesses_nothing :
      (q : Quotes) (es : List PendingActionDigestEntry) (n : ℕ) (s : TurnState W)
      → ltb 1 (length es) ≡ true
      → all (λ i. not (is_unclear i.prior)) q.items ≡ true
      → relate (some r) recent q es n s
        ≡ (done (record { msgs = q.msgs; reprompt = none; changed = false }), n, s)
  unfolding relate
  relate_guesses_nothing q [] n s two h = refl
  relate_guesses_nothing q (e ∷ []) n s two h = ground arith
  relate_guesses_nothing q (e ∷ f ∷ es) n s two h = no_classification q.msgs q.items e f es n s h
