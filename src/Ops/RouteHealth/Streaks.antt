-- ===== src/Ops/RouteHealth/Streaks.antt =====
-- The lines take turns, and each end tells how many turns fell back.
use ezra.Common.{
  ℕ, suc, Bool, true, false, List, [], ◌∷◌, ◌++◌, ◌==◌, ◌≡◌, refl, arith, Bool-cases, inl, inr, not,
  Option, none, some, ap, ◌∙◌, sym, subst,
}
use ezra.Agent.Route.Turn.{RouteSource, FailureKind, RouteDecision, jev, pre_rule, fallback_error}
use ezra.Ops.RouteHealth.{
  Line, streak_started, streak_ended, RouteStreakLog, observe_source, observe, observe_all,
}

-- Whether the judge is failing after some lines; nothing where an end does not follow a start, or a
-- start follows a start.
abbrev pub phase : Bool → List Line → Option Bool
phase failing [] = some failing
phase false (streak_started kind ∷ ls) = phase true ls
phase true (streak_started kind ∷ ls) = none
phase true (streak_ended n ∷ ls) = phase false ls
phase false (streak_ended n ∷ ls) = none

positive : (n : ℕ) → (suc n == 0) ≡ false
positive n = ground arith

same_phase : (a b : Bool) → some a ≡ some b → a ≡ b
same_phase a b h = cc

phase-snoc :
    (failing now : Bool) (ls : List Line) (l : Line)
    → phase failing ls ≡ some now
    → phase failing (ls ++ l ∷ []) ≡ phase now (l ∷ [])
phase-snoc failing now [] l h =
    subst (λ b. phase failing (l ∷ []) ≡ phase b (l ∷ [])) (same_phase failing now h) refl
phase-snoc false now (streak_started kind ∷ ls) l h = phase-snoc true now ls l h
phase-snoc true now (streak_started kind ∷ ls) l h = cc
phase-snoc true now (streak_ended n ∷ ls) l h = phase-snoc false now ls l h
phase-snoc false now (streak_ended n ∷ ls) l h = cc

-- The lines take turns, and the last one is a start just where a streak is on.
abbrev pub IsTold : RouteStreakLog → Type 0
IsTold l = phase false l.lines ≡ some (not (l.streak == 0))

started-IsTold :
    (kind : FailureKind) (l : RouteStreakLog)
    → IsTold l
    → IsTold (observe_source (fallback_error kind) l)
unfolding observe_source
started-IsTold kind l h = elim (Bool-cases (l.streak == 0)) [
  | inl z ↦ rw z (
      phase-snoc false false l.lines (streak_started kind) (h ∙ ap (λ b. some (not b)) z)
      ∙ ap (λ b. some (not b)) (sym (positive l.streak)))
  | inr p ↦ rw p (h ∙ ap (λ b. some (not b)) (p ∙ sym (positive l.streak)))
]

ended-IsTold : (l : RouteStreakLog) → IsTold l → IsTold (observe_source jev l)
unfolding observe_source
ended-IsTold l h = elim (Bool-cases (l.streak == 0)) [
  | inl z ↦ rw z h
  | inr p ↦
      rw p (phase-snoc false true l.lines (streak_ended l.streak) (h ∙ ap (λ b. some (not b)) p))
]

observe_source-IsTold :
    (s : RouteSource) (l : RouteStreakLog) → IsTold l → IsTold (observe_source s l)
unfolding observe_source
observe_source-IsTold (pre_rule rule) l h = h
observe_source-IsTold (fallback_error kind) l h = started-IsTold kind l h
observe_source-IsTold jev l h = ended-IsTold l h

-- However the turns are decided, the lines start with the start of a streak and take turns from then
-- on, and the last line is a start just where the judge was failing when last asked.
pub observe_all-IsTold :
    (ds : List RouteDecision) (l : RouteStreakLog) → IsTold l → IsTold (observe_all ds l)
unfolding observe_all observe
observe_all-IsTold [] l h = h
observe_all-IsTold (d ∷ ds) l h =
    observe_all-IsTold ds (observe_source d.source l) (observe_source-IsTold d.source l h)
