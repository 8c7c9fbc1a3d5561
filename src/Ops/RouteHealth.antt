-- ===== src/Ops/RouteHealth.antt =====
-- `createRouteStreakLog` of src/ops/route-health.ts: the lines that tell when the judge starts and
-- stops failing.
pub mod Streaks
use ezra.Common.{ℕ, suc, ◌+◌, Bool, true, false, List, [], ◌∷◌, ◌++◌, ◌==◌, if◌then◌else◌}
use ezra.Agent.Route.Turn.{RouteSource, FailureKind, RouteDecision, jev, pre_rule, fallback_error}

pub data Line : Type 0 where
  streak_started : FailureKind → Line
  streak_ended : ℕ → Line

pub record RouteStreakLog : Type 0 where
  pub streak : ℕ
  pub lines : List Line

abbrev pub say_started : FailureKind → RouteStreakLog → RouteStreakLog
say_started kind l =
    if l.streak == 0 then record l { lines = l.lines ++ streak_started kind ∷ [] } else l

unfoldable pub observe_source : RouteSource → RouteStreakLog → RouteStreakLog
observe_source (pre_rule rule) l = l
observe_source (fallback_error kind) l = record (say_started kind l) { streak = suc l.streak }
observe_source jev l =
    if l.streak == 0
    then l
    else record { streak = 0; lines = l.lines ++ streak_ended l.streak ∷ [] }

unfoldable pub observe : RouteDecision → RouteStreakLog → RouteStreakLog
unfolding observe_source
observe decision l = observe_source decision.source l

unfoldable pub observe_all : List RouteDecision → RouteStreakLog → RouteStreakLog
unfolding observe
observe_all [] l = l
observe_all (d ∷ ds) l = observe_all ds (observe d l)
