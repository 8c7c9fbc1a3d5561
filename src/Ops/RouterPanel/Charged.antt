-- ===== src/Ops/RouterPanel/Charged.antt =====
-- The streak of fallbacks is the newest rows', and every correction is charged to the turn before it.
use mathlib.Core.List.{reverse}
use ezra.Common.{
  ℕ, zero, suc, ◌+◌, String, true, false, not, ◌&&◌, Option, none, some, List, [], ◌∷◌, ◌++◌,
  str_eq, eq_iff, if◌then◌else◌, take, select, leb, ◌≡◌, refl, arith, ap, ◌∙◌, Bool-cases, inl, inr,
}
use ezra.Common.Sorting.{sort}
use ezra.Ops.RouterPanel.{
  RouteLogRow, is_fallback, is_pre_rule, streak_of, Grouped, count_of, bump, Counts, Charges,
  corrects, charge, charge_list, charge_all, derive_router_health, push, group,
}

-- The first `n` rows are fallbacks, and the next one, if there is one, is none.
abbrev pub IsStreak : ℕ → List RouteLogRow → Type 0
IsStreak zero [] = Unit
IsStreak zero (r ∷ rs) = is_fallback r ≡ false
IsStreak (suc n) [] = ⊥
IsStreak (suc n) (r ∷ rs) = (is_fallback r ≡ true) × IsStreak n rs

streak_of-IsStreak : (rs : List RouteLogRow) → IsStreak (streak_of rs) rs
unfolding streak_of
streak_of-IsStreak [] = tt
streak_of-IsStreak (r ∷ rs) = elim (Bool-cases (is_fallback r)) [
  | inl h ↦ rw h (h, streak_of-IsStreak rs)
  | inr h ↦ rw h h
]

-- What a turn charges to a tier, if this turn stood before it.
abbrev pub bonus : String → Option RouteLogRow → RouteLogRow → ℕ
bonus t none r = 0
bonus t (some b) r = if corrects r.answers && str_eq b.tier t then 1 else 0

-- The newest of the earlier turns of a conversation, from the newest on.
abbrev pub previous : String → List RouteLogRow → Option RouteLogRow
previous conversation [] = none
previous conversation (r ∷ rs) =
    if str_eq r.conversation_id conversation then some r else previous conversation rs

-- How many of the turns, oldest first, correct one of the tier that stands before them in their
-- conversation.
abbrev pub charged : String → List RouteLogRow → List RouteLogRow → ℕ
charged t [] earlier = 0
charged t (r ∷ rs) earlier =
    bonus t (previous r.conversation_id earlier) r + charged t rs (r ∷ earlier)

count_of-bump :
    (t tier : String) (m : Counts)
    → count_of t (bump tier m) ≡ (if str_eq tier t then suc (count_of t m) else count_of t m)
unfolding count_of bump
count_of-bump t tier [] = ground arith
count_of-bump t tier ((u, n) ∷ m) =
    ground (arith, eq_iff u tier, eq_iff u t, eq_iff tier t, count_of-bump t tier m)

charge-bonus :
    (t : String) (before : Option RouteLogRow) (r : RouteLogRow) (c : Charges)
    → count_of t (charge before r c).corrections ≡ count_of t c.corrections + bonus t before r
charge-bonus t none r c = omega arith
charge-bonus t (some b) r c = ground (arith, count_of-bump t b.tier c.corrections)

abbrev pairs : String → Option RouteLogRow → List RouteLogRow → ℕ
pairs t before [] = 0
pairs t before (r ∷ rs) = bonus t before r + pairs t (some r) rs

charge_list-pairs :
    (t : String) (rs : List RouteLogRow) (before : Option RouteLogRow) (c : Charges)
    → count_of t (charge_list before rs c).corrections
      ≡ count_of t c.corrections + pairs t before rs
unfolding charge_list
charge_list-pairs t [] before c = omega arith
charge_list-pairs t (r ∷ rs) before c =
    omega (arith, charge-bonus t before r c, charge_list-pairs t rs (some r) (charge before r c))

abbrev total : String → Grouped → ℕ
total t [] = 0
total t ((conversation, list) ∷ groups) = pairs t none list + total t groups

charge_all-total :
    (t : String) (groups : Grouped) (c : Charges)
    → count_of t (charge_all groups c).corrections ≡ count_of t c.corrections + total t groups
unfolding charge_all
charge_all-total t [] c = omega arith
charge_all-total t ((conversation, list) ∷ groups) c =
    omega
      (arith, charge_list-pairs t list none c, charge_all-total t groups (charge_list none list c))

abbrev last_or : Option RouteLogRow → List RouteLogRow → Option RouteLogRow
last_or before [] = before
last_or before (r ∷ rs) = last_or (some r) rs

last_or-append :
    (before : Option RouteLogRow) (rs : List RouteLogRow) (r : RouteLogRow)
    → last_or before (rs ++ r ∷ []) ≡ some r
last_or-append before [] r = refl
last_or-append before (x ∷ rs) r = last_or-append (some x) rs r

pairs-append :
    (t : String) (before : Option RouteLogRow) (rs : List RouteLogRow) (r : RouteLogRow)
    → pairs t before (rs ++ r ∷ []) ≡ pairs t before rs + bonus t (last_or before rs) r
pairs-append t before [] r = omega arith
pairs-append t before (x ∷ rs) r = omega (arith, pairs-append t (some x) rs r)

-- The last turn of a conversation's group.
abbrev last_of : String → Grouped → Option RouteLogRow
last_of conversation [] = none
last_of conversation ((c, list) ∷ groups) =
    if str_eq c conversation then last_or none list else last_of conversation groups

total-push :
    (t : String) (r : RouteLogRow) (groups : Grouped)
    → total t (push r groups) ≡ total t groups + bonus t (last_of r.conversation_id groups) r
unfolding push
total-push t r [] = omega arith
total-push t r ((c, list) ∷ groups) = elim (Bool-cases (str_eq c r.conversation_id)) [
  | inl h ↦ rw h (omega (arith, pairs-append t none list r))
  | inr h ↦ rw h (omega (arith, total-push t r groups))
]

last_of-push :
    (conversation : String) (r : RouteLogRow) (groups : Grouped)
    → last_of conversation (push r groups)
      ≡ (if str_eq r.conversation_id conversation then some r else last_of conversation groups)
unfolding push
last_of-push k r [] = refl
last_of-push k r ((c, list) ∷ groups) = ground (
  arith,
  eq_iff c r.conversation_id,
  eq_iff c k,
  eq_iff r.conversation_id k,
  last_or-append none list r,
  last_of-push k r groups,
)

group-charged :
    (t : String) (rs : List RouteLogRow) (groups : Grouped) (earlier : List RouteLogRow)
    → ((k : String) → last_of k groups ≡ previous k earlier)
    → total t (group rs groups) ≡ total t groups + charged t rs earlier
unfolding group
group-charged t [] groups earlier h = omega arith
group-charged t (r ∷ rs) groups earlier h =
    let rest = group-charged t rs (push r groups) (r ∷ earlier) (λ k.
      last_of-push k r groups ∙ ap (λ x. if str_eq r.conversation_id k then some r else x) (h k)) in
    omega (arith, rest, total-push t r groups, ap (λ x. bonus t x r) (h r.conversation_id))

abbrev pub newest_first : List RouteLogRow → List RouteLogRow
newest_first rows = sort (λ a b. leb b.created_at a.created_at) rows

-- Over whatever was logged: the streak is the number of fallbacks before the first other row among the
-- newest twenty that no rule decided beforehand, and a tier is charged with exactly those turns,
-- oldest first, that correct a turn of its that stands right before them in their conversation.
pub derive_router_health-Charged :
    (now turns : ℕ) (rows : List RouteLogRow) (tier : String)
    → IsStreak
        (derive_router_health now turns rows).streak
        (take 20 (select (λ r. not (is_pre_rule r)) (newest_first rows)))
      × (count_of tier (derive_router_health now turns rows).charges.corrections
          ≡ charged tier (reverse (newest_first rows)) [])
unfolding derive_router_health count_of
derive_router_health-Charged now turns rows tier = (
  streak_of-IsStreak (take 20 (select (λ r. not (is_pre_rule r)) (newest_first rows))),
  omega (
    arith,
    charge_all-total tier (group (reverse (newest_first rows)) [])
        (record { turns = []; corrections = [] }),
    group-charged tier (reverse (newest_first rows)) [] [] (λ k. refl),
  ),
)
