-- ===== src/Agent/Compaction/Cuts.antt =====
-- The cut is the last one that leaves enough, and it never parts a tool result from its call.
use ezra.Common.{
  ℕ, zero, suc, ◌+◌, ◌-◌, ◌≤◌, ◌<◌, min, String, Bool, true, false, ◌&&◌, Option, none, some, List,
  [], ◌∷◌, str_eq, ltb, leb, any, map, length, get_elem?, drop, ◌≡◌, arith, Bool-cases, inl, inr,
}
use ezra.Agent.{TurnMessage, user, assistant, tool}
use ezra.Agent.Compaction.{
  CompactionConfig, is_user, scan_down, find_compaction_cut, build_compacted_transcript,
  should_compact, compacted, persisted,
}

-- A place where the transcript may be cut.
abbrev pub admissible : List TurnMessage → CompactionConfig → ℕ → Bool
admissible msgs config i =
    leb 1 i && (leb (i + config.keep_messages) (length msgs) && is_user (get_elem? msgs i))

-- Nothing above `i` up to `j`, unless `j` is `i`.
abbrev pub IsLastCut : List TurnMessage → CompactionConfig → ℕ → Option ℕ → Type 0
IsLastCut msgs config j none = admissible msgs config j ≡ false
IsLastCut msgs config j (some i) =
    (admissible msgs config i ≡ true) × ((admissible msgs config j && ltb i j) ≡ false)

-- What the loop from `n` on finds.
abbrev Found : List TurnMessage → ℕ → ℕ → Option ℕ → Type 0
Found msgs n j none = (leb 1 j && (leb j n && is_user (get_elem? msgs j))) ≡ false
Found msgs n j (some i) =
    (1 ≤ i)
    × (i ≤ n)
    × (is_user (get_elem? msgs i) ≡ true)
    × ((ltb i j && (leb j n && is_user (get_elem? msgs j))) ≡ false)

not_next :
    (msgs : List TurnMessage) (n j : ℕ)
    → is_user (get_elem? msgs (suc n)) ≡ false
    → j ≡ suc n
    → is_user (get_elem? msgs j) ≡ false
not_next msgs n j h e = rw e h

Found-up :
    (msgs : List TurnMessage) (n j : ℕ) (o : Option ℕ)
    → is_user (get_elem? msgs (suc n)) ≡ false
    → Found msgs n j o
    → Found msgs (suc n) j o
Found-up msgs n j none h f = ground (arith, not_next msgs n j h)
Found-up msgs n j (some i) h f = ground (arith, not_next msgs n j h)

scan_down-Found : (msgs : List TurnMessage) (n j : ℕ) → Found msgs n j (scan_down msgs n)
unfolding scan_down
scan_down-Found msgs zero j = ground arith
scan_down-Found msgs (suc n) j = elim (Bool-cases (is_user (get_elem? msgs (suc n)))) [
  | inl h ↦ rw h (omega arith, omega arith, h, ground arith)
  | inr h ↦ rw h (Found-up msgs n j (scan_down msgs n) h (scan_down-Found msgs n j))
]

user-inside :
    (msgs : List TurnMessage) (i : ℕ) → is_user (get_elem? msgs i) ≡ true → i < length msgs
user-inside [] i h = cc
user-inside (m ∷ msgs) zero h = omega arith
user-inside (m ∷ msgs) (suc i) h = omega (arith, user-inside msgs i h)

Found-IsLastCut :
    (msgs : List TurnMessage) (config : CompactionConfig) (j : ℕ) (o : Option ℕ)
    → Found msgs (min (length msgs - config.keep_messages) (length msgs - 1)) j o
    → IsLastCut msgs config j o
Found-IsLastCut msgs config j none f = ground (arith, user-inside msgs j)
Found-IsLastCut msgs config j (some i) f = ground (arith, user-inside msgs j, user-inside msgs i)

-- Against any other place `j`: a cut that is found stands at a user message past the first message,
-- leaves the messages to keep, and no later place does; if none is found, there is no such place.
pub find_compaction_cut-IsLastCut :
    (msgs : List TurnMessage) (config : CompactionConfig) (j : ℕ)
    → IsLastCut msgs config j (find_compaction_cut msgs config)
unfolding find_compaction_cut
find_compaction_cut-IsLastCut msgs config j =
    Found-IsLastCut msgs config j _ (scan_down-Found msgs _ j)

-- Every tool result follows the call that it answers, with no user message between. `asked` are the
-- calls that a result may answer.
abbrev pub answers_calls : List String → List TurnMessage → Bool
answers_calls asked [] = true
answers_calls asked (user sender content ∷ ms) = answers_calls [] ms
answers_calls asked (assistant content calls ∷ ms) = answers_calls (map (λ c. c.id) calls) ms
answers_calls asked (tool id content ∷ ms) = any (str_eq id) asked && answers_calls asked ms

-- What follows a user message does not depend on what came before.
cut-answers_calls :
    (asked : List String) (msgs : List TurnMessage) (i : ℕ)
    → answers_calls asked msgs ≡ true
    → is_user (get_elem? msgs i) ≡ true
    → answers_calls [] (drop i msgs) ≡ true
cut-answers_calls asked [] i h u = cc
cut-answers_calls asked (user s c ∷ ms) zero h u = h
cut-answers_calls asked (assistant c calls ∷ ms) zero h u = cc
cut-answers_calls asked (tool id c ∷ ms) zero h u = cc
cut-answers_calls asked (user s c ∷ ms) (suc i) h u = cut-answers_calls [] ms i h u
cut-answers_calls asked (assistant c calls ∷ ms) (suc i) h u = cut-answers_calls _ ms i h u
cut-answers_calls asked (tool id c ∷ ms) (suc i) h u = cut-answers_calls asked ms i (ground arith) u

compacted-answers_calls :
    (summarize : List TurnMessage → String) (config : CompactionConfig) (msgs : List TurnMessage)
    (o : Option ℕ)
    → answers_calls [] msgs ≡ true
    → IsLastCut msgs config 0 o
    → answers_calls [] (compacted summarize msgs o) ≡ true
unfolding build_compacted_transcript
compacted-answers_calls summarize config msgs none h c = h
compacted-answers_calls summarize config msgs (some i) h c =
    cut-answers_calls [] msgs i h (ground (arith, c.0))

-- If in the transcript of a turn every tool result follows its call with no user message between,
-- then the same holds of the transcript that the turn leaves behind, compacted or not.
pub persisted-answers_calls :
    (summarize : List TurnMessage → String) (config : CompactionConfig) (msgs : List TurnMessage)
    → answers_calls [] msgs ≡ true
    → answers_calls [] (persisted summarize config msgs) ≡ true
unfolding persisted
persisted-answers_calls summarize config msgs h = elim (Bool-cases (should_compact msgs config)) [
  | inl long ↦ rw long (
      compacted-answers_calls summarize config msgs _ h
        (find_compaction_cut-IsLastCut msgs config 0))
  | inr short ↦ rw short h
]
