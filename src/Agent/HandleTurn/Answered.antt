-- ===== src/Agent/HandleTurn/Answered.antt =====
-- Every call that the model makes is answered, in the transcript of a turn and in what it stores.
use ezra.Common.{
  ℕ, zero, suc, String, Bool, true, false, ◌&&◌, List, [], ◌∷◌, ◌++◌, map, str_eq, ◌≡◌, arith, drop,
  get_elem?,
}
use ezra.Hitl.Value.{ToolCall}
use ezra.Tools.{ToolResult}
use ezra.Agent.{TurnMessage, user, assistant, tool}
use ezra.Agent.Compaction.{is_user, build_compacted_transcript}

-- Each message with calls is followed by one result for each call, in the order of the calls, before
-- anything else. `asked` are the calls still to be answered.
abbrev pub answers_all : List String → List TurnMessage → Bool
answers_all [] [] = true
answers_all (id ∷ asked) [] = false
answers_all [] (user sender content ∷ ms) = answers_all [] ms
answers_all (id ∷ asked) (user sender content ∷ ms) = false
answers_all [] (assistant content calls ∷ ms) = answers_all (map (λ c. c.id) calls) ms
answers_all (id ∷ asked) (assistant content calls ∷ ms) = false
answers_all [] (tool id content ∷ ms) = false
answers_all (asked ∷ more) (tool id content ∷ ms) = str_eq id asked && answers_all more ms

-- The result of a call names it.
abbrev pub IsFor : ToolCall → ToolResult → Type 0
IsFor call r = r.tool_use_id ≡ call.id

pub answers_all-append :
    (asked : List String) (xs ys : List TurnMessage)
    → answers_all asked xs ≡ true
    → answers_all [] ys ≡ true
    → answers_all asked (xs ++ ys) ≡ true
answers_all-append [] [] ys h k = k
answers_all-append (id ∷ asked) [] ys h k = cc
answers_all-append [] (user s c ∷ xs) ys h k = answers_all-append [] xs ys h k
answers_all-append (id ∷ asked) (user s c ∷ xs) ys h k = cc
answers_all-append [] (assistant c calls ∷ xs) ys h k =
    answers_all-append (map (λ c. c.id) calls) xs ys h k
answers_all-append (id ∷ asked) (assistant c calls ∷ xs) ys h k = cc
answers_all-append [] (tool i c ∷ xs) ys h k = cc
answers_all-append (id ∷ asked) (tool i c ∷ xs) ys h k =
    ground (arith, answers_all-append asked xs ys)

pub cut-answers_all :
    (asked : List String) (xs : List TurnMessage) (i : ℕ)
    → answers_all asked xs ≡ true
    → is_user (get_elem? xs i) ≡ true
    → answers_all [] (drop i xs) ≡ true
cut-answers_all asked [] i h u = cc
cut-answers_all [] (user s c ∷ xs) zero h u = h
cut-answers_all (id ∷ asked) (user s c ∷ xs) i h u = cc
cut-answers_all asked (assistant c calls ∷ xs) zero h u = cc
cut-answers_all asked (tool id c ∷ xs) zero h u = cc
cut-answers_all [] (user s c ∷ xs) (suc i) h u = cut-answers_all [] xs i h u
cut-answers_all [] (assistant c calls ∷ xs) (suc i) h u =
    cut-answers_all (map (λ c. c.id) calls) xs i h u
cut-answers_all (id ∷ asked) (assistant c calls ∷ xs) (suc i) h u = cc
cut-answers_all [] (tool id c ∷ xs) (suc i) h u = cc
cut-answers_all (a ∷ asked) (tool id c ∷ xs) (suc i) h u =
    cut-answers_all asked xs i (ground arith) u

-- What a turn that starts from `old` and takes in `batch` may leave stored.
pub data Left (old batch : List TurnMessage) : List TurnMessage → Type 0 where
  kept : Left old batch old
  grown :
      (new : List TurnMessage) → answers_all [] new ≡ true → Left old batch ((old ++ batch) ++ new)
  shortened :
      (new : List TurnMessage) (summary : String) (cut : ℕ)
      → answers_all [] new ≡ true
      → is_user (get_elem? ((old ++ batch) ++ new) cut) ≡ true
      → Left old batch (build_compacted_transcript summary (drop cut ((old ++ batch) ++ new)))

pub Left-answers_all :
    (old batch ctx : List TurnMessage)
    → answers_all [] old ≡ true
    → answers_all [] batch ≡ true
    → Left old batch ctx
    → answers_all [] ctx ≡ true
unfolding build_compacted_transcript
Left-answers_all old batch _ h k kept = h
Left-answers_all old batch _ h k (grown new a) =
    answers_all-append [] (old ++ batch) new (answers_all-append [] old batch h k) a
Left-answers_all old batch _ h k (shortened new summary cut a u) =
    cut-answers_all [] ((old ++ batch) ++ new) cut
      (answers_all-append [] (old ++ batch) new (answers_all-append [] old batch h k) a) u
