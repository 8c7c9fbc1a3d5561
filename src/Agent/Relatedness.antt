-- ===== src/Agent/Relatedness.antt =====
-- src/agent/relatedness.ts: what the classifier's answer about a pending action is read as.
-- `JSON.parse` is `parse_json`.
use Prim.Native.Char.{code}
use ezra.Common.{
  ◌==◌, String, Option, none, some, [], ◌∷◌, str_eq, if◌then◌else◌, join, concat, Attempt, returned,
  threw,
}
use ezra.Hitl.Value.{Value, obj, get, Fields}
use ezra.Agent.Batch.{as_string}

pub data RelatednessVerdict : Type 0 where
  approve deny unrelated : RelatednessVerdict
  refine : Value → RelatednessVerdict

pub record ClassifyInput : Type 0 where
  pub sender_id : String
  pub message : String
  pub tool_name : String
  pub summary : String
  pub recent_context : String

unfoldable pub render_classifier_prompt : ClassifyInput → String
render_classifier_prompt i = join "\n" (
    concat
      ("Proposed action awaiting approval: tool " ∷ i.tool_name ∷ ", arguments " ∷ i.summary ∷ [])
    ∷ ""
    ∷ "Recent conversation:"
    ∷ (if str_eq i.recent_context "" then "(none)" else i.recent_context)
    ∷ ""
    ∷ concat ("New message from " ∷ i.sender_id ∷ ": " ∷ i.message ∷ [])
    ∷ [])

-- `updatedArgs` has to be an object.
abbrev pub with_args : Value → Option RelatednessVerdict
with_args (obj fs) = some (refine (obj fs))
with_args _ = none

abbrev pub verdict_of : Fields → Option String → Option RelatednessVerdict
verdict_of fs none = none
verdict_of fs (some kind) =
    if str_eq kind "approve"
    then some approve
    else if str_eq kind "deny"
    then some deny
    else if str_eq kind "refine"
    then with_args (get "updatedArgs" fs)
    else if str_eq kind "unrelated"
    then some unrelated
    else none

-- `verdictSchema.safeParse`
unfoldable pub parse_verdict : Value → Option RelatednessVerdict
parse_verdict (obj fs) = verdict_of fs (as_string (get "kind" fs))
parse_verdict _ = none

abbrev pub or_unrelated : Option RelatednessVerdict → RelatednessVerdict
or_unrelated none = unrelated
or_unrelated (some v) = v

-- From the first `{` on.
unfoldable pub from_open : String → Option String
from_open String.[] = none
from_open (String.◌∷◌ c s) = if code c == 123 then some (String.◌∷◌ c s) else from_open s

abbrev put_before : Prim.Native.Char.Char → Option String → Option String
put_before c none = if code c == 125 then some (String.◌∷◌ c "") else none
put_before c (some s) = some (String.◌∷◌ c s)

-- Up to the last `}`.
unfoldable pub to_close : String → Option String
to_close String.[] = none
to_close (String.◌∷◌ c s) = put_before c (to_close s)

abbrev pub closed : Option String → Option String
closed none = none
closed (some s) = to_close s

-- The text from the first `{` to the last `}`, where that comes later.
unfoldable pub braced : String → Option String
unfolding from_open to_close
braced text = closed (from_open text)

module _ (parse_json : String → Attempt Value) where
  abbrev pub read_json : Attempt Value → RelatednessVerdict
  read_json (threw e) = unrelated
  read_json (returned raw) = or_unrelated (parse_verdict raw)

  abbrev pub read_braced : Option String → RelatednessVerdict
  read_braced none = unrelated
  read_braced (some json) = read_json (parse_json json)

  unfoldable pub parse_classifier_verdict : String → RelatednessVerdict
  unfolding braced
  parse_classifier_verdict text = read_braced (braced text)
