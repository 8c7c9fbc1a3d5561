-- ===== src/Ops/Config.antt =====
-- src/ops/config.ts: how one variable of the environment is read. A check goes from the variable to its
-- value or to the message of its issue. `EnvText` is what zod and the runtime know: URLs, numbers, and
-- the messages that the source leaves to zod. `N` are the numbers that settings are read as.
pub mod Data
pub mod Variables
pub mod Schema
pub mod Load
mod Fields
pub mod Agree
pub mod Sound
pub mod Production
use Prim.Native.Char.{Char, code}
use Prim.Native.String
use ezra.Common.{
  ℕ, ◌+◌, ◌*◌, ◌-◌, String, Bool, true, false, not, ◌&&◌, ◌||◌, Option, none, some, List, [], ◌∷◌,
  ◌++◌, map, str_eq, ◌==◌, leb, ltb, if◌then◌else◌, any, select, find, length, split_on, Attempt,
  returned, threw, concat, join,
}
use ezra.Hitl.Value.{Value, get, obj, non_empty}
use ezra.Tools.{Issue}
use ezra.Agent.Route.{Tier, fast, standard, deep}
use ezra.Transport.WaVersion.{WaVersion, if_safe}

abbrev pub Env : Type 0
Env = String → Option String

pub record EnvText (N : Type 0) : Type 0 where
  pub trim : String → String
  pub is_url : String → Bool
  -- `z.coerce.number().positive()`, and with `.int()`.
  pub positive : String → Option N
  pub positive_int : String → Option N
  pub twelve : N
  pub default_port : N
  pub fifty : N
  -- `JSON.parse(Buffer.from(value, 'base64').toString('utf8'))`
  pub json_of_base64 : String → Attempt Value
  pub no_string : String
  pub too_short : String
  pub no_option : String
  pub no_number : String

-- What a schema makes of the environment: its value, or all its issues.
pub data Read (A : Type 0) : Type 0 where
  valid : A → Read A
  invalid : List Issue → Read A

infixl 20 ◌<*>◌
unfoldable pub ◌<*>◌ : {A B : Type 0} → Read (A → B) → Read A → Read B
valid f <*> valid a = valid (f a)
valid f <*> invalid is = invalid is
invalid is <*> valid a = invalid is
invalid is <*> invalid js = invalid (is ++ js)

abbrev pub tagged : {A : Type 0} → String → Attempt A → Read A
tagged name (returned a) = valid a
tagged name (threw message) = invalid (record { path = name ∷ []; message = message } ∷ [])

abbrev pub member : {A : Type 0} → Env → String → (Option String → Attempt A) → Read A
member env name check = tagged name (check (env name))

-- `.default(value)`
abbrev pub with_default : {A : Type 0} → A → (String → Attempt A) → Option String → Attempt A
with_default value check none = returned value
with_default value check (some s) = check s

-- `.default(value)` before a transform, which the default goes through as well.
abbrev pub defaulted : {A : Type 0} → String → (String → Attempt A) → Option String → Attempt A
defaulted value check none = check value
defaulted value check (some s) = check s

-- `z.string()`, with what checks its value.
abbrev pub text : {A : Type 0} → String → (String → Attempt A) → Option String → Attempt A
text message check none = threw message
text message check (some s) = check s

abbrev pub min_one : String → String → Attempt String
min_one message s = if str_eq s "" then threw message else returned s

abbrev pub or_issue : {A : Type 0} → String → Option A → Attempt A
or_issue message none = threw message
or_issue message (some a) = returned a

-- `z.enum`, over the texts of its options.
abbrev pub chosen : {A : Type 0} → Option (String × A) → Option A
chosen none = none
chosen (some (name, a)) = some a

unfoldable pub option_of : {A : Type 0} → List (String × A) → String → Option A
option_of options s = chosen (find (λ o. str_eq s o.0) options)

pub data TurnRouting : Type 0 where
  off shadow on : TurnRouting

abbrev pub routing_modes : List (String × TurnRouting)
routing_modes = ("off", off) ∷ ("shadow", shadow) ∷ ("on", on) ∷ []

pub data ReasoningEffort : Type 0 where
  low medium high xhigh max : ReasoningEffort

-- 'default' sends no effort.
abbrev pub efforts : List (String × Option ReasoningEffort)
efforts =
    ("low", some low)
    ∷ ("medium", some medium)
    ∷ ("high", some high)
    ∷ ("xhigh", some xhigh)
    ∷ ("max", some max)
    ∷ ("default", none)
    ∷ []

abbrev pub route_tiers : List (String × Tier)
route_tiers = ("fast", fast) ∷ ("standard", standard) ∷ ("deep", deep) ∷ []

-- `value.split(',').map(trim).filter(nonEmpty)`
unfoldable pub comma_list : (String → String) → String → List String
comma_list trim s = select (λ t. not (str_eq t "")) (map trim (split_on b',' s))

-- The tiers that are named, unless a name is unknown.
abbrev pub put_tier : Option Tier → Option (List Tier) → Option (List Tier)
put_tier (some t) (some ts) = some (t ∷ ts)
put_tier _ _ = none

unfoldable pub tiers_of : List String → Option (List Tier)
tiers_of [] = some []
tiers_of (name ∷ names) = put_tier (option_of route_tiers name) (tiers_of names)

abbrev pub tiers_message : String
tiers_message =
    "comma-separated subset of fast/standard/deep that includes standard (the fallback tier)"

-- `TURN_ROUTING_TIERS`; the set is the list of what was named.
unfoldable pub check_tiers : (String → String) → String → Attempt (List Tier)
check_tiers trim s =
    let names = comma_list trim s in
    if any (str_eq "standard") names
    then or_issue tiers_message (tiers_of names)
    else threw tiers_message

abbrev pub is_digit : Char → Bool
is_digit c = leb b'0' (code c) && leb (code c) b'9'

abbrev pub put_digit : Char → ℕ → Option ℕ
put_digit c n = if is_digit c then some (n * 10 + (code c - b'0')) else none

-- The value of a run of digits.
unfoldable pub number_from : ℕ → String → Option ℕ
number_from n String.[] = some n
number_from n (String.◌∷◌ c s) = elim (put_digit c n) [ none ↦ none | some m ↦ number_from m s ]

unfoldable pub number_of : String → Option ℕ
number_of s = if str_eq s "" then none else number_from 0 s

abbrev pub three : Option ℕ → Option ℕ → Option ℕ → Option WaVersion
three (some a) (some b) (some c) = if_safe a b c
three _ _ _ = none

abbrev pub three_parts : List String → Option WaVersion
three_parts (a ∷ b ∷ c ∷ []) = three (number_of a) (number_of b) (number_of c)
three_parts _ = none

-- `parseWaVersion` of src/transport/wa-version.ts
unfoldable pub parse_wa_version : (String → String) → String → Option WaVersion
parse_wa_version trim raw = three_parts (split_on b'.' (trim raw))

pub record ServiceAccount : Type 0 where
  pub client_email : String
  pub private_key : String

abbrev pub both_keys : Option String → Option String → Option ServiceAccount
both_keys (some email) (some key) = some (record { client_email = email; private_key = key })
both_keys _ _ = none

-- `serviceAccountKeySchema.parse` of what the decoding gives.
abbrev pub key_of : Attempt Value → Option ServiceAccount
key_of (returned (obj fs)) =
    both_keys (non_empty (get "client_email" fs)) (non_empty (get "private_key" fs))
key_of _ = none

abbrev pub some_jids : String → List String → Attempt (List String)
some_jids message [] = threw message
some_jids message (jid ∷ jids) = returned (jid ∷ jids)

-- `jidList`
unfoldable pub check_jids : (String → String) → String → String → Attempt (List String)
check_jids trim message s = some_jids message (comma_list trim s)
