-- ===== src/Hitl/Value.antt =====
-- JavaScript values as they come out of a jsonb column, the spread of two objects, and the stored
-- tool call of agent/context.ts.
pub mod Laws
use ezra.Common.{ℕ, String, Bool, true, false, Option, none, some, str_eq, if◌then◌else◌}

-- Numbers are the naturals.
mutual
  pub data Value : Type 0 where
    undefined null : Value
    bool : Bool → Value
    str : String → Value
    num : ℕ → Value
    obj : Fields → Value
    arr : Items → Value

  -- Own properties in insertion order.
  pub data Fields : Type 0 where
    end : Fields
    field : String → Value → Fields → Fields

  pub data Items : Type 0 where
    no_items : Items
    item : Value → Items → Items

-- `o[k]`
unfoldable pub get : String → Fields → Value
get k end = undefined
get k (field j v fs) = if str_eq j k then v else get k fs

-- `k in o`
unfoldable pub has : String → Fields → Bool
has k end = false
has k (field j v fs) = if str_eq j k then true else has k fs

-- `o[k] = v`
unfoldable pub put : String → Value → Fields → Fields
put k v end = field k v end
put k v (field j w fs) = if str_eq j k then field j v fs else field j w (put k v fs)

-- `{ ...a, ...b }`
unfoldable pub spread : Fields → Fields → Fields
unfolding put
spread a end = a
spread a (field k v b) = spread (put k v a) b

unfoldable pub as_record : Value → Fields
as_record (obj fs) = fs
as_record _ = end

pub record ToolCall : Type 0 where
  pub id : String
  pub name : String
  pub args : Value

-- A string of at least one character.
unfoldable pub non_empty : Value → Option String
non_empty (str s) = if str_eq s "" then none else some s
non_empty _ = none

abbrev both : Option String → Option String → Value → Option ToolCall
both (some i) (some n) a = some (record { id = i; name = n; args = a })
both _ _ a = none

-- `toolCallSchema.safeParse`
unfoldable pub parse_call : Value → Option ToolCall
unfolding get non_empty
parse_call (obj fs) = both (non_empty (get "id" fs)) (non_empty (get "name" fs)) (get "args" fs)
parse_call _ = none

-- The object that a call is stored as.
unfoldable pub to_value : ToolCall → Value
to_value c = obj (field "id" (str c.id) (field "name" (str c.name) (field "args" c.args end)))
