-- ===== src/Hitl/Value/Laws.antt =====
-- Reading after writing and after a spread, and a stored call read back.
use ezra.Common.{String, false, some, str_eq, if◌then◌else◌, ◌≡◌, refl, ◌≢◌, arith, eq_iff}
use ezra.Hitl.Value.{
  Value, Fields, end, field, get, has, put, spread, ToolCall, parse_call, to_value,
}

-- No key is written twice.
abbrev pub IsRecord : Fields → Type 0
IsRecord end = Unit
IsRecord (field k v fs) = (has k fs ≡ false) × IsRecord fs

get-put :
    (k j : String) (v : Value) (fs : Fields)
    → get j (put k v fs) ≡ (if str_eq k j then v else get j fs)
unfolding get put
get-put k j v end = ground (arith, eq_iff k j)
get-put k j v (field i w fs) = ground (arith, eq_iff k j, eq_iff i k, eq_iff i j, get-put k j v fs)

-- A key of the patch has the patch's value, every other key keeps its own.
pub get-spread :
    (j : String) (a b : Fields)
    → IsRecord b
    → get j (spread a b) ≡ (if has j b then get j b else get j a)
unfolding spread has get
get-spread j a end h = refl
get-spread j a (field k v b) h =
    ground (arith, eq_iff k j, get-spread j (put k v a) b h.1, get-put k j v a)

-- A stored call reads back as itself.
pub parse_call-to_value :
    (c : ToolCall) → c.id ≢ "" → c.name ≢ "" → parse_call (to_value c) ≡ some c
unfolding parse_call to_value
parse_call-to_value c i n = ground (arith, eq_iff c.id "", eq_iff c.name "")
