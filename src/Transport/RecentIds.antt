-- ===== src/Transport/RecentIds.antt =====
-- `RecentIds` of src/transport/protocol.ts: the ids of the bot's own sends, oldest first.
pub mod Echoes
use ezra.Common.{
  ℕ, String, Bool, not, List, [], ◌∷◌, ◌++◌, str_eq, any, select, length, ltb, drop, if◌then◌else◌,
}

pub record RecentIds : Type 0 where
  pub capacity : ℕ
  pub ids : List String

unfoldable pub has : String → RecentIds → Bool
has id r = any (str_eq id) r.ids

-- `Set.delete`
abbrev pub without : String → List String → List String
without id ids = select (λ x. not (str_eq id x)) ids

-- Over the capacity, the oldest goes.
abbrev pub trimmed : ℕ → List String → List String
trimmed capacity ids = if ltb capacity (length ids) then drop 1 ids else ids

unfoldable pub add : String → RecentIds → RecentIds
add id r = record r { ids = trimmed r.capacity (without id r.ids ++ id ∷ []) }

unfoldable pub add_all : List String → RecentIds → RecentIds
unfolding add
add_all [] r = r
add_all (id ∷ ids) r = add_all ids (add id r)
