-- ===== src/Tools/Lists.antt =====
-- src/tools/lists.ts over the lists of src/memory/store.ts. The schemas are checked by the registry;
-- a new row's id and the clock's reading are arguments.
pub mod Shown
use ezra.Common.{ℕ, String, Option, none, some, List, [], ◌∷◌, map, concat, join}
use ezra.Store.{ListItem, add_list_item, get_open_items, mark_item_done}

unfoldable pub add_list_item_tool :
    String → ℕ → String → String → String → List ListItem → String × List ListItem
unfolding add_list_item
add_list_item_tool id now list item added_by rows = (
  concat ("added \"" ∷ item ∷ "\" to " ∷ list ∷ " (id " ∷ id ∷ ")" ∷ []),
  add_list_item id now list item added_by rows,
)

abbrev pub item_line : ListItem → String
item_line r = concat ("- " ∷ r.item ∷ " (id " ∷ r.id ∷ ", added by " ∷ r.added_by ∷ ")" ∷ [])

abbrev pub list_text : String → List ListItem → String
list_text list [] = concat ("list " ∷ list ∷ " is empty" ∷ [])
list_text list (r ∷ rows) =
    concat ("open items on " ∷ list ∷ ":\n" ∷ join "\n" (map item_line (r ∷ rows)) ∷ [])

unfoldable pub get_list_tool : String → List ListItem → String
unfolding get_open_items
get_list_tool list rows = list_text list (get_open_items list rows)

abbrev pub done_text : String → Option ListItem → String
done_text id none = concat ("no list item with id " ∷ id ∷ " — not found" ∷ [])
done_text id (some r) = concat ("marked \"" ∷ r.item ∷ "\" done on " ∷ r.list ∷ [])

unfoldable pub mark_item_done_tool : String → ℕ → List ListItem → String × List ListItem
unfolding mark_item_done
mark_item_done_tool id now rows =
    let (row, rows') = mark_item_done id now rows in (done_text id row, rows')
