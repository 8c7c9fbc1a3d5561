-- ===== src/Tools/Lists/Shown.antt =====
-- What the list tools show after any calls of them.
use ezra.Common.{
  ℕ, String, Bool, true, false, not, ◌&&◌, ◌||◌, List, [], ◌∷◌, str_eq, eq_iff, any, any-append,
  any-select, update_where, ◌≡◌, refl, ap, ◌∙◌, arith, sym, some,
}
use ezra.Common.Sorting.Tests.{any-sort}
use ezra.Store.{ListItem, get_open_items}
use ezra.Tools.Lists.{add_list_item_tool, mark_item_done_tool}

pub data ListCall : Type 0 where
  adds : String → ℕ → String → String → String → ListCall
  marks : String → ℕ → ListCall

abbrev pub call : ListCall → List ListItem → List ListItem
call (adds id now list item added_by) rows = (add_list_item_tool id now list item added_by rows).1
call (marks id now) rows = (mark_item_done_tool id now rows).1

abbrev pub call_all : List ListCall → List ListItem → List ListItem
call_all [] rows = rows
call_all (c ∷ cs) rows = call_all cs (call c rows)

-- Whether the item stands among those that are read for a list.
abbrev pub is_shown : String → String → List ListItem → Bool
is_shown list id rows = any (λ r. str_eq r.id id) (get_open_items list rows)

-- Whether it should, if it did before the calls.
abbrev pub expected : String → String → Bool → List ListCall → Bool
expected list id shown [] = shown
expected list id shown (adds i now l item by ∷ cs) =
    expected list id (shown || str_eq l list && str_eq i id) cs
expected list id shown (marks i now ∷ cs) = expected list id (shown && not (str_eq i id)) cs

abbrev is_open : String → String → ListItem → Bool
is_open list id r = (str_eq r.list list && not r.is_done) && str_eq r.id id

is_shown_lem :
    (list id : String) (rows : List ListItem) → is_shown list id rows ≡ any (is_open list id) rows
unfolding get_open_items
is_shown_lem list id rows =
    any-sort _ (λ r. str_eq r.id id) _ ∙ any-select _ (λ r. str_eq r.id id) rows

any-mark :
    (list id i : String) (f : ListItem → ListItem) (rows : List ListItem)
    → ((r : ListItem) → is_open list id (f r) ≡ false)
    → any (is_open list id) (update_where (λ r. str_eq r.id i) f rows)
      ≡ (any (is_open list id) rows && not (str_eq i id))
any-mark list id i f [] h = refl
any-mark list id i f (r ∷ rows) h =
    ground (arith, h r, eq_iff r.id i, eq_iff i id, eq_iff r.id id, any-mark list id i f rows h)

call-shows :
    (list id : String) (c : ListCall) (rows : List ListItem)
    → is_shown list id (call c rows) ≡ expected list id (is_shown list id rows) (c ∷ [])
unfolding add_list_item_tool mark_item_done_tool
call-shows list id (adds i now l item by) rows =
    is_shown_lem list id _
    ∙ any-append (is_open list id) rows _
    ∙ ground (arith, is_shown_lem list id rows)
call-shows list id (marks i now) rows =
    is_shown_lem list id _
    ∙ any-mark list id i (λ r. record r { is_done = true; done_at = some now }) rows
        (λ r. ground arith)
    ∙ ap (λ b. b && not (str_eq i id)) (sym (is_shown_lem list id rows))

expected-step :
    (list id : String) (shown : Bool) (c : ListCall) (cs : List ListCall)
    → expected list id shown (c ∷ cs) ≡ expected list id (expected list id shown (c ∷ [])) cs
expected-step list id shown (adds i now l item by) cs = refl
expected-step list id shown (marks i now) cs = refl

-- After any calls of the list tools, the item with an id is among the open items of a list exactly if
-- it was before, or was added to that list, and has not been marked done since.
pub call_all-shows :
    (list id : String) (cs : List ListCall) (rows : List ListItem)
    → is_shown list id (call_all cs rows) ≡ expected list id (is_shown list id rows) cs
call_all-shows list id [] rows = refl
call_all-shows list id (c ∷ cs) rows =
    call_all-shows list id cs (call c rows)
    ∙ ap (λ b. expected list id b cs) (call-shows list id c rows)
    ∙ sym (expected-step list id (is_shown list id rows) c cs)
