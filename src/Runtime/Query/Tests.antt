-- ===== src/Runtime/Query/Tests.antt =====
-- Five rows with an id and a priority.
use fct.Base.{
  ℕ, ◌≡◌, refl, String, false, not, none, some, List, [], ◌∷◌, ◌==◌, string_eq, nat_eq,
  if◌then◌else◌, ltb, In, lookup, map, arith,
}
use fct.Runtime.Query.{
  Row, Query, matching, insert_row, sort_rows, after_row, after_cursor, last_id, page, ordered,
  query, pages, count_by,
}
use fct.Runtime.Query.Lemmas.{IsUnique}
use fct.Runtime.Query.Pages.{concat, pages-Reads}
use fct.Runtime.Query.Counts.{lookup-count_by}

abbrev text_of : ℕ → String
text_of n = if n == 0 then "0" else if n == 1 then "1" else "many"

abbrev item : ℕ → ℕ → Row ℕ
item n p = record { id = n; field = λ f. if f == "priority" then p else 0 }

abbrev items : List (Row ℕ)
items = item 1 1 ∷ item 2 0 ∷ item 3 1 ∷ item 4 0 ∷ item 5 5 ∷ []

abbrev by_priority : Query ℕ
by_priority = record {
  matches = some (λ r. not (r.id == 5));
  order = some "priority";
  desc = false;
  after = none;
  limit = 2;
}

two_pages :
    map (map (λ (r : Row ℕ). r.id)) (pages text_of ltb 6 by_priority items)
    ≡ (2 ∷ 4 ∷ []) ∷ (1 ∷ 3 ∷ []) ∷ [] ∷ []
unfolding pages query ordered matching insert_row sort_rows after_row after_cursor last_id page
two_pages = refl

-- The row of the cursor was removed: the read starts over.
cursor_gone :
    map (λ (r : Row ℕ). r.id) (query text_of ltb (record by_priority { after = some 9 }) items).0
    ≡ 2 ∷ 4 ∷ []
unfolding query ordered matching insert_row sort_rows after_row after_cursor last_id page
cursor_gone = refl

pages-Reads_example :
    (let read = concat (pages text_of ltb 6 by_priority items) in
      (read ≡ ordered text_of ltb by_priority items)
      × IsUnique read
      × ((r : Row ℕ)
          → (In r read → In r (matching by_priority.matches items))
            × (In r (matching by_priority.matches items) → In r read)))
unfolding ordered matching insert_row sort_rows
pages-Reads_example =
    pages-Reads text_of ltb 6 by_priority items refl (refl, (refl, (refl, (refl, (refl, tt)))))
      (omega arith)

lookup-count_by_example :
    lookup "0" (count_by text_of ltb by_priority "priority" (0 ∷ 7 ∷ []) items) ≡ some 2
unfolding matching
lookup-count_by_example = lookup-count_by text_of ltb by_priority "priority" (0 ∷ 7 ∷ []) items "0"
