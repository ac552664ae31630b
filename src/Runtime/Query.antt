-- ===== src/Runtime/Query.antt =====
-- runtime/memstore.go: the reads of the in-memory store, Query with its pages, Count and CountBy.
-- A row is its id with the values of its fields. The predicate is a test of rows, a cursor the id that
-- it carries; what the code asks of field values, lessVal and toStr, are parameters. SliceStable is an
-- insertion sort that is stable.
pub mod Lemmas
pub mod Pages
pub mod Counts
mod Tests
use fct.Base.{
  ℕ, zero, suc, ◌+◌, String, Bool, true, false, not, ◌&&◌, ◌||◌, Option, none, some, List, [], ◌∷◌,
  ◌++◌, ◌==◌, nat_eq, string_eq, if◌then◌else◌, ltb, length, take, keep, elem, count, Map, lookup,
  insert, map,
}

pub record Row (V : Type 0) : Type 0 where
  pub id : ℕ
  pub field : String → V

pub record Query (V : Type 0) : Type 0 where
  pub matches : Option (Row V → Bool)
  pub order : Option String
  pub desc : Bool
  pub after : Option ℕ
  pub limit : ℕ

-- A limit of 0 is the default.
abbrev pub page_size : ℕ → ℕ
page_size zero = 50
page_size (suc n) = suc n

abbrev pub number : Option ℕ → ℕ
number none = 0
number (some n) = n

-- Every group that is asked about, with no rows yet.
unfoldable pub zeros : List String → Map String ℕ
zeros [] = []
zeros (v ∷ vs) = insert v 0 (zeros vs)

abbrev pub same_bool : Bool → Bool → Bool
same_bool true b = b
same_bool false b = not b

module _ {V : Type 0} where
  -- matching, on the rows of the entity
  unfoldable pub matching : Option (Row V → Bool) → List (Row V) → List (Row V)
  matching none rows = rows
  matching (some test) rows = keep test rows

  -- A stable sort.
  unfoldable pub insert_row : (Row V → Row V → Bool) → Row V → List (Row V) → List (Row V)
  insert_row before r [] = r ∷ []
  insert_row before r (x ∷ xs) = if before x r then x ∷ insert_row before r xs else r ∷ (x ∷ xs)

  unfoldable pub sort_rows : (Row V → Row V → Bool) → List (Row V) → List (Row V)
  unfolding insert_row
  sort_rows before [] = []
  sort_rows before (x ∷ xs) = insert_row before x (sort_rows before xs)

  -- The rows that follow the row of the cursor; all of them if it is not there.
  unfoldable pub after_row : ℕ → List (Row V) → List (Row V) → List (Row V)
  after_row id whole [] = whole
  after_row id whole (x ∷ xs) = if x.id == id then xs else after_row id whole xs

  unfoldable pub after_cursor : Option ℕ → List (Row V) → List (Row V)
  unfolding after_row
  after_cursor none rows = rows
  after_cursor (some id) rows = after_row id rows rows

  unfoldable pub last_id : List (Row V) → Option ℕ
  last_id [] = none
  last_id (x ∷ []) = some x.id
  last_id (x ∷ (y ∷ ys)) = last_id (y ∷ ys)

  -- A page that is full has a cursor.
  unfoldable pub page : ℕ → List (Row V) → List (Row V) × Option ℕ
  unfolding last_id
  page size rows =
      let first = take size rows in (first, if length first == size then last_id first else none)

  -- The page of a cursor, if there is one.
  abbrev pub follow : Option ℕ → (ℕ → List (List (Row V))) → List (List (Row V))
  follow none next = []
  follow (some id) next = next id

  -- The loop of CountBy: the groups that are asked about, or all of them if none is.
  unfoldable pub tally : (Row V → String) → List String → List (Row V) → Map String ℕ → Map String ℕ
  tally key wanted [] out = out
  tally key wanted (r ∷ rs) out = tally key wanted rs (
      if ltb 0 (length wanted) && not (elem (key r) wanted)
      then out
      else insert (key r) (suc (number (lookup (key r) out))) out)

-- What the code asks of field values.
module _ {V : Type 0} (to_str : V → String) (less_val : V → V → Bool) where
  -- equalVals
  abbrev pub equal_vals : V → V → Bool
  equal_vals a b = to_str a == to_str b && same_bool (less_val a b) (less_val b a)

  -- The order of the rows, with the id where their values are equal.
  abbrev pub less : Option String → Row V → Row V → Bool
  less none a b = ltb a.id b.id
  less (some f) a b =
      if equal_vals (a.field f) (b.field f) then ltb a.id b.id else less_val (a.field f) (b.field f)

  abbrev pub before : Query V → Row V → Row V → Bool
  before q a b = if q.desc then not (less q.order a b) else less q.order a b

  -- The rows that a query asks for, in its order.
  unfoldable pub ordered : Query V → List (Row V) → List (Row V)
  unfolding matching sort_rows
  ordered q rows = sort_rows (before q) (matching q.matches rows)

  -- Query
  unfoldable pub query : Query V → List (Row V) → List (Row V) × Option ℕ
  unfolding ordered page after_cursor
  query q rows = page (page_size q.limit) (after_cursor q.after (ordered q rows))

  -- A client that follows the cursors.
  unfoldable pub pages : ℕ → Query V → List (Row V) → List (List (Row V))
  unfolding query
  pages zero q rows = []
  pages (suc n) q rows =
      let p = query q rows in p.0 ∷ follow p.1 (λ id. pages n (record q { after = some id }) rows)

  -- Count
  abbrev pub count_rows : Query V → List (Row V) → ℕ
  unfolding matching
  count_rows q rows = length (matching q.matches rows)

  -- CountBy
  unfoldable pub count_by : Query V → String → List V → List (Row V) → Map String ℕ
  unfolding matching zeros tally
  count_by q group values rows =
      let wanted = map to_str values in
      tally (λ r. to_str (r.field group)) wanted (matching q.matches rows) (zeros wanted)
