-- ===== src/Runtime/Eval.antt =====
-- runtime/eval.go: the interpreter of an expression over a scope, with rowIndexing as an argument.
-- A scope is a function from names, nil for a missing one; a Go loop that binds the item variable and
-- restores it evaluates its body in the scope with the variable bound. `builtin` is callBuiltin, a
-- parameter. Left out: what a page render records and asks the database (materializer, searchedRows),
-- entity-carried derives, an aggregate's ordering, literals of wire types, `given` and procs.
pub mod Filter
pub mod Probe
pub mod Pinned
pub mod Same
mod Tests
use fct.Base.{
  ℕ, zero, suc, ◌-◌, Bool, true, false, not, ◌&&◌, Option, none, some, List, [], ◌∷◌, map, take,
  find, nat_eq, keep, length, leb, ◌==◌, string_eq, if◌then◌else◌, String,
}
use fct.Runtime.Value.{
  Any, nil, int, float, bool, text, items, row, Anys, done, more, Host, word, is_negative, elems,
  of_elems, get_field, is_record, list_rows, truthy, to_int,
}
use fct.Runtime.Value.Ops.{BinOp, land, lor, eq, member, apply_bin, negate, index_value}
use fct.Runtime.Value.Equal.{equal}
use fct.Runtime.Value.Reduce.{num_value, field_value, reduce_agg, reduce_text}
use fct.Runtime.Expr.{
  Expr, lit, list, ref, get, index, astate, call, un, bin, eget, agg, Exprs, no_more, also, OptExpr,
  absent, present, UnOp, lnot, minus, complement, AggOp, exists, count, rows, reduce, item_field,
  probe_expr,
}
use fct.Runtime.RowIndex.{indexed_rows, indexed_rows_in}

abbrev pub Env : Type 0 → Type 0
Env F = String → Any F

-- scope[v] = x
abbrev pub bind : {F : Type 0} → String → Any F → Env F → Env F
bind v x scope name = if name == v then x else scope name

-- What a predicate pins: the field, whether to one value or to any of a list, and the value.
pub data Pin (F : Type 0) : Type 0 where
  is_value : String → Any F → Pin F
  in_values : String → Any F → Pin F

-- The rows that an optional candidate list leaves.
abbrev pub or_all {ℓ} : {A : Type ℓ} → List A → Option (List A) → List A
or_all all none = all
or_all all (some found) = found

abbrev pub first_pin : {F : Type 0} → Option (Pin F) → Option (Pin F) → Option (Pin F)
first_pin none q = q
first_pin (some p) q = some p

-- `x.f` against an expression that can be evaluated once, with that expression's value.
abbrev pub pin_if :
    {F : Type 0} → (String → Any F → Pin F) → Option String → Bool → Any F → Option (Pin F)
pin_if make none ok value = none
pin_if make (some field) ok value = if ok then some (make field value) else none

-- The row itself for the field "".
abbrev pub row_or_field : {F : Type 0} → String → Any F → Any F
row_or_field field r = if field == "" then r else get_field r field

module _ {F : Type 0} (h : Host F) where
  -- The rows of a collection that can satisfy a predicate which pins a field.
  unfoldable pub candidate_rows : Bool → Option (Pin F) → List (Any F) → List (Any F)
  unfolding indexed_rows indexed_rows_in
  candidate_rows indexing none all = all
  candidate_rows indexing (some (is_value field probe)) all =
      or_all all (indexed_rows h indexing field all probe)
  candidate_rows indexing (some (in_values field values)) all =
      or_all all (indexed_rows_in h indexing field all values)

  -- The loop of an `Entity(id)` lookup.
  unfoldable pub find_row : Any F → List (Any F) → Any F
  find_row key [] = nil
  find_row key (r ∷ all) =
      if is_record r && equal h (get_field r "id") key then r else find_row key all

  unfoldable pub entity_get : Bool → List (Any F) → Any F → String → Any F
  unfolding find_row indexed_rows
  entity_get indexing all key field =
      row_or_field field (find_row key (or_all all (indexed_rows h indexing "id" all key)))

-- The loop of a filter, which stops once it has kept as many rows as the answer needs.
unfoldable pub keep_until {ℓ} : {A : Type ℓ} → ℕ → (A → Bool) → List A → List A
keep_until zero p all = []
keep_until (suc need) p [] = []
keep_until (suc need) p (r ∷ all) = elim (p r) [
  | true ↦ r ∷ keep_until need p all
  | false ↦ keep_until (suc need) p all
]

abbrev pub filter_rows {ℓ} : {A : Type ℓ} → Option ℕ → (A → Bool) → List A → List A
filter_rows none p all = keep p all
filter_rows (some need) p all = keep_until need p all

-- A limit that is not negative.
abbrev pub cap_of : Option ℕ → Option ℕ
cap_of none = none
cap_of (some n) = if is_negative n then none else some n

-- How many kept rows the answer can use.
abbrev pub needed : Bool → AggOp → Option ℕ → Option ℕ
needed true exists limit = some 1
needed true AggOp.rows limit = cap_of limit
needed indexing op limit = none

-- rows[:lim]
abbrev pub cut_to {ℓ} : {A : Type ℓ} → Option ℕ → List A → List A
cut_to none all = all
cut_to (some n) all = take n all

-- listSelect
abbrev pub list_select : {F : Type 0} → Option (Any F → Any F) → List (Any F) → Any F
list_select none all = items (of_elems all)
list_select (some sel) all = items (of_elems (map sel all))

module _ {F : Type 0} (h : Host F) where
  abbrev pub selected : Option (Any F → Any F) → String → Any F → Option (Any F)
  selected none field r = field_value h field r
  selected (some sel) field r = if is_record r then some (num_value h (sel r)) else none

  abbrev pub stored : String → Any F → Option (Any F)
  stored field r = if is_record r then some (get_field r field) else none

  -- The answer from the rows that a predicate left.
  unfoldable pub answer : AggOp → String → Option (Any F → Any F) → Option ℕ → List (Any F) → Any F
  answer exists field sel limit all = bool (not (length all == 0))
  answer count field sel limit all = int (length all)
  answer AggOp.rows field sel limit all = list_select sel (cut_to (cap_of limit) all)
  answer (reduce true op) field sel limit all = reduce_text h op all (stored field)
  answer (reduce false op) field sel limit all = reduce_agg h op all (selected sel field)

  -- The rows that the answer is made from.
  unfoldable pub filtered :
      Bool → AggOp → Option ℕ → Option (Pin F) → Option (Any F → Bool) → List (Any F) → List (Any F)
  unfolding candidate_rows keep_until
  filtered indexing op limit pin none all = all
  filtered indexing op limit pin (some p) all =
      filter_rows (needed indexing op limit) p (candidate_rows h indexing pin all)

  abbrev pub apply_un : UnOp → Any F → Any F
  apply_un lnot x = bool (not (truthy h x))
  apply_un minus x = negate h x
  apply_un complement x = int (word - 1 - to_int h x)

abbrev pub astate_value : {F : Type 0} → String → Any F
astate_value op = if op == "failed" then text [] else bool false

-- What callBuiltin answers.
abbrev pub CallBuiltin : Type 0 → Type 0
CallBuiltin F = String → List (Any F) → Any F

-- eval, evalRest and evalColl; `pinned` is pinnedEquality with the value of the expression it finds.
unfoldable mutual
  unfolding entity_get filtered answer candidate_rows item_field probe_expr

  pub eval : {F : Type 0} → Host F → CallBuiltin F → Bool → Expr F → Env F → Any F
  eval h b ix (lit value) s = value
  eval h b ix (list es) s = items (of_elems (eval_list h b ix es s))
  eval h b ix (ref name) s = s name
  eval h b ix (get e field) s = get_field (eval h b ix e s) field
  eval h b ix (index e key) s = index_value h (eval h b ix e s) (eval h b ix key s)
  eval h b ix (astate op) s = astate_value op
  eval h b ix (call name es) s = b name (eval_list h b ix es s)
  eval h b ix (un op e) s = apply_un h op (eval h b ix e s)
  eval h b ix (bin land l r) s =
      if not (truthy h (eval h b ix l s)) then bool false else bool (truthy h (eval h b ix r s))
  eval h b ix (bin lor l r) s =
      if truthy h (eval h b ix l s) then bool true else bool (truthy h (eval h b ix r s))
  eval h b ix (bin op l r) s = apply_bin h op (eval h b ix l s) (eval h b ix r s)
  eval h b ix (eget coll key field) s =
      entity_get h ix (list_rows (s coll)) (eval h b ix key s) field
  eval h b ix (agg op field v coll test sel limit) s =
      answer h op field (eval_row h b ix sel v s) (eval_limit h b ix limit s) (
        filtered h ix op (eval_limit h b ix limit s) (pinned_in h b ix test v s)
          (eval_test h b ix test v s) (list_rows (s coll)))

  pub eval_list : {F : Type 0} → Host F → CallBuiltin F → Bool → Exprs F → Env F → List (Any F)
  eval_list h b ix no_more s = []
  eval_list h b ix (also e es) s = eval h b ix e s ∷ eval_list h b ix es s

  -- evalRowPredicate, of each row
  pub eval_test :
      {F : Type 0}
      → Host F
      → CallBuiltin F
      → Bool
      → OptExpr F
      → String
      → Env F
      → Option (Any F → Bool)
  eval_test h b ix absent v s = none
  eval_test h b ix (present e) v s = some (λ r. truthy h (eval h b ix e (bind v r s)))

  pub eval_row :
      {F : Type 0}
      → Host F
      → CallBuiltin F
      → Bool
      → OptExpr F
      → String
      → Env F
      → Option (Any F → Any F)
  eval_row h b ix absent v s = none
  eval_row h b ix (present e) v s = some (λ r. eval h b ix e (bind v r s))

  pub eval_limit : {F : Type 0} → Host F → CallBuiltin F → Bool → OptExpr F → Env F → Option ℕ
  eval_limit h b ix absent s = none
  eval_limit h b ix (present e) s = some (to_int h (eval h b ix e s))

  pub pinned :
      {F : Type 0} → Host F → CallBuiltin F → Bool → Expr F → String → Env F → Option (Pin F)
  pinned h b ix (bin land l r) v s = first_pin (pinned h b ix l v s) (pinned h b ix r v s)
  pinned h b ix (bin eq l r) v s =
      first_pin (pin_if is_value (item_field l v) (probe_expr r v) (eval h b ix r s))
        (pin_if is_value (item_field r v) (probe_expr l v) (eval h b ix l s))
  pinned h b ix (bin member l r) v s =
      pin_if in_values (item_field l v) (probe_expr r v) (eval h b ix r s)
  pinned h b ix e v s = none

  pub pinned_in :
      {F : Type 0} → Host F → CallBuiltin F → Bool → OptExpr F → String → Env F → Option (Pin F)
  pinned_in h b ix absent v s = none
  pinned_in h b ix (present e) v s = if v == "" then none else pinned h b ix e v s
