-- ===== src/Runtime/Eval/Tests.antt =====
-- An index that answers, an early stop, and expressions in which a bool meets a number.
use fct.Base.{
  ℕ, zero, suc, ◌+◌, ◌-◌, ◌%◌, ◌≡◌, refl, true, false, none, some, List, [], ◌∷◌, leb, ltb, ◌==◌,
  nat_eq, if◌then◌else◌, length, string_eq, lookup, insert,
}
use fct.Runtime.Value.{
  Any, nil, int, bool, items, row, end, field, Host, done, more, of_elems, read_field, list_rows,
  truthy, to_int,
}
use fct.Runtime.Value.Ops.{eq, apply_bin}
use fct.Runtime.Value.Equal.{equal}
use fct.Runtime.Expr.{Expr, lit, ref, get, bin, eget, agg, absent, present, AggOp, count}
use fct.Runtime.Eval.{Env, CallBuiltin, eval, answer, candidate_rows, is_value}
use fct.Runtime.Value.Reduce.{least, reduce_agg}
use fct.Runtime.Value.Extremes.{IsReduced, reduce_agg-IsReduced}
use fct.Runtime.Eval.Same.{eval-same, is_apart}

-- Floats that stand for whole numbers.
abbrev whole_floats : Host ℕ
whole_floats = record {
  of_int = λ n. n;
  to_whole = λ f. f;
  add = λ a b. a + b;
  sub = λ a b. a - b;
  mul = λ a b. a;
  div = λ a b. a;
  neg = λ a. a;
  trunc = λ a. a;
  eq = λ a b. a == b;
  lt = ltb;
  le = leb;
  is_nan = λ a. false;
  is_inf = λ a. false;
  format = λ a. [];
  trim_space = λ s. s;
  is_numeric = λ s. false;
  parse_whole = λ s. none;
  parse_float = λ s. (0, true);
}

-- `n` rows, with ids from n down and the id by three in `kind`.
abbrev works : ℕ → List (Any ℕ)
works zero = []
works (suc n) = row (field "id" (int (suc n)) (field "kind" (int (suc n % 3)) end)) ∷ works n

abbrev library : Env ℕ
library name =
    if name == "Work" then items (of_elems (works 70)) else if name == "k" then int 2 else nil

abbrev no_calls : CallBuiltin ℕ
no_calls name args = nil

abbrev kind_is_k : Expr ℕ
kind_is_k = bin eq (get (ref "q") "kind") (ref "k")

-- count(q in Work where q.kind == k)
abbrev count_kind : Expr ℕ
count_kind = agg count "" "q" "Work" (present kind_is_k) absent absent

-- list(q in Work where q.kind == k limit 2), of the ids
abbrev two_ids : Expr ℕ
two_ids =
    agg AggOp.rows "" "q" "Work" (present kind_is_k) (present (get (ref "q") "id"))
      (present (lit (int 2)))

count_kind_indexed : eval whole_floats no_calls true count_kind library ≡ int 23
unfolding eval lookup insert read_field list_rows truthy to_int equal answer apply_bin
count_kind_indexed = refl

candidates_are_fewer :
    length (candidate_rows whole_floats true (some (is_value "kind" (int 2))) (works 70)) ≡ 23
unfolding candidate_rows lookup insert read_field
candidates_are_fewer = refl

two_ids_stop :
    eval whole_floats no_calls true two_ids library ≡ items (more (int 68) (more (int 65) done))
unfolding eval lookup insert read_field list_rows truthy to_int equal answer apply_bin
two_ids_stop = refl

work_by_id : eval whole_floats no_calls true (eget "Work" (lit (int 7)) "kind") library ≡ int 1
unfolding eval lookup insert read_field list_rows truthy to_int equal answer apply_bin
work_by_id = refl

eval-same_example :
    eval whole_floats no_calls true count_kind library
    ≡ eval whole_floats no_calls false count_kind library
eval-same_example = eval-same whole_floats no_calls count_kind library (unfold is_apart in refl)

-- `true == 5`, but not `5 == true`
true_is_five : apply_bin whole_floats eq (bool true) (int 5) ≡ bool true
unfolding apply_bin equal to_int truthy
true_is_five = refl

five_is_not_true : apply_bin whole_floats eq (int 5) (bool true) ≡ bool false
unfolding apply_bin equal to_int truthy
five_is_not_true = refl

abbrev id_of : Any ℕ → ℕ
id_of (row fields) = to_int whole_floats (read_field "id" fields)
id_of other = 0

reduce_agg-IsReduced_example :
    (n : ℕ) × (reduce_agg whole_floats least (works 3) (λ r. some (int (id_of r))) ≡ int n)
    × IsReduced whole_floats id_of least (works 3) n
reduce_agg-IsReduced_example = reduce_agg-IsReduced whole_floats id_of least (works 3)
