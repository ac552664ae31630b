-- ===== src/Runtime/Eval/Same.antt =====
-- Row indexes and early stops never change the value of an expression.
use fct.Base.{
  ◌≡◌, refl, ap, ◌∙◌, Bool, true, false, ◌&&◌, none, some, String, ◌∷◌, ◌==◌, string_eq,
  if◌then◌else◌,
}
use mathlib.Core.Path.{ap₂, fun_ext}
use fct.Runtime.Value.{Any, Host, get_field, truthy, of_elems, items, list_rows, to_int}
use fct.Runtime.Value.Ops.{land, eq, member, index_value}
use fct.Runtime.Expr.{
  Expr, lit, list, ref, get, index, astate, call, un, bin, eget, agg, Exprs, no_more, also, OptExpr,
  absent, present, item_field, probe_expr,
}
use fct.Runtime.Eval.{
  Env, bind, is_value, in_values, first_pin, pin_if, entity_get, apply_un, CallBuiltin, eval,
  eval_list, eval_test, eval_row, eval_limit, pinned, pinned_in,
}
use fct.Runtime.Eval.Filter.{answer-filtered, entity_get-same}
use fct.Runtime.Eval.Probe.{reads_apart, and-left, and-right, bin-same}
use fct.Runtime.Eval.Pinned.{reads_apart_in, eval_test-TestPinned}

-- No lookup in the predicate of an aggregate reads a collection that is named as the item variable.
unfoldable mutual
  unfolding reads_apart

  pub is_apart : {F : Type 0} → Expr F → Bool
  is_apart (lit value) = true
  is_apart (list es) = all_apart es
  is_apart (ref name) = true
  is_apart (get e field) = is_apart e
  is_apart (index e key) = is_apart e && is_apart key
  is_apart (astate op) = true
  is_apart (call name es) = all_apart es
  is_apart (un op e) = is_apart e
  is_apart (bin op l r) = is_apart l && is_apart r
  is_apart (eget coll key field) = is_apart key
  is_apart (agg op field v coll test sel limit) =
      reads_apart_in test v && (opt_apart test && (opt_apart sel && opt_apart limit))

  pub all_apart : {F : Type 0} → Exprs F → Bool
  all_apart no_more = true
  all_apart (also e es) = is_apart e && all_apart es

  pub opt_apart : {F : Type 0} → OptExpr F → Bool
  opt_apart absent = true
  opt_apart (present e) = is_apart e

mutual
  unfolding eval is_apart

  eval-same_lem :
      {F : Type 0} (h : Host F) (b : CallBuiltin F) (e : Expr F) (s : Env F)
      → is_apart e ≡ true
      → eval h b true e s ≡ eval h b false e s
  eval-same_lem h b (lit value) s p = refl
  eval-same_lem h b (list es) s p = ap (λ xs. items (of_elems xs)) (eval_list-same h b es s p)
  eval-same_lem h b (ref name) s p = refl
  eval-same_lem h b (get e field) s p = ap (λ x. get_field x field) (eval-same_lem h b e s p)
  eval-same_lem h b (index e key) s p =
      ap₂ (index_value h) (eval-same_lem h b e s (and-left _ _ p))
        (eval-same_lem h b key s (and-right (is_apart e) _ p))
  eval-same_lem h b (astate op) s p = refl
  eval-same_lem h b (call name es) s p = ap (b name) (eval_list-same h b es s p)
  eval-same_lem h b (un op e) s p = ap (apply_un h op) (eval-same_lem h b e s p)
  eval-same_lem h b (bin op x y) s p =
      bin-same h b true false op x y s s (eval-same_lem h b x s (and-left _ _ p))
        (eval-same_lem h b y s (and-right (is_apart x) _ p))
  eval-same_lem h b (eget coll key field) s p =
      ap (λ k. entity_get h true (list_rows (s coll)) k field) (eval-same_lem h b key s p)
      ∙ entity_get-same h (list_rows (s coll)) (eval h b false key s) field
  eval-same_lem h b (agg op field v coll test sel limit) s p = cc (
    eval_row-same h b sel v s
        (and-left _ _ (and-right (opt_apart test) _ (and-right (reads_apart_in test v) _ p))),
    eval_limit-same h b limit s (
        and-right (opt_apart sel) _
          (and-right (opt_apart test) _ (and-right (reads_apart_in test v) _ p))),
    eval_test-same h b test v s (and-left _ _ (and-right (reads_apart_in test v) _ p)),
    pinned_in-same h b test v s (and-left _ _ (and-right (reads_apart_in test v) _ p)),
    answer-filtered h op field (eval_row h b false sel v s) (eval_limit h b false limit s)
        (pinned_in h b false test v s) (eval_test h b false test v s) (list_rows (s coll))
        (eval_test-TestPinned h b v s test (and-left _ _ p)),
  )

  eval_list-same :
      {F : Type 0} (h : Host F) (b : CallBuiltin F) (es : Exprs F) (s : Env F)
      → all_apart es ≡ true
      → eval_list h b true es s ≡ eval_list h b false es s
  eval_list-same h b no_more s p = refl
  eval_list-same h b (also e es) s p =
      ap₂ (λ x xs. x ∷ xs) (eval-same_lem h b e s (and-left _ _ p))
        (eval_list-same h b es s (and-right (is_apart e) _ p))

  eval_test-same :
      {F : Type 0} (h : Host F) (b : CallBuiltin F) (test : OptExpr F) (v : String) (s : Env F)
      → opt_apart test ≡ true
      → eval_test h b true test v s ≡ eval_test h b false test v s
  eval_test-same h b absent v s p = refl
  eval_test-same {F} h b (present e) v s p =
      ap (λ (f : Any F → Any F). some (λ r. truthy h (f r)))
        (fun_ext (λ r. eval-same_lem h b e (bind v r s) p))

  eval_row-same :
      {F : Type 0} (h : Host F) (b : CallBuiltin F) (sel : OptExpr F) (v : String) (s : Env F)
      → opt_apart sel ≡ true
      → eval_row h b true sel v s ≡ eval_row h b false sel v s
  eval_row-same h b absent v s p = refl
  eval_row-same h b (present e) v s p = ap some (fun_ext (λ r. eval-same_lem h b e (bind v r s) p))

  eval_limit-same :
      {F : Type 0} (h : Host F) (b : CallBuiltin F) (limit : OptExpr F) (s : Env F)
      → opt_apart limit ≡ true
      → eval_limit h b true limit s ≡ eval_limit h b false limit s
  eval_limit-same h b absent s p = refl
  eval_limit-same h b (present e) s p = ap (λ x. some (to_int h x)) (eval-same_lem h b e s p)

  pinned-same :
      {F : Type 0} (h : Host F) (b : CallBuiltin F) (e : Expr F) (v : String) (s : Env F)
      → is_apart e ≡ true
      → pinned h b true e v s ≡ pinned h b false e v s
  pinned-same h b (lit value) v s p = refl
  pinned-same h b (bin land x y) v s p =
      ap₂ first_pin (pinned-same h b x v s (and-left _ _ p))
        (pinned-same h b y v s (and-right (is_apart x) _ p))
  pinned-same h b (bin eq x y) v s p =
      ap₂
        (λ m n.
          first_pin (pin_if is_value (item_field x v) (probe_expr y v) m)
            (pin_if is_value (item_field y v) (probe_expr x v) n))
        (eval-same_lem h b y s (and-right (is_apart x) _ p))
        (eval-same_lem h b x s (and-left _ _ p))
  pinned-same h b (bin member x y) v s p =
      ap (pin_if in_values (item_field x v) (probe_expr y v))
        (eval-same_lem h b y s (and-right (is_apart x) _ p))
  pinned-same h b e v s p = refl

  pinned_in-same :
      {F : Type 0} (h : Host F) (b : CallBuiltin F) (test : OptExpr F) (v : String) (s : Env F)
      → opt_apart test ≡ true
      → pinned_in h b true test v s ≡ pinned_in h b false test v s
  pinned_in-same h b absent v s p = refl
  pinned_in-same h b (present e) v s p =
      ap (λ m. if v == "" then none else m) (pinned-same h b e v s p)

-- The value of an expression is the same with row indexes and early stops as without: an aggregate or
-- a lookup over any rows, filtered by any predicate, at any depth. The condition is that no lookup in
-- an aggregate's predicate reads a collection that has the name of the aggregate's item variable.
pub eval-same :
    {F : Type 0} (h : Host F) (b : CallBuiltin F) (e : Expr F) (s : Env F)
    → is_apart e ≡ true
    → eval h b true e s ≡ eval h b false e s
eval-same h b e s p = eval-same_lem h b e s p
