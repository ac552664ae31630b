-- ===== src/Ir/Types/Sound.antt =====
-- An expression has a value of the type that the compiler infers for it.
use fct.Base.{
  ℕ, Bool, true, false, not, ◌&&◌, ◌||◌, ◌≡◌, refl, sym, subst, inl, inr, Option, some, List, ◌==◌,
  string_eq, if◌then◌else◌, String, elem, all, nat_eq, arith, Bool-cases,
}
use fct.Base.Text.{codes}
use fct.Runtime.Value.{Any, text, Host, list_rows}
use fct.Runtime.Value.Reduce.{Reducer}
use fct.Runtime.Expr.{lnot, minus as negation, complement, AggOp}
use fct.Runtime.Eval.{
  Env, bind, CallBuiltin, filtered, answer, eval, eval_list, eval_test, eval_limit, pinned_in,
}
use fct.Runtime.Eval.Probe.{and-left, and-right}
use fct.Runtime.Eval.Same.{eval-same, is_apart}
use fct.Ir.Lower.{
  Node, literal, list_lit, name, field_of, entity_get, at_index, act_state, unary, binary,
  aggregate, Nodes, no_node, and_node, OptNode, no_opt, opt, NodeOp, exists, count, rows, reduce,
  is_extreme, agg_op, lower, lower_all, lower_opt,
}
use fct.Ir.Types.{
  VType, one, unknown, known, vtype_eq, Tables, field_type, Locals, with_row, name_type, expr_type,
  expr_types,
}
use fct.Ir.Types.Fits.{
  is_text, fits_core, fits, fits_if_there, IsProper, Matches, firm, is_plain, is_number, sound_form,
  sound_forms,
}
use fct.Ir.Types.Cores.{fits_core_alone, fits-unknown}
use fct.Ir.Types.Operators.{fits_bool, fits_int, negate-fits}
use fct.Ir.Types.Reads.{member-fits, index-fits}
use fct.Ir.Types.Forms.{
  literal-fits, fits-one, bind-Matches, filtered-all, row-fits, act-fits, binary-eval-fits,
  rows-fit, shaped-rows-fit, agreed-fits, element-core, strict-fits,
}
use fct.Ir.Types.Numbers.{column-fits, selected-fits}

and-intro : (a b : Bool) → a ≡ true → b ≡ true → (a && b) ≡ true
and-intro a b p q = ground (arith)

-- An expression over a row, and a column, are not marked both.
unmarked :
    (op : Reducer) (field : String) (c : Bool)
    → (field == "") ≡ true
    → (is_extreme op && not (field == "") && c) ≡ false
unmarked op field c e = rw e (ground (arith))

marked_or_number :
    (marked is_text number : Bool)
    → ((marked && is_text) || number) ≡ true
    → (if marked && is_text then is_text else number) ≡ true
marked_or_number marked is_text number e = ground (arith)

module _ {F : Type 0} (h : Host F) (b : CallBuiltin F) (env : Tables) where
  -- The limit and the rows of an aggregate of the source.
  abbrev limit_of : OptNode F → Env F → Option ℕ
  limit_of limit s = eval_limit h b false (lower_opt h (field_type env) env.enums limit) s

  abbrev kept : NodeOp → String → String → String → OptNode F → OptNode F → Env F → List (Any F)
  kept op field v coll test limit s =
      filtered h false (agg_op (field_type env) op coll field) (limit_of limit s)
        (pinned_in h b false (lower_opt h (field_type env) env.enums test) v s)
        (eval_test h b false (lower_opt h (field_type env) env.enums test) v s) (list_rows (s coll))

  kept-all :
      (proper : IsProper env) (locals : Locals) (op : NodeOp) (field v coll : String)
      (test limit : OptNode F) (s : Env F)
      → Matches env locals s
      → all (fits_core env coll) (kept op field v coll test limit s) ≡ true
  kept-all proper locals op field v coll test limit s m =
      filtered-all h env proper (agg_op (field_type env) op coll field) (limit_of limit s)
        (pinned_in h b false (lower_opt h (field_type env) env.enums test) v s)
        (eval_test h b false (lower_opt h (field_type env) env.enums test) v s) (fits_core env coll)
        (list_rows (s coll)) (m.collections coll)

mutual
  unfolding expr_type lower eval firm sound_form

  expr-fits :
      {F : Type 0} (h : Host F) (b : CallBuiltin F) (env : Tables) (proper : IsProper env)
      (e : Node F) (locals : Locals) (s : Env F)
      → Matches env locals s
      → sound_form env locals e ≡ true
      → fits_if_there env
          (firm env e)
          (expr_type env locals e)
          (eval h b false (lower h (field_type env) env.enums e) s)
        ≡ true
  expr-fits h b env proper (literal kind value) locals s m ok = literal-fits h env proper kind value
  expr-fits h b env proper (list_lit es) locals s m ok =
      agreed-fits h env proper (expr_types env locals es) _
        λ t k single same. exprs-fit h b env proper es locals s m ok t k single same
  expr-fits h b env proper (name x) locals s m ok = m.names x
  expr-fits h b env proper (field_of (name x) field) locals s m ok =
      elim (Bool-cases (elem x env.enums)) [
        | inl e ↦ rw e (
            fits-one h env proper x (text (codes field))
              (fits_core_alone env x "text" _ (proper.enum_alone x e) (proper.enum_unify x e)))
        | inr e ↦
            rw e (member-fits env proper (name_type env locals x) true (s x) field (m.names x))
      ]
  expr-fits h b env proper (field_of e field) locals s m ok =
      member-fits env proper (expr_type env locals e) (firm env e) _ field
        (expr-fits h b env proper e locals s m ok)
  expr-fits h b env proper (entity_get entity key field) locals s m ok =
      row-fits h env proper entity field _ (list_rows (s entity)) (m.collections entity)
  expr-fits h b env proper (at_index e key) locals s m ok =
      index-fits env proper h (expr_type env locals e) (firm env e) _ _
        (expr-fits h b env proper e locals s m ok)
  expr-fits h b env proper (act_state op) locals s m ok = act-fits h env proper op
  expr-fits h b env proper (unary lnot e) locals s m ok = fits_bool h env proper _
  expr-fits h b env proper (unary negation e) locals s m ok =
      negate-fits h env proper (expr_type env locals e) (firm env e) _
        (expr-fits h b env proper e locals s m ok)
  expr-fits h b env proper (unary complement e) locals s m ok = fits-unknown env unknown _ refl
  expr-fits h b env proper (binary op l r) locals s m ok =
      binary-eval-fits h env proper b op (expr_type env locals l) (expr_type env locals r)
        (firm env l) (firm env r) _ _ s (expr-fits h b env proper l locals s m (and-left _ _ ok))
        (expr-fits h b env proper r locals s m
          (and-left _ _ (and-right (sound_form env locals l) _ ok)))
        (and-right (sound_form env locals r) _ (and-right (sound_form env locals l) _ ok))
  expr-fits h b env proper (aggregate count field v coll test sel limit) locals s m ok =
      fits_int h env proper _
  expr-fits h b env proper (aggregate exists field v coll test sel limit) locals s m ok =
      fits_bool h env proper _
  expr-fits h b env proper (aggregate rows field v coll test no_opt limit) locals s m ok =
      rows-fit h env proper coll field (limit_of h b env limit s)
        (kept h b env rows field v coll test limit s)
        (kept-all h b env proper locals rows field v coll test limit s m)
  expr-fits h b env proper (aggregate rows field v coll test (opt sel) limit) locals s m ok =
      shaped-rows-fit h env proper (expr_type env (with_row v coll locals) sel) (firm env sel) coll
        field (λ r. eval h b false (lower h (field_type env) env.enums sel) (bind v r s))
        (limit_of h b env limit s) (kept h b env rows field v coll test limit s)
        (and-right (sound_form env (with_row v coll locals) sel) _
          (and-right (is_plain env v) _ ok))
        (λ r e.
          expr-fits h b env proper sel (with_row v coll locals) (bind v r s)
            (bind-Matches h env proper locals s v coll r m (and-left _ _ ok) e)
            (and-left _ _ (and-right (is_plain env v) _ ok)))
        (kept-all h b env proper locals rows field v coll test limit s m)
  expr-fits h b env proper (aggregate (reduce op) field v coll test no_opt limit) locals s m ok =
      column-fits h env proper
        (is_extreme op && not (field == "") && field_type env coll field == "text") op coll field
        (limit_of h b env limit s) (kept h b env (reduce op) field v coll test limit s)
        (marked_or_number (is_extreme op && not (field == "")) (field_type env coll field == "text")
          (is_number env (one (field_type env coll field))) ok)
        (kept-all h b env proper locals (reduce op) field v coll test limit s m)
  expr-fits h b env proper (aggregate (reduce op) field v coll test (opt sel) limit) locals s m ok =
      let inner : Bool = sound_form env (with_row v coll locals) sel in
      let rest = and-right (is_plain env v) _ ok in
      let t : VType = expr_type env (with_row v coll locals) sel in
      subst
        (λ (marked : Bool).
          fits env t (
            answer h (AggOp.reduce marked op) field
              (some (λ r. eval h b false (lower h (field_type env) env.enums sel) (bind v r s)))
              (limit_of h b env limit s) (kept h b env (reduce op) field v coll test limit s))
          ≡ true)
        (sym (
          unmarked op field (field_type env coll field == "text")
            (and-right (is_number env t) _ (and-right inner _ rest))))
        (selected-fits h env proper t (firm env sel) op coll field
          (λ r. eval h b false (lower h (field_type env) env.enums sel) (bind v r s))
          (limit_of h b env limit s) (kept h b env (reduce op) field v coll test limit s)
          (and-left _ _ (and-right inner _ rest))
          (λ r e.
            expr-fits h b env proper sel (with_row v coll locals) (bind v r s)
              (bind-Matches h env proper locals s v coll r m (and-left _ _ ok) e)
              (and-left _ _ rest))
          (kept-all h b env proper locals (reduce op) field v coll test limit s m))

  exprs-fit :
      {F : Type 0} (h : Host F) (b : CallBuiltin F) (env : Tables) (proper : IsProper env)
      (es : Nodes F) (locals : Locals) (s : Env F)
      → Matches env locals s
      → sound_forms env locals es ≡ true
      → (t : VType) → known t ≡ true
      → t.is_list ≡ false
      → all (λ u. vtype_eq u t) (expr_types env locals es) ≡ true
      → all
          (fits_core env t.core)
          (eval_list h b false (lower_all h (field_type env) env.enums es) s)
        ≡ true
  exprs-fit h b env proper no_node locals s m ok t k single same = refl
  exprs-fit h b env proper (and_node e es) locals s m ok t k single same =
      and-intro _ _
        (element-core h env proper (expr_type env locals e) t _ (and-left _ _ same) k single (
          strict-fits h env proper (firm env e) (expr_type env locals e) _
            (and-right (sound_form env locals e) _ (and-left _ _ ok))
            (expr-fits h b env proper e locals s m (and-left _ _ (and-left _ _ ok)))))
        (exprs-fit h b env proper es locals s m
          (and-right (sound_form env locals e && firm env e) _ ok) t k single
          (and-right (vtype_eq (expr_type env locals e) t) _ same))

-- What the compiler lowers an expression to has, when the authority evaluates it, a value of the type
-- that the compiler infers for it: an int, a text, a bool, a row or an id of an entity with fields of
-- their types, a list of such. A read of a field, an element or a row by its id may give nil instead.
-- The conditions are that the names in scope have their types and collections hold rows of theirs,
-- that type names are told apart, and that the form is sound: a `+` of texts has a text, and a `+` of
-- lists two lists of one type, that is no such read; a list's elements and a list aggregate's
-- selection are no such reads, and the selection is no list; a sum, an average, a minimum or a maximum
-- is of numbers or of a text column; an item variable is no name of a type; and no lookup in a
-- predicate reads a collection named as the item variable.
pub eval-fits :
    {F : Type 0} (h : Host F) (b : CallBuiltin F) (env : Tables) (e : Node F) (locals : Locals)
    (s : Env F)
    → IsProper env
    → Matches env locals s
    → sound_form env locals e ≡ true
    → is_apart (lower h (field_type env) env.enums e) ≡ true
    → fits_if_there env
        (firm env e)
        (expr_type env locals e)
        (eval h b true (lower h (field_type env) env.enums e) s)
      ≡ true
eval-fits h b env e locals s proper m ok apart =
    subst (λ v. fits_if_there env (firm env e) (expr_type env locals e) v ≡ true)
      (sym (eval-same h b (lower h (field_type env) env.enums e) s apart))
      (expr-fits h b env proper e locals s m ok)
