-- ===== src/Runtime/Eval/Probe.antt =====
-- What a predicate pins: an expression that does not read the item has one value for all rows, and
-- the predicate holds only of rows whose pinned field has it.
use fct.Base.{
  ◌≡◌, refl, ap, Bool, true, false, not, ◌&&◌, ◌∷◌, if◌then◌else◌, String, ◌==◌, string_eq, arith,
}
use mathlib.Core.Path.{ap₂}
use fct.Runtime.Value.{Any, bool, Host, get_field, truthy, of_elems, items, list_rows}
use fct.Runtime.Value.Ops.{BinOp, land, lor, apply_bin}
use fct.Runtime.Expr.{
  Expr, lit, list, ref, get, index, astate, call, un, bin, eget, agg, Exprs, no_more, also,
  is_conversion, probe_expr, probe_exprs,
}
use fct.Runtime.Eval.{Env, bind, entity_get, apply_un, CallBuiltin, eval, eval_list}

-- No lookup outside of an aggregate reads a collection by the name `v`.
unfoldable mutual
  pub reads_apart : {F : Type 0} → Expr F → String → Bool
  reads_apart (lit value) v = true
  reads_apart (list es) v = all_read_apart es v
  reads_apart (ref name) v = true
  reads_apart (get e field) v = reads_apart e v
  reads_apart (index e key) v = reads_apart e v && reads_apart key v
  reads_apart (astate op) v = true
  reads_apart (call name es) v = all_read_apart es v
  reads_apart (un op e) v = reads_apart e v
  reads_apart (bin op l r) v = reads_apart l v && reads_apart r v
  reads_apart (eget coll key field) v = not (coll == v) && reads_apart key v
  reads_apart (agg op field item coll test sel limit) v = true

  pub all_read_apart : {F : Type 0} → Exprs F → String → Bool
  all_read_apart no_more v = true
  all_read_apart (also e es) v = reads_apart e v && all_read_apart es v

pub and-left : (a b : Bool) → (a && b) ≡ true → a ≡ true
and-left a b e = ground arith

pub and-right : (a b : Bool) → (a && b) ≡ true → b ≡ true
and-right a b e = ground arith

bind_other :
    {F : Type 0} (v name : String) (r : Any F) (s : Env F)
    → not (name == v) ≡ true
    → bind v r s name ≡ s name
bind_other v name r s e = ground arith

-- A binary expression of operands with the same values has the same value.
pub bin-same :
    {F : Type 0} (h : Host F) (b : CallBuiltin F) (i j : Bool) (op : BinOp) (x y : Expr F)
    (s t : Env F)
    → eval h b i x s ≡ eval h b j x t
    → eval h b i y s ≡ eval h b j y t
    → eval h b i (bin op x y) s ≡ eval h b j (bin op x y) t
unfolding eval
bin-same h b i j land x y s t p q =
    ap₂ (λ m n. if not (truthy h m) then bool false else bool (truthy h n)) p q
bin-same h b i j lor x y s t p q =
    ap₂ (λ m n. if truthy h m then bool true else bool (truthy h n)) p q
bin-same h b i j op x y s t p q = ap₂ (apply_bin h op) p q

-- A probe has the same value whatever row is bound.
mutual
  unfolding probe_expr reads_apart eval

  pub eval-probe :
      {F : Type 0} (h : Host F) (b : CallBuiltin F) (v : String) (r : Any F) (s : Env F)
      (e : Expr F)
      → probe_expr e v ≡ true
      → reads_apart e v ≡ true
      → eval h b false e (bind v r s) ≡ eval h b false e s
  eval-probe h b v r s (lit value) p q = refl
  eval-probe h b v r s (list es) p q =
      ap (λ xs. items (of_elems xs)) (eval_list-probe h b v r s es p q)
  eval-probe h b v r s (ref name) p q = bind_other v name r s p
  eval-probe h b v r s (get e field) p q = ap (λ x. get_field x field) (eval-probe h b v r s e p q)
  eval-probe h b v r s (index e key) p q = absurd (cc)
  eval-probe h b v r s (astate op) p q = refl
  eval-probe h b v r s (call name es) p q =
      ap (b name) (eval_list-probe h b v r s es (and-right (is_conversion name) _ p) q)
  eval-probe h b v r s (un op e) p q = ap (apply_un h op) (eval-probe h b v r s e p q)
  eval-probe h b v r s (bin op x y) p q =
      bin-same h b false false op x y (bind v r s) s
        (eval-probe h b v r s x (and-left _ _ p) (and-left _ _ q))
        (eval-probe h b v r s y (and-right (probe_expr x v) _ p) (and-right (reads_apart x v) _ q))
  eval-probe h b v r s (eget coll key field) p q =
      ap₂ (λ c k. entity_get h false (list_rows c) k field) (bind_other v coll r s (and-left _ _ q))
        (eval-probe h b v r s key p (and-right (not (coll == v)) _ q))
  eval-probe h b v r s (agg op field item coll test sel limit) p q = absurd (cc)

  eval_list-probe :
      {F : Type 0} (h : Host F) (b : CallBuiltin F) (v : String) (r : Any F) (s : Env F)
      (es : Exprs F)
      → probe_exprs es v ≡ true
      → all_read_apart es v ≡ true
      → eval_list h b false es (bind v r s) ≡ eval_list h b false es s
  eval_list-probe h b v r s no_more p q = refl
  eval_list-probe h b v r s (also e es) p q =
      ap₂ (λ x xs. x ∷ xs) (eval-probe h b v r s e (and-left _ _ p) (and-left _ _ q))
        (eval_list-probe h b v r s es (and-right (probe_expr e v) _ p)
          (and-right (reads_apart e v) _ q))
