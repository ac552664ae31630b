-- ===== src/Runtime/Expr.antt =====
-- internal/ir/ir.go: the expressions of a compiled program that the server evaluates, and
-- runtime/rowindex.go: what of a predicate can be read from an index. A literal holds its value; an
-- aggregate has no ordering, a literal of a wire type is left out.
use fct.Base.{
  Bool, true, false, ◌&&◌, ◌||◌, Option, none, some, not, ◌==◌, string_eq, if◌then◌else◌, String,
}
use fct.Runtime.Value.{Any}
use fct.Runtime.Value.Ops.{BinOp}
use fct.Runtime.Value.Reduce.{Reducer}

pub data UnOp : Type 0 where
  lnot minus complement : UnOp

pub data AggOp : Type 0 where
  exists count rows : AggOp
  -- of a text column or of numbers
  reduce : Bool → Reducer → AggOp

mutual
  pub data Expr (F : Type 0) : Type 0 where
    lit : Any F → Expr F
    list : Exprs F → Expr F
    ref : String → Expr F
    get : Expr F → String → Expr F
    index : Expr F → Expr F → Expr F
    astate : String → Expr F
    call : String → Exprs F → Expr F
    un : UnOp → Expr F → Expr F
    bin : BinOp → Expr F → Expr F → Expr F
    -- a row's field by the row's id; the row itself for the field ""
    eget : String → Expr F → String → Expr F
    -- operation, field, item variable, collection; predicate, selection, limit
    agg : AggOp → String → String → String → OptExpr F → OptExpr F → OptExpr F → Expr F

  pub data Exprs (F : Type 0) : Type 0 where
    no_more : Exprs F
    also : Expr F → Exprs F → Exprs F

  pub data OptExpr (F : Type 0) : Type 0 where
    absent : OptExpr F
    present : Expr F → OptExpr F

module _ {F : Type 0} where
  -- itemField: `v.f`, a stored field of the item itself.
  unfoldable pub item_field : Expr F → String → Option String
  item_field (get (ref name) field) v = if not (field == "") && name == v then some field else none
  item_field other v = none

abbrev pub is_conversion : String → Bool
is_conversion name =
    name == "toInt" || name == "toStr" || name == "lower" || name == "upper" || name == "trim"

-- probeExpr: an expression that is evaluated once for the whole predicate.
unfoldable mutual
  pub probe_expr : {F : Type 0} → Expr F → String → Bool
  probe_expr (lit value) v = true
  probe_expr (list es) v = probe_exprs es v
  probe_expr (ref name) v = not (name == v)
  probe_expr (get e field) v = probe_expr e v
  probe_expr (index e key) v = false
  probe_expr (astate op) v = false
  probe_expr (call name es) v = is_conversion name && probe_exprs es v
  probe_expr (un op e) v = probe_expr e v
  probe_expr (bin op l r) v = probe_expr l v && probe_expr r v
  probe_expr (eget coll key field) v = probe_expr key v
  probe_expr (agg op field var coll test sel limit) v = false

  pub probe_exprs : {F : Type 0} → Exprs F → String → Bool
  probe_exprs no_more v = true
  probe_exprs (also e es) v = probe_expr e v && probe_exprs es v
