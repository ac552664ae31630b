-- ===== src/Ir/Lower.antt =====
-- internal/ir/build.go: lower, from the expressions of the source (internal/ast/ast.go) to those that
-- run, and markTextAggs behind it. Calls, derives that are inlined, literals of maps and wire types
-- and the ordering of an aggregate are left out.
use fct.Base.{Bool, true, false, not, ◌&&◌, List, ◌==◌, string_eq, if◌then◌else◌, String, elem}
use fct.Base.Text.{codes}
use fct.Runtime.Value.{Any, int, float, bool, text, Host, to_int, to_str}
use fct.Runtime.Value.Ops.{BinOp}
use fct.Runtime.Value.Reduce.{Reducer, least, most}
use fct.Runtime.Expr.{
  Expr, lit, list, ref, get, index, astate, un, bin, eget, agg, Exprs, no_more, also, OptExpr,
  absent, present, UnOp, AggOp,
}

pub data NodeOp : Type 0 where
  exists count rows : NodeOp
  reduce : Reducer → NodeOp

mutual
  pub data Node (F : Type 0) : Type 0 where
    -- its kind, and the value that the parser read
    literal : String → Any F → Node F
    list_lit : Nodes F → Node F
    name : String → Node F
    field_of : Node F → String → Node F
    entity_get : String → Node F → String → Node F
    at_index : Node F → Node F → Node F
    act_state : String → Node F
    unary : UnOp → Node F → Node F
    binary : BinOp → Node F → Node F → Node F
    -- operation, field, item variable, collection; predicate, selection, limit
    aggregate : NodeOp → String → String → String → OptNode F → OptNode F → OptNode F → Node F

  pub data Nodes (F : Type 0) : Type 0 where
    no_node : Nodes F
    and_node : Node F → Nodes F → Nodes F

  pub data OptNode (F : Type 0) : Type 0 where
    no_opt : OptNode F
    opt : Node F → OptNode F

module _ {F : Type 0} where
  abbrev pub as_bool : Any F → Any F
  as_bool (bool b) = bool b
  as_bool other = bool false

  abbrev pub as_float : Host F → Any F → Any F
  as_float h (float f) = float f
  as_float h other = float (h.of_int 0)

  -- litValue
  unfoldable pub lit_value : Host F → String → Any F → Any F
  lit_value h kind value =
      if kind == "int"
      then int (to_int h value)
      else if kind == "float"
      then as_float h value
      else if kind == "bool"
      then as_bool value
      else text (to_str h value)

abbrev pub is_extreme : Reducer → Bool
is_extreme least = true
is_extreme most = true
is_extreme other = false

-- The aggregate's operation, with the mark of a `min` or `max` over a text column.
unfoldable pub agg_op : (String → String → String) → NodeOp → String → String → AggOp
agg_op types exists coll field = AggOp.exists
agg_op types count coll field = AggOp.count
agg_op types rows coll field = AggOp.rows
agg_op types (reduce op) coll field =
    AggOp.reduce (is_extreme op && not (field == "") && types coll field == "text") op

-- `types` is entFieldType.
unfoldable mutual
  unfolding lit_value agg_op

  pub lower : {F : Type 0} → Host F → (String → String → String) → List String → Node F → Expr F
  lower h types enums (literal kind value) = lit (lit_value h kind value)
  lower h types enums (list_lit es) = list (lower_all h types enums es)
  lower h types enums (name x) = ref x
  lower h types enums (field_of (name x) field) =
      if elem x enums then lit (text (codes field)) else get (ref x) field
  lower h types enums (field_of e field) = get (lower h types enums e) field
  lower h types enums (entity_get entity key field) = eget entity (lower h types enums key) field
  lower h types enums (at_index e key) = index (lower h types enums e) (lower h types enums key)
  lower h types enums (act_state op) = astate op
  lower h types enums (unary op e) = un op (lower h types enums e)
  lower h types enums (binary op l r) = bin op (lower h types enums l) (lower h types enums r)
  lower h types enums (aggregate op field v coll test sel limit) =
      agg (agg_op types op coll field) field v coll (lower_opt h types enums test)
        (lower_opt h types enums sel) (lower_opt h types enums limit)

  pub lower_all :
      {F : Type 0} → Host F → (String → String → String) → List String → Nodes F → Exprs F
  lower_all h types enums no_node = no_more
  lower_all h types enums (and_node e es) =
      also (lower h types enums e) (lower_all h types enums es)

  pub lower_opt :
      {F : Type 0} → Host F → (String → String → String) → List String → OptNode F → OptExpr F
  lower_opt h types enums no_opt = absent
  lower_opt h types enums (opt e) = present (lower h types enums e)
