-- ===== src/Ir/Types.antt =====
-- internal/ir/types.go: the types that the compiler infers for view expressions. Calls, derives that
-- are inlined, records of actions and wire types are left out.
pub mod Fits
pub mod Cores
pub mod Operators
pub mod Reads
pub mod Rows
pub mod Forms
pub mod Numbers
pub mod Sound
mod Tests
use fct.Base.{
  ℕ, Bool, true, false, not, ◌&&◌, ◌||◌, Option, none, some, List, [], ◌∷◌, ◌==◌, string_eq,
  if◌then◌else◌, String, Map, lookup, elem, all,
}
use fct.Runtime.Value.Ops.{BinOp, plus, minus, times, over, modulo, band, bor, bxor, shl, shr}
use fct.Runtime.Value.Reduce.{Reducer, least, most}
use fct.Runtime.Expr.{UnOp, lnot, minus as negation, complement}
use fct.Ir.Lower.{
  Node, literal, list_lit, name, field_of, entity_get, at_index, act_state, unary, binary,
  aggregate, Nodes, no_node, and_node, OptNode, no_opt, opt, NodeOp, exists, count, rows, reduce,
}

-- vtype: a core and whether the value is a list of it; the core "" is an unknown type.
pub record VType : Type 0 where
  pub core : String
  pub is_list : Bool

abbrev pub one : String → VType
one core = record { core = core; is_list = false }

abbrev pub unknown : VType
unknown = one ""

abbrev pub known : VType → Bool
known t = not (t.core == "")

-- Go's `==` on vtypes
abbrev pub vtype_eq : VType → VType → Bool
vtype_eq s t = s.core == t.core && (if s.is_list then t.is_list else not t.is_list)

-- The declarations that types are read from: an entity with the types of its fields.
pub record Tables : Type 0 where
  pub enums : List String
  pub entities : Map String (Map String String)
  pub states : Map String VType

abbrev pub or_unnamed : Option String → String
or_unnamed none = ""
or_unnamed (some core) = core

abbrev pub field_in : String → Option (Map String String) → String
field_in field none = ""
field_in field (some types) = or_unnamed (lookup field types)

-- e.entFieldType[entity][field]
unfoldable pub field_type : Tables → String → String → String
field_type env entity field = field_in field (lookup entity env.entities)

abbrev pub is_some {ℓ} : {A : Type ℓ} → Option A → Bool
is_some none = false
is_some (some a) = true

abbrev pub is_entity : Tables → String → Bool
is_entity env core = is_some (lookup core env.entities)

unfoldable pub unify : Tables → String → String
unify env core =
    if core == "money" || core == "date"
    then "int"
    else if core == ""
    then ""
    else if elem core env.enums
    then "text"
    else if is_entity env core
    then "int"
    else core

abbrev pub Locals : Type 0
Locals = String → Option VType

-- sc.with(v), with v typed as a row of a collection.
abbrev pub with_row : String → String → Locals → Locals
with_row v coll locals x = if x == v then some (one coll) else locals x

abbrev pub or_default {ℓ} : {A : Type ℓ} → A → Option A → A
or_default a none = a
or_default a (some b) = b

abbrev pub builtin_name : String → VType
builtin_name x =
    if elem x ("actor" ∷ "role" ∷ "tenantRole" ∷ "route" ∷ "session" ∷ "sessionToken" ∷ [])
    then one "text"
    else if x == "verified"
    then one "bool"
    else if x == "tenant"
    then one "int"
    else unknown

unfoldable pub name_type : Tables → Locals → String → VType
name_type env locals x = or_default (or_default (builtin_name x) (lookup x env.states)) (locals x)

unfoldable pub numeric : Tables → VType → VType
numeric env t = if t.is_list || not (unify env t.core == "int") then unknown else t

abbrev pub arith_same : VType → VType → VType
arith_same l r = if vtype_eq l r then l else if known l && known r then one "int" else unknown

-- arith
unfoldable pub arith_type : Tables → VType → VType → VType
arith_type env l r = arith_same (numeric env l) (numeric env r)

abbrev pub is_text_type : Tables → VType → Bool
is_text_type env t = known t && not t.is_list && unify env t.core == "text"

unfoldable pub plus_type : Tables → VType → VType → VType
plus_type env l r =
    if l.is_list && r.is_list
    then l
    else if is_text_type env l || is_text_type env r
    then one "text"
    else arith_type env l r

unfoldable pub binary_type : Tables → BinOp → VType → VType → VType
binary_type env plus l r = plus_type env l r
binary_type env minus l r = arith_type env l r
binary_type env times l r = arith_type env l r
binary_type env over l r = arith_type env l r
binary_type env modulo l r = arith_type env l r
binary_type env band l r = unknown
binary_type env bor l r = unknown
binary_type env bxor l r = unknown
binary_type env shl l r = unknown
binary_type env shr l r = unknown
binary_type env op l r = one "bool"

-- The type that every element agrees on.
unfoldable pub agreed : List VType → VType
agreed [] = unknown
agreed (t ∷ ts) =
    if all (λ s. vtype_eq s t) ts && known t && not t.is_list
    then record { core = t.core; is_list = true }
    else unknown

abbrev pub literal_type : String → VType
literal_type kind = if kind == "int" || kind == "text" || kind == "bool" then one kind else unknown

abbrev pub member_type : Tables → VType → String → VType
member_type env t field =
    if known t && not t.is_list && is_entity env t.core
    then one (field_type env t.core field)
    else unknown

abbrev pub element_type : VType → VType
element_type t = if t.is_list then one t.core else if t.core == "json" then one "json" else unknown

abbrev pub as_list : VType → VType
as_list t = record t { is_list = true }

abbrev pub row_type : Tables → String → String → VType
row_type env entity field = if field == "" then one entity else one (field_type env entity field)

-- exprType
unfoldable mutual
  pub expr_type : {F : Type 0} → Tables → Locals → Node F → VType
  expr_type env locals (literal kind value) = literal_type kind
  expr_type env locals (list_lit es) = agreed (expr_types env locals es)
  expr_type env locals (name x) = name_type env locals x
  expr_type env locals (field_of (name x) field) =
      if elem x env.enums then one x else member_type env (name_type env locals x) field
  expr_type env locals (field_of e field) = member_type env (expr_type env locals e) field
  expr_type env locals (entity_get entity key field) = row_type env entity field
  expr_type env locals (at_index e key) = element_type (expr_type env locals e)
  expr_type env locals (act_state op) = if op == "failed" then one "text" else one "bool"
  expr_type env locals (unary lnot e) = one "bool"
  expr_type env locals (unary negation e) = numeric env (expr_type env locals e)
  expr_type env locals (unary complement e) = unknown
  expr_type env locals (binary op l r) =
      binary_type env op (expr_type env locals l) (expr_type env locals r)
  expr_type env locals (aggregate count field v coll test sel limit) = one "int"
  expr_type env locals (aggregate exists field v coll test sel limit) = one "bool"
  expr_type env locals (aggregate rows field v coll test (opt sel) limit) =
      as_list (expr_type env (with_row v coll locals) sel)
  expr_type env locals (aggregate rows field v coll test no_opt limit) = as_list (one coll)
  expr_type env locals (aggregate (reduce op) field v coll test (opt sel) limit) =
      expr_type env (with_row v coll locals) sel
  expr_type env locals (aggregate (reduce op) field v coll test no_opt limit) =
      one (field_type env coll field)

  pub expr_types : {F : Type 0} → Tables → Locals → Nodes F → List VType
  expr_types env locals no_node = []
  expr_types env locals (and_node e es) = expr_type env locals e ∷ expr_types env locals es
