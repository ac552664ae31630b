-- ===== src/Ir/Types/Fits.antt =====
-- When a value has a type, and the expressions whose type the values keep.
use fct.Base.{
  Bool, true, false, not, ◌&&◌, ◌||◌, ◌≡◌, Option, none, some, ◌==◌, string_eq, if◌then◌else◌,
  String, Map, lookup, elem, all,
}
use fct.Runtime.Value.{Any, nil, int, bool, text, items, row, Fields, read_field, elems, list_rows}
use fct.Runtime.Value.Ops.{BinOp, plus}
use fct.Runtime.Eval.{Env}
use fct.Ir.Lower.{
  Node, list_lit, name, field_of, entity_get, at_index, unary, binary, aggregate, Nodes, no_node,
  and_node, no_opt, opt, rows, reduce, is_extreme,
}
use fct.Ir.Types.{
  VType, one, known, vtype_eq, Tables, field_type, is_entity, unify, Locals, with_row, name_type,
  is_text_type, expr_type,
}

module _ {F : Type 0} where
  abbrev pub is_nil : Any F → Bool
  is_nil nil = true
  is_nil v = false

  abbrev pub is_int : Any F → Bool
  is_int (int n) = true
  is_int v = false

  abbrev pub is_text : Any F → Bool
  is_text (text t) = true
  is_text v = false

  abbrev pub is_bool : Any F → Bool
  is_bool (bool b) = true
  is_bool v = false

  -- A value of int, text or bool; of another core nothing is said.
  abbrev pub scalar : String → Any F → Bool
  scalar core v =
      if core == "int"
      then is_int v
      else if core == "text"
      then is_text v
      else if core == "bool"
      then is_bool v
      else true

  -- A stored field: of its type, or not there.
  abbrev pub fits_field : Tables → Fields F → String × String → Bool
  fits_field env fields (own, core) =
      is_nil (read_field own fields) || scalar (unify env core) (read_field own fields)

  -- A row of an entity, or its id.
  abbrev pub fits_entity : Tables → Map String String → Any F → Bool
  fits_entity env types (int n) = true
  fits_entity env types (row fields) = all (fits_field env fields) types
  fits_entity env types v = false

  abbrev pub fits_core_in : Tables → String → Option (Map String String) → Any F → Bool
  fits_core_in env core none v = scalar (unify env core) v
  fits_core_in env core (some types) v = fits_entity env types v

  unfoldable pub fits_core : Tables → String → Any F → Bool
  fits_core env core v = fits_core_in env core (lookup core env.entities) v

  abbrev pub fits_list : Tables → String → Any F → Bool
  fits_list env core (items xs) = all (fits_core env core) (elems xs)
  fits_list env core v = false

  -- A value has a type; the unknown type says nothing.
  unfoldable pub fits : Tables → VType → Any F → Bool
  fits env t v =
      not (known t) || (if t.is_list then fits_list env t.core v else fits_core env t.core v)

  -- Of a type, or absent where the expression may read what is not there.
  abbrev pub fits_if_there : Tables → Bool → VType → Any F → Bool
  fits_if_there env firm t v = (not firm && is_nil v) || fits env t v

-- The names of types are told apart.
pub record IsProper (env : Tables) : Type 0 where
  pub int_unify : unify env "int" ≡ "int"
  pub int_alone : lookup "int" env.entities ≡ none
  pub text_unify : unify env "text" ≡ "text"
  pub text_alone : lookup "text" env.entities ≡ none
  pub bool_unify : unify env "bool" ≡ "bool"
  pub bool_alone : lookup "bool" env.entities ≡ none
  pub json_unify : unify env "json" ≡ "json"
  pub json_alone : lookup "json" env.entities ≡ none
  pub entity_unify : (c : String) → is_entity env c ≡ true → unify env c ≡ "int"
  pub enum_unify : (c : String) → elem c env.enums ≡ true → unify env c ≡ "text"
  pub enum_alone : (c : String) → elem c env.enums ≡ true → lookup c env.entities ≡ none

-- The values of names have their types, and the rows of a collection are its rows.
pub record Matches {F : Type 0} (env : Tables) (locals : Locals) (s : Env F) : Type 0 where
  pub names : (x : String) → fits env (name_type env locals x) (s x) ≡ true
  pub collections : (c : String) → all (fits_core env c) (list_rows (s c)) ≡ true

-- Never nil, where the names in scope are not.
unfoldable pub firm : {F : Type 0} → Tables → Node F → Bool
firm env (field_of (name x) field) = elem x env.enums
firm env (field_of e field) = false
firm env (entity_get entity key field) = false
firm env (at_index e key) = false
firm env e = true

-- No name of a type, so that an item variable of the name is no collection of rows.
abbrev pub is_plain : Tables → String → Bool
is_plain env v =
    not (is_entity env v)
    && not (unify env v == "int" || unify env v == "text" || unify env v == "bool")

-- What `+` needs: lists of one type, or a text, that are there.
abbrev pub joins : Tables → VType → Bool → VType → Bool → Bool
joins env l firm_l r firm_r =
    if l.is_list && r.is_list
    then firm_l && (firm_r && vtype_eq l r)
    else if is_text_type env l || is_text_type env r
    then (is_text_type env l && firm_l) || (is_text_type env r && firm_r)
    else true

abbrev pub is_number : Tables → VType → Bool
is_number env t = not (known t) || (not t.is_list && unify env t.core == "int")

abbrev pub plus_ok : Bool → BinOp → Bool
plus_ok ok plus = ok
plus_ok ok op = true

-- The forms whose inferred type holds at run time.
unfoldable mutual
  unfolding expr_type firm

  pub sound_form : {F : Type 0} → Tables → Locals → Node F → Bool
  sound_form env locals (list_lit es) = sound_forms env locals es
  sound_form env locals (field_of (name x) field) = true
  sound_form env locals (field_of e field) = sound_form env locals e
  sound_form env locals (at_index e key) = sound_form env locals e
  sound_form env locals (unary op e) = sound_form env locals e
  sound_form env locals (binary op l r) =
      sound_form env locals l
      && (sound_form env locals r
          && plus_ok
              (joins env (expr_type env locals l) (firm env l) (expr_type env locals r)
                (firm env r))
              op)
  sound_form env locals (aggregate rows field v coll test (opt sel) limit) =
      is_plain env v
      && (sound_form env (with_row v coll locals) sel
          && (firm env sel && not (expr_type env (with_row v coll locals) sel).is_list))
  sound_form env locals (aggregate (reduce op) field v coll test (opt sel) limit) =
      is_plain env v
      && (sound_form env (with_row v coll locals) sel
          && (is_number env (expr_type env (with_row v coll locals) sel) && field == ""))
  sound_form env locals (aggregate (reduce op) field v coll test no_opt limit) =
      (is_extreme op && not (field == "") && field_type env coll field == "text")
      || is_number env (one (field_type env coll field))
  sound_form env locals e = true

  pub sound_forms : {F : Type 0} → Tables → Locals → Nodes F → Bool
  sound_forms env locals no_node = true
  sound_forms env locals (and_node e es) =
      (sound_form env locals e && firm env e) && sound_forms env locals es
