-- ===== src/Ir/Types/Forms.antt =====
-- The value of each form of expression has the type that the compiler infers for it.
use fct.Base.{
  ℕ, Bool, true, false, not, ◌&&◌, ◌≡◌, refl, sym, ap, subst, ◌∙◌, inl, inr, Option, none, some,
  List, [], ◌∷◌, ◌==◌, string_eq, if◌then◌else◌, String, all, map, nat_eq, arith, Bool-cases, keep,
  ==_refl,
}
use fct.Runtime.Value.{
  Any, nil, bool, text, items, Host, of_elems, list_rows, get_field, to_int, to_str,
}
use fct.Runtime.Value.Ops.{BinOp, land, lor}
use fct.Runtime.Expr.{Expr, bin, AggOp}
use fct.Runtime.Eval.{
  Env, bind, Pin, CallBuiltin, find_row, row_or_field, filtered, filter_rows, candidate_rows,
  cap_of, cut_to, answer, astate_value, eval,
}
use fct.Runtime.Eval.Filter.{candidates_off, needed_off}
use fct.Ir.Lower.{lit_value}
use fct.Ir.Types.{
  VType, one, unknown, known, vtype_eq, Tables, field_type, is_entity, Locals, with_row, name_type,
  binary_type, agreed, literal_type, as_list, row_type,
}
use fct.Ir.Types.Fits.{
  is_nil, fits_core, fits, fits_if_there, IsProper, Matches, firm, is_plain, joins, plus_ok,
}
use fct.Ir.Types.Cores.{vtype_eq-known, fits_core-plain, fits-unknown}
use fct.Ir.Types.Operators.{elems-of_elems, fits_bool, fits_text, fits_int, binary-fits}
use fct.Ir.Types.Reads.{undeclared, or-right, fits-element, entity-field}
use fct.Ir.Types.Rows.{all-keep, all-cut_to, all-map, find_row-all}

vtype_eq_refl : (t : VType) → vtype_eq t t ≡ true
vtype_eq_refl t = ground (arith, ==_refl t.core)

module _ {F : Type 0} (h : Host F) (env : Tables) (proper : IsProper env) where
  bool-literal-fits : (value : Any F) → fits env (one "bool") (lit_value h "bool" value) ≡ true
  unfolding lit_value
  bool-literal-fits (bool b) = fits_bool h env proper b
  bool-literal-fits nil = fits_bool h env proper false
  bool-literal-fits v = fits_bool h env proper false

  pub literal-fits :
      (kind : String) (value : Any F) → fits env (literal_type kind) (lit_value h kind value) ≡ true
  literal-fits kind value = elim (Bool-cases (kind == "int")) [
    | inl e ↦
        subst (λ k. fits env (literal_type k) (lit_value h k value) ≡ true)
          (sym ((string_eq.decides kind "int").0 e))
          (unfold lit_value in fits_int h env proper (to_int h value))
    | inr not_int ↦ elim (Bool-cases (kind == "text")) [
      | inl e ↦
          subst (λ k. fits env (literal_type k) (lit_value h k value) ≡ true)
            (sym ((string_eq.decides kind "text").0 e))
            (unfold lit_value in fits_text h env proper (text (to_str h value)) refl)
      | inr not_text ↦ elim (Bool-cases (kind == "bool")) [
        | inl e ↦
            subst (λ k. fits env (literal_type k) (lit_value h k value) ≡ true)
              (sym ((string_eq.decides kind "bool").0 e)) (bool-literal-fits value)
        | inr not_bool ↦ rw (not_int, not_text, not_bool) (fits-unknown env unknown _ refl)
      ]
    ]
  ]

  all-true : (p : Any F → Bool) (xs : List (Any F)) → ((x : Any F) → p x ≡ true) → all p xs ≡ true
  all-true p [] k = refl
  all-true p (x ∷ xs) k = ground (arith, k x, all-true p xs k)

  pub fits-one :
      (core : String) (v : Any F) → fits_core env core v ≡ true → fits env (one core) v ≡ true
  unfolding fits
  fits-one core v e = or-right (not (known (one core))) e

  -- The scope of an aggregate's item.
  pub bind-Matches :
      (locals : Locals) (s : Env F) (v coll : String) (r : Any F)
      → Matches env locals s
      → is_plain env v ≡ true
      → fits_core env coll r ≡ true
      → Matches env (with_row v coll locals) (bind v r s)
  unfolding name_type
  bind-Matches locals s v coll r m plain fit = record {
    names = λ x. elim (Bool-cases (x == v)) [
      | inl same ↦ rw same (fits-one coll r fit)
      | inr other ↦ rw other (m.names x)
    ];
    collections = λ c. elim (Bool-cases (c == v)) [
      | inl same ↦ rw same (
          subst (λ d. all (fits_core env d) (list_rows r) ≡ true)
            (sym ((string_eq.decides c v).0 same))
            (all-true (fits_core env v) (list_rows r) λ x. fits_core-plain env v x plain))
      | inr other ↦ rw other (m.collections c)
    ];
  }

  pub filtered-all :
      (op : AggOp) (limit : Option ℕ) (pin : Option (Pin F)) (test : Option (Any F → Bool))
      (p : Any F → Bool) (xs : List (Any F))
      → all p xs ≡ true
      → all p (filtered h false op limit pin test xs) ≡ true
  unfolding filtered
  filtered-all op limit pin none p xs a = a
  filtered-all op limit pin (some q) p xs a =
      subst (λ kept. all p kept ≡ true)
        (sym (
          ap (λ n. filter_rows n q (candidate_rows h false pin xs)) (needed_off h op limit)
          ∙ ap (keep q) (candidates_off h pin xs)))
        (all-keep p q xs a)

  pub row-fits :
      (entity field : String) (key : Any F) (xs : List (Any F))
      → all (fits_core env entity) xs ≡ true
      → fits_if_there env false (row_type env entity field) (row_or_field field (find_row h key xs))
        ≡ true
  row-fits entity field key xs a = elim (Bool-cases (field == "")) [
    | inl whole ↦ rw whole (
        fits-element env proper entity (find_row h key xs)
          (find_row-all h (fits_core env entity) key xs a))
    | inr part ↦ rw part (elim (Bool-cases (is_entity env entity)) [
      | inl declared ↦
          entity-field env proper entity field (find_row h key xs)
            (find_row-all h (fits_core env entity) key xs a) declared
      | inr none_such ↦ or-right (is_nil (get_field (find_row h key xs) field)) (
          fits-unknown env (one (field_type env entity field)) _
            (undeclared env entity field none_such))
    ])
  ]

  pub list-of-fits :
      (core : String) (xs : List (Any F))
      → all (fits_core env core) xs ≡ true
      → fits env (as_list (one core)) (items (of_elems xs)) ≡ true
  unfolding fits
  list-of-fits core xs a = or-right (not (known (one core))) (rw (elems-of_elems h xs) a)

  either_bool : (c x y : Bool) → fits {F = F} env (one "bool") (if c then bool x else bool y) ≡ true
  either_bool true x y = fits_bool h env proper x
  either_bool false x y = fits_bool h env proper y

  pub act-fits :
      (op : String)
      → fits env (if op == "failed" then one "text" else one "bool") (astate_value {F = F} op)
        ≡ true
  act-fits op = elim (Bool-cases (op == "failed")) [
    | inl e ↦ rw e (fits_text h env proper (text []) refl)
    | inr e ↦ rw e (fits_bool h env proper false)
  ]

  pub binary-eval-fits :
      (b : CallBuiltin F) (op : BinOp) (l r : VType) (firm_l firm_r : Bool) (x y : Expr F)
      (s : Env F)
      → fits_if_there env firm_l l (eval h b false x s) ≡ true
      → fits_if_there env firm_r r (eval h b false y s) ≡ true
      → plus_ok (joins env l firm_l r firm_r) op ≡ true
      → fits env (binary_type env op l r) (eval h b false (bin op x y) s) ≡ true
  unfolding eval binary_type
  binary-eval-fits b land l r firm_l firm_r x y s hl hr ok = either_bool _ _ _
  binary-eval-fits b lor l r firm_l firm_r x y s hl hr ok = either_bool _ _ _
  binary-eval-fits b op l r firm_l firm_r x y s hl hr ok =
      binary-fits h env proper l r firm_l firm_r _ _ hl hr op ok

  core-of :
      (t : VType) (v : Any F)
      → known t ≡ true
      → t.is_list ≡ false
      → fits env t v ≡ true
      → fits_core env t.core v ≡ true
  unfolding fits
  core-of t v k single e = rw (k, single) at e

  -- Rows shaped by a selection.
  shaped-fits :
      (t : VType) (coll : String) (sel : Any F → Any F) (xs : List (Any F))
      → t.is_list ≡ false
      → ((r : Any F) → fits_core env coll r ≡ true → fits env t (sel r) ≡ true)
      → all (fits_core env coll) xs ≡ true
      → fits env (as_list t) (items (of_elems (map sel xs))) ≡ true
  shaped-fits t coll sel xs single each a = elim (Bool-cases (known t)) [
    | inr off ↦ fits-unknown env (as_list t) _ off
    | inl on ↦ list-of-fits t.core (map sel xs) (
        all-map (fits_core env coll) (fits_core env t.core) sel xs
          (λ r e. core-of t (sel r) on single (each r e)) a)
  ]

  pub rows-fit :
      (coll field : String) (limit : Option ℕ) (xs : List (Any F))
      → all (fits_core env coll) xs ≡ true
      → fits env (as_list (one coll)) (answer h AggOp.rows field none limit xs) ≡ true
  unfolding answer
  rows-fit coll field limit xs a =
      list-of-fits coll (cut_to (cap_of limit) xs)
        (all-cut_to (fits_core env coll) (cap_of limit) xs a)

  pub shaped-rows-fit :
      (t : VType) (firm : Bool) (coll field : String) (sel : Any F → Any F) (limit : Option ℕ)
      (xs : List (Any F))
      → (firm && not t.is_list) ≡ true
      → ((r : Any F) → fits_core env coll r ≡ true → fits_if_there env firm t (sel r) ≡ true)
      → all (fits_core env coll) xs ≡ true
      → fits env (as_list t) (answer h AggOp.rows field (some sel) limit xs) ≡ true
  unfolding answer
  shaped-rows-fit t firm coll field sel limit xs ok each a =
      shaped-fits t coll sel (cut_to (cap_of limit) xs) (ground (arith))
        (λ r e. ground (arith, each r e)) (all-cut_to (fits_core env coll) (cap_of limit) xs a)

  -- A list literal's elements, where they agree.
  pub agreed-fits :
      (ts : List VType) (xs : List (Any F))
      → ((t : VType)
          → known t ≡ true
          → t.is_list ≡ false
          → all (λ u. vtype_eq u t) ts ≡ true
          → all (fits_core env t.core) xs ≡ true)
      → fits env (agreed ts) (items (of_elems xs)) ≡ true
  unfolding agreed
  agreed-fits [] xs each = fits-unknown env unknown _ refl
  agreed-fits (t ∷ ts) xs each =
      elim (Bool-cases (all (λ u. vtype_eq u t) ts && known t && not t.is_list)) [
        | inr off ↦ rw off (fits-unknown env unknown _ refl)
        | inl on ↦ rw on (
            list-of-fits t.core xs
              (each t (ground (arith)) (ground (arith)) (ground (arith, vtype_eq_refl t))))
      ]

  -- An element that has the type which the elements agree on.
  pub element-core :
      (u t : VType) (v : Any F)
      → vtype_eq u t ≡ true
      → known t ≡ true
      → t.is_list ≡ false
      → fits env u v ≡ true
      → fits_core env t.core v ≡ true
  element-core u t v same k single e =
      let cores : u.core ≡ t.core = (string_eq.decides u.core t.core).0 (ground (arith)) in
      subst (λ core. fits_core env core v ≡ true) cores
        (core-of u v (sym (vtype_eq-known u t same) ∙ k) (ground (arith)) e)

  pub strict-fits :
      (firm : Bool) (t : VType) (v : Any F)
      → firm ≡ true
      → fits_if_there env firm t v ≡ true
      → fits env t v ≡ true
  strict-fits true t v f e = e
  strict-fits false t v f e = absurd (cc)
