-- ===== src/Ir/Types/Reads.antt =====
-- The values of fields, rows and aggregates have the types that the compiler infers for them.
use fct.Base.{
  ℕ, zero, suc, Bool, true, false, not, ◌&&◌, ◌||◌, ◌≡◌, refl, subst, inl, inr, some, List, [], ◌∷◌,
  ◌==◌, string_eq, String, Map, lookup, all, get_elem?, arith, Bool-cases, Option-cases,
}
use fct.Runtime.Value.{Any, nil, int, items, row, Fields, Host, elems, read_field, get_field}
use fct.Runtime.Value.Ops.{element, index_value}
use fct.Ir.Types.{
  VType, one, unknown, known, Tables, or_unnamed, field_type, is_entity, unify, member_type,
  element_type,
}
use fct.Ir.Types.Fits.{
  is_nil, is_int, scalar, fits_field, fits_entity, fits_core, fits_list, fits, fits_if_there,
  IsProper,
}
use fct.Ir.Types.Cores.{fits_core_alone, fits-unknown}

pub or-right : {b : Bool} (a : Bool) → b ≡ true → (a || b) ≡ true
or-right true e = refl
or-right false e = e

all-lookup :
    (p : String × String → Bool) (m : Map String String) (key val : String)
    → all p m ≡ true
    → lookup key m ≡ some val
    → p (key, val) ≡ true
unfolding lookup
all-lookup p [] key val a e = absurd (cc)
all-lookup p ((own, v) ∷ m) key val a e = elim (Bool-cases (own == key)) [
  | inl same ↦
      let at : own ≡ key = (string_eq.decides own key).0 same in
      let here : v ≡ val = (let f : some v ≡ some val = rw same at e in cc) in
      subst (λ k. p (k, val) ≡ true) at (subst (λ w. p (own, w) ≡ true) here (ground (arith)))
  | inr other ↦ all-lookup p m key val (ground (arith)) (rw other at e)
]

is_int-fits_entity :
    {F : Type 0} (env : Tables) (types : Map String String) (v : Any F)
    → is_int v ≡ true
    → fits_entity env types v ≡ true
is_int-fits_entity env types (int n) e = refl
is_int-fits_entity env types nil e = absurd (cc)
is_int-fits_entity env types v e = absurd (cc)

pub undeclared :
    (env : Tables) (entity field : String)
    → is_entity env entity ≡ false
    → known (one (field_type env entity field)) ≡ false
unfolding field_type
undeclared env entity field e = elim (Option-cases (lookup entity env.entities)) [
  | inl gone ↦ rw gone refl
  | inr (types, found) ↦ absurd (cc (rw found at e))
]

module _ {F : Type 0} (env : Tables) (proper : IsProper env) where
  scalar-fits :
      (core : String) (v : Any F) → scalar (unify env core) v ≡ true → fits_core env core v ≡ true
  unfolding fits_core
  scalar-fits core v e = elim (Option-cases (lookup core env.entities)) [
    | inl alone ↦ rw alone e
    | inr (types, found) ↦
        rw found
          (is_int-fits_entity env types v (rw (proper.entity_unify core (rw found refl)) at e))
  ]

  fits_row-field :
      (types : Map String String) (fields : Fields F) (field : String)
      → all (fits_field env fields) types ≡ true
      → fits_if_there env false (one (or_unnamed (lookup field types))) (read_field field fields)
        ≡ true
  unfolding fits
  fits_row-field types fields field a = elim (Option-cases (lookup field types)) [
    | inl undeclared ↦ rw undeclared (ground (arith))
    | inr (core, declared) ↦
        let stored = all-lookup (fits_field env fields) types field core a declared in
        rw declared (ground (arith, stored, scalar-fits core (read_field field fields)))
  ]

  -- A field of a value that is a row of the entity, its id, or absent.
  pub entity-field :
      (entity field : String) (v : Any F)
      → (is_nil v || fits_core env entity v) ≡ true
      → is_entity env entity ≡ true
      → fits_if_there env false (one (field_type env entity field)) (get_field v field) ≡ true
  unfolding fits_core field_type
  entity-field entity field (row fields) e k = elim (Option-cases (lookup entity env.entities)) [
    | inl gone ↦ absurd (cc (rw gone at k))
    | inr (types, found) ↦ rw found (fits_row-field types fields field (rw found at e))
  ]
  entity-field entity field nil e k = refl
  entity-field entity field v e k = refl

  pub member-fits :
      (t : VType) (firm : Bool) (v : Any F) (field : String)
      → fits_if_there env firm t v ≡ true
      → fits_if_there env false (member_type env t field) (get_field v field) ≡ true
  unfolding fits
  member-fits t firm v field e =
      elim (Bool-cases (known t && not t.is_list && is_entity env t.core)) [
        | inl typed ↦ rw typed (entity-field t.core field v (ground (arith)) (ground (arith)))
        | inr untyped ↦ rw untyped (ground (arith))
      ]

  get-fits :
      (core : String) (xs : List (Any F)) (i : ℕ)
      → all (fits_core env core) xs ≡ true
      → (is_nil (element (get_elem? xs i)) || fits_core env core (element (get_elem? xs i))) ≡ true
  get-fits core [] i a = refl
  get-fits core (x ∷ xs) zero a = ground (arith)
  get-fits core (x ∷ xs) (suc i) a = get-fits core xs i (ground (arith))

  list_of_fits :
      (t : VType) (firm : Bool) (v : Any F)
      → t.is_list ≡ true
      → known t ≡ true
      → fits_if_there env firm t v ≡ true
      → (is_nil v || fits_list env t.core v) ≡ true
  unfolding fits
  list_of_fits t firm v e k h = ground (arith, rw (k, e) at h)

  element-fits :
      (h : Host F) (core : String) (v key : Any F)
      → (is_nil v || fits_list env core v) ≡ true
      → (is_nil (index_value h v key) || fits_core env core (index_value h v key)) ≡ true
  unfolding index_value
  element-fits h core nil key e = refl
  element-fits h core (items xs) key e = get-fits core (elems xs) _ e
  element-fits h core v key e = absurd (cc)

  pub fits-element :
      (core : String) (v : Any F)
      → (is_nil v || fits_core env core v) ≡ true
      → fits_if_there env false (one core) v ≡ true
  unfolding fits
  fits-element core v e = ground (arith)

  fits_json : (v : Any F) → fits env (one "json") v ≡ true
  unfolding fits
  fits_json v = fits_core_alone env "json" "json" v proper.json_alone proper.json_unify

  pub index-fits :
      (h : Host F) (t : VType) (firm : Bool) (v key : Any F)
      → fits_if_there env firm t v ≡ true
      → fits_if_there env false (element_type t) (index_value h v key) ≡ true
  index-fits h t firm v key e = elim (Bool-cases t.is_list) [
    | inl list ↦ rw list (elim (Bool-cases (known t)) [
      | inl on ↦
          fits-element t.core _ (element-fits h t.core v key (list_of_fits t firm v list on e))
      | inr off ↦ or-right (is_nil _) (fits-unknown env (one t.core) (index_value h v key) off)
    ])
    | inr single ↦ elim (Bool-cases (t.core == "json")) [
      | inl json ↦ rw (single, json) (or-right (is_nil _) (fits_json (index_value h v key)))
      | inr other ↦
          rw (single, other)
            (or-right (is_nil _) (fits-unknown env unknown (index_value h v key) refl))
    ]
  ]
