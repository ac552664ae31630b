-- ===== src/Ir/Types/Numbers.antt =====
-- What a reduction gives has the type that the compiler infers for it.
use fct.Base.{
  ℕ, Bool, true, false, not, ◌≡◌, refl, sym, subst, inl, inr, Option, none, some, List, ◌==◌,
  string_eq, if◌then◌else◌, String, all, nat_eq, arith, Bool-cases,
}
use fct.Runtime.Value.{Any, nil, row, Host, is_record, is_float, read_field}
use fct.Runtime.Value.Reduce.{Reducer, num_value, field_value, reduce_text}
use fct.Runtime.Expr.{AggOp}
use fct.Runtime.Eval.{selected, stored, answer}
use fct.Ir.Types.{VType, one, known, Tables, field_type, is_entity, unify, numeric}
use fct.Ir.Types.Fits.{is_int, fits_core, fits, fits_if_there, IsProper, firm, is_number}
use fct.Ir.Types.Cores.{is_whole-float, whole_if_there, fits-unknown, fits-is_int}
use fct.Ir.Types.Operators.{fits_text}
use fct.Ir.Types.Reads.{undeclared, or-right, entity-field}
use fct.Ir.Types.Rows.{all-weaken, no_float, reduce_agg-is_int, reduce_text-is_text}

module _ {F : Type 0} (h : Host F) (env : Tables) (proper : IsProper env) where
  -- A known type that is a number.
  number-known :
      (t : VType) → is_number env t ≡ true → known t ≡ true → known (numeric env t) ≡ true
  unfolding numeric
  number-known t n k = ground (arith)

  number-fits :
      (t : VType) (v : Any F)
      → is_number env t ≡ true
      → (known t ≡ true → is_int v ≡ true)
      → fits env t v ≡ true
  number-fits t v n k = elim (Bool-cases (known t)) [
    | inr off ↦ fits-unknown env t v off
    | inl on ↦
        fits-is_int env t v (ground (arith))
          ((string_eq.decides (unify env t.core) "int").0 (ground (arith))) (k on)
  ]

  num_value-no_float :
      (t : VType) (firm : Bool) (v : Any F)
      → is_number env t ≡ true
      → known t ≡ true
      → fits_if_there env firm t v ≡ true
      → not (is_float (num_value h v)) ≡ true
  unfolding num_value
  num_value-no_float t firm v n k e =
      rw (is_whole-float v (whole_if_there env t firm v (number-known t n k) e).2) refl

  -- A column of a collection's rows, as a reduction reads it.
  column-no_float :
      (coll field : String) (r : Any F)
      → is_number env (one (field_type env coll field)) ≡ true
      → known (one (field_type env coll field)) ≡ true
      → fits_core env coll r ≡ true
      → no_float h (field_value h field r) ≡ true
  unfolding field_value
  column-no_float coll field (row fields) n k e = elim (Bool-cases (is_entity env coll)) [
    | inl declared ↦
        num_value-no_float (one (field_type env coll field)) false (read_field field fields) n k
          (entity-field env proper coll field (row fields) (or-right false e) declared)
    | inr none_such ↦ absurd (cc (undeclared env coll field none_such))
  ]
  column-no_float coll field nil n k e = refl
  column-no_float coll field v n k e = refl

  -- The column of a `min` or a `max` over texts, else a number.
  pub column-fits :
      (marked : Bool) (op : Reducer) (coll field : String) (limit : Option ℕ) (xs : List (Any F))
      → (if marked
          then field_type env coll field == "text"
          else is_number env (one (field_type env coll field)))
        ≡ true
      → all (fits_core env coll) xs ≡ true
      → fits env
          (one (field_type env coll field))
          (answer h (AggOp.reduce marked op) field none limit xs)
        ≡ true
  unfolding answer
  column-fits true op coll field limit xs t a =
      subst (λ core. fits env (one core) (reduce_text h op xs (stored h field)) ≡ true)
        (sym ((string_eq.decides (field_type env coll field) "text").0 t))
        (fits_text h env proper _ (reduce_text-is_text h op xs _))
  column-fits false op coll field limit xs n a =
      number-fits (one (field_type env coll field)) _ n λ k.
        reduce_agg-is_int h op xs (selected h none field) (
          all-weaken (fits_core env coll) (λ r. no_float h (field_value h field r)) xs
            (λ r. column-no_float coll field r n k) a)

  selected-no_float :
      (r v : Any F)
      → not (is_float (num_value h v)) ≡ true
      → no_float h (if is_record r then some (num_value h v) else none) ≡ true
  selected-no_float (row fields) v e = e
  selected-no_float nil v e = refl
  selected-no_float r v e = refl

  -- An expression over the row of a reduction.
  pub selected-fits :
      (t : VType) (firm : Bool) (op : Reducer) (coll field : String) (sel : Any F → Any F)
      (limit : Option ℕ) (xs : List (Any F))
      → is_number env t ≡ true
      → ((r : Any F) → fits_core env coll r ≡ true → fits_if_there env firm t (sel r) ≡ true)
      → all (fits_core env coll) xs ≡ true
      → fits env t (answer h (AggOp.reduce false op) field (some sel) limit xs) ≡ true
  unfolding answer
  selected-fits t firm op coll field sel limit xs n each a = number-fits t _ n λ k.
      reduce_agg-is_int h op xs (selected h (some sel) field) (
        all-weaken (fits_core env coll) (λ r. no_float h (selected h (some sel) field r)) xs
          (λ r e. selected-no_float r (sel r) (num_value-no_float t firm (sel r) n k (each r e))) a)
