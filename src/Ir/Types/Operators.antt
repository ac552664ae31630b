-- ===== src/Ir/Types/Operators.antt =====
-- The values of the operators have the types that the compiler infers for them.
use fct.Base.{
  ℕ, ◌+◌, ◌-◌, ◌*◌, ◌%◌, nat_eq, Bool, true, ◌&&◌, ◌||◌, ◌≡◌, refl, sym, ap, subst, ◌∙◌, inl, inr,
  List, [], ◌∷◌, ◌++◌, ◌==◌, string_eq, if◌then◌else◌, String, all, arith, Bool-cases,
}
use fct.Runtime.Value.{
  Any, nil, int, bool, text, bytes, items, row, Host, elems, of_elems, list_elems, word,
}
use fct.Runtime.Value.Ops.{
  BinOp, plus, minus, times, over, modulo, band, bor, bxor, shl, shr, arith_by, add_values,
  plus_scalars, apply_bin, negate, int_div,
}
use fct.Ir.Types.{
  VType, one, unknown, known, vtype_eq, Tables, unify, numeric, arith_type, is_text_type, plus_type,
  binary_type,
}
use fct.Ir.Types.Fits.{
  is_int, is_text, fits_core, fits_list, fits, fits_if_there, IsProper, joins, plus_ok,
}
use fct.Ir.Types.Cores.{
  is_whole, is_whole-float, fits_core_alone, fits_core-is_text, fits-is_int, fits-unknown,
  arith-fits, vtype_eq-known, whole_if_there, numeric-known,
}

module _ {F : Type 0} (h : Host F) where
  arith_by-is_int :
      (f : F → F → F) (g : ℕ → ℕ → ℕ) (x y : Any F)
      → is_whole x ≡ true
      → is_whole y ≡ true
      → is_int (arith_by h f g x y) ≡ true
  unfolding arith_by
  arith_by-is_int f g x y p q = rw (is_whole-float x p, is_whole-float y q) refl

  add-is_int :
      (x y : Any F) → is_whole x ≡ true → is_whole y ≡ true → is_int (add_values h x y) ≡ true
  unfolding add_values list_elems plus_scalars arith_by
  add-is_int nil nil p q = refl
  add-is_int nil (int m) p q = refl
  add-is_int nil (row m) p q = refl
  add-is_int (int n) nil p q = refl
  add-is_int (int n) (int m) p q = refl
  add-is_int (int n) (row m) p q = refl
  add-is_int (row n) nil p q = refl
  add-is_int (row n) (int m) p q = refl
  add-is_int (row n) (row m) p q = refl
  add-is_int x y p q = absurd (cc)

  add-is_text_left : (x y : Any F) → is_text x ≡ true → is_text (add_values h x y) ≡ true
  unfolding add_values list_elems plus_scalars
  add-is_text_left (text s) nil e = refl
  add-is_text_left (text s) (bytes t) e = refl
  add-is_text_left (text s) y e = refl
  add-is_text_left x y e = absurd (cc)

  add-is_text_right : (x y : Any F) → is_text y ≡ true → is_text (add_values h x y) ≡ true
  unfolding add_values list_elems plus_scalars
  add-is_text_right nil (text s) e = refl
  add-is_text_right (bytes t) (text s) e = refl
  add-is_text_right x (text s) e = refl
  add-is_text_right x y e = absurd (cc)

  pub elems-of_elems : (xs : List (Any F)) → elems (of_elems xs) ≡ xs
  elems-of_elems [] = refl
  elems-of_elems (x ∷ xs) = ap (λ ys. x ∷ ys) (elems-of_elems xs)

  all-append :
      (p : Any F → Bool) (xs ys : List (Any F))
      → all p xs ≡ true
      → all p ys ≡ true
      → all p (xs ++ ys) ≡ true
  all-append p [] ys a b = b
  all-append p (x ∷ xs) ys a b = ground (arith, all-append p xs ys)

  add-fits_list :
      (env : Tables) (core : String) (x y : Any F)
      → fits_list env core x ≡ true
      → fits_list env core y ≡ true
      → fits_list env core (add_values h x y) ≡ true
  unfolding add_values list_elems
  add-fits_list env core (items xs) (items ys) p q =
      rw (elems-of_elems (elems xs ++ elems ys))
        (all-append (fits_core env core) (elems xs) (elems ys) p q)
  add-fits_list env core (items xs) y p q = absurd (cc)
  add-fits_list env core x y p q = absurd (cc)

module _ {F : Type 0} (h : Host F) (env : Tables) (proper : IsProper env) where
  pub fits_bool : (b : Bool) → fits {F = F} env (one "bool") (bool b) ≡ true
  unfolding fits
  fits_bool b = fits_core_alone env "bool" "bool" (bool b) proper.bool_alone proper.bool_unify

  pub fits_text : (v : Any F) → is_text v ≡ true → fits env (one "text") v ≡ true
  unfolding fits
  fits_text v e = fits_core_alone env "text" "text" v proper.text_alone proper.text_unify ∙ e

  pub fits_int : (n : ℕ) → fits {F = F} env (one "int") (int n) ≡ true
  fits_int n = fits-is_int env (one "int") (int n) refl proper.int_unify refl

  -- A firm value of a text type is a text.
  firm_text :
      (t : VType) (firm : Bool) (v : Any F)
      → (is_text_type env t && firm) ≡ true
      → fits_if_there env firm t v ≡ true
      → is_text v ≡ true
  unfolding fits
  firm_text t firm v e k =
      fits_core-is_text env t.core v proper
        ((string_eq.decides (unify env t.core) "text").0 (ground (arith))) (ground (arith))

  firm_list :
      (t : VType) (v : Any F)
      → t.is_list ≡ true
      → known t ≡ true
      → fits env t v ≡ true
      → fits_list env t.core v ≡ true
  unfolding fits
  firm_list t v e k f = rw (k, e) at f

  list-fits :
      (t : VType) (v : Any F)
      → t.is_list ≡ true
      → (known t ≡ true → fits_list env t.core v ≡ true)
      → fits env t v ≡ true
  unfolding fits
  list-fits t v e f = elim (Bool-cases (known t)) [
    | inl on ↦ rw (on, e) (f on)
    | inr off ↦ rw off refl
  ]

  module _ (l r : VType) (firm_l firm_r : Bool) (x y : Any F)
      (hl : fits_if_there env firm_l l x ≡ true) (hr : fits_if_there env firm_r r y ≡ true) where
    lists-fit :
        (l.is_list && r.is_list) ≡ true
        → (firm_l && (firm_r && vtype_eq l r)) ≡ true
        → fits env l (add_values h x y) ≡ true
    lists-fit lists joined =
        let cores : l.core ≡ r.core = (string_eq.decides l.core r.core).0 (ground (arith)) in
        list-fits l (add_values h x y) (ground (arith)) λ on.
          add-fits_list h env l.core x y (firm_list l x (ground (arith)) on (ground (arith))) (
            subst (λ core. fits_list env core y ≡ true) (sym cores)
              (firm_list r y (ground (arith)) (vtype_eq-known l r (ground (arith)) ∙ on)
                (ground (arith))))

    plus-fits :
        joins env l firm_l r firm_r ≡ true → fits env (plus_type env l r) (add_values h x y) ≡ true
    unfolding plus_type
    plus-fits joined = elim (Bool-cases (l.is_list && r.is_list)) [
      | inl lists ↦ rw lists (lists-fit lists (rw lists at joined))
      | inr scalars ↦ elim (Bool-cases (is_text_type env l || is_text_type env r)) [
        | inr numbers ↦
            rw (scalars, numbers)
              (arith-fits env l r firm_l firm_r x y _ proper hl hr (add-is_int h x y))
        | inl texts ↦
            let sides : ((is_text_type env l && firm_l) || (is_text_type env r && firm_r)) ≡ true =
              rw (scalars, texts) at joined in
            rw (scalars, texts)
              (elim (Bool-cases (is_text_type env l && firm_l)) [
                | inl left ↦
                    fits_text (add_values h x y)
                      (add-is_text_left h x y (firm_text l firm_l x left hl))
                | inr right ↦
                    fits_text (add_values h x y)
                      (add-is_text_right h x y (firm_text r firm_r y (ground (arith)) hr))
              ])
      ]
    ]

    arith_by-fits :
        (f : F → F → F) (g : ℕ → ℕ → ℕ) → fits env (arith_type env l r) (arith_by h f g x y) ≡ true
    arith_by-fits f g =
        arith-fits env l r firm_l firm_r x y _ proper hl hr (arith_by-is_int h f g x y)

    -- Every operator gives a value of the type that is inferred for it.
    pub binary-fits :
        (op : BinOp)
        → plus_ok (joins env l firm_l r firm_r) op ≡ true
        → fits env (binary_type env op l r) (apply_bin h op x y) ≡ true
    unfolding binary_type apply_bin
    binary-fits plus joined = plus-fits joined
    binary-fits minus joined = arith_by-fits h.sub (λ a b. (a + word - b) % word)
    binary-fits times joined = arith_by-fits h.mul (λ a b. (a * b) % word)
    binary-fits over joined = arith_by-fits h.div (λ a b. if b == 0 then 0 else int_div a b)
    binary-fits modulo joined = arith-fits env l r firm_l firm_r x y _ proper hl hr (λ p q. refl)
    binary-fits band joined = fits-unknown env unknown _ refl
    binary-fits bor joined = fits-unknown env unknown _ refl
    binary-fits bxor joined = fits-unknown env unknown _ refl
    binary-fits shl joined = fits-unknown env unknown _ refl
    binary-fits shr joined = fits-unknown env unknown _ refl
    binary-fits op joined = fits_bool _

  pub negate-fits :
      (t : VType) (firm : Bool) (x : Any F)
      → fits_if_there env firm t x ≡ true
      → fits env (numeric env t) (negate h x) ≡ true
  unfolding negate
  negate-fits t firm x k = elim (Bool-cases (known (numeric env t))) [
    | inr off ↦ fits-unknown env (numeric env t) _ off
    | inl on ↦
        let w = whole_if_there env t firm x on k in
        subst (λ u. fits env u (negate h x) ≡ true) (sym (numeric-known env t on))
          (fits-is_int env t (negate h x) w.0 w.1 (rw (is_whole-float x w.2) refl))
  ]
