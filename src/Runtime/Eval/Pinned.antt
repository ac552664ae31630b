-- ===== src/Runtime/Eval/Pinned.antt =====
-- A predicate holds only of rows that satisfy what it pins.
use fct.Base.{
  ◌≡◌, inl, inr, refl, sym, ap, ◌∙◌, Bool, true, false, not, ◌&&◌, Option, none, some, String, ◌==◌,
  string_eq, if◌then◌else◌, if_true, Bool-cases,
}
use mathlib.Core.Path.{ap₂}
use fct.Runtime.Value.{Any, bool, Host, get_field, truthy}
use fct.Runtime.Value.Equal.{equal}
use fct.Runtime.Value.Ops.{land, eq, member, apply_bin, is_member}
use fct.Runtime.Expr.{Expr, lit, ref, get, bin, OptExpr, absent, present, item_field, probe_expr}
use fct.Runtime.Eval.{
  Env, bind, Pin, is_value, in_values, first_pin, pin_if, CallBuiltin, eval, eval_test, pinned,
  pinned_in,
}
use fct.Runtime.Eval.Filter.{PinnedBy, AllPinned, TestPinned}
use fct.Runtime.Eval.Probe.{reads_apart, and-left, and-right, eval-probe}

abbrev pub reads_apart_in : {F : Type 0} → OptExpr F → String → Bool
reads_apart_in absent v = true
reads_apart_in (present e) v = reads_apart e v

module _ {F : Type 0} (h : Host F) where
  first_pin-AllPinned :
      (p : Any F → Bool) (m n : Option (Pin F))
      → AllPinned h p m
      → AllPinned h p n
      → AllPinned h p (first_pin m n)
  first_pin-AllPinned p none n x y = y
  first_pin-AllPinned p (some pin) n x y = x

  pin_if-AllPinned :
      (p : Any F → Bool) (make : String → Any F → Pin F) (o : Option String) (ok : Bool)
      (value : Any F)
      → ((f : String) → o ≡ some f → ok ≡ true → PinnedBy h p (make f value))
      → AllPinned h p (pin_if make o ok value)
  pin_if-AllPinned p make none ok value k = tt
  pin_if-AllPinned p make (some f) false value k = tt
  pin_if-AllPinned p make (some f) true value k = k f refl refl

  weaken-AllPinned :
      (p q : Any F → Bool) (pin : Option (Pin F))
      → ((r : Any F) → p r ≡ true → q r ≡ true)
      → AllPinned h q pin
      → AllPinned h p pin
  weaken-AllPinned p q none f x = tt
  weaken-AllPinned p q (some (is_value name probe)) f x = λ r k. x r (f r k)
  weaken-AllPinned p q (some (in_values name values)) f x = λ r k. x r (f r k)

  truthy-bool : (x : Bool) → truthy h (bool x) ≡ x
  unfolding truthy
  truthy-bool x = refl

  and-truthy :
      (m n : Any F)
      → truthy h (if not (truthy h m) then bool false else bool (truthy h n)) ≡ true
      → (truthy h m ≡ true) × (truthy h n ≡ true)
  and-truthy m n e = elim (Bool-cases (truthy h m)) [
    | inl t ↦ (t, sym (truthy-bool (truthy h n)) ∙ rw t at e)
    | inr f ↦ absurd (cc (truthy-bool false, rw f at e))
  ]

  module _ (b : CallBuiltin F) (v : String) (s : Env F) where
    item_field-eval :
        (e : Expr F) (f : String) (r : Any F)
        → item_field e v ≡ some f
        → eval h b false e (bind v r s) ≡ get_field r f
    unfolding item_field eval
    item_field-eval (lit x) f r k = absurd (cc)
    item_field-eval (get (ref name) field) f r k =
        elim (Bool-cases (not (field == "") && name == v)) [
          | inl t ↦
              ap (λ x. get_field x field)
                (if_true (name == v) r (s name) (and-right (not (field == "")) (name == v) t))
              ∙ ap (get_field r) (let same : some field ≡ some f = rw t at k in cc)
          | inr t ↦ absurd (cc (rw t at k))
        ]
    item_field-eval e f r k = absurd (cc)

    -- Whether the predicate holds of a row.
    abbrev pub holds : Expr F → Any F → Bool
    holds e r = truthy h (eval h b false e (bind v r s))

    eq-holds :
        (x y : Expr F) (r : Any F)
        → holds (bin eq x y) r ≡ true
        → equal h (eval h b false x (bind v r s)) (eval h b false y (bind v r s)) ≡ true
    unfolding eval apply_bin truthy
    eq-holds x y r k = k

    member-holds :
        (x y : Expr F) (r : Any F)
        → holds (bin member x y) r ≡ true
        → is_member h (eval h b false x (bind v r s)) (eval h b false y (bind v r s)) ≡ true
    unfolding eval apply_bin truthy
    member-holds x y r k = k

    pub pinned-AllPinned :
        (e : Expr F) → reads_apart e v ≡ true → AllPinned h (holds e) (pinned h b false e v s)
    unfolding pinned reads_apart
    pinned-AllPinned (lit x) q = tt
    pinned-AllPinned (bin land x y) q =
        first_pin-AllPinned (holds (bin land x y)) _ _
          (weaken-AllPinned (holds (bin land x y)) (holds x) (pinned h b false x v s)
            (λ r k. (and-truthy _ _ k).0) (pinned-AllPinned x (and-left _ _ q)))
          (weaken-AllPinned (holds (bin land x y)) (holds y) (pinned h b false y v s)
            (λ r k. (and-truthy _ _ k).1) (pinned-AllPinned y (and-right (reads_apart x v) _ q)))
    pinned-AllPinned (bin eq x y) q =
        first_pin-AllPinned (holds (bin eq x y)) _ _
          (pin_if-AllPinned (holds (bin eq x y)) is_value (item_field x v) (probe_expr y v)
            (eval h b false y s)
            λ f at ok r k. inl (
              sym (
                ap₂ (equal h) (item_field-eval x f r at)
                  (eval-probe h b v r s y ok (and-right (reads_apart x v) _ q)))
              ∙ eq-holds x y r k))
          (pin_if-AllPinned (holds (bin eq x y)) is_value (item_field y v) (probe_expr x v)
            (eval h b false x s)
            λ f at ok r k. inr (
              sym (
                ap₂ (equal h) (eval-probe h b v r s x ok (and-left _ _ q))
                  (item_field-eval y f r at))
              ∙ eq-holds x y r k))
    pinned-AllPinned (bin member x y) q =
        pin_if-AllPinned (holds (bin member x y)) in_values (item_field x v) (probe_expr y v)
          (eval h b false y s)
          λ f at ok r k.
            sym (
              ap₂ (is_member h) (item_field-eval x f r at)
                (eval-probe h b v r s y ok (and-right (reads_apart x v) _ q)))
            ∙ member-holds x y r k
    pinned-AllPinned e q = tt

    -- The filter of an aggregate, where there is one.
    pub eval_test-TestPinned :
        (test : OptExpr F)
        → reads_apart_in test v ≡ true
        → TestPinned h (eval_test h b false test v s) (pinned_in h b false test v s)
    unfolding eval_test pinned_in
    eval_test-TestPinned absent q = tt
    eval_test-TestPinned (present e) q = elim (Bool-cases (v == "")) [
      | inl t ↦ rw t tt
      | inr t ↦ rw t (pinned-AllPinned e q)
    ]
