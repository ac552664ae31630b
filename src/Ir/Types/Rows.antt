-- ===== src/Ir/Types/Rows.antt =====
-- The rows that an aggregate keeps fit its collection, and numbers reduce to an int.
use fct.Base.{
  ℕ, zero, suc, Bool, true, false, not, ◌&&◌, ◌||◌, ◌≡◌, refl, inl, inr, Option, none, some, List,
  [], ◌∷◌, nat_eq, all, keep, take, map, arith, Bool-cases,
}
use fct.Base.Text.{Text}
use fct.Runtime.Value.{Any, text, Host, get_field, is_record, is_float}
use fct.Runtime.Value.Equal.{equal}
use fct.Runtime.Value.Reduce.{
  Reducer, Fold, fold_start, to_floats, fold_int, fold_value, fold_rows, reduce_agg, reduce_text,
  fold_texts,
}
use fct.Runtime.Eval.{find_row, cut_to}
use fct.Ir.Types.Fits.{is_nil, is_int, is_text}

module _ {A : Type 0} (p : A → Bool) where
  pub all-keep : (q : A → Bool) (xs : List A) → all p xs ≡ true → all p (keep q xs) ≡ true
  all-keep q [] a = refl
  all-keep q (x ∷ xs) a = ground (arith, all-keep q xs)

  all-take : (n : ℕ) (xs : List A) → all p xs ≡ true → all p (take n xs) ≡ true
  all-take zero xs a = refl
  all-take (suc n) [] a = refl
  all-take (suc n) (x ∷ xs) a = ground (arith, all-take n xs)

  pub all-cut_to : (cap : Option ℕ) (xs : List A) → all p xs ≡ true → all p (cut_to cap xs) ≡ true
  all-cut_to none xs a = a
  all-cut_to (some n) xs a = all-take n xs a

  -- What holds of the entries of a list holds of what a function makes of them.
  pub all-map :
      {B : Type 0} (q : B → Bool) (f : A → B) (xs : List A)
      → ((x : A) → p x ≡ true → q (f x) ≡ true)
      → all p xs ≡ true
      → all q (map f xs) ≡ true
  all-map q f [] k a = refl
  all-map q f (x ∷ xs) k a = ground (arith, k x, all-map q f xs k)

  pub all-weaken :
      (q : A → Bool) (xs : List A)
      → ((x : A) → p x ≡ true → q x ≡ true)
      → all p xs ≡ true
      → all q xs ≡ true
  all-weaken q [] k a = refl
  all-weaken q (x ∷ xs) k a = ground (arith, k x, all-weaken q xs k)

module _ {F : Type 0} (h : Host F) where
  pub find_row-all :
      (p : Any F → Bool) (key : Any F) (xs : List (Any F))
      → all p xs ≡ true
      → (is_nil (find_row h key xs) || p (find_row h key xs)) ≡ true
  unfolding find_row
  find_row-all p key [] a = refl
  find_row-all p key (r ∷ xs) a =
      elim (Bool-cases (is_record r && equal h (get_field r "id") key)) [
        | inl here ↦ rw here (ground (arith))
        | inr there ↦ rw there (find_row-all p key xs (ground (arith)))
      ]

  -- A row's value that is no float, or none.
  abbrev pub no_float : Option (Any F) → Bool
  no_float none = true
  no_float (some v) = not (is_float v)

  fold_value-floats :
      (s : Fold F) (v : Any F)
      → s.floats ≡ false
      → is_float v ≡ false
      → (fold_value h s v).floats ≡ false
  unfolding fold_value to_floats fold_int
  fold_value-floats s v e f = ground (arith)

  fold_option-floats :
      (s : Fold F) (o : Option (Any F))
      → s.floats ≡ false
      → no_float o ≡ true
      → (let t : Fold F = elim o [ none ↦ s | some v ↦ fold_value h s v ] in t.floats) ≡ false
  fold_option-floats s none e a = e
  fold_option-floats s (some v) e a = fold_value-floats s v e (ground (arith))

  is_text_of :
      (o : Option Text) → is_text {F = F} (elim o [ none ↦ text [] | some t ↦ text t ]) ≡ true
  is_text_of none = refl
  is_text_of (some t) = refl

  fold_rows-floats :
      (value : Any F → Option (Any F)) (s : Fold F) (xs : List (Any F))
      → s.floats ≡ false
      → all (λ r. no_float (value r)) xs ≡ true
      → (fold_rows h value s xs).floats ≡ false
  unfolding fold_rows
  fold_rows-floats value s [] e a = e
  fold_rows-floats value s (r ∷ xs) e a =
      fold_rows-floats value (elim (value r) [ none ↦ s | some v ↦ fold_value h s v ]) xs
        (fold_option-floats s (value r) e (ground (arith))) (ground (arith))

  pub reduce_agg-is_int :
      (op : Reducer) (xs : List (Any F)) (value : Any F → Option (Any F))
      → all (λ r. no_float (value r)) xs ≡ true
      → is_int (reduce_agg h op xs value) ≡ true
  unfolding reduce_agg
  reduce_agg-is_int op xs value a = rw (fold_rows-floats value (fold_start h) xs refl a) refl

  pub reduce_text-is_text :
      (op : Reducer) (xs : List (Any F)) (value : Any F → Option (Any F))
      → is_text (reduce_text h op xs value) ≡ true
  unfolding reduce_text
  reduce_text-is_text op xs value = is_text_of (fold_texts h op value none xs)
