-- ===== src/Runtime/Value/Extremes.antt =====
-- What `sum`, `min` and `max` of ints are.
use fct.Base.{
  ℕ, suc, ◌+◌, ◌%◌, ◌<◌, ◌≡◌, refl, sym, ap, subst, ◌∙◌, Bool, true, false, not, ◌&&◌, ◌||◌, Option,
  some, List, [], ◌∷◌, ◌==◌, nat_eq, if◌then◌else◌, if_false, all, any, length, arith,
}
use fct.Runtime.Value.{Any, int, to_int, to_float, Host, int_lt, word}
use fct.Runtime.Value.Ops.{int_div}
use fct.Runtime.Value.Reduce.{
  Reducer, sum, avg, least, most, Fold, fold_start, fold_value, fold_rows, reduce_agg, to_floats,
  fold_int, fold_float, int_result,
}

int_lt_irrefl : (a : ℕ) → int_lt a a ≡ false
unfolding int_lt
int_lt_irrefl a = ground arith

int_lt_trans : (a b c : ℕ) → int_lt a b ≡ false → int_lt b c ≡ false → int_lt a c ≡ false
unfolding int_lt
int_lt_trans a b c p q = ground arith

int_lt_asym : (a b : ℕ) → int_lt a b ≡ true → int_lt b a ≡ false
unfolding int_lt
int_lt_asym a b p = ground arith

abbrev pub total_of : {A : Type 0} → (A → ℕ) → List A → ℕ
total_of f [] = 0
total_of f (r ∷ rs) = f r + total_of f rs

either-of :
    (b : Bool) (e m n : ℕ) (rest : Bool)
    → (e == (if b then n else m) || rest) ≡ true
    → (e == m || (e == n || rest)) ≡ true
either-of true e m n rest p = ground arith
either-of false e m n rest p = ground arith

-- The first of the values that none is under.
abbrev pub extreme : {A : Type 0} → (ℕ → ℕ → Bool) → (A → ℕ) → ℕ → List A → ℕ
extreme under f m [] = m
extreme under f m (r ∷ rs) = extreme under f (if under (f r) m then f r else m) rs

-- A value that is a row's, and that no row's value is under.
abbrev pub IsExtreme : {A : Type 0} → (ℕ → ℕ → Bool) → (A → ℕ) → List A → ℕ → Type 0
IsExtreme under f [] n = n ≡ 0
IsExtreme under f (r ∷ rs) n =
    (any (λ x. n == f x) (r ∷ rs) ≡ true) × (all (λ x. not (under (f x) n)) (r ∷ rs) ≡ true)

module _ {A : Type 0} (under : ℕ → ℕ → Bool) (irrefl : (a : ℕ) → under a a ≡ false)
    (trans : (a b c : ℕ) → under a b ≡ false → under b c ≡ false → under a c ≡ false)
    (asym : (a b : ℕ) → under a b ≡ true → under b a ≡ false) (f : A → ℕ) where
  chosen :
      (n m : ℕ)
      → (under n (if under n m then n else m) ≡ false)
        × (under m (if under n m then n else m) ≡ false)
  chosen n m = ground (arith, irrefl n, irrefl m, asym n m)

  extreme-under : (m : ℕ) (rs : List A) → under m (extreme under f m rs) ≡ false
  extreme-under m [] = irrefl m
  extreme-under m (r ∷ rs) =
      trans m _ _ (chosen (f r) m).1 (extreme-under (if under (f r) m then f r else m) rs)

  extreme-all :
      (m : ℕ) (rs : List A) → all (λ x. not (under (f x) (extreme under f m rs))) rs ≡ true
  extreme-all m [] = refl
  extreme-all m (r ∷ rs) = ground (
    arith,
    trans (f r) (if under (f r) m then f r else m)
        (extreme under f (if under (f r) m then f r else m) rs) (chosen (f r) m).0
        (extreme-under (if under (f r) m then f r else m) rs),
    extreme-all (if under (f r) m then f r else m) rs,
  )

  extreme-any :
      (m : ℕ) (rs : List A)
      → (extreme under f m rs == m || any (λ x. extreme under f m rs == f x) rs) ≡ true
  extreme-any m [] = ground arith
  extreme-any m (r ∷ rs) =
      either-of (under (f r) m) _ m (f r) _ (extreme-any (if under (f r) m then f r else m) rs)

  extreme-IsExtreme : (r : A) (rs : List A) → IsExtreme under f (r ∷ rs) (extreme under f (f r) rs)
  extreme-IsExtreme r rs =
      (extreme-any (f r) rs, ground (arith, extreme-under (f r) rs, extreme-all (f r) rs))

module _ {F : Type 0} (h : Host F) (f : Any F → ℕ) where
  abbrev ints : Any F → Option (Any F)
  ints r = some (int (f r))

  to_floats-int : (s : Fold F) (n : ℕ) → to_floats h s (int n) ≡ s
  unfolding to_floats
  to_floats-int s n = if_false (not s.floats && false) _ s (ground (arith))

  fold_value-int : (s : Fold F) (n : ℕ) → s.floats ≡ false → fold_value h s (int n) ≡ fold_int h s n
  unfolding fold_value
  fold_value-int s n e =
      subst
        (λ t.
          (if t.floats
            then fold_float h t (to_float h (int n))
            else fold_int h t (to_int h (int n)))
          ≡ fold_int h s n)
        (sym (to_floats-int s n)) (unfold to_int in rw e refl)

  fold_int-lo :
      (s : Fold F) (n : ℕ)
      → (s.seen == 0) ≡ false
      → (fold_int h s n).lo ≡ (if int_lt n s.lo then n else s.lo)
  unfolding fold_int
  fold_int-lo s n k = rw k refl

  fold_int-hi :
      (s : Fold F) (n : ℕ)
      → (s.seen == 0) ≡ false
      → (fold_int h s n).hi ≡ (if int_lt s.hi n then n else s.hi)
  unfolding fold_int
  fold_int-hi s n k = rw k refl

  fold_int-counts :
      (s : Fold F) (n : ℕ)
      → ((fold_int h s n).floats ≡ s.floats)
        × ((fold_int h s n).seen ≡ suc s.seen)
        × ((fold_int h s n).total ≡ (s.total + n) % word)
  unfolding fold_int
  fold_int-counts s n = (refl, refl, refl)

  -- The fold of rows whose values are ints, from a fold that has seen one.
  abbrev Folded : Fold F → List (Any F) → Fold F → Type 0
  Folded s rs t =
      (t.floats ≡ false)
      × (t.seen ≡ s.seen + length rs)
      × (t.lo ≡ extreme int_lt f s.lo rs)
      × (t.hi ≡ extreme (λ a b. int_lt b a) f s.hi rs)
      × (t.total ≡ (s.total + total_of f rs) % word)

  fold_rows-Folded :
      (s : Fold F) (rs : List (Any F))
      → s.floats ≡ false
      → (s.seen == 0) ≡ false
      → s.total < word
      → Folded s rs (fold_rows h ints s rs)
  unfolding fold_rows
  fold_rows-Folded s [] e k w = (e, omega arith, refl, refl, omega arith)
  fold_rows-Folded s (r ∷ rs) e k w =
      let c = fold_int-counts s (f r) in
      let ih =
        fold_rows-Folded (fold_int h s (f r)) rs (c.0 ∙ e) (ground (arith, c.1))
          (omega (arith, c.2)) in
      subst (λ u. Folded s (r ∷ rs) (fold_rows h ints u rs)) (sym (fold_value-int s (f r) e))
        (
          ih.0,
          omega (arith, ih.1, c.1),
          ih.2 ∙ ap (λ m. extreme int_lt f m rs) (fold_int-lo s (f r) k),
          ih.3 ∙ ap (λ m. extreme (λ a b. int_lt b a) f m rs) (fold_int-hi s (f r) k),
          omega (arith, ih.4, c.2),
        )

  -- What the four reductions of ints are.
  abbrev pub IsReduced : Reducer → List (Any F) → ℕ → Type 0
  IsReduced sum rows n = n ≡ total_of f rows % word
  IsReduced avg rows n =
      n ≡ (if length rows == 0 then 0 else int_div (total_of f rows % word) (length rows))
  IsReduced least rows n = IsExtreme int_lt f rows n
  IsReduced most rows n = IsExtreme (λ a b. int_lt b a) f rows n

  fold_rows-IsReduced :
      (op : Reducer) (r : Any F) (rs : List (Any F)) (s t : Fold F)
      → Folded s rs t
      → s.seen ≡ 1
      → s.lo ≡ f r
      → s.hi ≡ f r
      → s.total ≡ f r % word
      → IsReduced op (r ∷ rs) (int_result h op t)
  unfolding int_result
  fold_rows-IsReduced sum r rs s t folded one lo hi w = omega (arith, folded.4)
  fold_rows-IsReduced avg r rs s t folded one lo hi w =
      let seen : t.seen ≡ suc (length rs) = omega (arith, folded.1) in
      let all_of : t.total ≡ (f r + total_of f rs) % word = omega (arith, folded.4) in
      rw (seen, all_of) (ground (arith))
  fold_rows-IsReduced least r rs s t folded one lo hi w =
      subst (λ n. IsExtreme int_lt f (r ∷ rs) n)
        (sym (folded.2 ∙ ap (λ m. extreme int_lt f m rs) lo))
        (extreme-IsExtreme int_lt int_lt_irrefl int_lt_trans int_lt_asym f r rs)
  fold_rows-IsReduced most r rs s t folded one lo hi w =
      subst (λ n. IsExtreme (λ a b. int_lt b a) f (r ∷ rs) n)
        (sym (folded.3 ∙ ap (λ m. extreme (λ a b. int_lt b a) f m rs) hi))
        (extreme-IsExtreme (λ a b. int_lt b a) int_lt_irrefl (λ a b c p q. int_lt_trans c b a q p)
          (λ a b p. int_lt_asym b a p) f r rs)

  empty-IsReduced : (op : Reducer) → IsReduced op [] (int_result h op (fold_start h))
  unfolding int_result
  empty-IsReduced sum = omega arith
  empty-IsReduced avg = refl
  empty-IsReduced least = refl
  empty-IsReduced most = refl

  -- Rows whose values are ints reduce to an int: the sum modulo 2 ^ 64, that sum divided towards zero by
  -- the number of rows, a least value, a greatest; and all four to 0 of no rows.
  pub reduce_agg-IsReduced :
      (op : Reducer) (rows : List (Any F))
      → (n : ℕ) × (reduce_agg h op rows (λ r. some (int (f r))) ≡ int n) × IsReduced op rows n
  unfolding reduce_agg fold_rows to_int
  reduce_agg-IsReduced op [] = (int_result h op (fold_start h), refl, empty-IsReduced op)
  reduce_agg-IsReduced op (r ∷ rs) =
      let s : Fold F = fold_value h (fold_start h) (int (f r)) in
      let t : Fold F = fold_rows h ints s rs in
      let folded : Folded s rs t = fold_rows-Folded s rs refl refl (omega arith) in
      (
        int_result h op t,
        if_false t.floats _ (int (int_result h op t)) folded.0,
        fold_rows-IsReduced op r rs s t folded refl refl refl (omega arith),
      )
