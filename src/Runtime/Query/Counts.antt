-- ===== src/Runtime/Query/Counts.antt =====
-- CountBy of the in-memory store: each group's count is the number of its rows.
use fct.Base.{
  ℕ, zero, suc, ◌+◌, String, ◌≡◌, refl, sym, ap, ◌∙◌, inl, inr, Bool, true, false, not, ◌&&◌,
  Option, none, some, List, [], ◌∷◌, ◌==◌, nat_eq, string_eq, if◌then◌else◌, ltb, length, count,
  elem, Map, map, lookup, insert, lookup-insert, arith, Bool-cases, if_true, if_false,
}
use fct.Runtime.Query.{Row, Query, matching, number, zeros, tally, count_by}

-- A count that n more rows are added to.
abbrev pub plus_rows : Option ℕ → ℕ → Option ℕ
plus_rows none zero = none
plus_rows none (suc n) = some (suc n)
plus_rows (some m) n = some (m + n)

plus_rows-zero : (o : Option ℕ) → o ≡ plus_rows o 0
plus_rows-zero none = refl
plus_rows-zero (some m) = ap some (omega arith)

plus_rows-suc : (o : Option ℕ) (n : ℕ) → plus_rows (some (suc (number o))) n ≡ plus_rows o (suc n)
plus_rows-suc none zero = ap some (omega arith)
plus_rows-suc none (suc n) = ap some (omega arith)
plus_rows-suc (some m) n = ap some (omega arith)

lookup-zeros :
    (k : String) (vs : List String) → lookup k (zeros vs) ≡ (if elem k vs then some 0 else none)
unfolding zeros lookup
lookup-zeros k [] = refl
lookup-zeros k (v ∷ vs) = lookup-insert v k 0 (zeros vs) ∙ ground (arith, lookup-zeros k vs)

-- A group that CountBy leaves out.
abbrev pub skips : String → List String → Bool
skips k wanted = ltb 0 (length wanted) && not (elem k wanted)

-- One row more in its group, unless the group is left out.
bumped : (String → Bool) → String → Map String ℕ → Map String ℕ
bumped skip own out = if skip own then out else insert own (suc (number (lookup own out))) out

lookup-bumped_same :
    (skip : String → Bool) (k : String) (out : Map String ℕ)
    → lookup k (bumped skip k out)
      ≡ (if skip k then lookup k out else some (suc (number (lookup k out))))
unfolding bumped
lookup-bumped_same skip k out = elim (Bool-cases (skip k)) [
  | inl e ↦ ap (lookup k) (if_true (skip k) out _ e) ∙ sym (if_true (skip k) (lookup k out) _ e)
  | inr e ↦
      ap (lookup k) (if_false (skip k) out _ e)
      ∙ lookup-insert k k (suc (number (lookup k out))) out
      ∙ if_true (k == k) _ (lookup k out) ((string_eq.decides k k).1 refl)
      ∙ sym (if_false (skip k) (lookup k out) _ e)
]

lookup-bumped_other :
    (skip : String → Bool) (own k : String) (out : Map String ℕ)
    → (own == k) ≡ false
    → lookup k (bumped skip own out) ≡ lookup k out
unfolding bumped
lookup-bumped_other skip own k out d = elim (Bool-cases (skip own)) [
  | inl e ↦ ap (lookup k) (if_true (skip own) out _ e)
  | inr e ↦
      ap (lookup k) (if_false (skip own) out _ e)
      ∙ lookup-insert own k (suc (number (lookup own out))) out
      ∙ if_false (own == k) _ (lookup k out) d
]

plus-bumped :
    (skip : String → Bool) (own k : String) (out : Map String ℕ) (n : ℕ)
    → plus_rows (lookup k (bumped skip own out)) (if skip k then 0 else n)
      ≡ plus_rows (lookup k out) (if skip k then 0 else if own == k then suc n else n)
plus-bumped skip own k out n = elim (Bool-cases (own == k)) [
  | inr d ↦
      ap (λ o. plus_rows o (if skip k then 0 else n)) (lookup-bumped_other skip own k out d)
      ∙ ap (λ m. plus_rows (lookup k out) (if skip k then 0 else m))
          (sym (if_false (own == k) (suc n) n d))
  | inl d ↦
      ap (λ x. plus_rows (lookup k (bumped skip x out)) (if skip k then 0 else n))
        ((string_eq.decides own k).0 d)
      ∙ ap (λ o. plus_rows o (if skip k then 0 else n)) (lookup-bumped_same skip k out)
      ∙ same (skip k)
      ∙ ap (λ m. plus_rows (lookup k out) (if skip k then 0 else m))
          (sym (if_true (own == k) (suc n) n d))
]
  where
    same :
        (b : Bool)
        → plus_rows
            (if b then lookup k out else some (suc (number (lookup k out))))
            (if b then 0 else n)
          ≡ plus_rows (lookup k out) (if b then 0 else suc n)
    same true = refl
    same false = plus_rows-suc (lookup k out) n

module _ {V : Type 0} (key : Row V → String) (wanted : List String) where
  lookup-tally :
      (k : String) (rs : List (Row V)) (out : Map String ℕ)
      → lookup k (tally key wanted rs out)
        ≡ plus_rows (lookup k out) (if skips k wanted then 0 else count (λ r. key r == k) rs)
  unfolding tally bumped
  lookup-tally k [] out =
      plus_rows-zero (lookup k out) ∙ ap (plus_rows (lookup k out)) (nothing (skips k wanted))
    where
      nothing : (b : Bool) → ◌≡◌ {A = ℕ} 0 (if b then 0 else 0)
      nothing true = refl
      nothing false = refl
  lookup-tally k (r ∷ rs) out =
      lookup-tally k rs (bumped (λ x. skips x wanted) (key r) out)
      ∙ plus-bumped (λ x. skips x wanted) (key r) k out (count (λ r. key r == k) rs)

-- CountBy answers for each group, that is for each text of the field, the number of rows that the
-- predicate accepts and that have it: a 0 where no row has a group that is asked about, nothing for a
-- group that is not, and, if none is asked about, every group that has a row.
pub lookup-count_by :
    {V : Type 0} (to_str : V → String) (less_val : V → V → Bool) (q : Query V) (group : String)
    (values : List V) (rows : List (Row V)) (k : String)
    → (let wanted = map to_str values in
        let rows_of_k =
          count (λ (r : Row V). to_str (r.field group) == k) (matching q.matches rows) in
        lookup k (count_by to_str less_val q group values rows) ≡ (
          if elem k wanted
          then some rows_of_k
          else if ltb 0 (length wanted)
          then none
          else plus_rows none rows_of_k))
unfolding count_by
lookup-count_by {V} to_str less_val q group values rows k =
    let wanted = map to_str values in
    let n = count (λ (r : Row V). to_str (r.field group) == k) (matching q.matches rows) in
    lookup-tally (λ r. to_str (r.field group)) wanted k (matching q.matches rows) (zeros wanted)
    ∙ ap (λ o. plus_rows o (if skips k wanted then 0 else n)) (lookup-zeros k wanted)
    ∙ cases (elem k wanted) (ltb 0 (length wanted)) n
  where
    cases :
        (a b : Bool) (n : ℕ)
        → plus_rows (if a then some 0 else none) (if b && not a then 0 else n)
          ≡ (if a then some n else if b then none else plus_rows none n)
    cases true true n = ap some (omega arith)
    cases true false n = ap some (omega arith)
    cases false true n = refl
    cases false false n = refl
