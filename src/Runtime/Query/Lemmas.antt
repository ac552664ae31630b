-- ===== src/Runtime/Query/Lemmas.antt =====
-- The rows of a sort and of a page.
use fct.Base.{
  ℕ, ◌≡◌, refl, ap, ◌∙◌, inl, inr, Bool, false, ◌||◌, Option, none, some, List, [], ◌∷◌, ◌==◌,
  nat_eq, any, keep, In, arith, if_cases,
}
use fct.Runtime.Query.{Row, matching, insert_row, sort_rows}

module _ {V : Type 0} where
  abbrev pub has_row : ℕ → List (Row V) → Bool
  has_row id rows = any (λ r. r.id == id) rows

  -- No two rows have the same id.
  abbrev pub IsUnique : List (Row V) → Type 0
  IsUnique [] = Unit
  IsUnique (r ∷ rs) = (has_row r.id rs ≡ false) × IsUnique rs

  has_row-insert :
      (id : ℕ) (before : Row V → Row V → Bool) (r : Row V) (xs : List (Row V))
      → has_row id (insert_row before r xs) ≡ has_row id (r ∷ xs)
  unfolding insert_row
  has_row-insert id before r [] = refl
  has_row-insert id before r (x ∷ xs) = ground (arith, has_row-insert id before r xs)

  insert-IsUnique :
      (before : Row V → Row V → Bool) (r : Row V) (xs : List (Row V))
      → has_row r.id xs ≡ false
      → IsUnique xs
      → IsUnique (insert_row before r xs)
  unfolding insert_row
  insert-IsUnique before r [] h u = (refl, tt)
  insert-IsUnique before r (x ∷ xs) h u =
      if_cases IsUnique (before x r) (x ∷ insert_row before r xs) (r ∷ (x ∷ xs))
        (λ e. (
          has_row-insert x.id before r xs ∙ ground (arith, h, u.0),
          insert-IsUnique before r xs (ground (arith, h)) u.1,
        ))
        λ e. (h, u)

  has_row-sort :
      (id : ℕ) (before : Row V → Row V → Bool) (xs : List (Row V))
      → has_row id (sort_rows before xs) ≡ has_row id xs
  unfolding sort_rows
  has_row-sort id before [] = refl
  has_row-sort id before (x ∷ xs) =
      has_row-insert id before x (sort_rows before xs)
      ∙ ap (λ b. (x.id == id) || b) (has_row-sort id before xs)

  pub sort-IsUnique :
      (before : Row V → Row V → Bool) (xs : List (Row V))
      → IsUnique xs
      → IsUnique (sort_rows before xs)
  unfolding sort_rows
  sort-IsUnique before [] u = tt
  sort-IsUnique before (x ∷ xs) u =
      insert-IsUnique before x (sort_rows before xs) (has_row-sort x.id before xs ∙ u.0)
        (sort-IsUnique before xs u.1)

  has_row-keep :
      (id : ℕ) (test : Row V → Bool) (xs : List (Row V))
      → has_row id xs ≡ false
      → has_row id (keep test xs) ≡ false
  has_row-keep id test [] h = h
  has_row-keep id test (x ∷ xs) h = ground (arith, h, has_row-keep id test xs)

  pub matching-IsUnique :
      (matches : Option (Row V → Bool)) (xs : List (Row V))
      → IsUnique xs
      → IsUnique (matching matches xs)
  unfolding matching
  matching-IsUnique none xs u = u
  matching-IsUnique (some test) [] u = tt
  matching-IsUnique (some test) (x ∷ xs) u =
      if_cases IsUnique (test x) (x ∷ keep test xs) (keep test xs)
        (λ e. (has_row-keep x.id test xs u.0, matching-IsUnique (some test) xs u.1))
        λ e. matching-IsUnique (some test) xs u.1

  -- Which rows a sort and a filter have.
  pub In-insert :
      (before : Row V → Row V → Bool) (s r : Row V) (xs : List (Row V))
      → (In s (insert_row before r xs) → In s (r ∷ xs))
        × (In s (r ∷ xs) → In s (insert_row before r xs))
  unfolding insert_row
  In-insert before s r [] = (λ h. h, λ h. h)
  In-insert before s r (x ∷ xs) =
      if_cases (λ ys. (In s ys → In s (r ∷ (x ∷ xs))) × (In s (r ∷ (x ∷ xs)) → In s ys))
        (before x r) (x ∷ insert_row before r xs) (r ∷ (x ∷ xs))
        (λ e. swapped (In-insert before s r xs)) λ e. (λ h. h, λ h. h)
    where
      swapped :
          (In s (insert_row before r xs) → In s (r ∷ xs))
            × (In s (r ∷ xs) → In s (insert_row before r xs))
          → (In s (x ∷ insert_row before r xs) → In s (r ∷ (x ∷ xs)))
            × (In s (r ∷ (x ∷ xs)) → In s (x ∷ insert_row before r xs))
      swapped ih = (
        λ h. elim h [
          | inl e ↦ inr (inl e)
          | inr k ↦ elim (ih.0 k) [ inl e ↦ inl e | inr m ↦ inr (inr m) ]
        ],
        λ h. elim h [
          | inl e ↦ inr (ih.1 (inl e))
          | inr k ↦ elim k [ inl e ↦ inl e | inr m ↦ inr (ih.1 (inr m)) ]
        ],
      )

  pub In-sort :
      (before : Row V → Row V → Bool) (s : Row V) (xs : List (Row V))
      → (In s (sort_rows before xs) → In s xs) × (In s xs → In s (sort_rows before xs))
  unfolding sort_rows
  In-sort before s [] = (λ h. h, λ h. h)
  In-sort before s (x ∷ xs) =
      let ih = In-sort before s xs in
      let first = In-insert before s x (sort_rows before xs) in
      (
        λ h. elim (first.0 h) [ inl e ↦ inl e | inr k ↦ inr (ih.0 k) ],
        λ h. first.1 (elim h as (λ c. In s (x ∷ sort_rows before xs)) [
          | inl e ↦ inl e
          | inr k ↦ inr (ih.1 k)
        ]),
      )
