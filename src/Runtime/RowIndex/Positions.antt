-- ===== src/Runtime/RowIndex/Positions.antt =====
-- Ascending positions: the rows they name, and the filters that they do not change.
use fct.Base.{
  ℕ, zero, suc, ◌+◌, ◌-◌, ◌≤◌, ◌≡◌, refl, ap, ◌∙◌, inl, inr, Bool, true, false, ◌||◌, none, some,
  List, [], ◌∷◌, if◌then◌else◌, ◌==◌, elem, nat_eq, keep, get_elem?, arith, Bool-cases,
}
use fct.Runtime.RowIndex.{merge, rows_at}

-- Strictly ascending, from a bound on.
abbrev pub Ascends : ℕ → List ℕ → Type 0
Ascends lo [] = Unit
Ascends lo (p ∷ ps) = (lo ≤ p) × Ascends (suc p) ps

pub Ascends-le : (lo lo' : ℕ) (ps : List ℕ) → lo ≤ lo' → Ascends lo' ps → Ascends lo ps
Ascends-le lo lo' [] h a = tt
Ascends-le lo lo' (p ∷ ps) h a = (omega arith, a.1)

pub not-elem-below : (lo q : ℕ) (ps : List ℕ) → suc q ≤ lo → Ascends lo ps → elem q ps ≡ false
not-elem-below lo q [] h a = refl
not-elem-below lo q (p ∷ ps) h a = ground (arith, not-elem-below (suc p) q ps)

module _ {A : Type 0} where
  -- The positions, counted from `i` on, of the rows that pass a test.
  unfoldable pub positions : (A → Bool) → ℕ → List A → List ℕ
  positions t i [] = []
  positions t i (r ∷ rows) = let rest = positions t (suc i) rows in if t r then i ∷ rest else rest

  pub positions-Ascends : (t : A → Bool) (i : ℕ) (rows : List A) → Ascends i (positions t i rows)
  unfolding positions
  positions-Ascends t i [] = tt
  positions-Ascends t i (r ∷ rows) = elim (Bool-cases (t r)) [
    | inl e ↦ rw e (omega arith, positions-Ascends t (suc i) rows)
    | inr e ↦ rw e (Ascends-le i (suc i) _ (omega arith) (positions-Ascends t (suc i) rows))
  ]

  pub elem-positions :
      (t : A → Bool) (i j : ℕ) (rows : List A) (r : A)
      → get_elem? rows j ≡ some r
      → t r ≡ true
      → elem (i + j) (positions t i rows) ≡ true
  unfolding positions
  elem-positions t i j [] r h k = absurd (cc)
  elem-positions t i zero (x ∷ rows) r h k = ground (arith)
  elem-positions t i (suc j) (x ∷ rows) r h k = ground (arith, elem-positions t (suc i) j rows r)

merge-left : (i : ℕ) (ps qs : List ℕ) → Ascends (suc i) qs → merge (i ∷ ps) qs ≡ i ∷ merge ps qs
unfolding merge
merge-left i ps [] a = refl
merge-left i ps (q ∷ qs) a = ground arith

merge-right : (i : ℕ) (ps qs : List ℕ) → Ascends (suc i) ps → merge ps (i ∷ qs) ≡ i ∷ merge ps qs
unfolding merge
merge-right i [] qs a = refl
merge-right i (p ∷ ps) qs a = ground arith

unseen :
    (i : ℕ) (ps : List ℕ) (b : Bool)
    → Ascends (suc i) ps
    → (b ≡ true → elem (i + 0) ps ≡ true)
    → b ≡ false
unseen i ps false a cover = refl
unseen i ps true a cover = ground (arith, cover refl, not-elem-below (suc i) (i + 0) ps)

pub merge-nil : (ps : List ℕ) → merge ps [] ≡ ps
unfolding merge
merge-nil [] = refl
merge-nil (p ∷ ps) = ap (λ qs. p ∷ qs) (merge-nil ps)

module _ {A : Type 0} where
  -- Two tests that no row passes both: the merged positions are those of either test.
  pub merge-positions :
      (t u : A → Bool)
      → ((r : A) → t r ≡ true → u r ≡ false)
      → (i : ℕ) (rows : List A)
      → merge (positions t i rows) (positions u i rows) ≡ positions (λ r. t r || u r) i rows
  unfolding positions
  merge-positions t u apart i [] = unfold merge in refl
  merge-positions t u apart i (r ∷ rows) = elim (Bool-cases (t r)) [
    | inl e ↦
        rw (e, apart r e)
          (merge-left i _ _ (positions-Ascends u (suc i) rows)
            ∙ ap (λ ps. i ∷ ps) (merge-positions t u apart (suc i) rows))
    | inr e ↦ elim (Bool-cases (u r)) [
      | inl f ↦
          rw (e, f)
            (merge-right i _ _ (positions-Ascends t (suc i) rows)
              ∙ ap (λ ps. i ∷ ps) (merge-positions t u apart (suc i) rows))
      | inr f ↦ rw (e, f) (merge-positions t u apart (suc i) rows)
    ]
  ]

  rows_at-past :
      (all : List A) (i : ℕ) (ps : List ℕ)
      → ((j : ℕ) → i ≤ j → get_elem? all j ≡ none)
      → Ascends i ps
      → rows_at all ps ≡ []
  unfolding rows_at
  rows_at-past all i [] h a = refl
  rows_at-past all i (p ∷ ps) h a =
      ground (arith, h p, rows_at-past all (suc p) ps (λ j le. h j (omega arith)) a.1)

  shift :
      (all rows : List A) (r : A) (i : ℕ)
      → ((j : ℕ) → get_elem? all (i + j) ≡ get_elem? (r ∷ rows) j)
      → (j : ℕ) → get_elem? all (suc i + j) ≡ get_elem? rows j
  shift all rows r i agree j = let e : suc i + j ≡ i + suc j = omega arith in rw e (agree (suc j))

  rows_at-hit :
      (all : List A) (r : A) (q : ℕ) (qs : List ℕ)
      → get_elem? all q ≡ some r
      → rows_at all (q ∷ qs) ≡ r ∷ rows_at all qs
  unfolding rows_at
  rows_at-hit all r q qs found = ground (arith)

  -- Every row that the filter keeps is at one of the positions.
  abbrev pub Covers : (A → Bool) → List A → ℕ → List ℕ → Type 0
  Covers p rows i ps =
      (j : ℕ) (r : A) → get_elem? rows j ≡ some r → p r ≡ true → elem (i + j) ps ≡ true

  Covers-tail :
      (p : A → Bool) (r : A) (rows : List A) (i : ℕ) (ps : List ℕ)
      → Covers p (r ∷ rows) i ps
      → Covers p rows (suc i) ps
  Covers-tail p r rows i ps cover j x h k =
      let e : suc i + j ≡ i + suc j = omega arith in rw e (cover (suc j) x h k)

  Covers-next :
      (p : A → Bool) (r : A) (rows : List A) (i q : ℕ) (qs : List ℕ)
      → q ≡ i
      → Covers p (r ∷ rows) i (q ∷ qs)
      → Covers p rows (suc i) qs
  Covers-next p r rows i q qs at cover j x h k =
      ground (arith, Covers-tail p r rows i (q ∷ qs) cover j x h k)

  -- Ascending positions that miss no row which a filter keeps name rows with the same filtering.
  keep-rows_at_from :
      (p : A → Bool) (all rows : List A) (i : ℕ) (ps : List ℕ)
      → ((j : ℕ) → get_elem? all (i + j) ≡ get_elem? rows j)
      → Ascends i ps
      → Covers p rows i ps
      → keep p (rows_at all ps) ≡ keep p rows
  keep-rows_at_from p all [] i ps agree a cover = ap (keep p) (
      rows_at-past all i ps (λ j le. let e : j ≡ i + (j - i) = omega arith in rw e (agree (j - i)))
        a)
  keep-rows_at_from p all (r ∷ rows) i [] agree a cover =
      rw (unseen i [] (p r) tt (cover 0 r refl)) (
        keep-rows_at_from p all rows (suc i) [] (shift all rows r i agree) tt
          (Covers-tail p r rows i [] cover))
  keep-rows_at_from p all (r ∷ rows) i (q ∷ qs) agree a cover = elim (Bool-cases (q == i)) [
    | inl e ↦
        let at : q ≡ i = ground arith in
        let found : get_elem? all q ≡ some r =
          (let f : q ≡ i + 0 = omega arith in rw f (agree 0)) in
        let rest =
          keep-rows_at_from p all rows (suc i) qs (shift all rows r i agree)
            (Ascends-le (suc i) (suc q) qs (omega arith) a.1)
            (Covers-next p r rows i q qs at cover) in
        ap (keep p) (rows_at-hit all r q qs found) ∙ ap (λ xs. if p r then r ∷ xs else xs) rest
    | inr e ↦
        let a' : Ascends (suc i) (q ∷ qs) = (ground (arith, a.0), a.1) in
        rw (unseen i (q ∷ qs) (p r) a' (cover 0 r refl)) (
          keep-rows_at_from p all rows (suc i) (q ∷ qs) (shift all rows r i agree) a'
            (Covers-tail p r rows i (q ∷ qs) cover))
  ]

  pub keep-rows_at :
      (p : A → Bool) (rows : List A) (ps : List ℕ)
      → Ascends 0 ps
      → Covers p rows 0 ps
      → keep p (rows_at rows ps) ≡ keep p rows
  keep-rows_at p rows ps =
      keep-rows_at_from p rows rows 0 ps (λ j. let e : 0 + j ≡ j = omega arith in rw e refl)
