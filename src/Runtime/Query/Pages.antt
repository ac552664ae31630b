-- ===== src/Runtime/Query/Pages.antt =====
-- A client that follows the cursors of Query reads each row once.
use fct.Base.{
  ℕ, zero, suc, ◌<◌, ◌≤◌, String, ◌≡◌, refl, sym, ap, ◌∙◌, subst, inl, inr, Bool, true, false,
  Option, none, some, List, [], ◌∷◌, ◌++◌, append_assoc, append-nil, ◌==◌, nat_eq, take, drop,
  length, In, arith, Bool-cases, if_cases, if_true, if_false,
}
use fct.Runtime.Query.{
  Row, Query, matching, after_row, after_cursor, last_id, page, page_size, ordered, query, pages,
  follow, before,
}
use fct.Runtime.Query.Lemmas.{has_row, IsUnique, sort-IsUnique, matching-IsUnique, In-sort}

take-drop : {A : Type 0} (n : ℕ) (xs : List A) → take n xs ++ drop n xs ≡ xs
take-drop zero xs = refl
take-drop (suc n) [] = refl
take-drop (suc n) (x ∷ xs) = ap (λ ys. x ∷ ys) (take-drop n xs)

take-all : {A : Type 0} (n : ℕ) (xs : List A) → (length (take n xs) == n) ≡ false → take n xs ≡ xs
take-all zero xs h = absurd (cc)
take-all (suc n) [] h = refl
take-all (suc n) (x ∷ xs) h = ap (λ ys. x ∷ ys) (take-all n xs (ground (arith, h)))

-- A full page takes rows away.
drop-lt :
    {A : Type 0} (n : ℕ) (xs : List A)
    → (length (take (suc n) xs) == suc n) ≡ true
    → length (drop (suc n) xs) < length xs
drop-lt n [] h = absurd (ground (arith, h))
drop-lt n (x ∷ xs) h = omega (arith, length-drop n xs)
  where
    length-drop : {A : Type 0} (n : ℕ) (xs : List A) → length (drop n xs) ≤ length xs
    length-drop zero xs = omega arith
    length-drop (suc n) [] = omega arith
    length-drop (suc n) (x ∷ xs) = omega (arith, length-drop n xs)

module _ {V : Type 0} where
  -- The last row of a list that has one.
  full-last :
      (n : ℕ) (xs : List (Row V))
      → (length (take (suc n) xs) == suc n) ≡ true
      → (id : ℕ) × (last_id (take (suc n) xs) ≡ some id)
  unfolding last_id
  full-last n [] h = absurd (ground (arith, h))
  full-last n (x ∷ xs) h = last-some x (take n xs)
    where
      last-some : (x : Row V) (xs : List (Row V)) → (id : ℕ) × (last_id (x ∷ xs) ≡ some id)
      last-some x [] = (x.id, refl)
      last-some x (y ∷ ys) = last-some y ys

  last-append :
      (xs ys : List (Row V)) (id : ℕ) → last_id ys ≡ some id → last_id (xs ++ ys) ≡ some id
  unfolding last_id
  last-append [] ys id h = h
  last-append (x ∷ []) [] id h = absurd (cc)
  last-append (x ∷ []) (y ∷ ys) id h = h
  last-append (x ∷ (z ∷ xs)) ys id h = last-append (z ∷ xs) ys id h

  last-has :
      (xs rest : List (Row V)) (id : ℕ) → last_id xs ≡ some id → has_row id (xs ++ rest) ≡ true
  unfolding last_id
  last-has [] rest id h = absurd (cc)
  last-has (x ∷ []) rest id h = ground (arith, h)
  last-has (x ∷ (y ∷ ys)) rest id h = ground (arith, last-has (y ∷ ys) rest id h)

  -- The cursor of the rows that are read leads to the others.
  after-last :
      (seen rest whole : List (Row V)) (id : ℕ)
      → last_id seen ≡ some id
      → IsUnique (seen ++ rest)
      → after_row id whole (seen ++ rest) ≡ rest
  unfolding after_row last_id
  after-last [] rest whole id h u = absurd (cc)
  after-last (x ∷ []) rest whole id h u = if_true (x.id == id) rest _ (ground (arith, h))
  after-last (x ∷ (y ∷ ys)) rest whole id h u =
      let later = last-has (y ∷ ys) rest id h in
      if_false (x.id == id) _ (after_row id whole ((y ∷ ys) ++ rest)) (differs later u.0)
      ∙ after-last (y ∷ ys) rest whole id h u.1
    where
      differs :
          has_row id ((y ∷ ys) ++ rest) ≡ true
          → has_row x.id ((y ∷ ys) ++ rest) ≡ false
          → (x.id == id) ≡ false
      differs h k = elim (Bool-cases (x.id == id)) [
        | inr e ↦ e
        | inl e ↦
            let q : x.id ≡ id = ground (arith, e) in
            absurd (cc (h, subst (λ i. has_row i ((y ∷ ys) ++ rest) ≡ false) q k))
      ]

  abbrev pub concat : List (List (Row V)) → List (Row V)
  concat [] = []
  concat (x ∷ xs) = x ++ concat xs

  follow-eq :
      (o : Option ℕ) (f g : ℕ → List (List (Row V)))
      → ((id : ℕ) → f id ≡ g id)
      → follow o f ≡ follow o g
  follow-eq none f g h = refl
  follow-eq (some id) f g h = h id

  -- The pages of rows that are in order.
  pages_of : ℕ → ℕ → Option ℕ → List (Row V) → List (List (Row V))
  pages_of zero size after xs = []
  pages_of (suc n) size after xs =
      let p = page size (after_cursor after xs) in
      p.0 ∷ follow p.1 (λ id. pages_of n size (some id) xs)

  next_rows :
      (xs seen rest : List (Row V)) (size id : ℕ)
      → IsUnique xs
      → xs ≡ seen ++ rest
      → last_id (take size rest) ≡ some id
      → after_cursor (some id) xs ≡ drop size rest
  unfolding after_cursor
  next_rows xs seen rest size id u e h =
      let whole : xs ≡ (seen ++ take size rest) ++ drop size rest =
        e
        ∙ ap (λ ys. seen ++ ys) (sym (take-drop size rest))
        ∙ sym (append_assoc seen (take size rest) (drop size rest)) in
      ap (after_row id xs) whole
      ∙ after-last (seen ++ take size rest) (drop size rest) xs id
          (last-append seen (take size rest) id h) (subst IsUnique whole u)

  concat-pages_of :
      (n size : ℕ) (after : Option ℕ) (xs seen rest : List (Row V))
      → IsUnique xs
      → xs ≡ seen ++ rest
      → after_cursor after xs ≡ rest
      → length rest < n
      → concat (pages_of n (suc size) after xs) ≡ rest
  unfolding pages_of page
  concat-pages_of zero size after xs seen rest u e a h = absurd (omega (arith, h))
  concat-pages_of (suc n) size after xs seen rest u e a h =
      let first = take (suc size) rest in
      let full = length first == suc size in
      let more =
        λ (o : Option ℕ). concat (first ∷ follow o (λ id. pages_of n (suc size) (some id) xs)) in
      ap
        (λ ys. concat (
          (page (suc size) ys).0
          ∷ follow (page (suc size) ys).1 (λ id. pages_of n (suc size) (some id) xs)))
        a
      ∙ if_cases (λ o. more o ≡ rest) full (last_id first) none
          (λ is_full.
            let last = full-last size rest is_full in
            let next = next_rows xs seen rest (suc size) last.0 u e last.1 in
            let whole : xs ≡ (seen ++ first) ++ drop (suc size) rest =
              e
              ∙ ap (λ ys. seen ++ ys) (sym (take-drop (suc size) rest))
              ∙ sym (append_assoc seen first (drop (suc size) rest)) in
            ap more last.1
            ∙ ap (λ ys. first ++ ys)
                (concat-pages_of n size (some last.0) xs (seen ++ first) (drop (suc size) rest) u
                  whole next (omega (arith, h, drop-lt size rest is_full)))
            ∙ take-drop (suc size) rest)
          λ is_last. append-nil first ∙ take-all (suc size) rest is_last

module _ {V : Type 0} (to_str : V → String) (less_val : V → V → Bool) where
  pages-eq :
      (n : ℕ) (q : Query V) (rows : List (Row V))
      → pages to_str less_val n q rows
        ≡ pages_of n (page_size q.limit) q.after (ordered to_str less_val q rows)
  unfolding pages pages_of query ordered
  pages-eq zero q rows = refl
  pages-eq (suc n) q rows =
      let p = page (page_size q.limit) (after_cursor q.after (ordered to_str less_val q rows)) in
      ap (λ ps. p.0 ∷ ps) (follow-eq p.1 _ _ λ id. pages-eq n (record q { after = some id }) rows)

  sized : (limit : ℕ) → (s : ℕ) × (page_size limit ≡ suc s)
  sized zero = (49, refl)
  sized (suc n) = (n, refl)

  pages-concat :
      (n : ℕ) (q : Query V) (rows : List (Row V))
      → q.after ≡ none
      → IsUnique (ordered to_str less_val q rows)
      → length (ordered to_str less_val q rows) < n
      → concat (pages to_str less_val n q rows) ≡ ordered to_str less_val q rows
  unfolding after_cursor
  pages-concat n q rows start u fuel =
      let xs = ordered to_str less_val q rows in
      let size = sized q.limit in
      ap concat (pages-eq n q rows)
      ∙ ap (λ s. concat (pages_of n s q.after xs)) size.1
      ∙ concat-pages_of n size.0 q.after xs [] xs u refl (ap (λ a. after_cursor a xs) start) fuel

-- A client that asks for the pages of a query one after the other, each time with the cursor of the
-- page before, comes to the end with fuel for one page more than there are rows to read. On rows with
-- ids of their own it reads, in the query's order, each row that the predicate accepts, each once.
pub pages-Reads :
    {V : Type 0} (to_str : V → String) (less_val : V → V → Bool) (n : ℕ) (q : Query V)
    (rows : List (Row V))
    → q.after ≡ none
    → IsUnique rows
    → length (ordered to_str less_val q rows) < n
    → (let read = concat (pages to_str less_val n q rows) in
        (read ≡ ordered to_str less_val q rows)
        × IsUnique read
        × ((r : Row V)
            → (In r read → In r (matching q.matches rows))
              × (In r (matching q.matches rows) → In r read)))
unfolding ordered
pages-Reads to_str less_val n q rows start u fuel =
    let xs = ordered to_str less_val q rows in
    let unique : IsUnique xs =
      sort-IsUnique (before to_str less_val q) (matching q.matches rows)
        (matching-IsUnique q.matches rows u) in
    let read = pages-concat to_str less_val n q rows start unique fuel in
    (
      read,
      subst IsUnique (sym read) unique,
      λ r.
          let same = In-sort (before to_str less_val q) r (matching q.matches rows) in
          (λ h. same.0 (subst (In r) read h), λ h. subst (In r) (sym read) (same.1 h)),
    )
