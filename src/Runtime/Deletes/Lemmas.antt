-- ===== src/Runtime/Deletes/Lemmas.antt =====
-- The rows of an entity under a write, their number, and the ids that a relation points from.
use fct.Base.{
  subst, ℕ, ◌+◌, ◌≤◌, ◌<◌, String, ◌≡◌, refl, sym, ◌∙◌, inl, inr, Bool, true, List, [], ◌∷◌, ◌==◌,
  nat_eq, string_eq, if◌then◌else◌, elem, any, In, length, lookup, insert, lookup-insert, arith,
  Bool-cases, if_false,
}
use fct.Runtime.Deletes.{Stored, Rows, rows_in, field_int, ref_ids, removed, cleared}

pub rows_in-insert :
    (key at : String) (rs : List Stored) (rows : Rows)
    → rows_in at (insert key rs rows) ≡ (if key == at then rs else rows_in at rows)
unfolding rows_in
rows_in-insert key at rs rows = ground (arith, lookup-insert key at rs rows)

pub rows_in-same :
    (key : String) (rs : List Stored) (rows : Rows) → rows_in key (insert key rs rows) ≡ rs
rows_in-same key rs rows = ground (arith, rows_in-insert key key rs rows, string_eq.decides key key)

-- The number of rows of all entities.
unfoldable pub total : Rows → ℕ
total [] = 0
total ((e, rs) ∷ rows) = length rs + total rows

pub total-insert :
    (e : String) (rs : List Stored) (rows : Rows)
    → total (insert e rs rows) + length (rows_in e rows) ≡ total rows + length rs
unfolding total insert rows_in lookup
total-insert e rs [] = omega arith
total-insert e rs ((own, val) ∷ rows) = elim (Bool-cases (own == e)) [
  | inl k ↦ ground (arith, k)
  | inr k ↦ ground (arith, k, total-insert e rs rows)
]

-- Some row has one of the ids.
abbrev pub hits : List ℕ → List Stored → Bool
hits ids rs = any (λ r. elem r.id ids) rs

pub length-removed : (ids : List ℕ) (rs : List Stored) → length (removed ids rs) ≤ length rs
length-removed ids [] = omega arith
length-removed ids (r ∷ rs) = ground (arith, length-removed ids rs)

pub length-removed_lt :
    (ids : List ℕ) (rs : List Stored) → hits ids rs ≡ true → length (removed ids rs) < length rs
length-removed_lt ids [] h = absurd (cc)
length-removed_lt ids (r ∷ rs) h = ground (arith, length-removed_lt ids rs, length-removed ids rs)

pub length-cleared :
    (f : String) (ids : List ℕ) (rs : List Stored) → length (cleared f ids rs) ≡ length rs
unfolding cleared
length-cleared f ids [] = refl
length-cleared f ids (r ∷ rs) = omega (arith, length-cleared f ids rs)

-- A row that references one of ids is among those found.
pub elem-ref_ids :
    (f : String) (ids : List ℕ) (rs : List Stored) (r : Stored)
    → In r rs
    → elem (field_int f r) ids ≡ true
    → elem r.id (ref_ids f ids rs) ≡ true
unfolding ref_ids
elem-ref_ids f ids [] r h k = elim h [ ]
elem-ref_ids f ids (x ∷ rs) r (inl e) k =
    subst (λ (y : Stored). elem r.id (ref_ids f ids (y ∷ rs)) ≡ true) e (first r k)
  where
    first :
        (y : Stored) → elem (field_int f y) ids ≡ true → elem y.id (ref_ids f ids (y ∷ rs)) ≡ true
    first y k = ground (arith, k)
elem-ref_ids f ids (x ∷ rs) r (inr h) k = ground (arith, elem-ref_ids f ids rs r h k)

-- What is found are ids of rows.
pub ref_ids-hits :
    (f : String) (ids is : List ℕ) (i : ℕ) (rs : List Stored)
    → ref_ids f ids rs ≡ i ∷ is
    → hits (i ∷ is) rs ≡ true
unfolding ref_ids
ref_ids-hits f ids is i [] e = absurd (cc)
ref_ids-hits f ids is i (r ∷ rs) e = elim (Bool-cases (elem (field_int f r) ids)) [
  | inl k ↦ ground (arith, e, k)
  | inr k ↦ ground (
    arith,
    ref_ids-hits f ids is i rs
        (sym (if_false (elem (field_int f r) ids) _ (ref_ids f ids rs) k) ∙ e),
  )
]
