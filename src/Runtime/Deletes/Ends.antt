-- ===== src/Runtime/Deletes/Ends.antt =====
-- deleteCascade ends: each of its recursive calls has rows to remove.
use fct.Base.{
  ℕ, zero, suc, ◌≤◌, ◌<◌, String, ◌≡◌, refl, true, Option, none, some, List, [], ◌∷◌, nat_eq,
  string_eq, insert, arith,
}
use fct.Runtime.Deletes.{
  OnDelete, cascade, restrict, set_null, Reference, Rows, rows_in, ref_ids, removed, cleared,
  then_rows, cascade_to, along, each_child, delete_cascade,
}
use fct.Runtime.Deletes.Lemmas.{
  total, total-insert, hits, length-removed, length-removed_lt, length-cleared, ref_ids-hits,
}

-- There is a result, with at most that many rows.
abbrev pub Ends : ℕ → Option Rows → Type 0
Ends bound none = ⊥
Ends bound (some rows) = total rows ≤ bound

abbrev Ending : ℕ → (String → List ℕ → Rows → Option Rows) → Type 0
Ending n go =
    (e : String) (ids : List ℕ) (rows : Rows)
    → total rows ≤ n
    → hits ids (rows_in e rows) ≡ true
    → Ends (total rows) (go e ids rows)

then-Ends :
    (bound : ℕ) (r : Option Rows) (next : Rows → Option Rows)
    → Ends bound r
    → ((rows : Rows) → total rows ≤ bound → Ends (total rows) (next rows))
    → Ends bound (then_rows r next)
then-Ends bound none next h k = h
then-Ends bound (some rows) next h k = widen (next rows) (k rows h)
  where
    widen : (r : Option Rows) → Ends (total rows) r → Ends bound r
    widen none e = e
    widen (some left) e = omega (arith, e, h)

module _ (n : ℕ) (go : String → List ℕ → Rows → Option Rows) (ending : Ending n go) where
  to-Ends :
      (ch : Reference) (ids found : List ℕ) (rows : Rows)
      → total rows ≤ n
      → ref_ids ch.field ids (rows_in ch.entity rows) ≡ found
      → Ends (total rows) (cascade_to go ch.entity found rows)
  to-Ends ch ids [] rows h e = omega arith
  to-Ends ch ids (i ∷ is) rows h e =
      ending ch.entity (i ∷ is) rows h (ref_ids-hits ch.field ids is i (rows_in ch.entity rows) e)

  along-Ends :
      (ids : List ℕ) (ch : Reference) (rule : OnDelete) (rows : Rows)
      → total rows ≤ n
      → Ends (total rows) (along go ids ch rule rows)
  along-Ends ids ch cascade rows h = to-Ends ch ids _ rows h refl
  along-Ends ids ch restrict rows h = to-Ends ch ids _ rows h refl
  along-Ends ids ch set_null rows h =
      let rs = rows_in ch.entity rows in
      omega (
        arith,
        total-insert ch.entity (cleared ch.field ids rs) rows,
        length-cleared ch.field ids rs,
      )

  each-Ends :
      (ids : List ℕ) (chs : List Reference) (rows : Rows)
      → total rows ≤ n
      → Ends (total rows) (each_child go ids chs rows)
  unfolding each_child
  each-Ends ids [] rows h = omega arith
  each-Ends ids (ch ∷ chs) rows h =
      then-Ends (total rows) (along go ids ch ch.on_delete rows) (each_child go ids chs)
        (along-Ends ids ch ch.on_delete rows h)
        λ left k. each-Ends ids chs left (omega (arith, h, k))

widen-Ends : (a b : ℕ) (r : Option Rows) → a ≤ b → Ends a r → Ends b r
widen-Ends a b none h e = e
widen-Ends a b (some rows) h e = omega (arith, h, e)

-- The rows without those of ids.
abbrev pub without : String → List ℕ → Rows → Rows
without e ids rows = insert e (removed ids (rows_in e rows)) rows

without-le : (e : String) (ids : List ℕ) (rows : Rows) → total (without e ids rows) ≤ total rows
without-le e ids rows =
    let rs = rows_in e rows in
    omega (arith, total-insert e (removed ids rs) rows, length-removed ids rs)

without-lt :
    (e : String) (ids : List ℕ) (rows : Rows)
    → hits ids (rows_in e rows) ≡ true
    → total (without e ids rows) < total rows
without-lt e ids rows h =
    let rs = rows_in e rows in
    omega (arith, total-insert e (removed ids rs) rows, length-removed_lt ids rs h)

module _ (children : String → List Reference) where
  -- From rows that some id hits.
  hitting-Ends : (n : ℕ) → Ending n (delete_cascade children n)
  unfolding delete_cascade
  hitting-Ends zero e ids rows h k = omega (arith, h, without-lt e ids rows k)
  hitting-Ends (suc n) e ids rows h k =
      let fewer = without-lt e ids rows k in
      widen-Ends (total (without e ids rows)) (total rows) _ (omega (arith, fewer)) (
        each-Ends n (delete_cascade children n) (hitting-Ends n) ids (children e)
          (without e ids rows) (omega (arith, h, fewer)))

  -- With fuel for one call more than there are rows, a cascade comes to its end, whatever the relations.
  pub delete_cascade-Ends :
      (n : ℕ) (e : String) (ids : List ℕ) (rows : Rows)
      → total rows < n
      → Ends (total rows) (delete_cascade children n e ids rows)
  unfolding delete_cascade
  delete_cascade-Ends zero e ids rows h = absurd (omega (arith, h))
  delete_cascade-Ends (suc n) e ids rows h =
      let fewer = without-le e ids rows in
      widen-Ends (total (without e ids rows)) (total rows) _ fewer (
        each-Ends n (delete_cascade children n) (hitting-Ends n) ids (children e)
          (without e ids rows) (omega (arith, h, fewer)))
