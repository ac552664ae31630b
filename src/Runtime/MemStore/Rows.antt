-- ===== src/Runtime/MemStore/Rows.antt =====
-- What a save is for the reads after it.
use fct.Base.{
  ℕ, String, ◌≡◌, refl, ap, ◌∙◌, some, List, [], ◌∷◌, ◌==◌, nat_eq, string_eq, if◌then◌else◌, arith,
  nat_beq_iff, Map, lookup, lookup-insert, Bool-cases, inl, inr,
}
use fct.Runtime.MemStore.{Row, save_in, rows_or_none, load, save, row_of}

module _ {V : Type 0} where
  save_in-row_of :
      (row : Row V) (id : ℕ) (rs : List (Row V))
      → row_of id (save_in row rs) ≡ (if row.id == id then some row else row_of id rs)
  unfolding save_in row_of
  save_in-row_of row id [] = refl
  save_in-row_of row id (r ∷ rs) = ground (
    arith,
    save_in-row_of row id rs,
    nat_beq_iff r.id row.id,
    nat_beq_iff r.id id,
    nat_beq_iff row.id id,
  )

  -- After a save, the saved row is what its entity has under its id, and every other id of every
  -- entity reads as before.
  pub save-row_of :
      (entity other : String) (row : Row V) (id : ℕ) (rows : Map String (List (Row V)))
      → row_of id (load other (save entity row rows)) ≡ (
          if entity == other
          then (if row.id == id then some row else row_of id (load entity rows))
          else row_of id (load other rows))
  unfolding load save
  save-row_of entity other row id rows = elim (Bool-cases (entity == other)) [
    | inl e ↦
        ap (λ o. row_of id (rows_or_none o)) (lookup-insert entity other _ rows)
        ∙ rw e (save_in-row_of row id (rows_or_none (lookup entity rows)))
    | inr e ↦ ap (λ o. row_of id (rows_or_none o)) (lookup-insert entity other _ rows) ∙ rw e refl
  ]
