-- ===== src/Runtime/RowIndex/Rows.antt =====
-- A filter keeps the same rows of an index's candidates as of all rows.
use fct.Base.{
  ℕ, ◌≡◌, inl, inr, ap, subst, ◌∙◌, Bool, true, not, ◌||◌, some, List, String, ltb, keep, length,
  nat_eq, Bool-cases, Option-cases,
}
use fct.Runtime.Value.{Any, Host, get_field}
use fct.Runtime.RowIndex.{merge, rows_at, pick, positions_of, indexed_rows}
use fct.Runtime.RowIndex.Positions.{
  positions, positions-Ascends, elem-positions, merge-positions, keep-rows_at,
}
use fct.Runtime.RowIndex.Sound.{Same, Names, positions_of-Names}

module _ {F : Type 0} (h : Host F) (name : String) (all : List (Any F)) where
  pick-keep :
      (probe : Any F) (a b : List ℕ) (p : Any F → Bool)
      → Names h name all probe a b
      → ((r : Any F) → p r ≡ true → Same h (get_field r name) probe)
      → keep p (pick all a b) ≡ keep p all
  unfolding pick
  pick-keep probe a b p names pinned =
      let either : Any F → Bool = λ r. names.hit r || names.left r in
      let merged : merge a b ≡ positions either 0 all =
        (ap (λ ps. merge ps b) names.exact
          ∙ ap (merge (positions names.hit 0 all)) names.loose
          ∙ merge-positions names.hit names.left names.apart 0 all) in
      ap (λ ps. keep p (rows_at all ps)) merged
      ∙ keep-rows_at p all (positions either 0 all) (positions-Ascends either 0 all)
          λ j r at kept. elem-positions either 0 j all r at (names.covers r (pinned r kept))

  pub indexed_rows-keep :
      (indexing : Bool) (probe : Any F) (found : List (Any F)) (p : Any F → Bool)
      → indexed_rows h indexing name all probe ≡ some found
      → ((r : Any F) → p r ≡ true → Same h (get_field r name) probe)
      → keep p found ≡ keep p all
  unfolding indexed_rows
  indexed_rows-keep indexing probe found p e pinned =
      elim (Bool-cases (not indexing || ltb (length all) 64)) [
        | inl scan ↦ absurd (cc (rw scan at e))
        | inr use_it ↦ elim (Option-cases (positions_of h name all probe)) [
          | inl unnamed ↦ absurd (cc (rw (use_it, unnamed) at e))
          | inr (pair, named_by) ↦
              let f : some (pick all pair.0 pair.1) ≡ some found = rw (use_it, named_by) at e in
              let picked : pick all pair.0 pair.1 ≡ found = cc in
              subst (λ (rs : List (Any F)). keep p rs ≡ keep p all) picked
                (pick-keep probe pair.0 pair.1 p
                  (positions_of-Names h name all probe pair.0 pair.1 named_by) pinned)
        ]
      ]
