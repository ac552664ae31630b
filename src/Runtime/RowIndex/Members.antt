-- ===== src/Runtime/RowIndex/Members.antt =====
-- A filter on membership keeps the same rows of an index's candidates as of all rows.
use fct.Base.{
  ℕ, suc, ◌+◌, ◌≤◌, ◌≡◌, inl, inr, refl, ap, subst, ◌∙◌, Bool, true, false, not, ◌||◌, some, List,
  [], ◌∷◌, ◌++◌, String, ltb, keep, get_elem?, length, elem, elem-append, any, ◌==◌, nat_eq, arith,
  Bool-cases, Option-cases,
}
use fct.Runtime.Value.{Any, Anys, items, Host, get_field, elems}
use fct.Runtime.Value.Equal.{equal}
use fct.Runtime.RowIndex.{
  rows_at, pick, positions_of, add_all, place_in, sort, gather, indexed_rows_in,
}
use fct.Runtime.RowIndex.Positions.{elem-positions, merge-nil, Ascends, keep-rows_at}
use fct.Runtime.RowIndex.Sound.{Names, positions_of-Names}

zero-add : (j : ℕ) → 0 + j ≡ j
zero-add j = omega arith

-- No position twice.
abbrev pub IsUnique : List ℕ → Type 0
IsUnique [] = Unit
IsUnique (p ∷ ps) = (elem p ps ≡ false) × IsUnique ps

append-IsUnique : (ps : List ℕ) (q : ℕ) → elem q ps ≡ false → IsUnique ps → IsUnique (ps ++ q ∷ [])
append-IsUnique [] q e u = (refl, tt)
append-IsUnique (p ∷ ps) q e u =
    (ground (arith, elem-append p ps (q ∷ [])), append-IsUnique ps q (ground arith) u.1)

add_all-IsUnique : (pos ps : List ℕ) → IsUnique pos → IsUnique (add_all pos ps)
unfolding add_all
add_all-IsUnique pos [] u = u
add_all-IsUnique pos (p ∷ ps) u = elim (Bool-cases (elem p pos)) [
  | inl old ↦ rw old (add_all-IsUnique pos ps u)
  | inr new ↦ rw new (add_all-IsUnique (pos ++ p ∷ []) ps (append-IsUnique pos p new u))
]

elem-add_all : (pos ps : List ℕ) (q : ℕ) → elem q (add_all pos ps) ≡ (elem q pos || elem q ps)
unfolding add_all
elem-add_all pos [] q = ground arith
elem-add_all pos (p ∷ ps) q =
    ground
      (arith, elem-add_all pos ps q, elem-add_all (pos ++ p ∷ []) ps q, elem-append q pos (p ∷ []))

elem-kept :
    (pos a b : List ℕ) (q : ℕ) → elem q pos ≡ true → elem q (add_all (add_all pos a) b) ≡ true
elem-kept pos a b q k = ground (arith, elem-add_all (add_all pos a) b q, elem-add_all pos a q)

elem-named_by :
    (pos a b : List ℕ) (q : ℕ)
    → (elem q a || elem q b) ≡ true
    → elem q (add_all (add_all pos a) b) ≡ true
elem-named_by pos a b q k = ground (arith, elem-add_all (add_all pos a) b q, elem-add_all pos a q)

elem-place_in : (p q : ℕ) (ps : List ℕ) → elem q (place_in p ps) ≡ (p == q || elem q ps)
unfolding place_in
elem-place_in p q [] = ground arith
elem-place_in p q (x ∷ ps) = ground (arith, elem-place_in p q ps)

elem-sort : (q : ℕ) (ps : List ℕ) → elem q (sort ps) ≡ elem q ps
unfolding sort
elem-sort q [] = refl
elem-sort q (p ∷ ps) = ground (arith, elem-place_in p q (sort ps), elem-sort q ps)

place_in-Ascends :
    (lo p : ℕ) (ps : List ℕ)
    → lo ≤ p
    → elem p ps ≡ false
    → Ascends lo ps
    → Ascends lo (place_in p ps)
unfolding place_in
place_in-Ascends lo p [] le new a = (le, tt)
place_in-Ascends lo p (x ∷ ps) le new a = elim (Bool-cases (ltb p x)) [
  | inl e ↦ rw e (le, (ground arith, a.1))
  | inr e ↦ rw e (a.0, place_in-Ascends (suc x) p ps (ground arith) (ground arith) a.1)
]

sort-Ascends : (ps : List ℕ) → IsUnique ps → Ascends 0 (sort ps)
unfolding sort
sort-Ascends [] u = tt
sort-Ascends (p ∷ ps) u =
    place_in-Ascends 0 p (sort ps) (omega arith) (elem-sort p ps ∙ u.0) (sort-Ascends ps u.1)

module _ {F : Type 0} (h : Host F) (name : String) (all : List (Any F)) where
  -- What the loop over the values has gathered.
  pub record Gathered (pos out : List ℕ) (vs : List (Any F)) : Type 0 where
    pub unique : IsUnique out
    pub kept : (q : ℕ) → elem q pos ≡ true → elem q out ≡ true
    pub covers :
        (j : ℕ) (r : Any F)
        → get_elem? all j ≡ some r
        → any (λ x. equal h (get_field r name) x) vs ≡ true
        → elem j out ≡ true

  named_by-elem :
      (v : Any F) (a b : List ℕ) (j : ℕ) (r : Any F)
      → Names h name all v a b
      → get_elem? all j ≡ some r
      → equal h (get_field r name) v ≡ true
      → (elem j a || elem j b) ≡ true
  named_by-elem v a b j r names at e = elim (Bool-cases (names.hit r)) [
    | inl hit ↦
        ground
          (arith, ap (elem j) names.exact, elem-positions names.hit 0 j all r at hit, zero-add j)
    | inr miss ↦ ground (
      arith,
      ap (elem j) names.loose,
      names.covers r (inl e),
      elem-positions names.left 0 j all r at (ground (arith, names.covers r (inl e))),
      zero-add j,
    )
  ]

  gather-Gathered :
      (pos : List ℕ) (vs : List (Any F)) (out : List ℕ)
      → IsUnique pos
      → gather h name all pos vs ≡ some out
      → Gathered pos out vs
  unfolding gather
  gather-Gathered pos [] out u e =
      let same : pos ≡ out = cc in
      record {
        unique = subst IsUnique same u;
        kept = λ q k. subst (λ ps. elem q ps ≡ true) same k;
        covers = λ j r at k. absurd (cc);
      }
  gather-Gathered pos (v ∷ vs) out u e = elim (Option-cases (positions_of h name all v)) [
    | inl unnamed ↦ absurd (cc (rw (unnamed, gather) at e))
    | inr (pair, named_by) ↦
        let names = positions_of-Names h name all v pair.0 pair.1 named_by in
        let next : List ℕ = add_all (add_all pos pair.0) pair.1 in
        let rest =
          gather-Gathered next vs out
            (add_all-IsUnique (add_all pos pair.0) pair.1 (add_all-IsUnique pos pair.0 u))
            (rw (named_by, gather) at e) in
        record {
          unique = rest.unique;
          kept = λ q k. rest.kept q (elem-kept pos pair.0 pair.1 q k);
          covers = λ j r at k. elim (Bool-cases (equal h (get_field r name) v)) [
            | inl hit ↦
                rest.kept j (
                  elem-named_by pos pair.0 pair.1 j
                    (named_by-elem v pair.0 pair.1 j r names at hit))
            | inr miss ↦ rest.covers j r at (rw miss at k)
          ];
        }
  ]

  sorted-keep :
      (pos : List ℕ) (vs : List (Any F)) (p : Any F → Bool)
      → Gathered [] pos vs
      → ((r : Any F) → p r ≡ true → any (λ x. equal h (get_field r name) x) vs ≡ true)
      → keep p (pick all (sort pos) []) ≡ keep p all
  unfolding pick
  sorted-keep pos vs p found pinned =
      ap (λ ps. keep p (rows_at all ps)) (merge-nil (sort pos))
      ∙ keep-rows_at p all (sort pos) (sort-Ascends pos found.unique) λ j r at kept. ground (
        arith,
        zero-add j,
        elem-sort j pos,
        ap (λ q. elem q (sort pos)) (zero-add j),
        found.covers j r at (pinned r kept),
      )

  pub indexed_rows_in-keep :
      (indexing : Bool) (xs : Anys F) (found : List (Any F)) (p : Any F → Bool)
      → indexed_rows_in h indexing name all (items xs) ≡ some found
      → ((r : Any F) → p r ≡ true → any (λ x. equal h (get_field r name) x) (elems xs) ≡ true)
      → keep p found ≡ keep p all
  unfolding indexed_rows_in
  indexed_rows_in-keep indexing xs found p e pinned =
      elim (Bool-cases (not indexing || ltb (length all) 64)) [
        | inl scan ↦ absurd (cc (rw scan at e))
        | inr use_it ↦ elim (Option-cases (gather h name all [] (elems xs))) [
          | inl unnamed ↦ absurd (cc (rw (use_it, unnamed) at e))
          | inr (pos, named_by) ↦
              let f : some (pick all (sort pos) []) ≡ some found = rw (use_it, named_by) at e in
              let picked : pick all (sort pos) [] ≡ found = cc in
              subst (λ (rs : List (Any F)). keep p rs ≡ keep p all) picked
                (sorted-keep pos (elems xs) p (gather-Gathered [] (elems xs) pos tt named_by)
                  pinned)
        ]
      ]
