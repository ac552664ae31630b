-- ===== src/Runtime/RowIndex.antt =====
-- runtime/rowindex.go: the indexes of an entity's rows by a field, which name the rows that a
-- predicate with a pinned field can accept. A view is built from the rows where it is used: that
-- the code keeps it in the scope until a statement may have edited a row is left out.
pub mod Positions
pub mod Views
pub mod Sound
pub mod Rows
pub mod Members
use fct.Base.{
  ℕ, zero, suc, Bool, true, false, not, ◌||◌, Eq, Option, none, some, List, [], ◌∷◌, ◌++◌, map, ltb,
  nat_eq, if◌then◌else◌, String, Map, lookup, insert, get_elem?, length, elem,
}
use fct.Base.Text.{Text, text_is}
use fct.Runtime.Value.{
  Any, nil, int, float, bool, text, bytes, items, row, Host, elems, get_field, is_record, to_str,
}

-- Positions by key, and the positions of the rows with no key.
pub record View {κ} (K : Type κ) : Type κ where
  pub exact : Map K (List ℕ)
  pub loose : List ℕ

abbrev pub or_empty {ℓ} : {A : Type ℓ} → Option (List A) → List A
or_empty none = []
or_empty (some xs) = xs

module _ {F : Type 0} where
  -- intLike
  unfoldable pub int_like : Any F → Option ℕ
  int_like nil = some 0
  int_like (int n) = some n
  int_like other = none

  abbrev pub text_probe : Any F → Option Text
  text_probe (text s) = some s
  text_probe other = none

-- The key of a value in the text view: none for a list of either representation.
unfoldable pub text_key : {F : Type 0} → Host F → Any F → Option Text
text_key h (bytes bs) = none
text_key h (items xs) = none
text_key h other = some (to_str h other)

module _ {K : Type 0} ⦃e : Eq K⦄ where
  -- The positions of a key.
  abbrev pub bucket : K → View K → List ℕ
  bucket k view = or_empty (lookup k view.exact)

  abbrev pub enter : Option K → ℕ → View K → View K
  enter none i view = record view { loose = view.loose ++ i ∷ [] }
  enter (some k) i view = record view {
    exact = insert k (or_empty (lookup k view.exact) ++ i ∷ []) view.exact;
  }

module _ {F K : Type 0} ⦃e : Eq K⦄ where
  -- The loop of buildInts and of buildTexts; none when a row is no record.
  unfoldable pub build : (Any F → Option K) → String → ℕ → View K → List (Any F) → Option (View K)
  build key_of name i view [] = some view
  build key_of name i view (r ∷ rows) =
      let rest = build key_of name (suc i) (enter (key_of (get_field r name)) i view) rows in
      if is_record r then rest else none

abbrev pub no_view : {K : Type 0} → View K
no_view = record { exact = []; loose = [] }

unfoldable pub build_ints : {F : Type 0} → String → List (Any F) → Option (View ℕ)
unfolding build
build_ints name rows = build int_like name 0 no_view rows

unfoldable pub build_texts : {F : Type 0} → Host F → String → List (Any F) → Option (View Text)
unfolding build
build_texts h name rows = build (text_key h) name 0 no_view rows

-- pick, as positions: two ascending lists in one.
unfoldable pub merge : List ℕ → List ℕ → List ℕ
merge [] [] = []
merge [] (q ∷ qs) = q ∷ merge [] qs
merge (p ∷ ps) [] = p ∷ merge ps []
merge (p ∷ ps) (q ∷ qs) = elim (ltb p q) [
  | true ↦ p ∷ merge ps (q ∷ qs)
  | false ↦ q ∷ merge (p ∷ ps) qs
]

-- The rows at positions; a view holds no position past the end.
unfoldable pub rows_at {ℓ} : {A : Type ℓ} → List A → List ℕ → List A
rows_at rows [] = []
rows_at rows (p ∷ ps) = elim (get_elem? rows p) [
  | none ↦ rows_at rows ps
  | some r ↦ r ∷ rows_at rows ps
]

unfoldable pub pick {ℓ} : {A : Type ℓ} → List A → List ℕ → List ℕ → List A
unfolding merge rows_at
pick rows a b = rows_at rows (merge a b)

-- The positions that a view names for a value, exact and loose; none if no view can.
abbrev pub named_by : {K : Type 0} ⦃e : Eq K⦄ → K → Option (View K) → Option (List ℕ × List ℕ)
named_by k none = none
named_by k (some view) = some (bucket k view, view.loose)

module _ {F : Type 0} (h : Host F) where
  unfoldable pub positions_of : String → List (Any F) → Any F → Option (List ℕ × List ℕ)
  unfolding int_like build_ints build_texts
  positions_of name rows probe = elim (int_like probe) [
    | some k ↦ named_by k (build_ints name rows)
    | none ↦ elim (text_probe probe) [ some t ↦ named_by t (build_texts h name rows) | none ↦ none ]
  ]

  -- indexedRows
  unfoldable pub indexed_rows : Bool → String → List (Any F) → Any F → Option (List (Any F))
  unfolding positions_of pick
  indexed_rows indexing name rows probe =
      if not indexing || ltb (length rows) 64 then none else elim (positions_of name rows probe) [
        | none ↦ none
        | some (exact, loose) ↦ some (pick rows exact loose)
      ]

-- Positions once each, in the order they are first met.
unfoldable pub add_all : List ℕ → List ℕ → List ℕ
add_all pos [] = pos
add_all pos (p ∷ ps) = add_all (if elem p pos then pos else pos ++ p ∷ []) ps

-- sort.Ints
unfoldable pub place_in : ℕ → List ℕ → List ℕ
place_in p [] = p ∷ []
place_in p (q ∷ qs) = if ltb p q then p ∷ (q ∷ qs) else q ∷ place_in p qs

unfoldable pub sort : List ℕ → List ℕ
unfolding place_in
sort [] = []
sort (p ∷ ps) = place_in p (sort ps)

module _ {F : Type 0} (h : Host F) where
  -- The loop over the values of `v.f in values`.
  unfoldable pub gather : String → List (Any F) → List ℕ → List (Any F) → Option (List ℕ)
  unfolding positions_of add_all
  gather name rows pos [] = some pos
  gather name rows pos (v ∷ vs) = elim (positions_of h name rows v) [
    | none ↦ none
    | some (exact, loose) ↦ gather name rows (add_all (add_all pos exact) loose) vs
  ]

  abbrev pub list_probe : Any F → Option (List (Any F))
  list_probe (items xs) = some (elems xs)
  list_probe other = none

  -- indexedRowsIn
  unfoldable pub indexed_rows_in : Bool → String → List (Any F) → Any F → Option (List (Any F))
  unfolding gather sort pick
  indexed_rows_in indexing name rows values = elim (list_probe values) [
    | none ↦ none
    | some vs ↦
        if not indexing || ltb (length rows) 64 then none else elim (gather name rows [] vs) [
          | none ↦ none
          | some pos ↦ some (pick rows (sort pos) [])
        ]
  ]
