-- ===== src/Runtime/Eval/Filter.antt =====
-- Candidates and the early stop of a filter do not change what is made of the rows.
use fct.Base.{
  ℕ, zero, suc, ◌≡◌, inl, inr, refl, sym, ap, ◌∙◌, Bool, true, false, not, ◌&&◌, Option, none, some,
  List, [], ◌∷◌, String, keep, take, length, any, ◌==◌, nat_eq, arith, Bool-cases,
}
use fct.Runtime.Value.{Any, nil, int, bool, items, Anys, Host, elems, get_field, is_record}
use fct.Runtime.Value.Equal.{equal}
use fct.Runtime.Value.Ops.{is_member}
use fct.Runtime.Expr.{AggOp, exists, count, reduce}
use fct.Runtime.RowIndex.{indexed_rows, indexed_rows_in}
use fct.Runtime.RowIndex.Sound.{Same}
use fct.Runtime.RowIndex.Rows.{indexed_rows-keep}
use fct.Runtime.RowIndex.Members.{indexed_rows_in-keep}
use fct.Runtime.Eval.{
  Pin, is_value, in_values, or_all, candidate_rows, find_row, row_or_field, entity_get, keep_until,
  filter_rows, cap_of, needed, cut_to, list_select, answer, filtered,
}

module _ {F : Type 0} (h : Host F) where
  -- A filter that keeps only rows which satisfy what is pinned.
  abbrev pub PinnedBy : (Any F → Bool) → Pin F → Type 0
  PinnedBy p (is_value name probe) = (r : Any F) → p r ≡ true → Same h (get_field r name) probe
  PinnedBy p (in_values name values) =
      (r : Any F) → p r ≡ true → is_member h (get_field r name) values ≡ true

  is_member-items :
      (l : Any F) (xs : Anys F) → is_member h l (items xs) ≡ any (λ x. equal h l x) (elems xs)
  unfolding is_member
  is_member-items nil xs = refl
  is_member-items (int n) xs = refl
  is_member-items l xs = refl

  abbrev pub AllPinned : (Any F → Bool) → Option (Pin F) → Type 0
  AllPinned p none = Unit
  AllPinned p (some pin) = PinnedBy p pin

  or_all-keep :
      (p : Any F → Bool) (all : List (Any F)) (found : Option (List (Any F)))
      → ((rs : List (Any F)) → found ≡ some rs → keep p rs ≡ keep p all)
      → keep p (or_all all found) ≡ keep p all
  or_all-keep p all none same = refl
  or_all-keep p all (some rs) same = same rs refl

  pub candidate_rows-keep :
      (indexing : Bool) (pin : Option (Pin F)) (p : Any F → Bool) (all : List (Any F))
      → AllPinned p pin
      → keep p (candidate_rows h indexing pin all) ≡ keep p all
  unfolding candidate_rows
  candidate_rows-keep indexing none p all pinned = refl
  candidate_rows-keep indexing (some (is_value name probe)) p all pinned =
      or_all-keep p all (indexed_rows h indexing name all probe)
        λ rs e. indexed_rows-keep h name all indexing probe rs p e pinned
  candidate_rows-keep indexing (some (in_values name (items xs))) p all pinned =
      or_all-keep p all (indexed_rows_in h indexing name all (items xs)) λ rs e.
        indexed_rows_in-keep h name all indexing xs rs p e
          λ r k. sym (is_member-items (get_field r name) xs) ∙ pinned r k
  candidate_rows-keep indexing (some (in_values name values)) p all pinned =
      unfold indexed_rows_in in refl

  pub candidates_off :
      (pin : Option (Pin F)) (all : List (Any F)) → candidate_rows h false pin all ≡ all
  unfolding candidate_rows indexed_rows indexed_rows_in
  candidates_off none all = refl
  candidates_off (some (is_value name probe)) all = refl
  candidates_off (some (in_values name (items xs))) all = refl
  candidates_off (some (in_values name values)) all = refl

keep_until-eq {ℓ} :
    {A : Type ℓ} (n : ℕ) (p : A → Bool) (all : List A) → keep_until n p all ≡ take n (keep p all)
unfolding keep_until
keep_until-eq zero p all = refl
keep_until-eq (suc n) p [] = refl
keep_until-eq (suc n) p (r ∷ all) = elim (Bool-cases (p r)) [
  | inl e ↦ rw (e, keep_until) (ap (λ rs. r ∷ rs) (keep_until-eq n p all))
  | inr e ↦ rw (e, keep_until) (keep_until-eq (suc n) p all)
]

take-take {ℓ} : {A : Type ℓ} (n : ℕ) (all : List A) → take n (take n all) ≡ take n all
take-take zero all = refl
take-take (suc n) [] = refl
take-take (suc n) (r ∷ all) = ap (λ rs. r ∷ rs) (take-take n all)

is_empty-take_one {ℓ} : {A : Type ℓ} (all : List A) → (length (take 1 all) == 0) ≡ (length all == 0)
is_empty-take_one [] = refl
is_empty-take_one (r ∷ all) = ground arith

module _ {F : Type 0} (h : Host F) where
  cut_to-until :
      (cap : Option ℕ) (p : Any F → Bool) (all : List (Any F))
      → cut_to cap (filter_rows cap p all) ≡ cut_to cap (keep p all)
  cut_to-until none p all = refl
  cut_to-until (some n) p all = ap (take n) (keep_until-eq n p all) ∙ take-take n (keep p all)

  answer-until :
      (op : AggOp) (field : String) (sel : Option (Any F → Any F)) (limit : Option ℕ)
      (p : Any F → Bool) (all : List (Any F))
      → answer h op field sel limit (filter_rows (needed true op limit) p all)
        ≡ answer h op field sel limit (keep p all)
  unfolding answer
  answer-until exists field sel limit p all =
      ap (λ n. bool (not n))
        (ap (λ (rs : List (Any F)). length rs == 0) (keep_until-eq 1 p all)
          ∙ is_empty-take_one (keep p all))
  answer-until count field sel limit p all = refl
  answer-until AggOp.rows field sel limit p all =
      ap (list_select sel) (cut_to-until (cap_of limit) p all)
  answer-until (reduce t op) field sel limit p all = refl

  pub needed_off : (op : AggOp) (limit : Option ℕ) → needed false op limit ≡ none
  needed_off exists limit = refl
  needed_off AggOp.rows limit = refl
  needed_off op limit = refl

  -- Whether every filter that there is keeps only what is pinned.
  abbrev pub TestPinned : Option (Any F → Bool) → Option (Pin F) → Type 0
  TestPinned none pin = Unit
  TestPinned (some p) pin = AllPinned h p pin

  pub answer-filtered :
      (op : AggOp) (field : String) (sel : Option (Any F → Any F)) (limit : Option ℕ)
      (pin : Option (Pin F)) (test : Option (Any F → Bool)) (all : List (Any F))
      → TestPinned test pin
      → answer h op field sel limit (filtered h true op limit pin test all)
        ≡ answer h op field sel limit (filtered h false op limit pin test all)
  unfolding filtered
  answer-filtered op field sel limit pin none all pinned = refl
  answer-filtered op field sel limit pin (some p) all pinned =
      answer-until op field sel limit p (candidate_rows h true pin all)
      ∙ ap (answer h op field sel limit) (candidate_rows-keep h true pin p all pinned)
      ∙ ap (answer h op field sel limit) (
          sym (
            ap (λ n. filter_rows n p (candidate_rows h false pin all)) (needed_off op limit)
            ∙ ap (keep p) (candidates_off h pin all)))

  abbrev is_row_with : Any F → Any F → Bool
  is_row_with key r = is_record r && equal h (get_field r "id") key

  abbrev head_or_nil : List (Any F) → Any F
  head_or_nil [] = nil
  head_or_nil (r ∷ rs) = r

  find_row-eq :
      (key : Any F) (all : List (Any F))
      → find_row h key all ≡ head_or_nil (keep (is_row_with key) all)
  unfolding find_row
  find_row-eq key [] = refl
  find_row-eq key (r ∷ all) = elim (Bool-cases (is_row_with key r)) [
    | inl e ↦ rw e refl
    | inr e ↦ rw e (find_row-eq key all)
  ]

  is_row_with-Same : (key r : Any F) → is_row_with key r ≡ true → Same h (get_field r "id") key
  is_row_with-Same key r e = elim (Bool-cases (is_record r)) [
    | inl is ↦ inl (rw is at e)
    | inr not_row ↦ absurd (cc (rw not_row at e))
  ]

  pub entity_get-same :
      (all : List (Any F)) (key : Any F) (field : String)
      → entity_get h true all key field ≡ entity_get h false all key field
  unfolding entity_get
  entity_get-same all key field = ap (row_or_field field) (
      find_row-eq key (or_all all (indexed_rows h true "id" all key))
      ∙ ap head_or_nil (
          or_all-keep h (is_row_with key) all (indexed_rows h true "id" all key) λ rs e.
            indexed_rows-keep h "id" all true key rs (is_row_with key) e (is_row_with-Same key))
      ∙ sym (find_row-eq key all))
