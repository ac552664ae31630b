-- ===== src/Runtime/Deletes.antt =====
-- runtime/memstore.go: deletes in the in-memory store, which follow the relations of the program.
-- A row is its id with its relation fields, each of which holds an id or nil; the other fields take
-- no part. toInt reads nil as 0. A set of ids is a list. Both walks recurse as deep as the rows lead
-- them, so they are given fuel: `none` is a walk that has not ended.
pub mod Lemmas
pub mod Ends
pub mod Survivors
pub mod Writes
pub mod Follow
pub mod Integrity
pub mod Restrict
pub mod Outcome
mod Tests
use fct.Base.{
  ℕ, zero, suc, String, Bool, true, false, not, Option, none, some, List, [], ◌∷◌, map, ◌==◌,
  nat_eq, string_eq, if◌then◌else◌, elem, keep, Map, lookup, insert,
}

pub data OnDelete : Type 0 where
  cascade restrict set_null : OnDelete

pub record Reference : Type 0 where
  pub entity : String
  pub field : String
  pub on_delete : OnDelete

pub record Stored : Type 0 where
  pub id : ℕ
  pub refs : Map String (Option ℕ)

abbrev pub Rows : Type 0
Rows = Map String (List Stored)

abbrev rows_or_none : Option (List Stored) → List Stored
rows_or_none none = []
rows_or_none (some rs) = rs

unfoldable pub rows_in : String → Rows → List Stored
rows_in e rows = rows_or_none (lookup e rows)

abbrev pub int_of : Option (Option ℕ) → ℕ
int_of none = 0
int_of (some none) = 0
int_of (some (some n)) = n

-- toInt(m[field])
unfoldable pub field_int : String → Stored → ℕ
field_int f r = int_of (lookup f r.refs)

-- The ids of the rows that reference one of ids.
unfoldable pub ref_ids : String → List ℕ → List Stored → List ℕ
unfolding field_int
ref_ids f ids [] = []
ref_ids f ids (r ∷ rs) =
    let rest = ref_ids f ids rs in if elem (field_int f r) ids then r.id ∷ rest else rest

abbrev pub removed : List ℕ → List Stored → List Stored
removed ids rs = keep (λ r. not (elem r.id ids)) rs

unfoldable pub cleared : String → List ℕ → List Stored → List Stored
unfolding field_int
cleared f ids [] = []
cleared f ids (r ∷ rs) =
    (if elem (field_int f r) ids then record r { refs = insert f none r.refs } else r)
    ∷ cleared f ids rs

abbrev pub then_rows : Option Rows → (Rows → Option Rows) → Option Rows
then_rows none next = none
then_rows (some rows) next = next rows

abbrev pub cascade_to :
    (String → List ℕ → Rows → Option Rows) → String → List ℕ → Rows → Option Rows
cascade_to go e [] rows = some rows
cascade_to go e (i ∷ is) rows = go e (i ∷ is) rows

-- What a delete of ids does along one relation.
abbrev pub along :
    (String → List ℕ → Rows → Option Rows) → List ℕ → Reference → OnDelete → Rows → Option Rows
along go ids ch set_null rows =
    some (insert ch.entity (cleared ch.field ids (rows_in ch.entity rows)) rows)
along go ids ch restrict rows =
    cascade_to go ch.entity (ref_ids ch.field ids (rows_in ch.entity rows)) rows
along go ids ch cascade rows =
    cascade_to go ch.entity (ref_ids ch.field ids (rows_in ch.entity rows)) rows

unfoldable pub each_child :
    (String → List ℕ → Rows → Option Rows) → List ℕ → List Reference → Rows → Option Rows
unfolding rows_in ref_ids cleared
each_child go ids [] rows = some rows
each_child go ids (ch ∷ chs) rows =
    then_rows (along go ids ch ch.on_delete rows) (each_child go ids chs)

pub data Verdict : Type 0 where
  allowed : Verdict
  refused : Reference → Verdict

-- What checkRestrict finds along one relation, by the ids that reference what is deleted.
abbrev pub verdict_along :
    (String → List ℕ → Option Verdict) → Reference → OnDelete → List ℕ → Option Verdict
verdict_along go ch rule [] = some allowed
verdict_along go ch restrict (i ∷ is) = some (refused ch)
verdict_along go ch set_null (i ∷ is) = some allowed
verdict_along go ch cascade (i ∷ is) = go ch.entity (i ∷ is)

abbrev pub first_refusal : Option Verdict → Option Verdict → Option Verdict
first_refusal none rest = none
first_refusal (some (refused ch)) rest = some (refused ch)
first_refusal (some allowed) rest = rest

unfoldable pub check_each :
    (String → List ℕ → Option Verdict) → Rows → List ℕ → List Reference → Option Verdict
unfolding rows_in ref_ids
check_each go rows ids [] = some allowed
check_each go rows ids (ch ∷ chs) =
    first_refusal (verdict_along go ch ch.on_delete (ref_ids ch.field ids (rows_in ch.entity rows)))
      (check_each go rows ids chs)

module _ (children : String → List Reference) where
  -- deleteCascade
  unfoldable pub delete_cascade : ℕ → String → List ℕ → Rows → Option Rows
  unfolding each_child rows_in
  delete_cascade zero e ids rows = none
  delete_cascade (suc n) e ids rows =
      each_child (delete_cascade n) ids (children e) (insert e (removed ids (rows_in e rows)) rows)

  -- checkRestrict
  unfoldable pub check_restrict : ℕ → Rows → String → List ℕ → Option Verdict
  unfolding check_each
  check_restrict zero rows e ids = none
  check_restrict (suc n) rows e ids = check_each (check_restrict n rows) rows ids (children e)

  abbrev pub on_verdict : Option Verdict → Rows → Option Rows → Option (Rows × Verdict)
  on_verdict none rows deleted = none
  on_verdict (some (refused ch)) rows deleted = some (rows, refused ch)
  on_verdict (some allowed) rows none = none
  on_verdict (some allowed) rows (some left) = some (left, allowed)

  -- Delete
  unfoldable pub delete : ℕ → String → ℕ → Rows → Option (Rows × Verdict)
  unfolding delete_cascade check_restrict
  delete n e id rows =
      on_verdict (check_restrict n rows e (id ∷ [])) rows (delete_cascade n e (id ∷ []) rows)

  -- Clear
  unfoldable pub clear : ℕ → String → Rows → Option (Rows × Verdict)
  unfolding delete_cascade check_restrict rows_in
  clear n e rows =
      let ids = map (λ (r : Stored). r.id) (rows_in e rows) in
      on_verdict (check_restrict n rows e ids) rows (delete_cascade n e ids rows)
