-- ===== src/Runtime/Deletes/Outcome.antt =====
-- Delete and Clear as a whole: the check, then the cascade.
use fct.Base.{ℕ, String, ◌≡◌, Option, none, some, List}
use fct.Runtime.Deletes.{Reference, Rows, Verdict, allowed, refused, check_restrict}
use fct.Runtime.Deletes.Restrict.{Blocked}
use fct.Runtime.Deletes.Integrity.{IsDeleted}

-- What a delete of ids answers: nothing only where the check has not ended, a refusal with the rows
-- as they were where a protected row stands in the way, and else the rows that the cascade leaves.
abbrev pub Outcome :
    (String → List Reference) → ℕ → String → List ℕ → Rows → Option (Rows × Verdict) → Type 0
Outcome children n e ids rows none = check_restrict children n rows e ids ≡ none
Outcome children n e ids rows (some (left, refused ch)) =
    (left ≡ rows) × Blocked children rows e ids
Outcome children n e ids rows (some (left, allowed)) =
    (Blocked children rows e ids → ⊥) × IsDeleted children e ids rows left
