-- ===== src/Runtime/Undo/Tests.antt =====
-- An action that adds a row, edits an old one twice and drops the table, before its write fails.
use fct.Base.{ℕ, ◌≡◌, refl, List, [], ◌∷◌, lookup, insert, remove}
use fct.Runtime.Undo.{
  State, Write, replace, create, set_field, assign, establish, new_undo_log, writes, write,
  log_write, rollback, undo_fields, restore_rows, restore_next, restore_sess, entity, field,
}
use fct.Runtime.Undo.Restores.{IsRestored, rollback-IsRestored}

abbrev start : State ℕ
start = record {
  heap = λ a. ("n", 7) ∷ [];
  fresh = 1;
  entities = ("Doc", 0 ∷ []) ∷ [];
  next_id = ("Doc", 1) ∷ [];
  sess = ("seen", 1) ∷ [];
  actor = "ada";
  role = "user";
}

-- Twice the same field, and a field that was not there.
rolled_heap :
    let r =
      writes
        (set_field 0 "n" 8 ∷ set_field 0 "n" 9 ∷ set_field 0 "new" 1 ∷ [])
        (start, new_undo_log start) in
    (rollback r.1 r.0).heap 0 ≡ ("n", 7) ∷ []
unfolding writes write log_write rollback undo_fields restore_rows restore_next restore_sess field
    lookup insert remove new_undo_log
rolled_heap = refl

rolled_rows :
    let r =
      writes
        (create [] ∷ replace "Doc" (0 ∷ 1 ∷ []) 2 ∷ replace "Doc" [] 2 ∷ [])
        (start, new_undo_log start) in
    (rollback r.1 r.0).entities ≡ start.entities
unfolding writes write log_write rollback undo_fields restore_rows restore_next restore_sess entity
    lookup insert new_undo_log
rolled_rows = refl

abbrev edits : List (Write ℕ)
edits = replace "Doc" [] 2 ∷ set_field 0 "n" 8 ∷ assign "seen" 2 ∷ establish "bob" "admin" ∷ []

rollback-IsRestored_example :
    let r = writes edits (start, new_undo_log start) in IsRestored start (rollback r.1 r.0)
rollback-IsRestored_example = rollback-IsRestored start edits
