-- ===== src/Runtime/Undo.antt =====
-- runtime/undo.go: the undo log of an action whose durable write may fail.
-- A record is a cell of the heap, at an address, since rows are shared and written in place; a table
-- lists addresses. The values of fields and of session state are a parameter. A value that is missing
-- stands for `had` or `sessOK` being false. The log and the session are there (a nil log records
-- nothing).
pub mod Restores
mod Tests
use fct.Base.{
  ℕ, zero, suc, String, Bool, true, false, Option, none, some, List, [], ◌∷◌, ◌==◌, nat_eq,
  string_eq, if◌then◌else◌, Map, lookup, insert, remove,
}

-- m[k] of a map whose missing entries read as a zero value.
abbrev pub or_zero {ℓ} : {A : Type ℓ} → A → Option A → A
or_zero z none = z
or_zero z (some a) = a

module _ (V : Type 0) where
  pub record State : Type 0 where
    pub heap : ℕ → Map String V
    pub fresh : ℕ
    pub entities : Map String (List ℕ)
    pub next_id : Map String ℕ
    pub sess : Map String V
    pub actor : String
    pub role : String

  pub record FieldUndo : Type 0 where
    pub row : ℕ
    pub field : String
    pub val : Option V

  -- `fields` has the newest edit first.
  pub record UndoLog : Type 0 where
    pub rows : Map String (List ℕ)
    pub next_id : Map String ℕ
    pub fields : List FieldUndo
    pub sess : Map String (Option V)
    pub actor : String
    pub role : String

  -- A write of an action, each recorded before it is made: `add` and `remove` replace a table, a
  -- record that is added is new, a field is set in place, `assign` sets session state, `establish`
  -- the identity.
  pub data Write : Type 0 where
    replace : String → List ℕ → ℕ → Write
    create : Map String V → Write
    set_field : ℕ → String → V → Write
    assign : String → V → Write
    establish : String → String → Write

unfoldable pub restore_rows : Map String (List ℕ) → Map String (List ℕ) → Map String (List ℕ)
restore_rows [] m = m
restore_rows ((ent, rows) ∷ us) m = insert ent rows (restore_rows us m)

unfoldable pub restore_next : Map String (List ℕ) → Map String ℕ → Map String ℕ → Map String ℕ
restore_next [] saved m = m
restore_next ((ent, rows) ∷ us) saved m =
    insert ent (or_zero 0 (lookup ent saved)) (restore_next us saved m)

module _ {V : Type 0} where
  abbrev pub rows_of : String → State V → List ℕ
  rows_of ent s = or_zero [] (lookup ent s.entities)

  abbrev pub next_of : String → State V → ℕ
  next_of ent s = or_zero 0 (lookup ent s.next_id)

  abbrev pub put : ℕ → Map String V → (ℕ → Map String V) → ℕ → Map String V
  put a r h b = if a == b then r else h b

  unfoldable pub new_undo_log : State V → UndoLog V
  new_undo_log s = record {
    rows = [];
    next_id = [];
    fields = [];
    sess = [];
    actor = s.actor;
    role = s.role;
  }

  abbrev pub record_entity : Option (List ℕ) → String → State V → UndoLog V → UndoLog V
  record_entity (some seen) ent s u = u
  record_entity none ent s u = record u {
    rows = insert ent (rows_of ent s) u.rows;
    next_id = insert ent (next_of ent s) u.next_id;
  }

  -- `entity`: the first snapshot is the one the action started from.
  unfoldable pub entity : String → State V → UndoLog V → UndoLog V
  entity ent s u = record_entity (lookup ent u.rows) ent s u

  unfoldable pub field : ℕ → String → State V → UndoLog V → UndoLog V
  field row name s u =
      let edit : FieldUndo V = record { row = row; field = name; val = lookup name (s.heap row) } in
      record u { fields = edit ∷ u.fields }

  abbrev pub record_state : Option (Option V) → String → State V → UndoLog V → UndoLog V
  record_state (some seen) name s u = u
  record_state none name s u = record u { sess = insert name (lookup name s.sess) u.sess }

  unfoldable pub state : String → State V → UndoLog V → UndoLog V
  state name s u = record_state (lookup name u.sess) name s u

  -- Put a value back, or take out what was not there.
  abbrev pub put_back : String → Option V → Map String V → Map String V
  put_back name (some v) m = insert name v m
  put_back name none m = remove name m

  -- The fields, newest first.
  unfoldable pub undo_fields : List (FieldUndo V) → (ℕ → Map String V) → ℕ → Map String V
  undo_fields [] h = h
  undo_fields (f ∷ fs) h = undo_fields fs (put f.row (put_back f.field f.val (h f.row)) h)

  unfoldable pub restore_sess : Map String (Option V) → Map String V → Map String V
  restore_sess [] m = m
  restore_sess ((name, v) ∷ us) m = put_back name v (restore_sess us m)

  unfoldable pub rollback : UndoLog V → State V → State V
  rollback u s = record s {
    heap = undo_fields u.fields s.heap;
    entities = restore_rows u.rows s.entities;
    next_id = restore_next u.rows u.next_id s.next_id;
    sess = restore_sess u.sess s.sess;
    actor = u.actor;
    role = u.role;
  }

  unfoldable pub log_write : Write V → State V → UndoLog V → UndoLog V
  unfolding entity field state
  log_write (replace ent rows next) s u = entity ent s u
  log_write (create r) s u = u
  log_write (set_field a name v) s u = field a name s u
  log_write (assign name v) s u = state name s u
  log_write (establish actor role) s u = u

  unfoldable pub write : Write V → State V → State V
  write (replace ent rows next) s = record s {
    entities = insert ent rows s.entities;
    next_id = insert ent next s.next_id;
  }
  write (create r) s = record s { heap = put s.fresh r s.heap; fresh = suc s.fresh }
  write (set_field a name v) s = record s { heap = put a (insert name v (s.heap a)) s.heap }
  write (assign name v) s = record s { sess = insert name v s.sess }
  write (establish actor role) s = record s { actor = actor; role = role }

  -- An action's writes with its log.
  unfoldable pub writes : List (Write V) → State V × UndoLog V → State V × UndoLog V
  writes [] x = x
  writes (w ∷ ws) (s, u) = writes ws (write w s, log_write w s u)
