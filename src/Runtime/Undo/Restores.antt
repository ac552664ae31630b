-- ===== src/Runtime/Undo/Restores.antt =====
-- Rolling back the log of any writes gives the state that the action started from.
use fct.Base.{
  ℕ, ◌≤◌, ◌<◌, String, ◌≡◌, refl, ap, ◌∙◌, inl, inr, Option, none, some, List, [], ◌∷◌, ◌==◌,
  ==_refl, nat_eq, string_eq, arith, eq_iff, Map, lookup, insert, remove, lookup-insert,
  lookup-remove, Bool-cases,
}
use fct.Runtime.Undo.{
  State, FieldUndo, UndoLog, Write, replace, create, set_field, assign, establish, or_zero, rows_of,
  next_of, put, put_back, new_undo_log, record_entity, record_state, undo_fields, restore_rows,
  restore_next, restore_sess, rollback, entity, field, state, log_write, write, writes,
}

-- What was inserted is taken back exactly.
module _ {V : Type 0} where
  insert-back :
      (k : String) (v w : V) (m : Map String V)
      → lookup k m ≡ some v
      → insert k v (insert k w m) ≡ m
  unfolding lookup insert
  insert-back k v w [] h = absurd (cc)
  insert-back k v w ((j, x) ∷ m) h = ground (arith, insert-back k v w m, eq_iff j k, eq_iff k k)

  remove-absent : (k : String) (m : Map String V) → lookup k m ≡ none → remove k m ≡ m
  unfolding lookup remove
  remove-absent k [] h = refl
  remove-absent k ((j, x) ∷ m) h = ground (arith, remove-absent k m)

  remove-back :
      (k : String) (w : V) (m : Map String V) → lookup k m ≡ none → remove k (insert k w m) ≡ m
  unfolding lookup insert remove
  remove-back k w [] h = ground (arith, eq_iff k k)
  remove-back k w ((j, x) ∷ m) h = ground (arith, remove-back k w m, eq_iff k k)

  put_back-insert :
      (k : String) (w : V) (o : Option V) (m : Map String V)
      → lookup k m ≡ o
      → put_back k o (insert k w m) ≡ m
  put_back-insert k w none m h = remove-back k w m h
  put_back-insert k w (some v) m h = insert-back k v w m h

  undo_fields-cong :
      (n : ℕ) (fs : List (FieldUndo V)) (g h : ℕ → Map String V)
      → ((a : ℕ) → a < n → g a ≡ h a)
      → (a : ℕ) → a < n
      → undo_fields fs g a ≡ undo_fields fs h a
  unfolding undo_fields
  undo_fields-cong n [] g h e a l = e a l
  undo_fields-cong n (f ∷ fs) g h e a l =
      undo_fields-cong n fs _ _
        (λ b k. elim (Bool-cases (f.row == b)) [
          | inl t ↦ rw (t, e f.row (ground (arith, t, k))) refl
          | inr t ↦ rw (t, e b k) refl
        ])
        a l

  edit-back :
      (a : ℕ) (name : String) (v : V) (h : ℕ → Map String V) (b : ℕ)
      → let g = put a (insert name v (h a)) h in
        put a (put_back name (lookup name (h a)) (g a)) g b ≡ h b
  edit-back a name v h b = elim (Bool-cases (a == b)) [
    | inl e ↦
        let same : a ≡ b = ground (arith, e) in
        rw (e, ==_refl a) (put_back-insert name v (lookup name (h a)) (h a) refl ∙ ap h same)
    | inr e ↦ rw e refl
  ]

  lookup-restore_sess :
      (us : Map String (Option V)) (m : Map String V) (k : String)
      → lookup k (restore_sess us m) ≡ or_zero (lookup k m) (lookup k us)
  unfolding restore_sess lookup
  lookup-restore_sess [] m k = refl
  lookup-restore_sess ((j, none) ∷ us) m k =
      ground (arith, lookup-remove j k (restore_sess us m), lookup-restore_sess us m k, eq_iff j k)
  lookup-restore_sess ((j, some v) ∷ us) m k =
      ground
        (arith, lookup-insert j k v (restore_sess us m), lookup-restore_sess us m k, eq_iff j k)

lookup-restore_rows :
    (us m : Map String (List ℕ)) (k : String)
    → or_zero [] (lookup k (restore_rows us m)) ≡ or_zero (or_zero [] (lookup k m)) (lookup k us)
unfolding restore_rows lookup
lookup-restore_rows [] m k = refl
lookup-restore_rows ((j, r) ∷ us) m k =
    ground (arith, lookup-insert j k r (restore_rows us m), lookup-restore_rows us m k, eq_iff j k)

-- A table that is snapshot has its counter snapshot.
abbrev saved_next : Map String (List ℕ) → Map String ℕ → Map String ℕ → String → ℕ
saved_next us saved m k = elim (lookup k us) [
  | none ↦ or_zero 0 (lookup k m)
  | some r ↦ or_zero 0 (lookup k saved)
]

lookup-restore_next :
    (us : Map String (List ℕ)) (saved m : Map String ℕ) (k : String)
    → or_zero 0 (lookup k (restore_next us saved m)) ≡ saved_next us saved m k
unfolding restore_next lookup
lookup-restore_next [] saved m k = refl
lookup-restore_next ((j, r) ∷ us) saved m k = ground (
  arith,
  lookup-insert j k (or_zero 0 (lookup j saved)) (restore_next us saved m),
  lookup-restore_next us saved m k,
  eq_iff j k,
)

-- The same state as far as the program can see: a map that has the zero value for a key is the same
-- as one that lacks it, and a record that only a refused action created is out of reach.
module _ {V : Type 0} where
  pub record IsRestored (s t : State V) : Type 0 where
    pub heap : (a : ℕ) → a < s.fresh → t.heap a ≡ s.heap a
    pub rows : (ent : String) → rows_of ent t ≡ rows_of ent s
    pub next_id : (ent : String) → next_of ent t ≡ next_of ent s
    pub sess : (name : String) → lookup name t.sess ≡ lookup name s.sess
    pub actor : t.actor ≡ s.actor
    pub role : t.role ≡ s.role

  -- The log of the writes so far undoes them, part by part.
  record IsUndoing (s t : State V) (u : UndoLog V) : Type 0 where
    heap : (a : ℕ) → a < s.fresh → undo_fields u.fields t.heap a ≡ s.heap a
    rows : (ent : String) → or_zero (rows_of ent t) (lookup ent u.rows) ≡ rows_of ent s
    next_id : (ent : String) → saved_next u.rows u.next_id t.next_id ent ≡ next_of ent s
    sess : (name : String) → or_zero (lookup name t.sess) (lookup name u.sess) ≡ lookup name s.sess
    actor : u.actor ≡ s.actor
    role : u.role ≡ s.role
    fresh : s.fresh ≤ t.fresh

  start-IsUndoing : (s : State V) → IsUndoing s s (new_undo_log s)
  unfolding new_undo_log undo_fields lookup
  start-IsUndoing s = record {
    heap = λ a l. refl;
    rows = λ ent. refl;
    next_id = λ ent. refl;
    sess = λ name. refl;
    actor = refl;
    role = refl;
    fresh = ground arith;
  }

  replace-IsUndoing :
      (s t : State V) (u : UndoLog V) (ent : String) (rows : List ℕ) (next : ℕ) (o : _)
      → lookup ent u.rows ≡ o
      → IsUndoing s t u
      → IsUndoing s (write (replace ent rows next) t) (record_entity o ent t u)
  unfolding write
  replace-IsUndoing s t u ent rows next none e h = record {
    rows = λ x. ground (
      arith,
      e,
      h.rows x,
      eq_iff ent x,
      lookup-insert ent x rows t.entities,
      lookup-insert ent x (rows_of ent t) u.rows,
    );
    next_id = λ x. ground (
      arith,
      e,
      h.next_id x,
      eq_iff ent x,
      lookup-insert ent x next t.next_id,
      lookup-insert ent x (rows_of ent t) u.rows,
      lookup-insert ent x (next_of ent t) u.next_id,
    );
    heap = h.heap;
    sess = h.sess;
    actor = h.actor;
    role = h.role;
    fresh = h.fresh;
  }
  replace-IsUndoing s t u ent rows next (some seen) e h = record {
    rows = λ x. ground (arith, e, h.rows x, eq_iff ent x, lookup-insert ent x rows t.entities);
    next_id = λ x. ground (arith, e, h.next_id x, eq_iff ent x, lookup-insert ent x next t.next_id);
    heap = h.heap;
    sess = h.sess;
    actor = h.actor;
    role = h.role;
    fresh = h.fresh;
  }

  assign-IsUndoing :
      (s t : State V) (u : UndoLog V) (name : String) (v : V) (o : _)
      → lookup name u.sess ≡ o
      → IsUndoing s t u
      → IsUndoing s (write (assign name v) t) (record_state o name t u)
  unfolding write
  assign-IsUndoing s t u name v none e h = record {
    sess = λ x. ground (
      arith,
      e,
      h.sess x,
      eq_iff name x,
      lookup-insert name x v t.sess,
      lookup-insert name x (lookup name t.sess) u.sess,
    );
    heap = h.heap;
    rows = h.rows;
    next_id = h.next_id;
    actor = h.actor;
    role = h.role;
    fresh = h.fresh;
  }
  assign-IsUndoing s t u name v (some seen) e h = record {
    sess = λ x. ground (arith, e, h.sess x, eq_iff name x, lookup-insert name x v t.sess);
    heap = h.heap;
    rows = h.rows;
    next_id = h.next_id;
    actor = h.actor;
    role = h.role;
    fresh = h.fresh;
  }

  write-IsUndoing :
      (s t : State V) (u : UndoLog V) (w : Write V)
      → IsUndoing s t u
      → IsUndoing s (write w t) (log_write w t u)
  unfolding write log_write entity field state undo_fields
  write-IsUndoing s t u (replace ent rows next) h =
      replace-IsUndoing s t u ent rows next (lookup ent u.rows) refl h
  write-IsUndoing s t u (create r) h = record {
    heap = λ a l.
        undo_fields-cong s.fresh u.fields _ _ (λ b k. ground (arith, h.fresh, k)) a l ∙ h.heap a l;
    fresh = ground (arith, h.fresh);
    rows = h.rows;
    next_id = h.next_id;
    sess = h.sess;
    actor = h.actor;
    role = h.role;
  }
  write-IsUndoing s t u (set_field a name v) h = record {
    heap = λ b l.
        undo_fields-cong s.fresh u.fields _ _ (λ c k. edit-back a name v t.heap c) b l ∙ h.heap b l;
    rows = h.rows;
    next_id = h.next_id;
    sess = h.sess;
    actor = h.actor;
    role = h.role;
    fresh = h.fresh;
  }
  write-IsUndoing s t u (assign name v) h =
      assign-IsUndoing s t u name v (lookup name u.sess) refl h
  write-IsUndoing s t u (establish actor role) h = record {
    actor = h.actor;
    heap = h.heap;
    rows = h.rows;
    next_id = h.next_id;
    sess = h.sess;
    role = h.role;
    fresh = h.fresh;
  }

  writes-IsUndoing :
      (s t : State V) (u : UndoLog V) (ws : List (Write V))
      → IsUndoing s t u
      → let r = writes ws (t, u) in IsUndoing s r.0 r.1
  unfolding writes
  writes-IsUndoing s t u [] h = h
  writes-IsUndoing s t u (w ∷ ws) h =
      writes-IsUndoing s (write w t) (log_write w t u) ws (write-IsUndoing s t u w h)

  rolled-IsRestored :
      (s t : State V) (u : UndoLog V) → IsUndoing s t u → IsRestored s (rollback u t)
  unfolding rollback
  rolled-IsRestored s t u h = record {
    heap = h.heap;
    rows = λ ent. lookup-restore_rows u.rows t.entities ent ∙ h.rows ent;
    next_id = λ ent. lookup-restore_next u.rows u.next_id t.next_id ent ∙ h.next_id ent;
    sess = λ name. lookup-restore_sess u.sess t.sess name ∙ h.sess name;
    actor = h.actor;
    role = h.role;
  }

  -- Whatever an action wrote, in any order and however often, rolling back its log gives the state in
  -- which it started: every table with its id counter, every field of every record that there was,
  -- the session's state and its identity.
  pub rollback-IsRestored :
      (s : State V) (ws : List (Write V))
      → let r = writes ws (s, new_undo_log s) in IsRestored s (rollback r.1 r.0)
  rollback-IsRestored s ws =
      let r = writes ws (s, new_undo_log s) in
      rolled-IsRestored s r.0 r.1 (writes-IsUndoing s s (new_undo_log s) ws (start-IsUndoing s))
