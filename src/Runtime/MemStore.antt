-- ===== src/Runtime/MemStore.antt =====
-- runtime/memstore.go: the in-memory store's rows, sessions, audit log and transactions.
-- A row is its id with a value for the rest of it, which the store only copies; the values of a
-- session's state are left out. A time is a number. The durable jobs are in Runtime/Jobs; deletes,
-- which follow the relations of the program, are operations that a transaction takes as given.
pub mod Rows
pub mod Sessions
pub mod Commit
mod Tests
use fct.Base.{
  ℕ, zero, suc, ◌-◌, String, Bool, true, false, not, ◌&&◌, Option, none, some, List, [], ◌∷◌, ◌++◌,
  ◌==◌, nat_eq, string_eq, if◌then◌else◌, ltb, Map, lookup, insert, remove, length, drop,
}

pub record Row (V : Type 0) : Type 0 where
  pub id : ℕ
  pub value : V

pub record Session : Type 0 where
  pub actor : String
  pub role : String
  pub verified : Bool
  pub visitor : String
  pub pending_mfa : String
  pub expires : ℕ

module _ {V : Type 0} where
  -- The loop of Save: the first row with the id is replaced, or the row goes to the end.
  unfoldable pub save_in : Row V → List (Row V) → List (Row V)
  save_in row [] = row ∷ []
  save_in row (r ∷ rs) = if r.id == row.id then row ∷ rs else r ∷ save_in row rs

  abbrev pub rows_or_none : Option (List (Row V)) → List (Row V)
  rows_or_none none = []
  rows_or_none (some rs) = rs

  -- Load
  unfoldable pub load : String → Map String (List (Row V)) → List (Row V)
  load entity rows = rows_or_none (lookup entity rows)

  -- Save
  unfoldable pub save : String → Row V → Map String (List (Row V)) → Map String (List (Row V))
  unfolding load save_in
  save entity row rows = insert entity (save_in row (load entity rows)) rows

  -- The row of an id.
  unfoldable pub row_of : ℕ → List (Row V) → Option (Row V)
  row_of id [] = none
  row_of id (r ∷ rs) = if r.id == id then some r else row_of id rs

-- LoadSession
abbrev pub load_session : String → Map String Session → Option Session
load_session sid sessions = lookup sid sessions

-- SaveSession
abbrev pub save_session : String → Session → Map String Session → Map String Session
save_session sid ps sessions = insert sid ps sessions

abbrev update_found :
    String → Session → Option Session → Map String Session → Map String Session × Bool
update_found sid ps none sessions = (sessions, false)
update_found sid ps (some old) sessions = (insert sid ps sessions, true)

-- UpdateSession
unfoldable pub update_session : String → Session → Map String Session → Map String Session × Bool
update_session sid ps sessions = update_found sid ps (lookup sid sessions) sessions

-- DeleteSession
abbrev pub delete_session : String → Map String Session → Map String Session
delete_session sid sessions = remove sid sessions

-- RestateSessions
unfoldable pub restate_sessions : String → String → Map String Session → Map String Session
restate_sessions actor role [] = []
restate_sessions actor role ((sid, ps) ∷ sessions) =
    let rest = restate_sessions actor role sessions in
    if ps.actor == actor then (sid, record ps { role = role }) ∷ rest else (sid, ps) ∷ rest

-- The sessions that a sweep keeps.
unfoldable pub sweep : (Session → Bool) → Map String Session → Map String Session
sweep gone [] = []
sweep gone ((sid, ps) ∷ sessions) =
    let rest = sweep gone sessions in if gone ps then rest else (sid, ps) ∷ rest

-- DeleteVisitorSessions
abbrev pub delete_visitor_sessions : String → Map String Session → Map String Session
delete_visitor_sessions visitor sessions = sweep (λ ps. ps.visitor == visitor) sessions

-- PurgeExpiredSessions
abbrev pub purge_expired_sessions : ℕ → Map String Session → Map String Session
purge_expired_sessions now sessions = sweep (λ ps. ltb ps.expires now) sessions

-- RecentAudit: the last entries, all of them for a limit of 0.
unfoldable pub recent_audit : {A : Type 0} → ℕ → List A → List A
recent_audit limit audit =
    if ltb 0 limit && ltb limit (length audit) then drop (length audit - limit) audit else audit

-- A transaction is the operations that are buffered, each of which may fail.
module _ {S E : Type 0} where
  abbrev pub after_op : S × Option E → S × Option E → S × Option E
  after_op (s, some e) rest = (s, some e)
  after_op (s, none) rest = rest

  -- Commit: in order, up to the first error.
  unfoldable pub commit : List (S → S × Option E) → S → S × Option E
  commit [] s = (s, none)
  commit (op ∷ ops) s = let rest = commit ops (op s).0 in after_op (op s) rest
