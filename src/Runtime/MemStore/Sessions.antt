-- ===== src/Runtime/MemStore/Sessions.antt =====
-- The session operations, each by what a lookup finds after it.
use fct.Base.{
  ℕ, String, ◌≡◌, refl, Bool, Option, none, some, [], ◌∷◌, ◌==◌, string_eq, if◌then◌else◌, ltb,
  arith, eq_iff, Map, lookup, lookup-insert, lookup-remove,
}
use fct.Runtime.MemStore.{
  Session, load_session, save_session, update_session, delete_session, restate_sessions, sweep,
  delete_visitor_sessions, purge_expired_sessions,
}

-- A Go map has a key once.
abbrev pub IsMap : Map String Session → Type 0
IsMap [] = Unit
IsMap ((sid, ps) ∷ sessions) = (lookup sid sessions ≡ none) × IsMap sessions

abbrev pub kept : (Session → Bool) → Option Session → Option Session
kept gone none = none
kept gone (some ps) = if gone ps then none else some ps

abbrev pub restated : String → String → Option Session → Option Session
restated actor role none = none
restated actor role (some ps) =
    if ps.actor == actor then some (record ps { role = role }) else some ps

lookup-sweep :
    (gone : Session → Bool) (sid : String) (m : Map String Session)
    → IsMap m
    → lookup sid (sweep gone m) ≡ kept gone (lookup sid m)
unfolding lookup sweep
lookup-sweep gone sid [] h = refl
lookup-sweep gone sid ((k, ps) ∷ m) h =
    ground (arith, h.0, eq_iff k sid, lookup-sweep gone sid m h.1)

lookup-restate :
    (actor role sid : String) (m : Map String Session)
    → lookup sid (restate_sessions actor role m) ≡ restated actor role (lookup sid m)
unfolding lookup restate_sessions
lookup-restate actor role sid [] = refl
lookup-restate actor role sid ((k, ps) ∷ m) =
    ground (arith, eq_iff k sid, lookup-restate actor role sid m)

abbrev pub updated : Bool → Session → Option Session → Option Session → Option Session
updated here ps none old = old
updated here ps (some found) old = if here then some ps else old

-- What a lookup of `at` finds after each operation on the sessions.
pub record Finds (sid visitor actor role : String) (ps : Session) (now : ℕ) (m : Map String Session)
    (at : String) : Type 0 where
  pub save :
      load_session at (save_session sid ps m) ≡ (if sid == at then some ps else load_session at m)
  pub update :
      load_session at (update_session sid ps m).0
      ≡ updated (sid == at) ps (load_session sid m) (load_session at m)
  pub delete :
      load_session at (delete_session sid m) ≡ (if sid == at then none else load_session at m)
  pub restate :
      load_session at (restate_sessions actor role m) ≡ restated actor role (load_session at m)
  pub sign_out :
      load_session at (delete_visitor_sessions visitor m)
      ≡ kept (λ s. s.visitor == visitor) (load_session at m)
  pub purge :
      load_session at (purge_expired_sessions now m)
      ≡ kept (λ s. ltb s.expires now) (load_session at m)

update-finds :
    (sid at : String) (ps : Session) (m : Map String Session) (o : Option Session)
    → lookup sid m ≡ o
    → load_session at (update_session sid ps m).0 ≡ updated (sid == at) ps o (load_session at m)
unfolding update_session
update-finds sid at ps m none h = rw h refl
update-finds sid at ps m (some found) h = rw h (lookup-insert sid at ps m)

-- On sessions that have each key once, a save puts the session under its id; an update does so only
-- for an id that is there, so it never brings a deleted session back; a delete takes one id out; a
-- restatement changes the role of exactly the actor's sessions; and signing a visitor out and the
-- purge take out exactly the visitor's sessions and those that have expired.
pub sessions-Finds :
    (sid visitor actor role : String) (ps : Session) (now : ℕ) (m : Map String Session)
    (at : String)
    → IsMap m
    → Finds sid visitor actor role ps now m at
sessions-Finds sid visitor actor role ps now m at h = record {
  save = lookup-insert sid at ps m;
  update = update-finds sid at ps m (lookup sid m) refl;
  delete = lookup-remove sid at m;
  restate = lookup-restate actor role at m;
  sign_out = lookup-sweep (λ s. s.visitor == visitor) at m h;
  purge = lookup-sweep (λ s. ltb s.expires now) at m h;
}
