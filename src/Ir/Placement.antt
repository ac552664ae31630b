-- ===== src/Ir/Placement.antt =====
-- Where an action runs: the end of `action` in internal/ir/build.go, from the facts that its walk
-- over the body has collected to the placement, its reason, and the two refusals. The walk itself is
-- not modelled. A Go set of names is a list; the order of a set shows only in the name that a reason
-- or an error reports.
pub mod Sound
mod Tests
use fct.Base.{
  String, ◌≡◌, refl, Bool, true, false, not, ◌&&◌, ◌||◌, Option, none, some, List, [], ◌∷◌, Result,
  ok, err, ◌>>=◌, ◌>>◌, find, all, Map, lookup, string_eq, if◌then◌else◌,
}

pub data Placement : Type 0 where
  server client : Placement

-- The reasons that the compiler gives, in the order of its tests.
pub data Reason : Type 0 where
  client_only durable prints secret nondeterminism service stand_in proc identity : Reason
  header reply emits : Reason
  authoritative server_builtin : String → Reason

pub data BuildError : Type 0 where
  reads_client writes_client : String → BuildError
  gated_client : BuildError

-- What the walk over an action's body has found.
pub record Facts : Type 0 where
  pub reads : List String
  pub writes : List String
  pub requires : List String
  pub server_builtin : Option String
  pub ent_write : Bool
  pub uses_print : Bool
  pub uses_secret : Bool
  pub impure : Bool
  pub calls_service : Bool
  pub is_stand_in : Bool
  pub calls_proc : Bool
  pub establishes_id : Bool
  pub sets_header : Bool
  pub has_ret : Bool
  pub emits_event : Bool

pub record Placed : Type 0 where
  pub placement : Placement
  pub reason : Reason

abbrev pub States : Type 0
States = Map String Placement

abbrev pub is_server : Option Placement → Bool
is_server (some server) = true
is_server (some client) = false
is_server none = false

abbrev pub is_client : Option Placement → Bool
is_client (some server) = false
is_client (some client) = true
is_client none = false

-- `states[name] == Client` and `states[name] == Server`
abbrev pub holds_client : States → String → Bool
holds_client states x = is_client (lookup x states)

abbrev pub holds_server : States → String → Bool
holds_server states x = is_server (lookup x states)

pub writes_only_client_state : List String → States → Bool
writes_only_client_state [] states = false
writes_only_client_state (w ∷ ws) states = all (holds_client states) (w ∷ ws)

-- The `switch`: the first reason for the server that applies.
pub body_reason : States → Facts → Option Reason
body_reason states f =
    if f.ent_write
    then some durable
    else if f.uses_print
    then some prints
    else if f.uses_secret
    then some secret
    else if f.impure && not (writes_only_client_state f.writes states)
    then some nondeterminism
    else if f.calls_service
    then some service
    else if f.is_stand_in
    then some stand_in
    else if f.calls_proc
    then some proc
    else if f.establishes_id
    then some identity
    else if f.sets_header
    then some header
    else if f.has_ret
    then some reply
    else if f.emits_event
    then some emits
    else none

abbrev pub or_else : Option Reason → Option Reason → Option Reason
or_else (some r) o = some r
or_else none o = o

abbrev pub named : (String → Reason) → Option String → Option Reason
named r none = none
named r (some x) = some (r x)

-- All three steps that may move an action to the server, in their order.
pub server_reason : States → Facts → Option Reason
server_reason states f = or_else (body_reason states f) (
    or_else (named authoritative (find (holds_server states) f.writes))
      (named server_builtin f.server_builtin))

abbrev pub refuse_first : (String → BuildError) → Option String → Result BuildError (Unit {0})
refuse_first e none = ok tt
refuse_first e (some x) = err (e x)

abbrev pub no_gate : List String → Result BuildError (Unit {0})
no_gate [] = ok tt
no_gate (r ∷ rs) = err gated_client

abbrev pub settle : States → Facts → Option Reason → Result BuildError Placed
settle states f (some r) = do
  refuse_first reads_client (find (holds_client states) f.reads)
  refuse_first writes_client (find (holds_client states) f.writes)
  ok (record { placement = server; reason = r })
settle states f none = do
  no_gate f.requires
  ok (record { placement = client; reason = client_only })

pub place : States → Facts → Result BuildError Placed
place states f = settle states f (server_reason states f)
