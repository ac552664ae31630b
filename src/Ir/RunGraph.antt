-- ===== src/Ir/RunGraph.antt =====
-- The graph of actions that `run` one another: `runCallees` and `checkRunGraph` of
-- internal/ir/build.go. A statement is what these two read of it: the action that it runs, if its
-- operation is "run", its body and its `else`.
pub mod Checked
mod Tests
use fct.Base.{
  ℕ, suc, String, Bool, Option, none, some, List, [], ◌∷◌, ◌++◌, map, length, Map, lookup, insert,
  Result, ok, err, ◌>>=◌, ◌>>◌, find, string_eq,
}
use fct.Ir.Placement.{Placement, is_client}
use fct.Ir.Graph.{Edges, Search, cycle, done, no_fuel, visit_all, nodes}

mutual
  pub data Stmt : Type 0 where
    stmt : Option String → Stmts → Stmts → Stmt

  pub data Stmts : Type 0 where
    nil : Stmts
    cons : Stmt → Stmts → Stmts

abbrev pub or_none : Option String → List String
or_none none = []
or_none (some s) = s ∷ []

mutual
  callees : Stmt → List String
  callees (stmt service body other) = or_none service ++ (run_callees body ++ run_callees other)

  -- The actions that a body runs, walking nested blocks.
  pub run_callees : Stmts → List String
  run_callees nil = []
  run_callees (cons s rest) = callees s ++ run_callees rest

pub record Action : Type 0 where
  pub name : String
  pub body : Stmts

pub data BuildError : Type 0 where
  runs_client : String → String → BuildError
  run_cycle : List String → BuildError
  out_of_fuel : BuildError

abbrev pub no_client : String → Option String → Result BuildError (Unit {0})
no_client a none = ok tt
no_client a (some c) = err (runs_client a c)

-- The first loop: `edges[a.Name] = callees`, unless one of them is placed on the client.
pub run_edges : Map String Placement → List Action → Edges → Result BuildError Edges
run_edges by_name [] edges = ok edges
run_edges by_name (a ∷ acts) edges = do
  no_client a.name (find (λ c. is_client (lookup c by_name)) (run_callees a.body))
  run_edges by_name acts (insert a.name (run_callees a.body) edges)

abbrev pub names : List Action → List String
names = map λ a. a.name

-- The error names the whole stack and the node that closes the cycle.
abbrev pub whole_path : List String → String → List String
whole_path stack m = stack ++ m ∷ []

abbrev pub verdict : Search → Result BuildError (Unit {0})
verdict (cycle p) = err (run_cycle p)
verdict (done c) = ok tt
verdict no_fuel = err out_of_fuel

pub check_run_graph : List Action → Map String Placement → Result BuildError (Unit {0})
check_run_graph acts by_name = do
  edges ← run_edges by_name acts []
  verdict (visit_all edges whole_path (suc (length (nodes edges))) [] (names acts))
