-- ===== src/Ir/RunGraph/Checked.antt =====
-- What `checkRunGraph` promises of the actions that it accepts.
use fct.Base.{
  String, ◌≡◌, Bool, true, false, ◌&&◌, List, [], ◌∷◌, ◌++◌, Map, lookup, Result, ok, err, any,
  elem, string_eq, ◌==◌, All,
}
use fct.Ir.Placement.{Placement, is_client}
use fct.Ir.Graph.{Edges}
use fct.Ir.Graph.Acyclic.{IsAcyclic}
use fct.Ir.Graph.Cycle.{IsPath}
use fct.Ir.RunGraph.{
  Action, BuildError, runs_client, run_cycle, out_of_fuel, run_callees, run_edges,
}

module _ (by_name : Map String Placement) where
  -- No callee of these actions is placed on the client.
  abbrev pub CallsServers : List Action → Type 0
  CallsServers = All λ a. All (λ c. is_client (lookup c by_name) ≡ false) (run_callees a.body)

  -- Some action of the list has this name and runs this callee.
  abbrev pub runs : List Action → String → String → Bool
  runs acts a c = any (λ x. x.name == a && elem c (run_callees x.body)) acts

-- A path along edges whose last node stands earlier on it.
pub record IsLasso (edges : Edges) (p : List String) : Type 0 where
  pub stack : List String
  pub last : String
  pub closed : p ≡ stack ++ last ∷ []
  pub path : IsPath edges p
  pub again : elem last stack ≡ true

abbrev pub Promises : List Action → Map String Placement → Result BuildError (Unit {0}) → Type 0
Promises acts by_name (ok u) =
    (edges : Edges) × (run_edges by_name acts [] ≡ ok edges)
    × IsAcyclic edges
    × CallsServers by_name acts
Promises acts by_name (err (runs_client a c)) =
    (is_client (lookup c by_name) ≡ true) × (runs by_name acts a c ≡ true)
Promises acts by_name (err (run_cycle p)) =
    (edges : Edges) × (run_edges by_name acts [] ≡ ok edges) × IsLasso edges p
Promises acts by_name (err out_of_fuel) = ⊥
