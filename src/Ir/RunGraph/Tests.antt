-- ===== src/Ir/RunGraph/Tests.antt =====
-- Two actions that run each other, and one that runs a client action.
use fct.Base.{refl, ◌≡◌, String, none, some, List, [], ◌∷◌, err, lookup, insert, Map}
use fct.Ir.Placement.{Placement, server, client}
use fct.Ir.Graph.{visit_all, visit, each, keys, nodes}
use fct.Ir.RunGraph.{
  Stmts, stmt, nil, cons, Action, run_callees, run_edges, check_run_graph, run_cycle, runs_client,
}

abbrev runs_one : String → Stmts
runs_one a = cons (stmt none (cons (stmt (some a) nil nil) nil) nil) nil

abbrev pair : List Action
pair =
    record { name = "post"; body = runs_one "notify" }
    ∷ record { name = "notify"; body = runs_one "post" }
    ∷ []

abbrev placed : Map String Placement
placed = ("post", server) ∷ ("notify", server) ∷ ("show", client) ∷ []

pair_refused : check_run_graph pair placed ≡ err (run_cycle ("post" ∷ "notify" ∷ "post" ∷ []))
unfolding check_run_graph run_edges run_callees visit_all visit each keys nodes lookup insert
pair_refused = refl

client_refused :
    check_run_graph (record { name = "post"; body = runs_one "show" } ∷ []) placed
    ≡ err (runs_client "post" "show")
unfolding check_run_graph run_edges run_callees visit_all visit each keys nodes lookup insert
client_refused = refl
