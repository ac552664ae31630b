-- ===== src/Ir/Graph/Decide.antt =====
-- The searches decide whether a graph has a cycle.
use fct.Base.{
  suc, String, ◌≡◌, ◌≢◌, refl, sym, ◌∙◌, true, List, [], ◌∷◌, length, lookup, elem, string_eq,
  arith, count-le-length,
}
use fct.Ir.Graph.{
  Colors, Edges, successors, Search, cycle, done, no_fuel, visit_all, keys, nodes, from_start,
  trigger_cycle,
}
use fct.Ir.Graph.Order.{Finished, is_black, is_white, visit_all-Finished}
use fct.Ir.Graph.Acyclic.{Reach, edge, walk, IsAcyclic, no_way_back, All-elem}
use fct.Ir.Graph.Cycle.{IsCycle, visit_all-Reports, from_start-IsCycle}
use fct.Ir.Graph.Fuel.{visit_all-Suffices, keys-nodes}

pub unvisited : (edges : Edges) → Finished edges []
unfolding lookup
unvisited edges = record { order = []; topological = tt; exact = λ x. refl }

successor-keys :
    (edges : Edges) (n m : String) → elem m (successors edges n) ≡ true → elem n (keys edges) ≡ true
unfolding keys lookup
successor-keys [] n m e = cc
successor-keys ((k, ms) ∷ edges) n m e = ground (arith, successor-keys edges n m)

leaves : {edges : Edges} {n m : String} → Reach edges n m → elem n (keys edges) ≡ true
leaves {edges} {n} {m} (edge e) = successor-keys edges n m e
leaves {edges} {n} {m} (walk {k = k} e r) = successor-keys edges n k e

-- Any list of roots that holds every key, and only names of the graph, with fuel for every node.
module _ (edges : Edges) (report : List String → String → List String) (roots : List String)
    (all_keys : (n : String) → elem n (keys edges) ≡ true → elem n roots ≡ true)
    (named : (n : String) → elem n roots ≡ true → elem n (nodes edges) ≡ true) where
  abbrev search : Search
  search = visit_all edges report (suc (length (nodes edges))) [] roots

  pub done-IsAcyclic : (c : Colors) → search ≡ done c → IsAcyclic edges
  unfolding lookup
  done-IsAcyclic c h n r =
      let (v, g, b) =
        visit_all-Finished edges report (suc (length (nodes edges))) roots [] c (λ x. refl)
          (unvisited edges) h in
      no_way_back edges v.order n v.topological
        (sym (v.exact n) ∙ All-elem (is_black c) roots n b (all_keys n (leaves r))) r

  pub search-ends : search ≢ no_fuel
  search-ends =
      visit_all-Suffices edges report (suc (length (nodes edges))) roots [] named (unvisited edges)
        (omega (arith, count-le-length (is_white []) (nodes edges)))

abbrev pub Decides : Edges → Search → Type 0
Decides edges (cycle p) = IsCycle edges p
Decides edges (done c) = IsAcyclic edges
Decides edges no_fuel = ⊥

-- The trigger graph is searched to the end: either `trigger_cycle` returns a path along edges from a
-- name back to itself, or no name can be reached from itself.
pub trigger_cycle-Decides : (edges : Edges) → Decides edges (trigger_cycle edges)
unfolding trigger_cycle lookup
trigger_cycle-Decides edges = go (trigger_cycle edges) refl
  where
    go : (s : Search) → trigger_cycle edges ≡ s → Decides edges s
    go (cycle p) e =
        visit_all-Reports edges from_start (IsCycle edges) (from_start-IsCycle edges) _ (keys edges)
          [] p (λ x g. absurd (cc)) (unvisited edges) e
    go (done c) e = done-IsAcyclic edges from_start (keys edges) (λ n k. k) (keys-nodes edges) c e
    go no_fuel e = search-ends edges from_start (keys edges) (λ n k. k) (keys-nodes edges) e
