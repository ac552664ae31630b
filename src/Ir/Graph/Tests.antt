-- ===== src/Ir/Graph/Tests.antt =====
-- The searches on small graphs.
use fct.Base.{refl, ◌≡◌, [], ◌∷◌, lookup, insert}
use fct.Ir.Graph.Decide.{Decides, trigger_cycle-Decides}
use fct.Ir.Graph.{Edges, cycle, trigger_cycle, visit_all, visit, each, keys, nodes, stack_from}

abbrev ring : Edges
ring = ("x", "a" ∷ []) ∷ ("a", "b" ∷ []) ∷ ("b", "c" ∷ "a" ∷ []) ∷ []

ring_found : trigger_cycle ring ≡ cycle ("a" ∷ "b" ∷ "a" ∷ [])
unfolding trigger_cycle visit_all visit each keys nodes stack_from lookup insert
ring_found = refl

trigger_cycle-Decides_example : Decides ring (trigger_cycle ring)
trigger_cycle-Decides_example = trigger_cycle-Decides ring
