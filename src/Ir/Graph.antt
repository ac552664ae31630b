-- ===== src/Ir/Graph.antt =====
-- The depth-first searches of internal/ir/build.go that look for a cycle: `triggerCycle` over the
-- trigger graph, and `visit` of `checkRunGraph` over the graph of `run`s, which differ in the path
-- that they report. A Go map of colours is an association list, and a name that it lacks is white.
-- The stack lists its bottom first. The recursion takes fuel, one unit for each node of the graph.
pub mod Order
pub mod Acyclic
pub mod Cycle
pub mod Fuel
pub mod Decide
mod Tests
use fct.Base.{
  ℕ, zero, suc, String, ◌≡◌, refl, ◌⊎◌, inl, inr, Bool, true, false, Option, none, some, List, [],
  ◌∷◌, ◌++◌, map, length, Map, lookup, insert, ◌==◌, elem, string_eq, if◌then◌else◌,
}

pub data Color : Type 0 where
  white gray black : Color

abbrev pub Colors : Type 0
Colors = Map String Color

abbrev pub or_white : Option Color → Color
or_white none = white
or_white (some k) = k

abbrev pub color : Colors → String → Color
color c n = or_white (lookup n c)

abbrev pub Edges : Type 0
Edges = Map String (List String)

abbrev pub or_nil : Option (List String) → List String
or_nil none = []
or_nil (some ns) = ns

-- `edges[n]`
abbrev pub successors : Edges → String → List String
successors edges n = or_nil (lookup n edges)

pub data Search : Type 0 where
  cycle : List String → Search
  done : Colors → Search
  no_fuel : Search

abbrev pub then_search : Search → (Colors → Search) → Search
then_search (cycle p) k = cycle p
then_search (done c) k = k c
then_search no_fuel k = no_fuel

pub then-eq-done :
    (s : Search) (k : Colors → Search) {c' : Colors}
    → then_search s k ≡ done c'
    → (c : Colors) × (s ≡ done c) × (k c ≡ done c')
then-eq-done (cycle p) k h = cc
then-eq-done (done c) k h = (c, refl, h)
then-eq-done no_fuel k h = cc

pub then-eq-cycle :
    (s : Search) (k : Colors → Search) {p : List String}
    → then_search s k ≡ cycle p
    → (s ≡ cycle p) ⊎ ((c : Colors) × (s ≡ done c) × (k c ≡ cycle p))
then-eq-cycle (cycle p) k h = inl h
then-eq-cycle (done c) k h = inr (c, refl, h)
then-eq-cycle no_fuel k h = cc

pub then-eq-no_fuel :
    (s : Search) (k : Colors → Search)
    → then_search s k ≡ no_fuel
    → (s ≡ no_fuel) ⊎ ((c : Colors) × (s ≡ done c) × (k c ≡ no_fuel))
then-eq-no_fuel (cycle p) k h = cc
then-eq-no_fuel (done c) k h = inr (c, refl, h)
then-eq-no_fuel no_fuel k h = inl refl

pub Color-cases : (k : Color) → (k ≡ white) ⊎ ((k ≡ gray) ⊎ (k ≡ black))
Color-cases white = inl refl
Color-cases gray = inr (inl refl)
Color-cases black = inr (inr refl)

-- The loop over the successors of a node: `go` visits one, `found` reports a back edge.
unfoldable pub each :
    (Colors → String → Search) → (String → List String) → Colors → List String → Search
each go found c [] = done c
each go found c (m ∷ ms) = elim (color c m) [
  | gray ↦ cycle (found m)
  | white ↦ then_search (go c m) (λ c'. each go found c' ms)
  | black ↦ each go found c ms
]

module _ (edges : Edges) (report : List String → String → List String) where
  unfoldable pub visit : ℕ → List String → Colors → String → Search
  unfolding each
  visit zero stack c n = no_fuel
  visit (suc fuel) stack c n =
      then_search
        (each (visit fuel (stack ++ n ∷ [])) (report (stack ++ n ∷ [])) (insert n gray c)
          (successors edges n))
        (λ c'. done (insert n black c'))

  -- Every node that is still white starts a search.
  unfoldable pub visit_all : ℕ → Colors → List String → Search
  visit_all fuel c [] = done c
  visit_all fuel c (n ∷ ns) = elim (color c n) [
    | white ↦ then_search (visit fuel [] c n) (λ c'. visit_all fuel c' ns)
    | gray ↦ visit_all fuel c ns
    | black ↦ visit_all fuel c ns
  ]

unfoldable pub keys : Edges → List String
keys [] = []
keys ((n, ms) ∷ edges) = n ∷ keys edges

-- Every name that the edges mention.
unfoldable pub nodes : Edges → List String
nodes [] = []
nodes ((n, ms) ∷ edges) = n ∷ (ms ++ nodes edges)

-- The stack from the first appearance of a name on.
pub stack_from : String → List String → List String
stack_from m [] = []
stack_from m (s ∷ stack) = if s == m then s ∷ stack else stack_from m stack

-- The cycle that the back edge closes.
abbrev pub from_start : List String → String → List String
from_start stack m = stack_from m stack ++ m ∷ []

pub trigger_cycle : Edges → Search
trigger_cycle edges = visit_all edges from_start (suc (length (nodes edges))) [] (keys edges)
