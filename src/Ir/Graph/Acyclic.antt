-- ===== src/Ir/Graph/Acyclic.antt =====
-- A topological order leaves no way from a node back to itself.
use fct.Base.{
  ℕ, suc, ◌≤◌, ◌<◌, String, ◌≡◌, Bool, true, List, [], ◌∷◌, length, elem, eq_iff, string_eq,
  if◌then◌else◌, arith, All,
}
use fct.Ir.Graph.{Edges, successors}
use fct.Ir.Graph.Order.{IsTopological}

-- One edge or more.
pub data Reach (edges : Edges) : String → String → Type 0 where
  edge : {n m : String} → elem m (successors edges n) ≡ true → Reach edges n m
  walk : {n k m : String} → elem k (successors edges n) ≡ true → Reach edges k m → Reach edges n m

abbrev pub IsAcyclic : Edges → Type 0
IsAcyclic edges = (n : String) → ¬ Reach edges n n

-- How many nodes stand at or below the last appearance of a node.
pub rank : String → List String → ℕ
rank n [] = 0
rank n (x ∷ xs) = if elem n xs then rank n xs else suc (length xs)

rank-le : (n : String) (xs : List String) → rank n xs ≤ length xs
unfolding rank
rank-le n [] = omega arith
rank-le n (x ∷ xs) = ground (arith, rank-le n xs)

pub All-elem :
    (p : String → Bool) (ms : List String) (m : String)
    → All (λ x. p x ≡ true) ms
    → elem m ms ≡ true
    → p m ≡ true
All-elem p [] m h e = cc
All-elem p (x ∷ ms) m h e = ground (arith, All-elem p ms m, eq_iff x m)

rank-falls :
    (edges : Edges) (order : List String) (n m : String)
    → IsTopological edges order
    → elem n order ≡ true
    → elem m (successors edges n) ≡ true
    → (rank m order < rank n order) × (elem m order ≡ true)
unfolding rank
rank-falls edges [] n m t i e = cc
rank-falls edges (x ∷ xs) n m t i e = ground (
  arith,
  rank-falls edges xs n m,
  All-elem (λ k. elem k xs) (successors edges x) m t.0,
  rank-le m xs,
  eq_iff x n,
)

pub Reach-falls :
    {edges : Edges} {n m : String} (order : List String)
    → Reach edges n m
    → IsTopological edges order
    → elem n order ≡ true
    → rank m order < rank n order
Reach-falls {edges} {n} {m} order (edge e) t i = (rank-falls edges order n m t i e).0
Reach-falls {edges} {n} {m} order (walk {k = k} e r) t i =
    let (falls, inside) = rank-falls edges order n k t i e in
    omega (arith, Reach-falls order r t inside)

pub no_way_back :
    (edges : Edges) (order : List String) (n : String)
    → IsTopological edges order
    → elem n order ≡ true
    → ¬ Reach edges n n
no_way_back edges order n t i r = absurd (omega (arith, Reach-falls order r t i))
