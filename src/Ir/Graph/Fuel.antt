-- ===== src/Ir/Graph/Fuel.antt =====
-- One unit of fuel for each node that is still white is enough.
use fct.Base.{
  ℕ, zero, suc, ◌≤◌, ◌<◌, String, ◌≡◌, ◌≢◌, inl, inr, true, List, [], ◌∷◌, ◌++◌, insert,
  lookup-insert, elem, elem-append, eq_iff, string_eq, ==_refl, arith, count, count-lt, count-le,
  lookup,
}
use fct.Ir.Graph.{
  Colors, color, white, gray, black, Edges, successors, Search, done, no_fuel, then-eq-no_fuel,
  Color-cases, each, visit, visit_all, keys, nodes,
}
use fct.Ir.Graph.Order.{Finished, Progress, is_white, Visits, visit-Visits, gray-Finished}

elem-nodes :
    (edges : Edges) (n m : String)
    → elem m (successors edges n) ≡ true
    → elem m (nodes edges) ≡ true
unfolding nodes lookup
elem-nodes [] n m e = cc
elem-nodes ((k, ms) ∷ edges) n m e =
    ground (arith, elem-nodes edges n m, elem-append m ms (nodes edges))

pub keys-nodes :
    (edges : Edges) (n : String) → elem n (keys edges) ≡ true → elem n (nodes edges) ≡ true
unfolding keys nodes
keys-nodes [] n e = cc
keys-nodes ((k, ms) ∷ edges) n e =
    ground (arith, keys-nodes edges n, elem-append n ms (nodes edges))

module _ (edges : Edges) where
  -- How many of the nodes are white.
  abbrev pub whites : Colors → ℕ
  whites c = count (is_white c) (nodes edges)

  whites-le : (c c' : Colors) → Progress c c' → whites c' ≤ whites c
  whites-le c c' g = count-le (is_white c') (is_white c) (nodes edges) g.whites

  whites-gray :
      (c : Colors) (n : String)
      → color c n ≡ white
      → elem n (nodes edges) ≡ true
      → whites (insert n gray c) < whites c
  whites-gray c n w e =
      count-lt (is_white (insert n gray c)) (is_white c) n (nodes edges)
        (λ x h. ground (arith, lookup-insert n x gray c, eq_iff n x)) e
        (ground (arith, lookup-insert n n gray c, ==_refl n)) (ground arith)

  abbrev Suffices : ℕ → (Colors → String → Search) → Type 0
  Suffices k go =
      (c : Colors) (n : String)
      → color c n ≡ white
      → Finished edges c
      → elem n (nodes edges) ≡ true
      → whites c ≤ k
      → go c n ≢ no_fuel

  each-Suffices :
      (k : ℕ) (go : Colors → String → Search) (found : String → List String)
      → Visits edges go
      → Suffices k go
      → (ms : List String) (c : Colors)
      → ((m : String) → elem m ms ≡ true → elem m (nodes edges) ≡ true)
      → Finished edges c
      → whites c ≤ k
      → each go found c ms ≢ no_fuel
  unfolding each
  each-Suffices k go found vs ok [] c ins v le h = cc
  each-Suffices k go found vs ok (m ∷ ms) c ins v le h = elim (Color-cases (color c m)) [
    | inl w ↦ elim (then-eq-no_fuel (go c m) (λ k. each go found k ms) (rw (w, each) at h)) [
      | inl one ↦ ok c m w v (ins m (ground (arith, ==_refl m))) le one
      | inr (mid, one, more) ↦
          let (v1, g1, b1) = vs c mid m w v one in
          each-Suffices k go found vs ok ms mid (λ x e. ins x (ground arith)) v1
            (omega (arith, whites-le c mid g1)) more
    ]
    | inr (inl g) ↦ cc (rw (g, each) at h)
    | inr (inr b) ↦
        each-Suffices k go found vs ok ms c (λ x e. ins x (ground arith)) v le (rw (b, each) at h)
  ]

module _ (edges : Edges) (report : List String → String → List String) where
  visit-Suffices : (k : ℕ) (stack : List String) → Suffices edges k (visit edges report k stack)
  unfolding visit
  visit-Suffices zero stack c n w v e le h = absurd (omega (arith, whites-gray edges c n w e))
  visit-Suffices (suc k) stack c n w v e le h =
      let go = visit edges report k (stack ++ n ∷ []) in
      let found = report (stack ++ n ∷ []) in
      let c1 = insert n gray c in
      elim (then-eq-no_fuel (each go found c1 (successors edges n)) (λ c'. done (insert n black c'))
        h) [
          | inl inner ↦
              each-Suffices edges k go found (visit-Visits edges report k (stack ++ n ∷ []))
                (visit-Suffices k (stack ++ n ∷ [])) (successors edges n) c1
                (λ m. elem-nodes edges n m) (gray-Finished edges c n w v)
                (omega (arith, whites-gray edges c n w e)) inner
          | inr (mid, inner, more) ↦ cc
        ]

  pub visit_all-Suffices :
      (k : ℕ) (ns : List String) (c : Colors)
      → ((n : String) → elem n ns ≡ true → elem n (nodes edges) ≡ true)
      → Finished edges c
      → whites edges c ≤ k
      → visit_all edges report k c ns ≢ no_fuel
  unfolding visit_all
  visit_all-Suffices k [] c ins v le h = cc
  visit_all-Suffices k (n ∷ ns) c ins v le h = elim (Color-cases (color c n)) [
    | inl w ↦
        elim (then-eq-no_fuel (visit edges report k [] c n) (λ c'. visit_all edges report k c' ns)
          (rw (w, visit_all) at h)) [
            | inl one ↦ visit-Suffices k [] c n w v (ins n (ground (arith, ==_refl n))) le one
            | inr (mid, one, more) ↦
                let (v1, g1, b1) = visit-Visits edges report k [] c mid n w v one in
                visit_all-Suffices k ns mid (λ x e. ins x (ground arith)) v1
                  (omega (arith, whites-le edges c mid g1)) more
          ]
    | inr (inl g) ↦
        visit_all-Suffices k ns c (λ x e. ins x (ground arith)) v le (rw (g, visit_all) at h)
    | inr (inr b) ↦
        visit_all-Suffices k ns c (λ x e. ins x (ground arith)) v le (rw (b, visit_all) at h)
  ]
