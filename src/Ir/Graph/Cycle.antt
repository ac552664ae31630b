-- ===== src/Ir/Graph/Cycle.antt =====
-- A path that a search reports runs along edges and ends at a node that stands earlier on it.
use fct.Base.{
  ℕ, zero, suc, String, ◌≡◌, subst, inl, inr, true, List, [], ◌∷◌, ◌++◌, insert, lookup-insert,
  ◌==◌, elem, elem-append, eq_iff, string_eq, arith, ==_refl, Bool-cases,
}
use fct.Ir.Graph.{
  Colors, color, white, gray, Edges, successors, Search, cycle, then-eq-cycle, Color-cases, each,
  visit, visit_all, stack_from, from_start,
}
use fct.Ir.Graph.Order.{Finished, Progress, is_gray, Visits, visit-Visits, gray-Finished}

-- Each node of the list is a successor of the one before it.
abbrev pub IsPath : Edges → List String → Type 0
IsPath edges [] = Unit
IsPath edges (x ∷ []) = Unit
IsPath edges (x ∷ (y ∷ r)) = (elem y (successors edges x) ≡ true) × IsPath edges (y ∷ r)

pub IsPath-snoc :
    (edges : Edges) (xs : List String) (n m : String)
    → IsPath edges (xs ++ n ∷ [])
    → elem m (successors edges n) ≡ true
    → IsPath edges ((xs ++ n ∷ []) ++ m ∷ [])
IsPath-snoc edges [] n m p e = (e, tt)
IsPath-snoc edges (x ∷ []) n m p e = (p.0, (e, tt))
IsPath-snoc edges (x ∷ (y ∷ r)) n m p e = (p.0, IsPath-snoc edges (y ∷ r) n m p.1 e)

cycle-injective : {p q : List String} → cycle p ≡ cycle q → p ≡ q
cycle-injective h = cc

abbrev pub OnStack : Colors → List String → Type 0
OnStack c stack = (x : String) → is_gray c x ≡ true → elem x stack ≡ true

gray-OnStack :
    (c : Colors) (stack : List String) (n : String)
    → OnStack c stack
    → OnStack (insert n gray c) (stack ++ n ∷ [])
gray-OnStack c stack n o x h =
    ground (arith, lookup-insert n x gray c, eq_iff n x, o x, elem-append x stack (n ∷ []))

Progress-OnStack :
    (c c' : Colors) (stack : List String) → Progress c c' → OnStack c stack → OnStack c' stack
Progress-OnStack c c' stack g o x h = o x (g.grays x h)

module _ (edges : Edges) (report : List String → String → List String) (Good : List String → Type 0)
    (good : (stack : List String) (m : String)
      → IsPath edges (stack ++ m ∷ [])
      → elem m stack ≡ true
      → Good (report stack m)) where
  -- A search from a node below a stack reports a good path.
  abbrev Reports : (Colors → String → Search) → List String → Type 0
  Reports go stack =
      (c : Colors) (m : String) (p : List String)
      → color c m ≡ white
      → Finished edges c
      → OnStack c stack
      → IsPath edges (stack ++ m ∷ [])
      → go c m ≡ cycle p
      → Good p

  each-Reports :
      (go : Colors → String → Search) (stack : List String)
      → Visits edges go
      → Reports go stack
      → (ms : List String) (c : Colors) (p : List String)
      → ((m : String) → elem m ms ≡ true → IsPath edges (stack ++ m ∷ []))
      → Finished edges c
      → OnStack c stack
      → each go (report stack) c ms ≡ cycle p
      → Good p
  unfolding each
  each-Reports go stack vs rs [] c p paths v o h = absurd (cc)
  each-Reports go stack vs rs (m ∷ ms) c p paths v o h = elim (Color-cases (color c m)) [
    | inl w ↦ elim (then-eq-cycle (go c m) (λ k. each go (report stack) k ms) (rw (w, each) at h)) [
      | inl one ↦ rs c m p w v o (paths m (ground (arith, ==_refl m))) one
      | inr (mid, one, more) ↦
          let (v1, g1, b1) = vs c mid m w v one in
          each-Reports go stack vs rs ms mid p (λ k e. paths k (ground arith)) v1
            (Progress-OnStack c mid stack g1 o) more
    ]
    | inr (inl g) ↦
        subst Good (cycle-injective (rw (g, each) at h))
          (good stack m (paths m (ground (arith, ==_refl m))) (o m (ground arith)))
    | inr (inr b) ↦
        each-Reports go stack vs rs ms c p (λ k e. paths k (ground arith)) v o (rw (b, each) at h)
  ]

  visit-Reports : (fuel : ℕ) (stack : List String) → Reports (visit edges report fuel stack) stack
  unfolding visit
  visit-Reports zero stack c n p w v o path h = absurd (cc)
  visit-Reports (suc fuel) stack c n p w v o path h =
      let go = visit edges report fuel (stack ++ n ∷ []) in
      elim (then-eq-cycle _ _ h) [
        | inl inner ↦
            each-Reports go (stack ++ n ∷ []) (visit-Visits edges report fuel (stack ++ n ∷ []))
              (visit-Reports fuel (stack ++ n ∷ [])) (successors edges n) (insert n gray c) p
              (λ m e. IsPath-snoc edges stack n m path e) (gray-Finished edges c n w v)
              (gray-OnStack c stack n o) inner
        | inr (mid, inner, e) ↦ absurd (cc)
      ]

  pub visit_all-Reports :
      (fuel : ℕ) (ns : List String) (c : Colors) (p : List String)
      → OnStack c []
      → Finished edges c
      → visit_all edges report fuel c ns ≡ cycle p
      → Good p
  unfolding visit_all
  visit_all-Reports fuel [] c p o v h = absurd (cc)
  visit_all-Reports fuel (n ∷ ns) c p o v h = elim (Color-cases (color c n)) [
    | inl w ↦ elim (then-eq-cycle (visit edges report fuel [] c n) _ (rw (w, visit_all) at h)) [
      | inl one ↦ visit-Reports fuel [] c n p w v o tt one
      | inr (mid, one, more) ↦
          let (v1, g1, b1) = visit-Visits edges report fuel [] c mid n w v one in
          visit_all-Reports fuel ns mid p (Progress-OnStack c mid [] g1 o) v1 more
    ]
    | inr (inl g) ↦ visit_all-Reports fuel ns c p o v (rw (g, visit_all) at h)
    | inr (inr b) ↦ visit_all-Reports fuel ns c p o v (rw (b, visit_all) at h)
  ]

-- A path from a node back to itself.
pub record IsCycle (edges : Edges) (p : List String) : Type 0 where
  pub node : String
  pub between : List String
  pub closed : p ≡ node ∷ (between ++ node ∷ [])
  pub path : IsPath edges p

pub IsPath-tail :
    (edges : Edges) (x : String) (xs : List String) → IsPath edges (x ∷ xs) → IsPath edges xs
IsPath-tail edges x [] p = tt
IsPath-tail edges x (y ∷ r) p = p.1

pub from_start-IsCycle :
    (edges : Edges) (stack : List String) (m : String)
    → IsPath edges (stack ++ m ∷ [])
    → elem m stack ≡ true
    → IsCycle edges (from_start stack m)
unfolding stack_from
from_start-IsCycle edges [] m p e = absurd (cc)
from_start-IsCycle edges (x ∷ xs) m p e = elim (Bool-cases (x == m)) [
  | inl same ↦
      rw (same, stack_from)
        (record { node = m; between = xs; closed = rw ((eq_iff x m).0 same); path = p })
  | inr other ↦
      rw (other, stack_from)
        (from_start-IsCycle edges xs m (IsPath-tail edges x (xs ++ m ∷ []) p) (ground arith))
]
