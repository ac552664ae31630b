-- ===== src/Ir/Graph/Order.antt =====
-- A search that finds no cycle has put the nodes in an order in which every edge goes down.
use fct.Base.{
  ℕ, zero, suc, String, ◌≡◌, sym, subst, ◌∙◌, inl, inr, Bool, true, false, List, [], ◌∷◌, ◌++◌,
  insert, lookup-insert, elem, eq_iff, string_eq, ==_refl, arith, All,
}
use fct.Ir.Graph.{
  white, gray, black, Colors, color, Edges, successors, Search, done, then-eq-done, Color-cases,
  each, visit, visit_all,
}

abbrev pub is_black : Colors → String → Bool
is_black c n = elim (color c n) [ white ↦ false | gray ↦ false | black ↦ true ]

abbrev pub is_gray : Colors → String → Bool
is_gray c n = elim (color c n) [ white ↦ false | gray ↦ true | black ↦ false ]

abbrev pub is_white : Colors → String → Bool
is_white c n = elim (color c n) [ white ↦ true | gray ↦ false | black ↦ false ]

-- Each node stands above all its successors.
abbrev pub IsTopological : Edges → List String → Type 0
IsTopological edges [] = Unit
IsTopological edges (n ∷ order) =
    All (λ m. elem m order ≡ true) (successors edges n) × IsTopological edges order

-- The black nodes, in the order in which they were finished, last first.
pub record Finished (edges : Edges) (c : Colors) : Type 0 where
  pub order : List String
  pub topological : IsTopological edges order
  pub exact : (x : String) → is_black c x ≡ elem x order

-- From one map of colours to a later one: black stays, and nothing turns gray or white.
pub record Progress (c c' : Colors) : Type 0 where
  pub blacks : (x : String) → is_black c x ≡ true → is_black c' x ≡ true
  pub grays : (x : String) → is_gray c' x ≡ true → is_gray c x ≡ true
  pub whites : (x : String) → is_white c' x ≡ true → is_white c x ≡ true

Progress-refl : (c : Colors) → Progress c c
Progress-refl c = record { blacks = λ x h. h; grays = λ x h. h; whites = λ x h. h }

Progress-trans : {a b c : Colors} → Progress a b → Progress b c → Progress a c
Progress-trans p q = record {
  blacks = λ x h. q.blacks x (p.blacks x h);
  grays = λ x h. p.grays x (q.grays x h);
  whites = λ x h. p.whites x (q.whites x h);
}

-- Gray before its successors, black after them.
finish-Progress :
    (c mid : Colors) (n : String)
    → color c n ≡ white
    → Progress (insert n gray c) mid
    → Progress c (insert n black mid)
finish-Progress c mid n w p = record {
  blacks = λ x h.
      ground (arith, lookup-insert n x black mid, lookup-insert n x gray c, eq_iff n x, p.blacks x);
  grays = λ x h.
      ground (arith, lookup-insert n x black mid, lookup-insert n x gray c, eq_iff n x, p.grays x);
  whites = λ x h.
      ground (arith, lookup-insert n x black mid, lookup-insert n x gray c, eq_iff n x, p.whites x);
}

finish-black : (mid : Colors) (n : String) → is_black (insert n black mid) n ≡ true
finish-black mid n = ground (arith, lookup-insert n n black mid, ==_refl n)

done-injective : {c c' : Colors} → done c ≡ done c' → c ≡ c'
done-injective h = cc

All-blacks :
    (c c' : Colors) (ms : List String)
    → Progress c c'
    → All (λ m. is_black c m ≡ true) ms
    → All (λ m. is_black c' m ≡ true) ms
All-blacks c c' [] g h = tt
All-blacks c c' (m ∷ ms) g h = (g.blacks m h.0, All-blacks c c' ms g h.1)

module _ (edges : Edges) where
  pub gray-Finished :
      (c : Colors) (n : String)
      → color c n ≡ white
      → Finished edges c
      → Finished edges (insert n gray c)
  gray-Finished c n w v = record {
    order = v.order;
    topological = v.topological;
    exact = λ x. ground (arith, lookup-insert n x gray c, eq_iff n x, v.exact x);
  }

  black-Finished :
      (c : Colors) (n : String)
      → All (λ m. is_black c m ≡ true) (successors edges n)
      → Finished edges c
      → Finished edges (insert n black c)
  black-Finished c n below v = record {
    order = n ∷ v.order;
    topological = (All-exact (successors edges n) below, v.topological);
    exact = λ x. ground (arith, lookup-insert n x black c, eq_iff n x, v.exact x);
  }
    where
      All-exact :
          (ms : List String)
          → All (λ m. is_black c m ≡ true) ms
          → All (λ m. elem m v.order ≡ true) ms
      All-exact [] h = tt
      All-exact (m ∷ ms) h = (sym (v.exact m) ∙ h.0, All-exact ms h.1)

  -- What a search that ends without a cycle does to the colours.
  abbrev pub Visits : (Colors → String → Search) → Type 0
  Visits go =
      (c c' : Colors) (n : String)
      → color c n ≡ white
      → Finished edges c
      → go c n ≡ done c'
      → Finished edges c' × Progress c c' × (is_black c' n ≡ true)

  pub each-Finished :
      (go : Colors → String → Search) (found : String → List String)
      → Visits go
      → (ms : List String) (c c' : Colors) → Finished edges c
      → each go found c ms ≡ done c'
      → Finished edges c' × Progress c c' × All (λ m. is_black c' m ≡ true) ms
  unfolding each
  each-Finished go found vs [] c c' v h =
      let e = done-injective h in
      (subst (Finished edges) e v, subst (Progress c) e (Progress-refl c), tt)
  each-Finished go found vs (m ∷ ms) c c' v h = elim (Color-cases (color c m)) [
    | inl w ↦
        let (mid, one, more) =
          then-eq-done (go c m) (λ k. each go found k ms) (rw (w, each) at h) in
        let (v1, g1, b1) = vs c mid m w v one in
        let (v2, g2, b2) = each-Finished go found vs ms mid c' v1 more in
        (v2, Progress-trans g1 g2, (g2.blacks m b1, b2))
    | inr (inl g) ↦ cc (rw (g, each) at h)
    | inr (inr b) ↦
        let (v2, g2, b2) = each-Finished go found vs ms c c' v (rw (b, each) at h) in
        (v2, g2, (g2.blacks m (ground arith), b2))
  ]

module _ (edges : Edges) (report : List String → String → List String) where
  pub visit-Visits : (fuel : ℕ) (stack : List String) → Visits edges (visit edges report fuel stack)
  unfolding visit
  visit-Visits zero stack c c' n w v h = cc
  visit-Visits (suc fuel) stack c c' n w v h =
      let go = visit edges report fuel (stack ++ n ∷ []) in
      let (mid, inner, e) = then-eq-done _ _ h in
      let (v1, g1, b1) =
        each-Finished edges go _ (visit-Visits fuel (stack ++ n ∷ [])) (successors edges n) _ mid
          (gray-Finished edges c n w v) inner in
      subst (λ k. Finished edges k × Progress c k × (is_black k n ≡ true)) (done-injective e)
        (black-Finished edges mid n b1 v1, finish-Progress c mid n w g1, finish-black mid n)

  abbrev pub NoGray : Colors → Type 0
  NoGray c = (x : String) → is_gray c x ≡ false

  -- A gray node never starts a search, so that every root ends black.
  pub visit_all-Finished :
      (fuel : ℕ) (ns : List String) (c c' : Colors)
      → NoGray c
      → Finished edges c
      → visit_all edges report fuel c ns ≡ done c'
      → Finished edges c' × Progress c c' × All (λ n. is_black c' n ≡ true) ns
  unfolding visit_all
  visit_all-Finished fuel [] c c' z v h =
      let e = done-injective h in
      (subst (Finished edges) e v, subst (Progress c) e (Progress-refl c), tt)
  visit_all-Finished fuel (n ∷ ns) c c' z v h = elim (Color-cases (color c n)) [
    | inl w ↦
        let (mid, one, more) =
          then-eq-done (visit edges report fuel [] c n) _ (rw (w, visit_all) at h) in
        let (v1, g1, b1) = visit-Visits fuel [] c mid n w v one in
        let (v2, g2, b2) =
          visit_all-Finished fuel ns mid c' (λ x. ground (arith, z x, g1.grays x)) v1 more in
        (v2, Progress-trans g1 g2, (g2.blacks n b1, b2))
    | inr (inl g) ↦ absurd (ground (arith, z n))
    | inr (inr b) ↦
        let (v2, g2, b2) = visit_all-Finished fuel ns c c' z v (rw (b, visit_all) at h) in
        (v2, g2, (g2.blacks n (ground arith), b2))
  ]
