-- ===== src/Runtime/RowIndex/Views.antt =====
-- The views of an index: the positions that they name for a value hold every row whose field
-- equals it.
use fct.Base.{
  ℕ, suc, ◌≡◌, inl, inr, refl, sym, ap, subst, ◌∙◌, Bool, true, false, Eq, Option, none, some, List,
  [], ◌∷◌, ◌++◌, append_assoc, append-nil, if◌then◌else◌, ◌==◌, nat_eq, String, lookup,
  lookup-insert, arith, Bool-cases,
}
use fct.Base.Text.{text_is}
use fct.Runtime.Value.{Any, get_field, is_record}
use fct.Runtime.RowIndex.{View, or_empty, bucket, enter, build}
use fct.Runtime.RowIndex.Positions.{positions}

abbrev one_if : Bool → ℕ → List ℕ
one_if b i = if b then i ∷ [] else []

module _ {K : Type 0} ⦃e : Eq K⦄ where
  abbrev pub keyed : Option K → K → Bool
  keyed none k = false
  keyed (some own) k = own == k

  abbrev pub keyless : Option K → Bool
  keyless none = true
  keyless (some own) = false

  bucket-enter :
      (k : K) (o : Option K) (i : ℕ) (view : View K)
      → bucket k (enter o i view) ≡ bucket k view ++ one_if (keyed o k) i
  bucket-enter k none i view = sym (append-nil _)
  bucket-enter k (some own) i view = ground (
    arith,
    lookup-insert own k (or_empty (lookup own view.exact) ++ i ∷ []) view.exact,
    e.decides own k,
    append-nil (bucket k view),
  )

  loose-enter :
      (o : Option K) (i : ℕ) (view : View K)
      → (enter o i view).loose ≡ view.loose ++ one_if (keyless o) i
  loose-enter none i view = refl
  loose-enter (some own) i view = sym (append-nil _)

module _ {A : Type 0} where
  positions-cons :
      (t : A → Bool) (i : ℕ) (r : A) (rows : List A)
      → positions t i (r ∷ rows) ≡ one_if (t r) i ++ positions t (suc i) rows
  unfolding positions
  positions-cons t i r rows = ground arith

module _ {F K : Type 0} ⦃e : Eq K⦄ (key_of : Any F → Option K) (name : String) where
  abbrev pub key_at : Any F → Option K
  key_at r = key_of (get_field r name)

  -- What a view holds once it is built.
  pub record Holds (i : ℕ) (rows : List (Any F)) (before after : View K) : Type 0 where
    pub exact :
        (k : K) → bucket k after ≡ bucket k before ++ positions (λ r. keyed (key_at r) k) i rows
    pub loose : after.loose ≡ before.loose ++ positions (λ r. keyless (key_at r)) i rows

  empty-Holds : (i : ℕ) (view : View K) → Holds i [] view view
  unfolding positions
  empty-Holds i view = record { exact = λ k. sym (append-nil _); loose = sym (append-nil _) }

  next-Holds :
      (i : ℕ) (view : View K) (r : Any F) (rows : List (Any F)) (out : View K)
      → Holds (suc i) rows (enter (key_at r) i view) out
      → Holds i (r ∷ rows) view out
  next-Holds i view r rows out ih = record {
    exact = λ k.
        ih.exact k
        ∙ ap (λ ps. ps ++ positions (λ x. keyed (key_at x) k) (suc i) rows)
            (bucket-enter k (key_at r) i view)
        ∙ append_assoc (bucket k view) (one_if (keyed (key_at r) k) i) _
        ∙ ap (λ ps. bucket k view ++ ps) (sym (positions-cons (λ x. keyed (key_at x) k) i r rows));
    loose =
        ih.loose
        ∙ ap (λ ps. ps ++ positions (λ x. keyless (key_at x)) (suc i) rows)
            (loose-enter (key_at r) i view)
        ∙ append_assoc view.loose (one_if (keyless (key_at r)) i) _
        ∙ ap (λ ps. view.loose ++ ps) (sym (positions-cons (λ x. keyless (key_at x)) i r rows));
  }

  pub build-Holds :
      (i : ℕ) (view : View K) (rows : List (Any F)) (out : View K)
      → build key_of name i view rows ≡ some out
      → Holds i rows view out
  unfolding build
  build-Holds i view [] out built =
      subst (λ (o : View K). Holds i [] view o) (cc) (empty-Holds i view)
  build-Holds i view (r ∷ rows) out built = elim (Bool-cases (is_record r)) [
    | inl yes_row ↦
        next-Holds i view r rows out
          (build-Holds (suc i) (enter (key_at r) i view) rows out (rw yes_row at built))
    | inr no_row ↦ absurd (cc (rw no_row at built))
  ]
