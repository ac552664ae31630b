-- ===== src/Runtime/Deletes/Writes.antt =====
-- The two writes of a delete, the removal of rows and the clearing of a field, on the rows of every entity.
use fct.Base.{
  ℕ, String, ◌≡◌, sym, ◌∙◌, subst, inl, inr, ◌⊎◌, true, false, List, ◌==◌, nat_eq, string_eq, elem,
  In, insert, Bool-cases, if_cases,
}
use fct.Runtime.Deletes.{Reference, Stored, Rows, rows_in, field_int, removed, cleared}
use fct.Runtime.Deletes.Lemmas.{rows_in-insert, rows_in-same}
use fct.Runtime.Deletes.Ends.{without}
use fct.Runtime.Deletes.Survivors.{
  has_id, From, From-refl, Shrinks, In-removed, has_id-removed, In-cleared, has_id-cleared,
}

-- The rows of an entity after a write: of that entity, or as before.
rows_in-cases :
    (P : List Stored → Type 0) (key at : String) (rs : List Stored) (rows : Rows)
    → (key ≡ at → P rs)
    → (P (rows_in at rows))
    → P (rows_in at (insert key rs rows))
rows_in-cases P key at rs rows f g =
    subst P (sym (rows_in-insert key at rs rows))
      (if_cases P (key == at) rs (rows_in at rows) (λ e. f ((string_eq.decides key at).0 e)) λ e. g)

without-In :
    (e at : String) (ids : List ℕ) (rows : Rows) (r : Stored)
    → In r (rows_in at (without e ids rows))
    → In r (rows_in at rows)
without-In e at ids rows r =
    rows_in-cases (λ rs. In r rs → In r (rows_in at rows)) e at (removed ids (rows_in e rows)) rows
      (λ q h. subst (λ x. In r (rows_in x rows)) q (In-removed ids (rows_in e rows) r h).0) λ h. h

pub without-gone :
    (e : String) (ids : List ℕ) (rows : Rows) (r : Stored)
    → In r (rows_in e (without e ids rows))
    → elem r.id ids ≡ false
without-gone e ids rows r h =
    (In-removed ids (rows_in e rows) r
      (subst (In r) (rows_in-same e (removed ids (rows_in e rows)) rows) h)).1

pub without-Shrinks : (e : String) (ids : List ℕ) (rows : Rows) → Shrinks rows (without e ids rows)
without-Shrinks e ids rows at r h = (r, without-In e at ids rows r h, From-refl r)

pub without-has :
    (e p : String) (ids : List ℕ) (v : ℕ) (rows : Rows)
    → has_id v (rows_in p rows) ≡ true
    → (has_id v (rows_in p (without e ids rows)) ≡ true) ⊎ ((p ≡ e) × (elem v ids ≡ true))
without-has e p ids v rows h =
    rows_in-cases (λ rs. (has_id v rs ≡ true) ⊎ ((p ≡ e) × (elem v ids ≡ true))) e p
      (removed ids (rows_in e rows)) rows
      (λ q. elim (Bool-cases (elem v ids)) [
        | inl k ↦ inr (sym q, k)
        | inr k ↦ inl (
            has_id-removed v ids (rows_in e rows) k
              (subst (λ x. has_id v (rows_in x rows) ≡ true) (sym q) h))
      ])
      (inl h)

abbrev pub nulling : Reference → List ℕ → Rows → Rows
nulling ch ids rows = insert ch.entity (cleared ch.field ids (rows_in ch.entity rows)) rows

pub nulling-Shrinks :
    (ch : Reference) (ids : List ℕ) (rows : Rows) → Shrinks rows (nulling ch ids rows)
nulling-Shrinks ch ids rows at s =
    rows_in-cases (λ rs. In s rs → (r : Stored) × In r (rows_in at rows) × From s r) ch.entity at
      (cleared ch.field ids (rows_in ch.entity rows)) rows
      (λ q h.
        let k = In-cleared ch.field ids (rows_in ch.entity rows) s h in
        (k.0, subst (λ x. In k.0 (rows_in x rows)) q k.1, k.2))
      λ h. (s, h, From-refl s)

pub nulling-dropped :
    (ch : Reference) (ids : List ℕ) (rows : Rows) (s : Stored)
    → In s (rows_in ch.entity (nulling ch ids rows))
    → (elem (field_int ch.field s) ids ≡ false) ⊎ (field_int ch.field s ≡ 0)
nulling-dropped ch ids rows s h =
    let rs = rows_in ch.entity rows in
    (In-cleared ch.field ids rs s
      (subst (In s) (rows_in-same ch.entity (cleared ch.field ids rs) rows) h)).3

pub nulling-has :
    (ch : Reference) (ids : List ℕ) (p : String) (v : ℕ) (rows : Rows)
    → has_id v (rows_in p rows) ≡ true
    → has_id v (rows_in p (nulling ch ids rows)) ≡ true
nulling-has ch ids p v rows h =
    rows_in-cases (λ rs. has_id v rs ≡ true) ch.entity p
      (cleared ch.field ids (rows_in ch.entity rows)) rows
      (λ q.
        has_id-cleared v ch.field ids (rows_in ch.entity rows)
        ∙ subst (λ x. has_id v (rows_in x rows) ≡ true) (sym q) h)
      h
