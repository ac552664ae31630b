-- ===== src/Runtime/Deletes/Survivors.antt =====
-- The rows that a write of a delete leaves: a removal, and the clearing of a field.
use fct.Base.{
  ℕ, String, ◌≡◌, refl, sym, ap, ◌∙◌, subst, inl, inr, ◌⊎◌, Bool, true, false, not, ◌||◌, none,
  List, [], ◌∷◌, ◌==◌, nat_eq, string_eq, if◌then◌else◌, elem, any, In, insert, lookup-insert,
  arith, Bool-cases, if_cases, if_true, if_false,
}
use fct.Runtime.Deletes.{Stored, Rows, rows_in, field_int, int_of, removed, cleared}

-- A row has the id.
abbrev pub has_id : ℕ → List Stored → Bool
has_id i rs = any (λ r. r.id == i) rs

-- s is r, up to references that are nil by now.
pub record From (s r : Stored) : Type 0 where
  pub same_id : s.id ≡ r.id
  pub refs_kept : (f : String) → (field_int f s ≡ field_int f r) ⊎ (field_int f s ≡ 0)

pub From-refl : (r : Stored) → From r r
From-refl r = record { same_id = refl; refs_kept = λ f. inl refl }

pub From-trans : (t s r : Stored) → From t s → From s r → From t r
From-trans t s r a b = record {
  same_id = a.same_id ∙ b.same_id;
  refs_kept = λ f. elim (a.refs_kept f) [
    | inl e ↦ elim (b.refs_kept f) [ inl k ↦ inl (e ∙ k) | inr k ↦ inr (e ∙ k) ]
    | inr e ↦ inr e
  ];
}

-- Each row that is left was there.
abbrev pub Shrinks : Rows → Rows → Type 0
Shrinks rows left =
    (e : String) (s : Stored)
    → In s (rows_in e left)
    → (r : Stored) × In r (rows_in e rows) × From s r

pub Shrinks-refl : (rows : Rows) → Shrinks rows rows
Shrinks-refl rows e s h = (s, h, From-refl s)

pub Shrinks-trans : (a b c : Rows) → Shrinks a b → Shrinks b c → Shrinks a c
Shrinks-trans a b c f g e t h =
    let s = g e t h in let r = f e s.0 s.1 in (r.0, r.1, From-trans t s.0 r.0 s.2 r.2)

pub In-removed :
    (ids : List ℕ) (rs : List Stored) (r : Stored)
    → In r (removed ids rs)
    → In r rs × (elem r.id ids ≡ false)
In-removed ids [] r h = elim h [ ]
In-removed ids (x ∷ rs) r h = elim (Bool-cases (elem x.id ids)) [
  | inl e ↦
      let rest =
        In-removed ids rs r
          (subst (In r) (if_false (not (elem x.id ids)) _ (removed ids rs) (ap not e)) h) in
      (inr rest.0, rest.1)
  | inr e ↦
      elim (subst (In r) (if_true (not (elem x.id ids)) (x ∷ removed ids rs) _ (ap not e)) h) [
        | inl q ↦ (inl q, subst (λ (y : Stored). elem y.id ids ≡ false) (sym q) e)
        | inr k ↦ let rest = In-removed ids rs r k in (inr rest.0, rest.1)
      ]
]

pub has_id-removed :
    (i : ℕ) (ids : List ℕ) (rs : List Stored)
    → elem i ids ≡ false
    → has_id i rs ≡ true
    → has_id i (removed ids rs) ≡ true
has_id-removed i ids [] k h = h
has_id-removed i ids (x ∷ rs) k h = ground (arith, k, h, has_id-removed i ids rs k)

abbrev nulled : String → Stored → Stored
nulled f r = record r { refs = insert f none r.refs }

field-nulled :
    (f g : String) (r : Stored) → field_int g (nulled f r) ≡ (if f == g then 0 else field_int g r)
unfolding field_int
field-nulled f g r = ap int_of (lookup-insert f g none r.refs) ∙ ground arith

nulled-From : (f : String) (r : Stored) → From (nulled f r) r
nulled-From f r = record {
  same_id = refl;
  refs_kept = λ g. elim (Bool-cases (f == g)) [
    | inl e ↦ inr (field-nulled f g r ∙ if_true (f == g) 0 (field_int g r) e)
    | inr e ↦ inl (field-nulled f g r ∙ if_false (f == g) 0 (field_int g r) e)
  ];
}

field-nulled_same : (f : String) (r : Stored) → field_int f (nulled f r) ≡ 0
field-nulled_same f r =
    field-nulled f f r ∙ if_true (f == f) 0 (field_int f r) ((string_eq.decides f f).1 refl)

-- A row after the clearing of one field of the rows that reference ids.
abbrev pub Cleared : String → List ℕ → List Stored → Stored → Type 0
Cleared f ids rs s =
    (r : Stored) × In r rs × From s r × ((elem (field_int f s) ids ≡ false) ⊎ (field_int f s ≡ 0))

Cleared-first :
    (f : String) (ids : List ℕ) (x s : Stored) (rs : List Stored)
    → s ≡ (if elem (field_int f x) ids then nulled f x else x)
    → Cleared f ids (x ∷ rs) s
Cleared-first f ids x s rs e = elim (Bool-cases (elem (field_int f x) ids)) [
  | inl k ↦
      subst (Cleared f ids (x ∷ rs)) (sym (e ∙ if_true (elem (field_int f x) ids) (nulled f x) x k))
        (x, inl refl, nulled-From f x, inr (field-nulled_same f x))
  | inr k ↦
      subst (Cleared f ids (x ∷ rs))
        (sym (e ∙ if_false (elem (field_int f x) ids) (nulled f x) x k))
        (x, inl refl, From-refl x, inl k)
]

pub In-cleared :
    (f : String) (ids : List ℕ) (rs : List Stored) (s : Stored)
    → In s (cleared f ids rs)
    → Cleared f ids rs s
unfolding cleared
In-cleared f ids [] s h = elim h [ ]
In-cleared f ids (x ∷ rs) s (inl e) = Cleared-first f ids x s rs e
In-cleared f ids (x ∷ rs) s (inr h) =
    let rest = In-cleared f ids rs s h in (rest.0, inr rest.1, rest.2, rest.3)

pub has_id-cleared :
    (i : ℕ) (f : String) (ids : List ℕ) (rs : List Stored)
    → has_id i (cleared f ids rs) ≡ has_id i rs
unfolding cleared
has_id-cleared i f ids [] = refl
has_id-cleared i f ids (x ∷ rs) =
    ap (λ b. b || has_id i (cleared f ids rs)) same
    ∙ ap (λ b. (x.id == i) || b) (has_id-cleared i f ids rs)
  where
    same : ((if elem (field_int f x) ids then nulled f x else x).id == i) ≡ (x.id == i)
    same =
        if_cases (λ (r : Stored). (r.id == i) ≡ (x.id == i)) (elem (field_int f x) ids) (nulled f x)
          x (λ e. refl) λ e. refl
