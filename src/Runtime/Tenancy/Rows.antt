-- ===== src/Runtime/Tenancy/Rows.antt =====
-- What the lookups and the updates of the membership table do to its rows.
use fct.Base.{
  ℕ, String, ◌≡◌, ◌≢◌, ◌↔◌, refl, sym, ap, ◌∙◌, subst, inl, inr, ◌⊎◌, true, false, none, some, List,
  [], ◌∷◌, ◌++◌, ◌==◌, nat_eq, Bool-cases, arith, eq_iff, In, All, All-map, any,
}
use fct.Runtime.Tenancy.{Member, is_member_of, membership_of, drop_id, put_role}

-- Two rows stand for different memberships under different ids.
pub record Differs (m n : Member) : Type 0 where
  pub ids : m.id ≢ n.id
  pub names : is_member_of m.username m.tenant n ≡ false

abbrev pub IsUnique : List Member → Type 0
IsUnique [] = Unit
IsUnique (m ∷ ms) = All (Differs m) ms × IsUnique ms

pub In-All : {A : Type 0} (P : A → Type 0) (a : A) (xs : List A) → All P xs → In a xs → P a
In-All P a [] h k = elim k [ ]
In-All P a (x ∷ xs) h (inl e) = subst P (sym e) h.0
In-All P a (x ∷ xs) h (inr k) = In-All P a xs h.1 k

pub membership_of-In :
    (u : String) (t : ℕ) (ms : List Member) (m : Member)
    → membership_of u t ms ≡ some m
    → In m ms × (m.tenant ≡ t) × (m.username ≡ u)
unfolding membership_of
membership_of-In u t [] m h = absurd (cc)
membership_of-In u t (n ∷ ms) m h = ground (arith, eq_iff n.username u, membership_of-In u t ms m)

pub membership_of-none :
    (u : String) (t : ℕ) (ms : List Member)
    → membership_of u t ms ≡ none
    → All (λ m. is_member_of u t m ≡ false) ms
unfolding membership_of
membership_of-none u t [] h = tt
membership_of-none u t (n ∷ ms) h = ground (arith, membership_of-none u t ms)

pub any-id : (m : Member) (ms : List Member) → In m ms → any (λ n. n.id == m.id) ms ≡ true
any-id m [] k = elim k [ ]
any-id m (n ∷ ms) (inl e) = rw (sym e) (ground arith)
any-id m (n ∷ ms) (inr k) = ground (arith, any-id m ms k)

pub In-append : {A : Type 0} (a b : A) (xs : List A) → In a (xs ++ b ∷ []) → In a xs ⊎ (a ≡ b)
In-append a b [] (inl e) = inr e
In-append a b [] (inr k) = elim k [ ]
In-append a b (x ∷ xs) (inl e) = inl (inl e)
In-append a b (x ∷ xs) (inr k) = elim (In-append a b xs k) [ inl h ↦ inl (inr h) | inr e ↦ inr e ]

pub append-In : {A : Type 0} (a b : A) (xs : List A) → In a xs → In a (xs ++ b ∷ [])
append-In a b [] k = elim k [ ]
append-In a b (x ∷ xs) (inl e) = inl e
append-In a b (x ∷ xs) (inr k) = inr (append-In a b xs k)

pub append-last : {A : Type 0} (b : A) (xs : List A) → In b (xs ++ b ∷ [])
append-last b [] = inl refl
append-last b (x ∷ xs) = inr (append-last b xs)

-- Taking out an id keeps the rows with other ids, and adds none.
pub drop_id-keeps :
    (id : ℕ) (ms : List Member) (m : Member) → m.id ≢ id → In m ms → In m (drop_id id ms)
unfolding drop_id
drop_id-keeps id [] m d k = elim k [ ]
drop_id-keeps id (n ∷ ms) m d (inl e) = elim (Bool-cases (n.id == id)) [
  | inl same ↦ absurd (ground (arith, same, e, d, ap (λ x. x.id) e))
  | inr other ↦ rw other (inl e)
]
drop_id-keeps id (n ∷ ms) m d (inr k) = elim (Bool-cases (n.id == id)) [
  | inl same ↦ rw same k
  | inr other ↦ rw other (inr (drop_id-keeps id ms m d k))
]

pub drop_id-In : (id : ℕ) (ms : List Member) (m : Member) → In m (drop_id id ms) → In m ms
unfolding drop_id
drop_id-In id [] m h = h
drop_id-In id (n ∷ ms) m h = elim (Bool-cases (n.id == id)) [
  | inl same ↦ inr (rw same at h)
  | inr other ↦ elim (rw other at h) [ inl e ↦ inl e | inr k ↦ inr (drop_id-In id ms m k) ]
]

pub drop_id-All :
    (P : Member → Type 0) (id : ℕ) (ms : List Member) → All P ms → All P (drop_id id ms)
unfolding drop_id
drop_id-All P id [] h = tt
drop_id-All P id (n ∷ ms) h = elim (Bool-cases (n.id == id)) [
  | inl same ↦ rw same h.1
  | inr other ↦ rw other (h.0, drop_id-All P id ms h.1)
]

pub drop_id-IsUnique : (id : ℕ) (ms : List Member) → IsUnique ms → IsUnique (drop_id id ms)
unfolding drop_id
drop_id-IsUnique id [] h = tt
drop_id-IsUnique id (n ∷ ms) h = elim (Bool-cases (n.id == id)) [
  | inl same ↦ rw same h.1
  | inr other ↦ rw other (drop_id-All (Differs n) id ms h.0, drop_id-IsUnique id ms h.1)
]

-- Setting a role touches one row of the tenant, and only its role.
pub put_role-keeps :
    (u : String) (t : ℕ) (r : String) (ms : List Member) (m : Member)
    → m.tenant ≢ t
    → In m ms ↔ In m (put_role u t r ms)
unfolding put_role
put_role-keeps u t r [] m d = ((λ k. k), λ k. k)
put_role-keeps u t r (n ∷ ms) m d = elim (Bool-cases (is_member_of u t n)) [
  | inl found ↦
      let here : n.tenant ≡ t = ground (arith, found) in
      rw found (
        (λ k. elim k [ inl e ↦ absurd (d (ap (λ x. x.tenant) e ∙ here)) | inr j ↦ inr j ]),
        λ k. elim k [ inl e ↦ absurd (d (ap (λ x. x.tenant) e ∙ here)) | inr j ↦ inr j ],
      )
  | inr other ↦
      let rest = put_role-keeps u t r ms m d in
      rw other (
        (λ k. elim k [ inl e ↦ inl e | inr j ↦ inr (rest.0 j) ]),
        λ k. elim k [ inl e ↦ inl e | inr j ↦ inr (rest.1 j) ],
      )
]

-- A predicate that does not look at the role.
pub put_role-All :
    (P : Member → Type 0) (u : String) (t : ℕ) (r : String) (ms : List Member)
    → ((m : Member) → P m → P (record m { role = r }))
    → All P ms
    → All P (put_role u t r ms)
unfolding put_role
put_role-All P u t r [] f h = tt
put_role-All P u t r (n ∷ ms) f h = elim (Bool-cases (is_member_of u t n)) [
  | inl found ↦ rw found (f n h.0, h.1)
  | inr other ↦ rw other (h.0, put_role-All P u t r ms f h.1)
]

pub put_role-IsUnique :
    (u : String) (t : ℕ) (r : String) (ms : List Member)
    → IsUnique ms
    → IsUnique (put_role u t r ms)
unfolding put_role
put_role-IsUnique u t r [] h = tt
put_role-IsUnique u t r (n ∷ ms) h = elim (Bool-cases (is_member_of u t n)) [
  | inl found ↦ rw found (
      (
        All-map (Differs n) (Differs (record n { role = r })) ms
            (λ m d. record { ids = d.ids; names = d.names }) h.0,
        h.1,
      ))
  | inr other ↦ rw other (
    put_role-All (Differs n) u t r ms (λ m d. record { ids = d.ids; names = d.names }) h.0,
    put_role-IsUnique u t r ms h.1,
  )
]
