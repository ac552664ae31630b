-- ===== src/Runtime/Deletes/Tests.antt =====
-- Users with posts, which go with their user and lead to their parent post, and with pinned notes.
use fct.Base.{
  subst, sym, if_cases, ℕ, ◌≡◌, ◌≢◌, refl, inl, inr, String, true, Option, none, some, List, [],
  ◌∷◌, ◌==◌, nat_eq, string_eq, if◌then◌else◌, lookup, insert, In, arith,
}
use fct.Runtime.Deletes.{
  Reference, cascade, set_null, Stored, Rows, rows_in, field_int, ref_ids, cleared, each_child,
  check_each, allowed, delete_cascade, check_restrict, delete,
}
use fct.Runtime.Deletes.Lemmas.{total}
use fct.Runtime.Deletes.Survivors.{has_id}
use fct.Runtime.Deletes.Restrict.{check_restrict-diverges}
use fct.Runtime.Deletes.Integrity.{IsIntegral, IsDeleted, Returns, delete_cascade-IsDeleted}
use fct.Runtime.Deletes.Outcome.{Outcome}

abbrev author : Reference
author = record { entity = "Post"; field = "author"; on_delete = cascade }

abbrev parent : Reference
parent = record { entity = "Post"; field = "parent"; on_delete = cascade }

abbrev editor : Reference
editor = record { entity = "Post"; field = "editor"; on_delete = set_null }

abbrev children : String → List Reference
children e = if e == "User" then author ∷ editor ∷ [] else if e == "Post" then parent ∷ [] else []

abbrev user : ℕ → Stored
user n = record { id = n; refs = [] }

abbrev post : ℕ → ℕ → ℕ → Option ℕ → Stored
post n by ed p = record {
  id = n;
  refs = ("author", some by) ∷ ("editor", some ed) ∷ ("parent", p) ∷ [];
}

-- Post 2 answers post 1 of user 1; user 1 is the editor of post 3.
abbrev blog : Rows
blog =
    ("User", user 1 ∷ user 2 ∷ [])
    ∷ ("Post", post 1 1 2 none ∷ post 2 2 2 (some 1) ∷ post 3 2 1 none ∷ [])
    ∷ []

abbrev after_delete : Rows
after_delete =
    ("User", user 2 ∷ [])
    ∷ (
      "Post",
      record { id = 3; refs = ("author", some 2) ∷ ("editor", none) ∷ ("parent", none) ∷ [] } ∷ [],
    )
    ∷ []

deleted_user : delete children 6 "User" 1 blog ≡ some (after_delete, allowed)
unfolding delete delete_cascade check_restrict check_each each_child rows_in ref_ids cleared
    field_int lookup insert
deleted_user = refl

abbrev one_user : Rows
one_user = ("User", user 1 ∷ []) ∷ ("Post", post 1 1 1 none ∷ []) ∷ []

-- The relations of each entity, one by one.
children-cases :
    (P : String → Reference → Type 0)
    → P "User" author
    → P "User" editor
    → P "Post" parent
    → (p : String) (ch : Reference) → In ch (children p)
    → P p ch
children-cases P a b c p ch =
    if_cases (λ l. In ch l → P p ch) (p == "User") (author ∷ editor ∷ []) _
      (λ e h. elim h [
        | inl q ↦
            subst (λ x. P x ch) (sym ((string_eq.decides p "User").0 e))
              (subst (P "User") (sym q) a)
        | inr (inl q) ↦
            subst (λ x. P x ch) (sym ((string_eq.decides p "User").0 e))
              (subst (P "User") (sym q) b)
        | inr (inr k) ↦ elim k [ ]
      ])
      λ other.
        if_cases (λ l. In ch l → P p ch) (p == "Post") (parent ∷ []) []
          (λ e h. elim h [
            | inl q ↦
                subst (λ x. P x ch) (sym ((string_eq.decides p "Post").0 e))
                  (subst (P "Post") (sym q) c)
            | inr k ↦ elim k [ ]
          ])
          λ e h. elim h [ ]

abbrev Holds : String → Reference → Type 0
Holds p ch =
    (r : Stored)
    → In r (rows_in ch.entity one_user)
    → field_int ch.field r ≢ 0
    → has_id (field_int ch.field r) (rows_in p one_user) ≡ true

-- What holds of the one post.
only :
    (P : Stored → Type 0) → P (post 1 1 1 none) → (r : Stored) → In r (post 1 1 1 none ∷ []) → P r
only P k r h = elim h [ inl q ↦ subst P (sym q) k | inr k ↦ elim k [ ] ]

one_user-IsIntegral : IsIntegral children one_user
unfolding rows_in lookup field_int
one_user-IsIntegral =
    children-cases Holds
      (only (λ r. field_int "author" r ≢ 0 → has_id (field_int "author" r) (user 1 ∷ []) ≡ true)
        (λ nz. refl))
      (only (λ r. field_int "editor" r ≢ 0 → has_id (field_int "editor" r) (user 1 ∷ []) ≡ true)
        (λ nz. refl))
      (only
        (λ r.
          field_int "parent" r ≢ 0 → has_id (field_int "parent" r) (post 1 1 1 none ∷ []) ≡ true)
        (λ nz. absurd (nz refl)))

delete_cascade-IsDeleted_example :
    Returns children
      (IsDeleted children "User" (1 ∷ []) one_user)
      (delete_cascade children 3 "User" (1 ∷ []) one_user)
unfolding total
delete_cascade-IsDeleted_example =
    delete_cascade-IsDeleted children 3 "User" (1 ∷ []) one_user (omega arith) one_user-IsIntegral

-- A post that answers itself.
abbrev selfish : Rows
selfish = ("Post", post 1 1 1 (some 1) ∷ []) ∷ []

check_restrict-diverges_example : check_restrict children 1000 selfish "Post" (1 ∷ []) ≡ none
unfolding rows_in lookup field_int
check_restrict-diverges_example =
    check_restrict-diverges children 1000 selfish "Post" (1 ∷ []) parent [] (post 1 1 1 (some 1))
      refl refl refl (inl refl) refl refl
