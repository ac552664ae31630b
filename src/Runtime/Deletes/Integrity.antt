-- ===== src/Runtime/Deletes/Integrity.antt =====
-- What a cascade leaves: no row of those ids, no reference that leads nowhere, and nothing new.
use fct.Base.{
  ℕ, zero, suc, ◌<◌, ◌≤◌, String, ◌≡◌, ◌≢◌, ap, ◌∙◌, inl, inr, true, false, Option, none, some,
  List, nat_eq, elem, In,
}
use fct.Runtime.Deletes.{Reference, Stored, Rows, rows_in, field_int, each_child, delete_cascade}
use fct.Runtime.Deletes.Lemmas.{total}
use fct.Runtime.Deletes.Ends.{Ends, delete_cascade-Ends, without}
use fct.Runtime.Deletes.Survivors.{has_id, Shrinks, Shrinks-trans}
use fct.Runtime.Deletes.Writes.{without-gone, without-Shrinks}
use fct.Runtime.Deletes.Follow.{
  Ensures, without-Leads, Cascaded, Cascading, FollowedAll, each-Ensures,
}

module _ (children : String → List Reference) where
  Followed-Cascaded :
      (e : String) (ids : List ℕ) (rows left : Rows)
      → FollowedAll children e ids (children e) (without e ids rows) left
      → Cascaded children e ids rows left
  Followed-Cascaded e ids rows left k = record {
    shrinks = Shrinks-trans rows (without e ids rows) left (without-Shrinks e ids rows) k.shrinks;
    gone = λ s h.
        let old = k.shrinks e s h in
        ap (λ i. elem i ids) old.2.same_id ∙ without-gone e ids rows old.0 old.1;
    keeps = λ D h. k.settles D (without-Leads children D e ids rows h);
  }

  cascade-Cascading : (n : ℕ) → Cascading children (delete_cascade children n)
  unfolding delete_cascade
  cascade-Cascading zero e ids rows = tt
  cascade-Cascading (suc n) e ids rows =
      weaken (each_child (delete_cascade children n) ids (children e) (without e ids rows)) (
        each-Ensures children (delete_cascade children n) (cascade-Cascading n) e ids (children e)
          (without e ids rows))
    where
      weaken :
          (r : Option Rows)
          → Ensures (FollowedAll children e ids (children e) (without e ids rows)) r
          → Ensures (Cascaded children e ids rows) r
      weaken none k = tt
      weaken (some left) k = Followed-Cascaded e ids rows left k

  -- Each reference that is not nil leads to a row of the entity that it points at.
  abbrev pub IsIntegral : Rows → Type 0
  IsIntegral rows =
      (p : String) (ch : Reference)
      → In ch (children p)
      → (r : Stored) → In r (rows_in ch.entity rows)
      → field_int ch.field r ≢ 0
      → has_id (field_int ch.field r) (rows_in p rows) ≡ true

  pub record IsDeleted (e : String) (ids : List ℕ) (rows left : Rows) : Type 0 where
    pub integral : IsIntegral left
    pub gone : (s : Stored) → In s (rows_in e left) → elem s.id ids ≡ false
    pub shrinks : Shrinks rows left
    pub no_more : total left ≤ total rows

  -- There is a result, and it is as the predicate says.
  abbrev pub Returns : (Rows → Type 0) → Option Rows → Type 0
  Returns P none = ⊥
  Returns P (some left) = P left

  cascade-Returns :
      (e : String) (ids : List ℕ) (rows : Rows) (r : Option Rows)
      → IsIntegral rows
      → Ends (total rows) r
      → Ensures (Cascaded children e ids rows) r
      → Returns (IsDeleted e ids rows) r
  cascade-Returns e ids rows none k ends h = ends
  cascade-Returns e ids rows (some left) k ends h = record {
    integral = λ p ch c r m nz.
        elim (h.keeps (λ q d v. ⊥) (λ q d i s l z. inl (k q d i s l z)) p ch c r m nz) [
          | inl there ↦ there
          | inr lost ↦ elim lost [ ]
        ];
    gone = h.gone;
    shrinks = h.shrinks;
    no_more = ends;
  }

-- In rows whose references all lead to a row, a cascade with fuel for more calls than there are rows
-- comes to its end, and what it leaves has references that lead to a row only, has no row of the
-- entity with one of the ids, and has only rows that were there, up to references that are nil now.
pub delete_cascade-IsDeleted :
    (children : String → List Reference) (n : ℕ) (e : String) (ids : List ℕ) (rows : Rows)
    → total rows < n
    → IsIntegral children rows
    → Returns children (IsDeleted children e ids rows) (delete_cascade children n e ids rows)
delete_cascade-IsDeleted children n e ids rows fuel k =
    cascade-Returns children e ids rows (delete_cascade children n e ids rows) k
      (delete_cascade-Ends children n e ids rows fuel) (cascade-Cascading children n e ids rows)
