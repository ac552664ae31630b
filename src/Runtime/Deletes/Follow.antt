-- ===== src/Runtime/Deletes/Follow.antt =====
-- Which references lead to a row after each step of a cascade.
use fct.Base.{
  ℕ, String, ◌≡◌, ◌≢◌, refl, sym, ap, ◌∙◌, subst, inl, inr, ◌⊎◌, true, false, Option, none, some,
  List, [], ◌∷◌, nat_eq, string_eq, elem, In, Bool-cases,
}
use fct.Runtime.Deletes.{
  OnDelete, cascade, restrict, set_null, Reference, Stored, Rows, rows_in, field_int, ref_ids,
  then_rows, cascade_to, along, each_child,
}
use fct.Runtime.Deletes.Lemmas.{elem-ref_ids}
use fct.Runtime.Deletes.Ends.{without}
use fct.Runtime.Deletes.Survivors.{has_id, From, Shrinks, Shrinks-refl, Shrinks-trans}
use fct.Runtime.Deletes.Writes.{
  without-Shrinks, without-has, nulling, nulling-Shrinks, nulling-dropped, nulling-has,
}

carried : (f : String) (s r : Stored) → From s r → field_int f s ≢ 0 → field_int f s ≡ field_int f r
carried f s r k nz = elim (k.refs_kept f) [ inl e ↦ e | inr e ↦ absurd (nz e) ]

-- What every result satisfies.
abbrev pub Ensures : (Rows → Type 1) → Option Rows → Type 1
Ensures P none = Unit
Ensures P (some rows) = P rows

then-Ensures :
    (P Q : Rows → Type 1) (r : Option Rows) (next : Rows → Option Rows)
    → Ensures P r
    → ((rows : Rows) → P rows → Ensures Q (next rows))
    → Ensures Q (then_rows r next)
then-Ensures P Q none next h k = tt
then-Ensures P Q (some rows) next h k = k rows h

module _ (children : String → List Reference) where
  -- The ids that a relation may refer to although their rows are gone.
  abbrev pub Pending : Type 1
  Pending = String → Reference → ℕ → Type 0

  -- Each reference that is not nil leads to a row, or is pending.
  abbrev pub Leads : Pending → Rows → Type 0
  Leads D rows =
      (p : String) (ch : Reference)
      → In ch (children p)
      → (r : Stored) → In r (rows_in ch.entity rows)
      → field_int ch.field r ≢ 0
      → (has_id (field_int ch.field r) (rows_in p rows) ≡ true) ⊎ D p ch (field_int ch.field r)

  abbrev pub adding : String → List ℕ → List Reference → Pending → Pending
  adding e ids chs D p ch v = D p ch v ⊎ ((p ≡ e) × In ch chs × (elem v ids ≡ true))

  pub without-Leads :
      (D : Pending) (e : String) (ids : List ℕ) (rows : Rows)
      → Leads D rows
      → Leads (adding e ids (children e) D) (without e ids rows)
  without-Leads D e ids rows k p ch c r h nz =
      let old = without-Shrinks e ids rows ch.entity r h in
      let same : field_int ch.field r ≡ field_int ch.field old.0 =
        carried ch.field r old.0 old.2 nz in
      elim (k p ch c old.0 old.1 (λ z. nz (same ∙ z))) [
        | inl there ↦
            elim (without-has e p ids (field_int ch.field r) rows
              (subst (λ v. has_id v (rows_in p rows) ≡ true) (sym same) there)) [
                | inl still ↦ inl still
                | inr gone ↦ inr (inr (gone.0, subst (λ x. In ch (children x)) gone.0 c, gone.1))
              ]
        | inr d ↦ inr (inl (subst (D p ch) (sym same) d))
      ]

  -- What a call of deleteCascade does.
  pub record Cascaded (e : String) (ids : List ℕ) (rows left : Rows) : Type 1 where
    pub shrinks : Shrinks rows left
    pub gone : (s : Stored) → In s (rows_in e left) → elem s.id ids ≡ false
    pub keeps : (D : Pending) → Leads D rows → Leads D left

  -- What it does along one relation.
  pub record Followed (ids : List ℕ) (ch : Reference) (rows left : Rows) : Type 1 where
    pub shrinks : Shrinks rows left
    pub dropped :
        (s : Stored)
        → In s (rows_in ch.entity left)
        → (elem (field_int ch.field s) ids ≡ false) ⊎ (field_int ch.field s ≡ 0)
    pub keeps : (D : Pending) → Leads D rows → Leads D left

  nulling-Followed :
      (ids : List ℕ) (ch : Reference) (rows : Rows) → Followed ids ch rows (nulling ch ids rows)
  nulling-Followed ids ch rows = record {
    shrinks = nulling-Shrinks ch ids rows;
    dropped = nulling-dropped ch ids rows;
    keeps = λ D k p c h s m nz.
        let old = nulling-Shrinks ch ids rows c.entity s m in
        let same : field_int c.field s ≡ field_int c.field old.0 =
          carried c.field s old.0 old.2 nz in
        elim (k p c h old.0 old.1 (λ z. nz (same ∙ z))) [
          | inl there ↦ inl (
              nulling-has ch ids p (field_int c.field s) rows
                (subst (λ v. has_id v (rows_in p rows) ≡ true) (sym same) there))
          | inr d ↦ inr (subst (D p c) (sym same) d)
        ];
  }

  -- A row that still refers to one of ids would have been removed.
  Cascaded-dropped :
      (ids : List ℕ) (ch : Reference) (rows left : Rows) (s r : Stored)
      → elem s.id (ref_ids ch.field ids (rows_in ch.entity rows)) ≡ false
      → In r (rows_in ch.entity rows)
      → From s r
      → (elem (field_int ch.field s) ids ≡ false) ⊎ (field_int ch.field s ≡ 0)
  Cascaded-dropped ids ch rows left s r gone m f = elim (f.refs_kept ch.field) [
    | inr e ↦ inr e
    | inl e ↦ elim (Bool-cases (elem (field_int ch.field r) ids)) [
      | inr k ↦ inl (ap (λ v. elem v ids) e ∙ k)
      | inl k ↦
          let found = elem-ref_ids ch.field ids (rows_in ch.entity rows) r m k in
          absurd (cc (gone, found, f.same_id))
    ]
  ]

  Cascaded-Followed :
      (ids : List ℕ) (ch : Reference) (rows left : Rows)
      → Cascaded ch.entity (ref_ids ch.field ids (rows_in ch.entity rows)) rows left
      → Followed ids ch rows left
  Cascaded-Followed ids ch rows left k = record {
    shrinks = k.shrinks;
    dropped = λ s h.
        let old = k.shrinks ch.entity s h in
        Cascaded-dropped ids ch rows left s old.0 (k.gone s h) old.1 old.2;
    keeps = k.keeps;
  }

  Cascaded-nothing : (e : String) (rows : Rows) → Cascaded e [] rows rows
  Cascaded-nothing e rows = record {
    shrinks = Shrinks-refl rows;
    gone = λ s h. refl;
    keeps = λ D k. k;
  }

  abbrev pub Cascading : (String → List ℕ → Rows → Option Rows) → Type 1
  Cascading go =
      (e : String) (ids : List ℕ) (rows : Rows) → Ensures (Cascaded e ids rows) (go e ids rows)

  -- What it does along several relations.
  pub record FollowedAll (e : String) (ids : List ℕ) (chs : List Reference) (rows left : Rows)
      : Type 1 where
    pub shrinks : Shrinks rows left
    pub settles : (D : Pending) → Leads (adding e ids chs D) rows → Leads D left

  Followed-first :
      (e : String) (ids : List ℕ) (ch : Reference) (chs : List Reference) (rows mid left : Rows)
      → Followed ids ch rows mid
      → FollowedAll e ids chs mid left
      → FollowedAll e ids (ch ∷ chs) rows left
  Followed-first e ids ch chs rows mid left a b = record {
    shrinks = Shrinks-trans rows mid left a.shrinks b.shrinks;
    settles = λ D k. b.settles D λ p c h s m nz.
        elim (a.keeps (adding e ids (ch ∷ chs) D) k p c h s m nz) [
          | inl there ↦ inl there
          | inr d ↦ inr (later D p c s (a.dropped s) m nz d)
        ];
  }
    where
      later :
          (D : Pending) (p : String) (c : Reference) (s : Stored)
          → (In s (rows_in ch.entity mid)
              → (elem (field_int ch.field s) ids ≡ false) ⊎ (field_int ch.field s ≡ 0))
          → In s (rows_in c.entity mid)
          → field_int c.field s ≢ 0
          → adding e ids (ch ∷ chs) D p c (field_int c.field s)
          → adding e ids chs D p c (field_int c.field s)
      later D p c s dropped m nz (inl d) = inl d
      later D p c s dropped m nz (inr d) = elim d.1 [
        | inr rest ↦ inr (d.0, rest, d.2)
        | inl q ↦ elim (dropped (subst (λ (x : Reference). In s (rows_in x.entity mid)) q m)) [
          | inl f ↦ absurd (cc (f, d.2, q))
          | inr z ↦ absurd (nz (ap (λ (x : Reference). field_int x.field s) q ∙ z))
        ]
      ]

  module _ (go : String → List ℕ → Rows → Option Rows) (cascading : Cascading go) where
    to-Ensures :
        (ids : List ℕ) (ch : Reference) (found : List ℕ) (rows : Rows)
        → ref_ids ch.field ids (rows_in ch.entity rows) ≡ found
        → Ensures (Followed ids ch rows) (cascade_to go ch.entity found rows)
    to-Ensures ids ch [] rows e =
        Cascaded-Followed ids ch rows rows
          (subst (λ js. Cascaded ch.entity js rows rows) (sym e) (Cascaded-nothing ch.entity rows))
    to-Ensures ids ch (i ∷ is) rows e =
        weaken (go ch.entity (i ∷ is) rows) (cascading ch.entity (i ∷ is) rows)
      where
        weaken :
            (r : Option Rows)
            → Ensures (Cascaded ch.entity (i ∷ is) rows) r
            → Ensures (Followed ids ch rows) r
        weaken none k = tt
        weaken (some left) k =
            Cascaded-Followed ids ch rows left
              (subst (λ js. Cascaded ch.entity js rows left) (sym e) k)

    along-Ensures :
        (ids : List ℕ) (ch : Reference) (rule : OnDelete) (rows : Rows)
        → Ensures (Followed ids ch rows) (along go ids ch rule rows)
    along-Ensures ids ch cascade rows = to-Ensures ids ch _ rows refl
    along-Ensures ids ch restrict rows = to-Ensures ids ch _ rows refl
    along-Ensures ids ch set_null rows = nulling-Followed ids ch rows

    pub each-Ensures :
        (e : String) (ids : List ℕ) (chs : List Reference) (rows : Rows)
        → Ensures (FollowedAll e ids chs rows) (each_child go ids chs rows)
    unfolding each_child
    each-Ensures e ids [] rows = record {
      shrinks = Shrinks-refl rows;
      settles = λ D k p c h s m nz. elim (k p c h s m nz) [
        | inl there ↦ inl there
        | inr d ↦ elim d [ inl d ↦ inr d | inr none_left ↦ elim none_left.1 [ ] ]
      ];
    }
    each-Ensures e ids (ch ∷ chs) rows =
        then-Ensures (Followed ids ch rows) (FollowedAll e ids (ch ∷ chs) rows)
          (along go ids ch ch.on_delete rows) (each_child go ids chs)
          (along-Ensures ids ch ch.on_delete rows)
          λ mid k. weaken mid k (each_child go ids chs mid) (each-Ensures e ids chs mid)
      where
        weaken :
            (mid : Rows)
            → Followed ids ch rows mid
            → (r : Option Rows) → Ensures (FollowedAll e ids chs mid) r
            → Ensures (FollowedAll e ids (ch ∷ chs) rows) r
        weaken mid k none h = tt
        weaken mid k (some left) h = Followed-first e ids ch chs rows mid left k h
