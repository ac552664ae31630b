-- ===== src/Ir/Types/Cores.antt =====
-- The values of a core: numbers, texts, fields.
use fct.Base.{
  ℕ, Bool, true, false, not, ◌&&◌, ◌||◌, ◌≡◌, refl, sym, ap, subst, ◌∙◌, inl, inr, none, ◌==◌,
  string_eq, String, Map, lookup, arith, Bool-cases, Option-cases,
}
use fct.Runtime.Value.{Any, nil, int, float, row, is_float}
use fct.Ir.Types.{
  VType, one, unknown, known, vtype_eq, Tables, unify, numeric, arith_same, arith_type,
}
use fct.Ir.Types.Fits.{
  is_nil, is_int, is_text, scalar, fits_entity, fits_core, fits, fits_if_there, IsProper, is_plain,
}

module _ {F : Type 0} where
  -- What `toInt` and the operators take for a number: an int, a row or nothing.
  abbrev pub is_whole : Any F → Bool
  is_whole nil = true
  is_whole (int n) = true
  is_whole (row fields) = true
  is_whole v = false

  pub is_whole-float : (v : Any F) → is_whole v ≡ true → is_float v ≡ false
  is_whole-float nil e = refl
  is_whole-float (float f) e = absurd (cc)
  is_whole-float v e = refl

  scalar-int : (core : String) (v : Any F) → core ≡ "int" → scalar core v ≡ true → is_int v ≡ true
  scalar-int core v e h = rw e at h

  is_int-is_whole : (v : Any F) → is_int v ≡ true → is_whole v ≡ true
  is_int-is_whole (int n) e = refl
  is_int-is_whole nil e = refl
  is_int-is_whole (row r) e = refl
  is_int-is_whole v e = absurd (cc)

int-ne-text : ◌≡◌ {A = String} "int" "text" → ⊥
int-ne-text clash =
    let wrong : false ≡ true = (string_eq.decides "int" "text").1 clash in absurd (cc)

pub fits_core-int :
    (F : Type 0) (env : Tables) (c : String) (n : ℕ)
    → unify env c ≡ "int"
    → fits_core {F = F} env c (int n) ≡ true
unfolding fits_core
fits_core-int F env c n e = elim (Option-cases (lookup c env.entities)) [
  | inl alone ↦ rw (alone, e) refl
  | inr (types, found) ↦ rw found refl
]

nil-is_whole : {F : Type 0} (v : Any F) → is_nil v ≡ true → is_whole v ≡ true
nil-is_whole nil e = refl
nil-is_whole (int n) e = absurd (cc)
nil-is_whole v e = absurd (cc)

pub numeric-known : (env : Tables) (t : VType) → known (numeric env t) ≡ true → numeric env t ≡ t
unfolding numeric
numeric-known env t k = elim (Bool-cases (t.is_list || not (unify env t.core == "int"))) [
  | inl off ↦ absurd (cc (rw off at k))
  | inr on ↦ rw on refl
]

pub vtype_eq-known : (a b : VType) → vtype_eq a b ≡ true → known b ≡ known a
vtype_eq-known a b e =
    ap (λ core. not (core == "")) (sym ((string_eq.decides a.core b.core).0 (ground (arith))))

module _ {F : Type 0} (env : Tables) where
  pub fits_core-plain : (v : String) (x : Any F) → is_plain env v ≡ true → fits_core env v x ≡ true
  unfolding fits_core
  fits_core-plain v x e = elim (Option-cases (lookup v env.entities)) [
    | inl alone ↦ rw alone (ground (arith))
    | inr (types, found) ↦ absurd (cc (rw found at e))
  ]

  fits_entity-is_whole :
      (types : Map String String) (v : Any F) → fits_entity env types v ≡ true → is_whole v ≡ true
  fits_entity-is_whole types (int n) e = refl
  fits_entity-is_whole types (row r) e = refl
  fits_entity-is_whole types nil e = refl
  fits_entity-is_whole types v e = absurd (cc)

  pub fits_core-is_whole :
      (c : String) (v : Any F) → unify env c ≡ "int" → fits_core env c v ≡ true → is_whole v ≡ true
  unfolding fits_core
  fits_core-is_whole c v e h = elim (Option-cases (lookup c env.entities)) [
    | inl alone ↦ is_int-is_whole v (scalar-int _ v e (rw alone at h))
    | inr (types, found) ↦ fits_entity-is_whole types v (rw found at h)
  ]

  -- A core of its own: no entity's, with its own name.
  pub fits_core_alone :
      (c d : String) (v : Any F)
      → lookup c env.entities ≡ none
      → unify env c ≡ d
      → fits_core env c v ≡ scalar d v
  unfolding fits_core
  fits_core_alone c d v alone e = rw (alone, e) refl

  pub fits_core-is_text :
      (c : String) (v : Any F)
      → IsProper env
      → unify env c ≡ "text"
      → fits_core env c v ≡ true
      → is_text v ≡ true
  fits_core-is_text c v proper e h = elim (Option-cases (lookup c env.entities)) [
    | inl alone ↦ sym (fits_core_alone c "text" v alone e) ∙ h
    | inr (types, found) ↦
        let clash : "int" ≡ "text" = sym (proper.entity_unify c (rw found refl)) ∙ e in
        absurd (int-ne-text clash)
  ]

  pub fits-is_int :
      (t : VType) (v : Any F)
      → t.is_list ≡ false
      → unify env t.core ≡ "int"
      → is_int v ≡ true
      → fits env t v ≡ true
  unfolding fits
  fits-is_int t (int n) single e i = ground (arith, fits_core-int F env t.core n e)
  fits-is_int t nil single e i = absurd (cc)
  fits-is_int t v single e i = absurd (cc)

  whole_of :
      (t : VType) (firm : Bool) (v : Any F)
      → unify env t.core ≡ "int"
      → ((not firm && is_nil v) || fits_core env t.core v) ≡ true
      → is_whole v ≡ true
  whole_of t firm v e h = elim (Bool-cases (fits_core env t.core v)) [
    | inl fit ↦ fits_core-is_whole t.core v e fit
    | inr not_fit ↦ nil-is_whole v (ground (arith))
  ]

  -- What a known type that is a number says of a value which has it, or is absent.
  pub whole_if_there :
      (t : VType) (firm : Bool) (v : Any F)
      → known (numeric env t) ≡ true
      → fits_if_there env firm t v ≡ true
      → (t.is_list ≡ false) × (unify env t.core ≡ "int") × (is_whole v ≡ true)
  unfolding fits numeric
  whole_if_there t firm v k h = elim (Bool-cases (t.is_list || not (unify env t.core == "int"))) [
    | inl off ↦ absurd (cc (rw off at k))
    | inr on ↦
        let single : t.is_list ≡ false = ground (arith) in
        let same : unify env t.core ≡ "int" =
          (string_eq.decides (unify env t.core) "int").0 (ground (arith)) in
        let is_known : known t ≡ true = rw on at k in
        (single, same, whole_of t firm v same (ground (arith)))
  ]

  pub fits-unknown : (t : VType) (v : Any F) → known t ≡ false → fits env t v ≡ true
  unfolding fits
  fits-unknown t v e = rw e refl

  arith_same-fits :
      (a b : VType) (v : Any F)
      → (known a ≡ true → known b ≡ true → (fits env a v ≡ true) × (fits env (one "int") v ≡ true))
      → fits env (arith_same a b) v ≡ true
  arith_same-fits a b v k = elim (Bool-cases (known a)) [
    | inr off ↦ elim (Bool-cases (vtype_eq a b)) [
      | inl same ↦ rw same (fits-unknown a v off)
      | inr other ↦ rw (other, off) (fits-unknown unknown v refl)
    ]
    | inl on ↦ elim (Bool-cases (vtype_eq a b)) [
      | inl same ↦ rw same (k on (vtype_eq-known a b same ∙ on)).0
      | inr other ↦ elim (Bool-cases (known b)) [
        | inl on_b ↦ rw (other, on, on_b) (k on on_b).1
        | inr off ↦ rw (other, on, off) (fits-unknown unknown v refl)
      ]
    ]
  ]

  pub arith-fits :
      (l r : VType) (firm_l firm_r : Bool) (x y result : Any F)
      → IsProper env
      → fits_if_there env firm_l l x ≡ true
      → fits_if_there env firm_r r y ≡ true
      → (is_whole x ≡ true → is_whole y ≡ true → is_int result ≡ true)
      → fits env (arith_type env l r) result ≡ true
  unfolding arith_type
  arith-fits l r firm_l firm_r x y result proper hl hr k =
      arith_same-fits (numeric env l) (numeric env r) result λ kl kr.
        let wl = whole_if_there l firm_l x kl hl in
        let wr = whole_if_there r firm_r y kr hr in
        let whole = k wl.2 wr.2 in
        (
          subst (λ t. fits env t result ≡ true) (sym (numeric-known env l kl))
              (fits-is_int l result wl.0 wl.1 whole),
          fits-is_int (one "int") result refl proper.int_unify whole,
        )
