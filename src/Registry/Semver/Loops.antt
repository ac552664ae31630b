-- ===== src/Registry/Semver/Loops.antt =====
-- The three loops of `selectTag` over the candidates.
use fct.Base.{
  ◌≡◌, refl, sym, ap, ◌∙◌, subst, ◌⊎◌, inl, inr, Bool, true, false, Option, none, some, List, [],
  ◌∷◌, arith, In, Bool-cases,
}
use fct.Registry.Semver.{
  Semver, Cand, cmp, is_gt, is_eq, highest, in_range, highest_in_range, exact_match,
}
use fct.Registry.Semver.Order.{not_gt_trans, gt_not_gt, not_gt_refl}

-- One of the candidates, allowed, and not below any other that is allowed.
abbrev pub IsTop : (Semver → Bool) → List Cand → Cand → Type 0
IsTop allowed cands best =
    In best cands
    × (allowed best.v ≡ true)
    × ((d : Cand) → In d cands → allowed d.v ≡ true → is_gt (cmp d.v best.v) ≡ false)

abbrev pub NoneAllowed : (Semver → Bool) → List Cand → Type 0
NoneAllowed allowed cands = (d : Cand) → In d cands → allowed d.v ≡ false

some-eq : {a b : Cand} → some a ≡ some b → a ≡ b
some-eq h = cc

highest-top :
    (best : Cand) (cs : List Cand) (r : Cand)
    → highest best cs ≡ r
    → ((r ≡ best) ⊎ In r cs)
      × (is_gt (cmp best.v r.v) ≡ false)
      × ((d : Cand) → In d cs → is_gt (cmp d.v r.v) ≡ false)
unfolding highest
highest-top best [] r e = (
  inl (sym e),
  subst (λ (x : Cand). is_gt (cmp best.v x.v) ≡ false) e (not_gt_refl best.v),
  λ d i. elim i [ ],
)
highest-top best (c ∷ cs) r e = elim (Bool-cases (is_gt (cmp c.v best.v))) [
  | inl up ↦
      let (member, first, rest) = highest-top c cs r (rw (up, highest) at e) in
      (
        inr member,
        not_gt_trans best.v c.v r.v (gt_not_gt c.v best.v up) first,
        λ d i. elim i [ inl same ↦ rw same first | inr later ↦ rest d later ],
      )
  | inr down ↦
      let (member, first, rest) = highest-top best cs r (rw (down, highest) at e) in
      (
        elim member [ inl same ↦ inl same | inr later ↦ inr (inr later) ],
        first,
        λ d i. elim i [
          | inl same ↦ rw same (not_gt_trans c.v best.v r.v down first)
          | inr later ↦ rest d later
        ],
      )
]

pub latest-IsTop : (c : Cand) (cs : List Cand) → IsTop (λ v. true) (c ∷ cs) (highest c cs)
latest-IsTop c cs =
    let (member, first, rest) = highest-top c cs (highest c cs) refl in
    (member, refl, λ d i ok. elim i [ inl same ↦ rw same first | inr later ↦ rest d later ])

module _ (caret : Bool) (base : Semver) where
  abbrev pub allowed : Semver → Bool
  allowed = in_range caret base

  abbrev pub Fits : Option Cand → Type 0
  Fits none = Unit
  Fits (some x) = allowed x.v ≡ true

  -- What the loop knows of the best so far and of the candidates that are left.
  abbrev pub RangeTop : Option Cand → List Cand → Option Cand → Type 0
  RangeTop best cs none = (best ≡ none) × NoneAllowed allowed cs
  RangeTop best cs (some r) =
      ((best ≡ some r) ⊎ In r cs)
      × (allowed r.v ≡ true)
      × ((x : Cand) → best ≡ some x → is_gt (cmp x.v r.v) ≡ false)
      × ((d : Cand) → In d cs → allowed d.v ≡ true → is_gt (cmp d.v r.v) ≡ false)

  -- A candidate that is not allowed.
  skip-top :
      (best : Option Cand) (c : Cand) (cs : List Cand) (r : Option Cand)
      → allowed c.v ≡ false
      → RangeTop best cs r
      → RangeTop best (c ∷ cs) r
  skip-top best c cs none out (e, rest) =
      (e, λ d i. elim i [ inl same ↦ rw same out | inr later ↦ rest d later ])
  skip-top best c cs (some r) out (member, fits, first, rest) = (
    elim member [ inl same ↦ inl same | inr later ↦ inr (inr later) ],
    fits,
    first,
    λ d i ok. elim i [
      | inl same ↦ absurd (cc (out, ap (λ (x : Cand). allowed x.v) same, ok))
      | inr later ↦ rest d later ok
    ],
  )

  -- A candidate that becomes the best.
  take-top :
      (best : Option Cand) (c : Cand) (cs : List Cand) (r : Option Cand)
      → ((x : Cand) → best ≡ some x → is_gt (cmp x.v c.v) ≡ false)
      → RangeTop (some c) cs r
      → RangeTop best (c ∷ cs) r
  take-top best c cs none below (e, rest) = absurd (cc)
  take-top best c cs (some r) below (member, fits, first, rest) = (
    elim member [ inl same ↦ inr (inl (some-eq (sym same))) | inr later ↦ inr (inr later) ],
    fits,
    λ x e. not_gt_trans x.v c.v r.v (below x e) (first c refl),
    λ d i ok. elim i [ inl same ↦ rw same (first c refl) | inr later ↦ rest d later ok ],
  )

  -- A candidate that is allowed, and not above the best.
  hold-top :
      (b c : Cand) (cs : List Cand) (r : Option Cand)
      → is_gt (cmp c.v b.v) ≡ false
      → RangeTop (some b) cs r
      → RangeTop (some b) (c ∷ cs) r
  hold-top b c cs none below (e, rest) = absurd (cc)
  hold-top b c cs (some r) below (member, fits, first, rest) = (
    elim member [ inl same ↦ inl same | inr later ↦ inr (inr later) ],
    fits,
    first,
    λ d i ok. elim i [
      | inl same ↦ rw same (not_gt_trans c.v b.v r.v below (first b refl))
      | inr later ↦ rest d later ok
    ],
  )

  pub range-top :
      (best : Option Cand) (cs : List Cand) (r : Option Cand)
      → Fits best
      → highest_in_range caret base best cs ≡ r
      → RangeTop best cs r
  unfolding highest_in_range
  range-top none [] none f e = (refl, λ d i. elim i [ ])
  range-top none [] (some r) f e = absurd (cc)
  range-top (some b) [] none f e = absurd (cc)
  range-top (some b) [] (some r) f e = (
    inl e,
    subst (λ (x : Cand). allowed x.v ≡ true) (some-eq e) f,
    λ x k.
        subst (λ (y : Cand). is_gt (cmp x.v y.v) ≡ false) (some-eq (sym k ∙ e)) (not_gt_refl x.v),
    λ d i. elim i [ ],
  )
  range-top none (c ∷ cs) r f e = elim (Bool-cases (allowed c.v)) [
    | inl fit ↦
        take-top none c cs r (λ x k. absurd (cc))
          (range-top (some c) cs r fit (rw (fit, highest_in_range) at e))
    | inr out ↦ skip-top none c cs r out (range-top none cs r tt (rw (out, highest_in_range) at e))
  ]
  range-top (some b) (c ∷ cs) r f e = elim (Bool-cases (allowed c.v)) [
    | inl fit ↦ elim (Bool-cases (is_gt (cmp c.v b.v))) [
      | inl up ↦
          take-top (some b) c cs r
            (λ x k.
              subst (λ (y : Cand). is_gt (cmp y.v c.v) ≡ false) (some-eq k) (gt_not_gt c.v b.v up))
            (range-top (some c) cs r fit (rw (fit, up, highest_in_range) at e))
      | inr down ↦
          hold-top b c cs r down (range-top (some b) cs r f (rw (fit, down, highest_in_range) at e))
    ]
    | inr out ↦
        skip-top (some b) c cs r out (range-top (some b) cs r f (rw (out, highest_in_range) at e))
  ]

-- The loop of an exact form takes the first candidate that is equal.
abbrev pub ExactTop : Semver → List Cand → Option Cand → Type 0
ExactTop want cs none = NoneAllowed (λ v. is_eq (cmp v want)) cs
ExactTop want cs (some c) = In c cs × (is_eq (cmp c.v want) ≡ true)

pub exact-top :
    (want : Semver) (cs : List Cand) (r : Option Cand)
    → exact_match want cs ≡ r
    → ExactTop want cs r
unfolding exact_match
exact-top want [] none e = λ d i. elim i [ ]
exact-top want [] (some r) e = absurd (cc)
exact-top want (c ∷ cs) r e = elim (Bool-cases (is_eq (cmp c.v want))) [
  | inl hit ↦ subst (ExactTop want (c ∷ cs)) (rw (hit, exact_match) at e) (inl refl, hit)
  | inr miss ↦ later r miss (exact-top want cs r (rw (miss, exact_match) at e))
]
  where
    later :
        (r : Option Cand)
        → is_eq (cmp c.v want) ≡ false
        → ExactTop want cs r
        → ExactTop want (c ∷ cs) r
    later none no_hit rest = λ d i. elim i [ inl same ↦ rw same no_hit | inr more ↦ rest d more ]
    later (some x) no_hit (member, hit) = (inr member, hit)

pub is_eq-eq : (a b : Semver) → is_eq (cmp a b) ≡ true → a ≡ b
unfolding cmp
is_eq-eq a b h = ground arith
