-- ===== src/Registry/Semver/Select.antt =====
-- What a selection form asks for, and that `selectTag` answers with the highest such tag.
use fct.Base.{
  ◌≡◌, refl, sym, ap, ◌∙◌, subst, inl, inr, Bool, true, false, Option, none, some, List, [], ◌∷◌,
  Result, ok, err, In, drop, if◌then◌else◌, Bool-cases, Option-cases,
}
use fct.Base.Text.{Text, codes, has_prefix}
use fct.Registry.Semver.{
  Semver, Tag, Cand, parse_semver, cmp, is_gt, is_eq, candidates, add_cand, highest, in_range,
  highest_in_range, exact_match, SelectError, no_tags, invalid_range, no_match, invalid_version,
  no_such_tag, is_latest, is_range_form, select_in, select_exact, select_cand, select_tag, or_error,
}
use fct.Registry.Semver.Loops.{IsTop, NoneAllowed, latest-IsTop, range-top, exact-top, is_eq-eq}
use fct.Registry.Semver.Order.{not_gt_refl}

-- The versions that a form allows; none if it is not a form.
abbrev pub range_meaning : Bool → Option Semver → Option (Semver → Bool)
range_meaning caret none = none
range_meaning caret (some base) = some (in_range caret base)

abbrev pub exact_meaning : Option Semver → Option (Semver → Bool)
exact_meaning none = none
exact_meaning (some want) = some (λ v. is_eq (cmp v want))

abbrev pub meaning : Text → Option (Semver → Bool)
meaning form =
    if is_latest form
    then some (λ v. true)
    else if is_range_form form
    then range_meaning (has_prefix (codes "^") form) (parse_semver (drop 1 form))
    else exact_meaning (parse_semver form)

-- Candidates and the tags that they come from.
abbrev Reads : List Tag → Tag → Semver → Type 0
Reads tags t v = In t tags × (parse_semver t.name ≡ some v)

add-Reads :
    (t : Tag) (tags : List Tag) (o : Option Semver) (cs : List Cand) (c : Cand)
    → parse_semver t.name ≡ o
    → (In c cs → Reads tags c.tag c.v)
    → In c (add_cand t o cs)
    → Reads (t ∷ tags) c.tag c.v
add-Reads t tags none cs c p ih i = (inr (ih i).0, (ih i).1)
add-Reads t tags (some v) cs c p ih (inl same) = (
  inl (ap (λ (x : Cand). x.tag) same),
  rw (ap (λ (x : Cand). x.tag) same, ap (λ (x : Cand). x.v) same) p,
)
add-Reads t tags (some v) cs c p ih (inr i) = (inr (ih i).0, (ih i).1)

candidates-Reads : (tags : List Tag) (c : Cand) → In c (candidates tags) → Reads tags c.tag c.v
unfolding candidates
candidates-Reads [] c i = elim i [ ]
candidates-Reads (t ∷ tags) c i =
    add-Reads t tags (parse_semver t.name) (candidates tags) c refl (candidates-Reads tags c) i

add-In :
    (t : Tag) (o : Option Semver) (cs : List Cand) (c : Cand) → In c cs → In c (add_cand t o cs)
add-In t none cs c i = i
add-In t (some v) cs c i = inr i

Reads-candidates :
    (tags : List Tag) (t : Tag) (v : Semver)
    → Reads tags t v
    → In (record { tag = t; v = v }) (candidates tags)
unfolding candidates
Reads-candidates [] t v (i, p) = elim i [ ]
Reads-candidates (u ∷ tags) t v (inl same, p) =
    rw (ap (λ (x : Tag). parse_semver x.name) (sym same) ∙ p)
      (inl (λ j. record { tag = same j; v = v }))
Reads-candidates (u ∷ tags) t v (inr i, p) =
    add-In u (parse_semver u.name) (candidates tags) _ (Reads-candidates tags t v (i, p))

-- A tag of the list that is an allowed version, and not below any other that is.
pub record IsBest (tags : List Tag) (allowed : Semver → Bool) (t : Tag) : Type 0 where
  pub version : Semver
  pub listed : Reads tags t version
  pub fits : allowed version ≡ true
  pub top :
      (u : Tag) (w : Semver) → Reads tags u w → allowed w ≡ true → is_gt (cmp w version) ≡ false

IsTop-IsBest :
    (tags : List Tag) (allowed : Semver → Bool) (c : Cand)
    → IsTop allowed (candidates tags) c
    → IsBest tags allowed c.tag
IsTop-IsBest tags allowed c (member, fits, top) = record {
  version = c.v;
  listed = candidates-Reads tags c member;
  fits = fits;
  top = λ u w r fit. top (record { tag = u; v = w }) (Reads-candidates tags u w r) fit;
}

abbrev NoneFits : List Tag → (Semver → Bool) → Type 0
NoneFits tags allowed = (u : Tag) (w : Semver) → Reads tags u w → allowed w ≡ false

NoneAllowed-NoneFits :
    (tags : List Tag) (allowed : Semver → Bool)
    → NoneAllowed allowed (candidates tags)
    → NoneFits tags allowed
NoneAllowed-NoneFits tags allowed h u w r =
    h (record { tag = u; v = w }) (Reads-candidates tags u w r)

-- What each answer to a form says.
abbrev pub Selects : List Tag → Text → Result SelectError Tag → Type 0
Selects tags form (ok t) =
    (allowed : Semver → Bool) × (meaning form ≡ some allowed) × IsBest tags allowed t
Selects tags form (err no_tags) = (u : Tag) → In u tags → parse_semver u.name ≡ none
Selects tags form (err invalid_range) = meaning form ≡ none
Selects tags form (err invalid_version) = meaning form ≡ none
Selects tags form (err no_match) =
    (allowed : Semver → Bool) × (meaning form ≡ some allowed) × NoneFits tags allowed
Selects tags form (err no_such_tag) =
    (allowed : Semver → Bool) × (meaning form ≡ some allowed) × NoneFits tags allowed

no_cands :
    (tags : List Tag) → candidates tags ≡ [] → (u : Tag) → In u tags → parse_semver u.name ≡ none
no_cands tags e u i = elim (Option-cases (parse_semver u.name)) [
  | inl h ↦ h
  | inr (v, h) ↦ absurd (rw e at (Reads-candidates tags u v (i, h)))
]

module _ (tags : List Tag) (form : Text) where
  range-Selects :
      (caret : Bool) (o : Option Semver)
      → meaning form ≡ range_meaning caret o
      → Selects tags form (select_in caret (candidates tags) o)
  range-Selects caret none m = m
  range-Selects caret (some base) m = go (highest_in_range caret base none (candidates tags)) refl
    where
      go :
          (r : Option Cand)
          → highest_in_range caret base none (candidates tags) ≡ r
          → Selects tags form (or_error r no_match)
      go none e = (
        in_range caret base,
        m,
        NoneAllowed-NoneFits tags (in_range caret base)
            (range-top caret base none (candidates tags) none tt e).1,
      )
      go (some c) e =
          let (member, fits, first, rest) =
            range-top caret base none (candidates tags) (some c) tt e in
          (
            in_range caret base,
            m,
            IsTop-IsBest tags (in_range caret base) c
                (elim member [ inl no_best ↦ absurd (cc) | inr i ↦ i ], fits, rest),
          )

  exact-Selects :
      (o : Option Semver)
      → meaning form ≡ exact_meaning o
      → Selects tags form (select_exact (candidates tags) o)
  exact-Selects none m = m
  exact-Selects (some want) m = go (exact_match want (candidates tags)) refl
    where
      equal : Semver → Bool
      equal v = is_eq (cmp v want)

      go :
          (r : Option Cand)
          → exact_match want (candidates tags) ≡ r
          → Selects tags form (or_error r no_such_tag)
      go none e =
          (equal, m, NoneAllowed-NoneFits tags equal (exact-top want (candidates tags) none e))
      go (some c) e =
          let (member, hit) = exact-top want (candidates tags) (some c) e in
          (
            equal,
            m,
            IsTop-IsBest tags equal c (
              member,
              hit,
              λ d i fit. rw (is_eq-eq d.v want fit, is_eq-eq c.v want hit) (not_gt_refl want),
            ),
          )

  -- A tag that is chosen is a listed version that the form allows, and none that it allows is above
  -- it. Each error is given only for its reason: no tag is a version, the form is none, or no version
  -- among the tags is allowed.
  pub select_tag-Selects : Selects tags form (select_tag tags form)
  unfolding select_tag
  select_tag-Selects = go (candidates tags) refl
    where
      go : (cs : List Cand) → candidates tags ≡ cs → Selects tags form (select_cand form cs)
      go [] e = no_cands tags e
      go (c ∷ cs) e = elim (Bool-cases (is_latest form)) [
        | inl latest ↦ rw latest (
          (λ v. true),
          rw latest,
          IsTop-IsBest tags (λ v. true) (highest c cs)
              (subst (λ l. IsTop (λ v. true) l (highest c cs)) (sym e) (latest-IsTop c cs)),
        )
        | inr other ↦
            let caret = has_prefix (codes "^") form in
            let base = parse_semver (drop 1 form) in
            let want = parse_semver form in
            rw other (elim (Bool-cases (is_range_form form)) [
              | inl range ↦ rw range (
                  subst (λ l. Selects tags form (select_in caret l base)) e
                    (range-Selects caret base (rw (other, range))))
              | inr exact ↦ rw exact (
                  subst (λ l. Selects tags form (select_exact l want)) e
                    (exact-Selects want (rw (other, exact))))
            ])
      ]
