-- ===== src/Registry/Semver.antt =====
-- internal/registry/semver.go: versions, their order, the choice of a tag and the ranges.
-- A text is the list of its bytes, and white space is the ASCII one. `cmp` answers by `Ordering`
-- (lt, eq, gt for -1, 0, 1). An error keeps the constructor of its message.
pub mod Print
pub mod Order
pub mod Loops
pub mod Select
mod Tests
use Prim.Native.Nat.{compare, Ordering}
use fct.Base.{
  ℕ, zero, suc, ◌+◌, ◌^◌, Bool, true, false, not, ◌&&◌, ◌||◌, Option, none, some, List, [], ◌∷◌,
  ◌++◌, length, drop, Result, ok, err, ltb, leb, ◌==◌, nat_eq, all, String, if◌then◌else◌,
}
use fct.Base.Text.{
  Text, codes, text_eq, cut_prefix, has_prefix, trim_prefix, cut_at, split, is_space, trim,
  is_digit,
}
use fct.Base.Decimal.{print_u64, value}

pub record Semver : Type 0 where
  pub major : ℕ
  pub minor : ℕ
  pub patch : ℕ

abbrev pub max_int : ℕ
max_int = 2 ^ 63

-- strconv.Atoi on a text without a sign: `parse_semver` has cut the text at the first `-` or `+`.
unfoldable pub atoi : Text → Option ℕ
atoi [] = none
atoi (c ∷ s) =
    if all is_digit (c ∷ s) && ltb (value 0 (c ∷ s)) max_int then some (value 0 (c ∷ s)) else none

-- The loop over the parts: a part that is missing counts as 0, and a fourth one is refused.
abbrev pub or_fail {ℓ κ} : {A : Type ℓ} {B : Type κ} → Option A → (A → Option B) → Option B
or_fail none k = none
or_fail (some a) k = k a

unfoldable pub numbers : List Text → Option Semver
numbers [] = none
numbers (a ∷ []) = or_fail (atoi a) λ x. some (record { major = x; minor = 0; patch = 0 })
numbers (a ∷ (b ∷ [])) =
    or_fail (atoi a) λ x. or_fail (atoi b) λ y. some (record { major = x; minor = y; patch = 0 })
numbers (a ∷ (b ∷ (c ∷ []))) = or_fail (atoi a) λ x.
    or_fail (atoi b) λ y. or_fail (atoi c) λ z. some (record { major = x; minor = y; patch = z })
numbers (a ∷ (b ∷ (c ∷ (d ∷ more)))) = none

abbrev pub ends_version : ℕ → Bool
ends_version c = c == b'-' || c == b'+'

abbrev pub non_empty : Text → Option Text
non_empty [] = none
non_empty (c ∷ s) = some (c ∷ s)

unfoldable pub parse_semver : Text → Option Semver
parse_semver s =
    or_fail (non_empty (cut_at ends_version (trim_prefix (codes "v") (trim is_space s))))
      λ core. numbers (split b'.' core)

-- The first difference decides.
unfoldable pub cmp : Semver → Semver → Ordering
cmp a b = elim (compare a.major b.major) [
  | Ordering.eq ↦ elim (compare a.minor b.minor) [
    | Ordering.eq ↦ compare a.patch b.patch
    | Ordering.lt ↦ Ordering.lt
    | Ordering.gt ↦ Ordering.gt
  ]
  | Ordering.lt ↦ Ordering.lt
  | Ordering.gt ↦ Ordering.gt
]

abbrev pub is_gt : Ordering → Bool
is_gt o = elim o [ Ordering.lt ↦ false | Ordering.eq ↦ false | Ordering.gt ↦ true ]

abbrev pub is_lt : Ordering → Bool
is_lt o = elim o [ Ordering.lt ↦ true | Ordering.eq ↦ false | Ordering.gt ↦ false ]

abbrev pub is_eq : Ordering → Bool
is_eq o = elim o [ Ordering.lt ↦ false | Ordering.eq ↦ true | Ordering.gt ↦ false ]

-- `String`: vMAJOR.MINOR.PATCH
unfoldable pub to_text : Semver → Text
to_text v = b'v' ∷ (print_u64 v.major ++ b'.' ∷ (print_u64 v.minor ++ b'.' ∷ print_u64 v.patch))

abbrev is_hex : ℕ → Bool
is_hex c = is_digit c || (leb b'a' c && leb c b'f') || (leb b'A' c && leb c b'F')

unfoldable pub is_hex_sha : Text → Bool
is_hex_sha s = length s == 40 && all is_hex s

abbrev pub parses : Text → Bool
parses s = elim (parse_semver s) [ none ↦ false | some v ↦ true ]

abbrev pub is_range_form : Text → Bool
is_range_form form = has_prefix (codes "^") form || has_prefix (codes "~") form

unfoldable pub is_tag_form : Text → Bool
is_tag_form form = if is_range_form form then parses (drop 1 form) else parses form

pub record Tag : Type 0 where
  pub name : Text
  pub commit : Text

pub record Cand : Type 0 where
  pub tag : Tag
  pub v : Semver

abbrev pub add_cand : Tag → Option Semver → List Cand → List Cand
add_cand t none cands = cands
add_cand t (some v) cands = record { tag = t; v = v } ∷ cands

-- The tags that are versions.
unfoldable pub candidates : List Tag → List Cand
candidates [] = []
candidates (t ∷ tags) = add_cand t (parse_semver t.name) (candidates tags)

-- The highest of a first candidate and the others; an equal one comes too late.
unfoldable pub highest : Cand → List Cand → Cand
highest best [] = best
highest best (c ∷ cs) = highest (if is_gt (cmp c.v best.v) then c else best) cs

-- What a caret or tilde range keeps: not below the base, in its major, and in its minor if tilde.
abbrev pub in_range : Bool → Semver → Semver → Bool
in_range caret base v =
    not (is_lt (cmp v base) || not (v.major == base.major))
    && not (not caret && not (v.minor == base.minor))

abbrev better : Cand → Option Cand → Cand
better c none = c
better c (some best) = if is_gt (cmp c.v best.v) then c else best

unfoldable pub highest_in_range : Bool → Semver → Option Cand → List Cand → Option Cand
highest_in_range caret base best [] = best
highest_in_range caret base best (c ∷ cs) =
    highest_in_range caret base (if in_range caret base c.v then some (better c best) else best) cs

unfoldable pub exact_match : Semver → List Cand → Option Cand
exact_match want [] = none
exact_match want (c ∷ cs) = if is_eq (cmp c.v want) then some c else exact_match want cs

pub data SelectError : Type 0 where
  no_tags invalid_range no_match invalid_version no_such_tag : SelectError

abbrev pub or_error : Option Cand → SelectError → Result SelectError Tag
or_error none e = err e
or_error (some c) e = ok c.tag

abbrev pub is_latest : Text → Bool
is_latest form = text_eq form [] || text_eq form (codes "latest")

abbrev pub select_in : Bool → List Cand → Option Semver → Result SelectError Tag
select_in caret cands none = err invalid_range
select_in caret cands (some base) = or_error (highest_in_range caret base none cands) no_match

abbrev pub select_exact : List Cand → Option Semver → Result SelectError Tag
select_exact cands none = err invalid_version
select_exact cands (some want) = or_error (exact_match want cands) no_such_tag

abbrev pub select_cand : Text → List Cand → Result SelectError Tag
select_cand form [] = err no_tags
select_cand form (c ∷ cs) =
    if is_latest form
    then ok (highest c cs).tag
    else if is_range_form form
    then select_in (has_prefix (codes "^") form) (c ∷ cs) (parse_semver (drop 1 form))
    else select_exact (c ∷ cs) (parse_semver form)

unfoldable pub select_tag : List Tag → Text → Result SelectError Tag
select_tag tags form = select_cand form (candidates tags)
