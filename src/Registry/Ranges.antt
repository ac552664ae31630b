-- ===== src/Registry/Ranges.antt =====
-- internal/registry/semver.go: satisfiesRange and satisfiesOne, the comparators of a version range.
-- White space is the ASCII one. The second part of a result is whether there is an error.
pub mod Meaning
mod Tests
use fct.Base.{
  ℕ, Bool, true, false, not, ◌&&◌, Option, none, some, List, [], ◌∷◌, ◌==◌, nat_eq, if◌then◌else◌,
  keep,
}
use fct.Base.Text.{Text, codes, cut_prefix, is_space, cons_part}
use fct.Registry.Semver.{Semver, parse_semver, cmp, is_gt, is_lt, is_eq}

abbrev pub Answer : Type 0
Answer = Bool × Bool

abbrev pub not_empty : Text → Bool
not_empty [] = false
not_empty (c ∷ s) = true

unfoldable pub split_spaces : Text → List Text
split_spaces [] = [] ∷ []
split_spaces (c ∷ s) =
    let rest = split_spaces s in if is_space c then [] ∷ rest else cons_part c rest

-- strings.Fields
unfoldable pub fields : Text → List Text
unfolding split_spaces
fields s = keep not_empty (split_spaces s)

abbrev pub zero_version : Semver
zero_version = record { major = 0; minor = 0; patch = 0 }

-- What a comparator answers with the version that its text parses to, or with 0.0.0 and an error.
abbrev pub against : (Semver → Bool) → Option Semver → Answer
against test none = (test zero_version, true)
against test (some b) = (test b, false)

abbrev pub at_least : Semver → Semver → Bool
at_least v b = not (is_lt (cmp v b))

abbrev pub caret : Semver → Semver → Bool
caret v b = at_least v b && v.major == b.major

abbrev pub tilde : Semver → Semver → Bool
tilde v b = at_least v b && (v.major == b.major && v.minor == b.minor)

-- The prefixes in the order of the switch.
abbrev pub case_of : Option Text → (Semver → Bool) → Answer → Answer
case_of none test otherwise = otherwise
case_of (some rest) test otherwise = against test (parse_semver rest)

unfoldable pub satisfies_one : Text → Semver → Answer
satisfies_one tok v = case_of (cut_prefix (codes ">=") tok) (at_least v) (
    case_of (cut_prefix (codes "<=") tok) (λ b. not (is_gt (cmp v b)))
      (case_of (cut_prefix (codes ">") tok) (λ b. is_gt (cmp v b))
        (case_of (cut_prefix (codes "<") tok) (λ b. is_lt (cmp v b))
          (case_of (cut_prefix (codes "=") tok) (λ b. is_eq (cmp v b))
            (case_of (cut_prefix (codes "^") tok) (caret v) (
              case_of (cut_prefix (codes "~") tok) (tilde v)
                (against (λ b. is_eq (cmp v b)) (parse_semver tok))))))))

-- The loop ends at the first token that fails or is malformed.
unfoldable pub satisfies_all : List Text → Semver → Answer
satisfies_all [] v = (true, false)
satisfies_all (tok ∷ toks) v =
    let rest = satisfies_all toks v in
    if (satisfies_one tok v).1
    then satisfies_one tok v
    else if not (satisfies_one tok v).0
    then satisfies_one tok v
    else rest

unfoldable pub satisfies_range : Text → Semver → Answer
unfolding satisfies_all fields
satisfies_range expr v = satisfies_all (fields expr) v
