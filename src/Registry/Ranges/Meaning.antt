-- ===== src/Registry/Ranges/Meaning.antt =====
-- What the comparators of a range mean as bounds.
use fct.Base.{
  suc, ◌≡◌, refl, ap, true, false, not, ◌&&◌, some, List, [], ◌∷◌, nat_eq, if◌then◌else◌, arith,
  All, ◌↔◌,
}
use fct.Base.Text.{Text, cut_prefix}
use fct.Registry.Semver.{Semver, parse_semver, cmp, is_lt}
use fct.Registry.Ranges.{
  Answer, satisfies_one, satisfies_all, satisfies_range, fields, at_least, caret, tilde,
}

abbrev pub next_major : Semver → Semver
next_major b = record { major = suc b.major; minor = 0; patch = 0 }

abbrev pub next_minor : Semver → Semver
next_minor b = record { major = b.major; minor = suc b.minor; patch = 0 }

caret-eq : (v b : Semver) → caret v b ≡ (at_least v b && is_lt (cmp v (next_major b)))
unfolding cmp
caret-eq v b = ground arith

tilde-eq : (v b : Semver) → tilde v b ≡ (at_least v b && is_lt (cmp v (next_minor b)))
unfolding cmp
tilde-eq v b = ground arith

-- A caret range is from its version up to the next major one, a tilde range up to the next minor one.
pub record IsBounds (s : Text) (b v : Semver) : Type 0 where
  pub caret : satisfies_one (b'^' ∷ s) v ≡ (at_least v b && is_lt (cmp v (next_major b)), false)
  pub tilde : satisfies_one (b'~' ∷ s) v ≡ (at_least v b && is_lt (cmp v (next_minor b)), false)

-- `^b` accepts the versions from b on that are below the next major version, and `~b` those that are
-- below the next minor version, without an error, for every text that parses to b.
pub satisfies_one-IsBounds : (s : Text) (b v : Semver) → parse_semver s ≡ some b → IsBounds s b v
unfolding satisfies_one cut_prefix
satisfies_one-IsBounds s b v h = record {
  caret = rw h (ap (λ t. (t, false)) (caret-eq v b));
  tilde = rw h (ap (λ t. (t, false)) (tilde-eq v b));
}

Holds : Answer → Type 0
Holds a = a ≡ (true, false)

step_iff :
    (a r : Answer) → Holds (if a.1 then a else if not a.0 then a else r) ↔ (Holds a × Holds r)
unfolding Holds
step_iff (true, true) r = ((λ h. absurd (cc)), λ h. absurd (cc (h.0)))
step_iff (false, true) r = ((λ h. absurd (cc)), λ h. absurd (cc (h.0)))
step_iff (false, false) r = ((λ h. absurd (cc)), λ h. absurd (cc (h.0)))
step_iff (true, false) r = ((λ h. (refl, h)), λ h. h.1)

-- A range Holds without an error exactly if each of its comparators, separated by white space, does.
pub satisfies_range_iff :
    (expr : Text) (v : Semver)
    → (satisfies_range expr v ≡ (true, false))
      ↔ All (λ tok. satisfies_one tok v ≡ (true, false)) (fields expr)
unfolding satisfies_range satisfies_all Holds
satisfies_range_iff expr v = all_iff (fields expr)
  where
    all_iff :
        (toks : List Text)
        → (satisfies_all toks v ≡ (true, false))
          ↔ All (λ tok. satisfies_one tok v ≡ (true, false)) toks
    all_iff [] = ((λ h. tt), λ h. refl)
    all_iff (tok ∷ toks) =
        let here = step_iff (satisfies_one tok v) (satisfies_all toks v) in
        let later = all_iff toks in
        ((λ h. ((here.0 h).0, later.0 (here.0 h).1)), λ h. here.1 (h.0, later.1 h.1))
