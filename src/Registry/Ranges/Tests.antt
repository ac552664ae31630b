-- ===== src/Registry/Ranges/Tests.antt =====
-- A range of two comparators, a caret range and a malformed one.
use fct.Base.{◌≡◌, refl, true, false, some}
use fct.Base.Text.{codes, cut_prefix, cut_at, split, trim, trim_left, trim_right}
use fct.Base.Decimal.{value}
use fct.Registry.Semver.{Semver, parse_semver, numbers, atoi, cmp}
use fct.Registry.Ranges.{satisfies_range, satisfies_all, satisfies_one, fields, split_spaces}
use fct.Registry.Ranges.Meaning.{IsBounds, satisfies_one-IsBounds}

abbrev one_four : Semver
one_four = record { major = 1; minor = 4; patch = 2 }

within : satisfies_range (codes ">=1.4.0  <2.0.0") one_four ≡ (true, false)
unfolding satisfies_range satisfies_all satisfies_one fields split_spaces parse_semver numbers atoi
    cmp cut_prefix cut_at split trim trim_left trim_right value
within = refl

one_four_parsed : parse_semver (codes "1.4.2") ≡ some one_four
unfolding parse_semver numbers atoi cut_prefix cut_at split trim trim_left trim_right value
one_four_parsed = refl

satisfies_one-IsBounds_example : IsBounds (codes "1.4.2") one_four one_four
satisfies_one-IsBounds_example =
    satisfies_one-IsBounds (codes "1.4.2") one_four one_four one_four_parsed
