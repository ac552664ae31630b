-- ===== src/Registry/Semver/Tests.antt =====
-- Parsing, printing and choosing on a small list of tags.
use fct.Base.{◌≡◌, refl, some, List, [], ◌∷◌, ok, err, arith}
use fct.Base.Text.{codes, text_eq, cut_prefix, cut_at, split, trim}
use fct.Base.Decimal.{value}
use fct.Registry.Semver.{
  Semver, Tag, atoi, numbers, parse_semver, cmp, to_text, candidates, highest_in_range, select_tag,
  no_match,
}
use fct.Registry.Semver.Print.{parse_semver-to_text}
use fct.Registry.Semver.Select.{Selects, select_tag-Selects}

abbrev one_four_two : Semver
one_four_two = record { major = 1; minor = 4; patch = 2 }

parses_prerelease : parse_semver (codes " v1.4.2-rc1") ≡ some one_four_two
unfolding parse_semver trim cut_prefix cut_at split numbers atoi value
parses_prerelease = refl

parse_semver-to_text_example : parse_semver (to_text one_four_two) ≡ some one_four_two
parse_semver-to_text_example =
    parse_semver-to_text one_four_two (omega arith) (omega arith) (omega arith)

abbrev tags : List Tag
tags =
    record { name = codes "v1.2.0"; commit = codes "a" }
    ∷ record { name = codes "nightly"; commit = codes "b" }
    ∷ record { name = codes "v2.0.0"; commit = codes "c" }
    ∷ record { name = codes "v1.10.1"; commit = codes "d" }
    ∷ []

caret_chosen :
    select_tag tags (codes "^1.2.0") ≡ ok (record { name = codes "v1.10.1"; commit = codes "d" })
unfolding select_tag candidates highest_in_range cmp parse_semver trim cut_prefix cut_at split
    numbers atoi value text_eq
caret_chosen = refl

no_match_found : select_tag tags (codes "~3.0") ≡ err no_match
unfolding select_tag candidates highest_in_range cmp parse_semver trim cut_prefix cut_at split
    numbers atoi value text_eq
no_match_found = refl

select_tag-Selects_example : Selects tags (codes "^1.2.0") (select_tag tags (codes "^1.2.0"))
select_tag-Selects_example = select_tag-Selects tags (codes "^1.2.0")
