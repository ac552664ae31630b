-- ===== src/Ir/Params/Tests.antt =====
-- An optional parameter before a required one counts, one after it does not.
use fct.Base.{◌≡◌, refl, true, false, List, [], ◌∷◌, leb, all, drop}
use fct.Ir.Params.{Param, required_arity, arity_from}
use fct.Ir.Params.Arity.{optional, required_arity-leb}

abbrev post : List Param
post =
    record { is_optional = true }
    ∷ record { is_optional = false }
    ∷ record { is_optional = true }
    ∷ []

post_arity : required_arity post ≡ 2
unfolding required_arity arity_from
post_arity = refl

required_arity-leb_example : leb (required_arity post) 2 ≡ all optional (drop 2 post)
required_arity-leb_example = required_arity-leb 2 post
