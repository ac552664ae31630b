-- ===== src/Ir/Params.antt =====
-- internal/ir/build.go: requiredArity and requiredAstArity, how many arguments a call must give.
-- Of a parameter only its optional mark is read.
pub mod Arity
mod Tests
use fct.Base.{ℕ, suc, Bool, true, false, List, [], ◌∷◌, if◌then◌else◌}

pub record Param : Type 0 where
  pub is_optional : Bool

-- The loop at index i, with n so far.
unfoldable pub arity_from : ℕ → ℕ → List Param → ℕ
arity_from i n [] = n
arity_from i n (p ∷ ps) = arity_from (suc i) (if p.is_optional then n else suc i) ps

unfoldable pub required_arity : List Param → ℕ
required_arity ps = arity_from 0 0 ps
